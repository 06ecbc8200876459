-- ===== src/Durable/Calls.antt =====
-- src/durable/store.ts: the calls of the store as transactions.
use odin_agent.Prelude.{ℕ, List, [], ◌∷◌, String, Result, ok, err}
use odin_agent.Durable.Types.{ArtifactReference, JobEnqueueInput, JobLease, DurableError}
use odin_agent.Durable.Rows.{Db}
use odin_agent.Durable.Jobs.{Platform}
use odin_agent.Durable.Queue.{enqueue_job, claim_job}
use odin_agent.Durable.Settle.{
  heartbeat_job, settle_job_success, settle_job_retry, settle_job_blocked, settle_job_cancelled,
  cancel_job,
}

pub data JobCall : Type 0 where
  enqueue : JobEnqueueInput → JobCall
  claim : String → String → ℕ → ℕ → JobCall
  heartbeat : JobLease → ℕ → ℕ → JobCall
  succeed : JobLease → ArtifactReference → ℕ → JobCall
  retry : JobLease → String → ℕ → ℕ → JobCall
  block : JobLease → String → ℕ → JobCall
  cancel_lease : JobLease → ℕ → JobCall
  cancel : String → ℕ → JobCall

-- The database that a body which did not throw leaves.
abbrev pub written {ℓ} : {A : Type ℓ} → Result DurableError (Db × A) → Result DurableError Db
written (ok w) = ok w.0
written (err e) = err e

-- `withImmediateTransaction`: COMMIT, or ROLLBACK to the database before.
abbrev pub committed : Db → Result DurableError Db → Db
committed db (ok after) = after
committed db (err e) = db

module _ (p : Platform) where
  unfoldable pub body : Db → JobCall → Result DurableError Db
  body db (enqueue i) = written (enqueue_job p db i)
  body db (claim worker_id token now lease_ms) =
      written (claim_job p db worker_id token now lease_ms)
  body db (heartbeat lease now lease_ms) = written (heartbeat_job p db lease now lease_ms)
  body db (succeed lease result now) = written (settle_job_success p db lease result now)
  body db (retry lease reason delay now) = written (settle_job_retry p db lease reason delay now)
  body db (block lease reason now) = written (settle_job_blocked p db lease reason now)
  body db (cancel_lease lease now) = written (settle_job_cancelled p db lease now)
  body db (cancel id now) = written (cancel_job p db id now)

  unfoldable pub run : Db → JobCall → Db
  run db c = committed db (body db c)

  -- The database after calls in the order in which SQLite runs their transactions.
  unfoldable pub run_all : Db → List JobCall → Db
  run_all db [] = db
  run_all db (c ∷ cs) = run_all (run db c) cs
