-- ===== src/Durable/Queue.antt =====
-- src/durable/store.ts: enqueueJob, claimJob and the maintenance of expired leases.
use odin_agent.Prelude.{
  ℕ, ◌+◌, Bool, ◌&&◌, Option, none, some, [], ◌∷◌, ◌++◌, String, str_eq, ltb, leb, length, select,
  Result, ok, ◌>>=◌, ◌>>◌, guard, fold_result, if◌then◌else◌,
}
use odin_agent.Durable.Types.{
  JobEnqueueInput, DurableJobRecord, JobLease, JobLifecycleType, DurableError, type_error, conflict,
  corruption, pending, running, job_enqueued, job_claimed, job_reclaimed, is_identifier, is_between,
  add_milliseconds,
}
use odin_agent.Durable.Rows.{
  JobRow, IdempotencyRow, JobEventInput, Db, find_job, find_key, decode_job_row, require_job,
}
use odin_agent.Durable.Jobs.{
  Platform, is_running, set_claimed, update, is_spent, is_abandoned, sort_by_id, first_ready,
  check_enqueue, append_job_event, event_of, block_running_job, cancel_running_job,
}

abbrev pub new_row : JobEnqueueInput → String → JobRow
new_row i fingerprint = record {
  job_id = i.job_id;
  mission_id = i.mission_id;
  task_id = i.task_id;
  priority = i.priority;
  status = pending;
  max_attempts = i.max_attempts;
  attempt_count = 0;
  available_at = i.available_at;
  payload = i.payload;
  lease_generation = 0;
  lease_worker_id = none;
  lease_token_hash = none;
  lease_expires_at = none;
  result_artifact_id = none;
  result_sha256 = none;
  created_at = i.created_at;
  updated_at = i.created_at;
  enqueue_fingerprint = fingerprint;
}

abbrev pub enqueued_event : JobEnqueueInput → JobEventInput
enqueued_event i = record {
  mission_id = i.mission_id;
  job_id = i.job_id;
  type = job_enqueued;
  status = pending;
  generation = 0;
  occurred_at = i.created_at;
  reason_code = none;
}

abbrev pub claim_type : Bool → JobLifecycleType
claim_type reclaimed = if reclaimed then job_reclaimed else job_claimed

abbrev pub claim_reason : Bool → Option String
claim_reason reclaimed = if reclaimed then some "lease_expired" else none

abbrev pub lease_of : DurableJobRecord → String → String → ℕ → JobLease
lease_of job worker_id token expires_at = record {
  job_id = job.job_id;
  mission_id = job.mission_id;
  task_id = job.task_id;
  worker_id = worker_id;
  attempt = job.attempt_count + 1;
  generation = job.lease_generation + 1;
  token = token;
  expires_at = expires_at;
  payload = job.payload;
}

module _ (p : Platform) where
  -- `INSERT INTO job_idempotency`
  abbrev pub add_key : JobEnqueueInput → Db → Db
  add_key i db = record db {
    job_idempotency =
        db.job_idempotency
        ++ record {
          mission_id = i.mission_id;
          idempotency_key = i.idempotency_key;
          job_id = i.job_id;
          fingerprint = p.job_fingerprint i;
        }
          ∷ [];
  }

  -- `INSERT INTO jobs`
  abbrev pub add_job : JobEnqueueInput → Db → Db
  add_job i db = record db { jobs = db.jobs ++ new_row i (p.job_fingerprint i) ∷ [] }

  abbrev pub enqueue_replayed :
      Db → JobEnqueueInput → IdempotencyRow → Result DurableError (Db × DurableJobRecord)
  enqueue_replayed db i replay =
      guard (str_eq replay.fingerprint (p.job_fingerprint i) && str_eq replay.job_id i.job_id)
        conflict
      >> (require_job db i.job_id >>= λ job. ok (db, job))

  abbrev pub enqueue_again :
      Db → JobEnqueueInput → JobRow → Result DurableError (Db × DurableJobRecord)
  enqueue_again db i existing =
      guard (str_eq existing.enqueue_fingerprint (p.job_fingerprint i)) conflict
      >> (decode_job_row existing >>= λ job. ok (add_key i db, job))

  abbrev pub enqueue_new : Db → JobEnqueueInput → Result DurableError (Db × DurableJobRecord)
  enqueue_new db i =
      guard (ltb (length db.jobs) p.limits.max_jobs) conflict
      >> (append_job_event p (add_key i (add_job i db)) (enqueued_event i) >>= λ logged.
          require_job logged i.job_id >>= λ job. ok (logged, job))

  unfoldable pub enqueue_job : Db → JobEnqueueInput → Result DurableError (Db × DurableJobRecord)
  enqueue_job db i =
      guard (check_enqueue i) type_error
      >> elim (find_key i.mission_id i.idempotency_key db.job_idempotency) [
        | some replay ↦ enqueue_replayed db i replay
        | none ↦ elim (find_job i.job_id db.jobs) [
          | some existing ↦ enqueue_again db i existing
          | none ↦ enqueue_new db i
        ]
      ]

  abbrev pub block_spent : ℕ → Db → JobRow → Result DurableError Db
  block_spent now db row = decode_job_row row >>= λ job.
      block_running_job p db job now "attempts_exhausted" >>= λ w. ok w.0

  abbrev pub cancel_abandoned : ℕ → Db → JobRow → Result DurableError Db
  cancel_abandoned now db row = decode_job_row row >>= λ job.
      cancel_running_job p db job now "cancel_lease_expired" >>= λ w. ok w.0

  -- `#maintainExpiredJobs`
  unfoldable pub maintain_expired_jobs : Db → ℕ → Result DurableError Db
  maintain_expired_jobs db now =
      fold_result (block_spent now) db (sort_by_id (select (is_spent now) db.jobs))
      >>= λ blocked_db.
          fold_result (cancel_abandoned now) blocked_db
            (sort_by_id (select (is_abandoned now) blocked_db.jobs))

  -- The claim of the chosen row.
  unfoldable pub claim_row :
      Db → JobRow → String → String → ℕ → ℕ → Result DurableError (Db × JobLease)
  claim_row db row worker_id token expires_at now = decode_job_row row >>= λ job.
      guard (leb (job.attempt_count + 1) job.max_attempts) corruption
      >> (append_job_event p
            (update job.job_id
              (set_claimed (job.attempt_count + 1) (job.lease_generation + 1) worker_id
                (p.hash_text token) expires_at now)
              db)
            (event_of p job (claim_type (is_running job.status)) running (job.lease_generation + 1)
              now (claim_reason (is_running job.status)))
          >>= λ logged. ok (logged, lease_of job worker_id token expires_at))

  unfoldable pub claim_job :
      Db → String → String → ℕ → ℕ → Result DurableError (Db × Option JobLease)
  claim_job db worker_id token now lease_ms =
      guard (is_identifier 200 worker_id && is_between 1 p.limits.max_lease_ms lease_ms) type_error
      >> (add_milliseconds now lease_ms >>= λ expires_at. maintain_expired_jobs db now >>= λ kept.
          elim (first_ready now kept.jobs) [
            | none ↦ ok (kept, none)
            | some row ↦
                claim_row kept row worker_id token expires_at now >>= λ w. ok (w.0, some w.1)
          ])
