-- ===== src/Durable/Refinement.antt =====
-- src/durable/store.ts: the settlements, the heartbeat and the cancellation move along the state machine.
pub mod Settling
pub mod Selected
pub mod Maintenance
pub mod Queueing
use odin_agent.Prelude.{
  ℕ, suc, ◌+◌, ◌<◌, ◌≤◌, ◌≡◌, refl, sym, ap, ◌∙◌, subst, Bool, true, false, not, ◌&&◌, ◌||◌, Option,
  none, some, List, [], ◌∷◌, ◌++◌, String, str_eq, arith, eq_iff, eq_refl, Bool-cases, Option-cases,
  Result-cases, inl, inr, if◌then◌else◌, ltb, leb, ◌==◌, length, Result, ok, err, ◌>>=◌, ◌>>◌,
  guard,
}
use odin_agent.Prelude.Number.{max_safe}
use odin_agent.Durable.Types.{
  ArtifactReference, DurableJobStatus, DurableJobRecord, JobLease, DurableError, JobLifecycleType,
  pending, running, retry_wait, cancelling, cancelled, succeeded, blocked, is_identifier,
  is_artifact, is_reason_code, is_between, add_milliseconds, job_blocked, job_cancelled,
}
use odin_agent.Durable.Rows.{
  JobRow, JobEventInput, Db, find_job, update_job, holds_lease, is_intact, decoded, decode_job_row,
  require_job,
}
use odin_agent.Durable.Jobs.{
  Platform, is_running, is_cancelling, is_waiting, is_live, same_text, settled, set_succeeded,
  set_retry, set_status, set_expiry, update, check_lease, append_job_event, event_of, write,
  block_running_job, cancel_running_job, require_valid_lease,
}
use odin_agent.Durable.Machine.{
  Change, blocks, cancels, succeeds, retries, drops, asks, extends, Moves, still, changed,
}
use odin_agent.Durable.Machine.Later.{find_job-id}

pub decode-ok :
    (row : JobRow) (job : DurableJobRecord) → decode_job_row row ≡ ok job → job ≡ decoded row
unfolding decode_job_row
decode-ok row job h = ground arith

pub require_job-ok :
    (db : Db) (id : String) (job : DurableJobRecord)
    → require_job db id ≡ ok job
    → (row : JobRow) × (find_job id db.jobs ≡ some row)
      × (job ≡ decoded row)
      × (find_job row.job_id db.jobs ≡ some row)
unfolding require_job
require_job-ok db id job h = elim (Option-cases (find_job id db.jobs)) [
  | inl p ↦ absurd (ground arith)
  | inr (row, p) ↦ (
    row,
    p,
    decode-ok row job (ground arith),
    subst (λ i. find_job i db.jobs ≡ some row) (sym (find_job-id id db.jobs row p)) p,
  )
]

module _ (p : Platform) where
  -- What a lease is checked for.
  pub record IsLeased (db : Db) (lease : JobLease) (now : ℕ) (job : DurableJobRecord) : Type 0 where
    pub row : JobRow
    pub found : find_job lease.job_id db.jobs ≡ some row
    pub named : find_job row.job_id db.jobs ≡ some row
    pub shown : job ≡ decoded row
    pub worker : same_text row.lease_worker_id lease.worker_id ≡ true
    pub fenced : row.lease_generation ≡ lease.generation
    pub token : same_text row.lease_token_hash (p.hash_text lease.token) ≡ true
    pub live : is_live row.lease_expires_at now ≡ true
    pub held : holds_lease row.status ≡ true

  pub require_valid_lease-ok :
      (db : Db) (lease : JobLease) (now : ℕ) (job : DurableJobRecord)
      → require_valid_lease p db lease now ≡ ok job
      → IsLeased db lease now job
  unfolding require_valid_lease decode_job_row
  require_valid_lease-ok db lease now job h = elim (Option-cases (find_job lease.job_id db.jobs)) [
    | inl none_found ↦ absurd (ground arith)
    | inr (row, f) ↦ record {
      row = row;
      found = f;
      named =
          subst (λ i. find_job i db.jobs ≡ some row) (sym (find_job-id lease.job_id db.jobs row f))
            f;
      shown = ground arith;
      worker = ground arith;
      fenced = ground arith;
      token = ground arith;
      live = ground arith;
      held = ground arith;
    }
  ]

  pub append-jobs :
      (db : Db) (e : JobEventInput) (db' : Db)
      → append_job_event p db e ≡ ok db'
      → db'.jobs ≡ db.jobs
  unfolding append_job_event
  append-jobs db e db' h = ground arith

  pub write-jobs :
      (db : Db) (id : String) (f : JobRow → JobRow) (e : JobEventInput) (w : Db × DurableJobRecord)
      → write p db id f e ≡ ok w
      → w.0.jobs ≡ update_job id f db.jobs
  unfolding write
  write-jobs db id f e w h = elim (Result-cases (append_job_event p (update id f db) e)) [
    | inr (x, q) ↦ absurd (ground arith)
    | inl (logged, q) ↦ elim (Result-cases (require_job logged id)) [
      | inr (x, r) ↦ absurd (ground arith)
      | inl (job, r) ↦
          let same : logged ≡ w.0 = ground arith in
          ap (λ (d : Db). d.jobs) (sym same) ∙ append-jobs (update id f db) e logged q
    ]
  ]

  pub write-Moves :
      (db : Db) (row : JobRow) (f : JobRow → JobRow) (e : JobEventInput) (w : Db × DurableJobRecord)
      → find_job row.job_id db.jobs ≡ some row
      → Change row (f row)
      → write p db row.job_id f e ≡ ok w
      → Moves db.jobs w.0.jobs
  write-Moves db row f e w found change h =
      subst (λ xs. Moves db.jobs xs) (sym (write-jobs db row.job_id f e w h))
        (changed db.jobs row.job_id f row still found change)

  pub block-Moves :
      (db : Db) (row : JobRow) (now : ℕ) (reason : String) (w : Db × DurableJobRecord)
      → find_job row.job_id db.jobs ≡ some row
      → is_running row.status ≡ true
      → block_running_job p db (decoded row) now reason ≡ ok w
      → Moves db.jobs w.0.jobs
  unfolding block_running_job
  block-Moves db row now reason w found from h =
      write-Moves db row (settled blocked now)
        (event_of p (decoded row) job_blocked blocked row.lease_generation now (some reason)) w
        found (blocks now from) (ground arith)

  pub cancel-Moves :
      (db : Db) (row : JobRow) (now : ℕ) (reason : String) (w : Db × DurableJobRecord)
      → find_job row.job_id db.jobs ≡ some row
      → holds_lease row.status ≡ true
      → cancel_running_job p db (decoded row) now reason ≡ ok w
      → Moves db.jobs w.0.jobs
  unfolding cancel_running_job
  cancel-Moves db row now reason w found from h =
      write-Moves db row (settled cancelled now)
        (event_of p (decoded row) job_cancelled cancelled row.lease_generation now (some reason)) w
        found (cancels now from) (ground arith)

  pub held-running :
      (row : JobRow)
      → holds_lease row.status ≡ true
      → is_cancelling row.status ≡ false
      → is_running row.status ≡ true
  held-running row held apart = ground arith
