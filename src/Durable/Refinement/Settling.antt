-- ===== src/Durable/Refinement/Settling.antt =====
-- src/durable/store.ts: each settlement, heartbeat and cancellation that succeeds is a move of the
-- state machine.
use odin_agent.Prelude.{
  ℕ, ◌≡◌, refl, sym, ap, ◌∙◌, subst, true, none, some, String, arith, Bool-cases, Result-cases, inl,
  inr, if◌then◌else◌, leb, Result, ok,
}
use odin_agent.Durable.Types.{
  ArtifactReference, DurableJobStatus, DurableJobRecord, JobLease, DurableError, pending, running,
  retry_wait, cancelling, cancelled, succeeded, add_milliseconds, job_heartbeat, job_succeeded,
  job_retry_scheduled, job_cancelled, job_cancelling,
}
use odin_agent.Durable.Rows.{JobRow, Db, find_job, decoded, require_job}
use odin_agent.Durable.Jobs.{
  Platform, is_running, is_cancelling, set_succeeded, set_retry, set_status, set_expiry, update,
  append_job_event, event_of, write, block_running_job, cancel_running_job, require_valid_lease,
}
use odin_agent.Durable.Machine.{succeeds, retries, drops, asks, extends, Moves, still, changed}
use odin_agent.Durable.Refinement.{
  require_job-ok, IsLeased, require_valid_lease-ok, append-jobs, write-Moves, block-Moves,
  cancel-Moves, held-running,
}
use odin_agent.Durable.Settle.{
  JobHeartbeatResult, heartbeat_job, settle_job_success, settle_job_retry, settle_job_blocked,
  settle_job_cancelled, cancel_by_status, cancel_job,
}

module _ (p : Platform) where
  -- The settlements share their head and their answer to a requested cancellation.
  settle-Moves :
      (db : Db) (lease : JobLease) (now : ℕ) (job : DurableJobRecord) (w : Db × DurableJobRecord)
      (rest : DurableJobRecord → Result DurableError (Db × DurableJobRecord))
      → IsLeased p db lease now job
      → ((row : JobRow)
          → find_job row.job_id db.jobs ≡ some row
          → is_running row.status ≡ true
          → rest (decoded row) ≡ ok w
          → Moves db.jobs w.0.jobs)
      → (if is_cancelling job.status
          then cancel_running_job p db job now "cancellation_won"
          else rest job)
        ≡ ok w
      → Moves db.jobs w.0.jobs
  settle-Moves db lease now job w rest l goes h =
      let settle = λ (j : DurableJobRecord).
        if is_cancelling j.status
        then cancel_running_job p db j now "cancellation_won"
        else rest j in
      let shown : settle (decoded l.row) ≡ ok w = sym (ap settle l.shown) ∙ h in
      elim (Bool-cases (is_cancelling l.row.status)) [
        | inl asked ↦ cancel-Moves p db l.row now "cancellation_won" w l.named l.held (
            sym (
              ap
                (λ b.
                  if b
                  then cancel_running_job p db (decoded l.row) now "cancellation_won"
                  else rest (decoded l.row))
                asked)
            ∙ shown)
        | inr not_asked ↦ goes l.row l.named (held-running p l.row l.held not_asked) (
            sym (
              ap
                (λ b.
                  if b
                  then cancel_running_job p db (decoded l.row) now "cancellation_won"
                  else rest (decoded l.row))
                not_asked)
            ∙ shown)
      ]

  pub settle_job_success-Moves :
      (db : Db) (lease : JobLease) (result : ArtifactReference) (now : ℕ)
      (w : Db × DurableJobRecord)
      → settle_job_success p db lease result now ≡ ok w
      → Moves db.jobs w.0.jobs
  unfolding settle_job_success
  settle_job_success-Moves db lease result now w h =
      elim (Result-cases (require_valid_lease p db lease now)) [
        | inr (e, q) ↦ absurd (ground arith)
        | inl (job, q) ↦
            settle-Moves db lease now job w
              (λ j.
                write p db j.job_id (set_succeeded result now)
                  (event_of p j job_succeeded succeeded lease.generation now none))
              (require_valid_lease-ok p db lease now job q)
              (λ row found from wrote.
                write-Moves p db row (set_succeeded result now)
                  (event_of p (decoded row) job_succeeded succeeded lease.generation now none) w
                  found (succeeds result now from (ground arith)) wrote)
              (ground arith)
      ]

  pub settle_job_retry-Moves :
      (db : Db) (lease : JobLease) (reason : String) (delay now : ℕ) (w : Db × DurableJobRecord)
      → settle_job_retry p db lease reason delay now ≡ ok w
      → Moves db.jobs w.0.jobs
  unfolding settle_job_retry
  settle_job_retry-Moves db lease reason delay now w h =
      elim (Result-cases (add_milliseconds now delay)) [
        | inr (e, q) ↦ absurd (ground arith)
        | inl (available_at, q) ↦ elim (Result-cases (require_valid_lease p db lease now)) [
          | inr (e, r) ↦ absurd (ground arith)
          | inl (job, r) ↦
              settle-Moves db lease now job w
                (λ j.
                  if leb j.max_attempts j.attempt_count
                  then block_running_job p db j now "attempts_exhausted"
                  else write p db j.job_id (set_retry available_at now) (
                      event_of p j job_retry_scheduled retry_wait lease.generation now
                        (some reason)))
                (require_valid_lease-ok p db lease now job r)
                (retried db lease reason available_at now w) (ground arith)
        ]
      ]
    where
      retried :
          (db : Db) (lease : JobLease) (reason : String) (available_at now : ℕ)
          (w : Db × DurableJobRecord) (row : JobRow)
          → find_job row.job_id db.jobs ≡ some row
          → is_running row.status ≡ true
          → (if leb row.max_attempts row.attempt_count
              then block_running_job p db (decoded row) now "attempts_exhausted"
              else write p db row.job_id (set_retry available_at now) (
                  event_of p
                    (decoded row)
                    job_retry_scheduled
                    retry_wait
                    lease.generation
                    now
                    (some reason)))
            ≡ ok w
          → Moves db.jobs w.0.jobs
      retried db lease reason available_at now w row found from wrote =
          elim (Bool-cases (leb row.max_attempts row.attempt_count)) [
            | inl spent ↦ block-Moves p db row now "attempts_exhausted" w found from (ground arith)
            | inr left ↦
                write-Moves p db row (set_retry available_at now)
                  (event_of p (decoded row) job_retry_scheduled retry_wait lease.generation now
                    (some reason))
                  w found (retries available_at now from (ground arith)) (ground arith)
          ]

  pub settle_job_blocked-Moves :
      (db : Db) (lease : JobLease) (reason : String) (now : ℕ) (w : Db × DurableJobRecord)
      → settle_job_blocked p db lease reason now ≡ ok w
      → Moves db.jobs w.0.jobs
  unfolding settle_job_blocked
  settle_job_blocked-Moves db lease reason now w h =
      elim (Result-cases (require_valid_lease p db lease now)) [
        | inr (e, q) ↦ absurd (ground arith)
        | inl (job, q) ↦
            settle-Moves db lease now job w (λ j. block_running_job p db j now reason)
              (require_valid_lease-ok p db lease now job q)
              (λ row found from wrote. block-Moves p db row now reason w found from wrote)
              (ground arith)
      ]

  pub settle_job_cancelled-Moves :
      (db : Db) (lease : JobLease) (now : ℕ) (w : Db × DurableJobRecord)
      → settle_job_cancelled p db lease now ≡ ok w
      → Moves db.jobs w.0.jobs
  unfolding settle_job_cancelled
  settle_job_cancelled-Moves db lease now w h =
      elim (Result-cases (require_valid_lease p db lease now)) [
        | inr (e, q) ↦ absurd (ground arith)
        | inl (job, q) ↦
            let l = require_valid_lease-ok p db lease now job q in
            let wrote : cancel_running_job p db job now "worker_cancelled" ≡ ok w = ground arith in
            cancel-Moves p db l.row now "worker_cancelled" w l.named l.held
              (sym (ap (λ j. cancel_running_job p db j now "worker_cancelled") l.shown) ∙ wrote)
      ]

  pub heartbeat_job-Moves :
      (db : Db) (lease : JobLease) (now lease_ms : ℕ) (w : Db × JobHeartbeatResult)
      → heartbeat_job p db lease now lease_ms ≡ ok w
      → Moves db.jobs w.0.jobs
  unfolding heartbeat_job
  heartbeat_job-Moves db lease now lease_ms w h =
      elim (Result-cases (add_milliseconds now lease_ms)) [
        | inr (e, q) ↦ absurd (ground arith)
        | inl (expires_at, q) ↦ elim (Result-cases (require_valid_lease p db lease now)) [
          | inr (e, r) ↦ absurd (ground arith)
          | inl (job, r) ↦ elim (Bool-cases (is_cancelling job.status)) [
            | inl asked ↦
                let same : w.0 ≡ db = ground arith in
                subst (λ (d : Db). Moves db.jobs d.jobs) (sym same) still
            | inr not_asked ↦
                let l = require_valid_lease-ok p db lease now job r in
                let from = held-running p l.row l.held (
                  sym (ap (λ (j : DurableJobRecord). is_cancelling j.status) l.shown)
                  ∙ not_asked) in
                elim (Result-cases (
                  append_job_event p (update lease.job_id (set_expiry expires_at now) db)
                    (event_of p job job_heartbeat running lease.generation now none))) [
                      | inr (e, s) ↦ absurd (ground arith)
                      | inl (logged, s) ↦
                          let same : w.0 ≡ logged = ground arith in
                          subst (λ xs. Moves db.jobs xs)
                            (sym (
                              ap (λ (d : Db). d.jobs) same
                              ∙ append-jobs p (update lease.job_id (set_expiry expires_at now) db)
                                  (event_of p job job_heartbeat running lease.generation now none)
                                  logged s))
                            (changed db.jobs lease.job_id (set_expiry expires_at now) l.row still
                              l.found (extends expires_at now from))
                    ]
          ]
        ]
      ]

  pub cancel_job-Moves :
      (db : Db) (id : String) (now : ℕ) (w : Db × DurableJobRecord)
      → cancel_job p db id now ≡ ok w
      → Moves db.jobs w.0.jobs
  unfolding cancel_job
  cancel_job-Moves db id now w h = elim (Result-cases (require_job db id)) [
    | inr (e, q) ↦ absurd (ground arith)
    | inl (job, q) ↦
        let (row, found, shown, named) = require_job-ok db id job q in
        let went : cancel_by_status p job.status db job now ≡ ok w = ground arith in
        by_status db now w row named row.status refl
          (sym (ap (λ (j : DurableJobRecord). cancel_by_status p j.status db j now) shown) ∙ went)
  ]
    where
      by_status :
          (db : Db) (now : ℕ) (w : Db × DurableJobRecord) (row : JobRow)
          → find_job row.job_id db.jobs ≡ some row
          → (status : DurableJobStatus) → row.status ≡ status
          → cancel_by_status p status db (decoded row) now ≡ ok w
          → Moves db.jobs w.0.jobs
      by_status db now w row found pending at wrote =
          write-Moves p db row (set_status cancelled now)
            (event_of p (decoded row) job_cancelled cancelled row.lease_generation now
              (some "cancel_requested"))
            w found (drops now (rw at)) wrote
      by_status db now w row found retry_wait at wrote =
          write-Moves p db row (set_status cancelled now)
            (event_of p (decoded row) job_cancelled cancelled row.lease_generation now
              (some "cancel_requested"))
            w found (drops now (rw at)) wrote
      by_status db now w row found running at wrote =
          write-Moves p db row (set_status cancelling now)
            (event_of p (decoded row) job_cancelling cancelling row.lease_generation now
              (some "cancel_requested"))
            w found (asks now (rw at)) wrote
      by_status db now w row found status at wrote =
          let same : w.0 ≡ db = ground arith in
          subst (λ (d : Db). Moves db.jobs d.jobs) (sym same) still
