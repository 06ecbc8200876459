-- ===== src/Durable/Cancellation.antt =====
-- src/durable/store.ts: a requested cancellation wins over what the worker reports.
use odin_agent.Prelude.{
  ℕ, ◌≡◌, refl, sym, ap, ◌∙◌, subst, true, some, String, eq_refl, arith, ◌⊎◌, Result-cases, inl,
  inr, ok,
}
use odin_agent.Durable.Types.{
  ArtifactReference, DurableJobRecord, JobLease, cancelling, cancelled, job_cancelled,
  add_milliseconds,
}
use odin_agent.Durable.Rows.{JobRow, Db, find_job, decoded}
use odin_agent.Durable.Jobs.{
  Platform, is_cancelling, settled, event_of, cancel_running_job, require_valid_lease,
}
use odin_agent.Durable.Machine.Later.{find_job-update, find_job-id}
use odin_agent.Durable.Refinement.{IsLeased, require_valid_lease-ok, write-jobs}
use odin_agent.Durable.Settle.{
  settle_job_success, settle_job_retry, settle_job_blocked, settle_job_cancelled,
}

module _ (p : Platform) where
  cancel-found :
      (db : Db) (row : JobRow) (now : ℕ) (reason : String) (w : Db × DurableJobRecord)
      → find_job row.job_id db.jobs ≡ some row
      → cancel_running_job p db (decoded row) now reason ≡ ok w
      → find_job row.job_id w.0.jobs ≡ some (settled cancelled now row)
  unfolding cancel_running_job
  cancel-found db row now reason w found h =
      ap (λ xs. find_job row.job_id xs)
        (write-jobs p db row.job_id (settled cancelled now)
          (event_of p (decoded row) job_cancelled cancelled row.lease_generation now (some reason))
          w (ground arith))
      ∙ find_job-update row.job_id (settled cancelled now) db.jobs row found refl row.job_id
      ∙ rw (eq_refl row.job_id)

  abbrev Cancels : Db → JobLease → ℕ → JobRow → Db → Type 0
  Cancels db lease now row after =
      find_job lease.job_id after.jobs ≡ some (settled cancelled now row)

  leased-Cancels :
      (db : Db) (lease : JobLease) (row : JobRow) (now : ℕ) (job : DurableJobRecord)
      (reason : String) (w : Db × DurableJobRecord)
      → find_job lease.job_id db.jobs ≡ some row
      → IsLeased p db lease now job
      → cancel_running_job p db job now reason ≡ ok w
      → Cancels db lease now row w.0
  leased-Cancels db lease row now job reason w found l h =
      let same : l.row ≡ row = ground (arith, l.found, found) in
      let shown : job ≡ decoded row = l.shown ∙ ap decoded same in
      let name : row.job_id ≡ lease.job_id = find_job-id lease.job_id db.jobs row found in
      subst (λ i. find_job i w.0.jobs ≡ some (settled cancelled now row)) name
        (cancel-found db row now reason w
          (subst (λ i. find_job i db.jobs ≡ some row) (sym name) found)
          (sym (ap (λ j. cancel_running_job p db j now reason) shown) ∙ h))

  is_asked :
      (db : Db) (lease : JobLease) (row : JobRow) (now : ℕ) (job : DurableJobRecord)
      → find_job lease.job_id db.jobs ≡ some row
      → row.status ≡ cancelling
      → IsLeased p db lease now job
      → is_cancelling job.status ≡ true
  is_asked db lease row now job found asked l =
      let same : l.row ≡ row = ground (arith, l.found, found) in
      ap (λ (j : DurableJobRecord). is_cancelling j.status) (l.shown ∙ ap decoded same)
      ∙ ap is_cancelling asked

  -- A settlement that is accepted for a job whose cancellation was requested makes the job cancelled
  -- and ends its lease, whether the worker reports a success, a retry, a block or a cancellation.
  pub cancellation_wins :
      (db : Db) (lease : JobLease) (row : JobRow) (now delay : ℕ) (result : ArtifactReference)
      (reason : String) (w : Db × DurableJobRecord)
      → find_job lease.job_id db.jobs ≡ some row
      → row.status ≡ cancelling
      → (settle_job_success p db lease result now ≡ ok w)
        ⊎ ((settle_job_retry p db lease reason delay now ≡ ok w)
            ⊎ ((settle_job_blocked p db lease reason now ≡ ok w)
                ⊎ (settle_job_cancelled p db lease now ≡ ok w)))
      → find_job lease.job_id w.0.jobs ≡ some (settled cancelled now row)
  unfolding settle_job_success settle_job_retry settle_job_blocked settle_job_cancelled
  cancellation_wins db lease row now delay result reason w found asked settles =
      elim (Result-cases (require_valid_lease p db lease now)) [
        | inr (e, q) ↦ elim settles [
          | inl h ↦ absurd (ground arith)
          | inr (inl h) ↦ elim (Result-cases (add_milliseconds now delay)) [
            | inr (x, r) ↦ absurd (ground arith)
            | inl (t, r) ↦ absurd (ground arith)
          ]
          | inr (inr (inl h)) ↦ absurd (ground arith)
          | inr (inr (inr h)) ↦ absurd (ground arith)
        ]
        | inl (job, q) ↦
            let l = require_valid_lease-ok p db lease now job q in
            let c = is_asked db lease row now job found asked l in
            elim settles [
              | inl h ↦
                  leased-Cancels db lease row now job "cancellation_won" w found l (ground arith)
              | inr (inl h) ↦ elim (Result-cases (add_milliseconds now delay)) [
                | inr (x, r) ↦ absurd (ground arith)
                | inl (t, r) ↦
                    leased-Cancels db lease row now job "cancellation_won" w found l (ground arith)
              ]
              | inr (inr (inl h)) ↦
                  leased-Cancels db lease row now job "cancellation_won" w found l (ground arith)
              | inr (inr (inr h)) ↦
                  leased-Cancels db lease row now job "worker_cancelled" w found l (ground arith)
            ]
      ]
