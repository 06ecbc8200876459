-- ===== src/Durable/Refinement/Queueing.antt =====
-- src/durable/store.ts: claimJob and enqueueJob move along the state machine.
use odin_agent.Prelude.{
  ℕ, ◌+◌, ◌≡◌, refl, sym, ap, ◌∙◌, subst, true, Option, some, List, [], ◌∷◌, String, arith,
  Bool-cases, Option-cases, Result-cases, inl, inr, leb, All, is_distinct, Result, ok, ◌>>=◌, ◌>>◌,
  guard,
}
use odin_agent.Durable.Types.{
  DurableJobRecord, JobEnqueueInput, JobLease, DurableError, running, is_sha256, add_milliseconds,
}
use odin_agent.Durable.Rows.{
  JobRow, Db, find_job, find_key, decoded, decode_job_row, require_job, is_intact, fits_result,
  fits_identity, fits_counts, fits_lease,
}
use odin_agent.Durable.Jobs.{
  Platform, is_running, is_ready, first_ready, claimed_before, set_claimed, update,
  append_job_event, event_of, check_enqueue,
}
use odin_agent.Durable.Machine.{claims, IsValid, Moves, Moves-trans, still, changed, inserted}
use odin_agent.Durable.Machine.Distinct.{ids, Moves-distinct}
use odin_agent.Durable.Refinement.Selected.{found-All}
use odin_agent.Durable.Refinement.Maintenance.{maintain-Moves}
use odin_agent.Durable.Refinement.{decode-ok, append-jobs}
use odin_agent.Durable.Queue.{
  new_row, enqueued_event, add_key, add_job, enqueue_job, claim_row, claim_job,
  maintain_expired_jobs, claim_type, claim_reason, lease_of,
}

pub first_ready-All :
    (P : JobRow → Type 0) (now : ℕ) (rows : List JobRow) (row : JobRow)
    → All P rows
    → first_ready now rows ≡ some row
    → P row × (is_ready now row ≡ true)
unfolding first_ready
first_ready-All P now [] row all h = absurd (cc)
first_ready-All P now (x ∷ xs) row (p, all) h = elim (Bool-cases (is_ready now x)) [
  | inr waits ↦ first_ready-All P now xs row all (ground arith)
  | inl ready ↦ elim (Option-cases (first_ready now xs)) [
    | inl alone ↦
        let same : x ≡ row = ground arith in
        subst (λ y. P y × (is_ready now y ≡ true)) same (p, ready)
    | inr (best, found) ↦ elim (Bool-cases (claimed_before best x)) [
      | inl earlier ↦
          let same : best ≡ row = ground arith in
          subst (λ y. P y × (is_ready now y ≡ true)) same (first_ready-All P now xs best all found)
      | inr later ↦
          let same : x ≡ row = ground arith in
          subst (λ y. P y × (is_ready now y ≡ true)) same (p, ready)
    ]
  ]
]

module _ (p : Platform) where
  claim_row-Moves :
      (db : Db) (row : JobRow) (worker_id token : String) (expires_at now : ℕ) (w : Db × JobLease)
      → find_job row.job_id db.jobs ≡ some row
      → is_ready now row ≡ true
      → is_sha256 (p.hash_text token) ≡ true
      → claim_row p db row worker_id token expires_at now ≡ ok w
      → Moves db.jobs w.0.jobs
  unfolding claim_row is_ready
  claim_row-Moves db row worker_id token expires_at now w found ready digest h =
      elim (Result-cases (decode_job_row row)) [
        | inr (e, q) ↦ absurd (ground arith)
        | inl (job, q) ↦ logged-Moves db row worker_id token expires_at now w found ready digest (
            subst
              (λ (j : DurableJobRecord). claim_decoded db j worker_id token expires_at now ≡ ok w)
              (decode-ok row job q) (ground arith))
      ]
    where
      claim_decoded :
          Db → DurableJobRecord → String → String → ℕ → ℕ → Result DurableError (Db × JobLease)
      claim_decoded db job worker_id token expires_at now =
          guard (leb (job.attempt_count + 1) job.max_attempts) DurableError.corruption
          >> (append_job_event p
                (update job.job_id
                  (set_claimed (job.attempt_count + 1) (job.lease_generation + 1) worker_id
                    (p.hash_text token) expires_at now)
                  db)
                (event_of p job (claim_type (is_running job.status)) running
                  (job.lease_generation + 1) now (claim_reason (is_running job.status)))
              >>= λ logged. ok (logged, lease_of job worker_id token expires_at))

      logged-Moves :
          (db : Db) (row : JobRow) (worker_id token : String) (expires_at now : ℕ)
          (w : Db × JobLease)
          → find_job row.job_id db.jobs ≡ some row
          → is_ready now row ≡ true
          → is_sha256 (p.hash_text token) ≡ true
          → claim_decoded db (decoded row) worker_id token expires_at now ≡ ok w
          → Moves db.jobs w.0.jobs
      logged-Moves db row worker_id token expires_at now w found ready digest h =
          let f =
            set_claimed (row.attempt_count + 1) (row.lease_generation + 1) worker_id
              (p.hash_text token) expires_at now in
          let e =
            event_of p (decoded row) (claim_type (is_running row.status)) running
              (row.lease_generation + 1) now (claim_reason (is_running row.status)) in
          elim (Result-cases (append_job_event p (update row.job_id f db) e)) [
            | inr (x, q) ↦ absurd (ground arith)
            | inl (logged, q) ↦
                let same : logged ≡ w.0 = ground arith in
                subst (λ xs. Moves db.jobs xs)
                  (sym (append-jobs p (update row.job_id f db) e logged q)
                    ∙ ap (λ (d : Db). d.jobs) same)
                  (changed db.jobs row.job_id f row still found (
                    claims worker_id (p.hash_text token) expires_at now (ground arith)
                      (ground arith) digest))
          ]

  pub claim_job-Moves :
      (db : Db) (worker_id token : String) (now lease_ms : ℕ) (w : Db × Option JobLease)
      → is_distinct (ids db.jobs) ≡ true
      → is_sha256 (p.hash_text token) ≡ true
      → claim_job p db worker_id token now lease_ms ≡ ok w
      → Moves db.jobs w.0.jobs
  unfolding claim_job
  claim_job-Moves db worker_id token now lease_ms w d digest h =
      elim (Result-cases (add_milliseconds now lease_ms)) [
        | inr (e, q) ↦ absurd (ground arith)
        | inl (expires_at, q) ↦ elim (Result-cases (maintain_expired_jobs p db now)) [
          | inr (e, r) ↦ absurd (ground arith)
          | inl (kept, r) ↦
              let before = maintain-Moves p db now kept d r in
              elim (Option-cases (first_ready now kept.jobs)) [
                | inl idle ↦
                    let same : kept ≡ w.0 = ground arith in
                    subst (λ (x : Db). Moves db.jobs x.jobs) same before
                | inr (row, best) ↦
                    elim (Result-cases (claim_row p kept row worker_id token expires_at now)) [
                      | inr (e, s) ↦ absurd (ground arith)
                      | inl (v, s) ↦
                          let same : v.0 ≡ w.0 = ground arith in
                          let (found, ready) =
                            first_ready-All (λ x. find_job x.job_id kept.jobs ≡ some x) now
                              kept.jobs row
                              (found-All kept.jobs (Moves-distinct db.jobs kept.jobs d before))
                              best in
                          subst (λ (x : Db). Moves db.jobs x.jobs) same
                            (Moves-trans db.jobs kept.jobs v.0.jobs before (
                              claim_row-Moves kept row worker_id token expires_at now v found ready
                                digest s))
                    ]
              ]
        ]
      ]

  new_row-IsValid :
      (i : JobEnqueueInput) (fp : String) → check_enqueue i ≡ true → IsValid (new_row i fp)
  unfolding check_enqueue is_intact fits_result fits_identity fits_counts fits_lease
  new_row-IsValid i fp h = record { intact = ground arith; counted = refl }

  pub enqueue_job-Moves :
      (db : Db) (i : JobEnqueueInput) (w : Db × DurableJobRecord)
      → enqueue_job p db i ≡ ok w
      → Moves db.jobs w.0.jobs
  unfolding enqueue_job
  enqueue_job-Moves db i w h =
      elim (Option-cases (find_key i.mission_id i.idempotency_key db.job_idempotency)) [
        | inr (replay, q) ↦ elim (Result-cases (require_job db i.job_id)) [
          | inr (e, r) ↦ absurd (ground arith)
          | inl (job, r) ↦
              let same : db ≡ w.0 = ground arith in
              subst (λ (x : Db). Moves db.jobs x.jobs) same still
        ]
        | inl q ↦ elim (Option-cases (find_job i.job_id db.jobs)) [
          | inr (existing, r) ↦ elim (Result-cases (decode_job_row existing)) [
            | inr (e, s) ↦ absurd (ground arith)
            | inl (job, s) ↦
                let same : add_key p i db ≡ w.0 = ground arith in
                subst (λ (x : Db). Moves db.jobs x.jobs) same still
          ]
          | inl r ↦
              elim (Result-cases
                (append_job_event p (add_key p i (add_job p i db)) (enqueued_event i))) [
                  | inr (e, s) ↦ absurd (ground arith)
                  | inl (logged, s) ↦ elim (Result-cases (require_job logged i.job_id)) [
                    | inr (e, t) ↦ absurd (ground arith)
                    | inl (job, t) ↦
                        let same : logged ≡ w.0 = ground arith in
                        subst (λ xs. Moves db.jobs xs)
                          (sym (
                              append-jobs p (add_key p i (add_job p i db)) (enqueued_event i) logged
                                s)
                            ∙ ap (λ (x : Db). x.jobs) same)
                          (inserted db.jobs (new_row i (p.job_fingerprint i)) still r
                            (new_row-IsValid i (p.job_fingerprint i) (ground arith)))
                  ]
                ]
        ]
      ]
