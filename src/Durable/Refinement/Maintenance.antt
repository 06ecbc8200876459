-- ===== src/Durable/Refinement/Maintenance.antt =====
-- src/durable/store.ts: the maintenance of expired leases moves along the state machine.
use odin_agent.Prelude.{
  ℕ, ◌≡◌, sym, ap, ◌∙◌, subst, true, false, some, List, [], ◌∷◌, str_eq, arith, eq_iff,
  Result-cases, inl, inr, select, fold_result, All, has, is_distinct, Result, ok,
}
use odin_agent.Durable.Types.{
  DurableJobRecord, DurableError, cancelled, blocked, job_blocked, job_cancelled,
}
use odin_agent.Durable.Rows.{JobRow, Db, find_job, update_job, decode_job_row}
use odin_agent.Durable.Jobs.{
  Platform, is_spent, is_abandoned, sort_by_id, settled, event_of, write, block_running_job,
  cancel_running_job,
}
use odin_agent.Durable.Machine.{Change, blocks, cancels, Moves, Moves-trans, still, changed}
use odin_agent.Durable.Machine.Later.{find_job-update, Change-identity}
use odin_agent.Durable.Machine.Distinct.{ids, Moves-distinct}
use odin_agent.Durable.Refinement.Selected.{selected, selected-distinct}
use odin_agent.Durable.Refinement.{decode-ok, write-jobs}
use odin_agent.Durable.Queue.{block_spent, cancel_abandoned, maintain_expired_jobs}

-- Rows that the table holds, with what was asked of them.
abbrev Held : (JobRow → Type 0) → List JobRow → List JobRow → Type 0
Held Q rows xs = All (λ x. (find_job x.job_id rows ≡ some x) × Q x) xs

-- One round of the maintenance changes one row.
record Round (x : JobRow) (rows rows' : List JobRow) : Type 0 where
  f : JobRow → JobRow
  now : rows' ≡ update_job x.job_id f rows
  change : Change x (f x)

Held-update :
    (Q : JobRow → Type 0) (rows rows' : List JobRow) (x : JobRow) (xs : List JobRow)
    → find_job x.job_id rows ≡ some x
    → Round x rows rows'
    → has (ids xs) x.job_id ≡ false
    → Held Q rows xs
    → Held Q rows' xs
unfolding has
Held-update Q rows rows' x [] found r apart all = tt
Held-update Q rows rows' x (y ∷ ys) found r apart ((here, q), all) =
    let update =
      find_job-update x.job_id r.f rows x found (Change-identity x (r.f x) r.change).0 y.job_id in
    let other : str_eq x.job_id y.job_id ≡ false =
      ground (arith, eq_iff x.job_id y.job_id, eq_iff y.job_id x.job_id) in
    (
      (ap (λ rs. find_job y.job_id rs) r.now ∙ update ∙ ground (arith, other, here), q),
      Held-update Q rows rows' x ys found r (ground arith) all,
    )

fold-Moves :
    (Q : JobRow → Type 0) (step : Db → JobRow → Result DurableError Db)
    → ((db : Db) (x : JobRow) (db' : Db)
        → find_job x.job_id db.jobs ≡ some x
        → Q x
        → step db x ≡ ok db'
        → Round x db.jobs db'.jobs)
    → (xs : List JobRow) (db db' : Db) → is_distinct (ids xs) ≡ true
    → Held Q db.jobs xs
    → fold_result step db xs ≡ ok db'
    → Moves db.jobs db'.jobs
unfolding is_distinct
fold-Moves Q step round [] db db' d all h =
    let same : db ≡ db' = ground arith in subst (λ (x : Db). Moves db.jobs x.jobs) same still
fold-Moves Q step round (x ∷ xs) db db' d ((found, q), all) h = elim (Result-cases (step db x)) [
  | inr (e, failed) ↦ absurd (ground arith)
  | inl (mid, made) ↦
      let r = round db x mid found q made in
      Moves-trans db.jobs mid.jobs db'.jobs
        (subst (λ rs. Moves db.jobs rs) (sym r.now)
          (changed db.jobs x.job_id r.f x still found r.change))
        (fold-Moves Q step round xs mid db' (ground arith)
          (Held-update Q db.jobs mid.jobs x xs found r (ground arith) all) (ground arith))
]

module _ (p : Platform) where
  block_spent-Round :
      (now : ℕ) (db : Db) (x : JobRow) (db' : Db)
      → find_job x.job_id db.jobs ≡ some x
      → is_spent now x ≡ true
      → block_spent p now db x ≡ ok db'
      → Round x db.jobs db'.jobs
  unfolding block_running_job
  block_spent-Round now db x db' found spent h = elim (Result-cases (decode_job_row x)) [
    | inr (e, q) ↦ absurd (ground arith)
    | inl (job, q) ↦
        elim (Result-cases (
          write p db job.job_id (settled blocked now) (
            event_of p job job_blocked blocked job.lease_generation now
              (some "attempts_exhausted")))) [
                | inr (e, r) ↦ absurd (ground arith)
                | inl (w, r) ↦
                    let same : w.0 ≡ db' = ground arith in
                    let shown = decode-ok x job q in
                    record {
                      f = settled blocked now;
                      now =
                          ap (λ (d : Db). d.jobs) (sym same)
                          ∙ write-jobs p db job.job_id (settled blocked now) _ w r
                          ∙ ap
                              (λ (j : DurableJobRecord).
                                update_job j.job_id (settled blocked now) db.jobs)
                              shown;
                      change = blocks now (ground arith);
                    }
              ]
  ]

  cancel_abandoned-Round :
      (now : ℕ) (db : Db) (x : JobRow) (db' : Db)
      → find_job x.job_id db.jobs ≡ some x
      → is_abandoned now x ≡ true
      → cancel_abandoned p now db x ≡ ok db'
      → Round x db.jobs db'.jobs
  unfolding cancel_running_job
  cancel_abandoned-Round now db x db' found spent h = elim (Result-cases (decode_job_row x)) [
    | inr (e, q) ↦ absurd (ground arith)
    | inl (job, q) ↦
        elim (Result-cases (
          write p db job.job_id (settled cancelled now) (
            event_of p job job_cancelled cancelled job.lease_generation now
              (some "cancel_lease_expired")))) [
                | inr (e, r) ↦ absurd (ground arith)
                | inl (w, r) ↦
                    let same : w.0 ≡ db' = ground arith in
                    let shown = decode-ok x job q in
                    record {
                      f = settled cancelled now;
                      now =
                          ap (λ (d : Db). d.jobs) (sym same)
                          ∙ write-jobs p db job.job_id (settled cancelled now) _ w r
                          ∙ ap
                              (λ (j : DurableJobRecord).
                                update_job j.job_id (settled cancelled now) db.jobs)
                              shown;
                      change = cancels now (ground arith);
                    }
              ]
  ]

  pub maintain-Moves :
      (db : Db) (now : ℕ) (db' : Db)
      → is_distinct (ids db.jobs) ≡ true
      → maintain_expired_jobs p db now ≡ ok db'
      → Moves db.jobs db'.jobs
  unfolding maintain_expired_jobs
  maintain-Moves db now db' d h =
      elim (Result-cases
        (fold_result (block_spent p now) db (sort_by_id (select (is_spent now) db.jobs)))) [
          | inr (e, q) ↦ absurd (ground arith)
          | inl (mid, q) ↦
              let first =
                fold-Moves (λ x. is_spent now x ≡ true) (block_spent p now) (block_spent-Round now)
                  (sort_by_id (select (is_spent now) db.jobs)) db mid
                  (selected-distinct (is_spent now) db.jobs d) (selected (is_spent now) db.jobs d)
                  q in
              let d' = Moves-distinct db.jobs mid.jobs d first in
              Moves-trans db.jobs mid.jobs db'.jobs first (
                fold-Moves (λ x. is_abandoned now x ≡ true) (cancel_abandoned p now)
                  (cancel_abandoned-Round now) (sort_by_id (select (is_abandoned now) mid.jobs)) mid
                  db' (selected-distinct (is_abandoned now) mid.jobs d')
                  (selected (is_abandoned now) mid.jobs d') (ground arith))
        ]
