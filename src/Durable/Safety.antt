-- ===== src/Durable/Safety.antt =====
-- src/durable/store.ts: what holds of the job table after any calls, in any order.
use odin_agent.Prelude.{
  ℕ, ◌<◌, ◌≡◌, ◌≢◌, refl, sym, ap, ◌∙◌, subst, true, some, List, [], ◌∷◌, String, arith,
  Result-cases, inl, inr, All, is_distinct, Result, ok, err,
}
use odin_agent.Durable.Types.{JobLease, DurableError, is_sha256, add_milliseconds}
use odin_agent.Durable.Rows.{JobRow, Db, find_job}
use odin_agent.Durable.Jobs.{Platform, require_valid_lease}
use odin_agent.Durable.Machine.{is_terminal, IsValid, Moves, Moves-IsValid}
use odin_agent.Durable.Machine.Later.{Later, Moves-Later}
use odin_agent.Durable.Machine.Distinct.{ids, Moves-distinct}
use odin_agent.Durable.Queue.{enqueue_job, claim_job}
use odin_agent.Durable.Settle.{
  heartbeat_job, settle_job_success, settle_job_retry, settle_job_blocked, settle_job_cancelled,
  cancel_job,
}
use odin_agent.Durable.Refinement.{require_valid_lease-ok}
use odin_agent.Durable.Refinement.Settling.{
  settle_job_success-Moves, settle_job_retry-Moves, settle_job_blocked-Moves,
  settle_job_cancelled-Moves, heartbeat_job-Moves, cancel_job-Moves,
}
use odin_agent.Durable.Refinement.Queueing.{claim_job-Moves, enqueue_job-Moves}
use odin_agent.Durable.Calls.{
  JobCall, enqueue, claim, heartbeat, succeed, retry, block, cancel_lease, cancel, written,
  committed, body, run, run_all,
}

-- The job table never repeats an id, and the store accepts every row that it reads back.
pub record IsSound (db : Db) : Type 0 where
  pub distinct : is_distinct (ids db.jobs) ≡ true
  pub valid : All IsValid db.jobs

written-ok :
    {A : Type 0} (m : Result DurableError (Db × A)) (db' : Db)
    → written m ≡ ok db'
    → (w : Db × A) × (m ≡ ok w) × (w.0 ≡ db')
written-ok (ok w) db' h = (w, refl, ground arith)
written-ok (err e) db' h = absurd (cc)

written-Moves :
    {A : Type 0} (m : Result DurableError (Db × A)) (rows : List JobRow) (db' : Db)
    → ((w : Db × A) → m ≡ ok w → Moves rows w.0.jobs)
    → written m ≡ ok db'
    → Moves rows db'.jobs
written-Moves m rows db' moves h =
    let (w, made, same) = written-ok m db' h in
    subst (λ (d : Db). Moves rows d.jobs) same (moves w made)

module _ (p : Platform) (digests : (t : String) → is_sha256 (p.hash_text t) ≡ true) where
  -- When hash_text gives SHA-256 digests and no id is repeated, a transaction that commits moves the
  -- rows of the job table along the state machine.
  pub body-Moves :
      (db : Db) (c : JobCall) (db' : Db)
      → is_distinct (ids db.jobs) ≡ true
      → body p db c ≡ ok db'
      → Moves db.jobs db'.jobs
  unfolding body
  body-Moves db (enqueue i) db' d h =
      written-Moves (enqueue_job p db i) db.jobs db' (enqueue_job-Moves p db i) h
  body-Moves db (claim worker_id token now ms) db' d h =
      written-Moves (claim_job p db worker_id token now ms) db.jobs db'
        (λ w. claim_job-Moves p db worker_id token now ms w d (digests token)) h
  body-Moves db (heartbeat lease now ms) db' d h =
      written-Moves (heartbeat_job p db lease now ms) db.jobs db'
        (heartbeat_job-Moves p db lease now ms) h
  body-Moves db (succeed lease result now) db' d h =
      written-Moves (settle_job_success p db lease result now) db.jobs db'
        (settle_job_success-Moves p db lease result now) h
  body-Moves db (retry lease reason delay now) db' d h =
      written-Moves (settle_job_retry p db lease reason delay now) db.jobs db'
        (settle_job_retry-Moves p db lease reason delay now) h
  body-Moves db (block lease reason now) db' d h =
      written-Moves (settle_job_blocked p db lease reason now) db.jobs db'
        (settle_job_blocked-Moves p db lease reason now) h
  body-Moves db (cancel_lease lease now) db' d h =
      written-Moves (settle_job_cancelled p db lease now) db.jobs db'
        (settle_job_cancelled-Moves p db lease now) h
  body-Moves db (cancel id now) db' d h =
      written-Moves (cancel_job p db id now) db.jobs db' (cancel_job-Moves p db id now) h

  -- A call that throws changes no row.
  run-Moves :
      (db : Db) (c : JobCall) → is_distinct (ids db.jobs) ≡ true → Moves db.jobs (run p db c).jobs
  unfolding run
  run-Moves db c d = elim (Result-cases (body p db c)) [
    | inr (e, q) ↦ subst (λ (x : Db). Moves db.jobs x.jobs) (sym (ap (committed db) q)) Moves.still
    | inl (db', q) ↦
        subst (λ (x : Db). Moves db.jobs x.jobs) (sym (ap (committed db) q))
          (body-Moves db c db' d q)
  ]

  run-IsSound : (db : Db) (c : JobCall) → IsSound db → IsSound (run p db c)
  run-IsSound db c s = record {
    distinct = Moves-distinct db.jobs (run p db c).jobs s.distinct (run-Moves db c s.distinct);
    valid = Moves-IsValid db.jobs (run p db c).jobs s.valid (run-Moves db c s.distinct);
  }

  -- When hash_text gives SHA-256 digests, any calls on a sound database leave a sound one: no id of
  -- the job table is repeated, and every row passes the checks of the row decoder and has as many
  -- attempts as generations.
  pub run_all-IsSound : (db : Db) (cs : List JobCall) → IsSound db → IsSound (run_all p db cs)
  unfolding run_all
  run_all-IsSound db [] s = s
  run_all-IsSound db (c ∷ cs) s = run_all-IsSound (run p db c) cs (run-IsSound db c s)

  Later-trans : (a b c : JobRow) → Later a b → Later b c → Later a c
  Later-trans a b c l m = record {
    job = m.job ∙ l.job;
    mission = m.mission ∙ l.mission;
    generation = omega (arith, l.generation, m.generation);
    final = λ over.
        m.final (subst (λ (x : JobRow). is_terminal x.status ≡ true) (sym (l.final over)) over)
        ∙ l.final over;
  }

  -- When hash_text gives SHA-256 digests and the database is sound, then whatever calls follow a job
  -- stays in the table, keeps its identity, never goes back a generation, and once it is cancelled,
  -- succeeded or blocked its row does not change.
  pub run_all-Later :
      (db : Db) (cs : List JobCall) (id : String) (row : JobRow)
      → IsSound db
      → find_job id db.jobs ≡ some row
      → (row' : JobRow) × (find_job id (run_all p db cs).jobs ≡ some row') × Later row row'
  unfolding run_all
  run_all-Later db [] id row s found = (
    row,
    found,
    record { job = refl; mission = refl; generation = omega arith; final = λ _. refl },
  )
  run_all-Later db (c ∷ cs) id row s found =
      let (mid, here, first) =
        Moves-Later db.jobs (run p db c).jobs id row (run-Moves db c s.distinct) found in
      let (last, there, rest) = run_all-Later (run p db c) cs id mid (run-IsSound db c s) here in
      (last, there, Later-trans row mid last first rest)

  -- The lease that a call Presents.
  abbrev pub Presents : JobCall → JobLease → Type 0
  Presents (heartbeat l now ms) lease = l ≡ lease
  Presents (succeed l result now) lease = l ≡ lease
  Presents (retry l reason delay now) lease = l ≡ lease
  Presents (block l reason now) lease = l ≡ lease
  Presents (cancel_lease l now) lease = l ≡ lease
  Presents _ lease = ⊥

  refused :
      (db : Db) (lease : JobLease) (now : ℕ) (row : JobRow)
      → find_job lease.job_id db.jobs ≡ some row
      → row.lease_generation ≢ lease.generation
      → (e : DurableError) × (require_valid_lease p db lease now ≡ err e)
  refused db lease now row found stale = elim (Result-cases (require_valid_lease p db lease now)) [
    | inr (e, q) ↦ (e, q)
    | inl (job, q) ↦
        let l = require_valid_lease-ok p db lease now job q in
        let same : l.row ≡ row = ground (arith, l.found, found) in
        absurd (stale (ap (λ (x : JobRow). x.lease_generation) (sym same) ∙ l.fenced))
  ]

  run-refused :
      (db : Db) (c : JobCall) (lease : JobLease) (row : JobRow)
      → Presents c lease
      → find_job lease.job_id db.jobs ≡ some row
      → row.lease_generation ≢ lease.generation
      → run p db c ≡ db
  unfolding run body heartbeat_job settle_job_success settle_job_retry settle_job_blocked
      settle_job_cancelled add_milliseconds
  run-refused db (heartbeat l now ms) lease row same found stale =
      let (e, q) = refused db lease now row found stale in ground (arith, same)
  run-refused db (succeed l result now) lease row same found stale =
      let (e, q) = refused db lease now row found stale in ground (arith, same)
  run-refused db (retry l reason delay now) lease row same found stale =
      let (e, q) = refused db lease now row found stale in ground (arith, same)
  run-refused db (block l reason now) lease row same found stale =
      let (e, q) = refused db lease now row found stale in ground (arith, same)
  run-refused db (cancel_lease l now) lease row same found stale =
      let (e, q) = refused db lease now row found stale in ground (arith, same)
  run-refused db (enqueue i) lease row no_lease found stale = absurd no_lease
  run-refused db (claim w t n m) lease row no_lease found stale = absurd no_lease
  run-refused db (cancel id now) lease row no_lease found stale = absurd no_lease

  -- When hash_text gives SHA-256 digests and the database is sound, a lease of an earlier generation
  -- than its job's row changes nothing any more: not now, and not after any further calls.
  pub run_all-fenced :
      (db : Db) (cs : List JobCall) (c : JobCall) (lease : JobLease) (row : JobRow)
      → IsSound db
      → find_job lease.job_id db.jobs ≡ some row
      → lease.generation < row.lease_generation
      → Presents c lease
      → run p (run_all p db cs) c ≡ run_all p db cs
  run_all-fenced db cs c lease row s found old shown =
      let (row', there, later) = run_all-Later db cs lease.job_id row s found in
      run-refused (run_all p db cs) c lease row' shown there
        (λ same. absurd (omega (arith, later.generation, old, same)))
