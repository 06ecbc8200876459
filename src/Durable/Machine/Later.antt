-- ===== src/Durable/Machine/Later.antt =====
-- What every change of the job table keeps: a job's identity, its terminal states, and the order of
-- its generations.
use odin_agent.Prelude.{
  ◌≤◌, ◌≡◌, refl, sym, ap, ◌∙◌, subst, true, some, List, [], ◌∷◌, ◌++◌, String, str_eq, arith,
  eq_iff, Bool-cases, inl, inr, if◌then◌else◌,
}
use odin_agent.Durable.Rows.{JobRow, find_job, update_job}
use odin_agent.Durable.Machine.{
  is_terminal, Change, claims, blocks, cancels, succeeds, retries, drops, asks, extends, Moves,
  still, changed, inserted,
}

Change-terminal : (row row' : JobRow) → is_terminal row.status ≡ true → Change row row' → ⊥
Change-terminal row _ over (claims worker_id token_hash expires_at now from left digest) =
    ground arith
Change-terminal row _ over (blocks now from) = ground arith
Change-terminal row _ over (cancels now from) = ground arith
Change-terminal row _ over (succeeds result now from good) = ground arith
Change-terminal row _ over (retries available_at now from left) = ground arith
Change-terminal row _ over (drops now from) = ground arith
Change-terminal row _ over (asks now from) = ground arith
Change-terminal row _ over (extends expires_at now from) = ground arith

pub Change-identity :
    (row row' : JobRow)
    → Change row row'
    → (row'.job_id ≡ row.job_id)
      × (row'.mission_id ≡ row.mission_id)
      × (row.lease_generation ≤ row'.lease_generation)
Change-identity row _ (claims worker_id token_hash expires_at now from left digest) =
    (refl, refl, omega arith)
Change-identity row _ (blocks now from) = (refl, refl, omega arith)
Change-identity row _ (cancels now from) = (refl, refl, omega arith)
Change-identity row _ (succeeds result now from good) = (refl, refl, omega arith)
Change-identity row _ (retries available_at now from left) = (refl, refl, omega arith)
Change-identity row _ (drops now from) = (refl, refl, omega arith)
Change-identity row _ (asks now from) = (refl, refl, omega arith)
Change-identity row _ (extends expires_at now from) = (refl, refl, omega arith)

pub record Later (row row' : JobRow) : Type 0 where
  pub job : row'.job_id ≡ row.job_id
  pub mission : row'.mission_id ≡ row.mission_id
  pub generation : row.lease_generation ≤ row'.lease_generation
  pub final : is_terminal row.status ≡ true → row' ≡ row

Later-refl : (row : JobRow) → Later row row
Later-refl row = record { job = refl; mission = refl; generation = omega arith; final = λ _. refl }

Later-Change : (a b c : JobRow) → Later a b → Change b c → Later a c
Later-Change a b c l change = record {
  job = (Change-identity b c change).0 ∙ l.job;
  mission = (Change-identity b c change).1 ∙ l.mission;
  generation = omega (arith, l.generation, (Change-identity b c change).2);
  final = λ over. absurd (
      Change-terminal b c
        (subst (λ (x : JobRow). is_terminal x.status ≡ true) (sym (l.final over)) over) change);
}

pub find_job-id :
    (id : String) (rows : List JobRow) (row : JobRow)
    → find_job id rows ≡ some row
    → row.job_id ≡ id
unfolding find_job
find_job-id id [] row h = absurd (cc)
find_job-id id (r ∷ rows) row h = elim (Bool-cases (str_eq r.job_id id)) [
  | inl here ↦ ground (arith, (eq_iff r.job_id id).0 here)
  | inr there ↦ find_job-id id rows row (ground arith)
]

pub find_job-update :
    (id : String) (f : JobRow → JobRow) (rows : List JobRow) (row : JobRow)
    → find_job id rows ≡ some row
    → (f row).job_id ≡ row.job_id
    → (j : String)
    → find_job j (update_job id f rows) ≡ (if str_eq id j then some (f row) else find_job j rows)
unfolding find_job update_job
find_job-update id f [] row found kept j = absurd (cc)
find_job-update id f (r ∷ rows) row found kept j = elim (Bool-cases (str_eq r.job_id id)) [
  | inl here ↦
      let same : r ≡ row = ground arith in
      let name : r.job_id ≡ id = (eq_iff r.job_id id).0 here in
      let kept_r : (f r).job_id ≡ id =
        ap (λ (x : JobRow). (f x).job_id) same
        ∙ kept
        ∙ ap (λ (x : JobRow). x.job_id) (sym same)
        ∙ name in
      elim (Bool-cases (str_eq id j)) [
        | inl own ↦ ground (arith, here, same, kept_r, own)
        | inr foreign ↦ ground (arith, here, same, kept_r, name, foreign)
      ]
  | inr there ↦ ground (
    arith,
    eq_iff id j,
    eq_iff r.job_id id,
    eq_iff r.job_id j,
    find_job-update id f rows row (ground arith) kept j,
  )
]

some_eq : {a b : JobRow} → some a ≡ some b → a ≡ b
some_eq h = ground arith

find_job-append :
    (id : String) (rows more : List JobRow) (row : JobRow)
    → find_job id rows ≡ some row
    → find_job id (rows ++ more) ≡ some row
unfolding find_job
find_job-append id [] more row h = absurd (cc)
find_job-append id (r ∷ rows) more row h = elim (Bool-cases (str_eq r.job_id id)) [
  | inl here ↦ ground arith
  | inr there ↦ ground (arith, find_job-append id rows more row)
]

pub Moves-Later :
    (rows rows' : List JobRow) (id : String) (row : JobRow)
    → Moves rows rows'
    → find_job id rows ≡ some row
    → (row' : JobRow) × (find_job id rows' ≡ some row') × Later row row'
Moves-Later rows _ id row still here = (row, here, Later-refl row)
Moves-Later rows _ id row (inserted mid new m fresh valid) here =
    let (r, found, l) = Moves-Later rows mid id row m here in
    (r, find_job-append id mid (new ∷ []) r found, l)
Moves-Later rows _ id row (changed mid j f old m old_found change) here =
    let (r, found, l) = Moves-Later rows mid id row m here in
    let update = find_job-update j f mid old old_found (Change-identity old (f old) change).0 id in
    elim (Bool-cases (str_eq j id)) [
      | inl same ↦
          let one : old ≡ r =
            some_eq (sym old_found ∙ ap (λ i. find_job i mid) ((eq_iff j id).0 same) ∙ found) in
          (
            f r,
            update ∙ ground (arith, same, one),
            Later-Change row r (f r) l (subst (λ x. Change x (f x)) one change),
          )
      | inr apart ↦ (r, update ∙ ground (arith, apart, found), l)
    ]
