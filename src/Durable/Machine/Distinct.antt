-- ===== src/Durable/Machine/Distinct.antt =====
-- No two rows of the job table have one id.
use odin_agent.Prelude.{
  ◌≡◌, refl, sym, ap, ◌∙◌, subst, true, false, ◌||◌, none, some, List, [], ◌∷◌, ◌++◌, String,
  str_eq, arith, eq_iff, Bool-cases, inl, inr, if◌then◌else◌, has, is_distinct,
}
use odin_agent.Durable.Rows.{JobRow, find_job, update_job}
use odin_agent.Durable.Machine.{Moves, still, changed, inserted}
use odin_agent.Durable.Machine.Later.{Change-identity}

abbrev pub ids : List JobRow → List String
ids [] = []
ids (row ∷ rows) = row.job_id ∷ ids rows

pub found-has :
    (k : String) (rows : List JobRow) (x : JobRow)
    → find_job k rows ≡ some x
    → has (ids rows) k ≡ true
unfolding find_job has
found-has k [] x h = absurd (cc)
found-has k (r ∷ rs) x h = ground (arith, found-has k rs x)

missing-has : (k : String) (rows : List JobRow) → find_job k rows ≡ none → has (ids rows) k ≡ false
unfolding find_job has
missing-has k [] h = refl
missing-has k (r ∷ rs) h = ground (arith, missing-has k rs)

ids-update :
    (id : String) (f : JobRow → JobRow) (rows : List JobRow) (row : JobRow)
    → find_job id rows ≡ some row
    → (f row).job_id ≡ row.job_id
    → ids (update_job id f rows) ≡ ids rows
unfolding find_job update_job
ids-update id f [] row found kept = absurd (cc)
ids-update id f (r ∷ rs) row found kept = elim (Bool-cases (str_eq r.job_id id)) [
  | inl here ↦
      let same : r ≡ row = ground arith in
      let kept_r : (f r).job_id ≡ r.job_id =
        subst (λ (x : JobRow). (f x).job_id ≡ x.job_id) (sym same) kept in
      subst (λ t. ids (if t then f r ∷ rs else r ∷ update_job id f rs) ≡ r.job_id ∷ ids rs)
        (sym here) (ap (λ k. k ∷ ids rs) kept_r)
  | inr there ↦
      subst (λ t. ids (if t then f r ∷ rs else r ∷ update_job id f rs) ≡ r.job_id ∷ ids rs)
        (sym there) (ap (λ ks. r.job_id ∷ ks) (ids-update id f rs row (ground arith) kept))
]

has-new :
    (rows : List JobRow) (row : JobRow) (k : String)
    → has (ids (rows ++ row ∷ [])) k ≡ (has (ids rows) k || str_eq row.job_id k)
unfolding has
has-new [] row k = ground arith
has-new (r ∷ rs) row k = ground (arith, has-new rs row k)

distinct-new :
    (rows : List JobRow) (row : JobRow)
    → has (ids rows) row.job_id ≡ false
    → is_distinct (ids rows) ≡ true
    → is_distinct (ids (rows ++ row ∷ [])) ≡ true
unfolding has is_distinct
distinct-new [] row h d = refl
distinct-new (r ∷ rs) row h d = ground (
  arith,
  distinct-new rs row,
  has-new rs row r.job_id,
  eq_iff row.job_id r.job_id,
  eq_iff r.job_id row.job_id,
)

pub Moves-distinct :
    (rows rows' : List JobRow)
    → is_distinct (ids rows) ≡ true
    → Moves rows rows'
    → is_distinct (ids rows') ≡ true
Moves-distinct rows _ d still = d
Moves-distinct rows _ d (changed mid id f row m found change) =
    ap is_distinct (ids-update id f mid row found (Change-identity row (f row) change).0)
    ∙ Moves-distinct rows mid d m
Moves-distinct rows _ d (inserted mid row m fresh valid) =
    distinct-new mid row (missing-has row.job_id mid fresh) (Moves-distinct rows mid d m)
