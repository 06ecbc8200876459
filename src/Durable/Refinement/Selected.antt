-- ===== src/Durable/Refinement/Selected.antt =====
-- Selections of the job table in the order of their ids: no row twice, each as the table holds it.
use odin_agent.Prelude.{
  ◌≡◌, refl, sym, ◌∙◌, subst, Bool, true, false, ◌||◌, some, List, [], ◌∷◌, String, str_eq, arith,
  eq_iff, eq_refl, Bool-cases, inl, inr, if◌then◌else◌, select, All, has, is_distinct,
}
use odin_agent.Durable.Rows.{JobRow, find_job, text_before}
use odin_agent.Durable.Jobs.{sort_by_id, insert_by_id}
use odin_agent.Durable.Machine.Distinct.{ids, found-has}

has-insert :
    (x : JobRow) (xs : List JobRow) (k : String)
    → has (ids (insert_by_id x xs)) k ≡ (str_eq x.job_id k || has (ids xs) k)
unfolding has
has-insert x [] k = refl
has-insert x (y ∷ ys) k = ground (arith, has-insert x ys k)

distinct-insert :
    (x : JobRow) (xs : List JobRow)
    → has (ids xs) x.job_id ≡ false
    → is_distinct (ids xs) ≡ true
    → is_distinct (ids (insert_by_id x xs)) ≡ true
unfolding has is_distinct
distinct-insert x [] h d = refl
distinct-insert x (y ∷ ys) h d = ground (
  arith,
  distinct-insert x ys,
  has-insert x ys y.job_id,
  eq_iff x.job_id y.job_id,
  eq_iff y.job_id x.job_id,
)

has-sort : (xs : List JobRow) (k : String) → has (ids (sort_by_id xs)) k ≡ has (ids xs) k
unfolding has
has-sort [] k = refl
has-sort (x ∷ xs) k = has-insert x (sort_by_id xs) k ∙ ground (arith, has-sort xs k)

distinct-sort :
    (xs : List JobRow) → is_distinct (ids xs) ≡ true → is_distinct (ids (sort_by_id xs)) ≡ true
unfolding is_distinct
distinct-sort [] d = refl
distinct-sort (x ∷ xs) d =
    distinct-insert x (sort_by_id xs) (has-sort xs x.job_id ∙ ground arith)
      (distinct-sort xs (ground arith))

has-select :
    (f : JobRow → Bool) (xs : List JobRow) (k : String)
    → has (ids xs) k ≡ false
    → has (ids (select f xs)) k ≡ false
unfolding has
has-select f [] k h = refl
has-select f (x ∷ xs) k h = ground (arith, has-select f xs k)

distinct-select :
    (f : JobRow → Bool) (xs : List JobRow)
    → is_distinct (ids xs) ≡ true
    → is_distinct (ids (select f xs)) ≡ true
unfolding has is_distinct
distinct-select f [] d = refl
distinct-select f (x ∷ xs) d = ground (arith, distinct-select f xs, has-select f xs x.job_id)

All-insert :
    (P : JobRow → Type 0) (x : JobRow) (xs : List JobRow)
    → P x
    → All P xs
    → All P (insert_by_id x xs)
All-insert P x [] p all = (p, tt)
All-insert P x (y ∷ ys) p (q, all) = elim (Bool-cases (text_before y.job_id x.job_id)) [
  | inl later ↦
      subst (λ t. All P (if t then y ∷ insert_by_id x ys else x ∷ y ∷ ys)) (sym later)
        (q, All-insert P x ys p all)
  | inr here ↦
      subst (λ t. All P (if t then y ∷ insert_by_id x ys else x ∷ y ∷ ys)) (sym here) (p, (q, all))
]

All-sort : (P : JobRow → Type 0) (xs : List JobRow) → All P xs → All P (sort_by_id xs)
All-sort P [] all = tt
All-sort P (x ∷ xs) (p, all) = All-insert P x (sort_by_id xs) p (All-sort P xs all)

All-select :
    (P : JobRow → Type 0) (f : JobRow → Bool) (xs : List JobRow)
    → All P xs
    → All (λ x. P x × (f x ≡ true)) (select f xs)
All-select P f [] all = tt
All-select P f (x ∷ xs) (p, all) = elim (Bool-cases (f x)) [
  | inl kept ↦
      subst (λ t. All (λ x. P x × (f x ≡ true)) (if t then x ∷ select f xs else select f xs))
        (sym kept) ((p, kept), All-select P f xs all)
  | inr dropped ↦
      subst (λ t. All (λ x. P x × (f x ≡ true)) (if t then x ∷ select f xs else select f xs))
        (sym dropped) (All-select P f xs all)
]

All-map :
    (P Q : JobRow → Type 0) (xs : List JobRow) → ((x : JobRow) → P x → Q x) → All P xs → All Q xs
All-map P Q [] f all = tt
All-map P Q (x ∷ xs) f (p, all) = (f x p, All-map P Q xs f all)

-- In a table without a repeated id, every row is the one that its id finds.
pub found-All :
    (rows : List JobRow)
    → is_distinct (ids rows) ≡ true
    → All (λ x. find_job x.job_id rows ≡ some x) rows
unfolding find_job is_distinct
found-All [] d = tt
found-All (r ∷ rs) d = (
  ground (arith, eq_refl r.job_id),
  All-map (λ x. find_job x.job_id rs ≡ some x) (λ x. find_job x.job_id (r ∷ rs) ≡ some x) rs
      (λ x found. ground (arith, found, found-has x.job_id rs x found, eq_iff r.job_id x.job_id))
      (found-All rs (ground arith)),
)

pub selected :
    (f : JobRow → Bool) (rows : List JobRow)
    → is_distinct (ids rows) ≡ true
    → All (λ x. (find_job x.job_id rows ≡ some x) × (f x ≡ true)) (sort_by_id (select f rows))
selected f rows d =
    All-sort _ (select f rows)
      (All-select (λ x. find_job x.job_id rows ≡ some x) f rows (found-All rows d))

pub selected-distinct :
    (f : JobRow → Bool) (rows : List JobRow)
    → is_distinct (ids rows) ≡ true
    → is_distinct (ids (sort_by_id (select f rows))) ≡ true
selected-distinct f rows d = distinct-sort (select f rows) (distinct-select f rows d)
