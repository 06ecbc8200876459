-- ===== src/Mission/Runnable.antt =====
-- src/mission/runtime.ts: runnableTasks. `is_after` says whether a text stands behind another in the
-- order of `localeCompare`.
use odin_agent.Prelude.{
  ℕ, zero, suc, ◌<◌, ◌≡◌, ◌≢◌, refl, sym, ap, ◌∙◌, subst, Bool, true, false, ◌&&◌, ◌||◌, Option,
  none, some, List, [], ◌∷◌, String, arith, lookup, has, every, any, select, length, All,
  Bool-cases, inl, inr, if◌then◌else◌, eq_iff, str_eq,
}
use odin_agent.Prelude.Number.{ltb_ℤ}
use odin_agent.Mission.State.{TaskStatus, status_eq}
use odin_agent.Mission.Graph.{MissionTask, task_ids}
use odin_agent.Mission.Snapshot.{MissionSnapshot}
use odin_agent.Mission.Invariant.{IsValid}

abbrev pub is_status : TaskStatus → Option TaskStatus → Bool
is_status status none = false
is_status status (some current) = status_eq current status

-- `snapshot.taskStatuses[id] === status`
abbrev pub has_status : MissionSnapshot → TaskStatus → String → Bool
has_status s status id = is_status status (lookup id s.task_statuses)

unfoldable pub is_runnable : MissionSnapshot → MissionTask → Bool
is_runnable s task =
    has_status s TaskStatus.pending task.id
    && every (has_status s TaskStatus.verified) task.depends_on

module _ (is_after : String → String → Bool) where
  -- A positive result of the comparison in `sort`.
  abbrev pub goes_after : MissionTask → MissionTask → Bool
  goes_after left right =
      ltb_ℤ left.priority right.priority
      || (if ltb_ℤ right.priority left.priority then false else is_after left.id right.id)

  abbrev insert_task : MissionTask → List MissionTask → List MissionTask
  insert_task t [] = t ∷ []
  insert_task t (u ∷ us) = if goes_after t u then u ∷ insert_task t us else t ∷ u ∷ us

  -- `sort`, which keeps the order of what compares as equal.
  abbrev sort_tasks : List MissionTask → List MissionTask
  sort_tasks [] = []
  sort_tasks (t ∷ ts) = insert_task t (sort_tasks ts)

  unfoldable pub runnable_tasks : MissionSnapshot → List MissionTask
  runnable_tasks s = sort_tasks (select (is_runnable s) s.tasks)

  length-insert_task :
      (t : MissionTask) (ts : List MissionTask) → length (insert_task t ts) ≡ suc (length ts)
  length-insert_task t [] = refl
  length-insert_task t (u ∷ us) = ground (arith, length-insert_task t us)

  length-sort_tasks : (ts : List MissionTask) → length (sort_tasks ts) ≡ length ts
  length-sort_tasks [] = refl
  length-sort_tasks (t ∷ ts) = length-insert_task t (sort_tasks ts) ∙ ap suc (length-sort_tasks ts)

or_left : (a b : Bool) → (a || b) ≡ true → b ≡ false → a ≡ true
or_left a b h n = ground arith

-- What the search for a runnable task knows of a task.
record Known (s : MissionSnapshot) (rank : String → ℕ) (t : MissionTask) : Type 0 where
  closed : All (λ d. has (task_ids s.tasks) d ≡ true) t.depends_on
  ordered : All (λ d. rank d < rank t.id) t.depends_on
  going : (has_status s TaskStatus.pending t.id || has_status s TaskStatus.verified t.id) ≡ true
  counts : is_runnable s t ≡ true → any (is_runnable s) s.tasks ≡ true

any-All :
    (f : MissionTask → Bool) (all ts : List MissionTask)
    → (any f ts ≡ true → any f all ≡ true)
    → All (λ t. f t ≡ true → any f all ≡ true) ts
any-All f all [] h = tt
any-All f all (t ∷ ts) h = (λ p. h (ground arith), any-All f all ts (λ p. h (ground arith)))

every-All :
    (f : MissionTask → Bool) (ts : List MissionTask) → every f ts ≡ true → All (λ t. f t ≡ true) ts
every-All f [] h = tt
every-All f (t ∷ ts) h = (ground arith, every-All f ts (ground arith))

task_of :
    (P : MissionTask → Type 0) (ts : List MissionTask) (d : String)
    → All P ts
    → has (task_ids ts) d ≡ true
    → (t : MissionTask) × (t.id ≡ d) × P t
unfolding has
task_of P [] d all h = absurd (cc)
task_of P (t ∷ ts) d (p, all) h = elim (Bool-cases (str_eq t.id d)) [
  | inl here ↦ (t, (eq_iff t.id d).0 here, p)
  | inr there ↦ task_of P ts d all (ground arith)
]

first_failing :
    (f : String → Bool) (P Q : String → Type 0) (ds : List String)
    → All P ds
    → All Q ds
    → every f ds ≡ false
    → (d : String) × P d × Q d × (f d ≡ false)
first_failing f P Q [] ps qs h = absurd (cc)
first_failing f P Q (d ∷ ds) (p, ps) (q, qs) h = elim (Bool-cases (f d)) [
  | inl good ↦ first_failing f P Q ds ps qs (ground arith)
  | inr bad ↦ (d, p, q, bad)
]

still_waits :
    {rank : String → ℕ} (s : MissionSnapshot) (u : MissionTask)
    → Known s rank u
    → has_status s TaskStatus.verified u.id ≡ false
    → has_status s TaskStatus.pending u.id ≡ true
still_waits s u known missing =
    or_left (has_status s TaskStatus.pending u.id) (has_status s TaskStatus.verified u.id)
      known.going missing

search :
    (s : MissionSnapshot) (rank : String → ℕ) (n : ℕ) (t : MissionTask)
    → All (Known s rank) s.tasks
    → Known s rank t
    → rank t.id < n
    → has_status s TaskStatus.pending t.id ≡ true
    → any (is_runnable s) s.tasks ≡ true
search s rank zero t all known below waits = absurd (omega (arith, below))
search s rank (suc n) t all known below waits =
    elim (Bool-cases (every (has_status s TaskStatus.verified) t.depends_on)) [
      | inl ready ↦ known.counts (unfold is_runnable in rw (waits, ready))
      | inr blocked ↦
          let (d, closed, before, missing) =
            first_failing (has_status s TaskStatus.verified) (λ d. has (task_ids s.tasks) d ≡ true)
              (λ d. rank d < rank t.id) t.depends_on known.closed known.ordered blocked in
          let (u, named, known_u) = task_of (Known s rank) s.tasks d all closed in
          search s rank n u all known_u
            (omega (arith, below, subst (λ k. rank k < rank t.id) (sym named) before))
            (still_waits s u known_u
              (subst (λ k. has_status s TaskStatus.verified k ≡ false) (sym named) missing))
    ]

Known-All :
    (s : MissionSnapshot) (rank : String → ℕ) (ts : List MissionTask)
    → All (λ t. All (λ d. has (task_ids s.tasks) d ≡ true) t.depends_on) ts
    → All (λ t. All (λ d. rank d < rank t.id) t.depends_on) ts
    → All
        (λ t.
          (has_status s TaskStatus.pending t.id || has_status s TaskStatus.verified t.id) ≡ true)
        ts
    → All (λ t. is_runnable s t ≡ true → any (is_runnable s) s.tasks ≡ true) ts
    → All (Known s rank) ts
Known-All s rank [] a b c d = tt
Known-All s rank (t ∷ ts) (a, as_) (b, bs) (c, cs) (d, ds) =
    (record { closed = a; ordered = b; going = c; counts = d }, Known-All s rank ts as_ bs cs ds)

first_waiting :
    (s : MissionSnapshot) (P : MissionTask → Type 0) (ts : List MissionTask)
    → All P ts
    → any (λ t. has_status s TaskStatus.pending t.id) ts ≡ true
    → (t : MissionTask) × P t × (has_status s TaskStatus.pending t.id ≡ true)
first_waiting s P [] all h = absurd (cc)
first_waiting s P (t ∷ ts) (p, all) h = elim (Bool-cases (has_status s TaskStatus.pending t.id)) [
  | inl waits ↦ (t, p, waits)
  | inr other ↦ first_waiting s P ts all (ground arith)
]

length-select :
    (f : MissionTask → Bool) (ts : List MissionTask) → any f ts ≡ true → length (select f ts) ≢ 0
length-select f [] h none_left = absurd (cc)
length-select f (t ∷ ts) h none_left = elim (Bool-cases (f t)) [
  | inl kept ↦ absurd (
      omega (
        arith,
        sym (ap (λ b. length (if b then t ∷ select f ts else select f ts)) kept) ∙ none_left,
      ))
  | inr dropped ↦
      length-select f ts (ground arith)
        (sym (ap (λ b. length (if b then t ∷ select f ts else select f ts)) dropped) ∙ none_left)
]

-- A well-formed mission cannot get stuck: if every task is pending or verified and one is pending,
-- then some task is runnable.
pub runnable_tasks_progress :
    (is_after : String → String → Bool) (s : MissionSnapshot)
    → IsValid s
    → every
        (λ t. has_status s TaskStatus.pending t.id || has_status s TaskStatus.verified t.id)
        s.tasks
      ≡ true
    → any (λ t. has_status s TaskStatus.pending t.id) s.tasks ≡ true
    → length (runnable_tasks is_after s) ≢ 0
unfolding runnable_tasks
runnable_tasks_progress is_after s valid going waiting none_left =
    let rank = valid.graph.rank in
    let all =
      Known-All s rank s.tasks valid.graph.closed valid.graph.ordered
        (every-All
          (λ t. has_status s TaskStatus.pending t.id || has_status s TaskStatus.verified t.id)
          s.tasks going)
        (any-All (is_runnable s) s.tasks s.tasks (λ p. p)) in
    let (t, known, waits) = first_waiting s (Known s rank) s.tasks all waiting in
    length-select (is_runnable s) s.tasks
      (search s rank (suc (rank t.id)) t all known (omega arith) waits)
      (sym (length-sort_tasks is_after (select (is_runnable s) s.tasks)) ∙ none_left)
