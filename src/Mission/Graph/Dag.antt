-- ===== src/Mission/Graph/Dag.antt =====
-- validateTaskGraph accepts the acyclic task graphs and no other.
use odin_agent.Prelude.{
  ℕ, zero, suc, ◌<◌, ◌≤◌, ◌≡◌, refl, sym, ap, ◌∙◌, subst, true, false, inl, inr, Bool-cases, ◌≢◌,
  some, List, [], ◌∷◌, String, str_eq, eq_iff, arith, Dict, lookup, keys, has-keys, has,
  is_distinct, is_some, every, All, All-has, length, ok, err, ◌>>=◌, ◌>>◌, map_result,
  if◌then◌else◌, Result-cases,
}
use odin_agent.Mission.State.{MissionError, out_of_fuel}
use odin_agent.Mission.Graph.{
  MissionTask, MissionTaskInput, Visit, unvisited, visit, normalize_task, index_tasks,
  check_dependencies, search_cycles, validate_task_graph, task_ids,
}
use odin_agent.Mission.Graph.Index.{
  entries, keys-entries, index_tasks_sound, index_tasks_complete, IsClosed,
  check_dependencies_sound, check_dependencies_complete,
}
use odin_agent.Mission.Graph.Search.{Topo, fold-Keeps, visit-Keeps, fold-err, visit-err}
use odin_agent.Mission.Graph.Fuel.{HasFuel, visit_in_fuel}

-- A task graph with distinct ids, no dangling dependency, and a rank that falls along dependencies.
pub record IsDag (tasks : List MissionTask) : Type 0 where
  pub distinct : is_distinct (task_ids tasks) ≡ true
  pub closed : All (λ t. All (λ d. has (task_ids tasks) d ≡ true) t.depends_on) tasks
  pub rank : String → ℕ
  pub ordered : All (λ t. All (λ d. rank d < rank t.id) t.depends_on) tasks

-- The place of an id, counted from the end.
rank_in : List String → String → ℕ
rank_in [] x = 0
rank_in (y ∷ ys) x = let below = rank_in ys x in if has ys x then below else suc (length ys)

rank_in-le : (ys : List String) (x : String) → rank_in ys x ≤ length ys
unfolding rank_in
rank_in-le [] x = omega arith
rank_in-le (y ∷ ys) x = ground (arith, rank_in-le ys x)

-- Ids that are all below a place in the list.
abbrev Below : List String → String → List String → Type 0
Below vs x ds = All (λ d. (has vs d ≡ true) × (rank_in vs d < rank_in vs x)) ds

Below-head :
    (y : String) (ys ds : List String)
    → has ys y ≡ false
    → every (has ys) ds ≡ true
    → Below (y ∷ ys) y ds
unfolding rank_in has
Below-head y ys [] new h = tt
Below-head y ys (d ∷ ds) new h =
    ((ground arith, ground (arith, rank_in-le ys d)), Below-head y ys ds new (ground arith))

Below-cons :
    (y x : String) (ys ds : List String) → has ys x ≡ true → Below ys x ds → Below (y ∷ ys) x ds
unfolding rank_in has
Below-cons y x ys [] m h = tt
Below-cons y x ys (d ∷ ds) m h = ((ground arith, ground arith), Below-cons y x ys ds m h.1)

Topo-Below :
    (g : Dict MissionTask) (vs : List String) (x : String) (t : MissionTask)
    → Topo g vs
    → has vs x ≡ true
    → lookup x g ≡ some t
    → Below vs x t.depends_on
unfolding has
Topo-Below g [] x t topo m l = absurd (cc)
Topo-Below g (y ∷ ys) x t ((t', l', before), topo) m l = elim (Bool-cases (has ys x)) [
  | inl deeper ↦ Below-cons y x ys t.depends_on deeper (Topo-Below g ys x t topo deeper l)
  | inr new ↦
      let same : y ≡ x = ground (arith, eq_iff y x) in
      let one : t' ≡ t = ground (arith, same) in
      let unseen : has ys y ≡ false = ground (arith, same) in
      subst (λ z. Below (y ∷ ys) z t.depends_on) same
        (subst (λ (u : MissionTask). Below (y ∷ ys) y u.depends_on) one
          (Below-head y ys t'.depends_on unseen before))
]

-- The index of distinct tasks finds each of them.
lookup-entries :
    (ts : List MissionTask)
    → is_distinct (task_ids ts) ≡ true
    → All (λ t. lookup t.id (entries ts) ≡ some t) ts
unfolding is_distinct lookup has
lookup-entries [] d = tt
lookup-entries (t ∷ ts) d = (
  ground (arith, eq_iff t.id t.id),
  skip t ts (entries ts) (ground arith) (lookup-entries ts (ground arith)),
)
  where
    skip :
        (x : MissionTask) (us : List MissionTask) (m : Dict MissionTask)
        → has (task_ids us) x.id ≡ false
        → All (λ u. lookup u.id m ≡ some u) us
        → All (λ u. lookup u.id ((x.id, x) ∷ m) ≡ some u) us
    skip x [] m h a = tt
    skip x (u ∷ us) m h a =
        (ground (arith, eq_iff x.id u.id, eq_iff u.id x.id), skip x us m (ground arith) a.1)

All-zip {ℓ} :
    {A : Type ℓ} {P Q R : A → Type 0} (ts : List A)
    → ((t : A) → P t → Q t → R t)
    → All P ts
    → All Q ts
    → All R ts
All-zip [] f p q = tt
All-zip (t ∷ ts) f p q = (f t p.0 q.0, All-zip ts f p.1 q.1)

-- What the three loops have found when the graph is accepted.
record Accepted (ts : List MissionTask) : Type 0 where
  by_id : Dict MissionTask
  indexed : index_tasks [] ts ≡ ok by_id
  checked : check_dependencies by_id ts ≡ ok tt
  found : Visit
  searched : search_cycles by_id ts ≡ ok found

accepted :
    (ts tasks : List MissionTask)
    → (index_tasks [] ts >>= λ g. check_dependencies g ts >> (search_cycles g ts >>= λ _. ok ts))
      ≡ ok tasks
    → (ts ≡ tasks) × Accepted ts
accepted ts tasks h = elim (Result-cases (index_tasks [] ts)) [
  | inr (e, p) ↦ absurd (ground arith)
  | inl (g, p) ↦ elim (Result-cases (check_dependencies g ts)) [
    | inr (e, q) ↦ absurd (ground arith)
    | inl (u, q) ↦ elim (Result-cases (search_cycles g ts)) [
      | inr (e, r) ↦ absurd (ground arith)
      | inl (s, r) ↦
          (ground arith, record { by_id = g; indexed = p; checked = q; found = s; searched = r })
    ]
  ]
]

closed_of_entries :
    (ts : List MissionTask) (t : MissionTask)
    → IsClosed (entries ts) t
    → All (λ d. has (task_ids ts) d ≡ true) t.depends_on
closed_of_entries ts t h = go t.depends_on h
  where
    go :
        (ds : List String)
        → All (λ d. (d ≢ t.id) × (is_some (lookup d (entries ts)) ≡ true)) ds
        → All (λ d. has (task_ids ts) d ≡ true) ds
    go [] a = tt
    go (d ∷ ds) a = (rw (← keys-entries ts) (has-keys d (entries ts) ∙ a.0.1), go ds a.1)

All-map {ℓ} :
    {A : Type ℓ} {P Q : A → Type 0} (xs : List A) → ((x : A) → P x → Q x) → All P xs → All Q xs
All-map [] f a = tt
All-map (x ∷ xs) f a = (f x a.0, All-map xs f a.1)

ranked :
    (g : Dict MissionTask) (vs : List String) (us : List MissionTask)
    → Topo g vs
    → All (λ u. lookup u.id g ≡ some u) us
    → every (has vs) (task_ids us) ≡ true
    → All (λ u. All (λ d. rank_in vs d < rank_in vs u.id) u.depends_on) us
ranked g vs [] topo a m = tt
ranked g vs (u ∷ us) topo a m = (
  All-map u.depends_on (λ d b. b.1) (Topo-Below g vs u.id u topo (ground arith) a.0),
  ranked g vs us topo a.1 (ground arith),
)

Accepted-IsDag : (ts : List MissionTask) → Accepted ts → IsDag ts
unfolding search_cycles is_distinct
Accepted-IsDag ts a =
    let (same, distinct) = index_tasks_sound [] ts a.by_id refl a.indexed in
    let (keeps, all) =
      fold-Keeps a.by_id _ (visit-Keeps _ a.by_id) unvisited (task_ids ts) a.found a.searched in
    let ids_distinct : is_distinct (task_ids ts) ≡ true = rw (← keys-entries ts, ← same) distinct in
    record {
      distinct = ids_distinct;
      closed =
          All-map ts (closed_of_entries ts)
            (check_dependencies_sound (entries ts) ts (rw (← same) a.checked));
      rank = rank_in a.found.visited;
      ordered =
          ranked (entries ts) a.found.visited ts
            (subst (λ g. Topo g a.found.visited) same (keeps.ordered tt))
            (lookup-entries ts ids_distinct) all;
    }

-- A graph that `validateTaskGraph` accepts is acyclic: the call returns the normalised tasks, their
-- ids are distinct, each dependency names one of them, and some rank falls along each dependency.
pub validate_task_graph-IsDag :
    (inputs : List MissionTaskInput) (tasks : List MissionTask)
    → validate_task_graph inputs ≡ ok tasks
    → (map_result normalize_task inputs ≡ ok tasks) × IsDag tasks
unfolding validate_task_graph
validate_task_graph-IsDag inputs tasks h = elim (Result-cases (map_result normalize_task inputs)) [
  | inr (e, p) ↦ absurd (ground arith)
  | inl (ts, p) ↦
      let (same, a) = accepted ts tasks (rw p at h) in
      subst (λ us. (map_result normalize_task inputs ≡ ok us) × IsDag us) same
        (p, Accepted-IsDag ts a)
]

-- With a rank that falls along the dependencies no visit meets a task that it is already on.
module _ (g : Dict MissionTask) (rank : String → ℕ)
    (falls : (k : String) (t : MissionTask)
      → lookup k g ≡ some t
      → All (λ d. (rank d < rank k) × (is_some (lookup d g) ≡ true)) t.depends_on) where
  visit-err_ranked :
      (fuel : ℕ) (s : Visit) (id : String) (e : MissionError)
      → ((k : String) → has s.visiting k ≡ true → rank id < rank k)
      → is_some (lookup id g) ≡ true
      → visit fuel g s id ≡ err e
      → e ≡ out_of_fuel
  unfolding visit has
  visit-err_ranked zero s id e above known h = cc
  visit-err_ranked (suc fuel) s id e above known h = elim (visit-err fuel g s id e h) [
    | inl (m, c) ↦ absurd (omega (arith, above id m))
    | inr (inl (l, c)) ↦ absurd (ground arith)
    | inr (inr (new, t, l, u, d, p, m, last)) ↦
        let (less, there) = All-has _ d t.depends_on (falls id t l) m in
        visit-err_ranked fuel u d e
          (λ k on.
            subst (λ (q : List String). has q k ≡ true → rank d < rank k) (sym p)
              (λ o. ground (arith, eq_iff id k, above k)) on)
          there last
  ]

lookup-All :
    (P : String → MissionTask → Type 0) (ts : List MissionTask) (k : String) (t : MissionTask)
    → All (λ u. P u.id u) ts
    → lookup k (entries ts) ≡ some t
    → P k t
unfolding lookup
lookup-All P [] k t a l = absurd (cc)
lookup-All P (u ∷ us) k t a l = elim (Bool-cases (str_eq u.id k)) [
  | inl same ↦
      let hit : u ≡ t = ground arith in
      subst (λ j. P j t) ((eq_iff u.id k).0 same) (subst (λ (v : MissionTask). P u.id v) hit a.0)
  | inr miss ↦ lookup-All P us k t a.1 (ground arith)
]

length-keys-entries : (ts : List MissionTask) → length (keys (entries ts)) ≡ length ts
length-keys-entries [] = refl
length-keys-entries (t ∷ ts) = ap suc (length-keys-entries ts)

pub start_fuel : (ts : List MissionTask) → HasFuel (entries ts) (suc (length ts)) []
unfolding has is_distinct
start_fuel ts = record {
  distinct = refl;
  known = λ k h. absurd (cc);
  enough = omega (arith, length-keys-entries ts);
}

module _ (ts : List MissionTask) (dag : IsDag ts) where
  has_entry : (d : String) → has (task_ids ts) d ≡ true → is_some (lookup d (entries ts)) ≡ true
  has_entry d m = sym (has-keys d (entries ts)) ∙ ap (λ ks. has ks d) (keys-entries ts) ∙ m

  dag-IsClosed : All (IsClosed (entries ts)) ts
  dag-IsClosed =
      All-zip ts
        (λ t c r.
          All-zip t.depends_on
            (λ d m less. ((λ e. absurd (omega (arith, less, ap dag.rank e))), has_entry d m)) c r)
        dag.closed dag.ordered

  dag_falls :
      (k : String) (t : MissionTask)
      → lookup k (entries ts) ≡ some t
      → All (λ d. (dag.rank d < dag.rank k) × (is_some (lookup d (entries ts)) ≡ true)) t.depends_on
  dag_falls k t =
      lookup-All
        (λ j u.
          All (λ d. (dag.rank d < dag.rank j) × (is_some (lookup d (entries ts)) ≡ true))
            u.depends_on)
        ts k t
        (All-zip ts (λ u c r. All-zip u.depends_on (λ d m less. (less, has_entry d m)) c r)
          dag.closed dag.ordered)

  keys_distinct : is_distinct (keys (entries ts)) ≡ true
  keys_distinct = rw (keys-entries ts) dag.distinct

  not_on : (k : String) → ¬ (has [] k ≡ true)
  unfolding has
  not_on k h = cc

  dag_searched : (s : Visit) × (search_cycles (entries ts) ts ≡ ok s)
  unfolding search_cycles
  dag_searched = elim (Result-cases (search_cycles (entries ts) ts)) [
    | inl found ↦ found
    | inr (e, h) ↦
        let (u, d, p, m, last) =
          fold-err _ (λ s id s' k. (visit-Keeps _ (entries ts) s id s' k).0.path) unvisited
            (task_ids ts) e h in
        let spent =
          visit-err_ranked (entries ts) dag.rank dag_falls (suc (length ts)) u d e
            (λ k on. absurd (not_on k (subst (λ (q : List String). has q k ≡ true) p on)))
            (has_entry d m) last in
        absurd (
          visit_in_fuel (entries ts) keys_distinct (suc (length ts)) u d
            (subst (HasFuel (entries ts) (suc (length ts))) (sym p) (start_fuel ts))
            (subst (λ x. visit (suc (length ts)) (entries ts) u d ≡ err x) spent last))
  ]

-- An acyclic task graph is accepted: where the tasks pass `normalizeTask`, their ids are distinct,
-- each dependency names one of them and some rank falls along each dependency, the call returns
-- the normalised tasks.
pub validate_task_graph_complete :
    (inputs : List MissionTaskInput) (tasks : List MissionTask)
    → map_result normalize_task inputs ≡ ok tasks
    → IsDag tasks
    → validate_task_graph inputs ≡ ok tasks
unfolding validate_task_graph
validate_task_graph_complete inputs ts normal dag =
    let (s, searched) = dag_searched ts dag in
    rw (
      normal,
      index_tasks_complete [] ts dag.distinct,
      check_dependencies_complete (entries ts) ts (dag-IsClosed ts dag),
      searched,
    )
