-- ===== src/Mission/Graph/Index.antt =====
-- The first two loops of validateTaskGraph: when they pass, and what `byId` then holds.
use mathlib.Core.List.{append_assoc, append-nil}
use odin_agent.Prelude.{
  ◌≡◌, refl, sym, ap, ◌∙◌, true, inl, inr, Bool-cases, none, List, [], ◌∷◌, ◌++◌, map, String,
  eq_iff, arith, Dict, lookup, insert, keys, insert-new, has-keys, is_distinct, is_distinct-concat,
  is_distinct-middle, is_some, All, ◌≢◌, ok, >>=-eq-ok, fold_result,
}
use odin_agent.Mission.Graph.{
  MissionTask, index_tasks, check_dependency, check_dependencies, task_ids,
}

abbrev pub entries : List MissionTask → Dict MissionTask
entries = map λ t. (t.id, t)

pub keys-append : (m n : Dict MissionTask) → keys (m ++ n) ≡ keys m ++ keys n
keys-append [] n = refl
keys-append ((k, v) ∷ m) n = ap (◌∷◌ k) (keys-append m n)

pub keys-entries : (ts : List MissionTask) → keys (entries ts) ≡ task_ids ts
keys-entries [] = refl
keys-entries (t ∷ ts) = ap (◌∷◌ t.id) (keys-entries ts)

-- `byId` holds the tasks in order, under distinct ids.
pub index_tasks_sound :
    (m : Dict MissionTask) (ts : List MissionTask) (g : Dict MissionTask)
    → is_distinct (keys m) ≡ true
    → index_tasks m ts ≡ ok g
    → (g ≡ m ++ entries ts) × (is_distinct (keys g) ≡ true)
unfolding index_tasks
index_tasks_sound m [] g d h = (ground (arith, append-nil m), ground arith)
index_tasks_sound m (t ∷ ts) g d h = elim (Bool-cases (is_some (lookup t.id m))) [
  | inl old ↦ absurd (ground arith)
  | inr new ↦
      let grown = insert-new t.id t m (ground arith) in
      let (e, f) =
        index_tasks_sound (insert t.id t m) ts g
          (rw (grown, keys-append m ((t.id, t) ∷ []))
            (is_distinct-concat t.id (keys m) d (has-keys t.id m ∙ new)))
          (rw new at h) in
      (
        e
            ∙ ap (λ (n : Dict MissionTask). n ++ entries ts) grown
            ∙ append_assoc m ((t.id, t) ∷ []) (entries ts),
        f,
      )
]

pub index_tasks_complete :
    (m : Dict MissionTask) (ts : List MissionTask)
    → is_distinct (keys m ++ task_ids ts) ≡ true
    → index_tasks m ts ≡ ok (m ++ entries ts)
unfolding index_tasks
index_tasks_complete m [] d = ap ok (sym (append-nil m))
index_tasks_complete m (t ∷ ts) d =
    let new : lookup t.id m ≡ none =
      ground (arith, is_distinct-middle t.id (keys m) (task_ids ts) d, has-keys t.id m) in
    let grown = insert-new t.id t m new in
    let rest = index_tasks_complete (insert t.id t m) ts (
      rw (grown, keys-append m ((t.id, t) ∷ []), append_assoc (keys m) (t.id ∷ []) (task_ids ts))
        d) in
    rw new (
      rest
      ∙ ap ok (
          ap (λ (n : Dict MissionTask). n ++ entries ts) grown
          ∙ append_assoc m ((t.id, t) ∷ []) (entries ts)))

-- Every dependency of a task names another task.
abbrev pub IsClosed : Dict MissionTask → MissionTask → Type 0
IsClosed g t = All (λ d. (d ≢ t.id) × (is_some (lookup d g) ≡ true)) t.depends_on

check_one_sound :
    (g : Dict MissionTask) (id : String) (ds : List String) {u : Unit {0}}
    → fold_result (λ _ d. check_dependency g id d) tt ds ≡ ok u
    → All (λ d. (d ≢ id) × (is_some (lookup d g) ≡ true)) ds
unfolding check_dependency
check_one_sound g id [] h = tt
check_one_sound g id (d ∷ ds) h =
    let (_, first, rest) = >>=-eq-ok (check_dependency g id d) _ h in
    ((λ e. ground (arith, eq_iff d id), ground arith), check_one_sound g id ds rest)

check_one_complete :
    (g : Dict MissionTask) (id : String) (ds : List String)
    → All (λ d. (d ≢ id) × (is_some (lookup d g) ≡ true)) ds
    → fold_result (λ _ d. check_dependency g id d) tt ds ≡ ok tt
unfolding check_dependency
check_one_complete g id [] h = refl
check_one_complete g id (d ∷ ds) h = ground (arith, eq_iff d id, check_one_complete g id ds h.1)

pub check_dependencies_sound :
    (g : Dict MissionTask) (ts : List MissionTask) {u : Unit {0}}
    → check_dependencies g ts ≡ ok u
    → All (IsClosed g) ts
unfolding check_dependencies
check_dependencies_sound g [] h = tt
check_dependencies_sound g (t ∷ ts) h =
    let (_, first, rest) =
      >>=-eq-ok (fold_result (λ _ d. check_dependency g t.id d) tt t.depends_on) _ h in
    (check_one_sound g t.id t.depends_on first, check_dependencies_sound g ts rest)

pub check_dependencies_complete :
    (g : Dict MissionTask) (ts : List MissionTask)
    → All (IsClosed g) ts
    → check_dependencies g ts ≡ ok tt
unfolding check_dependencies
check_dependencies_complete g [] h = refl
check_dependencies_complete g (t ∷ ts) h =
    rw (check_one_complete g t.id t.depends_on h.0) (check_dependencies_complete g ts h.1)
