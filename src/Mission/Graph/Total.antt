-- ===== src/Mission/Graph/Total.antt =====
-- validateTaskGraph always ends: the recursion bound of the model is never what makes it fail.
use odin_agent.Prelude.{
  ◌≡◌, ◌≢◌, refl, sym, subst, true, inl, inr, List, [], ◌∷◌, String, arith, Dict, keys, is_distinct,
  length, err, fold_result, map_result, Result-cases, suc, insert,
}
use odin_agent.Mission.State.{out_of_fuel}
use odin_agent.Mission.Graph.{
  MissionTask, MissionTaskInput, unvisited, normalize_task, index_tasks, check_dependency,
  check_dependencies, search_cycles, validate_task_graph, task_ids,
}
use odin_agent.Mission.Graph.Index.{entries, index_tasks_sound}
use odin_agent.Mission.Graph.Search.{fold-err, visit-Keeps}
use odin_agent.Mission.Graph.Fuel.{HasFuel, visit_in_fuel}
use odin_agent.Mission.Graph.Dag.{start_fuel}

normalize_in_fuel : (x : MissionTaskInput) → normalize_task x ≢ err out_of_fuel
unfolding normalize_task
normalize_in_fuel x h = ground arith

map_in_fuel : (xs : List MissionTaskInput) → map_result normalize_task xs ≢ err out_of_fuel
map_in_fuel [] h = cc
map_in_fuel (x ∷ xs) h = elim (Result-cases (normalize_task x)) [
  | inr (e, p) ↦ normalize_in_fuel x (ground arith)
  | inl (y, p) ↦ elim (Result-cases (map_result normalize_task xs)) [
    | inr (e, q) ↦ map_in_fuel xs (ground arith)
    | inl (ys, q) ↦ absurd (ground arith)
  ]
]

index_in_fuel : (m : Dict MissionTask) (ts : List MissionTask) → index_tasks m ts ≢ err out_of_fuel
unfolding index_tasks
index_in_fuel m [] h = cc
index_in_fuel m (t ∷ ts) h = ground (arith, index_in_fuel (insert t.id t m) ts)

check_one_in_fuel :
    (g : Dict MissionTask) (id : String) (ds : List String)
    → fold_result (λ _ d. check_dependency g id d) tt ds ≢ err out_of_fuel
unfolding check_dependency
check_one_in_fuel g id [] h = cc
check_one_in_fuel g id (d ∷ ds) h = ground (arith, check_one_in_fuel g id ds)

check_in_fuel :
    (g : Dict MissionTask) (ts : List MissionTask) → check_dependencies g ts ≢ err out_of_fuel
unfolding check_dependencies
check_in_fuel g [] h = cc
check_in_fuel g (t ∷ ts) h =
    elim (Result-cases (fold_result (λ _ d. check_dependency g t.id d) tt t.depends_on)) [
      | inr (e, p) ↦ check_one_in_fuel g t.id t.depends_on (ground arith)
      | inl (u, p) ↦ check_in_fuel g ts (rw p at h)
    ]

search_in_fuel :
    (ts : List MissionTask)
    → is_distinct (keys (entries ts)) ≡ true
    → search_cycles (entries ts) ts ≢ err out_of_fuel
unfolding search_cycles
search_in_fuel ts d h =
    let (u, k, p, m, last) =
      fold-err _ (λ s id s' q. (visit-Keeps _ (entries ts) s id s' q).0.path) unvisited
        (task_ids ts) out_of_fuel h in
    visit_in_fuel (entries ts) d (suc (length ts)) u k
      (subst (HasFuel (entries ts) (suc (length ts))) (sym p) (start_fuel ts)) last

-- The call never fails for want of fuel, whatever the inputs: each failure is one that the code throws.
pub validate_task_graph_in_fuel :
    (inputs : List MissionTaskInput) → validate_task_graph inputs ≢ err out_of_fuel
unfolding validate_task_graph is_distinct
validate_task_graph_in_fuel inputs h = elim (Result-cases (map_result normalize_task inputs)) [
  | inr (e, p) ↦ map_in_fuel inputs (ground arith)
  | inl (ts, p) ↦ elim (Result-cases (index_tasks [] ts)) [
    | inr (e, q) ↦ index_in_fuel [] ts (ground arith)
    | inl (g, q) ↦ elim (Result-cases (check_dependencies g ts)) [
      | inr (e, r) ↦ check_in_fuel g ts (ground arith)
      | inl (u, r) ↦ elim (Result-cases (search_cycles g ts)) [
        | inl (s, k) ↦ absurd (ground arith)
        | inr (e, k) ↦
            let (same, d) = index_tasks_sound [] ts g refl q in
            search_in_fuel ts (subst (λ m. is_distinct (keys m) ≡ true) same d)
              (subst (λ m. search_cycles m ts ≡ err out_of_fuel) same (ground arith))
      ]
    ]
  ]
]
