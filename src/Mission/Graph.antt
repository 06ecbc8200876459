-- ===== src/Mission/Graph.antt =====
-- src/mission/runtime.ts: normalizeTask and validateTaskGraph. The recursion of `visit` takes fuel, one
-- more than the number of tasks; `Graph.Fuel` shows that this is enough.
pub mod Search
pub mod Fuel
pub mod Index
pub mod Dag
pub mod Total
use odin_agent.Prelude.{
  ℕ, zero, suc, Bool, not, ◌||◌, Option, none, some, List, [], ◌∷◌, map, String, str_eq, Dict,
  lookup, insert, has, remove, is_distinct, is_some, any, length, Result, ok, err, ◌>>=◌, ◌>>◌,
  guard, or_throw, map_result, fold_result, if◌then◌else◌, ◌==◌,
}
use odin_agent.Prelude.Text.{is_blank}
use odin_agent.Prelude.Number.{Number, int, pos, ℤ, safe_int}
use odin_agent.Mission.State.{
  MissionError, blank_field, no_definition_of_done, duplicate_dependencies, bad_priority,
  duplicate_task, self_dependency, unknown_task, missing_dependency, task_cycle, out_of_fuel,
}

pub record MissionTaskInput : Type 0 where
  pub id : String
  pub title : String
  pub depends_on : Option (List String)
  pub definition_of_done : List String
  pub priority : Option Number

-- `priority` is the integer that `normalizeTask` has checked.
pub record MissionTask : Type 0 where
  pub id : String
  pub title : String
  pub depends_on : List String
  pub definition_of_done : List String
  pub priority : ℤ

-- `assertNonEmpty`
abbrev pub assert_non_empty : String → Result MissionError (Unit {0})
assert_non_empty value = guard (not (is_blank value)) blank_field

-- `input.dependsOn ?? []`
abbrev dependencies_of : Option (List String) → List String
dependencies_of none = []
dependencies_of (some ds) = ds

-- `input.priority ?? 0`
abbrev priority_of : Option Number → Number
priority_of none = int (pos 0)
priority_of (some p) = p

abbrev is_empty : List String → Bool
is_empty xs = length xs == 0

unfoldable pub normalize_task : MissionTaskInput → Result MissionError MissionTask
normalize_task input = do
  assert_non_empty input.id
  assert_non_empty input.title
  guard (not (is_empty input.definition_of_done || any is_blank input.definition_of_done))
      (no_definition_of_done input.id)
  let dependencies = dependencies_of input.depends_on
  guard (is_distinct dependencies) (duplicate_dependencies input.id)
  priority ← or_throw (safe_int (priority_of input.priority)) (bad_priority input.id)
  ok (record {
    id = input.id;
    title = input.title;
    depends_on = dependencies;
    definition_of_done = input.definition_of_done;
    priority = priority;
  })

-- The first loop: `byId`, which refuses a second task of one id.
unfoldable pub index_tasks :
    Dict MissionTask → List MissionTask → Result MissionError (Dict MissionTask)
index_tasks by_id [] = ok by_id
index_tasks by_id (task ∷ tasks) =
    guard (not (is_some (lookup task.id by_id))) (duplicate_task task.id)
    >> index_tasks (insert task.id task by_id) tasks

check_dependency : Dict MissionTask → String → String → Result MissionError (Unit {0})
check_dependency by_id id dependency =
    guard (not (str_eq dependency id)) (self_dependency id)
    >> guard (is_some (lookup dependency by_id)) (missing_dependency id dependency)

-- The second loop: every dependency names another task of the graph.
unfoldable pub check_dependencies :
    Dict MissionTask → List MissionTask → Result MissionError (Unit {0})
unfolding check_dependency
check_dependencies by_id tasks =
    fold_result (λ _ task. fold_result (λ _ d. check_dependency by_id task.id d) tt task.depends_on)
      tt tasks

-- The two sets of the depth-first search.
pub record Visit : Type 0 where
  pub visiting : List String
  pub visited : List String

unfoldable pub visit : ℕ → Dict MissionTask → Visit → String → Result MissionError Visit
visit zero by_id s id = err out_of_fuel
visit (suc fuel) by_id s id =
    if has s.visiting id
    then err task_cycle
    else if has s.visited id
    then ok s
    else or_throw (lookup id by_id) (unknown_task id) >>= λ task.
        fold_result (visit fuel by_id) (record s { visiting = id ∷ s.visiting }) task.depends_on
        >>= λ s'. ok (record { visiting = remove id s'.visiting; visited = id ∷ s'.visited })

abbrev pub task_ids : List MissionTask → List String
task_ids = map λ t. t.id

abbrev pub unvisited : Visit
unvisited = record { visiting = []; visited = [] }

-- The third loop.
unfoldable pub search_cycles : Dict MissionTask → List MissionTask → Result MissionError Visit
search_cycles by_id tasks =
    fold_result (visit (suc (length tasks)) by_id) unvisited (task_ids tasks)

unfoldable pub validate_task_graph : List MissionTaskInput → Result MissionError (List MissionTask)
validate_task_graph inputs = do
  tasks ← map_result normalize_task inputs
  by_id ← index_tasks [] tasks
  check_dependencies by_id tasks
  _ ← search_cycles by_id tasks
  ok tasks
