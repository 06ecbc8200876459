-- ===== src/Mission/Tests.antt =====
-- Tests of the mission model (src/mission/runtime.ts) on two tasks, and the theorems at these inputs.
mod Calls
use Prim.Native.String
use odin_agent.Prelude.{
  every, any, Dict, ◌≤◌, ◌||◌, ℕ, suc, ◌≡◌, ◌≢◌, refl, sym, Bool, true, false, inl, inr, Option,
  none, some, List, [], ◌∷◌, ◌++◌, String, arith, lookup, insert, remove, length, Result, ok, err,
  map_result, All, has, is_distinct,
}
use odin_agent.Prelude.Text.{is_blank}
use odin_agent.Prelude.Number.{Number, nat, safe_nat, safe_int, max_safe}
use odin_agent.Events.{number_events}
use odin_agent.Mission.State.{
  MissionState, TaskStatus, MissionError, created, understanding, planning, executing, resuming,
  completed, verified, blocked, version_mismatch, task_cycle, out_of_fuel, standard, is_terminal,
  assert_transition, next_resume_state,
}
use odin_agent.Mission.Graph.{
  task_ids, MissionTaskInput, MissionTask, normalize_task, validate_task_graph, index_tasks,
  check_dependencies, search_cycles, visit,
}
use odin_agent.Mission.Graph.Dag.{IsDag, validate_task_graph-IsDag, validate_task_graph_complete}
use odin_agent.Mission.Graph.Total.{validate_task_graph_in_fuel}
use odin_agent.Mission.Budget.{
  Counters, BudgetCounters, assert_counters, check_budget, add_counters, Within,
}
use odin_agent.Mission.Snapshot.{
  MissionCreateInput, MissionSnapshot, MissionEventData, mission_created, mission_transitioned,
  task_status_changed, failure_recorded, budget_debited, initial_snapshot, apply_event,
  transition_event, task_status_event, budget_debit, failure_count, all_pending,
}
use odin_agent.Mission.Project.{
  MissionEvent, project_mission, project_first, project_next, project_rest,
}
use odin_agent.Mission.Runnable.{has_status, is_runnable, runnable_tasks, runnable_tasks_progress}
use odin_agent.Mission.Invariant.{IsValid, project_mission-IsValid}
use odin_agent.Mission.History.{failures_in, failure_count-project_mission}
use odin_agent.Mission.Safety.{
  has_verification, completed-has_verification, terminal-apply_event, verified-apply_event,
}
use odin_agent.Mission.Liveness.{go_through, pause_resume, can_cancel}
use odin_agent.Mission.Transitions.{resume_fits}
use odin_agent.Mission.Runtime.{Item, item_at}

replay : Unit {0}
unfolding project_mission project_first project_next project_rest apply_event initial_snapshot
    transition_event task_status_event budget_debit assert_transition next_resume_state
    assert_counters check_budget add_counters validate_task_graph normalize_task index_tasks
    check_dependencies search_cycles visit all_pending lookup has is_distinct is_blank safe_nat
    number_events has_verification failures_in go_through safe_int insert remove
replay = tt

abbrev task : String → List String → MissionTaskInput
task id ds = record {
  id = id;
  title = "t";
  depends_on = some ds;
  definition_of_done = "d" ∷ [];
  priority = none;
}

abbrev two_tasks : List MissionTaskInput
two_tasks = task "b" ("a" ∷ []) ∷ task "a" [] ∷ []

abbrev checked : List MissionTaskInput → List MissionTask
checked inputs = elim (validate_task_graph inputs) [ ok ts ↦ ts | err e ↦ [] ]

abbrev budget : Counters Number
budget = record { input = nat 10; output = nat 10; cost = nat 10; tools = nat 10; tries = nat 10 }

abbrev ten : Counters ℕ
ten = record { input = 10; output = 10; cost = 10; tools = 10; tries = 10 }

abbrev one : Counters ℕ
one = record { input = 1; output = 1; cost = 1; tools = 1; tries = 1 }

abbrev input : MissionCreateInput
input = record {
  id = "m";
  objective = "o";
  focus = standard;
  tasks = two_tasks;
  budget_limits = budget;
}

abbrev walk : MissionState → List MissionState → List MissionEventData
walk from [] = []
walk from (to ∷ more) = mission_transitioned from to ∷ walk to more

abbrev to_completed : List MissionEventData
to_completed =
    mission_created input
    ∷ failure_recorded "f"
    ∷ task_status_changed "a" TaskStatus.running
    ∷ task_status_changed "a" TaskStatus.verified
    ∷ walk created (
        MissionState.understanding ∷ MissionState.retrieving ∷ MissionState.planning
        ∷ MissionState.risk_check ∷ MissionState.executing ∷ MissionState.observing
        ∷ MissionState.verifying ∷ MissionState.checkpointing ∷ MissionState.final_audit
        ∷ MissionState.completed ∷ [])

abbrev items : List MissionEventData → List Item
items [] = []
items (d ∷ ds) = item_at "now" d ∷ items ds

abbrev events : List MissionEvent
events = number_events "m" "k" 0 (items to_completed)

-- The snapshot of a mission at its start.
abbrev fresh : MissionSnapshot
fresh = record {
  id = "m";
  objective = "o";
  focus = standard;
  state = created;
  resume_state = none;
  version = 1;
  tasks = checked two_tasks;
  task_statuses = ("b", TaskStatus.pending) ∷ ("a", TaskStatus.pending) ∷ [];
  budget_limits = ten;
  budget_usage = record { input = 0; output = 0; cost = 0; tools = 0; tries = 0 };
  failure_counts = [];
}

abbrev done : MissionSnapshot
done = record fresh {
  state = completed;
  version = 14;
  task_statuses = ("b", TaskStatus.pending) ∷ ("a", TaskStatus.verified) ∷ [];
  failure_counts = ("f", 1) ∷ [];
}

replays : project_mission events ≡ ok done
unfolding replay
replays = refl

graph_tests :
    (validate_task_graph (task "a" ("b" ∷ []) ∷ task "b" ("a" ∷ []) ∷ []) ≡ err task_cycle)
    × (validate_task_graph two_tasks ≡ ok (checked two_tasks))
    × (map_result normalize_task two_tasks ≡ ok (checked two_tasks))
unfolding replay
graph_tests = (refl, refl, refl)

validate_task_graph-IsDag_example :
    (map_result normalize_task two_tasks ≡ ok (checked two_tasks)) × IsDag (checked two_tasks)
validate_task_graph-IsDag_example =
    validate_task_graph-IsDag two_tasks (checked two_tasks) graph_tests.1

validate_task_graph_complete_example : validate_task_graph two_tasks ≡ ok (checked two_tasks)
validate_task_graph_complete_example =
    validate_task_graph_complete two_tasks (checked two_tasks) graph_tests.2
      (validate_task_graph-IsDag two_tasks (checked two_tasks) graph_tests.1).1

validate_task_graph_in_fuel_example : validate_task_graph two_tasks ≢ err out_of_fuel
validate_task_graph_in_fuel_example = validate_task_graph_in_fuel two_tasks

within_budget : check_budget one ten one ≡ ok tt
unfolding replay
within_budget = refl

all-Within : Within (add_counters one one) ten
unfolding add_counters
all-Within = record {
  input = omega arith;
  output = omega arith;
  cost = omega arith;
  tools = omega arith;
  tries = omega arith;
}

project_mission-IsValid_example : IsValid done
project_mission-IsValid_example = project_mission-IsValid events done replays

failure_count-project_mission_example : failure_count done "f" ≡ failures_in "f" events
failure_count-project_mission_example = failure_count-project_mission "f" events done refl replays

completed-has_verification_example : has_verification events ≡ true
completed-has_verification_example = completed-has_verification events done replays refl

terminal-apply_event_example :
    ((f : String) × (failure_recorded "g" ≡ failure_recorded f))
    × (counts : Dict ℕ) × (record done { failure_counts = ("f", 1) ∷ ("g", 1) ∷ []; version = 15 }
        ≡ record done { failure_counts = counts; version = 15 })
unfolding replay
terminal-apply_event_example =
    terminal-apply_event done (failure_recorded "g") 15
      (record done { failure_counts = ("f", 1) ∷ ("g", 1) ∷ []; version = 15 }) refl refl

verified-apply_event_example : lookup "a" done.task_statuses ≡ some TaskStatus.verified
unfolding replay
verified-apply_event_example =
    verified-apply_event done (failure_recorded "f") 14
      (record done { failure_counts = ("f", 2) ∷ []; version = 14 }) "a" refl refl

pause_resume_example :
    go_through fresh
      (MissionState.pausing ∷ MissionState.paused ∷ MissionState.resuming ∷ created ∷ [])
    ≡ ok (record fresh { version = 5 })
pause_resume_example = pause_resume fresh refl

abbrev resumed : MissionSnapshot
resumed = record fresh { state = resuming; resume_state = some planning }

can_cancel_example :
    (path : List MissionState) × (t : MissionSnapshot) × (length path ≤ 3)
    × (go_through fresh path ≡ ok t)
    × (t.state ≡ MissionState.cancelled)
can_cancel_example = can_cancel fresh refl refl

abbrev founding : List MissionEvent
founding = number_events "m" "k" 0 (items (mission_created input ∷ []))

founds : project_mission founding ≡ ok fresh
unfolding replay
founds = refl

abbrev by_length : String → String → Bool
by_length a b = false

abbrev first_ids : List String
first_ids = task_ids (runnable_tasks by_length fresh)

runnable_tests : first_ids ≡ "a" ∷ []
unfolding replay runnable_tasks is_runnable
runnable_tests = refl

all_pending_or_verified :
    every
      (λ t. has_status fresh TaskStatus.pending t.id || has_status fresh TaskStatus.verified t.id)
      fresh.tasks
    ≡ true
unfolding replay
all_pending_or_verified = refl

one_pending : any (λ t. has_status fresh TaskStatus.pending t.id) fresh.tasks ≡ true
unfolding replay
one_pending = refl

runnable_tasks_progress_example : length (runnable_tasks by_length fresh) ≢ 0
runnable_tasks_progress_example =
    runnable_tasks_progress by_length fresh (project_mission-IsValid founding fresh founds)
      all_pending_or_verified one_pending
