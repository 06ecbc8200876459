-- ===== src/Mission/Snapshot.antt =====
-- src/mission/runtime.ts: the snapshot, the events and the functions that make or apply an event. Plain
-- objects keyed by text are dictionaries.
use odin_agent.Prelude.{
  ℕ, str_eq, ◌+◌, Bool, not, Option, none, some, List, [], ◌∷◌, String, Dict, lookup, insert, any,
  ltb, leb, ◌&&◌, Result, ok, err, ◌>>=◌, ◌>>◌, guard, or_throw,
}
use odin_agent.Prelude.Number.{Number, safe_nat}
use odin_agent.Mission.State.{
  MissionState, created, TaskStatus, pending, FocusClass, MissionError, bad_failure_policy,
  terminal, unknown_task, task_transition_not_allowed, created_twice, stale_source, state_eq,
  status_eq, is_terminal, assert_transition, next_resume_state, allowed_statuses,
}
use odin_agent.Mission.Graph.{MissionTask, MissionTaskInput, assert_non_empty, validate_task_graph}
use odin_agent.Mission.Budget.{
  Counters, BudgetCounters, zero_counters, assert_counters, check_budget, add_counters,
}

pub record MissionCreateInput : Type 0 where
  pub id : String
  pub objective : String
  pub focus : FocusClass
  pub tasks : List MissionTaskInput
  pub budget_limits : BudgetCounters

-- The members that every plain object inherits. A plain object keyed by text is a dictionary only for the
-- other texts: `failureCounts` has no number for one of these, and `taskStatuses` no status for `__proto__`.
abbrev pub object_members : List String
object_members =
    "__defineGetter__" ∷ "__defineSetter__" ∷ "__lookupGetter__" ∷ "__lookupSetter__" ∷ "__proto__"
    ∷ "constructor" ∷ "hasOwnProperty" ∷ "isPrototypeOf" ∷ "propertyIsEnumerable" ∷ "toLocaleString"
    ∷ "toString" ∷ "valueOf" ∷ []

abbrev pub is_object_member : String → Bool
is_object_member text = any (λ member. str_eq member text) object_members

pub record MissionSnapshot : Type 0 where
  pub id : String
  pub objective : String
  pub focus : FocusClass
  pub state : MissionState
  pub resume_state : Option MissionState
  pub version : ℕ
  pub tasks : List MissionTask
  pub task_statuses : Dict TaskStatus
  pub budget_limits : Counters ℕ
  pub budget_usage : Counters ℕ
  pub failure_counts : Dict ℕ

pub data MissionEventData : Type 0 where
  mission_created : MissionCreateInput → MissionEventData
  mission_transitioned : MissionState → MissionState → MissionEventData
  task_status_changed : String → TaskStatus → MissionEventData
  budget_debited : BudgetCounters → MissionEventData
  failure_recorded : String → MissionEventData

-- `assertMutableMission`
abbrev pub assert_mutable_mission : MissionSnapshot → Result MissionError (Unit {0})
assert_mutable_mission s = guard (not (is_terminal s.state)) (terminal s.state)

unfoldable pub transition_event :
    MissionSnapshot → MissionState → Result MissionError MissionEventData
transition_event s to =
    assert_transition s.state s.resume_state to >> ok (mission_transitioned s.state to)

unfoldable pub task_status_event :
    MissionSnapshot → String → TaskStatus → Result MissionError MissionEventData
task_status_event s task_id status = do
  assert_mutable_mission s
  current ← or_throw (lookup task_id s.task_statuses) (unknown_task task_id)
  guard (any (λ x. status_eq x status) (allowed_statuses current))
      (task_transition_not_allowed current status)
  ok (task_status_changed task_id status)

-- `budgetDebitEvent`, with the checked value of its argument.
unfoldable pub budget_debit : MissionSnapshot → BudgetCounters → Result MissionError (Counters ℕ)
budget_debit s delta = do
  assert_mutable_mission s
  checked ← assert_counters delta
  check_budget s.budget_usage s.budget_limits checked
  ok checked

unfoldable pub budget_debit_event :
    MissionSnapshot → BudgetCounters → Result MissionError MissionEventData
unfolding budget_debit
budget_debit_event s delta = budget_debit s delta >>= λ _. ok (budget_debited delta)

-- `assertFailurePolicy`; the value is the bound that it has checked.
unfoldable pub assert_failure_policy : String → Number → Result MissionError ℕ
assert_failure_policy signature max_equivalent_failures = do
  assert_non_empty signature
  limit ← or_throw (safe_nat max_equivalent_failures) bad_failure_policy
  guard (leb 1 limit) bad_failure_policy
  ok limit

-- `counts[signature] ?? 0`, for a signature that is not in `object_members`.
abbrev or_zero : Option ℕ → ℕ
or_zero none = 0
or_zero (some n) = n

abbrev pub failure_count : MissionSnapshot → String → ℕ
failure_count s signature = or_zero (lookup signature s.failure_counts)

unfoldable pub can_retry : MissionSnapshot → String → Number → Result MissionError Bool
unfolding assert_failure_policy
can_retry s signature max_equivalent_failures = do
  limit ← assert_failure_policy signature max_equivalent_failures
  ok (not (is_terminal s.state) && ltb (failure_count s signature) limit)

-- `for (const task of tasks) taskStatuses[task.id] = "PENDING"`, for ids other than `__proto__`, to which the
-- assignment does nothing.
unfoldable pub all_pending : Dict TaskStatus → List MissionTask → Dict TaskStatus
all_pending m [] = m
all_pending m (t ∷ ts) = all_pending (insert t.id pending m) ts

unfoldable pub initial_snapshot : MissionCreateInput → ℕ → Result MissionError MissionSnapshot
initial_snapshot input version = do
  assert_non_empty input.id
  assert_non_empty input.objective
  limits ← assert_counters input.budget_limits
  tasks ← validate_task_graph input.tasks
  ok (record {
    id = input.id;
    objective = input.objective;
    focus = input.focus;
    state = created;
    resume_state = none;
    version = version;
    tasks = tasks;
    task_statuses = all_pending [] tasks;
    budget_limits = limits;
    budget_usage = zero_counters;
    failure_counts = [];
  })

unfoldable pub apply_event :
    MissionSnapshot → MissionEventData → ℕ → Result MissionError MissionSnapshot
apply_event s (mission_created input) version = err created_twice
apply_event s (mission_transitioned from to) version =
    guard (state_eq from s.state) stale_source
    >> (assert_transition s.state s.resume_state to
        >> ok (record s {
          resume_state = next_resume_state s.state s.resume_state to;
          state = to;
          version = version;
        }))
apply_event s (task_status_changed task_id status) version =
    task_status_event s task_id status >>= λ _.
    ok (record s { task_statuses = insert task_id status s.task_statuses; version = version })
apply_event s (budget_debited delta) version = budget_debit s delta >>= λ checked.
    ok (record s { budget_usage = add_counters s.budget_usage checked; version = version })
apply_event s (failure_recorded signature) version =
    assert_non_empty signature
    >> ok (record s {
      failure_counts = insert signature (failure_count s signature + 1) s.failure_counts;
      version = version;
    })
