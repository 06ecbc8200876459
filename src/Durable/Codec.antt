-- ===== src/Durable/Codec.antt =====
-- src/durable/mission-codec.ts: the decoding of a persisted mission event, and the JSON value of an event
-- with its keys in the order of canonicalJson.
pub mod RoundTrip
pub mod Canonical
use odin_agent.Prelude.{
  ℕ, Bool, true, false, not, ◌&&◌, ◌||◌, Option, none, some, List, [], ◌∷◌, String, str_eq, leb,
  ◌==◌, every, length, has, is_some, find_first, Result, ok, err, ◌>>=◌, ◌>>◌, guard, or_throw,
  if◌then◌else◌,
}
use odin_agent.Prelude.Number.{Number, nat, safe_nat, max_safe}
use odin_agent.Mission.State.{
  MissionState, created, understanding, retrieving, planning, risk_check, executing, observing,
  verifying, diagnosing, repairing, checkpointing, final_audit, pausing, paused, resuming,
  cancelling, completed, blocked, TaskStatus, FocusClass, MissionError,
}
use odin_agent.Mission.Budget.{Counters, BudgetCounters}
use odin_agent.Mission.Graph.{MissionTaskInput, MissionTask, validate_task_graph}
use odin_agent.Mission.Snapshot.{
  MissionCreateInput, MissionEventData, mission_created, mission_transitioned, task_status_changed,
  budget_debited, failure_recorded,
}
use odin_agent.Durable.Types.{DurableError, corruption, is_identifier}
use odin_agent.Durable.Json.{
  Json, Items, Fields, json_number, json_text, json_array, json_object, no_items, item, no_fields,
  field, get, field_keys,
}

abbrev pub state_name : MissionState → String
state_name created = "CREATED"
state_name understanding = "UNDERSTANDING"
state_name retrieving = "RETRIEVING"
state_name planning = "PLANNING"
state_name risk_check = "RISK_CHECK"
state_name executing = "EXECUTING"
state_name observing = "OBSERVING"
state_name verifying = "VERIFYING"
state_name diagnosing = "DIAGNOSING"
state_name repairing = "REPAIRING"
state_name checkpointing = "CHECKPOINTING"
state_name final_audit = "FINAL_AUDIT"
state_name pausing = "PAUSING"
state_name paused = "PAUSED"
state_name resuming = "RESUMING"
state_name cancelling = "CANCELLING"
state_name completed = "COMPLETED"
state_name MissionState.cancelled = "CANCELLED"
state_name blocked = "BLOCKED"
state_name MissionState.failed = "FAILED"

-- `MISSION_STATES`
abbrev pub mission_states : List MissionState
mission_states =
    created ∷ understanding ∷ retrieving ∷ planning ∷ risk_check ∷ executing ∷ observing ∷ verifying
    ∷ diagnosing ∷ repairing ∷ checkpointing ∷ final_audit ∷ pausing ∷ paused ∷ resuming
    ∷ cancelling ∷ completed ∷ MissionState.cancelled ∷ blocked ∷ MissionState.failed ∷ []

abbrev pub status_name : TaskStatus → String
status_name TaskStatus.pending = "PENDING"
status_name TaskStatus.running = "RUNNING"
status_name TaskStatus.verified = "VERIFIED"
status_name TaskStatus.failed = "FAILED"
status_name TaskStatus.cancelled = "CANCELLED"

-- `TASK_STATUSES`
abbrev pub task_statuses : List TaskStatus
task_statuses =
    TaskStatus.pending ∷ TaskStatus.running ∷ TaskStatus.verified ∷ TaskStatus.failed
    ∷ TaskStatus.cancelled ∷ []

abbrev pub focus_name : FocusClass → String
focus_name FocusClass.routine = "routine"
focus_name FocusClass.standard = "standard"
focus_name FocusClass.complex = "complex"
focus_name FocusClass.critical = "critical"

-- `FOCUS`
abbrev pub focus_classes : List FocusClass
focus_classes =
    FocusClass.routine ∷ FocusClass.standard ∷ FocusClass.complex ∷ FocusClass.critical ∷ []

-- The value of a set of texts that has a given name.
unfoldable pub named : {A : Type 0} → (A → String) → List A → String → Option A
named name values text = find_first (λ value. str_eq (name value) text) values

-- `exactKeys`
unfoldable pub exact_keys : List String → Fields → Result DurableError (Unit {0})
exact_keys keys fields =
    guard
      (length (field_keys fields) == length keys
        && every (has keys) (field_keys fields)
        && every (has (field_keys fields)) keys)
      corruption

-- `objectValue`
abbrev pub object_value : Option Json → Result DurableError Fields
object_value (some (json_object fields)) = ok fields
object_value _ = err corruption

-- `stringValue`
abbrev pub string_value : Option Json → Result DurableError String
string_value (some (json_text text)) = ok text
string_value _ = err corruption

-- `boundedString`
unfoldable pub bounded_string : ℕ → Option Json → Result DurableError String
bounded_string max_length value =
    string_value value >>= λ text. guard (is_identifier max_length text) corruption >> ok text

abbrev pub number_value : Option Json → Result DurableError Number
number_value (some (json_number n)) = ok n
number_value _ = err corruption

-- `safeInteger` with the minimum 0.
unfoldable pub safe_integer : ℕ → Option Json → Result DurableError ℕ
safe_integer maximum value = number_value value >>= λ x.
    or_throw (safe_nat x) corruption >>= λ n. guard (leb n maximum) corruption >> ok n

abbrev pub array_value : Option Json → Result DurableError Items
array_value (some (json_array items)) = ok items
array_value _ = err corruption

-- `array.map((item) => boundedString(item, …))`
unfoldable pub bounded_strings : ℕ → Items → Result DurableError (List String)
bounded_strings max_length no_items = ok []
bounded_strings max_length (item value items) = bounded_string max_length (some value) >>= λ text.
    bounded_strings max_length items >>= λ texts. ok (text ∷ texts)

-- `decodeCounters`
unfoldable pub decode_counters : Option Json → Result DurableError BudgetCounters
decode_counters value = do
  counters ← object_value value
  exact_keys ("inputTokens" ∷ "outputTokens" ∷ "costMicros" ∷ "toolCalls" ∷ "attempts" ∷ [])
      counters
  tries ← safe_integer max_safe (get "attempts" counters)
  cost ← safe_integer max_safe (get "costMicros" counters)
  input ← safe_integer max_safe (get "inputTokens" counters)
  output ← safe_integer max_safe (get "outputTokens" counters)
  tools ← safe_integer max_safe (get "toolCalls" counters)
  ok (record {
    input = nat input;
    output = nat output;
    cost = nat cost;
    tools = nat tools;
    tries = nat tries;
  })

-- `if (task.dependsOn !== undefined) …`
abbrev pub decode_depends_on : Option Json → Result DurableError (Option (List String))
decode_depends_on none = ok none
decode_depends_on (some value) =
    array_value (some value) >>= λ items. bounded_strings 200 items >>= λ texts. ok (some texts)

-- `if (task.priority !== undefined) …`
abbrev pub decode_priority : Option Json → Result DurableError (Option Number)
decode_priority none = ok none
decode_priority (some value) = safe_integer 100 (some value) >>= λ n. ok (some (nat n))

abbrev pub task_keys : List String
task_keys = "definitionOfDone" ∷ "dependsOn" ∷ "id" ∷ "priority" ∷ "title" ∷ []

-- `decodeTask`
unfoldable pub decode_task : Json → Result DurableError MissionTaskInput
decode_task value = do
  task ← object_value (some value)
  guard (every (has task_keys) (field_keys task)) corruption
  done ← array_value (get "definitionOfDone" task)
  definition_of_done ← bounded_strings 1000 done
  guard (leb 1 (length definition_of_done) && leb (length definition_of_done) 100) corruption
  depends_on ← decode_depends_on (get "dependsOn" task)
  priority ← decode_priority (get "priority" task)
  id ← bounded_string 200 (get "id" task)
  title ← bounded_string 1000 (get "title" task)
  ok (record {
    id = id;
    title = title;
    depends_on = depends_on;
    definition_of_done = definition_of_done;
    priority = priority;
  })

-- `input.tasks.map(decodeTask)`
unfoldable pub decode_tasks : Items → Result DurableError (List MissionTaskInput)
decode_tasks no_items = ok []
decode_tasks (item value items) =
    decode_task value >>= λ task. decode_tasks items >>= λ tasks. ok (task ∷ tasks)

-- The call of `validateTaskGraph`, whose errors become corruption.
abbrev pub graph_valid : Result MissionError (List MissionTask) → Result DurableError (Unit {0})
graph_valid (ok _) = ok tt
graph_valid (err _) = err corruption

-- `decodeMissionCreateInput`
unfoldable pub decode_mission_create_input : Option Json → Result DurableError MissionCreateInput
decode_mission_create_input value = do
  input ← object_value value
  exact_keys ("budgetLimits" ∷ "focus" ∷ "id" ∷ "objective" ∷ "tasks" ∷ []) input
  focus_text ← string_value (get "focus" input)
  focus ← or_throw (named focus_name focus_classes focus_text) corruption
  items ← array_value (get "tasks" input)
  tasks ← decode_tasks items
  graph_valid (validate_task_graph tasks)
  budget_limits ← decode_counters (get "budgetLimits" input)
  id ← bounded_string 200 (get "id" input)
  objective ← bounded_string 20000 (get "objective" input)
  ok (record {
    id = id;
    objective = objective;
    focus = focus;
    tasks = tasks;
    budget_limits = budget_limits;
  })

-- `missionState`
unfoldable pub mission_state : Option Json → Result DurableError MissionState
mission_state value =
    string_value value >>= λ text. or_throw (named state_name mission_states text) corruption

abbrev pub decode_created : Fields → Result DurableError MissionEventData
decode_created event = do
  exact_keys ("input" ∷ "type" ∷ []) event
  input ← decode_mission_create_input (get "input" event)
  ok (mission_created input)

abbrev pub decode_transitioned : Fields → Result DurableError MissionEventData
decode_transitioned event = do
  exact_keys ("from" ∷ "to" ∷ "type" ∷ []) event
  from ← mission_state (get "from" event)
  to ← mission_state (get "to" event)
  ok (mission_transitioned from to)

abbrev pub decode_status_changed : Fields → Result DurableError MissionEventData
decode_status_changed event = do
  exact_keys ("status" ∷ "taskId" ∷ "type" ∷ []) event
  status_text ← string_value (get "status" event)
  status ← or_throw (named status_name task_statuses status_text) corruption
  task_id ← bounded_string 200 (get "taskId" event)
  ok (task_status_changed task_id status)

abbrev pub decode_debited : Fields → Result DurableError MissionEventData
decode_debited event = do
  exact_keys ("delta" ∷ "type" ∷ []) event
  delta ← decode_counters (get "delta" event)
  ok (budget_debited delta)

abbrev pub decode_failure : Fields → Result DurableError MissionEventData
decode_failure event = do
  exact_keys ("signature" ∷ "type" ∷ []) event
  signature ← bounded_string 500 (get "signature" event)
  ok (failure_recorded signature)

-- The branches of `decode` by the type of the event.
abbrev pub decode_typed : Fields → String → Result DurableError MissionEventData
decode_typed event type =
    if str_eq type "mission.created"
    then decode_created event
    else if str_eq type "mission.transitioned"
    then decode_transitioned event
    else if str_eq type "task.status_changed"
    then decode_status_changed event
    else if str_eq type "budget.debited"
    then decode_debited event
    else if str_eq type "failure.recorded"
    then decode_failure event
    else err corruption

-- `missionEventCodec.decode`
unfoldable pub decode : Json → Result DurableError MissionEventData
decode value = do
  event ← object_value (some value)
  type ← string_value (get "type" event)
  decode_typed event type

abbrev pub texts_value : List String → Items
texts_value [] = no_items
texts_value (text ∷ texts) = item (json_text text) (texts_value texts)

abbrev pub counters_value : BudgetCounters → Json
counters_value c = json_object (
    field "attempts" (json_number c.tries) (
      field "costMicros" (json_number c.cost) (
        field "inputTokens" (json_number c.input) (
          field "outputTokens" (json_number c.output)
            (field "toolCalls" (json_number c.tools) no_fields)))))

abbrev pub with_depends_on : Option (List String) → Fields → Fields
with_depends_on none rest = rest
with_depends_on (some texts) rest = field "dependsOn" (json_array (texts_value texts)) rest

abbrev pub with_priority : Option Number → Fields → Fields
with_priority none rest = rest
with_priority (some n) rest = field "priority" (json_number n) rest

abbrev pub task_value : MissionTaskInput → Json
task_value t = json_object (
    field "definitionOfDone" (json_array (texts_value t.definition_of_done)) (
      with_depends_on t.depends_on (
        field "id" (json_text t.id)
          (with_priority t.priority (field "title" (json_text t.title) no_fields)))))

abbrev pub tasks_value : List MissionTaskInput → Items
tasks_value [] = no_items
tasks_value (task ∷ tasks) = item (task_value task) (tasks_value tasks)

abbrev pub create_fields : MissionCreateInput → Fields
create_fields input = field "budgetLimits" (counters_value input.budget_limits) (
    field "focus" (json_text (focus_name input.focus)) (
      field "id" (json_text input.id) (
        field "objective" (json_text input.objective)
          (field "tasks" (json_array (tasks_value input.tasks)) no_fields))))

abbrev pub create_value : MissionCreateInput → Json
create_value input = json_object (create_fields input)

-- The JSON value of an event, its keys sorted as `canonicalize` sorts them.
unfoldable pub event_value : MissionEventData → Json
event_value (mission_created input) =
    json_object
      (field "input" (create_value input) (field "type" (json_text "mission.created") no_fields))
event_value (mission_transitioned from to) = json_object (
    field "from" (json_text (state_name from)) (
      field "to" (json_text (state_name to))
        (field "type" (json_text "mission.transitioned") no_fields)))
event_value (task_status_changed task_id status) = json_object (
    field "status" (json_text (status_name status)) (
      field "taskId" (json_text task_id)
        (field "type" (json_text "task.status_changed") no_fields)))
event_value (budget_debited delta) =
    json_object
      (field "delta" (counters_value delta) (field "type" (json_text "budget.debited") no_fields))
event_value (failure_recorded signature) = json_object (
    field "signature" (json_text signature) (field "type" (json_text "failure.recorded") no_fields))
