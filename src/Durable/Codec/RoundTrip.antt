-- ===== src/Durable/Codec/RoundTrip.antt =====
-- src/durable/mission-codec.ts: what the codec has decoded is decoded again, to the same event, from the
-- JSON value of the event.
use odin_agent.Prelude.{
  ℕ, ◌≡◌, refl, sym, ap, subst, Bool, true, false, ◌&&◌, Option, none, some, List, [], ◌∷◌, String,
  arith, leb, every, length, has, Result, ok, ◌>>◌, guard, or_throw, >>=-eq-ok, bind_ok, guard-ok,
  if◌then◌else◌, str_eq,
}
use odin_agent.Prelude.Number.{Number, int, other, pos, negsuc, nat, safe_nat, max_safe}
use odin_agent.Mission.State.{
  MissionState, created, understanding, retrieving, planning, risk_check, executing, observing,
  verifying, diagnosing, repairing, checkpointing, final_audit, pausing, paused, resuming,
  cancelling, completed, blocked, TaskStatus, FocusClass,
}
use odin_agent.Mission.Budget.{BudgetCounters}
use odin_agent.Mission.Graph.{MissionTaskInput, validate_task_graph}
use odin_agent.Mission.Snapshot.{MissionCreateInput, MissionEventData}
use odin_agent.Durable.Types.{DurableError, corruption, is_identifier}
use odin_agent.Durable.Json.{
  Json, Items, Fields, json_number, json_text, no_items, item, get, field_keys,
}
use odin_agent.Durable.Codec.{
  state_name, mission_states, status_name, task_statuses, focus_name, focus_classes, named,
  exact_keys, object_value, string_value, bounded_string, number_value, safe_integer, array_value,
  bounded_strings, decode_counters, decode_depends_on, decode_priority, task_keys, decode_task,
  decode_tasks, graph_valid, decode_mission_create_input, mission_state, decode_created,
  decode_transitioned, decode_status_changed, decode_debited, decode_failure, decode_typed, decode,
  texts_value, counters_value, task_value, tasks_value, create_fields, create_value, event_value,
}

codec_ok : {A : Type 0} {x y : A} → ◌≡◌ {A = Result DurableError A} (ok x) (ok y) → x ≡ y
codec_ok h = cc

guarded :
    {A : Type 0} (b : Bool) (x y : A) → (guard b corruption >> ok x) ≡ ok y → (b ≡ true) × (x ≡ y)
guarded true x y h = (refl, codec_ok h)
guarded false x y h = absurd (cc)

-- Texts and numbers within their bounds.
bounded_string_again :
    (n : ℕ) (value : Option Json) {text : String}
    → bounded_string n value ≡ ok text
    → bounded_string n (some (json_text text)) ≡ ok text
unfolding bounded_string
bounded_string_again n value {text} h =
    let (t, _, h1) = >>=-eq-ok (string_value value) _ h in
    let (bound, same) = guarded (is_identifier n t) t text h1 in
    subst (λ (s : String). bounded_string n (some (json_text s)) ≡ ok s) same (rw bound refl)

safe_nat_again : (x : Number) {n : ℕ} → safe_nat x ≡ some n → safe_nat (nat n) ≡ some n
unfolding safe_nat
safe_nat_again (int (pos m)) {n} h = ground arith
safe_nat_again (int (negsuc m)) h = absurd (cc)
safe_nat_again other h = absurd (cc)

thrown_some :
    {A : Type 0} (o : Option A) {x : A}
    → ◌≡◌ {A = Result DurableError A} (or_throw o corruption) (ok x)
    → o ≡ some x
thrown_some none h = absurd (cc)
thrown_some (some y) h = ap some (codec_ok h)

safe_integer_again :
    (maximum : ℕ) (value : Option Json) {n : ℕ}
    → safe_integer maximum value ≡ ok n
    → safe_integer maximum (some (json_number (nat n))) ≡ ok n
unfolding safe_integer
safe_integer_again maximum value {n} h =
    let (x, _, h1) = >>=-eq-ok (number_value value) _ h in
    let (m, h2, h3) = >>=-eq-ok (or_throw (safe_nat x) corruption) _ h1 in
    let (bound, same) = guarded (leb m maximum) m n h3 in
    let safe = safe_nat_again x (thrown_some (safe_nat x) h2) in
    subst (λ (k : ℕ). safe_integer maximum (some (json_number (nat k))) ≡ ok k) same
      (rw (safe, bound) refl)

bounded_strings_again :
    (n : ℕ) (items : Items) {texts : List String}
    → bounded_strings n items ≡ ok texts
    → bounded_strings n (texts_value texts) ≡ ok texts
unfolding bounded_strings
bounded_strings_again n no_items {texts} h =
    subst (λ (ts : List String). bounded_strings n (texts_value ts) ≡ ok ts) (codec_ok h) refl
bounded_strings_again n (item value items) {texts} h =
    let (t, first, h1) = >>=-eq-ok (bounded_string n (some value)) _ h in
    let (ts, second, h2) = >>=-eq-ok (bounded_strings n items) _ h1 in
    subst (λ (us : List String). bounded_strings n (texts_value us) ≡ ok us) (codec_ok h2)
      (rw (bounded_string_again n (some value) first, bounded_strings_again n items second) refl)

-- The names of states, statuses and focus classes.
state_named : (s : MissionState) → named state_name mission_states (state_name s) ≡ some s
unfolding named
state_named created = refl
state_named understanding = refl
state_named retrieving = refl
state_named planning = refl
state_named risk_check = refl
state_named executing = refl
state_named observing = refl
state_named verifying = refl
state_named diagnosing = refl
state_named repairing = refl
state_named checkpointing = refl
state_named final_audit = refl
state_named pausing = refl
state_named paused = refl
state_named resuming = refl
state_named cancelling = refl
state_named completed = refl
state_named MissionState.cancelled = refl
state_named blocked = refl
state_named MissionState.failed = refl

status_named : (s : TaskStatus) → named status_name task_statuses (status_name s) ≡ some s
unfolding named
status_named TaskStatus.pending = refl
status_named TaskStatus.running = refl
status_named TaskStatus.verified = refl
status_named TaskStatus.failed = refl
status_named TaskStatus.cancelled = refl

focus_named : (f : FocusClass) → named focus_name focus_classes (focus_name f) ≡ some f
unfolding named
focus_named FocusClass.routine = refl
focus_named FocusClass.standard = refl
focus_named FocusClass.complex = refl
focus_named FocusClass.critical = refl

mission_state_named : (s : MissionState) → mission_state (some (json_text (state_name s))) ≡ ok s
unfolding mission_state
mission_state_named s = rw (state_named s) refl

decode_counters_again :
    (value : Option Json) {counters : BudgetCounters}
    → decode_counters value ≡ ok counters
    → decode_counters (some (counters_value counters)) ≡ ok counters
unfolding decode_counters exact_keys get field_keys has
decode_counters_again value {counters} h =
    let (fields, _, h1) = >>=-eq-ok (object_value value) _ h in
    let (_, _, h2) =
      >>=-eq-ok
        (exact_keys ("inputTokens" ∷ "outputTokens" ∷ "costMicros" ∷ "toolCalls" ∷ "attempts" ∷ [])
          fields)
        _ h1 in
    let (tries, e1, h3) = >>=-eq-ok (safe_integer max_safe (get "attempts" fields)) _ h2 in
    let (cost, e2, h4) = >>=-eq-ok (safe_integer max_safe (get "costMicros" fields)) _ h3 in
    let (input, e3, h5) = >>=-eq-ok (safe_integer max_safe (get "inputTokens" fields)) _ h4 in
    let (output, e4, h6) = >>=-eq-ok (safe_integer max_safe (get "outputTokens" fields)) _ h5 in
    let (tools, e5, h7) = >>=-eq-ok (safe_integer max_safe (get "toolCalls" fields)) _ h6 in
    subst (λ (c : BudgetCounters). decode_counters (some (counters_value c)) ≡ ok c) (codec_ok h7)
      (rw
        (
          safe_integer_again max_safe (get "attempts" fields) e1,
          safe_integer_again max_safe (get "costMicros" fields) e2,
          safe_integer_again max_safe (get "inputTokens" fields) e3,
          safe_integer_again max_safe (get "outputTokens" fields) e4,
          safe_integer_again max_safe (get "toolCalls" fields) e5,
        )
        refl)

-- Optional fields that are decoded again.
abbrev IsDependencies : Option (List String) → Type 0
IsDependencies none = Unit
IsDependencies (some texts) = bounded_strings 200 (texts_value texts) ≡ ok texts

abbrev IsPriority : Option Number → Type 0
IsPriority none = Unit
IsPriority (some x) = (n : ℕ) × (x ≡ nat n) × (safe_integer 100 (some (json_number (nat n))) ≡ ok n)

depends_on-IsDependencies :
    (value : Option Json) {found : Option (List String)}
    → decode_depends_on value ≡ ok found
    → IsDependencies found
depends_on-IsDependencies none h = subst IsDependencies (codec_ok h) tt
depends_on-IsDependencies (some value) h =
    let (items, _, h1) = >>=-eq-ok (array_value (some value)) _ h in
    let (texts, e, h2) = >>=-eq-ok (bounded_strings 200 items) _ h1 in
    subst IsDependencies (codec_ok h2) (bounded_strings_again 200 items e)

decode_priority-IsPriority :
    (value : Option Json) {found : Option Number}
    → decode_priority value ≡ ok found
    → IsPriority found
decode_priority-IsPriority none h = subst IsPriority (codec_ok h) tt
decode_priority-IsPriority (some value) h =
    let (n, e, h1) = >>=-eq-ok (safe_integer 100 (some value)) _ h in
    subst IsPriority (codec_ok h1) (n, refl, safe_integer_again 100 (some value) e)

module _ (id title : String) (done : List String)
    (good_done : bounded_strings 1000 (texts_value done) ≡ ok done)
    (good_count : (leb 1 (length done) && leb (length done) 100) ≡ true)
    (good_id : bounded_string 200 (some (json_text id)) ≡ ok id)
    (good_title : bounded_string 1000 (some (json_text title)) ≡ ok title) where
  abbrev task_of : Option (List String) → Option Number → MissionTaskInput
  task_of depends_on priority = record {
    id = id;
    title = title;
    depends_on = depends_on;
    definition_of_done = done;
    priority = priority;
  }

  task_again :
      (depends_on : Option (List String)) (priority : Option Number)
      → IsDependencies depends_on
      → IsPriority priority
      → decode_task (task_value (task_of depends_on priority)) ≡ ok (task_of depends_on priority)
  unfolding decode_task get field_keys has
  task_again none none d p = rw (good_done, good_count, good_id, good_title) refl
  task_again (some texts) none d p = rw (good_done, good_count, d, good_id, good_title) refl
  task_again none (some x) d (n, same, p) =
      subst
        (λ (y : Number).
          decode_task (task_value (task_of none (some y))) ≡ ok (task_of none (some y)))
        (sym same) (rw (good_done, good_count, p, good_id, good_title) refl)
  task_again (some texts) (some x) d (n, same, p) =
      subst
        (λ (y : Number).
          decode_task (task_value (task_of (some texts) (some y)))
          ≡ ok (task_of (some texts) (some y)))
        (sym same) (rw (good_done, good_count, d, p, good_id, good_title) refl)

decode_task_again :
    (value : Json) {task : MissionTaskInput}
    → decode_task value ≡ ok task
    → decode_task (task_value task) ≡ ok task
unfolding decode_task
decode_task_again value {task} h =
    let (fields, _, h1) = >>=-eq-ok (object_value (some value)) _ h in
    let (_, _, h2) =
      >>=-eq-ok (guard (every (has task_keys) (field_keys fields)) corruption) _ h1 in
    let (items, _, h3) = >>=-eq-ok (array_value (get "definitionOfDone" fields)) _ h2 in
    let (done, e1, h4) = >>=-eq-ok (bounded_strings 1000 items) _ h3 in
    let (_, e2, h5) =
      >>=-eq-ok (guard (leb 1 (length done) && leb (length done) 100) corruption) _ h4 in
    let (depends_on, e3, h6) = >>=-eq-ok (decode_depends_on (get "dependsOn" fields)) _ h5 in
    let (priority, e4, h7) = >>=-eq-ok (decode_priority (get "priority" fields)) _ h6 in
    let (id, e5, h8) = >>=-eq-ok (bounded_string 200 (get "id" fields)) _ h7 in
    let (title, e6, h9) = >>=-eq-ok (bounded_string 1000 (get "title" fields)) _ h8 in
    subst (λ (t : MissionTaskInput). decode_task (task_value t) ≡ ok t) (codec_ok h9)
      (task_again id title done (bounded_strings_again 1000 items e1)
        (guard-ok (leb 1 (length done) && leb (length done) 100) corruption e2)
        (bounded_string_again 200 (get "id" fields) e5)
        (bounded_string_again 1000 (get "title" fields) e6) depends_on priority
        (depends_on-IsDependencies (get "dependsOn" fields) e3)
        (decode_priority-IsPriority (get "priority" fields) e4))

decode_tasks_again :
    (items : Items) {tasks : List MissionTaskInput}
    → decode_tasks items ≡ ok tasks
    → decode_tasks (tasks_value tasks) ≡ ok tasks
unfolding decode_tasks
decode_tasks_again no_items h =
    subst (λ (ts : List MissionTaskInput). decode_tasks (tasks_value ts) ≡ ok ts) (codec_ok h) refl
decode_tasks_again (item value items) h =
    let (t, first, h1) = >>=-eq-ok (decode_task value) _ h in
    let (ts, second, h2) = >>=-eq-ok (decode_tasks items) _ h1 in
    subst (λ (us : List MissionTaskInput). decode_tasks (tasks_value us) ≡ ok us) (codec_ok h2)
      (rw (decode_task_again value first, decode_tasks_again items second) refl)

create_fields_ok :
    (input : MissionCreateInput)
    → exact_keys
        ("budgetLimits" ∷ "focus" ∷ "id" ∷ "objective" ∷ "tasks" ∷ [])
        (create_fields input)
      ≡ ok tt
unfolding exact_keys field_keys has
create_fields_ok input = refl

decode_create_again :
    (value : Option Json) {input : MissionCreateInput}
    → decode_mission_create_input value ≡ ok input
    → decode_mission_create_input (some (create_value input)) ≡ ok input
unfolding decode_mission_create_input get
decode_create_again value {input} h =
    let (fields, _, h1) = >>=-eq-ok (object_value value) _ h in
    let (_, _, h2) =
      >>=-eq-ok (exact_keys ("budgetLimits" ∷ "focus" ∷ "id" ∷ "objective" ∷ "tasks" ∷ []) fields) _
        h1 in
    let (text, _, h3) = >>=-eq-ok (string_value (get "focus" fields)) _ h2 in
    let (focus, e1, h4) =
      >>=-eq-ok (or_throw (named focus_name focus_classes text) corruption) _ h3 in
    let (items, _, h5) = >>=-eq-ok (array_value (get "tasks" fields)) _ h4 in
    let (tasks, e2, h6) = >>=-eq-ok (decode_tasks items) _ h5 in
    let (_, e3, h7) = >>=-eq-ok (graph_valid (validate_task_graph tasks)) _ h6 in
    let (limits, e4, h8) = >>=-eq-ok (decode_counters (get "budgetLimits" fields)) _ h7 in
    let (id, e5, h9) = >>=-eq-ok (bounded_string 200 (get "id" fields)) _ h8 in
    let (objective, e6, h10) = >>=-eq-ok (bounded_string 20000 (get "objective" fields)) _ h9 in
    let made : MissionCreateInput = record {
      id = id;
      objective = objective;
      focus = focus;
      tasks = tasks;
      budget_limits = limits;
    } in
    subst (λ (i : MissionCreateInput). decode_mission_create_input (some (create_value i)) ≡ ok i)
      (codec_ok h10)
      (bind_ok _ _ (create_fields_ok made) (
        bind_ok _ _ (ap (λ (o : Option FocusClass). or_throw o corruption) (focus_named focus)) (
          bind_ok _ _ (decode_tasks_again items e2) (
            bind_ok _ _ e3 (
              bind_ok _ _ (decode_counters_again (get "budgetLimits" fields) e4) (
                bind_ok _ _ (bounded_string_again 200 (get "id" fields) e5)
                  (bind_ok _ _ (bounded_string_again 20000 (get "objective" fields) e6) refl)))))))

-- Each kind of event.
abbrev IsAgain : MissionEventData → Type 0
IsAgain event = decode (event_value event) ≡ ok event

created-IsAgain :
    (fields : Fields) {event : MissionEventData} → decode_created fields ≡ ok event → IsAgain event
unfolding decode event_value exact_keys get field_keys has
created-IsAgain fields h =
    let (_, _, h1) = >>=-eq-ok (exact_keys ("input" ∷ "type" ∷ []) fields) _ h in
    let (input, e, h2) = >>=-eq-ok (decode_mission_create_input (get "input" fields)) _ h1 in
    subst IsAgain (codec_ok h2) (bind_ok _ _ (decode_create_again (get "input" fields) e) refl)

transitioned-IsAgain :
    (fields : Fields) {event : MissionEventData}
    → decode_transitioned fields ≡ ok event
    → IsAgain event
unfolding decode event_value exact_keys get field_keys has
transitioned-IsAgain fields h =
    let (_, _, h1) = >>=-eq-ok (exact_keys ("from" ∷ "to" ∷ "type" ∷ []) fields) _ h in
    let (from, _, h2) = >>=-eq-ok (mission_state (get "from" fields)) _ h1 in
    let (to, _, h3) = >>=-eq-ok (mission_state (get "to" fields)) _ h2 in
    subst IsAgain (codec_ok h3)
      (bind_ok _ _ (mission_state_named from) (bind_ok _ _ (mission_state_named to) refl))

status_changed-IsAgain :
    (fields : Fields) {event : MissionEventData}
    → decode_status_changed fields ≡ ok event
    → IsAgain event
unfolding decode event_value exact_keys get field_keys has
status_changed-IsAgain fields h =
    let (_, _, h1) = >>=-eq-ok (exact_keys ("status" ∷ "taskId" ∷ "type" ∷ []) fields) _ h in
    let (text, _, h2) = >>=-eq-ok (string_value (get "status" fields)) _ h1 in
    let (status, _, h3) =
      >>=-eq-ok (or_throw (named status_name task_statuses text) corruption) _ h2 in
    let (task_id, e, h4) = >>=-eq-ok (bounded_string 200 (get "taskId" fields)) _ h3 in
    subst IsAgain (codec_ok h4) (
      bind_ok _ _ (ap (λ (o : Option TaskStatus). or_throw o corruption) (status_named status))
        (bind_ok _ _ (bounded_string_again 200 (get "taskId" fields) e) refl))

debited-IsAgain :
    (fields : Fields) {event : MissionEventData} → decode_debited fields ≡ ok event → IsAgain event
unfolding decode event_value exact_keys get field_keys has
debited-IsAgain fields h =
    let (_, _, h1) = >>=-eq-ok (exact_keys ("delta" ∷ "type" ∷ []) fields) _ h in
    let (delta, e, h2) = >>=-eq-ok (decode_counters (get "delta" fields)) _ h1 in
    subst IsAgain (codec_ok h2) (bind_ok _ _ (decode_counters_again (get "delta" fields) e) refl)

failure-IsAgain :
    (fields : Fields) {event : MissionEventData} → decode_failure fields ≡ ok event → IsAgain event
unfolding decode event_value exact_keys get field_keys has
failure-IsAgain fields h =
    let (_, _, h1) = >>=-eq-ok (exact_keys ("signature" ∷ "type" ∷ []) fields) _ h in
    let (signature, e, h2) = >>=-eq-ok (bounded_string 500 (get "signature" fields)) _ h1 in
    subst IsAgain (codec_ok h2)
      (bind_ok _ _ (bounded_string_again 500 (get "signature" fields) e) refl)

if-IsAgain :
    (b : Bool) (m n : Result DurableError MissionEventData) {event : MissionEventData}
    → (m ≡ ok event → IsAgain event)
    → (n ≡ ok event → IsAgain event)
    → (if b then m else n) ≡ ok event
    → IsAgain event
if-IsAgain true m n f g h = f h
if-IsAgain false m n f g h = g h

typed-IsAgain :
    (fields : Fields) (type : String) {event : MissionEventData}
    → decode_typed fields type ≡ ok event
    → IsAgain event
typed-IsAgain fields type =
    if-IsAgain (str_eq type "mission.created") _ _ (created-IsAgain fields) (
      if-IsAgain (str_eq type "mission.transitioned") _ _ (transitioned-IsAgain fields) (
        if-IsAgain (str_eq type "task.status_changed") _ _ (status_changed-IsAgain fields) (
          if-IsAgain (str_eq type "budget.debited") _ _ (debited-IsAgain fields) (
            if-IsAgain (str_eq type "failure.recorded") _ _ (failure-IsAgain fields)
              (λ h. absurd (cc))))))

-- An event that the codec has decoded from any value is decoded again from its own JSON value, and is the
-- same event.
pub decode-event_value :
    (value : Json) {event : MissionEventData}
    → decode value ≡ ok event
    → decode (event_value event) ≡ ok event
unfolding decode
decode-event_value value h =
    let (fields, _, h1) = >>=-eq-ok (object_value (some value)) _ h in
    let (type, _, h2) = >>=-eq-ok (string_value (get "type" fields)) _ h1 in
    typed-IsAgain fields type h2
