-- ===== src/Durable/Codec/Canonical.antt =====
-- src/durable/internal.ts and mission-codec.ts: the JSON value of an event is canonical.
use odin_agent.Prelude.{Option, sym, ◌≡◌, refl, ap, ◌∙◌, none, some, List, [], ◌∷◌, String}
use odin_agent.Prelude.Number.{Number}
use odin_agent.Prelude.Text.{is_text_after}
use odin_agent.Mission.Graph.{MissionTaskInput}
use odin_agent.Mission.Budget.{BudgetCounters}
use odin_agent.Mission.Snapshot.{
  MissionCreateInput, MissionEventData, mission_created, mission_transitioned, task_status_changed,
  budget_debited, failure_recorded,
}
use odin_agent.Durable.Json.{
  Json, Items, json_array, json_object, Fields, json_text, field, no_fields, item, key_after,
  insert_field, canonicalize, canonical_items,
}
use odin_agent.Durable.Codec.{
  with_depends_on, with_priority, focus_name, texts_value, counters_value, task_value, tasks_value,
  create_value, event_value,
}

keys : Unit {0}
unfolding canonicalize insert_field key_after is_text_after
keys = tt

canonical_items-texts_value :
    (texts : List String) → canonical_items (texts_value texts) ≡ texts_value texts
unfolding canonicalize
canonical_items-texts_value [] = refl
canonical_items-texts_value (text ∷ texts) =
    ap (item (json_text text)) (canonical_items-texts_value texts)

-- The JSON object of a task, with the JSON values of its lists.
abbrev with_items : Option Items → Fields → Fields
with_items none rest = rest
with_items (some items) rest = field "dependsOn" (json_array items) rest

abbrev shaped : String → String → Option Number → Items → Option Items → Json
shaped id title priority done depends_on = json_object (
    field "definitionOfDone" (json_array done) (
      with_items depends_on (
        field "id" (json_text id)
          (with_priority priority (field "title" (json_text title) no_fields)))))

abbrev canonical_list : Option Items → Option Items
canonical_list none = none
canonical_list (some items) = some (canonical_items items)

canonicalize-shaped :
    (id title : String) (priority : Option Number) (done : Items) (depends_on : Option Items)
    → canonicalize (shaped id title priority done depends_on)
      ≡ shaped id title priority (canonical_items done) (canonical_list depends_on)
unfolding keys
canonicalize-shaped id title none done none = refl
canonicalize-shaped id title none done (some ds) = refl
canonicalize-shaped id title (some n) done none = refl
canonicalize-shaped id title (some n) done (some ds) = refl

abbrev list_value : Option (List String) → Option Items
list_value none = none
list_value (some texts) = some (texts_value texts)

shaped-task_value :
    (id title : String) (priority : Option Number) (done : Items)
    (depends_on : Option (List String))
    → with_items (list_value depends_on) (
        field "id"
          (json_text id)
          (with_priority priority (field "title" (json_text title) no_fields)))
      ≡ with_depends_on depends_on (
          field "id"
            (json_text id)
            (with_priority priority (field "title" (json_text title) no_fields)))
shaped-task_value id title priority done none = refl
shaped-task_value id title priority done (some ds) = refl

canonical-list_value :
    (depends_on : Option (List String))
    → canonical_list (list_value depends_on) ≡ list_value depends_on
canonical-list_value none = refl
canonical-list_value (some ds) = ap some (canonical_items-texts_value ds)

canonicalize-task_value :
    (task : MissionTaskInput) → canonicalize (task_value task) ≡ task_value task
canonicalize-task_value task =
    let done = texts_value task.definition_of_done in
    let same : shaped task.id task.title task.priority done (list_value task.depends_on)
        ≡ task_value task =
      ap (λ rest. json_object (field "definitionOfDone" (json_array done) rest))
        (shaped-task_value task.id task.title task.priority done task.depends_on) in
    ap canonicalize (sym same)
    ∙ canonicalize-shaped task.id task.title task.priority done (list_value task.depends_on)
    ∙ ap
        (λ items.
          shaped task.id task.title task.priority items
            (canonical_list (list_value task.depends_on)))
        (canonical_items-texts_value task.definition_of_done)
    ∙ ap (shaped task.id task.title task.priority done) (canonical-list_value task.depends_on)
    ∙ same

canonical_items-tasks_value :
    (tasks : List MissionTaskInput) → canonical_items (tasks_value tasks) ≡ tasks_value tasks
unfolding canonicalize
canonical_items-tasks_value [] = refl
canonical_items-tasks_value (task ∷ tasks) =
    ap (λ v. item v (canonical_items (tasks_value tasks))) (canonicalize-task_value task)
    ∙ ap (item (task_value task)) (canonical_items-tasks_value tasks)

canonicalize-counters_value :
    (c : BudgetCounters) → canonicalize (counters_value c) ≡ counters_value c
unfolding keys
canonicalize-counters_value c = refl

canonicalize-create_value :
    (input : MissionCreateInput) → canonicalize (create_value input) ≡ create_value input
unfolding keys
canonicalize-create_value input =
    ap
      (λ tasks. json_object (
        field "budgetLimits" (counters_value input.budget_limits) (
          field "focus" (json_text (focus_name input.focus)) (
            field "id" (json_text input.id) (
              field "objective" (json_text input.objective)
                (field "tasks" (json_array tasks) no_fields))))))
      (canonical_items-tasks_value input.tasks)

-- The keys of the JSON value of an event stand in the order that canonicalize gives them.
pub canonicalize-event_value :
    (event : MissionEventData) → canonicalize (event_value event) ≡ event_value event
unfolding keys event_value
canonicalize-event_value (mission_created input) =
    ap (λ v. json_object (field "input" v (field "type" (json_text "mission.created") no_fields)))
      (canonicalize-create_value input)
canonicalize-event_value (mission_transitioned from to) = refl
canonicalize-event_value (task_status_changed task_id status) = refl
canonicalize-event_value (budget_debited delta) = refl
canonicalize-event_value (failure_recorded signature) = refl
