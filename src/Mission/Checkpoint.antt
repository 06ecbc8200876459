-- ===== src/Mission/Checkpoint.antt =====
-- src/mission/checkpoint.ts: making and restoring a checkpoint. The snapshot in it is a JSON object, since
-- one that comes from the store may have any fields.
use odin_agent.Prelude.{
  ℕ, Bool, false, ◌&&◌, Option, none, some, List, [], ◌∷◌, String, str_eq, leb, ◌==◌, Dict, Result,
  ok, ◌>>◌, guard,
}
use odin_agent.Prelude.Number.{Number, int, nat, equals_nat, max_safe}
use odin_agent.Mission.State.{MissionState, TaskStatus}
use odin_agent.Mission.Budget.{Counters}
use odin_agent.Mission.Graph.{MissionTask}
use odin_agent.Mission.Snapshot.{MissionSnapshot}
use odin_agent.Durable.Json.{
  Json, Items, Fields, json_null, json_number, json_text, json_array, json_object, no_items, item,
  no_fields, field, get,
}
use odin_agent.Durable.Codec.{state_name, status_name, focus_name, texts_value, counters_value}

pub record MissionCheckpoint : Type 0 where
  pub schema_version : Number
  pub mission_id : String
  pub aggregate_version : ℕ
  pub event_sequence : ℕ
  pub snapshot_hash : String
  pub snapshot : Fields

pub data CheckpointError : Type 0 where
  bad_sequence sequence_mismatch unsupported_schema other_mission bad_version bad_hash :
      CheckpointError

abbrev pub is_text : Option Json → String → Bool
is_text (some (json_text text)) expected = str_eq text expected
is_text _ expected = false

abbrev pub is_number : Option Json → ℕ → Bool
is_number (some (json_number n)) expected = equals_nat n expected
is_number _ expected = false

-- `snapshot.id`, a text by its type.
abbrev pub text_of : Option Json → String
text_of (some (json_text text)) = text
text_of _ = ""

module _ (hash_snapshot : Fields → String) where
  -- `createMissionCheckpoint`
  unfoldable pub create_mission_checkpoint : Fields → ℕ → Result CheckpointError MissionCheckpoint
  create_mission_checkpoint snapshot event_sequence = do
    guard (leb event_sequence max_safe && leb 1 event_sequence) bad_sequence
    guard (is_number (get "version" snapshot) event_sequence) sequence_mismatch
    ok (record {
      schema_version = nat 1;
      mission_id = text_of (get "id" snapshot);
      aggregate_version = event_sequence;
      event_sequence = event_sequence;
      snapshot_hash = hash_snapshot snapshot;
      snapshot = snapshot;
    })

  -- `restoreMissionCheckpoint`
  unfoldable pub restore_mission_checkpoint :
      MissionCheckpoint → String → Result CheckpointError Fields
  restore_mission_checkpoint checkpoint expected_mission_id = do
    guard (equals_nat checkpoint.schema_version 1) unsupported_schema
    guard
        (str_eq checkpoint.mission_id expected_mission_id
          && is_text (get "id" checkpoint.snapshot) expected_mission_id)
        other_mission
    guard
        (checkpoint.aggregate_version == checkpoint.event_sequence
          && is_number (get "version" checkpoint.snapshot) checkpoint.aggregate_version)
        bad_version
    guard (str_eq (hash_snapshot checkpoint.snapshot) checkpoint.snapshot_hash) bad_hash
    ok checkpoint.snapshot

abbrev pub count_fields : Dict ℕ → Fields
count_fields [] = no_fields
count_fields ((key, n) ∷ rest) = field key (json_number (nat n)) (count_fields rest)

abbrev pub status_fields : Dict TaskStatus → Fields
status_fields [] = no_fields
status_fields ((key, status) ∷ rest) =
    field key (json_text (status_name status)) (status_fields rest)

abbrev pub resume_value : Option MissionState → Json
resume_value none = json_null
resume_value (some state) = json_text (state_name state)

abbrev pub graph_value : List MissionTask → Items
graph_value [] = no_items
graph_value (task ∷ tasks) =
    item
      (json_object (
        field "definitionOfDone" (json_array (texts_value task.definition_of_done)) (
          field "dependsOn" (json_array (texts_value task.depends_on)) (
            field "id" (json_text task.id) (
              field "priority" (json_number (int task.priority))
                (field "title" (json_text task.title) no_fields))))))
      (graph_value tasks)

abbrev pub usage_value : Counters ℕ → Json
usage_value c = counters_value (record {
  input = nat c.input;
  output = nat c.output;
  cost = nat c.cost;
  tools = nat c.tools;
  tries = nat c.tries;
})

-- The JSON object of a snapshot.
abbrev pub snapshot_fields : MissionSnapshot → Fields
snapshot_fields s = field "budgetLimits" (usage_value s.budget_limits) (
    field "budgetUsage" (usage_value s.budget_usage) (
      field "failureCounts" (json_object (count_fields s.failure_counts)) (
        field "focus" (json_text (focus_name s.focus)) (
          field "id" (json_text s.id) (
            field "objective" (json_text s.objective) (
              field "resumeState" (resume_value s.resume_state) (
                field "state" (json_text (state_name s.state)) (
                  field "taskStatuses" (json_object (status_fields s.task_statuses)) (
                    field "tasks" (json_array (graph_value s.tasks))
                      (field "version" (json_number (nat s.version)) no_fields))))))))))
