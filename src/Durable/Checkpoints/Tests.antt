-- ===== src/Durable/Checkpoints/Tests.antt =====
-- Tests of the checkpoints (src/durable/store.ts, src/mission/checkpoint.ts): the checkpoint of a mission
-- with one event is saved and loaded.
use odin_agent.Prelude.{
  ◌≡◌, refl, none, some, ok, err, [], ◌∷◌, String, str_eq, has, sort_by, is_some, if◌then◌else◌,
  Bool, true, false, lookup, insert, remove, is_distinct, All,
}
use odin_agent.Prelude.Text.{is_text_after, is_blank, utf16_length, has_nul}
use odin_agent.Prelude.Number.{Number, nat, safe_nat, safe_int, equals_nat}
use odin_agent.Mission.State.{standard}
use odin_agent.Mission.Graph.{
  MissionTaskInput, normalize_task, validate_task_graph, index_tasks, check_dependencies,
  search_cycles, visit,
}
use odin_agent.Mission.Budget.{Counters, assert_counters}
use odin_agent.Mission.Snapshot.{
  MissionCreateInput, mission_created, initial_snapshot, apply_event, all_pending,
}
use odin_agent.Mission.Project.{project_mission, project_first, project_next, project_rest}
use odin_agent.Mission.Checkpoint.{
  MissionCheckpoint, create_mission_checkpoint, restore_mission_checkpoint, snapshot_fields,
}
use odin_agent.Durable.Types.{is_identifier, is_sha256}
use odin_agent.Durable.Json.{
  Json, Fields, json_object, no_fields, get, field_keys, canonicalize, insert_field, key_after,
}
use odin_agent.Durable.Codec.{
  decode, event_value, exact_keys, bounded_string, mission_state, named,
  decode_mission_create_input, decode_task, decode_tasks, decode_counters, bounded_strings,
  safe_integer,
}
use odin_agent.Durable.Missions.{
  Texts, EventLimits, rows_of, mission_event_count, canonical_json, parse_json, decode_event_row,
  decode_event_rows,
}
use odin_agent.Durable.Checkpoints.{
  CheckpointDb, decode_checkpoint, checkpoint_value, canonical_checkpoint,
  assert_checkpoint_matches_events, save_checkpoint, load_checkpoint, write_checkpoint,
}
use odin_agent.Durable.Checkpoints.Kept.{IsAligned}
use odin_agent.Durable.Checkpoints.Replayed.{IsReplayed, load_checkpoint-IsReplayed}
use odin_agent.Durable.Checkpoints.Saved.{load_checkpoint-save_checkpoint}

store : Unit {0}
unfolding decode event_value exact_keys bounded_string mission_state named get field_keys has
    canonicalize insert_field key_after is_text_after decode_mission_create_input decode_task
    decode_tasks decode_counters bounded_strings safe_integer is_identifier is_sha256 is_blank
    utf16_length has_nul safe_nat rows_of sort_by mission_event_count canonical_json parse_json
    decode_event_row decode_event_rows project_mission project_first project_next project_rest
    apply_event initial_snapshot assert_counters validate_task_graph normalize_task index_tasks
    check_dependencies search_cycles visit all_pending lookup insert remove is_distinct safe_int
    equals_nat create_mission_checkpoint restore_mission_checkpoint decode_checkpoint
    assert_checkpoint_matches_events save_checkpoint load_checkpoint
store = tt

abbrev digest : String
digest = "aaaaaaaaaaaaaaaaaaaaaaaaaaaaaaaaaaaaaaaaaaaaaaaaaaaaaaaaaaaaaaaa"

abbrev task : String → MissionTaskInput
task id = record {
  id = id;
  title = "t";
  depends_on = none;
  definition_of_done = "d" ∷ [];
  priority = none;
}

abbrev budget : Counters Number
budget = record { input = nat 9; output = nat 9; cost = nat 9; tools = nat 9; tries = nat 9 }

abbrev input : MissionCreateInput
input = record {
  id = "m";
  objective = "o";
  focus = standard;
  tasks = task "b" ∷ task "a" ∷ [];
  budget_limits = budget;
}

abbrev snapshot : Fields
unfolding store
snapshot = elim (initial_snapshot input 1) [ ok s ↦ snapshot_fields s | err e ↦ no_fields ]

abbrev checkpoint : MissionCheckpoint
checkpoint = record {
  schema_version = nat 1;
  mission_id = "m";
  aggregate_version = 1;
  event_sequence = 1;
  snapshot_hash = digest;
  snapshot = snapshot;
}

abbrev is_checkpoint : Json → Bool
is_checkpoint (json_object fields) = is_some (get "snapshotHash" fields)
is_checkpoint _ = false

abbrev texts : Texts
unfolding store
texts = record {
  hash_text = λ text. digest;
  write_json = λ value. if is_checkpoint value then "checkpoint" else "snapshot";
  read_json = λ text. some (
      if str_eq text "checkpoint"
      then checkpoint_value (canonical_checkpoint checkpoint)
      else event_value (mission_created input));
  byte_length = λ text. 10;
  is_canonical_time = λ text. true;
}

abbrev limits : EventLimits
limits = record { max_event_batch = 2; max_mission_events = 10; max_event_bytes = 100 }

abbrev one_event : CheckpointDb
one_event = record {
  mission_events =
      record {
        mission_id = "m";
        sequence = 1;
        aggregate_version = 1;
        idempotency_key = "k";
        occurred_at = "2026-01-01T00:00:00.000Z";
        data_json = "event";
        data_hash = digest;
      }
      ∷ [];
  mission_checkpoints = [];
}

abbrev with_checkpoint : CheckpointDb
with_checkpoint = write_checkpoint one_event checkpoint "checkpoint" "2026-01-01T00:00:00.000Z"

saves :
    save_checkpoint texts limits 100 one_event checkpoint "2026-01-01T00:00:00.000Z"
    ≡ ok with_checkpoint
unfolding store
saves = refl

load_checkpoint-save_checkpoint_example :
    (load_checkpoint texts limits 100 with_checkpoint "m"
      ≡ ok (some (canonical_checkpoint checkpoint)))
    × All IsAligned with_checkpoint.mission_checkpoints
unfolding store
load_checkpoint-save_checkpoint_example =
    load_checkpoint-save_checkpoint texts limits 100 one_event checkpoint "2026-01-01T00:00:00.000Z"
      refl tt refl saves

loads :
    load_checkpoint texts limits 100 with_checkpoint "m"
    ≡ ok (some (canonical_checkpoint checkpoint))
unfolding store
loads = refl

load_checkpoint-IsReplayed_example :
    ((canonical_checkpoint checkpoint).mission_id ≡ "m")
    × IsReplayed texts limits 100 with_checkpoint.mission_events checkpoint
unfolding store
load_checkpoint-IsReplayed_example =
    load_checkpoint-IsReplayed texts limits 100 with_checkpoint "m"
      (canonical_checkpoint checkpoint) loads
