-- ===== src/Durable/Checkpoints.antt =====
-- src/durable/store.ts: saveCheckpoint and loadCheckpoint. A version in a persisted checkpoint that is
-- negative is refused when it is decoded, where the code refuses it in the tests that follow, with the
-- same error.
pub mod Replayed
pub mod Kept
pub mod Canonical
pub mod Saved
mod Tests
use odin_agent.Prelude.{
  ℕ, Bool, ◌&&◌, Option, none, some, List, [], ◌∷◌, String, str_eq, ltb, leb, ◌==◌, select,
  find_first, length, every, has, Result, ok, err, ◌>>=◌, ◌>>◌, guard, or_throw, if◌then◌else◌,
}
use odin_agent.Prelude.Number.{Number, nat, safe_nat, equals_nat}
use odin_agent.Mission.State.{MissionError}
use odin_agent.Mission.Snapshot.{MissionEventData}
use odin_agent.Mission.Project.{project_mission}
use odin_agent.Mission.Checkpoint.{
  MissionCheckpoint, CheckpointError, create_mission_checkpoint, restore_mission_checkpoint,
  snapshot_fields,
}
use odin_agent.Events.{StoredEvent}
use odin_agent.Durable.Types.{DurableError, type_error, conflict, corruption, is_identifier}
use odin_agent.Durable.Json.{
  Json, Fields, json_number, json_text, json_object, no_fields, field, get, field_keys,
  canonicalize, canonical_fields,
}
use odin_agent.Durable.Codec.{object_value, string_value, number_value}
use odin_agent.Durable.Missions.{
  Texts, EventLimits, EventRow, MissionStoreError, rows_of, mission_event_count, canonical_json,
  parse_json, decode_event_rows,
}

pub record CheckpointRow : Type 0 where
  pub mission_id : String
  pub aggregate_version : ℕ
  pub event_sequence : ℕ
  pub snapshot_hash : String
  pub checkpoint_json : String
  pub saved_at : String

pub record CheckpointDb : Type 0 where
  pub mission_events : List EventRow
  pub mission_checkpoints : List CheckpointRow

-- An error of the store, of a checkpoint, or of the replay of its events.
pub data CheckpointStoreError : Type 0 where
  stored : DurableError → CheckpointStoreError
  rejected : CheckpointError → CheckpointStoreError
  replayed : MissionError → CheckpointStoreError
  unwritten : MissionStoreError → CheckpointStoreError

abbrev pub map_error : {E F A : Type 0} → (E → F) → Result E A → Result F A
map_error f (ok value) = ok value
map_error f (err thrown) = err (f thrown)

abbrev pub is_up_to : ℕ → EventRow → Bool
is_up_to version row = leb row.sequence version

abbrev pub is_checkpoint_of : String → CheckpointRow → Bool
is_checkpoint_of mission_id row = str_eq row.mission_id mission_id

-- `INSERT … ON CONFLICT(mission_id) DO UPDATE …`
abbrev pub upsert : CheckpointRow → List CheckpointRow → List CheckpointRow
upsert row [] = row ∷ []
upsert row (other ∷ rows) =
    let rest = upsert row rows in
    if is_checkpoint_of row.mission_id other then row ∷ rows else other ∷ rest

abbrev pub checkpoint_keys : List String
checkpoint_keys =
    "aggregateVersion" ∷ "eventSequence" ∷ "missionId" ∷ "schemaVersion" ∷ "snapshot"
    ∷ "snapshotHash" ∷ []

-- `decodeCheckpoint`
unfoldable pub decode_checkpoint : Json → Result DurableError MissionCheckpoint
decode_checkpoint value = do
  object ← object_value (some value)
  guard
      (length (field_keys object) == length checkpoint_keys
        && every (has (field_keys object)) checkpoint_keys)
      corruption
  schema ← number_value (get "schemaVersion" object)
  guard (equals_nat schema 1) corruption
  mission_id ← string_value (get "missionId" object)
  snapshot_hash ← string_value (get "snapshotHash" object)
  aggregate ← number_value (get "aggregateVersion" object)
  aggregate_version ← or_throw (safe_nat aggregate) corruption
  sequence ← number_value (get "eventSequence" object)
  event_sequence ← or_throw (safe_nat sequence) corruption
  snapshot ← object_value (get "snapshot" object)
  ok (record {
    schema_version = schema;
    mission_id = mission_id;
    aggregate_version = aggregate_version;
    event_sequence = event_sequence;
    snapshot_hash = snapshot_hash;
    snapshot = snapshot;
  })

-- The JSON value of a checkpoint.
abbrev pub checkpoint_value : MissionCheckpoint → Json
checkpoint_value checkpoint = json_object (
    field "aggregateVersion" (json_number (nat checkpoint.aggregate_version)) (
      field "eventSequence" (json_number (nat checkpoint.event_sequence)) (
        field "missionId" (json_text checkpoint.mission_id) (
          field "schemaVersion" (json_number checkpoint.schema_version) (
            field "snapshot" (json_object checkpoint.snapshot)
              (field "snapshotHash" (json_text checkpoint.snapshot_hash) no_fields))))))

abbrev pub covered_rows : List EventRow → MissionCheckpoint → List EventRow
covered_rows rows checkpoint =
    select (is_up_to checkpoint.aggregate_version) (rows_of checkpoint.mission_id rows)

abbrev pub new_checkpoint_row : MissionCheckpoint → String → String → CheckpointRow
new_checkpoint_row checkpoint json saved_at = record {
  mission_id = checkpoint.mission_id;
  aggregate_version = checkpoint.aggregate_version;
  event_sequence = checkpoint.event_sequence;
  snapshot_hash = checkpoint.snapshot_hash;
  checkpoint_json = json;
  saved_at = saved_at;
}

abbrev pub write_checkpoint : CheckpointDb → MissionCheckpoint → String → String → CheckpointDb
write_checkpoint db checkpoint json saved_at = record {
  mission_events = db.mission_events;
  mission_checkpoints = upsert (new_checkpoint_row checkpoint json saved_at) db.mission_checkpoints;
}

abbrev pub is_same_content : CheckpointRow → MissionCheckpoint → String → Bool
is_same_content existing checkpoint json =
    str_eq existing.snapshot_hash checkpoint.snapshot_hash && str_eq existing.checkpoint_json json

-- What becomes of the checkpoint's row.
abbrev pub save_row :
    CheckpointDb
    → MissionCheckpoint
    → String
    → String
    → Option CheckpointRow
    → Result CheckpointStoreError CheckpointDb
save_row db checkpoint json saved_at none = ok (write_checkpoint db checkpoint json saved_at)
save_row db checkpoint json saved_at (some existing) =
    guard (leb existing.aggregate_version checkpoint.aggregate_version) (stored conflict)
    >> (if existing.aggregate_version == checkpoint.aggregate_version
        then guard (is_same_content existing checkpoint json) (stored conflict) >> ok db
        else ok (write_checkpoint db checkpoint json saved_at))

abbrev pub fits_columns : CheckpointRow → MissionCheckpoint → Bool
fits_columns row parsed =
    (parsed.aggregate_version == row.aggregate_version)
    && (parsed.event_sequence == row.event_sequence)
    && str_eq parsed.snapshot_hash row.snapshot_hash

-- A checkpoint with the keys of its snapshot in canonical order.
abbrev pub canonical_checkpoint : MissionCheckpoint → MissionCheckpoint
canonical_checkpoint checkpoint = record checkpoint {
  snapshot = canonical_fields checkpoint.snapshot;
}

module _ (texts : Texts) where
  -- `hashSnapshot`
  abbrev pub hash_snapshot : Fields → String
  hash_snapshot snapshot = texts.hash_text (texts.write_json (canonicalize (json_object snapshot)))

module _ (texts : Texts) (max_checkpoint_bytes : ℕ) where
  -- `canonicalJson` with the bound of checkpoints.
  abbrev pub checkpoint_text : Json → Result CheckpointStoreError String
  checkpoint_text value = map_error unwritten (canonical_json texts max_checkpoint_bytes value)

module _ (texts : Texts) (limits : EventLimits) (max_checkpoint_bytes : ℕ) where
  -- `assertCheckpointMatchesEvents`
  unfoldable pub assert_checkpoint_matches_events :
      List EventRow → MissionCheckpoint → Result CheckpointStoreError (Unit {0})
  assert_checkpoint_matches_events rows checkpoint = do
    guard (length (covered_rows rows checkpoint) == checkpoint.aggregate_version)
        (stored corruption)
    events ←
        map_error stored
          (decode_event_rows texts limits checkpoint.mission_id 1 (covered_rows rows checkpoint))
    projected ← map_error replayed (project_mission events)
    rebuilt ← map_error rejected (
        create_mission_checkpoint (hash_snapshot texts) (snapshot_fields projected)
          projected.version)
    guard (str_eq rebuilt.snapshot_hash checkpoint.snapshot_hash) (stored corruption)
    left ← checkpoint_text texts max_checkpoint_bytes (json_object rebuilt.snapshot)
    right ← checkpoint_text texts max_checkpoint_bytes (json_object checkpoint.snapshot)
    guard (str_eq left right) (stored corruption)

  -- `saveCheckpoint`, which returns its checkpoint.
  unfoldable pub save_checkpoint :
      CheckpointDb → MissionCheckpoint → String → Result CheckpointStoreError CheckpointDb
  save_checkpoint db checkpoint saved_at = do
    guard (texts.is_canonical_time saved_at) (stored type_error)
    restored ←
        map_error rejected
          (restore_mission_checkpoint (hash_snapshot texts) checkpoint checkpoint.mission_id)
    canonical ←
        map_error rejected
          (create_mission_checkpoint (hash_snapshot texts) restored checkpoint.event_sequence)
    guard (str_eq canonical.snapshot_hash checkpoint.snapshot_hash) (stored corruption)
    json ← checkpoint_text texts max_checkpoint_bytes (checkpoint_value checkpoint)
    guard
        (leb checkpoint.aggregate_version
          (mission_event_count checkpoint.mission_id db.mission_events))
        (stored conflict)
    assert_checkpoint_matches_events db.mission_events checkpoint
    save_row db checkpoint json saved_at
        (find_first (is_checkpoint_of checkpoint.mission_id) db.mission_checkpoints)

  -- The tests of `loadCheckpoint` whose errors all become corruption.
  abbrev pub check_restored :
      CheckpointDb → MissionCheckpoint → String → Result CheckpointStoreError (Unit {0})
  check_restored db checkpoint mission_id =
      map_error rejected (restore_mission_checkpoint (hash_snapshot texts) checkpoint mission_id)
      >>= λ _. assert_checkpoint_matches_events db.mission_events checkpoint

  abbrev pub load_row :
      CheckpointDb → String → Option CheckpointRow → Result DurableError (Option MissionCheckpoint)
  load_row db mission_id none = ok none
  load_row db mission_id (some row) = do
    guard (str_eq row.mission_id mission_id) corruption
    value ← parse_json texts max_checkpoint_bytes row.checkpoint_json
    parsed ← decode_checkpoint value
    guard (fits_columns row parsed) corruption
    map_error (λ _. corruption) (check_restored db parsed mission_id)
    ok (some parsed)

  -- `loadCheckpoint`
  unfoldable pub load_checkpoint :
      CheckpointDb → String → Result DurableError (Option MissionCheckpoint)
  load_checkpoint db mission_id =
      guard (is_identifier 200 mission_id) type_error
      >> load_row db mission_id (find_first (is_checkpoint_of mission_id) db.mission_checkpoints)
