-- ===== src/Durable/Missions.antt =====
-- src/durable/store.ts: append and load of mission events. A SQLite table is a list of rows in the order
-- of insertion. `Texts` holds what the runtime does with texts: SHA-256, the writing and the parsing of
-- JSON, the bytes of a text, and the test of a canonical UTC timestamp.
pub mod Written
pub mod Decoded
pub mod Stored
pub mod Appends
pub mod Loads
pub mod Retry
mod Tests
use odin_agent.Prelude.{
  ℕ, suc, ◌+◌, Bool, true, false, not, ◌&&◌, ◌||◌, Option, none, some, List, [], ◌∷◌, ◌++◌, String,
  str_eq, ltb, leb, ◌==◌, every, select, find_first, length, map, Result, ok, err, ◌>>=◌, ◌>>◌,
  guard, or_throw, map_result, if◌then◌else◌, sort_by,
}
use odin_agent.Prelude.Number.{Number, nat, safe_nat, max_safe}
use odin_agent.Mission.Snapshot.{MissionEventData}
use odin_agent.Events.{EventAppendItem, StoredEvent}
use odin_agent.Durable.Types.{
  DurableError, type_error, conflict, corruption, is_identifier, is_sha256, is_between,
}
use odin_agent.Durable.Json.{
  Json, Items, json_number, json_text, json_array, json_object, no_items, item, no_fields, field,
  canonicalize,
}
use odin_agent.Durable.Codec.{decode, event_value}

pub record Texts : Type 0 where
  pub hash_text : String → String
  pub write_json : Json → String
  pub read_json : String → Option Json
  pub byte_length : String → ℕ
  pub is_canonical_time : String → Bool

pub record EventLimits : Type 0 where
  pub max_event_batch : ℕ
  pub max_mission_events : ℕ
  pub max_event_bytes : ℕ

pub record EventRow : Type 0 where
  pub mission_id : String
  pub sequence : ℕ
  pub aggregate_version : ℕ
  pub idempotency_key : String
  pub occurred_at : String
  pub data_json : String
  pub data_hash : String

pub record EventKeyRow : Type 0 where
  pub mission_id : String
  pub idempotency_key : String
  pub fingerprint : String
  pub first_sequence : ℕ
  pub event_count : ℕ

pub record EventDb : Type 0 where
  pub mission_events : List EventRow
  pub event_idempotency : List EventKeyRow

-- An error of the store's own checks, the conflict of EventStoreConflictError, or a value that is larger
-- than its bound.
pub data MissionStoreError : Type 0 where
  durable : DurableError → MissionStoreError
  event_conflict too_large constraint_failed : MissionStoreError

pub record NormalizedItem : Type 0 where
  pub content : MissionEventData
  pub data_hash : String
  pub data_json : String
  pub occurred_at : String

abbrev pub as_durable : {A : Type 0} → Result DurableError A → Result MissionStoreError A
as_durable (ok value) = ok value
as_durable (err thrown) = err (durable thrown)

abbrev pub is_of_mission : String → EventRow → Bool
is_of_mission mission_id row = str_eq row.mission_id mission_id

abbrev pub is_key_row : String → String → EventKeyRow → Bool
is_key_row mission_id key row = str_eq row.mission_id mission_id && str_eq row.idempotency_key key

abbrev pub sequence_after : EventRow → EventRow → Bool
sequence_after left right = ltb right.sequence left.sequence

-- `… WHERE mission_id = ? ORDER BY sequence ASC`
unfoldable pub rows_of : String → List EventRow → List EventRow
rows_of mission_id rows = sort_by sequence_after (select (is_of_mission mission_id) rows)

abbrev pub is_in_range : ℕ → ℕ → EventRow → Bool
is_in_range first count row = leb first row.sequence && ltb row.sequence (first + count)

-- The row is of the mission and has the sequence number that is expected.
abbrev pub is_row_at : String → ℕ → EventRow → Bool
is_row_at mission_id expected row =
    str_eq row.mission_id mission_id
    && (row.sequence == expected)
    && (row.aggregate_version == row.sequence)

-- The primary key of the table admits the rows of a batch: there is no row of the mission in its range.
abbrev pub is_free : String → ℕ → ℕ → List EventRow → Bool
is_free mission_id version count rows =
    length (select (is_in_range (suc version) count) (rows_of mission_id rows)) == 0

-- `missionEventCount`
unfoldable pub mission_event_count : String → List EventRow → ℕ
mission_event_count mission_id rows = length (select (is_of_mission mission_id) rows)

abbrev pub hashed_items : List NormalizedItem → Items
hashed_items [] = no_items
hashed_items (input ∷ inputs) =
    item
      (json_object (
        field "dataHash" (json_text input.data_hash)
          (field "occurredAt" (json_text input.occurred_at) no_fields)))
      (hashed_items inputs)

-- The value that the fingerprint is of.
abbrev pub batch_value : ℕ → List NormalizedItem → Json
batch_value version items = json_object (
    field "expectedVersion" (json_number (nat version))
      (field "items" (json_array (hashed_items items)) no_fields))

abbrev pub new_row : String → String → ℕ → NormalizedItem → EventRow
new_row mission_id key sequence input = record {
  mission_id = mission_id;
  sequence = sequence;
  aggregate_version = sequence;
  idempotency_key = key;
  occurred_at = input.occurred_at;
  data_json = input.data_json;
  data_hash = input.data_hash;
}

abbrev pub new_event : String → String → ℕ → NormalizedItem → StoredEvent MissionEventData
new_event mission_id key sequence input = record {
  occurred_at = input.occurred_at;
  content = input.content;
  mission_id = mission_id;
  sequence = sequence;
  aggregate_version = sequence;
  idempotency_key = key;
}

-- The rows that the loop of `append` inserts, and the events that it returns.
abbrev pub new_rows : String → String → ℕ → List NormalizedItem → List EventRow
new_rows mission_id key version [] = []
new_rows mission_id key version (input ∷ inputs) =
    new_row mission_id key (suc version) input ∷ new_rows mission_id key (suc version) inputs

abbrev pub new_events :
    String → String → ℕ → List NormalizedItem → List (StoredEvent MissionEventData)
new_events mission_id key version [] = []
new_events mission_id key version (input ∷ inputs) =
    new_event mission_id key (suc version) input ∷ new_events mission_id key (suc version) inputs

abbrev pub insert_batch : EventDb → String → String → String → ℕ → List NormalizedItem → EventDb
insert_batch db mission_id key fingerprint version items = record {
  mission_events = db.mission_events ++ new_rows mission_id key version items;
  event_idempotency =
      db.event_idempotency
      ++ record {
        mission_id = mission_id;
        idempotency_key = key;
        fingerprint = fingerprint;
        first_sequence = suc version;
        event_count = length items;
      }
        ∷ [];
}

module _ (texts : Texts) (max_bytes : ℕ) where
  -- `canonicalJson`
  unfoldable pub canonical_json : Json → Result MissionStoreError String
  canonical_json value =
      let serialized = texts.write_json (canonicalize value) in
      guard (leb (texts.byte_length serialized) max_bytes) too_large >> ok serialized

  -- `parseJson`
  unfoldable pub parse_json : String → Result DurableError Json
  parse_json text =
      guard (leb (texts.byte_length text) max_bytes) corruption
      >> or_throw (texts.read_json text) corruption

module _ (texts : Texts) (limits : EventLimits) where
  -- One round of the loop of `decodeEventRows`.
  unfoldable pub decode_event_row :
      String → ℕ → EventRow → Result DurableError (StoredEvent MissionEventData)
  decode_event_row mission_id expected row = do
    guard (is_row_at mission_id expected row) corruption
    guard (is_identifier 500 row.idempotency_key) type_error
    guard (texts.is_canonical_time row.occurred_at && is_sha256 row.data_hash) corruption
    guard (str_eq (texts.hash_text row.data_json) row.data_hash) corruption
    value ← parse_json texts limits.max_event_bytes row.data_json
    content ← decode value
    ok (record {
      occurred_at = row.occurred_at;
      content = content;
      mission_id = mission_id;
      sequence = row.sequence;
      aggregate_version = row.aggregate_version;
      idempotency_key = row.idempotency_key;
    })

  unfoldable pub decode_event_rows :
      String → ℕ → List EventRow → Result DurableError (List (StoredEvent MissionEventData))
  decode_event_rows mission_id expected [] = ok []
  decode_event_rows mission_id expected (row ∷ rows) =
      decode_event_row mission_id expected row >>= λ event.
      decode_event_rows mission_id (suc expected) rows >>= λ events. ok (event ∷ events)

  -- `loadEventRange`
  unfoldable pub load_event_range :
      EventDb → String → ℕ → ℕ → Result DurableError (List (StoredEvent MissionEventData))
  load_event_range db mission_id first count = do
    guard (is_between 1 max_safe first) type_error
    guard (is_between 1 limits.max_event_batch count) type_error
    let rows = select (is_in_range first count) (rows_of mission_id db.mission_events)
    guard (length rows == count) corruption
    decode_event_rows mission_id first rows

  -- `load`
  unfoldable pub load_events :
      EventDb → String → Result DurableError (List (StoredEvent MissionEventData))
  load_events db mission_id =
      guard (is_identifier 200 mission_id) type_error
      >> decode_event_rows mission_id 1 (rows_of mission_id db.mission_events)

  -- One round of the map at the start of `append`.
  unfoldable pub normalize_item :
      EventAppendItem MissionEventData → Result MissionStoreError NormalizedItem
  normalize_item input = do
    guard (texts.is_canonical_time input.occurred_at) (durable type_error)
    content ← as_durable (decode (event_value input.content))
    json ← canonical_json texts limits.max_event_bytes (event_value content)
    ok (record {
      content = content;
      data_hash = texts.hash_text json;
      data_json = json;
      occurred_at = input.occurred_at;
    })

  abbrev pub Appended : Type 0
  Appended = Result MissionStoreError (EventDb × List (StoredEvent MissionEventData))

  -- The transaction of `append`, with the row of the idempotency key where there is one.
  abbrev pub append_new :
      EventDb → String → String → String → ℕ → List NormalizedItem → Option EventKeyRow → Appended
  append_new db mission_id key fingerprint version items (some replay) =
      guard (str_eq replay.fingerprint fingerprint) event_conflict
      >> (as_durable (load_event_range db mission_id replay.first_sequence replay.event_count)
          >>= λ events. ok (db, events))
  append_new db mission_id key fingerprint version items none = do
    let current_version = mission_event_count mission_id db.mission_events
    guard (current_version == version) event_conflict
    guard (leb (current_version + length items) limits.max_mission_events) (durable conflict)
    guard (is_free mission_id version (length items) db.mission_events) constraint_failed
    ok (
      insert_batch db mission_id key fingerprint version items,
      new_events mission_id key version items,
    )

  -- `append`
  unfoldable pub append_events :
      EventDb → String → Number → String → List (EventAppendItem MissionEventData) → Appended
  append_events db mission_id expected_version key items = do
    guard (is_identifier 200 mission_id && is_identifier 500 key) (durable type_error)
    version ← or_throw (safe_nat expected_version) (durable type_error)
    guard (leb 1 (length items) && leb (length items) limits.max_event_batch) (durable type_error)
    normalized ← map_result normalize_item items
    text ← canonical_json texts limits.max_event_bytes (batch_value version normalized)
    let fingerprint = texts.hash_text text
    append_new db mission_id key fingerprint version normalized
        (find_first (is_key_row mission_id key) db.event_idempotency)
