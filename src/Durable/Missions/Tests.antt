-- ===== src/Durable/Missions/Tests.antt =====
-- Tests of the store of mission events (src/durable/store.ts, src/durable/mission-codec.ts): two batches
-- are appended to one mission, and the second is appended again.
use odin_agent.Prelude.{
  ◌≡◌, refl, subst, some, ok, List, [], ◌∷◌, ◌++◌, String, str_eq, has, sort_by, is_some,
  if◌then◌else◌, Bool, true, false, result_ok, arith,
}
use odin_agent.Prelude.Text.{is_text_after, is_blank, utf16_length, has_nul}
use odin_agent.Prelude.Number.{nat, safe_nat}
use odin_agent.Mission.State.{created, understanding, planning}
use odin_agent.Mission.Snapshot.{MissionEventData, mission_transitioned, failure_recorded}
use odin_agent.Events.{EventAppendItem}
use odin_agent.Durable.Types.{is_identifier, is_sha256}
use odin_agent.Durable.Json.{
  Json, json_object, json_text, no_fields, field, get, field_keys, canonicalize, insert_field,
  key_after,
}
use odin_agent.Durable.Codec.{decode, event_value, exact_keys, bounded_string, mission_state, named}
use odin_agent.Durable.Codec.RoundTrip.{decode-event_value}
use odin_agent.Durable.Missions.{
  Texts, EventLimits, EventDb, rows_of, mission_event_count, canonical_json, parse_json,
  decode_event_row, decode_event_rows, load_event_range, load_events, normalize_item, append_events,
  NormalizedItem, insert_batch, new_events,
}
use odin_agent.Durable.Missions.Stored.{IsReread}
use odin_agent.Durable.Missions.Loads.{load_events-append_events}
use odin_agent.Durable.Missions.Retry.{append_events_again}

store : Unit {0}
unfolding decode event_value exact_keys bounded_string mission_state named get field_keys has
    canonicalize insert_field key_after is_text_after is_identifier is_sha256 is_blank utf16_length
    has_nul safe_nat rows_of sort_by mission_event_count canonical_json parse_json decode_event_row
    decode_event_rows load_event_range load_events normalize_item append_events
store = tt

abbrev digest : String
digest = "aaaaaaaaaaaaaaaaaaaaaaaaaaaaaaaaaaaaaaaaaaaaaaaaaaaaaaaaaaaaaaaa"

abbrev transition : MissionEventData
transition = mission_transitioned created understanding

abbrev failure : MissionEventData
failure = failure_recorded "timeout"

abbrev is_transition : Json → Bool
is_transition (json_object fields) = is_some (get "from" fields)
is_transition _ = false

abbrev texts : Texts
unfolding store
texts = record {
  hash_text = λ text. digest;
  write_json = λ value. if is_transition value then "transition" else "failure";
  read_json = λ text.
      some (if str_eq text "transition" then event_value transition else event_value failure);
  byte_length = λ text. 10;
  is_canonical_time = λ text. true;
}

abbrev limits : EventLimits
limits = record { max_event_batch = 2; max_mission_events = 10; max_event_bytes = 100 }

digests : (text : String) → is_sha256 (texts.hash_text text) ≡ true
unfolding store
digests text = refl

abbrev appended : MissionEventData → EventAppendItem MissionEventData
appended content = record { occurred_at = "2026-01-01T00:00:00.000Z"; content = content }

abbrev stored : MissionEventData → String → NormalizedItem
stored content json = record {
  content = content;
  data_hash = digest;
  data_json = json;
  occurred_at = "2026-01-01T00:00:00.000Z";
}

abbrev batch : List (EventAppendItem MissionEventData)
batch = appended transition ∷ appended failure ∷ []

abbrev stored_batch : List NormalizedItem
stored_batch = stored transition "transition" ∷ stored failure "failure" ∷ []

abbrev one_event : EventDb
one_event =
    insert_batch (record { mission_events = []; event_idempotency = [] }) "m" "first" digest 0
      (stored failure "failure" ∷ [])

abbrev three_events : EventDb
three_events = insert_batch one_event "m" "second" digest 1 stored_batch

appends :
    append_events texts limits one_event "m" (nat 1) "second" batch
    ≡ ok (three_events, new_events "m" "second" 1 stored_batch)
unfolding store
appends = refl

loads :
    load_events texts limits one_event "m"
    ≡ ok (new_events "m" "first" 0 (stored failure "failure" ∷ []))
unfolding store
loads = refl

rereads_transition : IsReread texts limits (appended transition)
unfolding store
rereads_transition event h =
    subst
      (λ (e : MissionEventData).
        texts.read_json (texts.write_json (event_value e)) ≡ some (event_value e))
      (result_ok h) refl

rereads_failure : IsReread texts limits (appended failure)
unfolding store
rereads_failure event h =
    subst
      (λ (e : MissionEventData).
        texts.read_json (texts.write_json (event_value e)) ≡ some (event_value e))
      (result_ok h) refl

load_events-append_events_example :
    load_events texts limits three_events "m"
    ≡ ok (
        new_events "m" "first" 0 (stored failure "failure" ∷ [])
        ++ new_events "m" "second" 1 stored_batch)
unfolding store
load_events-append_events_example =
    load_events-append_events texts limits digests one_event "m" (nat 1) "second" batch
      (rereads_transition, (rereads_failure, tt)) refl loads appends

append_events_again_example :
    append_events texts limits three_events "m" (nat 1) "second" batch
    ≡ ok (three_events, new_events "m" "second" 1 stored_batch)
unfolding store
append_events_again_example =
    append_events_again texts limits digests one_event "m" (nat 1) "second" batch (omega arith)
      (omega arith) (rereads_transition, (rereads_failure, tt)) refl loads appends

-- The fields of a transition in an order of their own.
abbrev unsorted : Json
unsorted = json_object (
    field "type" (json_text "mission.transitioned")
      (field "to" (json_text "PLANNING") (field "from" (json_text "UNDERSTANDING") no_fields)))

decode-event_value_example :
    decode (event_value (mission_transitioned understanding planning))
    ≡ ok (mission_transitioned understanding planning)
unfolding store
decode-event_value_example = decode-event_value unsorted refl
