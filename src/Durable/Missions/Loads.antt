-- ===== src/Durable/Missions/Loads.antt =====
-- src/durable/store.ts: what `load` returns after `append`.
use odin_agent.Prelude.{
  ℕ, ◌≡◌, ap, ◌∙◌, subst, true, none, List, ◌++◌, String, find_first, All, ok, guard, >>=-eq-ok,
  bind_ok,
}
use odin_agent.Prelude.Number.{Number}
use odin_agent.Mission.Snapshot.{MissionEventData}
use odin_agent.Events.{EventAppendItem, StoredEvent}
use odin_agent.Durable.Types.{type_error, is_identifier, is_sha256}
use odin_agent.Durable.Missions.{
  Texts, EventLimits, EventDb, is_key_row, rows_of, decode_event_rows, load_events, new_rows,
  new_events, append_events,
}
use odin_agent.Durable.Missions.Decoded.{Decoded, Decoded-append}
use odin_agent.Durable.Missions.Stored.{IsReread, new_rows-Decoded}
use odin_agent.Durable.Missions.Appends.{
  rows_of-append, next_sequence, insert_batch_below, append_events_inserts,
}

module _ (texts : Texts) (limits : EventLimits) where
  -- The texts of hashes are SHA-256 digests, and the JSON texts of the batch's events are parsed back. If a
  -- batch is appended under a new idempotency key and the mission could be loaded before, then the mission
  -- is loaded after it, as the events from before and then the events that `append` returned.
  pub load_events-append_events :
      (is_digest : (text : String) → is_sha256 (texts.hash_text text) ≡ true) (db : EventDb)
      (m : String) (expected_version : Number) (key : String)
      (items : List (EventAppendItem MissionEventData))
      {before : List (StoredEvent MissionEventData)}
      {out : EventDb × List (StoredEvent MissionEventData)}
      → All (IsReread texts limits) items
      → find_first (is_key_row m key) db.event_idempotency ≡ none
      → load_events texts limits db m ≡ ok before
      → append_events texts limits db m expected_version key items ≡ ok out
      → load_events texts limits out.0 m ≡ ok (before ++ out.1)
  unfolding load_events
  load_events-append_events is_digest db m expected_version key items {before} {out} again new
        loaded h =
      let (_, is_id, decoded) = >>=-eq-ok (guard (is_identifier 200 m) type_error) _ loaded in
      let (fingerprint, version, stored, prepared, counted, _, made) =
        append_events_inserts texts limits db m expected_version key items out again new h in
      let rows =
        rows_of-append m key db.mission_events version stored (
          insert_batch_below m key version texts limits db.mission_events before counted decoded) in
      let more =
        new_rows-Decoded texts limits is_digest m key prepared.is_key version stored
          prepared.are_storable in
      let all =
        Decoded-append texts limits m 1 (rows_of m db.mission_events)
          (new_rows m key version stored) before (new_events m key version stored) decoded
          (subst
            (λ (n : ℕ).
              Decoded texts limits m n (new_rows m key version stored)
                (new_events m key version stored))
            (next_sequence m key version db.mission_events counted) more) in
      subst
        (λ (o : EventDb × List (StoredEvent MissionEventData)).
          load_events texts limits o.0 m ≡ ok (before ++ o.1))
        made
        (bind_ok (guard (is_identifier 200 m) type_error) _ is_id
          (ap (decode_event_rows texts limits m 1) rows ∙ all))
