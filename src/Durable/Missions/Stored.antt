-- ===== src/Durable/Missions/Stored.antt =====
-- src/durable/store.ts: the rows that `append` inserts are decoded to the events that it returns.
use odin_agent.Prelude.{
  ◌∙◌, ℕ, suc, ◌≡◌, refl, sym, ap, subst, true, ◌&&◌, some, List, [], ◌∷◌, String, str_eq, eq_refl,
  arith, All, Result, ok, err, guard, map_result, >>=-eq-ok, bind_ok, guard-ok, guard-true,
  result_ok,
}
use odin_agent.Mission.Snapshot.{MissionEventData}
use odin_agent.Events.{EventAppendItem}
use odin_agent.Durable.Types.{DurableError, type_error, corruption, is_identifier, is_sha256}
use odin_agent.Durable.Json.{Json}
use odin_agent.Durable.Codec.Canonical.{canonicalize-event_value}
use odin_agent.Durable.Missions.Written.{parse_json-canonical_json}
use odin_agent.Durable.Codec.{decode, event_value}
use odin_agent.Durable.Codec.RoundTrip.{decode-event_value}
use odin_agent.Durable.Missions.{
  Texts, EventLimits, durable, NormalizedItem, as_durable, is_row_at, canonical_json, parse_json,
  decode_event_row, decode_event_rows, normalize_item, new_row, new_event, new_rows, new_events,
}
use odin_agent.Durable.Missions.Decoded.{Decoded}

as_durable_ok : {A : Type 0} (m : Result DurableError A) {x : A} → as_durable m ≡ ok x → m ≡ ok x
as_durable_ok (ok a) h = cc
as_durable_ok (err e) h = absurd (cc)

module _ (texts : Texts) (limits : EventLimits) where
  -- What `normalizeItem` has stored is read again.
  abbrev pub IsReread : EventAppendItem MissionEventData → Type 0
  IsReread input =
      (event : MissionEventData)
      → decode (event_value input.content) ≡ ok event
      → texts.read_json (texts.write_json (event_value event)) ≡ some (event_value event)

  pub record IsStorable (input : NormalizedItem) : Type 0 where
    pub is_timed : texts.is_canonical_time input.occurred_at ≡ true
    pub is_hashed : input.data_hash ≡ texts.hash_text input.data_json
    pub is_parsed :
        parse_json texts limits.max_event_bytes input.data_json ≡ ok (event_value input.content)
    pub is_decoded : decode (event_value input.content) ≡ ok input.content

  pub normalize_item-IsStorable :
      (input : EventAppendItem MissionEventData) (stored : NormalizedItem)
      → IsReread input
      → normalize_item texts limits input ≡ ok stored
      → IsStorable stored
  unfolding normalize_item
  normalize_item-IsStorable input stored again h =
      let (_, timed, h1) =
        >>=-eq-ok (guard (texts.is_canonical_time input.occurred_at) (durable type_error)) _ h in
      let (content, e, h2) = >>=-eq-ok (as_durable (decode (event_value input.content))) _ h1 in
      let decoded = as_durable_ok (decode (event_value input.content)) e in
      let (json, j, h3) =
        >>=-eq-ok (canonical_json texts limits.max_event_bytes (event_value content)) _ h2 in
      let read =
        ap (λ (v : Json). texts.read_json (texts.write_json v)) (canonicalize-event_value content)
        ∙ again content decoded in
      let parsed =
        parse_json-canonical_json texts limits.max_event_bytes (event_value content)
          (event_value content) j read in
      subst IsStorable (result_ok h3) (record {
        is_timed = guard-ok (texts.is_canonical_time input.occurred_at) (durable type_error) timed;
        is_hashed = refl;
        is_parsed = parsed.1;
        is_decoded = decode-event_value (event_value input.content) decoded;
      })

  pub map_result-IsStorable :
      (items : List (EventAppendItem MissionEventData)) (stored : List NormalizedItem)
      → All IsReread items
      → map_result (normalize_item texts limits) items ≡ ok stored
      → All IsStorable stored
  map_result-IsStorable [] stored again h = subst (All IsStorable) (result_ok h) tt
  map_result-IsStorable (input ∷ items) stored again h =
      let (first, e, h1) = >>=-eq-ok (normalize_item texts limits input) _ h in
      let (more, rest, h2) = >>=-eq-ok (map_result (normalize_item texts limits) items) _ h1 in
      subst (All IsStorable) (result_ok h2) (
        normalize_item-IsStorable input first again.0 e,
        map_result-IsStorable items more again.1 rest,
      )

  module _ (is_digest : (text : String) → is_sha256 (texts.hash_text text) ≡ true) (m key : String)
      (is_key : is_identifier 500 key ≡ true) where
    new_row_decoded :
        (version : ℕ) (input : NormalizedItem)
        → IsStorable input
        → decode_event_row texts limits m (suc version) (new_row m key (suc version) input)
          ≡ ok (new_event m key (suc version) input)
    unfolding decode_event_row
    new_row_decoded version input good =
        let row = new_row m key (suc version) input in
        let hash_same : texts.hash_text input.data_json ≡ input.data_hash = sym good.is_hashed in
        bind_ok (guard (is_row_at m (suc version) row) corruption) _
          (guard-true _ corruption (ground (arith, eq_refl m)))
          (bind_ok (guard (is_identifier 500 key) type_error) _ (guard-true _ type_error is_key) (
            bind_ok
              (guard (texts.is_canonical_time input.occurred_at && is_sha256 input.data_hash)
                corruption)
              _
              (guard-true _ corruption
                (rw (good.is_timed, good.is_hashed, is_digest input.data_json) refl))
              (bind_ok (guard (str_eq (texts.hash_text input.data_json) input.data_hash) corruption)
                _ (guard-true _ corruption (rw hash_same (eq_refl input.data_hash)))
                (bind_ok (parse_json texts limits.max_event_bytes input.data_json) _ good.is_parsed
                  (bind_ok (decode (event_value input.content)) _ good.is_decoded refl)))))

    pub new_rows-Decoded :
        (version : ℕ) (stored : List NormalizedItem)
        → All IsStorable stored
        → Decoded texts limits m
            (suc version)
            (new_rows m key version stored)
            (new_events m key version stored)
    unfolding decode_event_rows
    new_rows-Decoded version [] good = refl
    new_rows-Decoded version (input ∷ stored) good =
        bind_ok (decode_event_row texts limits m (suc version) _) _
          (new_row_decoded version input good.0)
          (bind_ok (decode_event_rows texts limits m (suc (suc version)) _) _
            (new_rows-Decoded (suc version) stored good.1) refl)
