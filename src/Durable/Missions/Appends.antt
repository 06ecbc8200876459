-- ===== src/Durable/Missions/Appends.antt =====
-- src/durable/store.ts: the rows of a mission after `append`, and what an `append` that succeeds has done.
use odin_agent.Prelude.{
  ℕ, suc, ◌+◌, ◌≤◌, ◌≡◌, refl, sym, ap, ◌∙◌, subst, true, false, ◌&&◌, Option, none, some, List, [],
  ◌∷◌, ◌++◌, String, eq_refl, arith, ltb, leb, ◌==◌, select, select-append, find_first, length, All,
  All-widen, All-unsort_by, length-sort_by, ok, guard, or_throw, map_result, >>=-eq-ok, bind_ok,
  guard-ok, result_ok, sort_by, sort_by-append,
}
use odin_agent.Prelude.Number.{Number, safe_nat, safe_nat-le, max_safe}
use odin_agent.Mission.Snapshot.{MissionEventData}
use odin_agent.Events.{EventAppendItem, StoredEvent}
use odin_agent.Durable.Types.{type_error, conflict, is_identifier}
use odin_agent.Durable.Missions.{
  Texts, EventLimits, EventRow, EventKeyRow, EventDb, MissionStoreError, event_conflict,
  constraint_failed, is_free, durable, NormalizedItem, is_of_mission, is_key_row, sequence_after,
  rows_of, mission_event_count, canonical_json, normalize_item, batch_value, new_row, new_rows,
  new_events, insert_batch, append_new, append_events,
}
use odin_agent.Durable.Missions.Decoded.{Decoded, Decoded-below}
use odin_agent.Durable.Missions.Stored.{IsReread, IsStorable, map_result-IsStorable}

module _ (m key : String) where
  select-new_rows :
      (version : ℕ) (stored : List NormalizedItem)
      → select (is_of_mission m) (new_rows m key version stored) ≡ new_rows m key version stored
  select-new_rows version [] = refl
  select-new_rows version (input ∷ stored) =
      rw (eq_refl m) (
        ap (λ rows. new_row m key (suc version) input ∷ rows)
          (select-new_rows (suc version) stored))

  new_rows_after :
      (row : EventRow) (version : ℕ) (stored : List NormalizedItem)
      → row.sequence ≤ version
      → All (λ other. sequence_after row other ≡ false) (new_rows m key version stored)
  new_rows_after row version [] h = tt
  new_rows_after row version (input ∷ stored) h =
      (ground arith, new_rows_after row (suc version) stored (omega arith))

  sort_by-new_rows :
      (version : ℕ) (stored : List NormalizedItem)
      → sort_by sequence_after (new_rows m key version stored) ≡ new_rows m key version stored
  unfolding sort_by
  sort_by-new_rows version [] = refl
  sort_by-new_rows version (input ∷ []) = refl
  sort_by-new_rows version (input ∷ second ∷ stored) =
      let rest = sort_by-new_rows (suc version) (second ∷ stored) in
      let behind : ltb (suc (suc version)) (suc version) ≡ false = ground arith in
      rw rest (rw behind refl)

  pub rows_of-append :
      (rows : List EventRow) (version : ℕ) (stored : List NormalizedItem)
      → All (λ row. row.sequence ≤ version) (select (is_of_mission m) rows)
      → rows_of m (rows ++ new_rows m key version stored)
        ≡ rows_of m rows ++ new_rows m key version stored
  unfolding rows_of
  rows_of-append rows version stored below =
      ap (sort_by sequence_after) (
        select-append (is_of_mission m) rows (new_rows m key version stored)
        ∙ ap (λ new. select (is_of_mission m) rows ++ new) (select-new_rows version stored))
      ∙ sort_by-append sequence_after (select (is_of_mission m) rows)
          (new_rows m key version stored)
          (All-widen (λ row. row.sequence ≤ version)
            (λ row. All (λ other. sequence_after row other ≡ false) (new_rows m key version stored))
            (select (is_of_mission m) rows) (λ row h. new_rows_after row version stored h) below)
          (sort_by-new_rows version stored)

  pub count_rows : (rows : List EventRow) → length (rows_of m rows) ≡ mission_event_count m rows
  unfolding rows_of mission_event_count
  count_rows rows = length-sort_by sequence_after (select (is_of_mission m) rows)

  pub next_sequence :
      (version : ℕ) (rows : List EventRow)
      → mission_event_count m rows ≡ version
      → suc version ≡ 1 + length (rows_of m rows)
  next_sequence version rows h = let count = count_rows rows in omega arith

  pub rows_below :
      (version : ℕ) (texts : Texts) (limits : EventLimits) (rows : List EventRow)
      (events : List (StoredEvent MissionEventData))
      → mission_event_count m rows ≡ version
      → Decoded texts limits m 1 (rows_of m rows) events
      → All (λ row. row.sequence ≤ version) (rows_of m rows)
  rows_below version texts limits rows events e h =
      let next = next_sequence version rows e in
      All-widen (λ row. suc row.sequence ≤ 1 + length (rows_of m rows))
        (λ row. row.sequence ≤ version) (rows_of m rows) (λ row k. omega arith)
        (Decoded-below texts limits m 1 (rows_of m rows) events h)

  pub insert_batch_below :
      (version : ℕ) (texts : Texts) (limits : EventLimits) (rows : List EventRow)
      (events : List (StoredEvent MissionEventData))
      → mission_event_count m rows ≡ version
      → Decoded texts limits m 1 (rows_of m rows) events
      → All (λ row. row.sequence ≤ version) (select (is_of_mission m) rows)
  unfolding rows_of
  insert_batch_below version texts limits rows events e h =
      All-unsort_by sequence_after (λ row. row.sequence ≤ version) (select (is_of_mission m) rows)
        (rows_below version texts limits rows events e h)

module _ (texts : Texts) (limits : EventLimits) where
  abbrev pub batch_out :
      EventDb
      → String
      → String
      → String
      → ℕ
      → List NormalizedItem
      → EventDb × List (StoredEvent MissionEventData)
  batch_out db m key fingerprint version stored =
      (insert_batch db m key fingerprint version stored, new_events m key version stored)

  pub append_new_inserts :
      (db : EventDb) (m key fingerprint : String) (version : ℕ) (stored : List NormalizedItem)
      (out : EventDb × List (StoredEvent MissionEventData))
      → append_new texts limits db m key fingerprint version stored none ≡ ok out
      → (mission_event_count m db.mission_events ≡ version)
        × (version + length stored ≤ limits.max_mission_events)
        × (batch_out db m key fingerprint version stored ≡ out)
  append_new_inserts db m key fingerprint version stored out h =
      let count = mission_event_count m db.mission_events in
      let (_, counted, h1) = >>=-eq-ok (guard (count == version) event_conflict) _ h in
      let same : count ≡ version =
        ground (arith, guard-ok (count == version) event_conflict counted) in
      let full = leb (count + length stored) limits.max_mission_events in
      let (_, fits, h2) = >>=-eq-ok (guard full (durable conflict)) _ h1 in
      let (_, _, h3) =
        >>=-eq-ok (guard (is_free m version (length stored) db.mission_events) constraint_failed) _
          h2 in
      (same, ground (arith, guard-ok full (durable conflict) fits, same), result_ok h3)

  -- What the checks of `append` have found before its transaction starts, on any database.
  pub record IsPrepared (m : String) (expected_version : Number) (key : String)
      (items : List (EventAppendItem MissionEventData)) (fingerprint : String) (version : ℕ)
      (stored : List NormalizedItem) : Type 0 where
    pub is_key : is_identifier 500 key ≡ true
    pub is_counted : length stored ≡ length items
    pub is_batch : (1 ≤ length items) × (length items ≤ limits.max_event_batch)
    pub is_version : version ≤ max_safe
    pub are_storable : All (IsStorable texts limits) stored
    pub runs :
        (db : EventDb)
        → append_events texts limits db m expected_version key items
          ≡ append_new texts limits db m key fingerprint version stored
              (find_first (is_key_row m key) db.event_idempotency)

  map_result-length :
      (items : List (EventAppendItem MissionEventData)) (stored : List NormalizedItem)
      → map_result (normalize_item texts limits) items ≡ ok stored
      → length stored ≡ length items
  map_result-length [] stored h =
      subst (λ (s : List NormalizedItem). length s ≡ 0) (result_ok h) refl
  map_result-length (input ∷ items) stored h =
      let (first, _, h1) = >>=-eq-ok (normalize_item texts limits input) _ h in
      let (more, rest, h2) = >>=-eq-ok (map_result (normalize_item texts limits) items) _ h1 in
      subst (λ (s : List NormalizedItem). length s ≡ suc (length items)) (result_ok h2)
        (ap suc (map_result-length items more rest))

  or_throw_ok :
      {A : Type 0} (o : Option A) (thrown : MissionStoreError) {x : A}
      → or_throw o thrown ≡ ok x
      → o ≡ some x
  or_throw_ok (some x) thrown h = cc
  or_throw_ok none thrown h = absurd (cc)

  pub append_events-IsPrepared :
      (db : EventDb) (m : String) (expected_version : Number) (key : String)
      (items : List (EventAppendItem MissionEventData))
      (out : EventDb × List (StoredEvent MissionEventData))
      → All (IsReread texts limits) items
      → append_events texts limits db m expected_version key items ≡ ok out
      → (fingerprint : String) × (version : ℕ) × (stored : List NormalizedItem) × IsPrepared m
          expected_version key items fingerprint version stored
  unfolding append_events
  append_events-IsPrepared db m expected_version key items out again h =
      let ids = is_identifier 200 m && is_identifier 500 key in
      let (_, e, h1) = >>=-eq-ok (guard ids (durable type_error)) _ h in
      let (version, v, h2) =
        >>=-eq-ok (or_throw (safe_nat expected_version) (durable type_error)) _ h1 in
      let bound = leb 1 (length items) && leb (length items) limits.max_event_batch in
      let (_, b, h3) = >>=-eq-ok (guard bound (durable type_error)) _ h2 in
      let (stored, s, h4) = >>=-eq-ok (map_result (normalize_item texts limits) items) _ h3 in
      let (text, t, h5) =
        >>=-eq-ok (canonical_json texts limits.max_event_bytes (batch_value version stored)) _ h4 in
      let bounded = guard-ok bound (durable type_error) b in
      (
        texts.hash_text text,
        version,
        stored,
        record {
          is_key = ground (arith, guard-ok ids (durable type_error) e);
          is_counted = map_result-length items stored s;
          is_batch = (ground arith, ground arith);
          is_version =
              safe_nat-le expected_version version
                (or_throw_ok (safe_nat expected_version) (durable type_error) v);
          are_storable = map_result-IsStorable texts limits items stored again s;
          runs = λ db2. bind_ok (guard ids (durable type_error)) _ e (
              bind_ok (or_throw (safe_nat expected_version) (durable type_error)) _ v (
                bind_ok (guard bound (durable type_error)) _ b (
                  bind_ok (map_result (normalize_item texts limits) items) _ s (
                    bind_ok
                      (canonical_json texts limits.max_event_bytes (batch_value version stored)) _ t
                      refl))));
        },
      )

  -- What an append under a new idempotency key has done.
  pub append_events_inserts :
      (db : EventDb) (m : String) (expected_version : Number) (key : String)
      (items : List (EventAppendItem MissionEventData))
      (out : EventDb × List (StoredEvent MissionEventData))
      → All (IsReread texts limits) items
      → find_first (is_key_row m key) db.event_idempotency ≡ none
      → append_events texts limits db m expected_version key items ≡ ok out
      → (fingerprint : String) × (version : ℕ) × (stored : List NormalizedItem) × IsPrepared m
          expected_version key items fingerprint version stored
        × (mission_event_count m db.mission_events ≡ version)
        × (version + length stored ≤ limits.max_mission_events)
        × (batch_out db m key fingerprint version stored ≡ out)
  append_events_inserts db m expected_version key items out again new h =
      let (fingerprint, version, stored, prepared) =
        append_events-IsPrepared db m expected_version key items out again h in
      let run =
        subst
          (λ (o : Option EventKeyRow).
            append_new texts limits db m key fingerprint version stored o ≡ ok out)
          new (sym (prepared.runs db) ∙ h) in
      let (counted, fits, made) = append_new_inserts db m key fingerprint version stored out run in
      (fingerprint, version, stored, prepared, counted, fits, made)
