-- ===== src/Durable/Missions/Retry.antt =====
-- src/durable/store.ts: an `append` that is tried again.
use odin_agent.Prelude.{
  ℕ, suc, ◌+◌, ◌≤◌, ◌≡◌, refl, ap, ◌∙◌, subst, Bool, true, false, ◌&&◌, none, some, List, [], ◌∷◌,
  ◌++◌, String, str_eq, eq_refl, arith, ltb, leb, ◌==◌, select, select-append, find_first, length,
  All, All-widen, ok, guard, >>=-eq-ok, bind_ok, guard-true,
}
use odin_agent.Prelude.Number.{Number, max_safe}
use odin_agent.Mission.Snapshot.{MissionEventData}
use odin_agent.Events.{EventAppendItem, StoredEvent}
use odin_agent.Durable.Types.{is_between, type_error, corruption, is_identifier, is_sha256}
use odin_agent.Durable.Missions.{
  Texts, EventLimits, EventRow, EventKeyRow, EventDb, event_conflict, NormalizedItem, is_in_range,
  load_event_range, is_key_row, rows_of, decode_event_rows, load_events, new_row, new_rows,
  new_events, insert_batch, append_new, append_events,
}
use odin_agent.Durable.Missions.Decoded.{Decoded}
use odin_agent.Durable.Missions.Stored.{IsReread, new_rows-Decoded}
use odin_agent.Durable.Missions.Appends.{
  rows_of-append, rows_below, insert_batch_below, append_events_inserts,
}

module _ {A : Type 0} where
  select_none : (p : A → Bool) (xs : List A) → All (λ x. p x ≡ false) xs → select p xs ≡ []
  select_none p [] h = refl
  select_none p (x ∷ xs) h = rw h.0 (select_none p xs h.1)

  find_first-append_none :
      (p : A → Bool) (xs ys : List A)
      → find_first p xs ≡ none
      → find_first p (xs ++ ys) ≡ find_first p ys
  find_first-append_none p [] ys h = refl
  find_first-append_none p (x ∷ xs) ys h = ground (arith, find_first-append_none p xs ys)

module _ (m key : String) where
  length-new_rows :
      (version : ℕ) (stored : List NormalizedItem)
      → length (new_rows m key version stored) ≡ length stored
  length-new_rows version [] = refl
  length-new_rows version (input ∷ stored) = ap suc (length-new_rows (suc version) stored)

  select_in_range-new_rows :
      (first count version : ℕ) (stored : List NormalizedItem)
      → first ≤ suc version
      → suc version + length stored ≤ first + count
      → select (is_in_range first count) (new_rows m key version stored)
        ≡ new_rows m key version stored
  select_in_range-new_rows first count version [] h k = refl
  select_in_range-new_rows first count version (input ∷ stored) h k =
      let inside : (leb first (suc version) && ltb (suc version) (first + count)) ≡ true =
        ground arith in
      rw inside (
        ap (λ rows. new_row m key (suc version) input ∷ rows)
          (select_in_range-new_rows first count (suc version) stored (omega arith) (omega arith)))

  -- The rows of a batch are those in its range.
  batch_rows :
      (version : ℕ) (stored : List NormalizedItem) (rows : List EventRow)
      → All (λ row. row.sequence ≤ version) rows
      → select (is_in_range (suc version) (length stored)) (rows ++ new_rows m key version stored)
        ≡ new_rows m key version stored
  batch_rows version stored rows below =
      let range = is_in_range (suc version) (length stored) in
      select-append range rows (new_rows m key version stored)
      ∙ ap (λ own. own ++ select range (new_rows m key version stored))
          (select_none range rows (
            All-widen (λ row. row.sequence ≤ version) (λ row. range row ≡ false) rows
              (λ row h. ground arith) below))
      ∙ select_in_range-new_rows (suc version) (length stored) version stored (omega arith)
          (omega arith)

module _ (texts : Texts) (limits : EventLimits) where
  load_event_range-batch :
      (m : String) (first count : ℕ) (db : EventDb) (rows : List EventRow)
      (events : List (StoredEvent MissionEventData))
      → select (is_in_range first count) (rows_of m db.mission_events) ≡ rows
      → length rows ≡ count
      → is_between 1 max_safe first ≡ true
      → is_between 1 limits.max_event_batch count ≡ true
      → Decoded texts limits m first rows events
      → load_event_range texts limits db m first count ≡ ok events
  unfolding load_event_range
  load_event_range-batch m first count db rows events selected counted is_first is_count decoded =
      let found = select (is_in_range first count) (rows_of m db.mission_events) in
      bind_ok (guard (is_between 1 max_safe first) type_error) _ (guard-true _ type_error is_first)
        (bind_ok (guard (is_between 1 limits.max_event_batch count) type_error) _
          (guard-true _ type_error is_count)
          (bind_ok (guard (length found == count) corruption) _
            (guard-true _ corruption (rw selected (ground (arith, counted))))
            (ap (decode_event_rows texts limits m first) selected ∙ decoded)))

  append_new-batch :
      (db : EventDb) (m key fingerprint : String) (version : ℕ) (stored : List NormalizedItem)
      (events : List (StoredEvent MissionEventData))
      → find_first (is_key_row m key) db.event_idempotency ≡ none
      → load_event_range texts limits
          (insert_batch db m key fingerprint version stored)
          m
          (suc version)
          (length stored)
        ≡ ok events
      → append_new texts limits
          (insert_batch db m key fingerprint version stored)
          m
          key
          fingerprint
          version
          stored
          (find_first
            (is_key_row m key)
            (insert_batch db m key fingerprint version stored).event_idempotency)
        ≡ ok (insert_batch db m key fingerprint version stored, events)
  append_new-batch db m key fingerprint version stored events new loaded =
      let after = insert_batch db m key fingerprint version stored in
      let row : EventKeyRow = record {
        mission_id = m;
        idempotency_key = key;
        fingerprint = fingerprint;
        first_sequence = suc version;
        event_count = length stored;
      } in
      let found : find_first (is_key_row m key) after.event_idempotency ≡ some row =
        find_first-append_none (is_key_row m key) db.event_idempotency (row ∷ []) new
        ∙ rw (eq_refl m, eq_refl key) refl in
      ap (append_new texts limits after m key fingerprint version stored) found
      ∙ bind_ok (guard (str_eq fingerprint fingerprint) event_conflict) _
          (guard-true _ event_conflict (eq_refl fingerprint)) (rw loaded refl)

  -- The texts of hashes are SHA-256 digests, the JSON texts of the batch's events are parsed back, and the
  -- limits are safe integers. If a batch is appended under a new idempotency key to a mission that could be
  -- loaded, then the same call on the new database returns the same events and changes nothing.
  pub append_events_again :
      (is_digest : (text : String) → is_sha256 (texts.hash_text text) ≡ true) (db : EventDb)
      (m : String) (expected_version : Number) (key : String)
      (items : List (EventAppendItem MissionEventData))
      {before : List (StoredEvent MissionEventData)}
      {out : EventDb × List (StoredEvent MissionEventData)}
      → limits.max_mission_events ≤ max_safe
      → limits.max_event_batch ≤ max_safe
      → All (IsReread texts limits) items
      → find_first (is_key_row m key) db.event_idempotency ≡ none
      → load_events texts limits db m ≡ ok before
      → append_events texts limits db m expected_version key items ≡ ok out
      → append_events texts limits out.0 m expected_version key items ≡ ok out
  unfolding load_events
  append_events_again is_digest db m expected_version key items {before} {out} safe small again new
        loaded h =
      let (_, _, decoded) = >>=-eq-ok (guard (is_identifier 200 m) type_error) _ loaded in
      let (fingerprint, version, stored, prepared, counted, fits, made) =
        append_events_inserts texts limits db m expected_version key items out again new h in
      let rows =
        ap (select (is_in_range (suc version) (length stored))) (
          rows_of-append m key db.mission_events version stored (
            insert_batch_below m key version texts limits db.mission_events before counted decoded))
        ∙ batch_rows m key version stored (rows_of m db.mission_events)
            (rows_below m key version texts limits db.mission_events before counted decoded) in
      let range =
        load_event_range-batch m (suc version) (length stored)
          (insert_batch db m key fingerprint version stored) (new_rows m key version stored)
          (new_events m key version stored) rows (length-new_rows m key version stored)
          (ground (arith, fits, prepared.is_batch, prepared.is_counted))
          (ground (arith, prepared.is_batch, prepared.is_counted))
          (new_rows-Decoded texts limits is_digest m key prepared.is_key version stored
            prepared.are_storable) in
      subst
        (λ (o : EventDb × List (StoredEvent MissionEventData)).
          append_events texts limits o.0 m expected_version key items ≡ ok o)
        made
        (prepared.runs (insert_batch db m key fingerprint version stored)
          ∙ append_new-batch db m key fingerprint version stored (new_events m key version stored)
              new range)
