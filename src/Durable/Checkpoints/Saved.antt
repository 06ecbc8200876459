-- ===== src/Durable/Checkpoints/Saved.antt =====
-- src/durable/store.ts: a checkpoint that `saveCheckpoint` accepts is loaded again.
use odin_agent.Prelude.{
  ℕ, ◌≡◌, ◌≤◌, refl, ap, ◌∙◌, true, Option, some, List, String, str_eq, arith, leb, ◌&&◌,
  find_first, All, ok, guard, guard-ok, guard-true, >>=-eq-ok, bind_ok, or_throw, has,
}
use odin_agent.Prelude.Number.{nat, safe_nat, safe_nat-nat, max_safe, equals_nat}
use odin_agent.Mission.Checkpoint.{
  MissionCheckpoint, create_mission_checkpoint, restore_mission_checkpoint, bad_sequence,
}
use odin_agent.Durable.Types.{type_error, conflict, corruption, is_identifier}
use odin_agent.Durable.Json.{
  Fields, get, field_keys, canonicalize, canonical_fields, insert_field, key_after,
}
use odin_agent.Durable.Missions.{
  Texts, EventLimits, EventRow, canonical_json, parse_json, mission_event_count,
}
use odin_agent.Durable.Checkpoints.{
  CheckpointRow, CheckpointDb, stored, rejected, unwritten, map_error, is_checkpoint_of,
  decode_checkpoint, checkpoint_value, hash_snapshot, checkpoint_text, canonical_checkpoint,
  assert_checkpoint_matches_events, check_restored, fits_columns, load_row, load_checkpoint,
  save_checkpoint,
}
use odin_agent.Durable.Checkpoints.Replayed.{map_error_ok, restored_hash}
use odin_agent.Durable.Checkpoints.Canonical.{restore_canonical, assert_canonical}
use odin_agent.Durable.Missions.Written.{parse_json-canonical_json}
use odin_agent.Prelude.Text.{is_text_after}
use odin_agent.Durable.Checkpoints.Kept.{IsAligned, save_row-HasRow}

decode_checkpoint-checkpoint_value :
    (c : MissionCheckpoint)
    → equals_nat c.schema_version 1 ≡ true
    → c.aggregate_version ≤ max_safe
    → c.event_sequence ≤ max_safe
    → decode_checkpoint (checkpoint_value c) ≡ ok c
unfolding decode_checkpoint get field_keys has
decode_checkpoint-checkpoint_value c schema aggregate sequence =
    bind_ok (guard (equals_nat c.schema_version 1) corruption) _ (guard-true _ corruption schema) (
      bind_ok (or_throw (safe_nat (nat c.aggregate_version)) corruption) _
        (ap (λ (o : Option ℕ). or_throw o corruption) (safe_nat-nat c.aggregate_version aggregate))
        (bind_ok (or_throw (safe_nat (nat c.event_sequence)) corruption) _
          (ap (λ (o : Option ℕ). or_throw o corruption) (safe_nat-nat c.event_sequence sequence))
          refl))

canonicalize-checkpoint_value :
    (c : MissionCheckpoint)
    → canonicalize (checkpoint_value c) ≡ checkpoint_value (canonical_checkpoint c)
unfolding canonicalize insert_field key_after is_text_after
canonicalize-checkpoint_value c = refl

module _ (texts : Texts) (limits : EventLimits) (max_bytes : ℕ) where
  -- The JSON text of the canonicalized checkpoint is parsed back.
  abbrev pub IsCheckpointReread : MissionCheckpoint → Type 0
  IsCheckpointReread c =
      texts.read_json (texts.write_json (canonicalize (checkpoint_value c)))
      ≡ some (canonicalize (checkpoint_value c))

  parse_json-checkpoint_text :
      (c : MissionCheckpoint) {json : String}
      → IsCheckpointReread c
      → checkpoint_text texts max_bytes (checkpoint_value c) ≡ ok json
      → parse_json texts max_bytes json ≡ ok (checkpoint_value (canonical_checkpoint c))
  parse_json-checkpoint_text c {json} again h =
      let written =
        map_error_ok unwritten (canonical_json texts max_bytes (checkpoint_value c)) h in
      (parse_json-canonical_json texts max_bytes (checkpoint_value c)
        (checkpoint_value (canonical_checkpoint c)) written
        (again ∙ ap some (canonicalize-checkpoint_value c))).1

  created_bound :
      (snapshot : Fields) (sequence : ℕ) {made : MissionCheckpoint}
      → create_mission_checkpoint (hash_snapshot texts) snapshot sequence ≡ ok made
      → sequence ≤ max_safe
  unfolding create_mission_checkpoint
  created_bound snapshot sequence h =
      let safe = leb sequence max_safe && leb 1 sequence in
      let (_, s, _) = >>=-eq-ok (guard safe bad_sequence) _ h in
      ground (arith, guard-ok safe bad_sequence s)

  load_row-checkpoint :
      (db : CheckpointDb) (c : MissionCheckpoint) (row : CheckpointRow) (snapshot : Fields)
      → (str_eq row.mission_id c.mission_id ≡ true)
      → parse_json texts max_bytes row.checkpoint_json ≡ ok (checkpoint_value c)
      → decode_checkpoint (checkpoint_value c) ≡ ok c
      → fits_columns row c ≡ true
      → restore_mission_checkpoint (hash_snapshot texts) c c.mission_id ≡ ok snapshot
      → assert_checkpoint_matches_events texts limits max_bytes db.mission_events c ≡ ok tt
      → load_row texts limits max_bytes db c.mission_id (some row) ≡ ok (some c)
  load_row-checkpoint db c row snapshot mission parsed decoded fits restored matched =
      let checks : check_restored texts limits max_bytes db c c.mission_id ≡ ok tt =
        bind_ok
          (map_error rejected (restore_mission_checkpoint (hash_snapshot texts) c c.mission_id)) _
          (ap (map_error rejected) restored) matched in
      bind_ok (guard (str_eq row.mission_id c.mission_id) corruption) _
        (guard-true _ corruption mission)
        (bind_ok (parse_json texts max_bytes row.checkpoint_json) _ parsed (
          bind_ok (decode_checkpoint (checkpoint_value c)) _ decoded (
            bind_ok (guard (fits_columns row c) corruption) _ (guard-true _ corruption fits) (
              bind_ok
                (map_error (λ _. corruption)
                  (check_restored texts limits max_bytes db c c.mission_id))
                _ (ap (map_error (λ _. corruption)) checks) refl))))

  -- Every row of the table has equal version columns, the mission's id is an identifier, and the JSON text of
  -- the canonicalized checkpoint is parsed back. If `saveCheckpoint` accepts the checkpoint, then
  -- `loadCheckpoint` returns it from the new database, with the keys of its snapshot in canonical order, and
  -- every row has equal version columns there too.
  pub load_checkpoint-save_checkpoint :
      (db : CheckpointDb) (c : MissionCheckpoint) (saved_at : String) {after : CheckpointDb}
      → is_identifier 200 c.mission_id ≡ true
      → All IsAligned db.mission_checkpoints
      → IsCheckpointReread c
      → save_checkpoint texts limits max_bytes db c saved_at ≡ ok after
      → (load_checkpoint texts limits max_bytes after c.mission_id
          ≡ ok (some (canonical_checkpoint c)))
        × All IsAligned after.mission_checkpoints
  unfolding save_checkpoint load_checkpoint
  load_checkpoint-save_checkpoint db c saved_at {after} is_id aligned again h =
      let restore = restore_mission_checkpoint (hash_snapshot texts) c c.mission_id in
      let (_, _, h1) =
        >>=-eq-ok (guard (texts.is_canonical_time saved_at) (stored type_error)) _ h in
      let (snapshot, r, h2) = >>=-eq-ok (map_error rejected restore) _ h1 in
      let restored = map_error_ok rejected restore r in
      let (_, schema, versions, _) = restored_hash texts limits max_bytes c c.mission_id restored in
      let create = create_mission_checkpoint (hash_snapshot texts) snapshot c.event_sequence in
      let (made, m, h3) = >>=-eq-ok (map_error rejected create) _ h2 in
      let bound = created_bound snapshot c.event_sequence (map_error_ok rejected create m) in
      let (_, _, h4) =
        >>=-eq-ok (guard (str_eq made.snapshot_hash c.snapshot_hash) (stored corruption)) _ h3 in
      let (json, t, h5) = >>=-eq-ok (checkpoint_text texts max_bytes (checkpoint_value c)) _ h4 in
      let count = leb c.aggregate_version (mission_event_count c.mission_id db.mission_events) in
      let (_, _, h6) = >>=-eq-ok (guard count (stored conflict)) _ h5 in
      let (_, matched, h7) =
        >>=-eq-ok (assert_checkpoint_matches_events texts limits max_bytes db.mission_events c) _
          h6 in
      let (row, found, mission, fits, text, events, aligned2) =
        save_row-HasRow db c json saved_at aligned versions
          (find_first (is_checkpoint_of c.mission_id) db.mission_checkpoints) refl h7 in
      let parsed = ap (parse_json texts max_bytes) text ∙ parse_json-checkpoint_text c again t in
      let decoded =
        decode_checkpoint-checkpoint_value (canonical_checkpoint c) schema
          (ground (arith, versions, bound)) bound in
      let matched2 : assert_checkpoint_matches_events texts limits max_bytes after.mission_events
            (canonical_checkpoint c)
          ≡ ok tt =
        ap
          (λ (rows : List EventRow).
            assert_checkpoint_matches_events texts limits max_bytes rows (canonical_checkpoint c))
          events
        ∙ assert_canonical texts limits max_bytes db.mission_events c matched in
      (
        bind_ok (guard (is_identifier 200 c.mission_id) type_error) _
            (guard-true _ type_error is_id)
            (ap (load_row texts limits max_bytes after c.mission_id) found
              ∙ load_row-checkpoint after (canonical_checkpoint c) row (canonical_fields c.snapshot)
                  mission parsed decoded fits
                  (restore_canonical texts limits max_bytes c c.mission_id restored) matched2),
        aligned2,
      )
