-- ===== src/Durable/Checkpoints/Replayed.antt =====
-- src/durable/store.ts: a checkpoint that `loadCheckpoint` returns, and the events of its mission.
use odin_agent.Prelude.{
  select, ℕ, ◌≡◌, refl, sym, ap, ◌∙◌, subst, true, Option, none, some, List, String, str_eq, eq_iff,
  arith, leb, ◌==◌, find_first, length, Result, ok, err, ◌&&◌, guard, guard-ok, result_ok,
  >>=-eq-ok,
}
use odin_agent.Prelude.Number.{max_safe, equals_nat}
use odin_agent.Mission.Snapshot.{MissionSnapshot, MissionEventData}
use odin_agent.Mission.Project.{project_mission}
use odin_agent.Mission.Checkpoint.{
  MissionCheckpoint, create_mission_checkpoint, restore_mission_checkpoint, snapshot_fields,
  is_number, is_text, bad_sequence, sequence_mismatch, unsupported_schema, other_mission,
  bad_version, bad_hash,
}
use odin_agent.Events.{StoredEvent}
use odin_agent.Durable.Types.{type_error, corruption, is_identifier}
use odin_agent.Durable.Json.{Json, Fields, json_object, get, canonicalize}
use odin_agent.Durable.Missions.{
  Texts, EventLimits, EventRow, too_large, canonical_json, parse_json, decode_event_rows, rows_of,
}
use odin_agent.Durable.Checkpoints.{
  CheckpointRow, CheckpointDb, stored, rejected, replayed, unwritten, map_error, is_checkpoint_of,
  decode_checkpoint, hash_snapshot, checkpoint_text, covered_rows, assert_checkpoint_matches_events,
  check_restored, fits_columns, load_row, load_checkpoint,
}

pub map_error_ok :
    {E F A : Type 0} (f : E → F) (m : Result E A) {x : A} → map_error f m ≡ ok x → m ≡ ok x
map_error_ok f (ok a) h = cc
map_error_ok f (err e) h = absurd (cc)

module _ (texts : Texts) (max_bytes : ℕ) where
  pub checkpoint_text_written :
      (value : Json) {text : String}
      → checkpoint_text texts max_bytes value ≡ ok text
      → texts.write_json (canonicalize value) ≡ text
  unfolding canonical_json
  checkpoint_text_written value h =
      let fits = leb (texts.byte_length (texts.write_json (canonicalize value))) max_bytes in
      let (_, _, h1) =
        >>=-eq-ok (guard fits too_large) _
          (map_error_ok unwritten (canonical_json texts max_bytes value) h) in
      result_ok h1

module _ (texts : Texts) where
  created_hash :
      (snapshot : Fields) (sequence : ℕ) {made : MissionCheckpoint}
      → create_mission_checkpoint (hash_snapshot texts) snapshot sequence ≡ ok made
      → (made.snapshot_hash ≡ hash_snapshot texts snapshot) × (made.snapshot ≡ snapshot)
  unfolding create_mission_checkpoint
  created_hash snapshot sequence h =
      let (_, _, h1) =
        >>=-eq-ok (guard (leb sequence max_safe && leb 1 sequence) bad_sequence) _ h in
      let (_, _, h2) =
        >>=-eq-ok (guard (is_number (get "version" snapshot) sequence) sequence_mismatch) _ h1 in
      subst
        (λ (c : MissionCheckpoint).
          (c.snapshot_hash ≡ hash_snapshot texts snapshot) × (c.snapshot ≡ snapshot))
        (result_ok h2) (refl, refl)

module _ (texts : Texts) (limits : EventLimits) (max_bytes : ℕ) where
  -- The rows of the checkpoint's mission, up to its version.
  abbrev pub first_rows : List EventRow → MissionCheckpoint → List EventRow
  first_rows rows checkpoint =
      select (λ row. leb row.sequence checkpoint.aggregate_version)
        (rows_of checkpoint.mission_id rows)

  -- The first events of the mission replay to the checkpoint's snapshot.
  abbrev pub IsReplayed : List EventRow → MissionCheckpoint → Type 0
  IsReplayed rows checkpoint =
      (events : List (StoredEvent MissionEventData)) × (snapshot : MissionSnapshot) × (length
          (first_rows rows checkpoint)
        ≡ checkpoint.aggregate_version)
      × (decode_event_rows texts limits checkpoint.mission_id 1 (first_rows rows checkpoint)
          ≡ ok events)
      × (project_mission events ≡ ok snapshot)
      × (hash_snapshot texts (snapshot_fields snapshot) ≡ checkpoint.snapshot_hash)
      × (texts.write_json (canonicalize (json_object (snapshot_fields snapshot)))
          ≡ texts.write_json (canonicalize (json_object checkpoint.snapshot)))

  assert_checkpoint_matches_events-IsReplayed :
      (rows : List EventRow) (checkpoint : MissionCheckpoint) {out : Unit {0}}
      → assert_checkpoint_matches_events texts limits max_bytes rows checkpoint ≡ ok out
      → IsReplayed rows checkpoint
  unfolding assert_checkpoint_matches_events
  assert_checkpoint_matches_events-IsReplayed rows checkpoint h =
      let own = covered_rows rows checkpoint in
      let (_, counted, h1) =
        >>=-eq-ok (guard (length own == checkpoint.aggregate_version) (stored corruption)) _ h in
      let decode = decode_event_rows texts limits checkpoint.mission_id 1 own in
      let (events, decoded, h2) = >>=-eq-ok (map_error stored decode) _ h1 in
      let (snapshot, projected, h3) =
        >>=-eq-ok (map_error replayed (project_mission events)) _ h2 in
      let create =
        create_mission_checkpoint (hash_snapshot texts) (snapshot_fields snapshot)
          snapshot.version in
      let (made, created, h4) = >>=-eq-ok (map_error rejected create) _ h3 in
      let fields =
        created_hash texts (snapshot_fields snapshot) snapshot.version
          (map_error_ok rejected create created) in
      let (_, hashed, h5) =
        >>=-eq-ok (guard (str_eq made.snapshot_hash checkpoint.snapshot_hash) (stored corruption)) _
          h4 in
      let (left, l, h6) =
        >>=-eq-ok (checkpoint_text texts max_bytes (json_object made.snapshot)) _ h5 in
      let (right, r, h7) =
        >>=-eq-ok (checkpoint_text texts max_bytes (json_object checkpoint.snapshot)) _ h6 in
      let same_hash = (eq_iff made.snapshot_hash checkpoint.snapshot_hash).0 (
        guard-ok (str_eq made.snapshot_hash checkpoint.snapshot_hash) (stored corruption) hashed) in
      let same_text = (eq_iff left right).0 (guard-ok (str_eq left right) (stored corruption) h7) in
      (
        events,
        snapshot,
        ground (
          arith,
          guard-ok (length own == checkpoint.aggregate_version) (stored corruption) counted,
        ),
        map_error_ok stored decode decoded,
        map_error_ok replayed (project_mission events) projected,
        sym fields.0 ∙ same_hash,
        ap (λ (f : Fields). texts.write_json (canonicalize (json_object f))) (sym fields.1)
            ∙ checkpoint_text_written texts max_bytes (json_object made.snapshot) l
            ∙ same_text
            ∙ sym (checkpoint_text_written texts max_bytes (json_object checkpoint.snapshot) r),
      )

  pub restored_hash :
      (checkpoint : MissionCheckpoint) (mission_id : String) {out : Fields}
      → restore_mission_checkpoint (hash_snapshot texts) checkpoint mission_id ≡ ok out
      → (checkpoint.mission_id ≡ mission_id)
        × (equals_nat checkpoint.schema_version 1 ≡ true)
        × (checkpoint.aggregate_version ≡ checkpoint.event_sequence)
        × (out ≡ checkpoint.snapshot)
  unfolding restore_mission_checkpoint
  restored_hash checkpoint mission_id h =
      let schema = equals_nat checkpoint.schema_version 1 in
      let identity =
        str_eq checkpoint.mission_id mission_id
        && is_text (get "id" checkpoint.snapshot) mission_id in
      let version =
        checkpoint.aggregate_version == checkpoint.event_sequence
        && is_number (get "version" checkpoint.snapshot) checkpoint.aggregate_version in
      let (_, s, h1) = >>=-eq-ok (guard schema unsupported_schema) _ h in
      let (_, i, h2) = >>=-eq-ok (guard identity other_mission) _ h1 in
      let (_, v, h3) = >>=-eq-ok (guard version bad_version) _ h2 in
      let (_, _, h4) =
        >>=-eq-ok
          (guard (str_eq (hash_snapshot texts checkpoint.snapshot) checkpoint.snapshot_hash)
            bad_hash)
          _ h3 in
      (
        (eq_iff checkpoint.mission_id mission_id).0
            (ground (arith, guard-ok identity other_mission i)),
        guard-ok schema unsupported_schema s,
        ground (arith, guard-ok version bad_version v),
        sym (result_ok h4),
      )

  load_row-IsReplayed :
      (db : CheckpointDb) (mission_id : String) (checkpoint : MissionCheckpoint)
      (row : Option CheckpointRow)
      → load_row texts limits max_bytes db mission_id row ≡ ok (some checkpoint)
      → (checkpoint.mission_id ≡ mission_id) × IsReplayed db.mission_events checkpoint
  load_row-IsReplayed db mission_id checkpoint none h = absurd (cc)
  load_row-IsReplayed db mission_id checkpoint (some row) h =
      let (_, _, h1) = >>=-eq-ok (guard (str_eq row.mission_id mission_id) corruption) _ h in
      let (value, _, h2) = >>=-eq-ok (parse_json texts max_bytes row.checkpoint_json) _ h1 in
      let (parsed, _, h3) = >>=-eq-ok (decode_checkpoint value) _ h2 in
      let (_, _, h4) = >>=-eq-ok (guard (fits_columns row parsed) corruption) _ h3 in
      let restore = restore_mission_checkpoint (hash_snapshot texts) parsed mission_id in
      let checks = check_restored texts limits max_bytes db parsed mission_id in
      let (_, checked, h5) = >>=-eq-ok (map_error (λ _. corruption) checks) _ h4 in
      let (fields, restored, matched) =
        >>=-eq-ok (map_error rejected restore) _ (map_error_ok (λ _. corruption) checks checked) in
      let same : some parsed ≡ some checkpoint = result_ok h5 in
      let parsed_same : parsed ≡ checkpoint = cc in
      subst
        (λ (c : MissionCheckpoint). (c.mission_id ≡ mission_id) × IsReplayed db.mission_events c)
        parsed_same
        (
          (restored_hash parsed mission_id (map_error_ok rejected restore restored)).0,
          assert_checkpoint_matches_events-IsReplayed db.mission_events parsed matched,
        )

  -- A checkpoint that `loadCheckpoint` returns is of the mission that was asked for, and its snapshot has the
  -- hash and the JSON text of the snapshot that the mission's events up to its version replay to.
  pub load_checkpoint-IsReplayed :
      (db : CheckpointDb) (mission_id : String) (checkpoint : MissionCheckpoint)
      → load_checkpoint texts limits max_bytes db mission_id ≡ ok (some checkpoint)
      → (checkpoint.mission_id ≡ mission_id) × IsReplayed db.mission_events checkpoint
  unfolding load_checkpoint
  load_checkpoint-IsReplayed db mission_id checkpoint h =
      let (_, _, h1) = >>=-eq-ok (guard (is_identifier 200 mission_id) type_error) _ h in
      load_row-IsReplayed db mission_id checkpoint
        (find_first (is_checkpoint_of mission_id) db.mission_checkpoints) h1
