-- ===== src/Durable/Checkpoints/Canonical.antt =====
-- src/durable/store.ts and src/mission/checkpoint.ts: a checkpoint with the keys of its snapshot in canonical
-- order passes the tests that the checkpoint itself passes.
use odin_agent.Prelude.{
  ℕ, ◌≡◌, refl, ap, ◌∙◌, Option, none, some, List, String, str_eq, leb, ◌==◌, ok, ◌&&◌, guard,
  >>=-eq-ok, bind_ok, ◌>>◌,
}
use odin_agent.Prelude.Number.{equals_nat}
use odin_agent.Mission.Checkpoint.{
  MissionCheckpoint, restore_mission_checkpoint, is_number, is_text, unsupported_schema,
  other_mission, bad_version, bad_hash,
}
use odin_agent.Durable.Json.{
  Json, Fields, json_object, json_null, json_bool, json_number, json_text, json_array, get,
  canonicalize, canonical_fields,
}
use odin_agent.Durable.Missions.{Texts, EventLimits, EventRow, too_large, canonical_json}
use odin_agent.Durable.Checkpoints.{
  hash_snapshot, canonical_checkpoint, assert_checkpoint_matches_events,
}
use odin_agent.Durable.Json.Canonical.{
  canonical_value, get-canonical_fields, canonical_fields_twice,
}

is_text-canonical_value :
    (value : Option Json) (text : String)
    → is_text (canonical_value value) text ≡ is_text value text
unfolding canonicalize
is_text-canonical_value none text = refl
is_text-canonical_value (some json_null) text = refl
is_text-canonical_value (some (json_bool b)) text = refl
is_text-canonical_value (some (json_number n)) text = refl
is_text-canonical_value (some (json_text t)) text = refl
is_text-canonical_value (some (json_array items)) text = refl
is_text-canonical_value (some (json_object rest)) text = refl

is_number-canonical_value :
    (value : Option Json) (n : ℕ) → is_number (canonical_value value) n ≡ is_number value n
unfolding canonicalize
is_number-canonical_value none n = refl
is_number-canonical_value (some json_null) n = refl
is_number-canonical_value (some (json_bool b)) n = refl
is_number-canonical_value (some (json_number m)) n = refl
is_number-canonical_value (some (json_text t)) n = refl
is_number-canonical_value (some (json_array items)) n = refl
is_number-canonical_value (some (json_object rest)) n = refl

module _ (texts : Texts) where
  hash_snapshot-canonical_fields :
      (snapshot : Fields)
      → hash_snapshot texts (canonical_fields snapshot) ≡ hash_snapshot texts snapshot
  unfolding canonicalize
  hash_snapshot-canonical_fields snapshot =
      ap (λ (f : Fields). texts.hash_text (texts.write_json (json_object f)))
        (canonical_fields_twice snapshot)

module _ (texts : Texts) (limits : EventLimits) (max_bytes : ℕ) where
  pub restore_canonical :
      (checkpoint : MissionCheckpoint) (mission_id : String) {out : Fields}
      → restore_mission_checkpoint (hash_snapshot texts) checkpoint mission_id ≡ ok out
      → restore_mission_checkpoint
          (hash_snapshot texts)
          (canonical_checkpoint checkpoint)
          mission_id
        ≡ ok (canonical_fields checkpoint.snapshot)
  unfolding restore_mission_checkpoint
  restore_canonical checkpoint mission_id h =
      let snapshot = checkpoint.snapshot in
      let schema = equals_nat checkpoint.schema_version 1 in
      let identity =
        str_eq checkpoint.mission_id mission_id && is_text (get "id" snapshot) mission_id in
      let version =
        checkpoint.aggregate_version == checkpoint.event_sequence
        && is_number (get "version" snapshot) checkpoint.aggregate_version in
      let hashed = str_eq (hash_snapshot texts snapshot) checkpoint.snapshot_hash in
      let (_, s, h1) = >>=-eq-ok (guard schema unsupported_schema) _ h in
      let (_, i, h2) = >>=-eq-ok (guard identity other_mission) _ h1 in
      let (_, v, h3) = >>=-eq-ok (guard version bad_version) _ h2 in
      let (_, k, _) = >>=-eq-ok (guard hashed bad_hash) _ h3 in
      let same_id =
        ap (λ o. is_text o mission_id) (get-canonical_fields "id" snapshot)
        ∙ is_text-canonical_value (get "id" snapshot) mission_id in
      let same_version =
        ap (λ o. is_number o checkpoint.aggregate_version) (get-canonical_fields "version" snapshot)
        ∙ is_number-canonical_value (get "version" snapshot) checkpoint.aggregate_version in
      bind_ok (guard schema unsupported_schema) _ s (
        bind_ok (guard _ other_mission) _
          (ap (λ b. guard (str_eq checkpoint.mission_id mission_id && b) other_mission) same_id ∙ i)
          (bind_ok (guard _ bad_version) _
            (ap
                (λ b.
                  guard (checkpoint.aggregate_version == checkpoint.event_sequence && b)
                    bad_version)
                same_version
              ∙ v)
            (bind_ok (guard _ bad_hash) _
              (ap (λ t. guard (str_eq t checkpoint.snapshot_hash) bad_hash)
                  (hash_snapshot-canonical_fields texts snapshot)
                ∙ k)
              refl)))

  canonical_text :
      (snapshot : Fields)
      → canonical_json texts max_bytes (json_object (canonical_fields snapshot))
        ≡ canonical_json texts max_bytes (json_object snapshot)
  unfolding canonical_json canonicalize
  canonical_text snapshot =
      ap
        (λ (f : Fields).
          guard (leb (texts.byte_length (texts.write_json (json_object f))) max_bytes) too_large
          >> ok (texts.write_json (json_object f)))
        (canonical_fields_twice snapshot)

  pub assert_canonical :
      (rows : List EventRow) (checkpoint : MissionCheckpoint)
      → assert_checkpoint_matches_events texts limits max_bytes rows checkpoint ≡ ok tt
      → assert_checkpoint_matches_events texts limits max_bytes rows
          (canonical_checkpoint checkpoint)
        ≡ ok tt
  unfolding assert_checkpoint_matches_events
  assert_canonical rows checkpoint h = rw (canonical_text checkpoint.snapshot) h
