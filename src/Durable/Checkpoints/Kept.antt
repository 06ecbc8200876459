-- ===== src/Durable/Checkpoints/Kept.antt =====
-- src/durable/store.ts: the row of a checkpoint after saveCheckpoint.
use odin_agent.Prelude.{
  ◌≡◌, refl, sym, subst, Bool, true, inl, inr, Bool-cases, Option, none, some, List, [], ◌∷◌,
  String, str_eq, eq_iff, eq_refl, arith, leb, ◌==◌, find_first, All, Result, ok, ◌>>◌, guard,
  guard-ok, result_ok, >>=-eq-ok, if◌then◌else◌,
}
use odin_agent.Mission.Checkpoint.{MissionCheckpoint}
use odin_agent.Durable.Types.{conflict}
use odin_agent.Durable.Checkpoints.{
  CheckpointRow, CheckpointDb, CheckpointStoreError, stored, upsert, is_checkpoint_of, fits_columns,
  new_checkpoint_row, write_checkpoint, is_same_content, save_row,
}

-- The CHECK of the table mission_checkpoints: the two version columns of a row agree.
abbrev pub IsAligned : CheckpointRow → Type 0
IsAligned row = row.event_sequence ≡ row.aggregate_version

find_first-upsert :
    (row : CheckpointRow) (rows : List CheckpointRow)
    → find_first (is_checkpoint_of row.mission_id) (upsert row rows) ≡ some row
find_first-upsert row [] = rw (eq_refl row.mission_id) refl
find_first-upsert row (other ∷ rows) = elim (Bool-cases (is_checkpoint_of row.mission_id other)) [
  | inl e ↦ rw (e, eq_refl row.mission_id) refl
  | inr e ↦ rw e (rw e (find_first-upsert row rows))
]

All-upsert :
    (row : CheckpointRow) (rows : List CheckpointRow)
    → IsAligned row
    → All IsAligned rows
    → All IsAligned (upsert row rows)
All-upsert row [] h hs = (h, tt)
All-upsert row (other ∷ rows) h hs = elim (Bool-cases (is_checkpoint_of row.mission_id other)) [
  | inl e ↦ rw e (h, hs.1)
  | inr e ↦ rw e (hs.0, All-upsert row rows h hs.1)
]

All-find_first :
    (mission_id : String) (rows : List CheckpointRow) (row : CheckpointRow)
    → All IsAligned rows
    → find_first (is_checkpoint_of mission_id) rows ≡ some row
    → IsAligned row × (str_eq row.mission_id mission_id ≡ true)
All-find_first mission_id [] row hs h = absurd (cc)
All-find_first mission_id (other ∷ rows) row hs h =
    elim (Bool-cases (is_checkpoint_of mission_id other)) [
      | inl e ↦
          let same : other ≡ row = ground arith in
          subst (λ (r : CheckpointRow). IsAligned r × (str_eq r.mission_id mission_id ≡ true)) same
            (hs.0, e)
      | inr e ↦ All-find_first mission_id rows row hs.1 (ground arith)
    ]

-- The row of the checkpoint after it is saved.
abbrev pub HasRow : CheckpointDb → MissionCheckpoint → String → CheckpointDb → Type 0
HasRow db checkpoint json after =
    (row : CheckpointRow) × (find_first (is_checkpoint_of checkpoint.mission_id)
        after.mission_checkpoints
      ≡ some row)
    × (str_eq row.mission_id checkpoint.mission_id ≡ true)
    × (fits_columns row checkpoint ≡ true)
    × (row.checkpoint_json ≡ json)
    × (after.mission_events ≡ db.mission_events)
    × All IsAligned after.mission_checkpoints

module _ (db : CheckpointDb) (c : MissionCheckpoint) (json saved_at : String)
    (aligned : All IsAligned db.mission_checkpoints)
    (versions : c.aggregate_version ≡ c.event_sequence) where
  write_checkpoint-HasRow : HasRow db c json (write_checkpoint db c json saved_at)
  write_checkpoint-HasRow =
      let row = new_checkpoint_row c json saved_at in
      (
        row,
        find_first-upsert row db.mission_checkpoints,
        eq_refl c.mission_id,
        ground (arith, eq_refl c.snapshot_hash),
        refl,
        refl,
        All-upsert row db.mission_checkpoints (sym versions) aligned,
      )

  kept_row-HasRow :
      (row : CheckpointRow)
      → find_first (is_checkpoint_of c.mission_id) db.mission_checkpoints ≡ some row
      → (row.aggregate_version == c.aggregate_version) ≡ true
      → is_same_content row c json ≡ true
      → HasRow db c json db
  kept_row-HasRow row found same content =
      let (own, mission) = All-find_first c.mission_id db.mission_checkpoints row aligned found in
      let hash = (eq_iff row.snapshot_hash c.snapshot_hash).0 (ground arith) in
      let fits : fits_columns row c ≡ true =
        rw hash (ground (arith, eq_refl c.snapshot_hash, own, versions, same)) in
      (row, found, mission, fits, (eq_iff row.checkpoint_json json).0 (ground arith), refl, aligned)

  pub save_row-HasRow :
      (existing : Option CheckpointRow) {after : CheckpointDb}
      → find_first (is_checkpoint_of c.mission_id) db.mission_checkpoints ≡ existing
      → save_row db c json saved_at existing ≡ ok after
      → HasRow db c json after
  save_row-HasRow none found h = subst (HasRow db c json) (result_ok h) write_checkpoint-HasRow
  save_row-HasRow (some row) {after} found h =
      let regression = leb row.aggregate_version c.aggregate_version in
      let (_, _, h1) = >>=-eq-ok (guard regression (stored conflict)) _ h in
      let same = row.aggregate_version == c.aggregate_version in
      let keep : Result CheckpointStoreError CheckpointDb =
        guard (is_same_content row c json) (stored conflict) >> ok db in
      let write : Result CheckpointStoreError CheckpointDb =
        ok (write_checkpoint db c json saved_at) in
      elim (Bool-cases same) [
        | inl e ↦
            let h2 = subst (λ (b : Bool). (if b then keep else write) ≡ ok after) e h1 in
            let (_, content, h3) =
              >>=-eq-ok (guard (is_same_content row c json) (stored conflict)) _ h2 in
            subst (HasRow db c json) (result_ok h3) (
              kept_row-HasRow row found e
                (guard-ok (is_same_content row c json) (stored conflict) content))
        | inr e ↦
            let h2 = subst (λ (b : Bool). (if b then keep else write) ≡ ok after) e h1 in
            subst (HasRow db c json) (result_ok h2) write_checkpoint-HasRow
      ]
