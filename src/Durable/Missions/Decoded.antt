-- ===== src/Durable/Missions/Decoded.antt =====
-- src/durable/store.ts: what decodeEventRows does with the rows of a mission.
use odin_agent.Prelude.{
  ℕ, suc, ◌+◌, ◌≤◌, ◌≡◌, refl, subst, List, [], ◌∷◌, ◌++◌, String, arith, length, All, All-widen,
  ok, guard, >>=-eq-ok, bind_ok, guard-ok, result_ok,
}
use odin_agent.Mission.Snapshot.{MissionEventData}
use odin_agent.Events.{StoredEvent}
use odin_agent.Durable.Types.{corruption}
use odin_agent.Durable.Missions.{
  Texts, EventLimits, EventRow, is_row_at, decode_event_row, decode_event_rows,
}

module _ (texts : Texts) (limits : EventLimits) (m : String) where
  abbrev pub Decoded : ℕ → List EventRow → List (StoredEvent MissionEventData) → Type 0
  Decoded n rows events = decode_event_rows texts limits m n rows ≡ ok events

  row_sequence :
      (n : ℕ) (row : EventRow) {event : StoredEvent MissionEventData}
      → decode_event_row texts limits m n row ≡ ok event
      → row.sequence ≡ n
  unfolding decode_event_row
  row_sequence n row h =
      let (_, e, _) = >>=-eq-ok (guard (is_row_at m n row) corruption) _ h in
      let t = guard-ok (is_row_at m n row) corruption e in ground arith

  -- The sequence numbers of decoded rows end below the next one.
  pub Decoded-below :
      (n : ℕ) (rows : List EventRow) (events : List (StoredEvent MissionEventData))
      → Decoded n rows events
      → All (λ row. suc row.sequence ≤ n + length rows) rows
  unfolding decode_event_rows
  Decoded-below n [] events h = tt
  Decoded-below n (row ∷ rows) events h =
      let (event, e, h1) = >>=-eq-ok (decode_event_row texts limits m n row) _ h in
      let (more, rest, _) = >>=-eq-ok (decode_event_rows texts limits m (suc n) rows) _ h1 in
      let s = row_sequence n row e in
      (
        ground (arith, s),
        All-widen (λ r. suc r.sequence ≤ suc n + length rows)
            (λ r. suc r.sequence ≤ n + suc (length rows)) rows (λ r k. omega arith)
            (Decoded-below (suc n) rows more rest),
      )

  pub Decoded-append :
      (n : ℕ) (xs ys : List EventRow) (before after : List (StoredEvent MissionEventData))
      → Decoded n xs before
      → Decoded (n + length xs) ys after
      → Decoded n (xs ++ ys) (before ++ after)
  unfolding decode_event_rows
  Decoded-append n [] ys before after h k =
      let nothing : [] ≡ before = result_ok h in
      subst (λ (es : List (StoredEvent MissionEventData)). Decoded n ys (es ++ after)) nothing
        (subst (λ (i : ℕ). Decoded i ys after) (omega arith) k)
  Decoded-append n (x ∷ xs) ys before after h k =
      let (event, e, h1) = >>=-eq-ok (decode_event_row texts limits m n x) _ h in
      let (more, rest, h2) = >>=-eq-ok (decode_event_rows texts limits m (suc n) xs) _ h1 in
      let next : Decoded (suc n + length xs) ys after =
        subst (λ (i : ℕ). Decoded i ys after) (omega arith) k in
      subst (λ (es : List (StoredEvent MissionEventData)). Decoded n (x ∷ xs ++ ys) (es ++ after))
        (result_ok h2)
        (bind_ok (decode_event_row texts limits m n x) _ e (
          bind_ok (decode_event_rows texts limits m (suc n) (xs ++ ys)) _
            (Decoded-append (suc n) xs ys more after rest next) refl))
