-- ===== src/Durable/Reads/Pages.antt =====
-- src/durable/store.ts: the page of job events that readJobEvents returns.
use odin_agent.Prelude.{
  ℕ, suc, ◌-◌, ◌≤◌, ◌≡◌, refl, ap, subst, inl, inr, Bool-cases, List, [], ◌∷◌, String, str_eq,
  eq_iff, arith, leb, select, length, All, ok, guard, guard-ok, result_ok, >>=-eq-ok, map_result,
}
use odin_agent.Prelude.Number.{max_safe}
use odin_agent.Durable.Types.{type_error, corruption, is_identifier, is_between}
use odin_agent.Durable.Rows.{Db, JobEventRow}
use odin_agent.Durable.Jobs.{Platform}
use odin_agent.Durable.Reads.{
  JobLifecycleEvent, numbered, take, is_after, is_well_formed, decode_job_event_row,
  read_job_events,
}

abbrev IsLater : ℕ → ℕ × JobEventRow → Type 0
IsLater after entry = suc after ≤ entry.0

select-IsLater :
    (mission_id : String) (after : ℕ) (entries : List (ℕ × JobEventRow))
    → All (IsLater after) (select (is_after mission_id after) entries)
select-IsLater mission_id after [] = tt
select-IsLater mission_id after (entry ∷ entries) =
    let rest = select-IsLater mission_id after entries in
    elim (Bool-cases (is_after mission_id after entry)) [
      | inl e ↦ rw e (ground arith, rest)
      | inr e ↦ rw e rest
    ]

take-IsLater :
    (after n : ℕ) (entries : List (ℕ × JobEventRow))
    → All (IsLater after) entries
    → All (IsLater after) (take n entries) × (length (take n entries) ≤ n)
take-IsLater after n [] h = (tt, omega arith)
take-IsLater after n (entry ∷ entries) h =
    let rest = take-IsLater after (n - 1) entries h.1 in
    elim (Bool-cases (leb n 0)) [
      | inl e ↦ rw e (tt, omega arith)
      | inr e ↦ rw e ((h.0, rest.0), ground (arith, rest.1, e))
    ]

module _ (p : Platform) (mission_id : String) (after : ℕ) where
  -- The event comes after the cursor, is of the mission, and has its own hash.
  abbrev pub IsRead : JobLifecycleEvent → Type 0
  IsRead e =
      (suc after ≤ e.cursor)
      × (e.event.mission_id ≡ mission_id)
      × (p.event_hash e.event ≡ e.event_hash)

  decode_job_event_row-IsRead :
      (entry : ℕ × JobEventRow) {e : JobLifecycleEvent}
      → IsLater after entry
      → decode_job_event_row p mission_id entry ≡ ok e
      → IsRead e
  unfolding decode_job_event_row
  decode_job_event_row-IsRead entry later h =
      let row = entry.1 in
      let mission = str_eq row.event.mission_id mission_id in
      let (_, m, h1) = >>=-eq-ok (guard mission corruption) _ h in
      let (_, _, h2) = >>=-eq-ok (guard (is_well_formed row) corruption) _ h1 in
      let hashed = str_eq (p.event_hash row.event) row.event_hash in
      let (_, k, h3) = >>=-eq-ok (guard hashed corruption) _ h2 in
      subst IsRead (result_ok h3) (
        later,
        (eq_iff row.event.mission_id mission_id).0 (guard-ok mission corruption m),
        (eq_iff (p.event_hash row.event) row.event_hash).0 (guard-ok hashed corruption k),
      )

  map_result-IsRead :
      (entries : List (ℕ × JobEventRow)) (events : List JobLifecycleEvent)
      → All (IsLater after) entries
      → map_result (decode_job_event_row p mission_id) entries ≡ ok events
      → All IsRead events × (length events ≡ length entries)
  map_result-IsRead [] events later h =
      subst (λ (es : List JobLifecycleEvent). All IsRead es × (length es ≡ 0)) (result_ok h)
        (tt, refl)
  map_result-IsRead (entry ∷ entries) events later h =
      let (e, first, h1) = >>=-eq-ok (decode_job_event_row p mission_id entry) _ h in
      let (es, more, h2) =
        >>=-eq-ok (map_result (decode_job_event_row p mission_id) entries) _ h1 in
      let rest = map_result-IsRead entries es later.1 more in
      subst (λ (es : List JobLifecycleEvent). All IsRead es × (length es ≡ suc (length entries)))
        (result_ok h2) ((decode_job_event_row-IsRead entry later.0 first, rest.0), ap suc rest.1)

  -- A page of job events has at most `limit` events, and each comes after the cursor, is of the mission that
  -- was asked for, and carries the hash of its content.
  pub read_job_events-IsRead :
      (max_page : ℕ) (db : Db) (limit : ℕ) (events : List JobLifecycleEvent)
      → read_job_events p max_page db mission_id after limit ≡ ok events
      → (length events ≤ limit) × All IsRead events
  unfolding read_job_events
  read_job_events-IsRead max_page db limit events h =
      let (_, _, h1) = >>=-eq-ok (guard (is_identifier 200 mission_id) type_error) _ h in
      let (_, _, h2) = >>=-eq-ok (guard (leb after max_safe) type_error) _ h1 in
      let (_, _, h3) = >>=-eq-ok (guard (is_between 1 max_page limit) type_error) _ h2 in
      let entries = select (is_after mission_id after) (numbered 1 db.job_events) in
      let page =
        take-IsLater after limit entries
          (select-IsLater mission_id after (numbered 1 db.job_events)) in
      let read = map_result-IsRead (take limit entries) events page.0 h3 in
      (ground (arith, read.1, page.1), read.0)
