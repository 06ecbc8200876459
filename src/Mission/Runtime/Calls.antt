-- ===== src/Mission/Runtime/Calls.antt =====
-- A whole call of a MissionRuntime (src/mission/runtime.ts) on a store whose streams replay.
use odin_agent.Prelude.{
  ◌≡◌, ◌≢◌, refl, sym, ap, ◌∙◌, Bool, false, inl, inr, ℕ, List, [], ◌∷◌, ◌++◌, String, arith,
  length, length-append, eq_refl, ok, err, Result-cases,
}
use odin_agent.Prelude.Text.{is_blank}
use odin_agent.Events.{stream, load, append, number_events, write_batch}
use odin_agent.Events.Laws.{append-cases, append-guards, length-number_events, stream-write_batch}
use odin_agent.Mission.Snapshot.{MissionSnapshot}
use odin_agent.Mission.Project.{MissionEvent, project_mission}
use odin_agent.Mission.Invariant.{IsValid, project_mission-IsValid}
use odin_agent.Mission.History.{version-project_mission}
use odin_agent.Mission.Runtime.{
  Store, Item, Batch, Call, RuntimeError, reload, load_mission, prepare, commit, commit_made,
  run_call,
}
use odin_agent.Mission.Runtime.Batches.{IsHealthy}
use odin_agent.Mission.Runtime.Consistency.{IsConsistent, IsDue, append-IsConsistent}
use odin_agent.Mission.Runtime.Interleaving.{System, Reach, Reach-IsSound, IsDue-now}

healthy_replays :
    (id : String) (es : List MissionEvent)
    → IsHealthy id es
    → length es ≢ 0
    → (m : MissionSnapshot) × (project_mission es ≡ ok m)
healthy_replays id [] h some = absurd (some refl)
healthy_replays id (e ∷ es) h some = (h.last, h.replay)

consistent_loads :
    (s : Store) (id : String)
    → IsConsistent s
    → is_blank id ≡ false
    → length (stream s id) ≢ 0
    → (m : MissionSnapshot) × (load_mission s id ≡ ok m) × (project_mission (stream s id) ≡ ok m)
unfolding load_mission load
consistent_loads s id c named some =
    let (m, replay) = healthy_replays id (stream s id) (c id) some in
    (m, rw (named, replay), replay)

module _ (parses : String → Bool) (fingerprint : List Item → String) where
  -- In every store that interleaved calls can reach, a mission with an event and an id that is not
  -- blank loads: its snapshot is well formed and its version is the number of its events.
  pub Reach-load :
      (y : System)
      → Reach parses fingerprint y
      → (id : String) → is_blank id ≡ false
      → length (stream y.store id) ≢ 0
      → (m : MissionSnapshot) × (load_mission y.store id ≡ ok m)
        × IsValid m
        × (m.version ≡ length (stream y.store id))
  Reach-load y r id named some =
      let sound = Reach-IsSound parses fingerprint y r in
      let (m, loads, replay) = consistent_loads y.store id sound.replays named some in
      (
        m,
        loads,
        project_mission-IsValid (stream y.store id) m replay,
        version-project_mission (stream y.store id) m replay,
      )

  written_loads :
      (s : Store) (b : Batch) (n : ℕ) (s' : Store)
      → IsConsistent s'
      → s' ≡ write_batch s b.mission_id b.key (fingerprint b.items) n b.items
      → is_blank b.mission_id ≡ false
      → length b.items ≢ 0
      → (m : MissionSnapshot) × (load_mission s' b.mission_id ≡ ok m)
  written_loads s b n s' c written named some =
      let extended : stream s' b.mission_id
          ≡ stream s b.mission_id ++ number_events b.mission_id b.key n b.items =
        ap (λ (x : Store). stream x b.mission_id) written
        ∙ stream-write_batch s b.mission_id b.key (fingerprint b.items) n b.items b.mission_id
        ∙ rw (eq_refl b.mission_id) in
      let (m, loads, _) =
        consistent_loads s' b.mission_id c named (λ none. some (no_item extended none)) in
      (m, loads)
    where
      no_item :
          stream s' b.mission_id
            ≡ stream s b.mission_id ++ number_events b.mission_id b.key n b.items
          → length (stream s' b.mission_id) ≡ 0
          → length b.items ≡ 0
      no_item extended none = omega (
        arith,
        ap (length {A = MissionEvent}) extended,
        none,
        length-append (stream s b.mission_id) (number_events b.mission_id b.key n b.items),
        length-number_events b.mission_id b.key n b.items,
      )

  commit-unchanged :
      (s : Store) (b : Batch) (e : RuntimeError)
      → IsConsistent s
      → IsDue s b
      → (commit parses fingerprint s b).1 ≡ err e
      → (commit parses fingerprint s b).0 ≡ s
  unfolding commit
  commit-unchanged s b e c due h =
      elim (Result-cases
        (append parses fingerprint s b.mission_id b.expected_version b.key b.items)) [
          | inr (x, p) ↦ ap (λ r. (reload s b.mission_id r).0) p
          | inl (w, p) ↦
              elim (append-cases parses fingerprint s b.mission_id b.expected_version b.key b.items
                w.0 w.1 p) [
                  | inl (_, _, _, _, same) ↦ ap (λ r. (reload s b.mission_id r).0) p ∙ same
                  | inr (n, _, _, _, _, written) ↦
                      let (named, some) =
                        append-guards parses fingerprint s b.mission_id b.expected_version b.key
                          b.items w p in
                      let (m, loads) =
                        written_loads s b n w.0
                          (append-IsConsistent parses fingerprint s b w.0 w.1 c due p) written named
                          some in
                      let failed : load_mission w.0 b.mission_id ≡ err e =
                        sym (ap (λ r. (reload s b.mission_id r).1) p) ∙ h in
                      absurd (cc (loads, failed))
                ]
        ]

  -- A call that ends in an error has left the store as it was, if the store's streams replay.
  pub run_call-unchanged :
      (s : Store) (c : Call) (e : RuntimeError)
      → IsConsistent s
      → (run_call parses fingerprint s c).1 ≡ err e
      → (run_call parses fingerprint s c).0 ≡ s
  unfolding run_call
  run_call-unchanged s c e consistent h = elim (Result-cases (prepare s c)) [
    | inr (x, p) ↦ ap (λ r. (commit_made parses fingerprint s r).0) p
    | inl (b, p) ↦
        ap (λ r. (commit_made parses fingerprint s r).0) p
        ∙ commit-unchanged s b e consistent (IsDue-now s c b p)
            (sym (ap (λ r. (commit_made parses fingerprint s r).1) p) ∙ h)
  ]
