-- ===== src/Mission/Runtime/Consistency.antt =====
-- However the calls of a MissionRuntime interleave, each mission's stream replays.
use mathlib.Core.List.{append-nil}
use odin_agent.Prelude.{
  ℕ, ◌≡◌, refl, sym, ap, ◌∙◌, subst, Bool, true, false, inl, inr, Bool-cases, some, List, [], ◌∷◌,
  ◌++◌, String, arith, length, length-append, str_eq, eq_iff, ok, Result-cases, if◌then◌else◌,
}
use odin_agent.Prelude.Number.{Number, int, pos, negsuc, other, safe_nat, equals_nat}
use odin_agent.Events.{stream, number_events, write_batch, append}
use odin_agent.Events.Laws.{append-cases, stream-write_batch}
use odin_agent.Mission.Graph.{validate_task_graph}
use odin_agent.Mission.Budget.{assert_counters}
use odin_agent.Mission.Snapshot.{
  MissionCreateInput, MissionSnapshot, mission_created, initial_snapshot,
}
use odin_agent.Mission.Project.{MissionEvent, project_first, project_rest, project_mission}
use odin_agent.Mission.Runtime.{Store, Item, item_at, Batch}
use odin_agent.Mission.Runtime.Batches.{
  Sound, founds, extends, IsHealthy, apply_items, project_mission-extend,
}

-- Every stream of a store replays.
abbrev pub IsConsistent : Store → Type 0
IsConsistent s = (id : String) → IsHealthy id (stream s id)

-- A batch that was sound when it was made, for a stream that has only grown since.
pub record IsDue (s : Store) (b : Batch) : Type 0 where
  pub seen : List MissionEvent
  pub grown : List MissionEvent
  pub now : stream s b.mission_id ≡ seen ++ grown
  pub sound : Sound seen b

equals_nat-eq : (v : Number) (n m : ℕ) → equals_nat v n ≡ true → safe_nat v ≡ some m → m ≡ n
unfolding equals_nat safe_nat
equals_nat-eq (int (pos k)) n m h p = ground arith
equals_nat-eq (int (negsuc k)) n m h p = absurd (cc)
equals_nat-eq other n m h p = absurd (cc)

grown-nil : (xs ys : List MissionEvent) → length (xs ++ ys) ≡ length xs → ys ≡ []
grown-nil xs [] h = refl
grown-nil xs (y ∷ ys) h = absurd (omega (arith, length-append xs (y ∷ ys)))

initial_again :
    (input : MissionCreateInput) (m : MissionSnapshot)
    → initial_snapshot input 0 ≡ ok m
    → initial_snapshot input 1 ≡ ok (record m { version = 1 })
unfolding initial_snapshot
initial_again input m h = elim (Result-cases (assert_counters input.budget_limits)) [
  | inr (e, p) ↦ absurd (ground arith)
  | inl (limits, p) ↦ elim (Result-cases (validate_task_graph input.tasks)) [
    | inr (e, q) ↦ absurd (ground arith)
    | inl (tasks, q) ↦ ground arith
  ]
]

-- The stream of a mission that a batch founds.
founded :
    (id key now : String) (input : MissionCreateInput) (m : MissionSnapshot)
    → input.id ≡ id
    → initial_snapshot input 0 ≡ ok m
    → IsHealthy id (number_events id key 0 (item_at now (mission_created input) ∷ []))
unfolding number_events project_mission project_first project_rest
founded id key now input m own made = record {
  owner = refl;
  last = record m { version = 1 };
  replay = ground (arith, eq_iff input.id id, initial_again input m made);
}

extend-IsHealthy :
    (es seen grown : List MissionEvent) (b : Batch) (n : ℕ)
    → IsHealthy b.mission_id es
    → es ≡ seen ++ grown
    → Sound seen b
    → safe_nat b.expected_version ≡ some n
    → length es ≡ n
    → IsHealthy b.mission_id (es ++ number_events b.mission_id b.key n b.items)
extend-IsHealthy [] seen grown b n healthy split (founds input now m items own zero made) p len =
    let start : n ≡ 0 = omega (arith, len) in
    subst (λ k. IsHealthy b.mission_id (number_events b.mission_id b.key k b.items)) (sym start)
      (subst (λ xs. IsHealthy b.mission_id (number_events b.mission_id b.key 0 xs)) (sym items)
        (founded b.mission_id b.key now input m own made))
extend-IsHealthy (e ∷ es) seen grown b n healthy split (founds input now m items own zero made) p
      len =
    absurd (unfold safe_nat in ground arith)
extend-IsHealthy es seen grown b n healthy split (extends m t k replay long current applied) p len =
    let at : n ≡ k = equals_nat-eq b.expected_version k n current p in
    let none_new =
      grown-nil seen grown (sym (ap (length {A = MissionEvent}) split) ∙ len ∙ at ∙ sym long) in
    let still : es ≡ seen = split ∙ ap (λ ys. seen ++ ys) none_new ∙ append-nil seen in
    resumed es n healthy (subst (λ xs. project_mission xs ≡ ok m) (sym still) replay) len
      (subst (λ j. apply_items m j b.items ≡ ok t) (sym at) applied)
  where
    resumed :
        (xs : List MissionEvent) (j : ℕ)
        → IsHealthy b.mission_id xs
        → project_mission xs ≡ ok m
        → length xs ≡ j
        → apply_items m j b.items ≡ ok t
        → IsHealthy b.mission_id (xs ++ number_events b.mission_id b.key j b.items)
    resumed [] j h q l a = absurd (unfold project_mission in cc q)
    resumed (x ∷ xs) j h q l a = record {
      owner = h.owner;
      last = t;
      replay = project_mission-extend x xs b.mission_id b.key j b.items m t h.owner l q a;
    }

module _ (parses : String → Bool) (fingerprint : List Item → String) where
  abbrev written_by : Store → Batch → ℕ → Store
  written_by s b n = write_batch s b.mission_id b.key (fingerprint b.items) n b.items

  own_stream :
      (s : Store) (b : Batch) (s' : Store) (n : ℕ) (id : String)
      → s' ≡ written_by s b n
      → str_eq b.mission_id id ≡ true
      → stream s' id ≡ stream s id ++ number_events b.mission_id b.key n b.items
  own_stream s b s' n id written own =
      ap (λ (x : Store). stream x id) written
      ∙ stream-write_batch s b.mission_id b.key (fingerprint b.items) n b.items id
      ∙ ap
          (λ t.
            if t
            then stream s b.mission_id ++ number_events b.mission_id b.key n b.items
            else stream s id)
          own
      ∙ ap (λ j. stream s j ++ number_events b.mission_id b.key n b.items)
          ((eq_iff b.mission_id id).0 own)

  foreign_stream :
      (s : Store) (b : Batch) (s' : Store) (n : ℕ) (id : String)
      → s' ≡ written_by s b n
      → str_eq b.mission_id id ≡ false
      → stream s' id ≡ stream s id
  foreign_stream s b s' n id written foreign =
      ap (λ (x : Store). stream x id) written
      ∙ stream-write_batch s b.mission_id b.key (fingerprint b.items) n b.items id
      ∙ ap
          (λ t.
            if t
            then stream s b.mission_id ++ number_events b.mission_id b.key n b.items
            else stream s id)
          foreign

  -- An append leaves each stream as it was, or adds to it.
  pub append-grows :
      (s : Store) (b : Batch) (s' : Store) (out : List MissionEvent)
      → append parses fingerprint s b.mission_id b.expected_version b.key b.items ≡ ok (s', out)
      → (id : String) → (more : List MissionEvent) × (stream s' id ≡ stream s id ++ more)
  append-grows s b s' out h id =
      elim (append-cases parses fingerprint s b.mission_id b.expected_version b.key b.items s' out
        h) [
          | inl (r, _, _, _, same) ↦
              ([], ap (λ (x : Store). stream x id) same ∙ sym (append-nil (stream s id)))
          | inr (n, _, _, _, _, written) ↦ elim (Bool-cases (str_eq b.mission_id id)) [
            | inl own ↦
                (number_events b.mission_id b.key n b.items, own_stream s b s' n id written own)
            | inr foreign ↦
                ([], foreign_stream s b s' n id written foreign ∙ sym (append-nil (stream s id)))
          ]
        ]

  pub append-IsConsistent :
      (s : Store) (b : Batch) (s' : Store) (out : List MissionEvent)
      → IsConsistent s
      → IsDue s b
      → append parses fingerprint s b.mission_id b.expected_version b.key b.items ≡ ok (s', out)
      → IsConsistent s'
  append-IsConsistent s b s' out c due h id =
      elim (append-cases parses fingerprint s b.mission_id b.expected_version b.key b.items s' out
        h) [
          | inl (r, _, _, _, same) ↦
              subst (λ (x : Store). IsHealthy id (stream x id)) (sym same) (c id)
          | inr (n, safe, _, len, _, written) ↦ elim (Bool-cases (str_eq b.mission_id id)) [
            | inl own ↦
                let same : b.mission_id ≡ id = (eq_iff b.mission_id id).0 own in
                subst (λ xs. IsHealthy id xs) (sym (own_stream s b s' n id written own))
                  (subst
                    (λ j. IsHealthy j (stream s j ++ number_events b.mission_id b.key n b.items))
                    same
                    (extend-IsHealthy (stream s b.mission_id) due.seen due.grown b n
                      (c b.mission_id) due.now due.sound safe len))
            | inr foreign ↦
                subst (λ xs. IsHealthy id xs) (sym (foreign_stream s b s' n id written foreign))
                  (c id)
          ]
        ]
