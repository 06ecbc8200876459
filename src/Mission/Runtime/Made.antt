-- ===== src/Mission/Runtime/Made.antt =====
-- Every batch that a method of MissionRuntime makes is sound for the stream that it was made from.
use odin_agent.Prelude.{
  ℕ, suc, ◌+◌, ◌≡◌, refl, sym, subst, true, false, inl, inr, Bool-cases, List, [], ◌∷◌, String,
  arith, length, insert, ok, Result-cases, leb,
}
use odin_agent.Prelude.Text.{is_blank}
use odin_agent.Prelude.Number.{Number, nat, equals_nat}
use odin_agent.Events.{stream}
use odin_agent.Mission.State.{MissionState, TaskStatus}
use odin_agent.Mission.Budget.{BudgetCounters}
use odin_agent.Mission.Snapshot.{
  MissionCreateInput, MissionSnapshot, MissionEventData, mission_created, failure_recorded,
  initial_snapshot, apply_event, transition_event, task_status_event, budget_debit_event,
  failure_count, assert_failure_policy,
}
use odin_agent.Mission.History.{version-project_mission}
use odin_agent.Mission.Runtime.{
  Store, Item, item_at, Batch, Call, create, transition, set_task_status, debit_budget,
  record_failure, load_at, prepare, prepare_create, prepare_transition, prepare_task_status,
  prepare_debit, prepare_failure, failure_items,
}
use odin_agent.Mission.Runtime.Batches.{
  Sound, founds, extends, apply_items, load_at-ok, transition_event-applies,
  task_status_event-applies, budget_debit_event-applies,
}

abbrev batch : String → Number → String → List Item → Batch
batch id v key items = record { mission_id = id; expected_version = v; key = key; items = items }

extends-loaded :
    (s : Store) (id : String) (v : Number) (key : String) (items : List Item) (m : MissionSnapshot)
    → load_at s id v ≡ ok m
    → ((n : ℕ) → (t : MissionSnapshot) × (apply_items m n items ≡ ok t))
    → Sound (stream s id) (batch id v key items)
extends-loaded s id v key items m loaded run =
    let (replayed, current) = load_at-ok s id v m loaded in
    let (t, applied) = run (length (stream s id)) in
    extends m t (length (stream s id)) replayed refl
      (subst (λ n. equals_nat v n ≡ true) (version-project_mission (stream s id) m replayed)
        current)
      applied

one_event :
    (m : MissionSnapshot) (d : MissionEventData) (now : String)
    → ((version : ℕ) → (t : MissionSnapshot) × (apply_event m d version ≡ ok t))
    → (n : ℕ) → (t : MissionSnapshot) × (apply_items m n (item_at now d ∷ []) ≡ ok t)
unfolding apply_items
one_event m d now applies n = let (t, p) = applies (suc n) in (t, rw p)

abbrev after_failure : MissionSnapshot → String → ℕ → MissionSnapshot
after_failure m sig version = record m {
  failure_counts = insert sig (failure_count m sig + 1) m.failure_counts;
  version = version;
}

failure_items-applies :
    (m : MissionSnapshot) (sig : String) (limit : ℕ) (now later : String) (items : List Item)
    → is_blank sig ≡ false
    → failure_items m sig limit now later ≡ ok items
    → (n : ℕ) → (t : MissionSnapshot) × (apply_items m n items ≡ ok t)
unfolding failure_items apply_items apply_event transition_event
failure_items-applies m sig limit now later items named h n =
    elim (Bool-cases (leb limit (failure_count m sig + 1))) [
      | inr more ↦
          let made : items ≡ item_at now (failure_recorded sig) ∷ [] = ground arith in
          subst (λ xs. (t : MissionSnapshot) × (apply_items m n xs ≡ ok t)) (sym made)
            (after_failure m sig (suc n), rw named)
      | inl spent ↦ elim (Result-cases (transition_event m MissionState.failed)) [
        | inr (e, p) ↦ absurd (ground arith)
        | inl (d, p) ↦
            let made : items ≡ item_at now (failure_recorded sig) ∷ item_at later d ∷ [] =
              ground arith in
            let (t, q) =
              transition_event-applies (after_failure m sig (suc n)) MissionState.failed d
                (suc (suc n)) p in
            subst (λ xs. (t : MissionSnapshot) × (apply_items m n xs ≡ ok t)) (sym made)
              (t, rw (named, q))
      ]
    ]

prepare_create-Sound :
    (s : Store) (input : MissionCreateInput) (key now : String) (b : Batch)
    → prepare_create input key now ≡ ok b
    → Sound (stream s b.mission_id) b
unfolding prepare_create
prepare_create-Sound s input key now b h = elim (Result-cases (initial_snapshot input 0)) [
  | inr (e, p) ↦ absurd (ground arith)
  | inl (m, p) ↦
      let made : b ≡ batch input.id (nat 0) key (item_at now (mission_created input) ∷ []) =
        ground arith in
      subst (λ x. Sound (stream s x.mission_id) x) (sym made) (founds input now m refl refl refl p)
]

prepare_transition-Sound :
    (s : Store) (id : String) (v : Number) (to : MissionState) (key now : String) (b : Batch)
    → prepare_transition s id v to key now ≡ ok b
    → Sound (stream s b.mission_id) b
unfolding prepare_transition
prepare_transition-Sound s id v to key now b h = elim (Result-cases (load_at s id v)) [
  | inr (e, p) ↦ absurd (ground arith)
  | inl (m, p) ↦ elim (Result-cases (transition_event m to)) [
    | inr (e, q) ↦ absurd (ground arith)
    | inl (d, q) ↦
        let made : b ≡ batch id v key (item_at now d ∷ []) = ground arith in
        subst (λ x. Sound (stream s x.mission_id) x) (sym made)
          (extends-loaded s id v key _ m p
            (one_event m d now (λ version. transition_event-applies m to d version q)))
  ]
]

prepare_task_status-Sound :
    (s : Store) (id : String) (v : Number) (task : String) (status : TaskStatus) (key now : String)
    (b : Batch)
    → prepare_task_status s id v task status key now ≡ ok b
    → Sound (stream s b.mission_id) b
unfolding prepare_task_status
prepare_task_status-Sound s id v task status key now b h = elim (Result-cases (load_at s id v)) [
  | inr (e, p) ↦ absurd (ground arith)
  | inl (m, p) ↦ elim (Result-cases (task_status_event m task status)) [
    | inr (e, q) ↦ absurd (ground arith)
    | inl (d, q) ↦
        let made : b ≡ batch id v key (item_at now d ∷ []) = ground arith in
        subst (λ x. Sound (stream s x.mission_id) x) (sym made)
          (extends-loaded s id v key _ m p
            (one_event m d now (λ version. task_status_event-applies m task status d version q)))
  ]
]

prepare_debit-Sound :
    (s : Store) (id : String) (v : Number) (delta : BudgetCounters) (key now : String) (b : Batch)
    → prepare_debit s id v delta key now ≡ ok b
    → Sound (stream s b.mission_id) b
unfolding prepare_debit
prepare_debit-Sound s id v delta key now b h = elim (Result-cases (load_at s id v)) [
  | inr (e, p) ↦ absurd (ground arith)
  | inl (m, p) ↦ elim (Result-cases (budget_debit_event m delta)) [
    | inr (e, q) ↦ absurd (ground arith)
    | inl (d, q) ↦
        let made : b ≡ batch id v key (item_at now d ∷ []) = ground arith in
        subst (λ x. Sound (stream s x.mission_id) x) (sym made)
          (extends-loaded s id v key _ m p
            (one_event m d now (λ version. budget_debit_event-applies m delta d version q)))
  ]
]

policy-named :
    (sig : String) (max : Number) (limit : ℕ)
    → assert_failure_policy sig max ≡ ok limit
    → is_blank sig ≡ false
unfolding assert_failure_policy
policy-named sig max limit h = ground arith

prepare_failure-Sound :
    (s : Store) (id : String) (v : Number) (sig : String) (max : Number) (key now later : String)
    (b : Batch)
    → prepare_failure s id v sig max key now later ≡ ok b
    → Sound (stream s b.mission_id) b
unfolding prepare_failure
prepare_failure-Sound s id v sig max key now later b h = elim (Result-cases (load_at s id v)) [
  | inr (e, p) ↦ absurd (ground arith)
  | inl (m, p) ↦ elim (Result-cases (assert_failure_policy sig max)) [
    | inr (e, q) ↦ absurd (ground arith)
    | inl (limit, q) ↦ elim (Result-cases (failure_items m sig limit now later)) [
      | inr (e, r) ↦ absurd (ground arith)
      | inl (items, r) ↦
          let made : b ≡ batch id v key items = ground arith in
          subst (λ x. Sound (stream s x.mission_id) x) (sym made)
            (extends-loaded s id v key items m p
              (failure_items-applies m sig limit now later items (policy-named sig max limit q) r))
    ]
  ]
]

pub prepare-Sound :
    (s : Store) (c : Call) (b : Batch) → prepare s c ≡ ok b → Sound (stream s b.mission_id) b
unfolding prepare
prepare-Sound s (create input key now) b h = prepare_create-Sound s input key now b h
prepare-Sound s (transition id v to key now) b h = prepare_transition-Sound s id v to key now b h
prepare-Sound s (set_task_status id v task status key now) b h =
    prepare_task_status-Sound s id v task status key now b h
prepare-Sound s (debit_budget id v delta key now) b h = prepare_debit-Sound s id v delta key now b h
prepare-Sound s (record_failure id v sig max key now later) b h =
    prepare_failure-Sound s id v sig max key now later b h
