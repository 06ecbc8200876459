-- ===== src/Mission/Runtime/Batches.antt =====
-- Batches and streams: a batch that was made from a stream still replays when it is appended to it.
use odin_agent.Prelude.{
  ℕ, suc, ◌≡◌, refl, sym, subst, true, inl, inr, List, [], ◌∷◌, ◌++◌, String, eq_refl, arith,
  length, Result, ok, ◌>>=◌, Result-cases, insert,
}
use odin_agent.Prelude.Number.{Number, nat, equals_nat}
use odin_agent.Events.{stream, number_events, load}
use odin_agent.Mission.State.{
  MissionState, TaskStatus, MissionError, assert_transition, next_resume_state,
}
use odin_agent.Mission.Budget.{BudgetCounters, add_counters}
use odin_agent.Mission.Snapshot.{
  MissionCreateInput, MissionSnapshot, MissionEventData, mission_created, task_status_changed,
  budget_debited, initial_snapshot, apply_event, transition_event, task_status_event,
  budget_debit_event, budget_debit,
}
use odin_agent.Mission.Project.{MissionEvent, project_first, project_rest, project_mission}
use odin_agent.Mission.Project.Induction.{project_rest-append}
use odin_agent.Mission.Runtime.{Store, Item, item_at, Batch, load_mission, load_at}

-- The events of a batch, applied one after the other to a snapshot at version `n`.
unfoldable pub apply_items : MissionSnapshot → ℕ → List Item → Result MissionError MissionSnapshot
apply_items s n [] = ok s
apply_items s n (x ∷ xs) = apply_event s x.content (suc n) >>= λ t. apply_items t (suc n) xs

project_rest-number_events :
    (id key : String) (n : ℕ) (s : MissionSnapshot) (items : List Item)
    → project_rest id (suc n) s (number_events id key n items) ≡ apply_items s n items
unfolding project_rest number_events apply_items
project_rest-number_events id key n s [] = refl
project_rest-number_events id key n s (x ∷ xs) =
    elim (Result-cases (apply_event s x.content (suc n))) [
      | inr (e, p) ↦ ground (arith, eq_refl id)
      | inl (t, p) ↦ ground (arith, eq_refl id, project_rest-number_events id key (suc n) t xs)
    ]

-- A stream that replays, and a batch that applies to what it replays to.
pub project_mission-extend :
    (e : MissionEvent) (es : List MissionEvent) (id key : String) (n : ℕ) (items : List Item)
    (s t : MissionSnapshot)
    → e.mission_id ≡ id
    → length (e ∷ es) ≡ n
    → project_mission (e ∷ es) ≡ ok s
    → apply_items s n items ≡ ok t
    → project_mission ((e ∷ es) ++ number_events id key n items) ≡ ok t
unfolding project_mission
project_mission-extend e es id key n items s t same len h k =
    elim (Result-cases (project_first e.mission_id e.aggregate_version e.content)) [
      | inr (x, p) ↦ absurd (ground arith)
      | inl (u, p) ↦ ground (
        arith,
        project_rest-append e.mission_id 2 u es (number_events id key n items),
        project_rest-number_events id key n s items,
      )
    ]

-- What a batch says, as made from the stream `es` of its mission.
pub data Sound (es : List MissionEvent) (b : Batch) : Type 0 where
  founds :
      (input : MissionCreateInput) (now : String) (s : MissionSnapshot)
      → b.items ≡ item_at now (mission_created input) ∷ []
      → input.id ≡ b.mission_id
      → b.expected_version ≡ nat 0
      → initial_snapshot input 0 ≡ ok s
      → Sound es b
  extends :
      (s t : MissionSnapshot) (n : ℕ)
      → project_mission es ≡ ok s
      → length es ≡ n
      → equals_nat b.expected_version n ≡ true
      → apply_items s n b.items ≡ ok t
      → Sound es b

-- A mission's stream is empty, or it is the mission's own and replays.
pub record Replays (id : String) (e : MissionEvent) (es : List MissionEvent) : Type 0 where
  pub owner : e.mission_id ≡ id
  pub last : MissionSnapshot
  pub replay : project_mission (e ∷ es) ≡ ok last

abbrev pub IsHealthy : String → List MissionEvent → Type 0
IsHealthy id [] = Unit
IsHealthy id (e ∷ es) = Replays id e es

pub load_at-ok :
    (s : Store) (id : String) (v : Number) (m : MissionSnapshot)
    → load_at s id v ≡ ok m
    → (project_mission (stream s id) ≡ ok m) × (equals_nat v m.version ≡ true)
unfolding load_at load_mission load
load_at-ok s id v m h = elim (Result-cases (project_mission (stream s id))) [
  | inr (e, p) ↦ absurd (ground arith)
  | inl (u, p) ↦ (ground arith, ground arith)
]

abbrev after_transition : MissionSnapshot → MissionState → ℕ → MissionSnapshot
after_transition m to version = record m {
  resume_state = next_resume_state m.state m.resume_state to;
  state = to;
  version = version;
}

-- The event that a maker returns can be applied to the snapshot that it was made from.
pub transition_event-applies :
    (m : MissionSnapshot) (to : MissionState) (d : MissionEventData) (version : ℕ)
    → transition_event m to ≡ ok d
    → (t : MissionSnapshot) × (apply_event m d version ≡ ok t)
unfolding transition_event apply_event
transition_event-applies m to d version h =
    elim (Result-cases (assert_transition m.state m.resume_state to)) [
      | inr (e, p) ↦ absurd (ground arith)
      | inl (u, p) ↦ (after_transition m to version, ground arith)
    ]

pub task_status_event-applies :
    (m : MissionSnapshot) (id : String) (status : TaskStatus) (d : MissionEventData) (version : ℕ)
    → task_status_event m id status ≡ ok d
    → (t : MissionSnapshot) × (apply_event m d version ≡ ok t)
unfolding apply_event
task_status_event-applies m id status d version h =
    let made : d ≡ task_status_changed id status = unfold task_status_event in ground arith in
    subst (λ x. (t : MissionSnapshot) × (apply_event m x version ≡ ok t)) (sym made)
      (record m { task_statuses = insert id status m.task_statuses; version = version }, rw h)

pub budget_debit_event-applies :
    (m : MissionSnapshot) (delta : BudgetCounters) (d : MissionEventData) (version : ℕ)
    → budget_debit_event m delta ≡ ok d
    → (t : MissionSnapshot) × (apply_event m d version ≡ ok t)
unfolding apply_event budget_debit_event
budget_debit_event-applies m delta d version h = elim (Result-cases (budget_debit m delta)) [
  | inr (e, p) ↦ absurd (ground arith)
  | inl (c, p) ↦
      let made : d ≡ budget_debited delta = ground arith in
      subst (λ x. (t : MissionSnapshot) × (apply_event m x version ≡ ok t)) (sym made)
        (record m { budget_usage = add_counters m.budget_usage c; version = version }, rw p)
]
