-- ===== src/Mission/History.antt =====
-- What a stream of events says of the snapshot that it replays to.
use odin_agent.Prelude.{
  ℕ, suc, ◌+◌, ◌≡◌, ap, false, List, [], ◌∷◌, ◌++◌, String, str_eq, eq_iff, arith, lookup,
  lookup-insert, length, length-append, ok, if◌then◌else◌,
}
use odin_agent.Mission.Snapshot.{
  MissionCreateInput, MissionEventData, mission_created, mission_transitioned, task_status_changed,
  budget_debited, failure_recorded, MissionSnapshot, failure_count, is_object_member,
  initial_snapshot, apply_event,
}
use odin_agent.Mission.Applied.{
  apply-transitioned, apply-status_changed, apply-debited, apply-failure,
}
use odin_agent.Mission.Invariant.{initial_snapshot-ok}
use odin_agent.Mission.Project.{MissionEvent, project_mission}
use odin_agent.Mission.Project.Induction.{project_mission-ind}

apply-version :
    (s : MissionSnapshot) (d : MissionEventData) (version : ℕ) (t : MissionSnapshot)
    → apply_event s d version ≡ ok t
    → (t.version ≡ version)
      × (t.id ≡ s.id)
      × (t.tasks ≡ s.tasks)
      × (t.budget_limits ≡ s.budget_limits)
unfolding apply_event
apply-version s (mission_created input) version t h = absurd (cc)
apply-version s (mission_transitioned from to) version t h =
    ground (arith, (apply-transitioned s from to version t h).2)
apply-version s (task_status_changed id status) version t h =
    let (current, _, _, _, same) = apply-status_changed s id status version t h in ground arith
apply-version s (budget_debited delta) version t h =
    let (checked, _, same) = apply-debited s delta version t h in ground arith
apply-version s (failure_recorded signature) version t h =
    ground (arith, apply-failure s signature version t h)

-- The version of a projection is the number of its events.
pub version-project_mission :
    (events : List MissionEvent) (s : MissionSnapshot)
    → project_mission events ≡ ok s
    → s.version ≡ length events
version-project_mission =
    project_mission-ind (λ es s. s.version ≡ length es)
      (λ e input s _ _ h.
        let (limits, tasks, _, _, same) = initial_snapshot-ok input 1 s h in ground arith)
      (λ es s e t _ h.
        omega
          (arith, (apply-version s e.content (suc (length es)) t h).0, length-append es (e ∷ [])))

-- How often a stream records a failure with a signature.
abbrev records_failure : String → MissionEvent → ℕ
records_failure signature e = elim e.content [
  | failure_recorded s ↦ if str_eq s signature then 1 else 0
  | _ ↦ 0
]

unfoldable pub failures_in : String → List MissionEvent → ℕ
failures_in signature [] = 0
failures_in signature (e ∷ es) = records_failure signature e + failures_in signature es

failures_in-append :
    (k : String) (es fs : List MissionEvent)
    → failures_in k (es ++ fs) ≡ failures_in k es + failures_in k fs
unfolding failures_in
failures_in-append k [] fs = omega arith
failures_in-append k (e ∷ es) fs = omega (arith, failures_in-append k es fs)

apply-failure_count :
    (s : MissionSnapshot) (e : MissionEvent) (version : ℕ) (t : MissionSnapshot) (k : String)
    → apply_event s e.content version ≡ ok t
    → failure_count t k ≡ failure_count s k + records_failure k e
apply-failure_count s e version t k h = by_event e.content h
  where
    by_event :
        (d : MissionEventData)
        → apply_event s d version ≡ ok t
        → failure_count t k
          ≡ failure_count s k
            + (elim d [ failure_recorded f ↦ if str_eq f k then 1 else 0 | _ ↦ 0 ])
    by_event (mission_created input) q = absurd (unfold apply_event in cc q)
    by_event (mission_transitioned from to) q =
        let (_, _, same) = apply-transitioned s from to version t q in
        omega (arith, ap (λ (x : MissionSnapshot). failure_count x k) same)
    by_event (task_status_changed id status) q =
        let (_, _, _, _, same) = apply-status_changed s id status version t q in
        omega (arith, ap (λ (x : MissionSnapshot). failure_count x k) same)
    by_event (budget_debited delta) q =
        let (_, _, same) = apply-debited s delta version t q in
        omega (arith, ap (λ (x : MissionSnapshot). failure_count x k) same)
    by_event (failure_recorded f) q = ground (
      arith,
      apply-failure s f version t q,
      lookup-insert f k (failure_count s f + 1) s.failure_counts,
      eq_iff f k,
    )

-- In a projection the count of a failure signature that is not the name of a member of Object.prototype
-- is the number of failures that the stream records with it.
pub failure_count-project_mission :
    (k : String) (events : List MissionEvent) (s : MissionSnapshot)
    → is_object_member k ≡ false
    → project_mission events ≡ ok s
    → failure_count s k ≡ failures_in k events
unfolding failures_in lookup
failure_count-project_mission k events s _ =
    project_mission-ind (λ es s. failure_count s k ≡ failures_in k es)
      (λ e input s made _ h. first e input s made h)
      (λ es s e t ih h. omega (
        arith,
        ih,
        apply-failure_count s e (suc (length es)) t k h,
        failures_in-append k es (e ∷ []),
      ))
      events s
  where
    first :
        (e : MissionEvent) (input : MissionCreateInput) (s : MissionSnapshot)
        → e.content ≡ mission_created input
        → initial_snapshot input 1 ≡ ok s
        → failure_count s k ≡ failures_in k (e ∷ [])
    first e input s made h =
        let (limits, tasks, _, _, same) = initial_snapshot-ok input 1 s h in ground arith
