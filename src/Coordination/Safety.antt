-- ===== src/Coordination/Safety.antt =====
-- src/coordination/coordinator.ts: the invariant of the leases, through every call.
pub mod Calls
pub mod Reach
use odin_agent.Prelude.{
  ℕ, suc, ◌≡◌, refl, sym, ap, ◌∙◌, subst, Bool, true, false, not, Option, none, some, List, [], ◌∷◌,
  ◌++◌, String, arith, Dict, lookup, insert, delete, values, ltb, leb, length, Result, ok, err,
  Result-cases, Option-cases, All, Bool-cases, inl, inr, if◌then◌else◌,
}
use odin_agent.Mission.Graph.{MissionTask}
use odin_agent.Mission.Snapshot.{MissionSnapshot}
use odin_agent.Coordination.Types.{
  OwnershipLease, SpecialistAssignment, SpecialistProfile, CoordinatorOptions, CoordinationPlan,
  CoordinationTaskSpec, CoordinationError, clock_backwards, not_reserved, type_error,
  released_during_execution,
}
use odin_agent.Coordination.Outcomes.{Hashed, TaskReconciliation, SpecialistEvidenceReference}
use odin_agent.Coordination.Registry.{SpecialistRegistry, register}
use odin_agent.Coordination.Registry.Keys.{IsKeyed, register-IsKeyed}
use odin_agent.Coordination.State.{
  Coordinator, Outcome, and_then, PlanRecord, PlanState, read_clock, is_released, is_same_lease,
  drop_leases, release_record, expire_each, expire_plans, prune_plan_records, prune_each,
  prune_result, advance, is_reserved, new_coordinator,
}
use odin_agent.Coordination.Planning.{Batch, Decision, defers, assigns, decide}
use odin_agent.Coordination.Planning.Fits.{decide-Fits}
use odin_agent.Coordination.Plans.{
  plan, plan_at, plan_pending, plan_tasks, record_plan, carry_out, reserve_assignment,
  check_mission, check_request, pending_tasks,
}
use odin_agent.Coordination.Execution.{
  WorkerEnd, proposes, times_out, throws, start_execution, start_at, start_found, start_reserved,
  start_checked, assert_authentic_plan, end_assignment, reconcile_end, finish_execution,
  finish_read, release_plan, release_found, release_live, active_leases, forget_controller,
  is_still_executing,
}
use odin_agent.Coordination.Leases.{AreSafe, AreSafe-delete}
use odin_agent.Coordination.Leases.Reserve.{reserve-AreSafe, register-AreSafe}

abbrev pub IsSafe : SpecialistRegistry → Coordinator → Type 0
IsSafe registry c = AreSafe registry c.options c.leases

module _ (registry : SpecialistRegistry) where
  if-IsSafe :
      (b : Bool) (c d : Coordinator)
      → IsSafe registry c
      → IsSafe registry d
      → IsSafe registry (if b then c else d)
  if-IsSafe true c d h k = h
  if-IsSafe false c d h k = k

  pub if-outcome :
      {A : Type 0} (b : Bool) (m n : Outcome A)
      → IsSafe registry m.0
      → IsSafe registry n.0
      → IsSafe registry (if b then m else n).0
  if-outcome true m n h k = h
  if-outcome false m n h k = k

  prune_result-IsSafe :
      (c : Coordinator) (pruned : Dict PlanRecord × Bool)
      → IsSafe registry c
      → IsSafe registry (prune_result c pruned).0
  prune_result-IsSafe c (plans, true) h = h
  prune_result-IsSafe c (plans, false) h = h

  pub prune-IsSafe :
      (c : Coordinator) → IsSafe registry c → IsSafe registry (prune_plan_records c).0
  unfolding prune_plan_records
  prune-IsSafe c h =
      let limit = c.options.max_plan_records in
      if-outcome (ltb (length c.plans) limit) (c, ok tt)
        (prune_result c (prune_each limit c.plans c.plans)) h
        (prune_result-IsSafe c (prune_each limit c.plans c.plans) h)

  pub and_then-IsSafe :
      {A B : Type 0} (m : Outcome A) (next : Coordinator → A → Outcome B)
      → IsSafe registry m.0
      → ((c : Coordinator) (a : A) → IsSafe registry c → IsSafe registry (next c a).0)
      → IsSafe registry (and_then m next).0
  and_then-IsSafe (c, ok a) next h k = k c a h
  and_then-IsSafe (c, err e) next h k = h

  advance-IsSafe :
      (now : ℕ) (last : Option ℕ) (c : Coordinator)
      → IsSafe registry c
      → IsSafe registry (advance now last c).0
  advance-IsSafe now none c h = h
  advance-IsSafe now (some last) c h =
      if-outcome (ltb now last) (c, err clock_backwards)
        (record c { last_clock_ms = some now }, ok now) h h

  pub read_clock-IsSafe :
      (reading : Option ℕ) (c : Coordinator)
      → IsSafe registry c
      → IsSafe registry (read_clock reading c).0
  unfolding read_clock
  read_clock-IsSafe none c h = h
  read_clock-IsSafe (some now) c h = advance-IsSafe now c.last_clock_ms c h

module _ (stable_hash : Hashed → String) (registry : SpecialistRegistry) where
  drop_leases-AreSafe :
      (options : CoordinatorOptions) (assignments : List SpecialistAssignment)
      (leases : Dict OwnershipLease)
      → AreSafe registry options leases
      → AreSafe registry options (drop_leases stable_hash assignments leases)
  unfolding drop_leases
  drop_leases-AreSafe options [] leases h = h
  drop_leases-AreSafe options (a ∷ rest) leases h =
      let lease = a.body.lease in
      let after =
        if is_same_lease stable_hash lease (lookup lease.id leases)
        then delete lease.id leases
        else leases in
      drop_leases-AreSafe options rest after
        (elim (Bool-cases (is_same_lease stable_hash lease (lookup lease.id leases))) [
          | inl e ↦
              subst
                (λ (b : Bool).
                  AreSafe registry options (if b then delete lease.id leases else leases))
                (sym e) (AreSafe-delete registry options lease.id leases h)
          | inr e ↦
              subst
                (λ (b : Bool).
                  AreSafe registry options (if b then delete lease.id leases else leases))
                (sym e) h
        ])

  pub release_record-IsSafe :
      (hash : String) (r : PlanRecord) (c : Coordinator)
      → IsSafe registry c
      → IsSafe registry (release_record stable_hash hash r c)
  unfolding release_record
  release_record-IsSafe hash r c h = elim (Bool-cases (is_released r.phase)) [
    | inl e ↦ rw e h
    | inr e ↦ rw e (drop_leases-AreSafe c.options r.plan.body.assignments c.leases h)
  ]

  expire_each-IsSafe :
      (now : ℕ) (records : Dict PlanRecord) (c : Coordinator)
      → IsSafe registry c
      → IsSafe registry (expire_each stable_hash now records c)
  expire_each-IsSafe now [] c h = h
  expire_each-IsSafe now ((hash, r) ∷ rest) c h =
      let freed = release_record stable_hash hash r c in
      let expired = leb r.expires_at_ms now in
      expire_each-IsSafe now rest (if expired then freed else c)
        (if-IsSafe registry expired freed c (release_record-IsSafe hash r c h) h)

  pub expire_plans-IsSafe :
      (now : ℕ) (c : Coordinator)
      → IsSafe registry c
      → IsSafe registry (expire_plans stable_hash now c)
  unfolding expire_plans
  expire_plans-IsSafe now c h = expire_each-IsSafe now c.plans c h

  pub release_found-IsSafe :
      (hash : String) (found : Option PlanRecord) (c : Coordinator)
      → IsSafe registry c
      → IsSafe registry (release_found stable_hash hash found c)
  release_found-IsSafe hash none c h = h
  release_found-IsSafe hash (some r) c h = release_record-IsSafe hash r c h

  start_checked-IsSafe :
      (p : CoordinationPlan) (r : PlanRecord) (c : Coordinator)
      (checked : Result CoordinationError (Unit {0}))
      → IsSafe registry c
      → IsSafe registry (start_checked stable_hash p r c checked).0
  start_checked-IsSafe p r c (err e) h = release_record-IsSafe p.plan_hash r c h
  start_checked-IsSafe p r c (ok _) h = h

  start_found-IsSafe :
      (p : CoordinationPlan) (now : ℕ) (c : Coordinator) (found : Option PlanRecord)
      → IsSafe registry c
      → IsSafe registry (start_found stable_hash p now c found).0
  start_found-IsSafe p now c none h = h
  start_found-IsSafe p now c (some r) h =
      let checked = assert_authentic_plan stable_hash p r now c in
      if-outcome registry (is_reserved r.phase) (start_checked stable_hash p r c checked)
        (c, err not_reserved) (start_checked-IsSafe p r c checked h) h

  pub start_execution-IsSafe :
      (p : CoordinationPlan) (reading : Option ℕ) (c : Coordinator)
      → IsSafe registry c
      → IsSafe registry (start_execution stable_hash p reading c).0
  unfolding start_execution
  start_execution-IsSafe p reading c h =
      and_then-IsSafe registry (read_clock reading c) (start_at stable_hash p)
        (read_clock-IsSafe registry reading c h)
        (λ c' now k.
          let expired = expire_plans stable_hash now c' in
          start_found-IsSafe p now expired (lookup p.plan_hash expired.plans)
            (expire_plans-IsSafe now c' k))
