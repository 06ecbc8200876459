-- ===== src/Coordination/Safety/Calls.antt =====
-- src/coordination/coordinator.ts: plan and the other methods keep the leases safe.
use odin_agent.Prelude.{
  ℕ, ◌≡◌, Bool, Option, none, some, List, [], ◌∷◌, String, Dict, lookup, Result, ok, err,
  Result-cases, Bool-cases, inl, inr, if◌then◌else◌, length, ◌+◌, guard, leb,
}
use odin_agent.Prelude.Number.{max_safe}
use odin_agent.Mission.Graph.{MissionTask}
use odin_agent.Mission.Snapshot.{MissionSnapshot}
use odin_agent.Coordination.Types.{
  SpecialistAssignment, CoordinationPlan, CoordinationTaskSpec, CoordinationError, type_error,
  released_during_execution, lease_generation_exhausted,
}
use odin_agent.Coordination.Checks.{is_sha256}
use odin_agent.Coordination.Outcomes.{
  Hashed, RawProposal, TaskReconciliation, SpecialistEvidenceReference, CoordinationBatchResult,
}
use odin_agent.Coordination.Registry.{SpecialistRegistry}
use odin_agent.Coordination.Registry.Keys.{IsKeyed}
use odin_agent.Coordination.State.{
  Coordinator, Outcome, PlanRecord, read_clock, is_released, expire_plans, prune_plan_records,
}
use odin_agent.Coordination.Planning.{Batch, Decision, defers, assigns, decide}
use odin_agent.Coordination.Planning.Fits.{decide-Fits}
use odin_agent.Coordination.Plans.{
  plan, plan_at, plan_tasks, record_plan, carry_out, reserve_assignment, check_mission,
  check_request, pending_tasks, start_batch, plan_batch, plan_specified, plan_pruned, plan_checked,
  least,
}
use odin_agent.Coordination.Execution.{
  WorkerEnd, proposes, times_out, throws, end_assignment, reconcile_at, reconcile_end,
  forget_controller, finish_execution, finish_read, is_still_executing, release_plan, release_live,
  as_outcome, active_leases, leases_at,
}
use odin_agent.Coordination.Leases.Reserve.{reserve-AreSafe}
use odin_agent.Coordination.Safety.{
  IsSafe, if-outcome, prune-IsSafe, and_then-IsSafe, read_clock-IsSafe, release_record-IsSafe,
  release_found-IsSafe, expire_plans-IsSafe,
}

module _ (is_after : String → String → Bool) (stable_hash : Hashed → String)
    (registry : SpecialistRegistry) where
  module _ (keyed : IsKeyed registry) (snapshot : MissionSnapshot)
      (specs : Dict CoordinationTaskSpec) (now : ℕ) where
    carry_out-IsSafe :
        (task : MissionTask) (b : Batch) (decision : Decision)
        → decide is_after registry snapshot specs b task ≡ ok decision
        → IsSafe registry b.coordinator
        → IsSafe registry (carry_out is_after stable_hash snapshot task now b decision).coordinator
    unfolding reserve_assignment
    carry_out-IsSafe task b (defers reason conflicts) e h = h
    carry_out-IsSafe task b (assigns spec specialist) e h =
        reserve-AreSafe is_after registry stable_hash snapshot spec specialist now b keyed
          (decide-Fits is_after registry keyed snapshot specs b task e).3 h

    plan_tasks-IsSafe :
        (tasks : List MissionTask) (b : Batch)
        → IsSafe registry b.coordinator
        → IsSafe registry
            (plan_tasks is_after stable_hash registry snapshot specs now tasks b).0.coordinator
    unfolding plan_tasks
    plan_tasks-IsSafe [] b h = h
    plan_tasks-IsSafe (task ∷ tasks) b h =
        elim (Result-cases (decide is_after registry snapshot specs b task)) [
          | inr (thrown, e) ↦ rw e h
          | inl (decision, e) ↦ rw e (
              plan_tasks-IsSafe tasks (carry_out is_after stable_hash snapshot task now b decision)
                (carry_out-IsSafe task b decision e h))
        ]

    record_plan-IsSafe :
        (m : Batch × Result CoordinationError (Unit {0}))
        → IsSafe registry m.0.coordinator
        → IsSafe registry (record_plan is_after stable_hash registry snapshot specs now m).0
    record_plan-IsSafe (b, err thrown) h = h
    record_plan-IsSafe (b, ok _) h = h

  module _ (keyed : IsKeyed registry) (snapshot : MissionSnapshot) where
    plan_specified-IsSafe :
        (now : ℕ) (c : Coordinator) (specs : Dict CoordinationTaskSpec)
        → IsSafe registry c
        → IsSafe registry (plan_specified is_after stable_hash registry snapshot now c specs).0
    plan_specified-IsSafe now c specs h =
        let tasks = pending_tasks is_after snapshot in
        and_then-IsSafe registry
          (
            c,
            guard
                (leb (c.lease_generation + least c.options.max_batch_size (length tasks)) max_safe)
                lease_generation_exhausted,
          )
          (plan_batch is_after stable_hash registry snapshot specs now tasks) h
          (λ c' _ k.
            let b = start_batch is_after stable_hash registry snapshot specs now c' in
            record_plan-IsSafe keyed snapshot specs now
              (plan_tasks is_after stable_hash registry snapshot specs now tasks b)
              (plan_tasks-IsSafe keyed snapshot specs now tasks b k))

    plan_at-IsSafe :
        (task_specs : List CoordinationTaskSpec) (c : Coordinator) (now : ℕ)
        → IsSafe registry c
        → IsSafe registry (plan_at is_after stable_hash registry snapshot task_specs c now).0
    plan_at-IsSafe task_specs c now h =
        let expired = expire_plans stable_hash now c in
        and_then-IsSafe registry (prune_plan_records expired)
          (plan_pruned is_after stable_hash registry snapshot task_specs now)
          (prune-IsSafe registry expired (expire_plans-IsSafe stable_hash registry now c h))
          (λ c' _ k.
            and_then-IsSafe registry (c', check_request is_after stable_hash snapshot task_specs c')
              (plan_specified is_after stable_hash registry snapshot now) k
              (λ c'' specs l. plan_specified-IsSafe now c'' specs l))

  pub plan-IsSafe :
      IsKeyed registry
      → (snapshot : MissionSnapshot) (task_specs : List CoordinationTaskSpec) (reading : Option ℕ)
        (c : Coordinator)
      → IsSafe registry c
      → IsSafe registry (plan is_after stable_hash registry snapshot task_specs reading c).0
  unfolding plan
  plan-IsSafe keyed snapshot task_specs reading c h =
      and_then-IsSafe registry (c, check_mission is_after stable_hash snapshot)
        (plan_checked is_after stable_hash registry snapshot task_specs reading) h
        (λ c' _ k.
          and_then-IsSafe registry (read_clock reading c')
            (plan_at is_after stable_hash registry snapshot task_specs)
            (read_clock-IsSafe registry reading c' k)
            (λ c'' now l. plan_at-IsSafe keyed snapshot task_specs c'' now l))

  module _ (attests : SpecialistAssignment → SpecialistEvidenceReference → Bool) where
    reconcile_at-IsSafe :
        (assignment : SpecialistAssignment) (value : Option RawProposal) (m : Outcome ℕ)
        → IsSafe registry m.0
        → IsSafe registry (reconcile_at stable_hash is_after attests assignment value m).0
    reconcile_at-IsSafe assignment value (c, ok now) h = h
    reconcile_at-IsSafe assignment value (c, err thrown) h = h

    reconcile_end-IsSafe :
        (assignment : SpecialistAssignment) (end : WorkerEnd) (c : Coordinator)
        → IsSafe registry c
        → IsSafe registry (reconcile_end stable_hash is_after attests assignment end c).0
    reconcile_end-IsSafe assignment (proposes value reading) c h =
        reconcile_at-IsSafe assignment value (read_clock reading c)
          (read_clock-IsSafe registry reading c h)
    reconcile_end-IsSafe assignment times_out c h = h
    reconcile_end-IsSafe assignment throws c h = h

    forget_controller-IsSafe :
        (hash id : String) (found : Option PlanRecord) (c : Coordinator)
        → IsSafe registry c
        → IsSafe registry (forget_controller stable_hash hash id found c)
    forget_controller-IsSafe hash id none c h = h
    forget_controller-IsSafe hash id (some r) c h = h

    pub end_assignment-IsSafe :
        (hash : String) (assignment : SpecialistAssignment) (end : WorkerEnd) (c : Coordinator)
        → IsSafe registry c
        → IsSafe registry (end_assignment stable_hash is_after attests hash assignment end c).0
    unfolding end_assignment
    end_assignment-IsSafe hash assignment end c h =
        let ended = reconcile_end stable_hash is_after attests assignment end c in
        forget_controller-IsSafe hash assignment.body.id (lookup hash ended.0.plans) ended.0
          (reconcile_end-IsSafe assignment end c h)

  finish_read-IsSafe :
      (p : CoordinationPlan) (items : List TaskReconciliation) (m : Outcome ℕ)
      → IsSafe registry m.0
      → IsSafe registry (finish_read stable_hash p items m).0
  finish_read-IsSafe p items (c, ok now) h = h
  finish_read-IsSafe p items (c, err thrown) h = h

  pub finish_execution-IsSafe :
      (p : CoordinationPlan) (items : List TaskReconciliation) (reading : Option ℕ)
      (c : Coordinator)
      → IsSafe registry c
      → IsSafe registry (finish_execution stable_hash p items reading c).0
  unfolding finish_execution
  finish_execution-IsSafe p items reading c h =
      let found = lookup p.plan_hash c.plans in
      let live = is_still_executing stable_hash found in
      let read = finish_read stable_hash p items (read_clock reading c) in
      let dead : Outcome CoordinationBatchResult = (c, err released_during_execution) in
      release_found-IsSafe stable_hash registry p.plan_hash found (if live then read else dead).0 (
        if-outcome registry live read dead
          (finish_read-IsSafe p items (read_clock reading c)
            (read_clock-IsSafe registry reading c h))
          h)

  release_live-IsSafe :
      (hash : String) (found : Option PlanRecord) (c : Coordinator)
      → IsSafe registry c
      → IsSafe registry (as_outcome stable_hash (release_live stable_hash hash found c)).0
  release_live-IsSafe hash none c h = h
  release_live-IsSafe hash (some r) c h = elim (Bool-cases (is_released r.phase)) [
    | inl e ↦ rw e h
    | inr e ↦ rw e (release_record-IsSafe stable_hash registry hash r c h)
  ]

  pub release_plan-IsSafe :
      (hash : String) (c : Coordinator)
      → IsSafe registry c
      → IsSafe registry (release_plan stable_hash hash c).0
  unfolding release_plan
  release_plan-IsSafe hash c h =
      let found = lookup hash c.plans in
      if-outcome registry (is_sha256 hash)
        (as_outcome stable_hash (release_live stable_hash hash found c)) (c, err type_error)
        (release_live-IsSafe hash found c h) h

  pub active_leases-IsSafe :
      (reading : Option ℕ) (c : Coordinator)
      → IsSafe registry c
      → IsSafe registry (active_leases stable_hash is_after reading c).0
  unfolding active_leases
  active_leases-IsSafe reading c h =
      and_then-IsSafe registry (read_clock reading c) (leases_at stable_hash is_after)
        (read_clock-IsSafe registry reading c h)
        (λ c' now k. expire_plans-IsSafe stable_hash registry now c' k)
