-- ===== src/Coordination/Planning.antt =====
-- src/coordination/coordinator.ts: plan, which assigns the pending tasks of a mission or defers them.
pub mod Fits
use odin_agent.Prelude.{
  ℕ, suc, ◌+◌, ◌-◌, Bool, true, false, not, ◌&&◌, ◌||◌, Option, none, some, List, [], ◌∷◌, ◌++◌,
  String, str_eq, map, ltb, leb, ◌==◌, select, find_first, length, Dict, lookup, insert, Result, ok,
  err, ◌>>=◌, ◌>>◌, guard, if◌then◌else◌, has, sort_by,
}
use odin_agent.Prelude.Text.{is_text_after}
use odin_agent.Prelude.Number.{max_safe}
use odin_agent.Mission.State.{MissionState, TaskStatus, state_eq}
use odin_agent.Mission.Graph.{MissionTask}
use odin_agent.Mission.Snapshot.{MissionSnapshot}
use odin_agent.Mission.Runnable.{has_status, goes_after, runnable_tasks}
use odin_agent.Coordination.Types.{
  SpecialistProfile, CoordinationTaskSpec, OwnershipLease, AssignmentBody, SpecialistAssignment,
  CoordinationDeferralReason, batch_limit, dependency_blocked, missing_specialist, missing_spec,
  ownership_conflict, runtime_capacity, task_already_leased, specialist_capacity,
  CoordinationDeferral, PlanBody, CoordinationPlan, CoordinationError, type_error, not_executing,
  bad_mission_version, plan_generation_exhausted, too_many_tasks, lease_generation_exhausted,
}
use odin_agent.Coordination.Checks.{is_identifier, max_collection_items}
use odin_agent.Coordination.Ownership.{conflicting_task_ids}
use odin_agent.Coordination.Registry.{SpecialistRegistry, matching}
use odin_agent.Coordination.Specs.{normalize_task_specs}
use odin_agent.Coordination.Outcomes.{
  Hashed, LeaseIdentity, AssignmentIdentity, of_lease_identity, of_assignment_identity,
  of_assignment, of_plan_body,
}
use odin_agent.Coordination.State.{
  Coordinator, Outcome, and_then, PlanRecord, reserved, read_clock, active_leases_sorted,
  expire_plans, prune_plan_records,
}

-- What the loop over the pending tasks decides on one of them.
pub data Decision : Type 0 where
  defers : CoordinationDeferralReason → List String → Decision
  assigns : CoordinationTaskSpec → SpecialistProfile → Decision

-- The coordinator with the assignments and the deferrals made so far.
pub record Batch : Type 0 where
  pub coordinator : Coordinator
  pub assignments : List SpecialistAssignment
  pub deferred : List CoordinationDeferral

-- `deferral`
abbrev pub deferral : String → CoordinationDeferralReason → List String → CoordinationDeferral
deferral task_id reason conflicts = record {
  task_id = task_id;
  reason = reason;
  conflicts_with_task_ids = sort_by is_text_after conflicts;
}

abbrev pub is_lease_of : String → String → OwnershipLease → Bool
is_lease_of mission_id task_id lease =
    str_eq lease.mission_id mission_id && str_eq lease.task_id task_id

abbrev pub is_held_by : SpecialistProfile → OwnershipLease → Bool
is_held_by profile lease =
    str_eq lease.specialist_id profile.id && str_eq lease.specialist_version profile.version

module _ (is_after : String → String → Bool) where
  -- `activeTaskLease`
  unfoldable pub active_task_lease : String → String → Coordinator → Option OwnershipLease
  active_task_lease mission_id task_id c =
      find_first (is_lease_of mission_id task_id) (active_leases_sorted is_after c.leases)

  -- `activeSpecialistCount`
  unfoldable pub active_specialist_count : SpecialistProfile → Coordinator → ℕ
  active_specialist_count profile c =
      length (select (is_held_by profile) (active_leases_sorted is_after c.leases))

  abbrev pub has_capacity : Coordinator → SpecialistProfile → Bool
  has_capacity c profile = ltb (active_specialist_count profile c) profile.max_concurrency

  -- The last test: `conflicts.length > 0`.
  abbrev pub decide_conflicts : CoordinationTaskSpec → SpecialistProfile → List String → Decision
  decide_conflicts spec specialist [] = assigns spec specialist
  decide_conflicts spec specialist (conflict ∷ conflicts) =
      defers ownership_conflict (conflict ∷ conflicts)

  abbrev pub decide_specialist :
      Coordinator → CoordinationTaskSpec → Option SpecialistProfile → Decision
  decide_specialist c spec none = defers specialist_capacity []
  decide_specialist c spec (some specialist) =
      decide_conflicts spec specialist
        (conflicting_task_ids spec.ownership (active_leases_sorted is_after c.leases))

  abbrev pub decide_matches : Coordinator → CoordinationTaskSpec → List SpecialistProfile → Decision
  decide_matches c spec [] = defers missing_specialist []
  decide_matches c spec (profile ∷ profiles) =
      decide_specialist c spec (find_first (has_capacity c) (profile ∷ profiles))

  -- The tests from `batch_limit` on.
  abbrev pub decide_limits :
      SpecialistRegistry → Batch → CoordinationTaskSpec → Result CoordinationError Decision
  decide_limits registry b spec =
      let c = b.coordinator in
      if leb c.options.max_batch_size (length b.assignments)
      then ok (defers batch_limit [])
      else if leb c.options.max_active_assignments (length c.leases)
      then ok (defers runtime_capacity [])
      else matching is_after spec.role spec.required_capabilities registry >>= λ profiles.
          ok (decide_matches c spec profiles)

  abbrev pub decide_leased :
      SpecialistRegistry
      → Batch
      → CoordinationTaskSpec
      → Option OwnershipLease
      → Result CoordinationError Decision
  decide_leased registry b spec (some lease) = ok (defers task_already_leased (lease.task_id ∷ []))
  decide_leased registry b spec none = decide_limits registry b spec

  abbrev pub decide_spec :
      SpecialistRegistry
      → MissionSnapshot
      → Batch
      → MissionTask
      → Option CoordinationTaskSpec
      → Result CoordinationError Decision
  decide_spec registry snapshot b task none = ok (defers missing_spec [])
  decide_spec registry snapshot b task (some spec) =
      decide_leased registry b spec (active_task_lease snapshot.id task.id b.coordinator)

  -- The tests of the loop, in their order.
  unfoldable pub decide :
      SpecialistRegistry
      → MissionSnapshot
      → Dict CoordinationTaskSpec
      → Batch
      → MissionTask
      → Result CoordinationError Decision
  decide registry snapshot specs b task =
      if not (has (map (λ t. t.id) (runnable_tasks is_after snapshot)) task.id)
      then ok (defers dependency_blocked [])
      else decide_spec registry snapshot b task (lookup task.id specs)
