-- ===== src/Coordination/Plans.antt =====
-- src/coordination/coordinator.ts: plan and reserveAssignment, with the loop over the pending tasks.
pub mod Partition
use Prim.Native.String.{◌++◌ as text_append}
use odin_agent.Prelude.{
  ℕ, suc, ◌+◌, ◌-◌, Bool, true, false, not, ◌&&◌, ◌||◌, Option, none, some, List, [], ◌∷◌, ◌++◌,
  String, ltb, leb, ◌==◌, select, length, Dict, insert, Result, ok, err, ◌>>=◌, ◌>>◌, guard,
  if◌then◌else◌, sort_by,
}
use odin_agent.Prelude.Number.{max_safe}
use odin_agent.Mission.State.{MissionState, executing, TaskStatus, state_eq}
use odin_agent.Mission.Graph.{MissionTask}
use odin_agent.Mission.Snapshot.{MissionSnapshot}
use odin_agent.Mission.Runnable.{has_status, goes_after}
use odin_agent.Coordination.Types.{
  SpecialistProfile, CoordinationTaskSpec, OwnershipLease, AssignmentBody, SpecialistAssignment,
  CoordinationDeferralReason, PlanBody, CoordinationPlan, CoordinationError, type_error,
  not_executing, bad_mission_version, plan_generation_exhausted, too_many_tasks,
  lease_generation_exhausted,
}
use odin_agent.Coordination.Checks.{is_identifier, max_collection_items}
use odin_agent.Coordination.Registry.{SpecialistRegistry}
use odin_agent.Coordination.Specs.{normalize_task_specs}
use odin_agent.Coordination.Outcomes.{
  Hashed, LeaseIdentity, AssignmentIdentity, of_lease_identity, of_assignment_identity,
  of_assignment, of_plan_body,
}
use odin_agent.Coordination.State.{
  Coordinator, Outcome, and_then, PlanRecord, reserved, read_clock, expire_plans,
  prune_plan_records,
}
use odin_agent.Coordination.Planning.{Decision, defers, assigns, Batch, deferral, decide}

-- `Math.min(this.#maxBatchSize, pendingTasks.length)`
abbrev pub least : ℕ → ℕ → ℕ
least m n = if ltb m n then m else n

-- The pending tasks, by falling priority and then by id.
abbrev pub pending_tasks : (String → String → Bool) → MissionSnapshot → List MissionTask
pending_tasks is_after snapshot =
    sort_by (goes_after is_after)
      (select (λ task. has_status snapshot TaskStatus.pending task.id) snapshot.tasks)

module _ (is_after : String → String → Bool) (stable_hash : Hashed → String) where
  -- The lease of `reserveAssignment`.
  abbrev pub new_lease :
      MissionSnapshot → CoordinationTaskSpec → SpecialistProfile → ℕ → Coordinator → OwnershipLease
  new_lease snapshot spec specialist issued_at c =
      let identity : LeaseIdentity = record {
        generation = suc c.lease_generation;
        issued_at = issued_at;
        mission_id = snapshot.id;
        specialist_id = specialist.id;
        specialist_version = specialist.version;
        task_id = spec.task_id;
      } in
      record {
        id = text_append "lease:" (stable_hash (of_lease_identity identity));
        generation = suc c.lease_generation;
        mission_id = snapshot.id;
        task_id = spec.task_id;
        specialist_id = specialist.id;
        specialist_version = specialist.version;
        issued_at = issued_at;
        expires_at = issued_at + c.options.lease_duration_ms;
        claims = spec.ownership;
      }

  abbrev pub new_assignment :
      MissionSnapshot → String → CoordinationTaskSpec → OwnershipLease → SpecialistAssignment
  new_assignment snapshot title spec lease =
      let identity : AssignmentIdentity = record {
        generation = lease.generation;
        lease_id = lease.id;
        mission_id = snapshot.id;
        mission_version = snapshot.version;
        specialist_id = lease.specialist_id;
        specialist_version = lease.specialist_version;
        task_id = spec.task_id;
      } in
      let body : AssignmentBody = record {
        id = text_append "assignment:" (stable_hash (of_assignment_identity identity));
        mission_id = snapshot.id;
        mission_version = snapshot.version;
        task_id = spec.task_id;
        title = title;
        goal = spec.goal;
        role = spec.role;
        required_capabilities = spec.required_capabilities;
        context = spec.context;
        lease = lease;
      } in
      record { body = body; assignment_hash = stable_hash (of_assignment body) }

  -- `reserveAssignment`, with the push of its result.
  unfoldable pub reserve_assignment :
      MissionSnapshot → String → CoordinationTaskSpec → SpecialistProfile → ℕ → Batch → Batch
  reserve_assignment snapshot title spec specialist issued_at b =
      let c = b.coordinator in
      let lease = new_lease snapshot spec specialist issued_at c in
      record b {
        coordinator = record c {
          leases = insert lease.id lease c.leases;
          lease_generation = suc c.lease_generation;
        };
        assignments = b.assignments ++ new_assignment snapshot title spec lease ∷ [];
      }

  -- What a decision does to the batch.
  abbrev pub carry_out : MissionSnapshot → MissionTask → ℕ → Batch → Decision → Batch
  carry_out snapshot task now b (defers reason conflicts) = record b {
    deferred = b.deferred ++ deferral task.id reason conflicts ∷ [];
  }
  carry_out snapshot task now b (assigns spec specialist) =
      reserve_assignment snapshot task.title spec specialist now b

  abbrev pub on_decision :
      Batch
      → Result CoordinationError Decision
      → (Decision → Batch × Result CoordinationError (Unit {0}))
      → Batch × Result CoordinationError (Unit {0})
  on_decision b (err thrown) next = (b, err thrown)
  on_decision b (ok decision) next = next decision

  module _ (registry : SpecialistRegistry) (snapshot : MissionSnapshot)
      (specs : Dict CoordinationTaskSpec) (now : ℕ) where
    -- The loop over the pending tasks; an error leaves the leases that were reserved before it.
    unfoldable pub plan_tasks :
        List MissionTask → Batch → Batch × Result CoordinationError (Unit {0})
    plan_tasks [] b = (b, ok tt)
    plan_tasks (task ∷ tasks) b =
        on_decision b (decide is_after registry snapshot specs b task)
          (λ decision. plan_tasks tasks (carry_out snapshot task now b decision))

    abbrev pub plan_body : Batch → PlanBody
    plan_body b = record {
      generation = suc b.coordinator.plan_generation;
      mission_id = snapshot.id;
      mission_version = snapshot.version;
      created_at = now;
      assignments = b.assignments;
      deferred = b.deferred;
    }

    -- What follows the loop: the plan and its record.
    abbrev pub record_plan : Batch × Result CoordinationError (Unit {0}) → Outcome CoordinationPlan
    record_plan (b, err thrown) = (b.coordinator, err thrown)
    record_plan (b, ok _) =
        let c = b.coordinator in
        let body = plan_body b in
        let plan : CoordinationPlan = record {
          body = body;
          plan_hash = stable_hash (of_plan_body body);
        } in
        let plan_record : PlanRecord = record {
          plan = plan;
          controllers = [];
          expires_at_ms = now + c.options.lease_duration_ms;
          phase = reserved;
        } in
        (
          record c {
            plans = insert plan.plan_hash plan_record c.plans;
            plan_generation = suc c.plan_generation;
          },
          ok plan,
        )

    abbrev pub start_batch : Coordinator → Batch
    start_batch c = record { coordinator = c; assignments = []; deferred = [] }

    abbrev pub plan_batch : List MissionTask → Coordinator → Unit {0} → Outcome CoordinationPlan
    plan_batch tasks c _ = record_plan (plan_tasks tasks (start_batch c))

    -- `plan` from the pending tasks on.
    abbrev pub plan_pending : Coordinator → Outcome CoordinationPlan
    plan_pending c =
        let tasks = pending_tasks is_after snapshot in
        and_then
          (
            c,
            guard
                (leb (c.lease_generation + least c.options.max_batch_size (length tasks)) max_safe)
                lease_generation_exhausted,
          )
          (plan_batch tasks)

  -- The tests of the mission at the start of `plan`.
  abbrev pub check_mission : MissionSnapshot → Result CoordinationError (Unit {0})
  check_mission snapshot =
      guard (state_eq snapshot.state MissionState.executing) not_executing
      >> guard (is_identifier snapshot.id) type_error
      >> guard (leb snapshot.version max_safe && leb 1 snapshot.version) bad_mission_version

  -- The tests behind `prunePlanRecords`, up to the specifications.
  abbrev pub check_request :
      MissionSnapshot
      → List CoordinationTaskSpec
      → Coordinator
      → Result CoordinationError (Dict CoordinationTaskSpec)
  check_request snapshot task_specs c =
      guard (not (c.plan_generation == max_safe)) plan_generation_exhausted
      >> guard (leb (length snapshot.tasks) max_collection_items) too_many_tasks
      >> normalize_task_specs is_after snapshot task_specs

  abbrev pub plan_specified :
      SpecialistRegistry
      → MissionSnapshot
      → ℕ
      → Coordinator
      → Dict CoordinationTaskSpec
      → Outcome CoordinationPlan
  plan_specified registry snapshot now c specs = plan_pending registry snapshot specs now c

  abbrev pub plan_pruned :
      SpecialistRegistry
      → MissionSnapshot
      → List CoordinationTaskSpec
      → ℕ
      → Coordinator
      → Unit {0}
      → Outcome CoordinationPlan
  plan_pruned registry snapshot task_specs now c _ =
      and_then (c, check_request snapshot task_specs c) (plan_specified registry snapshot now)

  abbrev pub plan_at :
      SpecialistRegistry
      → MissionSnapshot
      → List CoordinationTaskSpec
      → Coordinator
      → ℕ
      → Outcome CoordinationPlan
  plan_at registry snapshot task_specs c now =
      and_then (prune_plan_records (expire_plans stable_hash now c))
        (plan_pruned registry snapshot task_specs now)

  abbrev pub plan_checked :
      SpecialistRegistry
      → MissionSnapshot
      → List CoordinationTaskSpec
      → Option ℕ
      → Coordinator
      → Unit {0}
      → Outcome CoordinationPlan
  plan_checked registry snapshot task_specs reading c _ =
      and_then (read_clock reading c) (plan_at registry snapshot task_specs)

  unfoldable pub plan :
      SpecialistRegistry
      → MissionSnapshot
      → List CoordinationTaskSpec
      → Option ℕ
      → Coordinator
      → Outcome CoordinationPlan
  plan registry snapshot task_specs reading c =
      and_then (c, check_mission snapshot) (plan_checked registry snapshot task_specs reading)
