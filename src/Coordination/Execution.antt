-- ===== src/Coordination/Execution.antt =====
-- src/coordination/coordinator.ts: execute, releasePlan and activeLeases. `execute` is three kinds of step,
-- since other calls run while it waits: its start, the end of each worker, and its own end.
pub mod Used
pub mod Ends
pub mod Calls
pub mod Planned
pub mod Once
use odin_agent.Prelude.{
  ℕ, Bool, true, false, not, ◌&&◌, ◌||◌, Option, none, some, List, [], ◌∷◌, ◌++◌, String, str_eq,
  map, ltb, ◌==◌, select, Dict, lookup, insert, Result, ok, err, ◌>>=◌, ◌>>◌, guard, or_throw,
  if◌then◌else◌, has, remove,
}
use odin_agent.Coordination.Types.{
  OwnershipLease, SpecialistAssignment, PlanBody, CoordinationPlan, CoordinationError, type_error,
  unknown_plan, not_reserved, integrity_failed, duplicate_assignment, lease_not_active,
  lease_expired, invalid_binding, released_during_execution,
}
use odin_agent.Coordination.Checks.{is_sha256}
use odin_agent.Coordination.Registry.{SpecialistRegistry, resolve}
use odin_agent.Coordination.Outcomes.{
  Hashed, of_assignment, of_plan_body, of_plan, of_batch, RawProposal, SpecialistEvidenceReference,
  ReconciliationOutcome, accepted, blocked, retry_required, ReconciliationReason, worker_failed,
  worker_timeout, TaskReconciliation, BatchBody, CoordinationBatchResult,
}
use odin_agent.Coordination.Verdict.{reconcile_proposal, execution_failure_reconciliation}
use odin_agent.Coordination.State.{
  Coordinator, Outcome, and_then, PlanRecord, PlanState, executing, is_reserved, is_released,
  is_executing, is_same_lease, read_clock, active_leases_sorted, expire_plans, release_record,
}

-- The ids that the loop of `assertAuthenticPlan` has met.
pub record Seen : Type 0 where
  pub assignment_ids : List String
  pub lease_ids : List String

-- How a worker ends: a proposal, or a value that is none, at a reading of the clock; its time limit; or
-- an error, also one of the look-up of the worker.
pub data WorkerEnd : Type 0 where
  proposes : Option RawProposal → Option ℕ → WorkerEnd
  times_out : WorkerEnd
  throws : WorkerEnd

abbrev pub outcome_eq : ReconciliationOutcome → ReconciliationOutcome → Bool
outcome_eq accepted accepted = true
outcome_eq blocked blocked = true
outcome_eq retry_required retry_required = true
outcome_eq _ _ = false

-- `taskIdsForOutcome`
unfoldable pub task_ids_for_outcome : List TaskReconciliation → ReconciliationOutcome → List String
task_ids_for_outcome items outcome =
    map (λ item. item.body.task_id) (select (λ item. outcome_eq item.body.outcome outcome) items)

module _ (stable_hash : Hashed → String) where
  -- The comparisons of the supplied plan with the record's.
  abbrev pub is_intact_plan : CoordinationPlan → CoordinationPlan → Bool
  is_intact_plan plan recorded =
      str_eq (stable_hash (of_plan_body plan.body)) plan.plan_hash
      && str_eq (stable_hash (of_plan plan)) (stable_hash (of_plan recorded))
      && str_eq plan.body.mission_id recorded.body.mission_id
      && (plan.body.mission_version == recorded.body.mission_version)

  abbrev pub is_bound : PlanBody → SpecialistAssignment → Bool
  is_bound body assignment =
      str_eq assignment.body.mission_id body.mission_id
      && (assignment.body.mission_version == body.mission_version)
      && str_eq assignment.body.task_id assignment.body.lease.task_id
      && str_eq assignment.body.mission_id assignment.body.lease.mission_id

  -- The tests of one assignment.
  unfoldable pub check_assignment :
      PlanBody
      → Dict OwnershipLease
      → ℕ
      → Seen
      → SpecialistAssignment
      → Result CoordinationError Seen
  check_assignment body leases now seen assignment =
      let lease = assignment.body.lease in
      guard (str_eq (stable_hash (of_assignment assignment.body)) assignment.assignment_hash)
        integrity_failed
      >> guard (not (has seen.assignment_ids assignment.body.id || has seen.lease_ids lease.id))
          duplicate_assignment
      >> guard (is_same_lease stable_hash lease (lookup lease.id leases)) lease_not_active
      >> guard (ltb now lease.expires_at) lease_expired
      >> guard (is_bound body assignment) invalid_binding
      >> ok (record {
        assignment_ids = assignment.body.id ∷ seen.assignment_ids;
        lease_ids = lease.id ∷ seen.lease_ids;
      })

  unfoldable pub check_assignments :
      PlanBody
      → Dict OwnershipLease
      → ℕ
      → Seen
      → List SpecialistAssignment
      → Result CoordinationError (Unit {0})
  check_assignments body leases now seen [] = ok tt
  check_assignments body leases now seen (assignment ∷ assignments) =
      check_assignment body leases now seen assignment >>= λ seen'.
      check_assignments body leases now seen' assignments

  -- `assertAuthenticPlan`
  unfoldable pub assert_authentic_plan :
      CoordinationPlan → PlanRecord → ℕ → Coordinator → Result CoordinationError (Unit {0})
  assert_authentic_plan plan plan_record now c =
      guard (is_sha256 plan.plan_hash) type_error
      >> guard (is_intact_plan plan plan_record.plan) integrity_failed
      >> check_assignments plan.body c.leases now (record { assignment_ids = []; lease_ids = [] })
          plan.body.assignments

  abbrev assignment_id : SpecialistAssignment → String
  assignment_id assignment = assignment.body.id

  -- The record's state, and the controllers that the start of each `executeAssignment` adds.
  abbrev pub started_record : PlanRecord → PlanRecord
  started_record plan_record = record plan_record {
    phase = executing;
    controllers = map assignment_id plan_record.plan.body.assignments;
  }

  abbrev pub start_checked :
      CoordinationPlan
      → PlanRecord
      → Coordinator
      → Result CoordinationError (Unit {0})
      → Outcome PlanRecord
  start_checked plan plan_record c (err thrown) =
      (release_record stable_hash plan.plan_hash plan_record c, err thrown)
  start_checked plan plan_record c (ok _) =
      let started = started_record plan_record in
      (record c { plans = insert plan.plan_hash started c.plans }, ok started)

  abbrev pub start_reserved : CoordinationPlan → ℕ → Coordinator → PlanRecord → Outcome PlanRecord
  start_reserved plan now c plan_record =
      if is_reserved plan_record.phase
      then start_checked plan plan_record c (assert_authentic_plan plan plan_record now c)
      else (c, err not_reserved)

  abbrev pub start_found :
      CoordinationPlan → ℕ → Coordinator → Option PlanRecord → Outcome PlanRecord
  start_found plan now c none = (c, err unknown_plan)
  start_found plan now c (some plan_record) = start_reserved plan now c plan_record

  abbrev pub start_at : CoordinationPlan → Coordinator → ℕ → Outcome PlanRecord
  start_at plan c now =
      let c' = expire_plans stable_hash now c in
      start_found plan now c' (lookup plan.plan_hash c'.plans)

  -- `execute` up to its first wait.
  unfoldable pub start_execution : CoordinationPlan → Option ℕ → Coordinator → Outcome PlanRecord
  start_execution plan reading c = and_then (read_clock reading c) (start_at plan)

  -- `record.controllers.delete(controller)`
  abbrev pub forget_controller : String → String → Option PlanRecord → Coordinator → Coordinator
  forget_controller hash id none c = c
  forget_controller hash id (some plan_record) c = record c {
    plans =
        insert hash (record plan_record { controllers = remove id plan_record.controllers })
          c.plans;
  }

  -- The release in the `finally` of `execute`.
  abbrev pub release_found : String → Option PlanRecord → Coordinator → Coordinator
  release_found hash none c = c
  release_found hash (some plan_record) c = release_record stable_hash hash plan_record c

  -- `createBatchResult`
  unfoldable pub create_batch_result :
      CoordinationPlan → ℕ → List TaskReconciliation → CoordinationBatchResult
  create_batch_result plan completed_at reconciliations =
      let body : BatchBody = record {
        mission_id = plan.body.mission_id;
        plan_hash = plan.plan_hash;
        completed_at = completed_at;
        reconciliations = reconciliations;
        accepted_task_ids = task_ids_for_outcome reconciliations accepted;
        retry_task_ids = task_ids_for_outcome reconciliations retry_required;
        blocked_task_ids = task_ids_for_outcome reconciliations blocked;
      } in
      record { body = body; result_hash = stable_hash (of_batch body) }

  abbrev pub is_still_executing : Option PlanRecord → Bool
  is_still_executing none = false
  is_still_executing (some plan_record) = is_executing plan_record.phase

  abbrev pub finish_read :
      CoordinationPlan → List TaskReconciliation → Outcome ℕ → Outcome CoordinationBatchResult
  finish_read plan items (c, err thrown) = (c, err thrown)
  finish_read plan items (c, ok now) = (c, ok (create_batch_result plan now items))

  -- `execute` once every worker has ended; `plan` is the record's. A record that is no longer there
  -- has been released before.
  unfoldable pub finish_execution :
      CoordinationPlan
      → List TaskReconciliation
      → Option ℕ
      → Coordinator
      → Outcome CoordinationBatchResult
  finish_execution plan items reading c =
      let end =
        if is_still_executing (lookup plan.plan_hash c.plans)
        then finish_read plan items (read_clock reading c)
        else (c, err released_during_execution) in
      (release_found plan.plan_hash (lookup plan.plan_hash c.plans) end.0, end.1)

  abbrev pub release_live : String → Option PlanRecord → Coordinator → Coordinator × Bool
  release_live hash none c = (c, false)
  release_live hash (some plan_record) c =
      if is_released plan_record.phase
      then (c, false)
      else (release_record stable_hash hash plan_record c, true)

  abbrev pub as_outcome : Coordinator × Bool → Outcome Bool
  as_outcome (c, b) = (c, ok b)

  -- `releasePlan`
  unfoldable pub release_plan : String → Coordinator → Outcome Bool
  release_plan hash c =
      if is_sha256 hash
      then as_outcome (release_live hash (lookup hash c.plans) c)
      else (c, err type_error)

  module _ (is_after : String → String → Bool) where
    abbrev pub leases_at : Coordinator → ℕ → Outcome (List OwnershipLease)
    leases_at c now =
        let c' = expire_plans stable_hash now c in
        (c', ok (active_leases_sorted is_after c'.leases))

    -- `activeLeases`
    unfoldable pub active_leases : Option ℕ → Coordinator → Outcome (List OwnershipLease)
    active_leases reading c = and_then (read_clock reading c) leases_at

    module _ (attests : SpecialistAssignment → SpecialistEvidenceReference → Bool) where
      abbrev pub reconcile_at :
          SpecialistAssignment → Option RawProposal → Outcome ℕ → Coordinator × TaskReconciliation
      reconcile_at assignment value (c, err thrown) = (
        c,
        execution_failure_reconciliation is_after stable_hash attests assignment worker_failed,
      )
      reconcile_at assignment value (c, ok now) =
          (c, reconcile_proposal is_after stable_hash attests assignment value now)

      abbrev pub reconcile_end :
          SpecialistAssignment → WorkerEnd → Coordinator → Coordinator × TaskReconciliation
      reconcile_end assignment (proposes value reading) c =
          reconcile_at assignment value (read_clock reading c)
      reconcile_end assignment times_out c = (
        record c { aborted = c.aborted ++ assignment.body.id ∷ [] },
        execution_failure_reconciliation is_after stable_hash attests assignment worker_timeout,
      )
      reconcile_end assignment throws c = (
        c,
        execution_failure_reconciliation is_after stable_hash attests assignment worker_failed,
      )

      -- The rest of `executeAssignment` for one assignment of an executing plan.
      unfoldable pub end_assignment :
          String → SpecialistAssignment → WorkerEnd → Coordinator → Coordinator × TaskReconciliation
      end_assignment hash assignment worker_end c =
          let ended = reconcile_end assignment worker_end c in
          (forget_controller hash assignment.body.id (lookup hash ended.0.plans) ended.0, ended.1)
