-- ===== src/Coordination/State.antt =====
-- src/coordination/coordinator.ts: the state of a SpecialistCoordinator, its clock, and how plans end. A
-- method returns the state that it leaves with its result or the error that it throws. `stable_hash` is the
-- SHA-256 digest of a value's canonical JSON text. An abort controller is named by its assignment's id.
use odin_agent.Prelude.{
  ℕ, Bool, true, false, Option, none, some, List, [], ◌∷◌, ◌++◌, String, str_eq, ltb, leb, length,
  Dict, lookup, insert, delete, values, Result, ok, err, if◌then◌else◌, sort_by,
}
use odin_agent.Coordination.Types.{
  OwnershipLease, SpecialistAssignment, CoordinationPlan, CoordinatorOptions, CoordinationError,
  type_error, clock_backwards, plan_capacity_exhausted,
}
use odin_agent.Coordination.Outcomes.{Hashed, of_lease}
use odin_agent.Coordination.Ownership.{after_or}

pub data PlanState : Type 0 where
  executing released reserved : PlanState

pub record PlanRecord : Type 0 where
  pub plan : CoordinationPlan
  pub controllers : List String
  pub expires_at_ms : ℕ
  pub phase : PlanState

-- `aborted` lists the signals that have been given to workers.
pub record Coordinator : Type 0 where
  pub options : CoordinatorOptions
  pub plans : Dict PlanRecord
  pub leases : Dict OwnershipLease
  pub plan_generation : ℕ
  pub lease_generation : ℕ
  pub last_clock_ms : Option ℕ
  pub aborted : List String

-- The fields that the constructor sets.
abbrev pub new_coordinator : CoordinatorOptions → Coordinator
new_coordinator options = record {
  options = options;
  plans = [];
  leases = [];
  plan_generation = 0;
  lease_generation = 0;
  last_clock_ms = none;
  aborted = [];
}

abbrev pub Outcome : Type 0 → Type 0
Outcome A = Coordinator × Result CoordinationError A

-- What follows a step that has not thrown.
abbrev pub and_then : {A B : Type 0} → Outcome A → (Coordinator → A → Outcome B) → Outcome B
and_then (c, ok value) next = next c value
and_then (c, err thrown) next = (c, err thrown)

-- The part of `readClock` behind the check of the timestamp.
abbrev pub advance : ℕ → Option ℕ → Coordinator → Outcome ℕ
advance now none c = (record c { last_clock_ms = some now }, ok now)
advance now (some last) c =
    if ltb now last
    then (c, err clock_backwards)
    else (record c { last_clock_ms = some now }, ok now)

-- `readClock`; a reading that is not a canonical timestamp is `none`.
unfoldable pub read_clock : Option ℕ → Coordinator → Outcome ℕ
read_clock none c = (c, err type_error)
read_clock (some now) c = advance now c.last_clock_ms c

abbrev pub is_released : PlanState → Bool
is_released released = true
is_released _ = false

abbrev pub is_reserved : PlanState → Bool
is_reserved reserved = true
is_reserved _ = false

abbrev pub is_executing : PlanState → Bool
is_executing executing = true
is_executing _ = false

-- The comparison by which `activeLeasesSorted` sorts.
abbrev pub lease_after : (String → String → Bool) → OwnershipLease → OwnershipLease → Bool
lease_after is_after left right =
    after_or is_after left.task_id right.task_id (is_after left.id right.id)

unfoldable pub active_leases_sorted :
    (String → String → Bool) → Dict OwnershipLease → List OwnershipLease
active_leases_sorted is_after leases = sort_by (lease_after is_after) (values leases)

module _ (stable_hash : Hashed → String) where
  abbrev pub is_same_lease : OwnershipLease → Option OwnershipLease → Bool
  is_same_lease lease none = false
  is_same_lease lease (some active) =
      str_eq (stable_hash (of_lease active)) (stable_hash (of_lease lease))

  -- The loop of `releaseRecord` over the assignments.
  unfoldable pub drop_leases : List SpecialistAssignment → Dict OwnershipLease → Dict OwnershipLease
  drop_leases [] leases = leases
  drop_leases (assignment ∷ assignments) leases =
      let lease = assignment.body.lease in
      drop_leases assignments
        (if is_same_lease lease (lookup lease.id leases) then delete lease.id leases else leases)

  -- `releaseRecord`, on the record that stands under a hash.
  unfoldable pub release_record : String → PlanRecord → Coordinator → Coordinator
  release_record hash plan_record c = if is_released plan_record.phase then c else record c {
    plans = insert hash (record plan_record { controllers = []; phase = released }) c.plans;
    leases = drop_leases plan_record.plan.body.assignments c.leases;
    aborted = c.aborted ++ plan_record.controllers;
  }

  abbrev pub expire_each : ℕ → Dict PlanRecord → Coordinator → Coordinator
  expire_each now [] c = c
  expire_each now ((hash, plan_record) ∷ rest) c =
      expire_each now rest
        (if leb plan_record.expires_at_ms now then release_record hash plan_record c else c)

  -- `expirePlans`; `releaseRecord` itself passes over a released record.
  unfoldable pub expire_plans : ℕ → Coordinator → Coordinator
  expire_plans now c = expire_each now c.plans c

-- The loop of `prunePlanRecords`.
abbrev pub prune_each : ℕ → Dict PlanRecord → Dict PlanRecord → Dict PlanRecord × Bool
prune_each limit [] plans = (plans, false)
prune_each limit ((hash, plan_record) ∷ rest) plans =
    let pruned = if is_released plan_record.phase then delete hash plans else plans in
    if ltb (length pruned) limit then (pruned, true) else prune_each limit rest pruned

abbrev pub prune_result : Coordinator → Dict PlanRecord × Bool → Outcome (Unit {0})
prune_result c (plans, true) = (record c { plans = plans }, ok tt)
prune_result c (plans, false) = (record c { plans = plans }, err plan_capacity_exhausted)

-- `prunePlanRecords`
unfoldable pub prune_plan_records : Coordinator → Outcome (Unit {0})
prune_plan_records c =
    if ltb (length c.plans) c.options.max_plan_records
    then (c, ok tt)
    else prune_result c (prune_each c.options.max_plan_records c.plans c.plans)
