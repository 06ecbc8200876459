-- ===== src/Coordination/Types.antt =====
-- src/coordination/types.ts: what the coordinator is given, keeps and returns. A canonical UTC timestamp
-- is the number of its milliseconds. An object that carries its own hash is a record of the hashed
-- part, `body`, and the hash.
use odin_agent.Prelude.{ℕ, List, String}

pub data SpecialistTrustClass : Type 0 where
  test_fixture untrusted_worker : SpecialistTrustClass

pub data OwnershipNamespace : Type 0 where
  repository resource shared_state : OwnershipNamespace

pub data OwnershipAccess : Type 0 where
  read write : OwnershipAccess

pub record SpecialistProvenance : Type 0 where
  pub source : String
  pub version : String
  pub content_hash : String

pub record SpecialistProfile : Type 0 where
  pub id : String
  pub version : String
  pub description : String
  pub roles : List String
  pub capabilities : List String
  pub max_concurrency : ℕ
  pub trust_class : SpecialistTrustClass
  pub provenance : SpecialistProvenance

pub record SpecialistSummary : Type 0 where
  pub id : String
  pub version : String
  pub roles : List String
  pub capabilities : List String
  pub max_concurrency : ℕ
  pub trust_class : SpecialistTrustClass
  pub provenance_hash : String

pub record OwnershipClaim : Type 0 where
  pub namespace : OwnershipNamespace
  pub key : String
  pub access : OwnershipAccess

pub record ContextPackageReference : Type 0 where
  pub mission_id : String
  pub task_id : String
  pub result_hash : String
  pub source_fingerprint : String
  pub selected_ids : List String

pub record CoordinationTaskSpec : Type 0 where
  pub task_id : String
  pub goal : String
  pub role : String
  pub required_capabilities : List String
  pub ownership : List OwnershipClaim
  pub context : ContextPackageReference

pub record OwnershipLease : Type 0 where
  pub id : String
  pub generation : ℕ
  pub mission_id : String
  pub task_id : String
  pub specialist_id : String
  pub specialist_version : String
  pub issued_at : ℕ
  pub expires_at : ℕ
  pub claims : List OwnershipClaim

pub record AssignmentBody : Type 0 where
  pub id : String
  pub mission_id : String
  pub mission_version : ℕ
  pub task_id : String
  pub title : String
  pub goal : String
  pub role : String
  pub required_capabilities : List String
  pub context : ContextPackageReference
  pub lease : OwnershipLease

pub record SpecialistAssignment : Type 0 where
  pub body : AssignmentBody
  pub assignment_hash : String

pub data CoordinationDeferralReason : Type 0 where
  batch_limit dependency_blocked missing_specialist missing_spec : CoordinationDeferralReason
  ownership_conflict runtime_capacity task_already_leased : CoordinationDeferralReason
  specialist_capacity : CoordinationDeferralReason

pub record CoordinationDeferral : Type 0 where
  pub task_id : String
  pub reason : CoordinationDeferralReason
  pub conflicts_with_task_ids : List String

pub record PlanBody : Type 0 where
  pub generation : ℕ
  pub mission_id : String
  pub mission_version : ℕ
  pub created_at : ℕ
  pub assignments : List SpecialistAssignment
  pub deferred : List CoordinationDeferral

pub record CoordinationPlan : Type 0 where
  pub body : PlanBody
  pub plan_hash : String

-- `SpecialistCoordinatorOptions`, after the constructor's checks.
pub record CoordinatorOptions : Type 0 where
  pub max_batch_size : ℕ
  pub max_active_assignments : ℕ
  pub lease_duration_ms : ℕ
  pub execution_timeout_ms : ℕ
  pub max_plan_records : ℕ

-- The `TypeError` of a check, and the `CoordinationError`s of the coordinator.
pub data CoordinationError : Type 0 where
  type_error not_executing bad_mission_version clock_backwards : CoordinationError
  plan_capacity_exhausted plan_generation_exhausted too_many_tasks : CoordinationError
  lease_generation_exhausted unknown_plan not_reserved integrity_failed : CoordinationError
  duplicate_assignment lease_not_active lease_expired invalid_binding : CoordinationError
  released_during_execution : CoordinationError
