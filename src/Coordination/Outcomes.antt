-- ===== src/Coordination/Outcomes.antt =====
-- src/coordination/types.ts: what a worker proposes and what is made of it. A raw proposal has the fields
-- and the JavaScript types that validateProposal asks for; its texts are not checked yet, and its timestamps
-- are what assertCanonicalTimestamp makes of them. `Hashed` lists the values that stableHash is given.
use odin_agent.Prelude.{ℕ, List, String, Option}
use odin_agent.Coordination.Types.{AssignmentBody, OwnershipLease, PlanBody, CoordinationPlan}

pub data SpecialistProposalOutcome : Type 0 where
  proposal_blocked proposal_failed proposal_success : SpecialistProposalOutcome

pub data SpecialistVerificationStatus : Type 0 where
  status_blocked status_failed partially_verified unverified : SpecialistVerificationStatus
  verified : SpecialistVerificationStatus

pub data ProducerClass : Type 0 where
  independent_tool specialist : ProducerClass

pub data EvidenceStatus : Type 0 where
  fail pass : EvidenceStatus

pub record RawEvidence : Type 0 where
  pub id : String
  pub kind : String
  pub reference : String
  pub content_hash : String
  pub observed_at : Option ℕ
  pub producer_class : String
  pub status : String

pub record SpecialistEvidenceReference : Type 0 where
  pub id : String
  pub kind : String
  pub reference : String
  pub content_hash : String
  pub observed_at : ℕ
  pub producer_class : ProducerClass
  pub status : EvidenceStatus

pub record SpecialistArtifactReference : Type 0 where
  pub id : String
  pub kind : String
  pub reference : String
  pub content_hash : String

pub record RawProposal : Type 0 where
  pub assignment_id : String
  pub mission_id : String
  pub task_id : String
  pub specialist_id : String
  pub specialist_version : String
  pub started_at : Option ℕ
  pub completed_at : Option ℕ
  pub outcome : String
  pub summary : String
  pub evidence : List RawEvidence
  pub files_changed : List String
  pub artifacts : List SpecialistArtifactReference
  pub assumptions : List String
  pub risks : List String
  pub remaining_work : List String
  pub verification_status : String

pub record SpecialistProposal : Type 0 where
  pub assignment_id : String
  pub mission_id : String
  pub task_id : String
  pub specialist_id : String
  pub specialist_version : String
  pub started_at : ℕ
  pub completed_at : ℕ
  pub outcome : SpecialistProposalOutcome
  pub summary : String
  pub evidence : List SpecialistEvidenceReference
  pub files_changed : List String
  pub artifacts : List SpecialistArtifactReference
  pub assumptions : List String
  pub risks : List String
  pub remaining_work : List String
  pub verification_status : SpecialistVerificationStatus

pub record SpecialistResult : Type 0 where
  pub body : SpecialistProposal
  pub result_hash : String

pub data ReconciliationOutcome : Type 0 where
  accepted blocked retry_required : ReconciliationOutcome

pub data ReconciliationReason : Type 0 where
  failed_evidence invalid_result not_verified specialist_blocked : ReconciliationReason
  specialist_failed worker_failed worker_timeout : ReconciliationReason

pub record ReconciliationBody : Type 0 where
  pub assignment_id : String
  pub mission_id : String
  pub task_id : String
  pub specialist_id : String
  pub outcome : ReconciliationOutcome
  pub reasons : List ReconciliationReason
  pub attested_evidence_ids : List String
  pub result : Option SpecialistResult

pub record TaskReconciliation : Type 0 where
  pub body : ReconciliationBody
  pub reconciliation_hash : String

pub record BatchBody : Type 0 where
  pub mission_id : String
  pub plan_hash : String
  pub completed_at : ℕ
  pub reconciliations : List TaskReconciliation
  pub accepted_task_ids : List String
  pub retry_task_ids : List String
  pub blocked_task_ids : List String

pub record CoordinationBatchResult : Type 0 where
  pub body : BatchBody
  pub result_hash : String

-- The `leaseIdentity` of a new lease.
pub record LeaseIdentity : Type 0 where
  pub generation : ℕ
  pub issued_at : ℕ
  pub mission_id : String
  pub specialist_id : String
  pub specialist_version : String
  pub task_id : String

-- The `assignmentIdentity` of a new assignment.
pub record AssignmentIdentity : Type 0 where
  pub generation : ℕ
  pub lease_id : String
  pub mission_id : String
  pub mission_version : ℕ
  pub specialist_id : String
  pub specialist_version : String
  pub task_id : String

pub data Hashed : Type 0 where
  of_lease_identity : LeaseIdentity → Hashed
  of_assignment_identity : AssignmentIdentity → Hashed
  of_lease : OwnershipLease → Hashed
  of_assignment : AssignmentBody → Hashed
  of_plan_body : PlanBody → Hashed
  of_plan : CoordinationPlan → Hashed
  of_proposal : SpecialistProposal → Hashed
  of_reconciliation : ReconciliationBody → Hashed
  of_batch : BatchBody → Hashed
