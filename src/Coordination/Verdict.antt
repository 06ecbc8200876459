-- ===== src/Coordination/Verdict.antt =====
-- src/coordination/result.ts: reconcileProposal, executionFailureReconciliation and createReconciliation.
pub mod Laws
pub mod Accepted
use odin_agent.Prelude.{
  ℕ, Bool, true, false, not, ◌&&◌, ◌||◌, Option, none, some, List, [], ◌∷◌, ◌++◌, String, map, ◌==◌,
  any, select, length, Result, ok, err, if◌then◌else◌, sort_by,
}
use odin_agent.Prelude.Text.{is_text_after}
use odin_agent.Coordination.Types.{SpecialistAssignment, CoordinationError}
use odin_agent.Coordination.Outcomes.{
  SpecialistProposalOutcome, proposal_blocked, proposal_failed, proposal_success,
  SpecialistVerificationStatus, status_blocked, status_failed, partially_verified, unverified,
  verified, ProducerClass, independent_tool, specialist, EvidenceStatus, fail, pass,
  SpecialistEvidenceReference, RawProposal, SpecialistResult, ReconciliationOutcome, accepted,
  blocked, retry_required, ReconciliationReason, failed_evidence, invalid_result, not_verified,
  specialist_blocked, specialist_failed, ReconciliationBody, TaskReconciliation, Hashed,
  of_reconciliation,
}
use odin_agent.Coordination.Reconcile.{validate_proposal}

abbrev pub is_verified : SpecialistVerificationStatus → Bool
is_verified verified = true
is_verified _ = false

abbrev pub is_pass : EvidenceStatus → Bool
is_pass pass = true
is_pass fail = false

abbrev pub is_independent : ProducerClass → Bool
is_independent independent_tool = true
is_independent specialist = false

abbrev pub fails : SpecialistEvidenceReference → Bool
fails item = not (is_pass item.status)

-- `reasons`, in the order of the pushes.
abbrev pub doubts : Bool → Bool → List ReconciliationReason
doubts has_failed is_unverified =
    (if has_failed then failed_evidence ∷ [] else [])
    ++ (if is_unverified then not_verified ∷ [] else [])

module _ (is_after : String → String → Bool) (stable_hash : Hashed → String)
    (attests : SpecialistAssignment → SpecialistEvidenceReference → Bool) where
  -- `createReconciliation`
  unfoldable pub create_reconciliation :
      SpecialistAssignment
      → ReconciliationOutcome
      → List ReconciliationReason
      → List String
      → Option SpecialistResult
      → TaskReconciliation
  create_reconciliation assignment outcome reasons attested result =
      let body : ReconciliationBody = record {
        assignment_id = assignment.body.id;
        mission_id = assignment.body.mission_id;
        task_id = assignment.body.task_id;
        specialist_id = assignment.body.lease.specialist_id;
        outcome = outcome;
        reasons = reasons;
        attested_evidence_ids = attested;
        result = result;
      } in
      record { body = body; reconciliation_hash = stable_hash (of_reconciliation body) }

  -- `executionFailureReconciliation`
  unfoldable pub execution_failure_reconciliation :
      SpecialistAssignment → ReconciliationReason → TaskReconciliation
  execution_failure_reconciliation assignment reason =
      create_reconciliation assignment retry_required (reason ∷ []) [] none

  abbrev pub is_attested : SpecialistAssignment → SpecialistEvidenceReference → Bool
  is_attested assignment item =
      is_independent item.producer_class && is_pass item.status && attests assignment item

  -- `attestedEvidenceIds`
  unfoldable pub attested_ids :
      SpecialistAssignment → List SpecialistEvidenceReference → List String
  attested_ids assignment evidence =
      sort_by is_text_after (map (λ item. item.id) (select (is_attested assignment) evidence))

  -- The end of `reconcileProposal`, with the reasons that speak against the result.
  abbrev pub reconcile_doubts :
      SpecialistAssignment
      → SpecialistResult
      → List String
      → List ReconciliationReason
      → TaskReconciliation
  reconcile_doubts assignment result attested [] =
      create_reconciliation assignment accepted [] attested (some result)
  reconcile_doubts assignment result attested (reason ∷ reasons) =
      create_reconciliation assignment retry_required (reason ∷ reasons) attested (some result)

  -- `reconcileProposal` on a valid result, by its outcome.
  abbrev pub reconcile_result :
      SpecialistAssignment → SpecialistResult → SpecialistProposalOutcome → TaskReconciliation
  reconcile_result assignment result proposal_blocked =
      create_reconciliation assignment blocked (specialist_blocked ∷ []) [] (some result)
  reconcile_result assignment result proposal_failed =
      create_reconciliation assignment retry_required (specialist_failed ∷ []) [] (some result)
  reconcile_result assignment result proposal_success =
      let attested = attested_ids assignment result.body.evidence in
      reconcile_doubts assignment result attested (
        doubts (any fails result.body.evidence)
          (not (is_verified result.body.verification_status) || length attested == 0))

  abbrev pub reconcile_validated :
      SpecialistAssignment → Result CoordinationError SpecialistResult → TaskReconciliation
  reconcile_validated assignment (err thrown) =
      create_reconciliation assignment blocked (invalid_result ∷ []) [] none
  reconcile_validated assignment (ok result) =
      reconcile_result assignment result result.body.outcome

  -- A value without the fields or the types of a proposal is `none`.
  unfoldable pub reconcile_proposal :
      SpecialistAssignment → Option RawProposal → ℕ → TaskReconciliation
  reconcile_proposal assignment none received =
      create_reconciliation assignment blocked (invalid_result ∷ []) [] none
  reconcile_proposal assignment (some proposal) received =
      reconcile_validated assignment
        (validate_proposal is_after stable_hash assignment proposal received)
