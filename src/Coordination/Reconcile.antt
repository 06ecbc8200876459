-- ===== src/Coordination/Reconcile.antt =====
-- src/coordination/result.ts: the validation of a proposal and its reconciliation. `stable_hash` is the
-- SHA-256 digest of a value's canonical JSON text, `attests` the evidence authority, where a call that
-- throws attests nothing.

use odin_agent.Prelude.{
  ℕ, Bool, true, false, not, ◌&&◌, ◌||◌, Option, none, some, List, String, str_eq, map, ltb, leb,
  every, length, Result, ok, ◌>>=◌, ◌>>◌, guard, or_throw, map_result, if◌then◌else◌, is_distinct,
  sort_by,
}
use odin_agent.Prelude.Text.{is_text_after}
use odin_agent.Coordination.Types.{
  OwnershipClaim, SpecialistAssignment, CoordinationError, type_error,
}
use odin_agent.Coordination.Checks.{
  max_collection_items, max_reference_length, max_summary_length, is_text, is_identifier, is_token,
  is_sha256,
}
use odin_agent.Coordination.Ownership.{path_is_owned_for_write}
use odin_agent.Coordination.Outcomes.{
  SpecialistProposalOutcome, proposal_blocked, proposal_failed, proposal_success,
  SpecialistVerificationStatus, status_blocked, status_failed, partially_verified, unverified,
  verified, ProducerClass, independent_tool, specialist, EvidenceStatus, fail, pass, RawEvidence,
  SpecialistEvidenceReference, SpecialistArtifactReference, RawProposal, SpecialistProposal,
  SpecialistResult, Hashed, of_proposal,
}

unfoldable pub parse_outcome : String → Option SpecialistProposalOutcome
parse_outcome text =
    if str_eq text "BLOCKED"
    then some proposal_blocked
    else if str_eq text "FAILED"
    then some proposal_failed
    else if str_eq text "SUCCESS"
    then some proposal_success
    else none

unfoldable pub parse_verification_status : String → Option SpecialistVerificationStatus
parse_verification_status text =
    if str_eq text "BLOCKED"
    then some status_blocked
    else if str_eq text "FAILED"
    then some status_failed
    else if str_eq text "PARTIALLY_VERIFIED"
    then some partially_verified
    else if str_eq text "UNVERIFIED"
    then some unverified
    else if str_eq text "VERIFIED"
    then some verified
    else none

unfoldable pub parse_producer_class : String → Option ProducerClass
parse_producer_class text =
    if str_eq text "independent_tool"
    then some independent_tool
    else if str_eq text "specialist"
    then some specialist
    else none

unfoldable pub parse_evidence_status : String → Option EvidenceStatus
parse_evidence_status text =
    if str_eq text "FAIL" then some fail else if str_eq text "PASS" then some pass else none

-- The pairs of an outcome and a verification status that do not contradict each other.
abbrev pub is_consistent : SpecialistProposalOutcome → SpecialistVerificationStatus → Bool
is_consistent proposal_blocked status_blocked = true
is_consistent proposal_blocked _ = false
is_consistent proposal_failed status_failed = true
is_consistent proposal_failed _ = false
is_consistent proposal_success status_blocked = false
is_consistent proposal_success status_failed = false
is_consistent proposal_success _ = true

-- One round of `normalizeEvidence`.
unfoldable pub evidence_item :
    ℕ → ℕ → RawEvidence → Result CoordinationError SpecialistEvidenceReference
unfolding parse_producer_class parse_evidence_status
evidence_item started completed item = do
  guard (is_identifier item.id) type_error
  guard (is_token item.kind) type_error
  guard (is_text max_reference_length item.reference) type_error
  guard (is_sha256 item.content_hash) type_error
  observed ← or_throw item.observed_at type_error
  guard (not (ltb observed started || ltb completed observed)) type_error
  producer ← or_throw (parse_producer_class item.producer_class) type_error
  status ← or_throw (parse_evidence_status item.status) type_error
  ok (record {
    id = item.id;
    kind = item.kind;
    reference = item.reference;
    content_hash = item.content_hash;
    observed_at = observed;
    producer_class = producer;
    status = status;
  })

abbrev is_artifact : SpecialistArtifactReference → Bool
is_artifact item =
    is_identifier item.id
    && is_token item.kind
    && is_text max_reference_length item.reference
    && is_sha256 item.content_hash

abbrev pub is_bounded {ℓ} : {A : Type ℓ} → List A → Bool
is_bounded values = leb (length values) max_collection_items

-- `normalizeTextList`
unfoldable pub normalize_text_list : List String → Result CoordinationError (List String)
normalize_text_list values =
    guard (is_bounded values) type_error
    >> guard (every (is_text max_reference_length) values) type_error
    >> guard (is_distinct values) type_error
    >> ok (sort_by is_text_after values)

-- One round of `normalizeFilesChanged`.
unfoldable pub changed_file : List OwnershipClaim → String → Result CoordinationError String
changed_file claims path =
    path_is_owned_for_write path claims >>= λ owned. guard owned type_error >> ok path

unfoldable pub normalize_files_changed :
    List String → List OwnershipClaim → Result CoordinationError (List String)
normalize_files_changed values claims = do
  guard (is_bounded values) type_error
  files ← map_result (changed_file claims) values
  guard (is_distinct files) type_error
  ok (sort_by is_text_after files)

-- The comparison of the proposal's identity with the assignment.
abbrev pub is_of_assignment : SpecialistAssignment → RawProposal → Bool
is_of_assignment assignment proposal =
    str_eq proposal.assignment_id assignment.body.id
    && str_eq proposal.mission_id assignment.body.mission_id
    && str_eq proposal.task_id assignment.body.task_id
    && str_eq proposal.specialist_id assignment.body.lease.specialist_id
    && str_eq proposal.specialist_version assignment.body.lease.specialist_version

-- The comparison of the timestamps with the lease.
abbrev pub is_in_lease : SpecialistAssignment → ℕ → ℕ → ℕ → Bool
is_in_lease assignment started completed received =
    leb assignment.body.lease.issued_at started
    && leb started completed
    && leb completed received
    && ltb received assignment.body.lease.expires_at

module _ (is_after : String → String → Bool) (stable_hash : Hashed → String) where
  unfoldable pub normalize_evidence :
      List RawEvidence → ℕ → ℕ → Result CoordinationError (List SpecialistEvidenceReference)
  normalize_evidence values started completed = do
    guard (is_bounded values) type_error
    evidence ← map_result (evidence_item started completed) values
    guard (is_distinct (map (λ item. item.id) evidence)) type_error
    ok (sort_by (λ left right. is_after left.id right.id) evidence)

  unfoldable pub normalize_artifacts :
      List SpecialistArtifactReference → Result CoordinationError (List SpecialistArtifactReference)
  normalize_artifacts values =
      guard (is_bounded values) type_error
      >> guard (every is_artifact values) type_error
      >> guard (is_distinct (map (λ item. item.id) values)) type_error
      >> ok (sort_by (λ left right. is_after left.id right.id) values)

  unfoldable pub validate_proposal :
      SpecialistAssignment → RawProposal → ℕ → Result CoordinationError SpecialistResult
  unfolding parse_outcome parse_verification_status
  validate_proposal assignment proposal received = do
    guard (is_of_assignment assignment proposal) type_error
    started ← or_throw proposal.started_at type_error
    completed ← or_throw proposal.completed_at type_error
    guard (is_in_lease assignment started completed received) type_error
    outcome ← or_throw (parse_outcome proposal.outcome) type_error
    status ← or_throw (parse_verification_status proposal.verification_status) type_error
    guard (is_consistent outcome status) type_error
    guard (is_text max_summary_length proposal.summary) type_error
    evidence ← normalize_evidence proposal.evidence started completed
    artifacts ← normalize_artifacts proposal.artifacts
    files_changed ← normalize_files_changed proposal.files_changed assignment.body.lease.claims
    assumptions ← normalize_text_list proposal.assumptions
    risks ← normalize_text_list proposal.risks
    remaining_work ← normalize_text_list proposal.remaining_work
    let normalized : SpecialistProposal = record {
      assignment_id = proposal.assignment_id;
      mission_id = proposal.mission_id;
      task_id = proposal.task_id;
      specialist_id = proposal.specialist_id;
      specialist_version = proposal.specialist_version;
      started_at = started;
      completed_at = completed;
      outcome = outcome;
      summary = proposal.summary;
      evidence = evidence;
      files_changed = files_changed;
      artifacts = artifacts;
      assumptions = assumptions;
      risks = risks;
      remaining_work = remaining_work;
      verification_status = status;
    }
    ok (record { body = normalized; result_hash = stable_hash (of_proposal normalized) })
