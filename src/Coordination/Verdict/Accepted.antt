-- ===== src/Coordination/Verdict/Accepted.antt =====
-- src/coordination/result.ts: what a proposal that is accepted is like.
use odin_agent.Prelude.{
  ℕ, suc, ◌≤◌, ◌≡◌, refl, sym, ap, ◌∙◌, Bool-cases, ◌⊎◌, inl, inr, Bool, true, false, ◌&&◌, Option,
  some, List, [], ◌∷◌, ◌++◌, String, arith, any, ok, guard, All, All-widen, Exists, any-Exists,
  eq_iff, str_eq, >>=-eq-ok,
}
use odin_agent.Prelude.Text.{codes, is_prefix}
use odin_agent.Coordination.Types.{
  OwnershipClaim, repository, write, SpecialistAssignment, type_error,
}
use odin_agent.Coordination.Checks.{is_repository_path}
use odin_agent.Coordination.Ownership.{path_is_owned_for_write, claim_owns, is_inside}
use odin_agent.Coordination.Outcomes.{
  Hashed, RawProposal, SpecialistResult, SpecialistEvidenceReference, proposal_success,
  SpecialistVerificationStatus, verified, independent_tool, pass, accepted,
}
use odin_agent.Coordination.Reconcile.{validate_proposal, parse_outcome, parse_verification_status}
use odin_agent.Coordination.Verdict.{
  is_verified, fails, is_attested, reconcile_proposal, is_independent, is_pass,
}
use odin_agent.Coordination.Verdict.Laws.{ok_injective, IsChecked, reconcile_proposal-IsChecked}

-- The claim writes the repository at the path, or at a directory that the path lies in.
abbrev pub IsWriter : String → OwnershipClaim → Type 0
IsWriter path claim =
    (claim.namespace ≡ repository)
    × (claim.access ≡ write)
    × ((claim.key ≡ path) ⊎ ((rest : List ℕ) × (codes path ≡ codes claim.key ++ 47 ∷ rest)))

-- An independent tool reports that its check passed, and the authority attests it.
abbrev pub IsProof :
    (SpecialistAssignment → SpecialistEvidenceReference → Bool)
    → SpecialistAssignment
    → SpecialistEvidenceReference
    → Type 0
IsProof attests assignment item =
    (item.producer_class ≡ independent_tool)
    × (item.status ≡ pass)
    × (attests assignment item ≡ true)

-- The proposal is of the assignment, says that it succeeded and is verified within the time of the lease,
-- rests on proof and on no evidence that failed, and changes only files that the lease writes.
pub record IsAcceptable (attests : SpecialistAssignment → SpecialistEvidenceReference → Bool)
    (assignment : SpecialistAssignment) (proposal : RawProposal) (received : ℕ)
    (result : SpecialistResult) : Type 0 where
  pub has_assignment : proposal.assignment_id ≡ assignment.body.id
  pub has_mission : proposal.mission_id ≡ assignment.body.mission_id
  pub has_task : proposal.task_id ≡ assignment.body.task_id
  pub has_specialist : proposal.specialist_id ≡ assignment.body.lease.specialist_id
  pub has_version : proposal.specialist_version ≡ assignment.body.lease.specialist_version
  pub has_started : proposal.started_at ≡ some result.body.started_at
  pub has_completed : proposal.completed_at ≡ some result.body.completed_at
  pub is_begun : assignment.body.lease.issued_at ≤ result.body.started_at
  pub is_done : result.body.started_at ≤ result.body.completed_at
  pub is_handed_in : result.body.completed_at ≤ received
  pub is_live : suc received ≤ assignment.body.lease.expires_at
  pub is_success : proposal.outcome ≡ "SUCCESS"
  pub is_verified_by_it : proposal.verification_status ≡ "VERIFIED"
  pub has_no_failure : All (λ item. item.status ≡ pass) result.body.evidence
  pub has_proof : Exists (IsProof attests assignment) result.body.evidence
  pub are_owned :
      All (λ path. Exists (IsWriter path) assignment.body.lease.claims) result.body.files_changed

-- The texts that are parsed to a success and to a verification.
success_text : (text : String) → parse_outcome text ≡ some proposal_success → text ≡ "SUCCESS"
unfolding parse_outcome
success_text text h = ground (arith, eq_iff text "SUCCESS")

verified_text : (text : String) → parse_verification_status text ≡ some verified → text ≡ "VERIFIED"
unfolding parse_verification_status
verified_text text h = ground (arith, eq_iff text "VERIFIED")

is_verified-verified : (s : SpecialistVerificationStatus) → is_verified s ≡ true → s ≡ verified
is_verified-verified s h = ground arith

is_proof :
    (attests : SpecialistAssignment → SpecialistEvidenceReference → Bool)
    (assignment : SpecialistAssignment) (item : SpecialistEvidenceReference)
    → (is_independent item.producer_class && is_pass item.status && attests assignment item) ≡ true
    → IsProof attests assignment item
is_proof attests assignment item h = (ground arith, ground arith, ground arith)

none_fails :
    (evidence : List SpecialistEvidenceReference)
    → any fails evidence ≡ false
    → All (λ item. item.status ≡ pass) evidence
none_fails [] h = tt
none_fails (item ∷ rest) h = (ground arith, none_fails rest (ground arith))

prefix_rest : (xs ys : List ℕ) → is_prefix xs ys ≡ true → (rest : List ℕ) × (ys ≡ xs ++ rest)
unfolding is_prefix
prefix_rest [] ys h = (ys, refl)
prefix_rest (x ∷ xs) [] h = absurd (cc)
prefix_rest (x ∷ xs) (y ∷ ys) h =
    let (rest, e) = prefix_rest xs ys (ground arith) in
    let heads : x ≡ y = ground arith in (rest, λ i. sym heads i ∷ e i)

append_assoc : (xs ys zs : List ℕ) → (xs ++ ys) ++ zs ≡ xs ++ (ys ++ zs)
append_assoc [] ys zs = refl
append_assoc (x ∷ xs) ys zs = λ i. x ∷ append_assoc xs ys zs i

claim_owns-IsWriter :
    (path : String) (claim : OwnershipClaim) → claim_owns path claim ≡ true → IsWriter path claim
unfolding claim_owns is_inside
claim_owns-IsWriter path claim h = (
  ground arith,
  ground arith,
  elim (Bool-cases (str_eq claim.key path)) [
    | inl e ↦ inl ((eq_iff claim.key path).0 e)
    | inr e ↦
        let inside : is_prefix (codes claim.key ++ 47 ∷ []) (codes path) ≡ true = ground arith in
        let (rest, split) = prefix_rest (codes claim.key ++ 47 ∷ []) (codes path) inside in
        inr (rest, split ∙ append_assoc (codes claim.key) (47 ∷ []) rest)
  ],
)

owned-Exists :
    (path : String) (claims : List OwnershipClaim)
    → path_is_owned_for_write path claims ≡ ok true
    → Exists (IsWriter path) claims
unfolding path_is_owned_for_write
owned-Exists path claims h =
    let (_, _, owned) = >>=-eq-ok (guard (is_repository_path path) type_error) _ h in
    any-Exists (IsWriter path) (claim_owns path) claims (claim_owns-IsWriter path)
      (ok_injective owned)

module _ (is_after : String → String → Bool) (stable_hash : Hashed → String)
    (attests : SpecialistAssignment → SpecialistEvidenceReference → Bool) where
  checked-IsAcceptable :
      (assignment : SpecialistAssignment) (proposal : RawProposal) (received : ℕ)
      (result : SpecialistResult)
      → IsChecked is_after stable_hash attests assignment proposal received result
      → IsAcceptable attests assignment proposal received result
  checked-IsAcceptable assignment proposal received result c =
      let v = c.is_validated in
      let same = v.has_identity in
      let in_time = v.is_timely in
      let outcome : parse_outcome proposal.outcome ≡ some proposal_success =
        v.has_outcome ∙ ap some c.is_success in
      let status : parse_verification_status proposal.verification_status ≡ some verified =
        v.has_status
        ∙ ap some (is_verified-verified result.body.verification_status c.is_verified_result) in
      record {
        has_assignment = (eq_iff proposal.assignment_id assignment.body.id).0 (ground arith);
        has_mission = (eq_iff proposal.mission_id assignment.body.mission_id).0 (ground arith);
        has_task = (eq_iff proposal.task_id assignment.body.task_id).0 (ground arith);
        has_specialist =
            (eq_iff proposal.specialist_id assignment.body.lease.specialist_id).0 (ground arith);
        has_version =
            (eq_iff proposal.specialist_version assignment.body.lease.specialist_version).0
              (ground arith);
        has_started = v.has_started;
        has_completed = v.has_completed;
        is_begun = ground arith;
        is_done = ground arith;
        is_handed_in = ground arith;
        is_live = ground arith;
        is_success = success_text proposal.outcome outcome;
        is_verified_by_it = verified_text proposal.verification_status status;
        has_no_failure = none_fails result.body.evidence c.has_no_failure;
        has_proof =
            any-Exists (IsProof attests assignment)
              (is_attested is_after stable_hash attests assignment) result.body.evidence
              (is_proof attests assignment) c.has_attested;
        are_owned =
            All-widen (λ path. path_is_owned_for_write path assignment.body.lease.claims ≡ ok true)
              (λ path. Exists (IsWriter path) assignment.body.lease.claims)
              result.body.files_changed (λ path. owned-Exists path assignment.body.lease.claims)
              v.are_owned;
      }

  -- An accepted proposal has the ids and the version of the assignment and its specialist, is begun,
  -- completed and handed in, in this order, within the time of the lease, says SUCCESS and VERIFIED, has only
  -- evidence that passed, some of it from an independent tool and attested by the authority, and changes only
  -- files at or below a key that the lease claims for writing in the repository.
  pub reconcile_proposal-IsAcceptable :
      (assignment : SpecialistAssignment) (value : Option RawProposal) (received : ℕ)
      → (reconcile_proposal is_after stable_hash attests assignment value received).body.outcome
        ≡ accepted
      → (proposal : RawProposal) × (result : SpecialistResult) × (value ≡ some proposal)
        × (validate_proposal is_after stable_hash assignment proposal received ≡ ok result)
        × IsAcceptable attests assignment proposal received result
  reconcile_proposal-IsAcceptable assignment value received h =
      let (proposal, result, given, valid, checked) =
        reconcile_proposal-IsChecked is_after stable_hash attests assignment value received h in
      (
        proposal,
        result,
        given,
        valid,
        checked-IsAcceptable assignment proposal received result checked,
      )
