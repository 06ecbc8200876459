-- ===== src/Coordination/Verdict/Laws.antt =====
-- src/coordination/result.ts: what has been checked when a proposal is accepted.
use odin_agent.Prelude.{
  ℕ, ◌≡◌, refl, ap, ◌∙◌, subst, Bool, true, false, not, ◌||◌, Option, none, some, List, [], ◌∷◌,
  String, arith, map, ◌==◌, any, select, length, Result, ok, ◌>>=◌, guard, or_throw, map_result,
  >>=-eq-ok, Result-cases, All, All-sort_by, is_distinct, length-sort_by, Bool-cases, inl, inr,
}
use odin_agent.Prelude.Text.{is_text_after}
use odin_agent.Coordination.Types.{
  OwnershipClaim, SpecialistAssignment, CoordinationError, type_error,
}
use odin_agent.Coordination.Checks.{is_text, max_summary_length}
use odin_agent.Coordination.Ownership.{path_is_owned_for_write}
use odin_agent.Coordination.Outcomes.{
  Hashed, RawProposal, SpecialistResult, SpecialistEvidenceReference, SpecialistProposalOutcome,
  proposal_blocked, proposal_failed, proposal_success, accepted, ReconciliationReason,
}
use odin_agent.Coordination.Reconcile.{
  validate_proposal, normalize_evidence, normalize_artifacts, normalize_files_changed,
  normalize_text_list, changed_file, is_of_assignment, is_in_lease, is_consistent, parse_outcome,
  parse_verification_status, is_bounded,
}
use odin_agent.Coordination.Verdict.{
  is_verified, fails, doubts, is_attested, attested_ids, create_reconciliation, reconcile_doubts,
  reconcile_result, reconcile_validated, reconcile_proposal,
}

IsOwned : List OwnershipClaim → String → Type 0
IsOwned claims path = path_is_owned_for_write path claims ≡ ok true

pub ok_injective :
    {A : Type 0} {x y : A} → ◌≡◌ {A = Result CoordinationError A} (ok x) (ok y) → x ≡ y
ok_injective h = cc

guard-true : (b : Bool) {u : Unit {0}} → guard b type_error ≡ ok u → b ≡ true
guard-true true h = refl
guard-true false h = absurd (cc)

or_throw-some :
    {A : Type 0} (o : Option A) {x : A}
    → ◌≡◌ {A = Result CoordinationError A} (or_throw o type_error) (ok x)
    → o ≡ some x
or_throw-some (some y) h = cc
or_throw-some none h = absurd (cc)

owned_path :
    (owned : Bool) (path one : String)
    → (guard owned type_error >>= λ _. ok path) ≡ ok one
    → (owned ≡ true) × (path ≡ one)
owned_path true path one h = (refl, cc)
owned_path false path one h = absurd (cc)

changed_files-IsOwned :
    (claims : List OwnershipClaim) (paths : List String) {files : List String}
    → map_result (changed_file claims) paths ≡ ok files
    → All (IsOwned claims) files
unfolding changed_file IsOwned
changed_files-IsOwned claims [] {files} h =
    let same : [] ≡ files = cc in subst (All (IsOwned claims)) same tt
changed_files-IsOwned claims (path ∷ paths) {files} h =
    let (one, first, rest) = >>=-eq-ok (changed_file claims path) _ h in
    let (more, second, third) = >>=-eq-ok (map_result (changed_file claims) paths) _ rest in
    let (owned, a, b) = >>=-eq-ok (path_is_owned_for_write path claims) _ first in
    let (is_owned, keeps) = owned_path owned path one b in
    let tail = changed_files-IsOwned claims paths second in
    subst (All (IsOwned claims)) (ok_injective third)
      (subst (IsOwned claims) keeps (a ∙ ap ok is_owned), tail)

normalize_files_changed-IsOwned :
    (claims : List OwnershipClaim) (paths : List String) {files : List String}
    → normalize_files_changed paths claims ≡ ok files
    → All (IsOwned claims) files
unfolding normalize_files_changed
normalize_files_changed-IsOwned claims paths {files} h =
    let (_, _, h1) = >>=-eq-ok (guard (is_bounded paths) type_error) _ h in
    let (found, first, h2) = >>=-eq-ok (map_result (changed_file claims) paths) _ h1 in
    let (_, _, h3) = >>=-eq-ok (guard (is_distinct found) type_error) _ h2 in
    subst (All (IsOwned claims)) (ok_injective h3)
      (All-sort_by is_text_after (IsOwned claims) found (changed_files-IsOwned claims paths first))

some_selected :
    {A B : Type 0} (p : A → Bool) (f : A → B) (xs : List A)
    → (length (map f (select p xs)) == 0) ≡ false
    → any p xs ≡ true
some_selected p f [] h = absurd (cc)
some_selected p f (x ∷ xs) h = elim (Bool-cases (p x)) [
  | inl e ↦ ground arith
  | inr e ↦ ground (arith, some_selected p f xs)
]

module _ (is_after : String → String → Bool) (stable_hash : Hashed → String) where
  -- What the validation has checked of a result.
  pub record IsValidated (assignment : SpecialistAssignment) (proposal : RawProposal) (received : ℕ)
      (result : SpecialistResult) : Type 0 where
    pub has_identity : is_of_assignment assignment proposal ≡ true
    pub is_timely :
        is_in_lease assignment result.body.started_at result.body.completed_at received ≡ true
    pub agrees : is_consistent result.body.outcome result.body.verification_status ≡ true
    pub has_started : proposal.started_at ≡ some result.body.started_at
    pub has_completed : proposal.completed_at ≡ some result.body.completed_at
    pub has_outcome : parse_outcome proposal.outcome ≡ some result.body.outcome
    pub has_status :
        parse_verification_status proposal.verification_status
        ≡ some result.body.verification_status
    pub are_owned :
        All
          (λ path. path_is_owned_for_write path assignment.body.lease.claims ≡ ok true)
          result.body.files_changed

  validate_proposal-IsValidated :
      (assignment : SpecialistAssignment) (proposal : RawProposal) (received : ℕ)
      {result : SpecialistResult}
      → validate_proposal is_after stable_hash assignment proposal received ≡ ok result
      → IsValidated assignment proposal received result
  unfolding validate_proposal IsOwned
  validate_proposal-IsValidated assignment proposal received {result} h =
      let (_, identity, h1) =
        >>=-eq-ok (guard (is_of_assignment assignment proposal) type_error) _ h in
      let (started, start, h2) = >>=-eq-ok (or_throw proposal.started_at type_error) _ h1 in
      let (completed, complete, h3) = >>=-eq-ok (or_throw proposal.completed_at type_error) _ h2 in
      let (_, timely, h4) =
        >>=-eq-ok (guard (is_in_lease assignment started completed received) type_error) _ h3 in
      let (outcome, named, h5) =
        >>=-eq-ok (or_throw (parse_outcome proposal.outcome) type_error) _ h4 in
      let (status, stated, h6) =
        >>=-eq-ok (or_throw (parse_verification_status proposal.verification_status) type_error) _
          h5 in
      let (_, agrees, h7) = >>=-eq-ok (guard (is_consistent outcome status) type_error) _ h6 in
      let (_, _, h8) =
        >>=-eq-ok (guard (is_text max_summary_length proposal.summary) type_error) _ h7 in
      let (evidence, _, h9) =
        >>=-eq-ok (normalize_evidence is_after stable_hash proposal.evidence started completed) _
          h8 in
      let (artifacts, _, h10) =
        >>=-eq-ok (normalize_artifacts is_after stable_hash proposal.artifacts) _ h9 in
      let (files, owned, h11) =
        >>=-eq-ok (normalize_files_changed proposal.files_changed assignment.body.lease.claims) _
          h10 in
      let (assumptions, _, h12) = >>=-eq-ok (normalize_text_list proposal.assumptions) _ h11 in
      let (risks, _, h13) = >>=-eq-ok (normalize_text_list proposal.risks) _ h12 in
      let (work, _, h14) = >>=-eq-ok (normalize_text_list proposal.remaining_work) _ h13 in
      subst (IsValidated assignment proposal received) (ok_injective h14) (record {
        has_identity = guard-true (is_of_assignment assignment proposal) identity;
        is_timely = guard-true (is_in_lease assignment started completed received) timely;
        agrees = guard-true (is_consistent outcome status) agrees;
        has_started = or_throw-some proposal.started_at start;
        has_completed = or_throw-some proposal.completed_at complete;
        has_outcome = or_throw-some (parse_outcome proposal.outcome) named;
        has_status = or_throw-some (parse_verification_status proposal.verification_status) stated;
        are_owned =
            normalize_files_changed-IsOwned assignment.body.lease.claims proposal.files_changed
              owned;
      })

  module _ (attests : SpecialistAssignment → SpecialistEvidenceReference → Bool) where
    -- The tests that an accepted reconciliation has passed.
    pub record IsChecked (assignment : SpecialistAssignment) (proposal : RawProposal) (received : ℕ)
        (result : SpecialistResult) : Type 0 where
      pub is_validated : IsValidated assignment proposal received result
      pub is_success : result.body.outcome ≡ proposal_success
      pub is_verified_result : is_verified result.body.verification_status ≡ true
      pub has_no_failure : any fails result.body.evidence ≡ false
      pub has_attested :
          any (is_attested is_after stable_hash attests assignment) result.body.evidence ≡ true

    some_attested :
        (assignment : SpecialistAssignment) (evidence : List SpecialistEvidenceReference)
        → (length (attested_ids is_after stable_hash attests assignment evidence) == 0) ≡ false
        → any (is_attested is_after stable_hash attests assignment) evidence ≡ true
    unfolding attested_ids
    some_attested assignment evidence h =
        let p = is_attested is_after stable_hash attests assignment in
        some_selected p (λ item. item.id) evidence
          (subst (λ (n : ℕ). (n == 0) ≡ false)
            (length-sort_by is_text_after (map (λ item. item.id) (select p evidence))) h)

    doubts_none :
        (has_failed is_unverified : Bool)
        → doubts has_failed is_unverified ≡ []
        → (has_failed ≡ false) × (is_unverified ≡ false)
    doubts_none false false h = (refl, refl)
    doubts_none false true h = absurd (cc)
    doubts_none true is_unverified h = absurd (cc)

    reconcile_doubts-none :
        (assignment : SpecialistAssignment) (result : SpecialistResult) (attested : List String)
        (reasons : List ReconciliationReason)
        → (reconcile_doubts is_after stable_hash attests assignment result attested
            reasons).body.outcome
          ≡ accepted
        → reasons ≡ []
    unfolding create_reconciliation
    reconcile_doubts-none assignment result attested [] h = refl
    reconcile_doubts-none assignment result attested (reason ∷ reasons) h = absurd (cc)

    reconcile_result-IsChecked :
        (assignment : SpecialistAssignment) (proposal : RawProposal) (received : ℕ)
        (result : SpecialistResult) (outcome : SpecialistProposalOutcome)
        → result.body.outcome ≡ outcome
        → IsValidated assignment proposal received result
        → (reconcile_result is_after stable_hash attests assignment result outcome).body.outcome
          ≡ accepted
        → IsChecked assignment proposal received result
    unfolding create_reconciliation
    reconcile_result-IsChecked assignment proposal received result proposal_blocked e v h =
        absurd (cc)
    reconcile_result-IsChecked assignment proposal received result proposal_failed e v h =
        absurd (cc)
    reconcile_result-IsChecked assignment proposal received result proposal_success e v h =
        let evidence = result.body.evidence in
        let attested = attested_ids is_after stable_hash attests assignment evidence in
        let unverified =
          not (is_verified result.body.verification_status) || length attested == 0 in
        let (a, b) = doubts_none (any fails evidence) unverified (
          reconcile_doubts-none assignment result attested (doubts (any fails evidence) unverified)
            h) in
        record {
          is_validated = v;
          is_success = e;
          is_verified_result = ground (arith, b);
          has_no_failure = a;
          has_attested = some_attested assignment evidence (ground (arith, b));
        }

    -- A proposal that is accepted has passed the tests.
    pub reconcile_proposal-IsChecked :
        (assignment : SpecialistAssignment) (value : Option RawProposal) (received : ℕ)
        → (reconcile_proposal is_after stable_hash attests assignment value received).body.outcome
          ≡ accepted
        → (proposal : RawProposal) × (result : SpecialistResult) × (value ≡ some proposal)
          × (validate_proposal is_after stable_hash assignment proposal received ≡ ok result)
          × IsChecked assignment proposal received result
    unfolding reconcile_proposal create_reconciliation
    reconcile_proposal-IsChecked assignment none received h = absurd (cc)
    reconcile_proposal-IsChecked assignment (some proposal) received h =
        elim (Result-cases (validate_proposal is_after stable_hash assignment proposal received)) [
          | inr (e, p) ↦
              let h' =
                subst
                  (λ (r : Result CoordinationError SpecialistResult).
                    (reconcile_validated is_after stable_hash attests assignment r).body.outcome
                    ≡ accepted)
                  p h in
              absurd (cc)
          | inl (result, p) ↦
              let h' =
                subst
                  (λ (r : Result CoordinationError SpecialistResult).
                    (reconcile_validated is_after stable_hash attests assignment r).body.outcome
                    ≡ accepted)
                  p h in
              (
                proposal,
                result,
                refl,
                p,
                reconcile_result-IsChecked assignment proposal received result result.body.outcome
                    refl (validate_proposal-IsValidated assignment proposal received p) h',
              )
        ]
