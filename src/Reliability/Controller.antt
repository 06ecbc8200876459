-- ===== src/Reliability/Controller.antt =====
-- src/reliability/controller.ts: ReliabilityController.
use Prim.Native.String
use odin_agent.Prelude.{
  ℕ, Bool, true, false, not, ◌&&◌, ◌||◌, Option, none, some, List, [], ◌∷◌, ◌++◌, String, str_eq,
  Dict, lookup, insert, ltb, leb, ◌==◌, length, select, is_some, map_result, fold_result, Result,
  ok, err, ◌>>=◌, ◌>>◌, guard, if◌then◌else◌,
}
use odin_agent.Prelude.Number.{Number}
use odin_agent.Reliability.Types.{
  FailureCategory, FailureSideEffect, FailureBody, ClassifiedFailure, RecoveryAction,
  RecoveryAttempt, RecoveryBudget, RecoveryCapabilities, RecoveryRequest, RecoveryDecision,
  ReliabilityError, sha256, bounded_integer, action_eq, is_succeeded, signature_mismatch,
  too_many_attempts, conflicting_attempts, no_strategy_failure, alternative_plan,
  checkpoint_and_block, escalate_model, escalate_verifier, reduce_context, rollback, stop_cancelled,
  targeted_repair, targeted_retry,
}
pub mod Safety
pub mod Acceptance

abbrev pub Request : Type 0
Request = RecoveryRequest ℕ

abbrev pub Candidate : Type 0
Candidate = RecoveryAction × String

-- `...(test ? [candidate] : [])`
abbrev pub only_if : Bool → Candidate → List Candidate
only_if test c = if test then c ∷ [] else []

abbrev context_candidates : Request → List Candidate
context_candidates r =
    only_if r.capabilities.context_reduction
      (reduce_context, "reduce_context_preserving_invariants")
    ++ only_if r.failure.body.signal.retryable (targeted_retry, "retry_after_context_reduction")
    ++ only_if r.capabilities.model_escalation (escalate_model, "context_reduction_unavailable")

abbrev is_retry_unsafe : Bool → FailureSideEffect → Bool
is_retry_unsafe retryable FailureSideEffect.reversible = true
is_retry_unsafe retryable _ = not retryable

abbrev transient_candidates : Request → List Candidate
transient_candidates r =
    if is_retry_unsafe r.failure.body.signal.retryable r.failure.body.signal.side_effect
    then (checkpoint_and_block, "transient_retry_not_safe") ∷ []
    else (targeted_retry, "retry_typed_transient_failure")
      ∷ only_if r.capabilities.model_escalation (escalate_model, "transient_retry_exhausted")

abbrev verification_candidates : Request → List Candidate
verification_candidates r =
    if r.failure.body.signal.contradictory_evidence && r.capabilities.verifier_escalation
    then (escalate_verifier, "resolve_independent_evidence_conflict")
      ∷ (checkpoint_and_block, "verifier_escalation_exhausted")
      ∷ []
    else (targeted_repair, "repair_against_verification_evidence")
      ∷ (only_if r.capabilities.verifier_escalation (escalate_verifier, "repair_exhausted")
          ++ only_if r.capabilities.model_escalation
              (escalate_model, "verification_repair_exhausted"))

abbrev plan_candidates : Request → List Candidate
plan_candidates r =
    (alternative_plan, "replace_invalid_or_conflicting_plan")
    ∷ only_if r.capabilities.model_escalation (escalate_model, "alternative_plan_exhausted")

abbrev unknown_candidates : Request → List Candidate
unknown_candidates r =
    if r.capabilities.model_escalation
    then (escalate_model, "unknown_failure_requires_stronger_diagnosis")
      ∷ (checkpoint_and_block, "model_escalation_exhausted")
      ∷ []
    else (checkpoint_and_block, "unknown_failure_has_no_safe_recovery") ∷ []

-- The candidates of a failure that neither its side effect nor its authority settles.
abbrev pub candidates_of : FailureCategory → Request → List Candidate
candidates_of FailureCategory.context r = context_candidates r
candidates_of FailureCategory.transient r = transient_candidates r
candidates_of FailureCategory.verification r = verification_candidates r
candidates_of FailureCategory.plan r = plan_candidates r
candidates_of FailureCategory.conflict r = plan_candidates r
candidates_of _ r = unknown_candidates r

abbrev pub candidates_by_side_effect : FailureSideEffect → Option String → Request → List Candidate
candidates_by_side_effect FailureSideEffect.irreversible_or_unknown h r =
    (checkpoint_and_block, "unsafe_side_effect_state") ∷ []
candidates_by_side_effect FailureSideEffect.reversible (some h) r =
    (rollback, "restore_runtime_attested_preimage")
    ∷ (checkpoint_and_block, "rollback_unavailable")
    ∷ []
candidates_by_side_effect _ h r = candidates_of r.failure.body.category r

abbrev pub candidates_by_category : FailureCategory → Request → List Candidate
candidates_by_category FailureCategory.cancelled r = (stop_cancelled, "cancelled") ∷ []
candidates_by_category FailureCategory.policy r =
    (checkpoint_and_block, "authority_or_budget_required") ∷ []
candidates_by_category FailureCategory.budget r =
    (checkpoint_and_block, "authority_or_budget_required") ∷ []
candidates_by_category _ r =
    candidates_by_side_effect r.failure.body.signal.side_effect
      r.failure.body.signal.rollback_evidence_hash r

unfoldable pub candidates_for : Request → List Candidate
candidates_for r = candidates_by_category r.failure.body.category r

unfoldable pub is_exhausted : RecoveryAction → RecoveryBudget ℕ → Bool
is_exhausted targeted_retry b = b.retries_remaining == 0
is_exhausted targeted_repair b = b.repairs_remaining == 0
is_exhausted alternative_plan b = b.alternative_plans_remaining == 0
is_exhausted rollback b = b.rollbacks_remaining == 0
is_exhausted escalate_verifier b = b.verifier_escalations_remaining == 0
is_exhausted escalate_model b = b.model_escalations_remaining == 0
is_exhausted _ b = false

abbrev pub is_failure_of : RecoveryAction → Request → RecoveryAttempt → Bool
is_failure_of action r a =
    str_eq a.failure_signature r.failure.signature
    && action_eq a.action action
    && not (is_succeeded a.outcome)

unfoldable pub repeats_failed_strategy : RecoveryAction → Request → Bool
repeats_failed_strategy action r =
    leb r.budget.max_repeated_strategy_failures
      (length (select (is_failure_of action r) r.attempts))

unfoldable pub normalize_attempt : RecoveryAttempt → Result ReliabilityError RecoveryAttempt
normalize_attempt a = sha256 a.failure_signature >>= λ _. sha256 a.decision_hash >>= λ _. ok a

unfoldable pub normalize_budget : RecoveryBudget Number → Result ReliabilityError (RecoveryBudget ℕ)
normalize_budget b = do
  plans ← bounded_integer 1000 b.alternative_plans_remaining
  repeats ← bounded_integer 10 b.max_repeated_strategy_failures
  models ← bounded_integer 1000 b.model_escalations_remaining
  repairs ← bounded_integer 1000 b.repairs_remaining
  retries ← bounded_integer 1000 b.retries_remaining
  rollbacks ← bounded_integer 1000 b.rollbacks_remaining
  verifiers ← bounded_integer 1000 b.verifier_escalations_remaining
  ok (record {
    retries_remaining = retries;
    repairs_remaining = repairs;
    alternative_plans_remaining = plans;
    rollbacks_remaining = rollbacks;
    verifier_escalations_remaining = verifiers;
    model_escalations_remaining = models;
    max_repeated_strategy_failures = repeats;
  })

abbrev pub values {ℓ} : {V : Type ℓ} → Dict V → List V
values [] = []
values ((_, v) ∷ m) = v ∷ values m

-- What the hash of a decision is taken of.
pub record DecisionBody : Type 0 where
  pub action : RecoveryAction
  pub request : Request
  pub reason_code : String

-- `hashJson` of a failure without its signature, of an attempt and of a decision, and the order of
-- `localeCompare`.
pub record Hashing : Type 0 where
  pub hash_body : FailureBody → String
  pub hash_attempt : RecoveryAttempt → String
  pub hash_decision : DecisionBody → String
  pub is_before : String → String → Bool

abbrev pub is_eligible : Request → RecoveryAction → Bool
is_eligible r action = not (is_exhausted action r.budget) && not (repeats_failed_strategy action r)

module _ (k : Hashing) where
  -- One round of the loop over the attempts: `attemptsByDecision` with the attempt set.
  unfoldable pub collect_attempt :
      Dict RecoveryAttempt → RecoveryAttempt → Result ReliabilityError (Dict RecoveryAttempt)
  collect_attempt m a = elim (lookup a.decision_hash m) [
    | none ↦ ok (insert a.decision_hash a m)
    | some previous ↦
        guard (str_eq (k.hash_attempt previous) (k.hash_attempt a)) conflicting_attempts
        >> ok (insert a.decision_hash a m)
  ]

  abbrev insert_sorted : RecoveryAttempt → List RecoveryAttempt → List RecoveryAttempt
  insert_sorted a [] = a ∷ []
  insert_sorted a (b ∷ bs) =
      if k.is_before a.decision_hash b.decision_hash then a ∷ b ∷ bs else b ∷ insert_sorted a bs

  -- `sort` by `localeCompare` of the decision hashes, which are distinct.
  abbrev pub sort_attempts : List RecoveryAttempt → List RecoveryAttempt
  sort_attempts [] = []
  sort_attempts (a ∷ rest) = insert_sorted a (sort_attempts rest)

  unfoldable pub normalize_request : RecoveryRequest Number → Result ReliabilityError Request
  normalize_request v = do
    _ ← sha256 v.failure.signature
    guard (str_eq (k.hash_body v.failure.body) v.failure.signature) signature_mismatch
    guard (not (ltb 100 (length v.attempts))) too_many_attempts
    attempts ← map_result normalize_attempt v.attempts
    by_decision ← fold_result collect_attempt [] attempts
    budget ← normalize_budget v.budget
    guard (not (ltb budget.max_repeated_strategy_failures 1)) no_strategy_failure
    ok (record {
      failure = v.failure;
      attempts = sort_attempts (values by_decision);
      budget = budget;
      capabilities = v.capabilities;
    })

  unfoldable pub decision : RecoveryAction → String → Request → RecoveryDecision
  decision action reason_code r = record {
    action = action;
    reason_code = reason_code;
    failure_signature = r.failure.signature;
    decision_hash =
        k.hash_decision (record { action = action; request = r; reason_code = reason_code });
  }

  -- What is left when no candidate is eligible.
  abbrev pub fallback : FailureCategory → Request → RecoveryDecision
  fallback FailureCategory.cancelled r = decision stop_cancelled "cancelled" r
  fallback _ r = decision checkpoint_and_block "no_safe_recovery_remaining" r

  -- The loop of `decide` over the candidates.
  unfoldable pub choose : Request → List Candidate → RecoveryDecision
  choose r [] = fallback r.failure.body.category r
  choose r ((action, reason_code) ∷ cs) =
      if is_eligible r action then decision action reason_code r else choose r cs

  unfoldable pub decide : RecoveryRequest Number → Result ReliabilityError RecoveryDecision
  decide v = normalize_request v >>= λ r. ok (choose r (candidates_for r))
