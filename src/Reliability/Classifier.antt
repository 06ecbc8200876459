-- ===== src/Reliability/Classifier.antt =====
-- src/reliability/classifier.ts
use odin_agent.Prelude.{
  Bool, true, false, not, ◌&&◌, Option, none, some, [], ◌∷◌, String, Dict, lookup, is_some, Result,
  ok, ◌>>=◌, ◌>>◌, guard,
}
use odin_agent.Reliability.Types.{
  FailureSource, FailureCategory, FailureSideEffect, FailureSignal, FailureBody, ClassifiedFailure,
  ReliabilityError, identifier, sha256, evidence_missing, evidence_not_independent,
  rollback_not_reversible,
}

abbrev pub category_by_reason : Dict FailureCategory
category_by_reason =
    ("aborted", FailureCategory.cancelled)
    ∷ ("budget_exceeded", FailureCategory.budget)
    ∷ ("cancelled", FailureCategory.cancelled)
    ∷ ("conflict", FailureCategory.conflict)
    ∷ ("context_overflow", FailureCategory.context)
    ∷ ("denied", FailureCategory.policy)
    ∷ ("dependency_cycle", FailureCategory.plan)
    ∷ ("invalid_input", FailureCategory.plan)
    ∷ ("malformed_response", FailureCategory.plan)
    ∷ ("network", FailureCategory.transient)
    ∷ ("permission", FailureCategory.policy)
    ∷ ("provider_timeout", FailureCategory.transient)
    ∷ ("quality_gate_failed", FailureCategory.verification)
    ∷ ("quota", FailureCategory.budget)
    ∷ ("rate_limit", FailureCategory.transient)
    ∷ ("retryable", FailureCategory.transient)
    ∷ ("require_approval", FailureCategory.policy)
    ∷ ("stale_preimage", FailureCategory.conflict)
    ∷ ("timeout", FailureCategory.transient)
    ∷ ("unavailable", FailureCategory.transient)
    ∷ ("verification_contradiction", FailureCategory.verification)
    ∷ ("verification_failed", FailureCategory.verification)
    ∷ []

-- The category of a source, when the reason code names none.
abbrev pub category_of_source : FailureSource → FailureCategory
category_of_source FailureSource.verification = FailureCategory.verification
category_of_source FailureSource.planner = FailureCategory.plan
category_of_source FailureSource.tool = FailureCategory.execution
category_of_source FailureSource.sandbox = FailureCategory.execution
category_of_source FailureSource.persistence = FailureCategory.conflict
category_of_source _ = FailureCategory.unknown

-- `classifyCategory`, for a reason code that names no member of `Object.prototype`.
unfoldable pub classify_category : FailureSource → String → Bool → FailureCategory
classify_category source reason_code true = FailureCategory.verification
classify_category source reason_code false = elim (lookup reason_code category_by_reason) [
  | some explicit ↦ explicit
  | none ↦ category_of_source source
]

-- `value === undefined ? undefined : sha256(value)`
abbrev pub optional_sha256 : Option String → Result ReliabilityError (Option String)
optional_sha256 none = ok none
optional_sha256 (some h) = sha256 h >>= λ x. ok (some x)

abbrev pub is_reversible : FailureSideEffect → Bool
is_reversible FailureSideEffect.reversible = true
is_reversible _ = false

-- The checks of a signal.
unfoldable pub check_signal : FailureSignal → Result ReliabilityError (Unit {0})
check_signal s = identifier s.mission_id >>= λ _. identifier s.task_id >>= λ _.
    identifier s.phase >>= λ _. identifier s.reason_code >>= λ _.
    optional_sha256 s.evidence_hash >>= λ _. optional_sha256 s.rollback_evidence_hash >>= λ _.
    guard (not (s.independent_evidence && not (is_some s.evidence_hash))) evidence_missing
    >> guard (not (s.contradictory_evidence && not s.independent_evidence)) evidence_not_independent
    >> guard (not (is_some s.rollback_evidence_hash && not (is_reversible s.side_effect)))
        rollback_not_reversible

unfoldable pub body_of : FailureSignal → FailureBody
body_of s = record {
  signal = s;
  category = classify_category s.source s.reason_code s.contradictory_evidence;
}

module _ (hash_body : FailureBody → String) where
  unfoldable pub classify_failure : FailureSignal → Result ReliabilityError ClassifiedFailure
  classify_failure s =
      check_signal s >> ok (record { body = body_of s; signature = hash_body (body_of s) })
