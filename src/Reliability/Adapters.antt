-- ===== src/Reliability/Adapters.antt =====
-- src/reliability/adapters.ts: how a thrown error becomes a classified failure.
use odin_agent.Prelude.{
  ◌≡◌, ◌≢◌, refl, sym, ap, ◌∙◌, Bool, true, false, Option, String, arith, inl, inr, Result-cases,
  Result, ok,
}
use odin_agent.Prelude.Number.{Number}
use odin_agent.Reliability.Types.{
  FailureSource, FailureSideEffect, FailureSignal, FailureBody, ClassifiedFailure, RecoveryRequest,
  RecoveryDecision, RecoveryCapabilities, ReliabilityError, targeted_retry,
}
use odin_agent.Reliability.Classifier.{check_signal, body_of, classify_failure}
use odin_agent.Reliability.Controller.{Hashing, decide}
use odin_agent.Reliability.Controller.Safety.{permits, decide-permits}

pub record ThrownFailureContext : Type 0 where
  pub mission_id : String
  pub task_id : String
  pub phase : String
  pub fallback_source : FailureSource
  pub side_effect : FailureSideEffect
  pub evidence_hash : Option String
  pub rollback_evidence_hash : Option String
  pub independent_evidence : Bool
  pub contradictory_evidence : Bool

-- What was thrown: a provider's or a tool's error, with its category and `retryable`, or anything else.
pub data ThrownError : Type 0 where
  provider_error : String → Bool → ThrownError
  tool_runtime_error : String → Bool → ThrownError
  other_error : ThrownError

abbrev signal_with : ThrownFailureContext → FailureSource → String → Bool → FailureSignal
signal_with c source reason_code retryable = record {
  mission_id = c.mission_id;
  task_id = c.task_id;
  source = source;
  phase = c.phase;
  reason_code = reason_code;
  retryable = retryable;
  side_effect = c.side_effect;
  evidence_hash = c.evidence_hash;
  rollback_evidence_hash = c.rollback_evidence_hash;
  independent_evidence = c.independent_evidence;
  contradictory_evidence = c.contradictory_evidence;
}

abbrev pub thrown_signal : ThrownFailureContext → ThrownError → FailureSignal
thrown_signal c (provider_error category retryable) =
    signal_with c FailureSource.provider category retryable
thrown_signal c (tool_runtime_error category retryable) =
    signal_with c FailureSource.tool category retryable
thrown_signal c other_error = signal_with c c.fallback_source "unknown_failure" false

-- `isProviderError(error) && error.retryable`, and the same of a tool's error.
abbrev pub is_declared_retryable : ThrownError → Bool
is_declared_retryable (provider_error category retryable) = retryable
is_declared_retryable (tool_runtime_error category retryable) = retryable
is_declared_retryable other_error = false

module _ (k : Hashing) where
  unfoldable pub classify_thrown_failure :
      ThrownError → ThrownFailureContext → Result ReliabilityError ClassifiedFailure
  classify_thrown_failure error context = classify_failure k.hash_body (thrown_signal context error)

  thrown_retryable :
      (error : ThrownError) (c : ThrownFailureContext)
      → (thrown_signal c error).retryable ≡ is_declared_retryable error
  thrown_retryable (provider_error category retryable) c = refl
  thrown_retryable (tool_runtime_error category retryable) c = refl
  thrown_retryable other_error c = refl

  failure_retryable :
      (error : ThrownError) (c : ThrownFailureContext) (f : ClassifiedFailure)
      → classify_thrown_failure error c ≡ ok f
      → f.body.signal.retryable ≡ is_declared_retryable error
  unfolding classify_thrown_failure classify_failure body_of
  failure_retryable error c f h = elim (Result-cases (check_signal (thrown_signal c error))) [
    | inr (e, p) ↦ absurd (ground arith)
    | inl (u, p) ↦
        let same : f.body.signal ≡ thrown_signal c error = ground arith in
        ap (λ (s : FailureSignal). s.retryable) same ∙ thrown_retryable error c
  ]

  retry-permits :
      (f : FailureBody) (c : RecoveryCapabilities)
      → permits f c targeted_retry ≡ true
      → f.signal.retryable ≡ true
  retry-permits f c h = ground arith

  -- An error that does not declare itself retryable is never answered with a retry, whatever its
  -- context, the earlier attempts, the budget and the capabilities.
  pub thrown_not_retried :
      (error : ThrownError) (c : ThrownFailureContext) (v : RecoveryRequest Number)
      (d : RecoveryDecision)
      → classify_thrown_failure error c ≡ ok v.failure
      → is_declared_retryable error ≡ false
      → decide k v ≡ ok d
      → d.action ≢ targeted_retry
  thrown_not_retried error c v d made final decided again =
      let permitted = decide-permits k v d decided in
      let retryable =
        retry-permits v.failure.body v.capabilities
          (sym (ap (λ a. permits v.failure.body v.capabilities a) again) ∙ permitted) in
      absurd (cc (retryable, failure_retryable error c v.failure made, final))
