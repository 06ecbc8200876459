-- ===== src/Reliability/Tests.antt =====
-- Tests of the classifier and the controller (src/reliability) on a failed network call.
use odin_agent.Prelude.{
  All, ◌≢◌, ℕ, ◌≡◌, refl, true, false, none, List, [], ◌∷◌, String, arith, lookup, insert, ok,
}
use odin_agent.Prelude.Number.{Number, nat, safe_nat}
use odin_agent.Reliability.Types.{
  FailureSource, FailureCategory, FailureSideEffect, FailureSignal, FailureBody, ClassifiedFailure,
  RecoveryBudget, RecoveryCapabilities, RecoveryAttempt, RecoveryRequest, RecoveryDecision, sha256,
  is_sha256, identifier, is_identifier, bounded_integer, targeted_retry, escalate_model,
  no_progress,
}
use odin_agent.Reliability.Classifier.{classify_category, check_signal, body_of, classify_failure}
use odin_agent.Reliability.Controller.{
  Request, Hashing, candidates_for, is_exhausted, repeats_failed_strategy, choose, decision, decide,
  normalize_request, normalize_attempt, normalize_budget, collect_attempt,
}
use odin_agent.Reliability.Adapters.{
  ThrownFailureContext, other_error, thrown_signal, classify_thrown_failure, thrown_not_retried,
}
use odin_agent.Reliability.Controller.Safety.{
  permits, decide-permits, IsAffordable, IsNotRepeated, decide-IsAffordable, decide-IsNotRepeated,
}
use odin_agent.Reliability.Controller.Acceptance.{
  request_of, HasDigests, decide-signed, classified-decided,
}

controller : Unit {0}
unfolding decide normalize_request normalize_attempt normalize_budget collect_attempt choose
    decision candidates_for is_exhausted repeats_failed_strategy sha256 is_sha256 identifier
    is_identifier bounded_integer classify_category check_signal body_of classify_failure lookup
    insert safe_nat
controller = tt

abbrev digest : String
digest = "aaaaaaaaaaaaaaaaaaaaaaaaaaaaaaaaaaaaaaaaaaaaaaaaaaaaaaaaaaaaaaaa"

abbrev hashing : Hashing
hashing = record {
  hash_body = λ b. digest;
  hash_attempt = λ a. a.failure_signature;
  hash_decision = λ d. digest;
  is_before = λ a b. true;
}

abbrev signal : FailureSignal
signal = record {
  mission_id = "m";
  task_id = "t";
  source = FailureSource.provider;
  phase = "call";
  reason_code = "network";
  retryable = true;
  side_effect = FailureSideEffect.none;
  evidence_hash = none;
  rollback_evidence_hash = none;
  independent_evidence = false;
  contradictory_evidence = false;
}

abbrev failure : ClassifiedFailure
failure = record {
  body = record { signal = signal; category = FailureCategory.transient };
  signature = digest;
}

abbrev raw_budget : RecoveryBudget Number
raw_budget = record {
  retries_remaining = nat 2;
  repairs_remaining = nat 0;
  alternative_plans_remaining = nat 0;
  rollbacks_remaining = nat 0;
  verifier_escalations_remaining = nat 0;
  model_escalations_remaining = nat 1;
  max_repeated_strategy_failures = nat 1;
}

abbrev budget : RecoveryBudget ℕ
budget = record {
  retries_remaining = 2;
  repairs_remaining = 0;
  alternative_plans_remaining = 0;
  rollbacks_remaining = 0;
  verifier_escalations_remaining = 0;
  model_escalations_remaining = 1;
  max_repeated_strategy_failures = 1;
}

abbrev capabilities : RecoveryCapabilities
capabilities = record {
  context_reduction = false;
  model_escalation = true;
  verifier_escalation = false;
}

abbrev tried : List RecoveryAttempt
tried =
    record {
      failure_signature = digest;
      action = targeted_retry;
      outcome = no_progress;
      decision_hash = digest;
    }
    ∷ []

-- The retry was tried once, and is not to be repeated.
abbrev request : RecoveryRequest Number
request = record {
  failure = failure;
  attempts = tried;
  budget = raw_budget;
  capabilities = capabilities;
}

abbrev normal : Request
normal = record {
  failure = failure;
  attempts = tried;
  budget = budget;
  capabilities = capabilities;
}

abbrev escalated : RecoveryDecision
escalated = record {
  action = escalate_model;
  reason_code = "transient_retry_exhausted";
  failure_signature = digest;
  decision_hash = digest;
}

decided : decide hashing request ≡ ok escalated
unfolding controller
decided = refl

classified : classify_failure hashing.hash_body signal ≡ ok failure
unfolding controller
classified = refl

bounded : normalize_budget raw_budget ≡ ok budget
unfolding controller
bounded = refl

digests : (body : FailureBody) → is_sha256 (hashing.hash_body body) ≡ true
unfolding controller
digests body = refl

decide-permits_example : permits failure.body capabilities escalate_model ≡ true
decide-permits_example = decide-permits hashing request escalated decided

decide-IsAffordable_example :
    (b : RecoveryBudget ℕ) × (normalize_budget raw_budget ≡ ok b) × IsAffordable escalate_model b
decide-IsAffordable_example = decide-IsAffordable hashing request escalated decided

decide-IsNotRepeated_example :
    (r : Request) × (normalize_request hashing request ≡ ok r) × IsNotRepeated r escalate_model
decide-IsNotRepeated_example = decide-IsNotRepeated hashing request escalated decided

decide-signed_example : hashing.hash_body failure.body ≡ failure.signature
decide-signed_example = decide-signed hashing request escalated decided

abbrev tried_twice : List RecoveryAttempt
tried_twice =
    record {
      failure_signature = digest;
      action = escalate_model;
      outcome = no_progress;
      decision_hash = "bbbbbbbbbbbbbbbbbbbbbbbbbbbbbbbbbbbbbbbbbbbbbbbbbbbbbbbbbbbbbbbb";
    }
    ∷ tried

have_digests : All HasDigests tried_twice
unfolding controller
have_digests = ((refl, refl), ((refl, refl), tt))

classified-decided_example :
    (d : RecoveryDecision) × (decide hashing
        (request_of hashing failure tried_twice raw_budget capabilities)
      ≡ ok d)
    × (d.failure_signature ≡ hashing.hash_body (body_of signal))
classified-decided_example =
    classified-decided hashing signal failure tried_twice raw_budget budget capabilities digests
      classified (omega arith) have_digests ((refl, tt), (tt, tt)) bounded (omega arith)

abbrev context : ThrownFailureContext
context = record {
  mission_id = "m";
  task_id = "t";
  phase = "call";
  fallback_source = FailureSource.runtime;
  side_effect = FailureSideEffect.none;
  evidence_hash = none;
  rollback_evidence_hash = none;
  independent_evidence = false;
  contradictory_evidence = false;
}

abbrev unknown_request : RecoveryRequest Number
unknown_request = record request {
  failure = record {
    body = record {
      signal = thrown_signal context other_error;
      category = FailureCategory.unknown;
    };
    signature = digest;
  };
}

abbrev diagnosed : RecoveryDecision
diagnosed = record escalated { reason_code = "unknown_failure_requires_stronger_diagnosis" }

unknown_classified :
    classify_thrown_failure hashing other_error context ≡ ok unknown_request.failure
unfolding controller classify_thrown_failure
unknown_classified = refl

unknown_decided : decide hashing unknown_request ≡ ok diagnosed
unfolding controller
unknown_decided = refl

thrown_not_retried_example : escalate_model ≢ targeted_retry
thrown_not_retried_example =
    thrown_not_retried hashing other_error context unknown_request diagnosed unknown_classified refl
      unknown_decided
