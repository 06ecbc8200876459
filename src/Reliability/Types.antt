-- ===== src/Reliability/Types.antt =====
-- src/reliability/types.ts and internal.ts: the data, the JSON that is hashed, and the checks.
use odin_agent.Prelude.{
  ℕ, Bool, true, false, ◌&&◌, ◌||◌, Option, some, List, [], ◌∷◌, String, ltb, leb, ◌==◌, every,
  length, Result, ok, err, if◌then◌else◌,
}
use odin_agent.Prelude.Text.{codes}
use odin_agent.Prelude.Number.{Number, safe_nat}

pub data FailureSource : Type 0 where
  persistence planner provider runtime sandbox tool verification : FailureSource

pub data FailureCategory : Type 0 where
  budget cancelled conflict context execution plan policy transient unknown verification :
      FailureCategory

pub data FailureSideEffect : Type 0 where
  idempotent irreversible_or_unknown none reversible : FailureSideEffect

pub data RecoveryAction : Type 0 where
  alternative_plan checkpoint_and_block escalate_model escalate_verifier reduce_context :
      RecoveryAction
  rollback stop_cancelled targeted_repair targeted_retry : RecoveryAction

pub data RecoveryOutcome : Type 0 where
  failed no_progress succeeded : RecoveryOutcome

pub record FailureSignal : Type 0 where
  pub mission_id : String
  pub task_id : String
  pub source : FailureSource
  pub phase : String
  pub reason_code : String
  pub retryable : Bool
  pub side_effect : FailureSideEffect
  pub evidence_hash : Option String
  pub rollback_evidence_hash : Option String
  pub independent_evidence : Bool
  pub contradictory_evidence : Bool

-- The signal with its category: what a signature is the hash of.
pub record FailureBody : Type 0 where
  pub signal : FailureSignal
  pub category : FailureCategory

pub record ClassifiedFailure : Type 0 where
  pub body : FailureBody
  pub signature : String

pub record RecoveryAttempt : Type 0 where
  pub failure_signature : String
  pub action : RecoveryAction
  pub outcome : RecoveryOutcome
  pub decision_hash : String

-- `Count` is any number before the checks, and a natural number behind them.
pub record RecoveryBudget (Count : Type 0) : Type 0 where
  pub retries_remaining : Count
  pub repairs_remaining : Count
  pub alternative_plans_remaining : Count
  pub rollbacks_remaining : Count
  pub verifier_escalations_remaining : Count
  pub model_escalations_remaining : Count
  pub max_repeated_strategy_failures : Count

pub record RecoveryCapabilities : Type 0 where
  pub context_reduction : Bool
  pub model_escalation : Bool
  pub verifier_escalation : Bool

pub record RecoveryRequest (Count : Type 0) : Type 0 where
  pub failure : ClassifiedFailure
  pub attempts : List RecoveryAttempt
  pub budget : RecoveryBudget Count
  pub capabilities : RecoveryCapabilities

pub record RecoveryDecision : Type 0 where
  pub action : RecoveryAction
  pub reason_code : String
  pub failure_signature : String
  pub decision_hash : String

-- The `INVALID_INPUT` errors, by the check that throws.
pub data ReliabilityError : Type 0 where
  bad_identifier bad_digest bad_integer : ReliabilityError
  evidence_missing evidence_not_independent rollback_not_reversible : ReliabilityError
  signature_mismatch too_many_attempts conflicting_attempts no_strategy_failure : ReliabilityError

abbrev is_alphanumeric : ℕ → Bool
is_alphanumeric c = leb 48 c && leb c 57 || leb 65 c && leb c 90 || leb 97 c && leb c 122 || c == 95

-- `.`, `:`, `/`, `@` and `-`
abbrev is_separator : ℕ → Bool
is_separator c = c == 46 || c == 58 || c == 47 || c == 64 || c == 45

abbrev is_identifier_text : List ℕ → Bool
is_identifier_text [] = false
is_identifier_text (c ∷ cs) =
    is_alphanumeric c && every (λ d. is_alphanumeric d || is_separator d) cs && leb (length cs) 255

-- `/^[A-Za-z0-9_][A-Za-z0-9._:/@-]{0,255}$/u`
unfoldable pub is_identifier : String → Bool
is_identifier s = is_identifier_text (codes s)

-- `/^[a-f0-9]{64}$/u`
unfoldable pub is_sha256 : String → Bool
is_sha256 s =
    every (λ c. leb 48 c && leb c 57 || leb 97 c && leb c 102) (codes s) && length (codes s) == 64

unfoldable pub identifier : String → Result ReliabilityError String
identifier s = if is_identifier s then ok s else err bad_identifier

unfoldable pub sha256 : String → Result ReliabilityError String
sha256 s = if is_sha256 s then ok s else err bad_digest

-- `boundedInteger`
unfoldable pub bounded_integer : ℕ → Number → Result ReliabilityError ℕ
bounded_integer maximum x = elim (safe_nat x) [
  | Option.none ↦ err bad_integer
  | some n ↦ if ltb maximum n then err bad_integer else ok n
]

abbrev action_code : RecoveryAction → ℕ
action_code alternative_plan = 0
action_code checkpoint_and_block = 1
action_code escalate_model = 2
action_code escalate_verifier = 3
action_code reduce_context = 4
action_code rollback = 5
action_code stop_cancelled = 6
action_code targeted_repair = 7
action_code targeted_retry = 8

abbrev pub action_eq : RecoveryAction → RecoveryAction → Bool
action_eq a b = action_code a == action_code b

abbrev pub is_succeeded : RecoveryOutcome → Bool
is_succeeded succeeded = true
is_succeeded _ = false
