-- ===== src/Durable/Runner.antt =====
-- src/durable/runner.ts: what DurableJobRunner makes of a handler's run, and how it settles the job.
-- The timers are flags: whether the timeout fired, whether a heartbeat saw a requested cancellation,
-- whether the signal was aborted, and the error of a heartbeat that failed.
use odin_agent.Prelude.{
  ℕ, ◌≡◌, refl, sym, subst, Bool, true, false, not, ◌&&◌, ◌||◌, Option, none, some, String, arith,
  Bool-cases, inl, inr, Result, ok, err, ◌>>=◌, if◌then◌else◌,
}
use odin_agent.Durable.Types.{
  ArtifactReference, DurableJobRecord, DurableError, JobLease, is_artifact, is_reason_code,
  is_between,
}
use odin_agent.Durable.Rows.{Db}
use odin_agent.Durable.Jobs.{Platform}
use odin_agent.Durable.Settle.{
  settle_job_success, settle_job_retry, settle_job_blocked, settle_job_cancelled,
}

pub data JobHandlerResult : Type 0 where
  success : ArtifactReference → JobHandlerResult
  retried : String → ℕ → JobHandlerResult
  blocked_by : String → JobHandlerResult
  stopped : JobHandlerResult

-- How `execute` ended: with a value, or with an error.
pub data Handled : Type 0 where
  returned : JobHandlerResult → Handled
  thrown : Handled

pub record Signals : Type 0 where
  pub timeout_triggered : Bool
  pub cancellation_observed : Bool
  pub aborted : Bool
  pub heartbeat_failure : Option DurableError

unfoldable pub is_handler_result : JobHandlerResult → Bool
is_handler_result (success result) = is_artifact result
is_handler_result (retried reason delay) = is_reason_code reason && is_between 0 3600000 delay
is_handler_result (blocked_by reason) = is_reason_code reason
is_handler_result stopped = true

-- The catch clause.
abbrev pub handler_failure : Bool → JobHandlerResult
handler_failure timeout_triggered =
    retried (if timeout_triggered then "handler_timeout" else "handler_error") 0

-- `validateHandlerResult` of what `execute` returns, with every error caught.
unfoldable pub handler_outcome : Bool → Handled → JobHandlerResult
handler_outcome timeout_triggered thrown = handler_failure timeout_triggered
handler_outcome timeout_triggered (returned result) =
    if is_handler_result result then result else handler_failure timeout_triggered

-- The outcome that `#executeLease` settles.
unfoldable pub outcome_of : Signals → Handled → Result DurableError JobHandlerResult
outcome_of s h = elim s.heartbeat_failure [
  | some e ↦ err e
  | none ↦
      if s.cancellation_observed || s.aborted && not s.timeout_triggered
      then ok stopped
      else if s.timeout_triggered
      then ok (retried "handler_timeout" 0)
      else ok (handler_outcome s.timeout_triggered h)
]

module _ (p : Platform) where
  unfoldable pub settle :
      Db → JobLease → JobHandlerResult → ℕ → Result DurableError (Db × DurableJobRecord)
  settle db lease (success result) now = settle_job_success p db lease result now
  settle db lease (retried reason delay) now = settle_job_retry p db lease reason delay now
  settle db lease (blocked_by reason) now = settle_job_blocked p db lease reason now
  settle db lease stopped now = settle_job_cancelled p db lease now

  -- The end of `#executeLease`: the outcome, settled.
  unfoldable pub finish_lease :
      Db → JobLease → Signals → Handled → ℕ → Result DurableError (Db × DurableJobRecord)
  finish_lease db lease s h now = outcome_of s h >>= λ outcome. settle db lease outcome now

-- A success is only settled when the handler returned it with a valid artifact, the timeout had not
-- fired, the signal was not aborted, and no heartbeat failed or saw a requested cancellation.
pub outcome_of-success :
    (s : Signals) (h : Handled) (result : ArtifactReference)
    → outcome_of s h ≡ ok (success result)
    → (h ≡ returned (success result))
      × (is_artifact result ≡ true)
      × (s.timeout_triggered ≡ false)
      × (s.aborted ≡ false)
      × (s.cancellation_observed ≡ false)
      × (s.heartbeat_failure ≡ none)
unfolding outcome_of handler_outcome is_handler_result
outcome_of-success s h result made = ground arith

failure_is_result : (t : Bool) → is_handler_result (handler_failure t) ≡ true
unfolding is_handler_result is_reason_code
failure_is_result true = refl
failure_is_result false = refl

handled_is_result : (t : Bool) (h : Handled) → is_handler_result (handler_outcome t h) ≡ true
unfolding handler_outcome
handled_is_result t thrown = failure_is_result t
handled_is_result t (returned result) = elim (Bool-cases (is_handler_result result)) [
  | inl good ↦
      subst (λ b. is_handler_result (if b then result else handler_failure t) ≡ true) (sym good)
        good
  | inr bad ↦
      subst (λ b. is_handler_result (if b then result else handler_failure t) ≡ true) (sym bad)
        (failure_is_result t)
]

stopped_is_result : is_handler_result stopped ≡ true
unfolding is_handler_result
stopped_is_result = refl

-- Every outcome that a runner settles passes the check of handler results, whatever the handler did.
pub outcome_of-is_handler_result :
    (s : Signals) (h : Handled) (outcome : JobHandlerResult)
    → outcome_of s h ≡ ok outcome
    → is_handler_result outcome ≡ true
unfolding outcome_of
outcome_of-is_handler_result s h outcome made =
    ground
      (arith, failure_is_result true, handled_is_result s.timeout_triggered h, stopped_is_result)
