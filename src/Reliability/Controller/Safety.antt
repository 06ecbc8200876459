-- ===== src/Reliability/Controller/Safety.antt =====
-- src/reliability/controller.ts: which recovery a decision may name, and which one it names.
use odin_agent.Prelude.{
  ℕ, suc, ◌+◌, ◌≤◌, length, select, str_eq, ◌≡◌, refl, sym, ap, ◌∙◌, subst, ◌⊎◌, inl, inr, Bool,
  true, false, not, ◌&&◌, Option, some, List, [], ◌∷◌, String, arith, All, Bool-cases, Result-cases,
  map_result, fold_result, ok, if◌then◌else◌,
}
use odin_agent.Prelude.Number.{Number}
use odin_agent.Reliability.Types.{
  FailureCategory, FailureSideEffect, FailureBody, RecoveryAttempt, RecoveryOutcome, failed,
  no_progress, succeeded, is_succeeded, action_eq, ClassifiedFailure, RecoveryAction,
  RecoveryBudget, RecoveryCapabilities, RecoveryRequest, RecoveryDecision, alternative_plan,
  checkpoint_and_block, escalate_model, escalate_verifier, reduce_context, rollback, stop_cancelled,
  targeted_repair, targeted_retry,
}
use odin_agent.Reliability.Controller.{
  Request, Candidate, candidates_for, choose, decision, fallback, decide, is_eligible, is_exhausted,
  is_failure_of, repeats_failed_strategy, normalize_request, normalize_attempt, normalize_budget,
  collect_attempt, Hashing,
}

-- The category leaves room for a recovery.
abbrev pub is_recoverable : FailureCategory → Bool
is_recoverable FailureCategory.cancelled = false
is_recoverable FailureCategory.policy = false
is_recoverable FailureCategory.budget = false
is_recoverable _ = true

abbrev pub is_cancelled : FailureCategory → Bool
is_cancelled FailureCategory.cancelled = true
is_cancelled _ = false

-- The side effect does not stand in the way of going on: it is not irreversible, and nothing is
-- to be rolled back.
abbrev pub is_clean : FailureSideEffect → Option String → Bool
is_clean FailureSideEffect.irreversible_or_unknown h = false
is_clean FailureSideEffect.reversible (some h) = false
is_clean _ _ = true

abbrev pub permits_rollback : FailureSideEffect → Option String → Bool
permits_rollback FailureSideEffect.reversible (some h) = true
permits_rollback _ _ = false

abbrev pub permits_retry : FailureCategory → FailureSideEffect → Bool
permits_retry FailureCategory.context _ = true
permits_retry FailureCategory.transient FailureSideEffect.reversible = false
permits_retry FailureCategory.transient _ = true
permits_retry _ _ = false

abbrev pub is_context : FailureCategory → Bool
is_context FailureCategory.context = true
is_context _ = false

abbrev pub is_verification : FailureCategory → Bool
is_verification FailureCategory.verification = true
is_verification _ = false

abbrev pub is_plan : FailureCategory → Bool
is_plan FailureCategory.plan = true
is_plan FailureCategory.conflict = true
is_plan _ = false

-- When a recovery action is safe for a failure.
abbrev pub permits : FailureBody → RecoveryCapabilities → RecoveryAction → Bool
permits f c stop_cancelled = is_cancelled f.category
permits f c checkpoint_and_block = not (is_cancelled f.category)
permits f c rollback =
    is_recoverable f.category
    && permits_rollback f.signal.side_effect f.signal.rollback_evidence_hash
permits f c targeted_retry =
    is_clean f.signal.side_effect f.signal.rollback_evidence_hash
    && f.signal.retryable
    && permits_retry f.category f.signal.side_effect
permits f c reduce_context =
    is_clean f.signal.side_effect f.signal.rollback_evidence_hash
    && is_context f.category
    && c.context_reduction
permits f c targeted_repair =
    is_clean f.signal.side_effect f.signal.rollback_evidence_hash && is_verification f.category
permits f c escalate_verifier =
    is_clean f.signal.side_effect f.signal.rollback_evidence_hash
    && is_verification f.category
    && c.verifier_escalation
permits f c alternative_plan =
    is_clean f.signal.side_effect f.signal.rollback_evidence_hash && is_plan f.category
permits f c escalate_model =
    is_clean f.signal.side_effect f.signal.rollback_evidence_hash
    && is_recoverable f.category
    && c.model_escalation

-- The budget has one left of what the action uses up.
abbrev pub IsAffordable : RecoveryAction → RecoveryBudget ℕ → Type 0
IsAffordable targeted_retry b = 1 ≤ b.retries_remaining
IsAffordable targeted_repair b = 1 ≤ b.repairs_remaining
IsAffordable alternative_plan b = 1 ≤ b.alternative_plans_remaining
IsAffordable rollback b = 1 ≤ b.rollbacks_remaining
IsAffordable escalate_verifier b = 1 ≤ b.verifier_escalations_remaining
IsAffordable escalate_model b = 1 ≤ b.model_escalations_remaining
IsAffordable reduce_context b = Unit
IsAffordable checkpoint_and_block b = Unit
IsAffordable stop_cancelled b = Unit

abbrev pub is_same : RecoveryAction → RecoveryAction → Bool
is_same targeted_retry targeted_retry = true
is_same targeted_repair targeted_repair = true
is_same alternative_plan alternative_plan = true
is_same rollback rollback = true
is_same escalate_verifier escalate_verifier = true
is_same escalate_model escalate_model = true
is_same reduce_context reduce_context = true
is_same checkpoint_and_block checkpoint_and_block = true
is_same stop_cancelled stop_cancelled = true
is_same _ _ = false

-- What an attempt with this outcome adds to the number of failures.
abbrev pub weight : RecoveryOutcome → ℕ
weight failed = 1
weight no_progress = 1
weight succeeded = 0

-- How many of the attempts took the action on a failure of the signature, and did not succeed.
abbrev pub failures : String → RecoveryAction → List RecoveryAttempt → ℕ
failures signature action [] = 0
failures signature action (a ∷ rest) =
    (if str_eq a.failure_signature signature && is_same a.action action
      then weight a.outcome
      else 0)
    + failures signature action rest

action_eq-is_same : (a b : RecoveryAction) → action_eq a b ≡ is_same a b
action_eq-is_same a b = ground arith

is_failure-weight :
    (action : RecoveryAction) (r : Request) (a : RecoveryAttempt)
    → (if is_failure_of action r a then 1 else 0) ≡ (
        if str_eq a.failure_signature r.failure.signature && is_same a.action action
        then weight a.outcome
        else 0)
is_failure-weight action r a = outcome_weight a.outcome
  where
    outcome_weight :
        (o : RecoveryOutcome)
        → (if str_eq a.failure_signature r.failure.signature
              && action_eq a.action action
              && not (is_succeeded o)
            then 1
            else 0)
          ≡ (if str_eq a.failure_signature r.failure.signature && is_same a.action action
              then weight o
              else 0)
    outcome_weight failed = ground (arith, action_eq-is_same a.action action)
    outcome_weight no_progress = ground (arith, action_eq-is_same a.action action)
    outcome_weight succeeded = ground (arith, action_eq-is_same a.action action)

length-select_cons :
    (p : RecoveryAttempt → Bool) (a : RecoveryAttempt) (rest : List RecoveryAttempt)
    → length (select p (a ∷ rest)) ≡ (if p a then 1 else 0) + length (select p rest)
length-select_cons p a rest = elim (Bool-cases (p a)) [
  | inl e ↦ rw e (omega arith)
  | inr e ↦ rw e (omega arith)
]

select-failures :
    (action : RecoveryAction) (r : Request) (attempts : List RecoveryAttempt)
    → length (select (is_failure_of action r) attempts)
      ≡ failures r.failure.signature action attempts
select-failures action r [] = refl
select-failures action r (a ∷ rest) =
    length-select_cons (is_failure_of action r) a rest
    ∙ ap (λ n. n + length (select (is_failure_of action r) rest)) (is_failure-weight action r a)
    ∙ ap
        (λ n.
          (if str_eq a.failure_signature r.failure.signature && is_same a.action action
            then weight a.outcome
            else 0)
          + n)
        (select-failures action r rest)

candidates_for-permitted :
    (r : Request)
    → All (λ (c : Candidate). permits r.failure.body r.capabilities c.0 ≡ true) (candidates_for r)
unfolding candidates_for
candidates_for-permitted r = ground arith

-- Fewer attempts failed with the action on such a failure than the budget allows, or the action is none
-- that recovers.
abbrev pub IsNotRepeated : Request → RecoveryAction → Type 0
IsNotRepeated r action =
    (suc (failures r.failure.signature action r.attempts) ≤ r.budget.max_repeated_strategy_failures)
    ⊎ ((action ≡ checkpoint_and_block) ⊎ (action ≡ stop_cancelled))

module _ (k : Hashing) where
  -- What holds of the eligible candidates and of the fallback holds of the choice.
  choose-ind :
      (P : RecoveryAction → Type 0) (r : Request) (cs : List Candidate)
      → All (λ (c : Candidate). P c.0) cs
      → P (fallback k r.failure.body.category r).action
      → P (choose k r cs).action
  unfolding choose decision
  choose-ind P r [] all last = last
  choose-ind P r (c ∷ cs) (p, all) last = elim (Bool-cases (is_eligible r c.0)) [
    | inl eligible ↦
        subst (λ t. P (if t then decision k c.0 c.1 r else choose k r cs).action) (sym eligible) p
    | inr not_eligible ↦
        subst (λ t. P (if t then decision k c.0 c.1 r else choose k r cs).action) (sym not_eligible)
          (choose-ind P r cs all last)
  ]

  fallback-permitted :
      (r : Request)
      → permits r.failure.body r.capabilities (fallback k r.failure.body.category r).action ≡ true
  unfolding decision
  fallback-permitted r = ground arith

  pub normalize_request-keeps :
      (v : RecoveryRequest Number) (r : Request)
      → normalize_request k v ≡ ok r
      → (r.failure ≡ v.failure)
        × (r.capabilities ≡ v.capabilities)
        × (normalize_budget v.budget ≡ ok r.budget)
  unfolding normalize_request
  normalize_request-keeps v r h = elim (Result-cases (map_result normalize_attempt v.attempts)) [
    | inr (e, p) ↦ absurd (ground arith)
    | inl (attempts, p) ↦ elim (Result-cases (fold_result (collect_attempt k) [] attempts)) [
      | inr (e, q) ↦ absurd (ground arith)
      | inl (m, q) ↦ elim (Result-cases (normalize_budget v.budget)) [
        | inr (e, b) ↦ absurd (ground arith)
        | inl (budget, b) ↦ (ground arith, ground arith, ground arith)
      ]
    ]
  ]

  pub decide-ok :
      (v : RecoveryRequest Number) (d : RecoveryDecision)
      → decide k v ≡ ok d
      → (r : Request) × (normalize_request k v ≡ ok r) × (d ≡ choose k r (candidates_for r))
  unfolding decide
  decide-ok v d h = elim (Result-cases (normalize_request k v)) [
    | inr (e, p) ↦ absurd (ground arith)
    | inl (r, p) ↦ (r, p, ground arith)
  ]

  -- A decision only ever names an action that `permits` allows for the failure and the capabilities.
  pub decide-permits :
      (v : RecoveryRequest Number) (d : RecoveryDecision)
      → decide k v ≡ ok d
      → permits v.failure.body v.capabilities d.action ≡ true
  decide-permits v d h =
      let (r, normal, chosen) = decide-ok v d h in
      let (failure, capabilities, _) = normalize_request-keeps v r normal in
      let safe =
        choose-ind (λ a. permits r.failure.body r.capabilities a ≡ true) r (candidates_for r)
          (candidates_for-permitted r) (fallback-permitted r) in
      subst (λ (f : ClassifiedFailure). permits f.body v.capabilities d.action ≡ true) failure
        (subst (λ c. permits r.failure.body c d.action ≡ true) capabilities
          (subst (λ (x : RecoveryDecision). permits r.failure.body r.capabilities x.action ≡ true)
            (sym chosen) safe))

  -- What holds of every eligible action, and of the actions of the fallback, holds of the choice.
  choose-eligible :
      (P : RecoveryAction → Type 0) (r : Request) (cs : List Candidate)
      → ((action : RecoveryAction) → is_eligible r action ≡ true → P action)
      → P (fallback k r.failure.body.category r).action
      → P (choose k r cs).action
  unfolding choose decision
  choose-eligible P r [] eligible last = last
  choose-eligible P r (c ∷ cs) eligible last = elim (Bool-cases (is_eligible r c.0)) [
    | inl e ↦
        subst (λ t. P (if t then decision k c.0 c.1 r else choose k r cs).action) (sym e)
          (eligible c.0 e)
    | inr e ↦
        subst (λ t. P (if t then decision k c.0 c.1 r else choose k r cs).action) (sym e)
          (choose-eligible P r cs eligible last)
  ]

  affordable :
      (r : Request) (action : RecoveryAction)
      → is_eligible r action ≡ true
      → IsAffordable action r.budget
  unfolding is_exhausted
  affordable r targeted_retry e = ground arith
  affordable r targeted_repair e = ground arith
  affordable r alternative_plan e = ground arith
  affordable r rollback e = ground arith
  affordable r escalate_verifier e = ground arith
  affordable r escalate_model e = ground arith
  affordable r reduce_context e = tt
  affordable r checkpoint_and_block e = tt
  affordable r stop_cancelled e = tt

  fallback-IsAffordable :
      (r : Request) → IsAffordable (fallback k r.failure.body.category r).action r.budget
  unfolding decision
  fallback-IsAffordable r = by_category r.failure.body.category
    where
      by_category : (c : FailureCategory) → IsAffordable (fallback k c r).action r.budget
      by_category FailureCategory.cancelled = tt
      by_category _ = tt

  -- The budget of a request that is decided has one left of what the named action uses up; only the
  -- reduction of the context, the checkpoint and the stop use up nothing.
  pub decide-IsAffordable :
      (v : RecoveryRequest Number) (d : RecoveryDecision)
      → decide k v ≡ ok d
      → (b : RecoveryBudget ℕ) × (normalize_budget v.budget ≡ ok b) × IsAffordable d.action b
  decide-IsAffordable v d h =
      let (r, normal, chosen) = decide-ok v d h in
      let (_, _, budget) = normalize_request-keeps v r normal in
      (
        r.budget,
        budget,
        subst (λ (x : RecoveryDecision). IsAffordable x.action r.budget) (sym chosen)
            (choose-eligible (λ a. IsAffordable a r.budget) r (candidates_for r) (affordable r)
              (fallback-IsAffordable r)),
      )

  fallback-IsNotRepeated :
      (r : Request) → IsNotRepeated r (fallback k r.failure.body.category r).action
  unfolding decision
  fallback-IsNotRepeated r = by_category r.failure.body.category
    where
      by_category : (c : FailureCategory) → IsNotRepeated r (fallback k c r).action
      by_category FailureCategory.cancelled = inr (inr refl)
      by_category _ = inr (inl refl)

  eligible-failures :
      (r : Request) (action : RecoveryAction)
      → is_eligible r action ≡ true
      → suc (failures r.failure.signature action r.attempts)
        ≤ r.budget.max_repeated_strategy_failures
  unfolding repeats_failed_strategy
  eligible-failures r action e = ground (arith, select-failures action r r.attempts)

  -- An action is named only while fewer of the request's distinct attempts failed with it on a failure of
  -- the same signature than the budget allows, unless the decision is to block or to stop.
  pub decide-IsNotRepeated :
      (v : RecoveryRequest Number) (d : RecoveryDecision)
      → decide k v ≡ ok d
      → (r : Request) × (normalize_request k v ≡ ok r) × IsNotRepeated r d.action
  decide-IsNotRepeated v d h =
      let (r, normal, chosen) = decide-ok v d h in
      (
        r,
        normal,
        subst (λ (x : RecoveryDecision). IsNotRepeated r x.action) (sym chosen)
            (choose-eligible (IsNotRepeated r) r (candidates_for r)
              (λ action e. inl (eligible-failures r action e)) (fallback-IsNotRepeated r)),
      )
