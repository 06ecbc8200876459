-- ===== src/Reliability/Controller/Acceptance.antt =====
-- src/reliability/classifier.ts and controller.ts together: what the controller accepts.
use odin_agent.Prelude.{
  refl, str_eq, false, Dict, lookup, insert, lookup-insert, All, none, length, ltb, map_result,
  fold_result, bind_ok, ℕ, ◌≡◌, ◌≤◌, sym, ap, ◌∙◌, subst, inl, inr, true, List, [], ◌∷◌, arith,
  eq_iff, Bool-cases, Result-cases, ok,
}
use odin_agent.Prelude.Number.{Number}
use odin_agent.Reliability.Types.{
  FailureSignal, FailureBody, ClassifiedFailure, RecoveryBudget, RecoveryCapabilities,
  RecoveryRequest, RecoveryDecision, RecoveryAttempt, sha256, is_sha256,
}
use odin_agent.Reliability.Classifier.{check_signal, body_of, classify_failure}
use odin_agent.Reliability.Controller.{
  Request, Candidate, Hashing, is_eligible, decision, choose, candidates_for, decide,
  normalize_request, normalize_budget, normalize_attempt, collect_attempt, sort_attempts, values,
}

abbrev pub HasDigests : RecoveryAttempt → Type 0
HasDigests a = (is_sha256 a.failure_signature ≡ true) × (is_sha256 a.decision_hash ≡ true)

-- No two of the attempts are of one decision.
abbrev pub AreApart : List RecoveryAttempt → Type 0
AreApart [] = Unit
AreApart (a ∷ rest) = All (λ b. str_eq a.decision_hash b.decision_hash ≡ false) rest × AreApart rest

abbrev IsNew : Dict RecoveryAttempt → RecoveryAttempt → Type 0
IsNew m a = lookup a.decision_hash m ≡ none

All-IsNew : (attempts : List RecoveryAttempt) → All (IsNew []) attempts
unfolding lookup
All-IsNew [] = tt
All-IsNew (a ∷ rest) = (refl, All-IsNew rest)

still-IsNew :
    (m : Dict RecoveryAttempt) (a : RecoveryAttempt) (rest : List RecoveryAttempt)
    → All (IsNew m) rest
    → All (λ b. str_eq a.decision_hash b.decision_hash ≡ false) rest
    → All (IsNew (insert a.decision_hash a m)) rest
still-IsNew m a [] new apart = tt
still-IsNew m a (b ∷ rest) new apart = (
  lookup-insert a.decision_hash b.decision_hash a m ∙ rw apart.0 new.0,
  still-IsNew m a rest new.1 apart.1,
)

module _ (k : Hashing) where
  -- A request that is decided carries the signature of its failure: a changed failure is refused.
  pub decide-signed :
      (v : RecoveryRequest Number) (d : RecoveryDecision)
      → decide k v ≡ ok d
      → k.hash_body v.failure.body ≡ v.failure.signature
  unfolding decide normalize_request
  decide-signed v d h =
      elim (Bool-cases (str_eq (k.hash_body v.failure.body) v.failure.signature)) [
        | inl same ↦ (eq_iff (k.hash_body v.failure.body) v.failure.signature).0 same
        | inr changed ↦ absurd (ground arith)
      ]

  abbrev pub request_of :
      ClassifiedFailure
      → List RecoveryAttempt
      → RecoveryBudget Number
      → RecoveryCapabilities
      → RecoveryRequest Number
  request_of f attempts budget capabilities = record {
    failure = f;
    attempts = attempts;
    budget = budget;
    capabilities = capabilities;
  }

  classified :
      (s : FailureSignal) (f : ClassifiedFailure)
      → classify_failure k.hash_body s ≡ ok f
      → f ≡ record { body = body_of s; signature = k.hash_body (body_of s) }
  unfolding classify_failure
  classified s f h = elim (Result-cases (check_signal s)) [
    | inr (e, p) ↦ absurd (ground arith)
    | inl (u, p) ↦ ground arith
  ]

  choose-signature :
      (r : Request) (cs : List Candidate) → (choose k r cs).failure_signature ≡ r.failure.signature
  unfolding choose decision
  choose-signature r [] = ground arith
  choose-signature r (c ∷ cs) = elim (Bool-cases (is_eligible r c.0)) [
    | inl eligible ↦ ground arith
    | inr skipped ↦ ground (arith, choose-signature r cs)
  ]

  normalize_attempts :
      (attempts : List RecoveryAttempt)
      → All HasDigests attempts
      → map_result normalize_attempt attempts ≡ ok attempts
  unfolding normalize_attempt sha256
  normalize_attempts [] h = refl
  normalize_attempts (a ∷ rest) h =
      let more = normalize_attempts rest h.1 in
      let signature = h.0.0 in let decided = h.0.1 in rw (signature, decided) (rw more refl)

  collect_new :
      (m : Dict RecoveryAttempt) (a : RecoveryAttempt)
      → IsNew m a
      → collect_attempt k m a ≡ ok (insert a.decision_hash a m)
  unfolding collect_attempt
  collect_new m a new = ground (arith, new)

  collects :
      (m : Dict RecoveryAttempt) (attempts : List RecoveryAttempt)
      → All (IsNew m) attempts
      → AreApart attempts
      → (all : Dict RecoveryAttempt) × (fold_result (collect_attempt k) m attempts ≡ ok all)
  collects m [] new apart = (m, refl)
  collects m (a ∷ rest) new apart =
      let (all, e) =
        collects (insert a.decision_hash a m) rest (still-IsNew m a rest new.1 apart.0) apart.1 in
      (all, bind_ok (collect_attempt k m a) _ (collect_new m a new.0) e)

  abbrev normal :
      ClassifiedFailure → RecoveryBudget ℕ → RecoveryCapabilities → Dict RecoveryAttempt → Request
  normal f b capabilities all = record {
    failure = f;
    attempts = sort_attempts k (values all);
    budget = b;
    capabilities = capabilities;
  }

  normalize-first :
      (f : ClassifiedFailure) (attempts : List RecoveryAttempt) (all : Dict RecoveryAttempt)
      (budget : RecoveryBudget Number) (b : RecoveryBudget ℕ) (capabilities : RecoveryCapabilities)
      → is_sha256 f.signature ≡ true
      → k.hash_body f.body ≡ f.signature
      → length attempts ≤ 100
      → map_result normalize_attempt attempts ≡ ok attempts
      → fold_result (collect_attempt k) [] attempts ≡ ok all
      → normalize_budget budget ≡ ok b
      → 1 ≤ b.max_repeated_strategy_failures
      → normalize_request k (request_of f attempts budget capabilities)
        ≡ ok (normal f b capabilities all)
  unfolding normalize_request sha256
  normalize-first f attempts all budget b capabilities digest signed few checked collected bounded
        positive =
      let same = (eq_iff (k.hash_body f.body) f.signature).1 signed in
      let fits : ltb 100 (length attempts) ≡ false = ground arith in
      let some_left : ltb b.max_repeated_strategy_failures 1 ≡ false = ground arith in
      rw digest (rw same (rw fits (rw checked (rw collected (rw bounded (rw some_left refl))))))

  -- The hash gives SHA-256 digests. The controller decides on what the classifier returns, in a request
  -- of at most 100 earlier attempts with digests as their hashes, no two of them of one decision, when the budget is
  -- within its bounds and allows one failure of a strategy; the decision carries the hash of the failure.
  pub classified-decided :
      (s : FailureSignal) (f : ClassifiedFailure) (attempts : List RecoveryAttempt)
      (budget : RecoveryBudget Number) (b : RecoveryBudget ℕ) (capabilities : RecoveryCapabilities)
      → ((body : FailureBody) → is_sha256 (k.hash_body body) ≡ true)
      → classify_failure k.hash_body s ≡ ok f
      → length attempts ≤ 100
      → All HasDigests attempts
      → AreApart attempts
      → normalize_budget budget ≡ ok b
      → 1 ≤ b.max_repeated_strategy_failures
      → (d : RecoveryDecision) × (decide k (request_of f attempts budget capabilities) ≡ ok d)
        × (d.failure_signature ≡ k.hash_body (body_of s))
  unfolding decide
  classified-decided s f attempts budget b capabilities hashes made few digests apart bounded
        positive =
      let same = classified s f made in
      let signature = ap (λ (x : ClassifiedFailure). x.signature) same in
      let body = ap (λ (x : ClassifiedFailure). x.body) same in
      let signed : k.hash_body f.body ≡ f.signature = ap k.hash_body body ∙ sym signature in
      let digest = subst (λ x. is_sha256 x ≡ true) signed (hashes f.body) in
      let (all, collected) = collects [] attempts (All-IsNew attempts) apart in
      let ready =
        normalize-first f attempts all budget b capabilities digest signed few
          (normalize_attempts attempts digests) collected bounded positive in
      let r = normal f b capabilities all in
      (choose k r (candidates_for r), rw ready, choose-signature r (candidates_for r) ∙ signature)
