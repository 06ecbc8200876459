-- ===== src/Coordination/Registry/Keys.antt =====
-- src/coordination/registry.ts: a registered profile is the one that stands under its id and version, and
-- what `matching` returns.
use odin_agent.Prelude.{
  ◌≡◌, sym, ap, subst, Bool, true, false, some, List, [], ◌∷◌, ◌++◌, String, eq_iff, arith, select,
  find_first, is_some, ok, Result-cases, Option-cases, All, All-append, All-widen, All-sort_by,
  Bool-cases, inl, inr,
}
use odin_agent.Coordination.Types.{SpecialistProfile}
use odin_agent.Coordination.Registry.{
  SpecialistRegistry, is_specialist, registration, register, normalize_profile, matching, is_match,
  normalize_capabilities, profile_after,
}

abbrev pub IsRegistered : SpecialistRegistry → SpecialistProfile → Type 0
IsRegistered registry profile = registration profile.id profile.version registry ≡ some profile

-- Every profile is the one that its key finds: no two profiles have one key.
abbrev pub IsKeyed : SpecialistRegistry → Type 0
IsKeyed registry = All (IsRegistered registry) registry

module _ {A : Type 0} where
  find_first-append :
      (p : A → Bool) (xs ys : List A) (x : A)
      → find_first p xs ≡ some x
      → find_first p (xs ++ ys) ≡ some x
  find_first-append p [] ys x h = absurd (cc)
  find_first-append p (y ∷ xs) ys x h = ground (arith, find_first-append p xs ys x)

  find_first-last :
      (p : A → Bool) (xs : List A) (x : A)
      → is_some (find_first p xs) ≡ false
      → p x ≡ true
      → find_first p (xs ++ x ∷ []) ≡ some x
  find_first-last p [] x h k = ground arith
  find_first-last p (y ∷ xs) x h k = ground (arith, find_first-last p xs x)

  pub All-select :
      (P : A → Type 0) (p : A → Bool) (xs : List A)
      → All P xs
      → All (λ x. P x × (p x ≡ true)) (select p xs)
  All-select P p [] h = tt
  All-select P p (x ∷ xs) h =
      let rest = All-select P p xs h.1 in
      elim (Bool-cases (p x)) [ inl e ↦ rw e ((h.0, e), rest) | inr e ↦ rw e rest ]

  pub All-find_first :
      (P : A → Type 0) (p : A → Bool) (xs : List A) (x : A)
      → All P xs
      → find_first p xs ≡ some x
      → P x × (p x ≡ true)
  All-find_first P p [] x h e = absurd (cc)
  All-find_first P p (y ∷ ys) x h e = elim (Bool-cases (p y)) [
    | inl t ↦
        let same : y ≡ x = ground arith in (subst P same h.0, subst (λ (z : A). p z ≡ true) same t)
    | inr f ↦ All-find_first P p ys x h.1 (ground arith)
  ]

is_specialist_self :
    (profile : SpecialistProfile) → is_specialist profile.id profile.version profile ≡ true
is_specialist_self profile =
    ground (arith, eq_iff profile.id profile.id, eq_iff profile.version profile.version)

-- A registration that succeeds puts a profile with a new key at the end.
pub register-ok :
    (profile : SpecialistProfile) (registry after : SpecialistRegistry)
    → register profile registry ≡ ok after
    → (new : SpecialistProfile) × (after ≡ registry ++ new ∷ [])
      × (is_some (registration new.id new.version registry) ≡ false)
unfolding register registration
register-ok profile registry after h = elim (Result-cases (normalize_profile profile)) [
  | inr (e, p) ↦ absurd (ground arith)
  | inl (new, p) ↦ (new, ground arith, ground arith)
]

-- Registering keeps the keys of the registry distinct.
pub register-IsKeyed :
    (profile : SpecialistProfile) (registry after : SpecialistRegistry)
    → register profile registry ≡ ok after
    → IsKeyed registry
    → IsKeyed after
unfolding registration
register-IsKeyed profile registry after h k =
    let (n, same, new) = register-ok profile registry after h in
    subst IsKeyed (sym same) (
      All-append (IsRegistered (registry ++ n ∷ [])) registry (n ∷ [])
        (All-widen (IsRegistered registry) (IsRegistered (registry ++ n ∷ [])) registry
          (λ q e. find_first-append (is_specialist q.id q.version) registry (n ∷ []) q e) k)
        (find_first-last (is_specialist n.id n.version) registry n new (is_specialist_self n), tt))

-- Who is registered stays so.
pub registration-append :
    (id version : String) (registry more : SpecialistRegistry)
    → is_some (registration id version registry) ≡ true
    → is_some (registration id version (registry ++ more)) ≡ true
unfolding registration
registration-append id version registry more h =
    elim (Option-cases (registration id version registry)) [
      | inl e ↦ absurd (cc)
      | inr (q, e) ↦ ap is_some (find_first-append (is_specialist id version) registry more q e)
    ]

-- What `matching` returns is registered, has the role and the capabilities.
pub matching-IsRegistered :
    (is_after : String → String → Bool) (role : String) (required : List String)
    (registry : SpecialistRegistry) {profiles : List SpecialistProfile}
    → IsKeyed registry
    → matching is_after role required registry ≡ ok profiles
    → (capabilities : List String) × (normalize_capabilities required ≡ ok capabilities)
      × All (λ p. IsRegistered registry p × (is_match role capabilities p ≡ true)) profiles
unfolding matching
matching-IsRegistered is_after role required registry k h =
    elim (Result-cases (normalize_capabilities required)) [
      | inr (e, p) ↦ absurd (ground arith)
      | inl (cs, p) ↦ (
        cs,
        p,
        subst (All (λ q. IsRegistered registry q × (is_match role cs q ≡ true))) (ground arith) (
            All-sort_by (profile_after is_after)
              (λ q. IsRegistered registry q × (is_match role cs q ≡ true))
              (select (is_match role cs) registry)
              (All-select (IsRegistered registry) (is_match role cs) registry k)),
      )
    ]
