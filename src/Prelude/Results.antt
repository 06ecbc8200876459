-- ===== src/Prelude/Results.antt =====
-- A result or a thrown error, in the style of an exception monad.
use mathlib.Core.Path.{◌≡◌, refl, ap, ◌∙◌}
use mathlib.Core.Logic.{◌⊎◌, inl, inr}
use mathlib.Core.Bool.{Bool, true, false}
use mathlib.Core.Option.{Option, none, some}
use mathlib.Core.List.{List, [], ◌∷◌}

pub data Result {ℓ} (E : Type 0) (A : Type ℓ) : Type ℓ where
  ok : A → Result E A
  err : E → Result E A

module _ {E : Type 0} where
  -- What a test for a missing value does.
  abbrev pub or_throw {ℓ} : {A : Type ℓ} → Option A → E → Result E A
  or_throw (some value) thrown = ok value
  or_throw none thrown = err thrown

  infixl 5 ◌>>=◌
  abbrev pub ◌>>=◌ {ℓ κ} : {A : Type ℓ} {B : Type κ} → Result E A → (A → Result E B) → Result E B
  err thrown >>= next = err thrown
  ok value >>= next = next value

  -- `if (!test) throw e;`
  abbrev pub guard : Bool → E → Result E (Unit {0})
  guard false thrown = err thrown
  guard true thrown = ok tt

  infixl 5 ◌>>◌
  abbrev pub ◌>>◌ {ℓ} : {B : Type ℓ} → Result E (Unit {0}) → Result E B → Result E B
  first >> second = first >>= λ _. second

  -- `items.map(f)` for a function that may throw.
  abbrev pub map_result : {A B : Type 0} → (A → Result E B) → List A → Result E (List B)
  map_result f [] = ok []
  map_result f (x ∷ xs) = f x >>= λ y. map_result f xs >>= λ ys. ok (y ∷ ys)

  -- A loop over a collection with a state, left by the first error.
  abbrev pub fold_result : {S A : Type 0} → (S → A → Result E S) → S → List A → Result E S
  fold_result f s [] = ok s
  fold_result f s (x ∷ xs) = f s x >>= λ t. fold_result f t xs

  -- A chain that succeeds has a first part that succeeds, and so does the rest on its value.
  pub >>=-eq-ok {ℓ κ} :
      {A : Type ℓ} {B : Type κ} (first : Result E A) (next : A → Result E B) {out : B}
      → (first >>= next) ≡ ok out
      → (value : A) × (first ≡ ok value) × (next value ≡ ok out)
  >>=-eq-ok (err thrown) next h = cc
  >>=-eq-ok (ok value) next h = (value, refl, h)

  -- A chain goes on with the value of its first part.
  pub bind_ok {ℓ κ} :
      {A : Type ℓ} {B : Type κ} (first : Result E A) (next : A → Result E B) {value : A}
      {out : Result E B}
      → first ≡ ok value
      → next value ≡ out
      → (first >>= next) ≡ out
  bind_ok (ok a) next {value} {out} h k = let same : a ≡ value = cc in ap next same ∙ k
  bind_ok (err thrown) next h k = absurd (cc)

  pub guard-ok :
      (test : Bool) (thrown : E) {value : Unit {0}} → guard test thrown ≡ ok value → test ≡ true
  guard-ok true thrown h = refl
  guard-ok false thrown h = absurd (cc)

  pub guard-true : (test : Bool) (thrown : E) → test ≡ true → guard test thrown ≡ ok tt
  guard-true true thrown h = refl
  guard-true false thrown h = absurd (cc)

  pub result_ok {ℓ} : {A : Type ℓ} {x y : A} → ◌≡◌ {A = Result E A} (ok x) (ok y) → x ≡ y
  result_ok h = cc

  abbrev pub IsOk {ℓ} : {A : Type ℓ} → Result E A → Type 0
  IsOk (ok a) = Unit
  IsOk (err e) = ⊥

  pub Result-cases {ℓ} :
      {A : Type ℓ} (m : Result E A) → ((a : A) × (m ≡ ok a)) ⊎ ((e : E) × (m ≡ err e))
  Result-cases (ok a) = inl (a, refl)
  Result-cases (err e) = inr (e, refl)

  -- A chain whose last step cannot fail fails in the step before it.
  pub >>=-eq-err {ℓ κ} :
      {A : Type ℓ} {B : Type κ} (m : Result E A) (f : A → B) {e : E}
      → (m >>= λ a. ok (f a)) ≡ err e
      → m ≡ err e
  >>=-eq-err (ok a) f h = cc
  >>=-eq-err (err e) f h = cc
