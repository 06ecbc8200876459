-- ===== src/Prelude/Sort.antt =====
-- `sort` of a JavaScript array, which keeps the order of what compares as equal. `after x y` says that
-- the comparison of x with y is positive.
use Prim.Native.Nat.{suc}
use mathlib.Core.Path.{◌≡◌, refl, ap, ◌∙◌, subst}
use mathlib.Core.Bool.{Bool, false, ◌||◌}
use mathlib.Core.List.{List, [], ◌∷◌, ◌++◌}
use native.Mathlib.Omega.{arith}
use mathlib.Core.Logic.{inl, inr}
use odin_agent.Prelude.Tests.{if◌then◌else◌, Bool-cases}
use odin_agent.Prelude.Lists.{length, any, select, All}

module _ {ℓ} {A : Type ℓ} (after : A → A → Bool) where
  abbrev insert_by : A → List A → List A
  insert_by x [] = x ∷ []
  insert_by x (y ∷ ys) = let rest = insert_by x ys in if after x y then y ∷ rest else x ∷ y ∷ ys

  unfoldable pub sort_by : List A → List A
  sort_by [] = []
  sort_by (x ∷ xs) = insert_by x (sort_by xs)

  any-insert_by : (p : A → Bool) (x : A) (xs : List A) → any p (insert_by x xs) ≡ (p x || any p xs)
  any-insert_by p x [] = refl
  any-insert_by p x (y ∷ ys) = ground (arith, any-insert_by p x ys)

  pub any-sort_by : (p : A → Bool) (xs : List A) → any p (sort_by xs) ≡ any p xs
  unfolding sort_by
  any-sort_by p [] = refl
  any-sort_by p (x ∷ xs) = any-insert_by p x (sort_by xs) ∙ ap (λ b. p x || b) (any-sort_by p xs)

  length-select-insert_by :
      (p : A → Bool) (x : A) (xs : List A)
      → length (select p (insert_by x xs)) ≡ length (select p (x ∷ xs))
  length-select-insert_by p x [] = refl
  length-select-insert_by p x (y ∷ ys) = ground (arith, length-select-insert_by p x ys)

  pub length-select-sort_by :
      (p : A → Bool) (xs : List A) → length (select p (sort_by xs)) ≡ length (select p xs)
  unfolding sort_by
  length-select-sort_by p [] = refl
  length-select-sort_by p (x ∷ xs) =
      ground (arith, length-select-insert_by p x (sort_by xs), length-select-sort_by p xs)

  All-insert_by {κ} :
      (P : A → Type κ) (x : A) (xs : List A) → P x → All P xs → All P (insert_by x xs)
  All-insert_by P x [] h hs = (h, tt)
  All-insert_by P x (y ∷ ys) h hs =
      let rest = All-insert_by P x ys h hs.1 in
      elim (Bool-cases (after x y)) [ inl e ↦ rw e (hs.0, rest) | inr e ↦ rw e (h, hs) ]

  pub All-sort_by {κ} : (P : A → Type κ) (xs : List A) → All P xs → All P (sort_by xs)
  unfolding sort_by
  All-sort_by P [] h = tt
  All-sort_by P (x ∷ xs) h = All-insert_by P x (sort_by xs) h.0 (All-sort_by P xs h.1)

  All-uninsert_by {κ} :
      (P : A → Type κ) (x : A) (xs : List A) → All P (insert_by x xs) → P x × All P xs
  All-uninsert_by P x [] h = (h.0, tt)
  All-uninsert_by P x (y ∷ ys) h = elim (Bool-cases (after x y)) [
    | inl e ↦
        let split =
          subst (λ (b : Bool). All P (if b then y ∷ insert_by x ys else x ∷ y ∷ ys)) e h in
        let rest = All-uninsert_by P x ys split.1 in (rest.0, (split.0, rest.1))
    | inr e ↦ subst (λ (b : Bool). All P (if b then y ∷ insert_by x ys else x ∷ y ∷ ys)) e h
  ]

  pub All-unsort_by {κ} : (P : A → Type κ) (xs : List A) → All P (sort_by xs) → All P xs
  unfolding sort_by
  All-unsort_by P [] h = tt
  All-unsort_by P (x ∷ xs) h =
      let split = All-uninsert_by P x (sort_by xs) h in (split.0, All-unsort_by P xs split.1)

  length-insert_by : (x : A) (xs : List A) → length (insert_by x xs) ≡ suc (length xs)
  length-insert_by x [] = refl
  length-insert_by x (y ∷ ys) = ground (arith, length-insert_by x ys)

  pub length-sort_by : (xs : List A) → length (sort_by xs) ≡ length xs
  unfolding sort_by
  length-sort_by [] = refl
  length-sort_by (x ∷ xs) = length-insert_by x (sort_by xs) ∙ ap suc (length-sort_by xs)

  insert_by-append :
      (x : A) (xs ys : List A)
      → All (λ y. after x y ≡ false) ys
      → insert_by x (xs ++ ys) ≡ insert_by x xs ++ ys
  insert_by-append x [] [] h = refl
  insert_by-append x [] (y ∷ ys) h = rw h.0 refl
  insert_by-append x (z ∷ zs) ys h =
      let rest = insert_by-append x zs ys h in
      elim (Bool-cases (after x z)) [ inl e ↦ rw e (ap (λ us. z ∷ us) rest) | inr e ↦ rw e refl ]

  -- What comes behind everything else stays behind it.
  pub sort_by-append :
      (xs ys : List A)
      → All (λ x. All (λ y. after x y ≡ false) ys) xs
      → sort_by ys ≡ ys
      → sort_by (xs ++ ys) ≡ sort_by xs ++ ys
  unfolding sort_by
  sort_by-append [] ys h e = e
  sort_by-append (x ∷ xs) ys h e =
      ap (insert_by x) (sort_by-append xs ys h.1 e) ∙ insert_by-append x (sort_by xs) ys h.0
