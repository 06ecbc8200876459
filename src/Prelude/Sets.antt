-- ===== src/Prelude/Sets.antt =====
-- A JavaScript `Set` of texts, as a list.
use Prim.Native.String.{String}
use Prim.Native.Nat.{suc, ◌≤◌}
use mathlib.Core.Path.{◌≡◌, refl, subst}
use mathlib.Core.Logic.{inl, inr}
use mathlib.Core.Bool.{Bool, true, false, not, ◌&&◌, ◌||◌}
use mathlib.Core.List.{List, [], ◌∷◌, ◌++◌}
use native.Mathlib.Omega.{arith}
use text.Mathlib.Text.{◌==◌}
use text.Mathlib.TextEquality.{eq_iff}
use odin_agent.Prelude.Tests.{if◌then◌else◌, Bool-cases}
use odin_agent.Prelude.Lists.{length, All}

-- `has` of a set, or `includes` of an array.
unfoldable pub has : List String → String → Bool
has [] k = false
has (x ∷ xs) k = x == k || has xs k

-- `delete` of a set.
unfoldable pub remove : String → List String → List String
remove k [] = []
remove k (x ∷ xs) = let rest = remove k xs in if x == k then rest else x ∷ rest

-- `new Set(values).size === values.length`
unfoldable pub is_distinct : List String → Bool
is_distinct [] = true
is_distinct (x ∷ xs) = not (has xs x) && is_distinct xs

pub has-remove :
    (k j : String) (xs : List String) → has (remove k xs) j ≡ (has xs j && not (k == j))
unfolding has remove
has-remove k j [] = refl
has-remove k j (x ∷ xs) = ground (arith, eq_iff x k, eq_iff x j, eq_iff k j, has-remove k j xs)

pub remove-not_has : (k : String) (xs : List String) → has xs k ≡ false → remove k xs ≡ xs
unfolding has remove
remove-not_has k [] h = refl
remove-not_has k (x ∷ xs) h = ground (arith, remove-not_has k xs)

pub has_self : (k : String) (xs : List String) → has (k ∷ xs) k ≡ true
unfolding has
has_self k xs = ground (arith, eq_iff k k)

is_distinct-remove :
    (k : String) (xs : List String) → is_distinct xs ≡ true → is_distinct (remove k xs) ≡ true
unfolding is_distinct remove
is_distinct-remove k [] h = refl
is_distinct-remove k (x ∷ xs) h = ground (arith, has-remove k x xs, is_distinct-remove k xs)

length-remove :
    (k : String) (xs : List String)
    → is_distinct xs ≡ true
    → has xs k ≡ true
    → length xs ≡ suc (length (remove k xs))
unfolding is_distinct has remove
length-remove k [] d h = cc
length-remove k (x ∷ xs) d h = ground (arith, eq_iff x k, length-remove k xs, remove-not_has k xs)

-- A list without repetitions is no longer than a list that holds all of it.
pub length-le_of_subset :
    (xs ys : List String)
    → is_distinct xs ≡ true
    → is_distinct ys ≡ true
    → ((k : String) → has xs k ≡ true → has ys k ≡ true)
    → length xs ≤ length ys
unfolding is_distinct has
length-le_of_subset [] ys d e h = omega arith
length-le_of_subset (x ∷ xs) ys d e h =
    let shorter =
      length-le_of_subset xs (remove x ys) (ground arith) (is_distinct-remove x ys e)
        (λ k m. ground (arith, has-remove x k ys, h k, eq_iff x k)) in
    omega (arith, shorter, length-remove x ys e (h x (has_self x xs)))

pub remove-cons_self : (k : String) (xs : List String) → has xs k ≡ false → remove k (k ∷ xs) ≡ xs
unfolding remove
remove-cons_self k xs h = ground (arith, eq_iff k k, remove-not_has k xs h)

pub has-cons : (k x : String) (xs : List String) → has xs k ≡ true → has (x ∷ xs) k ≡ true
unfolding has
has-cons k x xs h = ground arith

pub has-append : (k : String) (xs ys : List String) → has (xs ++ ys) k ≡ (has xs k || has ys k)
unfolding has
has-append k [] ys = refl
has-append k (x ∷ xs) ys = ground (arith, has-append k xs ys)

pub is_distinct-concat :
    (k : String) (xs : List String)
    → is_distinct xs ≡ true
    → has xs k ≡ false
    → is_distinct (xs ++ k ∷ []) ≡ true
unfolding has is_distinct
is_distinct-concat k [] d h = refl
is_distinct-concat k (x ∷ xs) d h =
    ground (arith, has-append x xs (k ∷ []), eq_iff k x, eq_iff x k, is_distinct-concat k xs)

-- The element that follows a list without repetitions is new.
pub is_distinct-middle :
    (k : String) (xs ys : List String) → is_distinct (xs ++ k ∷ ys) ≡ true → has xs k ≡ false
unfolding has is_distinct
is_distinct-middle k [] ys d = refl
is_distinct-middle k (x ∷ xs) ys d =
    ground (arith, has-append x xs (k ∷ ys), eq_iff k x, eq_iff x k, is_distinct-middle k xs ys)

-- A member of a list has what all of the list has.
pub All-has {κ} :
    (P : String → Type κ) (k : String) (xs : List String) → All P xs → has xs k ≡ true → P k
unfolding has
All-has P k [] h m = absurd (cc)
All-has P k (x ∷ xs) h m = elim (Bool-cases (x == k)) [
  | inl same ↦ subst P ((eq_iff x k).0 same) h.0
  | inr miss ↦ All-has P k xs h.1 (ground arith)
]
