-- ===== src/Coordination/Ownership/Laws.antt =====
-- src/coordination/ownership.ts: when two claims conflict, and that a path has one writer.
use Prim.Native.Char.{code}
use text.Mathlib.TextEquality.{Char-path}
use odin_agent.Prelude.{
  ℕ, ◌≡◌, refl, sym, subst, ◌↔◌, ◌⊎◌, inl, inr, Bool, true, ◌||◌, List, [], ◌∷◌, ◌++◌, String,
  str_eq, eq_iff, arith, Bool-cases,
}
use odin_agent.Prelude.Text.{codes, is_prefix}
use odin_agent.Coordination.Ownership.{is_inside, repository_keys_intersect}

cons_injective : (x y : ℕ) (xs ys : List ℕ) → x ∷ xs ≡ y ∷ ys → (x ≡ y) × (xs ≡ ys)
cons_injective x y xs ys h = (cc, cc)

codes_injective : (s t : String) → codes s ≡ codes t → s ≡ t
codes_injective String.[] String.[] h = refl
codes_injective String.[] (String.◌∷◌ d t) h = absurd (cc)
codes_injective (String.◌∷◌ c s) String.[] h = absurd (cc)
codes_injective (String.◌∷◌ c s) (String.◌∷◌ d t) h =
    let parts = cons_injective (code c) (code d) (codes s) (codes t) h in
    let heads = Char-path c d parts.0 in
    let tails = codes_injective s t parts.1 in λ i. String.◌∷◌ (heads i) (tails i)

is_prefix_self : (xs ys : List ℕ) → is_prefix xs (xs ++ ys) ≡ true
unfolding is_prefix
is_prefix_self [] ys = refl
is_prefix_self (x ∷ xs) ys = ground (arith, is_prefix_self xs ys)

-- Of two texts with an ending behind both that one text starts with, one starts with the other.
prefix_cases :
    (e : ℕ) (xs ys zs : List ℕ)
    → is_prefix (xs ++ e ∷ []) zs ≡ true
    → is_prefix (ys ++ e ∷ []) zs ≡ true
    → (xs ≡ ys) ⊎ ((is_prefix (xs ++ e ∷ []) ys ≡ true) ⊎ (is_prefix (ys ++ e ∷ []) xs ≡ true))
unfolding is_prefix
prefix_cases e [] [] zs h k = inl refl
prefix_cases e [] (y ∷ ys) (z ∷ zs) h k = inr (inl (ground arith))
prefix_cases e (x ∷ xs) [] (z ∷ zs) h k = inr (inr (ground arith))
prefix_cases e (x ∷ xs) (y ∷ ys) (z ∷ zs) h k =
    elim (prefix_cases e xs ys zs (ground arith) (ground arith)) [
      | inl same ↦ let heads : x ≡ y = ground arith in inl (λ i. heads i ∷ same i)
      | inr (inl longer) ↦ inr (inl (ground arith))
      | inr (inr longer) ↦ inr (inr (ground arith))
    ]
prefix_cases e [] (y ∷ ys) [] h k = absurd (cc)
prefix_cases e (x ∷ xs) [] [] h k = absurd (cc)
prefix_cases e (x ∷ xs) (y ∷ ys) [] h k = absurd (cc)

-- A key covers a path that it is equal to, or whose text starts with the key and a slash.
abbrev pub covers : String → String → Bool
covers key path = str_eq key path || is_inside key path

covers_self : (key : String) → covers key key ≡ true
covers_self key = ground (arith, eq_iff key key)

pub covers_both :
    (left right path : String)
    → covers left path ≡ true
    → covers right path ≡ true
    → repository_keys_intersect left right ≡ true
unfolding repository_keys_intersect is_inside
covers_both left right path h k = elim (Bool-cases (str_eq left path)) [
  | inl e ↦
      let same = (eq_iff left path).0 e in
      let k' = subst (λ (p : String). covers right p ≡ true) (sym same) k in
      ground (arith, eq_iff left right, eq_iff right left)
  | inr e ↦ elim (Bool-cases (str_eq right path)) [
    | inl f ↦
        let same = (eq_iff right path).0 f in
        let h' = subst (λ (p : String). covers left p ≡ true) (sym same) h in ground arith
    | inr f ↦
        elim (prefix_cases 47 (codes left) (codes right) (codes path) (ground arith)
          (ground arith)) [
            | inl same ↦ ground (arith, eq_iff left right, codes_injective left right same)
            | inr (inl longer) ↦ ground arith
            | inr (inr longer) ↦ ground arith
          ]
  ]
]

-- Two keys intersect just when some path is covered by both.
pub intersect_iff :
    (left right : String)
    → (repository_keys_intersect left right ≡ true)
      ↔ ((path : String) × (covers left path ≡ true) × (covers right path ≡ true))
unfolding repository_keys_intersect
intersect_iff left right = (
  λ h. elim (Bool-cases (is_inside left right)) [
    | inl e ↦ (right, ground arith, covers_self right)
    | inr e ↦ (left, covers_self left, ground (arith, eq_iff left right, eq_iff right left))
  ],
  λ (path, h, k). covers_both left right path h k,
)
