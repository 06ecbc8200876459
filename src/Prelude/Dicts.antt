-- ===== src/Prelude/Dicts.antt =====
-- A JavaScript `Map` or plain object with text keys, as an association list in insertion order.
use Prim.Native.String.{String}
use mathlib.Core.Path.{◌≡◌, refl}
use mathlib.Core.List.{List, [], ◌∷◌, ◌++◌}
use mathlib.Core.Option.{Option, none, some}
use native.Mathlib.Omega.{arith}
use text.Mathlib.Text.{◌==◌}
use text.Mathlib.TextEquality.{eq_iff}
use odin_agent.Prelude.Tests.{if◌then◌else◌, is_some}
use odin_agent.Prelude.Sets.{has}

abbrev pub Dict {ℓ} : Type ℓ → Type ℓ
Dict V = List (String × V)

module _ {ℓ} {V : Type ℓ} where
  unfoldable pub lookup : String → Dict V → Option V
  lookup key [] = none
  lookup key ((other, value) ∷ rest) = if other == key then some value else lookup key rest

  abbrev pub keys : Dict V → List String
  keys [] = []
  keys ((key, _) ∷ rest) = key ∷ keys rest

  abbrev pub values : Dict V → List V
  values [] = []
  values ((_, value) ∷ rest) = value ∷ values rest

  unfoldable pub delete : String → Dict V → Dict V
  delete key [] = []
  delete key ((other, value) ∷ rest) =
      let kept = delete key rest in if other == key then kept else (other, value) ∷ kept

  -- A key that is there keeps its place.
  unfoldable pub insert : String → V → Dict V → Dict V
  insert key value [] = (key, value) ∷ []
  insert key value ((other, old) ∷ rest) =
      if other == key then (other, value) ∷ rest else (other, old) ∷ insert key value rest

  -- A lookup after an insertion, of the same key or of another.
  pub lookup-insert :
      (key other : String) (value : V) (dict : Dict V)
      → lookup other (insert key value dict)
        ≡ (if key == other then some value else lookup other dict)
  unfolding insert lookup
  lookup-insert key other value ((first, old) ∷ rest) = ground (
    arith,
    lookup-insert key other value rest,
    eq_iff first key,
    eq_iff first other,
    eq_iff key other,
  )
  lookup-insert key other value [] = refl

  pub has-keys : (k : String) (m : Dict V) → has (keys m) k ≡ is_some (lookup k m)
  unfolding has lookup
  has-keys k [] = refl
  has-keys k ((j, v) ∷ m) = ground (arith, has-keys k m)

  -- A new key goes to the end.
  pub insert-new :
      (k : String) (v : V) (m : Dict V) → lookup k m ≡ none → insert k v m ≡ m ++ (k, v) ∷ []
  unfolding lookup insert
  insert-new k v [] h = refl
  insert-new k v ((j, w) ∷ m) h = ground (arith, insert-new k v m)
