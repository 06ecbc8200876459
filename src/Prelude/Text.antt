-- ===== src/Prelude/Text.antt =====
-- What the source asks of a text: `trim() === ""`, `length` in UTF-16 units, and `includes("\0")`.
use Prim.Native.Char.{code}
use Prim.Native.String.{String}
use Prim.Native.Nat.{ℕ, ◌+◌, ◌-◌, ◌/◌, ◌%◌}
use mathlib.Core.Bool.{Bool, true, false, ◌&&◌, ◌||◌}
use mathlib.Core.List.{List, [], ◌∷◌, ◌++◌}
use odin_agent.Prelude.Tests.{leb, ltb, ◌==◌, if◌then◌else◌}
use odin_agent.Prelude.Lists.{any, every}

abbrev pub codes : String → List ℕ
codes String.[] = []
codes (String.◌∷◌ c s) = code c ∷ codes s

-- The white space and line terminators that `trim` removes.
is_space : ℕ → Bool
is_space c =
    leb 9 c && leb c 13
    || c == 32
    || c == 160
    || c == 5760
    || leb 8192 c && leb c 8202
    || c == 8232
    || c == 8233
    || c == 8239
    || c == 8287
    || c == 12288
    || c == 65279

-- `value.trim() === ""`
unfoldable pub is_blank : String → Bool
unfolding is_space
is_blank s = every is_space (codes s)

utf16_length_of : List ℕ → ℕ
utf16_length_of [] = 0
utf16_length_of (c ∷ cs) = (if ltb c 65536 then 1 else 2) + utf16_length_of cs

-- `value.length`
unfoldable pub utf16_length : String → ℕ
unfolding utf16_length_of
utf16_length s = utf16_length_of (codes s)

-- `value.includes("\u0000")`
unfoldable pub has_nul : String → Bool
has_nul s = any (λ c. c == 0) (codes s)

-- The UTF-16 units of a code point.
abbrev units_of : ℕ → List ℕ
units_of c =
    if ltb c 65536 then c ∷ [] else (55296 + (c - 65536) / 1024) ∷ (56320 + (c - 65536) % 1024) ∷ []

abbrev pub units : List ℕ → List ℕ
units [] = []
units (c ∷ cs) = units_of c ++ units cs

abbrev pub is_unit_after : List ℕ → List ℕ → Bool
is_unit_after [] _ = false
is_unit_after (_ ∷ _) [] = true
is_unit_after (c ∷ cs) (d ∷ ds) =
    let rest = is_unit_after cs ds in ltb d c || (if ltb c d then false else rest)

-- The order of `sort()` on texts.
unfoldable pub is_text_after : String → String → Bool
is_text_after left right = is_unit_after (units (codes left)) (units (codes right))

-- Whether the text of the second argument starts with the first.
unfoldable pub is_prefix : List ℕ → List ℕ → Bool
is_prefix [] _ = true
is_prefix (_ ∷ _) [] = false
is_prefix (c ∷ cs) (d ∷ ds) = let rest = is_prefix cs ds in if c == d then rest else false
