-- ===== src/Coordination/Checks.antt =====
-- src/coordination/internal.ts: the checks of arguments and their bounds.
use odin_agent.Prelude.{
  ℕ, Bool, true, false, not, ◌&&◌, ◌||◌, List, [], ◌∷◌, String, ltb, leb, ◌==◌, every, any, length,
  Result, ok, ◌>>◌, guard, if◌then◌else◌, is_distinct, sort_by,
}
use odin_agent.Prelude.Text.{codes, is_blank, utf16_length, has_nul, is_text_after, is_prefix}
use odin_agent.Coordination.Types.{CoordinationError, type_error}

-- `MAX_COLLECTION_ITEMS`
abbrev pub max_collection_items : ℕ
max_collection_items = 128

-- `MAX_REFERENCE_LENGTH`
abbrev pub max_reference_length : ℕ
max_reference_length = 1000

-- `MAX_SUMMARY_LENGTH`
abbrev pub max_summary_length : ℕ
max_summary_length = 2000

-- `assertText`
unfoldable pub is_text : ℕ → String → Bool
is_text maximum s = not (is_blank s || ltb maximum (utf16_length s))

abbrev pub is_lower : ℕ → Bool
is_lower c = leb 97 c && leb c 122

abbrev pub is_digit : ℕ → Bool
is_digit c = leb 48 c && leb c 57

abbrev is_letter_or_digit : ℕ → Bool
is_letter_or_digit c = is_lower c || leb 65 c && leb c 90 || is_digit c

-- `[a-zA-Z0-9._:@/-]`
abbrev is_identifier_tail : ℕ → Bool
is_identifier_tail c =
    is_letter_or_digit c || c == 46 || c == 95 || c == 58 || c == 64 || c == 47 || c == 45

abbrev is_identifier_text : List ℕ → Bool
is_identifier_text [] = false
is_identifier_text (c ∷ cs) = is_letter_or_digit c && every is_identifier_tail cs

-- `value.includes("..")`
abbrev has_two_dots : List ℕ → Bool
has_two_dots [] = false
has_two_dots (c ∷ cs) = let rest = has_two_dots cs in is_prefix (46 ∷ 46 ∷ []) (c ∷ cs) || rest

-- `assertIdentifier`
unfoldable pub is_identifier : String → Bool
unfolding is_text
is_identifier s = is_text 200 s && is_identifier_text (codes s) && not (has_two_dots (codes s))

abbrev is_token_tail : ℕ → Bool
is_token_tail c = is_lower c || is_digit c || c == 95

abbrev is_token_text : List ℕ → Bool
is_token_text [] = false
is_token_text (c ∷ cs) = is_lower c && every is_token_tail cs && leb (length cs) 63

-- `assertToken`
unfoldable pub is_token : String → Bool
is_token s = is_token_text (codes s)

abbrev is_hex_digit : ℕ → Bool
is_hex_digit c = is_digit c || leb 97 c && leb c 102

-- `assertSha256`
unfoldable pub is_sha256 : String → Bool
is_sha256 s = every is_hex_digit (codes s) && length (codes s) == 64

-- `normalizeUniqueTokens`
unfoldable pub normalize_unique_tokens : List String → Result CoordinationError (List String)
normalize_unique_tokens values =
    guard (not (length values == 0 || ltb max_collection_items (length values))) type_error
    >> guard (every is_token values) type_error
    >> guard (is_distinct values) type_error
    >> ok (sort_by is_text_after values)

abbrev push_first : ℕ → List (List ℕ) → List (List ℕ)
push_first c [] = (c ∷ []) ∷ []
push_first c (segment ∷ segments) = (c ∷ segment) ∷ segments

-- `value.split("/")`
abbrev pub split_slashes : List ℕ → List (List ℕ)
split_slashes [] = [] ∷ []
split_slashes (c ∷ cs) =
    let rest = split_slashes cs in if c == 47 then [] ∷ rest else push_first c rest

-- `segment === "" || segment === "." || segment === ".."`
abbrev is_bad_segment : List ℕ → Bool
is_bad_segment [] = true
is_bad_segment (c ∷ []) = c == 46
is_bad_segment (c ∷ d ∷ []) = c == 46 && d == 46
is_bad_segment _ = false

abbrev ends_with_slash : List ℕ → Bool
ends_with_slash [] = false
ends_with_slash (c ∷ []) = c == 47
ends_with_slash (_ ∷ c ∷ cs) = ends_with_slash (c ∷ cs)

-- The test of `normalizeRepositoryPath`, which returns its argument.
unfoldable pub is_repository_path : String → Bool
is_repository_path s =
    is_text max_reference_length s
    && not (
        is_prefix (47 ∷ []) (codes s)
        || is_prefix (92 ∷ []) (codes s)
        || any (λ c. c == 92) (codes s)
        || has_nul s
        || ends_with_slash (codes s)
        || any is_bad_segment (split_slashes (codes s)))
