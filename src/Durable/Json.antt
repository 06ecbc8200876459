-- ===== src/Durable/Json.antt =====
-- A JSON value, as `JSON.parse` returns it. The fields of an object have different keys.
pub mod Canonical
use odin_agent.Prelude.{
  ℕ, ◌+◌, ◌-◌, ◌*◌, Bool, true, false, ◌&&◌, Option, none, some, List, [], ◌∷◌, String, str_eq, ltb,
  leb, ◌==◌, if◌then◌else◌,
}
use odin_agent.Prelude.Text.{codes, is_text_after}
use odin_agent.Prelude.Number.{Number}

mutual
  pub data Json : Type 0 where
    json_null : Json
    json_bool : Bool → Json
    json_number : Number → Json
    json_text : String → Json
    json_array : Items → Json
    json_object : Fields → Json

  pub data Items : Type 0 where
    no_items : Items
    item : Json → Items → Items

  pub data Fields : Type 0 where
    no_fields : Fields
    field : String → Json → Fields → Fields

-- `object[key]`, where `undefined` is `none`.
unfoldable pub get : String → Fields → Option Json
get key no_fields = none
get key (field other value rest) =
    let more = get key rest in if str_eq other key then some value else more

-- `Object.keys(object)`
unfoldable pub field_keys : Fields → List String
field_keys no_fields = []
field_keys (field key _ rest) = key ∷ field_keys rest

-- The number that the digits of a text write, where all of it are digits.
abbrev digits : ℕ → List ℕ → Option ℕ
digits n [] = some n
digits n (c ∷ cs) =
    let rest = digits (n * 10 + (c - 48)) cs in if leb 48 c && leb c 57 then rest else none

abbrev below_limit : Option ℕ → Option ℕ
below_limit none = none
below_limit (some n) = if ltb n 4294967295 then some n else none

abbrev index_of : List ℕ → Option ℕ
index_of [] = none
index_of (c ∷ []) = digits 0 (c ∷ [])
index_of (c ∷ d ∷ cs) =
    let found = below_limit (digits 0 (c ∷ d ∷ cs)) in if c == 48 then none else found

abbrev index_after : Option ℕ → Option ℕ → Bool → Bool
index_after (some m) (some n) text_after = ltb n m
index_after (some m) none text_after = false
index_after none (some n) text_after = true
index_after none none text_after = text_after

-- The order of the keys of an object that `Object.fromEntries` makes of sorted entries: array indices by
-- their number, and then the other keys in the order of `sort()`.
unfoldable pub key_after : String → String → Bool
key_after left right =
    index_after (index_of (codes left)) (index_of (codes right)) (is_text_after left right)

unfoldable pub insert_field : String → Json → Fields → Fields
insert_field key value no_fields = field key value no_fields
insert_field key value (field other found rest) =
    let more = insert_field key value rest in
    if key_after key other then field other found more else field key value (field other found rest)

-- `canonicalize`
unfoldable mutual
  pub canonicalize : Json → Json
  canonicalize json_null = json_null
  canonicalize (json_bool b) = json_bool b
  canonicalize (json_number n) = json_number n
  canonicalize (json_text text) = json_text text
  canonicalize (json_array items) = json_array (canonical_items items)
  canonicalize (json_object fields) = json_object (canonical_fields fields)

  pub canonical_items : Items → Items
  canonical_items no_items = no_items
  canonical_items (item value items) = item (canonicalize value) (canonical_items items)

  pub canonical_fields : Fields → Fields
  canonical_fields no_fields = no_fields
  canonical_fields (field key value rest) =
      insert_field key (canonicalize value) (canonical_fields rest)
