-- ===== src/Durable/Json/Canonical.antt =====
-- src/durable/internal.ts: what canonicalize keeps of a JSON value, and that it does nothing to a value
-- that is canonical.
use odin_agent.Prelude.{
  ℕ, ◌≡◌, refl, ap, ◌∙◌, subst, Bool, true, false, Bool-cases, inl, inr, Option, none, some, List,
  [], ◌∷◌, String, str_eq, eq_iff, arith, if◌then◌else◌,
}
use odin_agent.Prelude.Text.{codes, is_text_after, is_unit_after, units}
use odin_agent.Durable.Json.{
  Json, Items, Fields, json_null, json_bool, json_number, json_text, json_array, json_object,
  no_items, item, no_fields, field, get, index_of, index_after, key_after, insert_field,
  canonicalize, canonical_items, canonical_fields,
}

is_unit_after_asym : (xs ys : List ℕ) → is_unit_after xs ys ≡ true → is_unit_after ys xs ≡ false
is_unit_after_asym [] ys h = absurd (cc)
is_unit_after_asym (x ∷ xs) [] h = refl
is_unit_after_asym (x ∷ xs) (y ∷ ys) h = ground (arith, is_unit_after_asym xs ys)

index_after_asym :
    (m n : Option ℕ) (b c : Bool)
    → (b ≡ true → c ≡ false)
    → index_after m n b ≡ true
    → index_after n m c ≡ false
index_after_asym (some m) (some n) b c f h = ground arith
index_after_asym (some m) none b c f h = absurd (cc)
index_after_asym none (some n) b c f h = refl
index_after_asym none none b c f h = f h

key_after_asym : (j k : String) → key_after j k ≡ true → key_after k j ≡ false
unfolding key_after is_text_after
key_after_asym j k =
    index_after_asym (index_of (codes j)) (index_of (codes k)) (is_text_after j k)
      (is_text_after k j) (is_unit_after_asym (units (codes j)) (units (codes k)))

key_after_self : (k : String) → key_after k k ≡ false
key_after_self k = elim (Bool-cases (key_after k k)) [ inl e ↦ key_after_asym k k e | inr e ↦ e ]

-- The key comes first before the fields.
abbrev IsFirst : String → Fields → Type 0
IsFirst key no_fields = Unit
IsFirst key (field other _ _) = key_after key other ≡ false

abbrev IsCanonical : Fields → Type 0
IsCanonical no_fields = Unit
IsCanonical (field key value rest) =
    (canonicalize value ≡ value) × IsFirst key rest × IsCanonical rest

insert_field_first :
    (key : String) (value : Json) (rest : Fields)
    → IsFirst key rest
    → insert_field key value rest ≡ field key value rest
unfolding insert_field
insert_field_first key value no_fields h = refl
insert_field_first key value (field other found rest) h = rw h refl

IsFirst-insert_field :
    (first key : String) (value : Json) (rest : Fields)
    → key_after first key ≡ false
    → IsFirst first rest
    → IsFirst first (insert_field key value rest)
unfolding insert_field
IsFirst-insert_field first key value no_fields h k = h
IsFirst-insert_field first key value (field other found rest) h k =
    elim (Bool-cases (key_after key other)) [ inl e ↦ rw e k | inr e ↦ rw e h ]

IsCanonical-insert_field :
    (key : String) (value : Json) (rest : Fields)
    → canonicalize value ≡ value
    → IsCanonical rest
    → IsCanonical (insert_field key value rest)
unfolding insert_field
IsCanonical-insert_field key value no_fields h k = (h, tt, tt)
IsCanonical-insert_field key value (field other found rest) h k =
    let more = IsCanonical-insert_field key value rest h k.2 in
    elim (Bool-cases (key_after key other)) [
      | inl e ↦
          rw e
            (k.0, IsFirst-insert_field other key value rest (key_after_asym key other e) k.1, more)
      | inr e ↦ rw e (h, e, k)
    ]

-- Canonical fields stay as they are.
pub canonical_fields-IsCanonical :
    (fields : Fields) → IsCanonical fields → canonical_fields fields ≡ fields
unfolding canonicalize
canonical_fields-IsCanonical no_fields h = refl
canonical_fields-IsCanonical (field key value rest) h =
    ap (insert_field key (canonicalize value)) (canonical_fields-IsCanonical rest h.2)
    ∙ ap (λ v. insert_field key v rest) h.0
    ∙ insert_field_first key value rest h.1

mutual
  unfolding canonicalize

  canonicalize_twice : (value : Json) → canonicalize (canonicalize value) ≡ canonicalize value
  canonicalize_twice json_null = refl
  canonicalize_twice (json_bool b) = refl
  canonicalize_twice (json_number n) = refl
  canonicalize_twice (json_text text) = refl
  canonicalize_twice (json_array items) = ap json_array (canonical_items_twice items)
  canonicalize_twice (json_object fields) =
      ap json_object
        (canonical_fields-IsCanonical (canonical_fields fields) (fields_IsCanonical fields))

  canonical_items_twice :
      (items : Items) → canonical_items (canonical_items items) ≡ canonical_items items
  canonical_items_twice no_items = refl
  canonical_items_twice (item value items) =
      ap (λ v. item v (canonical_items (canonical_items items))) (canonicalize_twice value)
      ∙ ap (item (canonicalize value)) (canonical_items_twice items)

  fields_IsCanonical : (fields : Fields) → IsCanonical (canonical_fields fields)
  fields_IsCanonical no_fields = tt
  fields_IsCanonical (field key value rest) =
      IsCanonical-insert_field key (canonicalize value) (canonical_fields rest)
        (canonicalize_twice value) (fields_IsCanonical rest)

pub canonical_fields_twice :
    (fields : Fields) → canonical_fields (canonical_fields fields) ≡ canonical_fields fields
canonical_fields_twice fields =
    canonical_fields-IsCanonical (canonical_fields fields) (fields_IsCanonical fields)

if_swap :
    (a b : Bool) (x y z : Option Json)
    → (a ≡ true → b ≡ true → ⊥)
    → (if b then y else (if a then x else z)) ≡ (if a then x else (if b then y else z))
if_swap true true x y z h = absurd (h refl refl)
if_swap true false x y z h = refl
if_swap false b x y z h = refl

get-insert_field :
    (key other : String) (value : Json) (rest : Fields)
    → get key (insert_field other value rest)
      ≡ (if str_eq other key then some value else get key rest)
unfolding get insert_field
get-insert_field key other value no_fields = refl
get-insert_field key other value (field third found rest) =
    let more = get-insert_field key other value rest in
    elim (Bool-cases (key_after other third)) [
      | inr e ↦ rw e refl
      | inl e ↦ rw e (
          ap (λ (o : Option Json). if str_eq third key then some found else o) more
          ∙ if_swap (str_eq other key) (str_eq third key) (some value) (some found) (get key rest)
              (λ h k. different e ((eq_iff other key).0 h) ((eq_iff third key).0 k)))
    ]
  where
    different : {a b k : String} → key_after a b ≡ true → a ≡ k → b ≡ k → ⊥
    different {a} {b} {k} e h j =
        let same : key_after k k ≡ true =
          subst (λ (x : String). key_after x k ≡ true) h
            (subst (λ (x : String). key_after a x ≡ true) j e) in
        let never = key_after_self k in absurd (cc)

abbrev pub canonical_value : Option Json → Option Json
canonical_value none = none
canonical_value (some value) = some (canonicalize value)

-- The fields of an object have the same values behind canonicalize, but for the order of keys inside them.
pub get-canonical_fields :
    (key : String) (fields : Fields)
    → get key (canonical_fields fields) ≡ canonical_value (get key fields)
unfolding get canonicalize
get-canonical_fields key no_fields = refl
get-canonical_fields key (field other value rest) =
    get-insert_field key other (canonicalize value) (canonical_fields rest)
    ∙ elim (Bool-cases (str_eq other key)) [
      | inl e ↦ rw e refl
      | inr e ↦ rw e (get-canonical_fields key rest)
    ]
