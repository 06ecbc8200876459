-- ===== src/Durable/Missions/Written.antt =====
-- src/durable/internal.ts: what parseJson reads from a text of canonicalJson.
use odin_agent.Prelude.{
  ℕ, ◌≡◌, refl, ap, subst, Option, some, String, leb, ok, guard, guard-ok, guard-true, or_throw,
  result_ok, >>=-eq-ok, bind_ok,
}
use odin_agent.Durable.Types.{corruption}
use odin_agent.Durable.Json.{Json, canonicalize}
use odin_agent.Durable.Missions.{Texts, too_large, canonical_json, parse_json}

module _ (texts : Texts) (max_bytes : ℕ) where
  -- The text is that of the canonicalized value, and what it is read as is parsed.
  pub parse_json-canonical_json :
      (value read : Json) {text : String}
      → canonical_json texts max_bytes value ≡ ok text
      → texts.read_json (texts.write_json (canonicalize value)) ≡ some read
      → (texts.write_json (canonicalize value) ≡ text) × (parse_json texts max_bytes text ≡ ok read)
  unfolding canonical_json parse_json
  parse_json-canonical_json value read h again =
      let written = texts.write_json (canonicalize value) in
      let fits = leb (texts.byte_length written) max_bytes in
      let (_, bounded, made) = >>=-eq-ok (guard fits too_large) _ h in
      subst (λ (t : String). (written ≡ t) × (parse_json texts max_bytes t ≡ ok read))
        (result_ok made)
        (
          refl,
          bind_ok (guard fits corruption) _
              (guard-true fits corruption (guard-ok fits too_large bounded))
              (ap (λ (o : Option Json). or_throw o corruption) again),
        )
