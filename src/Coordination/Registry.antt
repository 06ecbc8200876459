-- ===== src/Coordination/Registry.antt =====
-- src/coordination/registry.ts: the registered specialists. The key of a registration is its id, a NUL and
-- its version; identifiers hold no NUL, so equal keys are equal pairs. The worker objects are outside.
pub mod Keys
use odin_agent.Prelude.{
  ℕ, Bool, true, false, not, ◌&&◌, ◌||◌, Option, none, some, List, [], ◌∷◌, ◌++◌, String, str_eq,
  map, ltb, leb, ◌==◌, any, every, select, find_first, length, is_some, Result, ok, err, ◌>>=◌,
  ◌>>◌, guard, or_throw, if◌then◌else◌, has, sort_by,
}
use odin_agent.Coordination.Types.{
  SpecialistProfile, SpecialistSummary, CoordinationError, type_error,
}
use odin_agent.Coordination.Checks.{
  max_collection_items, max_reference_length, max_summary_length, is_text, is_identifier, is_sha256,
  is_token, normalize_unique_tokens,
}
use odin_agent.Coordination.Ownership.{after_or}

abbrev pub SpecialistRegistry : Type 0
SpecialistRegistry = List SpecialistProfile

-- `normalizeProfile`
unfoldable pub normalize_profile : SpecialistProfile → Result CoordinationError SpecialistProfile
normalize_profile profile = do
  guard (is_identifier profile.id && is_identifier profile.version) type_error
  guard (is_text max_summary_length profile.description) type_error
  roles ← normalize_unique_tokens profile.roles
  capabilities ← normalize_unique_tokens profile.capabilities
  guard (leb 1 profile.max_concurrency && leb profile.max_concurrency 16) type_error
  guard (is_text max_reference_length profile.provenance.source) type_error
  guard (is_identifier profile.provenance.version) type_error
  guard (is_sha256 profile.provenance.content_hash) type_error
  ok (record profile { roles = roles; capabilities = capabilities })

abbrev pub is_specialist : String → String → SpecialistProfile → Bool
is_specialist id version profile = str_eq profile.id id && str_eq profile.version version

unfoldable pub registration : String → String → SpecialistRegistry → Option SpecialistProfile
registration id version registry = find_first (is_specialist id version) registry

unfoldable pub register :
    SpecialistProfile → SpecialistRegistry → Result CoordinationError SpecialistRegistry
register profile registry = do
  normalized ← normalize_profile profile
  guard (ltb (length registry) 128) type_error
  guard (not (is_some (registration normalized.id normalized.version registry))) type_error
  ok (registry ++ normalized ∷ [])

-- `normalizeRequiredCapabilities`, and `normalizeCapabilities` of the coordinator.
unfoldable pub normalize_capabilities : List String → Result CoordinationError (List String)
normalize_capabilities [] = ok []
normalize_capabilities (value ∷ values) = normalize_unique_tokens (value ∷ values)

abbrev pub is_match : String → List String → SpecialistProfile → Bool
is_match role capabilities profile =
    has profile.roles role && every (has profile.capabilities) capabilities

-- `resolve`, and the look-up of `worker`.
unfoldable pub resolve :
    String → String → SpecialistRegistry → Result CoordinationError SpecialistProfile
resolve id version registry =
    guard (is_identifier id && is_identifier version) type_error
    >> or_throw (registration id version registry) type_error

abbrev summary_of : SpecialistProfile → SpecialistSummary
summary_of profile = record {
  id = profile.id;
  version = profile.version;
  roles = profile.roles;
  capabilities = profile.capabilities;
  max_concurrency = profile.max_concurrency;
  trust_class = profile.trust_class;
  provenance_hash = profile.provenance.content_hash;
}

module _ (is_after : String → String → Bool) where
  -- `compareProfiles`
  abbrev profile_after : SpecialistProfile → SpecialistProfile → Bool
  profile_after left right =
      after_or is_after left.id right.id (is_after left.version right.version)

  -- `compareSummaries`
  abbrev summary_after : SpecialistSummary → SpecialistSummary → Bool
  summary_after left right =
      after_or is_after left.id right.id (is_after left.version right.version)

  unfoldable pub list_specialists : SpecialistRegistry → List SpecialistSummary
  list_specialists registry = sort_by summary_after (map summary_of registry)

  unfoldable pub matching :
      String → List String → SpecialistRegistry → Result CoordinationError (List SpecialistProfile)
  matching role required registry = do
    guard (is_token role) type_error
    capabilities ← normalize_capabilities required
    ok (sort_by profile_after (select (is_match role capabilities) registry))
