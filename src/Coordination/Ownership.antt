-- ===== src/Coordination/Ownership.antt =====
-- src/coordination/ownership.ts: the claims of a task on paths, resources and state, their order and
-- their conflicts. `is_after` says whether a text stands behind another in `localeCompare`.
pub mod Laws
pub mod Writers
use odin_agent.Prelude.{
  ℕ, Bool, true, false, not, ◌&&◌, ◌||◌, List, [], ◌∷◌, ◌++◌, String, str_eq, ltb, ◌==◌, any, every,
  length, Result, ok, err, ◌>>=◌, ◌>>◌, guard, if◌then◌else◌, has, sort_by,
}
use odin_agent.Prelude.Text.{codes, is_text_after, is_prefix}
use odin_agent.Coordination.Types.{
  OwnershipNamespace, repository, resource, shared_state, OwnershipAccess, read, write,
  OwnershipClaim, OwnershipLease, CoordinationError, type_error,
}
use odin_agent.Coordination.Checks.{
  max_collection_items, max_reference_length, is_text, is_identifier, is_repository_path,
}

abbrev pub namespace_eq : OwnershipNamespace → OwnershipNamespace → Bool
namespace_eq repository repository = true
namespace_eq resource resource = true
namespace_eq shared_state shared_state = true
namespace_eq _ _ = false

abbrev pub access_eq : OwnershipAccess → OwnershipAccess → Bool
access_eq read read = true
access_eq write write = true
access_eq _ _ = false

abbrev pub is_repository : OwnershipNamespace → Bool
is_repository namespace = namespace_eq namespace repository

-- `path.startsWith(`${key}/`)`
unfoldable pub is_inside : String → String → Bool
is_inside key path = is_prefix (codes key ++ 47 ∷ []) (codes path)

-- `repositoryKeysIntersect`
unfoldable pub repository_keys_intersect : String → String → Bool
repository_keys_intersect left right =
    str_eq left right || is_inside right left || is_inside left right

-- `claimsConflict`
unfoldable pub claims_conflict : OwnershipClaim → OwnershipClaim → Bool
claims_conflict left right =
    if not (namespace_eq left.namespace right.namespace)
    then false
    else if access_eq left.access read && access_eq right.access read
    then false
    else if is_repository left.namespace
    then repository_keys_intersect left.key right.key
    else str_eq left.key right.key

-- `claims.some((claim) => lease.claims.some((active) => claimsConflict(claim, active)))`
unfoldable pub conflicts_with : List OwnershipClaim → OwnershipLease → Bool
conflicts_with claims lease = any (λ claim. any (claims_conflict claim) lease.claims) claims

-- `if (…) conflicts.add(lease.taskId);`
abbrev push_conflict : List OwnershipClaim → OwnershipLease → List String → List String
push_conflict claims lease found =
    if conflicts_with claims lease && not (has found lease.task_id)
    then found ++ lease.task_id ∷ []
    else found

abbrev collect_conflicts : List OwnershipClaim → List OwnershipLease → List String → List String
collect_conflicts claims [] found = found
collect_conflicts claims (lease ∷ leases) found =
    collect_conflicts claims leases (push_conflict claims lease found)

-- `conflictingTaskIds`
unfoldable pub conflicting_task_ids : List OwnershipClaim → List OwnershipLease → List String
conflicting_task_ids claims leases = sort_by is_text_after (collect_conflicts claims leases [])

-- The test of `pathIsOwnedForWrite` on one claim, and the whole of it for a path that is normalized.
unfoldable pub claim_owns : String → OwnershipClaim → Bool
claim_owns path claim =
    is_repository claim.namespace
    && access_eq claim.access write
    && (str_eq claim.key path || is_inside claim.key path)

unfoldable pub path_is_owned_for_write :
    String → List OwnershipClaim → Result CoordinationError Bool
path_is_owned_for_write path claims =
    guard (is_repository_path path) type_error >> ok (any (claim_owns path) claims)

-- The test of `normalizeOwnershipKey`.
unfoldable pub is_ownership_key : OwnershipNamespace → String → Bool
is_ownership_key repository key = is_repository_path key
is_ownership_key _ key = is_text max_reference_length key && is_identifier key

-- The names that `compareClaims` orders.
abbrev namespace_name : OwnershipNamespace → String
namespace_name repository = "repository"
namespace_name resource = "resource"
namespace_name shared_state = "state"

abbrev access_name : OwnershipAccess → String
access_name read = "read"
access_name write = "write"

-- `sameClaim`
unfoldable pub same_claim : OwnershipClaim → OwnershipClaim → Bool
same_claim left right =
    namespace_eq left.namespace right.namespace
    && str_eq left.key right.key
    && access_eq left.access right.access

-- The loop that refuses two neighbours that are the same claim.
abbrev has_same_neighbours : List OwnershipClaim → Bool
has_same_neighbours [] = false
has_same_neighbours (_ ∷ []) = false
has_same_neighbours (left ∷ right ∷ claims) =
    same_claim left right || has_same_neighbours (right ∷ claims)

-- `left.localeCompare(right) || rest` is positive.
abbrev pub after_or : (String → String → Bool) → String → String → Bool → Bool
after_or is_after left right rest =
    is_after left right || (if is_after right left then false else rest)

module _ (is_after : String → String → Bool) where
  -- `compareClaims`
  unfoldable pub claim_after : OwnershipClaim → OwnershipClaim → Bool
  claim_after left right =
      after_or is_after (namespace_name left.namespace) (namespace_name right.namespace) (
        after_or is_after left.key right.key
          (is_after (access_name left.access) (access_name right.access)))

  unfoldable pub normalize_ownership_claims :
      List OwnershipClaim → Result CoordinationError (List OwnershipClaim)
  normalize_ownership_claims claims = do
    guard (not (ltb max_collection_items (length claims))) type_error
    guard (every (λ claim. is_ownership_key claim.namespace claim.key) claims) type_error
    let normalized = sort_by claim_after claims
    guard (not (has_same_neighbours normalized)) type_error
    ok normalized
