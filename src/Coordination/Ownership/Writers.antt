-- ===== src/Coordination/Ownership/Writers.antt =====
-- src/coordination/ownership.ts: conflicts between the claims of two leases, and the writers of a path.
use odin_agent.Prelude.{
  ◌≡◌, refl, sym, ap, ◌∙◌, inl, inr, Bool, true, false, ◌&&◌, ◌||◌, List, [], ◌∷◌, String, str_eq,
  eq_iff, arith, any, All, Bool-cases, has, any-sort_by, has-append,
}
use odin_agent.Prelude.Text.{is_text_after}
use odin_agent.Coordination.Types.{
  OwnershipNamespace, OwnershipAccess, OwnershipClaim, OwnershipLease, repository, resource,
  shared_state, read, write,
}
use odin_agent.Coordination.Ownership.{
  namespace_eq, access_eq, is_repository, repository_keys_intersect, claims_conflict,
  conflicts_with, conflicting_task_ids, collect_conflicts, push_conflict, claim_owns,
}
use odin_agent.Coordination.Ownership.Laws.{covers_both}

namespace_eq_sym : (m n : OwnershipNamespace) → namespace_eq m n ≡ namespace_eq n m
namespace_eq_sym repository repository = refl
namespace_eq_sym repository resource = refl
namespace_eq_sym repository shared_state = refl
namespace_eq_sym resource repository = refl
namespace_eq_sym resource resource = refl
namespace_eq_sym resource shared_state = refl
namespace_eq_sym shared_state repository = refl
namespace_eq_sym shared_state resource = refl
namespace_eq_sym shared_state shared_state = refl

is_repository_same :
    (m n : OwnershipNamespace) → namespace_eq m n ≡ true → is_repository m ≡ is_repository n
is_repository_same repository repository h = refl
is_repository_same resource resource h = refl
is_repository_same shared_state shared_state h = refl
is_repository_same repository resource h = absurd (cc)
is_repository_same repository shared_state h = absurd (cc)
is_repository_same resource repository h = absurd (cc)
is_repository_same resource shared_state h = absurd (cc)
is_repository_same shared_state repository h = absurd (cc)
is_repository_same shared_state resource h = absurd (cc)

str_eq_sym : (s t : String) → str_eq s t ≡ str_eq t s
str_eq_sym s t = elim (Bool-cases (str_eq s t)) [
  | inl h ↦ ground (arith, eq_iff s t, eq_iff t s)
  | inr h ↦ ground (arith, eq_iff s t, eq_iff t s)
]

intersect_sym :
    (left right : String)
    → repository_keys_intersect left right ≡ repository_keys_intersect right left
unfolding repository_keys_intersect
intersect_sym left right = ground (arith, str_eq_sym left right)

claims_conflict_sym :
    (left right : OwnershipClaim) → claims_conflict left right ≡ claims_conflict right left
unfolding claims_conflict
claims_conflict_sym left right = ground (
  arith,
  namespace_eq_sym left.namespace right.namespace,
  is_repository_same left.namespace right.namespace,
  str_eq_sym left.key right.key,
  intersect_sym left.key right.key,
)

module _ {A B : Type 0} (p : A → B → Bool) where
  any-false : (ys : List B) → any (λ y. any (λ x. p x y) []) ys ≡ false
  any-false [] = refl
  any-false (y ∷ ys) = any-false ys

  any-cons :
      (x : A) (xs : List A) (ys : List B)
      → any (λ y. any (λ x. p x y) (x ∷ xs)) ys
        ≡ (any (p x) ys || any (λ y. any (λ x. p x y) xs) ys)
  any-cons x xs [] = refl
  any-cons x xs (y ∷ ys) = ground (arith, any-cons x xs ys)

  any-swap :
      (xs : List A) (ys : List B) → any (λ x. any (p x) ys) xs ≡ any (λ y. any (λ x. p x y) xs) ys
  any-swap [] ys = sym (any-false ys)
  any-swap (x ∷ xs) ys = ground (arith, any-swap xs ys, any-cons x xs ys)

module _ {A : Type 0} where
  any-map : (p q : A → Bool) → ((x : A) → p x ≡ q x) → (xs : List A) → any p xs ≡ any q xs
  any-map p q h [] = refl
  any-map p q h (x ∷ xs) = ground (arith, h x, any-map p q h xs)

-- Conflicts do not depend on which lease is there first.
pub conflicts_with_sym :
    (a b : OwnershipLease) → conflicts_with a.claims b ≡ conflicts_with b.claims a
unfolding conflicts_with
conflicts_with_sym a b =
    any-swap claims_conflict a.claims b.claims
    ∙ any-map (λ y. any (λ x. claims_conflict x y) a.claims) (λ y. any (claims_conflict y) a.claims)
        (λ y.
          any-map (λ x. claims_conflict x y) (claims_conflict y) (λ x. claims_conflict_sym x y)
            a.claims)
        b.claims

both_repository :
    (m n : OwnershipNamespace)
    → is_repository m ≡ true
    → is_repository n ≡ true
    → namespace_eq m n ≡ true
both_repository repository repository h k = refl
both_repository resource n h k = absurd (cc)
both_repository shared_state n h k = absurd (cc)
both_repository repository resource h k = absurd (cc)
both_repository repository shared_state h k = absurd (cc)

write_not_read : (a : OwnershipAccess) → access_eq a write ≡ true → access_eq a read ≡ false
write_not_read read h = absurd (cc)
write_not_read write h = refl

owners_conflict :
    (path : String) (x y : OwnershipClaim)
    → claim_owns path x ≡ true
    → claim_owns path y ≡ true
    → claims_conflict x y ≡ true
unfolding claim_owns claims_conflict
owners_conflict path x y h k = ground (
  arith,
  both_repository x.namespace y.namespace,
  write_not_read x.access,
  covers_both x.key y.key path,
)

module _ {A B : Type 0} (p : A → Bool) (q : B → Bool) (r : A → B → Bool) where
  any-one :
      (x : A) (ys : List B)
      → ((y : B) → q y ≡ true → r x y ≡ true)
      → any q ys ≡ true
      → any (r x) ys ≡ true
  any-one x [] h k = k
  any-one x (y ∷ ys) h k = ground (arith, h y, any-one x ys h)

  any-both :
      (xs : List A) (ys : List B)
      → ((x : A) (y : B) → p x ≡ true → q y ≡ true → r x y ≡ true)
      → any p xs ≡ true
      → any q ys ≡ true
      → any (λ x. any (r x) ys) xs ≡ true
  any-both [] ys h k l = k
  any-both (x ∷ xs) ys h k l = elim (Bool-cases (p x)) [
    | inl e ↦ ground (arith, any-one x ys (λ y. h x y e) l)
    | inr e ↦ ground (arith, any-both xs ys h (ground arith) l)
  ]

-- Of two leases whose claims do not conflict, one at most owns a path for writing.
pub one_writer :
    (path : String) (a b : OwnershipLease)
    → conflicts_with a.claims b ≡ false
    → any (claim_owns path) a.claims ≡ true
    → any (claim_owns path) b.claims ≡ false
unfolding conflicts_with
one_writer path a b h k = ground (
  arith,
  any-both (claim_owns path) (claim_owns path) claims_conflict a.claims b.claims
      (λ x y. owners_conflict path x y) k,
)

has-any : (xs : List String) (k : String) → has xs k ≡ any (λ x. str_eq x k) xs
unfolding has
has-any [] k = refl
has-any (x ∷ xs) k = ap (λ b. str_eq x k || b) (has-any xs k)

has_same : (xs : List String) (j k : String) → j ≡ k → has xs j ≡ has xs k
has_same xs j k h = ap (has xs) h

module _ (claims : List OwnershipClaim) where
  abbrev hits : String → OwnershipLease → Bool
  hits k lease = conflicts_with claims lease && str_eq lease.task_id k

  has-pushed :
      (k : String) (lease : OwnershipLease) (found : List String)
      → has (push_conflict claims lease found) k ≡ (has found k || hits k lease)
  unfolding has
  has-pushed k lease found = ground (
    arith,
    has-append k found (lease.task_id ∷ []),
    eq_iff lease.task_id k,
    has_same found lease.task_id k,
  )

  has-collect :
      (k : String) (leases : List OwnershipLease) (found : List String)
      → has (collect_conflicts claims leases found) k ≡ (has found k || any (hits k) leases)
  has-collect k [] found = ground arith
  has-collect k (lease ∷ leases) found =
      ground
        (arith, has-pushed k lease found, has-collect k leases (push_conflict claims lease found))

  -- The result of conflictingTaskIds holds the tasks of the leases that the claims conflict with.
  pub has-conflicting_task_ids :
      (k : String) (leases : List OwnershipLease)
      → has (conflicting_task_ids claims leases) k ≡ any (hits k) leases
  unfolding conflicting_task_ids has
  has-conflicting_task_ids k leases =
      has-any (conflicting_task_ids claims leases) k
      ∙ any-sort_by is_text_after (λ x. str_eq x k) (collect_conflicts claims leases [])
      ∙ sym (has-any (collect_conflicts claims leases []) k)
      ∙ has-collect k leases []

  hits_self : (lease : OwnershipLease) → hits lease.task_id lease ≡ conflicts_with claims lease
  hits_self lease = ground (arith, eq_iff lease.task_id lease.task_id)

  none_hit :
      (leases : List OwnershipLease)
      → ((k : String) → any (hits k) leases ≡ false)
      → All (λ lease. conflicts_with claims lease ≡ false) leases
  none_hit [] h = tt
  none_hit (lease ∷ leases) h =
      (ground (arith, h lease.task_id, hits_self lease), none_hit leases (λ k. ground (arith, h k)))

  -- Without a conflicting task no lease conflicts.
  pub conflicting_task_ids-none :
      (leases : List OwnershipLease)
      → conflicting_task_ids claims leases ≡ []
      → All (λ lease. conflicts_with claims lease ≡ false) leases
  unfolding has
  conflicting_task_ids-none leases h =
      none_hit leases (λ k. sym (has-conflicting_task_ids k leases) ∙ ap (λ xs. has xs k) h)
