-- ===== src/Coordination/Leases.antt =====
-- src/coordination/coordinator.ts: what holds of a table of leases, and what adding or removing one does.
pub mod Reserve
use odin_agent.Prelude.{
  ℕ, suc, ◌+◌, ◌≤◌, ◌≡◌, refl, sym, ap, ◌∙◌, subst, Bool, true, false, Option, none, some, List, [],
  ◌∷◌, String, str_eq, arith, Dict, lookup, insert, delete, values, select, length, All, All-widen,
  Bool-cases, inl, inr, is_some, if◌then◌else◌,
}
use odin_agent.Coordination.Types.{
  OwnershipLease, SpecialistAssignment, SpecialistProfile, CoordinatorOptions,
}
use odin_agent.Coordination.Ownership.{conflicts_with}
use odin_agent.Coordination.Ownership.Writers.{conflicts_with_sym}
use odin_agent.Coordination.Outcomes.{Hashed}
use odin_agent.Coordination.Registry.{SpecialistRegistry, registration}
use odin_agent.Coordination.Planning.{is_held_by}

-- No two of the leases conflict.
abbrev pub IsSeparate : List OwnershipLease → Type 0
IsSeparate [] = Unit
IsSeparate (lease ∷ leases) =
    All (λ other. conflicts_with lease.claims other ≡ false) leases × IsSeparate leases

abbrev pub held : SpecialistProfile → Dict OwnershipLease → ℕ
held profile leases = length (select (is_held_by profile) (values leases))

abbrev pub HasCapacity : Dict OwnershipLease → SpecialistProfile → Type 0
HasCapacity leases profile = held profile leases ≤ profile.max_concurrency

-- A lease is of a specialist that is registered.
abbrev pub IsOfSpecialist : SpecialistRegistry → OwnershipLease → Type 0
IsOfSpecialist registry lease =
    is_some (registration lease.specialist_id lease.specialist_version registry) ≡ true

-- The leases do not conflict, there are no more of them than the coordinator allows, no specialist holds
-- more of them than its profile allows, and every one is of a registered specialist.
abbrev pub AreSafe : SpecialistRegistry → CoordinatorOptions → Dict OwnershipLease → Type 0
AreSafe registry options leases =
    IsSeparate (values leases)
    × (length leases ≤ options.max_active_assignments)
    × All (HasCapacity leases) registry
    × All (IsOfSpecialist registry) (values leases)

module _ {V : Type 0} where
  pub All-insert :
      (P : V → Type 0) (key : String) (value : V) (dict : Dict V)
      → P value
      → All P (values dict)
      → All P (values (insert key value dict))
  unfolding insert
  All-insert P key value [] h hs = (h, tt)
  All-insert P key value ((other, old) ∷ rest) h hs =
      let more = All-insert P key value rest h hs.1 in
      elim (Bool-cases (str_eq other key)) [ inl e ↦ rw e (h, hs.1) | inr e ↦ rw e (hs.0, more) ]

  pub All-delete :
      (P : V → Type 0) (key : String) (dict : Dict V)
      → All P (values dict)
      → All P (values (delete key dict))
  unfolding delete
  All-delete P key [] hs = tt
  All-delete P key ((other, old) ∷ rest) hs =
      let more = All-delete P key rest hs.1 in
      elim (Bool-cases (str_eq other key)) [ inl e ↦ rw e more | inr e ↦ rw e (hs.0, more) ]

  pub length-delete : (key : String) (dict : Dict V) → length (delete key dict) ≤ length dict
  unfolding delete
  length-delete key [] = omega arith
  length-delete key ((other, old) ∷ rest) = ground (arith, length-delete key rest)

  pub length-insert :
      (key : String) (value : V) (dict : Dict V)
      → length (insert key value dict) ≤ suc (length dict)
  unfolding insert
  length-insert key value [] = omega arith
  length-insert key value ((other, old) ∷ rest) = ground (arith, length-insert key value rest)

  module _ (p : V → Bool) where
    pub select-delete :
        (key : String) (dict : Dict V)
        → length (select p (values (delete key dict))) ≤ length (select p (values dict))
    unfolding delete
    select-delete key [] = omega arith
    select-delete key ((other, old) ∷ rest) = ground (arith, select-delete key rest)

    -- An insertion adds one at most to what a test selects, and nothing where the test fails.
    pub select-insert :
        (key : String) (value : V) (dict : Dict V)
        → length (select p (values (insert key value dict)))
          ≤ (if p value then 1 else 0) + length (select p (values dict))
    unfolding insert
    select-insert key value [] = ground arith
    select-insert key value ((other, old) ∷ rest) = ground (arith, select-insert key value rest)

pub IsSeparate-delete :
    (key : String) (leases : Dict OwnershipLease)
    → IsSeparate (values leases)
    → IsSeparate (values (delete key leases))
unfolding delete
IsSeparate-delete key [] h = tt
IsSeparate-delete key ((other, old) ∷ rest) h =
    let more = IsSeparate-delete key rest h.1 in
    elim (Bool-cases (str_eq other key)) [
      | inl e ↦ rw e more
      | inr e ↦ rw e (All-delete (λ l. conflicts_with old.claims l ≡ false) key rest h.0, more)
    ]

pub IsSeparate-insert :
    (key : String) (lease : OwnershipLease) (leases : Dict OwnershipLease)
    → All (λ other. conflicts_with lease.claims other ≡ false) (values leases)
    → IsSeparate (values leases)
    → IsSeparate (values (insert key lease leases))
unfolding insert
IsSeparate-insert key lease [] free h = (tt, tt)
IsSeparate-insert key lease ((other, old) ∷ rest) free h =
    let more = IsSeparate-insert key lease rest free.1 h.1 in
    elim (Bool-cases (str_eq other key)) [
      | inl e ↦ rw e (free.1, h.1)
      | inr e ↦ rw e (
        All-insert (λ l. conflicts_with old.claims l ≡ false) key lease rest
            (conflicts_with_sym old lease ∙ free.0) h.0,
        more,
      )
    ]

module _ {A : Type 0} where
  pub All-both :
      (P Q R : A → Type 0) (xs : List A)
      → ((x : A) → P x → Q x → R x)
      → All P xs
      → All Q xs
      → All R xs
  All-both P Q R [] f h k = tt
  All-both P Q R (x ∷ xs) f h k = (f x h.0 k.0, All-both P Q R xs f h.1 k.1)

-- Removing a lease keeps the leases safe.
pub AreSafe-delete :
    (registry : SpecialistRegistry) (options : CoordinatorOptions) (key : String)
    (leases : Dict OwnershipLease)
    → AreSafe registry options leases
    → AreSafe registry options (delete key leases)
AreSafe-delete registry options key leases h = (
  IsSeparate-delete key leases h.0,
  omega (arith, h.1, length-delete key leases),
  All-widen (HasCapacity leases) (HasCapacity (delete key leases)) registry
      (λ profile k. omega (arith, k, select-delete (is_held_by profile) key leases)) h.2,
  All-delete (IsOfSpecialist registry) key leases h.3,
)
