-- ===== src/Coordination/Leases/Reserve.antt =====
-- src/coordination/coordinator.ts: reserveAssignment and the registration of a specialist keep the leases
-- safe.
use odin_agent.Prelude.{
  ℕ, ◌≡◌, refl, sym, ap, ◌∙◌, subst, Bool, true, false, some, List, [], ◌∷◌, ◌++◌, String, str_eq,
  eq_iff, arith, Dict, insert, values, select, length, is_some, ok, All, All-append, All-widen,
  Bool-cases, inl, inr, length-select-sort_by,
}
use odin_agent.Mission.Snapshot.{MissionSnapshot}
use odin_agent.Coordination.Types.{
  OwnershipLease, SpecialistProfile, CoordinatorOptions, CoordinationTaskSpec,
}
use odin_agent.Coordination.Outcomes.{Hashed}
use odin_agent.Coordination.Registry.{SpecialistRegistry, registration, register}
use odin_agent.Coordination.Registry.Keys.{IsRegistered, IsKeyed, register-ok, registration-append}
use odin_agent.Coordination.State.{Coordinator, lease_after, active_leases_sorted}
use odin_agent.Coordination.Planning.{Batch, is_held_by, active_specialist_count}
use odin_agent.Coordination.Planning.Fits.{Fits}
use odin_agent.Coordination.Plans.{new_lease}
use odin_agent.Coordination.Leases.{
  held, HasCapacity, IsOfSpecialist, AreSafe, IsSeparate-insert, All-insert, All-both,
  length-insert, select-insert,
}

module _ (is_after : String → String → Bool) (registry : SpecialistRegistry) where
  count_held :
      (profile : SpecialistProfile) (c : Coordinator)
      → active_specialist_count is_after profile c ≡ held profile c.leases
  unfolding active_specialist_count active_leases_sorted
  count_held profile c =
      length-select-sort_by (lease_after is_after) (is_held_by profile) (values c.leases)

  -- Two registered profiles with one key are one profile.
  same_key :
      (p q : SpecialistProfile)
      → IsRegistered registry p
      → IsRegistered registry q
      → str_eq q.id p.id ≡ true
      → str_eq q.version p.version ≡ true
      → p ≡ q
  same_key p q h k i v =
      let ids = (eq_iff q.id p.id).0 i in
      let versions = (eq_iff q.version p.version).0 v in
      let e : registration p.id p.version registry ≡ some q =
        subst (λ (x : String). registration x p.version registry ≡ some q) ids
          (subst (λ (x : String). registration q.id x registry ≡ some q) versions k) in
      let f : some p ≡ some q = sym h ∙ e in cc

  module _ (stable_hash : Hashed → String) (snapshot : MissionSnapshot)
      (spec : CoordinationTaskSpec) (specialist : SpecialistProfile) (now : ℕ) (b : Batch) where
    abbrev lease : OwnershipLease
    lease = new_lease is_after stable_hash snapshot spec specialist now b.coordinator

    specialist-HasCapacity :
        Fits is_after registry b spec specialist
        → HasCapacity (insert lease.id lease b.coordinator.leases) specialist
    specialist-HasCapacity fits = ground (
      arith,
      select-insert (is_held_by specialist) lease.id lease b.coordinator.leases,
      fits.is_free,
      count_held specialist b.coordinator,
    )

    still-HasCapacity :
        Fits is_after registry b spec specialist
        → (p : SpecialistProfile) → IsRegistered registry p
        → HasCapacity b.coordinator.leases p
        → HasCapacity (insert lease.id lease b.coordinator.leases) p
    still-HasCapacity fits p known h =
        let more = select-insert (is_held_by p) lease.id lease b.coordinator.leases in
        elim (Bool-cases (is_held_by p lease)) [
          | inr e ↦ ground (arith, more, e)
          | inl e ↦
              let same =
                same_key p specialist known fits.is_registered (ground arith) (ground arith) in
              subst
                (λ (q : SpecialistProfile).
                  HasCapacity (insert lease.id lease b.coordinator.leases) q)
                (sym same) (specialist-HasCapacity fits)
        ]

    pub reserve-AreSafe :
        IsKeyed registry
        → Fits is_after registry b spec specialist
        → AreSafe registry b.coordinator.options b.coordinator.leases
        → AreSafe registry b.coordinator.options (insert lease.id lease b.coordinator.leases)
    reserve-AreSafe keyed fits h = (
      IsSeparate-insert lease.id lease b.coordinator.leases fits.is_separate h.0,
      omega (arith, fits.has_room, length-insert lease.id lease b.coordinator.leases),
      All-both (IsRegistered registry) (HasCapacity b.coordinator.leases)
          (HasCapacity (insert lease.id lease b.coordinator.leases)) registry
          (still-HasCapacity fits) keyed h.2,
      All-insert (IsOfSpecialist registry) lease.id lease b.coordinator.leases
          (ap is_some fits.is_registered) h.3,
    )

-- A specialist whose key is new holds no lease.
held-new :
    (registry : SpecialistRegistry) (n : SpecialistProfile)
    → is_some (registration n.id n.version registry) ≡ false
    → (leases : List OwnershipLease) → All (IsOfSpecialist registry) leases
    → length (select (is_held_by n) leases) ≡ 0
held-new registry n new [] h = refl
held-new registry n new (l ∷ ls) h =
    let rest = held-new registry n new ls h.1 in
    elim (Bool-cases (is_held_by n l)) [
      | inr e ↦ ground arith
      | inl e ↦
          let ids = (eq_iff l.specialist_id n.id).0 (ground arith) in
          let versions = (eq_iff l.specialist_version n.version).0 (ground arith) in
          let found : is_some (registration n.id n.version registry) ≡ true =
            subst (λ (x : String). is_some (registration x n.version registry) ≡ true) ids
              (subst (λ (x : String). is_some (registration l.specialist_id x registry) ≡ true)
                versions h.0) in
          absurd (cc)
    ]

-- A new registration keeps the leases safe.
pub register-AreSafe :
    (profile : SpecialistProfile) (registry after : SpecialistRegistry)
    (options : CoordinatorOptions) (leases : Dict OwnershipLease)
    → register profile registry ≡ ok after
    → AreSafe registry options leases
    → AreSafe after options leases
register-AreSafe profile registry after options leases h s =
    let (n, same, new) = register-ok profile registry after h in
    subst (λ (r : SpecialistRegistry). AreSafe r options leases) (sym same)
      (
        s.0,
        s.1,
        All-append (HasCapacity leases) registry (n ∷ []) s.2
            (omega (arith, held-new registry n new (values leases) s.3), tt),
        All-widen (IsOfSpecialist registry) (IsOfSpecialist (registry ++ n ∷ [])) (values leases)
            (λ l k. registration-append l.specialist_id l.specialist_version registry (n ∷ []) k)
            s.3,
      )
