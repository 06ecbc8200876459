-- ===== src/Coordination/Safety/Reach.antt =====
-- src/coordination/coordinator.ts: the states that the calls reach, in any order, and the registrations
-- between them.
use odin_agent.Prelude.{
  ℕ, ◌≡◌, ◌≢◌, ◌∙◌, subst, Bool, true, false, Option, some, List, [], ◌∷◌, String, str_eq, eq_iff,
  arith, Dict, lookup, values, ok, All, Bool-cases, inl, inr, any,
}
use odin_agent.Mission.Snapshot.{MissionSnapshot}
use odin_agent.Coordination.Types.{
  OwnershipLease, SpecialistAssignment, SpecialistProfile, CoordinatorOptions, CoordinationPlan,
  CoordinationTaskSpec,
}
use odin_agent.Coordination.Outcomes.{Hashed, TaskReconciliation, SpecialistEvidenceReference}
use odin_agent.Coordination.Ownership.{conflicts_with, path_is_owned_for_write, claim_owns}
use odin_agent.Coordination.Ownership.Writers.{one_writer, conflicts_with_sym}
use odin_agent.Coordination.Registry.{SpecialistRegistry, register}
use odin_agent.Coordination.Registry.Keys.{IsKeyed, register-IsKeyed}
use odin_agent.Coordination.State.{Coordinator, new_coordinator}
use odin_agent.Coordination.Plans.{plan}
use odin_agent.Coordination.Execution.{
  WorkerEnd, start_execution, end_assignment, finish_execution, release_plan, active_leases,
}
use odin_agent.Coordination.Leases.{IsSeparate}
use odin_agent.Coordination.Leases.Reserve.{register-AreSafe}
use odin_agent.Coordination.Safety.{IsSafe, start_execution-IsSafe}
use odin_agent.Coordination.Safety.Calls.{
  plan-IsSafe, end_assignment-IsSafe, finish_execution-IsSafe, release_plan-IsSafe,
  active_leases-IsSafe,
}

-- A coordinator and the registry that it reads.
pub record World : Type 0 where
  pub registry : SpecialistRegistry
  pub coordinator : Coordinator

abbrev pub new_world : CoordinatorOptions → World
new_world options = record { registry = []; coordinator = new_coordinator options }

abbrev to_coordinator : World → Coordinator → World
to_coordinator w c = record w { coordinator = c }

module _ (is_after : String → String → Bool) (stable_hash : Hashed → String)
    (attests : SpecialistAssignment → SpecialistEvidenceReference → Bool) where
  pub data Step : World → World → Type 0 where
    registers :
        (w : World) (profile : SpecialistProfile) (after : SpecialistRegistry)
        → register profile w.registry ≡ ok after
        → Step w (record w { registry = after })
    plans :
        (w : World) (snapshot : MissionSnapshot) (specs : List CoordinationTaskSpec)
        (reading : Option ℕ)
        → Step w (
            to_coordinator w
              (plan is_after stable_hash w.registry snapshot specs reading w.coordinator).0)
    starts :
        (w : World) (p : CoordinationPlan) (reading : Option ℕ)
        → Step w (to_coordinator w (start_execution stable_hash p reading w.coordinator).0)
    ends :
        (w : World) (hash : String) (assignment : SpecialistAssignment) (end : WorkerEnd)
        → Step w (
            to_coordinator w
              (end_assignment stable_hash is_after attests hash assignment end w.coordinator).0)
    finishes :
        (w : World) (p : CoordinationPlan) (items : List TaskReconciliation) (reading : Option ℕ)
        → Step w (to_coordinator w (finish_execution stable_hash p items reading w.coordinator).0)
    releases :
        (w : World) (hash : String)
        → Step w (to_coordinator w (release_plan stable_hash hash w.coordinator).0)
    lists :
        (w : World) (reading : Option ℕ)
        → Step w (to_coordinator w (active_leases stable_hash is_after reading w.coordinator).0)

  pub data Reach (v : World) : World → Type 0 where
    here : Reach v v
    next : {w u : World} → Reach v w → Step w u → Reach v u

  abbrev pub IsSafeWorld : World → Type 0
  IsSafeWorld w = IsKeyed w.registry × IsSafe w.registry w.coordinator

  Step-IsSafe : {w u : World} → Step w u → IsSafeWorld w → IsSafeWorld u
  Step-IsSafe (registers w profile after e) (k, s) = (
    register-IsKeyed profile w.registry after e k,
    register-AreSafe profile w.registry after w.coordinator.options w.coordinator.leases e s,
  )
  Step-IsSafe (plans w snapshot specs reading) (k, s) =
      (k, plan-IsSafe is_after stable_hash w.registry k snapshot specs reading w.coordinator s)
  Step-IsSafe (starts w p reading) (k, s) =
      (k, start_execution-IsSafe stable_hash w.registry p reading w.coordinator s)
  Step-IsSafe (ends w hash assignment end) (k, s) = (
    k,
    end_assignment-IsSafe is_after stable_hash w.registry attests hash assignment end w.coordinator
        s,
  )
  Step-IsSafe (finishes w p items reading) (k, s) =
      (k, finish_execution-IsSafe is_after stable_hash w.registry p items reading w.coordinator s)
  Step-IsSafe (releases w hash) (k, s) =
      (k, release_plan-IsSafe is_after stable_hash w.registry hash w.coordinator s)
  Step-IsSafe (lists w reading) (k, s) =
      (k, active_leases-IsSafe is_after stable_hash w.registry reading w.coordinator s)

  -- In every state that calls of the coordinator and registrations reach from the start, in any order
  -- and with any arguments: no two active leases have conflicting claims, there are at most
  -- maxActiveAssignments of them, no registered specialist holds more than its maxConcurrency, and
  -- every lease is of a registered specialist, whose key is its own.
  pub Reach-IsSafe :
      (options : CoordinatorOptions) {w : World} → Reach (new_world options) w → IsSafeWorld w
  Reach-IsSafe options here = (tt, (tt, omega arith, tt, tt))
  Reach-IsSafe options (next reach step) = Step-IsSafe step (Reach-IsSafe options reach)

  All-lookup :
      (P : OwnershipLease → Type 0) (key : String) (leases : Dict OwnershipLease)
      {lease : OwnershipLease}
      → All P (values leases)
      → lookup key leases ≡ some lease
      → P lease
  unfolding lookup
  All-lookup P key [] h e = absurd (cc)
  All-lookup P key ((other, old) ∷ rest) {lease} h e = elim (Bool-cases (str_eq other key)) [
    | inl f ↦ let same : old ≡ lease = ground arith in subst P same h.0
    | inr f ↦ All-lookup P key rest h.1 (ground arith)
  ]

  separate_pair :
      (i j : String) (leases : Dict OwnershipLease) {a b : OwnershipLease}
      → IsSeparate (values leases)
      → lookup i leases ≡ some a
      → lookup j leases ≡ some b
      → i ≢ j
      → conflicts_with a.claims b ≡ false
  unfolding lookup
  separate_pair i j [] s h k n = absurd (cc)
  separate_pair i j ((other, old) ∷ rest) {a} {b} s h k n = elim (Bool-cases (str_eq other i)) [
    | inl f ↦
        let same : old ≡ a = ground arith in
        let apart : str_eq other j ≡ false = ground (arith, eq_iff other i, eq_iff other j, n) in
        subst (λ (l : OwnershipLease). conflicts_with l.claims b ≡ false) same
          (All-lookup (λ l. conflicts_with old.claims l ≡ false) j rest {lease = b} s.0
            (ground arith))
    | inr f ↦ elim (Bool-cases (str_eq other j)) [
      | inl g ↦
          let same : old ≡ b = ground arith in
          subst (λ (l : OwnershipLease). conflicts_with a.claims l ≡ false) same
            (conflicts_with_sym a old
              ∙ All-lookup (λ l. conflicts_with old.claims l ≡ false) i rest {lease = a} s.0
                  (ground arith))
      | inr g ↦ separate_pair i j rest {a = a} {b = b} s.1 (ground arith) (ground arith) n
    ]
  ]

  -- In every reachable state a path that one active lease owns for writing is owned for writing by no
  -- other active lease.
  pub Reach-path_is_owned_for_write :
      (options : CoordinatorOptions) {w : World} (path i j : String) {a b : OwnershipLease}
      → Reach (new_world options) w
      → lookup i w.coordinator.leases ≡ some a
      → lookup j w.coordinator.leases ≡ some b
      → i ≢ j
      → path_is_owned_for_write path a.claims ≡ ok true
      → path_is_owned_for_write path b.claims ≡ ok false
  unfolding path_is_owned_for_write
  Reach-path_is_owned_for_write options {w} path i j {a} {b} reach h k n owned =
      let safe = Reach-IsSafe options reach in
      let apart = separate_pair i j w.coordinator.leases safe.1.0 h k n in
      let owns : any (claim_owns path) a.claims ≡ true = ground arith in
      ground (arith, one_writer path a b apart owns)
