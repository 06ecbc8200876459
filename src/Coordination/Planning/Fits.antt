-- ===== src/Coordination/Planning/Fits.antt =====
-- src/coordination/coordinator.ts: what has passed the tests of `plan` when a task is assigned.
use odin_agent.Prelude.{
  ◌<◌, ◌≡◌, refl, ap, ◌∙◌, subst, Bool, true, false, Option, none, some, List, [], ◌∷◌, String,
  arith, map, find_first, length, Dict, lookup, values, has, ok, Result-cases, Option-cases, All,
  All-unsort_by, inl, inr,
}
use odin_agent.Mission.Graph.{MissionTask}
use odin_agent.Mission.Snapshot.{MissionSnapshot}
use odin_agent.Mission.Runnable.{runnable_tasks}
use odin_agent.Coordination.Types.{SpecialistProfile, CoordinationTaskSpec}
use odin_agent.Coordination.Ownership.{conflicts_with, conflicting_task_ids}
use odin_agent.Coordination.Ownership.Writers.{conflicting_task_ids-none}
use odin_agent.Coordination.Registry.{
  SpecialistRegistry, matching, is_match, normalize_capabilities,
}
use odin_agent.Coordination.Registry.Keys.{
  IsRegistered, IsKeyed, matching-IsRegistered, All-find_first,
}
use odin_agent.Coordination.State.{Coordinator, active_leases_sorted, lease_after}
use odin_agent.Coordination.Planning.{
  assigns, Batch, decide, decide_limits, decide_matches, decide_specialist, decide_conflicts,
  has_capacity, active_task_lease, active_specialist_count,
}

module _ (is_after : String → String → Bool) (registry : SpecialistRegistry) where
  -- What the tests from `batch_limit` on say of a specification and a specialist.
  pub record Fits (b : Batch) (spec : CoordinationTaskSpec) (specialist : SpecialistProfile)
      : Type 0 where
    pub in_batch : length b.assignments < b.coordinator.options.max_batch_size
    pub has_room : length b.coordinator.leases < b.coordinator.options.max_active_assignments
    pub is_registered : IsRegistered registry specialist
    pub capabilities : List String
    pub are_normalized : normalize_capabilities spec.required_capabilities ≡ ok capabilities
    pub is_able : is_match spec.role capabilities specialist ≡ true
    pub is_free :
        active_specialist_count is_after specialist b.coordinator < specialist.max_concurrency
    pub is_separate :
        All (λ lease. conflicts_with spec.ownership lease ≡ false) (values b.coordinator.leases)

  conflicts-none :
      (spec other : CoordinationTaskSpec) (specialist found : SpecialistProfile)
      (conflicts : List String)
      → decide_conflicts is_after spec specialist conflicts ≡ assigns other found
      → (conflicts ≡ []) × (specialist ≡ found) × (spec ≡ other)
  conflicts-none spec other specialist found [] h = (refl, cc, cc)
  conflicts-none spec other specialist found (k ∷ ks) h = absurd (cc)

  pub matches-found :
      (c : Coordinator) (spec other : CoordinationTaskSpec) (profiles : List SpecialistProfile)
      (found : SpecialistProfile)
      → decide_matches is_after c spec profiles ≡ assigns other found
      → (find_first (has_capacity is_after c) profiles ≡ some found)
        × (conflicting_task_ids spec.ownership (active_leases_sorted is_after c.leases) ≡ [])
        × (spec ≡ other)
  matches-found c spec other [] found h = absurd (cc)
  matches-found c spec other (profile ∷ profiles) found h =
      elim (Option-cases (find_first (has_capacity is_after c) (profile ∷ profiles))) [
        | inl e ↦
            let h' =
              subst
                (λ (o : Option SpecialistProfile).
                  decide_specialist is_after c spec o ≡ assigns other found)
                e h in
            absurd (cc)
        | inr (p, e) ↦
            let h' =
              subst
                (λ (o : Option SpecialistProfile).
                  decide_specialist is_after c spec o ≡ assigns other found)
                e h in
            let inner =
              conflicts-none spec other p found
                (conflicting_task_ids spec.ownership (active_leases_sorted is_after c.leases)) h' in
            (e ∙ ap some inner.1, inner.0, inner.2)
      ]

  leases-separate :
      (c : Coordinator) (spec : CoordinationTaskSpec)
      → conflicting_task_ids spec.ownership (active_leases_sorted is_after c.leases) ≡ []
      → All (λ lease. conflicts_with spec.ownership lease ≡ false) (values c.leases)
  unfolding active_leases_sorted
  leases-separate c spec h =
      All-unsort_by (lease_after is_after) (λ lease. conflicts_with spec.ownership lease ≡ false)
        (values c.leases)
        (conflicting_task_ids-none spec.ownership (active_leases_sorted is_after c.leases) h)

  limits-Fits :
      IsKeyed registry
      → (b : Batch) (spec other : CoordinationTaskSpec) (found : SpecialistProfile)
      → decide_limits is_after registry b spec ≡ ok (assigns other found)
      → Fits b spec found × (spec ≡ other)
  limits-Fits keyed b spec other found h =
      let c = b.coordinator in
      elim (Result-cases (matching is_after spec.role spec.required_capabilities registry)) [
        | inr (e, p) ↦ absurd (ground arith)
        | inl (profiles, p) ↦
            let e : decide_matches is_after c spec profiles ≡ assigns other found = ground arith in
            let m = matches-found c spec other profiles found e in
            let r =
              matching-IsRegistered is_after spec.role spec.required_capabilities registry keyed
                p in
            let known =
              All-find_first (λ q. IsRegistered registry q × (is_match spec.role r.0 q ≡ true))
                (has_capacity is_after c) profiles found r.2 m.0 in
            (
              record {
                in_batch = ground arith;
                has_room = ground arith;
                is_registered = known.0.0;
                capabilities = r.0;
                are_normalized = r.1;
                is_able = known.0.1;
                is_free = ground (arith, known.1);
                is_separate = leases-separate c spec m.1;
              },
              m.2,
            )
      ]

  -- A task that `decide` assigns is runnable, has a specification and no active lease, and fits.
  pub decide-Fits :
      IsKeyed registry
      → (snapshot : MissionSnapshot) (specs : Dict CoordinationTaskSpec) (b : Batch)
        (task : MissionTask) {spec : CoordinationTaskSpec} {specialist : SpecialistProfile}
      → decide is_after registry snapshot specs b task ≡ ok (assigns spec specialist)
      → (has (map (λ t. t.id) (runnable_tasks is_after snapshot)) task.id ≡ true)
        × (lookup task.id specs ≡ some spec)
        × (active_task_lease is_after snapshot.id task.id b.coordinator ≡ none)
        × Fits b spec specialist
  unfolding decide
  decide-Fits keyed snapshot specs b task {spec} {specialist} h =
      elim (Option-cases (lookup task.id specs)) [
        | inl e ↦ absurd (ground arith)
        | inr (found, e) ↦
            elim (Option-cases (active_task_lease is_after snapshot.id task.id b.coordinator)) [
              | inr (l, f) ↦ absurd (ground arith)
              | inl f ↦
                  let g : decide_limits is_after registry b found ≡ ok (assigns spec specialist) =
                    ground arith in
                  let inner = limits-Fits keyed b found spec specialist g in
                  (
                    ground arith,
                    e ∙ ap some inner.1,
                    f,
                    subst (λ (s : CoordinationTaskSpec). Fits b s specialist) inner.1 inner.0,
                  )
            ]
      ]
