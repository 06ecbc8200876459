-- ===== src/Coordination/Plans/Partition.antt =====
-- src/coordination/coordinator.ts: a plan assigns or defers every pending task once, and what it assigns.
use odin_agent.Prelude.{
  ℕ, ◌+◌, ◌≤◌, ◌<◌, ◌≡◌, refl, sym, ap, ◌∙◌, subst, Bool, true, not, Option, some, List, [], ◌∷◌,
  ◌++◌, String, str_eq, eq_iff, arith, map, select, length, Dict, lookup, insert, lookup-insert,
  has, Result, ok, err, ◌>>◌, >>=-eq-ok, guard, fold_result, Result-cases, Option-cases, All,
  All-append, Bool-cases, inl, inr, length-append, leb, ◌==◌, is_distinct, every, is_some,
}
use odin_agent.Prelude.Number.{max_safe}
use odin_agent.Mission.Graph.{MissionTask, task_ids}
use odin_agent.Mission.Snapshot.{MissionSnapshot}
use odin_agent.Mission.Runnable.{runnable_tasks}
use odin_agent.Coordination.Types.{
  SpecialistProfile, CoordinationTaskSpec, SpecialistAssignment, CoordinationDeferral, PlanBody,
  CoordinationPlan, CoordinatorOptions, CoordinationError, type_error, plan_generation_exhausted,
  too_many_tasks, lease_generation_exhausted,
}
use odin_agent.Coordination.Checks.{
  is_identifier, is_text, is_token, max_summary_length, max_collection_items,
}
use odin_agent.Coordination.Ownership.{normalize_ownership_claims}
use odin_agent.Coordination.Verdict.Laws.{ok_injective}
use odin_agent.Coordination.Outcomes.{Hashed}
use odin_agent.Coordination.Registry.{SpecialistRegistry, matching, normalize_capabilities}
use odin_agent.Coordination.Specs.{
  has_task_text, normalize_context, normalize_spec, add_spec, normalize_task_specs,
}
use odin_agent.Coordination.State.{
  Coordinator, Outcome, and_then, read_clock, expire_plans, prune_plan_records,
}
use odin_agent.Coordination.Planning.{
  Decision, defers, assigns, Batch, decide, decide_limits, decide_matches, active_task_lease,
  deferral,
}
use odin_agent.Coordination.Planning.Fits.{matches-found}
use odin_agent.Coordination.Plans.{
  plan, plan_at, plan_checked, plan_pruned, plan_specified, plan_batch, plan_tasks, on_decision,
  record_plan, carry_out, reserve_assignment, check_mission, check_request, pending_tasks,
  start_batch, least, new_lease, new_assignment, plan_body,
}

-- How often a text stands in a list.
abbrev pub count : String → List String → ℕ
count k xs = length (select (λ x. str_eq x k) xs)

count-append : (k : String) (xs ys : List String) → count k (xs ++ ys) ≡ count k xs + count k ys
count-append k [] ys = omega arith
count-append k (x ∷ xs) ys = ground (arith, count-append k xs ys)

abbrev pub assigned_ids : List SpecialistAssignment → List String
assigned_ids = map (λ a. a.body.task_id)

abbrev pub deferred_ids : List CoordinationDeferral → List String
deferred_ids = map (λ d. d.task_id)

count-push :
    {A : Type 0} (k : String) (f : A → String) (xs : List A) (x : A)
    → count k (map f (xs ++ x ∷ [])) ≡ count k (map f xs) + count k (f x ∷ [])
count-push k f [] x = omega arith
count-push k f (y ∷ ys) x = ground (arith, count-push k f ys x)

-- Each specification stands under its own task.
abbrev AreKeyed : Dict CoordinationTaskSpec → Type 0
AreKeyed specs =
    (id : String) (spec : CoordinationTaskSpec) → lookup id specs ≡ some spec → spec.task_id ≡ id

module _ (is_after : String → String → Bool) where
  normalize_spec-task_id :
      (mission_id : String) (candidate : CoordinationTaskSpec) {spec : CoordinationTaskSpec}
      → normalize_spec is_after mission_id candidate ≡ ok spec
      → spec.task_id ≡ candidate.task_id
  unfolding normalize_spec
  normalize_spec-task_id mission_id candidate {spec} h =
      let (_, _, h1) =
        >>=-eq-ok (guard (is_text max_summary_length candidate.goal) type_error) _ h in
      let (_, _, h2) = >>=-eq-ok (guard (is_token candidate.role) type_error) _ h1 in
      let (capabilities, _, h3) =
        >>=-eq-ok (normalize_capabilities candidate.required_capabilities) _ h2 in
      let (ownership, _, h4) =
        >>=-eq-ok (normalize_ownership_claims is_after candidate.ownership) _ h3 in
      let (context, _, h5) =
        >>=-eq-ok (normalize_context candidate.context mission_id candidate.task_id) _ h4 in
      sym (ap (λ (s : CoordinationTaskSpec). s.task_id) (ok_injective h5))

  insert-AreKeyed :
      (id : String) (spec : CoordinationTaskSpec) (specs : Dict CoordinationTaskSpec)
      → spec.task_id ≡ id
      → AreKeyed specs
      → AreKeyed (insert id spec specs)
  insert-AreKeyed id spec specs same keyed other found h =
      let l = lookup-insert id other spec specs in
      elim (Bool-cases (str_eq id other)) [
        | inl e ↦
            let which : spec ≡ found = ground arith in
            sym (ap (λ (s : CoordinationTaskSpec). s.task_id) which) ∙ same ∙ (eq_iff id other).0 e
        | inr e ↦ keyed other found (ground arith)
      ]

  add_spec-AreKeyed :
      (snapshot : MissionSnapshot) (specs : Dict CoordinationTaskSpec)
      (candidate : CoordinationTaskSpec) {after : Dict CoordinationTaskSpec}
      → add_spec is_after snapshot specs candidate ≡ ok after
      → AreKeyed specs
      → AreKeyed after
  unfolding add_spec
  add_spec-AreKeyed snapshot specs candidate {after} h keyed =
      let (_, _, h1) = >>=-eq-ok (guard (is_identifier candidate.task_id) type_error) _ h in
      let (_, _, h2) =
        >>=-eq-ok (guard (has (task_ids snapshot.tasks) candidate.task_id) type_error) _ h1 in
      let (_, _, h3) =
        >>=-eq-ok (guard (not (is_some (lookup candidate.task_id specs))) type_error) _ h2 in
      let (spec, e, h4) = >>=-eq-ok (normalize_spec is_after snapshot.id candidate) _ h3 in
      subst AreKeyed (ok_injective h4) (
        insert-AreKeyed candidate.task_id spec specs
          (normalize_spec-task_id snapshot.id candidate e) keyed)

  fold-AreKeyed :
      (snapshot : MissionSnapshot) (candidates : List CoordinationTaskSpec)
      (specs : Dict CoordinationTaskSpec) {after : Dict CoordinationTaskSpec}
      → fold_result (add_spec is_after snapshot) specs candidates ≡ ok after
      → AreKeyed specs
      → AreKeyed after
  fold-AreKeyed snapshot [] specs {after} h keyed =
      let same : specs ≡ after = cc in subst AreKeyed same keyed
  fold-AreKeyed snapshot (candidate ∷ candidates) specs h keyed =
      let (more, first, rest) = >>=-eq-ok (add_spec is_after snapshot specs candidate) _ h in
      fold-AreKeyed snapshot candidates more rest
        (add_spec-AreKeyed snapshot specs candidate first keyed)

  module _ (registry : SpecialistRegistry) where
    limits-spec :
        (b : Batch) (spec other : CoordinationTaskSpec) (found : SpecialistProfile)
        → decide_limits is_after registry b spec ≡ ok (assigns other found)
        → (spec ≡ other) × (length b.assignments < b.coordinator.options.max_batch_size)
    limits-spec b spec other found h =
        elim (Result-cases (matching is_after spec.role spec.required_capabilities registry)) [
          | inr (e, p) ↦ absurd (ground arith)
          | inl (profiles, p) ↦
              let e : decide_matches is_after b.coordinator spec profiles ≡ assigns other found =
                ground arith in
              (
                (matches-found is_after registry b.coordinator spec other profiles found e).2,
                ground arith,
              )
        ]

    assigned-spec :
        (snapshot : MissionSnapshot) (specs : Dict CoordinationTaskSpec) (b : Batch)
        (task : MissionTask) {spec : CoordinationTaskSpec} {found : SpecialistProfile}
        → decide is_after registry snapshot specs b task ≡ ok (assigns spec found)
        → (lookup task.id specs ≡ some spec)
          × (length b.assignments < b.coordinator.options.max_batch_size)
          × (has (map (λ t. t.id) (runnable_tasks is_after snapshot)) task.id ≡ true)
    unfolding decide
    assigned-spec snapshot specs b task {spec} {found} h =
        elim (Option-cases (lookup task.id specs)) [
          | inl e ↦ absurd (ground arith)
          | inr (s, e) ↦
              elim (Option-cases (active_task_lease is_after snapshot.id task.id b.coordinator)) [
                | inr (l, f) ↦ absurd (ground arith)
                | inl f ↦
                    let inner = limits-spec b s spec found (ground arith) in
                    (e ∙ ap some inner.0, inner.1, ground arith)
              ]
        ]

    module _ (stable_hash : Hashed → String) (snapshot : MissionSnapshot)
        (specs : Dict CoordinationTaskSpec) (now : ℕ) where
      -- The assignments are within the batch limit and of runnable tasks.
      abbrev AreRunnable : ℕ → List SpecialistAssignment → Type 0
      AreRunnable limit assignments =
          (length assignments ≤ limit)
          × All
              (λ a. has (map (λ t. t.id) (runnable_tasks is_after snapshot)) a.body.task_id ≡ true)
              assignments

      abbrev total : String → Batch → ℕ
      total k b = count k (assigned_ids b.assignments) + count k (deferred_ids b.deferred)

      carry_out_sound :
          AreKeyed specs
          → (task : MissionTask) (b : Batch) (decision : Decision)
          → decide is_after registry snapshot specs b task ≡ ok decision
          → AreRunnable b.coordinator.options.max_batch_size b.assignments
          → let after = carry_out is_after stable_hash snapshot task now b decision in
            ((k : String) → total k after ≡ total k b + count k (task.id ∷ []))
            × AreRunnable after.coordinator.options.max_batch_size after.assignments
      unfolding reserve_assignment
      carry_out_sound keyed task b (defers reason conflicts) e h = (
        λ k.
            omega
              (arith, count-push k (λ d. d.task_id) b.deferred (deferral task.id reason conflicts)),
        h,
      )
      carry_out_sound keyed task b (assigns spec found) e h =
          let (l, room, ready) = assigned-spec snapshot specs b task e in
          let same = keyed task.id spec l in
          let made =
            new_assignment is_after stable_hash snapshot task.title spec
              (new_lease is_after stable_hash snapshot spec found now b.coordinator) in
          (
            λ k. omega (
              arith,
              count-push k (λ a. a.body.task_id) b.assignments made,
              ap (λ id. count k (id ∷ [])) same,
            ),
            (
              omega (arith, room, length-append b.assignments (made ∷ [])),
              All-append
                  (λ a.
                    has (map (λ t. t.id) (runnable_tasks is_after snapshot)) a.body.task_id ≡ true)
                  b.assignments (made ∷ []) h.1
                  (
                    subst
                        (λ (id : String).
                          has (map (λ t. t.id) (runnable_tasks is_after snapshot)) id ≡ true)
                        (sym same) ready,
                    tt,
                  ),
            ),
          )

      carry_out-options :
          (task : MissionTask) (b : Batch) (decision : Decision)
          → (carry_out is_after stable_hash snapshot task now b decision).coordinator.options
            ≡ b.coordinator.options
      unfolding reserve_assignment
      carry_out-options task b (defers reason conflicts) = refl
      carry_out-options task b (assigns spec found) = refl

      plan_tasks_sound :
          AreKeyed specs
          → (tasks : List MissionTask) (b : Batch) {after : Batch}
          → plan_tasks is_after stable_hash registry snapshot specs now tasks b ≡ (after, ok tt)
          → AreRunnable b.coordinator.options.max_batch_size b.assignments
          → ((k : String) → total k after ≡ total k b + count k (map (λ t. t.id) tasks))
            × AreRunnable b.coordinator.options.max_batch_size after.assignments
            × (after.coordinator.options ≡ b.coordinator.options)
      unfolding plan_tasks
      plan_tasks_sound keyed [] b {after} e h =
          let same : b ≡ after = ap (λ (m : Batch × Result CoordinationError (Unit {0})). m.0) e in
          subst
            (λ (x : Batch).
              ((k : String) → total k x ≡ total k b + 0)
              × AreRunnable b.coordinator.options.max_batch_size x.assignments
              × (x.coordinator.options ≡ b.coordinator.options))
            same (λ k. omega arith, h, refl)
      plan_tasks_sound keyed (task ∷ tasks) b {after} e h =
          let go = λ (m : Result CoordinationError Decision).
            on_decision is_after stable_hash b m (λ decision.
              plan_tasks is_after stable_hash registry snapshot specs now tasks
                (carry_out is_after stable_hash snapshot task now b decision)) in
          elim (Result-cases (decide is_after registry snapshot specs b task)) [
            | inr (thrown, d) ↦
                let e' =
                  subst (λ (m : Result CoordinationError Decision). go m ≡ (after, ok tt)) d e in
                let e'' = ap (λ (m : Batch × Result CoordinationError (Unit {0})). m.1) e' in
                absurd (cc)
            | inl (decision, d) ↦
                let e' =
                  subst (λ (m : Result CoordinationError Decision). go m ≡ (after, ok tt)) d e in
                let next = carry_out is_after stable_hash snapshot task now b decision in
                let (one, fits) = carry_out_sound keyed task b decision d h in
                let (more, done, options) = plan_tasks_sound keyed tasks next e' fits in
                (
                  λ k. ground (arith, one k, more k),
                  subst (λ (n : ℕ). AreRunnable n after.assignments)
                      (ap (λ (o : CoordinatorOptions). o.max_batch_size)
                        (carry_out-options task b decision))
                      done,
                  options ∙ carry_out-options task b decision,
                )
          ]

pub and_then-ok :
    {A B : Type 0} (m : Outcome A) (next : Coordinator → A → Outcome B) {c : Coordinator} {out : B}
    → and_then m next ≡ (c, ok out)
    → (d : Coordinator) × (value : A) × (m ≡ (d, ok value)) × (next d value ≡ (c, ok out))
and_then-ok (d, ok value) next h = (d, value, refl, h)
and_then-ok (d, err thrown) next {c} {out} h = let h' = ap (λ (m : Outcome _). m.1) h in absurd (cc)

module _ (is_after : String → String → Bool) (stable_hash : Hashed → String)
    (registry : SpecialistRegistry) (snapshot : MissionSnapshot) where
  -- What a plan of `tasks` says, for a coordinator with a batch limit.
  abbrev pub IsPartition : ℕ → List MissionTask → CoordinationPlan → Type 0
  IsPartition limit tasks p =
      ((k : String)
        → count k (assigned_ids p.body.assignments) + count k (deferred_ids p.body.deferred)
          ≡ count k (map (λ t. t.id) tasks))
      × (length p.body.assignments ≤ limit)
      × All (λ a. has (map (λ t. t.id) (runnable_tasks is_after snapshot)) a.body.task_id ≡ true)
          p.body.assignments

  recorded-IsPartition :
      (specs : Dict CoordinationTaskSpec) (now : ℕ) (c : Coordinator)
      (m : Batch × Result CoordinationError (Unit {0})) {c' : Coordinator} {p : CoordinationPlan}
      → plan_tasks is_after stable_hash registry snapshot specs now
          (pending_tasks is_after snapshot)
          (start_batch is_after stable_hash registry snapshot specs now c)
        ≡ m
      → record_plan is_after stable_hash registry snapshot specs now m ≡ (c', ok p)
      → AreKeyed specs
      → IsPartition c'.options.max_batch_size (pending_tasks is_after snapshot) p
  recorded-IsPartition specs now c (b, err thrown) e h keyed =
      let h' = ap (λ (m : Outcome CoordinationPlan). m.1) h in absurd (cc)
  recorded-IsPartition specs now c (b, ok u) {c'} {p} e h keyed =
      let start = start_batch is_after stable_hash registry snapshot specs now c in
      let (counts, (bound, ready), options) =
        plan_tasks_sound is_after registry stable_hash snapshot specs now keyed
          (pending_tasks is_after snapshot) start e (omega arith, tt) in
      let bodies : plan_body is_after stable_hash registry snapshot specs now b ≡ p.body =
        ap (λ (q : CoordinationPlan). q.body)
          (ok_injective (ap (λ (m : Outcome CoordinationPlan). m.1) h)) in
      let same : b.coordinator.options ≡ c'.options =
        ap (λ (m : Outcome CoordinationPlan). m.0.options) h in
      let limits = ap (λ (o : CoordinatorOptions). o.max_batch_size) (sym options ∙ same) in
      subst
        (λ (x : PlanBody).
          ((k : String)
            → count k (assigned_ids x.assignments) + count k (deferred_ids x.deferred)
              ≡ count k (map (λ t. t.id) (pending_tasks is_after snapshot)))
          × (length x.assignments ≤ c'.options.max_batch_size)
          × All
              (λ a. has (map (λ t. t.id) (runnable_tasks is_after snapshot)) a.body.task_id ≡ true)
              x.assignments)
        bodies
        (
          λ k. omega (arith, counts k),
          subst (λ (n : ℕ). length b.assignments ≤ n) limits bound,
          ready,
        )

  requested-AreKeyed :
      (task_specs : List CoordinationTaskSpec) (c : Coordinator) {specs : Dict CoordinationTaskSpec}
      → check_request is_after stable_hash snapshot task_specs c ≡ ok specs
      → AreKeyed specs
  unfolding normalize_task_specs lookup
  requested-AreKeyed task_specs c h =
      let (_, _, h1) =
        >>=-eq-ok
          (guard (not (c.plan_generation == max_safe)) plan_generation_exhausted
            >> guard (leb (length snapshot.tasks) max_collection_items) too_many_tasks)
          _ h in
      let (_, _, h2) =
        >>=-eq-ok
          (guard (leb (length task_specs) max_collection_items) type_error
            >> guard (is_distinct (task_ids snapshot.tasks)) type_error
            >> guard (every has_task_text snapshot.tasks) type_error)
          _ h1 in
      fold-AreKeyed is_after snapshot task_specs [] h2 (λ id spec l. absurd (cc))

  -- A plan assigns or defers every pending task, as often as the task stands in the mission, and nothing
  -- else; it assigns runnable tasks, and no more of them than maxBatchSize.
  pub plan-IsPartition :
      (task_specs : List CoordinationTaskSpec) (reading : Option ℕ) (c : Coordinator)
      {c' : Coordinator} {p : CoordinationPlan}
      → plan is_after stable_hash registry snapshot task_specs reading c ≡ (c', ok p)
      → IsPartition c'.options.max_batch_size (pending_tasks is_after snapshot) p
  unfolding plan
  plan-IsPartition task_specs reading c h =
      let (c1, _, _, h1) =
        and_then-ok (c, check_mission is_after stable_hash snapshot)
          (plan_checked is_after stable_hash registry snapshot task_specs reading) h in
      let (c2, now, _, h2) =
        and_then-ok (read_clock reading c1)
          (plan_at is_after stable_hash registry snapshot task_specs) h1 in
      let (c3, _, _, h3) =
        and_then-ok (prune_plan_records (expire_plans stable_hash now c2))
          (plan_pruned is_after stable_hash registry snapshot task_specs now) h2 in
      let (c4, specs, checked, h4) =
        and_then-ok (c3, check_request is_after stable_hash snapshot task_specs c3)
          (plan_specified is_after stable_hash registry snapshot now) h3 in
      let tasks = pending_tasks is_after snapshot in
      let (c5, _, _, h5) =
        and_then-ok
          (
            c4,
            guard
                (leb (c4.lease_generation + least c4.options.max_batch_size (length tasks))
                  max_safe)
                lease_generation_exhausted,
          )
          (plan_batch is_after stable_hash registry snapshot specs now tasks) h4 in
      recorded-IsPartition specs now c5
        (plan_tasks is_after stable_hash registry snapshot specs now tasks
          (start_batch is_after stable_hash registry snapshot specs now c5))
        refl h5
        (requested-AreKeyed task_specs c3
          (ap (λ (m : Outcome (Dict CoordinationTaskSpec)). m.1) checked))
