-- ===== src/Coordination/Execution/Once.antt =====
-- src/coordination/coordinator.ts: a plan is started once. The hypothesis on `stable_hash` is that SHA-256
-- does not give the plans of two generations one digest.
use odin_agent.Prelude.{
  ℕ, ◌≡◌, refl, sym, ap, ◌∙◌, subst, Bool, false, Option, none, some, String, eq_iff, lookup,
  lookup-insert, Result, ok, err, Bool-cases, inl, inr, if◌then◌else◌,
}
use odin_agent.Coordination.Types.{
  PlanBody, CoordinationPlan, CoordinatorOptions, SpecialistAssignment, CoordinationError,
  not_reserved, unknown_plan,
}
use odin_agent.Coordination.Outcomes.{Hashed, of_plan_body, SpecialistEvidenceReference}
use odin_agent.Coordination.State.{
  PlanRecord, Coordinator, Outcome, and_then, is_reserved, expire_plans, read_clock,
}
use odin_agent.Coordination.Execution.{
  start_execution, start_at, start_found, start_checked, started_record, assert_authentic_plan,
}
use odin_agent.Coordination.Plans.Partition.{and_then-ok}
use odin_agent.Coordination.Execution.Used.{
  IsIssued, HoldsIn, AreApart, Holds-insert, keys-lookup, is_startable,
}
use odin_agent.Coordination.Execution.Calls.{
  start_execution-HoldsIn, end_assignment-HoldsIn, finish_execution-HoldsIn, release_plan-HoldsIn,
  active_leases-HoldsIn,
}
use odin_agent.Coordination.Execution.Planned.{plan-HoldsIn}
use odin_agent.Coordination.Execution.Ends.{expire_plans-HoldsIn, read_clock-HoldsIn}
use odin_agent.Coordination.Safety.Reach.{
  World, new_world, Step, registers, plans, starts, ends, finishes, releases, lists, Reach, here,
  next,
}

module _ (is_after : String → String → Bool) (stable_hash : Hashed → String)
    (attests : SpecialistAssignment → SpecialistEvidenceReference → Bool)
    (apart : AreApart stable_hash) where
  Step-HoldsIn :
      (used : Option PlanBody) {w v : World}
      → Step is_after stable_hash attests w v
      → HoldsIn stable_hash used w.coordinator
      → HoldsIn stable_hash used v.coordinator
  Step-HoldsIn used (registers w profile after e) h = h
  Step-HoldsIn used (plans w snapshot specs reading) h =
      plan-HoldsIn stable_hash used is_after w.registry snapshot apart specs reading w.coordinator h
  Step-HoldsIn used (starts w p reading) h =
      start_execution-HoldsIn stable_hash used p reading w.coordinator h
  Step-HoldsIn used (ends w hash assignment end) h =
      end_assignment-HoldsIn stable_hash used is_after attests hash assignment end w.coordinator h
  Step-HoldsIn used (finishes w p items reading) h =
      finish_execution-HoldsIn stable_hash used p items reading w.coordinator h
  Step-HoldsIn used (releases w hash) h = release_plan-HoldsIn stable_hash used hash w.coordinator h
  Step-HoldsIn used (lists w reading) h =
      active_leases-HoldsIn stable_hash used is_after reading w.coordinator h

  Reach-HoldsIn :
      (used : Option PlanBody) {w v : World}
      → Reach is_after stable_hash attests w v
      → HoldsIn stable_hash used w.coordinator
      → HoldsIn stable_hash used v.coordinator
  Reach-HoldsIn used here h = h
  Reach-HoldsIn used (next reach step) h = Step-HoldsIn used step (Reach-HoldsIn used reach h)

  -- What a start that succeeds leaves.
  abbrev IsStarted : CoordinationPlan → Coordinator → Type 0
  IsStarted p d =
      (body : PlanBody) × (p.plan_hash ≡ stable_hash (of_plan_body body))
      × HoldsIn stable_hash (some body) d

  checked-IsStarted :
      (p : CoordinationPlan) (r : PlanRecord) (c : Coordinator)
      (checked : Result CoordinationError (Unit {0})) {d : Coordinator} {s : PlanRecord}
      → IsIssued stable_hash c.plan_generation p.plan_hash
      → HoldsIn stable_hash none c
      → start_checked stable_hash p r c checked ≡ (d, ok s)
      → IsStarted p d
  checked-IsStarted p r c (err thrown) i h e =
      let e' = ap (λ (m : Outcome PlanRecord). m.1) e in absurd (cc)
  checked-IsStarted p r c (ok _) (body, hash, generation) h e =
      let started = started_record stable_hash r in
      let same = ap (λ (m : Outcome PlanRecord). m.0) e in
      let key = stable_hash (of_plan_body body) in
      let found = lookup-insert p.plan_hash key started c.plans in
      let equal = (eq_iff p.plan_hash key).1 hash in
      let kept =
        Holds-insert stable_hash none c.plan_generation p.plan_hash started c.plans refl
          (body, hash, generation) h in
      subst (IsStarted p) same (body, hash, (kept.0, (generation, rw found (rw equal refl))))

  found-IsStarted :
      (p : CoordinationPlan) (now : ℕ) (c : Coordinator) (found : Option PlanRecord)
      {d : Coordinator} {s : PlanRecord}
      → lookup p.plan_hash c.plans ≡ found
      → HoldsIn stable_hash none c
      → start_found stable_hash p now c found ≡ (d, ok s)
      → IsStarted p d
  found-IsStarted p now c none l h e =
      let e' = ap (λ (m : Outcome PlanRecord). m.1) e in absurd (cc)
  found-IsStarted p now c (some r) {d} {s} l h e =
      let checked = assert_authentic_plan stable_hash p r now c in
      let go = λ (b : Bool).
        (if b then start_checked stable_hash p r c checked else (c, err not_reserved))
        ≡ (d, ok s) in
      elim (Bool-cases (is_reserved r.phase)) [
        | inl f ↦
            checked-IsStarted p r c checked
              (keys-lookup (IsIssued stable_hash c.plan_generation) p.plan_hash c.plans l h.0) h
              (subst go f e)
        | inr f ↦ let e' = ap (λ (m : Outcome PlanRecord). m.1) (subst go f e) in absurd (cc)
      ]

  start_execution-IsStarted :
      (p : CoordinationPlan) (reading : Option ℕ) (c : Coordinator) {d : Coordinator}
      {r : PlanRecord}
      → HoldsIn stable_hash none c
      → start_execution stable_hash p reading c ≡ (d, ok r)
      → IsStarted p d
  unfolding start_execution
  start_execution-IsStarted p reading c h e =
      let (c1, now, read, e1) = and_then-ok (read_clock reading c) (start_at stable_hash p) e in
      let expired = expire_plans stable_hash now c1 in
      let held =
        subst (λ (m : Outcome ℕ). HoldsIn stable_hash none m.0) read
          (read_clock-HoldsIn stable_hash none reading c h) in
      found-IsStarted p now expired (lookup p.plan_hash expired.plans) refl
        (expire_plans-HoldsIn stable_hash none now c1 held) e1

  no_start_found :
      (p : CoordinationPlan) (now : ℕ) (c : Coordinator) (found : Option PlanRecord)
      → is_startable found ≡ false
      → (e : CoordinationError) × ((start_found stable_hash p now c found).1 ≡ err e)
  no_start_found p now c none h = (unknown_plan, refl)
  no_start_found p now c (some r) h = (not_reserved, rw h refl)

  no_start_read :
      (body : PlanBody) (p : CoordinationPlan) (m : Outcome ℕ)
      → p.plan_hash ≡ stable_hash (of_plan_body body)
      → HoldsIn stable_hash (some body) m.0
      → (e : CoordinationError) × ((and_then m (start_at stable_hash p)).1 ≡ err e)
  no_start_read body p (c, err thrown) same h = (thrown, refl)
  no_start_read body p (c, ok now) same h =
      let expired = expire_plans stable_hash now c in
      let held = expire_plans-HoldsIn stable_hash (some body) now c h in
      no_start_found p now expired (lookup p.plan_hash expired.plans)
        (subst (λ (k : String). is_startable (lookup k expired.plans) ≡ false) (sym same) held.1.1)

  no_start :
      (body : PlanBody) (p : CoordinationPlan) (reading : Option ℕ) (c : Coordinator)
      → p.plan_hash ≡ stable_hash (of_plan_body body)
      → HoldsIn stable_hash (some body) c
      → (e : CoordinationError) × ((start_execution stable_hash p reading c).1 ≡ err e)
  unfolding start_execution
  no_start body p reading c same h =
      no_start_read body p (read_clock reading c) same
        (read_clock-HoldsIn stable_hash (some body) reading c h)

  -- Once `execute` has started a plan in a reachable state, no plan with its hash is started in any state
  -- that further calls reach, where the digest tells plans of different generations apart.
  pub executed_once :
      (options : CoordinatorOptions) {w v : World} (p q : CoordinationPlan)
      (reading later : Option ℕ) {d : Coordinator} {r : PlanRecord}
      → Reach is_after stable_hash attests (new_world options) w
      → start_execution stable_hash p reading w.coordinator ≡ (d, ok r)
      → Reach is_after stable_hash attests (record w { coordinator = d }) v
      → q.plan_hash ≡ p.plan_hash
      → (e : CoordinationError) × ((start_execution stable_hash q later v.coordinator).1 ≡ err e)
  executed_once options {w} {v} p q reading later before e after same =
      let (body, hash, started) =
        start_execution-IsStarted p reading w.coordinator (Reach-HoldsIn none before (tt, tt)) e in
      no_start body q later v.coordinator (same ∙ hash) (Reach-HoldsIn (some body) after started)
