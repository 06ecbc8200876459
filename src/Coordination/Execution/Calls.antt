-- ===== src/Coordination/Execution/Calls.antt =====
-- src/coordination/coordinator.ts: a used plan stays used under the methods other than plan.
use odin_agent.Prelude.{
  ℕ, ◌≡◌, ◌⊎◌, refl, sym, ◌∙◌, subst, Bool, Option, none, some, List, String, Dict, lookup, ltb,
  Result, ok, err, Option-cases, Bool-cases, inl, inr, if◌then◌else◌, remove,
}
use odin_agent.Coordination.Types.{
  PlanBody, CoordinationPlan, SpecialistAssignment, CoordinationError, type_error, not_reserved,
  released_during_execution,
}
use odin_agent.Coordination.Checks.{is_sha256}
use odin_agent.Coordination.Outcomes.{
  Hashed, RawProposal, TaskReconciliation, SpecialistEvidenceReference, CoordinationBatchResult,
}
use odin_agent.Coordination.State.{
  PlanRecord, Coordinator, Outcome, is_reserved, is_released, expire_plans, read_clock, advance,
}
use odin_agent.Coordination.Execution.{
  WorkerEnd, proposes, times_out, throws, start_execution, start_at, start_found, start_checked,
  started_record, assert_authentic_plan, end_assignment, reconcile_at, reconcile_end,
  forget_controller, finish_execution, finish_read, is_still_executing, release_plan, release_live,
  release_found, as_outcome, active_leases, leases_at,
}
use odin_agent.Coordination.Execution.Used.{
  IsIssued, HoldsIn, Holds-insert, Holds-same, keys-lookup,
}
use odin_agent.Coordination.Execution.Ends.{
  if-first, and_then-HoldsIn, release_record-HoldsIn, expire_plans-HoldsIn, read_clock-HoldsIn,
  release_found-HoldsIn,
}

module _ (stable_hash : Hashed → String) (used : Option PlanBody) where
  -- The key of a record that is there has been issued.
  lookup-IsIssued :
      (c : Coordinator) (hash : String)
      → HoldsIn stable_hash used c
      → (lookup hash c.plans ≡ none) ⊎ IsIssued stable_hash c.plan_generation hash
  lookup-IsIssued c hash h = elim (Option-cases (lookup hash c.plans)) [
    | inl e ↦ inl e
    | inr (r, e) ↦ inr (keys-lookup (IsIssued stable_hash c.plan_generation) hash c.plans e h.0)
  ]

  start_checked-HoldsIn :
      (p : CoordinationPlan) (r : PlanRecord) (c : Coordinator)
      (checked : Result CoordinationError (Unit {0}))
      → IsIssued stable_hash c.plan_generation p.plan_hash
      → HoldsIn stable_hash used c
      → HoldsIn stable_hash used (start_checked stable_hash p r c checked).0
  start_checked-HoldsIn p r c (err e) i h =
      release_record-HoldsIn stable_hash used p.plan_hash r c i h
  start_checked-HoldsIn p r c (ok _) i h =
      Holds-insert stable_hash used c.plan_generation p.plan_hash (started_record stable_hash r)
        c.plans refl i h

  start_found-HoldsIn :
      (p : CoordinationPlan) (now : ℕ) (c : Coordinator) (found : Option PlanRecord)
      → (found ≡ none) ⊎ IsIssued stable_hash c.plan_generation p.plan_hash
      → HoldsIn stable_hash used c
      → HoldsIn stable_hash used (start_found stable_hash p now c found).0
  start_found-HoldsIn p now c none i h = h
  start_found-HoldsIn p now c (some r) (inl e) h = absurd (cc)
  start_found-HoldsIn p now c (some r) (inr i) h =
      let checked = assert_authentic_plan stable_hash p r now c in
      if-first stable_hash used (is_reserved r.phase) (start_checked stable_hash p r c checked)
        (c, err not_reserved) (start_checked-HoldsIn p r c checked i h) h

  pub start_execution-HoldsIn :
      (p : CoordinationPlan) (reading : Option ℕ) (c : Coordinator)
      → HoldsIn stable_hash used c
      → HoldsIn stable_hash used (start_execution stable_hash p reading c).0
  unfolding start_execution
  start_execution-HoldsIn p reading c h =
      and_then-HoldsIn stable_hash used (read_clock reading c) (start_at stable_hash p)
        (read_clock-HoldsIn stable_hash used reading c h)
        (λ c' now k.
          let expired = expire_plans stable_hash now c' in
          let l = expire_plans-HoldsIn stable_hash used now c' k in
          start_found-HoldsIn p now expired (lookup p.plan_hash expired.plans)
            (lookup-IsIssued expired p.plan_hash l) l)

  forget-HoldsIn :
      (hash id : String) (c : Coordinator)
      → HoldsIn stable_hash used c
      → HoldsIn stable_hash used (forget_controller stable_hash hash id (lookup hash c.plans) c)
  forget-HoldsIn hash id c h = elim (Option-cases (lookup hash c.plans)) [
    | inl e ↦
        subst
          (λ (o : Option PlanRecord).
            HoldsIn stable_hash used (forget_controller stable_hash hash id o c))
          (sym e) h
    | inr (r, e) ↦
        subst
          (λ (o : Option PlanRecord).
            HoldsIn stable_hash used (forget_controller stable_hash hash id o c))
          (sym e)
          (Holds-same stable_hash used c.plan_generation hash
            (record r { controllers = remove id r.controllers }) r c.plans e refl h)
  ]

  module _ (is_after : String → String → Bool)
      (attests : SpecialistAssignment → SpecialistEvidenceReference → Bool) where
    reconcile_at-HoldsIn :
        (assignment : SpecialistAssignment) (value : Option RawProposal) (m : Outcome ℕ)
        → HoldsIn stable_hash used m.0
        → HoldsIn stable_hash used (reconcile_at stable_hash is_after attests assignment value m).0
    reconcile_at-HoldsIn assignment value (c, ok now) h = h
    reconcile_at-HoldsIn assignment value (c, err thrown) h = h

    reconcile_end-HoldsIn :
        (assignment : SpecialistAssignment) (end : WorkerEnd) (c : Coordinator)
        → HoldsIn stable_hash used c
        → HoldsIn stable_hash used (reconcile_end stable_hash is_after attests assignment end c).0
    reconcile_end-HoldsIn assignment (proposes value reading) c h =
        reconcile_at-HoldsIn assignment value (read_clock reading c)
          (read_clock-HoldsIn stable_hash used reading c h)
    reconcile_end-HoldsIn assignment times_out c h = h
    reconcile_end-HoldsIn assignment throws c h = h

    pub end_assignment-HoldsIn :
        (hash : String) (assignment : SpecialistAssignment) (end : WorkerEnd) (c : Coordinator)
        → HoldsIn stable_hash used c
        → HoldsIn stable_hash used
            (end_assignment stable_hash is_after attests hash assignment end c).0
    unfolding end_assignment
    end_assignment-HoldsIn hash assignment end c h =
        let ended = reconcile_end stable_hash is_after attests assignment end c in
        forget-HoldsIn hash assignment.body.id ended.0 (reconcile_end-HoldsIn assignment end c h)

  finish_read-HoldsIn :
      (p : CoordinationPlan) (items : List TaskReconciliation) (m : Outcome ℕ)
      → HoldsIn stable_hash used m.0
      → HoldsIn stable_hash used (finish_read stable_hash p items m).0
  finish_read-HoldsIn p items (c, ok now) h = h
  finish_read-HoldsIn p items (c, err thrown) h = h

  advance-plans :
      (now : ℕ) (last : Option ℕ) (c : Coordinator) → (advance now last c).0.plans ≡ c.plans
  advance-plans now none c = refl
  advance-plans now (some last) c = elim (Bool-cases (ltb now last)) [
    | inl e ↦ rw e refl
    | inr e ↦ rw e refl
  ]

  read_clock-plans :
      (reading : Option ℕ) (c : Coordinator) → (read_clock reading c).0.plans ≡ c.plans
  unfolding read_clock
  read_clock-plans none c = refl
  read_clock-plans (some now) c = advance-plans now c.last_clock_ms c

  finish_read-plans :
      (p : CoordinationPlan) (items : List TaskReconciliation) (m : Outcome ℕ)
      → (finish_read stable_hash p items m).0.plans ≡ m.0.plans
  finish_read-plans p items (c, ok now) = refl
  finish_read-plans p items (c, err thrown) = refl

  -- The release at the end of `execute`, in a state with the same records.
  release_same-HoldsIn :
      (hash : String) (c d : Coordinator)
      → d.plans ≡ c.plans
      → HoldsIn stable_hash used d
      → HoldsIn stable_hash used (release_found stable_hash hash (lookup hash c.plans) d)
  release_same-HoldsIn hash c d same h =
      subst
        (λ (ps : Dict PlanRecord).
          HoldsIn stable_hash used (release_found stable_hash hash (lookup hash ps) d))
        same
        (release_found-HoldsIn stable_hash used hash (lookup hash d.plans) d
          (lookup-IsIssued d hash h) h)

  pub finish_execution-HoldsIn :
      (p : CoordinationPlan) (items : List TaskReconciliation) (reading : Option ℕ)
      (c : Coordinator)
      → HoldsIn stable_hash used c
      → HoldsIn stable_hash used (finish_execution stable_hash p items reading c).0
  unfolding finish_execution
  finish_execution-HoldsIn p items reading c h =
      let live = is_still_executing stable_hash (lookup p.plan_hash c.plans) in
      let read = finish_read stable_hash p items (read_clock reading c) in
      let dead : Outcome CoordinationBatchResult = (c, err released_during_execution) in
      let finished = λ (b : Bool). (if b then read else dead).0 in
      let goal = λ (b : Bool).
        HoldsIn stable_hash used
          (release_found stable_hash p.plan_hash (lookup p.plan_hash c.plans) (finished b)) in
      elim (Bool-cases live) [
        | inl e ↦ subst goal (sym e) (
            release_same-HoldsIn p.plan_hash c read.0
              (finish_read-plans p items (read_clock reading c) ∙ read_clock-plans reading c)
              (finish_read-HoldsIn p items (read_clock reading c)
                (read_clock-HoldsIn stable_hash used reading c h)))
        | inr e ↦ subst goal (sym e) (release_same-HoldsIn p.plan_hash c c refl h)
      ]

  release_live-HoldsIn :
      (hash : String) (found : Option PlanRecord) (c : Coordinator)
      → (found ≡ none) ⊎ IsIssued stable_hash c.plan_generation hash
      → HoldsIn stable_hash used c
      → HoldsIn stable_hash used (as_outcome stable_hash (release_live stable_hash hash found c)).0
  release_live-HoldsIn hash none c i h = h
  release_live-HoldsIn hash (some r) c (inl e) h = absurd (cc)
  release_live-HoldsIn hash (some r) c (inr i) h = elim (Bool-cases (is_released r.phase)) [
    | inl e ↦ rw e h
    | inr e ↦ rw e (release_record-HoldsIn stable_hash used hash r c i h)
  ]

  pub release_plan-HoldsIn :
      (hash : String) (c : Coordinator)
      → HoldsIn stable_hash used c
      → HoldsIn stable_hash used (release_plan stable_hash hash c).0
  unfolding release_plan
  release_plan-HoldsIn hash c h =
      let found = lookup hash c.plans in
      if-first stable_hash used (is_sha256 hash)
        (as_outcome stable_hash (release_live stable_hash hash found c)) (c, err type_error)
        (release_live-HoldsIn hash found c (lookup-IsIssued c hash h) h) h

  pub active_leases-HoldsIn :
      (is_after : String → String → Bool) (reading : Option ℕ) (c : Coordinator)
      → HoldsIn stable_hash used c
      → HoldsIn stable_hash used (active_leases stable_hash is_after reading c).0
  unfolding active_leases
  active_leases-HoldsIn is_after reading c h =
      and_then-HoldsIn stable_hash used (read_clock reading c) (leases_at stable_hash is_after)
        (read_clock-HoldsIn stable_hash used reading c h)
        (λ c' now k. expire_plans-HoldsIn stable_hash used now c' k)
