-- ===== src/Coordination/Execution/Planned.antt =====
-- src/coordination/coordinator.ts: a used plan stays used when another is made.
use odin_agent.Prelude.{
  ℕ, refl, Bool, Option, List, [], ◌∷◌, ◌+◌, String, Dict, leb, length, Result, ok, err, guard,
  Result-cases, inl, inr,
}
use odin_agent.Prelude.Number.{max_safe}
use odin_agent.Mission.Graph.{MissionTask}
use odin_agent.Mission.Snapshot.{MissionSnapshot}
use odin_agent.Coordination.Types.{
  PlanBody, CoordinationTaskSpec, CoordinationError, lease_generation_exhausted,
}
use odin_agent.Coordination.Outcomes.{Hashed, of_plan_body}
use odin_agent.Coordination.Registry.{SpecialistRegistry}
use odin_agent.Coordination.State.{
  Coordinator, expire_plans, prune_plan_records, read_clock, reserved,
}
use odin_agent.Coordination.Planning.{Batch, Decision, defers, assigns, decide}
use odin_agent.Coordination.Plans.{
  plan, plan_at, plan_checked, plan_pruned, plan_specified, plan_batch, plan_tasks, plan_body,
  record_plan, carry_out, reserve_assignment, check_mission, check_request, pending_tasks,
  start_batch, least,
}
use odin_agent.Coordination.Execution.Used.{HoldsIn, AreApart, Holds-new}
use odin_agent.Coordination.Execution.Ends.{
  and_then-HoldsIn, expire_plans-HoldsIn, prune-HoldsIn, read_clock-HoldsIn,
}

module _ (stable_hash : Hashed → String) (used : Option PlanBody) where
  module _ (is_after : String → String → Bool) (registry : SpecialistRegistry)
      (snapshot : MissionSnapshot) where
    carry_out-HoldsIn :
        (now : ℕ) (task : MissionTask) (b : Batch) (decision : Decision)
        → HoldsIn stable_hash used b.coordinator
        → HoldsIn stable_hash used
            (carry_out is_after stable_hash snapshot task now b decision).coordinator
    unfolding reserve_assignment
    carry_out-HoldsIn now task b (defers reason conflicts) h = h
    carry_out-HoldsIn now task b (assigns spec specialist) h = h

    plan_tasks-HoldsIn :
        (specs : Dict CoordinationTaskSpec) (now : ℕ) (tasks : List MissionTask) (b : Batch)
        → HoldsIn stable_hash used b.coordinator
        → HoldsIn stable_hash used
            (plan_tasks is_after stable_hash registry snapshot specs now tasks b).0.coordinator
    unfolding plan_tasks
    plan_tasks-HoldsIn specs now [] b h = h
    plan_tasks-HoldsIn specs now (task ∷ tasks) b h =
        elim (Result-cases (decide is_after registry snapshot specs b task)) [
          | inr (thrown, e) ↦ rw e h
          | inl (decision, e) ↦ rw e (
              plan_tasks-HoldsIn specs now tasks
                (carry_out is_after stable_hash snapshot task now b decision)
                (carry_out-HoldsIn now task b decision h))
        ]

    module _ (apart : AreApart stable_hash) where
      record_plan-HoldsIn :
          (specs : Dict CoordinationTaskSpec) (now : ℕ)
          (m : Batch × Result CoordinationError (Unit {0}))
          → HoldsIn stable_hash used m.0.coordinator
          → HoldsIn stable_hash used
              (record_plan is_after stable_hash registry snapshot specs now m).0
      record_plan-HoldsIn specs now (b, err thrown) h = h
      record_plan-HoldsIn specs now (b, ok _) h =
          let body = plan_body is_after stable_hash registry snapshot specs now b in
          Holds-new stable_hash apart used body
            (record {
              plan = record { body = body; plan_hash = stable_hash (of_plan_body body) };
              controllers = [];
              expires_at_ms = now + b.coordinator.options.lease_duration_ms;
              phase = reserved;
            })
            b.coordinator.plan_generation b.coordinator.plans refl h

      plan_specified-HoldsIn :
          (now : ℕ) (c : Coordinator) (specs : Dict CoordinationTaskSpec)
          → HoldsIn stable_hash used c
          → HoldsIn stable_hash used
              (plan_specified is_after stable_hash registry snapshot now c specs).0
      plan_specified-HoldsIn now c specs h =
          let tasks = pending_tasks is_after snapshot in
          and_then-HoldsIn stable_hash used
            (
              c,
              guard
                  (leb (c.lease_generation + least c.options.max_batch_size (length tasks))
                    max_safe)
                  lease_generation_exhausted,
            )
            (plan_batch is_after stable_hash registry snapshot specs now tasks) h
            (λ c' _ k.
              let b = start_batch is_after stable_hash registry snapshot specs now c' in
              record_plan-HoldsIn specs now
                (plan_tasks is_after stable_hash registry snapshot specs now tasks b)
                (plan_tasks-HoldsIn specs now tasks b k))

      pub plan-HoldsIn :
          (task_specs : List CoordinationTaskSpec) (reading : Option ℕ) (c : Coordinator)
          → HoldsIn stable_hash used c
          → HoldsIn stable_hash used
              (plan is_after stable_hash registry snapshot task_specs reading c).0
      unfolding plan
      plan-HoldsIn task_specs reading c h =
          and_then-HoldsIn stable_hash used (c, check_mission is_after stable_hash snapshot)
            (plan_checked is_after stable_hash registry snapshot task_specs reading) h
            (λ c' _ k.
              and_then-HoldsIn stable_hash used (read_clock reading c')
                (plan_at is_after stable_hash registry snapshot task_specs)
                (read_clock-HoldsIn stable_hash used reading c' k)
                (λ c'' now l.
                  let expired = expire_plans stable_hash now c'' in
                  and_then-HoldsIn stable_hash used (prune_plan_records expired)
                    (plan_pruned is_after stable_hash registry snapshot task_specs now)
                    (prune-HoldsIn stable_hash used expired
                      (expire_plans-HoldsIn stable_hash used now c'' l))
                    (λ c3 _ m.
                      and_then-HoldsIn stable_hash used
                        (c3, check_request is_after stable_hash snapshot task_specs c3)
                        (plan_specified is_after stable_hash registry snapshot now) m
                        (λ c4 specs n. plan_specified-HoldsIn now c4 specs n))))
