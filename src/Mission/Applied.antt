-- ===== src/Mission/Applied.antt =====
-- What an event that applyEvent accepts says of the snapshot before it and the one after it.
use odin_agent.Prelude.{
  ℕ, ◌+◌, ◌≡◌, true, false, some, String, arith, inl, inr, lookup, insert, any, Option-cases,
  Result-cases, ok,
}
use odin_agent.Mission.State.{
  MissionState, TaskStatus, status_eq, is_terminal, assert_transition, next_resume_state,
  allowed_statuses, state_eq→eq,
}
use odin_agent.Mission.Budget.{
  Counters, BudgetCounters, assert_counters, check_budget, add_counters,
}
use odin_agent.Mission.Snapshot.{
  mission_transitioned, task_status_changed, budget_debited, failure_recorded, MissionSnapshot,
  failure_count, task_status_event, budget_debit, apply_event,
}

module _ (s : MissionSnapshot) where
  pub apply-transitioned :
      (from to : MissionState) (version : ℕ) (t : MissionSnapshot)
      → apply_event s (mission_transitioned from to) version ≡ ok t
      → (from ≡ s.state)
        × (assert_transition s.state s.resume_state to ≡ ok tt)
        × (t ≡ record s {
          resume_state = next_resume_state s.state s.resume_state to;
          state = to;
          version = version;
        })
  unfolding apply_event
  apply-transitioned from to version t h =
      elim (Result-cases (assert_transition s.state s.resume_state to)) [
        | inr (e, p) ↦ absurd (ground arith)
        | inl (u, p) ↦ (state_eq→eq from s.state (ground arith), p, ground arith)
      ]

  pub apply-status_changed :
      (id : String) (status : TaskStatus) (version : ℕ) (t : MissionSnapshot)
      → apply_event s (task_status_changed id status) version ≡ ok t
      → (current : TaskStatus) × (lookup id s.task_statuses ≡ some current)
        × (any (λ x. status_eq x status) (allowed_statuses current) ≡ true)
        × (is_terminal s.state ≡ false)
        × (t ≡ record s { task_statuses = insert id status s.task_statuses; version = version })
  unfolding apply_event task_status_event
  apply-status_changed id status version t h = elim (Option-cases (lookup id s.task_statuses)) [
    | inl p ↦ absurd (ground arith)
    | inr (current, p) ↦ (current, p, ground arith, ground arith, ground arith)
  ]

  pub budget_debit-ok :
      (delta : BudgetCounters) (checked : Counters ℕ)
      → budget_debit s delta ≡ ok checked
      → (assert_counters delta ≡ ok checked)
        × (check_budget s.budget_usage s.budget_limits checked ≡ ok tt)
        × (is_terminal s.state ≡ false)
  unfolding budget_debit
  budget_debit-ok delta checked h = elim (Result-cases (assert_counters delta)) [
    | inr (e, p) ↦ absurd (ground arith)
    | inl (c, p) ↦ elim (Result-cases (check_budget s.budget_usage s.budget_limits c)) [
      | inr (e, q) ↦ absurd (ground arith)
      | inl (u, q) ↦ (ground arith, ground arith, ground arith)
    ]
  ]

  pub apply-debited :
      (delta : BudgetCounters) (version : ℕ) (t : MissionSnapshot)
      → apply_event s (budget_debited delta) version ≡ ok t
      → (checked : Counters ℕ) × (budget_debit s delta ≡ ok checked)
        × (t ≡ record s { budget_usage = add_counters s.budget_usage checked; version = version })
  unfolding apply_event
  apply-debited delta version t h = elim (Result-cases (budget_debit s delta)) [
    | inr (e, p) ↦ absurd (ground arith)
    | inl (c, p) ↦ (c, p, ground arith)
  ]

  pub apply-failure :
      (signature : String) (version : ℕ) (t : MissionSnapshot)
      → apply_event s (failure_recorded signature) version ≡ ok t
      → t ≡ record s {
        failure_counts = insert signature (failure_count s signature + 1) s.failure_counts;
        version = version;
      }
  unfolding apply_event
  apply-failure signature version t h = ground arith
