-- ===== src/Mission/Invariant.antt =====
-- What holds of every snapshot that projectMission returns.
use odin_agent.Prelude.{
  ℕ, suc, ◌≡◌, refl, sym, subst, true, ◌||◌, inl, inr, none, List, [], ◌∷◌, String, eq_iff, arith,
  lookup, insert, lookup-insert, has, is_some, length, ok, Result-cases, Dict,
}
use odin_agent.Prelude.Number.{max_safe, safe_nat-le}
use odin_agent.Mission.State.{created, TaskStatus, pending}
use odin_agent.Mission.Graph.{MissionTask, task_ids, validate_task_graph}
use odin_agent.Mission.Graph.Dag.{IsDag, validate_task_graph-IsDag}
use odin_agent.Mission.Budget.{
  Counters, BudgetCounters, zero_counters, Within, assert_counters, check_budget-Within,
}
use odin_agent.Mission.Transitions.{resume_fits, assert_transition-resume_fits}
use odin_agent.Mission.Snapshot.{
  MissionCreateInput, MissionEventData, mission_created, mission_transitioned, task_status_changed,
  budget_debited, failure_recorded, MissionSnapshot, initial_snapshot, apply_event, all_pending,
}
use odin_agent.Mission.Applied.{
  apply-transitioned, apply-status_changed, budget_debit-ok, apply-debited, apply-failure,
}
use odin_agent.Mission.Project.{MissionEvent, project_mission}
use odin_agent.Mission.Project.Induction.{project_mission-ind}

abbrev pub safe_limits : Counters ℕ
safe_limits = record {
  input = max_safe;
  output = max_safe;
  cost = max_safe;
  tools = max_safe;
  tries = max_safe;
}

pub record IsValid (s : MissionSnapshot) : Type 0 where
  -- The task graph is acyclic, and each task has a status, as nothing else has.
  pub graph : IsDag s.tasks
  pub statuses : (k : String) → is_some (lookup k s.task_statuses) ≡ has (task_ids s.tasks) k
  -- The limits are safe integers, and no usage passes its limit.
  pub safe : Within s.budget_limits safe_limits
  pub within : Within s.budget_usage s.budget_limits
  -- The captured resume state fits the state.
  pub resumable : resume_fits s.state s.resume_state ≡ true

assert_counters-safe :
    (raw : BudgetCounters) (c : Counters ℕ) → assert_counters raw ≡ ok c → Within c safe_limits
unfolding assert_counters
assert_counters-safe raw c h = ground (
  arith,
  safe_nat-le raw.input c.input,
  safe_nat-le raw.output c.output,
  safe_nat-le raw.cost c.cost,
  safe_nat-le raw.tools c.tools,
  safe_nat-le raw.tries c.tries,
)

all_pending-has :
    (m : Dict TaskStatus) (ts : List MissionTask) (k : String)
    → is_some (lookup k (all_pending m ts)) ≡ (is_some (lookup k m) || has (task_ids ts) k)
unfolding all_pending has
all_pending-has m [] k = ground arith
all_pending-has m (t ∷ ts) k =
    ground (arith, all_pending-has (insert t.id pending m) ts k, lookup-insert t.id k pending m)

-- The snapshot that a creation starts from.
abbrev pub fresh : MissionCreateInput → ℕ → Counters ℕ → List MissionTask → MissionSnapshot
fresh input version limits tasks = record {
  id = input.id;
  objective = input.objective;
  focus = input.focus;
  state = created;
  resume_state = none;
  version = version;
  tasks = tasks;
  task_statuses = all_pending [] tasks;
  budget_limits = limits;
  budget_usage = zero_counters;
  failure_counts = [];
}

pub initial_snapshot-ok :
    (input : MissionCreateInput) (version : ℕ) (s : MissionSnapshot)
    → initial_snapshot input version ≡ ok s
    → (limits : Counters ℕ) × (tasks : List MissionTask) × (assert_counters input.budget_limits
        ≡ ok limits)
      × (validate_task_graph input.tasks ≡ ok tasks)
      × (s ≡ fresh input version limits tasks)
unfolding initial_snapshot
initial_snapshot-ok input version s h = elim (Result-cases (assert_counters input.budget_limits)) [
  | inr (e, p) ↦ absurd (ground arith)
  | inl (limits, p) ↦ elim (Result-cases (validate_task_graph input.tasks)) [
    | inr (e, q) ↦ absurd (ground arith)
    | inl (tasks, q) ↦ (limits, tasks, p, q, ground arith)
  ]
]

initial-IsValid :
    (input : MissionCreateInput) (version : ℕ) (s : MissionSnapshot)
    → initial_snapshot input version ≡ ok s
    → IsValid s
unfolding lookup
initial-IsValid input version s h =
    let (limits, tasks, p, q, same) = initial_snapshot-ok input version s h in
    subst IsValid (sym same) (record {
      graph = (validate_task_graph-IsDag input.tasks tasks q).1;
      statuses = all_pending-has [] tasks;
      safe = assert_counters-safe input.budget_limits limits p;
      within = omega arith;
      resumable = refl;
    })

apply-IsValid :
    (s : MissionSnapshot) (d : MissionEventData) (version : ℕ) (t : MissionSnapshot)
    → IsValid s
    → apply_event s d version ≡ ok t
    → IsValid t
unfolding apply_event
apply-IsValid s (mission_created input) version t v h = absurd (cc)
apply-IsValid s (mission_transitioned from to) version t v h =
    let (_, admitted, same) = apply-transitioned s from to version t h in
    subst IsValid (sym same) (record {
      graph = v.graph;
      statuses = v.statuses;
      safe = v.safe;
      within = v.within;
      resumable = assert_transition-resume_fits s.state s.resume_state to v.resumable admitted;
    })
apply-IsValid s (task_status_changed id status) version t v h =
    let (current, known, _, _, same) = apply-status_changed s id status version t h in
    subst IsValid (sym same) (record {
      graph = v.graph;
      statuses = λ k. ground (
        arith,
        lookup-insert id k status s.task_statuses,
        eq_iff id k,
        v.statuses k,
        v.statuses id,
      );
      safe = v.safe;
      within = v.within;
      resumable = v.resumable;
    })
apply-IsValid s (budget_debited delta) version t v h =
    let (checked, debit, same) = apply-debited s delta version t h in
    subst IsValid (sym same) (record {
      graph = v.graph;
      statuses = v.statuses;
      safe = v.safe;
      within =
          check_budget-Within s.budget_usage s.budget_limits checked
            (budget_debit-ok s delta checked debit).1;
      resumable = v.resumable;
    })
apply-IsValid s (failure_recorded signature) version t v h =
    subst IsValid (sym (apply-failure s signature version t h)) (record {
      graph = v.graph;
      statuses = v.statuses;
      safe = v.safe;
      within = v.within;
      resumable = v.resumable;
    })

-- Whatever events a stream holds, a snapshot that projectMission returns is well formed: its task
-- graph is acyclic, exactly its tasks have a status, every budget usage is within its limit and the
-- limits are safe integers, and the captured resume state fits the state.
pub project_mission-IsValid :
    (events : List MissionEvent) (s : MissionSnapshot) → project_mission events ≡ ok s → IsValid s
project_mission-IsValid =
    project_mission-ind (λ _ s. IsValid s) (λ e input s _ _ h. initial-IsValid input 1 s h)
      (λ es s e t v h. apply-IsValid s e.content (suc (length es)) t v h)
