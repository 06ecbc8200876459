-- ===== src/Mission/State.antt =====
-- src/mission/runtime.ts: mission and task states, the transition tables, and the errors thrown.
use odin_agent.Prelude.{
  ℕ, ◌≡◌, Bool, true, false, ◌&&◌, ◌||◌, Option, none, some, List, [], ◌∷◌, String, arith, any,
  ◌==◌, Result, ok, err, if◌then◌else◌,
}

pub data MissionState : Type 0 where
  created understanding retrieving planning risk_check executing observing : MissionState
  verifying diagnosing repairing checkpointing final_audit : MissionState
  pausing paused resuming cancelling completed cancelled blocked failed : MissionState

pub data TaskStatus : Type 0 where
  pending running verified failed cancelled : TaskStatus

pub data FocusClass : Type 0 where
  routine standard complex critical : FocusClass

-- The keys of `BudgetCounters`.
pub data Dimension : Type 0 where
  input_tokens output_tokens cost_micros tool_calls attempts : Dimension

pub data MissionError : Type 0 where
  blank_field bad_failure_policy : MissionError
  bad_counters : Dimension → MissionError
  no_definition_of_done duplicate_dependencies bad_priority : String → MissionError
  duplicate_task self_dependency unknown_task : String → MissionError
  missing_dependency : String → String → MissionError
  task_cycle : MissionError
  terminal : MissionState → MissionError
  resume_mismatch : MissionError
  transition_not_allowed : MissionState → MissionState → MissionError
  task_transition_not_allowed : TaskStatus → TaskStatus → MissionError
  budget_exceeded : Dimension → MissionError
  version_mismatch not_active : MissionError
  empty_stream not_contiguous mixed_identities first_not_created identity_mismatch : MissionError
  created_twice stale_source : MissionError
  -- The recursion bound of the model was reached; no code throws it.
  out_of_fuel : MissionError

-- States are compared through their place in the type.
abbrev pub state_code : MissionState → ℕ
state_code created = 0
state_code understanding = 1
state_code retrieving = 2
state_code planning = 3
state_code risk_check = 4
state_code executing = 5
state_code observing = 6
state_code verifying = 7
state_code diagnosing = 8
state_code repairing = 9
state_code checkpointing = 10
state_code final_audit = 11
state_code pausing = 12
state_code paused = 13
state_code resuming = 14
state_code cancelling = 15
state_code completed = 16
state_code MissionState.cancelled = 17
state_code blocked = 18
state_code MissionState.failed = 19

abbrev pub state_eq : MissionState → MissionState → Bool
state_eq a b = state_code a == state_code b

abbrev pub status_code : TaskStatus → ℕ
status_code pending = 0
status_code running = 1
status_code verified = 2
status_code TaskStatus.failed = 3
status_code TaskStatus.cancelled = 4

abbrev pub status_eq : TaskStatus → TaskStatus → Bool
status_eq a b = status_code a == status_code b

pub state_eq→eq : (a b : MissionState) → state_eq a b ≡ true → a ≡ b
state_eq→eq a b h = ground arith

pub status_eq→eq : (a b : TaskStatus) → status_eq a b ≡ true → a ≡ b
status_eq→eq a b h = ground arith

-- `NORMAL_TRANSITIONS`
abbrev pub normal_transitions : MissionState → List MissionState
normal_transitions created = understanding ∷ []
normal_transitions understanding = retrieving ∷ []
normal_transitions retrieving = planning ∷ []
normal_transitions planning = risk_check ∷ []
normal_transitions risk_check = executing ∷ []
normal_transitions executing = observing ∷ []
normal_transitions observing = verifying ∷ []
normal_transitions verifying = checkpointing ∷ diagnosing ∷ []
normal_transitions diagnosing = repairing ∷ []
normal_transitions repairing = verifying ∷ []
normal_transitions checkpointing = final_audit ∷ []
normal_transitions final_audit = completed ∷ []
normal_transitions pausing = paused ∷ []
normal_transitions paused = resuming ∷ []
normal_transitions cancelling = MissionState.cancelled ∷ []
normal_transitions _ = []

abbrev pub includes_state : List MissionState → MissionState → Bool
includes_state xs s = any (λ x. state_eq x s) xs

-- `TERMINAL_STATES`
abbrev pub is_terminal : MissionState → Bool
is_terminal s =
    includes_state (completed ∷ MissionState.cancelled ∷ blocked ∷ MissionState.failed ∷ []) s

-- `INTERRUPTIBLE_STATES`
abbrev pub is_interruptible : MissionState → Bool
is_interruptible s =
    includes_state
      (created ∷ understanding ∷ retrieving ∷ planning ∷ risk_check ∷ executing ∷ observing
        ∷ verifying ∷ diagnosing ∷ repairing ∷ checkpointing ∷ final_audit ∷ [])
      s

abbrev pub interrupts : List MissionState
interrupts = pausing ∷ cancelling ∷ blocked ∷ MissionState.failed ∷ []

abbrev is_resume_target : Option MissionState → MissionState → Bool
is_resume_target none to = false
is_resume_target (some s) to = state_eq to s

-- `assertTransition`, over the two fields of the snapshot that it reads.
unfoldable pub assert_transition :
    MissionState → Option MissionState → MissionState → Result MissionError (Unit {0})
assert_transition from resume_state to =
    if is_terminal from
    then err (terminal from)
    else if state_eq from resuming
    then if is_resume_target resume_state to then ok tt else err resume_mismatch
    else if is_interruptible from && includes_state interrupts to
    then ok tt
    else if (state_eq from pausing || state_eq from paused) && state_eq to cancelling
    then ok tt
    else if includes_state (normal_transitions from) to
    then ok tt
    else err (transition_not_allowed from to)

-- `nextResumeState`
unfoldable pub next_resume_state :
    MissionState → Option MissionState → MissionState → Option MissionState
next_resume_state from resume_state to =
    if state_eq to pausing
    then some from
    else if state_eq from resuming && is_resume_target resume_state to
    then none
    else if includes_state (MissionState.cancelled ∷ completed ∷ blocked ∷ MissionState.failed ∷ [])
        to
    then none
    else resume_state

-- The table `allowed` of `taskStatusEvent`.
abbrev pub allowed_statuses : TaskStatus → List TaskStatus
allowed_statuses pending = running ∷ TaskStatus.cancelled ∷ []
allowed_statuses running = verified ∷ TaskStatus.failed ∷ TaskStatus.cancelled ∷ []
allowed_statuses verified = []
allowed_statuses TaskStatus.failed = pending ∷ TaskStatus.cancelled ∷ []
allowed_statuses TaskStatus.cancelled = []
