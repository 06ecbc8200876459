-- ===== src/Mission/Transitions.antt =====
-- The mission state machine: which transitions assertTransition admits, and the captured resume state.
use odin_agent.Prelude.{◌≡◌, Bool, true, false, Option, none, some, arith, ok}
use odin_agent.Mission.State.{
  MissionState, pausing, paused, resuming, cancelling, is_interruptible, assert_transition,
  next_resume_state,
}

-- The captured state is there exactly while a mission is being paused or resumed, may be left over
-- in a cancellation, and is always a state that can be interrupted.
abbrev pub resume_fits : MissionState → Option MissionState → Bool
resume_fits pausing none = false
resume_fits paused none = false
resume_fits resuming none = false
resume_fits _ none = true
resume_fits pausing (some r) = is_interruptible r
resume_fits paused (some r) = is_interruptible r
resume_fits resuming (some r) = is_interruptible r
resume_fits cancelling (some r) = is_interruptible r
resume_fits _ (some r) = false

pub assert_transition-resume_fits :
    (from : MissionState) (r : Option MissionState) (to : MissionState) {u : Unit {0}}
    → resume_fits from r ≡ true
    → assert_transition from r to ≡ ok u
    → resume_fits to (next_resume_state from r to) ≡ true
unfolding assert_transition next_resume_state
assert_transition-resume_fits from r to h k = ground arith
