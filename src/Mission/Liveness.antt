-- ===== src/Mission/Liveness.antt =====
-- What a mission can always do: go on where it was paused, and be cancelled.
use odin_agent.Prelude.{
  ℕ, suc, ◌≡◌, refl, true, false, inl, inr, Bool-cases, Option-cases, none, some, List, [], ◌∷◌,
  ◌≤◌, length, arith, Result, ok, ◌>>=◌,
}
use odin_agent.Mission.State.{
  MissionState, pausing, paused, resuming, cancelling, assert_transition, next_resume_state,
  is_interruptible, state_eq, is_terminal, MissionError,
}
use odin_agent.Mission.Snapshot.{MissionEventData, MissionSnapshot, transition_event, apply_event}
use odin_agent.Mission.Transitions.{resume_fits}

-- Transitions made one after the other, each by the event that `transitionEvent` returns.
unfoldable pub go_through :
    MissionSnapshot → List MissionState → Result MissionError MissionSnapshot
go_through s [] = ok s
go_through s (to ∷ more) =
    transition_event s to >>= λ d. apply_event s d (suc s.version) >>= λ t. go_through t more

-- A mission that is paused in an interruptible state and resumed goes on in that state, with no
-- resume state left and nothing else changed but its version.
pub pause_resume :
    (s : MissionSnapshot)
    → is_interruptible s.state ≡ true
    → go_through s (pausing ∷ paused ∷ resuming ∷ s.state ∷ [])
      ≡ ok (record s { resume_state = none; version = suc (suc (suc (suc s.version))) })
unfolding go_through transition_event apply_event assert_transition next_resume_state
pause_resume s h = ground arith

-- A resuming mission can go nowhere but to the state in which it was paused.
resuming_only :
    (s : MissionSnapshot) (to : MissionState) {d : MissionEventData}
    → s.state ≡ resuming
    → transition_event s to ≡ ok d
    → s.resume_state ≡ some to
unfolding transition_event assert_transition
resuming_only s to e h = ground arith

abbrev ended : MissionSnapshot → ℕ → MissionSnapshot
ended s version = record s {
  state = MissionState.cancelled;
  resume_state = none;
  version = version;
}

-- A mission that is not over, and whose resume state fits its state, can be cancelled by at most three
-- transitions.
pub can_cancel :
    (s : MissionSnapshot)
    → resume_fits s.state s.resume_state ≡ true
    → is_terminal s.state ≡ false
    → (path : List MissionState) × (t : MissionSnapshot) × (length path ≤ 3)
      × (go_through s path ≡ ok t)
      × (t.state ≡ MissionState.cancelled)
unfolding go_through transition_event apply_event assert_transition next_resume_state
can_cancel s f h = elim (Bool-cases (state_eq s.state cancelling)) [
  | inl c ↦ (MissionState.cancelled ∷ [], ended s (suc s.version), omega arith, ground arith, refl)
  | inr c ↦ elim (Bool-cases (state_eq s.state resuming)) [
    | inl r ↦ elim (Option-cases s.resume_state) [
      | inl n ↦ absurd (ground arith)
      | inr (to, p) ↦ (
        to ∷ cancelling ∷ MissionState.cancelled ∷ [],
        ended s (suc (suc (suc s.version))),
        omega arith,
        ground arith,
        refl,
      )
    ]
    | inr r ↦ (
      cancelling ∷ MissionState.cancelled ∷ [],
      ended s (suc (suc s.version)),
      omega arith,
      ground arith,
      refl,
    )
  ]
]
