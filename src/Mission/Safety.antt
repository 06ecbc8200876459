-- ===== src/Mission/Safety.antt =====
-- What a mission can no longer do, or must have done: no completion without a verification, no way out of
-- a terminal state, and no way back from a verified task.
use odin_agent.Prelude.{
  ℕ, suc, ◌≡◌, refl, sym, ap, subst, Bool, true, false, ◌||◌, ◌&&◌, ◌⊎◌, inl, inr, Dict, insert,
  ◌+◌, Option, none, some, List, [], ◌∷◌, ◌++◌, String, eq_iff, arith, lookup, lookup-insert,
  length, any, ok,
}
use odin_agent.Mission.State.{
  MissionState, verified, checkpointing, final_audit, completed, verifying, assert_transition,
  next_resume_state, state_eq, is_terminal,
}
use odin_agent.Mission.Snapshot.{
  MissionEventData, mission_created, mission_transitioned, task_status_changed, budget_debited,
  failure_recorded, MissionSnapshot, apply_event, failure_count,
}
use odin_agent.Mission.Applied.{
  apply-transitioned, apply-status_changed, budget_debit-ok, apply-debited, apply-failure,
}
use odin_agent.Mission.Invariant.{initial_snapshot-ok}
use odin_agent.Mission.Project.{MissionEvent, project_mission}
use odin_agent.Mission.Project.Induction.{project_mission-ind}

-- The event by which a verified mission goes on to its checkpoint.
abbrev is_verification : MissionEventData → Bool
is_verification (mission_transitioned from to) =
    state_eq from verifying && state_eq to checkpointing
is_verification _ = false

unfoldable pub has_verification : List MissionEvent → Bool
has_verification es = any (λ e. is_verification e.content) es

has_verification-append :
    (es : List MissionEvent) (e : MissionEvent)
    → has_verification (es ++ e ∷ []) ≡ (has_verification es || is_verification e.content)
unfolding has_verification
has_verification-append [] e = ground arith
has_verification-append (x ∷ xs) e = ground (arith, has_verification-append xs e)

-- The states behind a successful verification, and a snapshot that is, or will resume, in one.
abbrev is_past : MissionState → Bool
is_past s = state_eq s checkpointing || state_eq s final_audit || state_eq s completed

abbrev resumes_past : Option MissionState → Bool
resumes_past none = false
resumes_past (some s) = is_past s

transition-past :
    (from : MissionState) (r : Option MissionState) (to : MissionState)
    → assert_transition from r to ≡ ok tt
    → (is_past to || resumes_past (next_resume_state from r to)) ≡ true
    → ((is_past from || resumes_past r) ≡ true)
      ⊎ ((state_eq from verifying && state_eq to checkpointing) ≡ true)
unfolding assert_transition next_resume_state
transition-past from r to h p = ground arith

abbrev past : MissionSnapshot → Bool
past s = is_past s.state || resumes_past s.resume_state

apply-past :
    (s : MissionSnapshot) (d : MissionEventData) (version : ℕ) (t : MissionSnapshot)
    → apply_event s d version ≡ ok t
    → past t ≡ true
    → (past s ≡ true) ⊎ (is_verification d ≡ true)
apply-past s (mission_created input) version t h p = absurd (unfold apply_event in cc h)
apply-past s (mission_transitioned from to) version t h p =
    let (source, admitted, same) = apply-transitioned s from to version t h in
    let past_to = subst (λ u. past u ≡ true) same p in
    subst (λ f. (past s ≡ true) ⊎ ((state_eq f verifying && state_eq to checkpointing) ≡ true))
      (sym source) (transition-past s.state s.resume_state to admitted past_to)
apply-past s (task_status_changed id status) version t h p =
    let (_, _, _, _, same) = apply-status_changed s id status version t h in
    inl (subst (λ u. past u ≡ true) same p)
apply-past s (budget_debited delta) version t h p =
    let (_, _, same) = apply-debited s delta version t h in inl (subst (λ u. past u ≡ true) same p)
apply-past s (failure_recorded f) version t h p =
    inl (subst (λ u. past u ≡ true) (apply-failure s f version t h) p)

-- A mission that is completed, or that is at or resumes into its checkpoint or final audit, has
-- gone from VERIFYING to CHECKPOINTING by an event of its stream.
pub past-has_verification :
    (events : List MissionEvent) (s : MissionSnapshot)
    → project_mission events ≡ ok s
    → past s ≡ true
    → has_verification events ≡ true
past-has_verification =
    project_mission-ind (λ es s. past s ≡ true → has_verification es ≡ true)
      (λ e input s made _ h p.
        let (_, _, _, _, same) = initial_snapshot-ok input 1 s h in
        absurd (ground (arith, subst (λ u. past u ≡ true) same p)))
      (λ es s e t ih h p. step es s e t ih h p)
  where
    step :
        (es : List MissionEvent) (s : MissionSnapshot) (e : MissionEvent) (t : MissionSnapshot)
        → (past s ≡ true → has_verification es ≡ true)
        → apply_event s e.content (suc (length es)) ≡ ok t
        → past t ≡ true
        → has_verification (es ++ e ∷ []) ≡ true
    step es s e t ih h p = elim (apply-past s e.content (suc (length es)) t h p) [
      | inl before ↦ ground (arith, has_verification-append es e, ih before)
      | inr now ↦ ground (arith, has_verification-append es e)
    ]

-- COMPLETED is reached only through a verification: a stream that replays to a completed mission
-- holds the transition from VERIFYING to CHECKPOINTING.
pub completed-has_verification :
    (events : List MissionEvent) (s : MissionSnapshot)
    → project_mission events ≡ ok s
    → s.state ≡ completed
    → has_verification events ≡ true
completed-has_verification events s h done =
    past-has_verification events s h (ap (λ x. is_past x || resumes_past s.resume_state) done)

-- In a terminal state an event that is accepted records a failure, and the snapshot after it is the one
-- before it, but for the counts of failures and the version.
pub terminal-apply_event :
    (s : MissionSnapshot) (d : MissionEventData) (version : ℕ) (t : MissionSnapshot)
    → is_terminal s.state ≡ true
    → apply_event s d version ≡ ok t
    → ((f : String) × (d ≡ failure_recorded f))
      × (counts : Dict ℕ) × (t ≡ record s { failure_counts = counts; version = version })
unfolding apply_event assert_transition
terminal-apply_event s (mission_created input) version t e h = absurd (cc)
terminal-apply_event s (mission_transitioned from to) version t e h = absurd (ground arith)
terminal-apply_event s (task_status_changed id status) version t e h =
    let (_, _, _, open_still, _) = apply-status_changed s id status version t h in
    absurd (ground arith)
terminal-apply_event s (budget_debited delta) version t e h =
    let (checked, debit, _) = apply-debited s delta version t h in
    absurd (ground (arith, (budget_debit-ok s delta checked debit).2))
terminal-apply_event s (failure_recorded f) version t e h =
    let same = apply-failure s f version t h in
    ((f, refl), insert f (failure_count s f + 1) s.failure_counts, same)

-- A verified task stays verified, whatever event is applied.
pub verified-apply_event :
    (s : MissionSnapshot) (d : MissionEventData) (version : ℕ) (t : MissionSnapshot) (k : String)
    → apply_event s d version ≡ ok t
    → lookup k s.task_statuses ≡ some verified
    → lookup k t.task_statuses ≡ some verified
verified-apply_event s (mission_created input) version t k h v = absurd (unfold apply_event in cc h)
verified-apply_event s (mission_transitioned from to) version t k h v =
    let (_, _, same) = apply-transitioned s from to version t h in ground arith
verified-apply_event s (task_status_changed id status) version t k h v =
    let (current, known, allowed, _, same) = apply-status_changed s id status version t h in
    ground (arith, lookup-insert id k status s.task_statuses, eq_iff id k)
verified-apply_event s (budget_debited delta) version t k h v =
    let (_, _, same) = apply-debited s delta version t h in ground arith
verified-apply_event s (failure_recorded f) version t k h v =
    ground (arith, apply-failure s f version t h)
