-- ===== src/Mission/Project/Induction.antt =====
-- Induction along a replay, and how a replay goes on where more events follow.
use mathlib.Core.List.{append_assoc, append-nil}
use odin_agent.Prelude.{
  ℕ, suc, ◌+◌, ◌≡◌, refl, sym, ap, ◌∙◌, subst, List, [], ◌∷◌, ◌++◌, String, eq_iff, arith, length,
  length-append, ok, Result-cases, inl, inr, ◌>>=◌,
}
use odin_agent.Mission.Snapshot.{
  MissionCreateInput, MissionEventData, mission_created, mission_transitioned, task_status_changed,
  budget_debited, failure_recorded, MissionSnapshot, initial_snapshot, apply_event,
}
use odin_agent.Mission.Project.{
  MissionEvent, project_first, project_next, project_rest, project_mission,
}

pub project_first-ok :
    (id : String) (version : ℕ) (d : MissionEventData) (s : MissionSnapshot)
    → project_first id version d ≡ ok s
    → (input : MissionCreateInput) × (d ≡ mission_created input)
      × (id ≡ input.id)
      × (initial_snapshot input version ≡ ok s)
unfolding project_first
project_first-ok id version (mission_created input) s h =
    (input, refl, ground (arith, eq_iff input.id id), ground arith)
project_first-ok id version (mission_transitioned from to) s h = absurd (cc)
project_first-ok id version (task_status_changed k st) s h = absurd (cc)
project_first-ok id version (budget_debited d) s h = absurd (cc)
project_first-ok id version (failure_recorded f) s h = absurd (cc)

-- A replay of more events goes on from the replay of the first ones.
pub project_rest-append :
    (id : String) (n : ℕ) (s : MissionSnapshot) (es fs : List MissionEvent)
    → project_rest id n s (es ++ fs)
      ≡ (project_rest id n s es >>= λ t. project_rest id (n + length es) t fs)
unfolding project_rest
project_rest-append id n s [] fs = ap (λ k. project_rest id k s fs) (omega arith)
project_rest-append id n s (e ∷ es) fs = elim (Result-cases (project_next id n s e)) [
  | inr (x, q) ↦ rw q
  | inl (t, q) ↦ rw q (
      project_rest-append id (suc n) t es fs
      ∙ ap (λ (k : ℕ). project_rest id (suc n) t es >>= λ u. project_rest id k u fs) (omega arith))
]

-- What holds of the first snapshot and is kept by each event holds of the projection.
module _ {ℓ} (P : List MissionEvent → MissionSnapshot → Type ℓ)
    (first : (e : MissionEvent) (input : MissionCreateInput) (s : MissionSnapshot)
      → e.content ≡ mission_created input
      → e.mission_id ≡ input.id
      → initial_snapshot input 1 ≡ ok s
      → P (e ∷ []) s)
    (next : (es : List MissionEvent) (s : MissionSnapshot) (e : MissionEvent) (t : MissionSnapshot)
      → P es s
      → apply_event s e.content (suc (length es)) ≡ ok t
      → P (es ++ e ∷ []) t) where
  project_rest-ind :
      (id : String) (seen : List MissionEvent) (s : MissionSnapshot) (es : List MissionEvent)
      (t : MissionSnapshot)
      → P seen s
      → project_rest id (suc (length seen)) s es ≡ ok t
      → P (seen ++ es) t
  unfolding project_rest
  project_rest-ind id seen s [] t p h =
      let same : s ≡ t = cc in subst (λ l. P l t) (sym (append-nil seen)) (subst (P seen) same p)
  project_rest-ind id seen s (e ∷ es) t p h =
      elim (Result-cases (project_next id (suc (length seen)) s e)) [
        | inr (x, q) ↦ absurd (ground arith)
        | inl (u, q) ↦
            let applied : apply_event s e.content (suc (length seen)) ≡ ok u = ground arith in
            let n : suc (suc (length seen)) ≡ suc (length (seen ++ e ∷ [])) =
              omega (arith, length-append seen (e ∷ [])) in
            subst (λ l. P l t) (append_assoc seen (e ∷ []) es)
              (project_rest-ind id (seen ++ e ∷ []) u es t (next seen s e u p applied)
                (subst (λ k. project_rest id k u es ≡ ok t) n (rw q at h)))
      ]

  pub project_mission-ind :
      (es : List MissionEvent) (s : MissionSnapshot) → project_mission es ≡ ok s → P es s
  unfolding project_mission
  project_mission-ind [] s h = cc
  project_mission-ind (e ∷ es) s h =
      elim (Result-cases (project_first e.mission_id e.aggregate_version e.content)) [
        | inr (x, q) ↦ absurd (ground arith)
        | inl (u, q) ↦
            let (input, made, id, start) =
              project_first-ok e.mission_id e.aggregate_version e.content u q in
            let one : e.aggregate_version ≡ 1 = ground arith in
            project_rest-ind e.mission_id (e ∷ []) u es s
              (first e input u made id (rw one at start)) (ground arith)
      ]
