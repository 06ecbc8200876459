-- ===== src/Mission/Project.antt =====
-- src/mission/runtime.ts: projectMission, the replay of an event stream.
pub mod Induction
use odin_agent.Prelude.{
  ℕ, suc, Bool, not, ◌||◌, ◌&&◌, List, [], ◌∷◌, String, str_eq, Result, ok, err, ◌>>=◌, ◌>>◌, guard,
  ◌==◌,
}
use odin_agent.Events.{StoredEvent}
use odin_agent.Mission.State.{
  MissionError, empty_stream, not_contiguous, mixed_identities, first_not_created,
  identity_mismatch,
}
use odin_agent.Mission.Snapshot.{
  MissionEventData, mission_created, MissionSnapshot, initial_snapshot, apply_event,
}

abbrev pub MissionEvent : Type 0
MissionEvent = StoredEvent MissionEventData

-- `event.sequence === expectedSequence && event.aggregateVersion === expectedSequence`
abbrev pub is_contiguous : MissionEvent → ℕ → Bool
is_contiguous event expected = event.sequence == expected && event.aggregate_version == expected

-- The first round of the loop.
unfoldable pub project_first : String → ℕ → MissionEventData → Result MissionError MissionSnapshot
project_first mission_id version (mission_created input) =
    guard (str_eq input.id mission_id) identity_mismatch >> initial_snapshot input version
project_first mission_id version _ = err first_not_created

-- A later round of the loop.
unfoldable pub project_next :
    String → ℕ → MissionSnapshot → MissionEvent → Result MissionError MissionSnapshot
project_next mission_id expected s event =
    guard (is_contiguous event expected) not_contiguous
    >> (guard (str_eq event.mission_id mission_id) mixed_identities
        >> apply_event s event.content event.aggregate_version)

unfoldable pub project_rest :
    String → ℕ → MissionSnapshot → List MissionEvent → Result MissionError MissionSnapshot
unfolding project_next
project_rest mission_id expected s [] = ok s
project_rest mission_id expected s (event ∷ events) =
    project_next mission_id expected s event >>= λ t.
    project_rest mission_id (suc expected) t events

unfoldable pub project_mission : List MissionEvent → Result MissionError MissionSnapshot
project_mission [] = err empty_stream
project_mission (event ∷ events) = do
  guard (is_contiguous event 1) not_contiguous
  s ← project_first event.mission_id event.aggregate_version event.content
  project_rest event.mission_id 2 s events
