-- ===== src/Mission/Runtime.antt =====
-- src/mission/runtime.ts: MissionRuntime. Each method first makes its batch from the loaded snapshot
-- (`prepare_…`), then appends the batch and loads the mission again (`commit`). The two phases are
-- separate awaits in the source, so other calls may run between them. Clock readings are arguments.
pub mod Batches
pub mod Made
pub mod Consistency
pub mod Interleaving
pub mod Calls
use odin_agent.Prelude.{
  ℕ, ◌+◌, Bool, not, ◌&&◌, Option, none, some, List, [], ◌∷◌, ◌++◌, String, leb, Result, ok, err,
  ◌>>=◌, ◌>>◌, guard, if◌then◌else◌,
}
use odin_agent.Prelude.Number.{Number, nat, equals_nat}
use odin_agent.Events.{EventAppendItem, StoredEvent, StoreError, EventStore, append, load}
use odin_agent.Mission.State.{
  MissionState, TaskStatus, MissionError, version_mismatch, not_active, is_interruptible,
}
use odin_agent.Mission.Budget.{BudgetCounters}
use odin_agent.Mission.Snapshot.{
  MissionCreateInput, MissionSnapshot, MissionEventData, mission_created, failure_recorded,
  transition_event, task_status_event, budget_debit_event, assert_failure_policy, failure_count,
  initial_snapshot,
}
use odin_agent.Mission.Project.{MissionEvent, project_mission}

pub data RuntimeError : Type 0 where
  domain : MissionError → RuntimeError
  store : StoreError → RuntimeError

abbrev pub from_domain {ℓ} : {A : Type ℓ} → Result MissionError A → Result RuntimeError A
from_domain (ok a) = ok a
from_domain (err e) = err (domain e)

abbrev pub from_store {ℓ} : {A : Type ℓ} → Result StoreError A → Result RuntimeError A
from_store (ok a) = ok a
from_store (err e) = err (store e)

abbrev pub Store : Type 0
Store = EventStore MissionEventData

abbrev pub Item : Type 0
Item = EventAppendItem MissionEventData

abbrev pub item_at : String → MissionEventData → Item
item_at now d = record { occurred_at = now; content = d }

-- A batch that a method has made and not yet appended.
pub record Batch : Type 0 where
  pub mission_id : String
  pub expected_version : Number
  pub key : String
  pub items : List Item

unfoldable pub load_mission : Store → String → Result RuntimeError MissionSnapshot
load_mission s mission_id =
    from_store (load s mission_id) >>= λ events. from_domain (project_mission events)

-- `assertExpectedVersion`
abbrev pub assert_expected_version : MissionSnapshot → Number → Result RuntimeError (Unit {0})
assert_expected_version s expected = guard (equals_nat expected s.version) (domain version_mismatch)

-- The common head of the methods: load the mission and check the caller's version.
unfoldable pub load_at : Store → String → Number → Result RuntimeError MissionSnapshot
load_at s mission_id expected =
    load_mission s mission_id >>= λ m. assert_expected_version m expected >> ok m

unfoldable pub prepare_create : MissionCreateInput → String → String → Result RuntimeError Batch
prepare_create input key now = from_domain (initial_snapshot input 0) >>= λ _. ok (record {
  mission_id = input.id;
  expected_version = nat 0;
  key = key;
  items = item_at now (mission_created input) ∷ [];
})

unfoldable pub prepare_transition :
    Store → String → Number → MissionState → String → String → Result RuntimeError Batch
prepare_transition s mission_id expected to key now = do
  m ← load_at s mission_id expected
  d ← from_domain (transition_event m to)
  ok (record {
    mission_id = mission_id;
    expected_version = expected;
    key = key;
    items = item_at now d ∷ [];
  })

unfoldable pub prepare_task_status :
    Store → String → Number → String → TaskStatus → String → String → Result RuntimeError Batch
prepare_task_status s mission_id expected task_id status key now = do
  m ← load_at s mission_id expected
  d ← from_domain (task_status_event m task_id status)
  ok (record {
    mission_id = mission_id;
    expected_version = expected;
    key = key;
    items = item_at now d ∷ [];
  })

unfoldable pub prepare_debit :
    Store → String → Number → BudgetCounters → String → String → Result RuntimeError Batch
prepare_debit s mission_id expected delta key now = do
  m ← load_at s mission_id expected
  d ← from_domain (budget_debit_event m delta)
  ok (record {
    mission_id = mission_id;
    expected_version = expected;
    key = key;
    items = item_at now d ∷ [];
  })

-- The items of `recordFailure`: the failure, and the transition to FAILED once the bound is reached.
unfoldable pub failure_items :
    MissionSnapshot → String → ℕ → String → String → Result MissionError (List Item)
failure_items m signature limit now later =
    if leb limit (failure_count m signature + 1)
    then (transition_event m MissionState.failed >>= λ d.
        ok (item_at now (failure_recorded signature) ∷ item_at later d ∷ []))
    else ok (item_at now (failure_recorded signature) ∷ [])

unfoldable pub prepare_failure :
    Store → String → Number → String → Number → String → String → String → Result RuntimeError Batch
prepare_failure s mission_id expected signature max_equivalent_failures key now later = do
  m ← load_at s mission_id expected
  limit ← from_domain (assert_failure_policy signature max_equivalent_failures)
  guard (is_interruptible m.state) (domain not_active)
  items ← from_domain (failure_items m signature limit now later)
  ok (record { mission_id = mission_id; expected_version = expected; key = key; items = items })

-- The calls of the runtime, with the clock readings that they make.
pub data Call : Type 0 where
  create : MissionCreateInput → String → String → Call
  transition : String → Number → MissionState → String → String → Call
  set_task_status : String → Number → String → TaskStatus → String → String → Call
  debit_budget : String → Number → BudgetCounters → String → String → Call
  record_failure : String → Number → String → Number → String → String → String → Call

unfoldable pub prepare : Store → Call → Result RuntimeError Batch
unfolding prepare_create prepare_transition prepare_task_status prepare_debit prepare_failure
prepare s (create input key now) = prepare_create input key now
prepare s (transition id v to key now) = prepare_transition s id v to key now
prepare s (set_task_status id v task status key now) =
    prepare_task_status s id v task status key now
prepare s (debit_budget id v delta key now) = prepare_debit s id v delta key now
prepare s (record_failure id v sig limit key now later) =
    prepare_failure s id v sig limit key now later

-- What follows the append: the error, or the mission loaded again.
abbrev pub reload :
    Store
    → String
    → Result StoreError (Store × List MissionEvent)
    → Store × Result RuntimeError MissionSnapshot
reload s mission_id (err e) = (s, err (store e))
reload s mission_id (ok (s', _)) = (s', load_mission s' mission_id)

module _ (parses : String → Bool) (fingerprint : List Item → String) where
  -- The second phase: a batch that the store refuses changes nothing.
  unfoldable pub commit : Store → Batch → Store × Result RuntimeError MissionSnapshot
  commit s b =
      reload s b.mission_id
        (append parses fingerprint s b.mission_id b.expected_version b.key b.items)

  -- `commit` when the checks passed.
  abbrev pub commit_made :
      Store → Result RuntimeError Batch → Store × Result RuntimeError MissionSnapshot
  commit_made s (err e) = (s, err e)
  commit_made s (ok b) = commit s b

  -- A call with nothing in between: the store after it, and its result.
  unfoldable pub run_call : Store → Call → Store × Result RuntimeError MissionSnapshot
  run_call s c = commit_made s (prepare s c)
