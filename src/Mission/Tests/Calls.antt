-- ===== src/Mission/Tests/Calls.antt =====
-- Tests of the event store and of MissionRuntime (src/events/store.ts, src/mission/runtime.ts): a
-- mission is created, a second call with the wrong version is refused.
use odin_agent.Prelude.{
  ◌≡◌, ◌≢◌, refl, Bool, true, false, List, [], ◌∷◌, String, arith, length, ok, err,
}
use odin_agent.Prelude.Text.{is_blank}
use odin_agent.Prelude.Number.{nat, equals_nat}
use odin_agent.Events.{
  idempotency_scope, stream, empty_store, number_events, append, append_checked, write_batch, load,
}
use odin_agent.Events.Laws.{append-retry}
use odin_agent.Mission.State.{MissionState, version_mismatch}
use odin_agent.Mission.Snapshot.{MissionSnapshot, mission_created}
use odin_agent.Mission.Invariant.{IsValid}
use odin_agent.Mission.Runtime.{
  domain, Store, Item, item_at, Batch, create, transition, prepare, prepare_create,
  prepare_transition, load_mission, load_at, commit, run_call,
}
use odin_agent.Mission.Runtime.Interleaving.{
  System, begin, finish, Reach, initial, next, IsSound, Reach-IsSound,
}
use odin_agent.Mission.Runtime.Calls.{Reach-load, run_call-unchanged}
use odin_agent.Mission.Tests.{replay, input}

runtime : Unit {0}
unfolding replay prepare prepare_create prepare_transition load_mission load_at commit run_call
    append append_checked write_batch load empty_store equals_nat
runtime = tt

abbrev parses : String → Bool
parses s = true

abbrev fingerprint : List Item → String
fingerprint items = "one batch"

abbrev founding : Batch
founding = record {
  mission_id = "m";
  expected_version = nat 0;
  key = "k";
  items = item_at "now" (mission_created input) ∷ [];
}

abbrev written : Store
written = record {
  streams = ("m", number_events "m" "k" 0 founding.items) ∷ [];
  idempotency =
      (
        idempotency_scope "m" "k",
        record { fingerprint = "one batch"; events = number_events "m" "k" 0 founding.items },
      )
      ∷ [];
}

founded :
    append parses fingerprint empty_store "m" (nat 0) "k" founding.items
    ≡ ok (written, number_events "m" "k" 0 founding.items)
unfolding runtime
founded = refl

append-retry_example :
    append parses fingerprint written "m" (nat 0) "k" founding.items
    ≡ ok (written, number_events "m" "k" 0 founding.items)
append-retry_example =
    append-retry parses fingerprint empty_store "m" (nat 0) "k" founding.items written
      (number_events "m" "k" 0 founding.items) founded

abbrev one_call : System
one_call = record { store = empty_store; pending = founding ∷ [] }

abbrev no_call : System
no_call = record { store = (commit parses fingerprint empty_store founding).0; pending = [] }

reached : Reach parses fingerprint no_call
unfolding runtime
reached =
    next one_call no_call
      (next (record { store = empty_store; pending = [] }) one_call initial
        (begin (create input "k" "now") founding refl))
      (finish [] [] founding refl)

Reach-IsSound_example : IsSound parses fingerprint no_call
Reach-IsSound_example = Reach-IsSound parses fingerprint no_call reached

named : is_blank "m" ≡ false
unfolding is_blank
named = refl

some_event : length (stream no_call.store "m") ≢ 0
unfolding runtime
some_event h = omega (arith, h)

Reach-load_example :
    (m : MissionSnapshot) × (load_mission no_call.store "m" ≡ ok m)
    × IsValid m
    × (m.version ≡ length (stream no_call.store "m"))
Reach-load_example = Reach-load parses fingerprint no_call reached "m" named some_event

wrong_version :
    (run_call parses fingerprint no_call.store
      (transition "m" (nat 7) MissionState.understanding "k2" "now")).1
    ≡ err (domain version_mismatch)
unfolding runtime
wrong_version = refl

run_call-unchanged_example :
    (run_call parses fingerprint no_call.store
      (transition "m" (nat 7) MissionState.understanding "k2" "now")).0
    ≡ no_call.store
run_call-unchanged_example =
    run_call-unchanged parses fingerprint no_call.store
      (transition "m" (nat 7) MissionState.understanding "k2" "now") (domain version_mismatch)
      (Reach-IsSound parses fingerprint no_call reached).replays wrong_version
