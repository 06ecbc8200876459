-- ===== src/Durable/Tests.antt =====
-- Tests of the job store (src/durable/store.ts): a job is enqueued, claimed, and claimed again when
-- its lease has run out.
use odin_agent.Prelude.{
  true, false, none, inl, ◌≡◌, refl, some, List, [], ◌∷◌, String, arith, is_distinct, has, ok,
  length, All, ◌≤◌,
}
use odin_agent.Prelude.Text.{is_blank, utf16_length, has_nul}
use odin_agent.Durable.Types.{
  JobLifecycleType, job_enqueued, job_claimed, job_heartbeat, running, DurableJobRecord, cancelling,
  cancelled, ArtifactReference, JobEnqueueInput, JobLease, is_identifier, is_sha256, is_artifact,
  is_reason_code, add_milliseconds,
}
use odin_agent.Durable.Reads.{JobLifecycleEvent, read_job_events, decode_job_event_row}
use odin_agent.Durable.Reads.Pages.{IsRead, read_job_events-IsRead}
use odin_agent.Durable.Rows.{
  JobEventRow, Db, decoded, JobRow, empty_db, find_job, update_job, find_key, decode_job_row,
  require_job, is_intact, fits_result, fits_identity, fits_counts, fits_lease,
}
use odin_agent.Durable.Jobs.{
  set_status, settled, Platform, is_ready, claimed_before, first_ready, check_enqueue, check_lease,
  append_job_event, write, block_running_job, cancel_running_job, require_valid_lease, set_claimed,
}
use odin_agent.Durable.Queue.{new_row, enqueue_job, maintain_expired_jobs, claim_row, claim_job}
use odin_agent.Durable.Settle.{settle_job_success, cancel_job}
use odin_agent.Durable.Calls.{cancel, JobCall, enqueue, claim, succeed, body, run, run_all}
use odin_agent.Durable.Machine.{Moves}
use odin_agent.Durable.Machine.Later.{Later}
use odin_agent.Durable.Cancellation.{cancellation_wins}
use odin_agent.Durable.Runner.{
  Signals, success, retried, returned, outcome_of, handler_outcome, is_handler_result,
  outcome_of-success, outcome_of-is_handler_result,
}
use odin_agent.Durable.Safety.{IsSound, body-Moves, run_all-IsSound, run_all-Later, run_all-fenced}

store : Unit {0}
unfolding run_all run body enqueue_job claim_job claim_row maintain_expired_jobs append_job_event
    write block_running_job cancel_running_job require_valid_lease settle_job_success cancel_job
    first_ready claimed_before is_ready check_enqueue check_lease find_job update_job find_key
    decode_job_row require_job is_intact fits_result fits_identity fits_counts fits_lease
    is_identifier is_sha256 is_artifact is_reason_code add_milliseconds is_blank utf16_length
    has_nul empty_db is_distinct has
store = tt

abbrev digest : String
digest = "aaaaaaaaaaaaaaaaaaaaaaaaaaaaaaaaaaaaaaaaaaaaaaaaaaaaaaaaaaaaaaaa"

abbrev platform : Platform
platform = record {
  limits = record {
    max_jobs = 10;
    max_job_events = 100;
    max_lease_ms = 1000;
    max_retry_delay_ms = 1000;
  };
  hash_text = λ t. digest;
  job_fingerprint = λ i. digest;
  event_hash = λ e. digest;
}

digests : (t : String) → is_sha256 (platform.hash_text t) ≡ true
unfolding store
digests t = refl

abbrev artifact : ArtifactReference
artifact = record { artifact_id = "a"; sha256 = digest }

abbrev job : JobEnqueueInput
job = record {
  idempotency_key = "k";
  job_id = "j";
  mission_id = "m";
  task_id = "t";
  priority = 1;
  max_attempts = 3;
  available_at = 5;
  created_at = 5;
  payload = artifact;
}

abbrev twice_claimed : List JobCall
twice_claimed = enqueue job ∷ claim "w1" "token1" 10 5 ∷ claim "w2" "token2" 100 5 ∷ []

abbrev claimed_row : JobRow
claimed_row = set_claimed 2 2 "w2" digest 105 100 (new_row job digest)

abbrev old_lease : JobLease
old_lease = record {
  job_id = "j";
  mission_id = "m";
  task_id = "t";
  worker_id = "w1";
  attempt = 1;
  generation = 1;
  token = "token1";
  expires_at = 15;
  payload = artifact;
}

empty-IsSound : IsSound empty_db
unfolding store
empty-IsSound = record { distinct = refl; valid = tt }

found : find_job "j" (run_all platform empty_db twice_claimed).jobs ≡ some claimed_row
unfolding store
found = refl

run_all-IsSound_example : IsSound (run_all platform empty_db twice_claimed)
run_all-IsSound_example = run_all-IsSound platform digests empty_db twice_claimed empty-IsSound

run_all-Later_example :
    (row : JobRow) × (find_job "j"
        (run_all platform
          (run_all platform empty_db twice_claimed)
          (claim "w3" "t" 200 5 ∷ [])).jobs
      ≡ some row)
    × Later claimed_row row
run_all-Later_example =
    run_all-Later platform digests (run_all platform empty_db twice_claimed)
      (claim "w3" "t" 200 5 ∷ []) "j" claimed_row
      (run_all-IsSound platform digests empty_db twice_claimed empty-IsSound) found

run_all-fenced_example :
    run platform
      (run_all platform (run_all platform empty_db twice_claimed) [])
      (succeed old_lease artifact 101)
    ≡ run_all platform (run_all platform empty_db twice_claimed) []
run_all-fenced_example =
    run_all-fenced platform digests (run_all platform empty_db twice_claimed) []
      (succeed old_lease artifact 101) old_lease claimed_row
      (run_all-IsSound platform digests empty_db twice_claimed empty-IsSound) found (omega arith)
      refl

enqueued : body platform empty_db (enqueue job) ≡ ok (run platform empty_db (enqueue job))
unfolding store
enqueued = refl

body-Moves_example : Moves empty_db.jobs (run platform empty_db (enqueue job)).jobs
body-Moves_example =
    body-Moves platform digests empty_db (enqueue job) (run platform empty_db (enqueue job))
      empty-IsSound.distinct enqueued

abbrev asked : Db
asked = run_all platform empty_db (enqueue job ∷ claim "w1" "token1" 10 5 ∷ cancel "j" 11 ∷ [])

abbrev asked_row : JobRow
asked_row = set_status cancelling 11 (set_claimed 1 1 "w1" digest 15 10 (new_row job digest))

abbrev cancelled_row : JobRow
cancelled_row = settled cancelled 12 asked_row

asked_found : find_job "j" asked.jobs ≡ some asked_row
unfolding store
asked_found = refl

abbrev answered : Db × DurableJobRecord
answered = (run platform asked (succeed old_lease artifact 12), decoded cancelled_row)

answers : settle_job_success platform asked old_lease artifact 12 ≡ ok answered
unfolding store
answers = refl

cancellation_wins_example : find_job "j" answered.0.jobs ≡ some cancelled_row
cancellation_wins_example =
    cancellation_wins platform asked old_lease asked_row 12 0 artifact "" answered asked_found refl
      (inl answers)

abbrev quiet : Signals
quiet = record {
  timeout_triggered = false;
  cancellation_observed = false;
  aborted = false;
  heartbeat_failure = none;
}

abbrev timed_out : Signals
timed_out = record quiet { timeout_triggered = true; aborted = true }

runner_tests :
    (outcome_of quiet (returned (success artifact)) ≡ ok (success artifact))
    × (outcome_of timed_out (returned (success artifact)) ≡ ok (retried "handler_timeout" 0))
unfolding store outcome_of handler_outcome is_handler_result
runner_tests = (refl, refl)

outcome_of-success_example :
    (returned (success artifact) ≡ returned (success artifact))
    × (is_artifact artifact ≡ true)
    × (quiet.timeout_triggered ≡ false)
    × (quiet.aborted ≡ false)
    × (quiet.cancellation_observed ≡ false)
    × (quiet.heartbeat_failure ≡ none)
outcome_of-success_example =
    outcome_of-success quiet (returned (success artifact)) artifact runner_tests.0

outcome_of-is_handler_result_example : is_handler_result (retried "handler_timeout" 0) ≡ true
outcome_of-is_handler_result_example =
    outcome_of-is_handler_result timed_out (returned (success artifact))
      (retried "handler_timeout" 0) runner_tests.1

abbrev event_row : String → JobLifecycleType → JobEventRow
event_row mission_id type = record {
  event = record {
    mission_id = mission_id;
    job_id = "j";
    type = type;
    status = running;
    generation = 1;
    occurred_at = 5;
    reason_code = none;
  };
  event_hash = digest;
}

abbrev three_events : Db
three_events = record {
  jobs = [];
  job_idempotency = [];
  job_events =
      event_row "m" job_enqueued ∷ event_row "other" job_claimed ∷ event_row "m" job_heartbeat ∷ [];
}

abbrev second_page : List JobLifecycleEvent
second_page =
    record { cursor = 3; event = (event_row "m" job_heartbeat).event; event_hash = digest } ∷ []

pages : read_job_events platform 10 three_events "m" 1 5 ≡ ok second_page
unfolding store read_job_events decode_job_event_row
pages = refl

read_job_events-IsRead_example : (length second_page ≤ 5) × All (IsRead platform "m" 1) second_page
read_job_events-IsRead_example =
    read_job_events-IsRead platform "m" 1 10 three_events 5 second_page pages
