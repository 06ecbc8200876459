-- ===== src/Coordination/Tests.antt =====
-- Tests of src/coordination: two tasks of a mission are planned, one of them is executed, and its proposal
-- is accepted.
use Prim.Native.String.{◌++◌ as text_append}
use odin_agent.Prelude.{
  ℕ, zero, suc, ◌+◌, ◌≡◌, ◌≢◌, ◌↔◌, eq_iff, refl, ap, Bool, true, false, none, some, List, [], ◌∷◌,
  String, arith, length, Result, ok, err, lookup, insert, delete, has, remove, is_distinct, sort_by,
}
use odin_agent.Prelude.Text.{codes, is_blank, utf16_length, has_nul, is_text_after, is_prefix}
use odin_agent.Prelude.Number.{pos}
use odin_agent.Mission.State.{MissionState, TaskStatus, FocusClass}
use odin_agent.Mission.Graph.{MissionTask}
use odin_agent.Mission.Budget.{zero_counters}
use odin_agent.Mission.Snapshot.{MissionSnapshot}
use odin_agent.Mission.Runnable.{is_runnable, runnable_tasks}
use odin_agent.Coordination.Types.{
  SpecialistProfile, untrusted_worker, OwnershipLease, repository, write, CoordinationTaskSpec,
  CoordinationPlan, CoordinatorOptions, SpecialistAssignment, CoordinationError, not_reserved,
}
use odin_agent.Coordination.Checks.{
  is_text, is_identifier, is_token, is_sha256, is_repository_path, normalize_unique_tokens,
}
use odin_agent.Coordination.Ownership.{
  is_inside, repository_keys_intersect, claims_conflict, conflicts_with, conflicting_task_ids,
  claim_owns, path_is_owned_for_write, is_ownership_key, same_claim, claim_after,
  normalize_ownership_claims,
}
use odin_agent.Coordination.Ownership.Laws.{covers, intersect_iff}
use odin_agent.Coordination.Registry.{
  SpecialistRegistry, register, registration, normalize_profile, normalize_capabilities, matching,
}
use odin_agent.Coordination.Specs.{
  normalize_context, normalize_spec, add_spec, normalize_task_specs,
}
use odin_agent.Coordination.Outcomes.{
  Hashed, of_lease_identity, of_assignment_identity, of_plan_body, RawProposal, SpecialistResult,
  TaskReconciliation, accepted, SpecialistEvidenceReference,
}
use odin_agent.Coordination.Reconcile.{
  validate_proposal, evidence_item, normalize_evidence, normalize_artifacts, normalize_text_list,
  normalize_files_changed, changed_file, parse_outcome, parse_verification_status,
}
use odin_agent.Coordination.Verdict.{create_reconciliation, attested_ids, reconcile_proposal}
use odin_agent.Coordination.Verdict.Accepted.{IsAcceptable, reconcile_proposal-IsAcceptable}
use odin_agent.Coordination.State.{
  Coordinator, new_coordinator, Outcome, PlanRecord, PlanState, read_clock, active_leases_sorted,
  drop_leases, release_record, expire_plans, prune_plan_records,
}
use odin_agent.Coordination.Planning.{active_task_lease, active_specialist_count, decide}
use odin_agent.Coordination.Plans.{plan, plan_tasks, reserve_assignment, pending_tasks}
use odin_agent.Coordination.Plans.Partition.{IsPartition, plan-IsPartition}
use odin_agent.Coordination.Execution.{
  start_execution, assert_authentic_plan, check_assignments, check_assignment,
}
use odin_agent.Coordination.Execution.Used.{AreApart}
use odin_agent.Coordination.Execution.Once.{executed_once}
use odin_agent.Coordination.Safety.Reach.{
  World, new_world, registers, plans, Reach, here, next, IsSafeWorld, Reach-IsSafe,
  Reach-path_is_owned_for_write,
}

coordination : Unit {0}
unfolding is_text is_identifier is_token is_sha256 normalize_unique_tokens is_repository_path
    check_assignment check_assignments assert_authentic_plan start_execution is_inside
    repository_keys_intersect claims_conflict conflicts_with conflicting_task_ids claim_owns
    path_is_owned_for_write is_ownership_key same_claim claim_after normalize_ownership_claims
    active_task_lease active_specialist_count decide reserve_assignment plan_tasks plan
    parse_outcome parse_verification_status evidence_item normalize_text_list changed_file
    normalize_files_changed normalize_evidence normalize_artifacts validate_proposal
    normalize_profile registration register normalize_capabilities matching normalize_context
    normalize_spec add_spec normalize_task_specs read_clock active_leases_sorted drop_leases
    release_record expire_plans prune_plan_records create_reconciliation attested_ids
    reconcile_proposal is_runnable runnable_tasks lookup delete insert has remove is_distinct
    sort_by is_blank utf16_length has_nul is_text_after is_prefix
coordination = tt

abbrev no_order : String → String → Bool
no_order _ _ = false

abbrev attest_all : SpecialistAssignment → SpecialistEvidenceReference → Bool
attest_all _ _ = true

abbrev base : String
base = "aaaaaaaaaaaaaaaaaaaaaaaaaaaaaaaaaaaaaaaaaaaaaaaaaaaaaaaaaaaaaaa"

abbrev digest : String
digest = "baaaaaaaaaaaaaaaaaaaaaaaaaaaaaaaaaaaaaaaaaaaaaaaaaaaaaaaaaaaaaaa"

-- A digest for each generation: as many letters as the generation, before 63 letters.
abbrev digest_of : ℕ → String
digest_of zero = base
digest_of (suc n) = String.◌∷◌ "b" (digest_of n)

abbrev test_hash : Hashed → String
test_hash (of_plan_body body) = digest_of body.generation
test_hash (of_lease_identity identity) = digest_of identity.generation
test_hash (of_assignment_identity identity) = digest_of identity.generation
test_hash _ = digest

length-digest_of : (n : ℕ) → length (codes (digest_of n)) ≡ n + 63
length-digest_of zero = refl
length-digest_of (suc n) = omega (arith, length-digest_of n)

test_hash-AreApart : AreApart test_hash
test_hash-AreApart a b n same = n (
    omega (
      arith,
      length-digest_of a.generation,
      length-digest_of b.generation,
      ap (λ (s : String). length (codes s)) same,
    ))

abbrev coder : SpecialistProfile
coder = record {
  id = "s1";
  version = "v1";
  description = "d";
  roles = "coder" ∷ [];
  capabilities = "edit" ∷ [];
  max_concurrency = 2;
  trust_class = untrusted_worker;
  provenance = record { source = "x"; version = "v1"; content_hash = digest };
}

abbrev task : String → MissionTask
task id = record {
  id = id;
  title = "t";
  depends_on = [];
  definition_of_done = "d" ∷ [];
  priority = pos 0;
}

abbrev snapshot : MissionSnapshot
snapshot = record {
  id = "m";
  objective = "o";
  focus = FocusClass.standard;
  state = MissionState.executing;
  resume_state = none;
  version = 3;
  tasks = task "t1" ∷ task "t2" ∷ [];
  task_statuses = ("t1", TaskStatus.pending) ∷ ("t2", TaskStatus.pending) ∷ [];
  budget_limits = zero_counters;
  budget_usage = zero_counters;
  failure_counts = [];
}

abbrev spec : String → String → CoordinationTaskSpec
spec id key = record {
  task_id = id;
  goal = "g";
  role = "coder";
  required_capabilities = "edit" ∷ [];
  ownership = record { namespace = repository; key = key; access = write } ∷ [];
  context = record {
    mission_id = "m";
    task_id = id;
    result_hash = digest;
    source_fingerprint = digest;
    selected_ids = [];
  };
}

abbrev specs : List CoordinationTaskSpec
specs = spec "t1" "a" ∷ spec "t2" "b" ∷ []

abbrev options : CoordinatorOptions
options = record {
  max_batch_size = 2;
  max_active_assignments = 2;
  lease_duration_ms = 100;
  execution_timeout_ms = 100;
  max_plan_records = 4;
}

abbrev idle : Coordinator
idle = new_coordinator options

abbrev registry : SpecialistRegistry
registry = coder ∷ []

registered : register coder [] ≡ ok registry
unfolding coordination
registered = refl

abbrev planned : Outcome CoordinationPlan
planned = plan no_order test_hash registry snapshot specs (some 1000) idle

abbrev plan_of : Result CoordinationError CoordinationPlan → CoordinationPlan
plan_of (ok p) = p
plan_of (err e) = record {
  body = record {
    generation = 0;
    mission_id = "";
    mission_version = 0;
    created_at = 0;
    assignments = [];
    deferred = [];
  };
  plan_hash = "";
}

abbrev the_plan : CoordinationPlan
the_plan = plan_of planned.1

planned_ok : planned.1 ≡ ok the_plan
unfolding coordination
planned_ok = refl

two_assigned : length the_plan.body.assignments ≡ 2
unfolding coordination
two_assigned = refl

abbrev after_plan : World
after_plan = record { registry = registry; coordinator = planned.0 }

abbrev WorldReach : World → World → Type 0
WorldReach = Reach no_order test_hash attest_all

reach : WorldReach (new_world options) after_plan
reach =
    next (next here (registers (new_world options) coder registry registered))
      (plans (record { registry = registry; coordinator = idle }) snapshot specs (some 1000))

Reach-IsSafe_example : IsSafeWorld no_order test_hash attest_all after_plan
Reach-IsSafe_example = Reach-IsSafe no_order test_hash attest_all options reach

abbrev lease_id : ℕ → String
lease_id n = text_append "lease:" (digest_of n)

abbrev lease : ℕ → String → String → OwnershipLease
lease n id key = record {
  id = lease_id n;
  generation = n;
  mission_id = "m";
  task_id = id;
  specialist_id = "s1";
  specialist_version = "v1";
  issued_at = 1000;
  expires_at = 1100;
  claims = record { namespace = repository; key = key; access = write } ∷ [];
}

first_lease : lookup (lease_id 1) planned.0.leases ≡ some (lease 1 "t1" "a")
unfolding coordination
first_lease = refl

second_lease : lookup (lease_id 2) planned.0.leases ≡ some (lease 2 "t2" "b")
unfolding coordination
second_lease = refl

different : lease_id 1 ≢ lease_id 2
different e = let same = (eq_iff (lease_id 1) (lease_id 2)).1 e in absurd (cc)

owned : path_is_owned_for_write "a/x.ts" (lease 1 "t1" "a").claims ≡ ok true
unfolding coordination
owned = refl

Reach-path_is_owned_for_write_example :
    path_is_owned_for_write "a/x.ts" (lease 2 "t2" "b").claims ≡ ok false
Reach-path_is_owned_for_write_example =
    Reach-path_is_owned_for_write no_order test_hash attest_all options "a/x.ts" (lease_id 1)
      (lease_id 2) reach first_lease second_lease different owned

plan-IsPartition_example :
    IsPartition no_order test_hash registry snapshot 2 (pending_tasks no_order snapshot) the_plan
unfolding coordination
plan-IsPartition_example =
    plan-IsPartition no_order test_hash registry snapshot specs (some 1000) idle {c' = planned.0}
      {p = the_plan} refl

intersect_iff_example :
    (repository_keys_intersect "a" "a/b" ≡ true)
    ↔ ((path : String) × (covers "a" path ≡ true) × (covers "a/b" path ≡ true))
intersect_iff_example = intersect_iff "a" "a/b"

abbrev started : Outcome PlanRecord
started = start_execution test_hash the_plan (some 1010) planned.0

abbrev the_record : PlanRecord
the_record = record {
  plan = the_plan;
  controllers =
      text_append "assignment:" (digest_of 1) ∷ text_append "assignment:" (digest_of 2) ∷ [];
  expires_at_ms = 1100;
  phase = PlanState.executing;
}

started_ok : started ≡ (started.0, ok the_record)
unfolding coordination
started_ok = refl

abbrev RestartFails : Type 0
RestartFails =
    (e : CoordinationError) × ((start_execution test_hash the_plan (some 1020) started.0).1 ≡ err e)

executed_once_example : RestartFails
executed_once_example =
    executed_once no_order test_hash attest_all test_hash-AreApart options the_plan the_plan
      (some 1010) (some 1020) reach started_ok here refl

-- The reason is that the plan is no longer reserved.
replayed : (start_execution test_hash the_plan (some 1020) started.0).1 ≡ err not_reserved
unfolding coordination
replayed = refl

abbrev assignment : SpecialistAssignment
assignment = record {
  body = record {
    id = "a1";
    mission_id = "m";
    mission_version = 3;
    task_id = "t1";
    title = "t";
    goal = "g";
    role = "coder";
    required_capabilities = "edit" ∷ [];
    context = (spec "t1" "a").context;
    lease = lease 1 "t1" "a";
  };
  assignment_hash = digest;
}

abbrev proposal : RawProposal
proposal = record {
  assignment_id = "a1";
  mission_id = "m";
  task_id = "t1";
  specialist_id = "s1";
  specialist_version = "v1";
  started_at = some 1010;
  completed_at = some 1020;
  outcome = "SUCCESS";
  summary = "s";
  evidence =
      record {
        id = "e1";
        kind = "test";
        reference = "r";
        content_hash = digest;
        observed_at = some 1015;
        producer_class = "independent_tool";
        status = "PASS";
      }
      ∷ [];
  files_changed = "a/x.ts" ∷ [];
  artifacts = [];
  assumptions = [];
  risks = [];
  remaining_work = [];
  verification_status = "VERIFIED";
}

abbrev reconciled : TaskReconciliation
reconciled = reconcile_proposal no_order test_hash attest_all assignment (some proposal) 1030

reconciled-accepted : reconciled.body.outcome ≡ accepted
unfolding coordination
reconciled-accepted = refl

abbrev AcceptedRests : Type 0
AcceptedRests =
    (made : RawProposal) × (result : SpecialistResult) × (some proposal ≡ some made)
    × (validate_proposal no_order test_hash assignment made 1030 ≡ ok result)
    × IsAcceptable attest_all assignment made 1030 result

reconcile_proposal-IsAcceptable_example : AcceptedRests
reconcile_proposal-IsAcceptable_example =
    reconcile_proposal-IsAcceptable no_order test_hash attest_all assignment (some proposal) 1030
      reconciled-accepted
