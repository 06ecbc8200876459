-- ===== src/Coordination/Specs.antt =====
-- src/coordination/coordinator.ts: normalizeTaskSpecs and the checks of the constructor's options. The
-- checks of JavaScript types and field names hold by typing.
use odin_agent.Prelude.{
  ℕ, Bool, not, ◌&&◌, Option, none, some, List, [], String, str_eq, leb, every, length, is_some,
  Dict, lookup, insert, Result, ok, err, ◌>>=◌, ◌>>◌, guard, fold_result, has, is_distinct, sort_by,
}
use odin_agent.Prelude.Text.{is_text_after}
use odin_agent.Prelude.Number.{Number, safe_nat, nat}
use odin_agent.Mission.Graph.{MissionTask, task_ids}
use odin_agent.Mission.Snapshot.{MissionSnapshot}
use odin_agent.Coordination.Types.{
  ContextPackageReference, CoordinationTaskSpec, CoordinatorOptions, CoordinationError, type_error,
}
use odin_agent.Coordination.Checks.{
  max_collection_items, max_summary_length, is_text, is_identifier, is_sha256, is_token,
}
use odin_agent.Coordination.Registry.{normalize_capabilities}
use odin_agent.Coordination.Ownership.{normalize_ownership_claims}

abbrev bounded_nat : ℕ → Option ℕ → Result CoordinationError ℕ
bounded_nat maximum none = err type_error
bounded_nat maximum (some n) = guard (leb 1 n && leb n maximum) type_error >> ok n

-- `boundedInteger`
unfoldable pub bounded_integer : Number → ℕ → Result CoordinationError ℕ
bounded_integer value maximum = bounded_nat maximum (safe_nat value)

pub record OptionsInput : Type 0 where
  pub max_batch_size : Number
  pub max_active_assignments : Number
  pub lease_duration_ms : Number
  pub execution_timeout_ms : Number
  pub max_plan_records : Option Number

-- `options.maxPlanRecords ?? 256`
abbrev plan_records_of : Option Number → Number
plan_records_of none = nat 256
plan_records_of (some n) = n

-- The constructor's checks.
unfoldable pub check_options : OptionsInput → Result CoordinationError CoordinatorOptions
check_options input = do
  max_batch_size ← bounded_integer input.max_batch_size 64
  max_active_assignments ← bounded_integer input.max_active_assignments 64
  lease_duration_ms ← bounded_integer input.lease_duration_ms 3600000
  execution_timeout_ms ← bounded_integer input.execution_timeout_ms lease_duration_ms
  max_plan_records ← bounded_integer (plan_records_of input.max_plan_records) 1024
  ok (record {
    max_batch_size = max_batch_size;
    max_active_assignments = max_active_assignments;
    lease_duration_ms = lease_duration_ms;
    execution_timeout_ms = execution_timeout_ms;
    max_plan_records = max_plan_records;
  })

-- `normalizeContext`
unfoldable pub normalize_context :
    ContextPackageReference → String → String → Result CoordinationError ContextPackageReference
normalize_context context mission_id task_id =
    guard (str_eq context.mission_id mission_id && str_eq context.task_id task_id) type_error
    >> guard (is_sha256 context.result_hash) type_error
    >> guard (is_sha256 context.source_fingerprint) type_error
    >> guard (leb (length context.selected_ids) max_collection_items) type_error
    >> guard (every is_identifier context.selected_ids) type_error
    >> guard (is_distinct context.selected_ids) type_error
    >> ok (record context { selected_ids = sort_by is_text_after context.selected_ids })

abbrev pub has_task_text : MissionTask → Bool
has_task_text task = is_identifier task.id && is_text max_summary_length task.title

module _ (is_after : String → String → Bool) where
  -- The normalized form of one specification.
  unfoldable pub normalize_spec :
      String → CoordinationTaskSpec → Result CoordinationError CoordinationTaskSpec
  normalize_spec mission_id candidate = do
    guard (is_text max_summary_length candidate.goal) type_error
    guard (is_token candidate.role) type_error
    capabilities ← normalize_capabilities candidate.required_capabilities
    ownership ← normalize_ownership_claims is_after candidate.ownership
    context ← normalize_context candidate.context mission_id candidate.task_id
    ok (record {
      task_id = candidate.task_id;
      goal = candidate.goal;
      role = candidate.role;
      required_capabilities = capabilities;
      ownership = ownership;
      context = context;
    })

  -- One round of the loop over the specifications.
  unfoldable pub add_spec :
      MissionSnapshot
      → Dict CoordinationTaskSpec
      → CoordinationTaskSpec
      → Result CoordinationError (Dict CoordinationTaskSpec)
  add_spec snapshot specs candidate = do
    guard (is_identifier candidate.task_id) type_error
    guard (has (task_ids snapshot.tasks) candidate.task_id) type_error
    guard (not (is_some (lookup candidate.task_id specs))) type_error
    spec ← normalize_spec snapshot.id candidate
    ok (insert candidate.task_id spec specs)

  unfoldable pub normalize_task_specs :
      MissionSnapshot
      → List CoordinationTaskSpec
      → Result CoordinationError (Dict CoordinationTaskSpec)
  normalize_task_specs snapshot task_specs =
      guard (leb (length task_specs) max_collection_items) type_error
      >> guard (is_distinct (task_ids snapshot.tasks)) type_error
      >> guard (every has_task_text snapshot.tasks) type_error
      >> fold_result (add_spec snapshot) [] task_specs
