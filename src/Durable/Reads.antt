-- ===== src/Durable/Reads.antt =====
-- src/durable/store.ts: getJob, readJobEvents and jobCounts.
pub mod Pages
use odin_agent.Prelude.{
  ℕ, suc, ◌+◌, ◌-◌, Bool, true, ◌&&◌, Option, none, some, List, [], ◌∷◌, String, str_eq, ltb, leb,
  ◌==◌, select, length, Result, ok, err, ◌>>=◌, ◌>>◌, guard, map_result, if◌then◌else◌,
}
use odin_agent.Prelude.Number.{max_safe}
use odin_agent.Durable.Types.{
  DurableJobStatus, pending, running, retry_wait, cancelling, cancelled, succeeded, blocked,
  DurableJobRecord, DurableError, type_error, corruption, is_identifier, is_sha256, is_reason_code,
  is_between,
}
use odin_agent.Durable.Rows.{Db, JobRow, JobEventInput, JobEventRow, find_job, decode_job_row}
use odin_agent.Durable.Jobs.{Platform}

pub record JobLifecycleEvent : Type 0 where
  pub cursor : ℕ
  pub event : JobEventInput
  pub event_hash : String

abbrev pub job_of_row : Option JobRow → Result DurableError (Option DurableJobRecord)
job_of_row none = ok none
job_of_row (some row) = decode_job_row row >>= λ job. ok (some job)

-- `getJob`
unfoldable pub get_job : Db → String → Result DurableError (Option DurableJobRecord)
get_job db job_id =
    guard (is_identifier 200 job_id) type_error >> job_of_row (find_job job_id db.jobs)

-- The rows of the table with their cursors.
abbrev pub numbered : ℕ → List JobEventRow → List (ℕ × JobEventRow)
numbered cursor [] = []
numbered cursor (row ∷ rows) = (cursor, row) ∷ numbered (suc cursor) rows

-- `LIMIT ?`
abbrev pub take {ℓ} : {A : Type ℓ} → ℕ → List A → List A
take n [] = []
take n (x ∷ xs) = let rest = take (n - 1) xs in if leb n 0 then [] else x ∷ rest

-- `WHERE mission_id = ? AND cursor > ?`
abbrev pub is_after : String → ℕ → ℕ × JobEventRow → Bool
is_after mission_id after entry = str_eq entry.1.event.mission_id mission_id && ltb after entry.0

abbrev pub is_reason : Option String → Bool
is_reason none = true
is_reason (some reason) = is_reason_code reason

-- The tests of the row's fields in `decodeJobEventRow`.
abbrev pub is_well_formed : JobEventRow → Bool
is_well_formed row =
    is_identifier 200 row.event.job_id
    && leb row.event.generation max_safe
    && is_sha256 row.event_hash
    && is_reason row.event.reason_code

module _ (p : Platform) where
  -- `decodeJobEventRow`
  unfoldable pub decode_job_event_row :
      String → ℕ × JobEventRow → Result DurableError JobLifecycleEvent
  decode_job_event_row expected_mission_id entry = do
    let row = entry.1
    guard (str_eq row.event.mission_id expected_mission_id) corruption
    guard (is_well_formed row) corruption
    guard (str_eq (p.event_hash row.event) row.event_hash) corruption
    ok (record { cursor = entry.0; event = row.event; event_hash = row.event_hash })

  -- `readJobEvents`
  unfoldable pub read_job_events :
      ℕ → Db → String → ℕ → ℕ → Result DurableError (List JobLifecycleEvent)
  read_job_events max_page db mission_id after limit = do
    guard (is_identifier 200 mission_id) type_error
    guard (leb after max_safe) type_error
    guard (is_between 1 max_page limit) type_error
    map_result (decode_job_event_row mission_id)
        (take limit (select (is_after mission_id after) (numbered 1 db.job_events)))

abbrev pub job_status_code : DurableJobStatus → ℕ
job_status_code blocked = 0
job_status_code cancelled = 1
job_status_code cancelling = 2
job_status_code pending = 3
job_status_code retry_wait = 4
job_status_code running = 5
job_status_code succeeded = 6

-- `SELECT status, COUNT(*) … WHERE mission_id = ? GROUP BY status`, where a status without a row has 0.
abbrev pub is_counted : String → DurableJobStatus → JobRow → Bool
is_counted mission_id status row =
    str_eq row.mission_id mission_id && (job_status_code row.status == job_status_code status)

-- `jobCounts`
unfoldable pub job_counts : Db → String → Result DurableError (DurableJobStatus → ℕ)
job_counts db mission_id =
    guard (is_identifier 200 mission_id) type_error
    >> ok (λ status. length (select (is_counted mission_id status) db.jobs))
