-- ===== src/Durable/Types.antt =====
-- src/durable/types.ts and internal.ts: limits, job data, and the checks of arguments. A canonical
-- UTC timestamp is the number of its milliseconds.
use odin_agent.Prelude.{
  ℕ, ◌+◌, Bool, false, not, ◌&&◌, ◌||◌, Option, List, [], ◌∷◌, String, ltb, leb, ◌==◌, every,
  length, Result, ok, err, if◌then◌else◌,
}
use odin_agent.Prelude.Text.{codes, is_blank, utf16_length, has_nul}
use odin_agent.Prelude.Number.{max_safe}

pub record DurableStoreLimits : Type 0 where
  pub max_jobs : ℕ
  pub max_job_events : ℕ
  pub max_lease_ms : ℕ
  pub max_retry_delay_ms : ℕ

pub record ArtifactReference : Type 0 where
  pub artifact_id : String
  pub sha256 : String

pub data DurableJobStatus : Type 0 where
  pending running retry_wait cancelling cancelled succeeded blocked : DurableJobStatus

pub record JobEnqueueInput : Type 0 where
  pub idempotency_key : String
  pub job_id : String
  pub mission_id : String
  pub task_id : String
  pub priority : ℕ
  pub max_attempts : ℕ
  pub available_at : ℕ
  pub created_at : ℕ
  pub payload : ArtifactReference

pub record DurableJobRecord : Type 0 where
  pub job_id : String
  pub mission_id : String
  pub task_id : String
  pub priority : ℕ
  pub status : DurableJobStatus
  pub max_attempts : ℕ
  pub attempt_count : ℕ
  pub available_at : ℕ
  pub payload : ArtifactReference
  pub lease_generation : ℕ
  pub lease_worker_id : Option String
  pub lease_expires_at : Option ℕ
  pub result : Option ArtifactReference
  pub created_at : ℕ
  pub updated_at : ℕ

pub record JobLease : Type 0 where
  pub job_id : String
  pub mission_id : String
  pub task_id : String
  pub worker_id : String
  pub attempt : ℕ
  pub generation : ℕ
  pub token : String
  pub expires_at : ℕ
  pub payload : ArtifactReference

pub data JobLifecycleType : Type 0 where
  job_enqueued job_claimed job_reclaimed job_heartbeat job_retry_scheduled : JobLifecycleType
  job_succeeded job_blocked job_cancelling job_cancelled : JobLifecycleType

-- `TypeError`, `DurableStoreConflictError`, `DurableStoreCorruptionError`, `LeaseRejectedError`
pub data DurableError : Type 0 where
  type_error conflict corruption lease_rejected : DurableError

-- `assertIdentifier`
unfoldable pub is_identifier : ℕ → String → Bool
is_identifier max_length s = not (is_blank s || ltb max_length (utf16_length s) || has_nul s)

abbrev is_hex_digit : ℕ → Bool
is_hex_digit c = leb 48 c && leb c 57 || leb 97 c && leb c 102

-- `SHA256_PATTERN`
unfoldable pub is_sha256 : String → Bool
is_sha256 s = every is_hex_digit (codes s) && length (codes s) == 64

abbrev is_lower : ℕ → Bool
is_lower c = leb 97 c && leb c 122

abbrev is_reason_tail : ℕ → Bool
is_reason_tail c = is_lower c || leb 48 c && leb c 57 || c == 95 || c == 46 || c == 45

abbrev is_reason_text : List ℕ → Bool
is_reason_text [] = false
is_reason_text (c ∷ cs) = is_lower c && every is_reason_tail cs && leb (length cs) 63

-- `REASON_CODE_PATTERN`
unfoldable pub is_reason_code : String → Bool
is_reason_code s = is_reason_text (codes s)

-- `assertArtifactReference`
unfoldable pub is_artifact : ArtifactReference → Bool
is_artifact a = is_identifier 500 a.artifact_id && is_sha256 a.sha256

-- `assertSafeInteger` with its bounds, for an integer.
abbrev pub is_between : ℕ → ℕ → ℕ → Bool
is_between minimum maximum n = leb n max_safe && leb minimum n && leb n maximum

-- The last millisecond that a Date can stand for.
abbrev pub max_date : ℕ
max_date = 8640000000000000

-- `addMilliseconds`, where the RangeError of `toISOString` behind the last date is a type_error too.
unfoldable pub add_milliseconds : ℕ → ℕ → Result DurableError ℕ
add_milliseconds t ms = if leb (t + ms) max_date then ok (t + ms) else err type_error
