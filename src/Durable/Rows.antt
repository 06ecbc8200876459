-- ===== src/Durable/Rows.antt =====
-- src/durable/store.ts: the tables of jobs, of job idempotency and of job events, and the row decoder.
use Prim.Native.String.{compare as compare_text}
use Prim.Native.Nat.{Ordering}
use odin_agent.Prelude.{
  ℕ, ◌≡◌, sym, subst, Bool, true, false, not, ◌&&◌, Option, none, some, List, [], ◌∷◌, String,
  str_eq, leb, is_some, Result, ok, err, ◌>>◌, guard, if◌then◌else◌, arith, All, inl, inr,
  Bool-cases,
}
use odin_agent.Prelude.Number.{max_safe}
use odin_agent.Durable.Types.{
  ArtifactReference, DurableJobStatus, DurableJobRecord, JobLifecycleType, DurableError, corruption,
  conflict, running, cancelling, is_identifier, is_sha256, is_artifact, is_between,
}

pub record JobRow : Type 0 where
  pub job_id : String
  pub mission_id : String
  pub task_id : String
  pub priority : ℕ
  pub status : DurableJobStatus
  pub max_attempts : ℕ
  pub attempt_count : ℕ
  pub available_at : ℕ
  pub payload : ArtifactReference
  pub lease_generation : ℕ
  pub lease_worker_id : Option String
  pub lease_token_hash : Option String
  pub lease_expires_at : Option ℕ
  pub result_artifact_id : Option String
  pub result_sha256 : Option String
  pub created_at : ℕ
  pub updated_at : ℕ
  pub enqueue_fingerprint : String

pub record IdempotencyRow : Type 0 where
  pub mission_id : String
  pub idempotency_key : String
  pub job_id : String
  pub fingerprint : String

pub record JobEventInput : Type 0 where
  pub mission_id : String
  pub job_id : String
  pub type : JobLifecycleType
  pub status : DurableJobStatus
  pub generation : ℕ
  pub occurred_at : ℕ
  pub reason_code : Option String

-- A stored event; its cursor is its place in the table, counted from 1.
pub record JobEventRow : Type 0 where
  pub event : JobEventInput
  pub event_hash : String

pub record Db : Type 0 where
  pub jobs : List JobRow
  pub job_idempotency : List IdempotencyRow
  pub job_events : List JobEventRow

unfoldable pub empty_db : Db
empty_db = record { jobs = []; job_idempotency = []; job_events = [] }

abbrev pub holds_lease : DurableJobStatus → Bool
holds_lease running = true
holds_lease cancelling = true
holds_lease _ = false

abbrev none_or {ℓ} : {A : Type ℓ} → (A → Bool) → Option A → Bool
none_or test none = true
none_or test (some a) = test a

unfoldable pub fits_result : Option String → Option String → Bool
fits_result none none = true
fits_result (some a) (some h) = is_artifact (record { artifact_id = a; sha256 = h })
fits_result _ _ = false

-- The lease columns, for a status that holds a lease or does not.
unfoldable pub fits_lease : Bool → Option String → Option ℕ → Option String → Bool
fits_lease true worker_id expires_at token_hash =
    is_some worker_id && is_some expires_at && is_some token_hash && none_or is_sha256 token_hash
fits_lease false worker_id expires_at token_hash =
    not (is_some worker_id) && not (is_some expires_at) && not (is_some token_hash)

-- The columns that no statement changes.
unfoldable pub fits_identity : String → String → String → ℕ → ℕ → ArtifactReference → Bool
fits_identity job_id mission_id task_id priority max_attempts payload =
    is_identifier 200 job_id
    && is_identifier 200 mission_id
    && is_identifier 200 task_id
    && is_between 0 100 priority
    && is_between 1 100 max_attempts
    && is_artifact payload

unfoldable pub fits_counts : ℕ → ℕ → ℕ → Bool
fits_counts max_attempts attempt_count lease_generation =
    is_between 0 100 attempt_count
    && leb lease_generation max_safe
    && leb attempt_count max_attempts

-- The checks of `decodeJobRow`, which all throw a `DurableStoreCorruptionError`.
unfoldable pub is_intact : JobRow → Bool
is_intact row =
    fits_result row.result_artifact_id row.result_sha256
    && fits_identity row.job_id row.mission_id row.task_id row.priority row.max_attempts row.payload
    && fits_counts row.max_attempts row.attempt_count row.lease_generation
    && fits_lease (holds_lease row.status) row.lease_worker_id row.lease_expires_at
        row.lease_token_hash

abbrev result_of : Option String → Option String → Option ArtifactReference
result_of (some a) (some h) = some (record { artifact_id = a; sha256 = h })
result_of _ _ = none

abbrev pub decoded : JobRow → DurableJobRecord
decoded row = record {
  job_id = row.job_id;
  mission_id = row.mission_id;
  task_id = row.task_id;
  priority = row.priority;
  status = row.status;
  max_attempts = row.max_attempts;
  attempt_count = row.attempt_count;
  available_at = row.available_at;
  payload = row.payload;
  lease_generation = row.lease_generation;
  lease_worker_id = row.lease_worker_id;
  lease_expires_at = row.lease_expires_at;
  result = result_of row.result_artifact_id row.result_sha256;
  created_at = row.created_at;
  updated_at = row.updated_at;
}

unfoldable pub decode_job_row : JobRow → Result DurableError DurableJobRecord
decode_job_row row = guard (is_intact row) corruption >> ok (decoded row)

-- `SELECT * FROM jobs WHERE job_id = ?`; `job_id` is the primary key.
unfoldable pub find_job : String → List JobRow → Option JobRow
find_job id [] = none
find_job id (row ∷ rows) = if str_eq row.job_id id then some row else find_job id rows

-- `UPDATE jobs SET … WHERE job_id = ?`
unfoldable pub update_job : String → (JobRow → JobRow) → List JobRow → List JobRow
update_job id f [] = []
update_job id f (row ∷ rows) =
    if str_eq row.job_id id then f row ∷ rows else row ∷ update_job id f rows

unfoldable pub find_key : String → String → List IdempotencyRow → Option IdempotencyRow
find_key mission_id key [] = none
find_key mission_id key (row ∷ rows) =
    if str_eq row.mission_id mission_id && str_eq row.idempotency_key key
    then some row
    else find_key mission_id key rows

-- `#requireJob`
unfoldable pub require_job : Db → String → Result DurableError DurableJobRecord
require_job db id = elim (find_job id db.jobs) [
  | none ↦ err conflict
  | some row ↦ decode_job_row row
]

-- The order of the byte strings that SQLite compares, which is that of the code points.
abbrev pub text_before : String → String → Bool
text_before a b = elim (compare_text a b) [ Ordering.lt ↦ true | _ ↦ false ]

pub All-update_job :
    (P : JobRow → Type 0) (id : String) (f : JobRow → JobRow) (rows : List JobRow)
    → All P rows
    → ((row : JobRow) → find_job id rows ≡ some row → P row → P (f row))
    → All P (update_job id f rows)
unfolding find_job update_job
All-update_job P id f [] all step = tt
All-update_job P id f (row ∷ rows) (p, all) step = elim (Bool-cases (str_eq row.job_id id)) [
  | inl here ↦
      subst (λ t. All P (if t then f row ∷ rows else row ∷ update_job id f rows)) (sym here)
        (step row (rw here) p, all)
  | inr there ↦
      subst (λ t. All P (if t then f row ∷ rows else row ∷ update_job id f rows)) (sym there)
        (p, All-update_job P id f rows all (λ r found. step r (ground (arith, there, found))))
]

pub All-find_job :
    (P : JobRow → Type 0) (id : String) (rows : List JobRow) (row : JobRow)
    → All P rows
    → find_job id rows ≡ some row
    → P row
unfolding find_job
All-find_job P id [] row all found = absurd (cc)
All-find_job P id (r ∷ rows) row (p, all) found = elim (Bool-cases (str_eq r.job_id id)) [
  | inl here ↦ let same : r ≡ row = ground arith in subst P same p
  | inr there ↦ All-find_job P id rows row all (ground arith)
]
