-- ===== src/Durable/Jobs.antt =====
-- src/durable/store.ts: the job operations of SqliteDurableStore. `hash_text` is SHA-256,
-- `job_fingerprint` the hash of an input's canonical JSON, `event_hash` that of an event; the token
-- of a lease, which the source draws at random, is an argument of `claim_job`.
use odin_agent.Prelude.{
  ℕ, Bool, true, false, not, ◌&&◌, ◌||◌, Option, none, some, List, [], ◌∷◌, ◌++◌, String, str_eq,
  ltb, leb, ◌==◌, length, Result, ok, err, ◌>>=◌, ◌>>◌, guard, if◌then◌else◌,
}
use odin_agent.Prelude.Number.{max_safe}
use odin_agent.Durable.Types.{
  DurableStoreLimits, ArtifactReference, DurableJobStatus, JobEnqueueInput, DurableJobRecord,
  JobLease, JobLifecycleType, DurableError, type_error, conflict, lease_rejected, pending, running,
  retry_wait, cancelling, cancelled, succeeded, blocked, job_blocked, job_cancelled, is_identifier,
  is_artifact, is_reason_code, is_between,
}
use odin_agent.Durable.Rows.{
  JobRow, JobEventInput, Db, find_job, update_job, decode_job_row, require_job, text_before,
}

abbrev pub is_running : DurableJobStatus → Bool
is_running running = true
is_running _ = false

abbrev pub is_cancelling : DurableJobStatus → Bool
is_cancelling cancelling = true
is_cancelling _ = false

abbrev pub is_waiting : DurableJobStatus → Bool
is_waiting pending = true
is_waiting retry_wait = true
is_waiting _ = false

-- `lease_expires_at <= now`, which is never true of a NULL.
abbrev pub is_expired : Option ℕ → ℕ → Bool
is_expired none now = false
is_expired (some t) now = leb t now

-- The negation of `leaseExpiresAt === null || leaseExpiresAt <= now`.
abbrev pub is_live : Option ℕ → ℕ → Bool
is_live none now = false
is_live (some t) now = ltb now t

abbrev pub same_text : Option String → String → Bool
same_text none t = false
same_text (some s) t = str_eq s t

-- The assignments of the UPDATE statements.
abbrev pub settled : DurableJobStatus → ℕ → JobRow → JobRow
settled status now row = record row {
  status = status;
  lease_worker_id = none;
  lease_token_hash = none;
  lease_expires_at = none;
  updated_at = now;
}

abbrev pub set_succeeded : ArtifactReference → ℕ → JobRow → JobRow
set_succeeded result now row = record (settled succeeded now row) {
  result_artifact_id = some result.artifact_id;
  result_sha256 = some result.sha256;
}

abbrev pub set_retry : ℕ → ℕ → JobRow → JobRow
set_retry available_at now row = record (settled retry_wait now row) { available_at = available_at }

abbrev pub set_status : DurableJobStatus → ℕ → JobRow → JobRow
set_status status now row = record row { status = status; updated_at = now }

abbrev pub set_expiry : ℕ → ℕ → JobRow → JobRow
set_expiry expires_at now row = record row { lease_expires_at = some expires_at; updated_at = now }

abbrev pub set_claimed : ℕ → ℕ → String → String → ℕ → ℕ → JobRow → JobRow
set_claimed attempt generation worker_id token_hash expires_at now row = record row {
  status = running;
  attempt_count = attempt;
  lease_generation = generation;
  lease_worker_id = some worker_id;
  lease_token_hash = some token_hash;
  lease_expires_at = some expires_at;
  updated_at = now;
}

abbrev pub update : String → (JobRow → JobRow) → Db → Db
update id f db = record db { jobs = update_job id f db.jobs }

-- The SELECT statements of `#maintainExpiredJobs`.
abbrev pub is_spent : ℕ → JobRow → Bool
is_spent now row =
    is_running row.status
    && is_expired row.lease_expires_at now
    && leb row.max_attempts row.attempt_count

abbrev pub is_abandoned : ℕ → JobRow → Bool
is_abandoned now row = is_cancelling row.status && is_expired row.lease_expires_at now

-- `ORDER BY job_id ASC`
abbrev pub insert_by_id : JobRow → List JobRow → List JobRow
insert_by_id row [] = row ∷ []
insert_by_id row (r ∷ rows) =
    if text_before r.job_id row.job_id then r ∷ insert_by_id row rows else row ∷ r ∷ rows

abbrev pub sort_by_id : List JobRow → List JobRow
sort_by_id [] = []
sort_by_id (row ∷ rows) = insert_by_id row (sort_by_id rows)

-- The WHERE clause of the claim.
unfoldable pub is_ready : ℕ → JobRow → Bool
is_ready now row =
    is_waiting row.status && leb row.available_at now
    || is_running row.status
      && is_expired row.lease_expires_at now
      && ltb row.attempt_count row.max_attempts

-- `ORDER BY available_at ASC, priority DESC, created_at ASC, job_id ASC`
unfoldable pub claimed_before : JobRow → JobRow → Bool
claimed_before a b =
    ltb a.available_at b.available_at
    || a.available_at == b.available_at
      && (ltb b.priority a.priority
          || a.priority == b.priority
            && (ltb a.created_at b.created_at
                || a.created_at == b.created_at && text_before a.job_id b.job_id))

abbrev better : JobRow → Option JobRow → JobRow
better row none = row
better row (some best) = if claimed_before best row then best else row

-- `LIMIT 1` of the ready rows in that order.
unfoldable pub first_ready : ℕ → List JobRow → Option JobRow
first_ready now [] = none
first_ready now (row ∷ rows) =
    let rest = first_ready now rows in if is_ready now row then some (better row rest) else rest

-- `validateEnqueueInput`
unfoldable pub check_enqueue : JobEnqueueInput → Bool
check_enqueue i =
    is_identifier 500 i.idempotency_key
    && is_identifier 200 i.job_id
    && is_identifier 200 i.mission_id
    && is_identifier 200 i.task_id
    && is_between 0 100 i.priority
    && is_between 1 100 i.max_attempts
    && not (ltb i.available_at i.created_at)
    && is_artifact i.payload

-- `validateLeaseEnvelope`
unfoldable pub check_lease : JobLease → Bool
check_lease lease =
    is_identifier 200 lease.job_id
    && is_identifier 200 lease.mission_id
    && is_identifier 200 lease.task_id
    && is_identifier 200 lease.worker_id
    && is_identifier 500 lease.token
    && is_between 1 max_safe lease.attempt
    && is_between 1 max_safe lease.generation
    && is_artifact lease.payload

-- What `JSON.stringify`, SHA-256 and the limits of a store give it.
pub record Platform : Type 0 where
  pub limits : DurableStoreLimits
  pub hash_text : String → String
  pub job_fingerprint : JobEnqueueInput → String
  pub event_hash : JobEventInput → String

module _ (p : Platform) where
  -- `#appendJobEvent`
  unfoldable pub append_job_event : Db → JobEventInput → Result DurableError Db
  append_job_event db e =
      guard (ltb (length db.job_events) p.limits.max_job_events) conflict
      >> ok (record db {
        job_events = db.job_events ++ record { event = e; event_hash = p.event_hash e } ∷ [];
      })

  abbrev pub event_of :
      DurableJobRecord → JobLifecycleType → DurableJobStatus → ℕ → ℕ → Option String → JobEventInput
  event_of job type status generation now reason = record {
    mission_id = job.mission_id;
    job_id = job.job_id;
    type = type;
    status = status;
    generation = generation;
    occurred_at = now;
    reason_code = reason;
  }

  -- An update of one row, its event, and the row read back.
  unfoldable pub write :
      Db → String → (JobRow → JobRow) → JobEventInput → Result DurableError (Db × DurableJobRecord)
  write db id f e = append_job_event (update id f db) e >>= λ logged.
      require_job logged id >>= λ job. ok (logged, job)

  -- `#blockRunningJob`
  unfoldable pub block_running_job :
      Db → DurableJobRecord → ℕ → String → Result DurableError (Db × DurableJobRecord)
  block_running_job db job now reason =
      guard (is_reason_code reason) type_error
      >> write db job.job_id (settled blocked now)
          (event_of job job_blocked blocked job.lease_generation now (some reason))

  -- `#cancelRunningJob`
  unfoldable pub cancel_running_job :
      Db → DurableJobRecord → ℕ → String → Result DurableError (Db × DurableJobRecord)
  cancel_running_job db job now reason =
      guard (is_reason_code reason) type_error
      >> write db job.job_id (settled cancelled now)
          (event_of job job_cancelled cancelled job.lease_generation now (some reason))

  -- `#requireValidLease` with `allowCancelling`, as every caller passes it.
  unfoldable pub require_valid_lease : Db → JobLease → ℕ → Result DurableError DurableJobRecord
  require_valid_lease db lease now = elim (find_job lease.job_id db.jobs) [
    | none ↦ err conflict
    | some raw ↦ decode_job_row raw >>= λ row.
        guard (str_eq row.mission_id lease.mission_id && str_eq row.task_id lease.task_id)
          lease_rejected
        >> guard
            (same_text row.lease_worker_id lease.worker_id
              && row.lease_generation == lease.generation)
            lease_rejected
        >> guard (same_text raw.lease_token_hash (p.hash_text lease.token)) lease_rejected
        >> guard (is_live row.lease_expires_at now) lease_rejected
        >> guard (is_running row.status || is_cancelling row.status) lease_rejected
        >> ok row
  ]
