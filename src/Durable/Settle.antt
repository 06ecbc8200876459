-- ===== src/Durable/Settle.antt =====
-- src/durable/store.ts: heartbeatJob, the settlements of a leased job, and cancelJob.
use odin_agent.Prelude.{
  ℕ, ◌&&◌, Option, none, some, String, leb, Result, ok, ◌>>=◌, ◌>>◌, guard, if◌then◌else◌,
}
use odin_agent.Durable.Types.{
  ArtifactReference, DurableJobStatus, DurableJobRecord, JobLease, DurableError, type_error,
  pending, running, retry_wait, cancelling, cancelled, succeeded, job_heartbeat,
  job_retry_scheduled, job_succeeded, job_cancelling, job_cancelled, is_identifier, is_artifact,
  is_reason_code, is_between, add_milliseconds,
}
use odin_agent.Durable.Rows.{Db, require_job}
use odin_agent.Durable.Jobs.{
  Platform, is_cancelling, set_succeeded, set_retry, set_status, set_expiry, update, check_lease,
  append_job_event, event_of, write, block_running_job, cancel_running_job, require_valid_lease,
}

pub record JobHeartbeatResult : Type 0 where
  pub expires_at : ℕ
  pub state : DurableJobStatus

abbrev or_else : Option ℕ → ℕ → ℕ
or_else none d = d
or_else (some t) d = t

module _ (p : Platform) where
  unfoldable pub heartbeat_job :
      Db → JobLease → ℕ → ℕ → Result DurableError (Db × JobHeartbeatResult)
  heartbeat_job db lease now lease_ms =
      guard (check_lease lease && is_between 1 p.limits.max_lease_ms lease_ms) type_error
      >> (add_milliseconds now lease_ms >>= λ expires_at.
          require_valid_lease p db lease now >>= λ job.
          if is_cancelling job.status
          then ok (
            db,
            record {
              expires_at = or_else job.lease_expires_at lease.expires_at;
              state = cancelling;
            },
          )
          else (append_job_event p (update lease.job_id (set_expiry expires_at now) db)
                (event_of p job job_heartbeat running lease.generation now none)
              >>= λ logged. ok (logged, record { expires_at = expires_at; state = running })))

  unfoldable pub settle_job_success :
      Db → JobLease → ArtifactReference → ℕ → Result DurableError (Db × DurableJobRecord)
  settle_job_success db lease result now =
      guard (check_lease lease && is_artifact result) type_error
      >> (require_valid_lease p db lease now >>= λ job.
          if is_cancelling job.status
          then cancel_running_job p db job now "cancellation_won"
          else write p db job.job_id (set_succeeded result now)
              (event_of p job job_succeeded succeeded lease.generation now none))

  unfoldable pub settle_job_retry :
      Db → JobLease → String → ℕ → ℕ → Result DurableError (Db × DurableJobRecord)
  settle_job_retry db lease reason retry_after_ms now =
      guard
        (check_lease lease
          && is_reason_code reason
          && is_between 0 p.limits.max_retry_delay_ms retry_after_ms)
        type_error
      >> (add_milliseconds now retry_after_ms >>= λ available_at.
          require_valid_lease p db lease now >>= λ job.
          if is_cancelling job.status
          then cancel_running_job p db job now "cancellation_won"
          else if leb job.max_attempts job.attempt_count
          then block_running_job p db job now "attempts_exhausted"
          else write p db job.job_id (set_retry available_at now)
              (event_of p job job_retry_scheduled retry_wait lease.generation now (some reason)))

  unfoldable pub settle_job_blocked :
      Db → JobLease → String → ℕ → Result DurableError (Db × DurableJobRecord)
  settle_job_blocked db lease reason now =
      guard (check_lease lease && is_reason_code reason) type_error
      >> (require_valid_lease p db lease now >>= λ job.
          if is_cancelling job.status
          then cancel_running_job p db job now "cancellation_won"
          else block_running_job p db job now reason)

  unfoldable pub settle_job_cancelled :
      Db → JobLease → ℕ → Result DurableError (Db × DurableJobRecord)
  settle_job_cancelled db lease now =
      guard (check_lease lease) type_error
      >> (require_valid_lease p db lease now >>= λ job.
          cancel_running_job p db job now "worker_cancelled")

  -- What `cancelJob` does with a job, by its status.
  abbrev pub cancel_by_status :
      DurableJobStatus → Db → DurableJobRecord → ℕ → Result DurableError (Db × DurableJobRecord)
  cancel_by_status pending db job now =
      write p db job.job_id (set_status cancelled now)
        (event_of p job job_cancelled cancelled job.lease_generation now (some "cancel_requested"))
  cancel_by_status retry_wait db job now =
      write p db job.job_id (set_status cancelled now)
        (event_of p job job_cancelled cancelled job.lease_generation now (some "cancel_requested"))
  cancel_by_status running db job now =
      write p db job.job_id (set_status cancelling now) (
        event_of p job job_cancelling cancelling job.lease_generation now (some "cancel_requested"))
  cancel_by_status _ db job now = ok (db, job)

  unfoldable pub cancel_job : Db → String → ℕ → Result DurableError (Db × DurableJobRecord)
  cancel_job db id now =
      guard (is_identifier 200 id) type_error
      >> (require_job db id >>= λ job. cancel_by_status job.status db job now)
