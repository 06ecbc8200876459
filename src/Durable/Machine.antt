-- ===== src/Durable/Machine.antt =====
-- src/durable/store.ts: the state machine of a job's row, apart from the SQL that runs it.
pub mod Later
pub mod Distinct
use odin_agent.Prelude.{
  ℕ, suc, ◌+◌, ◌<◌, ◌≤◌, ◌≡◌, ◌≢◌, refl, sym, ap, ◌∙◌, subst, Bool, true, false, not, ◌&&◌, ◌||◌,
  Option, none, some, List, [], ◌∷◌, ◌++◌, String, str_eq, arith, eq_iff, All, All-append,
  Bool-cases, inl, inr, if◌then◌else◌, leb, is_some,
}
use odin_agent.Durable.Types.{
  ArtifactReference, DurableJobStatus, pending, running, retry_wait, cancelling, cancelled,
  succeeded, blocked, is_sha256, is_artifact,
}
use odin_agent.Durable.Rows.{
  JobRow, find_job, update_job, holds_lease, is_intact, fits_result, fits_identity, fits_counts,
  fits_lease, All-update_job,
}
use odin_agent.Durable.Jobs.{
  is_running, is_waiting, settled, set_succeeded, set_retry, set_status, set_expiry, set_claimed,
}

abbrev pub is_terminal : DurableJobStatus → Bool
is_terminal cancelled = true
is_terminal succeeded = true
is_terminal blocked = true
is_terminal _ = false

-- How one row may change.
pub data Change (row : JobRow) : JobRow → Type 0 where
  claims :
      (worker_id token_hash : String) (expires_at now : ℕ)
      → (is_waiting row.status || is_running row.status) ≡ true
      → row.attempt_count < row.max_attempts
      → is_sha256 token_hash ≡ true
      → Change row (
          set_claimed
            (row.attempt_count + 1)
            (row.lease_generation + 1)
            worker_id
            token_hash
            expires_at
            now
            row)
  blocks : (now : ℕ) → is_running row.status ≡ true → Change row (settled blocked now row)
  cancels : (now : ℕ) → holds_lease row.status ≡ true → Change row (settled cancelled now row)
  succeeds :
      (result : ArtifactReference) (now : ℕ)
      → is_running row.status ≡ true
      → is_artifact result ≡ true
      → Change row (set_succeeded result now row)
  retries :
      (available_at now : ℕ)
      → is_running row.status ≡ true
      → row.attempt_count < row.max_attempts
      → Change row (set_retry available_at now row)
  drops : (now : ℕ) → is_waiting row.status ≡ true → Change row (set_status cancelled now row)
  asks : (now : ℕ) → is_running row.status ≡ true → Change row (set_status cancelling now row)
  extends :
      (expires_at now : ℕ)
      → is_running row.status ≡ true
      → Change row (set_expiry expires_at now row)

-- A row that the decoder accepts; every claim counts one attempt and one generation.
pub record IsValid (row : JobRow) : Type 0 where
  pub intact : is_intact row ≡ true
  pub counted : row.lease_generation ≡ row.attempt_count

-- How the table may change.
pub data Moves (rows : List JobRow) : List JobRow → Type 0 where
  still : Moves rows rows
  changed :
      (mid : List JobRow) (id : String) (f : JobRow → JobRow) (row : JobRow)
      → Moves rows mid
      → find_job id mid ≡ some row
      → Change row (f row)
      → Moves rows (update_job id f mid)
  inserted :
      (mid : List JobRow) (row : JobRow)
      → Moves rows mid
      → find_job row.job_id mid ≡ none
      → IsValid row
      → Moves rows (mid ++ row ∷ [])

pub Moves-trans : (a b c : List JobRow) → Moves a b → Moves b c → Moves a c
Moves-trans a b _ m still = m
Moves-trans a b _ m (changed mid id f row n found change) =
    changed mid id f row (Moves-trans a b mid m n) found change
Moves-trans a b _ m (inserted mid row n fresh valid) =
    inserted mid row (Moves-trans a b mid m n) fresh valid

record Parts (row : JobRow) : Type 0 where
  result : fits_result row.result_artifact_id row.result_sha256 ≡ true
  identity :
      fits_identity row.job_id row.mission_id row.task_id row.priority row.max_attempts row.payload
      ≡ true
  counts : fits_counts row.max_attempts row.attempt_count row.lease_generation ≡ true
  lease :
      fits_lease
        (holds_lease row.status)
        row.lease_worker_id
        row.lease_expires_at
        row.lease_token_hash
      ≡ true

parts : (row : JobRow) → is_intact row ≡ true → Parts row
unfolding is_intact
parts row h = record {
  result = ground arith;
  identity = ground arith;
  counts = ground arith;
  lease = ground arith;
}

whole : (row : JobRow) → Parts row → is_intact row ≡ true
unfolding is_intact
whole row p = rw (p.result, p.identity, p.counts, p.lease)

max_le : (row : JobRow) → Parts row → row.max_attempts ≤ 100
unfolding fits_identity
max_le row p = ground (arith, p.identity)

claimed_counts :
    (row : JobRow)
    → IsValid row
    → row.attempt_count < row.max_attempts
    → fits_counts row.max_attempts (row.attempt_count + 1) (row.lease_generation + 1) ≡ true
unfolding fits_counts
claimed_counts row v left = ground (arith, max_le row (parts row v.intact), v.counted)

no_lease :
    (status : DurableJobStatus)
    → holds_lease status ≡ false
    → fits_lease (holds_lease status) none none none ≡ true
unfolding fits_lease
no_lease status h = rw h

leased :
    (worker_id token_hash : String) (expires_at : ℕ)
    → is_sha256 token_hash ≡ true
    → fits_lease true (some worker_id) (some expires_at) (some token_hash) ≡ true
unfolding fits_lease
leased worker_id token_hash expires_at h = h

same_lease :
    (row : JobRow) (status : DurableJobStatus)
    → holds_lease row.status ≡ holds_lease status
    → Parts row
    → fits_lease (holds_lease status) row.lease_worker_id row.lease_expires_at row.lease_token_hash
      ≡ true
same_lease row status same p =
    subst (λ b. fits_lease b row.lease_worker_id row.lease_expires_at row.lease_token_hash ≡ true)
      same p.lease

longer :
    (row : JobRow) (expires_at : ℕ)
    → holds_lease row.status ≡ true
    → Parts row
    → fits_lease (holds_lease row.status) row.lease_worker_id (some expires_at) row.lease_token_hash
      ≡ true
unfolding fits_lease
longer row expires_at held p = ground (arith, p.lease)

settled-IsValid :
    (row : JobRow) (status : DurableJobStatus) (now : ℕ)
    → holds_lease status ≡ false
    → IsValid row
    → IsValid (settled status now row)
settled-IsValid row status now free v =
    let p = parts row v.intact in
    record {
      intact = whole (settled status now row) (record {
        result = p.result;
        identity = p.identity;
        counts = p.counts;
        lease = no_lease status free;
      });
      counted = v.counted;
    }

Change-IsValid : (row row' : JobRow) → IsValid row → Change row row' → IsValid row'
Change-IsValid row _ v (claims worker_id token_hash expires_at now from left digest) =
    let p = parts row v.intact in
    record {
      intact = whole _ (record {
        result = p.result;
        identity = p.identity;
        counts = claimed_counts row v left;
        lease = leased worker_id token_hash expires_at digest;
      });
      counted = ap (λ n. n + 1) v.counted;
    }
Change-IsValid row _ v (blocks now from) = settled-IsValid row blocked now refl v
Change-IsValid row _ v (cancels now from) = settled-IsValid row cancelled now refl v
Change-IsValid row _ v (succeeds result now from good) =
    let p = parts row v.intact in
    record {
      intact = whole _ (record {
        result = unfold fits_result in good;
        identity = p.identity;
        counts = p.counts;
        lease = no_lease succeeded refl;
      });
      counted = v.counted;
    }
Change-IsValid row _ v (retries available_at now from left) =
    let p = parts row v.intact in
    record {
      intact = whole _ (record {
        result = p.result;
        identity = p.identity;
        counts = p.counts;
        lease = no_lease retry_wait refl;
      });
      counted = v.counted;
    }
Change-IsValid row _ v (drops now from) =
    let p = parts row v.intact in
    record {
      intact = whole _ (record {
        result = p.result;
        identity = p.identity;
        counts = p.counts;
        lease = same_lease row cancelled (ground arith) p;
      });
      counted = v.counted;
    }
Change-IsValid row _ v (asks now from) =
    let p = parts row v.intact in
    record {
      intact = whole _ (record {
        result = p.result;
        identity = p.identity;
        counts = p.counts;
        lease = same_lease row cancelling (ground arith) p;
      });
      counted = v.counted;
    }
Change-IsValid row _ v (extends expires_at now from) =
    let p = parts row v.intact in
    record {
      intact = whole _ (record {
        result = p.result;
        identity = p.identity;
        counts = p.counts;
        lease = longer row expires_at (ground arith) p;
      });
      counted = v.counted;
    }

pub Moves-IsValid :
    (rows rows' : List JobRow) → All IsValid rows → Moves rows rows' → All IsValid rows'
Moves-IsValid rows _ all still = all
Moves-IsValid rows _ all (changed mid id f row m found change) =
    All-update_job IsValid id f mid (Moves-IsValid rows mid all m) (λ r here valid.
      Change-IsValid r (f r) valid
        (subst (λ x. Change x (f x)) (ground (arith, found, here)) change))
Moves-IsValid rows _ all (inserted mid row m fresh valid) =
    All-append IsValid mid (row ∷ []) (Moves-IsValid rows mid all m) (valid, tt)
