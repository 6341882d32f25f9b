-- ===== src/Upload/Store/Claims.antt =====
-- The methods of UploadStore by which the worker takes a job and settles it: claim_due,
-- release_claim and the three mark methods. Each returns the ledger that it leaves, if it succeeds;
-- if it fails, its transaction or its statement is undone.
pub mod Due
pub mod Taking
use autopiercam.Base.{
  ℕ, ◌+◌, Bool, true, false, not, ◌&&◌, ◌||◌, Option, none, some, List, [], ◌∷◌, ◌==◌,
  if◌then◌else◌, leb, ltb, length, unwrap_or,
}
use autopiercam.Base.Bytes.{Bytes, bytes_eq}
use autopiercam.Upload.Store.Errors.{
  Result, ok, err, ensure, ◌>>=◌, ◌>>◌, corrupt_artifact_identity, corrupt_integer,
  attempt_count_overflow, invalid_transition, upload_job_delivery_binding_mismatch, i64_max,
  unix_ms_to_database,
}
use autopiercam.Upload.Store.States.{
  UploadState, pending, in_progress, retrying, completed, permanently_failed, state_eq,
}
use autopiercam.Upload.Store.Platform.{Platform}
use autopiercam.Upload.Store.Identity.{validate_stored_identity}
use autopiercam.Upload.Store.Ledger.{UploadJob, Ledger, update_jobs}

-- What the store knows beside its connection.
pub record UploadStore : Type 0 where
  pub capture_root : Bytes
  pub ledger_id : Bytes
  pub delivery_binding : Bytes

pub record ClaimedUpload : Type 0 where
  pub job_id : ℕ
  pub artifact_path : Bytes
  pub filename : Bytes
  pub idempotency_key : Bytes
  pub file_size : ℕ
  pub sha256 : Bytes
  pub attempt_count : ℕ

unfoldable pub job_id_from_database : ℕ → Result ℕ
job_id_from_database value = if ltb 0 value then ok value else err corrupt_integer

-- `COALESCE(next_attempt_at_ms, created_at_ms)`
abbrev pub due_at : UploadJob → ℕ
due_at job = unwrap_or job.next_attempt_at_ms job.created_at_ms

abbrev pub is_claimable : UploadJob → Bool
is_claimable job = state_eq job.state pending || state_eq job.state retrying

abbrev pub is_due : ℕ → UploadJob → Bool
is_due now job = is_claimable job && leb (due_at job) now

-- `ORDER BY COALESCE(next_attempt_at_ms, created_at_ms), id`
abbrev pub is_sooner : UploadJob → UploadJob → Bool
is_sooner a b = ltb (due_at a) (due_at b) || (due_at a == due_at b && leb a.id b.id)

abbrev pub sooner_of : UploadJob → Option UploadJob → UploadJob
sooner_of job none = job
sooner_of job (some other) = if is_sooner job other then job else other

-- The query of `claim_due`.
unfoldable pub first_due : ℕ → List UploadJob → Option UploadJob
first_due now [] = none
first_due now (job ∷ jobs) =
    let rest = first_due now jobs in if is_due now job then some (sooner_of job rest) else rest

module _ (platform : Platform) (store : UploadStore) where
  open store use {capture_root, delivery_binding}

  -- `RawClaim::into_claim`
  unfoldable pub into_claim : ℕ → UploadJob → Result ClaimedUpload
  into_claim job_id raw = do
    ensure (length raw.sha256 == 32) (corrupt_artifact_identity job_id)
    ensure (length raw.delivery_binding == 32) (corrupt_artifact_identity job_id)
    ensure (bytes_eq raw.delivery_binding delivery_binding)
        (upload_job_delivery_binding_mismatch job_id)
    path ←
        validate_stored_identity platform job_id raw.artifact_path raw.filename raw.idempotency_key
          raw.sha256 capture_root
    ok (record {
      job_id = job_id;
      artifact_path = path;
      filename = raw.filename;
      idempotency_key = raw.idempotency_key;
      file_size = raw.file_size;
      sha256 = raw.sha256;
      attempt_count = raw.attempt_count;
    })

  abbrev pub claimed_row : ℕ → ℕ → UploadJob → UploadJob
  claimed_row now attempt_count job = record job {
    state = in_progress;
    attempt_count = attempt_count;
    next_attempt_at_ms = none;
    updated_at_ms = now;
    job_revision = job.job_revision + 1;
  }

  unfoldable pub claim_candidate : ℕ → UploadJob → Ledger → Result (Ledger × Option ClaimedUpload)
  claim_candidate now candidate l = do
    job_id ← job_id_from_database candidate.id
    claim ← into_claim job_id candidate
    ensure (leb (claim.attempt_count + 1) i64_max) (attempt_count_overflow job_id)
    (l', changed) ←
        update_jobs (λ row. row.id == job_id && is_due now row)
          (claimed_row now (claim.attempt_count + 1)) l
    ensure (changed == 1) (invalid_transition job_id)
    ok (l', some (record claim { attempt_count = claim.attempt_count + 1 }))

  unfoldable pub claim_due : ℕ → Ledger → Result (Ledger × Option ClaimedUpload)
  claim_due now_unix_ms l = do
    now ← unix_ms_to_database now_unix_ms
    elim (first_due now l.jobs) [
      | none ↦ ok (l, none)
      | some candidate ↦ claim_candidate now candidate l
    ]

-- `attempt_count_to_database`
unfoldable pub attempt_count_to_database : ClaimedUpload → Result ℕ
attempt_count_to_database claim =
    if leb claim.attempt_count i64_max
    then ok claim.attempt_count
    else err (attempt_count_overflow claim.job_id)

-- The condition of the four updates below, by which a stale claim changes no row.
abbrev pub is_claimed : ℕ → ℕ → UploadJob → Bool
is_claimed job_id attempt_count row =
    row.id == job_id && state_eq row.state in_progress && row.attempt_count == attempt_count

-- The update and `ensure_transition`.
unfoldable pub settle : (UploadJob → UploadJob) → ClaimedUpload → Ledger → Result Ledger
settle set claim l = do
  attempt_count ← attempt_count_to_database claim
  (l', changed) ← update_jobs (is_claimed claim.job_id attempt_count) set l
  ensure (changed == 1) (invalid_transition claim.job_id)
  ok l'

abbrev pub released_row : ℕ → UploadJob → UploadJob
released_row now job = record job {
  state = pending;
  next_attempt_at_ms = none;
  updated_at_ms = now;
  job_revision = job.job_revision + 1;
}

unfoldable pub release_claim : ClaimedUpload → ℕ → Ledger → Result Ledger
release_claim claim now_unix_ms l = do
  now ← unix_ms_to_database now_unix_ms
  settle (released_row now) claim l

abbrev pub retrying_row : ℕ → ℕ → Option ℕ → Option Bytes → UploadJob → UploadJob
retrying_row failed_at next_attempt_at http_status error job = record job {
  state = retrying;
  next_attempt_at_ms = some next_attempt_at;
  last_http_status = http_status;
  last_error = error;
  updated_at_ms = failed_at;
  last_failure_at_ms = some failed_at;
  job_revision = job.job_revision + 1;
}

unfoldable pub mark_retrying :
    ClaimedUpload
    → (failed_at_unix_ms next_attempt_at_unix_ms : ℕ)
    → (http_status : Option ℕ) (error : Option Bytes) → Ledger
    → Result Ledger
mark_retrying claim failed_at_unix_ms next_attempt_at_unix_ms http_status error l = do
  failed_at ← unix_ms_to_database failed_at_unix_ms
  next_attempt_at ← unix_ms_to_database next_attempt_at_unix_ms
  settle (retrying_row failed_at next_attempt_at http_status error) claim l

abbrev pub completed_row : ℕ → ℕ → UploadJob → UploadJob
completed_row completed_at http_status job = record job {
  state = completed;
  next_attempt_at_ms = none;
  last_http_status = some http_status;
  updated_at_ms = completed_at;
  completed_at_ms = some completed_at;
  job_revision = job.job_revision + 1;
}

unfoldable pub mark_completed :
    ClaimedUpload → (completed_at_unix_ms http_status : ℕ) → Ledger → Result Ledger
mark_completed claim completed_at_unix_ms http_status l = do
  completed_at ← unix_ms_to_database completed_at_unix_ms
  settle (completed_row completed_at http_status) claim l

abbrev pub failed_row : ℕ → Option ℕ → Option Bytes → UploadJob → UploadJob
failed_row failed_at http_status error job = record job {
  state = permanently_failed;
  next_attempt_at_ms = none;
  last_http_status = http_status;
  last_error = error;
  updated_at_ms = failed_at;
  last_failure_at_ms = some failed_at;
  job_revision = job.job_revision + 1;
}

unfoldable pub mark_permanently_failed :
    ClaimedUpload
    → (failed_at_unix_ms : ℕ) (http_status : Option ℕ) (error : Option Bytes) → Ledger
    → Result Ledger
mark_permanently_failed claim failed_at_unix_ms http_status error l = do
  failed_at ← unix_ms_to_database failed_at_unix_ms
  settle (failed_row failed_at http_status error) claim l
