-- ===== src/Upload/Store/Operator.antt =====
-- requeue_permanently_failed, by which an operator sends a failed job again, and what opening a ledger
-- does: rotate_authorization_if_drained and recover_interrupted_jobs.
use autopiercam.Base.{
  ℕ, ◌+◌, Bool, true, false, not, ◌&&◌, ◌||◌, Option, none, some, List, [], ◌∷◌, ◌==◌, leb, length,
  is_some,
}
use autopiercam.Base.Bytes.{Bytes, bytes_eq, any, find_first}
use autopiercam.Upload.Store.Errors.{
  artifact_path_not_utf8, Result, ok, ensure, ok_or, ◌>>=◌, ◌>>◌, sqlite, unix_ms_to_database,
  i64_max, requeue_ledger_mismatch, requeue_stale_job_revision, requeue_job_not_found,
  requeue_wrong_state, requeue_delivery_binding_mismatch, corrupt_artifact_identity,
  job_revision_overflow, requeue_count_overflow, authorization_identity_mismatch, io,
}
use autopiercam.Upload.Store.States.{pending, in_progress, retrying, permanently_failed, state_eq}
use autopiercam.Upload.Store.Platform.{Platform, Disk, FileType, file, symlink, other}
use autopiercam.Upload.Store.FrameNames.{is_generated_frame_filename}
use autopiercam.Upload.Store.Identity.{validate_stored_identity}
use autopiercam.Upload.Store.Ledger.{UploadJob, UploadMetadata, Ledger, update_jobs}
use autopiercam.Upload.Store.Claims.{UploadStore, job_id_from_database}
use autopiercam.Upload.Store.Artifacts.{open_verified_requeue_artifact}
use autopiercam.Upload.Store.Recording.{DirEntry, Listing, recorded_job, is_preactivation_artifact}

pub record UploadListItem : Type 0 where
  pub job : UploadJob
  pub delivery_binding_is_current : Bool

pub record RequeueUploadRequest : Type 0 where
  pub ledger_id : Bytes
  pub job_id : ℕ
  pub expected_job_revision : ℕ

pub record RequeueUploadResult : Type 0 where
  pub ledger_revision : ℕ
  pub job : UploadListItem

abbrev pub find_job : ℕ → List UploadJob → Option UploadJob
find_job id jobs = find_first (λ row. row.id == id) jobs

module _ (platform : Platform) (store : UploadStore) where
  open store use {capture_root, delivery_binding}

  -- `RawUploadJob::into_list_item`: the item has the columns of the row, which is validated.
  unfoldable pub into_list_item : UploadJob → Result UploadListItem
  into_list_item raw = do
    job_id ← job_id_from_database raw.id
    ensure (length raw.sha256 == 32) (corrupt_artifact_identity job_id)
    ensure (length raw.delivery_binding == 32) (corrupt_artifact_identity job_id)
    path ←
        validate_stored_identity platform job_id raw.artifact_path raw.filename raw.idempotency_key
          raw.sha256 capture_root
    ok (record {
      job = record raw { artifact_path = path };
      delivery_binding_is_current = bytes_eq raw.delivery_binding delivery_binding;
    })

module _ (platform : Platform) (disk : Disk) (store : UploadStore) where
  open store use {capture_root, delivery_binding, ledger_id}

  abbrev pub requeued_row : ℕ → UploadJob → UploadJob
  requeued_row requeued_at job = record job {
    state = pending;
    next_attempt_at_ms = none;
    updated_at_ms = requeued_at;
    job_revision = job.job_revision + 1;
    requeue_count = job.requeue_count + 1;
    last_requeued_at_ms = some requeued_at;
  }

  abbrev pub is_requeued : RequeueUploadRequest → UploadMetadata → UploadJob → Bool
  is_requeued request m row =
      row.id == request.job_id
      && state_eq row.state permanently_failed
      && row.job_revision == request.expected_job_revision
      && bytes_eq row.delivery_binding delivery_binding
      && bytes_eq m.ledger_id ledger_id

  -- The checks of the row that the request names, up to the check of its file.
  unfoldable pub check_requeue : RequeueUploadRequest → UploadJob → Result (Unit {0})
  check_requeue request raw = do
    ensure (state_eq raw.state permanently_failed) requeue_wrong_state
    ensure (raw.job_revision == request.expected_job_revision) requeue_stale_job_revision
    ensure (length raw.delivery_binding == 32) (corrupt_artifact_identity request.job_id)
    ensure (bytes_eq raw.delivery_binding delivery_binding) requeue_delivery_binding_mismatch
    ensure (length raw.sha256 == 32) (corrupt_artifact_identity request.job_id)
    path ←
        validate_stored_identity platform request.job_id raw.artifact_path raw.filename
          raw.idempotency_key raw.sha256 capture_root
    open_verified_requeue_artifact platform disk path raw.file_size raw.sha256 >>= (λ _. ok tt)
    ensure (leb (raw.job_revision + 1) i64_max) (job_revision_overflow request.job_id)
    ensure (leb (raw.requeue_count + 1) i64_max) (requeue_count_overflow request.job_id)

  unfoldable pub requeue_permanently_failed :
      RequeueUploadRequest → ℕ → Ledger → Result (Ledger × RequeueUploadResult)
  requeue_permanently_failed request requeued_at_unix_ms l = do
    ensure (bytes_eq request.ledger_id ledger_id) requeue_ledger_mismatch
    requeued_at ← unix_ms_to_database requeued_at_unix_ms
    ensure (leb request.expected_job_revision i64_max) requeue_stale_job_revision
    raw ← ok_or (find_job request.job_id l.jobs) requeue_job_not_found
    check_requeue request raw
    (l', changed) ← update_jobs (is_requeued request l.metadata) (requeued_row requeued_at) l
    ensure (changed == 1) requeue_stale_job_revision
    updated ← ok_or (find_job request.job_id l'.jobs) sqlite
    item ← into_list_item platform store updated
    ok (l', record { ledger_revision = l'.metadata.ledger_revision; job = item })

abbrev pub recovered_row : UploadJob → UploadJob
recovered_row job = record job {
  state = pending;
  next_attempt_at_ms = none;
  job_revision = job.job_revision + 1;
}

-- `recover_interrupted_jobs`
unfoldable pub recover_interrupted_jobs : Ledger → Result Ledger
recover_interrupted_jobs l = do
  (l', changed) ← update_jobs (λ row. state_eq row.state in_progress) recovered_row l
  ok l'

abbrev pub is_live : UploadJob → Bool
is_live job =
    state_eq job.state pending || state_eq job.state in_progress || state_eq job.state retrying

abbrev is_regular : FileType → Bool
is_regular file = true
is_regular symlink = false
is_regular other = false

-- Whether an entry of the directory could still be recorded.
unfoldable pub is_unrecorded : DirEntry → Ledger → Result Bool
is_unrecorded entry l = elim entry.file_name [
  | none ↦ ok false
  | some name ↦ elim (is_generated_frame_filename name) [
    | false ↦ ok false
    | true ↦ do
      path ← ok_or entry.path artifact_path_not_utf8
      elim (is_preactivation_artifact path l || is_some (recorded_job path l.jobs)) [
        | true ↦ ok false
        | false ↦ do t ← ok_or entry.file_type io; ok (is_regular t)
      ]
  ]
]

-- The loop ends at the first such entry, and at the first error.
unfoldable pub has_unrecorded_reconcilable_artifact : List (Option DirEntry) → Ledger → Result Bool
has_unrecorded_reconcilable_artifact [] l = ok false
has_unrecorded_reconcilable_artifact (read ∷ entries) l = do
  entry ← ok_or read io
  found ← is_unrecorded entry l
  elim found [ true ↦ ok true | false ↦ has_unrecorded_reconcilable_artifact entries l ]

-- The test `has_live_work || has_unrecorded_reconcilable_artifact(...)?`.
unfoldable pub is_drained : Listing → Ledger → Result Bool
is_drained entries l = elim (any is_live l.jobs) [
  | true ↦ ok false
  | false ↦ do
    listed ← ok_or entries io
    found ← has_unrecorded_reconcilable_artifact listed l
    ok (not found)
]

-- `rotate_authorization_if_drained`
unfoldable pub rotate_authorization_if_drained : Listing → Bytes → Ledger → Result Ledger
rotate_authorization_if_drained entries fingerprint l =
    elim (bytes_eq l.metadata.authorization_sha256 fingerprint) [
      | true ↦ ok l
      | false ↦ do
        drained ← is_drained entries l
        ensure drained authorization_identity_mismatch
        ensure (leb (l.metadata.ledger_revision + 1) i64_max) sqlite
        ok (record l {
          metadata = record (l.metadata) {
            authorization_sha256 = fingerprint;
            ledger_revision = l.metadata.ledger_revision + 1;
          };
        })
    ]
