-- ===== src/Upload/Store/Recording.antt =====
-- record_artifact, and reconcile_capture_directory, which records what a crash left out.
use autopiercam.Base.{
  ℕ, ◌+◌, Bool, true, false, ◌&&◌, ◌||◌, Option, none, some, List, [], ◌∷◌, map, ◌==◌,
  if◌then◌else◌, leb, is_some, u64_max,
}
use autopiercam.Base.Bytes.{Bytes, bytes_eq, any, find_first}
use autopiercam.Upload.Store.Errors.{
  Result, ok, err, ensure, ok_or, ◌>>=◌, ◌>>◌, sqlite, artifact_size_out_of_range,
  artifact_identity_conflict, artifact_path_not_utf8, unix_ms_to_database, i64_max,
  reconcile_count_overflow, io,
}
use autopiercam.Upload.Store.States.{pending}
use autopiercam.Upload.Store.Platform.{Platform, Disk, FileType, file, symlink, other}
use autopiercam.Upload.Store.FrameNames.{is_generated_frame_filename}
use autopiercam.Upload.Store.Ledger.{UploadJob, Ledger, insert_job}
use autopiercam.Upload.Store.Claims.{UploadStore, job_id_from_database}
use autopiercam.Upload.Store.Artifacts.{ArtifactValues, read_artifact}

pub data RecordDisposition : Type 0 where
  inserted : RecordDisposition
  already_recorded : RecordDisposition

pub record RecordArtifactResult : Type 0 where
  pub job_id : ℕ
  pub disposition : RecordDisposition

-- `SELECT ... FROM upload_jobs WHERE artifact_path = ?1`
abbrev pub recorded_job : Bytes → List UploadJob → Option UploadJob
recorded_job path jobs = find_first (λ row. bytes_eq row.artifact_path path) jobs

-- `recorded_job_id`
unfoldable pub recorded_job_id : Bytes → Ledger → Result (Option ℕ)
recorded_job_id path l = elim (recorded_job path l.jobs) [
  | none ↦ ok none
  | some row ↦ do id ← job_id_from_database row.id; ok (some id)
]

unfoldable pub same_identity : UploadJob → ArtifactValues → Bool
same_identity existing values =
    bytes_eq existing.filename values.filename
    && bytes_eq existing.idempotency_key values.idempotency_key
    && existing.file_size == values.file_size
    && bytes_eq existing.sha256 values.sha256

module _ (platform : Platform) (disk : Disk) (store : UploadStore) where
  open store use {capture_root, delivery_binding}

  -- The row that INSERT proposes.
  unfoldable pub new_job : ℕ → ArtifactValues → ℕ → UploadJob
  new_job id values recorded_at = record {
    id = id;
    artifact_path = values.artifact_path;
    filename = values.filename;
    idempotency_key = values.idempotency_key;
    file_size = values.file_size;
    sha256 = values.sha256;
    delivery_binding = delivery_binding;
    state = pending;
    attempt_count = 0;
    next_attempt_at_ms = none;
    last_http_status = none;
    last_error = none;
    created_at_ms = recorded_at;
    updated_at_ms = recorded_at;
    completed_at_ms = none;
    last_failure_at_ms = none;
    job_revision = 1;
    requeue_count = 0;
    last_requeued_at_ms = none;
  }

  -- `record_artifact`, once the file has been read. The INSERT stands if what follows fails, but that
  -- takes an id of zero, which SQLite gives to no row.
  unfoldable pub record_values :
      ArtifactValues → ℕ → Ledger → Result (Ledger × RecordArtifactResult)
  record_values values recorded_at l = do
    ensure (leb values.file_size i64_max) (artifact_size_out_of_range values.file_size)
    id ← ok_or (platform.new_rowid (map (λ (row : UploadJob). row.id) l.jobs)) sqlite
    (added, l') ← insert_job (new_job id values recorded_at) l
    existing ← ok_or (recorded_job values.artifact_path l'.jobs) sqlite
    ensure (added || same_identity existing values) artifact_identity_conflict
    job_id ← job_id_from_database existing.id
    ok (l', record { job_id = job_id; disposition = if added then inserted else already_recorded })

  unfoldable pub record_artifact : Bytes → ℕ → Ledger → Result (Ledger × RecordArtifactResult)
  record_artifact path recorded_at_unix_ms l = do
    values ← read_artifact platform disk path capture_root
    recorded_at ← unix_ms_to_database recorded_at_unix_ms
    record_values values recorded_at l

-- What the directory shows of an entry: its name and its path, unless they are not UTF-8, and its type,
-- unless that cannot be read.
pub record DirEntry : Type 0 where
  pub file_name : Option Bytes
  pub path : Option Bytes
  pub file_type : Option FileType

-- What `read_dir` gives: `none` stands for a directory, or an entry of it, that cannot be read.
abbrev pub Listing : Type 0
Listing = Option (List (Option DirEntry))

pub record ReconcileResult : Type 0 where
  pub examined : ℕ
  pub eligible : ℕ
  pub inserted : ℕ
  pub already_recorded : ℕ

abbrev pub no_results : ReconcileResult
no_results = record { examined = 0; eligible = 0; inserted = 0; already_recorded = 0 }

-- `checked_reconcile_increment`
unfoldable pub checked_reconcile_increment : ℕ → Result ℕ
checked_reconcile_increment value =
    if leb (value + 1) u64_max then ok (value + 1) else err reconcile_count_overflow

unfoldable pub is_preactivation_artifact : Bytes → Ledger → Bool
is_preactivation_artifact path l = any (λ (known : Bytes). bytes_eq known path) l.preactivation

abbrev is_regular : FileType → Bool
is_regular file = true
is_regular symlink = false
is_regular other = false

-- One round of the first loop, after the name was found to be generated and the path not to be older
-- than the ledger: the result so far, and the path if it is to be recorded.
unfoldable pub examine_recordable :
    Bytes → Option FileType → Ledger → ReconcileResult → Result (ReconcileResult × Option Bytes)
examine_recordable path file_type l r = do
  recorded ← recorded_job_id path l
  elim (is_some recorded) [
    | true ↦ do
      e ← checked_reconcile_increment r.eligible
      a ← checked_reconcile_increment r.already_recorded
      ok (record r { eligible = e; already_recorded = a }, none)
    | false ↦ do
      t ← ok_or file_type io
      elim (is_regular t) [
        | false ↦ ok (r, none)
        | true ↦ do
          e ← checked_reconcile_increment r.eligible
          ok (record r { eligible = e }, some path)
      ]
  ]

unfoldable pub examine_named :
    DirEntry → Bytes → Ledger → ReconcileResult → Result (ReconcileResult × Option Bytes)
examine_named entry name l r = elim (is_generated_frame_filename name) [
  | false ↦ ok (r, none)
  | true ↦ do
    path ← ok_or entry.path artifact_path_not_utf8
    elim (is_preactivation_artifact path l) [
      | true ↦ ok (r, none)
      | false ↦ examine_recordable path entry.file_type l r
    ]
]

unfoldable pub examine_entry :
    Option DirEntry → Ledger → ReconcileResult → Result (ReconcileResult × Option Bytes)
examine_entry read l r = do
  entry ← ok_or read io
  n ← checked_reconcile_increment r.examined
  let counted : ReconcileResult = record r { examined = n }
  elim entry.file_name [
    | none ↦ ok (counted, none)
    | some name ↦ examine_named entry name l counted
  ]

abbrev pub with_path : Option Bytes → List Bytes → List Bytes
with_path none paths = paths
with_path (some path) paths = path ∷ paths

-- The first loop: the paths to record.
unfoldable pub examine_entries :
    List (Option DirEntry) → Ledger → ReconcileResult → Result (ReconcileResult × List Bytes)
examine_entries [] l r = ok (r, [])
examine_entries (entry ∷ entries) l r = do
  (r', wanted) ← examine_entry entry l r
  (r'', paths) ← examine_entries entries l r'
  ok (r'', with_path wanted paths)

abbrev pub count_disposition : RecordDisposition → ReconcileResult → Result ReconcileResult
count_disposition RecordDisposition.inserted r = do
  n ← checked_reconcile_increment r.inserted
  ok (record r { inserted = n })
count_disposition RecordDisposition.already_recorded r = do
  n ← checked_reconcile_increment r.already_recorded
  ok (record r { already_recorded = n })

-- `reconcile_capture_directory` up to its second loop.
unfoldable pub examine_directory : Listing → ℕ → Ledger → Result (ReconcileResult × List Bytes)
examine_directory entries recorded_at_unix_ms l = do
  unix_ms_to_database recorded_at_unix_ms >>= (λ _. ok tt)
  listed ← ok_or entries io
  examine_entries listed l no_results

module _ (platform : Platform) (disk : Disk) (store : UploadStore) where
  -- The second loop. A row that was recorded stays, also if a later path fails.
  unfoldable pub record_paths :
      List Bytes → ℕ → Ledger → ReconcileResult → Ledger × Result ReconcileResult
  record_paths [] recorded_at l r = (l, ok r)
  record_paths (path ∷ paths) recorded_at l r =
      elim (record_artifact platform disk store path recorded_at l) [
        | err e ↦ (l, err e)
        | ok (l', recorded) ↦ elim (count_disposition recorded.disposition r) [
          | err e ↦ (l', err e)
          | ok r' ↦ record_paths paths recorded_at l' r'
        ]
      ]

  -- `reconcile_capture_directory`. `sort` is the order of paths.
  unfoldable pub reconcile_capture_directory :
      (List Bytes → List Bytes) → Listing → ℕ → Ledger → Ledger × Result ReconcileResult
  reconcile_capture_directory sort entries recorded_at_unix_ms l =
      elim (examine_directory entries recorded_at_unix_ms l) [
        | err e ↦ (l, err e)
        | ok (r, paths) ↦ record_paths (sort paths) recorded_at_unix_ms l r
      ]
