-- ===== src/Upload/Store/Retained.antt =====
-- What the ledger says of files to retention (retention_snapshot, retention_still_authorized), and its
-- aggregate view (snapshot).
use autopiercam.Base.{
  ℕ, Bool, false, not, ◌&&◌, Option, none, some, List, [], ◌∷◌, ◌++◌, map, ◌==◌, if◌then◌else◌, leb,
  min,
}
use autopiercam.Base.Bytes.{Bytes, bytes_eq, any}
use autopiercam.Upload.Store.Errors.{Result, ok, ensure, ◌>>=◌, ◌>>◌, corrupt_integer, i64_max}
use autopiercam.Upload.Store.States.{completed, state_eq}
use autopiercam.Upload.Store.Platform.{Platform}
use autopiercam.Upload.Store.Identity.{validate_preactivation_artifact_path}
use autopiercam.Upload.Store.Ledger.{UploadJob, UploadStateCounts, Ledger}
use autopiercam.Upload.Store.Claims.{UploadStore, due_at, is_claimable}
use autopiercam.Upload.Store.Operator.{UploadListItem}
use autopiercam.Upload.Store.Listing.{collect_list_items}
use autopiercam.Upload.Store.Recording.{is_preactivation_artifact}

pub data UploadRetentionBinding : Type 0 where
  completed_job : (job_id job_revision file_size : ℕ) → Bytes → UploadRetentionBinding
  preactivated : UploadRetentionBinding
  protected : UploadRetentionBinding

pub record UploadRetentionEntry : Type 0 where
  pub artifact_path : Bytes
  pub binding : UploadRetentionBinding

unfoldable pub job_entry : UploadJob → UploadRetentionEntry
job_entry job = record {
  artifact_path = job.artifact_path;
  binding =
      if state_eq job.state completed
      then completed_job job.id job.job_revision job.file_size job.sha256
      else protected;
}

-- The second loop of `retention_snapshot`: paths that no entry before has.
unfoldable pub preactivation_entries :
    Platform → Bytes → List Bytes → List Bytes → Result (List UploadRetentionEntry)
preactivation_entries platform capture_root recorded [] = ok []
preactivation_entries platform capture_root recorded (stored ∷ paths) = do
  path ← validate_preactivation_artifact_path platform stored capture_root
  rest ← preactivation_entries platform capture_root (path ∷ recorded) paths
  let entry : UploadRetentionEntry = record { artifact_path = path; binding = preactivated }
  ok (if any (λ (known : Bytes). bytes_eq known path) recorded then rest else entry ∷ rest)

-- The entries, before they are sorted by their paths.
unfoldable pub retention_snapshot :
    Platform → UploadStore → Ledger → Result (List UploadRetentionEntry)
retention_snapshot platform store l = do
  items ← collect_list_items platform store l.jobs
  let jobs = map (λ (item : UploadListItem). item.job) items
  older ←
      preactivation_entries platform store.capture_root
        (map (λ (job : UploadJob). job.artifact_path) jobs) l.preactivation
  ok (map job_entry jobs ++ older)

abbrev pub is_acknowledged : (job_id job_revision file_size : ℕ) → Bytes → Bytes → UploadJob → Bool
is_acknowledged job_id job_revision file_size digest path row =
    row.id == job_id
    && bytes_eq row.artifact_path path
    && state_eq row.state completed
    && row.job_revision == job_revision
    && row.file_size == file_size
    && bytes_eq row.sha256 digest

unfoldable pub binding_still_holds : Bytes → UploadRetentionBinding → Ledger → Result Bool
binding_still_holds path (completed_job id revision size digest) l = do
  ensure (leb revision i64_max) corrupt_integer
  ensure (leb size i64_max) corrupt_integer
  ok (any (is_acknowledged id revision size digest path) l.jobs)
binding_still_holds path preactivated l =
    ok (
      is_preactivation_artifact path l && not (any (λ row. bytes_eq row.artifact_path path) l.jobs))
binding_still_holds path protected l = ok false

unfoldable pub retention_still_authorized : UploadRetentionEntry → Ledger → Result Bool
retention_still_authorized entry l = binding_still_holds entry.artifact_path entry.binding l

pub record UploadStoreSnapshot : Type 0 where
  pub counts : UploadStateCounts
  pub last_success_at_unix_ms : Option ℕ
  pub last_failure_at_unix_ms : Option ℕ
  pub last_error : Option Bytes
  pub next_due_at_unix_ms : Option ℕ

-- `SELECT MIN(COALESCE(...)) ... WHERE state IN ('pending', 'retrying')`
abbrev pub earlier : ℕ → Option ℕ → Option ℕ
earlier t none = some t
earlier t (some u) = some (min t u)

unfoldable pub next_due : List UploadJob → Option ℕ
next_due [] = none
next_due (job ∷ jobs) =
    let rest = next_due jobs in if is_claimable job then earlier (due_at job) rest else rest

unfoldable pub snapshot : Ledger → UploadStoreSnapshot
snapshot l = record {
  counts = l.metadata.counts;
  last_success_at_unix_ms = l.metadata.last_success_at_ms;
  last_failure_at_unix_ms = l.metadata.last_failure_at_ms;
  last_error = l.metadata.last_error;
  next_due_at_unix_ms = next_due l.jobs;
}
