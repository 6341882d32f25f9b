-- ===== src/Upload/Store/Ledger.antt =====
-- The tables upload_metadata and upload_jobs with their CHECK constraints and triggers, and the two
-- statements by which the store changes rows: INSERT ... ON CONFLICT(artifact_path) DO NOTHING and
-- UPDATE ... WHERE. A statement that fails leaves no trace, so it returns no ledger then. SQLite's
-- integers are numbers from 0 to `i64_max`: the CHECKs refuse what is negative or too large.
pub mod Counts
pub mod Growth
pub mod Rows
pub mod Tallies
use autopiercam.Base.{
  ℕ, ◌+◌, ◌-◌, ◌*◌, ◌≡◌, refl, Bool, true, false, not, ◌&&◌, ◌||◌, Option, none, some, List, [],
  ◌∷◌, ◌++◌, map, ◌==◌, if◌then◌else◌, leb, ltb, is_some, is_some_and, is_none_or, unwrap_or,
  length, arith,
}
use autopiercam.Base.Bytes.{Bytes, bytes_eq, any}
use autopiercam.Upload.Store.Errors.{
  Result, ok, err, ◌>>=◌, ◌>>◌, ensure, UploadStoreError, sqlite, i64_max,
}
use autopiercam.Upload.Store.States.{
  UploadState, pending, in_progress, retrying, completed, permanently_failed, state_eq,
}

pub record UploadJob : Type 0 where
  pub id : ℕ
  pub artifact_path : Bytes
  pub filename : Bytes
  pub idempotency_key : Bytes
  pub file_size : ℕ
  pub sha256 : Bytes
  pub delivery_binding : Bytes
  pub state : UploadState
  pub attempt_count : ℕ
  pub next_attempt_at_ms : Option ℕ
  pub last_http_status : Option ℕ
  pub last_error : Option Bytes
  pub created_at_ms : ℕ
  pub updated_at_ms : ℕ
  pub completed_at_ms : Option ℕ
  pub last_failure_at_ms : Option ℕ
  pub job_revision : ℕ
  pub requeue_count : ℕ
  pub last_requeued_at_ms : Option ℕ

pub record UploadStateCounts : Type 0 where
  pub pending : ℕ
  pub in_progress : ℕ
  pub retrying : ℕ
  pub completed : ℕ
  pub permanently_failed : ℕ

pub record UploadMetadata : Type 0 where
  pub ledger_id : Bytes
  pub ledger_revision : ℕ
  pub capture_root : Bytes
  pub destination : Bytes
  pub authorization_sha256 : Bytes
  pub counts : UploadStateCounts
  pub last_success_at_ms : Option ℕ
  pub last_failure_at_ms : Option ℕ
  pub last_error : Option Bytes

-- Rows stand in the order in which they were inserted.
pub record Ledger : Type 0 where
  pub metadata : UploadMetadata
  pub jobs : List UploadJob
  pub preactivation : List Bytes

-- The CHECK constraints of upload_jobs.
abbrev optional_integer : Option ℕ → Bool
optional_integer o = is_none_or o (λ n. leb n i64_max)

abbrev agree : Bool → Bool → Bool
agree a b = if a then b else not b

unfoldable pub job_checks : UploadJob → Bool
job_checks job =
    leb job.file_size i64_max
    && length job.sha256 == 32
    && length job.delivery_binding == 32
    && leb job.attempt_count i64_max
    && optional_integer job.next_attempt_at_ms
    && is_none_or job.last_http_status (λ status. leb 100 status && leb status 599)
    && leb job.created_at_ms i64_max
    && leb job.updated_at_ms i64_max
    && optional_integer job.completed_at_ms
    && optional_integer job.last_failure_at_ms
    && leb 1 job.job_revision
    && leb job.job_revision i64_max
    && leb job.requeue_count i64_max
    && optional_integer job.last_requeued_at_ms
    && agree (state_eq job.state retrying) (is_some job.next_attempt_at_ms)
    && agree (state_eq job.state completed) (is_some job.completed_at_ms)
    && agree (ltb 0 job.requeue_count) (is_some job.last_requeued_at_ms)

-- `count - (OLD.state = s) + (NEW.state = s)` with the CHECK on its column.
abbrev pub bit : Bool → ℕ
bit true = 1
bit false = 0

unfoldable pub recount : Bool → Bool → ℕ → Result ℕ
recount before after count = do
  ensure (leb (bit before) (count + bit after) && leb (count + bit after - bit before) i64_max)
      sqlite
  ok (count + bit after - bit before)

-- The counts of the triggers. `before` and `after` tell whether the old and the new row is in a
-- state; a new row has no old one.
unfoldable pub recount_all :
    (UploadState → Bool) → (UploadState → Bool) → UploadStateCounts → Result UploadStateCounts
recount_all before after counts = do
  p ← recount (before pending) (after pending) counts.pending
  i ← recount (before in_progress) (after in_progress) counts.in_progress
  r ← recount (before retrying) (after retrying) counts.retrying
  c ← recount (before completed) (after completed) counts.completed
  f ← recount (before permanently_failed) (after permanently_failed) counts.permanently_failed
  ok (record { pending = p; in_progress = i; retrying = r; completed = c; permanently_failed = f })

-- `NEW.t IS NOT NULL AND (last IS NULL OR NEW.t >= last)`
abbrev is_latest : Option ℕ → Option ℕ → Bool
is_latest last new = is_some_and new (λ t. is_none_or last (λ l. leb l t))

-- `NEW.t IS NOT OLD.t`
abbrev is_not : Option ℕ → Option ℕ → Bool
is_not none none = false
is_not none (some b) = true
is_not (some a) none = true
is_not (some a) (some b) = not (a == b)

-- What the triggers after a change of a row write. `succeeded` and `failed` tell whether the row's
-- times of success and of failure count as changed.
unfoldable pub aggregate :
    (UploadState → Bool)
    → (succeeded failed : Bool) → UploadJob
    → UploadMetadata
    → Result UploadMetadata
aggregate before succeeded failed job m = do
  counts ← recount_all before (state_eq job.state) m.counts
  ensure (leb (m.ledger_revision + 1) i64_max) sqlite
  let success = succeeded && is_latest m.last_success_at_ms job.completed_at_ms
  let failure = failed && is_latest m.last_failure_at_ms job.last_failure_at_ms
  ok (record m {
    counts = counts;
    ledger_revision = m.ledger_revision + 1;
    last_success_at_ms = if success then job.completed_at_ms else m.last_success_at_ms;
    last_failure_at_ms = if failure then job.last_failure_at_ms else m.last_failure_at_ms;
    last_error = if failure then job.last_error else m.last_error;
  })

abbrev after_insert : UploadJob → UploadMetadata → Result UploadMetadata
after_insert job m = aggregate (λ _. false) true true job m

abbrev pub after_update : UploadJob → UploadJob → UploadMetadata → Result UploadMetadata
after_update old new m =
    aggregate (state_eq old.state) (is_not old.completed_at_ms new.completed_at_ms)
      (is_not old.last_failure_at_ms new.last_failure_at_ms) new m

-- INSERT INTO upload_jobs ... ON CONFLICT(artifact_path) DO NOTHING: whether a row was inserted.
unfoldable pub insert_job : UploadJob → Ledger → Result (Bool × Ledger)
insert_job job l =
    if any (λ row. bytes_eq row.artifact_path job.artifact_path) l.jobs then ok (false, l) else do
      ensure (not (any (λ row. bytes_eq row.idempotency_key job.idempotency_key) l.jobs)) sqlite
      ensure (job_checks job) sqlite
      m ← after_insert job l.metadata
      ok (true, record l { metadata = m; jobs = l.jobs ++ job ∷ [] })

-- UPDATE upload_jobs SET ... WHERE ...: each row that the condition chooses is checked by the guard of
-- its revision and by the CHECKs, and is then counted. The number of these rows is returned.
unfoldable pub change_row :
    UploadJob → UploadJob → UploadMetadata → Result (UploadMetadata × UploadJob × ℕ)
change_row old new m = do
  ensure (new.job_revision == old.job_revision + 1) sqlite
  ensure (job_checks new) sqlite
  m' ← after_update old new m
  ok (m', new, 1)

unfoldable pub update_row :
    (UploadJob → Bool)
    → (UploadJob → UploadJob)
    → UploadMetadata
    → UploadJob
    → Result (UploadMetadata × UploadJob × ℕ)
update_row where_clause set m job =
    if where_clause job then change_row job (set job) m else ok (m, job, 0)

unfoldable pub update_rows :
    (UploadJob → Bool)
    → (UploadJob → UploadJob)
    → UploadMetadata
    → List UploadJob
    → Result (UploadMetadata × List UploadJob × ℕ)
update_rows where_clause set m [] = ok (m, [], 0)
update_rows where_clause set m (job ∷ jobs) = do
  (m', job', n) ← update_row where_clause set m job
  (m'', jobs', k) ← update_rows where_clause set m' jobs
  ok (m'', job' ∷ jobs', n + k)

unfoldable pub update_jobs :
    (UploadJob → Bool) → (UploadJob → UploadJob) → Ledger → Result (Ledger × ℕ)
update_jobs where_clause set l = do
  (m, jobs, changed) ← update_rows where_clause set l.metadata l.jobs
  ok (record l { metadata = m; jobs = jobs }, changed)
