-- ===== src/Upload/Store/Operations.antt =====
-- The operations that the upload worker and the operator's commands call on an open store, and what
-- each leaves of the ledger. An operation that fails leaves the ledger as it was, except that
-- reconciliation keeps what it recorded before it failed. `reopen` stands for the end of
-- UploadStore::open on an existing ledger.
pub mod Settling
pub mod Claiming
pub mod Inserting
pub mod Recorded
pub mod Reopening
pub mod Evolution
pub mod Corollaries
pub mod Spent
pub mod SettlingRows
pub mod Fencing
pub mod StaleCursors
pub mod InProgress
use autopiercam.Base.{ℕ, Bool, true, false, Option, none, some, List, [], ◌∷◌}
use autopiercam.Base.Bytes.{Bytes}
use autopiercam.Upload.Store.Errors.{Result, ok, err, ◌>>=◌}
use autopiercam.Upload.Store.Platform.{Platform, Disk}
use autopiercam.Upload.Store.Ledger.{Ledger}
use autopiercam.Upload.Store.Claims.{
  UploadStore, ClaimedUpload, claim_due, release_claim, mark_retrying, mark_completed,
  mark_permanently_failed,
}
use autopiercam.Upload.Store.Recording.{Listing, record_artifact, reconcile_capture_directory}
use autopiercam.Upload.Store.Operator.{
  RequeueUploadRequest, requeue_permanently_failed, rotate_authorization_if_drained,
  recover_interrupted_jobs,
}

-- The four methods that settle a claim, with their arguments.
pub data Settlement : Type 0 where
  release : ℕ → Settlement
  retry : (failed_at next_attempt_at : ℕ) → Option ℕ → Option Bytes → Settlement
  complete : (completed_at http_status : ℕ) → Settlement
  fail : ℕ → Option ℕ → Option Bytes → Settlement

unfoldable pub settle_with : Settlement → ClaimedUpload → Ledger → Result Ledger
settle_with (release now) c l = release_claim c now l
settle_with (retry failed_at next_attempt_at status error) c l =
    mark_retrying c failed_at next_attempt_at status error l
settle_with (complete completed_at status) c l = mark_completed c completed_at status l
settle_with (fail failed_at status error) c l = mark_permanently_failed c failed_at status error l

pub data Operation : Type 0 where
  record_file : Disk → Bytes → ℕ → Operation
  reconcile : Disk → (List Bytes → List Bytes) → Listing → ℕ → Operation
  claim : ℕ → Operation
  settle_claim : Settlement → ClaimedUpload → Operation
  requeue : Disk → RequeueUploadRequest → ℕ → Operation
  reopen : Listing → Bytes → Operation

-- What is left of the ledger.
abbrev pub left_by : Ledger → Result Ledger → Ledger
left_by l (ok l') = l'
left_by l (err e) = l

abbrev pub left_by_pair : {A : Type 0} → Ledger → Result (Ledger × A) → Ledger
left_by_pair l (ok (l', a)) = l'
left_by_pair l (err e) = l

-- The jobs are recovered once the rotation has been committed.
abbrev pub reopened : Ledger → Result Ledger → Ledger
reopened l (err e) = l
reopened l (ok rotated) = left_by rotated (recover_interrupted_jobs rotated)

module _ (platform : Platform) (store : UploadStore) where
  unfoldable pub run_operation : Operation → Ledger → Ledger
  run_operation (record_file disk path now) l =
      left_by_pair l (record_artifact platform disk store path now l)
  run_operation (reconcile disk sort entries now) l =
      (reconcile_capture_directory platform disk store sort entries now l).0
  run_operation (claim now) l = left_by_pair l (claim_due platform store now l)
  run_operation (settle_claim s c) l = left_by l (settle_with s c l)
  run_operation (requeue disk request now) l =
      left_by_pair l (requeue_permanently_failed platform disk store request now l)
  run_operation (reopen entries fingerprint) l =
      reopened l (rotate_authorization_if_drained entries fingerprint l)

-- Each operation with the store that it runs on: reopening the ledger makes a new one.
unfoldable pub run_operations : Platform → List (UploadStore × Operation) → Ledger → Ledger
run_operations platform [] l = l
run_operations platform ((store, operation) ∷ operations) l =
    run_operations platform operations (run_operation platform store operation l)
