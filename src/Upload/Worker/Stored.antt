-- ===== src/Upload/Worker/Stored.antt =====
-- What the worker leaves of its one claim when it stores an outcome.
use autopiercam.Base.{ℕ, ◌+◌, ◌≤◌, ◌≡◌, Bool, true, false, Option, none, some, arith, leb, u64_max}
use autopiercam.Base.Bytes.{bytes}
use autopiercam.Upload.Retry.{AttemptOutcome, success, retry, permanent, retry_delays, delay, fnv1a}
use autopiercam.Upload.Store.Errors.{UploadStoreError, Result, ok, err, IfOk}
use autopiercam.Upload.Store.Ledger.{Ledger}
use autopiercam.Upload.Store.Claims.{ClaimedUpload, mark_retrying, mark_permanently_failed}
use autopiercam.Upload.Store.Operations.{
  Operation, record_file, reconcile, requeue, claim, settle_claim, reopen, run_operation,
  run_operations, left_by_pair, release, complete, fail, settle_with,
}
use autopiercam.Upload.Store.Operations as Operations
use autopiercam.Upload.Store.Operations.InProgress.{claims_held, settle_with-claims_held}
use autopiercam.Upload.Worker.{
  snapshotted, Outcome, stored, observed, out_of_range, persist_outcome,
}

-- How many claims are held after an outcome was stored, or could not be.
abbrev pub IsStored : Outcome → Type 0
IsStored (l, none) = claims_held l ≡ 0
IsStored (l, some e) = claims_held l ≤ 1

pub stored_lem :
    (l : Ledger) (r : Result Ledger)
    → claims_held l ≡ 1
    → IfOk (λ l'. claims_held l' + 1 ≡ claims_held l) r
    → IsStored (stored l r) × IsStored (out_of_range l r)
stored_lem l (ok l') one h = (omega arith, omega arith)
stored_lem l (err e) one h = (omega arith, omega arith)

pub persist_outcome-IsStored :
    (c : ClaimedUpload) (outcome : AttemptOutcome) (finished_at : ℕ) (l : Ledger)
    → claims_held l ≡ 1
    → IsStored (persist_outcome c outcome finished_at l)
unfolding persist_outcome settle_with
persist_outcome-IsStored c (success status) t l one =
    (stored_lem l _ one (settle_with-claims_held (complete t status) c l)).0
persist_outcome-IsStored c (permanent status error) t l one =
    (stored_lem l _ one (settle_with-claims_held (fail t status (some (bytes error))) c l)).0
persist_outcome-IsStored c (retry status retry_after error) t l one =
    let next : ℕ = t + delay retry_delays c.attempt_count (fnv1a c.idempotency_key) retry_after in
    pick next (leb next u64_max)
  where
    pick :
        (next : ℕ) (b : Bool)
        → IsStored (elim b as (λ _. Outcome) [
          | true ↦ stored l (mark_retrying c t next status (some (bytes error)) l)
          | false ↦ out_of_range l (
              mark_permanently_failed c t status
                (some (bytes "retry time cannot be represented safely"))
                l)
        ])
    pick next true =
        (stored_lem l _ one
          (settle_with-claims_held (Operations.retry t next status (some (bytes error))) c l)).0
    pick next false =
        (stored_lem l _ one (
          settle_with-claims_held
            (fail t status (some (bytes "retry time cannot be represented safely"))) c l)).1

pub observed-IsStored : (b : Bool) (o : Outcome) → IsStored o → IsStored (observed b o)
observed-IsStored true o h = h
observed-IsStored false (l, none) h = omega (arith, h)
observed-IsStored false (l, some e) h = h

pub snapshotted-IsStored :
    (e : Option UploadStoreError) (o : Outcome) → IsStored o → IsStored (snapshotted e o)
snapshotted-IsStored none o h = h
snapshotted-IsStored (some e) (l, none) h = omega (arith, h)
snapshotted-IsStored (some e) (l, some x) h = h
