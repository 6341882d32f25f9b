-- ===== src/Upload/Worker/Outside.antt =====
-- What the capture's sink and the operator do to the ledger leaves the number of claims as it is.
use autopiercam.Base.{
  ℕ, ◌+◌, ◌≡◌, refl, ap, ◌∙◌, Bool, true, false, List, [], ◌∷◌, arith, All, if_split, leb, not,
  ◌==◌,
}
use autopiercam.Base.Bytes.{bytes_eq, any}
use autopiercam.Upload.Store.Errors.{
  Result, ok, err, ensure, ok_or, IfOk, IfOk-bind, IfOk-then, unix_ms_to_database, i64_max, sqlite,
}
use autopiercam.Upload.Store.States.{in_progress, state_eq}
use autopiercam.Upload.Store.Platform.{Platform, Disk}
use autopiercam.Upload.Store.Ledger.{
  UploadJob, Ledger, bit, update_jobs, insert_job, job_checks, aggregate,
}
use autopiercam.Upload.Store.Ledger.Counts.{tally-append}
use autopiercam.Upload.Store.Ledger.Tallies.{update_jobs-tally}
use autopiercam.Upload.Store.Claims.{UploadStore}
use autopiercam.Upload.Store.Artifacts.{ArtifactValues}
use autopiercam.Upload.Store.Recording.{new_job}
use autopiercam.Upload.Store.Operator.{
  RequeueUploadRequest, RequeueUploadResult, requeue_permanently_failed, is_requeued, requeued_row,
  find_job, check_requeue, into_list_item,
}
use autopiercam.Upload.Store.Operations.{
  Operation, record_file, reconcile, requeue, claim, settle_claim, reopen, run_operation,
  run_operations, left_by_pair,
}
use autopiercam.Upload.Store.Operations.Inserting.{
  record_artifact_keeps, reconcile_capture_directory_keeps,
}
use autopiercam.Upload.Store.Operations.Reopening.{requeued_state}
use autopiercam.Upload.Store.Operations.InProgress.{claims_held}

-- Operations of the capture's sink and of the operator: they neither claim nor settle.
abbrev pub is_outside : Operation → Bool
is_outside (record_file disk path now) = true
is_outside (reconcile disk sort entries now) = true
is_outside (requeue disk request now) = true
is_outside (claim now) = false
is_outside (settle_claim s c) = false
is_outside (reopen entries fingerprint) = false

abbrev pub AreOutside : List (UploadStore × Operation) → Type 0
AreOutside operations = All (λ o. is_outside (o.1) ≡ true) operations

-- The number of claims does not change.
unfoldable pub HoldsSame : Ledger → Ledger → Type 0
HoldsSame l l' = claims_held l' ≡ claims_held l

HoldsSame-refl : (l : Ledger) → HoldsSame l l
unfolding HoldsSame
HoldsSame-refl l = refl

HoldsSame-trans : (a b c : Ledger) → HoldsSame a b → HoldsSame b c → HoldsSame a c
unfolding HoldsSame
HoldsSame-trans a b c p q = q ∙ p

insert_job-HoldsSame :
    (job : UploadJob) (l : Ledger)
    → state_eq job.state in_progress ≡ false
    → IfOk (λ (r : Bool × Ledger). HoldsSame l (r.1)) (insert_job job l)
unfolding insert_job HoldsSame
insert_job-HoldsSame job l idle =
    let Q : Bool × Ledger → Type 0 = λ r. claims_held (r.1) ≡ claims_held l in
    if_split (λ (r : Result (Bool × Ledger)). IfOk Q r)
      (any (λ row. bytes_eq row.artifact_path job.artifact_path) l.jobs) (λ _. refl)
      (λ _.
        IfOk-then Q
          (ensure (not (any (λ row. bytes_eq row.idempotency_key job.idempotency_key) l.jobs))
            sqlite)
          _
          λ u. IfOk-then Q (ensure (job_checks job) sqlite) _ λ u.
            IfOk-then Q (aggregate (λ _. false) true true job l.metadata) _
              λ m. omega (arith, tally-append in_progress l.jobs (job ∷ []), ap bit idle))

module _ (platform : Platform) (store : UploadStore) where
  inserts-HoldsSame :
      (disk : Disk) (id : ℕ) (values : ArtifactValues) (at : ℕ) (l : Ledger)
      → IfOk
          (λ (r : Bool × Ledger). HoldsSame l (r.1))
          (insert_job (new_job platform disk store id values at) l)
  unfolding new_job
  inserts-HoldsSame disk id values at l =
      insert_job-HoldsSame (new_job platform disk store id values at) l refl

  requeue-HoldsSame :
      (disk : Disk) (request : RequeueUploadRequest) (now : ℕ) (l : Ledger)
      → IfOk
          (λ (r : Ledger × RequeueUploadResult). HoldsSame l (r.0))
          (requeue_permanently_failed platform disk store request now l)
  unfolding requeue_permanently_failed HoldsSame
  requeue-HoldsSame disk request now l =
      let Q : Ledger × RequeueUploadResult → Type 0 = λ r. claims_held (r.0) ≡ claims_held l in
      let chooses : UploadJob → Bool = is_requeued platform disk store request l.metadata in
      IfOk-then Q (ensure (bytes_eq request.ledger_id store.ledger_id) _) _ λ u.
        IfOk-then Q (unix_ms_to_database now) _ λ at.
          IfOk-then Q (ensure (leb request.expected_job_revision i64_max) _) _ λ u.
            IfOk-then Q (ok_or (find_job request.job_id l.jobs) _) _ λ raw.
              IfOk-then Q (check_requeue platform disk store request raw) _ λ u.
                IfOk-bind (λ (r : Ledger × ℕ). claims_held (r.0) + 0 ≡ claims_held l + 0) Q
                  (update_jobs chooses (requeued_row platform disk store at) l) _
                  (update_jobs-tally in_progress false false chooses
                    (requeued_row platform disk store at)
                    (λ row h.
                      ap (λ s. state_eq s in_progress)
                        (requeued_state platform store disk request l row h))
                    (λ row _. refl) l)
                  λ (l', n) e. IfOk-then Q (ensure (n == 1) _) _ λ u.
                    IfOk-then Q (ok_or (find_job request.job_id l'.jobs) sqlite) _ λ updated.
                      IfOk-then Q (into_list_item platform store updated) _ λ item. omega (arith, e)

left_by_pair-HoldsSame :
    {A : Type 0} (l : Ledger) (r : Result (Ledger × A))
    → IfOk (λ (p : Ledger × A). HoldsSame l (p.0)) r
    → HoldsSame l (left_by_pair l r)
unfolding HoldsSame
left_by_pair-HoldsSame l (ok (l', a)) h = h
left_by_pair-HoldsSame l (err e) h = refl

outside_keeps :
    (platform : Platform) (store : UploadStore) (operation : Operation) (l : Ledger)
    → is_outside operation ≡ true
    → HoldsSame l (run_operation platform store operation l)
unfolding run_operation
outside_keeps platform store (record_file disk path now) l h = left_by_pair-HoldsSame l _ (
    record_artifact_keeps platform store disk HoldsSame HoldsSame-refl HoldsSame-trans
      (λ id values at l e. inserts-HoldsSame platform store disk id values at l) path now l)
outside_keeps platform store (reconcile disk sort entries now) l h =
    reconcile_capture_directory_keeps platform store disk HoldsSame HoldsSame-refl HoldsSame-trans
      (λ id values at l e. inserts-HoldsSame platform store disk id values at l) sort entries now l
outside_keeps platform store (requeue disk request now) l h =
    left_by_pair-HoldsSame l _ (requeue-HoldsSame platform store disk request now l)
outside_keeps platform store (claim now) l h = cc
outside_keeps platform store (settle_claim s c) l h = cc
outside_keeps platform store (reopen entries fingerprint) l h = cc

pub outside_operations_keep :
    (platform : Platform) (operations : List (UploadStore × Operation)) (l : Ledger)
    → AreOutside operations
    → claims_held (run_operations platform operations l) ≡ claims_held l
unfolding run_operations HoldsSame
outside_operations_keep platform [] l h = refl
outside_operations_keep platform ((store, operation) ∷ operations) l (o, h) =
    outside_operations_keep platform operations (run_operation platform store operation l) h
    ∙ outside_keeps platform store operation l o
