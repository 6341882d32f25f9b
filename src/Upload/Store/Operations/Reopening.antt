-- ===== src/Upload/Store/Operations/Reopening.antt =====
-- Requeuing a job and reopening the ledger let it evolve.
use autopiercam.Base.{
  ℕ, ◌+◌, ◌≡◌, refl, Bool, true, false, arith, inl, inr, Bool-cases, ◌==◌, &&-true, leb, leb→le,
  ◌≤◌,
}
use autopiercam.Base.Bytes.{Bytes, bytes_eq}
use autopiercam.Upload.Store.Errors.{
  Result, ok, err, ensure, ok_or, ◌>>=◌, ◌>>◌, IfOk, IfOk-bind, IfOk-then, sqlite,
  authorization_identity_mismatch, i64_max, unix_ms_to_database,
}
use autopiercam.Upload.Store.States.{permanently_failed, state_eq→eq}
use autopiercam.Upload.Store.Platform.{Platform, Disk}
use autopiercam.Upload.Store.Ledger.{UploadJob, Ledger, update_jobs}
use autopiercam.Upload.Store.Claims.{UploadStore}
use autopiercam.Upload.Store.Recording.{Listing}
use autopiercam.Upload.Store.Operator.{
  find_job, check_requeue, into_list_item, RequeueUploadResult, RequeueUploadRequest,
  requeue_permanently_failed, is_requeued, requeued_row, rotate_authorization_if_drained,
  is_drained,
}
use autopiercam.Upload.Store.History.{
  may_follow, Evolves, Evolves-refl, Evolves-trans, Extends-refl,
}
use autopiercam.Upload.Store.History.Statements.{update_jobs-Evolves}
use autopiercam.Upload.Store.Operations.Settling.{
  step_from, left_by-Evolves, recover_interrupted_jobs-Evolves,
}
use autopiercam.Upload.Store.Operations.{reopened}

module _ (platform : Platform) (store : UploadStore) where
  module _ (disk : Disk) where
    pub requeued_state :
        (request : RequeueUploadRequest) (l : Ledger) (row : UploadJob)
        → is_requeued platform disk store request (l.metadata) row ≡ true
        → row.state ≡ permanently_failed
    requeued_state request l row h =
        let a = (&&-true _ (bytes_eq l.metadata.ledger_id (store.ledger_id)) h).0 in
        let b = (&&-true _ (bytes_eq row.delivery_binding (store.delivery_binding)) a).0 in
        let c = (&&-true _ (row.job_revision == request.expected_job_revision) b).0 in
        state_eq→eq (row.state) permanently_failed (&&-true (row.id == request.job_id) _ c).1

    pub requeue_permanently_failed-Evolves :
        (request : RequeueUploadRequest) (now : ℕ) (l : Ledger)
        → IfOk
            (λ (r : Ledger × RequeueUploadResult). Evolves l (r.0))
            (requeue_permanently_failed platform disk store request now l)
    unfolding requeue_permanently_failed may_follow
    requeue_permanently_failed-Evolves request now l =
        let Q : Ledger × RequeueUploadResult → Type 0 = λ r. Evolves l (r.0) in
        IfOk-then Q (ensure (bytes_eq request.ledger_id (store.ledger_id)) _) _ λ u.
          IfOk-then Q (unix_ms_to_database now) _ λ at.
            IfOk-then Q (ensure (leb request.expected_job_revision i64_max) _) _ λ u.
              IfOk-then Q (ok_or (find_job (request.job_id) (l.jobs)) _) _ λ raw.
                IfOk-then Q (check_requeue platform disk store request raw) _ λ u.
                  IfOk-bind (λ (r : Ledger × ℕ). Evolves l (r.0)) Q
                    (update_jobs (is_requeued platform disk store request (l.metadata))
                      (requeued_row platform disk store at) l)
                    _
                    (update_jobs-Evolves (is_requeued platform disk store request (l.metadata))
                      (requeued_row platform disk store at)
                      (λ row h k.
                        step_from row _ permanently_failed refl (requeued_state request l row h)
                          refl k (omega arith) (λ p. cc))
                      l)
                    λ (l', n) e. IfOk-then Q (ensure (n == 1) _) _ λ u.
                      IfOk-then Q (ok_or (find_job (request.job_id) (l'.jobs)) sqlite) _
                        λ updated. IfOk-then Q (into_list_item platform store updated) _ λ item. e

rotated-Evolves :
    (fingerprint : Bytes) (l : Ledger)
    → l.metadata.ledger_revision + 1 ≤ i64_max
    → Evolves l (record l {
      metadata = record (l.metadata) {
        authorization_sha256 = fingerprint;
        ledger_revision = l.metadata.ledger_revision + 1;
      };
    })
rotated-Evolves fingerprint l fits h = record {
  sound = record {
    counts = h.counts;
    revision = fits;
    rows = h.rows;
    paths = h.paths;
    ids = h.ids;
  };
  jobs = Extends-refl (l.jobs);
  revision = inr (omega arith);
  ledger_id = refl;
  preactivation = refl;
}

pub rotate_authorization_if_drained-Evolves :
    (entries : Listing) (fingerprint : Bytes) (l : Ledger)
    → IfOk (Evolves l) (rotate_authorization_if_drained entries fingerprint l)
unfolding rotate_authorization_if_drained
rotate_authorization_if_drained-Evolves entries fingerprint l =
    pick (bytes_eq l.metadata.authorization_sha256 fingerprint)
  where
    pick :
        (same : Bool)
        → IfOk (Evolves l) (elim same [
          | true ↦ ok l
          | false ↦ do
            drained ← is_drained entries l
            ensure drained authorization_identity_mismatch
            ensure (leb (l.metadata.ledger_revision + 1) i64_max) sqlite
            ok (record l {
              metadata = record (l.metadata) {
                authorization_sha256 = fingerprint;
                ledger_revision = l.metadata.ledger_revision + 1;
              };
            })
        ])
    pick true = Evolves-refl l
    pick false = IfOk-then (Evolves l) (is_drained entries l) _ λ drained.
        IfOk-then (Evolves l) (ensure drained authorization_identity_mismatch) _ λ u.
          elim (Bool-cases (leb (l.metadata.ledger_revision + 1) i64_max)) [
            | inr full ↦ rw full tt
            | inl fits ↦ rw fits (rotated-Evolves fingerprint l (leb→le _ _ fits))
          ]

pub reopened-Evolves :
    (l : Ledger) (r : Result Ledger) → IfOk (Evolves l) r → Evolves l (reopened l r)
reopened-Evolves l (err e) h = Evolves-refl l
reopened-Evolves l (ok rotated) h =
    Evolves-trans l rotated _ h
      (left_by-Evolves rotated _ (recover_interrupted_jobs-Evolves rotated))
