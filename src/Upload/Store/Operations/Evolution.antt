-- ===== src/Upload/Store/Operations/Evolution.antt =====
-- Every operation lets the ledger evolve: it stays sound, jobs take steps of their life cycle only, and
-- no change goes without a new revision.
use autopiercam.Base.{List, [], ◌∷◌}
use autopiercam.Upload.Store.Platform.{Platform}
use autopiercam.Upload.Store.Ledger.{Ledger}
use autopiercam.Upload.Store.Claims.{UploadStore}
use autopiercam.Upload.Store.Operator.{rotate_authorization_if_drained}
use autopiercam.Upload.Store.History.{Evolves, Evolves-refl, Evolves-trans}
use autopiercam.Upload.Store.Operations.Settling.{
  left_by-Evolves, left_by_pair-Evolves, settle_with-Evolves,
}
use autopiercam.Upload.Store.Operations.{
  Operation, record_file, reconcile, claim, settle_claim, requeue, reopen, run_operation,
  run_operations,
}
use autopiercam.Upload.Store.Operations.Claiming.{claim_due-Evolves}
use autopiercam.Upload.Store.Operations.Recorded.{
  IsFresh, record_artifact-Evolves, reconcile_capture_directory-Evolves,
}
use autopiercam.Upload.Store.Operations.Reopening.{
  requeue_permanently_failed-Evolves, reopened-Evolves, rotate_authorization_if_drained-Evolves,
}

module _ (platform : Platform) (store : UploadStore) (fresh : IsFresh platform) where
  run_operation-Evolves :
      (operation : Operation) (l : Ledger) → Evolves l (run_operation platform store operation l)
  unfolding run_operation
  run_operation-Evolves (record_file disk path now) l =
      left_by_pair-Evolves l _ (record_artifact-Evolves platform store fresh disk path now l)
  run_operation-Evolves (reconcile disk sort entries now) l =
      reconcile_capture_directory-Evolves platform store fresh disk sort entries now l
  run_operation-Evolves (claim now) l =
      left_by_pair-Evolves l _ (claim_due-Evolves platform store now l)
  run_operation-Evolves (settle_claim s c) l = left_by-Evolves l _ (settle_with-Evolves s c l)
  run_operation-Evolves (requeue disk request now) l =
      left_by_pair-Evolves l _
        (requeue_permanently_failed-Evolves platform store disk request now l)
  run_operation-Evolves (reopen entries fingerprint) l =
      reopened-Evolves l (rotate_authorization_if_drained entries fingerprint l)
        (rotate_authorization_if_drained-Evolves entries fingerprint l)

pub run_operations-Evolves :
    (platform : Platform)
    → IsFresh platform
    → (operations : List (UploadStore × Operation)) (l : Ledger)
    → Evolves l (run_operations platform operations l)
unfolding run_operations
run_operations-Evolves platform fresh [] l = Evolves-refl l
run_operations-Evolves platform fresh ((store, operation) ∷ operations) l =
    let after = run_operation platform store operation l in
    Evolves-trans l after _ (run_operation-Evolves platform store fresh operation l)
      (run_operations-Evolves platform fresh operations after)
