-- ===== src/Upload/Store/Operations/Recorded.antt =====
-- Recording files lets the ledger evolve, if SQLite gives each new row an id of its own.
use autopiercam.Base.{ℕ, ◌≡◌, Bool, false, some, List, ◌==◌}
use autopiercam.Base.Bytes.{Bytes, any}
use autopiercam.Upload.Store.Errors.{IfOk}
use autopiercam.Upload.Store.Platform.{Platform, Disk}
use autopiercam.Upload.Store.Ledger.{Ledger, insert_job}
use autopiercam.Upload.Store.Claims.{UploadStore}
use autopiercam.Upload.Store.Artifacts.{ArtifactValues}
use autopiercam.Upload.Store.Recording.{
  Listing, RecordArtifactResult, new_job, record_artifact, reconcile_capture_directory,
}
use autopiercam.Upload.Store.History.{Evolves, Evolves-refl, Evolves-trans, ids_of}
use autopiercam.Upload.Store.History.Statements.{insert_job-Evolves}
use autopiercam.Upload.Store.Operations.Inserting.{
  record_artifact_keeps, reconcile_capture_directory_keeps,
}

-- SQLite gives a new row an id that no row has.
abbrev pub IsFresh : Platform → Type 0
IsFresh platform =
    (ids : List ℕ) (id : ℕ)
    → platform.new_rowid ids ≡ some id
    → any (λ known. known == id) ids ≡ false

module _ (platform : Platform) (store : UploadStore) (fresh : IsFresh platform) (disk : Disk) where
  inserts-Evolves :
      (id : ℕ) (values : ArtifactValues) (at : ℕ) (l : Ledger)
      → platform.new_rowid (ids_of l.jobs) ≡ some id
      → IfOk
          (λ (r : Bool × Ledger). Evolves l (r.1))
          (insert_job (new_job platform disk store id values at) l)
  unfolding new_job
  inserts-Evolves id values at l e =
      insert_job-Evolves l (new_job platform disk store id values at) (fresh (ids_of l.jobs) id e)

  pub record_artifact-Evolves :
      (path : Bytes) (now : ℕ) (l : Ledger)
      → IfOk
          (λ (r : Ledger × RecordArtifactResult). Evolves l (r.0))
          (record_artifact platform disk store path now l)
  record_artifact-Evolves =
      record_artifact_keeps platform store disk Evolves Evolves-refl Evolves-trans inserts-Evolves

  pub reconcile_capture_directory-Evolves :
      (sort : List Bytes → List Bytes) (entries : Listing) (now : ℕ) (l : Ledger)
      → Evolves l ((reconcile_capture_directory platform disk store sort entries now l).0)
  reconcile_capture_directory-Evolves =
      reconcile_capture_directory_keeps platform store disk Evolves Evolves-refl Evolves-trans
        inserts-Evolves
