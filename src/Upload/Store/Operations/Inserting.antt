-- ===== src/Upload/Store/Operations/Inserting.antt =====
-- What every insertion of a row keeps, the recording of files keeps.
use autopiercam.Base.{ℕ, ◌≡◌, refl, Bool, ◌||◌, Option, none, some, List, [], ◌∷◌, leb}
use autopiercam.Base.Bytes.{Bytes}
use autopiercam.Upload.Store.Errors.{
  UploadStoreError, Result, ok, err, ensure, ok_or, IfOk, IfOk-bind, IfOk-then, sqlite, i64_max,
  unix_ms_to_database,
}
use autopiercam.Upload.Store.Platform.{Platform, Disk}
use autopiercam.Upload.Store.Ledger.{Ledger, insert_job}
use autopiercam.Upload.Store.Claims.{job_id_from_database, UploadStore}
use autopiercam.Upload.Store.Artifacts.{ArtifactValues, read_artifact}
use autopiercam.Upload.Store.Recording.{
  recorded_job, same_identity, Listing, ReconcileResult, RecordArtifactResult, new_job,
  record_values, record_artifact, record_paths, reconcile_capture_directory, examine_directory,
  count_disposition,
}
use autopiercam.Upload.Store.History.{ids_of}

ok_or_lem : {A : Type 0} (o : Option A) (e : UploadStoreError) → IfOk (λ a. o ≡ some a) (ok_or o e)
ok_or_lem none e = tt
ok_or_lem (some a) e = refl

module _ (platform : Platform) (store : UploadStore) where
  module _ (disk : Disk) (R : Ledger → Ledger → Type 0) (same : (l : Ledger) → R l l)
      (chain : (a b c : Ledger) → R a b → R b c → R a c)
      (inserts : (id : ℕ) (values : ArtifactValues) (at : ℕ) (l : Ledger)
        → platform.new_rowid (ids_of l.jobs) ≡ some id
        → IfOk
            (λ (r : Bool × Ledger). R l (r.1))
            (insert_job (new_job platform disk store id values at) l)) where
    record_values_keeps :
        (values : ArtifactValues) (at : ℕ) (l : Ledger)
        → IfOk
            (λ (r : Ledger × RecordArtifactResult). R l (r.0))
            (record_values platform disk store values at l)
    unfolding record_values
    record_values_keeps values at l =
        let Q : Ledger × RecordArtifactResult → Type 0 = λ r. R l (r.0) in
        IfOk-then Q (ensure (leb (values.file_size) i64_max) _) _ λ u.
          IfOk-bind (λ id. platform.new_rowid (ids_of (l.jobs)) ≡ some id) Q
            (ok_or (platform.new_rowid (ids_of (l.jobs))) sqlite) _
            (ok_or_lem (platform.new_rowid (ids_of (l.jobs))) sqlite)
            λ id e.
              IfOk-bind (λ (r : Bool × Ledger). R l (r.1)) Q
                (insert_job (new_job platform disk store id values at) l) _
                (inserts id values at l e)
                λ (added, l') e.
                  IfOk-then Q (ok_or (recorded_job (values.artifact_path) (l'.jobs)) sqlite) _
                    λ existing.
                      IfOk-then Q (ensure (added || same_identity existing values) _) _
                        λ u. IfOk-then Q (job_id_from_database (existing.id)) _ λ id. e

    pub record_artifact_keeps :
        (path : Bytes) (now : ℕ) (l : Ledger)
        → IfOk
            (λ (r : Ledger × RecordArtifactResult). R l (r.0))
            (record_artifact platform disk store path now l)
    unfolding record_artifact
    record_artifact_keeps path now l =
        let Q : Ledger × RecordArtifactResult → Type 0 = λ r. R l (r.0) in
        IfOk-then Q (read_artifact platform disk path (store.capture_root)) _
          λ values. IfOk-then Q (unix_ms_to_database now) _ λ at. record_values_keeps values at l

    record_paths_keeps :
        (paths : List Bytes) (now : ℕ) (l : Ledger) (r : ReconcileResult)
        → R l ((record_paths platform disk store paths now l r).0)
    unfolding record_paths
    record_paths_keeps [] now l r = same l
    record_paths_keeps (path ∷ paths) now l r =
        recorded (record_artifact platform disk store path now l) (record_artifact_keeps path now l)
          (record_paths_keeps paths now)
      where
        counted :
            (l' : Ledger)
            → R l l'
            → ((l : Ledger) (r : ReconcileResult)
                → R l ((record_paths platform disk store paths now l r).0))
            → (c : Result ReconcileResult)
            → R l (
                (elim c as (λ _. Ledger × Result ReconcileResult) [
                  | err e ↦ (l', err e)
                  | ok r' ↦ record_paths platform disk store paths now l' r'
                ]).0)
        counted l' e rest (ok r') = chain l l' _ e (rest l' r')
        counted l' e rest (err x) = e

        recorded :
            (c : Result (Ledger × RecordArtifactResult))
            → IfOk (λ (p : Ledger × RecordArtifactResult). R l (p.0)) c
            → ((l : Ledger) (r : ReconcileResult)
                → R l ((record_paths platform disk store paths now l r).0))
            → R l (
                (elim c as (λ _. Ledger × Result ReconcileResult) [
                  | err e ↦ (l, err e)
                  | ok (l', recorded) ↦ elim (count_disposition (recorded.disposition) r) [
                    | err e ↦ (l', err e)
                    | ok r' ↦ record_paths platform disk store paths now l' r'
                  ]
                ]).0)
        recorded (ok (l', a)) e rest = counted l' e rest (count_disposition (a.disposition) r)
        recorded (err x) e rest = same l

    pub reconcile_capture_directory_keeps :
        (sort : List Bytes → List Bytes) (entries : Listing) (now : ℕ) (l : Ledger)
        → R l ((reconcile_capture_directory platform disk store sort entries now l).0)
    unfolding reconcile_capture_directory
    reconcile_capture_directory_keeps sort entries now l =
        examined (examine_directory entries now l)
      where
        examined :
            (r : Result (ReconcileResult × List Bytes))
            → R l (
                (elim r as (λ _. Ledger × Result ReconcileResult) [
                  | err e ↦ (l, err e)
                  | ok (r, paths) ↦ record_paths platform disk store (sort paths) now l r
                ]).0)
        examined (ok (r, paths)) = record_paths_keeps (sort paths) now l r
        examined (err e) = same l
