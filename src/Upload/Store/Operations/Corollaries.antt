-- ===== src/Upload/Store/Operations/Corollaries.antt =====
-- What holds of a ledger after any operations on an open store.
use autopiercam.Base.{
  ℕ, ◌≡◌, refl, sym, subst, ap, Bool, true, false, ◌||◌, List, [], ◌∷◌, arith, ◌==◌, &&-true, leb,
}
use autopiercam.Base.Bytes.{Bytes, bytes_eq, any}
use autopiercam.Upload.Store.Errors.{Result, ok, ensure, ◌>>◌, corrupt_integer, i64_max}
use autopiercam.Upload.Store.States.{completed, state_eq, state_eq→eq}
use autopiercam.Upload.Store.Platform.{Platform}
use autopiercam.Upload.Store.Ledger.{UploadJob, Ledger}
use autopiercam.Upload.Store.Claims.{UploadStore}
use autopiercam.Upload.Store.Retained.{
  completed_job, is_acknowledged, binding_still_holds, retention_still_authorized,
}
use autopiercam.Upload.Store.History.{Leads, Leads-completed, Extends, IsSound}
use autopiercam.Upload.Store.Operations.{Operation, run_operations}
use autopiercam.Upload.Store.Operations.Evolution.{run_operations-Evolves}
use autopiercam.Upload.Store.Operations.Recorded.{IsFresh}

module _ (platform : Platform) (fresh : IsFresh platform) where
  -- If SQLite gives each new row an id that no row has, every sequence of operations, failing ones
  -- included, keeps a ledger sound: the counts are the numbers of its rows in each state, the rows
  -- pass the CHECKs of their table, the revision fits SQLite's integers, and no path and no id comes
  -- twice.
  pub run_operations-IsSound :
      (operations : List (UploadStore × Operation)) (l : Ledger)
      → IsSound l
      → IsSound (run_operations platform operations l)
  run_operations-IsSound operations l h =
      (run_operations-Evolves platform fresh operations l h).sound

  -- If SQLite gives each new row an id that no row has, the rows of a sound ledger are, in their order,
  -- the first rows of the ledger that any operations leave, and each came there by steps of its life
  -- cycle, which keep the identity of the job and raise its revision by one, and its attempt number
  -- with each claim.
  pub run_operations-Extends :
      (operations : List (UploadStore × Operation)) (l : Ledger)
      → IsSound l
      → Extends l.jobs (run_operations platform operations l).jobs
  run_operations-Extends operations l h =
      (run_operations-Evolves platform fresh operations l h).jobs

acknowledged_stays :
    (id revision size : ℕ) (digest path : Bytes) (x y : UploadJob)
    → Leads x y
    → is_acknowledged id revision size digest path x ≡ true
    → is_acknowledged id revision size digest path y ≡ true
acknowledged_stays id revision size digest path x y leads h =
    let a = (&&-true _ (bytes_eq x.sha256 digest) h).0 in
    let b = (&&-true _ (x.file_size == size) a).0 in
    let c = (&&-true _ (x.job_revision == revision) b).0 in
    let done = state_eq→eq (x.state) completed (&&-true _ (state_eq x.state completed) c).1 in
    subst (λ (z : UploadJob). is_acknowledged id revision size digest path z ≡ true)
      (sym (Leads-completed leads done)) h

any_acknowledged_stays :
    (id revision size : ℕ) (digest path : Bytes) (xs ys : List UploadJob)
    → Extends xs ys
    → any (is_acknowledged id revision size digest path) xs ≡ true
    → any (is_acknowledged id revision size digest path) ys ≡ true
any_acknowledged_stays id revision size digest path [] ys e h = cc
any_acknowledged_stays id revision size digest path (x ∷ xs) [] e h = absurd e
any_acknowledged_stays id revision size digest path (x ∷ xs) (y ∷ ys) (leads, e) h =
    pick (is_acknowledged id revision size digest path x)
      (any (is_acknowledged id revision size digest path) xs)
      (is_acknowledged id revision size digest path y)
      (any (is_acknowledged id revision size digest path) ys)
      (acknowledged_stays id revision size digest path x y leads)
      (any_acknowledged_stays id revision size digest path xs ys e) h
  where
    pick :
        (a b c d : Bool)
        → (a ≡ true → c ≡ true)
        → (b ≡ true → d ≡ true)
        → (a || b) ≡ true
        → (c || d) ≡ true
    pick true b c d f g h = let t = f refl in ground arith
    pick false b c d f g h = let t = g h in ground arith

module _ (platform : Platform) (fresh : IsFresh platform) where
  -- If SQLite gives each new row an id that no row has, what a sound ledger once confirmed of an
  -- uploaded file it confirms after any operations: the file of a completed job stays free for
  -- retention.
  pub acknowledged-stays_authorized :
      (operations : List (UploadStore × Operation)) (l : Ledger) (path digest : Bytes)
      (id revision size : ℕ)
      → IsSound l
      → retention_still_authorized
          (record { artifact_path = path; binding = completed_job id revision size digest })
          l
        ≡ ok true
      → retention_still_authorized
          (record { artifact_path = path; binding = completed_job id revision size digest })
          (run_operations platform operations l)
        ≡ ok true
  unfolding retention_still_authorized binding_still_holds
  acknowledged-stays_authorized operations l path digest id revision size sound h =
      let after = run_operations platform operations l in
      pick (leb revision i64_max) (leb size i64_max)
        (any (is_acknowledged id revision size digest path) (l.jobs))
        (any (is_acknowledged id revision size digest path) (after.jobs))
        (any_acknowledged_stays id revision size digest path (l.jobs) (after.jobs)
          (run_operations-Extends platform fresh operations l sound))
        h
    where
      confirmed : Bool → Bool → Bool → Result Bool
      confirmed a b c = do ensure a corrupt_integer; ensure b corrupt_integer; ok c

      pick :
          (a b c d : Bool)
          → (c ≡ true → d ≡ true)
          → confirmed a b c ≡ ok true
          → confirmed a b d ≡ ok true
      pick true true c d f h = ap (λ (t : Bool). let r : Result Bool = ok t in r) (f (cc h))
      pick true false c d f h = cc h
      pick false b c d f h = cc h
