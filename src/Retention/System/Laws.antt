-- ===== src/Retention/System/Laws.antt =====
-- What a sweep does without a ledger.
use autopiercam.Base.{◌≡◌, refl, inl, inr}
use autopiercam.Retention.Policy.{RetentionPolicy}
use autopiercam.Retention.Candidates.{PathOrder, RetentionCandidate}
use autopiercam.Retention.Files.{found}
use autopiercam.Retention.Files.Deleter.{OpenFile, DeleteResult, delete_exact, RetentionDeleteError}
use autopiercam.Retention.Files.Deleter as Deleter
use autopiercam.Retention.Files.Deleter.Laws.{IsIdentified, delete_exact_iff}
use autopiercam.Retention.Sweep.{sweep_retention}
use autopiercam.Retention.Sweep.Deletions.{MayDelete, sweep_retention_keeps}
use autopiercam.Retention.System.{
  System, after_delete, system_delete_exact, protect_all, local_delete, local_only, environment,
}

module _ {P W : Type 0} ⦃order : PathOrder P⦄ (sys : System P W) (policy : RetentionPolicy)
    (w : W) where
  -- Where the ledger may still refer to files and is not available, a sweep changes nothing.
  pub protect_all_keeps : (sweep_retention (environment sys protect_all) policy w).0 ≡ w
  unfolding environment protect_all
  protect_all_keeps =
      sweep_retention_keeps (environment sys protect_all) policy w (λ v. v ≡ w) (λ v c q i. i) refl

  after_delete_keeps :
      (I : W → Type 0) (v : W) (c : RetentionCandidate P) (r : DeleteResult P)
      → (r ≡ inr Deleter.deleted → I (sys.remove v c.path))
      → I v
      → I (after_delete sys v c.path r)
  unfolding after_delete
  after_delete_keeps I v c (inr Deleter.deleted) f i = f refl
  after_delete_keeps I v c (inr Deleter.already_absent) f i = i
  after_delete_keeps I v c (inl e) f i = i

  -- Without any ledger, a sweep changes the world only by removals, each of a file that the sweep may
  -- delete and whose open handle identified it at the time. What these keep, the sweep keeps.
  pub local_only_keeps :
      (I : W → Type 0)
      → ((v : W) (c : RetentionCandidate P) (f : OpenFile)
          → MayDelete (environment sys (local_only sys.describe)) w c
          → sys.open_file v c.path ≡ found f
          → IsIdentified sys.sha256 c f c.authorization
          → I v
          → I (sys.remove v c.path))
      → I w
      → I (sweep_retention (environment sys (local_only sys.describe)) policy w).0
  unfolding environment local_only local_delete system_delete_exact
  local_only_keeps I keeps i =
      sweep_retention_keeps (environment sys (local_only sys.describe)) policy w I
        (λ v c q j.
          after_delete_keeps I v c
            (delete_exact sys.sha256 c c.authorization (sys.open_file v c.path))
            (λ h.
              let (f, e, identified) =
                (delete_exact_iff sys.sha256 c c.authorization (sys.open_file v c.path)).0.0 h in
              keeps v c f q e identified j)
            j)
        i
