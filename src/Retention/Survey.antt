-- ===== src/Retention/Survey.antt =====
-- The first part of `sweep_retention`: what a sweep knows before it plans.
use autopiercam.Base.{
  ℕ, Bool, false, not, ◌&&◌, ◌||◌, List, [], ◌∷◌, ◌==◌, if◌then◌else◌, is_some_and, length, Result,
  ok, ◌>>=◌, ◌>>◌, guard, map_err,
}
use autopiercam.Base.Text.{◌+++◌, show_usize}
use autopiercam.Retention.Candidates.{
  PathOrder, ManagedArtifact, RetentionAuthorization, protected_authorization, authorizes,
  RetentionCandidate,
}
use autopiercam.Retention.Errors.{RetentionErrors, push}
use autopiercam.Retention.Environment.{Environment, Survey}

-- `inventory.into_iter().zip(authorizations)`.
abbrev pub zip {ℓ κ} : {A : Type ℓ} {B : Type κ} → List A → List B → List (A × B)
zip (x ∷ xs) (y ∷ ys) = (x, y) ∷ zip xs ys
zip _ _ = []

module _ {P : Type 0} ⦃order : PathOrder P⦄ where
  -- `scheduled.contains(&artifact.path)`: two paths are equal if each is at most the other.
  unfoldable pub contains : List P → P → Bool
  contains [] path = false
  contains (p ∷ rest) path = (order.le p path && order.le path p) || contains rest path

  -- The authorization that survives the checks.
  unfoldable pub size_mismatch : ManagedArtifact P → RetentionAuthorization → Bool
  size_mismatch artifact authorization =
      authorizes authorization
      && is_some_and authorization.expected_file_size_bytes
          (λ expected. not (expected == artifact.file_size_bytes))

  unfoldable pub unscheduled :
      List P → ManagedArtifact P → RetentionAuthorization → RetentionAuthorization
  unscheduled scheduled artifact authorization =
      if contains scheduled artifact.path then protected_authorization else authorization

  unfoldable pub final_authorization :
      List P → ManagedArtifact P → RetentionAuthorization → RetentionAuthorization
  final_authorization scheduled artifact authorization =
      let a : RetentionAuthorization = unscheduled scheduled artifact authorization in
      if size_mismatch artifact a then protected_authorization else a

  unfoldable pub candidate :
      List P → ManagedArtifact P × RetentionAuthorization → RetentionCandidate P
  candidate scheduled (artifact, authorization) = record {
    path = artifact.path;
    captured_at_unix_ms = artifact.captured_at_unix_ms;
    file_size_bytes = artifact.file_size_bytes;
    authorization = final_authorization scheduled artifact authorization;
  }

  unfoldable pub candidates :
      List P → List (ManagedArtifact P × RetentionAuthorization) → List (RetentionCandidate P)
  candidates scheduled [] = []
  candidates scheduled (x ∷ rest) = candidate scheduled x ∷ candidates scheduled rest

module _ {P W : Type 0} ⦃order : PathOrder P⦄ (env : Environment P W) where
  -- The messages of the same pass.
  unfoldable pub report_mismatches :
      List P → RetentionErrors → List (ManagedArtifact P × RetentionAuthorization) → RetentionErrors
  report_mismatches scheduled errors [] = errors
  report_mismatches scheduled errors ((artifact, authorization) ∷ rest) =
      let more : RetentionErrors =
        if size_mismatch artifact (unscheduled scheduled artifact authorization)
        then push errors (
            "protecting "
            +++ env.display artifact.path
            +++ " because its inventory size no longer matches the authorized size")
        else errors in
      report_mismatches scheduled more rest

  -- The steps that may end a sweep with an error.
  unfoldable pub survey : W → ℕ → Result (Survey P)
  survey w swept_at_unix_ms = do
    inventory ← env.inventory w
    authorizations ←
        map_err (λ e. "retention authority failed: " +++ e) (env.classify_inventory w inventory)
    guard (length authorizations == length inventory) (
        "retention authority returned "
        +++ show_usize (length authorizations)
        +++ " classifications for an inventory of "
        +++ show_usize (length inventory)
        +++ " artifacts")
    scheduled ← env.protected_outputs w swept_at_unix_ms
    bytes ← map_err (λ e. "counting private video storage failed: " +++ e) (env.private_bytes w)
    ok (record {
      scheduled = scheduled;
      classified = zip inventory authorizations;
      private_bytes = bytes;
    })
