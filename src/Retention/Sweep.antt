-- ===== src/Retention/Sweep.antt =====
-- `sweep_retention`: one pass of the worker. The file system, the clock and the upload ledger are
-- a world `W`, read and changed through the traits of the source.
pub mod Deletions
pub mod Accounts
pub mod Verdict
use Prim.Native.String.{String}
use autopiercam.Base.{
  ℕ, ◌+◌, ◌-◌, Bool, true, false, not, ◌&&◌, ◌||◌, Option, none, some, List, [], ◌∷◌, ◌==◌,
  if◌then◌else◌, is_some_and, map_option, length, saturating_add, Result, ok, err, ◌>>=◌, ◌>>◌,
  guard, map_err,
}
use autopiercam.Base.Text.{◌+++◌, show_usize}
use autopiercam.Retention.Policy.{
  RetentionPolicy, has_byte_quota, needs_free_space, quotas_satisfied,
}
use autopiercam.Retention.Candidates.{
  PathOrder, ManagedArtifact, RetentionAuthorization, protected_authorization, authorizes,
  RetentionCandidate,
}
use autopiercam.Retention.Plan.{RetentionPlan, plan_with_private_bytes}
use autopiercam.Retention.Errors.{
  bounded_error_message, RetentionErrors, no_errors, push, is_empty, finish,
}
use autopiercam.Retention.Environment.{
  RetentionDeletionOutcome, deleted, already_absent, protected, Environment, RetentionPressure,
  fine, cleanup_needed, blocked, RetentionTelemetry, failed, Survey,
}
use autopiercam.Retention.Survey.{
  zip, contains, size_mismatch, unscheduled, final_authorization, candidate, candidates,
  report_mismatches, survey,
}

module _ (P W : Type 0) where
  -- What the deletions have done so far.
  pub record Progress : Type 0 where
    pub world : W
    pub managed_bytes : ℕ
    pub protected_bytes : ℕ
    pub reclaimable_bytes : ℕ
    pub reclaimed_file_count : ℕ
    pub reclaimed_bytes : ℕ
    pub unresolved_deletions : ℕ
    pub errors : RetentionErrors

module _ {P : Type 0} ⦃order : PathOrder P⦄ where
  -- The plan of a sweep.
  unfoldable pub sweep_plan : RetentionPolicy → ℕ → Option ℕ → Survey P → RetentionPlan P
  sweep_plan policy swept_at_unix_ms free s =
      plan_with_private_bytes policy swept_at_unix_ms free (candidates s.scheduled s.classified)
        s.private_bytes

module _ {P W : Type 0} where
  -- The counters with which the deletions begin.
  unfoldable pub start : W → RetentionPlan P → RetentionErrors → Progress P W
  start w plan errors = record {
    world = w;
    managed_bytes = plan.managed_bytes;
    protected_bytes = plan.protected_bytes;
    reclaimable_bytes = plan.reclaimable_bytes;
    reclaimed_file_count = 0;
    reclaimed_bytes = 0;
    unresolved_deletions = 0;
    errors = errors;
  }

  -- The telemetry of a sweep that came to its end.
  unfoldable pub report :
      RetentionPolicy → ℕ → ℕ → Progress P W → Option ℕ × RetentionErrors → RetentionTelemetry
  report policy swept_at_unix_ms deletion_count p (free, errors) =
      let blocked_pressure : Bool = not (quotas_satisfied policy p.managed_bytes free) in
      record {
        swept_at_unix_ms = swept_at_unix_ms;
        managed_bytes = p.managed_bytes;
        protected_bytes = p.protected_bytes;
        reclaimable_bytes = p.reclaimable_bytes;
        free_bytes = free;
        reclaimed_file_count = p.reclaimed_file_count;
        reclaimed_bytes = p.reclaimed_bytes;
        blocked_pressure = blocked_pressure;
        pressure =
            if blocked_pressure
            then blocked
            else if not (p.unresolved_deletions == 0)
                || ((deletion_count == 0) && not (is_empty errors))
            then cleanup_needed
            else fine;
        error = finish errors;
      }

module _ {P W : Type 0} ⦃order : PathOrder P⦄ (env : Environment P W) where
  unfoldable pub record_outcome :
      Progress P W → RetentionCandidate P → Result RetentionDeletionOutcome → Progress P W
  record_outcome p c (ok deleted) = record p {
    managed_bytes = p.managed_bytes - c.file_size_bytes;
    reclaimable_bytes = p.reclaimable_bytes - c.file_size_bytes;
    reclaimed_file_count = saturating_add p.reclaimed_file_count 1;
    reclaimed_bytes = saturating_add p.reclaimed_bytes c.file_size_bytes;
  }
  record_outcome p c (ok already_absent) = record p {
    managed_bytes = p.managed_bytes - c.file_size_bytes;
    reclaimable_bytes = p.reclaimable_bytes - c.file_size_bytes;
  }
  record_outcome p c (ok protected) = record p {
    protected_bytes = saturating_add p.protected_bytes c.file_size_bytes;
    reclaimable_bytes = p.reclaimable_bytes - c.file_size_bytes;
    unresolved_deletions = p.unresolved_deletions + 1;
  }
  record_outcome p c (err error) = record p {
    unresolved_deletions = p.unresolved_deletions + 1;
    errors = push p.errors (
        "retaining "
        +++ env.display c.path
        +++ " after final authorization/deletion failed: "
        +++ error);
  }

  unfoldable pub delete_one : Progress P W → RetentionCandidate P → Progress P W
  delete_one p c =
      let (w, outcome) = env.delete_if_still_authorized p.world c in
      record_outcome (record p { world = w }) c outcome

  unfoldable pub delete_all : Progress P W → List (RetentionCandidate P) → Progress P W
  delete_all p [] = p
  delete_all p (c ∷ rest) = delete_all (delete_one p c) rest

  -- The free space before the plan, and the message if it is asked for and not known.
  unfoldable pub initial_free : RetentionPolicy → Result ℕ → Option ℕ × RetentionErrors
  initial_free policy (ok bytes) = (some bytes, no_errors)
  initial_free policy (err error) =
      if needs_free_space policy
      then (
        none,
        push no_errors ("querying free space for " +++ env.directory +++ " failed: " +++ error),
      )
      else (none, no_errors)

  -- The free space after the deletions.
  unfoldable pub final_free :
      RetentionPolicy → Option ℕ → Progress P W → Result ℕ → Option ℕ × RetentionErrors
  final_free policy initial p (ok bytes) = (some bytes, p.errors)
  final_free policy initial p (err error) =
      if needs_free_space policy
      then (
        none,
        push p.errors (
            "verifying free space for " +++ env.directory +++ " after retention failed: "
            +++ error),
      )
      else (map_option (λ bytes. saturating_add bytes p.reclaimed_bytes) initial, p.errors)

  unfoldable pub carry_out :
      RetentionPolicy → W → ℕ → Option ℕ × RetentionErrors → Survey P → W × RetentionTelemetry
  carry_out policy w swept_at_unix_ms (free, errors) s =
      let plan : RetentionPlan P = sweep_plan policy swept_at_unix_ms free s in
      let p : Progress P W =
        delete_all (start w plan (report_mismatches env s.scheduled errors s.classified))
          plan.deletions in
      (
        p.world,
        report policy swept_at_unix_ms (length plan.deletions) p
            (final_free policy free p (env.available_bytes p.world)),
      )

  unfoldable pub sweep_surveyed :
      RetentionPolicy
      → W
      → ℕ
      → Option ℕ × RetentionErrors
      → Result (Survey P)
      → W × RetentionTelemetry
  sweep_surveyed policy w swept_at_unix_ms probe (ok s) =
      carry_out policy w swept_at_unix_ms probe s
  sweep_surveyed policy w swept_at_unix_ms probe (err error) =
      (w, failed swept_at_unix_ms policy probe.0 error)

  unfoldable pub sweep_at : RetentionPolicy → W → Result ℕ → W × RetentionTelemetry
  sweep_at policy w (ok now) =
      sweep_surveyed policy w now (initial_free policy (env.available_bytes w)) (survey env w now)
  sweep_at policy w (err error) = (w, failed 0 policy none error)

  unfoldable pub sweep_retention : RetentionPolicy → W → W × RetentionTelemetry
  sweep_retention policy w = sweep_at policy w (env.now_unix_ms w)
