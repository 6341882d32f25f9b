-- ===== src/Retention/Sweep/Verdict.antt =====
-- What the telemetry of a sweep says of the quotas, which is what capture goes by.
use Prim.Native.String.{String}
use autopiercam.Base.{ℕ, ◌≡◌, ◌↔◌, true, false, Option, none, arith, Result, ok, err}
use autopiercam.Retention.Policy.{RetentionPolicy, has_byte_quota, quotas_satisfied}
use autopiercam.Retention.Candidates.{PathOrder}
use autopiercam.Retention.Errors.{RetentionErrors}
use autopiercam.Retention.Environment.{Environment, RetentionTelemetry, blocked, Survey, failed}
use autopiercam.Retention.Survey.{survey}
use autopiercam.Retention.Sweep.{
  Progress, report, initial_free, carry_out, sweep_surveyed, sweep_at, sweep_retention,
}

module _ {P W : Type 0} ⦃order : PathOrder P⦄ (env : Environment P W) (policy : RetentionPolicy)
    (w : W) where
  -- A sweep fails, or it comes to its end.
  pub sweep_retention_cases {ℓ} :
      (Q : RetentionTelemetry → Type ℓ)
      → ((now : ℕ) (free : Option ℕ) (e : String) → Q (failed now policy free e))
      → ((now count : ℕ) (p : Progress P W) (free : Option ℕ) (errors : RetentionErrors)
          → Q (report policy now count p (free, errors)))
      → Q (sweep_retention env policy w).1
  unfolding sweep_retention sweep_at sweep_surveyed carry_out
  sweep_retention_cases Q f r = at (env.now_unix_ms w)
    where
      surveyed :
          (now : ℕ) (probe : Option ℕ × RetentionErrors) (s : Result (Survey P))
          → Q (sweep_surveyed env policy w now probe s).1
      surveyed now (free, errors) (ok s) = r now _ _ _ _
      surveyed now probe (err e) = f now probe.0 e

      at : (n : Result ℕ) → Q (sweep_at env policy w n).1
      at (ok now) =
          surveyed now (initial_free env policy (env.available_bytes w)) (survey env w now)
      at (err e) = f 0 none e

-- The pressure is `Blocked` exactly if capture is to be suspended, and where it is not, the quotas
-- are satisfied by the bytes that the telemetry gives.
abbrev pub IsVerdict : RetentionPolicy → RetentionTelemetry → Type 0
IsVerdict policy t =
    ((t.pressure ≡ blocked) ↔ (t.blocked_pressure ≡ true))
    × (t.blocked_pressure ≡ false
        → has_byte_quota policy ≡ true
        → quotas_satisfied policy t.managed_bytes t.free_bytes ≡ true)

failed-IsVerdict :
    (policy : RetentionPolicy) (now : ℕ) (free : Option ℕ) (e : String)
    → IsVerdict policy (failed now policy free e)
unfolding failed
failed-IsVerdict policy now free e = ground arith

report-IsVerdict :
    {P W : Type 0} (policy : RetentionPolicy) (now count : ℕ) (p : Progress P W) (free : Option ℕ)
    (errors : RetentionErrors)
    → IsVerdict policy (report policy now count p (free, errors))
unfolding report
report-IsVerdict policy now count p free errors = ground arith

-- Whether a sweep fails or comes to its end: its pressure is `Blocked` exactly if it asks for
-- capture to be suspended, and if it does not under a byte quota, the quotas are satisfied by the
-- managed and the free bytes that it reports.
pub sweep_retention-IsVerdict :
    {P W : Type 0} ⦃order : PathOrder P⦄ (env : Environment P W) (policy : RetentionPolicy) (w : W)
    → IsVerdict policy (sweep_retention env policy w).1
sweep_retention-IsVerdict env policy w =
    sweep_retention_cases env policy w (IsVerdict policy) (failed-IsVerdict policy)
      (report-IsVerdict policy)
