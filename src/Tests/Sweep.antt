-- ===== src/Tests/Sweep.antt =====
-- Runs of a sweep in a world that is the list of the deleted paths, and the theorems of the sweep
-- and of its messages applied to them.
use Prim.Native.String.{String, len, slice}
use text.Mathlib.Text.{is_char_boundary}
use autopiercam.Base.{
  ℕ, ◌+◌, ◌≤◌, ◌<◌, ◌≡◌, refl, sym, ap, subst, ◌∙◌, true, false, none, some, List, [], ◌∷◌, arith,
  Result, ok, err,
}
use autopiercam.Base.Text.{◌+++◌}
use autopiercam.Retention.Policy.{RetentionPolicy}
use autopiercam.Retention.Candidates.{
  ManagedArtifact, RetentionAuthorization, RetentionCandidate, reclaimable_authorization,
}
use autopiercam.Retention.Plan.{plan_with_private_bytes}
use autopiercam.Retention.Errors.{bounded_error_message}
use autopiercam.Retention.Errors.Bounds.{bounded_error_message_lem}
use autopiercam.Retention.Environment.{Environment, Survey, deleted}
use autopiercam.Retention.Survey.{
  candidates, candidate, final_authorization, unscheduled, size_mismatch, report_mismatches,
  contains, survey, zip,
}
use autopiercam.Retention.Sweep.{
  sweep_at, sweep_surveyed, carry_out, initial_free, sweep_plan, start, delete_all, delete_one,
  record_outcome, sweep_retention,
}
use autopiercam.Retention.Sweep.Deletions.{MayDelete, sweep_retention_keeps}
use autopiercam.Retention.Sweep.Accounts.{inventory_bytes, sweep_retention_accounts}
use autopiercam.Tests.Retention.{number_paths}

abbrev artifact : ℕ → ℕ → ℕ → ManagedArtifact ℕ
artifact path captured size = record {
  path = path;
  captured_at_unix_ms = captured;
  file_size_bytes = size;
}

abbrev pub artifacts : List (ManagedArtifact ℕ)
artifacts = artifact 1 100 10 ∷ artifact 2 200 20 ∷ artifact 3 300 30 ∷ artifact 4 400 40 ∷ []

-- File 3 is not the ledger's of that size any more.
abbrev authorizations : List RetentionAuthorization
authorizations =
    reclaimable_authorization none none
    ∷ reclaimable_authorization (some 20) none
    ∷ reclaimable_authorization (some 31) none
    ∷ reclaimable_authorization (some 40) none
    ∷ []

-- A scheduled movie needs file 2.
abbrev pub world : Environment ℕ (List ℕ)
world = record {
  now_unix_ms = λ w. ok 1000;
  available_bytes = λ w. err "not supported";
  inventory = λ w. ok artifacts;
  classify_inventory = λ w inventory. ok authorizations;
  protected_outputs = λ w now. ok (2 ∷ []);
  private_bytes = λ w. ok 5;
  delete_if_still_authorized = λ w c. (c.path ∷ w, ok deleted);
  directory = "captures";
  display = λ p. "file";
}

abbrev pub quota : RetentionPolicy
quota = record {
  max_age_ms = none;
  max_managed_bytes = some 60;
  min_free_bytes = none;
  keep_latest = false;
}

-- Only files 1 and 4 may go, and both must.
sweep_runs : (sweep_retention world quota []).0 ≡ 4 ∷ 1 ∷ []
unfolding sweep_retention sweep_at sweep_surveyed carry_out survey initial_free sweep_plan
    candidates candidate final_authorization unscheduled size_mismatch contains
    plan_with_private_bytes start report_mismatches delete_all delete_one record_outcome
sweep_runs = refl

-- File 2 is not among the deleted ones.
abbrev Spares2 : List ℕ → Type 0
Spares2 w = contains w 2 ≡ false

scheduled_of : Result (Survey ℕ) → List ℕ
scheduled_of (ok s) = s.scheduled
scheduled_of (err e) = []

scheduled : (w : List ℕ) (now : ℕ) → scheduled_of (survey world w now) ≡ 2 ∷ []
unfolding survey scheduled_of
scheduled w now = refl

deletion-Spares2 :
    (v : List ℕ) (c : RetentionCandidate ℕ)
    → MayDelete world [] c
    → Spares2 v
    → Spares2 (c.path ∷ v)
unfolding scheduled_of contains
deletion-Spares2 v c (now, s, e, k, (x, m, p, z, a, r, free, fits)) h =
    apart (subst (λ l. contains l c.path ≡ false) (sym (ap scheduled_of k) ∙ scheduled [] now) free)
  where
    apart : contains (2 ∷ []) c.path ≡ false → contains (c.path ∷ v) 2 ≡ false
    apart q = ground (arith, q, h)

sweep_retention_keeps_example : Spares2 (sweep_retention world quota []).0
unfolding contains
sweep_retention_keeps_example = sweep_retention_keeps world quota [] Spares2 deletion-Spares2 refl

sweep_retention_accounts_example :
    let t = (sweep_retention world quota []).1 in
    (t.protected_bytes + t.reclaimable_bytes ≡ t.managed_bytes)
    × (t.managed_bytes + t.reclaimed_bytes ≤ 5 + inventory_bytes (zip artifacts authorizations))
unfolding survey
sweep_retention_accounts_example =
    sweep_retention_accounts world quota [] 1000
      (record { scheduled = 2 ∷ []; classified = zip artifacts authorizations; private_bytes = 5 })
      refl refl (omega arith)

bounded_error_message_lem_example :
    (len "disk full" ≤ 1024 → bounded_error_message "disk full" ≡ "disk full")
    × (1024 < len "disk full"
        → (end : ℕ) × (bounded_error_message "disk full" ≡ slice "disk full" 0 end +++ "…")
          × (len (slice "disk full" 0 end) ≡ end)
          × (end ≤ 1021)
          × ((k : ℕ) → is_char_boundary "disk full" k ≡ true → k ≤ 1021 → k ≤ end))
    × (len (bounded_error_message "disk full") ≤ 1024)
bounded_error_message_lem_example = bounded_error_message_lem "disk full"

abbrev nine : List String
nine = "1" ∷ "2" ∷ "3" ∷ "4" ∷ "5" ∷ "6" ∷ "7" ∷ "8" ∷ "9" ∷ []
