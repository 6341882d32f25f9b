-- ===== src/Tests/Retention.antt =====
-- Runs of the retention planner, and its theorems applied to them.
use mathlib.Core.List.{Sublist}
use autopiercam.Base.{
  ℕ, ◌+◌, ◌≤◌, ◌≡◌, refl, ◌⊎◌, inl, true, false, none, some, List, [], ◌∷◌, ◌++◌, arith, leb, All,
  keep,
}
use autopiercam.Retention.Policy.{RetentionPolicy, needs_free_space}
use autopiercam.Retention.Candidates.{
  PathOrder, RetentionCandidate, is_reclaimable, candidate_le, sort_candidates,
  protected_authorization, reclaimable_authorization,
}
use autopiercam.Retention.Plan.{
  is_expired, quota_met, ordered_candidates, plan_with_private_bytes, add_sizes,
}
use autopiercam.Retention.Plan.Accounting.{total}
use autopiercam.Retention.Plan.Deletions.{
  plan-deletions, plan_minimal, plan_blocked, plan_keeps_latest,
}
use autopiercam.Retention.Plan.Budget.{plan_accounts}

pub leb_total : (a b : ℕ) → leb a b ≡ false → leb b a ≡ true
leb_total a b h = ground arith

pub leb_trans : (a b c : ℕ) → leb a b ≡ true → leb b c ≡ true → leb a c ≡ true
leb_trans a b c h k = ground arith

pub leb_antisymm : (a b : ℕ) → leb a b ≡ true → leb b a ≡ true → a ≡ b
leb_antisymm a b h k = ground arith

-- Paths are numbers here, in their usual order.
instance abbrev pub number_paths : PathOrder ℕ
number_paths = record {
  le = leb;
  le_total = leb_total;
  le_trans = leb_trans;
  le_antisymm = leb_antisymm;
}

abbrev file : ℕ → ℕ → ℕ → RetentionCandidate ℕ
file path captured size = record {
  path = path;
  captured_at_unix_ms = captured;
  file_size_bytes = size;
  authorization = reclaimable_authorization none none;
}

abbrev kept_file : ℕ → ℕ → ℕ → RetentionCandidate ℕ
kept_file path captured size = record (file path captured size) {
  authorization = protected_authorization;
}

abbrev files : List (RetentionCandidate ℕ)
files = file 4 900 40 ∷ file 1 100 10 ∷ kept_file 2 200 20 ∷ file 3 300 30 ∷ file 5 950 50 ∷ []

-- Old files go after 800 ms; at most 75 bytes are kept, and the newest file.
abbrev policy : RetentionPolicy
policy = record {
  max_age_ms = some 800;
  max_managed_bytes = some 75;
  min_free_bytes = none;
  keep_latest = true;
}

plan_runs :
    (plan_with_private_bytes policy 1000 none files 5).deletions
    ≡ file 1 100 10 ∷ file 3 300 30 ∷ file 4 900 40 ∷ []
unfolding plan_with_private_bytes
plan_runs = refl

plan-deletions_example :
    let plan = plan_with_private_bytes policy 1000 none files 5 in
    (older : List (RetentionCandidate ℕ)) × (newer : List (RetentionCandidate ℕ))
    × (ordered_candidates policy files ≡ older ++ newer)
    × All (λ a. All (λ b. candidate_le a b ≡ true) newer) older
    × (plan.deletions ≡ keep is_reclaimable older ++ keep (is_expired policy 1000) newer)
    × ((newer ≡ []) ⊎ (quota_met policy plan.managed_bytes none plan.planned_reclaim_bytes ≡ true))
plan-deletions_example = plan-deletions policy 1000 none files 5

plan_minimal_example :
    let plan = plan_with_private_bytes policy 1000 none files 5 in
    (plan.deletions ≡ keep (is_expired policy 1000) (ordered_candidates policy files))
    ⊎ ((front : List (RetentionCandidate ℕ)) × (c : RetentionCandidate ℕ) × (back : List
          (RetentionCandidate ℕ))
        × (ordered_candidates policy files ≡ front ++ c ∷ back)
        × (is_reclaimable c ≡ true)
        × (is_expired policy 1000 c ≡ false)
        × (plan.deletions ≡ keep is_reclaimable front ++ c ∷ keep (is_expired policy 1000) back)
        × (quota_met policy plan.managed_bytes none
              (add_sizes 0 (keep is_reclaimable front ++ keep (is_expired policy 1000) back))
            ≡ false))
plan_minimal_example = plan_minimal policy 1000 none files 5

-- With 60 private bytes the quota cannot be met.
plan_blocked_example :
    (plan_with_private_bytes policy 1000 none files 60).deletions
    ≡ keep is_reclaimable (ordered_candidates policy files)
unfolding plan_with_private_bytes needs_free_space
plan_blocked_example = plan_blocked policy 1000 none files 60 (inl refl) refl

plan_keeps_latest_example :
    let older = file 1 100 10 ∷ kept_file 2 200 20 ∷ file 3 300 30 ∷ file 4 900 40 ∷ [] in
    Sublist (plan_with_private_bytes policy 1000 none files 5).deletions (keep is_reclaimable older)
unfolding sort_candidates
plan_keeps_latest_example =
    plan_keeps_latest policy 1000 none files 5
      (file 1 100 10 ∷ kept_file 2 200 20 ∷ file 3 300 30 ∷ file 4 900 40 ∷ []) (file 5 950 50) refl
      refl

plan_accounts_example :
    let plan = plan_with_private_bytes policy 1000 none files 5 in
    (plan.planned_reclaim_bytes ≡ total plan.deletions)
    × (plan.managed_bytes ≡ 5 + total files)
    × (plan.protected_bytes + plan.reclaimable_bytes ≡ plan.managed_bytes)
    × (plan.planned_reclaim_bytes ≤ plan.reclaimable_bytes)
    × (plan.projected_managed_bytes + plan.planned_reclaim_bytes ≡ plan.managed_bytes)
plan_accounts_example = plan_accounts policy 1000 none files 5 (omega arith)
