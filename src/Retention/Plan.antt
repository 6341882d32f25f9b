-- ===== src/Retention/Plan.antt =====
-- `plan_with_private_bytes`: what a sweep will try to delete. The vectors `selected` and
-- `candidates`, of one length, are a list of pairs here.
pub mod Selection
pub mod Accounting
pub mod Minimal
pub mod Order
pub mod Deletions
pub mod Budget
use autopiercam.Base.{
  ℕ, ◌-◌, Bool, true, false, not, ◌&&◌, ◌||◌, Option, none, some, List, [], ◌∷◌, leb, if◌then◌else◌,
  map_option, saturating_add,
}
use autopiercam.Retention.Policy.{RetentionPolicy, quotas_satisfied, known_quotas_satisfied}
use autopiercam.Retention.Candidates.{
  PathOrder, RetentionCandidate, is_reclaimable, protect_last, sort_candidates,
}

-- The candidates in order, each with its entry of the vector `selected`.
abbrev pub Selection : Type 0 → Type 0
Selection P = List (Bool × RetentionCandidate P)

-- The test of the quota loop: `managed` and `free` as they would be with `planned` reclaimed.
unfoldable pub quota_met : RetentionPolicy → ℕ → Option ℕ → ℕ → Bool
unfolding known_quotas_satisfied
quota_met policy managed free planned =
    known_quotas_satisfied policy (managed - planned)
      (map_option (λ bytes. saturating_add bytes planned) free)

module _ {P : Type 0} where
  -- The folds that add up `file_size_bytes`.
  unfoldable pub add_sizes : ℕ → List (RetentionCandidate P) → ℕ
  add_sizes total [] = total
  add_sizes total (c ∷ rest) = add_sizes (saturating_add total c.file_size_bytes) rest

  -- The fold over the candidates that are not reclaimable.
  unfoldable pub add_protected_sizes : ℕ → List (RetentionCandidate P) → ℕ
  add_protected_sizes total [] = total
  add_protected_sizes total (c ∷ rest) =
      add_protected_sizes
        (if not (is_reclaimable c) then saturating_add total c.file_size_bytes else total) rest

  -- The age rule.
  abbrev pub is_expired : RetentionPolicy → ℕ → RetentionCandidate P → Bool
  is_expired policy now_unix_ms c = elim policy.max_age_ms [
    | none ↦ false
    | some max_age_ms ↦ is_reclaimable c && leb c.captured_at_unix_ms (now_unix_ms - max_age_ms)
  ]

  unfoldable pub select_expired : RetentionPolicy → ℕ → List (RetentionCandidate P) → Selection P
  select_expired policy now_unix_ms [] = []
  select_expired policy now_unix_ms (c ∷ rest) =
      (is_expired policy now_unix_ms c, c) ∷ select_expired policy now_unix_ms rest

  -- The fold over the selected candidates.
  unfoldable pub add_selected_sizes : ℕ → Selection P → ℕ
  add_selected_sizes total [] = total
  add_selected_sizes total ((selected, c) ∷ rest) =
      add_selected_sizes (if selected then saturating_add total c.file_size_bytes else total) rest

  -- The quota loop, with its `continue` and its `break`: the final selection, and the bytes planned.
  unfoldable pub select_for_quota :
      RetentionPolicy → ℕ → Option ℕ → ℕ → Selection P → Selection P × ℕ
  unfolding quota_met
  select_for_quota policy managed free planned [] = ([], planned)
  select_for_quota policy managed free planned ((selected, c) ∷ rest) =
      let skipped : Selection P × ℕ =
        let (s, p) = select_for_quota policy managed free planned rest in ((selected, c) ∷ s, p) in
      let taken : Selection P × ℕ =
        let (s, p) =
          select_for_quota policy managed free (saturating_add planned c.file_size_bytes) rest in
        ((true, c) ∷ s, p) in
      if selected || not (is_reclaimable c)
      then skipped
      else if quota_met policy managed free planned
      then ((selected, c) ∷ rest, planned)
      else taken

  -- The final `filter_map`.
  unfoldable pub selected_candidates : Selection P → List (RetentionCandidate P)
  selected_candidates [] = []
  selected_candidates ((selected, c) ∷ rest) =
      if selected then c ∷ selected_candidates rest else selected_candidates rest

module _ (P : Type 0) where
  pub record RetentionPlan : Type 0 where
    pub deletions : List (RetentionCandidate P)
    pub managed_bytes : ℕ
    pub protected_bytes : ℕ
    pub reclaimable_bytes : ℕ
    pub planned_reclaim_bytes : ℕ
    pub projected_managed_bytes : ℕ
    pub projected_free_bytes : Option ℕ
    pub quota_blocked : Bool

module _ {P : Type 0} where
  -- What follows the sort: `managed` is summed over the sorted candidates, and `candidates` are
  -- these after the `keep_latest` step.
  unfoldable pub plan_ordered :
      RetentionPolicy → ℕ → Option ℕ → ℕ → List (RetentionCandidate P) → ℕ → RetentionPlan P
  unfolding select_expired add_selected_sizes select_for_quota selected_candidates
      add_protected_sizes quotas_satisfied
  plan_ordered policy now_unix_ms free_bytes managed candidates private_bytes =
      let protected_bytes : ℕ = add_protected_sizes private_bytes candidates in
      let expired : Selection P = select_expired policy now_unix_ms candidates in
      let final : Selection P × ℕ =
        select_for_quota policy managed free_bytes (add_selected_sizes 0 expired) expired in
      let planned : ℕ = final.1 in
      let projected_managed : ℕ = managed - planned in
      let projected_free : Option ℕ =
        map_option (λ bytes. saturating_add bytes planned) free_bytes in
      record {
        deletions = selected_candidates final.0;
        managed_bytes = managed;
        protected_bytes = protected_bytes;
        reclaimable_bytes = managed - protected_bytes;
        planned_reclaim_bytes = planned;
        projected_managed_bytes = projected_managed;
        projected_free_bytes = projected_free;
        quota_blocked = not (quotas_satisfied policy projected_managed projected_free);
      }

module _ {P : Type 0} ⦃order : PathOrder P⦄ where
  -- The sorted candidates, the newest one protected under `keep_latest`.
  unfoldable pub ordered_candidates :
      RetentionPolicy → List (RetentionCandidate P) → List (RetentionCandidate P)
  unfolding sort_candidates protect_last
  ordered_candidates policy candidates =
      if policy.keep_latest
      then protect_last (sort_candidates candidates)
      else sort_candidates candidates

  unfoldable pub plan_with_private_bytes :
      RetentionPolicy → ℕ → Option ℕ → List (RetentionCandidate P) → ℕ → RetentionPlan P
  unfolding ordered_candidates plan_ordered add_sizes
  plan_with_private_bytes policy now_unix_ms free_bytes candidates private_bytes =
      plan_ordered policy now_unix_ms free_bytes
        (add_sizes private_bytes (sort_candidates candidates))
        (ordered_candidates policy candidates) private_bytes
