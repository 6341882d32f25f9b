-- ===== src/Retention/Plan/Deletions.antt =====
-- What `plan_with_private_bytes` promises of the files that it lets a sweep delete.
use mathlib.Core.List.{Sublist, append-nil}
use mathlib.Core.List.Sublist
use autopiercam.Base.{
  ℕ, ◌-◌, ◌≡◌, refl, sym, ap, subst, ◌∙◌, ◌⊎◌, inl, inr, true, false, not, Option, List, [], ◌∷◌,
  ◌++◌, arith, saturating_add, is_some, map_option, All, keep, keep-sublist, keep-append,
  Bool-cases,
}
use autopiercam.Retention.Policy.{RetentionPolicy, needs_free_space, quotas_satisfied}
use autopiercam.Retention.Candidates.{
  PathOrder, RetentionCandidate, is_reclaimable, candidate_le, sort_candidates, protect,
}
use autopiercam.Retention.Plan.{
  is_expired, quota_met, plan_ordered, ordered_candidates, plan_with_private_bytes, add_sizes,
  add_selected_sizes, select_expired, selected_candidates,
}
use autopiercam.Retention.Plan.Selection.{quota-split, selected-expired}
use autopiercam.Retention.Plan.Minimal.{
  quota-IsNeeded, is_added, expired→reclaimable, planned_without,
}
use autopiercam.Retention.Plan.Order.{
  IsSorted, sort-IsSorted, protect_last-IsSorted, protect_last-append, sorted_append,
}

module _ (policy : RetentionPolicy) (managed : ℕ) (free : Option ℕ) (planned : ℕ) where
  -- Where the free space is known, or not asked for, the test of the loop is that of the result.
  quota_met-satisfied :
      (needs_free_space policy ≡ false) ⊎ (is_some free ≡ true)
      → quota_met policy managed free planned ≡ true
      → quotas_satisfied policy
          (managed - planned)
          (map_option (λ bytes. saturating_add bytes planned) free)
        ≡ true
  unfolding quota_met quotas_satisfied needs_free_space
  quota_met-satisfied k h = ground arith

module _ {P : Type 0} where
  all_taken :
      (policy : RetentionPolicy) (now : ℕ) (older newer : List (RetentionCandidate P))
      → newer ≡ []
      → keep is_reclaimable older ++ keep (is_expired policy now) newer
        ≡ keep is_reclaimable (older ++ newer)
  all_taken policy now older [] h = simp append-nil
  all_taken policy now older (c ∷ newer) h = cc

module _ {P : Type 0} ⦃order : PathOrder P⦄ where
  pub ordered-IsSorted :
      (policy : RetentionPolicy) (cs : List (RetentionCandidate P))
      → IsSorted (ordered_candidates policy cs)
  unfolding ordered_candidates
  ordered-IsSorted policy cs = elim (Bool-cases policy.keep_latest) [
    | inl e ↦ rw e (protect_last-IsSorted (sort_candidates cs) (sort-IsSorted cs))
    | inr e ↦ rw e (sort-IsSorted cs)
  ]

  module _ (policy : RetentionPolicy) (now : ℕ) (free : Option ℕ) (cs : List (RetentionCandidate P))
      (private_bytes : ℕ) where
    -- The files to delete are the reclaimable ones of an older part of the candidates and the expired
    -- ones of the newer part. The newer part is empty unless the quotas, as far as the free space is
    -- known, are met by the planned deletions.
    pub plan-deletions :
        let plan = plan_with_private_bytes policy now free cs private_bytes in
        (older : List (RetentionCandidate P)) × (newer : List (RetentionCandidate P))
        × (ordered_candidates policy cs ≡ older ++ newer)
        × All (λ a. All (λ b. candidate_le a b ≡ true) newer) older
        × (plan.deletions ≡ keep is_reclaimable older ++ keep (is_expired policy now) newer)
        × ((newer ≡ [])
            ⊎ (quota_met policy plan.managed_bytes free plan.planned_reclaim_bytes ≡ true))
    unfolding plan_with_private_bytes plan_ordered
    plan-deletions =
        let ordered : List (RetentionCandidate P) = ordered_candidates policy cs in
        let (older, newer, e, d, stop) =
          quota-split policy
            (plan_with_private_bytes policy now free cs private_bytes).managed_bytes free now
            (add_selected_sizes 0 (select_expired policy now ordered)) ordered in
        (
          older,
          newer,
          e,
          sorted_append older newer (subst IsSorted e (ordered-IsSorted policy cs)),
          d,
          stop,
        )

    -- Every expired candidate is deleted, and only reclaimable candidates are. The order is that of
    -- the sort.
    pub plan-deletions_between :
        let plan = plan_with_private_bytes policy now free cs private_bytes in
        let ordered = ordered_candidates policy cs in
        Sublist (keep (is_expired policy now) ordered) plan.deletions
        × Sublist plan.deletions (keep is_reclaimable ordered)
    plan-deletions_between =
        let (older, newer, e, _, d, _) = plan-deletions in
        let permitted = expired→reclaimable policy now in
        rw
          (
            e,
            d,
            keep-append (is_expired policy now) older newer,
            keep-append is_reclaimable older newer,
          )
          (
            Sublist.append (keep-sublist _ _ permitted older) (Sublist.refl _),
            Sublist.append (Sublist.refl _) (keep-sublist _ _ permitted newer),
          )

    -- The quota rule is minimal: either only the expired candidates are deleted, or there is a last
    -- candidate that is deleted without having expired, and without it the other deletions would not
    -- have met the quotas. The deletions are then the reclaimable candidates before it in the order,
    -- itself, and the expired ones after it.
    pub plan_minimal :
        let plan = plan_with_private_bytes policy now free cs private_bytes in
        (plan.deletions ≡ keep (is_expired policy now) (ordered_candidates policy cs))
        ⊎ ((front : List (RetentionCandidate P)) × (c : RetentionCandidate P) × (back : List
              (RetentionCandidate P))
            × (ordered_candidates policy cs ≡ front ++ c ∷ back)
            × (is_reclaimable c ≡ true)
            × (is_expired policy now c ≡ false)
            × (plan.deletions ≡ keep is_reclaimable front ++ c ∷ keep (is_expired policy now) back)
            × (quota_met policy plan.managed_bytes free
                  (add_sizes 0 (keep is_reclaimable front ++ keep (is_expired policy now) back))
                ≡ false))
    unfolding plan_with_private_bytes plan_ordered
    plan_minimal =
        let ordered : List (RetentionCandidate P) = ordered_candidates policy cs in
        let managed : ℕ =
          (plan_with_private_bytes policy now free cs private_bytes).managed_bytes in
        let expired = select_expired policy now ordered in
        elim (quota-IsNeeded policy managed free now (add_selected_sizes 0 expired) ordered) [
          | inl e ↦ inl (ap selected_candidates e ∙ selected-expired policy now ordered)
          | inr (front, c, back, e, added, d, m) ↦ inr (
            front,
            c,
            back,
            e,
            ground (arith, added),
            ground (arith, added),
            d,
            subst (λ bytes. quota_met policy managed free bytes ≡ false)
                (ap
                    (λ (l : List (RetentionCandidate P)).
                      add_sizes (add_selected_sizes 0 (select_expired policy now l))
                        (keep (is_added policy now) front))
                    e
                  ∙ planned_without policy now front c back added)
                m,
          )
        ]

    -- The verdict of a plan is about the quotas that it projects.
    plan_verdict :
        let plan = plan_with_private_bytes policy now free cs private_bytes in
        plan.quota_blocked
        ≡ not (
            quotas_satisfied policy
              (plan.managed_bytes - plan.planned_reclaim_bytes)
              (map_option (λ bytes. saturating_add bytes plan.planned_reclaim_bytes) free))
    unfolding plan_with_private_bytes
    plan_verdict = refl

    -- A plan is blocked only after every reclaimable candidate was given up, unless the free space
    -- is asked for and not known.
    pub plan_blocked :
        (needs_free_space policy ≡ false) ⊎ (is_some free ≡ true)
        → let plan = plan_with_private_bytes policy now free cs private_bytes in
          plan.quota_blocked ≡ true
          → plan.deletions ≡ keep is_reclaimable (ordered_candidates policy cs)
    plan_blocked known blocked =
        let (older, newer, e, _, d, stop) = plan-deletions in
        let plan = plan_with_private_bytes policy now free cs private_bytes in
        elim stop [
          | inl all ↦ d ∙ all_taken policy now older newer all ∙ ap (keep is_reclaimable) (sym e)
          | inr met ↦ cc (
            plan_verdict,
            quota_met-satisfied policy plan.managed_bytes free plan.planned_reclaim_bytes known met,
          )
        ]

    -- Under `keep_latest` the newest candidate of the sort is never deleted.
    pub plan_keeps_latest :
        (older : List (RetentionCandidate P)) (newest : RetentionCandidate P)
        → policy.keep_latest ≡ true
        → sort_candidates cs ≡ older ++ newest ∷ []
        → let plan = plan_with_private_bytes policy now free cs private_bytes in
          Sublist plan.deletions (keep is_reclaimable older)
    unfolding ordered_candidates protect
    plan_keeps_latest older newest latest e =
        subst (Sublist (plan_with_private_bytes policy now free cs private_bytes).deletions) kept
          plan-deletions_between.1
      where
        kept : keep is_reclaimable (ordered_candidates policy cs) ≡ keep is_reclaimable older
        kept =
            rw
              (
                latest,
                e,
                protect_last-append older newest,
                keep-append is_reclaimable older (protect newest ∷ []),
              )
              (append-nil (keep is_reclaimable older))
