-- ===== src/Retention/Plan/Budget.antt =====
-- The byte counts that a plan reports, where nothing reaches `u64::MAX`.
use autopiercam.Base.{
  ℕ, ◌+◌, ◌≤◌, ◌-◌, ◌≡◌, refl, inl, inr, Option, List, arith, u64_max, min, keep, keep-append,
  Bool-cases,
}
use autopiercam.Retention.Policy.{RetentionPolicy}
use autopiercam.Retention.Candidates.{
  PathOrder, RetentionCandidate, is_reclaimable, sort_candidates,
}
use autopiercam.Retention.Plan.{
  is_expired, ordered_candidates, plan_with_private_bytes, add_selected_sizes, select_expired,
}
use autopiercam.Retention.Plan.Accounting.{
  total, total-append, add_sizes-total, is_protected, total-split, add_protected_sizes-total,
  add_selected_sizes-total, total-expired-le, quota-total,
}
use autopiercam.Retention.Plan.Order.{total-sort, total-protect_last}
use autopiercam.Retention.Plan.Deletions.{plan-deletions}

module _ {P : Type 0} ⦃order : PathOrder P⦄ (policy : RetentionPolicy) (now : ℕ) (free : Option ℕ)
    (cs : List (RetentionCandidate P)) (private_bytes : ℕ) where
  total-ordered : total (ordered_candidates policy cs) ≡ total cs
  unfolding ordered_candidates
  total-ordered = elim (Bool-cases policy.keep_latest) [
    | inl e ↦ rw e (omega (arith, total-protect_last (sort_candidates cs), total-sort cs))
    | inr e ↦ rw e (total-sort cs)
  ]

  -- The planned bytes are those of the deletions, cut off at `u64::MAX`.
  planned-total :
      let plan = plan_with_private_bytes policy now free cs private_bytes in
      plan.planned_reclaim_bytes ≡ min (total plan.deletions) u64_max
  unfolding plan_with_private_bytes
  planned-total =
      let expired = select_expired policy now (ordered_candidates policy cs) in
      omega (
        arith,
        quota-total policy (plan_with_private_bytes policy now free cs private_bytes).managed_bytes
            free (add_selected_sizes 0 expired) expired 0
            (add_selected_sizes-total 0 expired (omega arith)),
      )

  -- The deletions weigh at most what is reclaimable.
  deletions-total-le :
      total (plan_with_private_bytes policy now free cs private_bytes).deletions
      ≤ total (keep is_reclaimable (ordered_candidates policy cs))
  deletions-total-le =
      let (older, newer, e, _, d, _) = plan-deletions policy now free cs private_bytes in
      rw (e, d, keep-append is_reclaimable older newer)
        (omega (
          arith,
          total-append (keep is_reclaimable older) (keep (is_expired policy now) newer),
          total-append (keep is_reclaimable older) (keep is_reclaimable newer),
          total-expired-le policy now newer,
        ))

  managed-total :
      private_bytes ≤ u64_max
      → (plan_with_private_bytes policy now free cs private_bytes).managed_bytes
        ≡ min (private_bytes + total cs) u64_max
  unfolding plan_with_private_bytes
  managed-total h =
      omega (arith, add_sizes-total private_bytes (sort_candidates cs) h, total-sort cs)

  protected-total :
      private_bytes ≤ u64_max
      → (plan_with_private_bytes policy now free cs private_bytes).protected_bytes
        ≡ min (private_bytes + total (keep is_protected (ordered_candidates policy cs))) u64_max
  unfolding plan_with_private_bytes
  protected-total h = add_protected_sizes-total private_bytes (ordered_candidates policy cs) h

  plan_fields :
      let plan = plan_with_private_bytes policy now free cs private_bytes in
      (plan.reclaimable_bytes ≡ plan.managed_bytes - plan.protected_bytes)
      × (plan.projected_managed_bytes ≡ plan.managed_bytes - plan.planned_reclaim_bytes)
  unfolding plan_with_private_bytes
  plan_fields = (refl, refl)

  -- If all the bytes together stay within a `u64`: the planned bytes are exactly those of the
  -- deletions, the managed bytes are the private and the candidates' bytes, they split into protected
  -- and reclaimable bytes, the plan reclaims at most the reclaimable ones, and what it projects is
  -- what is left.
  pub plan_accounts :
      private_bytes + total cs ≤ u64_max
      → let plan = plan_with_private_bytes policy now free cs private_bytes in
        (plan.planned_reclaim_bytes ≡ total plan.deletions)
        × (plan.managed_bytes ≡ private_bytes + total cs)
        × (plan.protected_bytes + plan.reclaimable_bytes ≡ plan.managed_bytes)
        × (plan.planned_reclaim_bytes ≤ plan.reclaimable_bytes)
        × (plan.projected_managed_bytes + plan.planned_reclaim_bytes ≡ plan.managed_bytes)
  plan_accounts fits = omega (
    arith,
    planned-total,
    deletions-total-le,
    managed-total,
    protected-total,
    plan_fields,
    total-split (ordered_candidates policy cs),
    total-ordered,
  )
