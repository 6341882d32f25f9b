-- ===== src/Retention/Plan/Accounting.antt =====
-- The byte counts of a plan: the saturating folds are the plain sums, cut off at `u64::MAX`.
use autopiercam.Base.{
  ℕ, ◌+◌, ◌≤◌, ◌≡◌, refl, Bool, true, false, not, ◌||◌, Option, List, [], ◌∷◌, ◌++◌, arith, min,
  if◌then◌else◌, saturating_add, u64_max, keep,
}
use autopiercam.Retention.Policy.{RetentionPolicy}
use autopiercam.Retention.Candidates.{RetentionCandidate, is_reclaimable}
use autopiercam.Retention.Plan.{
  Selection, add_sizes, add_protected_sizes, add_selected_sizes, is_expired, select_for_quota,
  selected_candidates,
}
use autopiercam.Retention.Plan.Selection.{quota_rule}

module _ {P : Type 0} where
  -- The sum of the sizes, unbounded.
  abbrev pub total : List (RetentionCandidate P) → ℕ
  total [] = 0
  total (c ∷ cs) = c.file_size_bytes + total cs

  pub total-append : (xs ys : List (RetentionCandidate P)) → total (xs ++ ys) ≡ total xs + total ys
  total-append [] ys = omega arith
  total-append (x ∷ xs) ys = omega (arith, total-append xs ys)

  pub add_sizes-total :
      (t : ℕ) (cs : List (RetentionCandidate P))
      → t ≤ u64_max
      → add_sizes t cs ≡ min (t + total cs) u64_max
  unfolding add_sizes
  add_sizes-total t [] h = omega arith
  add_sizes-total t (c ∷ cs) h =
      omega (arith, add_sizes-total (saturating_add t c.file_size_bytes) cs (omega arith))

  abbrev pub is_protected : RetentionCandidate P → Bool
  is_protected c = not (is_reclaimable c)

  pub total-split :
      (cs : List (RetentionCandidate P))
      → total (keep is_reclaimable cs) + total (keep is_protected cs) ≡ total cs
  total-split [] = omega arith
  total-split (c ∷ cs) = ground (arith, total-split cs)

  pub add_protected_sizes-total :
      (t : ℕ) (cs : List (RetentionCandidate P))
      → t ≤ u64_max
      → add_protected_sizes t cs ≡ min (t + total (keep is_protected cs)) u64_max
  unfolding add_protected_sizes
  add_protected_sizes-total t [] h = omega arith
  add_protected_sizes-total t (c ∷ cs) h = ground (
    arith,
    add_protected_sizes-total (saturating_add t c.file_size_bytes) cs (omega arith),
    add_protected_sizes-total t cs h,
  )

  pub add_selected_sizes-total :
      (t : ℕ) (xs : Selection P)
      → t ≤ u64_max
      → add_selected_sizes t xs ≡ min (t + total (selected_candidates xs)) u64_max
  unfolding add_selected_sizes selected_candidates
  add_selected_sizes-total t [] h = omega arith
  add_selected_sizes-total t ((selected, c) ∷ xs) h = ground (
    arith,
    add_selected_sizes-total (saturating_add t c.file_size_bytes) xs (omega arith),
    add_selected_sizes-total t xs h,
  )

  pub total-expired-le :
      (policy : RetentionPolicy) (now : ℕ) (cs : List (RetentionCandidate P))
      → total (keep (is_expired policy now) cs) ≤ total (keep is_reclaimable cs)
  total-expired-le policy now [] = omega arith
  total-expired-le policy now (c ∷ cs) = ground (arith, total-expired-le policy now cs)

  total-selected :
      (selected : Bool) (c : RetentionCandidate P) (xs : Selection P)
      → total (selected_candidates ((selected, c) ∷ xs))
        ≡ (if selected then c.file_size_bytes else 0) + total (selected_candidates xs)
  unfolding selected_candidates
  total-selected true c xs = refl
  total-selected false c xs = omega arith

  -- If `planned` counts the candidates that come selected, and `b` bytes besides, so it does after
  -- the loop.
  pub quota-total :
      (policy : RetentionPolicy) (managed : ℕ) (free : Option ℕ) (planned : ℕ) (xs : Selection P)
      → let final = select_for_quota policy managed free planned xs in
        (b : ℕ)
        → planned ≡ min (b + total (selected_candidates xs)) u64_max
        → final.1 ≡ min (b + total (selected_candidates final.0)) u64_max
  quota-total policy managed free =
      quota_rule policy managed free
        (λ planned xs s p.
          (b : ℕ)
          → planned ≡ min (b + total (selected_candidates xs)) u64_max
          → p ≡ min (b + total (selected_candidates s)) u64_max)
        (λ planned b e. e)
        (λ planned selected c rest s p h ih b e.
          let size = if selected then c.file_size_bytes else 0 in
          omega (
            arith,
            ih (b + size) (omega (arith, total-selected selected c rest)),
            total-selected selected c s,
          ))
        (λ planned selected c rest h m b e. e)
        (λ planned selected c rest s p h m ih b e. omega (
          arith,
          ih (b + c.file_size_bytes) (taken planned selected c rest b h e),
          total-selected true c s,
        ))
    where
      taken :
          (planned : ℕ) (selected : Bool) (c : RetentionCandidate P) (rest : Selection P) (b : ℕ)
          → (selected || not (is_reclaimable c)) ≡ false
          → planned ≡ min (b + total (selected_candidates ((selected, c) ∷ rest))) u64_max
          → saturating_add planned c.file_size_bytes
            ≡ min (b + c.file_size_bytes + total (selected_candidates rest)) u64_max
      taken planned true c rest b h e = ground arith
      taken planned false c rest b h e = omega (arith, total-selected false c rest)
