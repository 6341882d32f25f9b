-- ===== src/Retention/Plan/Minimal.antt =====
-- The last file that the quota loop of a plan adds, and what the others reclaim without it.
use autopiercam.Base.{
  ◌+◌, keep-append, ℕ, ◌≡◌, refl, ap, ◌⊎◌, inl, inr, Bool, true, false, not, ◌&&◌, ◌||◌, ◌∙◌,
  Option, List, [], ◌∷◌, ◌++◌, arith, if◌then◌else◌, Bool-cases, saturating_add, keep,
}
use autopiercam.Retention.Policy.{RetentionPolicy}
use autopiercam.Retention.Candidates.{RetentionCandidate, is_reclaimable}
use autopiercam.Retention.Plan.{
  is_expired, select_expired, quota_met, Selection, select_for_quota, add_selected_sizes,
  selected_candidates, add_sizes,
}
use autopiercam.Retention.Plan.Selection.{
  selected_skip, selected_take, quota_skip, quota_stop, quota_take, selected-expired,
}
use autopiercam.Retention.Plan.Accounting.{
  total, total-append, add_sizes-total, add_selected_sizes-total,
}

module _ {P : Type 0} where
  pub expired→reclaimable :
      (policy : RetentionPolicy) (now : ℕ) (c : RetentionCandidate P)
      → is_expired policy now c ≡ true
      → is_reclaimable c ≡ true
  expired→reclaimable policy now c h = ground arith

  -- A candidate that only the quota loop selects.
  abbrev pub is_added : RetentionPolicy → ℕ → RetentionCandidate P → Bool
  is_added policy now c = is_reclaimable c && not (is_expired policy now c)

  module _ (policy : RetentionPolicy) (managed : ℕ) (free : Option ℕ) (now : ℕ) where
    abbrev later : List (RetentionCandidate P) → List (RetentionCandidate P)
    later back = keep (is_expired policy now) back

    -- The loop adds nothing, or there is a last candidate that it adds, and the quotas are not met by
    -- what was planned before it and the candidates added before it.
    abbrev pub IsNeeded : ℕ → List (RetentionCandidate P) → Selection P × ℕ → Type 0
    IsNeeded planned cs final =
        (final.0 ≡ select_expired policy now cs)
        ⊎ ((front : List (RetentionCandidate P)) × (c : RetentionCandidate P) × (back : List
              (RetentionCandidate P))
            × (cs ≡ front ++ c ∷ back)
            × (is_added policy now c ≡ true)
            × (selected_candidates final.0 ≡ keep is_reclaimable front ++ c ∷ later back)
            × (quota_met policy managed free (add_sizes planned (keep (is_added policy now) front))
                ≡ false))

    IsNeeded-skip :
        (planned : ℕ) (c : RetentionCandidate P) (cs : List (RetentionCandidate P))
        (final : Selection P × ℕ)
        → (is_expired policy now c || not (is_reclaimable c)) ≡ true
        → IsNeeded planned cs final
        → IsNeeded planned (c ∷ cs) ((is_expired policy now c, c) ∷ final.0, final.1)
    unfolding select_expired
    IsNeeded-skip planned c cs final h (inl e) = inl (ap (◌∷◌ (is_expired policy now c, c)) e)
    IsNeeded-skip planned c cs final h (inr (front, d, back, e, a, f, m)) =
        let not_added : is_added policy now c ≡ false = ground (arith, h) in
        inr (
          c ∷ front,
          d,
          back,
          ap (◌∷◌ c) e,
          a,
          selected_skip policy now c final.0 front (d ∷ later back) f h,
          rw not_added m,
        )

    IsNeeded-take :
        (planned : ℕ) (c : RetentionCandidate P) (cs : List (RetentionCandidate P))
        (final : Selection P × ℕ)
        → (is_expired policy now c || not (is_reclaimable c)) ≡ false
        → quota_met policy managed free planned ≡ false
        → IsNeeded (saturating_add planned c.file_size_bytes) cs final
        → IsNeeded planned (c ∷ cs) ((true, c) ∷ final.0, final.1)
    unfolding add_sizes selected_candidates
    IsNeeded-take planned c cs final h m (inl e) = inr (
      [],
      c,
      cs,
      refl,
      ground (arith, h),
      ap (◌∷◌ c) (ap selected_candidates e ∙ selected-expired policy now cs),
      m,
    )
    IsNeeded-take planned c cs final h m (inr (front, d, back, e, a, f, n)) =
        let added : is_added policy now c ≡ true = ground (arith, h) in
        inr (
          c ∷ front,
          d,
          back,
          ap (◌∷◌ c) e,
          a,
          selected_take policy now c final.0 front (d ∷ later back) f h,
          rw added n,
        )

    pub quota-IsNeeded :
        (planned : ℕ) (cs : List (RetentionCandidate P))
        → IsNeeded planned cs
            (select_for_quota policy managed free planned (select_expired policy now cs))
    unfolding select_expired
    quota-IsNeeded planned [] = inl (unfold select_for_quota in refl)
    quota-IsNeeded planned (c ∷ cs) =
        let xs = select_expired policy now cs in
        let expired = is_expired policy now c in
        elim (Bool-cases (expired || not (is_reclaimable c))) [
          | inl h ↦ rw (quota_skip policy managed free planned expired c xs h) (
              IsNeeded-skip planned c cs (select_for_quota policy managed free planned xs) h
                (quota-IsNeeded planned cs))
          | inr h ↦ elim (Bool-cases (quota_met policy managed free planned)) [
            | inl m ↦ rw (quota_stop policy managed free planned expired c xs h m) (inl refl)
            | inr m ↦ rw (quota_take policy managed free planned expired c xs h m) (
                IsNeeded-take planned c cs
                  (select_for_quota policy managed free (saturating_add planned c.file_size_bytes)
                    xs)
                  h m (quota-IsNeeded (saturating_add planned c.file_size_bytes) cs))
          ]
        ]

  total-added :
      (policy : RetentionPolicy) (now : ℕ) (cs : List (RetentionCandidate P))
      → total (keep (is_expired policy now) cs) + total (keep (is_added policy now) cs)
        ≡ total (keep is_reclaimable cs)
  total-added policy now [] = refl
  total-added policy now (c ∷ cs) =
      ground (arith, total-added policy now cs, expired→reclaimable policy now c)

  -- What is planned before the last candidate that the quota loop adds are the other deletions.
  pub planned_without :
      (policy : RetentionPolicy) (now : ℕ) (front : List (RetentionCandidate P))
      (c : RetentionCandidate P) (back : List (RetentionCandidate P))
      → is_added policy now c ≡ true
      → add_sizes
          (add_selected_sizes 0 (select_expired policy now (front ++ c ∷ back)))
          (keep (is_added policy now) front)
        ≡ add_sizes 0 (keep is_reclaimable front ++ keep (is_expired policy now) back)
  planned_without policy now front c back added =
      let expired : RetentionCandidate P → Bool = is_expired policy now in
      let all : List (RetentionCandidate P) = front ++ c ∷ back in
      let first = add_selected_sizes 0 (select_expired policy now all) in
      let start = add_selected_sizes-total 0 (select_expired policy now all) (omega arith) in
      let not_expired : expired c ≡ false = ground (arith, added) in
      omega (
        arith,
        start,
        ap total (selected-expired policy now all),
        ap total (keep-append expired front (c ∷ back)),
        total-append (keep expired front) (keep expired (c ∷ back)),
        ap (λ (b : Bool). total (if b then c ∷ keep expired back else keep expired back))
            not_expired,
        total-added policy now front,
        add_sizes-total first (keep (is_added policy now) front) (omega (arith, start)),
        add_sizes-total 0 (keep is_reclaimable front ++ keep expired back) (omega arith),
        total-append (keep is_reclaimable front) (keep expired back),
      )
