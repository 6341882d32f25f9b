-- ===== src/Retention/Plan/Selection.antt =====
-- Which candidates a plan deletes: only reclaimable ones, oldest first, and no more than the age
-- rule and the quotas ask for.
use autopiercam.Base.{
  ℕ, ◌≡◌, refl, ap, ◌⊎◌, inl, inr, Bool, true, false, not, ◌||◌, Option, List, [], ◌∷◌, ◌++◌, arith,
  if◌then◌else◌, Bool-cases, saturating_add, All, keep,
}
use autopiercam.Retention.Policy.{RetentionPolicy}
use autopiercam.Retention.Candidates.{RetentionCandidate, is_reclaimable}
use autopiercam.Retention.Plan.{
  is_expired, select_expired, quota_met, Selection, select_for_quota, selected_candidates,
}

module _ {P : Type 0} where
  -- A selected candidate is reclaimable.
  abbrev pub Permitted : Selection P → Type 0
  Permitted = All (λ entry. entry.0 ≡ true → is_reclaimable entry.1 ≡ true)

  pub expired-Permitted :
      (policy : RetentionPolicy) (now : ℕ) (cs : List (RetentionCandidate P))
      → Permitted (select_expired policy now cs)
  unfolding select_expired
  expired-Permitted policy now [] = tt
  expired-Permitted policy now (c ∷ cs) = (λ h. ground arith, expired-Permitted policy now cs)

  module _ (policy : RetentionPolicy) (managed : ℕ) (free : Option ℕ) where
    -- The two ways in which one round of the loop goes on, and the one in which it ends.
    pub quota_skip :
        (planned : ℕ) (selected : Bool) (c : RetentionCandidate P) (rest : Selection P)
        → (selected || not (is_reclaimable c)) ≡ true
        → let next = select_for_quota policy managed free planned rest in
          select_for_quota policy managed free planned ((selected, c) ∷ rest)
          ≡ ((selected, c) ∷ next.0, next.1)
    unfolding select_for_quota
    quota_skip planned selected c rest h = rw h

    pub quota_stop :
        (planned : ℕ) (selected : Bool) (c : RetentionCandidate P) (rest : Selection P)
        → (selected || not (is_reclaimable c)) ≡ false
        → quota_met policy managed free planned ≡ true
        → select_for_quota policy managed free planned ((selected, c) ∷ rest)
          ≡ ((selected, c) ∷ rest, planned)
    unfolding select_for_quota
    quota_stop planned selected c rest h m = rw (h, m)

    pub quota_take :
        (planned : ℕ) (selected : Bool) (c : RetentionCandidate P) (rest : Selection P)
        → (selected || not (is_reclaimable c)) ≡ false
        → quota_met policy managed free planned ≡ false
        → let next =
            select_for_quota policy managed free (saturating_add planned c.file_size_bytes) rest in
          select_for_quota policy managed free planned ((selected, c) ∷ rest)
          ≡ ((true, c) ∷ next.0, next.1)
    unfolding select_for_quota
    quota_take planned selected c rest h m = rw (h, m)

    -- The rule for the loop: a relation between its input and its result that every way to go on
    -- keeps holds of `select_for_quota`.
    pub quota_rule {ℓ} :
        (Q : ℕ → Selection P → Selection P → ℕ → Type ℓ)
        → ((planned : ℕ) → Q planned [] [] planned)
        → ((planned : ℕ) (selected : Bool) (c : RetentionCandidate P) (rest : Selection P)
              (s : Selection P) (p : ℕ)
            → (selected || not (is_reclaimable c)) ≡ true
            → Q planned rest s p
            → Q planned ((selected, c) ∷ rest) ((selected, c) ∷ s) p)
        → ((planned : ℕ) (selected : Bool) (c : RetentionCandidate P) (rest : Selection P)
            → (selected || not (is_reclaimable c)) ≡ false
            → quota_met policy managed free planned ≡ true
            → Q planned ((selected, c) ∷ rest) ((selected, c) ∷ rest) planned)
        → ((planned : ℕ) (selected : Bool) (c : RetentionCandidate P) (rest : Selection P)
              (s : Selection P) (p : ℕ)
            → (selected || not (is_reclaimable c)) ≡ false
            → quota_met policy managed free planned ≡ false
            → Q (saturating_add planned c.file_size_bytes) rest s p
            → Q planned ((selected, c) ∷ rest) ((true, c) ∷ s) p)
        → (planned : ℕ) (xs : Selection P)
        → let final = select_for_quota policy managed free planned xs in
          Q planned xs final.0 final.1
    unfolding select_for_quota
    quota_rule Q done skip stop take planned [] = done planned
    quota_rule Q done skip stop take planned ((selected, c) ∷ rest) =
        elim (Bool-cases (selected || not (is_reclaimable c))) [
          | inl h ↦
              rw h
                (skip planned selected c rest _ _ h (quota_rule Q done skip stop take planned rest))
          | inr h ↦ elim (Bool-cases (quota_met policy managed free planned)) [
            | inl m ↦ rw (h, m) (stop planned selected c rest h m)
            | inr m ↦
                rw (h, m)
                  (take planned selected c rest _ _ h m (
                    quota_rule Q done skip stop take (saturating_add planned c.file_size_bytes)
                      rest))
          ]
        ]

    -- The loop selects only reclaimable candidates.
    pub quota-Permitted :
        (planned : ℕ) (xs : Selection P)
        → Permitted xs
        → Permitted (select_for_quota policy managed free planned xs).0
    quota-Permitted =
        quota_rule (λ _ xs s _. Permitted xs → Permitted s) (λ _ _. tt)
          (λ _ selected c rest s p h ih ok. (ok.0, ih ok.1)) (λ _ selected c rest h m ok. ok)
          (λ _ selected c rest s p h m ih ok. (λ _. ground arith, ih ok.1))

  -- With no quota pass the deletions are the expired candidates.
  pub selected-expired :
      (policy : RetentionPolicy) (now : ℕ) (cs : List (RetentionCandidate P))
      → selected_candidates (select_expired policy now cs) ≡ keep (is_expired policy now) cs
  unfolding select_expired selected_candidates
  selected-expired policy now [] = refl
  selected-expired policy now (c ∷ cs) =
      ap (keep_step (is_expired policy now c)) (selected-expired policy now cs)
    where
      keep_step : Bool → List (RetentionCandidate P) → List (RetentionCandidate P)
      keep_step b l = if b then c ∷ l else l

  module _ (policy : RetentionPolicy) (now : ℕ) (c : RetentionCandidate P) (s : Selection P)
      (front tail : List (RetentionCandidate P))
      (rest : selected_candidates s ≡ keep is_reclaimable front ++ tail) where
    pub selected_skip :
        (is_expired policy now c || not (is_reclaimable c)) ≡ true
        → selected_candidates ((is_expired policy now c, c) ∷ s)
          ≡ keep is_reclaimable (c ∷ front) ++ tail
    unfolding selected_candidates
    selected_skip h = ground arith

    pub selected_take :
        (is_expired policy now c || not (is_reclaimable c)) ≡ false
        → selected_candidates ((true, c) ∷ s) ≡ keep is_reclaimable (c ∷ front) ++ tail
    unfolding selected_candidates
    selected_take h = ground arith

  module _ (policy : RetentionPolicy) (managed : ℕ) (free : Option ℕ) (now : ℕ) where
    abbrev later : List (RetentionCandidate P) → List (RetentionCandidate P)
    later back = keep (is_expired policy now) back

    -- The candidates deleted: the reclaimable ones of a first part, the expired ones of the rest. The
    -- rest is empty unless the quotas are met.
    pub quota-split :
        (planned : ℕ) (cs : List (RetentionCandidate P))
        → let final = select_for_quota policy managed free planned (select_expired policy now cs) in
          (front : List (RetentionCandidate P)) × (back : List (RetentionCandidate P)) × (cs
            ≡ front ++ back)
          × (selected_candidates final.0
              ≡ keep is_reclaimable front ++ keep (is_expired policy now) back)
          × ((back ≡ []) ⊎ (quota_met policy managed free final.1 ≡ true))
    unfolding select_expired
    quota-split planned [] =
        ([], [], refl, unfold select_for_quota selected_candidates in refl, inl refl)
    quota-split planned (c ∷ cs) =
        let xs = select_expired policy now cs in
        let expired = is_expired policy now c in
        elim (Bool-cases (expired || not (is_reclaimable c))) [
          | inl h ↦
              let (front, back, e, f, stop) = quota-split planned cs in
              rw (quota_skip policy managed free planned expired c xs h) (
                c ∷ front,
                back,
                ap (◌∷◌ c) e,
                selected_skip policy now c _ front (later back) f h,
                stop,
              )
          | inr h ↦ elim (Bool-cases (quota_met policy managed free planned)) [
            | inl m ↦
                rw (quota_stop policy managed free planned expired c xs h m)
                  ([], c ∷ cs, refl, selected-expired policy now (c ∷ cs), inr m)
            | inr m ↦
                let (front, back, e, f, stop) =
                  quota-split (saturating_add planned c.file_size_bytes) cs in
                rw (quota_take policy managed free planned expired c xs h m) (
                  c ∷ front,
                  back,
                  ap (◌∷◌ c) e,
                  selected_take policy now c _ front (later back) f h,
                  stop,
                )
          ]
        ]
