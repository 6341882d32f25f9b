-- ===== src/Retention/Plan/Order.antt =====
-- The order of the candidates: the sort is a permutation and sorted, and `keep_latest` changes the
-- authorization of the last entry only.
use mathlib.Core.List.{Perm}
use mathlib.Core.List.Perm
use autopiercam.Base.{
  ◌≡◌, refl, true, false, List, [], ◌∷◌, ◌++◌, arith, Bool-cases, All, All-map, inl, inr,
}
use autopiercam.Retention.Candidates.{
  PathOrder, RetentionCandidate, candidate_le, insert_candidate, sort_candidates, protect,
  protect_last,
}
use autopiercam.Retention.Plan.Accounting.{total}

module _ {P : Type 0} ⦃order : PathOrder P⦄ where
  pub candidate_le_total :
      (a b : RetentionCandidate P) → candidate_le a b ≡ false → candidate_le b a ≡ true
  unfolding candidate_le
  candidate_le_total a b h = ground (arith, order.le_total a.path b.path)

  pub candidate_le_trans :
      (a b c : RetentionCandidate P)
      → candidate_le a b ≡ true
      → candidate_le b c ≡ true
      → candidate_le a c ≡ true
  unfolding candidate_le
  candidate_le_trans a b c h k = ground (arith, order.le_trans a.path b.path c.path)

  -- Every entry is at most those behind it.
  abbrev pub IsSorted : List (RetentionCandidate P) → Type 0
  IsSorted [] = Unit
  IsSorted (c ∷ cs) = All (λ d. candidate_le c d ≡ true) cs × IsSorted cs

  pub insert_candidate-All {κ} :
      (Q : RetentionCandidate P → Type κ) (c : RetentionCandidate P)
      (cs : List (RetentionCandidate P))
      → Q c
      → All Q cs
      → All Q (insert_candidate c cs)
  unfolding insert_candidate
  insert_candidate-All Q c [] q h = (q, tt)
  insert_candidate-All Q c (d ∷ cs) q h = elim (Bool-cases (candidate_le c d)) [
    | inl e ↦ rw e (q, h)
    | inr e ↦ rw e (h.0, insert_candidate-All Q c cs q h.1)
  ]

  insert_candidate-IsSorted :
      (c : RetentionCandidate P) (cs : List (RetentionCandidate P))
      → IsSorted cs
      → IsSorted (insert_candidate c cs)
  unfolding insert_candidate
  insert_candidate-IsSorted c [] h = (tt, tt)
  insert_candidate-IsSorted c (d ∷ cs) h = elim (Bool-cases (candidate_le c d)) [
    | inl e ↦ rw e ((e, All-map (λ x. candidate_le_trans c d x e) cs h.0), h)
    | inr e ↦ rw e (
      insert_candidate-All _ c cs (candidate_le_total c d e) h.0,
      insert_candidate-IsSorted c cs h.1,
    )
  ]

  pub sort-IsSorted : (cs : List (RetentionCandidate P)) → IsSorted (sort_candidates cs)
  unfolding sort_candidates
  sort-IsSorted [] = tt
  sort-IsSorted (c ∷ cs) = insert_candidate-IsSorted c (sort_candidates cs) (sort-IsSorted cs)

  insert_candidate-perm :
      (c : RetentionCandidate P) (cs : List (RetentionCandidate P))
      → Perm (insert_candidate c cs) (c ∷ cs)
  unfolding insert_candidate
  insert_candidate-perm c [] = Perm.refl _
  insert_candidate-perm c (d ∷ cs) = elim (Bool-cases (candidate_le c d)) [
    | inl e ↦ rw e (Perm.refl _)
    | inr e ↦ rw e (Perm.trans (Perm.cons d (insert_candidate-perm c cs)) (Perm.swap c d cs))
  ]

  pub sort-perm : (cs : List (RetentionCandidate P)) → Perm (sort_candidates cs) cs
  unfolding sort_candidates
  sort-perm [] = Perm.refl _
  sort-perm (c ∷ cs) =
      Perm.trans (insert_candidate-perm c (sort_candidates cs)) (Perm.cons c (sort-perm cs))

  total-insert :
      (c : RetentionCandidate P) (cs : List (RetentionCandidate P))
      → total (insert_candidate c cs) ≡ total (c ∷ cs)
  unfolding insert_candidate
  total-insert c [] = refl
  total-insert c (d ∷ cs) = ground (arith, total-insert c cs)

  pub total-sort : (cs : List (RetentionCandidate P)) → total (sort_candidates cs) ≡ total cs
  unfolding sort_candidates
  total-sort [] = refl
  total-sort (c ∷ cs) = omega (arith, total-insert c (sort_candidates cs), total-sort cs)

  protect_last-All :
      (c : RetentionCandidate P) (cs : List (RetentionCandidate P))
      → All (λ d. candidate_le c d ≡ true) cs
      → All (λ d. candidate_le c d ≡ true) (protect_last cs)
  unfolding protect_last candidate_le
  protect_last-All c [] h = tt
  protect_last-All c (d ∷ []) h = h
  protect_last-All c (d ∷ e ∷ cs) h = (h.0, protect_last-All c (e ∷ cs) h.1)

  pub protect_last-IsSorted :
      (cs : List (RetentionCandidate P)) → IsSorted cs → IsSorted (protect_last cs)
  unfolding protect_last
  protect_last-IsSorted [] h = tt
  protect_last-IsSorted (c ∷ []) h = h
  protect_last-IsSorted (c ∷ d ∷ cs) h =
      (protect_last-All c (d ∷ cs) h.0, protect_last-IsSorted (d ∷ cs) h.1)

  -- In a sorted list the entries of a first part are at most those of the rest.
  pub sorted_append :
      (xs ys : List (RetentionCandidate P))
      → IsSorted (xs ++ ys)
      → All (λ x. All (λ y. candidate_le x y ≡ true) ys) xs
  sorted_append [] ys h = tt
  sorted_append (x ∷ xs) ys h = (tail_of xs h.0, sorted_append xs ys h.1)
    where
      tail_of :
          (zs : List (RetentionCandidate P))
          → All (λ y. candidate_le x y ≡ true) (zs ++ ys)
          → All (λ y. candidate_le x y ≡ true) ys
      tail_of [] a = a
      tail_of (z ∷ zs) a = tail_of zs a.1

module _ {P : Type 0} where
  pub total-protect_last : (cs : List (RetentionCandidate P)) → total (protect_last cs) ≡ total cs
  unfolding protect_last
  total-protect_last [] = refl
  total-protect_last (c ∷ []) = refl
  total-protect_last (c ∷ d ∷ cs) = omega (arith, total-protect_last (d ∷ cs))

  -- Only the last entry changes.
  pub protect_last-append :
      (older : List (RetentionCandidate P)) (newest : RetentionCandidate P)
      → protect_last (older ++ newest ∷ []) ≡ older ++ protect newest ∷ []
  unfolding protect_last
  protect_last-append [] newest = refl
  protect_last-append (c ∷ []) newest = refl
  protect_last-append (c ∷ d ∷ cs) newest = rw (protect_last-append (d ∷ cs) newest)
