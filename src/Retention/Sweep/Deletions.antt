-- ===== src/Retention/Sweep/Deletions.antt =====
-- Which files a sweep asks the authority to delete.
use mathlib.Core.List.{Mem, mem-cons_self, mem-cons_of_mem}
use autopiercam.Base.{
  ℕ, ◌≡◌, refl, sym, subst, inl, inr, true, false, Option, List, [], ◌∷◌, arith, ◌==◌, is_none_or,
  Result, ok, err, All, All-map, All-append, All-of_append, All-keep, Bool-cases,
}
use autopiercam.Retention.Policy.{RetentionPolicy}
use autopiercam.Retention.Candidates.{
  PathOrder, ManagedArtifact, RetentionAuthorization, authorizes, RetentionCandidate,
  is_reclaimable, protect, protect_last, sort_candidates,
}
use autopiercam.Retention.Plan.{is_expired, ordered_candidates, plan_with_private_bytes}
use autopiercam.Retention.Plan.Deletions.{plan-deletions}
use autopiercam.Retention.Plan.Minimal.{expired→reclaimable}
use autopiercam.Retention.Plan.Order.{insert_candidate-All}
use autopiercam.Retention.Errors.{RetentionErrors}
use autopiercam.Retention.Environment.{
  Environment, Survey, RetentionDeletionOutcome, deleted, already_absent, protected,
}
use autopiercam.Retention.Survey.{
  contains, size_mismatch, unscheduled, final_authorization, candidate, candidates, survey,
}
use autopiercam.Retention.Sweep.{
  Progress, record_outcome, delete_one, delete_all, initial_free, start, sweep_plan, carry_out,
  sweep_surveyed, sweep_at, sweep_retention,
}

module _ {P : Type 0} ⦃order : PathOrder P⦄ where
  -- What every reclaimable candidate has, the reclaimable ones of the sorted list have.
  Holds : (RetentionCandidate P → Type 0) → RetentionCandidate P → Type 0
  Holds Q c = is_reclaimable c ≡ true → Q c

  module _ (Q : RetentionCandidate P → Type 0) where
    sort-All :
        (cs : List (RetentionCandidate P)) → All (Holds Q) cs → All (Holds Q) (sort_candidates cs)
    unfolding sort_candidates
    sort-All [] h = tt
    sort-All (c ∷ cs) h =
        insert_candidate-All (Holds Q) c (sort_candidates cs) h.0 (sort-All cs h.1)

    protect_last-All :
        (cs : List (RetentionCandidate P)) → All (Holds Q) cs → All (Holds Q) (protect_last cs)
    unfolding protect_last protect Holds
    protect_last-All [] h = tt
    protect_last-All (c ∷ []) h = ((λ e. cc e), tt)
    protect_last-All (c ∷ d ∷ cs) h = (h.0, protect_last-All (d ∷ cs) h.1)

    ordered-All :
        (policy : RetentionPolicy) (cs : List (RetentionCandidate P))
        → All (Holds Q) cs
        → All (Holds Q) (ordered_candidates policy cs)
    unfolding ordered_candidates
    ordered-All policy cs h = elim (Bool-cases policy.keep_latest) [
      | inl e ↦ rw e (protect_last-All (sort_candidates cs) (sort-All cs h))
      | inr e ↦ rw e (sort-All cs h)
    ]

    deletions-All :
        (policy : RetentionPolicy) (now : ℕ) (free : Option ℕ) (cs : List (RetentionCandidate P))
        (private_bytes : ℕ)
        → All (Holds Q) cs
        → All Q (plan_with_private_bytes policy now free cs private_bytes).deletions
    unfolding Holds
    deletions-All policy now free cs private_bytes h =
        let (older, newer, e, _, d, _) = plan-deletions policy now free cs private_bytes in
        let (ho, hn) =
          All-of_append (Holds Q) older newer (subst (All (Holds Q)) e (ordered-All policy cs h)) in
        rw d (
          All-append Q _ _ (All-keep (Holds Q) is_reclaimable (λ a r q. q r) older ho) (
            All-keep (Holds Q) (is_expired policy now)
              (λ a r q. q (expired→reclaimable policy now a r)) newer hn))

  -- Only an authorization that passed the checks is reclaimable, and it is kept as it is.
  final_authorization_lem :
      (scheduled : List P) (artifact : ManagedArtifact P) (authorization : RetentionAuthorization)
      → authorizes (final_authorization scheduled artifact authorization) ≡ true
      → (final_authorization scheduled artifact authorization ≡ authorization)
        × (authorizes authorization ≡ true)
        × (contains scheduled artifact.path ≡ false)
        × (is_none_or authorization.expected_file_size_bytes (λ e. e == artifact.file_size_bytes)
            ≡ true)
  unfolding final_authorization unscheduled size_mismatch
  final_authorization_lem scheduled artifact authorization h = ground arith

module _ {P : Type 0} ⦃order : PathOrder P⦄ where
  -- The ledger gave a file free: it is of the inventory and classified as reclaimable, at the size
  -- that it has, and no scheduled movie needs it.
  abbrev pub IsReleased : Survey P → RetentionCandidate P → Type 0
  IsReleased s c =
      (x : ManagedArtifact P × RetentionAuthorization) × Mem x s.classified
      × (c.path ≡ x.0.path)
      × (c.file_size_bytes ≡ x.0.file_size_bytes)
      × (c.authorization ≡ x.1)
      × (authorizes x.1 ≡ true)
      × (contains s.scheduled c.path ≡ false)
      × (is_none_or x.1.expected_file_size_bytes (λ e. e == c.file_size_bytes) ≡ true)

  released :
      (s : Survey P) (x : ManagedArtifact P × RetentionAuthorization)
      → Mem x s.classified
      → Holds (IsReleased s) (candidate s.scheduled x)
  unfolding Holds candidate
  released s (artifact, authorization) m h =
      let (e, a, c, z) = final_authorization_lem s.scheduled artifact authorization h in
      ((artifact, authorization), m, refl, refl, e, a, c, z)

  candidates-All :
      (s : Survey P) (xs : List (ManagedArtifact P × RetentionAuthorization))
      → ((x : ManagedArtifact P × RetentionAuthorization) → Mem x xs → Mem x s.classified)
      → All (Holds (IsReleased s)) (candidates s.scheduled xs)
  unfolding candidates
  candidates-All s [] f = tt
  candidates-All s (x ∷ xs) f =
      (released s x (f x mem-cons_self), candidates-All s xs (λ y m. f y (mem-cons_of_mem x m)))

  sweep_plan-All :
      (policy : RetentionPolicy) (now : ℕ) (free : Option ℕ) (s : Survey P)
      → All (IsReleased s) (sweep_plan policy now free s).deletions
  unfolding sweep_plan
  sweep_plan-All policy now free s =
      deletions-All (IsReleased s) policy now free (candidates s.scheduled s.classified)
        s.private_bytes (candidates-All s s.classified (λ x m. m))

module _ {P W : Type 0} ⦃order : PathOrder P⦄ (env : Environment P W) where
  -- A sweep in this world may delete the file.
  abbrev pub MayDelete : W → RetentionCandidate P → Type 0
  MayDelete w c =
      (now : ℕ) × (s : Survey P) × (env.now_unix_ms w ≡ ok now)
      × (survey env w now ≡ ok s)
      × IsReleased s c

  -- A predicate on the world that the deletion of these files keeps.
  abbrev pub IsKept : (W → Type 0) → (RetentionCandidate P → Type 0) → Type 0
  IsKept I Q =
      (v : W) (c : RetentionCandidate P) → Q c → I v → I (env.delete_if_still_authorized v c).0

  record_outcome-world :
      (p : Progress P W) (c : RetentionCandidate P) (r : Result RetentionDeletionOutcome)
      → (record_outcome env p c r).world ≡ p.world
  unfolding record_outcome
  record_outcome-world p c (ok deleted) = refl
  record_outcome-world p c (ok already_absent) = refl
  record_outcome-world p c (ok protected) = refl
  record_outcome-world p c (err e) = refl

  module _ (I : W → Type 0) (Q : RetentionCandidate P → Type 0) (keeps : IsKept I Q) where
    delete_all_keeps :
        (p : Progress P W) (cs : List (RetentionCandidate P))
        → All Q cs
        → I p.world
        → I (delete_all env p cs).world
    unfolding delete_all delete_one
    delete_all_keeps p [] q i = i
    delete_all_keeps p (c ∷ cs) q i = delete_all_keeps (delete_one env p c) cs q.1 (
        subst I (sym (record_outcome-world _ c (env.delete_if_still_authorized p.world c).1))
          (keeps p.world c q.0 i))

  module _ (policy : RetentionPolicy) (w : W) (I : W → Type 0) (keeps : IsKept I (MayDelete w))
      (i : I w) where
    sweep_surveyed_keeps :
        (now : ℕ) (probe : Option ℕ × RetentionErrors) (r : Result (Survey P))
        → env.now_unix_ms w ≡ ok now
        → survey env w now ≡ r
        → I (sweep_surveyed env policy w now probe r).0
    unfolding sweep_surveyed carry_out start
    sweep_surveyed_keeps now (free, errors) (ok s) e k =
        delete_all_keeps I (MayDelete w) keeps _ (sweep_plan policy now free s).deletions
          (All-map (λ c q. (now, s, e, k, q)) _ (sweep_plan-All policy now free s)) i
    sweep_surveyed_keeps now probe (err error) e k = i

    sweep_at_keeps : (r : Result ℕ) → env.now_unix_ms w ≡ r → I (sweep_at env policy w r).0
    unfolding sweep_at
    sweep_at_keeps (ok now) e =
        sweep_surveyed_keeps now (initial_free env policy (env.available_bytes w))
          (survey env w now) e refl
    sweep_at_keeps (err error) e = i

  -- A sweep changes the world only by deletions of files that the ledger gave free, that have the
  -- size it gave, and that no scheduled movie needs: what these deletions keep, the sweep keeps.
  pub sweep_retention_keeps :
      (policy : RetentionPolicy) (w : W) (I : W → Type 0)
      → IsKept I (MayDelete w)
      → I w
      → I (sweep_retention env policy w).0
  unfolding sweep_retention
  sweep_retention_keeps policy w I keeps i =
      sweep_at_keeps policy w I keeps i (env.now_unix_ms w) refl
