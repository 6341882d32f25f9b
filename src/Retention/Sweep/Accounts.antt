-- ===== src/Retention/Sweep/Accounts.antt =====
-- The bytes that the telemetry of a sweep counts, where no sum reaches `u64::MAX`.
use autopiercam.Base.{
  ℕ, ◌+◌, ◌≤◌, ◌≡◌, refl, Option, List, [], ◌∷◌, arith, u64_max, Result, ok, err,
}
use autopiercam.Retention.Policy.{RetentionPolicy}
use autopiercam.Retention.Candidates.{
  PathOrder, ManagedArtifact, RetentionAuthorization, RetentionCandidate,
}
use autopiercam.Retention.Plan.Accounting.{total}
use autopiercam.Retention.Plan.Budget.{plan_accounts}
use autopiercam.Retention.Errors.{RetentionErrors}
use autopiercam.Retention.Environment.{
  Environment, Survey, RetentionDeletionOutcome, deleted, already_absent, protected,
}
use autopiercam.Retention.Survey.{candidate, candidates, survey}
use autopiercam.Retention.Sweep.{
  Progress, record_outcome, delete_one, delete_all, initial_free, start, report, sweep_plan,
  carry_out, sweep_surveyed, sweep_at, sweep_retention,
}

-- The sum of the sizes of an inventory.
abbrev pub inventory_bytes : {P : Type 0} → List (ManagedArtifact P × RetentionAuthorization) → ℕ
inventory_bytes [] = 0
inventory_bytes ((artifact, authorization) ∷ rest) = artifact.file_size_bytes + inventory_bytes rest

module _ {P : Type 0} ⦃order : PathOrder P⦄ where
  candidates-total :
      (scheduled : List P) (xs : List (ManagedArtifact P × RetentionAuthorization))
      → total (candidates scheduled xs) ≡ inventory_bytes xs
  unfolding candidates candidate
  candidates-total scheduled [] = refl
  candidates-total scheduled ((artifact, authorization) ∷ xs) =
      omega (arith, candidates-total scheduled xs)

-- The counters add up, `left` bytes are still to be dealt with, and of `before` managed bytes no more
-- are gone than the counters say.
record Adds {P W : Type 0} (before left : ℕ) (p : Progress P W) : Type 0 where
  split : p.protected_bytes + p.reclaimable_bytes ≡ p.managed_bytes
  enough : left ≤ p.reclaimable_bytes
  gone : p.managed_bytes + p.reclaimed_bytes ≤ before

module _ {P W : Type 0} ⦃order : PathOrder P⦄ (env : Environment P W) where
  record_outcome-Adds :
      (before left : ℕ) (p : Progress P W) (c : RetentionCandidate P)
      (r : Result RetentionDeletionOutcome)
      → before ≤ u64_max
      → Adds before (c.file_size_bytes + left) p
      → Adds before left (record_outcome env p c r)
  unfolding record_outcome
  record_outcome-Adds before left p c (ok deleted) h a = ground arith
  record_outcome-Adds before left p c (ok already_absent) h a = ground arith
  record_outcome-Adds before left p c (ok protected) h a = ground arith
  record_outcome-Adds before left p c (err e) h a = ground arith

  delete_all-Adds :
      (before : ℕ) (p : Progress P W) (cs : List (RetentionCandidate P))
      → before ≤ u64_max
      → Adds before (total cs) p
      → Adds before 0 (delete_all env p cs)
  unfolding delete_all delete_one
  delete_all-Adds before p [] h a = a
  delete_all-Adds before p (c ∷ cs) h a = delete_all-Adds before (delete_one env p c) cs h (
      record_outcome-Adds before (total cs) _ c _ h
        (record { split = a.split; enough = a.enough; gone = a.gone }))

  module _ (policy : RetentionPolicy) (w : W) (now : ℕ) (s : Survey P) where
    carry_out-Adds :
        (free : Option ℕ) (errors : RetentionErrors)
        → s.private_bytes + inventory_bytes s.classified ≤ u64_max
        → let t = (carry_out env policy w now (free, errors) s).1 in
          (t.protected_bytes + t.reclaimable_bytes ≡ t.managed_bytes)
          × (t.managed_bytes + t.reclaimed_bytes ≤ s.private_bytes + inventory_bytes s.classified)
    unfolding carry_out sweep_plan start report
    carry_out-Adds free errors h =
        let e = candidates-total s.scheduled s.classified in
        let before : ℕ = s.private_bytes + inventory_bytes s.classified in
        let (planned, managed, split, le, _) =
          plan_accounts policy now free (candidates s.scheduled s.classified) s.private_bytes
            (omega (arith, e)) in
        let a = delete_all-Adds before _ (sweep_plan policy now free s).deletions h (record {
          split = split;
          enough = omega (arith, planned, le);
          gone = omega (arith, managed, e);
        }) in
        (a.split, a.gone)

    -- Where the private bytes and the inventory fit a `u64`, a sweep that passed its survey reports
    -- protected and reclaimable bytes that make up the managed bytes, whatever the deletions
    -- returned, and with the reclaimed bytes these are at most what was there before.
    pub sweep_retention_accounts :
        env.now_unix_ms w ≡ ok now
        → survey env w now ≡ ok s
        → s.private_bytes + inventory_bytes s.classified ≤ u64_max
        → let t = (sweep_retention env policy w).1 in
          (t.protected_bytes + t.reclaimable_bytes ≡ t.managed_bytes)
          × (t.managed_bytes + t.reclaimed_bytes ≤ s.private_bytes + inventory_bytes s.classified)
    unfolding sweep_retention sweep_at sweep_surveyed
    sweep_retention_accounts e k h =
        let (free, errors) = initial_free env policy (env.available_bytes w) in
        rw (e, k) (carry_out-Adds free errors h)
