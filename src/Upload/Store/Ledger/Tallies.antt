-- ===== src/Upload/Store/Ledger/Tallies.antt =====
-- What an update does to the number of rows in a state.
use autopiercam.Base.{
  ℕ, ◌+◌, ◌≡◌, refl, ap, Bool, true, List, [], ◌∷◌, map, if◌then◌else◌, arith, Bool-cases, inl, inr,
}
use autopiercam.Upload.Store.Errors.{IfOk, IfOk-map}
use autopiercam.Upload.Store.States.{UploadState, state_eq}
use autopiercam.Upload.Store.Ledger.{UploadJob, Ledger, bit, update_jobs}
use autopiercam.Upload.Store.Ledger.Counts.{tally}
use autopiercam.Upload.Store.Ledger.Rows.{changed_row, chosen, update_jobs_lem}

module _ (s : UploadState) (before after : Bool) (where_clause : UploadJob → Bool)
    (set : UploadJob → UploadJob)
    (leaves : (job : UploadJob) → where_clause job ≡ true → state_eq job.state s ≡ before)
    (enters : (job : UploadJob)
      → where_clause job ≡ true
      → state_eq (set job).state s ≡ after) where
  one_row :
      (job : UploadJob)
      → bit (state_eq (changed_row where_clause set job).state s)
          + (if before then bit (where_clause job) else 0)
        ≡ bit (state_eq job.state s) + (if after then bit (where_clause job) else 0)
  one_row job = elim (Bool-cases (where_clause job)) [
    | inl chosen ↦
        let l = leaves job chosen in
        let e = enters job chosen in rw (chosen, l, e) (both before after)
    | inr other ↦ rw other (neither before after (bit (state_eq job.state s)))
  ]
    where
      both : (b a : Bool) → bit a + (if b then 1 else 0) ≡ bit b + (if a then 1 else 0)
      both b a = ground arith

      neither : (b a : Bool) (n : ℕ) → n + (if b then 0 else 0) ≡ n + (if a then 0 else 0)
      neither b a n = ground arith

  tally-map :
      (jobs : List UploadJob)
      → tally s (map (changed_row where_clause set) jobs)
          + (if before then chosen where_clause set jobs else 0)
        ≡ tally s jobs + (if after then chosen where_clause set jobs else 0)
  tally-map [] = ground arith
  tally-map (job ∷ jobs) = ground (arith, one_row job, tally-map jobs)

  pub update_jobs-tally :
      (l : Ledger)
      → IfOk
          (λ (r : Ledger × ℕ).
            tally s r.0.jobs + (if before then r.1 else 0)
            ≡ tally s l.jobs + (if after then r.1 else 0))
          (update_jobs where_clause set l)
  update_jobs-tally l =
      IfOk-map
        (λ (r : Ledger × ℕ).
          (r.0.jobs ≡ map (changed_row where_clause set) l.jobs)
          × (r.1 ≡ chosen where_clause set l.jobs))
        (λ (r : Ledger × ℕ).
          tally s r.0.jobs + (if before then r.1 else 0)
          ≡ tally s l.jobs + (if after then r.1 else 0))
        (update_jobs where_clause set l) (update_jobs_lem where_clause set l)
        λ (l', n) (rows, count). rw (rows, count) (tally-map l.jobs)

-- The rows in a state are those that a test of the state chooses.
pub chosen-tally :
    (s : UploadState) (set : UploadJob → UploadJob) (jobs : List UploadJob)
    → chosen (λ row. state_eq row.state s) set jobs ≡ tally s jobs
chosen-tally s set [] = refl
chosen-tally s set (job ∷ jobs) = ap (λ n. bit (state_eq job.state s) + n) (chosen-tally s set jobs)
