-- ===== src/Upload/Store/Operations/InProgress.antt =====
-- How many jobs are in progress: a claim adds one, settling it takes one away, and reopening the ledger
-- takes all away.
use autopiercam.Base.{
  ℕ, ◌+◌, ◌≡◌, refl, Bool, true, false, ◌&&◌, ◌||◌, Option, none, some, ◌==◌, map, ==_iff, leb,
  arith, &&-true, is_some,
}
use autopiercam.Upload.Store.Errors.{
  Result, ok, err, ensure, IfOk, IfOk-bind, IfOk-then, IfOk-ensure, invalid_transition, i64_max,
  unix_ms_to_database,
}
use autopiercam.Upload.Store.States.{
  UploadState, pending, in_progress, retrying, completed, permanently_failed, state_eq,
}
use autopiercam.Upload.Store.Platform.{Platform}
use autopiercam.Upload.Store.Ledger.{UploadJob, Ledger, bit, update_jobs}
use autopiercam.Upload.Store.Ledger.Counts.{tally}
use autopiercam.Upload.Store.Ledger.Rows.{changed_row, chosen, update_jobs_lem}
use autopiercam.Upload.Store.Ledger.Tallies.{update_jobs-tally, chosen-tally}
use autopiercam.Upload.Store.Claims.{
  UploadStore, ClaimedUpload, is_claimed, settle, attempt_count_to_database, claim_due,
  claim_candidate, first_due, is_due, claimed_row, into_claim, job_id_from_database, release_claim,
  mark_retrying, mark_completed, mark_permanently_failed, released_row, retrying_row, completed_row,
  failed_row,
}
use autopiercam.Upload.Store.Operator.{recover_interrupted_jobs, recovered_row}
use autopiercam.Upload.Store.Operations.{Settlement, release, retry, complete, fail, settle_with}

-- The number of jobs in progress.
abbrev pub claims_held : Ledger → ℕ
claims_held l = tally in_progress (l.jobs)

was_claimed :
    (id attempt : ℕ) (row : UploadJob)
    → is_claimed id attempt row ≡ true
    → state_eq row.state in_progress ≡ true
was_claimed id attempt row h =
    let left = (&&-true (row.id == id && state_eq row.state in_progress) _ h).0 in
    (&&-true (row.id == id) _ left).1

settle-claims_held :
    (set : UploadJob → UploadJob)
    → ((row : UploadJob) → state_eq (set row).state in_progress ≡ false)
    → (c : ClaimedUpload) (l : Ledger)
    → IfOk (λ l'. claims_held l' + 1 ≡ claims_held l) (settle set c l)
unfolding settle
settle-claims_held set leaves c l =
    let Q : Ledger → Type 0 = λ l'. claims_held l' + 1 ≡ claims_held l in
    IfOk-then Q (attempt_count_to_database c) _ λ attempt.
      IfOk-bind (λ (r : Ledger × ℕ). claims_held (r.0) + r.1 ≡ claims_held l + 0) Q
        (update_jobs (is_claimed c.job_id attempt) set l) _
        (update_jobs-tally in_progress true false (is_claimed c.job_id attempt) set
          (was_claimed c.job_id attempt) (λ row _. leaves row) l)
        λ (l', n) e.
          IfOk-ensure Q (n == 1) (invalid_transition c.job_id) (ok l')
            λ one. omega (arith, e, (==_iff n 1).0 one)

pub settle_with-claims_held :
    (s : Settlement) (c : ClaimedUpload) (l : Ledger)
    → IfOk (λ l'. claims_held l' + 1 ≡ claims_held l) (settle_with s c l)
unfolding settle_with release_claim mark_retrying mark_completed mark_permanently_failed
settle_with-claims_held (release now) c l =
    IfOk-then (λ l'. claims_held l' + 1 ≡ claims_held l) (unix_ms_to_database now) _
      λ t. settle-claims_held (released_row t) (λ row. refl) c l
settle_with-claims_held (retry failed_at next_at status error) c l =
    let Q : Ledger → Type 0 = λ l'. claims_held l' + 1 ≡ claims_held l in
    IfOk-then Q (unix_ms_to_database failed_at) _ λ t.
      IfOk-then Q (unix_ms_to_database next_at) _
        λ n. settle-claims_held (retrying_row t n status error) (λ row. refl) c l
settle_with-claims_held (complete completed_at status) c l =
    IfOk-then (λ l'. claims_held l' + 1 ≡ claims_held l) (unix_ms_to_database completed_at) _
      λ t. settle-claims_held (completed_row t status) (λ row. refl) c l
settle_with-claims_held (fail failed_at status error) c l =
    IfOk-then (λ l'. claims_held l' + 1 ≡ claims_held l) (unix_ms_to_database failed_at) _
      λ t. settle-claims_held (failed_row t status error) (λ row. refl) c l

-- Recovery leaves no job in progress.
pub recover_interrupted_jobs-claims_held :
    (l : Ledger) → IfOk (λ l'. claims_held l' ≡ 0) (recover_interrupted_jobs l)
unfolding recover_interrupted_jobs
recover_interrupted_jobs-claims_held l =
    let running : UploadJob → Bool = λ row. state_eq row.state in_progress in
    IfOk-bind (λ (r : Ledger × ℕ). claims_held (r.0) ≡ 0) (λ l'. claims_held l' ≡ 0)
      (update_jobs running recovered_row l) _
      (both (update_jobs running recovered_row l)
        (update_jobs-tally in_progress true false running recovered_row (λ row h. h) (λ row _. refl)
          l)
        (update_jobs_lem running recovered_row l))
      λ (l', n) e. e
  where
    both :
        (r : Result (Ledger × ℕ))
        → IfOk (λ (r : Ledger × ℕ). claims_held (r.0) + r.1 ≡ claims_held l + 0) r
        → IfOk
            (λ (r : Ledger × ℕ).
              (r.0.jobs
                ≡ map (changed_row (λ row. state_eq row.state in_progress) recovered_row) l.jobs)
              × (r.1 ≡ chosen (λ row. state_eq row.state in_progress) recovered_row l.jobs))
            r
        → IfOk (λ (r : Ledger × ℕ). claims_held (r.0) ≡ 0) r
    both (ok (l', n)) e (_, count) =
        omega (arith, e, count, chosen-tally in_progress recovered_row l.jobs)
    both (err e) h k = tt

due→not_running :
    (id now : ℕ) (row : UploadJob)
    → (row.id == id && is_due now row) ≡ true
    → state_eq row.state in_progress ≡ false
due→not_running id now row h =
    claimable (row.state)
      (&&-true (state_eq row.state pending || state_eq row.state retrying) _
        (&&-true (row.id == id) _ h).1).0
  where
    claimable :
        (s : UploadState)
        → (state_eq s pending || state_eq s retrying) ≡ true
        → state_eq s in_progress ≡ false
    claimable pending h = refl
    claimable retrying h = refl
    claimable in_progress h = cc
    claimable completed h = refl
    claimable permanently_failed h = refl

module _ (platform : Platform) (store : UploadStore) (l : Ledger) where
  IsCounted : Ledger × Option ClaimedUpload → Type 0
  IsCounted (l', claim) = claims_held l' ≡ claims_held l + bit (is_some claim)

  claim_candidate-claims_held :
      (now : ℕ) (candidate : UploadJob)
      → IfOk IsCounted (claim_candidate platform store now candidate l)
  unfolding claim_candidate IsCounted
  claim_candidate-claims_held now candidate =
      IfOk-then IsCounted (job_id_from_database candidate.id) _ λ id.
        IfOk-then IsCounted (into_claim platform store id candidate) _ λ claim.
          IfOk-then IsCounted (ensure (leb (claim.attempt_count + 1) i64_max) _) _ λ u.
            let chooses : UploadJob → Bool = λ row. row.id == id && is_due now row in
            let set : UploadJob → UploadJob =
              claimed_row platform store now (claim.attempt_count + 1) in
            IfOk-bind (λ (r : Ledger × ℕ). claims_held (r.0) + 0 ≡ claims_held l + r.1) IsCounted
              (update_jobs chooses set l) _
              (update_jobs-tally in_progress false true chooses set (due→not_running id now)
                (λ row _. refl) l)
              λ (l', n) e.
                IfOk-ensure IsCounted (n == 1) (invalid_transition id) _
                  λ one. omega (arith, e, (==_iff n 1).0 one)

  -- A claim adds one to the jobs in progress, and where nothing is due nothing changes.
  pub claim_due-claims_held :
      (now_unix_ms : ℕ)
      → IfOk
          (λ (r : Ledger × Option ClaimedUpload).
            claims_held (r.0) ≡ claims_held l + bit (is_some (r.1)))
          (claim_due platform store now_unix_ms l)
  unfolding claim_due IsCounted
  claim_due-claims_held now_unix_ms =
      IfOk-then IsCounted (unix_ms_to_database now_unix_ms) _ λ now. pick now (first_due now l.jobs)
    where
      pick :
          (now : ℕ) (o : Option UploadJob)
          → IfOk IsCounted (elim o as (λ _. Result (Ledger × Option ClaimedUpload)) [
            | none ↦ ok (l, none)
            | some candidate ↦ claim_candidate platform store now candidate l
          ])
      pick now none = omega arith
      pick now (some candidate) = claim_candidate-claims_held now candidate
