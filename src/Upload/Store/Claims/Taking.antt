-- ===== src/Upload/Store/Claims/Taking.antt =====
-- Which job claim_due takes, and what it makes of the ledger.
use autopiercam.Base.{
  ℕ, ◌+◌, ◌≡◌, refl, sym, ap, subst, Bool, true, false, ◌&&◌, Option, none, some, map, ◌==◌, All,
  All-map, ◌<◌, ◌≤◌, ◌⊎◌, if◌then◌else◌, leb, arith,
}
use autopiercam.Upload.Store.Errors.{
  Result, ok, err, ensure, IfOk, IfOk-bind, IfOk-then, invalid_transition, i64_max,
  unix_ms_to_database, timestamp_out_of_range,
}
use autopiercam.Upload.Store.Platform.{Platform}
use autopiercam.Upload.Store.Ledger.{UploadJob, Ledger, update_jobs}
use autopiercam.Upload.Store.Ledger.Rows.{changed_row, chosen, update_jobs_lem}
use autopiercam.Upload.Store.Claims.{
  UploadStore, ClaimedUpload, is_due, due_at, is_sooner, first_due, job_id_from_database,
  into_claim, claimed_row, claim_candidate, claim_due,
}
use autopiercam.Upload.Store.Claims.Due.{
  Occurs, IsFirst, first_due-IsFirst, job_id_from_database_lem, IsClaimOf, into_claim-IsClaimOf,
}

unix_ms_to_database_lem : (value : ℕ) → IfOk (λ t. t ≡ value) (unix_ms_to_database value)
unfolding unix_ms_to_database
unix_ms_to_database_lem value = pick (leb value i64_max)
  where
    pick :
        (b : Bool)
        → IfOk (λ t. t ≡ value) (if b then ok value else err (timestamp_out_of_range value))
    pick true = refl
    pick false = tt

-- The order in which jobs are taken.
abbrev pub Precedes : UploadJob → UploadJob → Type 0
Precedes a b = (due_at a < due_at b) ⊎ ((due_at a ≡ due_at b) × (a.id ≤ b.id))

is_sooner-Precedes : (a b : UploadJob) → is_sooner a b ≡ true → Precedes a b
is_sooner-Precedes a b h = ground arith

module _ (platform : Platform) (store : UploadStore) (now : ℕ) (l : Ledger) where
  -- The claim is of a due job that comes before every other due one, with the next attempt number,
  -- and only the due rows with the id of this job change.
  pub record IsTaken (l' : Ledger) (claim : ClaimedUpload) : Type 0 where
    pub job : UploadJob
    pub occurs : Occurs job l.jobs
    pub due : is_due now job ≡ true
    pub first : All (λ other. is_due now other ≡ true → Precedes job other) l.jobs
    pub id : claim.job_id ≡ job.id
    pub attempt : claim.attempt_count ≡ job.attempt_count + 1
    pub rows :
        l'.jobs
        ≡ map
            (λ row.
              if row.id == job.id && is_due now row
              then claimed_row platform store now (job.attempt_count + 1) row
              else row)
            l.jobs

  -- What a call of claim_due that succeeds has done.
  abbrev pub Took : Ledger × Option ClaimedUpload → Type 0
  Took (l', none) = (l' ≡ l) × All (λ job. is_due now job ≡ false) l.jobs
  Took (l', some claim) = IsTaken l' claim

  claim_candidate-Took :
      (job : UploadJob)
      → IsFirst now l.jobs (some job)
      → IfOk Took (claim_candidate platform store now job l)
  unfolding claim_candidate
  claim_candidate-Took job (occurs, due, first) =
      IfOk-bind (λ id. id ≡ job.id) Took (job_id_from_database job.id) _
        (job_id_from_database_lem job.id)
        λ id same.
          IfOk-bind (IsClaimOf id job) Took (into_claim platform store id job) _
            (into_claim-IsClaimOf platform store id job)
            λ claim of_job. IfOk-then Took (ensure (leb (claim.attempt_count + 1) i64_max) _) _ λ u.
              let chooses : UploadJob → Bool = λ row. row.id == id && is_due now row in
              let set : UploadJob → UploadJob =
                claimed_row platform store now (claim.attempt_count + 1) in
              IfOk-bind
                (λ (r : Ledger × ℕ).
                  (r.0.jobs ≡ map (changed_row chooses set) l.jobs)
                  × (r.1 ≡ chosen chooses set l.jobs))
                Took (update_jobs chooses set l) _ (update_jobs_lem chooses set l)
                λ (l', n) (rows, count).
                  IfOk-then Took (ensure (n == 1) (invalid_transition id)) _
                    λ u. taken id claim l' same of_job rows
    where
      taken :
          (id : ℕ) (claim : ClaimedUpload) (l' : Ledger)
          → id ≡ job.id
          → IsClaimOf id job claim
          → l'.jobs
            ≡ map
                (changed_row
                  (λ row. row.id == id && is_due now row)
                  (claimed_row platform store now (claim.attempt_count + 1)))
                l.jobs
          → IsTaken l' (record claim { attempt_count = claim.attempt_count + 1 })
      taken id claim l' same c rows = record {
        job = job;
        occurs = occurs;
        due = due;
        first = All-map (λ other f late. is_sooner-Precedes job other (f late)) l.jobs first;
        id = cc (same, c.job_id);
        attempt = ap (λ n. n + 1) c.attempt_count;
        rows =
            subst
              (λ (n : ℕ).
                l'.jobs
                ≡ map
                    (λ row.
                      if row.id == job.id && is_due now row
                      then claimed_row platform store now (n + 1) row
                      else row)
                    l.jobs)
              c.attempt_count
              (subst
                (λ (i : ℕ).
                  l'.jobs
                  ≡ map
                      (λ row.
                        if row.id == i && is_due now row
                        then claimed_row platform store now (claim.attempt_count + 1) row
                        else row)
                      l.jobs)
                same rows);
      }

-- A claim that succeeds takes the job that has been due for longest, the one with the smaller id of
-- two, gives it the next attempt number, and changes only the due rows with its id; where no job is
-- due it takes none and changes nothing.
pub claim_due-Took :
    (platform : Platform) (store : UploadStore) (now : ℕ) (l : Ledger)
    → IfOk (Took platform store now l) (claim_due platform store now l)
unfolding claim_due
claim_due-Took platform store now l =
    IfOk-bind (λ t. t ≡ now) (Took platform store now l) (unix_ms_to_database now) _
      (unix_ms_to_database_lem now)
      λ t same.
        subst
          (λ (t : ℕ).
            IfOk (Took platform store now l)
              (elim (first_due t l.jobs) as (λ _. Result (Ledger × Option ClaimedUpload)) [
                | none ↦ ok (l, none)
                | some candidate ↦ claim_candidate platform store t candidate l
              ]))
          (sym same) (pick (first_due now l.jobs) (first_due-IsFirst now l.jobs))
  where
    pick :
        (o : Option UploadJob)
        → IsFirst now l.jobs o
        → IfOk
            (Took platform store now l)
            (elim o as (λ _. Result (Ledger × Option ClaimedUpload)) [
              | none ↦ ok (l, none)
              | some candidate ↦ claim_candidate platform store now candidate l
            ])
    pick none idle = (refl, idle)
    pick (some candidate) first = claim_candidate-Took platform store now l candidate first
