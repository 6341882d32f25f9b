-- ===== src/Upload/Store/Ledger/Rows.antt =====
-- An update that succeeds changes exactly the rows that its WHERE chooses, and counts them.
use autopiercam.Base.{
  ℕ, ◌+◌, ◌≡◌, refl, ap, sym, ◌∙◌, Bool, true, false, Option, some, List, [], ◌∷◌, map,
  if◌then◌else◌, ◌==◌, arith, if_split, map_option,
}
use autopiercam.Base.Bytes.{find_first}
use autopiercam.Upload.Store.Errors.{
  Result, ok, ensure, sqlite, ◌>>=◌, ◌>>◌, IfOk, IfOk-bind, IfOk-then,
}
use autopiercam.Upload.Store.Ledger.{
  UploadJob, UploadMetadata, Ledger, bit, after_update, change_row, update_row, update_rows,
  update_jobs, job_checks,
}

module _ (where_clause : UploadJob → Bool) (set : UploadJob → UploadJob) where
  -- A row after the update.
  abbrev pub changed_row : UploadJob → UploadJob
  changed_row job = if where_clause job then set job else job

  -- The number of rows that the condition chooses.
  abbrev pub chosen : List UploadJob → ℕ
  chosen [] = 0
  chosen (job ∷ jobs) = bit (where_clause job) + chosen jobs

  abbrev RowChanged : UploadJob → UploadMetadata × UploadJob × ℕ → Type 0
  RowChanged job (m, job', n) = (job' ≡ changed_row job) × (n ≡ bit (where_clause job))

  changed_when :
      (job : UploadJob) (b : Bool) (x : UploadJob) (n : ℕ)
      → where_clause job ≡ b
      → x ≡ (if b then set job else job)
      → n ≡ bit b
      → (x ≡ changed_row job) × (n ≡ bit (where_clause job))
  changed_when job b x n e p q =
      (p ∙ ap (λ c. if c then set job else job) (sym e), q ∙ ap bit (sym e))

  row_changed :
      (m : UploadMetadata) (job : UploadJob)
      → IfOk (RowChanged job) (update_row where_clause set m job)
  unfolding update_row change_row
  row_changed m job =
      if_split (λ (r : Result (UploadMetadata × UploadJob × ℕ)). IfOk (RowChanged job) r)
        (where_clause job)
        (λ h.
          IfOk-then (RowChanged job)
            (ensure ((set job).job_revision == job.job_revision + 1) sqlite)
            (λ _.
              ensure (job_checks (set job)) sqlite
              >> (after_update job (set job) m >>= λ m'. ok (m', set job, 1)))
            λ u.
              IfOk-then (RowChanged job) (ensure (job_checks (set job)) sqlite)
                (λ _. after_update job (set job) m >>= λ m'. ok (m', set job, 1))
                λ u.
                  IfOk-then (RowChanged job) (after_update job (set job) m)
                    (λ m'. ok (m', set job, 1)) λ m'. changed_when job true (set job) 1 h refl refl)
        (λ h. changed_when job false job 0 h refl refl)

  abbrev Changed : List UploadJob → UploadMetadata × List UploadJob × ℕ → Type 0
  Changed jobs (m, jobs', n) = (jobs' ≡ map changed_row jobs) × (n ≡ chosen jobs)

  rows-Changed :
      (jobs : List UploadJob) (m : UploadMetadata)
      → IfOk (Changed jobs) (update_rows where_clause set m jobs)
  unfolding update_rows
  rows-Changed [] m = (refl, refl)
  rows-Changed (job ∷ jobs) m =
      let rest = rows-Changed jobs in
      IfOk-bind (RowChanged job) (Changed (job ∷ jobs)) (update_row where_clause set m job) _
        (row_changed m job)
        λ (m', job', n) (p, q).
          IfOk-bind (Changed jobs) (Changed (job ∷ jobs)) (update_rows where_clause set m' jobs) _
            (rest m') λ (m'', jobs', k) (ps, qs). (cc (p, ps), omega (arith, q, qs))

  pub update_jobs_lem :
      (l : Ledger)
      → IfOk
          (λ (r : Ledger × ℕ). (r.0.jobs ≡ map changed_row l.jobs) × (r.1 ≡ chosen l.jobs))
          (update_jobs where_clause set l)
  unfolding update_jobs
  update_jobs_lem l =
      IfOk-bind (Changed (l.jobs))
        (λ (r : Ledger × ℕ). (r.0.jobs ≡ map changed_row l.jobs) × (r.1 ≡ chosen l.jobs))
        (update_rows where_clause set (l.metadata) (l.jobs)) _ (rows-Changed (l.jobs) (l.metadata))
        λ (m, jobs, n) c. c

-- Looking for a row by what a change keeps.
pub find_first-map :
    (test : UploadJob → Bool) (f : UploadJob → UploadJob)
    → ((job : UploadJob) → test (f job) ≡ test job)
    → (jobs : List UploadJob) → find_first test (map f jobs) ≡ map_option f (find_first test jobs)
find_first-map test f keeps [] = refl
find_first-map test f keeps (job ∷ jobs) =
    pick (test (f job)) (test job) (keeps job) (find_first-map test f keeps jobs)
  where
    pick :
        (a b : Bool)
        → a ≡ b
        → find_first test (map f jobs) ≡ map_option f (find_first test jobs)
        → (elim a as (λ _. Option UploadJob) [
          | true ↦ some (f job)
          | false ↦ find_first test (map f jobs)
        ])
          ≡ map_option f (elim b [ true ↦ some job | false ↦ find_first test jobs ])
    pick true true e h = refl
    pick true false e h = cc
    pick false true e h = cc
    pick false false e h = h

pub find_first-passes :
    (test : UploadJob → Bool) (jobs : List UploadJob) (job : UploadJob)
    → find_first test jobs ≡ some job
    → test job ≡ true
find_first-passes test [] job h = cc
find_first-passes test (j ∷ jobs) job h = pick (test j) refl h (find_first-passes test jobs job)
  where
    pick :
        (b : Bool)
        → test j ≡ b
        → (elim b as (λ _. Option UploadJob) [ true ↦ some j | false ↦ find_first test jobs ])
          ≡ some job
        → (find_first test jobs ≡ some job → test job ≡ true)
        → test job ≡ true
    pick true e h f = cc (e, h)
    pick false e h f = f h
