-- ===== src/Upload/Store/Ledger/Growth.antt =====
-- What the two statements do to the rows: an update changes rows only as its SET says, an insert only
-- adds a row behind the others, and both count each change in the revision of the ledger.
use autopiercam.Base.{
  ℕ, ◌+◌, ◌≤◌, ◌≡◌, refl, Bool, true, List, [], ◌∷◌, arith, ◌⊎◌, inl, inr, Bool-cases, ◌==◌, ==_iff,
  if_split,
}
use autopiercam.Upload.Store.Errors.{Result, ok, i64_max, IfOk, IfOk-bind}
use autopiercam.Upload.Store.States.{UploadState, state_eq}
use autopiercam.Upload.Store.Ledger.{
  UploadJob, UploadMetadata, bit, after_update, change_row, update_row, update_rows, job_checks,
}
use autopiercam.Upload.Store.Ledger.Counts.{count_of, tally, IsCounted, aggregate-IsCounted}

-- The rows of two tables correspond, one by one.
abbrev pub Pointwise : (UploadJob → UploadJob → Type 0) → List UploadJob → List UploadJob → Type 0
Pointwise R [] [] = Unit
Pointwise R [] (y ∷ ys) = ⊥
Pointwise R (x ∷ xs) [] = ⊥
Pointwise R (x ∷ xs) (y ∷ ys) = R x y × Pointwise R xs ys

-- A row that stayed, or was changed as a relation says.
abbrev pub Stays : (UploadJob → UploadJob → Type 0) → UploadJob → UploadJob → Type 0
Stays Step old new = (new ≡ old) ⊎ Step old new

-- A row with its revision raised once, which the CHECKs accept.
pub record IsChecked (old new : UploadJob) : Type 0 where
  pub revision : new.job_revision ≡ old.job_revision + 1
  pub checks : job_checks new ≡ true

pub record IsUpdated (Step : UploadJob → UploadJob → Type 0) (where_clause : UploadJob → Bool)
    (m : UploadMetadata) (jobs : List UploadJob) (m' : UploadMetadata) (jobs' : List UploadJob)
    (n : ℕ) : Type 0 where
  pub rows : Pointwise (Stays Step) jobs jobs'
  pub counts :
      (s : UploadState) → count_of s m'.counts + tally s jobs ≡ count_of s m.counts + tally s jobs'
  pub revision : m'.ledger_revision ≡ m.ledger_revision + n
  pub bounded : m.ledger_revision ≤ i64_max → m'.ledger_revision ≤ i64_max
  pub unchanged : n ≡ 0 → (m' ≡ m) × (jobs' ≡ jobs)
  pub ledger_id : m'.ledger_id ≡ m.ledger_id

module _ (Step : UploadJob → UploadJob → Type 0) (where_clause : UploadJob → Bool)
    (set : UploadJob → UploadJob)
    (steps : (job : UploadJob)
      → where_clause job ≡ true
      → IsChecked job (set job)
      → Step job (set job)) where
  -- What an update of one row leaves.
  abbrev pub RowUpdated : UploadMetadata → UploadJob → UploadMetadata × UploadJob × ℕ → Type 0
  RowUpdated m job (m', job', n) =
      Stays Step job job'
      × ((s : UploadState)
          → count_of s m'.counts + bit (state_eq job.state s)
            ≡ count_of s m.counts + bit (state_eq job'.state s))
      × (m'.ledger_revision ≡ m.ledger_revision + n)
      × (n ≡ 0 → (m' ≡ m) × (job' ≡ job))
      × (m'.ledger_id ≡ m.ledger_id)
      × (m.ledger_revision ≤ i64_max → m'.ledger_revision ≤ i64_max)

  change_row_lem :
      (m : UploadMetadata) (job : UploadJob)
      → where_clause job ≡ true
      → IfOk (RowUpdated m job) (change_row job (set job) m)
  unfolding change_row
  change_row_lem m job h = elim (Bool-cases ((set job).job_revision == job.job_revision + 1)) [
    | inr wrong ↦ rw wrong tt
    | inl right ↦ rw right (elim (Bool-cases (job_checks (set job))) [
      | inr bad ↦ rw bad tt
      | inl good ↦ rw good (
          IfOk-bind (IsCounted (state_eq job.state) (set job) m) (RowUpdated m job)
            (after_update job (set job) m) (λ m'. ok (m', set job, 1))
            (aggregate-IsCounted (state_eq job.state) _ _ (set job) m)
            λ m' c. (
              inr (steps job h record { revision = (==_iff _ _).0 right; checks = good }),
              c.counts,
              c.revision,
              λ z. absurd (omega arith),
              c.ledger_id,
              λ _. c.bounded,
            ))
    ])
  ]

  update_row_lem :
      (m : UploadMetadata) (job : UploadJob)
      → IfOk (RowUpdated m job) (update_row where_clause set m job)
  unfolding update_row
  update_row_lem m job =
      if_split (λ (r : Result (UploadMetadata × UploadJob × ℕ)). IfOk (RowUpdated m job) r)
        (where_clause job) (λ h. change_row_lem m job h)
        (λ h. (inl refl, λ s. refl, omega arith, λ z. (refl, refl), refl, λ b. b))

  abbrev pub Updated :
      UploadMetadata → List UploadJob → UploadMetadata × List UploadJob × ℕ → Type 0
  Updated m jobs (m', jobs', n) = IsUpdated Step where_clause m jobs m' jobs' n

  join :
      (m : UploadMetadata) (job : UploadJob) (jobs : List UploadJob) (m' : UploadMetadata)
      (job' : UploadJob) (n : ℕ) (m'' : UploadMetadata) (jobs' : List UploadJob) (k : ℕ)
      → RowUpdated m job (m', job', n)
      → Updated m' jobs (m'', jobs', k)
      → Updated m (job ∷ jobs) (m'', job' ∷ jobs', n + k)
  join m job jobs m' job' n m'' jobs' k (row, counts, revision, same, id, bound) u = record {
    rows = (row, u.rows);
    counts = λ s. omega (arith, counts s, u.counts s);
    revision = omega (arith, revision, u.revision);
    bounded = λ b. u.bounded (bound b);
    unchanged =
        λ z. let (a, b) = same (omega arith) in let (c, d) = u.unchanged (omega arith) in (cc, cc);
    ledger_id = cc (u.ledger_id);
  }

  pub update_rows_lem :
      (jobs : List UploadJob) (m : UploadMetadata)
      → IfOk (Updated m jobs) (update_rows where_clause set m jobs)
  unfolding update_rows
  update_rows_lem [] m = record {
    rows = tt;
    counts = λ s. refl;
    revision = omega arith;
    bounded = λ b. b;
    unchanged = λ z. (refl, refl);
    ledger_id = refl;
  }
  update_rows_lem (job ∷ jobs) m =
      let rest = update_rows_lem jobs in
      IfOk-bind (RowUpdated m job) _ (update_row where_clause set m job) _ (update_row_lem m job)
        λ (m', job', n) row.
          IfOk-bind (Updated m' jobs) _ (update_rows where_clause set m' jobs) _ (rest m')
            λ (m'', jobs', k) u. join m job jobs m' job' n m'' jobs' k row u
