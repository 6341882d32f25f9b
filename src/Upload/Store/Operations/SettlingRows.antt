-- ===== src/Upload/Store/Operations/SettlingRows.antt =====
-- What the update that settles a claim does: it leaves the job's row spent, and finds no spent row.
use autopiercam.Base.{
  ℕ, ◌+◌, ◌<◌, ◌≡◌, refl, sym, subst, ap, Bool, true, false, ◌&&◌, ◌||◌, List, [], ◌∷◌, arith, ◌⊎◌,
  inl, inr, ◌==◌, ==_iff, &&-true, All, All-map, if_split, ◌≢◌, ◌∙◌,
}
use autopiercam.Base.Bytes.{any}
use autopiercam.Upload.Store.Errors.{
  Result, ok, err, ensure, ◌>>=◌, ◌>>◌, IfOk, IfOk-bind, IfOk-then, sqlite,
}
use autopiercam.Upload.Store.States.{in_progress, state_eq, state_eq→eq}
use autopiercam.Upload.Store.Ledger.{
  UploadJob, UploadMetadata, after_update, change_row, update_row, update_rows, job_checks,
}
use autopiercam.Upload.Store.Claims.{is_claimed}
use autopiercam.Upload.Store.Claims.Due.{absent_id}
use autopiercam.Upload.Store.History.{IsDistinct, ids_of}
use autopiercam.Upload.Store.Operations.Spent.{IsSpent}

module _ (id attempt : ℕ) (set : UploadJob → UploadJob)
    (same_id : (job : UploadJob) → (set job).id ≡ job.id)
    (same_attempt : (job : UploadJob) → (set job).attempt_count ≡ job.attempt_count)
    (leaves : (job : UploadJob) → (set job).state ≢ in_progress) where
  abbrev RowSettled : UploadJob → UploadMetadata × UploadJob × ℕ → Type 0
  RowSettled job (m, job', n) =
      ((n ≡ 0) × (job' ≡ job)) ⊎ ((is_claimed id attempt job ≡ true) × (job' ≡ set job))

  row_settled :
      (m : UploadMetadata) (job : UploadJob)
      → IfOk (RowSettled job) (update_row (is_claimed id attempt) set m job)
  unfolding update_row change_row
  row_settled m job =
      if_split (λ (r : Result (UploadMetadata × UploadJob × ℕ)). IfOk (RowSettled job) r)
        (is_claimed id attempt job)
        (λ h.
          IfOk-then (RowSettled job)
            (ensure ((set job).job_revision == job.job_revision + 1) sqlite)
            (λ _.
              ensure (job_checks (set job)) sqlite
              >> (after_update job (set job) m >>= λ m'. ok (m', set job, 1)))
            λ u.
              IfOk-then (RowSettled job) (ensure (job_checks (set job)) sqlite)
                (λ _. after_update job (set job) m >>= λ m'. ok (m', set job, 1))
                λ u.
                  IfOk-then (RowSettled job) (after_update job (set job) m)
                    (λ m'. ok (m', set job, 1)) λ m'. inr (h, refl))
        (λ h. inl (refl, refl))

  settled-id :
      (job job' : UploadJob) (n : ℕ) (m : UploadMetadata)
      → RowSettled job (m, job', n)
      → job'.id ≡ job.id
  settled-id job job' n m (inl (e, same)) = ap (λ (j : UploadJob). j.id) same
  settled-id job job' n m (inr (h, same)) = ap (λ (j : UploadJob). j.id) same ∙ same_id job

  -- Rows with other ids stay rows with other ids.
  abbrev Others : List UploadJob → Type 0
  Others jobs = All (λ job. job.id ≡ id → ⊥) jobs

  update_rows-Others :
      (jobs : List UploadJob) (m : UploadMetadata)
      → IfOk
          (λ (m', jobs', n). Others jobs → Others jobs')
          (update_rows (is_claimed id attempt) set m jobs)
  unfolding update_rows
  update_rows-Others [] m = λ o. tt
  update_rows-Others (job ∷ jobs) m =
      let rest = update_rows-Others jobs in
      IfOk-bind (RowSettled job) _ (update_row (is_claimed id attempt) set m job) _
        (row_settled m job)
        λ (m', job', n) row.
          IfOk-bind (λ (m'', jobs', k). Others jobs → Others jobs') _
            (update_rows (is_claimed id attempt) set m' jobs) _ (rest m')
            λ (m'', jobs', k) os (other, others).
              ((λ e. other (sym (settled-id job job' n m' row) ∙ e)), os others)

  claimed_parts :
      (job : UploadJob)
      → is_claimed id attempt job ≡ true
      → (job.id ≡ id) × (job.attempt_count ≡ attempt)
  claimed_parts job h =
      let (a, b) = &&-true (job.id == id && state_eq job.state in_progress) _ h in
      ((==_iff _ _).0 (&&-true (job.id == id) _ a).0, (==_iff _ _).0 b)

  -- Once a row is settled, the row with this id is spent.
  abbrev pub Settled : List UploadJob → UploadMetadata × List UploadJob × ℕ → Type 0
  Settled jobs (m, jobs', n) =
      0 < n
      → (any (λ k. id == k) (ids_of jobs) ≡ true)
        × (any (λ k. id == k) (ids_of jobs') ≡ true)
        × All (IsSpent id attempt) jobs'

  settled_row-IsSpent :
      (job job' : UploadJob)
      → is_claimed id attempt job ≡ true
      → job' ≡ set job
      → IsSpent id attempt job'
  settled_row-IsSpent job job' claimed same _ =
      let (_, at) = claimed_parts job claimed in
      let count : job'.attempt_count ≡ attempt =
        ap (λ (j : UploadJob). j.attempt_count) same ∙ (same_attempt job ∙ at) in
      (
        omega (arith, count),
        λ e. absurd (leaves job (sym (ap (λ (j : UploadJob). j.state) same) ∙ e)),
      )

  join-Settled :
      (job job' : UploadJob) (n : ℕ) (m : UploadMetadata) (jobs jobs' : List UploadJob) (k : ℕ)
      (m' : UploadMetadata)
      → RowSettled job (m, job', n)
      → any (λ i. job.id == i) (ids_of jobs) ≡ false
      → (Others jobs → Others jobs')
      → Settled jobs (m', jobs', k)
      → Settled (job ∷ jobs) (m', job' ∷ jobs', n + k)
  join-Settled job job' n m jobs jobs' k m' (inl (none_yet, same)) p others later some_row =
      let (a, b, spent) = later (omega arith) in
      (
        or_right (id == job.id) _ a,
        or_right (id == job'.id) _ b,
        (λ e. absurd (contradict (ap (λ (j : UploadJob). j.id) (sym same) ∙ e) a), spent),
      )
    where
      or_right : (x y : Bool) → y ≡ true → (x || y) ≡ true
      or_right true y h = refl
      or_right false y h = h

      contradict : job.id ≡ id → any (λ i. id == i) (ids_of jobs) ≡ true → ⊥
      contradict e h =
          let h' = subst (λ (x : ℕ). any (λ i. x == i) (ids_of jobs) ≡ true) (sym e) h in cc (h', p)
  join-Settled job job' n m jobs jobs' k m' (inr (claimed, same)) p others later some_row =
      let (is_id, at) = claimed_parts job claimed in
      let absent =
        subst (λ (x : ℕ). All (λ (r : UploadJob). r.id ≡ x → ⊥) jobs) is_id
          (absent_id (job.id) jobs p) in
      let new_id = settled-id job job' n m (inr (claimed, same)) in
      (
        or_left (id == job.id) _ ((==_iff id (job.id)).1 (sym is_id)),
        or_left (id == job'.id) _ ((==_iff id (job'.id)).1 (sym (new_id ∙ is_id))),
        (
          settled_row-IsSpent job job' claimed same,
          All-map (λ row other e. absurd (other e)) jobs' (others absent),
        ),
      )
    where
      or_left : (x y : Bool) → x ≡ true → (x || y) ≡ true
      or_left true y h = refl
      or_left false y h = cc

  both :
      (P Q : UploadMetadata × List UploadJob × ℕ → Type 0)
      (r : Result (UploadMetadata × List UploadJob × ℕ))
      → IfOk P r
      → IfOk Q r
      → IfOk (λ a. P a × Q a) r
  both P Q (ok a) p q = (p, q)
  both P Q (err e) p q = tt

  pub update_rows-Settled :
      (jobs : List UploadJob) (m : UploadMetadata)
      → IsDistinct ◌==◌ (ids_of jobs)
      → IfOk (Settled jobs) (update_rows (is_claimed id attempt) set m jobs)
  unfolding update_rows
  update_rows-Settled [] m d = λ h. absurd (omega arith)
  update_rows-Settled (job ∷ jobs) m (p, d) =
      let rest = update_rows-Settled jobs in
      IfOk-bind (RowSettled job) _ (update_row (is_claimed id attempt) set m job) _
        (row_settled m job)
        λ (m', job', n) row.
          IfOk-bind (λ r. (Others jobs → Others (r.1)) × Settled jobs r) _
            (update_rows (is_claimed id attempt) set m' jobs) _
            (both (λ r. Others jobs → Others (r.1)) (Settled jobs)
              (update_rows (is_claimed id attempt) set m' jobs) (update_rows-Others jobs m')
              (rest m' d))
            λ (m'', jobs', k) (others, later).
              join-Settled job job' n m' jobs jobs' k m'' row p others later

  -- A spent claim updates no row.
  pub update_rows-spent :
      (jobs : List UploadJob) (m : UploadMetadata)
      → All (IsSpent id attempt) jobs
      → IfOk (λ (m', jobs', n). n ≡ 0) (update_rows (is_claimed id attempt) set m jobs)
  unfolding update_rows
  update_rows-spent [] m s = refl
  update_rows-spent (job ∷ jobs) m (spent, s) =
      let rest = update_rows-spent jobs in
      IfOk-bind (RowSettled job) _ (update_row (is_claimed id attempt) set m job) _
        (row_settled m job)
        λ (m', job', n) row.
          IfOk-bind (λ (m'', jobs', k). k ≡ 0) _ (update_rows (is_claimed id attempt) set m' jobs) _
            (rest m' s) λ (m'', jobs', k) z. omega (arith, z, none_claimed job' n m' row)
    where
      none_claimed :
          (job' : UploadJob) (n : ℕ) (m : UploadMetadata) → RowSettled job (m, job', n) → n ≡ 0
      none_claimed job' n m (inl (e, same)) = e
      none_claimed job' n m (inr (claimed, same)) =
          let (is_id, at) = claimed_parts job claimed in
          let busy =
            state_eq→eq (job.state) in_progress
              (&&-true (job.id == id) _
                (&&-true (job.id == id && state_eq job.state in_progress) _ claimed).0).1 in
          absurd (omega (arith, at, (spent is_id).1 busy))
