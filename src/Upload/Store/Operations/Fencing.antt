-- ===== src/Upload/Store/Operations/Fencing.antt =====
-- A claim that was settled is spent: it never settles again, whatever happens to its job meanwhile.
use autopiercam.Base.{
  ℕ, ◌<◌, ◌≡◌, refl, sym, subst, Bool, true, false, List, arith, inl, inr, Bool-cases, ◌==◌, All,
  leb, ◌≢◌, if◌then◌else◌,
}
use autopiercam.Base.Bytes.{any}
use autopiercam.Upload.Store.Errors.{
  UploadStoreError, attempt_count_overflow, i64_max, Result, ok, err, ensure, ◌>>=◌, ◌>>◌, IfOk,
  IfOk-bind, invalid_transition, unix_ms_to_database,
}
use autopiercam.Upload.Store.States.{in_progress}
use autopiercam.Upload.Store.Platform.{Platform}
use autopiercam.Upload.Store.Ledger.{UploadJob, UploadMetadata, Ledger, update_rows, update_jobs}
use autopiercam.Upload.Store.Claims.{
  UploadStore, ClaimedUpload, is_claimed, settle, attempt_count_to_database, release_claim,
  mark_retrying, mark_completed, mark_permanently_failed, released_row, retrying_row, completed_row,
  failed_row,
}
use autopiercam.Upload.Store.History.{Evolves, IsSound, ids_of}
use autopiercam.Upload.Store.Operations.{
  Operation, run_operations, Settlement, release, retry, complete, fail, settle_with,
}
use autopiercam.Upload.Store.Operations.Settling.{settle_with-Evolves}
use autopiercam.Upload.Store.Operations.Evolution.{run_operations-Evolves}
use autopiercam.Upload.Store.Operations.Recorded.{IsFresh}
use autopiercam.Upload.Store.Operations.Spent.{IsSpent, Extends-IsSpent}
use autopiercam.Upload.Store.Operations.SettlingRows.{
  Settled, update_rows-Settled, update_rows-spent,
}

-- The table knows a job, and its row is spent.
abbrev KnowsSpent : (id attempt : ℕ) → Ledger → Type 0
KnowsSpent id attempt l =
    (any (λ k. id == k) (ids_of l.jobs) ≡ true) × All (IsSpent id attempt) l.jobs

attempt_lem : (c : ClaimedUpload) → IfOk (λ n. n ≡ c.attempt_count) (attempt_count_to_database c)
unfolding attempt_count_to_database
attempt_lem c = pick (leb c.attempt_count i64_max)
  where
    pick :
        (b : Bool)
        → IfOk
            (λ n. n ≡ c.attempt_count)
            (if b then ok (c.attempt_count) else err (attempt_count_overflow c.job_id))
    pick true = refl
    pick false = tt

-- SET lists that keep the id and the attempt number of a job, and take it out of its claim.
record IsSettling (set : UploadJob → UploadJob) : Type 0 where
  pub id : (job : UploadJob) → (set job).id ≡ job.id
  pub attempt : (job : UploadJob) → (set job).attempt_count ≡ job.attempt_count
  pub leaves : (job : UploadJob) → (set job).state ≢ in_progress

module _ (set : UploadJob → UploadJob) (q : IsSettling set) (c : ClaimedUpload) (l : Ledger) where
  update_jobs-KnowsSpent :
      (n : ℕ)
      → IsSound l
      → IfOk
          (λ (r : Ledger × ℕ). 0 < r.1 → KnowsSpent (c.job_id) n (r.0))
          (update_jobs (is_claimed (c.job_id) n) set l)
  unfolding update_jobs
  update_jobs-KnowsSpent n sound =
      IfOk-bind (Settled (c.job_id) n set (q.id) (q.attempt) (q.leaves) (l.jobs))
        (λ (r : Ledger × ℕ). 0 < r.1 → KnowsSpent (c.job_id) n (r.0))
        (update_rows (is_claimed (c.job_id) n) set (l.metadata) (l.jobs)) _
        (update_rows-Settled (c.job_id) n set (q.id) (q.attempt) (q.leaves) (l.jobs) (l.metadata)
          (sound.ids))
        λ (m, jobs, changed) settled h. let (_, known, spent) = settled h in (known, spent)

  settle-KnowsSpent : IsSound l → IfOk (KnowsSpent (c.job_id) (c.attempt_count)) (settle set c l)
  unfolding settle
  settle-KnowsSpent sound =
      let Q = KnowsSpent (c.job_id) (c.attempt_count) in
      IfOk-bind (λ n. n ≡ c.attempt_count) Q (attempt_count_to_database c) _ (attempt_lem c)
        λ n is_n.
          IfOk-bind (λ (r : Ledger × ℕ). 0 < r.1 → KnowsSpent (c.job_id) n (r.0)) Q
            (update_jobs (is_claimed (c.job_id) n) set l) _ (update_jobs-KnowsSpent n sound)
            λ (l', changed) spent. counted n is_n l' changed spent
    where
      counted :
          (n : ℕ)
          → n ≡ c.attempt_count
          → (l' : Ledger) (changed : ℕ) → (0 < changed → KnowsSpent (c.job_id) n l')
          → IfOk
              (KnowsSpent (c.job_id) (c.attempt_count))
              (ensure (changed == 1) (invalid_transition c.job_id) >> ok l')
      counted n is_n l' changed spent = elim (Bool-cases (changed == 1)) [
        | inr other ↦ rw other tt
        | inl one ↦
            rw one (subst (λ (k : ℕ). KnowsSpent (c.job_id) k l') is_n (spent (ground arith)))
      ]

  update_jobs-spent :
      (n : ℕ)
      → All (IsSpent (c.job_id) n) (l.jobs)
      → IfOk (λ (r : Ledger × ℕ). r.1 ≡ 0) (update_jobs (is_claimed (c.job_id) n) set l)
  unfolding update_jobs
  update_jobs-spent n spent =
      IfOk-bind (λ (r : UploadMetadata × List UploadJob × ℕ). r.2 ≡ 0) (λ (r : Ledger × ℕ). r.1 ≡ 0)
        (update_rows (is_claimed (c.job_id) n) set (l.metadata) (l.jobs)) _
        (update_rows-spent (c.job_id) n set (q.id) (q.attempt) (q.leaves) (l.jobs) (l.metadata)
          spent)
        λ (m, jobs, changed) z. z

  settle-spent :
      All (IsSpent (c.job_id) (c.attempt_count)) (l.jobs) → IfOk (λ _. ⊥) (settle set c l)
  unfolding settle
  settle-spent spent =
      IfOk-bind (λ n. n ≡ c.attempt_count) (λ _. ⊥) (attempt_count_to_database c) _ (attempt_lem c)
        λ n is_n.
          IfOk-bind (λ (r : Ledger × ℕ). r.1 ≡ 0) (λ _. ⊥)
            (update_jobs (is_claimed (c.job_id) n) set l) _
            (update_jobs-spent n
              (subst (λ (k : ℕ). All (IsSpent (c.job_id) k) (l.jobs)) (sym is_n) spent))
            λ (l', changed) none_changed. rw none_changed tt

-- What holds of every failure, and of what follows a success, holds of the chain.
bind_either :
    (P : Result Ledger → Type 0)
    → ((e : UploadStoreError) → P (err e))
    → (r : Result ℕ) (rest : ℕ → Result Ledger) → ((t : ℕ) → P (rest t))
    → P (r >>= rest)
bind_either P fails (ok t) rest g = g t
bind_either P fails (err e) rest g = fails e

-- Each of the four methods is a settling update, up to its checks of the times that it is given.
settling :
    (P : Result Ledger → Type 0)
    → ((e : UploadStoreError) → P (err e))
    → (s : Settlement) (c : ClaimedUpload) (l : Ledger)
    → ((set : UploadJob → UploadJob) → IsSettling set → P (settle set c l))
    → P (settle_with s c l)
unfolding settle_with release_claim mark_retrying mark_completed mark_permanently_failed
settling P fails (release now) c l f =
    bind_either P fails (unix_ms_to_database now) _
      λ t. f (released_row t) record { id = λ j. refl; attempt = λ j. refl; leaves = λ j e. cc }
settling P fails (retry failed_at next_at status error) c l f =
    bind_either P fails (unix_ms_to_database failed_at)
      (λ t. unix_ms_to_database next_at >>= λ n. settle (retrying_row t n status error) c l)
      λ t.
        bind_either P fails (unix_ms_to_database next_at)
          (λ n. settle (retrying_row t n status error) c l)
          λ n.
            f (retrying_row t n status error)
              record { id = λ j. refl; attempt = λ j. refl; leaves = λ j e. cc }
settling P fails (complete completed_at status) c l f =
    bind_either P fails (unix_ms_to_database completed_at) _ λ t.
      f (completed_row t status) record { id = λ j. refl; attempt = λ j. refl; leaves = λ j e. cc }
settling P fails (fail failed_at status error) c l f =
    bind_either P fails (unix_ms_to_database failed_at) _ λ t.
      f (failed_row t status error)
        record { id = λ j. refl; attempt = λ j. refl; leaves = λ j e. cc }

-- A method that does not succeed fails.
refused : (r : Result Ledger) → IfOk (λ _. ⊥) r → (e : UploadStoreError) × (r ≡ err e)
refused (ok l) h = absurd h
refused (err e) h = (e, refl)

module _ (platform : Platform) (fresh : IsFresh platform) where
  -- If SQLite gives each new row an id that no row has, a claim that was settled on a sound ledger
  -- (released, retried, completed or given up) is never settled again, in any of the four ways,
  -- whatever operations come between.
  pub settled_once :
      (s again : Settlement) (c : ClaimedUpload) (operations : List (UploadStore × Operation))
      (l l' : Ledger)
      → IsSound l
      → settle_with s c l ≡ ok l'
      → (e : UploadStoreError) × (settle_with again c (run_operations platform operations l')
          ≡ err e)
  settled_once s again c operations l l' sound settled =
      let good : IfOk (λ (x : Ledger). KnowsSpent (c.job_id) (c.attempt_count) x × IsSound x)
          (settle_with s c l) =
        known (settle_with s c l)
          (settling (IfOk (KnowsSpent (c.job_id) (c.attempt_count))) (λ e. tt) s c l
            (λ set q. settle-KnowsSpent set q c l sound))
          (settle_with-Evolves s c l) in
      let ((any_row, spent), sound') =
        subst (IfOk (λ (x : Ledger). KnowsSpent (c.job_id) (c.attempt_count) x × IsSound x)) settled
          good in
      let after : Ledger = run_operations platform operations l' in
      let evolved = run_operations-Evolves platform fresh operations l' sound' in
      let still =
        Extends-IsSpent (c.job_id) (c.attempt_count) (l'.jobs) (after.jobs) (evolved.jobs) any_row
          (evolved.sound.ids) spent in
      refused (settle_with again c after) (
        settling (IfOk (λ _. ⊥)) (λ e. tt) again c after
          (λ set q. settle-spent set q c after still))
    where
      known :
          (r : Result Ledger)
          → IfOk (KnowsSpent (c.job_id) (c.attempt_count)) r
          → IfOk (Evolves l) r
          → IfOk (λ (x : Ledger). KnowsSpent (c.job_id) (c.attempt_count) x × IsSound x) r
      known (ok x) k e = (k, (e sound).sound)
      known (err e) k h = tt
