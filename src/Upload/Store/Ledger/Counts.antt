-- ===== src/Upload/Store/Ledger/Counts.antt =====
-- The triggers keep the counts of upload_metadata equal to the numbers of rows in each state.
use autopiercam.Base.{
  ℕ, ◌+◌, ◌≤◌, ◌≡◌, refl, Bool, List, [], ◌∷◌, ◌++◌, arith, inl, inr, Bool-cases, leb, leb→le,
}
use autopiercam.Upload.Store.Errors.{Result, ok, err, IfOk, IfOk-bind, i64_max}
use autopiercam.Upload.Store.States.{
  UploadState, pending, in_progress, retrying, completed, permanently_failed, state_eq,
}
use autopiercam.Upload.Store.Ledger.{
  UploadJob, UploadStateCounts, UploadMetadata, bit, recount, recount_all, aggregate,
}

abbrev pub count_of : UploadState → UploadStateCounts → ℕ
count_of pending c = c.pending
count_of in_progress c = c.in_progress
count_of retrying c = c.retrying
count_of completed c = c.completed
count_of permanently_failed c = c.permanently_failed

-- The number of rows in a state.
abbrev pub tally : UploadState → List UploadJob → ℕ
tally s [] = 0
tally s (job ∷ jobs) = bit (state_eq job.state s) + tally s jobs

pub tally-append :
    (s : UploadState) (xs ys : List UploadJob) → tally s (xs ++ ys) ≡ tally s xs + tally s ys
tally-append s [] ys = omega arith
tally-append s (x ∷ xs) ys = omega (arith, tally-append s xs ys)

recount_lem :
    (before after : Bool) (count : ℕ)
    → IfOk (λ n. n + bit before ≡ count + bit after) (recount before after count)
unfolding recount
recount_lem before after count = ground arith

recount_all_lem :
    (before after : UploadState → Bool) (counts : UploadStateCounts) (s : UploadState)
    → IfOk
        (λ c. count_of s c + bit (before s) ≡ count_of s counts + bit (after s))
        (recount_all before after counts)
unfolding recount_all
recount_all_lem before after counts s =
    IfOk-bind _ _ _ _ (recount_lem (before pending) (after pending) counts.pending) λ p hp.
      IfOk-bind _ _ _ _ (recount_lem (before in_progress) (after in_progress) counts.in_progress)
        λ i hi.
          IfOk-bind _ _ _ _ (recount_lem (before retrying) (after retrying) counts.retrying) λ r hr.
            IfOk-bind _ _ _ _ (recount_lem (before completed) (after completed) counts.completed)
              λ c hc.
                IfOk-bind _ _ _ _
                  (recount_lem (before permanently_failed) (after permanently_failed)
                    counts.permanently_failed)
                  λ f hf. pick p i r c f hp hi hr hc hf s
  where
    pick :
        (p i r c f : ℕ)
        → p + bit (before pending) ≡ counts.pending + bit (after pending)
        → i + bit (before in_progress) ≡ counts.in_progress + bit (after in_progress)
        → r + bit (before retrying) ≡ counts.retrying + bit (after retrying)
        → c + bit (before completed) ≡ counts.completed + bit (after completed)
        → f + bit (before permanently_failed)
          ≡ counts.permanently_failed + bit (after permanently_failed)
        → (s : UploadState)
        → count_of s (record {
          pending = p;
          in_progress = i;
          retrying = r;
          completed = c;
          permanently_failed = f;
        })
            + bit (before s)
          ≡ count_of s counts + bit (after s)
    pick p i r c f hp hi hr hc hf pending = hp
    pick p i r c f hp hi hr hc hf in_progress = hi
    pick p i r c f hp hi hr hc hf retrying = hr
    pick p i r c f hp hi hr hc hf completed = hc
    pick p i r c f hp hi hr hc hf permanently_failed = hf

-- What the triggers do to the row of upload_metadata.
pub record IsCounted (before : UploadState → Bool) (job : UploadJob) (m m' : UploadMetadata)
    : Type 0 where
  pub counts :
      (s : UploadState)
      → count_of s m'.counts + bit (before s) ≡ count_of s m.counts + bit (state_eq job.state s)
  pub revision : m'.ledger_revision ≡ m.ledger_revision + 1
  pub bounded : m'.ledger_revision ≤ i64_max
  pub ledger_id : m'.ledger_id ≡ m.ledger_id
  pub capture_root : m'.capture_root ≡ m.capture_root
  pub destination : m'.destination ≡ m.destination
  pub authorization : m'.authorization_sha256 ≡ m.authorization_sha256

pub aggregate-IsCounted :
    (before : UploadState → Bool) (succeeded failed : Bool) (job : UploadJob) (m : UploadMetadata)
    → IfOk (IsCounted before job m) (aggregate before succeeded failed job m)
unfolding aggregate
aggregate-IsCounted before succeeded failed job m =
    IfOk-bind
      (λ c.
        (s : UploadState)
        → count_of s c + bit (before s) ≡ count_of s m.counts + bit (state_eq job.state s))
      (IsCounted before job m) (recount_all before (state_eq job.state) m.counts) _
      (all_states (recount_all before (state_eq job.state) m.counts)
        (recount_all_lem before (state_eq job.state) m.counts))
      λ c h. elim (Bool-cases (leb (m.ledger_revision + 1) i64_max)) [
        | inr full ↦ rw full tt
        | inl fits ↦ rw fits (record {
          counts = h;
          revision = refl;
          bounded = leb→le _ _ fits;
          ledger_id = refl;
          capture_root = refl;
          destination = refl;
          authorization = refl;
        })
      ]
  where
    all_states :
        (r : Result UploadStateCounts)
        → ((s : UploadState)
            → IfOk
                (λ c.
                  count_of s c + bit (before s) ≡ count_of s m.counts + bit (state_eq job.state s))
                r)
        → IfOk
            (λ c.
              (s : UploadState)
              → count_of s c + bit (before s) ≡ count_of s m.counts + bit (state_eq job.state s))
            r
    all_states (ok c) h = h
    all_states (err e) h = tt
