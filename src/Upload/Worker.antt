-- ===== src/Upload/Worker.antt =====
-- The upload worker (upload_loop of crates/autopiercam/src/upload.rs): it claims the first due job,
-- uploads the file while no lock is held, and settles the claim by the outcome. A round is one pass of
-- its loop; the clock, the stop flag, the observer, the HTTP request, and what others do to the ledger
-- during the request are what the round meets. No lock is ever poisoned, since a panic of the observer
-- is caught.
pub mod Outside
pub mod Stored
pub mod Idle
use autopiercam.Base.{ℕ, ◌+◌, Bool, true, false, Option, none, some, List, [], ◌∷◌, leb, u64_max}
use autopiercam.Base.Bytes.{bytes}
use autopiercam.Upload.Retry.{
  AttemptOutcome, success, retry, permanent, retry_delays, delay, fnv1a, wait_until_due,
}
use autopiercam.Upload.Store.Errors.{UploadStoreError, Result, ok, err}
use autopiercam.Upload.Store.Platform.{Platform}
use autopiercam.Upload.Store.Ledger.{Ledger}
use autopiercam.Upload.Store.Claims.{
  UploadStore, ClaimedUpload, claim_due, release_claim, mark_retrying, mark_completed,
  mark_permanently_failed,
}
use autopiercam.Upload.Store.Retained.{next_due}
use autopiercam.Upload.Store.Operations.{Operation, run_operations}

pub data UploadError : Type 0 where
  store : UploadStoreError → UploadError
  clock_error clock_out_of_range observer_panicked : UploadError

-- How a round of the loop ends: with another round, after a sleep of so many milliseconds at most; with
-- the end of the thread; or with its error.
pub data RoundEnd : Type 0 where
  again : ℕ → RoundEnd
  stopped : RoundEnd
  failed : UploadError → RoundEnd

-- What a round meets, in the order of the loop. A time `none` stands for an error of the clock; a
-- `snapshot` is the error of `store.snapshot()`, where it fails.
pub record Round : Type 0 where
  pub stop_at_start : Bool
  pub claim_time : Option ℕ
  pub snapshot_after_claim : Option UploadStoreError
  pub observed_claim : Bool
  pub disconnected : Bool
  pub stop_after_claim : Bool
  pub meanwhile : List (UploadStore × Operation)
  pub outcome : ClaimedUpload → AttemptOutcome
  pub finish_time : Option ℕ
  pub snapshot_after_outcome : Option UploadStoreError
  pub observed_outcome : Bool
  pub stop_at_end : Bool

-- What is left of a ledger, and an error, if there is one.
abbrev pub Outcome : Type 0
Outcome = Ledger × Option UploadError

abbrev pub stored : Ledger → Result Ledger → Outcome
stored l (ok l') = (l', none)
stored l (err e) = (l, some (store e))

-- `store.snapshot()?`, where nothing failed before.
abbrev pub snapshotted : Option UploadStoreError → Outcome → Outcome
snapshotted none o = o
snapshotted (some e) (l, none) = (l, some (store e))
snapshotted (some e) (l, some earlier) = (l, some earlier)

-- `notify_observer`, where nothing failed before.
abbrev pub observed : Bool → Outcome → Outcome
observed true o = o
observed false (l, none) = (l, some observer_panicked)
observed false (l, some e) = (l, some e)

-- A job whose next attempt cannot be told fails for good, and so does the worker.
abbrev pub out_of_range : Ledger → Result Ledger → Outcome
out_of_range l (ok l') = (l', some clock_out_of_range)
out_of_range l (err e) = (l, some (store e))

-- `persist_outcome_and_publish`, before it publishes.
unfoldable pub persist_outcome : ClaimedUpload → AttemptOutcome → ℕ → Ledger → Outcome
persist_outcome claim (success status) finished_at l =
    stored l (mark_completed claim finished_at status l)
persist_outcome claim (permanent status error) finished_at l =
    stored l (mark_permanently_failed claim finished_at status (some (bytes error)) l)
persist_outcome claim (retry status retry_after error) finished_at l =
    let next_attempt_at : ℕ =
      finished_at
      + delay retry_delays claim.attempt_count (fnv1a claim.idempotency_key) retry_after in
    elim (leb next_attempt_at u64_max) [
      | true ↦
          stored l (mark_retrying claim finished_at next_attempt_at status (some (bytes error)) l)
      | false ↦ out_of_range l (
          mark_permanently_failed claim finished_at status
            (some (bytes "retry time cannot be represented safely")) l)
    ]

-- The end of a round, after the outcome was stored: an error of the clock comes before a stop.
abbrev pub ending : Option ℕ → Bool → RoundEnd
ending none stop = failed clock_error
ending (some t) true = stopped
ending (some t) false = again 0

abbrev pub ended : Outcome → RoundEnd → Ledger × RoundEnd
ended (l, none) end = (l, end)
ended (l, some e) end = (l, failed e)

abbrev pub or_time : Option ℕ → ℕ → ℕ
or_time none t = t
or_time (some u) t = u

module _ (platform : Platform) (upload_store : UploadStore) where
  -- A round that has claimed a job, from the second look at the stop flag on.
  unfoldable pub claimed_round : Round → ℕ → ClaimedUpload → Ledger → Ledger × RoundEnd
  claimed_round r claim_time claim l =
      let finished_at : ℕ = or_time r.finish_time claim_time in
      elim r.stop_after_claim [
        | true ↦
            ended
              (observed r.observed_outcome (
                snapshotted r.snapshot_after_outcome (stored l (release_claim claim claim_time l))))
              stopped
        | false ↦
            ended
              (observed r.observed_outcome (
                snapshotted r.snapshot_after_outcome (
                  persist_outcome claim (r.outcome claim) finished_at
                    (run_operations platform r.meanwhile l))))
              (ending r.finish_time r.stop_at_end)
      ]

  -- What follows on a claim, or on there being none, once the snapshot was taken.
  unfoldable pub after_snapshot : Round → ℕ → Ledger → Option ClaimedUpload → Ledger × RoundEnd
  after_snapshot r claim_time l none = (
    l,
    elim r.disconnected [
      | true ↦ stopped
      | false ↦ again (wait_until_due (next_due l.jobs) claim_time)
    ],
  )
  after_snapshot r claim_time l (some claim) = elim r.observed_claim [
    | true ↦ claimed_round r claim_time claim l
    | false ↦ (l, failed observer_panicked)
  ]

  -- The rest of `claim_and_publish` and of the round, after `claim_due`.
  unfoldable pub after_claim :
      Round → ℕ → Ledger → Result (Ledger × Option ClaimedUpload) → Ledger × RoundEnd
  after_claim r claim_time l (err e) = (l, failed (store e))
  after_claim r claim_time l (ok (l', claim)) = elim r.snapshot_after_claim [
    | none ↦ after_snapshot r claim_time l' claim
    | some e ↦ (l', failed (store e))
  ]

  -- One pass of `upload_loop`.
  unfoldable pub upload_round : Round → Ledger → Ledger × RoundEnd
  upload_round r l = elim r.stop_at_start [
    | true ↦ (l, stopped)
    | false ↦ elim r.claim_time [
      | none ↦ (l, failed clock_error)
      | some now ↦ after_claim r now l (claim_due platform upload_store now l)
    ]
  ]

  -- `upload_loop`, up to its end or to the last round that is known. While it waits between two
  -- rounds, others may change the ledger too.
  unfoldable pub upload_loop :
      List (Round × List (UploadStore × Operation)) → Ledger → Ledger × RoundEnd
  upload_loop [] l = (l, again 0)
  upload_loop ((r, between) ∷ rounds) l =
      let (l', end) = upload_round r l in
      elim end [
        | again sleep ↦ upload_loop rounds (run_operations platform between l')
        | stopped ↦ (l', stopped)
        | failed e ↦ (l', failed e)
      ]
