-- ===== src/Upload/Worker/Idle.antt =====
-- The worker holds one claim at most, and none between its rounds.
use autopiercam.Base.{
  ℕ, ◌+◌, ◌≤◌, ◌≡◌, subst, ◌∙◌, Bool, true, false, Option, none, some, List, [], ◌∷◌, arith, All,
  is_some,
}
use autopiercam.Upload.Store.Retained.{next_due}
use autopiercam.Upload.Retry.{wait_until_due}
use autopiercam.Upload.Store.Errors.{UploadStoreError, Result, ok, err, IfOk}
use autopiercam.Upload.Store.Platform.{Platform}
use autopiercam.Upload.Store.Ledger.{Ledger, bit}
use autopiercam.Upload.Store.Claims.{UploadStore, ClaimedUpload, claim_due, release_claim}
use autopiercam.Upload.Store.Operator.{recover_interrupted_jobs}
use autopiercam.Upload.Store.Operations.{Operation, run_operations, release, settle_with}
use autopiercam.Upload.Store.Operations.InProgress.{
  claims_held, settle_with-claims_held, claim_due-claims_held, recover_interrupted_jobs-claims_held,
}
use autopiercam.Upload.Worker.{
  store, snapshotted, after_snapshot, clock_error, observer_panicked, Round, RoundEnd, again,
  stopped, failed, Outcome, stored, observed, ended, ending, or_time, persist_outcome,
  claimed_round, after_claim, upload_round, upload_loop,
}
use autopiercam.Upload.Worker.Stored.{
  IsStored, stored_lem, persist_outcome-IsStored, observed-IsStored, snapshotted-IsStored,
}
use autopiercam.Upload.Worker.Outside.{AreOutside, outside_operations_keep}

-- How many claims are held after a round, or after the loop.
abbrev pub IsIdleAfter : Ledger × RoundEnd → Type 0
IsIdleAfter (l, again sleep) = claims_held l ≡ 0
IsIdleAfter (l, stopped) = claims_held l ≡ 0
IsIdleAfter (l, failed e) = claims_held l ≤ 1

ended-IsIdleAfter :
    (o : Outcome) (end : RoundEnd)
    → IsStored o
    → ((l : Ledger) → claims_held l ≡ 0 → IsIdleAfter (l, end))
    → IsIdleAfter (ended o end)
ended-IsIdleAfter (l, none) end h f = f l h
ended-IsIdleAfter (l, some e) end h f = h

ending-IsIdleAfter :
    (t : Option ℕ) (stop : Bool) (l : Ledger) → claims_held l ≡ 0 → IsIdleAfter (l, ending t stop)
ending-IsIdleAfter none stop l h = omega (arith, h)
ending-IsIdleAfter (some t) true l h = h
ending-IsIdleAfter (some t) false l h = h

module _ (platform : Platform) (upload_store : UploadStore) where
  claimed_round-IsIdleAfter :
      (r : Round) (now : ℕ) (c : ClaimedUpload) (l : Ledger)
      → AreOutside r.meanwhile
      → claims_held l ≡ 1
      → IsIdleAfter (claimed_round platform upload_store r now c l)
  unfolding claimed_round settle_with
  claimed_round-IsIdleAfter r now c l outside one = pick r.stop_after_claim
    where
      after : Ledger
      after = run_operations platform r.meanwhile l

      finished_at : ℕ
      finished_at = or_time r.finish_time now

      pick :
          (b : Bool)
          → IsIdleAfter (elim b as (λ _. Ledger × RoundEnd) [
            | true ↦
                ended
                  (observed r.observed_outcome
                    (snapshotted r.snapshot_after_outcome (stored l (release_claim c now l))))
                  stopped
            | false ↦
                ended
                  (observed r.observed_outcome (
                    snapshotted r.snapshot_after_outcome (
                      persist_outcome c
                        (r.outcome c)
                        (or_time r.finish_time now)
                        (run_operations platform r.meanwhile l))))
                  (ending r.finish_time r.stop_at_end)
          ])
      pick true =
          ended-IsIdleAfter _ stopped
            (observed-IsStored r.observed_outcome _ (
              snapshotted-IsStored r.snapshot_after_outcome _
                (stored_lem l _ one (settle_with-claims_held (release now) c l)).0))
            λ l h. h
      pick false =
          ended-IsIdleAfter _ (ending r.finish_time r.stop_at_end)
            (observed-IsStored r.observed_outcome _ (
              snapshotted-IsStored r.snapshot_after_outcome _ (
                persist_outcome-IsStored c (r.outcome c) _ _
                  (outside_operations_keep platform r.meanwhile l outside ∙ one))))
            λ l h. ending-IsIdleAfter r.finish_time r.stop_at_end l h

  after_snapshot-IsIdleAfter :
      (r : Round) (now : ℕ) (l : Ledger) (claimed : Option ClaimedUpload)
      → AreOutside r.meanwhile
      → claims_held l ≡ bit (is_some claimed)
      → IsIdleAfter (after_snapshot platform upload_store r now l claimed)
  unfolding after_snapshot
  after_snapshot-IsIdleAfter r now l none outside h = pick r.disconnected
    where
      pick :
          (b : Bool)
          → IsIdleAfter (
            l,
            elim b as (λ _. RoundEnd) [
              | true ↦ stopped
              | false ↦ again (wait_until_due (next_due l.jobs) now)
            ],
          )
      pick true = h
      pick false = h
  after_snapshot-IsIdleAfter r now l (some c) outside h = pick r.observed_claim
    where
      pick :
          (b : Bool)
          → IsIdleAfter (elim b as (λ _. Ledger × RoundEnd) [
            | true ↦ claimed_round platform upload_store r now c l
            | false ↦ (l, failed observer_panicked)
          ])
      pick true = claimed_round-IsIdleAfter r now c l outside h
      pick false = omega (arith, h)

  after_claim-IsIdleAfter :
      (r : Round) (now : ℕ) (l : Ledger) (claimed : Result (Ledger × Option ClaimedUpload))
      → AreOutside r.meanwhile
      → claims_held l ≡ 0
      → IfOk
          (λ (p : Ledger × Option ClaimedUpload).
            claims_held (p.0) ≡ claims_held l + bit (is_some (p.1)))
          claimed
      → IsIdleAfter (after_claim platform upload_store r now l claimed)
  unfolding after_claim
  after_claim-IsIdleAfter r now l (err e) outside idle h = omega (arith, idle)
  after_claim-IsIdleAfter r now l (ok (l', claimed)) outside idle h = pick r.snapshot_after_claim
    where
      held : claims_held l' ≡ bit (is_some claimed)
      held = omega (arith, idle, h)

      pick :
          (e : Option UploadStoreError)
          → IsIdleAfter (elim e as (λ _. Ledger × RoundEnd) [
            | none ↦ after_snapshot platform upload_store r now l' claimed
            | some e ↦ (l', failed (store e))
          ])
      pick none = after_snapshot-IsIdleAfter r now l' claimed outside held
      pick (some e) = ground (arith, held)

  upload_round-IsIdleAfter :
      (r : Round) (l : Ledger)
      → AreOutside r.meanwhile
      → claims_held l ≡ 0
      → IsIdleAfter (upload_round platform upload_store r l)
  unfolding upload_round
  upload_round-IsIdleAfter r l outside idle = pick r.stop_at_start r.claim_time
    where
      pick :
          (b : Bool) (t : Option ℕ)
          → IsIdleAfter (elim b as (λ _. Ledger × RoundEnd) [
            | true ↦ (l, stopped)
            | false ↦ elim t as (λ _. Ledger × RoundEnd) [
              | none ↦ (l, failed clock_error)
              | some now ↦
                  after_claim platform upload_store r now l (claim_due platform upload_store now l)
            ]
          ])
      pick true t = idle
      pick false none = omega (arith, idle)
      pick false (some now) =
          after_claim-IsIdleAfter r now l _ outside idle
            (claim_due-claims_held platform upload_store l now)

  -- What others do meanwhile and between the rounds neither claims nor settles.
  abbrev pub AreRounds : List (Round × List (UploadStore × Operation)) → Type 0
  AreRounds rounds = All (λ r. AreOutside (r.0.meanwhile) × AreOutside (r.1)) rounds

  upload_loop-IsIdleAfter :
      (rounds : List (Round × List (UploadStore × Operation))) (l : Ledger)
      → AreRounds rounds
      → claims_held l ≡ 0
      → IsIdleAfter (upload_loop platform upload_store rounds l)
  unfolding upload_loop
  upload_loop-IsIdleAfter [] l outside idle = idle
  upload_loop-IsIdleAfter ((r, between) ∷ rounds) l ((meanwhile, others), outside) idle =
      let (l', end) = upload_round platform upload_store r l in
      pick l' end (upload_round-IsIdleAfter r l meanwhile idle)
        λ l idle. upload_loop-IsIdleAfter rounds l outside idle
    where
      pick :
          (l' : Ledger) (end : RoundEnd)
          → IsIdleAfter (l', end)
          → ((l : Ledger)
              → claims_held l ≡ 0
              → IsIdleAfter (upload_loop platform upload_store rounds l))
          → IsIdleAfter (elim end as (λ _. Ledger × RoundEnd) [
            | again sleep ↦
                upload_loop platform upload_store rounds (run_operations platform between l')
            | stopped ↦ (l', stopped)
            | failed e ↦ (l', failed e)
          ])
      pick l' (again sleep) h rest = rest _ (outside_operations_keep platform between l' others ∙ h)
      pick l' stopped h rest = h
      pick l' (failed e) h rest = h

  -- After the jobs were recovered, whatever the clock, the requests, the stop flag and the observer do,
  -- and whatever is recorded and requeued meanwhile, the worker holds no claim when its loop sleeps or
  -- stops, and one at most when it fails.
  pub recovered-IsIdleAfter :
      (rounds : List (Round × List (UploadStore × Operation))) (l l' : Ledger)
      → AreRounds rounds
      → recover_interrupted_jobs l ≡ ok l'
      → IsIdleAfter (upload_loop platform upload_store rounds l')
  recovered-IsIdleAfter rounds l l' outside recovered =
      upload_loop-IsIdleAfter rounds l' outside
        (subst (IfOk (λ x. claims_held x ≡ 0)) recovered (recover_interrupted_jobs-claims_held l))
