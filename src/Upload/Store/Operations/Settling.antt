-- ===== src/Upload/Store/Operations/Settling.antt =====
-- Settling a claim, and the recovery of claims when a ledger is opened, let the ledger evolve.
use autopiercam.Base.{
  ℕ, ◌+◌, ◌≤◌, ◌≡◌, refl, sym, subst, true, ◌&&◌, ◌||◌, Option, arith, ◌==◌, &&-true,
}
use autopiercam.Base.Bytes.{Bytes}
use autopiercam.Upload.Store.Errors.{
  Result, ok, err, ensure, IfOk, IfOk-bind, IfOk-then, unix_ms_to_database,
}
use autopiercam.Upload.Store.States.{
  UploadState, pending, in_progress, retrying, completed, permanently_failed, state_eq, state_eq→eq,
}
use autopiercam.Upload.Store.Ledger.{UploadJob, Ledger, update_jobs}
use autopiercam.Upload.Store.Ledger.Growth.{IsChecked}
use autopiercam.Upload.Store.Claims.{
  ClaimedUpload, settle, release_claim, mark_retrying, mark_completed, mark_permanently_failed,
  is_claimed, released_row, retrying_row, completed_row, failed_row,
}
use autopiercam.Upload.Store.Operator.{recover_interrupted_jobs, recovered_row}
use autopiercam.Upload.Store.History.{may_follow, identity, JobStep, Evolves, Evolves-refl}
use autopiercam.Upload.Store.History.Statements.{update_jobs-Evolves}
use autopiercam.Upload.Store.Operations.{
  Settlement, release, retry, complete, fail, settle_with, left_by, left_by_pair,
}

-- A step from a known state.
pub step_from :
    (old new : UploadJob) (s : UploadState)
    → identity new ≡ identity old
    → old.state ≡ s
    → may_follow s new.state ≡ true
    → IsChecked old new
    → old.attempt_count ≤ new.attempt_count
    → (new.state ≡ in_progress → new.attempt_count ≡ old.attempt_count + 1)
    → JobStep old new
step_from old new s same e follows c attempts claims = record {
  kept = same;
  follows = subst (λ t. may_follow t new.state ≡ true) (sym e) follows;
  revision = c.revision;
  checks = c.checks;
  attempts = attempts;
  claims = claims;
}

pub claimable_follows :
    (s : UploadState)
    → (state_eq s pending || state_eq s retrying) ≡ true
    → may_follow s in_progress ≡ true
unfolding may_follow
claimable_follows pending h = refl
claimable_follows retrying h = refl
claimable_follows in_progress h = cc
claimable_follows completed h = cc
claimable_follows permanently_failed h = cc

-- The state of a row that a settling update chooses.
claimed_state :
    (id attempt : ℕ) (row : UploadJob) → is_claimed id attempt row ≡ true → row.state ≡ in_progress
claimed_state id attempt row h =
    let left = (&&-true (row.id == id && state_eq row.state in_progress) _ h).0 in
    state_eq→eq (row.state) in_progress (&&-true (row.id == id) _ left).1

settle-Evolves :
    (set : UploadJob → UploadJob)
    → ((row : UploadJob)
        → row.state ≡ in_progress
        → IsChecked row (set row)
        → JobStep row (set row))
    → (c : ClaimedUpload) (l : Ledger) → IfOk (Evolves l) (settle set c l)
unfolding settle
settle-Evolves set steps c l = IfOk-then (Evolves l) _ _ λ attempt.
    IfOk-bind (λ (r : Ledger × ℕ). Evolves l (r.0)) (Evolves l)
      (update_jobs (is_claimed (c.job_id) attempt) set l) _
      (update_jobs-Evolves (is_claimed (c.job_id) attempt) set
        (λ row h k. steps row (claimed_state (c.job_id) attempt row h) k) l)
      λ (l', n) e. IfOk-then (Evolves l) (ensure (n == 1) _) _ λ u. e

-- What an operation leaves evolves, if what it returns does.
pub left_by-Evolves :
    (l : Ledger) (r : Result Ledger) → IfOk (Evolves l) r → Evolves l (left_by l r)
left_by-Evolves l (ok l') h = h
left_by-Evolves l (err e) h = Evolves-refl l

pub left_by_pair-Evolves :
    {A : Type 0} (l : Ledger) (r : Result (Ledger × A))
    → IfOk (λ (p : Ledger × A). Evolves l (p.0)) r
    → Evolves l (left_by_pair l r)
left_by_pair-Evolves l (ok (l', a)) h = h
left_by_pair-Evolves l (err e) h = Evolves-refl l

release_claim-Evolves :
    (c : ClaimedUpload) (now : ℕ) (l : Ledger) → IfOk (Evolves l) (release_claim c now l)
unfolding release_claim may_follow
release_claim-Evolves c now l = IfOk-then (Evolves l) _ _ λ t.
    settle-Evolves (released_row t)
      (λ row e k. step_from row _ in_progress refl e refl k (omega arith) (λ p. cc)) c l

mark_retrying-Evolves :
    (c : ClaimedUpload) (failed_at next_at : ℕ) (status : Option ℕ) (error : Option Bytes)
    (l : Ledger)
    → IfOk (Evolves l) (mark_retrying c failed_at next_at status error l)
unfolding mark_retrying may_follow
mark_retrying-Evolves c failed_at next_at status error l =
    IfOk-then (Evolves l) (unix_ms_to_database failed_at) _ λ t.
      IfOk-then (Evolves l) (unix_ms_to_database next_at) _ λ n.
        settle-Evolves (retrying_row t n status error)
          (λ row e k. step_from row _ in_progress refl e refl k (omega arith) (λ p. cc)) c l

mark_completed-Evolves :
    (c : ClaimedUpload) (completed_at status : ℕ) (l : Ledger)
    → IfOk (Evolves l) (mark_completed c completed_at status l)
unfolding mark_completed may_follow
mark_completed-Evolves c completed_at status l = IfOk-then (Evolves l) _ _ λ t.
    settle-Evolves (completed_row t status)
      (λ row e k. step_from row _ in_progress refl e refl k (omega arith) (λ p. cc)) c l

mark_permanently_failed-Evolves :
    (c : ClaimedUpload) (failed_at : ℕ) (status : Option ℕ) (error : Option Bytes) (l : Ledger)
    → IfOk (Evolves l) (mark_permanently_failed c failed_at status error l)
unfolding mark_permanently_failed may_follow
mark_permanently_failed-Evolves c failed_at status error l = IfOk-then (Evolves l) _ _ λ t.
    settle-Evolves (failed_row t status error)
      (λ row e k. step_from row _ in_progress refl e refl k (omega arith) (λ p. cc)) c l

pub settle_with-Evolves :
    (s : Settlement) (c : ClaimedUpload) (l : Ledger) → IfOk (Evolves l) (settle_with s c l)
unfolding settle_with
settle_with-Evolves (release now) c l = release_claim-Evolves c now l
settle_with-Evolves (retry failed_at next_at status error) c l =
    mark_retrying-Evolves c failed_at next_at status error l
settle_with-Evolves (complete completed_at status) c l =
    mark_completed-Evolves c completed_at status l
settle_with-Evolves (fail failed_at status error) c l =
    mark_permanently_failed-Evolves c failed_at status error l

pub recover_interrupted_jobs-Evolves : (l : Ledger) → IfOk (Evolves l) (recover_interrupted_jobs l)
unfolding recover_interrupted_jobs may_follow
recover_interrupted_jobs-Evolves l =
    IfOk-bind (λ (r : Ledger × ℕ). Evolves l (r.0)) (Evolves l)
      (update_jobs (λ row. state_eq row.state in_progress) recovered_row l) _
      (update_jobs-Evolves (λ row. state_eq row.state in_progress) recovered_row
        (λ row h k.
          step_from row _ in_progress refl (state_eq→eq (row.state) in_progress h) refl k
            (omega arith) (λ p. cc))
        l)
      λ (l', n) e. e
