-- ===== src/Upload/Store/Operations/Claiming.antt =====
-- Taking a claim lets the ledger evolve.
use autopiercam.Base.{
  ℕ, ◌+◌, ◌≡◌, refl, ap, ◌∙◌, ==_iff, true, ◌&&◌, Option, none, some, arith, ◌==◌, &&-true, leb,
}
use autopiercam.Upload.Store.Errors.{
  ok, ensure, IfOk, IfOk-bind, IfOk-then, i64_max, unix_ms_to_database,
}
use autopiercam.Upload.Store.Platform.{Platform}
use autopiercam.Upload.Store.Ledger.{UploadJob, Ledger, update_jobs}
use autopiercam.Upload.Store.Ledger.Growth.{IsChecked}
use autopiercam.Upload.Store.Claims.{
  job_id_from_database, into_claim, UploadStore, ClaimedUpload, claim_due, claim_candidate,
  first_due, is_claimable, is_due, claimed_row,
}
use autopiercam.Upload.Store.Claims.Due.{
  Occurs, IsFirst, first_due-IsFirst, Occurs-unique, job_id_from_database_lem, IsClaimOf,
  into_claim-IsClaimOf,
}
use autopiercam.Upload.Store.History.{JobStep, Evolves, Evolves-refl}
use autopiercam.Upload.Store.History.Statements.{update_jobs-Evolves_given}
use autopiercam.Upload.Store.Operations.Settling.{step_from, claimable_follows}

module _ (platform : Platform) (store : UploadStore) where
  -- What rows with the id of the candidate are to have.
  abbrev IsCandidate : UploadJob → UploadJob → Type 0
  IsCandidate candidate row = row.id ≡ candidate.id → row ≡ candidate

  claim_step :
      (now id attempts : ℕ) (candidate row : UploadJob)
      → id ≡ candidate.id
      → attempts ≡ candidate.attempt_count + 1
      → (row.id == id && is_due now row) ≡ true
      → IsChecked row (claimed_row platform store now attempts row)
      → IsCandidate candidate row
      → JobStep row (claimed_row platform store now attempts row)
  claim_step now id attempts candidate row is_id is_next h k known =
      let (same_id, due) = &&-true (row.id == id) (is_due now row) h in
      let open_now = (&&-true (is_claimable row) _ due).0 in
      let same_row : row ≡ candidate = known ((==_iff (row.id) id).0 same_id ∙ is_id) in
      let same : row.attempt_count ≡ candidate.attempt_count =
        ap (λ (r : UploadJob). r.attempt_count) same_row in
      step_from row _ (row.state) refl refl (claimable_follows (row.state) open_now) k (omega arith)
        (λ _. omega arith)

  claim_candidate-Evolves :
      (now : ℕ) (candidate : UploadJob) (l : Ledger)
      → Occurs candidate l.jobs
      → IfOk
          (λ (r : Ledger × Option ClaimedUpload). Evolves l (r.0))
          (claim_candidate platform store now candidate l)
  unfolding claim_candidate
  claim_candidate-Evolves now candidate l occurs =
      let Q : Ledger × Option ClaimedUpload → Type 0 = λ r. Evolves l (r.0) in
      IfOk-bind (λ id. id ≡ candidate.id) Q (job_id_from_database (candidate.id)) _
        (job_id_from_database_lem (candidate.id))
        λ id is_id.
          IfOk-bind (IsClaimOf id candidate) Q (into_claim platform store id candidate) _
            (into_claim-IsClaimOf platform store id candidate)
            λ c of. IfOk-then Q (ensure (leb (c.attempt_count + 1) i64_max) _) _ λ u.
              let next : ℕ = c.attempt_count + 1 in
              IfOk-bind (λ (r : Ledger × ℕ). Evolves l (r.0)) Q
                (update_jobs (λ row. row.id == id && is_due now row)
                  (claimed_row platform store now next) l)
                _
                (update_jobs-Evolves_given (IsCandidate candidate)
                  (λ row. row.id == id && is_due now row) (claimed_row platform store now next)
                  (λ row h k p.
                    claim_step now id next candidate row is_id (omega (arith, of.attempt_count)) h k
                      p)
                  l (λ h. Occurs-unique candidate (l.jobs) occurs (h.ids)))
                λ (l', n) e. IfOk-then Q (ensure (n == 1) _) _ λ u. e

  pub claim_due-Evolves :
      (now : ℕ) (l : Ledger)
      → IfOk
          (λ (r : Ledger × Option ClaimedUpload). Evolves l (r.0))
          (claim_due platform store now l)
  unfolding claim_due
  claim_due-Evolves now l =
      IfOk-then (λ (r : Ledger × Option ClaimedUpload). Evolves l (r.0)) (unix_ms_to_database now) _
        λ t. pick t (first_due t (l.jobs)) (first_due-IsFirst t (l.jobs))
    where
      pick :
          (t : ℕ) (o : Option UploadJob)
          → IsFirst t (l.jobs) o
          → IfOk
              (λ (r : Ledger × Option ClaimedUpload). Evolves l (r.0))
              (elim o [
                | none ↦ ok (l, none)
                | some candidate ↦ claim_candidate platform store t candidate l
              ])
      pick t none f = Evolves-refl l
      pick t (some candidate) f = claim_candidate-Evolves t candidate l (f.0)
