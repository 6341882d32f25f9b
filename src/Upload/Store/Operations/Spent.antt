-- ===== src/Upload/Store/Operations/Spent.antt =====
-- Rows that have gone beyond an attempt stay so.
use autopiercam.Base.{
  ℕ, ◌≤◌, ◌<◌, ◌≡◌, sym, ap, Bool, true, false, ◌||◌, List, [], ◌∷◌, arith, ◌⊎◌, inl, inr,
  Bool-cases, ◌==◌, ==_iff, All, All-map, ◌∙◌,
}
use autopiercam.Base.Bytes.{any}
use autopiercam.Upload.Store.States.{in_progress}
use autopiercam.Upload.Store.Ledger.{UploadJob}
use autopiercam.Upload.Store.Claims.Due.{absent_id}
use autopiercam.Upload.Store.History.{
  JobStep, Leads, here, next, Extends, IsDistinct, ids_of, Leads-identity,
}

-- The row has gone beyond an attempt: it is not in this attempt any more.
abbrev pub IsSpent : (id attempt : ℕ) → UploadJob → Type 0
IsSpent id attempt job =
    job.id ≡ id
    → (attempt ≤ job.attempt_count) × (job.state ≡ in_progress → attempt < job.attempt_count)

step-IsSpent :
    (id attempt : ℕ) (old new : UploadJob)
    → JobStep old new
    → IsSpent id attempt old
    → IsSpent id attempt new
step-IsSpent id attempt old new step spent same =
    let (low, later) = spent (sym (ap (λ i. i.id) (step.kept)) ∙ same) in
    (omega (arith, low, step.attempts), λ claimed. omega (arith, low, step.claims claimed))

Leads-IsSpent :
    {old new : UploadJob} (id attempt : ℕ)
    → Leads old new
    → IsSpent id attempt old
    → IsSpent id attempt new
Leads-IsSpent id attempt here spent = spent
Leads-IsSpent id attempt (next {mid} {new} r step) spent =
    step-IsSpent id attempt mid new step (Leads-IsSpent id attempt r spent)

-- Rows that came later have other ids.
pub Extends-IsSpent :
    (id attempt : ℕ) (xs ys : List UploadJob)
    → Extends xs ys
    → any (λ k. id == k) (ids_of xs) ≡ true
    → IsDistinct ◌==◌ (ids_of ys)
    → All (IsSpent id attempt) xs
    → All (IsSpent id attempt) ys
Extends-IsSpent id attempt [] ys e h d spent = cc
Extends-IsSpent id attempt (x ∷ xs) [] e h d spent = absurd e
Extends-IsSpent id attempt (x ∷ xs) (y ∷ ys) (leads, e) h (p, d) (spent, s) = (
  Leads-IsSpent id attempt leads spent,
  pick (Bool-cases (id == x.id)) (λ later. Extends-IsSpent id attempt xs ys e later d s),
)
  where
    same_id : y.id ≡ x.id
    same_id = ap (λ i. i.id) (Leads-identity leads)

    rest : (a b : Bool) → a ≡ false → (a || b) ≡ true → b ≡ true
    rest true b e h = cc
    rest false b e h = h

    pick :
        ((id == x.id) ≡ true) ⊎ ((id == x.id) ≡ false)
        → (any (λ k. id == k) (ids_of xs) ≡ true → All (IsSpent id attempt) ys)
        → All (IsSpent id attempt) ys
    pick (inl found) f =
        All-map
          (λ row other same. absurd (other (same ∙ ((==_iff id (x.id)).0 found ∙ sym same_id)))) ys
          (absent_id (y.id) ys p)
    pick (inr other) f = f (rest (id == x.id) _ other h)
