-- ===== src/Upload/Store/Claims/Due.antt =====
-- Which job claim_due takes, and what a claim says of it.
use autopiercam.Base.{
  ℕ, ◌≡◌, refl, sym, Bool, true, false, ◌&&◌, ◌||◌, Option, none, some, List, [], ◌∷◌, arith, ◌⊎◌,
  inl, inr, Bool-cases, All, All-map, ◌==◌, ltb, leb, if◌then◌else◌, length, if_split,
}
use autopiercam.Base.Bytes.{bytes_eq, any}
use autopiercam.Upload.Store.Errors.{
  ok, err, ensure, IfOk, IfOk-then, corrupt_artifact_identity, corrupt_integer,
  upload_job_delivery_binding_mismatch,
}
use autopiercam.Upload.Store.Platform.{Platform}
use autopiercam.Upload.Store.Identity.{validate_stored_identity}
use autopiercam.Upload.Store.Ledger.{UploadJob}
use autopiercam.Upload.Store.History.{IsDistinct, ids_of}
use autopiercam.Upload.Store.Claims.{
  UploadStore, ClaimedUpload, due_at, is_due, is_sooner, sooner_of, first_due, job_id_from_database,
  into_claim,
}

-- A job stands in a table.
abbrev pub Occurs : UploadJob → List UploadJob → Type 0
Occurs c [] = ⊥
Occurs c (j ∷ jobs) = (j ≡ c) ⊎ Occurs c jobs

sooner_refl : (a : UploadJob) → is_sooner a a ≡ true
sooner_refl a = ground arith

sooner_trans :
    (a b c : UploadJob) → is_sooner a b ≡ true → is_sooner b c ≡ true → is_sooner a c ≡ true
sooner_trans a b c h k = order (due_at a) (due_at b) (due_at c) (a.id) (b.id) (c.id) h k
  where
    order :
        (d e f i j k : ℕ)
        → (ltb d e || (d == e && leb i j)) ≡ true
        → (ltb e f || (e == f && leb j k)) ≡ true
        → (ltb d f || (d == f && leb i k)) ≡ true
    order d e f i j k p q = ground arith

sooner_total : (a b : UploadJob) → is_sooner a b ≡ false → is_sooner b a ≡ true
sooner_total a b h = order (due_at a) (due_at b) (a.id) (b.id) h
  where
    order :
        (d e i j : ℕ)
        → (ltb d e || (d == e && leb i j)) ≡ false
        → (ltb e d || (e == d && leb j i)) ≡ true
    order d e i j p = ground arith

-- No due job of a table comes before a given one.
abbrev pub ComesFirst : ℕ → UploadJob → List UploadJob → Type 0
ComesFirst now c jobs = All (λ job. is_due now job ≡ true → is_sooner c job ≡ true) jobs

-- The first due job of a table, or that there is none.
abbrev pub IsFirst : ℕ → List UploadJob → Option UploadJob → Type 0
IsFirst now jobs none = All (λ job. is_due now job ≡ false) jobs
IsFirst now jobs (some c) = Occurs c jobs × (is_due now c ≡ true) × ComesFirst now c jobs

sooner_of_lem :
    (now : ℕ) (job : UploadJob) (jobs : List UploadJob) (rest : Option UploadJob)
    → is_due now job ≡ true
    → IsFirst now jobs rest
    → IsFirst now (job ∷ jobs) (some (sooner_of job rest))
sooner_of_lem now job jobs none due h =
    (inl refl, due, ((λ _. sooner_refl job), All-map (λ j late d. cc (late, d)) jobs h))
sooner_of_lem now job jobs (some c) due (occurs, due_c, first) =
    if_split (λ (d : UploadJob). IsFirst now (job ∷ jobs) (some d)) (is_sooner job c)
      (λ s. (
        inl refl,
        due,
        ((λ _. sooner_refl job), All-map (λ j f d. sooner_trans job c j s (f d)) jobs first),
      ))
      (λ s. (inr occurs, due_c, ((λ _. sooner_total job c s), first)))

pub first_due-IsFirst : (now : ℕ) (jobs : List UploadJob) → IsFirst now jobs (first_due now jobs)
unfolding first_due
first_due-IsFirst now [] = tt
first_due-IsFirst now (job ∷ jobs) =
    pick (is_due now job) (Bool-cases (is_due now job)) refl (first_due-IsFirst now jobs)
  where
    pick :
        (b : Bool)
        → (b ≡ true) ⊎ (b ≡ false)
        → is_due now job ≡ b
        → IsFirst now jobs (first_due now jobs)
        → IsFirst now
            (job ∷ jobs)
            (if b then some (sooner_of job (first_due now jobs)) else first_due now jobs)
    pick true c e h = sooner_of_lem now job jobs (first_due now jobs) e h
    pick false c e h = later (first_due now jobs) e h
      where
        later :
            (r : Option UploadJob)
            → is_due now job ≡ false
            → IsFirst now jobs r
            → IsFirst now (job ∷ jobs) r
        later none e h = (e, h)
        later (some d) e (occurs, due, first) = (inr occurs, due, ((λ x. cc (e, x)), first))

-- An id that does not occur is the id of no row.
pub absent_id :
    (id : ℕ) (rows : List UploadJob)
    → any (λ k. id == k) (ids_of rows) ≡ false
    → All (λ job. job.id ≡ id → ⊥) rows
absent_id id [] h = tt
absent_id id (row ∷ rows) h =
    let (a, b) = or_false (id == row.id) _ h in (unlike row.id a, absent_id id rows b)
  where
    or_false : (a b : Bool) → (a || b) ≡ false → (a ≡ false) × (b ≡ false)
    or_false true b h = cc
    or_false false b h = (refl, h)

    unlike : (k : ℕ) → (id == k) ≡ false → k ≡ id → ⊥
    unlike k h e = ground arith

Occurs-absent :
    (c : UploadJob) (id : ℕ) (rows : List UploadJob)
    → Occurs c rows
    → All (λ job. job.id ≡ id → ⊥) rows
    → c.id ≡ id
    → ⊥
Occurs-absent c id [] o h e = o
Occurs-absent c id (row ∷ rows) (inl same) (p, h) e = p (cc)
Occurs-absent c id (row ∷ rows) (inr o) (p, h) e = Occurs-absent c id rows o h e

-- In a table without a repeated id, an id names one row.
pub Occurs-unique :
    (c : UploadJob) (jobs : List UploadJob)
    → Occurs c jobs
    → IsDistinct ◌==◌ (ids_of jobs)
    → All (λ job. job.id ≡ c.id → job ≡ c) jobs
Occurs-unique c [] o d = tt
Occurs-unique c (j ∷ jobs) (inl e) (d, ds) =
    ((λ _. e), All-map (λ job p same. absurd (p (cc))) jobs (absent_id (j.id) jobs d))
Occurs-unique c (j ∷ jobs) (inr o) (d, ds) = (
  (λ same. absurd (Occurs-absent c (j.id) jobs o (absent_id (j.id) jobs d) (sym same))),
  Occurs-unique c jobs o ds,
)

pub job_id_from_database_lem : (value : ℕ) → IfOk (λ id. id ≡ value) (job_id_from_database value)
unfolding job_id_from_database
job_id_from_database_lem value = pick (ltb 0 value)
  where
    pick : (b : Bool) → IfOk (λ id. id ≡ value) (if b then ok value else err corrupt_integer)
    pick true = refl
    pick false = tt

-- What a claim says of its row.
pub record IsClaimOf (id : ℕ) (raw : UploadJob) (c : ClaimedUpload) : Type 0 where
  pub job_id : c.job_id ≡ id
  pub attempt_count : c.attempt_count ≡ raw.attempt_count
  pub file_size : c.file_size ≡ raw.file_size
  pub sha256 : c.sha256 ≡ raw.sha256

pub into_claim-IsClaimOf :
    (platform : Platform) (store : UploadStore) (id : ℕ) (raw : UploadJob)
    → IfOk (IsClaimOf id raw) (into_claim platform store id raw)
unfolding into_claim
into_claim-IsClaimOf platform store id raw =
    let Q = IsClaimOf id raw in
    IfOk-then Q (ensure (length raw.sha256 == 32) (corrupt_artifact_identity id)) _ λ u.
      IfOk-then Q (ensure (length raw.delivery_binding == 32) (corrupt_artifact_identity id)) _ λ u.
        IfOk-then Q
          (ensure (bytes_eq raw.delivery_binding store.delivery_binding)
            (upload_job_delivery_binding_mismatch id))
          _
          λ u.
            IfOk-then Q
              (validate_stored_identity platform id raw.artifact_path raw.filename
                raw.idempotency_key raw.sha256 store.capture_root)
              _
              λ path. record {
                job_id = refl;
                attempt_count = refl;
                file_size = refl;
                sha256 = refl;
              }
