-- ===== src/Upload/Store/History.antt =====
-- What the life of a job looks like, apart from the statements that the store runs, and what a sound
-- ledger is.
pub mod Statements
use autopiercam.Base.{
  ℕ, ◌+◌, ◌≤◌, ◌<◌, ◌≡◌, refl, sym, ap, Bool, true, false, ◌||◌, List, [], ◌∷◌, ◌++◌, map, arith,
  ◌⊎◌, inl, inr, All, ◌==◌,
}
use autopiercam.Base.Bytes.{Bytes, bytes_eq, any}
use autopiercam.Upload.Store.Errors.{i64_max}
use autopiercam.Upload.Store.States.{
  UploadState, pending, in_progress, retrying, completed, permanently_failed,
}
use autopiercam.Upload.Store.Ledger.{UploadJob, UploadMetadata, Ledger, job_checks}
use autopiercam.Upload.Store.Ledger.Counts.{count_of, tally}

-- The life cycle of an upload: it is claimed, and the claim is released, to be retried, completed or
-- given up. What was given up can be queued again; what is completed stays so.
unfoldable pub may_follow : UploadState → UploadState → Bool
may_follow pending in_progress = true
may_follow retrying in_progress = true
may_follow in_progress pending = true
may_follow in_progress retrying = true
may_follow in_progress completed = true
may_follow in_progress permanently_failed = true
may_follow permanently_failed pending = true
may_follow old new = false

-- What a job is, which no change touches.
pub record JobIdentity : Type 0 where
  pub id : ℕ
  pub artifact_path : Bytes
  pub filename : Bytes
  pub idempotency_key : Bytes
  pub file_size : ℕ
  pub sha256 : Bytes
  pub delivery_binding : Bytes
  pub created_at_ms : ℕ

abbrev pub identity : UploadJob → JobIdentity
identity job = record {
  id = job.id;
  artifact_path = job.artifact_path;
  filename = job.filename;
  idempotency_key = job.idempotency_key;
  file_size = job.file_size;
  sha256 = job.sha256;
  delivery_binding = job.delivery_binding;
  created_at_ms = job.created_at_ms;
}

pub record JobStep (old new : UploadJob) : Type 0 where
  pub kept : identity new ≡ identity old
  pub follows : may_follow old.state new.state ≡ true
  pub revision : new.job_revision ≡ old.job_revision + 1
  pub checks : job_checks new ≡ true
  -- A claim takes a new attempt number, and no other step lowers it.
  pub attempts : old.attempt_count ≤ new.attempt_count
  pub claims : new.state ≡ in_progress → new.attempt_count ≡ old.attempt_count + 1

-- Any number of steps.
pub data Leads (old : UploadJob) : UploadJob → Type 0 where
  here : Leads old old
  next : {mid new : UploadJob} → Leads old mid → JobStep mid new → Leads old new

pub Leads-trans : {a b c : UploadJob} → Leads a b → Leads b c → Leads a c
Leads-trans r here = r
Leads-trans r (next s step) = next (Leads-trans r s) step

pub Leads-revision : {old new : UploadJob} → Leads old new → old.job_revision ≤ new.job_revision
Leads-revision here = omega arith
Leads-revision (next r step) = omega (arith, Leads-revision r, step.revision)

pub Leads-identity : {old new : UploadJob} → Leads old new → identity new ≡ identity old
Leads-identity here = refl
Leads-identity (next r step) = cc (Leads-identity r, step.kept)

completed-stays :
    (old mid new : UploadJob) → mid ≡ old → old.state ≡ completed → JobStep mid new → ⊥
unfolding may_follow
completed-stays old mid new same done step =
    let here : mid.state ≡ completed = cc in stuck mid.state new.state here (step.follows)
  where
    stuck : (a b : UploadState) → a ≡ completed → may_follow a b ≡ true → ⊥
    stuck completed pending e h = cc
    stuck completed in_progress e h = cc
    stuck completed retrying e h = cc
    stuck completed completed e h = cc
    stuck completed permanently_failed e h = cc
    stuck pending b e h = cc
    stuck in_progress b e h = cc
    stuck retrying b e h = cc
    stuck permanently_failed b e h = cc

-- A completed job never changes.
pub Leads-completed : {old new : UploadJob} → Leads old new → old.state ≡ completed → new ≡ old
Leads-completed here h = refl
Leads-completed {old} {new} (next {mid} r step) h =
    absurd (completed-stays old mid new (Leads-completed r h) h step)

-- The rows of one table lead to the first rows of another.
abbrev pub Extends : List UploadJob → List UploadJob → Type 0
Extends [] ys = Unit
Extends (x ∷ xs) [] = ⊥
Extends (x ∷ xs) (y ∷ ys) = Leads x y × Extends xs ys

pub Extends-refl : (xs : List UploadJob) → Extends xs xs
Extends-refl [] = tt
Extends-refl (x ∷ xs) = (here, Extends-refl xs)

pub Extends-trans : (xs ys zs : List UploadJob) → Extends xs ys → Extends ys zs → Extends xs zs
Extends-trans [] ys zs r s = tt
Extends-trans (x ∷ xs) [] zs r s = absurd r
Extends-trans (x ∷ xs) (y ∷ ys) [] r s = absurd s
Extends-trans (x ∷ xs) (y ∷ ys) (z ∷ zs) (r, rs) (s, ss) =
    (Leads-trans r s, Extends-trans xs ys zs rs ss)

-- No key comes twice.
abbrev pub IsDistinct : {K : Type 0} → (K → K → Bool) → List K → Type 0
IsDistinct same [] = Unit
IsDistinct same (k ∷ ks) = (any (same k) ks ≡ false) × IsDistinct same ks

abbrev pub paths_of : List UploadJob → List Bytes
paths_of jobs = map (λ (job : UploadJob). job.artifact_path) jobs

abbrev pub ids_of : List UploadJob → List ℕ
ids_of jobs = map (λ (job : UploadJob). job.id) jobs

abbrev pub IsAccepted : UploadJob → Type 0
IsAccepted job = job_checks job ≡ true

-- A ledger whose counts are the numbers of its rows, whose rows and revision pass the CHECKs of their
-- tables, and in which no path and no id comes twice.
pub record IsSound (l : Ledger) : Type 0 where
  pub counts : (s : UploadState) → count_of s l.metadata.counts ≡ tally s l.jobs
  pub revision : l.metadata.ledger_revision ≤ i64_max
  pub rows : All IsAccepted l.jobs
  pub paths : IsDistinct bytes_eq (paths_of l.jobs)
  pub ids : IsDistinct ◌==◌ (ids_of l.jobs)

-- What an operation may make of a sound ledger.
pub record HasEvolved (l l' : Ledger) : Type 0 where
  pub sound : IsSound l'
  pub jobs : Extends l.jobs l'.jobs
  pub revision : (l' ≡ l) ⊎ (l.metadata.ledger_revision < l'.metadata.ledger_revision)
  pub ledger_id : l'.metadata.ledger_id ≡ l.metadata.ledger_id
  pub preactivation : l'.preactivation ≡ l.preactivation

abbrev pub Evolves : Ledger → Ledger → Type 0
Evolves l l' = IsSound l → HasEvolved l l'

pub Evolves-refl : (l : Ledger) → Evolves l l
Evolves-refl l h = record {
  sound = h;
  jobs = Extends-refl (l.jobs);
  revision = inl refl;
  ledger_id = refl;
  preactivation = refl;
}

pub Evolves-trans : (a b c : Ledger) → Evolves a b → Evolves b c → Evolves a c
Evolves-trans a b c first second h =
    let r = first h in
    let s = second (r.sound) in
    record {
      sound = s.sound;
      jobs = Extends-trans (a.jobs) (b.jobs) (c.jobs) (r.jobs) (s.jobs);
      revision = compose (r.revision) (s.revision);
      ledger_id = cc (r.ledger_id, s.ledger_id);
      preactivation = cc (r.preactivation, s.preactivation);
    }
  where
    compose :
        (b ≡ a) ⊎ (a.metadata.ledger_revision < b.metadata.ledger_revision)
        → (c ≡ b) ⊎ (b.metadata.ledger_revision < c.metadata.ledger_revision)
        → (c ≡ a) ⊎ (a.metadata.ledger_revision < c.metadata.ledger_revision)
    compose (inl e) (inl f) = inl (cc)
    compose (inl e) (inr f) = inr (ground arith)
    compose (inr e) (inl f) = inr (ground arith)
    compose (inr e) (inr f) = inr (omega arith)
