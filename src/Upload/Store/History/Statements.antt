-- ===== src/Upload/Store/History/Statements.antt =====
-- The statements of the store keep a ledger sound, and let jobs only take steps of their life cycle.
use autopiercam.Base.{
  ℕ, zero, suc, ◌+◌, ◌<◌, ◌≡◌, refl, sym, ap, subst, ◌⊎◌, ◌∙◌, Bool, true, false, ◌||◌, List, [],
  ◌∷◌, ◌++◌, map, arith, inl, inr, Bool-cases, All, All-append, All-intro, ◌==◌,
}
use autopiercam.Base.Bytes.{bytes_eq, any, bytes_eq_comm}
use autopiercam.Upload.Store.Errors.{ok, ensure, sqlite, ◌>>=◌, ◌>>◌, IfOk, IfOk-bind, IfOk-then}
use autopiercam.Upload.Store.Ledger.{
  UploadJob, UploadMetadata, Ledger, aggregate, insert_job, update_rows, update_jobs, job_checks,
}
use autopiercam.Upload.Store.Ledger.Counts.{IsCounted, aggregate-IsCounted, tally-append}
use autopiercam.Upload.Store.Ledger.Growth.{Pointwise, Stays, IsChecked, IsUpdated, update_rows_lem}
use autopiercam.Upload.Store.History.{
  JobStep, JobIdentity, identity, Leads, here, next, Extends, IsDistinct, IsAccepted, IsSound,
  Evolves, Evolves-refl, paths_of, ids_of,
}

Stays-Leads : (x y : UploadJob) → Stays JobStep x y → Leads x y
Stays-Leads x y (inl e) = subst (λ z. Leads x z) (sym e) here
Stays-Leads x y (inr step) = next here step

Pointwise-Extends : (xs ys : List UploadJob) → Pointwise (Stays JobStep) xs ys → Extends xs ys
Pointwise-Extends [] ys h = tt
Pointwise-Extends (x ∷ xs) [] h = absurd h
Pointwise-Extends (x ∷ xs) (y ∷ ys) (s, h) = (Stays-Leads x y s, Pointwise-Extends xs ys h)

Stays-IsAccepted : (x y : UploadJob) → Stays JobStep x y → IsAccepted x → IsAccepted y
Stays-IsAccepted x y (inl e) h = subst IsAccepted (sym e) h
Stays-IsAccepted x y (inr step) h = step.checks

Pointwise-IsAccepted :
    (xs ys : List UploadJob)
    → Pointwise (Stays JobStep) xs ys
    → All IsAccepted xs
    → All IsAccepted ys
Pointwise-IsAccepted [] [] h a = tt
Pointwise-IsAccepted [] (y ∷ ys) h a = absurd h
Pointwise-IsAccepted (x ∷ xs) [] h a = absurd h
Pointwise-IsAccepted (x ∷ xs) (y ∷ ys) (s, h) (p, a) =
    (Stays-IsAccepted x y s p, Pointwise-IsAccepted xs ys h a)

-- What depends on the identity only stays.
module _ {K : Type 0} (key : JobIdentity → K) where
  Stays-key : (x y : UploadJob) → Stays JobStep x y → key (identity y) ≡ key (identity x)
  Stays-key x y (inl e) = ap (λ z. key (identity z)) e
  Stays-key x y (inr step) = ap key (step.kept)

  Pointwise-keys :
      (xs ys : List UploadJob)
      → Pointwise (Stays JobStep) xs ys
      → map (λ j. key (identity j)) ys ≡ map (λ j. key (identity j)) xs
  Pointwise-keys [] [] h = refl
  Pointwise-keys [] (y ∷ ys) h = absurd h
  Pointwise-keys (x ∷ xs) [] h = absurd h
  Pointwise-keys (x ∷ xs) (y ∷ ys) (s, h) = cc (Stays-key x y s, Pointwise-keys xs ys h)

-- Rows that step where a condition holds of them, and meet it.
Stays-given :
    (P : UploadJob → Type 0) (x y : UploadJob)
    → P x
    → Stays (λ old new. P old → JobStep old new) x y
    → Stays JobStep x y
Stays-given P x y p (inl e) = inl e
Stays-given P x y p (inr f) = inr (f p)

Pointwise-given :
    (P : UploadJob → Type 0) (xs ys : List UploadJob)
    → All P xs
    → Pointwise (Stays (λ old new. P old → JobStep old new)) xs ys
    → Pointwise (Stays JobStep) xs ys
Pointwise-given P [] [] p h = tt
Pointwise-given P [] (y ∷ ys) p h = absurd h
Pointwise-given P (x ∷ xs) [] p h = absurd h
Pointwise-given P (x ∷ xs) (y ∷ ys) (p, ps) (s, h) =
    (Stays-given P x y p s, Pointwise-given P xs ys ps h)

module _ (P : UploadJob → Type 0) (where_clause : UploadJob → Bool) (set : UploadJob → UploadJob)
    (steps : (job : UploadJob)
      → where_clause job ≡ true
      → IsChecked job (set job)
      → P job
      → JobStep job (set job))
    (l : Ledger) (holds : IsSound l → All P l.jobs) where
  abbrev Given : UploadJob → UploadJob → Type 0
  Given old new = P old → JobStep old new

  updated-Evolves :
      (m : UploadMetadata) (jobs : List UploadJob) (n : ℕ)
      → IsUpdated Given where_clause (l.metadata) (l.jobs) m jobs n
      → Evolves l (record l { metadata = m; jobs = jobs })
  updated-Evolves m jobs n u h =
      let rows = Pointwise-given P (l.jobs) jobs (holds h) (u.rows) in
      record {
        sound = record {
          counts = λ s. omega (arith, u.counts s, h.counts s);
          revision = u.bounded (h.revision);
          rows = Pointwise-IsAccepted (l.jobs) jobs rows (h.rows);
          paths =
              subst (IsDistinct bytes_eq)
                (sym (Pointwise-keys (λ i. i.artifact_path) (l.jobs) jobs rows)) (h.paths);
          ids =
              subst (IsDistinct ◌==◌) (sym (Pointwise-keys (λ i. i.id) (l.jobs) jobs rows)) (h.ids);
        };
        jobs = Pointwise-Extends (l.jobs) jobs rows;
        revision = grown n (u.revision) (u.unchanged);
        ledger_id = u.ledger_id;
        preactivation = refl;
      }
    where
      grown :
          (n : ℕ)
          → m.ledger_revision ≡ l.metadata.ledger_revision + n
          → (n ≡ 0 → (m ≡ l.metadata) × (jobs ≡ l.jobs))
          → (record l { metadata = m; jobs = jobs } ≡ l)
            ⊎ (l.metadata.ledger_revision < m.ledger_revision)
      grown zero e f = let (p, q) = f refl in inl (cc (p, q))
      grown (suc n) e f = inr (omega arith)

  -- An update whose SET takes the rows of its WHERE a step further lets the ledger evolve.
  pub update_jobs-Evolves_given : IfOk (λ r. Evolves l (r.0)) (update_jobs where_clause set l)
  unfolding update_jobs
  update_jobs-Evolves_given =
      IfOk-bind (λ (m, jobs, n). IsUpdated Given where_clause (l.metadata) (l.jobs) m jobs n)
        (λ r. Evolves l (r.0)) (update_rows where_clause set (l.metadata) (l.jobs)) _
        (update_rows_lem Given where_clause set steps (l.jobs) (l.metadata))
        λ (m, jobs, n) u. updated-Evolves m jobs n u

-- The same where the step needs no condition.
pub update_jobs-Evolves :
    (where_clause : UploadJob → Bool) (set : UploadJob → UploadJob)
    → ((job : UploadJob)
        → where_clause job ≡ true
        → IsChecked job (set job)
        → JobStep job (set job))
    → (l : Ledger) → IfOk (λ r. Evolves l (r.0)) (update_jobs where_clause set l)
update_jobs-Evolves where_clause set steps l =
    update_jobs-Evolves_given (λ _. Unit {0}) where_clause set (λ job h k p. steps job h k) l
      (λ h. All-intro (λ _. Unit {0}) (λ _. tt) (l.jobs))

-- A key that is not in a list can be put behind it.
module _ {K : Type 0} (same : K → K → Bool) (same-comm : (a b : K) → same a b ≡ same b a) where
  any-snoc :
      (k new : K) (ks : List K)
      → any (same k) ks ≡ false
      → same k new ≡ false
      → any (same k) (ks ++ new ∷ []) ≡ false
  any-snoc k new [] h e = ground arith
  any-snoc k new (x ∷ ks) h e = ground (arith, any-snoc k new ks)

  IsDistinct-snoc :
      (ks : List K) (new : K)
      → any (λ k. same k new) ks ≡ false
      → IsDistinct same ks
      → IsDistinct same (ks ++ new ∷ [])
  IsDistinct-snoc [] new h d = (refl, tt)
  IsDistinct-snoc (k ∷ ks) new h (p, d) =
      let (a, b) = or_false (same k new) (any (λ j. same j new) ks) h in
      (any-snoc k new ks p a, IsDistinct-snoc ks new b d)
    where
      or_false : (a b : Bool) → (a || b) ≡ false → (a ≡ false) × (b ≡ false)
      or_false true b h = cc
      or_false false b h = (refl, h)

any-map :
    {K : Type 0} (p : K → Bool) (key : UploadJob → K) (jobs : List UploadJob)
    → any p (map key jobs) ≡ any (λ j. p (key j)) jobs
any-map p key [] = refl
any-map p key (j ∷ jobs) = ap (λ b. p (key j) || b) (any-map p key jobs)

map-snoc :
    {K : Type 0} (key : UploadJob → K) (jobs : List UploadJob) (job : UploadJob)
    → map key (jobs ++ job ∷ []) ≡ map key jobs ++ key job ∷ []
map-snoc key [] job = refl
map-snoc key (j ∷ jobs) job = ap (λ ks. key j ∷ ks) (map-snoc key jobs job)

Extends-snoc : (xs : List UploadJob) (job : UploadJob) → Extends xs (xs ++ job ∷ [])
Extends-snoc [] job = tt
Extends-snoc (x ∷ xs) job = (here, Extends-snoc xs job)

number_comm : (a b : ℕ) → (a == b) ≡ (b == a)
number_comm a b = ground arith

module _ (l : Ledger) (job : UploadJob)
    (fresh : any (λ id. id == job.id) (ids_of l.jobs) ≡ false) where
  inserted-Evolves :
      (m : UploadMetadata)
      → any (λ row. bytes_eq row.artifact_path job.artifact_path) l.jobs ≡ false
      → job_checks job ≡ true
      → IsCounted (λ _. false) job (l.metadata) m
      → Evolves l (record l { metadata = m; jobs = l.jobs ++ job ∷ [] })
  inserted-Evolves m unknown checks c h = record {
    sound = record {
      counts = λ s. omega (arith, c.counts s, h.counts s, tally-append s (l.jobs) (job ∷ []));
      revision = c.bounded;
      rows = All-append IsAccepted (l.jobs) (job ∷ []) (h.rows) (checks, tt);
      paths = subst (IsDistinct bytes_eq) (sym (map-snoc (λ j. j.artifact_path) (l.jobs) job)) (
          IsDistinct-snoc bytes_eq bytes_eq_comm (paths_of (l.jobs)) (job.artifact_path)
            (any-map (λ path. bytes_eq path (job.artifact_path)) (λ j. j.artifact_path) (l.jobs)
              ∙ unknown)
            (h.paths));
      ids =
          subst (IsDistinct ◌==◌) (sym (map-snoc (λ j. j.id) (l.jobs) job))
            (IsDistinct-snoc ◌==◌ number_comm (ids_of (l.jobs)) (job.id) fresh (h.ids));
    };
    jobs = Extends-snoc (l.jobs) job;
    revision = inr (omega (arith, c.revision));
    ledger_id = c.ledger_id;
    preactivation = refl;
  }

  -- An insert under a fresh id lets the ledger evolve.
  pub insert_job-Evolves : IfOk (λ r. Evolves l (r.1)) (insert_job job l)
  unfolding insert_job
  insert_job-Evolves =
      elim (Bool-cases (any (λ row. bytes_eq row.artifact_path job.artifact_path) l.jobs)) [
        | inl known ↦ rw known (Evolves-refl l)
        | inr unknown ↦
            rw unknown (IfOk-then (λ (r : Bool × Ledger). Evolves l (r.1)) _ _ λ u. checked unknown)
      ]
    where
      checked :
          any (λ row. bytes_eq row.artifact_path job.artifact_path) l.jobs ≡ false
          → IfOk
              (λ (r : Bool × Ledger). Evolves l (r.1))
              (do
                ensure (job_checks job) sqlite
                m ← aggregate (λ _. false) true true job (l.metadata)
                ok (true, record l { metadata = m; jobs = l.jobs ++ job ∷ [] }))
      checked unknown = elim (Bool-cases (job_checks job)) [
        | inr bad ↦ rw bad tt
        | inl good ↦ rw good (
            IfOk-bind (IsCounted (λ _. false) job (l.metadata))
              (λ (r : Bool × Ledger). Evolves l (r.1))
              (aggregate (λ _. false) true true job (l.metadata)) _
              (aggregate-IsCounted (λ _. false) true true job (l.metadata))
              λ m c. inserted-Evolves m unknown good c)
      ]
