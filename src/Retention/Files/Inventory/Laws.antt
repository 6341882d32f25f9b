-- ===== src/Retention/Files/Inventory/Laws.antt =====
-- The inventory is the managed files of the directory, in the order of their paths.
use Prim.Native.String.{String}
use mathlib.Core.List.{Perm}
use mathlib.Core.List.Perm
use autopiercam.Base.{
  ℕ, ◌≡◌, refl, Bool, true, false, Option, none, some, List, [], ◌∷◌, arith, if◌then◌else◌, Result,
  ok, err, IfOk, IfOk->>=, All, All-map, if_split, subst,
}
use autopiercam.Retention.Candidates.{PathOrder, ManagedArtifact}
use autopiercam.Retention.Files.{Probe, found, not_found, broken, Metadata}
use autopiercam.Retention.Files.Inventory.{
  DirEntry, admit_metadata, admit_type, generated, admit_named, admit, with_artifact, collect,
  insert_artifact, sort_artifacts, inventory_capture_directory,
}

abbrev is_true : Probe Bool → Bool
is_true (found b) = b
is_true _ = false

-- The bytes of a file that is not behind a reparse point.
abbrev stored : Probe Metadata → Option ℕ
stored (found m) = if m.reparse then none else some m.len
stored _ = none

module _ {P : Type 0} where
  -- A regular file with a generated name that is still there.
  abbrev pub managed : (String → Option ℕ) → DirEntry P → Option (ManagedArtifact P)
  managed parse e = elim (generated parse e) [
    | none ↦ none
    | some time ↦ elim (stored e.metadata) [
      | none ↦ none
      | some size ↦
          if is_true e.is_file
          then some (record { path = e.path; captured_at_unix_ms = time; file_size_bytes = size })
          else none
    ]
  ]

  abbrev pub all_managed :
      (String → Option ℕ) → List (Result (DirEntry P)) → List (ManagedArtifact P)
  all_managed parse [] = []
  all_managed parse (err error ∷ rest) = all_managed parse rest
  all_managed parse (ok e ∷ rest) = with_artifact (managed parse e) (all_managed parse rest)

  admit-managed :
      (parse : String → Option ℕ) (e : DirEntry P) → IfOk (λ a. a ≡ managed parse e) (admit parse e)
  unfolding admit admit_named admit_type admit_metadata
  admit-managed parse e = step (generated parse e) e.is_file e.metadata
    where
      step :
          (g : Option ℕ) (t : Probe Bool) (m : Probe Metadata)
          → IfOk
              (λ a. a ≡ elim g [
                | none ↦ none
                | some time ↦ elim (stored m) [
                  | none ↦ none
                  | some size ↦
                      if is_true t
                      then some (record {
                        path = e.path;
                        captured_at_unix_ms = time;
                        file_size_bytes = size;
                      })
                      else none
                ]
              ])
              (admit_named (record e { is_file = t; metadata = m }) g)
      step none t m = refl
      step (some time) (found true) (found m) = ground arith
      step (some time) (found true) not_found = refl
      step (some time) (found true) (broken x) = tt
      step (some time) (found false) (found m) = ground arith
      step (some time) (found false) not_found = refl
      step (some time) (found false) (broken x) = refl
      step (some time) not_found (found m) = ground arith
      step (some time) not_found not_found = refl
      step (some time) not_found (broken x) = refl
      step (some time) (broken x) m = tt

  collect-all_managed :
      (parse : String → Option ℕ) (entries : List (Result (DirEntry P)))
      → IfOk (λ xs. xs ≡ all_managed parse entries) (collect parse entries)
  unfolding collect
  collect-all_managed parse [] = refl
  collect-all_managed parse (err error ∷ rest) = tt
  collect-all_managed parse (ok e ∷ rest) =
      IfOk->>= (λ a. a ≡ managed parse e) _ (admit parse e) _ (admit-managed parse e)
        (λ a h.
          IfOk->>= (λ xs. xs ≡ all_managed parse rest) _ (collect parse rest) _
            (collect-all_managed parse rest) (λ xs k. cc (h, k)))

module _ {P : Type 0} ⦃order : PathOrder P⦄ where
  -- Every artifact's path is at most those behind it.
  abbrev pub IsSortedByPath : List (ManagedArtifact P) → Type 0
  IsSortedByPath [] = Unit
  IsSortedByPath (a ∷ rest) = All (λ b. order.le a.path b.path ≡ true) rest × IsSortedByPath rest

  insert_artifact-All :
      (Q : ManagedArtifact P → Type 0) (a : ManagedArtifact P) (xs : List (ManagedArtifact P))
      → Q a
      → All Q xs
      → All Q (insert_artifact a xs)
  unfolding insert_artifact
  insert_artifact-All Q a [] q h = (q, tt)
  insert_artifact-All Q a (b ∷ xs) q h =
      if_split (All Q) (order.le a.path b.path) (λ _. (q, h))
        (λ _. (h.0, insert_artifact-All Q a xs q h.1))

  insert_artifact-IsSortedByPath :
      (a : ManagedArtifact P) (xs : List (ManagedArtifact P))
      → IsSortedByPath xs
      → IsSortedByPath (insert_artifact a xs)
  unfolding insert_artifact
  insert_artifact-IsSortedByPath a [] h = (tt, tt)
  insert_artifact-IsSortedByPath a (b ∷ xs) h =
      if_split IsSortedByPath (order.le a.path b.path)
        (λ e. ((e, All-map (λ c. order.le_trans a.path b.path c.path e) xs h.0), h))
        (λ e. (
          insert_artifact-All _ a xs (order.le_total a.path b.path e) h.0,
          insert_artifact-IsSortedByPath a xs h.1,
        ))

  insert_artifact-perm :
      (a : ManagedArtifact P) (xs : List (ManagedArtifact P)) → Perm (insert_artifact a xs) (a ∷ xs)
  unfolding insert_artifact
  insert_artifact-perm a [] = Perm.refl _
  insert_artifact-perm a (b ∷ xs) =
      if_split (λ ys. Perm ys (a ∷ b ∷ xs)) (order.le a.path b.path) (λ _. Perm.refl _)
        (λ _. Perm.trans (Perm.cons b (insert_artifact-perm a xs)) (Perm.swap a b xs))

  sort_artifacts-perm : (xs : List (ManagedArtifact P)) → Perm (sort_artifacts xs) xs
  unfolding sort_artifacts
  sort_artifacts-perm [] = Perm.refl _
  sort_artifacts-perm (a ∷ xs) =
      Perm.trans (insert_artifact-perm a (sort_artifacts xs)) (Perm.cons a (sort_artifacts-perm xs))

  sort_artifacts-IsSortedByPath :
      (xs : List (ManagedArtifact P)) → IsSortedByPath (sort_artifacts xs)
  unfolding sort_artifacts
  sort_artifacts-IsSortedByPath [] = tt
  sort_artifacts-IsSortedByPath (a ∷ xs) =
      insert_artifact-IsSortedByPath a (sort_artifacts xs) (sort_artifacts-IsSortedByPath xs)

  -- An inventory of a directory that can be read holds exactly the managed files, each as often as
  -- it is listed, in the order of their paths: the regular files, not behind a reparse point, whose
  -- names are generated, with the time of the name and the size of the metadata.
  pub inventory_capture_directory_lem :
      (parse : String → Option ℕ) (entries : List (Result (DirEntry P)))
      → IfOk
          (λ xs. Perm xs (all_managed parse entries) × IsSortedByPath xs)
          (inventory_capture_directory parse (ok entries))
  unfolding inventory_capture_directory
  inventory_capture_directory_lem parse entries =
      IfOk->>= (λ xs. xs ≡ all_managed parse entries) _ (collect parse entries) _
        (collect-all_managed parse entries)
        (λ xs e. (
          subst (Perm (sort_artifacts xs)) e (sort_artifacts-perm xs),
          sort_artifacts-IsSortedByPath xs,
        ))
