-- ===== src/Retention/Files/Inventory.antt =====
-- `inventory_capture_directory`: the entries that a sweep manages.
pub mod Laws
use Prim.Native.String.{String}
use autopiercam.Base.{
  ℕ, Bool, true, false, not, Option, none, some, List, [], ◌∷◌, if◌then◌else◌, Result, ok, err,
  ◌>>=◌,
}
use autopiercam.Retention.Candidates.{PathOrder, ManagedArtifact}
use autopiercam.Retention.Files.{Probe, found, not_found, broken, Metadata}

-- A directory entry: its name, if that is text, and what its file type and its metadata answer.
pub record DirEntry (P : Type 0) : Type 0 where
  pub path : P
  pub file_name : Option String
  pub is_file : Probe Bool
  pub metadata : Probe Metadata

module _ {P : Type 0} where
  -- The end of the loop's body, from the metadata on.
  unfoldable pub admit_metadata :
      DirEntry P → ℕ → Probe Metadata → Result (Option (ManagedArtifact P))
  admit_metadata e captured_at_unix_ms (found m) =
      if m.reparse
      then ok none
      else ok (
          some (record {
            path = e.path;
            captured_at_unix_ms = captured_at_unix_ms;
            file_size_bytes = m.len;
          }))
  admit_metadata e captured_at_unix_ms not_found = ok none
  admit_metadata e captured_at_unix_ms (broken error) = err error

  unfoldable pub admit_type : DirEntry P → ℕ → Probe Bool → Result (Option (ManagedArtifact P))
  admit_type e captured_at_unix_ms (found is_file) =
      if not is_file then ok none else admit_metadata e captured_at_unix_ms e.metadata
  admit_type e captured_at_unix_ms not_found = ok none
  admit_type e captured_at_unix_ms (broken error) = err error

  -- The time in a generated file name.
  abbrev pub generated : (String → Option ℕ) → DirEntry P → Option ℕ
  generated parse e = elim e.file_name [ none ↦ none | some name ↦ parse name ]

  unfoldable pub admit_named : DirEntry P → Option ℕ → Result (Option (ManagedArtifact P))
  admit_named e none = ok none
  admit_named e (some captured_at_unix_ms) = admit_type e captured_at_unix_ms e.is_file

  unfoldable pub admit : (String → Option ℕ) → DirEntry P → Result (Option (ManagedArtifact P))
  admit parse e = admit_named e (generated parse e)

  abbrev pub with_artifact :
      Option (ManagedArtifact P) → List (ManagedArtifact P) → List (ManagedArtifact P)
  with_artifact none rest = rest
  with_artifact (some a) rest = a ∷ rest

  -- The loop.
  unfoldable pub collect :
      (String → Option ℕ) → List (Result (DirEntry P)) → Result (List (ManagedArtifact P))
  collect parse [] = ok []
  collect parse (entry ∷ rest) = do
    e ← entry
    artifact ← admit parse e
    artifacts ← collect parse rest
    ok (with_artifact artifact artifacts)

module _ {P : Type 0} ⦃order : PathOrder P⦄ where
  unfoldable pub insert_artifact :
      ManagedArtifact P → List (ManagedArtifact P) → List (ManagedArtifact P)
  insert_artifact a [] = a ∷ []
  insert_artifact a (b ∷ rest) =
      if order.le a.path b.path then a ∷ b ∷ rest else b ∷ insert_artifact a rest

  -- `inventory.sort_by` on the paths.
  unfoldable pub sort_artifacts : List (ManagedArtifact P) → List (ManagedArtifact P)
  sort_artifacts [] = []
  sort_artifacts (a ∷ rest) = insert_artifact a (sort_artifacts rest)

  unfoldable pub inventory_capture_directory :
      (String → Option ℕ) → Result (List (Result (DirEntry P))) → Result (List (ManagedArtifact P))
  inventory_capture_directory parse directory = do
    entries ← directory
    artifacts ← collect parse entries
    ok (sort_artifacts artifacts)
