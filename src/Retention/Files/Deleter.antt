-- ===== src/Retention/Files/Deleter.antt =====
-- `system_delete_exact`: a file is deleted through the handle by which it was checked.
pub mod Laws
use Prim.Native.String.{String}
use autopiercam.Base.{
  ℕ, ◌⊎◌, inl, inr, Bool, true, false, not, ◌&&◌, ◌||◌, Option, none, some, List, [], ◌∷◌, ◌++◌,
  ◌==◌, if◌then◌else◌, Result, ok, err,
}
use autopiercam.Base.Text.{◌+++◌, show_usize}
use autopiercam.Retention.Candidates.{RetentionAuthorization, RetentionCandidate}
use autopiercam.Retention.Files.{Probe, found, not_found, broken, Metadata}

pub data ExactDeleteOutcome : Type 0 where
  deleted already_absent : ExactDeleteOutcome

pub data RetentionDeleteError (P : Type 0) : Type 0 where
  unsafe_artifact : P → RetentionDeleteError P
  identity_changed : P → String → RetentionDeleteError P
  io : String → P → String → RetentionDeleteError P

-- An open file: its metadata, what its reads return one after another, and what the request to
-- delete it returns.
pub record OpenFile : Type 0 where
  pub metadata : Result Metadata
  pub reads : List (Result (List ℕ))
  pub set_disposition : Result (Unit {0})

-- `Result<ExactDeleteOutcome, RetentionDeleteError>`.
abbrev pub DeleteResult : Type 0 → Type 0
DeleteResult P = RetentionDeleteError P ⊎ ExactDeleteOutcome

-- The loop that hashes the file, up to the end of the file.
unfoldable pub read_all : List ℕ → List (Result (List ℕ)) → Result (List ℕ)
read_all bytes [] = ok bytes
read_all bytes (err error ∷ rest) = err error
read_all bytes (ok [] ∷ rest) = ok bytes
read_all bytes (ok (b ∷ chunk) ∷ rest) = read_all (bytes ++ b ∷ chunk) rest

abbrev pub same_digest : List ℕ → List ℕ → Bool
same_digest [] [] = true
same_digest (x ∷ xs) (y ∷ ys) = (x == y) && same_digest xs ys
same_digest _ _ = false

-- `sha256` is the digest of a byte string.
module _ {P : Type 0} (sha256 : List ℕ → List ℕ) (c : RetentionCandidate P) where
  unfoldable pub dispose : Result (Unit {0}) → DeleteResult P
  dispose (ok u) = inr deleted
  dispose (err error) = inl (io "mark opened artifact for deletion" c.path error)

  unfoldable pub compare_digest : OpenFile → List ℕ → Result (List ℕ) → DeleteResult P
  compare_digest f expected (ok bytes) =
      if not (same_digest (sha256 bytes) expected)
      then inl (identity_changed c.path "SHA-256 digest no longer matches the authorized artifact")
      else dispose f.set_disposition
  compare_digest f expected (err error) = inl (io "hash opened artifact" c.path error)

  unfoldable pub check_digest : OpenFile → Option (List ℕ) → DeleteResult P
  check_digest f none = dispose f.set_disposition
  check_digest f (some expected) = compare_digest f expected (read_all [] f.reads)

  unfoldable pub check_authorized_size :
      OpenFile → RetentionAuthorization → ℕ → Option ℕ → DeleteResult P
  check_authorized_size f expectation opened_size none = check_digest f expectation.expected_sha256
  check_authorized_size f expectation opened_size (some expected_size) =
      if not (opened_size == expected_size)
      then inl (
          identity_changed c.path (
            "authorized size was "
            +++ show_usize expected_size
            +++ " bytes but the opened file is "
            +++ show_usize opened_size
            +++ " bytes"))
      else check_digest f expectation.expected_sha256

  unfoldable pub check_metadata :
      OpenFile → RetentionAuthorization → Result Metadata → DeleteResult P
  check_metadata f expectation (err error) = inl (io "read opened artifact metadata" c.path error)
  check_metadata f expectation (ok m) =
      if not m.is_file || m.reparse
      then inl (unsafe_artifact c.path)
      else if not (m.len == c.file_size_bytes)
      then inl (
          identity_changed c.path (
            "inventory size was "
            +++ show_usize c.file_size_bytes
            +++ " bytes but the opened file is "
            +++ show_usize m.len
            +++ " bytes"))
      else check_authorized_size f expectation m.len expectation.expected_file_size_bytes

  unfoldable pub delete_exact : RetentionAuthorization → Probe OpenFile → DeleteResult P
  delete_exact expectation (found f) = check_metadata f expectation f.metadata
  delete_exact expectation not_found = inr already_absent
  delete_exact expectation (broken error) =
      inl (io "open artifact without following reparse points" c.path error)
