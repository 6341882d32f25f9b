-- ===== src/Upload/Transport.antt =====
-- One upload: snapshot_claimed_artifact with its verification (upload_store.rs), and
-- UreqTransport::upload (upload.rs). The private copy of the file is its bytes; the HTTP client is a
-- parameter.
pub mod Verified
use Prim.Native.String.{String}
use autopiercam.Base.{
  ℕ, ◌+◌, Bool, true, false, not, ◌||◌, Option, none, some, List, ◌==◌, if◌then◌else◌, leb, length,
  take,
}
use autopiercam.Base.Bytes.{Bytes, bytes_eq}
use autopiercam.Upload.Retry.{
  AttemptOutcome, success, retry, permanent, classify_status, parse_retry_after,
}
use autopiercam.Upload.Store.Errors.{Result, ok, err, ensure, ok_or, ◌>>=◌, ◌>>◌, io}
use autopiercam.Upload.Store.Platform.{
  Platform, Disk, OpenFile, IoResult, found, not_found, io_error, FileType, file, symlink, other,
}
use autopiercam.Upload.Store.Claims.{ClaimedUpload}

pub data ArtifactVerification : Type 0 where
  missing is_a_symlink not_regular_file : ArtifactVerification
  size_mismatch : (expected actual : ℕ) → ArtifactVerification
  sha256_mismatch : (expected actual : Bytes) → ArtifactVerification

pub data SnapshottedClaimedArtifact : Type 0 where
  verified : Bytes → SnapshottedClaimedArtifact
  rejected : ArtifactVerification → SnapshottedClaimedArtifact

abbrev reject : ArtifactVerification → Result SnapshottedClaimedArtifact
reject v = ok (rejected v)

-- `HeaderValue::from_str`, and the request with its answer. `none` stands for a missing header.
pub data Answer : Type 0 where
  response : ℕ → Option Bytes → Answer
  status_error : ℕ → Answer
  transport_error : Answer

pub record Http : Type 0 where
  pub is_header_value : Bytes → Bool
  pub send : ClaimedUpload → Bytes → Answer

-- Whether the private file can be created, written and rewound.
pub record PrivateFile : Type 0 where
  pub is_created : Bool
  pub is_written : Bool
  pub is_rewound : Bool

module _ (platform : Platform) where
  -- `copy_and_hash_snapshot`: reading stops at the first byte too many, so what is copied then is not
  -- used. The size, the digest and the copy.
  unfoldable pub copy_and_hash_snapshot : ℕ → Bytes → ℕ × Bytes × Bytes
  copy_and_hash_snapshot expected_size contents =
      if leb (length contents) expected_size
      then (length contents, platform.sha256 contents, contents)
      else (
        expected_size + 1,
        platform.sha256 (take expected_size contents),
        take expected_size contents,
      )

  unfoldable pub verify_copy :
      PrivateFile → ClaimedUpload → ℕ × Bytes × Bytes → Result SnapshottedClaimedArtifact
  verify_copy private_file claim (actual_size, actual, copy) =
      if not (actual_size == claim.file_size)
      then reject (size_mismatch claim.file_size actual_size)
      else if not (bytes_eq actual claim.sha256)
      then reject (sha256_mismatch claim.sha256 actual)
      else ensure private_file.is_rewound io >> ok (verified copy)

  -- From the open file on.
  unfoldable pub snapshot_open_file :
      PrivateFile → ClaimedUpload → Bool → ℕ → OpenFile → Result SnapshottedClaimedArtifact
  snapshot_open_file private_file claim regular size opened = elim regular [
    | false ↦ reject not_regular_file
    | true ↦ elim (size == claim.file_size) [
      | false ↦ reject (size_mismatch claim.file_size size)
      | true ↦ do
        ensure private_file.is_created io
        contents ← ok_or opened.contents io
        ensure private_file.is_written io
        verify_copy private_file claim (copy_and_hash_snapshot claim.file_size contents)
    ]
  ]

  unfoldable pub inspect_open_file :
      PrivateFile → ClaimedUpload → IoResult OpenFile → Result SnapshottedClaimedArtifact
  inspect_open_file private_file claim not_found = reject missing
  inspect_open_file private_file claim io_error = err io
  inspect_open_file private_file claim (found opened) = do
    (regular, size) ← ok_or opened.metadata io
    snapshot_open_file private_file claim regular size opened

  unfoldable pub inspect_file :
      PrivateFile → Disk → ClaimedUpload → IoResult FileType → Result SnapshottedClaimedArtifact
  inspect_file private_file disk claim not_found = reject missing
  inspect_file private_file disk claim io_error = err io
  inspect_file private_file disk claim (found symlink) = reject is_a_symlink
  inspect_file private_file disk claim (found other) = reject not_regular_file
  inspect_file private_file disk claim (found file) =
      inspect_open_file private_file claim (disk.open_for_read claim.artifact_path)

  unfoldable pub snapshot_claimed_artifact :
      PrivateFile → Disk → ClaimedUpload → Result SnapshottedClaimedArtifact
  snapshot_claimed_artifact private_file disk claim =
      inspect_file private_file disk claim (disk.symlink_metadata claim.artifact_path)

-- The messages of a rejected file.
unfoldable pub rejection : ArtifactVerification → String
rejection missing = "artifact file is missing"
rejection is_a_symlink = "artifact path became a symbolic link"
rejection not_regular_file = "artifact path is not a regular file"
rejection (size_mismatch expected actual) = "artifact file size changed after it was recorded"
rejection (sha256_mismatch expected actual) = "artifact file content changed after it was recorded"

unfoldable pub classify_answer : Answer → AttemptOutcome
classify_answer (response status header) = classify_status status (parse_retry_after header)
classify_answer (status_error status) = classify_status status none
classify_answer transport_error = retry none none "HTTP transport failed"

unfoldable pub send_verified : Http → ClaimedUpload → Bytes → AttemptOutcome
send_verified http claim contents =
    if not (http.is_header_value claim.filename) || not (http.is_header_value claim.idempotency_key)
    then permanent none "artifact metadata cannot be represented as HTTP headers"
    else classify_answer (http.send claim contents)

unfoldable pub upload_snapshot :
    Http → ClaimedUpload → Result SnapshottedClaimedArtifact → AttemptOutcome
upload_snapshot http claim (err e) = retry none none "artifact file could not be opened or verified"
upload_snapshot http claim (ok (rejected v)) = permanent none (rejection v)
upload_snapshot http claim (ok (verified contents)) = send_verified http claim contents

-- `UreqTransport::upload`
unfoldable pub upload : Platform → Http → PrivateFile → Disk → ClaimedUpload → AttemptOutcome
upload platform http private_file disk claim =
    upload_snapshot http claim (snapshot_claimed_artifact platform private_file disk claim)
