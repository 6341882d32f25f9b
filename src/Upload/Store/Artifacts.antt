-- ===== src/Upload/Store/Artifacts.antt =====
-- Files of the capture directory: ArtifactValues::read, sha256_open_file, snapshot_claimed_artifact and
-- open_verified_requeue_artifact. The private copy that is uploaded is its bytes.
use autopiercam.Base.{
  ℕ, Bool, true, false, not, ◌&&◌, ◌||◌, Option, none, some, ◌==◌, if◌then◌else◌,
}
use autopiercam.Base.Bytes.{Bytes, bytes_eq, is_text}
use autopiercam.Upload.Store.Errors.{
  UploadStoreError, Result, ok, err, ensure, ok_or, ◌>>=◌, ◌>>◌, io, artifact_path_not_absolute,
  artifact_is_symlink, artifact_not_regular_file, artifact_outside_capture_root,
  invalid_artifact_filename, requeue_artifact_unavailable, requeue_artifact_changed,
}
use autopiercam.Upload.Store.Platform.{
  Platform, Disk, OpenFile, IoResult, found, not_found, io_error, FileType, file, symlink, other,
}
use autopiercam.Upload.Store.FrameNames.{is_generated_frame_filename}
use autopiercam.Upload.Store.Identity.{idempotency_key}

pub record ArtifactValues : Type 0 where
  pub artifact_path : Bytes
  pub filename : Bytes
  pub idempotency_key : Bytes
  pub file_size : ℕ
  pub sha256 : Bytes

-- A system call whose every failure is an error, and one that has an answer of its own for a missing
-- file.
abbrev or_io : {A : Type 0} → IoResult A → Result A
or_io (found a) = ok a
or_io not_found = err io
or_io io_error = err io

abbrev or_missing : {A : Type 0} → UploadStoreError → IoResult A → Result A
or_missing missing (found a) = ok a
or_missing missing not_found = err missing
or_missing missing io_error = err io

abbrev is_file : FileType → Bool
is_file file = true
is_file symlink = false
is_file other = false

abbrev is_symlink : FileType → Bool
is_symlink file = false
is_symlink symlink = true
is_symlink other = false

abbrev filter_text : (Bytes → Bool) → Option Bytes → Option Bytes
filter_text p none = none
filter_text p (some text) = if p text then some text else none

module _ (platform : Platform) where
  open platform use {is_absolute, parent, file_name}

  -- `sha256_open_file`
  unfoldable pub sha256_open_file : OpenFile → Result Bytes
  sha256_open_file opened = do
    contents ← ok_or opened.contents io
    ensure opened.rewinds io
    ok (platform.sha256 contents)

  module _ (disk : Disk) where
    open disk use {symlink_metadata, canonicalize, open_for_read}

    -- `ArtifactValues::read`
    unfoldable pub read_artifact : Bytes → Bytes → Result ArtifactValues
    read_artifact path capture_root = do
      ensure (is_absolute path) artifact_path_not_absolute
      metadata ← or_io (symlink_metadata path)
      ensure (not (is_symlink metadata)) artifact_is_symlink
      ensure (is_file metadata) artifact_not_regular_file
      canonical ← or_io (canonicalize path)
      ensure (is_text (parent canonical) capture_root) artifact_outside_capture_root
      filename ←
          ok_or (filter_text is_generated_frame_filename (file_name canonical))
            invalid_artifact_filename
      opened ← or_io (open_for_read canonical)
      (regular, size) ← ok_or opened.metadata io
      ensure regular artifact_not_regular_file
      digest ← sha256_open_file opened
      ok (record {
        artifact_path = canonical;
        filename = filename;
        idempotency_key = idempotency_key filename digest;
        file_size = size;
        sha256 = digest;
      })

    -- `open_verified_requeue_artifact`
    unfoldable pub open_verified_requeue_artifact : Bytes → ℕ → Bytes → Result OpenFile
    open_verified_requeue_artifact path expected_size expected_sha256 = do
      metadata ← or_missing requeue_artifact_unavailable (symlink_metadata path)
      ensure (not (is_symlink metadata || not (is_file metadata))) requeue_artifact_unavailable
      canonical ← or_missing requeue_artifact_unavailable (canonicalize path)
      ensure (bytes_eq canonical path) requeue_artifact_unavailable
      opened ← or_missing requeue_artifact_unavailable (open_for_read path)
      (regular, size) ← ok_or opened.metadata io
      ensure regular requeue_artifact_unavailable
      ensure (size == expected_size) requeue_artifact_changed
      actual ← sha256_open_file opened
      final_size ← ok_or opened.final_length io
      ensure (final_size == expected_size && bytes_eq actual expected_sha256)
          requeue_artifact_changed
      ok opened
