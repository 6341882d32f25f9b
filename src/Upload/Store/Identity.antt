-- ===== src/Upload/Store/Identity.antt =====
-- What identifies an artifact: the hexadecimal digits of its digest, its idempotency key, the delivery
-- binding of a job, and the validation of a stored row.
use autopiercam.Base.{
  ℕ, ◌+◌, ◌-◌, ◌/◌, ◌%◌, ◌^◌, ◌&&◌, [], ◌∷◌, ◌++◌, if◌then◌else◌, ltb, length, suc, zero,
  is_some_and,
}
use autopiercam.Base.Bytes.{Bytes, bytes, bytes_eq, is_text}
use autopiercam.Upload.Store.Errors.{
  Result, ok, err, corrupt_artifact_identity, corrupt_preactivation_artifact,
}
use autopiercam.Upload.Store.Platform.{Platform}
use autopiercam.Upload.Store.FrameNames.{is_generated_frame_filename}

-- The digit of `HEX` at an index below 16.
abbrev pub hex_digit : ℕ → ℕ
hex_digit n = if ltb n 10 then b'0' + n else b'a' + (n - 10)

unfoldable pub hex_encode : Bytes → Bytes
hex_encode [] = []
hex_encode (byte ∷ rest) = hex_digit (byte / 16) ∷ hex_digit (byte % 16) ∷ hex_encode rest

unfoldable pub idempotency_key : Bytes → Bytes → Bytes
unfolding hex_encode
idempotency_key filename sha256 =
    bytes "autopiercam-sha256-" ++ (hex_encode sha256 ++ (b'-' ∷ filename))

-- `n.to_be_bytes()` of a number of so many bytes.
unfoldable pub be_bytes : ℕ → ℕ → Bytes
be_bytes zero n = []
be_bytes (suc width) n = (n / 256 ^ width % 256) ∷ be_bytes width n

abbrev pub u64_bytes : ℕ → Bytes
u64_bytes n = be_bytes 8 n

module _ (platform : Platform) where
  open platform use {sha256, is_absolute, parent, file_name}

  pub authorization_fingerprint : Bytes → Bytes → Bytes
  authorization_fingerprint kind identity =
      sha256
        (bytes "autopiercam-upload-authorization-identity-v1" ++ (0 ∷ (kind ++ (0 ∷ identity))))

  pub anonymous : Bytes
  anonymous = authorization_fingerprint (bytes "anonymous") []

  pub for_bearer_token : Bytes → Bytes
  for_bearer_token token = authorization_fingerprint (bytes "bearer") token

  pub derive_delivery_binding : Bytes → Bytes → Bytes
  derive_delivery_binding destination authorization = sha256 (
      bytes "autopiercam-upload-delivery-binding-v1"
      ++ (0 ∷ (u64_bytes (length destination) ++ (destination ++ authorization))))

  -- The path of a stored row, if the row is consistent.
  unfoldable pub validate_stored_identity :
      (job_id : ℕ) (artifact_path filename stored_key digest capture_root : Bytes) → Result Bytes
  validate_stored_identity job_id artifact_path filename stored_key digest capture_root =
      if is_absolute artifact_path
        && is_text (parent artifact_path) capture_root
        && is_text (file_name artifact_path) filename
        && is_generated_frame_filename filename
        && bytes_eq stored_key (idempotency_key filename digest)
      then ok artifact_path
      else err (corrupt_artifact_identity job_id)

  unfoldable pub validate_preactivation_artifact_path : Bytes → Bytes → Result Bytes
  validate_preactivation_artifact_path artifact_path capture_root =
      if is_absolute artifact_path
        && is_text (parent artifact_path) capture_root
        && is_some_and (file_name artifact_path) is_generated_frame_filename
      then ok artifact_path
      else err corrupt_preactivation_artifact
