-- ===== src/Upload/Transport/Verified.antt =====
-- An upload that succeeds has sent the bytes that were recorded.
use autopiercam.Base.{
  ℕ, ◌+◌, ◌≤◌, ◌≡◌, refl, ap, ◌∙◌, Bool, true, false, not, Option, none, arith, ◌⊎◌, inl, inr, ◌==◌,
  ==_iff, leb, length, if_split, Bool-cases, if◌then◌else◌,
}
use autopiercam.Base.Bytes.{Bytes, bytes_eq, bytes_eq→eq}
use autopiercam.Upload.Retry.{success, permanent, classify_status}
use autopiercam.Upload.Store.Errors.{
  Result, ok, err, ensure, ok_or, ◌>>=◌, ◌>>◌, IfOk, IfOk-then, io,
}
use autopiercam.Upload.Store.Platform.{
  Platform, Disk, OpenFile, IoResult, found, not_found, io_error, FileType, file, symlink, other,
}
use autopiercam.Upload.Store.Claims.{ClaimedUpload}
use autopiercam.Upload.Transport.{
  size_mismatch, SnapshottedClaimedArtifact, verified, rejected, PrivateFile, Answer, response,
  status_error, transport_error, Http, copy_and_hash_snapshot, verify_copy, snapshot_open_file,
  inspect_open_file, inspect_file, snapshot_claimed_artifact, classify_answer, send_verified,
  upload_snapshot, upload,
}

module _ (platform : Platform) (claim : ClaimedUpload) where
  -- Bytes of the size and the digest of the claim.
  abbrev IsRecorded : Bytes → Type 0
  IsRecorded contents =
      (length contents ≡ claim.file_size) × (platform.sha256 contents ≡ claim.sha256)

  abbrev IfVerified : SnapshottedClaimedArtifact → Type 0
  IfVerified (verified contents) = IsRecorded contents
  IfVerified (rejected v) = Unit

  verify_copy-IfVerified :
      (p : PrivateFile) (contents : Bytes)
      → IfOk IfVerified
          (verify_copy platform p claim (copy_and_hash_snapshot platform claim.file_size contents))
  unfolding verify_copy copy_and_hash_snapshot
  verify_copy-IfVerified p contents = elim (Bool-cases (leb (length contents) claim.file_size)) [
    | inr long ↦ rw (long, too_long claim.file_size) tt
    | inl fits ↦ rw fits (
        if_split (λ (r : Result SnapshottedClaimedArtifact). IfOk IfVerified r)
          (not (length contents == claim.file_size)) (λ _. tt)
          λ size.
            if_split (λ (r : Result SnapshottedClaimedArtifact). IfOk IfVerified r)
              (not (bytes_eq (platform.sha256 contents) claim.sha256)) (λ _. tt)
              λ digest.
                IfOk-then IfVerified (ensure p.is_rewound io) _
                  λ u. ((==_iff _ _).0 (not_false _ size), bytes_eq→eq _ _ (not_false _ digest)))
  ]
    where
      too_long : (n : ℕ) → (n + 1 == n) ≡ false
      too_long n = ground arith

      not_false : (b : Bool) → not b ≡ false → b ≡ true
      not_false true h = refl
      not_false false h = cc h

  snapshot_open_file-IfVerified :
      (p : PrivateFile) (regular : Bool) (size : ℕ) (opened : OpenFile)
      → IfOk IfVerified (snapshot_open_file platform p claim regular size opened)
  unfolding snapshot_open_file
  snapshot_open_file-IfVerified p false size opened = tt
  snapshot_open_file-IfVerified p true size opened = pick (size == claim.file_size)
    where
      pick :
          (b : Bool)
          → IfOk IfVerified (elim b as (λ _. Result SnapshottedClaimedArtifact) [
            | false ↦ ok (rejected (size_mismatch claim.file_size size))
            | true ↦ do
              ensure p.is_created io
              contents ← ok_or opened.contents io
              ensure p.is_written io
              verify_copy platform p claim
                  (copy_and_hash_snapshot platform claim.file_size contents)
          ])
      pick false = tt
      pick true = IfOk-then IfVerified (ensure p.is_created io) _ λ u.
          IfOk-then IfVerified (ok_or opened.contents io) _ λ contents.
            IfOk-then IfVerified (ensure p.is_written io) _ λ u. verify_copy-IfVerified p contents

  inspect_open_file-IfVerified :
      (p : PrivateFile) (r : IoResult OpenFile)
      → IfOk IfVerified (inspect_open_file platform p claim r)
  unfolding inspect_open_file
  inspect_open_file-IfVerified p not_found = tt
  inspect_open_file-IfVerified p io_error = tt
  inspect_open_file-IfVerified p (found opened) =
      IfOk-then IfVerified (ok_or opened.metadata io) _
        λ (regular, size). snapshot_open_file-IfVerified p regular size opened

  inspect_file-IfVerified :
      (p : PrivateFile) (disk : Disk) (r : IoResult FileType)
      → IfOk IfVerified (inspect_file platform p disk claim r)
  unfolding inspect_file
  inspect_file-IfVerified p disk not_found = tt
  inspect_file-IfVerified p disk io_error = tt
  inspect_file-IfVerified p disk (found symlink) = tt
  inspect_file-IfVerified p disk (found other) = tt
  inspect_file-IfVerified p disk (found file) =
      inspect_open_file-IfVerified p (disk.open_for_read claim.artifact_path)

  -- The endpoint accepted these bytes.
  abbrev pub IsAnswered : Http → Bytes → ℕ → Type 0
  IsAnswered http contents status =
      ((header : Option Bytes) × (http.send claim contents ≡ response status header))
      ⊎ (http.send claim contents ≡ status_error status)

  classify_status-success :
      (status s : ℕ) (retry_after : Option ℕ)
      → classify_status s retry_after ≡ success status
      → (s ≡ status) × (200 ≤ status) × (status ≤ 299)
  unfolding classify_status
  classify_status-success status s retry_after h = ground arith

  answered :
      (http : Http) (contents : Bytes) (status : ℕ) (a : Answer)
      → http.send claim contents ≡ a
      → classify_answer a ≡ success status
      → IsAnswered http contents status × (200 ≤ status) × (status ≤ 299)
  unfolding classify_answer
  answered http contents status (response s header) e h =
      let (same, low, high) = classify_status-success status s _ h in
      (inl (header, e ∙ ap (λ n. response n header) same), low, high)
  answered http contents status (status_error s) e h =
      let (same, low, high) = classify_status-success status s _ h in
      (inr (e ∙ ap status_error same), low, high)
  answered http contents status transport_error e h = cc h

  -- An upload succeeds only if the endpoint answered, with a status from 200 to 299, to a request with
  -- bytes of the size and the digest that were recorded.
  pub upload_lem :
      (http : Http) (p : PrivateFile) (disk : Disk) (status : ℕ)
      → upload platform http p disk claim ≡ success status
      → (contents : Bytes) × (length contents ≡ claim.file_size)
        × (platform.sha256 contents ≡ claim.sha256)
        × IsAnswered http contents status
        × (200 ≤ status)
        × (status ≤ 299)
  unfolding upload snapshot_claimed_artifact upload_snapshot send_verified
  upload_lem http p disk status h =
      pick (inspect_file platform p disk claim (disk.symlink_metadata claim.artifact_path))
        (inspect_file-IfVerified p disk (disk.symlink_metadata claim.artifact_path)) h
    where
      sent :
          (contents : Bytes) (b : Bool)
          → (if b
              then permanent none "artifact metadata cannot be represented as HTTP headers"
              else classify_answer (http.send claim contents))
            ≡ success status
          → classify_answer (http.send claim contents) ≡ success status
      sent contents true h = cc h
      sent contents false h = h

      pick :
          (r : Result SnapshottedClaimedArtifact)
          → IfOk IfVerified r
          → upload_snapshot http claim r ≡ success status
          → (contents : Bytes) × (length contents ≡ claim.file_size)
            × (platform.sha256 contents ≡ claim.sha256)
            × IsAnswered http contents status
            × (200 ≤ status)
            × (status ≤ 299)
      pick (err e) v h = cc h
      pick (ok (rejected v)) u h = cc h
      pick (ok (verified contents)) (size, digest) h =
          let (a, low, high) =
            answered http contents status (http.send claim contents) refl (sent contents _ h) in
          (contents, size, digest, a, low, high)
