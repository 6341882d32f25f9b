-- ===== src/Tests/Uploads.antt =====
-- Runs of the upload worker and of an upload, and their theorems at one job.
use autopiercam.Base.{◌≤◌, ◌≡◌, refl, true, false, none, some, [], ◌∷◌, map, length}
use autopiercam.Base.Bytes.{Bytes, bytes_eq}
use autopiercam.Upload.Retry.{classify_status}
use autopiercam.Upload.Store.Errors.{unix_ms_to_database}
use autopiercam.Upload.Store.Platform.{Platform, Disk, found, file}
use autopiercam.Upload.Store.Ledger.{
  Ledger, UploadJob, update_jobs, update_rows, update_row, change_row, job_checks, aggregate,
  recount_all, recount,
}
use autopiercam.Upload.Store.Claims.{
  claim_due, claim_candidate, first_due, job_id_from_database, into_claim, mark_completed, settle,
  attempt_count_to_database,
}
use autopiercam.Upload.Store.Identity.{validate_stored_identity, hex_encode, idempotency_key}
use autopiercam.Upload.Store.FrameNames.{
  parse_generated_frame_filename, frame_stem, strip_suffix, split_dash, frame_parts, parse_parts,
  parts_are_valid, capture_time, parse_digits, decimal_digits, zeros,
}
use autopiercam.Upload.Store.Operator.{recover_interrupted_jobs}
use autopiercam.Upload.Store.Operations.{left_by, run_operations}
use autopiercam.Upload.Store.States.{completed}
use autopiercam.Upload.Worker.{
  Round, upload_loop, upload_round, after_claim, after_snapshot, claimed_round, persist_outcome,
}
use autopiercam.Upload.Worker.Idle.{IsIdleAfter, recovered-IsIdleAfter}
use autopiercam.Upload.Transport.{
  Http, response, PrivateFile, upload, upload_snapshot, snapshot_claimed_artifact, inspect_file,
  inspect_open_file, snapshot_open_file, verify_copy, copy_and_hash_snapshot, send_verified,
  classify_answer,
}
use autopiercam.Upload.Transport.Verified.{IsAnswered, upload_lem}
use autopiercam.Tests.Store.{repeat, example_platform, example_store, example_ledger, example_claim}

abbrev contents : Bytes
contents = repeat 100 8

-- The digest of the example's file.
abbrev platform : Platform
platform = record example_platform { sha256 = λ s. repeat 32 7 }

abbrev disk : Disk
disk = record {
  symlink_metadata = λ path. found file;
  canonicalize = λ path. found path;
  open_for_read = λ path. found (record {
    metadata = some (true, 100);
    contents = some contents;
    rewinds = true;
    final_length = some 100;
  });
}

abbrev http : Http
http = record { is_header_value = λ text. true; send = λ claim body. response 201 none }

abbrev private_file : PrivateFile
private_file = record { is_created = true; is_written = true; is_rewound = true }

upload_lem_example :
    (body : Bytes) × (length body ≡ 100)
    × (repeat 32 7 ≡ repeat 32 7)
    × IsAnswered platform example_claim http body 201
    × (200 ≤ 201)
    × (201 ≤ 299)
unfolding upload upload_snapshot snapshot_claimed_artifact inspect_file inspect_open_file
    snapshot_open_file verify_copy copy_and_hash_snapshot bytes_eq send_verified classify_answer
    classify_status
upload_lem_example = upload_lem platform example_claim http private_file disk 201 refl

-- One round uploads the file.
abbrev round : Round
round = record {
  stop_at_start = false;
  claim_time = some 20;
  snapshot_after_claim = none;
  observed_claim = true;
  disconnected = false;
  stop_after_claim = false;
  meanwhile = [];
  outcome = λ claim. upload platform http private_file disk claim;
  finish_time = some 30;
  snapshot_after_outcome = none;
  observed_outcome = true;
  stop_at_end = false;
}

abbrev recovered : Ledger
recovered = left_by example_ledger (recover_interrupted_jobs example_ledger)

recovered-IsIdleAfter_example :
    IsIdleAfter
      (upload_loop example_platform example_store ((round, []) ∷ (round, []) ∷ []) recovered)
unfolding recover_interrupted_jobs update_jobs update_rows update_row change_row job_checks
    aggregate recount_all recount
recovered-IsIdleAfter_example =
    recovered-IsIdleAfter example_platform example_store ((round, []) ∷ (round, []) ∷ [])
      example_ledger recovered ((tt, tt), ((tt, tt), tt)) refl

all_uploaded :
    map
      (λ (j : UploadJob). j.state)
      (upload_loop example_platform example_store ((round, []) ∷ (round, []) ∷ []) recovered).0.jobs
    ≡ completed ∷ completed ∷ []
unfolding upload_loop upload_round after_claim after_snapshot claimed_round persist_outcome
    claim_due claim_candidate unix_ms_to_database first_due job_id_from_database into_claim
    mark_completed settle attempt_count_to_database run_operations validate_stored_identity
    parse_generated_frame_filename frame_stem strip_suffix split_dash frame_parts parse_parts
    parts_are_valid capture_time parse_digits decimal_digits zeros hex_encode idempotency_key
    recover_interrupted_jobs update_jobs update_rows update_row change_row job_checks aggregate
    recount_all recount upload upload_snapshot snapshot_claimed_artifact inspect_file
    inspect_open_file snapshot_open_file verify_copy copy_and_hash_snapshot bytes_eq send_verified
    classify_answer classify_status
all_uploaded = refl
