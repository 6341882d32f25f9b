-- ===== src/Tests/Store.antt =====
-- Runs of the upload store, and its theorems at a small ledger.
use autopiercam.Base.{
  ℕ, zero, suc, ◌+◌, ◌<◌, ◌≡◌, refl, true, false, Option, none, some, List, [], ◌∷◌, ◌++◌, ◌%◌,
  take, drop, map, ◌==◌, if◌then◌else◌, ltb, length, arith, ◌⊎◌,
}
use autopiercam.Base.Bytes.{Bytes, bytes, bytes_eq, any}
use autopiercam.Upload.Store.Errors.{
  IfOk, ok, err, UploadStoreError, stale_list_cursor, unix_ms_to_database,
}
use autopiercam.Upload.Store.States.{
  UploadState, pending, in_progress, retrying, completed, permanently_failed,
}
use autopiercam.Upload.Store.Platform.{Platform}
use autopiercam.Upload.Store.Ledger.Counts.{count_of, tally}
use autopiercam.Upload.Store.Ledger.{
  update_jobs, update_rows, update_row, change_row, aggregate, recount_all, recount, UploadJob,
  Ledger, job_checks,
}
use autopiercam.Upload.Store.Identity.{
  hex_encode, be_bytes, validate_stored_identity, idempotency_key,
}
use autopiercam.Upload.Store.FrameNames.{
  parse_generated_frame_filename, frame_stem, strip_suffix, split_dash, frame_parts, parse_parts,
  parts_are_valid, capture_time, parse_digits, decimal_digits, zeros,
}
use autopiercam.Upload.Store.Claims.Taking.{Took, claim_due-Took}
use autopiercam.Upload.Store.Claims.{
  release_claim, mark_retrying, mark_completed, settle, attempt_count_to_database, claim_due,
  claim_candidate, first_due, into_claim, job_id_from_database, UploadStore, ClaimedUpload,
}
use autopiercam.Upload.Store.Cursor.Digits.{IsDigest, IsBytes}
use autopiercam.Upload.Store.History.{IsSound, Extends}
use autopiercam.Upload.Store.Operations.Corollaries.{
  run_operations-IsSound, run_operations-Extends, acknowledged-stays_authorized,
}
use autopiercam.Upload.Store.Operations.Fencing.{settled_once}
use autopiercam.Upload.Store.Operations.StaleCursors.{stale_cursor}
use autopiercam.Upload.Store.Operator.{UploadListItem, into_list_item}
use autopiercam.Upload.Store.Cursor.RoundTrip.{decode-encode_list_cursor}
use autopiercam.Upload.Store.Listing.{
  UploadListPage, list_jobs, listed_jobs, page_start, check_cursor, page_of, max_id, newest_first,
  insert_newest, collect_list_items,
}
use autopiercam.Upload.Store.Listing.Following.{all_pages}
use autopiercam.Upload.Store.Listing.Pages.{all_pages_lem}
use autopiercam.Upload.Store.Cursor.{
  encode_list_cursor, decode_list_cursor, list_cursor_ledger_tag, canonical_state_filter_mask,
  list_cursor_mac, list_cursor_payload, decode_fields, decode_bytes, hex_decode_exact,
  hex_decode_pairs, hex_nibble, from_be_bytes, fold_difference, constant_time_equal, add_filters,
}
use autopiercam.Upload.Store.Retained.{
  UploadRetentionEntry, completed_job, retention_still_authorized, binding_still_holds,
}
use autopiercam.Upload.Store.Operations.{
  left_by, release, retry, complete, settle_with, Operation, claim, settle_claim, run_operations,
  run_operation,
}
use autopiercam.Upload.Store.Operations.Recorded.{IsFresh}

-- A digest of 32 bytes that depends on the length of the text only.
abbrev pub repeat : ℕ → ℕ → Bytes
repeat zero b = []
repeat (suc n) b = b ∷ repeat n b

repeat-IsBytes : (n b : ℕ) → b < 256 → IsBytes (repeat n b)
repeat-IsBytes zero b h = tt
repeat-IsBytes (suc n) b h = (h, repeat-IsBytes n b h)

abbrev largest : List ℕ → ℕ
largest [] = 0
largest (id ∷ ids) = let rest = largest ids in if ltb rest id then id else rest

abbrev pub example_platform : Platform
example_platform = record {
  sha256 = λ s. repeat 32 (length s % 256);
  new_rowid = λ ids. some (largest ids + 1);
  is_absolute = λ path. true;
  parent = λ path. some (take 2 path);
  file_name = λ path. some (drop 3 path);
}

is_digest : IsDigest example_platform
is_digest s = (refl, repeat-IsBytes 32 (length s % 256) (omega arith))

larger_is_fresh :
    (ids : List ℕ) (id : ℕ) → largest ids < id → any (λ known. known == id) ids ≡ false
larger_is_fresh [] id h = refl
larger_is_fresh (k ∷ ids) id h = ground (arith, larger_is_fresh ids id)

is_fresh : IsFresh example_platform
is_fresh ids id e =
    let same : largest ids + 1 ≡ id = cc (e) in larger_is_fresh ids id (omega (arith, same))

abbrev pub example_store : UploadStore
example_store = record {
  capture_root = bytes "/c";
  ledger_id = repeat 16 5;
  delivery_binding = repeat 32 9;
}

abbrev example_job : ℕ → Bytes → UploadState → Option ℕ → UploadJob
example_job id filename state completed_at = record {
  id = id;
  artifact_path = bytes "/c/" ++ filename;
  filename = filename;
  idempotency_key = idempotency_key filename (repeat 32 7);
  file_size = 100;
  sha256 = repeat 32 7;
  delivery_binding = repeat 32 9;
  state = state;
  attempt_count = 1;
  next_attempt_at_ms = none;
  last_http_status = none;
  last_error = none;
  created_at_ms = 5;
  updated_at_ms = 6;
  completed_at_ms = completed_at;
  last_failure_at_ms = none;
  job_revision = 2;
  requeue_count = 0;
  last_requeued_at_ms = none;
}

abbrev first_name : Bytes
first_name = bytes "frame-1-002-000007.jpg"

abbrev second_name : Bytes
second_name = bytes "frame-2-002-000008.jpg"

-- One job is being uploaded, and one has been.
abbrev pub example_ledger : Ledger
example_ledger = record {
  metadata = record {
    ledger_id = repeat 16 5;
    ledger_revision = 5;
    capture_root = bytes "/c";
    destination = bytes "https://example.org";
    authorization_sha256 = repeat 32 1;
    counts = record {
      pending = 0;
      in_progress = 1;
      retrying = 0;
      completed = 1;
      permanently_failed = 0;
    };
    last_success_at_ms = some 6;
    last_failure_at_ms = none;
    last_error = none;
  };
  jobs =
      example_job 1 first_name in_progress none ∷ example_job 2 second_name completed (some 6) ∷ [];
  preactivation = [];
}

example-IsSound : IsSound example_ledger
unfolding job_checks bytes_eq
example-IsSound = record {
  counts = counted;
  revision = omega arith;
  rows = (refl, (refl, tt));
  paths = (refl, (refl, tt));
  ids = (refl, (refl, tt));
}
  where
    counted :
        (s : UploadState) → count_of s example_ledger.metadata.counts ≡ tally s example_ledger.jobs
    counted pending = refl
    counted in_progress = refl
    counted retrying = refl
    counted completed = refl
    counted permanently_failed = refl

abbrev pub example_claim : ClaimedUpload
example_claim = record {
  job_id = 1;
  artifact_path = bytes "/c/" ++ first_name;
  filename = first_name;
  idempotency_key = idempotency_key first_name (repeat 32 7);
  file_size = 100;
  sha256 = repeat 32 7;
  attempt_count = 1;
}

-- The claimed job is to be retried at 20 and is claimed again at 20, and is then done.
abbrev example_operations : List (UploadStore × Operation)
example_operations =
    (example_store, settle_claim (retry 10 20 (some 503) none) example_claim)
    ∷ (example_store, claim 20)
    ∷ (example_store, settle_claim (complete 30 201) (record example_claim { attempt_count = 2 }))
    ∷ []

states_after :
    map
      (λ (j : UploadJob). j.state)
      (run_operations example_platform example_operations example_ledger).jobs
    ≡ completed ∷ completed ∷ []
unfolding run_operations run_operation settle_with mark_retrying mark_completed settle
    attempt_count_to_database update_jobs update_rows update_row change_row job_checks aggregate
    recount_all recount claim_due claim_candidate first_due into_claim job_id_from_database
    validate_stored_identity parse_generated_frame_filename frame_stem strip_suffix split_dash
    frame_parts parse_parts parts_are_valid capture_time parse_digits decimal_digits zeros bytes_eq
    unix_ms_to_database idempotency_key
states_after = refl

run_operations-IsSound_example :
    IsSound (run_operations example_platform example_operations example_ledger)
run_operations-IsSound_example =
    run_operations-IsSound example_platform is_fresh example_operations example_ledger
      example-IsSound

run_operations-Extends_example :
    Extends
      (example_ledger.jobs)
      (run_operations example_platform example_operations example_ledger).jobs
run_operations-Extends_example =
    run_operations-Extends example_platform is_fresh example_operations example_ledger
      example-IsSound

-- The file of the second job stays confirmed.
abbrev confirmed : UploadRetentionEntry
confirmed = record {
  artifact_path = bytes "/c/" ++ second_name;
  binding = completed_job 2 2 100 (repeat 32 7);
}

acknowledged-stays_authorized_example :
    retention_still_authorized confirmed
      (run_operations example_platform example_operations example_ledger)
    ≡ ok true
unfolding retention_still_authorized binding_still_holds bytes_eq
acknowledged-stays_authorized_example =
    acknowledged-stays_authorized example_platform is_fresh example_operations example_ledger
      (bytes "/c/" ++ second_name) (repeat 32 7) 2 2 100 example-IsSound refl

abbrev released_ledger : Ledger
released_ledger = left_by example_ledger (settle_with (release 9) example_claim example_ledger)

-- The job is released and claimed again, and the first claim then completes nothing.
settled_once_example :
    (e : UploadStoreError) × (settle_with
        (complete 30 201)
        example_claim
        (run_operations example_platform ((example_store, claim 20) ∷ []) released_ledger)
      ≡ err e)
unfolding settle_with release_claim settle attempt_count_to_database update_jobs update_rows
    update_row change_row job_checks aggregate recount_all recount unix_ms_to_database
settled_once_example =
    settled_once example_platform is_fresh (release 9) (complete 30 201) example_claim
      ((example_store, claim 20) ∷ []) example_ledger released_ledger example-IsSound refl

-- A page of one item, and the cursor to the next.
abbrev example_cursor : Bytes
example_cursor = encode_list_cursor example_platform (repeat 16 5) 5 2 2 31 1

abbrev second_page : UploadListPage
second_page = record {
  ledger_id = repeat 16 5;
  ledger_revision = 5;
  jobs =
      (record {
        job = example_job 1 first_name in_progress none;
        delivery_binding_is_current = true;
      })
      ∷ [];
  next_cursor = none;
}

-- The listing is computed as the code computes it, with its cursor.
second_page_runs :
    list_jobs example_platform example_store [] 1 (some example_cursor) example_ledger
    ≡ ok second_page
unfolding list_jobs bytes_eq max_id canonical_state_filter_mask collect_list_items newest_first
    insert_newest into_list_item job_id_from_database validate_stored_identity
    parse_generated_frame_filename frame_stem strip_suffix frame_parts split_dash parse_parts
    parts_are_valid capture_time add_filters decimal_digits parse_digits zeros hex_encode
    idempotency_key page_start check_cursor page_of decode_list_cursor decode_bytes decode_fields
    hex_decode_exact hex_decode_pairs hex_nibble from_be_bytes fold_difference constant_time_equal
    list_cursor_ledger_tag list_cursor_mac list_cursor_payload encode_list_cursor be_bytes
second_page_runs = refl

stale_cursor_example :
    let after = run_operations example_platform example_operations example_ledger in
    (after ≡ example_ledger)
    ⊎ (list_jobs example_platform example_store [] 1 (some example_cursor) after
        ≡ err stale_list_cursor)
stale_cursor_example =
    stale_cursor example_platform example_store is_fresh [] 1 example_cursor example_operations
      example_ledger second_page example-IsSound second_page_runs

decode-encode_list_cursor_example :
    decode_list_cursor example_platform example_cursor (repeat 16 5)
    ≡ ok (record {
      ledger_tag = list_cursor_ledger_tag example_platform (repeat 16 5);
      ledger_revision = 5;
      high_water_id = 2;
      before_id = 2;
      filter_mask = 31;
      page_size = 1;
    })
decode-encode_list_cursor_example =
    decode-encode_list_cursor example_platform is_digest (repeat 16 5) 5 2 2 31 1 (omega arith)
      (omega arith) (omega arith) (omega arith) (omega arith) (omega arith)

abbrev example_items : List UploadListItem
example_items =
    (record {
      job = example_job 2 second_name completed (some 6);
      delivery_binding_is_current = true;
    })
    ∷ (record {
      job = example_job 1 first_name in_progress none;
      delivery_binding_is_current = true;
    })
    ∷ []

rows_are_valid :
    collect_list_items example_platform example_store
      (listed_jobs (max_id example_ledger.jobs) none 31 (example_ledger.jobs))
    ≡ ok example_items
unfolding bytes_eq max_id collect_list_items newest_first insert_newest into_list_item
    job_id_from_database validate_stored_identity parse_generated_frame_filename frame_stem
    strip_suffix frame_parts split_dash parse_parts parts_are_valid capture_time decimal_digits
    parse_digits zeros hex_encode idempotency_key
rows_are_valid = refl

all_pages_lem_example :
    all_pages example_platform example_store 3 [] 1 none example_ledger ≡ ok example_items
unfolding bytes_eq max_id canonical_state_filter_mask newest_first insert_newest
all_pages_lem_example =
    all_pages_lem example_platform is_digest example_store [] 1 31 example_ledger example-IsSound
      refl (omega arith) (omega arith) (omega arith) refl 3 example_items rows_are_valid
      (omega arith)

claim_due-Took_example :
    IfOk
      (Took example_platform example_store 20 released_ledger)
      (claim_due example_platform example_store 20 released_ledger)
claim_due-Took_example = claim_due-Took example_platform example_store 20 released_ledger
