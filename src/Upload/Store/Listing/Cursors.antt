-- ===== src/Upload/Store/Listing/Cursors.antt =====
-- What the cursor of a page says, and that the ledger reads it back.
use Prim.Native.Nat.{bit_and, bit_or}
use autopiercam.Base.{
  ℕ, ◌<◌, ◌≡◌, refl, Bool, true, false, ◌&&◌, List, [], ◌∷◌, ◌==◌, if◌then◌else◌, ltb, ltb→lt,
  length, arith, Bool-cases, inl, inr,
}
use autopiercam.Upload.Store.Errors.{
  err, ensure, IfOk, IfOk-bind, IfOk-then, corrupt_artifact_identity, duplicate_list_state_filter,
}
use autopiercam.Upload.Store.States.{
  UploadState, filter_bit, pending, in_progress, retrying, completed, permanently_failed,
}
use autopiercam.Upload.Store.Platform.{Platform}
use autopiercam.Upload.Store.Ledger.{UploadJob}
use autopiercam.Upload.Store.Claims.{UploadStore, job_id_from_database}
use autopiercam.Upload.Store.Identity.{validate_stored_identity}
use autopiercam.Upload.Store.Operator.{UploadListItem, into_list_item}
use autopiercam.Upload.Store.Cursor.{add_filters, canonical_state_filter_mask}
use autopiercam.Upload.Store.Cursor.Digits.{passes, passes_lem}
use autopiercam.Upload.Store.Listing.{collect_list_items}

-- A mask that selects some state, and nothing else.
abbrev pub IsMask : ℕ → Type 0
IsMask mask = (0 < mask) × (mask < 32)

abbrev is_mask : ℕ → Bool
is_mask mask = ltb 0 mask && ltb mask 32

masks_of : (s : UploadState) → passes (λ mask. is_mask (bit_or mask (filter_bit s))) 0 32 ≡ true
unfolding passes
masks_of pending = refl
masks_of in_progress = refl
masks_of retrying = refl
masks_of completed = refl
masks_of permanently_failed = refl

add-IsMask : (mask : ℕ) (s : UploadState) → mask < 32 → IsMask (bit_or mask (filter_bit s))
add-IsMask mask s h = read _ (passes_lem _ 0 32 mask (masks_of s) (omega arith) h)
  where
    read : (n : ℕ) → is_mask n ≡ true → IsMask n
    read n e = ground arith

add_filters-IsMask :
    (mask : ℕ) (states : List UploadState) → IsMask mask → IfOk IsMask (add_filters mask states)
unfolding add_filters
add_filters-IsMask mask [] m = m
add_filters-IsMask mask (s ∷ states) m =
    pick (bit_and mask (filter_bit s) == 0)
      (add_filters-IsMask (bit_or mask (filter_bit s)) states (add-IsMask mask s (m.1)))
  where
    pick :
        (b : Bool)
        → IfOk IsMask (add_filters (bit_or mask (filter_bit s)) states)
        → IfOk IsMask (
            if b
            then add_filters (bit_or mask (filter_bit s)) states
            else err duplicate_list_state_filter)
    pick true h = h
    pick false h = tt

pub canonical-IsMask :
    (states : List UploadState) → IfOk IsMask (canonical_state_filter_mask states)
unfolding canonical_state_filter_mask add_filters
canonical-IsMask [] = (omega arith, omega arith)
canonical-IsMask (s ∷ states) =
    pick (bit_and 0 (filter_bit s) == 0)
      (add_filters-IsMask (bit_or 0 (filter_bit s)) states (add-IsMask 0 s (omega arith)))
  where
    pick :
        (b : Bool)
        → IfOk IsMask (add_filters (bit_or 0 (filter_bit s)) states)
        → IfOk IsMask (
            if b
            then add_filters (bit_or 0 (filter_bit s)) states
            else err duplicate_list_state_filter)
    pick true h = h
    pick false h = tt

-- The items of a listing have the ids of their rows, and these are positive.
abbrev pub Lists : List UploadJob → List UploadListItem → Type 0
Lists [] [] = Unit
Lists [] (i ∷ items) = ⊥
Lists (j ∷ jobs) [] = ⊥
Lists (j ∷ jobs) (i ∷ items) = (i.job.id ≡ j.id) × (0 < j.id) × Lists jobs items

module _ (platform : Platform) (store : UploadStore) where
  into_list_item_lem :
      (raw : UploadJob)
      → IfOk
          (λ (i : UploadListItem). (i.job.id ≡ raw.id) × (0 < raw.id))
          (into_list_item platform store raw)
  unfolding into_list_item job_id_from_database
  into_list_item_lem raw =
      let Q : UploadListItem → Type 0 = λ i. (i.job.id ≡ raw.id) × (0 < raw.id) in
      elim (Bool-cases (ltb 0 raw.id)) [
        | inr zero_id ↦ rw zero_id tt
        | inl positive ↦ rw positive (
            IfOk-then Q (ensure (length raw.sha256 == 32) (corrupt_artifact_identity raw.id)) _ λ u.
              IfOk-then Q
                (ensure (length raw.delivery_binding == 32) (corrupt_artifact_identity raw.id)) _
                λ u.
                  IfOk-then Q
                    (validate_stored_identity platform raw.id raw.artifact_path raw.filename
                      raw.idempotency_key raw.sha256 store.capture_root)
                    _ λ path. (refl, ltb→lt _ _ positive))
      ]

  pub collect_list_items-Lists :
      (jobs : List UploadJob) → IfOk (Lists jobs) (collect_list_items platform store jobs)
  unfolding collect_list_items
  collect_list_items-Lists [] = tt
  collect_list_items-Lists (j ∷ jobs) =
      let rest = collect_list_items-Lists jobs in
      IfOk-bind (λ (i : UploadListItem). (i.job.id ≡ j.id) × (0 < j.id)) (Lists (j ∷ jobs))
        (into_list_item platform store j) _ (into_list_item_lem j)
        λ i (same, positive).
          IfOk-bind (Lists jobs) (Lists (j ∷ jobs)) (collect_list_items platform store jobs) _ rest
            λ items r. (same, positive, r)
