-- ===== src/Upload/Store/Listing.antt =====
-- list_jobs: pages of the ledger, the newest jobs first.
pub mod Order
pub mod Cursors
pub mod Following
pub mod Positions
pub mod Pages
use Prim.Native.Nat.{bit_and}
use autopiercam.Base.{
  ℕ, zero, suc, ◌+◌, Bool, true, false, not, ◌&&◌, ◌||◌, Option, none, some, List, [], ◌∷◌, ◌==◌,
  if◌then◌else◌, leb, ltb, length, take, keep, is_none_or,
}
use autopiercam.Base.Bytes.{Bytes, bytes_eq}
use autopiercam.Upload.Store.Errors.{
  Result, ok, err, ensure, ok_or, ◌>>=◌, ◌>>◌, invalid_list_cursor, stale_list_cursor,
  invalid_schema, list_cursor_parameters_mismatch, invalid_list_page_size, i64_max,
}
use autopiercam.Upload.Store.States.{UploadState, filter_bit}
use autopiercam.Upload.Store.Platform.{Platform}
use autopiercam.Upload.Store.Ledger.{UploadJob, UploadMetadata, Ledger}
use autopiercam.Upload.Store.Claims.{UploadStore}
use autopiercam.Upload.Store.Operator.{UploadListItem, into_list_item}
use autopiercam.Upload.Store.Cursor.{
  canonical_state_filter_mask, list_cursor_ledger_tag, encode_list_cursor, decode_list_cursor,
  DecodedListCursor,
}

pub record UploadListPage : Type 0 where
  pub ledger_id : Bytes
  pub ledger_revision : ℕ
  pub jobs : List UploadListItem
  pub next_cursor : Option Bytes

-- `COALESCE((SELECT MAX(id) FROM upload_jobs), 0)`
unfoldable pub max_id : List UploadJob → ℕ
max_id [] = 0
max_id (job ∷ jobs) = let rest = max_id jobs in if ltb rest job.id then job.id else rest

-- `ORDER BY id DESC`
unfoldable pub insert_newest : UploadJob → List UploadJob → List UploadJob
insert_newest job [] = job ∷ []
insert_newest job (first ∷ rest) =
    if ltb first.id job.id then job ∷ first ∷ rest else first ∷ insert_newest job rest

unfoldable pub newest_first : List UploadJob → List UploadJob
newest_first [] = []
newest_first (job ∷ jobs) = insert_newest job (newest_first jobs)

-- The WHERE clause of the query.
abbrev pub is_listed : ℕ → Option ℕ → ℕ → UploadJob → Bool
is_listed high before mask job =
    leb job.id high
    && is_none_or before (λ b. ltb job.id b)
    && not (bit_and mask (filter_bit job.state) == 0)

abbrev pub listed_jobs : ℕ → Option ℕ → ℕ → List UploadJob → List UploadJob
listed_jobs high before mask jobs = newest_first (keep (is_listed high before mask) jobs)

-- The id of the last item of a page.
abbrev pub last_id : List UploadListItem → ℕ
last_id [] = 0
last_id (item ∷ []) = item.job.id
last_id (item ∷ next ∷ rest) = last_id (next ∷ rest)

-- `collect_list_items`
module _ (platform : Platform) (store : UploadStore) where
  unfoldable pub collect_list_items : List UploadJob → Result (List UploadListItem)
  collect_list_items [] = ok []
  collect_list_items (job ∷ jobs) = do
    item ← into_list_item platform store job
    items ← collect_list_items jobs
    ok (item ∷ items)

  -- The checks of a cursor against the ledger and the request.
  unfoldable pub check_cursor :
      DecodedListCursor → UploadMetadata → (mask page_size high : ℕ) → Result (Unit {0})
  check_cursor decoded m mask page_size high = do
    ensure
        (bytes_eq decoded.ledger_tag (list_cursor_ledger_tag platform m.ledger_id)
          && decoded.ledger_revision == m.ledger_revision)
        stale_list_cursor
    ensure (decoded.filter_mask == mask && decoded.page_size == page_size)
        list_cursor_parameters_mismatch
    ensure
        (not (decoded.high_water_id == 0)
          && not (decoded.before_id == 0)
          && leb decoded.before_id decoded.high_water_id
          && leb decoded.high_water_id high)
        invalid_list_cursor

  -- The high-water id, and the id before which the page starts.
  unfoldable pub page_start :
      Option Bytes → UploadMetadata → (mask page_size high : ℕ) → Result (ℕ × Option ℕ)
  page_start none m mask page_size high = ok (high, none)
  page_start (some cursor) m mask page_size high = do
    decoded ← decode_list_cursor platform cursor m.ledger_id
    check_cursor decoded m mask page_size high
    ok (decoded.high_water_id, some decoded.before_id)

  -- The page at the head of what is left to list.
  unfoldable pub page_of :
      UploadMetadata → (high mask page_size : ℕ) → List UploadJob → Result UploadListPage
  page_of m high mask page_size rest = do
    fetched ← collect_list_items (take (page_size + 1) rest)
    let page = take page_size fetched
    let next =
        encode_list_cursor platform m.ledger_id m.ledger_revision high (last_id page) mask page_size
    ok (record {
      ledger_id = m.ledger_id;
      ledger_revision = m.ledger_revision;
      jobs = page;
      next_cursor = if ltb page_size (length fetched) then some next else none;
    })

  unfoldable pub list_jobs : List UploadState → ℕ → Option Bytes → Ledger → Result UploadListPage
  list_jobs state_filters page_size cursor l = do
    ensure (leb 1 page_size && leb page_size 100) invalid_list_page_size
    ensure (bytes_eq l.metadata.ledger_id store.ledger_id) invalid_schema
    mask ← canonical_state_filter_mask state_filters
    (high, before) ← page_start cursor l.metadata mask page_size (max_id l.jobs)
    ensure (leb high i64_max && is_none_or before (λ b. leb b i64_max)) invalid_list_cursor
    page_of l.metadata high mask page_size (listed_jobs high before mask l.jobs)
