-- ===== src/Upload/Store/Listing/Following.antt =====
-- The part of a listing that a page holds, and the cursor to what follows it.
use autopiercam.Base.{
  ℕ, zero, suc, ◌<◌, ◌≡◌, refl, sym, ap, ◌∙◌, Option, none, some, List, [], ◌∷◌, ◌++◌, take, drop,
  length, arith,
}
use autopiercam.Base.Bytes.{Bytes}
use autopiercam.Upload.Store.Errors.{Result, ok, err, ◌>>=◌, invalid_list_cursor}
use autopiercam.Upload.Store.States.{UploadState}
use autopiercam.Upload.Store.Platform.{Platform}
use autopiercam.Upload.Store.Ledger.{UploadJob, Ledger}
use autopiercam.Upload.Store.Claims.{UploadStore}
use autopiercam.Upload.Store.Operator.{UploadListItem, into_list_item}
use autopiercam.Upload.Store.Listing.{collect_list_items, last_id, list_jobs}
use autopiercam.Upload.Store.Listing.Cursors.{Lists}

-- The row at which a page of `n` items ends.
pub record EndsAt (n : ℕ) (rest : List UploadJob) (items : List UploadListItem) : Type 0 where
  pub front : List UploadJob
  pub last : UploadJob
  pub others : List UploadJob
  pub splits : rest ≡ front ++ last ∷ others
  pub dropped : drop n rest ≡ others
  pub is_last : last_id (take n items) ≡ last.id
  pub positive : 0 < last.id

pub page_end :
    (k : ℕ) (rest : List UploadJob) (items : List UploadListItem)
    → Lists (take (suc (suc k)) rest) items
    → suc k < length items
    → EndsAt (suc k) rest items
page_end k [] [] l h = absurd (omega arith)
page_end k [] (i ∷ items) l h = absurd l
page_end k (j ∷ rest) [] l h = absurd (omega arith)
page_end zero (j ∷ rest) (i ∷ items) (same, positive, l) h = record {
  front = [];
  last = j;
  others = rest;
  splits = refl;
  dropped = refl;
  is_last = same;
  positive = positive;
}
page_end (suc k) (j ∷ rest) (i ∷ items) (same, positive, l) h =
    let e = page_end k rest items l (omega arith) in
    record {
      front = j ∷ e.front;
      last = e.last;
      others = e.others;
      splits = ap (λ r. j ∷ r) (e.splits);
      dropped = e.dropped;
      is_last = skip items (omega arith) ∙ e.is_last;
      positive = e.positive;
    }
  where
    skip :
        (items : List UploadListItem)
        → 0 < length items
        → last_id (take (suc (suc k)) (i ∷ items)) ≡ last_id (take (suc k) items)
    skip [] h = absurd (omega arith)
    skip (i2 ∷ items) h = refl

-- What a listing of valid rows collects, its parts collect.
module _ (platform : Platform) (store : UploadStore) where
  -- The first row of a collected listing, and the others.
  collect-cons :
      (j : UploadJob) (rest : List UploadJob) (items : List UploadListItem)
      → collect_list_items platform store (j ∷ rest) ≡ ok items
      → (i : UploadListItem) × (others : List UploadListItem) × (into_list_item platform store j
          ≡ ok i)
        × (collect_list_items platform store rest ≡ ok others)
        × (items ≡ i ∷ others)
  unfolding collect_list_items
  collect-cons j rest items h =
      split (into_list_item platform store j) (collect_list_items platform store rest) h
    where
      chain : Result UploadListItem → Result (List UploadListItem) → Result (List UploadListItem)
      chain a b = do i ← a; others ← b; ok (i ∷ others)

      split :
          (a : Result UploadListItem) (b : Result (List UploadListItem))
          → chain a b ≡ ok items
          → (i : UploadListItem) × (others : List UploadListItem) × (a ≡ ok i)
            × (b ≡ ok others)
            × (items ≡ i ∷ others)
      split (ok i) (ok others) h = (i, others, refl, refl, cc (h))
      split (ok i) (err e) h = cc (h)
      split (err e) b h = cc (h)

  pub collect-take :
      (k : ℕ) (rest : List UploadJob) (items : List UploadListItem)
      → collect_list_items platform store rest ≡ ok items
      → collect_list_items platform store (take k rest) ≡ ok (take k items)
  unfolding collect_list_items
  collect-take zero rest items h = refl
  collect-take (suc k) [] items h = cc (h)
  collect-take (suc k) (j ∷ rest) items h =
      let (i, others, a, b, e) = collect-cons j rest items h in
      rw (a, collect-take k rest others b)
        (ap
          (λ (l : List UploadListItem).
            let r : Result (List UploadListItem) = ok (take (suc k) l) in r)
          (sym e))

  pub collect-drop :
      (k : ℕ) (rest : List UploadJob) (items : List UploadListItem)
      → collect_list_items platform store rest ≡ ok items
      → collect_list_items platform store (drop k rest) ≡ ok (drop k items)
  unfolding collect_list_items
  collect-drop zero rest items h = h
  collect-drop (suc k) [] items h = let none_left : items ≡ [] = cc (h) in rw none_left refl
  collect-drop (suc k) (j ∷ rest) items h =
      let (i, others, a, b, e) = collect-cons j rest items h in rw e (collect-drop k rest others b)

  -- Reading a listing page by page, each page by the cursor of the one before.
  unfoldable pub all_pages :
      ℕ → List UploadState → ℕ → Option Bytes → Ledger → Result (List UploadListItem)
  all_pages zero filters n cursor l = err invalid_list_cursor
  all_pages (suc fuel) filters n cursor l = do
    page ← list_jobs platform store filters n cursor l
    elim page.next_cursor [
      | none ↦ ok page.jobs
      | some next ↦ do rest ← all_pages fuel filters n (some next) l; ok (page.jobs ++ rest)
    ]
