-- ===== src/Upload/Store/Listing/Pages.antt =====
-- Following the cursors from page to page, and cursors that have become stale.
use autopiercam.Base.{
  ℕ, zero, suc, ◌+◌, ◌≤◌, ◌<◌, ◌≡◌, refl, sym, ap, subst, ◌∙◌, true, false, Option, none, some,
  List, [], ◌∷◌, ◌++◌, if◌then◌else◌, ltb, ltb→lt, take, drop, length, length-append, keep, All,
  All-of_append, arith, Bool-cases, inl, inr,
}
use mathlib.Core.List.{append_assoc}
use autopiercam.Base.Bytes.{Bytes, bytes_eq}
use autopiercam.Upload.Store.Errors.{Result, ok, IfOk, i64_max}
use autopiercam.Upload.Store.States.{UploadState}
use autopiercam.Upload.Store.Platform.{Platform}
use autopiercam.Upload.Store.Ledger.{UploadJob, UploadMetadata, Ledger}
use autopiercam.Upload.Store.Claims.{UploadStore}
use autopiercam.Upload.Store.Operator.{UploadListItem}
use autopiercam.Upload.Store.History.{IsSound}
use autopiercam.Upload.Store.Cursor.{canonical_state_filter_mask}
use autopiercam.Upload.Store.Cursor.Digits.{IsDigest}
use autopiercam.Upload.Store.Listing.{
  collect_list_items, last_id, page_of, list_jobs, listed_jobs, max_id, page_start,
}
use autopiercam.Upload.Store.Listing.Order.{
  Descending, IsDistinct-Apart, listed_jobs-below, listed_jobs-le, listed_jobs-Descending,
  keep-after,
}
use autopiercam.Upload.Store.Listing.Cursors.{
  IsMask, canonical-IsMask, Lists, collect_list_items-Lists,
}
use autopiercam.Upload.Store.Listing.Following.{
  EndsAt, page_end, collect-take, collect-drop, all_pages,
}
use autopiercam.Upload.Store.Listing.Positions.{Fits, cursor_at, page_start_at, below}

take-take : (n : ℕ) (items : List UploadListItem) → take n (take (suc n) items) ≡ take n items
take-take zero items = refl
take-take (suc n) [] = refl
take-take (suc n) (i ∷ items) = ap (λ r. i ∷ r) (take-take n items)

more-take :
    (n : ℕ) (items : List UploadListItem)
    → ltb n (length (take (suc n) items)) ≡ ltb n (length items)
more-take zero [] = refl
more-take zero (i ∷ items) = ground arith
more-take (suc n) [] = refl
more-take (suc n) (i ∷ items) = ground (arith, more-take n items)

take-all :
    (n : ℕ) (items : List UploadListItem) → ltb n (length items) ≡ false → take n items ≡ items
take-all zero [] h = refl
take-all zero (i ∷ items) h = ground arith
take-all (suc n) [] h = refl
take-all (suc n) (i ∷ items) h = ap (λ r. i ∷ r) (take-all n items (ground arith))

take-drop : (n : ℕ) (items : List UploadListItem) → take n items ++ drop n items ≡ items
take-drop zero items = refl
take-drop (suc n) [] = refl
take-drop (suc n) (i ∷ items) = ap (λ r. i ∷ r) (take-drop n items)

module _ (platform : Platform) (digest : IsDigest platform) (store : UploadStore) where
  -- A page of a listing whose rows are all valid.
  page_of_lem :
      (m : UploadMetadata) (high mask n : ℕ) (rest : List UploadJob) (items : List UploadListItem)
      → collect_list_items platform store rest ≡ ok items
      → page_of platform store m high mask n rest
        ≡ ok (record {
          ledger_id = m.ledger_id;
          ledger_revision = m.ledger_revision;
          jobs = take n items;
          next_cursor =
              if ltb n (length items)
              then some (cursor_at platform digest store m high (last_id (take n items)) mask n)
              else none;
        })
  unfolding page_of
  page_of_lem m high mask n rest items h =
      let one_more : n + 1 ≡ suc n = omega arith in
      rw
        (
          one_more,
          collect-take platform store (suc n) rest items h,
          take-take n items,
          more-take n items,
        )
        refl

  module _ (filters : List UploadState) (n mask : ℕ) (l : Ledger) (sound : IsSound l)
      (same : bytes_eq l.metadata.ledger_id store.ledger_id ≡ true)
      (ids_fit : max_id l.jobs ≤ i64_max) (positive : 1 ≤ n) (small : n ≤ 100)
      (is_mask : canonical_state_filter_mask filters ≡ ok mask) where
    abbrev high : ℕ
    high = max_id l.jobs

    abbrev whole : List UploadJob
    whole = listed_jobs high none mask l.jobs

    first_page :
        list_jobs platform store filters n none l
        ≡ page_of platform store (l.metadata) high mask n whole
    unfolding list_jobs page_start
    first_page =
        rw
          (
            below platform digest store 1 n positive,
            below platform digest store n 100 small,
            same,
            is_mask,
            below platform digest store high i64_max ids_fit,
          )
          refl

    next_page :
        (before : ℕ)
        → Fits platform digest store (l.metadata) high before mask n
        → list_jobs platform store filters n
            (some (cursor_at platform digest store (l.metadata) high before mask n))
            l
          ≡ page_of platform store
              (l.metadata)
              high
              mask
              n
              (listed_jobs high (some before) mask l.jobs)
    unfolding list_jobs
    next_page before f =
        rw
          (
            below platform digest store 1 n positive,
            below platform digest store n 100 small,
            same,
            is_mask,
            page_start_at platform digest store (l.metadata) high before mask n f,
            below platform digest store high i64_max ids_fit,
            below platform digest store before i64_max (omega (arith, f.before_fits)),
          )
          refl

    mask_fits : IsMask mask
    mask_fits = subst (IfOk IsMask) is_mask (canonical-IsMask filters)

    -- The cursor behind a page fits, and leads to what the page left.
    leads_on :
        (front : List UploadJob) (last : UploadJob) (others : List UploadJob)
        → whole ≡ front ++ last ∷ others
        → 0 < last.id
        → list_jobs platform store filters n
            (some (cursor_at platform digest store (l.metadata) high last.id mask n))
            l
          ≡ page_of platform store (l.metadata) high mask n others
    leads_on front last others splits is_positive =
        let apart = IsDistinct-Apart (l.jobs) (sound.ids) in
        let below_high =
          subst (All (λ (j : UploadJob). j.id ≤ high)) splits (listed_jobs-le high mask (l.jobs)) in
        let sorted = subst Descending splits (listed_jobs-Descending high mask (l.jobs) apart) in
        let rest : listed_jobs high (some (last.id)) mask (l.jobs) ≡ others =
          listed_jobs-below high (last.id) mask (l.jobs) apart
          ∙ (ap (keep (λ r. ltb r.id last.id)) splits ∙ keep-after front last others sorted) in
        next_page (last.id) record {
          revision = sound.revision;
          high_fits = ids_fit;
          before_fits = (All-of_append (λ j. j.id ≤ high) front (last ∷ others) below_high).1.0;
          positive = is_positive;
          is_mask = mask_fits;
          page_size = small;
        }
        ∙ ap (page_of platform store (l.metadata) high mask n) rest

    follow :
        (fuel k : ℕ) (front rest : List UploadJob) (items : List UploadListItem)
        (cursor : Option Bytes)
        → n ≡ suc k
        → whole ≡ front ++ rest
        → list_jobs platform store filters n cursor l
          ≡ page_of platform store (l.metadata) high mask n rest
        → collect_list_items platform store rest ≡ ok items
        → length rest < fuel
        → all_pages platform store fuel filters n cursor l ≡ ok items
    unfolding all_pages
    follow zero k front rest items cursor is_n split page collected enough = absurd (omega arith)
    follow (suc fuel) k front rest items cursor is_n split page collected enough =
        elim (Bool-cases (ltb n (length items))) [
          | inr last_page ↦
              rw (page, page_of_lem (l.metadata) high mask n rest items collected, last_page)
                (ap (λ (r : List UploadListItem). let x : Result (List UploadListItem) = ok r in x)
                  (take-all n items last_page))
          | inl more ↦
              let e = ended more in
              let here = splits_here e in
              let rec =
                follow fuel k ((front ++ e.front) ++ e.last ∷ []) (e.others) (drop n items)
                  (some (cursor_at platform digest store (l.metadata) high e.last.id mask n)) is_n
                  (here ∙ sym (append_assoc (front ++ e.front) (e.last ∷ []) (e.others)))
                  (leads_on (front ++ e.front) (e.last) (e.others) here (e.positive))
                  (ap (collect_list_items platform store) (sym (e.dropped))
                    ∙ collect-drop platform store n rest items collected)
                  (shorter e) in
              rw
                (
                  page,
                  page_of_lem (l.metadata) high mask n rest items collected,
                  more,
                  last_of e,
                  rec,
                )
                (ap (λ (r : List UploadListItem). let x : Result (List UploadListItem) = ok r in x)
                  (take-drop n items))
        ]
      where
        ended : ltb n (length items) ≡ true → EndsAt n rest (take (suc n) items)
        ended more =
            subst (λ (m : ℕ). EndsAt m rest (take (suc m) items)) (sym is_n)
              (page_end k rest (take (suc (suc k)) items)
                (subst (IfOk (Lists (take (suc (suc k)) rest)))
                  (collect-take platform store (suc (suc k)) rest items collected)
                  (collect_list_items-Lists platform store (take (suc (suc k)) rest)))
                (ltb→lt _ _ (
                  subst (λ (m : ℕ). ltb m (length (take (suc m) items)) ≡ true) is_n
                    (more-take n items ∙ more))))

        splits_here :
            (e : EndsAt n rest (take (suc n) items))
            → whole ≡ (front ++ e.front) ++ e.last ∷ e.others
        splits_here e =
            split
            ∙ (ap (λ r. front ++ r) (e.splits)
                ∙ sym (append_assoc front (e.front) (e.last ∷ e.others)))

        last_of : (e : EndsAt n rest (take (suc n) items)) → last_id (take n items) ≡ e.last.id
        last_of e = ap last_id (sym (take-take n items)) ∙ e.is_last

        shorter : (e : EndsAt n rest (take (suc n) items)) → length e.others < fuel
        shorter e =
            omega
              (arith, ap length (e.splits), length-append {0} (e.front) (e.last ∷ e.others), enough)

    -- With a digest of 32 bytes, on a sound ledger of the store, whose ids are integers of SQLite and
    -- whose rows in the chosen states are valid, the pages of any allowed size that follow from cursor to
    -- cursor are together the whole listing: each row in a chosen state once, the newest first.
    pub all_pages_lem :
        (fuel : ℕ) (items : List UploadListItem)
        → collect_list_items platform store whole ≡ ok items
        → length whole < fuel
        → all_pages platform store fuel filters n none l ≡ ok items
    all_pages_lem fuel items collected enough = start n refl
      where
        start : (m : ℕ) → n ≡ m → all_pages platform store fuel filters n none l ≡ ok items
        start zero e = absurd (omega (arith, positive, e))
        start (suc k) e = follow fuel k [] whole items none e refl first_page collected enough
