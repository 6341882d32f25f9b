-- ===== src/Upload/Store/Operations/StaleCursors.antt =====
-- Every change of the ledger makes the cursors that were given out before stale.
use autopiercam.Base.{
  ℕ, ◌<◌, ◌≡◌, refl, sym, subst, Bool, true, false, not, ◌&&◌, some, List, ◌==◌, ==_iff, leb, ◌⊎◌,
  inl, inr, arith, is_none_or, &&-true,
}
use autopiercam.Base.Bytes.{Bytes, bytes_eq}
use autopiercam.Upload.Store.Errors.{
  i64_max, Result, ok, err, ensure, ◌>>=◌, ◌>>◌, IfOk, IfOk-known, IfOk-ensure, IfOk-const,
  stale_list_cursor, invalid_list_page_size, invalid_schema, list_cursor_parameters_mismatch,
  invalid_list_cursor,
}
use autopiercam.Upload.Store.States.{UploadState}
use autopiercam.Upload.Store.Platform.{Platform}
use autopiercam.Upload.Store.Ledger.{UploadMetadata, Ledger}
use autopiercam.Upload.Store.Claims.{UploadStore}
use autopiercam.Upload.Store.Cursor.{
  canonical_state_filter_mask, list_cursor_ledger_tag, decode_list_cursor, DecodedListCursor,
}
use autopiercam.Upload.Store.Listing.{
  UploadListPage, list_jobs, page_start, check_cursor, max_id, page_of, listed_jobs,
}
use autopiercam.Upload.Store.History.{IsSound}
use autopiercam.Upload.Store.Operations.{Operation, run_operations}
use autopiercam.Upload.Store.Operations.Evolution.{run_operations-Evolves}
use autopiercam.Upload.Store.Operations.Recorded.{IsFresh}

module _ (platform : Platform) (store : UploadStore) where
  -- What the acceptance of a cursor shows.
  record IsAccepted (filters : List UploadState) (n : ℕ) (cursor : Bytes) (m : UploadMetadata)
      : Type 0 where
    pub mask : ℕ
    pub decoded : DecodedListCursor
    pub page_size : (leb 1 n && leb n 100) ≡ true
    pub ledger : bytes_eq m.ledger_id store.ledger_id ≡ true
    pub is_mask : canonical_state_filter_mask filters ≡ ok mask
    pub reads : decode_list_cursor platform cursor m.ledger_id ≡ ok decoded
    pub revision : decoded.ledger_revision ≡ m.ledger_revision

  check_cursor-revision :
      (d : DecodedListCursor) (m : UploadMetadata) (mask n high : ℕ)
      → IfOk
          (λ _. d.ledger_revision ≡ m.ledger_revision)
          (check_cursor platform store d m mask n high)
  unfolding check_cursor
  check_cursor-revision d m mask n high =
      let Q : Unit {0} → Type 0 = λ _. d.ledger_revision ≡ m.ledger_revision in
      IfOk-ensure Q
        (bytes_eq d.ledger_tag (list_cursor_ledger_tag platform m.ledger_id)
          && d.ledger_revision == m.ledger_revision)
        stale_list_cursor _
        λ h.
          IfOk-ensure Q (d.filter_mask == mask && d.page_size == n) list_cursor_parameters_mismatch
            _
            λ _.
              IfOk-const _ ((==_iff _ _).0 (&&-true _ (d.ledger_revision == m.ledger_revision) h).1)

  list_jobs-IsAccepted :
      (filters : List UploadState) (n : ℕ) (cursor : Bytes) (l : Ledger)
      → IfOk
          (λ (p : UploadListPage). IsAccepted filters n cursor (l.metadata))
          (list_jobs platform store filters n (some cursor) l)
  unfolding list_jobs page_start
  list_jobs-IsAccepted filters n cursor l =
      let m : UploadMetadata = l.metadata in
      let Q : UploadListPage → Type 0 = λ p. IsAccepted filters n cursor m in
      IfOk-ensure Q (leb 1 n && leb n 100) invalid_list_page_size _ λ page_size.
        IfOk-ensure Q (bytes_eq m.ledger_id store.ledger_id) invalid_schema _ λ ledger.
          IfOk-known Q (canonical_state_filter_mask filters) _ λ mask is_mask.
            started mask page_size ledger is_mask (decode_list_cursor platform cursor m.ledger_id)
              refl
    where
      started :
          (mask : ℕ)
          → (leb 1 n && leb n 100) ≡ true
          → bytes_eq l.metadata.ledger_id store.ledger_id ≡ true
          → canonical_state_filter_mask filters ≡ ok mask
          → (r : Result DecodedListCursor)
          → decode_list_cursor platform cursor l.metadata.ledger_id ≡ r
          → IfOk
              (λ (p : UploadListPage). IsAccepted filters n cursor (l.metadata))
              (do
                (high, before) ← (do
                  decoded ← r
                  check_cursor platform store decoded (l.metadata) mask n (max_id l.jobs)
                  ok (decoded.high_water_id, some decoded.before_id))
                ensure
                    (leb high i64_max && is_none_or before (λ b. leb b i64_max))
                    invalid_list_cursor
                page_of platform store
                    (l.metadata)
                    high
                    mask
                    n
                    (listed_jobs high before mask l.jobs))
      started mask page_size ledger is_mask (err e) reads = tt
      started mask page_size ledger is_mask (ok d) reads =
          checked (check_cursor platform store d (l.metadata) mask n (max_id l.jobs))
            (check_cursor-revision d (l.metadata) mask n (max_id l.jobs))
        where
          checked :
              (c : Result (Unit {0}))
              → IfOk (λ _. d.ledger_revision ≡ l.metadata.ledger_revision) c
              → IfOk
                  (λ (p : UploadListPage). IsAccepted filters n cursor (l.metadata))
                  (do
                    (high, before) ← (do c; ok (d.high_water_id, some d.before_id))
                    ensure
                        (leb high i64_max && is_none_or before (λ b. leb b i64_max))
                        invalid_list_cursor
                    page_of platform store
                        (l.metadata)
                        high
                        mask
                        n
                        (listed_jobs high before mask l.jobs))
          checked (err e) h = tt
          checked (ok u) h =
              IfOk-const
                (ensure (leb d.high_water_id i64_max && leb d.before_id i64_max) invalid_list_cursor
                  >> page_of platform store (l.metadata) (d.high_water_id) mask n
                      (listed_jobs (d.high_water_id) (some (d.before_id)) mask l.jobs))
                record {
                  mask = mask;
                  decoded = d;
                  page_size = page_size;
                  ledger = ledger;
                  is_mask = is_mask;
                  reads = reads;
                  revision = h;
                }

  stale_check :
      (d : DecodedListCursor) (m : UploadMetadata) (mask n high : ℕ)
      → (d.ledger_revision == m.ledger_revision) ≡ false
      → check_cursor platform store d m mask n high ≡ err stale_list_cursor
  unfolding check_cursor
  stale_check d m mask n high other =
      pick (bytes_eq d.ledger_tag (list_cursor_ledger_tag platform m.ledger_id))
    where
      pick :
          (b : Bool)
          → (do
            ensure (b && d.ledger_revision == m.ledger_revision) stale_list_cursor
            ensure (d.filter_mask == mask && d.page_size == n) list_cursor_parameters_mismatch
            ensure
                (not (d.high_water_id == 0)
                  && not (d.before_id == 0)
                  && leb d.before_id d.high_water_id
                  && leb d.high_water_id high)
                invalid_list_cursor)
            ≡ err stale_list_cursor
      pick true = rw other refl
      pick false = refl

  -- A cursor of another revision is refused.
  refused_cursor :
      (filters : List UploadState) (n : ℕ) (cursor : Bytes) (l l' : Ledger)
      → IsAccepted filters n cursor (l.metadata)
      → l'.metadata.ledger_id ≡ l.metadata.ledger_id
      → l.metadata.ledger_revision < l'.metadata.ledger_revision
      → list_jobs platform store filters n (some cursor) l' ≡ err stale_list_cursor
  unfolding list_jobs page_start
  refused_cursor filters n cursor l l' a same newer =
      let ledger' : bytes_eq l'.metadata.ledger_id store.ledger_id ≡ true =
        subst (λ (i : Bytes). bytes_eq i store.ledger_id ≡ true) (sym same) (a.ledger) in
      let reads' : decode_list_cursor platform cursor l'.metadata.ledger_id ≡ ok (a.decoded) =
        subst (λ (i : Bytes). decode_list_cursor platform cursor i ≡ ok (a.decoded)) (sym same)
          (a.reads) in
      let other : (a.decoded.ledger_revision == l'.metadata.ledger_revision) ≡ false =
        differs _ _ (omega (arith, a.revision, newer)) in
      rw
        (
          a.page_size,
          ledger',
          a.is_mask,
          reads',
          stale_check (a.decoded) (l'.metadata) (a.mask) n (max_id l'.jobs) other,
        )
        refl
    where
      differs : (x y : ℕ) → x < y → (x == y) ≡ false
      differs x y h = ground arith

  -- If SQLite gives each new row an id that no row has, a cursor that a sound ledger accepts is refused
  -- as stale after any operations that change the ledger.
  pub stale_cursor :
      IsFresh platform
      → (filters : List UploadState) (n : ℕ) (cursor : Bytes)
        (operations : List (UploadStore × Operation)) (l : Ledger) (page : UploadListPage)
      → IsSound l
      → list_jobs platform store filters n (some cursor) l ≡ ok page
      → (run_operations platform operations l ≡ l)
        ⊎ (list_jobs platform store filters n (some cursor) (run_operations platform operations l)
            ≡ err stale_list_cursor)
  stale_cursor fresh filters n cursor operations l page sound accepted =
      let evolved = run_operations-Evolves platform fresh operations l sound in
      let a =
        subst (IfOk (λ (p : UploadListPage). IsAccepted filters n cursor (l.metadata))) accepted
          (list_jobs-IsAccepted filters n cursor l) in
      pick a (evolved.ledger_id) (evolved.revision)
    where
      after : Ledger
      after = run_operations platform operations l

      pick :
          IsAccepted filters n cursor (l.metadata)
          → after.metadata.ledger_id ≡ l.metadata.ledger_id
          → (after ≡ l) ⊎ (l.metadata.ledger_revision < after.metadata.ledger_revision)
          → (after ≡ l)
            ⊎ (list_jobs platform store filters n (some cursor) after ≡ err stale_list_cursor)
      pick a same (inl unchanged) = inl unchanged
      pick a same (inr newer) = inr (refused_cursor filters n cursor l after a same newer)
