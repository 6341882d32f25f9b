-- ===== src/Upload/Store/Listing/Positions.antt =====
-- Where a page starts: the cursor behind the last one, read back.
use autopiercam.Base.{ℕ, ◌≤◌, ◌<◌, ◌≡◌, refl, true, false, some, ◌==◌, leb, arith}
use autopiercam.Base.Bytes.{Bytes, bytes_eq_refl}
use autopiercam.Upload.Store.Errors.{ok, i64_max}
use autopiercam.Upload.Store.Platform.{Platform}
use autopiercam.Upload.Store.Ledger.{UploadMetadata}
use autopiercam.Upload.Store.Claims.{UploadStore}
use autopiercam.Upload.Store.Cursor.{encode_list_cursor, decode_list_cursor, list_cursor_ledger_tag}
use autopiercam.Upload.Store.Cursor.Digits.{IsDigest}
use autopiercam.Upload.Store.Cursor.RoundTrip.{decode-encode_list_cursor}
use autopiercam.Upload.Store.Listing.{page_start, check_cursor}
use autopiercam.Upload.Store.Listing.Cursors.{IsMask}

module _ (platform : Platform) (digest : IsDigest platform) (store : UploadStore) where
  -- The five numbers of a cursor fit their fields.
  pub record Fits (m : UploadMetadata) (high before mask n : ℕ) : Type 0 where
    pub revision : m.ledger_revision ≤ i64_max
    pub high_fits : high ≤ i64_max
    pub before_fits : before ≤ high
    pub positive : 0 < before
    pub is_mask : IsMask mask
    pub page_size : n ≤ 100

  abbrev pub cursor_at : UploadMetadata → (high before mask n : ℕ) → Bytes
  cursor_at m high before mask n =
      encode_list_cursor platform m.ledger_id m.ledger_revision high before mask n

  decode_cursor_at :
      (m : UploadMetadata) (high before mask n : ℕ)
      → Fits m high before mask n
      → decode_list_cursor platform (cursor_at m high before mask n) m.ledger_id
        ≡ ok (record {
          ledger_tag = list_cursor_ledger_tag platform m.ledger_id;
          ledger_revision = m.ledger_revision;
          high_water_id = high;
          before_id = before;
          filter_mask = mask;
          page_size = n;
        })
  decode_cursor_at m high before mask n f =
      decode-encode_list_cursor platform digest (m.ledger_id) (m.ledger_revision) high before mask n
        (omega (arith, f.revision)) (omega (arith, f.high_fits))
        (omega (arith, f.high_fits, f.before_fits)) (f.is_mask.0) (f.is_mask.1)
        (omega (arith, f.page_size))

  same_number : (a : ℕ) → (a == a) ≡ true
  same_number a = ground arith

  nonzero : (a : ℕ) → 0 < a → (a == 0) ≡ false
  nonzero a h = ground arith

  pub below : (a b : ℕ) → a ≤ b → leb a b ≡ true
  below a b h = ground arith

  -- While the ledger is unchanged, a cursor leads on.
  pub page_start_at :
      (m : UploadMetadata) (high before mask n : ℕ)
      → Fits m high before mask n
      → page_start platform store (some (cursor_at m high before mask n)) m mask n high
        ≡ ok (high, some before)
  unfolding page_start check_cursor
  page_start_at m high before mask n f =
      rw
        (
          decode_cursor_at m high before mask n f,
          bytes_eq_refl (list_cursor_ledger_tag platform m.ledger_id),
          same_number (m.ledger_revision),
          same_number mask,
          same_number n,
          nonzero high (omega (arith, f.positive, f.before_fits)),
          nonzero before (f.positive),
          below before high (f.before_fits),
          below high high (omega arith),
        )
        refl
