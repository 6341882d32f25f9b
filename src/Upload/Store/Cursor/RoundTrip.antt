-- ===== src/Upload/Store/Cursor/RoundTrip.antt =====
-- A whole cursor is read back by the ledger that wrote it.
use Prim.Native.Nat.{bit_and}
use autopiercam.Base.{
  ℕ, ◌^◌, ◌<◌, ◌≡◌, refl, sym, true, false, [], ◌∷◌, ◌++◌, ◌==◌, length, length-append, take, drop,
  arith, All-append,
}
use autopiercam.Base.Bytes.{Bytes, bytes_eq, bytes_eq_refl}
use autopiercam.Upload.Store.Errors.{ok}
use autopiercam.Upload.Store.Platform.{Platform}
use autopiercam.Upload.Store.Identity.{hex_encode, be_bytes}
use autopiercam.Upload.Store.Cursor.{
  from_be_bytes, list_cursor_ledger_tag, list_cursor_mac, list_cursor_payload, encode_list_cursor,
  decode_fields, decode_bytes, decode_list_cursor,
}
use autopiercam.Upload.Store.Cursor.Digits.{
  IsBytes, IsDigest, hex_decode_exact-hex_encode, hex_encode-append, length-hex_encode,
  u64_read_back, u16_read_back, be_bytes-IsBytes, length-be_bytes, passes, passes_lem,
  constant_time_equal_refl, take_exact, drop_exact, length-take, take-IsBytes,
}

valid_masks : passes (λ mask. bit_and mask 224 == 0) 0 32 ≡ true
unfolding passes
valid_masks = refl

one_byte : (n : ℕ) → from_be_bytes 0 (n ∷ []) ≡ n
unfolding from_be_bytes
one_byte n = omega arith

module _ (platform : Platform) (digest : IsDigest platform) (ledger_id : Bytes) where
  length-tag : length (list_cursor_ledger_tag platform ledger_id) ≡ 8
  unfolding list_cursor_ledger_tag
  length-tag = length-take 8 _ (omega (arith, (digest _).0))

  tag-IsBytes : IsBytes (list_cursor_ledger_tag platform ledger_id)
  unfolding list_cursor_ledger_tag
  tag-IsBytes = take-IsBytes 8 _ (digest _).1

  length-mac : (payload : Bytes) → length (list_cursor_mac platform ledger_id payload) ≡ 16
  unfolding list_cursor_mac
  length-mac payload = length-take 16 _ (omega (arith, (digest _).0))

  mac-IsBytes : (payload : Bytes) → IsBytes (list_cursor_mac platform ledger_id payload)
  unfolding list_cursor_mac
  mac-IsBytes payload = take-IsBytes 16 _ (digest _).1

  module _ (revision high before mask size : ℕ) where
    abbrev fields : Bytes
    fields =
        be_bytes 8 revision ++ (be_bytes 8 high ++ (be_bytes 8 before ++ (mask ∷ be_bytes 2 size)))

    abbrev payload : Bytes
    payload = list_cursor_payload platform ledger_id revision high before mask size

    length-fields : length fields ≡ 27
    length-fields = omega (
      arith,
      length-append {0} (be_bytes 8 revision)
          (be_bytes 8 high ++ (be_bytes 8 before ++ (mask ∷ be_bytes 2 size))),
      length-append {0} (be_bytes 8 high) (be_bytes 8 before ++ (mask ∷ be_bytes 2 size)),
      length-append {0} (be_bytes 8 before) (mask ∷ be_bytes 2 size),
      length-be_bytes 8 revision,
      length-be_bytes 8 high,
      length-be_bytes 8 before,
      length-be_bytes 2 size,
    )

    length-payload : length payload ≡ 35
    unfolding list_cursor_payload
    length-payload = omega (
      arith,
      length-append {0} (list_cursor_ledger_tag platform ledger_id) fields,
      length-tag,
      length-fields,
    )

    payload-IsBytes : mask < 256 → IsBytes payload
    unfolding list_cursor_payload
    payload-IsBytes small =
        All-append (λ b. b < 256) _ fields tag-IsBytes
          (All-append (λ b. b < 256) (be_bytes 8 revision) _ (be_bytes-IsBytes 8 revision)
            (All-append (λ b. b < 256) (be_bytes 8 high) _ (be_bytes-IsBytes 8 high)
              (All-append (λ b. b < 256) (be_bytes 8 before) _ (be_bytes-IsBytes 8 before)
                (small, be_bytes-IsBytes 2 size))))

    decode_fields_lem :
        (tag : Bytes)
        → revision < 2 ^ 64
        → high < 2 ^ 64
        → before < 2 ^ 64
        → 0 < mask
        → mask < 32
        → size < 2 ^ 16
        → decode_fields platform tag fields
          ≡ ok (record {
            ledger_tag = tag;
            ledger_revision = revision;
            high_water_id = high;
            before_id = before;
            filter_mask = mask;
            page_size = size;
          })
    unfolding decode_fields be_bytes
    decode_fields_lem tag r h b p m s =
        let plain : from_be_bytes 0 (mask ∷ []) ≡ mask = one_byte mask in
        let valid : (bit_and mask 224 == 0) ≡ true =
          passes_lem _ 0 32 mask valid_masks (omega arith) m in
        let nonzero : (mask == 0) ≡ false = ground arith in
        rw (plain, nonzero, valid)
          (cc (
            u64_read_back revision r,
            u64_read_back high h,
            u64_read_back before b,
            u16_read_back size s,
          ))

    take_tag : take 8 payload ≡ list_cursor_ledger_tag platform ledger_id
    unfolding list_cursor_payload
    take_tag = take_exact 8 (list_cursor_ledger_tag platform ledger_id) fields length-tag

    drop_tag : drop 8 payload ≡ fields
    unfolding list_cursor_payload
    drop_tag = drop_exact 8 (list_cursor_ledger_tag platform ledger_id) fields length-tag

    decode_bytes_lem :
        revision < 2 ^ 64
        → high < 2 ^ 64
        → before < 2 ^ 64
        → 0 < mask
        → mask < 32
        → size < 2 ^ 16
        → decode_bytes platform ledger_id (payload ++ list_cursor_mac platform ledger_id payload)
          ≡ ok (record {
            ledger_tag = list_cursor_ledger_tag platform ledger_id;
            ledger_revision = revision;
            high_water_id = high;
            before_id = before;
            filter_mask = mask;
            page_size = size;
          })
    unfolding decode_bytes
    decode_bytes_lem r h b p m s =
        let mac = list_cursor_mac platform ledger_id payload in
        rw (take_exact 35 payload mac length-payload, drop_exact 35 payload mac length-payload)
          (rw (take_tag, bytes_eq_refl (list_cursor_ledger_tag platform ledger_id))
            (rw (constant_time_equal_refl mac (mac-IsBytes payload), drop_tag)
              (decode_fields_lem (list_cursor_ledger_tag platform ledger_id) r h b p m s)))

    -- With a digest of 32 bytes, a cursor is decoded by the ledger that wrote it to the tag of the ledger
    -- and the five numbers in it, where these fit their fields and the mask is one of a state filter.
    pub decode-encode_list_cursor :
        revision < 2 ^ 64
        → high < 2 ^ 64
        → before < 2 ^ 64
        → 0 < mask
        → mask < 32
        → size < 2 ^ 16
        → decode_list_cursor platform
            (encode_list_cursor platform ledger_id revision high before mask size)
            ledger_id
          ≡ ok (record {
            ledger_tag = list_cursor_ledger_tag platform ledger_id;
            ledger_revision = revision;
            high_water_id = high;
            before_id = before;
            filter_mask = mask;
            page_size = size;
          })
    unfolding decode_list_cursor encode_list_cursor bytes_eq
    decode-encode_list_cursor r h b p m s =
        let mac = list_cursor_mac platform ledger_id payload in
        let all_bytes =
          All-append (λ (b : ℕ). b < 256) payload mac (payload-IsBytes (omega arith))
            (mac-IsBytes payload) in
        let digits : hex_encode payload ++ hex_encode mac ≡ hex_encode (payload ++ mac) =
          sym (hex_encode-append payload mac) in
        let size_of : length (payload ++ mac) ≡ 51 =
          omega (arith, length-append {0} payload mac, length-payload, length-mac payload) in
        let whole : length (hex_encode (payload ++ mac)) ≡ 102 =
          omega (arith, length-hex_encode (payload ++ mac), size_of) in
        rw (digits, whole, hex_decode_exact-hex_encode 51 (payload ++ mac) size_of all_bytes)
          (decode_bytes_lem r h b p m s)
