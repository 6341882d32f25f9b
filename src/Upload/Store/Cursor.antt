-- ===== src/Upload/Store/Cursor.antt =====
-- The cursor of a listing: encode_list_cursor and decode_list_cursor, with the hexadecimal decoder and
-- the state filter. A cursor is the bytes of its text.
pub mod Digits
pub mod RoundTrip
use Prim.Native.Nat.{bit_and, bit_or, bit_xor}
use autopiercam.Base.{
  ℕ, zero, suc, ◌+◌, ◌-◌, ◌*◌, Bool, true, false, not, ◌&&◌, ◌||◌, Option, none, some, List, [],
  ◌∷◌, ◌++◌, ◌==◌, if◌then◌else◌, leb, ltb, length, take, drop, is_some_and,
}
use autopiercam.Base.Bytes.{Bytes, bytes, bytes_eq}
use autopiercam.Upload.Store.Errors.{
  Result, ok, err, ensure, ok_or, ◌>>=◌, ◌>>◌, invalid_list_cursor, stale_list_cursor,
  duplicate_list_state_filter,
}
use autopiercam.Upload.Store.States.{UploadState, filter_bit}
use autopiercam.Upload.Store.Platform.{Platform}
use autopiercam.Upload.Store.Identity.{hex_encode, be_bytes}

abbrev pub list_cursor_prefix : Bytes
list_cursor_prefix = bytes "apcu1_"

abbrev pub all_states_mask : ℕ
all_states_mask = 31

unfoldable pub hex_nibble : ℕ → Option ℕ
hex_nibble value =
    if leb b'0' value && leb value b'9'
    then some (value - b'0')
    else if leb b'a' value && leb value b'f'
    then some (value - b'a' + 10)
    else none

-- The loop of `hex_decode_exact`, over pairs of digits.
abbrev pub push_byte : ℕ → Option Bytes → Option Bytes
push_byte byte none = none
push_byte byte (some decoded) = some (byte ∷ decoded)

abbrev pub pair_byte : Option ℕ → Option ℕ → Option Bytes → Option Bytes
pair_byte none low rest = none
pair_byte (some high) none rest = none
pair_byte (some high) (some low) rest = push_byte (high * 16 + low) rest

unfoldable pub hex_decode_pairs : Bytes → Option Bytes
hex_decode_pairs [] = some []
hex_decode_pairs (digit ∷ []) = some []
hex_decode_pairs (high ∷ low ∷ rest) =
    pair_byte (hex_nibble high) (hex_nibble low) (hex_decode_pairs rest)

abbrev pub is_ascii : Bytes → Bool
is_ascii [] = true
is_ascii (b ∷ s) = ltb b 128 && is_ascii s

unfoldable pub hex_decode_exact : ℕ → Bytes → Option Bytes
hex_decode_exact size value =
    if not (length value == size * 2) || not (is_ascii value) then none else hex_decode_pairs value

-- `u64::from_be_bytes`
unfoldable pub from_be_bytes : ℕ → Bytes → ℕ
from_be_bytes value [] = value
from_be_bytes value (b ∷ rest) = from_be_bytes (value * 256 + b) rest

-- The fold of `constant_time_equal`.
unfoldable pub fold_difference : ℕ → Bytes → Bytes → ℕ
fold_difference difference [] right = difference
fold_difference difference (l ∷ left) [] = difference
fold_difference difference (l ∷ left) (r ∷ right) =
    fold_difference (bit_or difference (bit_xor l r)) left right

unfoldable pub constant_time_equal : Bytes → Bytes → Bool
constant_time_equal left right = length left == length right && fold_difference 0 left right == 0

-- The loop of `canonical_state_filter_mask`.
unfoldable pub add_filters : ℕ → List UploadState → Result ℕ
add_filters mask [] = ok mask
add_filters mask (state ∷ states) =
    let rest = add_filters (bit_or mask (filter_bit state)) states in
    if bit_and mask (filter_bit state) == 0 then rest else err duplicate_list_state_filter

unfoldable pub canonical_state_filter_mask : List UploadState → Result ℕ
canonical_state_filter_mask [] = ok all_states_mask
canonical_state_filter_mask (state ∷ states) = add_filters 0 (state ∷ states)

pub record DecodedListCursor : Type 0 where
  pub ledger_tag : Bytes
  pub ledger_revision : ℕ
  pub high_water_id : ℕ
  pub before_id : ℕ
  pub filter_mask : ℕ
  pub page_size : ℕ

module _ (platform : Platform) where
  unfoldable pub list_cursor_ledger_tag : Bytes → Bytes
  list_cursor_ledger_tag ledger_id =
      take 8 (platform.sha256 (bytes "autopiercam-upload-list-ledger-v1" ++ (0 ∷ ledger_id)))

  unfoldable pub list_cursor_mac : Bytes → Bytes → Bytes
  list_cursor_mac ledger_id payload =
      take 16 (
        platform.sha256 (bytes "autopiercam-upload-list-cursor-v1" ++ (0 ∷ (ledger_id ++ payload))))

  unfoldable pub list_cursor_payload : Bytes → (revision high before mask size : ℕ) → Bytes
  list_cursor_payload ledger_id revision high before mask size =
      list_cursor_ledger_tag ledger_id
      ++ (be_bytes 8 revision
          ++ (be_bytes 8 high ++ (be_bytes 8 before ++ (mask ∷ be_bytes 2 size))))

  unfoldable pub encode_list_cursor : Bytes → (revision high before mask size : ℕ) → Bytes
  encode_list_cursor ledger_id revision high before mask size =
      let payload = list_cursor_payload ledger_id revision high before mask size in
      list_cursor_prefix ++ (hex_encode payload ++ hex_encode (list_cursor_mac ledger_id payload))

  -- The end of `decode_list_cursor`, from the fields behind the ledger's tag.
  unfoldable pub decode_fields : Bytes → Bytes → Result DecodedListCursor
  decode_fields ledger_tag fields = do
    let mask : ℕ = from_be_bytes 0 (take 1 (drop 24 fields))
    ensure (not (mask == 0) && bit_and mask 224 == 0) invalid_list_cursor
    ok (record {
      ledger_tag = ledger_tag;
      ledger_revision = from_be_bytes 0 (take 8 fields);
      high_water_id = from_be_bytes 0 (take 8 (drop 8 fields));
      before_id = from_be_bytes 0 (take 8 (drop 16 fields));
      filter_mask = mask;
      page_size = from_be_bytes 0 (drop 25 fields);
    })

  unfoldable pub decode_bytes : Bytes → Bytes → Result DecodedListCursor
  decode_bytes ledger_id decoded = do
    let payload = take 35 decoded
    ensure (bytes_eq (take 8 payload) (list_cursor_ledger_tag ledger_id)) stale_list_cursor
    ensure (constant_time_equal (drop 35 decoded) (list_cursor_mac ledger_id payload))
        invalid_list_cursor
    decode_fields (take 8 payload) (drop 8 payload)

  unfoldable pub decode_list_cursor : Bytes → Bytes → Result DecodedListCursor
  decode_list_cursor cursor ledger_id = do
    ensure (length cursor == 108 && bytes_eq (take 6 cursor) list_cursor_prefix) invalid_list_cursor
    decoded ← ok_or (hex_decode_exact 51 (drop 6 cursor)) invalid_list_cursor
    decode_bytes ledger_id decoded
