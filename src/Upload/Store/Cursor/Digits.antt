-- ===== src/Upload/Store/Cursor/Digits.antt =====
-- The parts of a cursor are read back: hexadecimal digits and numbers of fixed width.
use Prim.Native.Nat.{bit_or, bit_xor}
use autopiercam.Base.{
  ◌+◌, Bool-cases, inl, inr, &&-true, ℕ, zero, suc, ◌*◌, ◌/◌, ◌%◌, ◌^◌, ◌≤◌, ◌<◌, ◌≡◌, refl, ap,
  subst, Bool, true, ◌&&◌, some, [], ◌∷◌, ◌++◌, ◌==◌, ==_iff, ltb, length, take, drop, take-append,
  drop-append, arith, All,
}
use autopiercam.Base.Bytes.{Bytes}
use autopiercam.Upload.Store.Platform.{Platform}
use autopiercam.Upload.Store.Identity.{hex_digit, hex_encode, be_bytes}
use autopiercam.Upload.Store.Cursor.{
  hex_nibble, hex_decode_pairs, is_ascii, hex_decode_exact, from_be_bytes, fold_difference,
  constant_time_equal,
}

abbrev pub IsBytes : Bytes → Type 0
IsBytes s = All (λ b. b < 256) s

-- SHA-256 returns 32 bytes.
abbrev pub IsDigest : Platform → Type 0
IsDigest platform = (s : Bytes) → (length (platform.sha256 s) ≡ 32) × IsBytes (platform.sha256 s)

hex_nibble-hex_digit : (n : ℕ) → n < 16 → hex_nibble (hex_digit n) ≡ some n
unfolding hex_nibble
hex_nibble-hex_digit n h = ground arith

hex_decode_pairs-hex_encode : (s : Bytes) → IsBytes s → hex_decode_pairs (hex_encode s) ≡ some s
unfolding hex_decode_pairs hex_encode
hex_decode_pairs-hex_encode [] h = refl
hex_decode_pairs-hex_encode (b ∷ s) (small, h) =
    rw
      (
        hex_nibble-hex_digit (b / 16) (omega arith),
        hex_nibble-hex_digit (b % 16) (omega arith),
        hex_decode_pairs-hex_encode s h,
      )
      (ap (λ (n : ℕ). some (n ∷ s)) (omega arith))

pub length-hex_encode : (s : Bytes) → length (hex_encode s) ≡ length s * 2
unfolding hex_encode
length-hex_encode [] = refl
length-hex_encode (b ∷ s) = omega (arith, length-hex_encode s)

hex_digit_ascii : (n : ℕ) → n < 16 → ltb (hex_digit n) 128 ≡ true
hex_digit_ascii n h = ground arith

is_ascii-hex_encode : (s : Bytes) → IsBytes s → is_ascii (hex_encode s) ≡ true
unfolding hex_encode
is_ascii-hex_encode [] h = refl
is_ascii-hex_encode (b ∷ s) (small, h) = cc (
  hex_digit_ascii (b / 16) (omega arith),
  hex_digit_ascii (b % 16) (omega arith),
  is_ascii-hex_encode s h,
)

pub hex_encode-append : (s t : Bytes) → hex_encode (s ++ t) ≡ hex_encode s ++ hex_encode t
unfolding hex_encode
hex_encode-append [] t = refl
hex_encode-append (b ∷ s) t =
    ap (λ r. hex_digit (b / 16) ∷ hex_digit (b % 16) ∷ r) (hex_encode-append s t)

pub hex_decode_exact-hex_encode :
    (size : ℕ) (s : Bytes)
    → length s ≡ size
    → IsBytes s
    → hex_decode_exact size (hex_encode s) ≡ some s
unfolding hex_decode_exact
hex_decode_exact-hex_encode size s n h =
    let fits : (length (hex_encode s) == size * 2) ≡ true =
      (==_iff _ _).1 (omega (arith, length-hex_encode s, n)) in
    rw (fits, is_ascii-hex_encode s h) (hex_decode_pairs-hex_encode s h)

pub u64_read_back : (n : ℕ) → n < 2 ^ 64 → from_be_bytes 0 (be_bytes 8 n) ≡ n
unfolding from_be_bytes be_bytes
u64_read_back n h = omega arith

pub u16_read_back : (n : ℕ) → n < 2 ^ 16 → from_be_bytes 0 (be_bytes 2 n) ≡ n
unfolding from_be_bytes be_bytes
u16_read_back n h = omega arith

pub be_bytes-IsBytes : (w n : ℕ) → IsBytes (be_bytes w n)
unfolding be_bytes
be_bytes-IsBytes zero n = tt
be_bytes-IsBytes (suc w) n = (omega arith, be_bytes-IsBytes w n)

pub length-be_bytes : (w n : ℕ) → length (be_bytes w n) ≡ w
unfolding be_bytes
length-be_bytes zero n = refl
length-be_bytes (suc w) n = omega (arith, length-be_bytes w n)

-- A test of so many numbers from the first on, by which a finite fact about bits is computed.
unfoldable pub passes : (ℕ → Bool) → (first count : ℕ) → Bool
passes test first zero = true
passes test first (suc count) = passes test (first + 1) count && test first

pub passes_lem :
    (test : ℕ → Bool) (first count value : ℕ)
    → passes test first count ≡ true
    → first ≤ value
    → value < first + count
    → test value ≡ true
unfolding passes
passes_lem test first zero value every above below = absurd (omega arith)
passes_lem test first (suc count) value every above below =
    let (later, now) = &&-true (passes test (first + 1) count) (test first) every in
    elim (Bool-cases (first == value)) [
      | inl same ↦ subst (λ (n : ℕ). test n ≡ true) ((==_iff first value).0 same) now
      | inr other ↦ passes_lem test (first + 1) count value later (ground arith) (omega arith)
    ]

no_difference : passes (λ b. bit_or 0 (bit_xor b b) == 0) 0 256 ≡ true
unfolding passes
no_difference = refl

fold_difference_refl : (s : Bytes) → IsBytes s → fold_difference 0 s s ≡ 0
unfolding fold_difference
fold_difference_refl [] h = refl
fold_difference_refl (b ∷ s) (small, h) =
    rw ((==_iff _ 0).0 (passes_lem _ 0 256 b no_difference (omega arith) small))
      (fold_difference_refl s h)

pub constant_time_equal_refl : (s : Bytes) → IsBytes s → constant_time_equal s s ≡ true
unfolding constant_time_equal
constant_time_equal_refl s h =
    cc ((==_iff (length s) (length s)).1 refl, (==_iff _ 0).1 (fold_difference_refl s h))

pub take_exact : (n : ℕ) (s t : Bytes) → length s ≡ n → take n (s ++ t) ≡ s
take_exact n s t h = subst (λ (k : ℕ). take k (s ++ t) ≡ s) h (take-append s t)

pub drop_exact : (n : ℕ) (s t : Bytes) → length s ≡ n → drop n (s ++ t) ≡ t
drop_exact n s t h = subst (λ (k : ℕ). drop k (s ++ t) ≡ t) h (drop-append s t)

pub length-take : (n : ℕ) (s : Bytes) → n ≤ length s → length (take n s) ≡ n
length-take zero s h = refl
length-take (suc n) [] h = absurd (omega arith)
length-take (suc n) (b ∷ s) h = omega (arith, length-take n s)

pub take-IsBytes : (n : ℕ) (s : Bytes) → IsBytes s → IsBytes (take n s)
take-IsBytes zero s h = tt
take-IsBytes (suc n) [] h = tt
take-IsBytes (suc n) (b ∷ s) (small, h) = (small, take-IsBytes n s h)
