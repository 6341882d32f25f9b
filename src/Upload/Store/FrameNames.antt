-- ===== src/Upload/Store/FrameNames.antt =====
-- parse_generated_frame_filename, which knows a capture by its name, and capture_filename_at
-- (crates/autopiercam/src/lib.rs), which names a capture. Texts are their bytes.
use autopiercam.Base.{
  ℕ, zero, suc, ◌+◌, ◌-◌, ◌*◌, ◌/◌, ◌%◌, Bool, true, not, ◌&&◌, ◌||◌, Option, none, some, List, [],
  ◌∷◌, ◌++◌, ◌==◌, if◌then◌else◌, leb, ltb, is_some, is_some_and, map_option, length, u64_max,
}
use autopiercam.Base.Bytes.{Bytes, bytes, bytes_eq}

abbrev pub is_ascii_digit : ℕ → Bool
is_ascii_digit byte = leb b'0' byte && leb byte b'9'

abbrev pub is_nonce_digit : ℕ → Bool
is_nonce_digit byte = is_ascii_digit byte || (leb b'a' byte && leb byte b'f')

-- `s.bytes().all(p)`
abbrev pub every : (ℕ → Bool) → Bytes → Bool
every p [] = true
every p (b ∷ s) = p b && every p s

-- `s.strip_suffix(suffix)`
unfoldable pub strip_suffix : Bytes → Bytes → Option Bytes
strip_suffix suffix [] = if bytes_eq [] suffix then some [] else none
strip_suffix suffix (b ∷ s) =
    if bytes_eq (b ∷ s) suffix
    then some []
    else map_option (λ front. b ∷ front) (strip_suffix suffix s)

abbrev pub ends_with : Bytes → Bytes → Bool
ends_with suffix s = is_some (strip_suffix suffix s)

-- `a.or_else(|| b)`
abbrev or_else {ℓ} : {A : Type ℓ} → Option A → Option A → Option A
or_else none b = b
or_else (some a) b = some a

unfoldable pub frame_stem : Bytes → Option Bytes
frame_stem filename = or_else (strip_suffix (bytes ".jpg") filename) (
    or_else (strip_suffix (bytes ".jpeg") filename)
      (or_else (strip_suffix (bytes ".png") filename) (strip_suffix (bytes ".mp4") filename)))

-- `s.split('-')`
abbrev pub extend_part : ℕ → List Bytes → List Bytes
extend_part b [] = (b ∷ []) ∷ []
extend_part b (part ∷ parts) = (b ∷ part) ∷ parts

unfoldable pub split_dash : Bytes → List Bytes
split_dash [] = [] ∷ []
split_dash (b ∷ s) =
    let parts = split_dash s in if b == b'-' then [] ∷ parts else extend_part b parts

pub record FrameParts : Type 0 where
  pub seconds : Bytes
  pub millis : Bytes
  pub session_nonce : Option Bytes
  pub sequence : Bytes

unfoldable pub frame_parts : List Bytes → Option FrameParts
frame_parts (frame ∷ seconds ∷ millis ∷ fourth ∷ []) =
    if bytes_eq frame (bytes "frame")
    then some
        (record { seconds = seconds; millis = millis; session_nonce = none; sequence = fourth })
    else none
frame_parts (frame ∷ seconds ∷ millis ∷ fourth ∷ sequence ∷ []) =
    if bytes_eq frame (bytes "frame")
    then some (record {
      seconds = seconds;
      millis = millis;
      session_nonce = some fourth;
      sequence = sequence;
    })
    else none
frame_parts parts = none

-- `s.parse::<u64>()`, of digits.
unfoldable pub parse_digits : ℕ → Bytes → Option ℕ
parse_digits value [] = some value
parse_digits value (b ∷ s) =
    let next : ℕ = value * 10 + (b - b'0') in
    if is_ascii_digit b && leb next u64_max then parse_digits next s else none

abbrev pub parse_u64 : Bytes → Option ℕ
parse_u64 [] = none
parse_u64 (b ∷ s) = parse_digits 0 (b ∷ s)

-- `n.to_string()`, with fuel for the twenty digits of a `u64`.
unfoldable pub decimal_digits : ℕ → ℕ → Bytes
decimal_digits zero n = []
decimal_digits (suc fuel) n =
    let front = decimal_digits fuel (n / 10) in
    if ltb n 10 then (b'0' + n) ∷ [] else front ++ (b'0' + n % 10) ∷ []

abbrev pub decimal : ℕ → Bytes
decimal n = decimal_digits 20 n

-- `format!("{:0width$}", n)`, of digits.
unfoldable pub zeros : ℕ → Bytes
zeros zero = []
zeros (suc n) = b'0' ∷ zeros n

abbrev pub pad : ℕ → Bytes → Bytes
pad width digits = zeros (width - length digits) ++ digits

unfoldable pub parts_are_valid : FrameParts → Bool
parts_are_valid p =
    leb 1 (length p.seconds)
    && every is_ascii_digit p.seconds
    && length p.millis == 3
    && every is_ascii_digit p.millis
    && not (
        is_some_and p.session_nonce
          (λ nonce. not (length nonce == 32) || not (every is_nonce_digit nonce)))
    && leb 6 (length p.sequence)
    && every is_ascii_digit p.sequence

-- `seconds.checked_mul(1_000)?.checked_add(millis)`
abbrev pub checked : ℕ → Option ℕ
checked n = if leb n u64_max then some n else none

abbrev pub and_also {ℓ κ} : {A : Type ℓ} {B : Type κ} → Option A → (A → Option B) → Option B
and_also none f = none
and_also (some a) f = f a

unfoldable pub capture_time : FrameParts → Option ℕ
capture_time p = and_also (parse_u64 p.seconds) λ seconds. and_also (parse_u64 p.millis) λ millis.
    and_also (parse_u64 p.sequence) λ sequence.
      if not (bytes_eq p.seconds (decimal seconds))
        || not (bytes_eq p.sequence (pad 6 (decimal sequence)))
      then none
      else and_also (checked (seconds * 1000)) (λ ms. checked (ms + millis))

unfoldable pub parse_parts : Bytes → FrameParts → Option ℕ
parse_parts filename p =
    if (ends_with (bytes ".png") filename || ends_with (bytes ".mp4") filename)
      && not (is_some p.session_nonce)
    then none
    else if not (parts_are_valid p)
    then none
    else capture_time p

unfoldable pub parse_generated_frame_filename : Bytes → Option ℕ
parse_generated_frame_filename filename =
    and_also (frame_stem filename)
      λ stem. and_also (frame_parts (split_dash stem)) (parse_parts filename)

abbrev pub is_generated_frame_filename : Bytes → Bool
is_generated_frame_filename filename = is_some (parse_generated_frame_filename filename)

-- `capture_filename_at`: the name of a capture, by the seconds and milliseconds since the Unix epoch,
-- the nonce of the session, and the sequence number.
unfoldable pub capture_stem : ℕ → ℕ → Bytes → ℕ → Bytes
capture_stem seconds millis nonce sequence =
    bytes "frame-"
    ++ (decimal seconds
        ++ (b'-'
            ∷ (pad 3 (decimal millis) ++ (b'-' ∷ (nonce ++ (b'-' ∷ pad 6 (decimal sequence)))))))

unfoldable pub capture_filename_at : ℕ → ℕ → Bytes → ℕ → Bytes
capture_filename_at seconds millis nonce sequence =
    capture_stem seconds millis nonce sequence ++ bytes ".jpg"
