-- ===== src/Upload/Retry/Header.antt =====
-- What a `Retry-After` header asks for.
use autopiercam.Base.{
  ℕ, ◌+◌, ◌-◌, ◌*◌, ◌≤◌, ◌≡◌, ap, ◌∙◌, inl, inr, Bool-cases, leb, leb→le, false, not, ◌||◌, none,
  some, List, [], ◌∷◌, arith, min, saturating_add, saturating_mul, u64_max, if◌then◌else◌,
}
use autopiercam.Upload.Retry.{
  all_digits, is_empty_value, add_digits, parse_value, trim_start, trim_end, parse_retry_after,
}

-- The number that decimal digits write after `current`, unbounded.
abbrev pub decimal : ℕ → List ℕ → ℕ
decimal current [] = current
decimal current (byte ∷ rest) = decimal (current * 10 + (byte - 48)) rest

decimal-ge : (current : ℕ) (bytes : List ℕ) → current ≤ decimal current bytes
decimal-ge current [] = omega arith
decimal-ge current (byte ∷ rest) = omega (arith, decimal-ge (current * 10 + (byte - 48)) rest)

-- The saturating fold agrees with the number up to `u64::MAX`.
add_digits-decimal :
    (current : ℕ) (bytes : List ℕ)
    → current ≤ u64_max
    → add_digits current bytes ≡ min (decimal current bytes) u64_max
unfolding add_digits
add_digits-decimal current [] h = omega arith
add_digits-decimal current (byte ∷ rest) h =
    let d : ℕ = byte - 48 in
    let exact : ℕ = current * 10 + d in
    let capped : ℕ = saturating_add (saturating_mul current 10) d in
    let fold = add_digits-decimal capped rest (omega arith) in
    elim (Bool-cases (leb exact u64_max)) [
      | inl i ↦
          let small = leb→le exact u64_max i in
          let same : capped ≡ exact = omega (arith, small) in
          fold ∙ ap (λ c. min (decimal c rest) u64_max) same
      | inr i ↦
          let large : u64_max ≤ exact = over exact i in
          omega (arith, fold, large, decimal-ge capped rest, decimal-ge exact rest)
    ]
  where
    over : (n : ℕ) → leb n u64_max ≡ false → u64_max ≤ n
    over n i = ground arith

-- A header that is digits, with white space around them, asks for the number of seconds that they
-- write, at most five minutes, however many digits there are. Any other header asks for nothing.
pub parse_retry_after-decimal :
    (value : List ℕ)
    → let digits = trim_end (trim_start value) in
      parse_retry_after (some value) ≡ (
        if is_empty_value digits || not (all_digits digits)
        then none
        else some (min (decimal 0 digits) 300 * 1000))
unfolding parse_retry_after parse_value
parse_retry_after-decimal value =
    let digits : List ℕ = trim_end (trim_start value) in
    let same : min (add_digits 0 digits) 300 ≡ min (decimal 0 digits) 300 =
      omega (arith, add_digits-decimal 0 digits (omega arith)) in
    ap (λ n. if is_empty_value digits || not (all_digits digits) then none else some (n * 1000))
      same
