-- ===== src/Base/Integers.antt =====
-- Signed integers, for the fields that the source types as `i64`.
use Prim.Native.Nat.{ℕ, ◌+◌, ◌-◌, min}
use mathlib.Core.Path.{◌≡◌, refl}
use mathlib.Core.Logic.{◌↔◌}
use mathlib.Core.Bool.{Bool, true, false, not}
use mathlib.Core.Option.{Option, none, some}
use native.Mathlib.Omega.{arith}
use autopiercam.Base.Tests.{◌==◌, leb, ltb, if◌then◌else◌}

-- `negsuc n` is -(n + 1).
pub data ℤ : Type 0 where
  pos : ℕ → ℤ
  negsuc : ℕ → ℤ

abbrev pub int_eq : ℤ → ℤ → Bool
int_eq (pos a) (pos b) = a == b
int_eq (negsuc a) (negsuc b) = a == b
int_eq _ _ = false

-- `u64::try_from(v).ok()`.
abbrev pub to_unsigned : ℤ → Option ℕ
to_unsigned (pos n) = some n
to_unsigned (negsuc n) = none

pub int_eq_iff : (a b : ℤ) → (int_eq a b ≡ true) ↔ (a ≡ b)
int_eq_iff (pos a) (pos b) = ground arith
int_eq_iff (pos a) (negsuc b) = ground arith
int_eq_iff (negsuc a) (pos b) = ground arith
int_eq_iff (negsuc a) (negsuc b) = ground arith

abbrev pub int_leb : ℤ → ℤ → Bool
int_leb (pos a) (pos b) = leb a b
int_leb (pos a) (negsuc b) = false
int_leb (negsuc a) (pos b) = true
int_leb (negsuc a) (negsuc b) = leb b a

abbrev pub int_ltb : ℤ → ℤ → Bool
int_ltb a b = not (int_leb b a)

abbrev pub int_min : ℤ → ℤ → ℤ
int_min a b = if int_leb a b then a else b

abbrev pub int_max : ℤ → ℤ → ℤ
int_max a b = if int_leb a b then b else a

-- `value.clamp(low, high)`, which panics unless `low <= high`.
abbrev pub int_clamp : ℤ → ℤ → ℤ → ℤ
int_clamp value low high = int_max low (int_min value high)

abbrev pub i64_max : ℕ
i64_max = 9223372036854775807

-- `i64::saturating_add` and `i64::saturating_sub` of a non-negative amount.
abbrev pub i64_saturating_add : ℤ → ℕ → ℤ
i64_saturating_add (pos a) n = pos (min (a + n) i64_max)
i64_saturating_add (negsuc a) n = if ltb a n then pos (n - (a + 1)) else negsuc (a - n)

abbrev pub i64_saturating_sub : ℤ → ℕ → ℤ
i64_saturating_sub (pos a) n = if leb n a then pos (a - n) else negsuc (n - (a + 1))
i64_saturating_sub (negsuc a) n = negsuc (min (a + n) i64_max)

pub int_leb_refl : (a : ℤ) → int_leb a a ≡ true
int_leb_refl a = ground arith

pub int_leb_total : (a b : ℤ) → int_leb a b ≡ false → int_leb b a ≡ true
int_leb_total a b h = ground arith

pub int_leb_trans : (a b c : ℤ) → int_leb a b ≡ true → int_leb b c ≡ true → int_leb a c ≡ true
int_leb_trans a b c h k = ground arith

-- A clamped value lies between its bounds.
pub int_clamp-bounds :
    (value low high : ℤ)
    → int_leb low high ≡ true
    → (int_leb low (int_clamp value low high) ≡ true)
      × (int_leb (int_clamp value low high) high ≡ true)
int_clamp-bounds value low high h =
    (ground (arith, int_leb_refl low), ground (arith, int_leb_total value high, int_leb_refl high))

pub int_leb_antisymm : (a b : ℤ) → int_leb a b ≡ true → int_leb b a ≡ true → a ≡ b
int_leb_antisymm (pos a) (pos b) h k = ground arith
int_leb_antisymm (pos a) (negsuc b) h k = cc h
int_leb_antisymm (negsuc a) (pos b) h k = cc k
int_leb_antisymm (negsuc a) (negsuc b) h k = ground arith

-- A value between the bounds is kept.
pub int_clamp-between :
    (value low high : ℤ)
    → int_leb low value ≡ true
    → int_leb value high ≡ true
    → int_clamp value low high ≡ value
int_clamp-between value low high h k = rw k (rw h refl)
