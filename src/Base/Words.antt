-- ===== src/Base/Words.antt =====
-- Unsigned machine words: the arithmetic of `u64` that the source writes as `saturating_add` and
-- `saturating_mul`. `saturating_sub` is the truncated subtraction of ℕ.
use Prim.Native.Nat.{max, ◌%◌, ◌/◌, ◌-◌, ℕ, ◌+◌, ◌*◌, ◌≤◌, min}
use native.Mathlib.Omega.{arith}

abbrev pub u64_max : ℕ
u64_max = 18446744073709551615

abbrev pub saturating_add : ℕ → ℕ → ℕ
saturating_add a b = min (a + b) u64_max

abbrev pub saturating_mul : ℕ → ℕ → ℕ
saturating_mul a b = min (a * b) u64_max

pub saturating_add_mono : (a b c d : ℕ) → a ≤ b → c ≤ d → saturating_add a c ≤ saturating_add b d
saturating_add_mono a b c d h k = omega arith

-- `u8` arithmetic without overflow checks.
abbrev pub u8_add : ℕ → ℕ → ℕ
u8_add a b = (a + b) % 256

abbrev pub u8_sub : ℕ → ℕ → ℕ
u8_sub a b = (a + 256 - b) % 256

-- `a.div_ceil(b)`.
abbrev pub div_ceil : ℕ → ℕ → ℕ
div_ceil a b = (a + b - 1) / b

-- `value.clamp(low, high)`.
abbrev pub clamp : ℕ → ℕ → ℕ → ℕ
clamp value low high = max low (min value high)
