-- ===== src/Base/Text.antt =====
-- Texts: the few operations of `str` and of formatting that the source uses.
use Prim.Native.Nat.{ℕ, zero, suc, ◌/◌, ◌%◌}
use Prim.Native.String.{String}
use mathlib.Core.Option.{Option, none, some}
use mathlib.Core.List.{List, [], ◌∷◌}
pub use text.Mathlib.Text.{◌==◌ as str_eq}
use Prim.Native.String.{◌++◌ as append}
use autopiercam.Base.Tests.{if◌then◌else◌, ltb, map_option}

infixr 65 ◌+++◌
abbrev pub ◌+++◌ : String → String → String
s +++ t = append s t

-- `s.strip_suffix(suffix)`.
abbrev pub strip_suffix : String → String → Option String
strip_suffix String.[] suffix = if str_eq "" suffix then some "" else none
strip_suffix (String.◌∷◌ c s) suffix =
    if str_eq (String.◌∷◌ c s) suffix
    then some ""
    else map_option (λ base. String.◌∷◌ c base) (strip_suffix s suffix)

-- `s.chars().take(n).collect()`.
abbrev pub take_chars : ℕ → String → String
take_chars zero s = ""
take_chars (suc n) String.[] = ""
take_chars (suc n) (String.◌∷◌ c s) = String.◌∷◌ c (take_chars n s)

-- A `match` on a text whose arms are literals.
abbrev pub match_text {ℓ} : {A : Type ℓ} → List (String × A) → String → Option A
match_text [] s = none
match_text ((pattern, a) ∷ arms) s = if str_eq s pattern then some a else match_text arms s

abbrev digit : ℕ → String
digit zero = "0"
digit (suc zero) = "1"
digit (suc (suc zero)) = "2"
digit (suc (suc (suc zero))) = "3"
digit (suc (suc (suc (suc zero)))) = "4"
digit (suc (suc (suc (suc (suc zero))))) = "5"
digit (suc (suc (suc (suc (suc (suc zero)))))) = "6"
digit (suc (suc (suc (suc (suc (suc (suc zero))))))) = "7"
digit (suc (suc (suc (suc (suc (suc (suc (suc zero)))))))) = "8"
digit (suc (suc (suc (suc (suc (suc (suc (suc (suc n))))))))) = "9"

-- `{}` of a `u8`.
pub show_u8 : ℕ → String
show_u8 n =
    if ltb n 10
    then digit n
    else if ltb n 100
    then digit (n / 10) +++ digit (n % 10)
    else digit (n / 100) +++ digit (n / 10 % 10) +++ digit (n % 10)

-- The last `fuel` digits of a number: 20 are enough for 64 bits.
abbrev show_digits : ℕ → ℕ → String
show_digits zero n = ""
show_digits (suc fuel) n =
    let front : String = show_digits fuel (n / 10) in
    if ltb n 10 then digit n else front +++ digit (n % 10)

-- `{}` of a `usize`.
unfoldable pub show_usize : ℕ → String
show_usize n = show_digits 20 n
