-- ===== src/Retention/Errors.antt =====
-- The error messages of a sweep: how long one gets, and how many are kept.
pub mod Bounds
use Prim.Native.String.{String, len, slice}
use text.Mathlib.Text.{is_char_boundary}
use text.Mathlib.TextPositions.{len-append, boundary-zero}
use autopiercam.Base.{
  ℕ, zero, suc, ◌+◌, ◌-◌, ◌≤◌, ◌≡◌, refl, Bool, true, false, not, ◌&&◌, Option, none, some, List,
  [], ◌∷◌, ◌++◌, map, leb, ◌==◌, if◌then◌else◌, if_split, length, saturating_add,
}
use autopiercam.Base.Text.{◌+++◌, show_usize}

abbrev pub max_retention_error_messages : ℕ
max_retention_error_messages = 8

abbrev pub max_retention_error_message_bytes : ℕ
max_retention_error_message_bytes = 1024

-- The `while` loop: the last boundary of a character at or before `end`. Zero is one.
unfoldable pub floor_boundary : String → ℕ → ℕ
floor_boundary message zero = zero
floor_boundary message (suc n) =
    let rest : ℕ = floor_boundary message n in
    if is_char_boundary message (suc n) then suc n else rest

unfoldable pub bounded_error_message : String → String
bounded_error_message message =
    if leb (len message) max_retention_error_message_bytes
    then message
    else let end : ℕ = floor_boundary message (max_retention_error_message_bytes - len "…") in
      slice message 0 end +++ "…"

pub record RetentionErrors : Type 0 where
  pub messages : List String
  pub omitted : ℕ

abbrev pub no_errors : RetentionErrors
no_errors = record { messages = []; omitted = 0 }

unfoldable pub push : RetentionErrors → String → RetentionErrors
push errors message =
    if length errors.messages == max_retention_error_messages
    then record errors { omitted = saturating_add errors.omitted 1 }
    else record errors { messages = errors.messages ++ bounded_error_message message ∷ [] }

abbrev pub is_empty : RetentionErrors → Bool
is_empty errors = (length errors.messages == 0) && (errors.omitted == 0)

-- `messages.join("; ")`.
abbrev join : List String → String
join [] = ""
join (m ∷ []) = m
join (m ∷ n ∷ rest) = m +++ "; " +++ join (n ∷ rest)

unfoldable pub finish : RetentionErrors → Option String
finish errors =
    let messages : List String =
      if not (errors.omitted == 0)
      then errors.messages
        ++ (show_usize errors.omitted +++ " additional retention error(s) omitted") ∷ []
      else errors.messages in
    if not (length messages == 0) then some (join messages) else none
