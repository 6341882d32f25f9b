-- ===== src/Upload/Retry.antt =====
-- The outcome of an attempt, the `Retry-After` header, and the delay before the next attempt.
-- Durations are milliseconds.
pub mod Bounds
pub mod Header
use Prim.Native.String.{String}
use Prim.Native.Nat.{bit_xor}
use autopiercam.Base.{
  ℕ, zero, suc, ◌+◌, ◌-◌, ◌*◌, ◌/◌, ◌%◌, ◌^◌, Bool, true, false, not, ◌&&◌, ◌||◌, Option, none,
  some, List, [], ◌∷◌, ltb, leb, ◌==◌, if◌then◌else◌, unwrap_or, map_option, min, max,
  saturating_add, saturating_mul,
}

abbrev pub max_idle_poll : ℕ
max_idle_poll = 100

abbrev pub max_retry_delay : ℕ
max_retry_delay = 300000

abbrev pub retry_delays : List ℕ
retry_delays = 1000 ∷ 2000 ∷ 5000 ∷ 10000 ∷ 30000 ∷ 60000 ∷ max_retry_delay ∷ []

pub data AttemptOutcome : Type 0 where
  success : ℕ → AttemptOutcome
  retry : Option ℕ → Option ℕ → String → AttemptOutcome
  permanent : Option ℕ → String → AttemptOutcome

unfoldable pub classify_status : ℕ → Option ℕ → AttemptOutcome
classify_status status retry_after =
    if leb 200 status && leb status 299
    then success status
    else if (status == 408)
        || (status == 425)
        || (status == 429)
        || (leb 500 status && leb status 599)
    then retry (some status) retry_after "HTTP endpoint requested a retry"
    else permanent (some status) "HTTP endpoint rejected the artifact"

-- A header value that is text is its bytes: visible ASCII, spaces and tabs.
abbrev pub is_space : ℕ → Bool
is_space byte = (byte == 32) || (byte == 9)

unfoldable pub trim_start : List ℕ → List ℕ
trim_start [] = []
trim_start (byte ∷ rest) =
    let trimmed : List ℕ = trim_start rest in if is_space byte then trimmed else byte ∷ rest

abbrev pub is_empty_value : List ℕ → Bool
is_empty_value [] = true
is_empty_value (byte ∷ rest) = false

unfoldable pub trim_end : List ℕ → List ℕ
trim_end [] = []
trim_end (byte ∷ rest) =
    let trimmed : List ℕ = trim_end rest in
    if is_space byte && is_empty_value trimmed then [] else byte ∷ trimmed

abbrev pub is_ascii_digit : ℕ → Bool
is_ascii_digit byte = leb 48 byte && leb byte 57

abbrev pub all_digits : List ℕ → Bool
all_digits [] = true
all_digits (byte ∷ rest) = is_ascii_digit byte && all_digits rest

-- The fold over the digits.
unfoldable pub add_digits : ℕ → List ℕ → ℕ
add_digits current [] = current
add_digits current (byte ∷ rest) =
    add_digits (saturating_add (saturating_mul current 10) (byte - 48)) rest

-- `parse_retry_after` of the trimmed value, in milliseconds.
unfoldable pub parse_value : List ℕ → Option ℕ
parse_value value =
    if is_empty_value value || not (all_digits value)
    then none
    else some (min (add_digits 0 value) (max_retry_delay / 1000) * 1000)

unfoldable pub parse_retry_after : Option (List ℕ) → Option ℕ
parse_retry_after none = none
parse_retry_after (some value) = parse_value (trim_end (trim_start value))

abbrev pub wrapping_mul : ℕ → ℕ → ℕ
wrapping_mul a b = a * b % 2 ^ 64

unfoldable pub fnv1a_from : ℕ → List ℕ → ℕ
fnv1a_from hash [] = hash
fnv1a_from hash (byte ∷ rest) = fnv1a_from (wrapping_mul (bit_xor hash byte) 1099511628211) rest

unfoldable pub fnv1a : List ℕ → ℕ
fnv1a bytes = fnv1a_from 14695981039346656037 bytes

unfoldable pub mix64 : ℕ → ℕ
mix64 value =
    let first : ℕ = wrapping_mul (bit_xor value (value / 2 ^ 30)) 13787848793156543929 in
    let second : ℕ = wrapping_mul (bit_xor first (first / 2 ^ 27)) 10723151780598845931 in
    bit_xor second (second / 2 ^ 31)

-- `self.schedule[retry_index.min(self.schedule.len() - 1)]`. The schedule is not empty.
unfoldable pub scheduled : List ℕ → ℕ → ℕ
scheduled [] index = 0
scheduled (d ∷ []) index = d
scheduled (d ∷ e ∷ rest) zero = d
scheduled (d ∷ e ∷ rest) (suc index) = scheduled (e ∷ rest) index

-- `RetryPolicy::delay` on its schedule.
unfoldable pub delay : List ℕ → ℕ → ℕ → Option ℕ → ℕ
delay schedule attempt_count jitter_seed retry_after =
    let retry_index : ℕ = attempt_count - 1 in
    let jitter_percent : ℕ = 80 + mix64 (bit_xor jitter_seed retry_index) % 41 in
    let jittered_ms : ℕ = scheduled schedule retry_index * jitter_percent / 100 in
    let retry_after_ms : ℕ = min (unwrap_or retry_after 0) max_retry_delay in
    min (max jittered_ms retry_after_ms) max_retry_delay

unfoldable pub wait_until_due : Option ℕ → ℕ → ℕ
wait_until_due next_due now =
    min (unwrap_or (map_option (λ due. due - now) next_due) max_idle_poll) max_idle_poll
