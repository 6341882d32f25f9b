-- ===== src/Upload/Retry/Bounds.antt =====
-- How long the worker waits.
use native.Mathlib.Nat.{mul-le-mul_left}
use Prim.Native.Nat.{bit_xor}
use autopiercam.Base.{
  ap, ℕ, zero, suc, ◌+◌, ◌-◌, ◌*◌, ◌/◌, ◌%◌, ◌≤◌, ◌≡◌, Option, none, some, arith, unwrap_or, min,
  max,
}
use autopiercam.Upload.Retry.{retry_delays, mix64, scheduled, delay, wait_until_due}

scheduled-bounds :
    (index : ℕ) → (1000 ≤ scheduled retry_delays index) × (scheduled retry_delays index ≤ 300000)
unfolding scheduled
scheduled-bounds zero = omega arith
scheduled-bounds (suc zero) = omega arith
scheduled-bounds (suc (suc zero)) = omega arith
scheduled-bounds (suc (suc (suc zero))) = omega arith
scheduled-bounds (suc (suc (suc (suc zero)))) = omega arith
scheduled-bounds (suc (suc (suc (suc (suc zero))))) = omega arith
scheduled-bounds (suc (suc (suc (suc (suc (suc index)))))) = omega arith

-- A delay with 80 to 120 percent of its length.
jitter :
    (base percent : ℕ)
    → 80 ≤ percent
    → percent ≤ 120
    → (base * 80 / 100 ≤ base * percent / 100) × (base * percent / 100 ≤ base * 120 / 100)
jitter base percent h k =
    let low : base * 80 ≤ base * percent = mul-le-mul_left base h in
    let high : base * percent ≤ base * 120 = mul-le-mul_left base k in omega (arith, low, high)

percent-bounds : (mixed : ℕ) → (80 ≤ 80 + mixed % 41) × (80 + mixed % 41 ≤ 120)
percent-bounds mixed = omega arith

-- The last two steps of `delay`, on the jittered delay.
capped :
    (base jittered wish : ℕ)
    → (1000 ≤ base) × (base ≤ 300000)
    → (base * 80 / 100 ≤ jittered) × (jittered ≤ base * 120 / 100)
    → let d = min (max jittered (min wish 300000)) 300000 in
      (base * 80 / 100 ≤ d)
      × (800 ≤ d)
      × (min wish 300000 ≤ d)
      × (d ≤ 300000)
      × (wish ≡ 0 → d ≤ base * 120 / 100)
capped base jittered wish h k =
    (omega arith, omega arith, omega arith, omega arith, λ e. omega arith)

-- The delay of the worker's schedule, whatever the seed of its jitter: at least four fifths of the
-- scheduled delay and so 800 ms, at least what the server asked for up to five minutes, at most five
-- minutes, and without a wish of the server at most six fifths of the scheduled delay.
pub delay-bounds :
    (attempt_count jitter_seed : ℕ) (retry_after : Option ℕ)
    → let base = scheduled retry_delays (attempt_count - 1) in
      let d = delay retry_delays attempt_count jitter_seed retry_after in
      (base * 80 / 100 ≤ d)
      × (800 ≤ d)
      × (min (unwrap_or retry_after 0) 300000 ≤ d)
      × (d ≤ 300000)
      × (retry_after ≡ none → d ≤ base * 120 / 100)
unfolding delay
delay-bounds attempt_count jitter_seed retry_after =
    let base : ℕ = scheduled retry_delays (attempt_count - 1) in
    let mixed : ℕ = mix64 (bit_xor jitter_seed (attempt_count - 1)) in
    let (low, high) = percent-bounds mixed in
    let (a, b, c, d, e) =
      capped base (base * (80 + mixed % 41) / 100) (unwrap_or retry_after 0)
        (scheduled-bounds (attempt_count - 1)) (jitter base (80 + mixed % 41) low high) in
    (a, b, c, d, λ h. e (ap (λ r. unwrap_or r 0) h))

-- The worker never sleeps longer than until the next attempt is due, nor than 100 ms.
pub wait_until_due-bounds :
    (next_due : Option ℕ) (now : ℕ)
    → (wait_until_due next_due now ≤ 100)
      × ((due : ℕ) → next_due ≡ some due → now ≤ due → now + wait_until_due next_due now ≤ due)
unfolding wait_until_due
wait_until_due-bounds none now = (omega arith, λ due e h. cc e)
wait_until_due-bounds (some d) now = (omega arith, λ due e h. ground arith)
