-- ===== src/Tests/Upload.antt =====
-- Delays of the upload worker, and headers of a server.
use autopiercam.Base.{Option, ℕ, ◌*◌, ◌/◌, ◌≤◌, ◌≡◌, refl, none, some, List, [], ◌∷◌}
use autopiercam.Upload.Retry.{
  retry, classify_status, parse_retry_after, parse_value, add_digits, trim_start, trim_end,
  retry_delays, scheduled, delay, fnv1a, fnv1a_from,
}
use autopiercam.Upload.Retry.Bounds.{delay-bounds}
use autopiercam.Upload.Retry.Header.{parse_retry_after-decimal}

-- " 42 " in bytes.
abbrev header : List ℕ
header = 32 ∷ 52 ∷ 50 ∷ 32 ∷ []

header_runs : parse_retry_after (some header) ≡ some 42000
unfolding parse_retry_after parse_value add_digits trim_start trim_end
header_runs = refl

too_many_requests :
    classify_status 429 (some 42000)
    ≡ retry (some 429) (some 42000) "HTTP endpoint requested a retry"
unfolding classify_status
too_many_requests = refl

-- The digest of the empty key, and of "a".
fnv1a_runs : fnv1a (97 ∷ []) ≡ 12638187200555641996
unfolding fnv1a fnv1a_from
fnv1a_runs = refl

-- The server's wish counts where it is longer than the schedule's delay.
delay-bounds_example :
    let wish : Option ℕ = some 42000 in
    let d = delay retry_delays 2 7 wish in
    (scheduled retry_delays 1 * 80 / 100 ≤ d)
    × (800 ≤ d)
    × (42000 ≤ d)
    × (d ≤ 300000)
    × (wish ≡ none → d ≤ scheduled retry_delays 1 * 120 / 100)
delay-bounds_example = delay-bounds 2 7 (some 42000)

parse_retry_after-decimal_example : parse_retry_after (some header) ≡ some 42000
unfolding trim_start trim_end
parse_retry_after-decimal_example = parse_retry_after-decimal header
