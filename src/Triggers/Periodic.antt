-- ===== src/Triggers/Periodic.antt =====
-- `PeriodicSchedule`: wall-clock slots anchored at the Unix epoch.
pub mod Laws
use autopiercam.Base.{
  ℕ, ◌+◌, ◌*◌, ◌/◌, ◌≤◌, ◌<◌, ◌≡◌, Bool, true, false, ◌||◌, arith, ltb, ◌==◌, if◌then◌else◌,
  u64_max, saturating_add, saturating_mul,
}

pub record PeriodicSchedule : Type 0 where
  pub interval_ms : ℕ
  pub next_ms : ℕ

-- `PeriodicSchedule::default()`.
abbrev pub no_schedule : PeriodicSchedule
no_schedule = record { interval_ms = 0; next_ms = 0 }

unfoldable pub next_boundary : ℕ → ℕ → ℕ
next_boundary interval_ms wall_ms =
    if interval_ms == 0
    then u64_max
    else saturating_mul (saturating_add (wall_ms / interval_ms) 1) interval_ms

unfoldable pub configure : PeriodicSchedule → ℕ → ℕ → PeriodicSchedule
configure s minutes wall_ms =
    let interval : ℕ = minutes * 60000 in
    if interval == s.interval_ms
    then s
    else record { interval_ms = interval; next_ms = next_boundary interval wall_ms }

-- The new schedule, and whether a slot is due.
unfoldable pub slot_due : PeriodicSchedule → ℕ → PeriodicSchedule × Bool
slot_due s wall_ms =
    if s.interval_ms == 0 || ltb wall_ms s.next_ms
    then (s, false)
    else (record s { next_ms = next_boundary s.interval_ms wall_ms }, true)
