-- ===== src/Triggers/Periodic/Laws.antt =====
-- A periodic slot comes due once, whatever the clock does, and reconfiguration does not restart it.
use native.Mathlib.Nat.{div-lt_iff_lt-mul, div-mul-le_self, div-le_self}
use autopiercam.Base.{ℕ, ◌+◌, ◌*◌, ◌/◌, ◌≤◌, ◌<◌, ◌≡◌, true, arith, ltb, u64_max}
use autopiercam.Triggers.Periodic.{PeriodicSchedule, next_boundary, configure, slot_due}

-- Without saturation the boundary is the start of the next slot.
next_boundary_exact :
    (interval wall_ms : ℕ)
    → 0 < interval
    → wall_ms + interval ≤ u64_max
    → next_boundary interval wall_ms ≡ (wall_ms / interval + 1) * interval
unfolding next_boundary
next_boundary_exact interval wall_ms pos fits =
    ground (arith, div-mul-le_self wall_ms interval, div-le_self wall_ms interval)

-- After a slot has come due at `wall_ms`, another is due at a time exactly if that time lies in a later
-- slot. The clock may have gone back meanwhile.
pub slot_due_again :
    (s : PeriodicSchedule) (wall_ms later_ms : ℕ)
    → wall_ms + s.interval_ms ≤ u64_max
    → (slot_due s wall_ms).1 ≡ true
    → (slot_due (slot_due s wall_ms).0 later_ms).1
      ≡ ltb (wall_ms / s.interval_ms) (later_ms / s.interval_ms)
unfolding slot_due
slot_due_again s wall_ms later_ms fits first =
    let pos : 0 < s.interval_ms = ground arith in
    let next = next_boundary_exact s.interval_ms wall_ms pos fits in
    let earlier =
      div-lt_iff_lt-mul {k = s.interval_ms} {x = later_ms} {y = wall_ms / s.interval_ms + 1} pos in
    ground (arith, next, earlier.0, earlier.1)

-- Configuring the same interval again changes nothing, at any time.
pub configure_again :
    (s : PeriodicSchedule) (minutes wall_ms later_ms : ℕ)
    → configure (configure s minutes wall_ms) minutes later_ms ≡ configure s minutes wall_ms
unfolding configure
configure_again s minutes wall_ms later_ms = ground arith
