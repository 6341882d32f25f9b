-- ===== src/Triggers/Freshness.antt =====
-- What is true of a frame that `due` offers.
use Prim.Native.String.{String}
use autopiercam.Base.{
  ℕ, ◌+◌, ◌≤◌, ◌<◌, ◌≡◌, refl, ◌⊎◌, Bool, true, false, Option, some, arith, inl, inr, is_some_and,
  Option-cases, subst, ◌∙◌,
}
use autopiercam.Triggers.Periodic.{PeriodicSchedule, slot_due}
use autopiercam.Triggers.Scheduler.{Frame, Burst, SlewFinish, Scheduler, expire_burst}
use autopiercam.Triggers.Delivery.{
  Due, not_queued, finish_due, burst_due, expire_finish, start_periodic, offer_burst, offer_finish,
  offers_finish, current, due_frame_cases, due_from, due,
}

-- The pending request that a post-slew image answers. Its exposure began after the slew ended, by
-- the conservative estimate.
pub record AnswersSlew (slew_finish : Option SlewFinish) (frame : Frame) (now wall_ms : ℕ)
    : Type 0 where
  pub request : SlewFinish
  pub start : ℕ
  pub pending : slew_finish ≡ some request
  pub session : request.session ≡ frame.session
  pub in_time : now < request.deadline
  pub later_frame : request.after_sequence < frame.sequence
  pub timed : frame.conservative_start_unix_ms ≡ some start
  pub after_slew : request.after_unix_ms < start
  pub not_future : start ≤ wall_ms

-- The burst that an image belongs to, in the scheduler that `due` leaves.
pub record ContinuesBurst (current_burst : Option Burst) (frame : Frame) (now : ℕ) : Type 0 where
  pub burst : Burst
  pub running : current_burst ≡ some burst
  pub session : burst.session ≡ frame.session
  pub in_time : now < burst.deadline
  pub due : burst.due ≤ now
  pub later_frame : burst.after_sequence < frame.sequence

expire_finish-pending :
    (s : Scheduler) (frame : Frame) (now : ℕ) {p : SlewFinish}
    → (expire_finish s frame now).slew_finish ≡ some p
    → (s.slew_finish ≡ some p) × (p.session ≡ frame.session) × (now < p.deadline)
unfolding expire_finish
expire_finish-pending s frame now e = ground arith

finish-AnswersSlew :
    (s : Scheduler) (frame : Frame) (now wall_ms : ℕ)
    → offers_finish s frame now wall_ms ≡ true
    → AnswersSlew s.slew_finish frame now wall_ms
finish-AnswersSlew s frame now wall_ms h =
    elim (Option-cases (expire_finish s frame now).slew_finish) [
      | inl e ↦ cc (
          subst
            (λ o. is_some_and o (finish_due (expire_finish s frame now) frame now wall_ms) ≡ true) e
            h)
      | inr (p, e) ↦
          let (pending, session, in_time) = expire_finish-pending s frame now e in
          let test : finish_due (expire_finish s frame now) frame now wall_ms p ≡ true =
            subst
              (λ o. is_some_and o (finish_due (expire_finish s frame now) frame now wall_ms) ≡ true)
              e h in
          elim (Option-cases frame.conservative_start_unix_ms) [
            | inl f ↦ absurd (ground arith)
            | inr (start, f) ↦ record {
              request = p;
              start = start;
              pending = pending;
              session = session;
              in_time = in_time;
              later_frame = ground arith;
              timed = f;
              after_slew = ground arith;
              not_future = ground arith;
            }
          ]
    ]

-- A burst that is on after the expiry and the periodic slot is of the frame's session, and in time.
current-burst :
    (s : Scheduler) (periodic_due : Bool) (frame : Frame) (now : ℕ) {b : Burst}
    → (current s periodic_due frame now).burst ≡ some b
    → (b.session ≡ frame.session) × (now < b.deadline)
unfolding start_periodic expire_burst
current-burst s periodic_due frame now e = ground arith

-- The frame of a post-slew image is new, and at most two minutes old.
finish_fresh :
    (s : Scheduler) (frame : Frame) (now wall_ms : ℕ)
    → offers_finish s frame now wall_ms ≡ true
    → (not_queued s frame ≡ true)
      × (wall_ms ≤ frame.captured_at_unix_ms + 120000)
      × (frame.captured_at_unix_ms ≤ wall_ms)
unfolding expire_finish
finish_fresh s frame now wall_ms h = ground arith

offer_burst_lem :
    (t : Scheduler) (periodic : PeriodicSchedule) (frame : Frame) (now wall_ms : ℕ)
    {image : String × String}
    → (offer_burst t periodic frame now wall_ms).image ≡ some image
    → (b : Burst) × (t.burst ≡ some b) × (burst_due t frame now wall_ms b ≡ true)
unfolding offer_burst
offer_burst_lem t periodic frame now wall_ms e = ground arith

current-not_queued :
    (s : Scheduler) (periodic_due : Bool) (frame : Frame) (now : ℕ)
    → (current s periodic_due frame now).last_queued ≡ s.last_queued
unfolding start_periodic expire_burst expire_finish
current-not_queued s periodic_due frame now = ground arith

pub current-finish_ready :
    (s : Scheduler) (periodic_due : Bool) (frame : Frame) (now : ℕ)
    → (current s periodic_due frame now).finish_ready ≡ s.finish_ready
unfolding start_periodic expire_burst expire_finish
current-finish_ready s periodic_due frame now = ground arith

-- An image that `due` offers: of a frame not queued before, captured at most two minutes ago and not
-- more than half a minute ahead of the clock, for the post-slew request or for the burst.
abbrev pub IsFreshOffer : Scheduler → Frame → ℕ → ℕ → Due → Type 0
IsFreshOffer s frame now wall_ms d =
    (not_queued s frame ≡ true)
    × (wall_ms ≤ frame.captured_at_unix_ms + 120000)
    × (frame.captured_at_unix_ms ≤ wall_ms + 30000)
    × (((d.scheduler.finish_ready ≡ true) × AnswersSlew s.slew_finish frame now wall_ms)
        ⊎ ((d.scheduler.finish_ready ≡ false) × ContinuesBurst d.scheduler.burst frame now))

finish_case :
    (s : Scheduler) (periodic : PeriodicSchedule) (frame : Frame) (now wall_ms : ℕ)
    → offers_finish s frame now wall_ms ≡ true
    → IsFreshOffer s frame now wall_ms (offer_finish (expire_finish s frame now) periodic)
unfolding offer_finish
finish_case s periodic frame now wall_ms h =
    let (new, recent, past) = finish_fresh s frame now wall_ms h in
    (new, recent, omega arith, inl (refl, finish-AnswersSlew s frame now wall_ms h))

burst_case :
    (s : Scheduler) (periodic : PeriodicSchedule) (periodic_due : Bool) (frame : Frame)
    (now wall_ms : ℕ) {image : String × String}
    → s.finish_ready ≡ false
    → (offer_burst (current s periodic_due frame now) periodic frame now wall_ms).image ≡ some image
    → IsFreshOffer s frame now wall_ms
        (offer_burst (current s periodic_due frame now) periodic frame now wall_ms)
unfolding offer_burst
burst_case s periodic periodic_due frame now wall_ms idle offered =
    let t = current s periodic_due frame now in
    let (b, running, test) = offer_burst_lem t periodic frame now wall_ms offered in
    let (session, in_time) = current-burst s periodic_due frame now running in
    let queue = current-not_queued s periodic_due frame now in
    (
      ground arith,
      ground arith,
      ground arith,
      inr (
        current-finish_ready s periodic_due frame now ∙ idle,
        record {
          burst = b;
          running = running;
          session = session;
          in_time = in_time;
          due = ground arith;
          later_frame = ground arith;
        },
      ),
    )

-- Whatever `due` offers is fresh.
pub due-IsFreshOffer :
    (s : Scheduler) (frame : Frame) (now wall_ms : ℕ) (periodic : PeriodicSchedule)
    {image : String × String}
    → (due s (some frame) now wall_ms periodic).image ≡ some image
    → IsFreshOffer s frame now wall_ms (due s (some frame) now wall_ms periodic)
unfolding due due_from
due-IsFreshOffer s frame now wall_ms periodic {image} =
    let s' = record s { finish_ready = false } in
    let slot = slot_due periodic wall_ms in
    due_frame_cases (λ d. d.image ≡ some image → IsFreshOffer s' frame now wall_ms d) s' slot.0
      slot.1 frame now wall_ms (λ h _. finish_case s' slot.0 frame now wall_ms h)
      (λ _. burst_case s' slot.0 slot.1 frame now wall_ms refl)
