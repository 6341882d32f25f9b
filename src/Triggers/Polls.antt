-- ===== src/Triggers/Polls.antt =====
-- The part of the session loop (crates/autopiercam-chatstronomy/src/transport.rs) that asks for an
-- image and queues it, and how many images that can be.
use autopiercam.Base.{
  ℕ, ◌+◌, ◌≤◌, ◌≡◌, refl, Bool, true, false, ◌&&◌, Option, none, some, List, [], ◌∷◌, arith,
  if◌then◌else◌, is_some, if_split, ◌⊎◌, inl, inr, ◌∙◌, ap, &&-true,
}
use autopiercam.Triggers.Periodic.{PeriodicSchedule, slot_due}
use autopiercam.Triggers.Scheduler.{Frame, Burst, SlewFinish, Scheduler, expire_burst}
use autopiercam.Triggers.Delivery.{
  Due, expire_finish, start_periodic, offer_burst, offer_finish, offers_finish, current, due_frame,
  due_frame_cases, due_from, due, queued_finish, advance_burst, queued_burst, queued,
}
use autopiercam.Triggers.Freshness.{current-finish_ready}
use autopiercam.Triggers.Invariant.{IsValid, due-IsValid, queued-IsValid}

-- One turn of the loop: the latest frame, the clocks, whether the image could be taken up (no upload,
-- no image waiting, a minute since the last event, and a frame that encodes), and when.
pub record Poll : Type 0 where
  pub frame : Option Frame
  pub now : ℕ
  pub wall_ms : ℕ
  pub accepted : Bool
  pub queued_at : ℕ

pub record Polled : Type 0 where
  pub scheduler : Scheduler
  pub periodic : PeriodicSchedule
  pub sent : ℕ

take_up : Due → Poll → Option Frame → Polled
take_up d poll none = record { scheduler = d.scheduler; periodic = d.periodic; sent = 0 }
take_up d poll (some frame) =
    if is_some d.image && poll.accepted
    then record {
      scheduler = queued d.scheduler frame poll.queued_at;
      periodic = d.periodic;
      sent = 1;
    }
    else record { scheduler = d.scheduler; periodic = d.periodic; sent = 0 }

unfoldable pub poll_once : Scheduler → PeriodicSchedule → Poll → Polled
unfolding take_up
poll_once s periodic poll =
    take_up (due s poll.frame poll.now poll.wall_ms periodic) poll poll.frame

unfoldable pub poll_all : Scheduler → PeriodicSchedule → List Poll → Polled
poll_all s periodic [] = record { scheduler = s; periodic = periodic; sent = 0 }
poll_all s periodic (poll ∷ polls) =
    let first : Polled = poll_once s periodic poll in
    let rest : Polled = poll_all first.scheduler first.periodic polls in
    record rest { sent = first.sent + rest.sent }

-- The images that a burst and a post-slew request may still bring.
abbrev burst_budget : Option Burst → ℕ
burst_budget none = 0
burst_budget (some b) = b.remaining

abbrev finish_budget : Option SlewFinish → ℕ
finish_budget none = 0
finish_budget (some p) = 1

abbrev pub budget : Scheduler → ℕ
budget s = burst_budget s.burst + finish_budget s.slew_finish

abbrev one_if : Bool → ℕ
one_if true = 1
one_if false = 0

-- The periodic slots that come due along the polls.
abbrev pub slots : PeriodicSchedule → List Poll → ℕ
slots periodic [] = 0
slots periodic (poll ∷ polls) =
    one_if (slot_due periodic poll.wall_ms).1 + slots (slot_due periodic poll.wall_ms).0 polls

budget-expire_finish :
    (s : Scheduler) (frame : Frame) (now : ℕ) → budget (expire_finish s frame now) ≤ budget s
unfolding expire_finish
budget-expire_finish s frame now = ground arith

budget-expire_burst :
    (s : Scheduler) (frame : Frame) (now : ℕ) → budget (expire_burst s frame now) ≤ budget s
unfolding expire_burst
budget-expire_burst s frame now = ground arith

budget-start_periodic :
    (s : Scheduler) (periodic_due : Bool) (frame : Frame) (now : ℕ)
    → budget (start_periodic s periodic_due frame now) ≤ budget s + one_if periodic_due
unfolding start_periodic
budget-start_periodic s periodic_due frame now = ground arith

budget-current :
    (s : Scheduler) (periodic_due : Bool) (frame : Frame) (now : ℕ)
    → budget (current s periodic_due frame now) ≤ budget s + one_if periodic_due
budget-current s periodic_due frame now = omega (
  arith,
  budget-expire_finish s frame now,
  budget-expire_burst (expire_finish s frame now) frame now,
  budget-start_periodic (expire_burst (expire_finish s frame now) frame now) periodic_due frame now,
)

-- A queued post-slew image uses up its request.
budget-queued_finish :
    (s : Scheduler) (frame : Frame) (at : ℕ)
    → s.finish_ready ≡ true
    → is_some s.slew_finish ≡ true
    → budget (queued s frame at) + 1 ≤ budget s
unfolding queued queued_finish
budget-queued_finish s frame at ready pending = ground arith

-- A queued burst image uses up one of its images.
budget-queued_burst :
    (s : Scheduler) (frame : Frame) (at : ℕ)
    → IsValid s
    → s.finish_ready ≡ false
    → is_some s.burst ≡ true
    → budget (queued s frame at) + 1 ≤ budget s
unfolding queued queued_burst advance_burst
budget-queued_burst s frame at v idle on = ground arith

-- What an offer says of the scheduler that it leaves.
abbrev Offered : ℕ → PeriodicSchedule → Due → Type 0
Offered bound periodic d =
    (budget d.scheduler ≤ bound)
    × (d.periodic ≡ periodic)
    × (is_some d.image ≡ true
        → ((d.scheduler.finish_ready ≡ true) × (is_some d.scheduler.slew_finish ≡ true))
          ⊎ ((d.scheduler.finish_ready ≡ false) × (is_some d.scheduler.burst ≡ true)))

offer_finish-Offered :
    (s : Scheduler) (periodic : PeriodicSchedule) (frame : Frame) (now wall_ms extra : ℕ)
    → offers_finish s frame now wall_ms ≡ true
    → Offered (budget s + extra) periodic (offer_finish (expire_finish s frame now) periodic)
unfolding offer_finish
offer_finish-Offered s periodic frame now wall_ms extra h =
    (omega (arith, budget-expire_finish s frame now), refl, λ _. inl (refl, ground arith))

offer_burst-Offered :
    (t : Scheduler) (periodic : PeriodicSchedule) (frame : Frame) (now wall_ms bound : ℕ)
    → budget t ≤ bound
    → t.finish_ready ≡ false
    → Offered bound periodic (offer_burst t periodic frame now wall_ms)
unfolding offer_burst
offer_burst-Offered t periodic frame now wall_ms bound small idle =
    (small, refl, λ offered. inr (idle, ground arith))

due_frame-Offered :
    (s : Scheduler) (periodic : PeriodicSchedule) (periodic_due : Bool) (frame : Frame)
    (now wall_ms : ℕ)
    → s.finish_ready ≡ false
    → Offered
        (budget s + one_if periodic_due)
        periodic
        (due_frame s periodic periodic_due frame now wall_ms)
due_frame-Offered s periodic periodic_due frame now wall_ms idle =
    let bound = budget s + one_if periodic_due in
    due_frame_cases (Offered bound periodic) s periodic periodic_due frame now wall_ms
      (offer_finish-Offered s periodic frame now wall_ms (one_if periodic_due))
      (λ _.
        offer_burst-Offered (current s periodic_due frame now) periodic frame now wall_ms bound
          (budget-current s periodic_due frame now)
          (current-finish_ready s periodic_due frame now ∙ idle))

due-Offered :
    (s : Scheduler) (frame : Option Frame) (now wall_ms : ℕ) (periodic : PeriodicSchedule)
    → Offered
        (budget s + one_if (slot_due periodic wall_ms).1)
        (slot_due periodic wall_ms).0
        (due s frame now wall_ms periodic)
unfolding due due_from
due-Offered s none now wall_ms periodic = (omega arith, refl, λ h. cc)
due-Offered s (some frame) now wall_ms periodic =
    due_frame-Offered (record s { finish_ready = false }) _ _ frame now wall_ms refl

-- One turn: what it sends and what may still come is at most what might come before it, and one more
-- for a periodic slot.
abbrev Spends : ℕ → PeriodicSchedule → Polled → Type 0
Spends bound periodic r =
    (budget r.scheduler + r.sent ≤ bound) × (r.periodic ≡ periodic) × IsValid r.scheduler

take_up-Spends :
    (d : Due) (poll : Poll) (frame : Option Frame) (bound : ℕ) (periodic : PeriodicSchedule)
    → IsValid d.scheduler
    → Offered bound periodic d
    → Spends bound periodic (take_up d poll frame)
unfolding take_up
take_up-Spends d poll none bound periodic v o = (omega arith, o.1, v)
take_up-Spends d poll (some frame) bound periodic v o =
    if_split (Spends bound periodic) (is_some d.image && poll.accepted)
      (λ h. elim (o.2 (&&-true (is_some d.image) poll.accepted h).0) [
        | inl (ready, pending) ↦ (
          omega (arith, budget-queued_finish d.scheduler frame poll.queued_at ready pending, o.0),
          o.1,
          queued-IsValid d.scheduler frame poll.queued_at v,
        )
        | inr (idle, on) ↦ (
          omega (arith, budget-queued_burst d.scheduler frame poll.queued_at v idle on, o.0),
          o.1,
          queued-IsValid d.scheduler frame poll.queued_at v,
        )
      ])
      (λ _. (omega (arith, o.0), o.1, v))

poll_once-Spends :
    (s : Scheduler) (periodic : PeriodicSchedule) (poll : Poll)
    → IsValid s
    → Spends
        (budget s + one_if (slot_due periodic poll.wall_ms).1)
        (slot_due periodic poll.wall_ms).0
        (poll_once s periodic poll)
unfolding poll_once
poll_once-Spends s periodic poll v =
    take_up-Spends _ poll poll.frame _ _ (due-IsValid s poll.frame poll.now poll.wall_ms periodic v)
      (due-Offered s poll.frame poll.now poll.wall_ms periodic)

-- Between two triggers, however often the loop turns, no more images are queued than the burst and the
-- post-slew request had left, and one for each periodic slot that came due.
pub sent-le-budget :
    (s : Scheduler) (periodic : PeriodicSchedule) (polls : List Poll)
    → IsValid s
    → (poll_all s periodic polls).sent ≤ budget s + slots periodic polls
unfolding poll_all
sent-le-budget s periodic [] v = omega arith
sent-le-budget s periodic (poll ∷ polls) v =
    let first = poll_once s periodic poll in
    let (spent, next, valid) = poll_once-Spends s periodic poll v in
    omega (
      arith,
      spent,
      sent-le-budget first.scheduler first.periodic polls valid,
      ap (λ (q : PeriodicSchedule). slots q polls) next,
    )
