-- ===== src/Triggers/Invariant.antt =====
-- The invariant of a scheduler: a burst has an image left and never more than it began with, and it
-- began with the count of the rules.
use Prim.Native.String.{String}
use autopiercam.Base.{
  ℕ, ◌≤◌, ◌<◌, ◌≡◌, refl, Bool, Option, none, some, arith, if◌then◌else◌, if_intro, is_some,
}
use autopiercam.Triggers.Rules.{TriggerRules}
use autopiercam.Triggers.Events.{TelescopeEvent, parse, parse_context}
use autopiercam.Triggers.Periodic.{PeriodicSchedule}
use autopiercam.Triggers.Scheduler.{
  Frame, TelescopeContext, Burst, Scheduler, new, trigger, on_slew_completed, supersede,
  expire_burst, relabel, label, attach, on_event, telescope_trigger_with_context,
}
use autopiercam.Triggers.Delivery.{
  due_frame_cases, expire_finish, start_periodic, offer_burst, offer_finish, due_frame, due_from,
  due, due_frame_cases, queued_finish, advance_burst, queued_burst, queued,
}

abbrev pub BurstIsValid : ℕ → Option Burst → Type 0
BurstIsValid count none = Unit
BurstIsValid count (some b) = (1 ≤ b.remaining) × (b.remaining ≤ b.total) × (b.total ≡ count)

pub record IsValid (s : Scheduler) : Type 0 where
  pub count_positive : 1 ≤ s.rules.burst_count
  pub count_byte : s.rules.burst_count < 256
  pub burst : BurstIsValid s.rules.burst_count s.burst

pub new-IsValid :
    (rules : TriggerRules) → 1 ≤ rules.burst_count → rules.burst_count < 256 → IsValid (new rules)
unfolding new
new-IsValid rules low high = record { count_positive = low; count_byte = high; burst = tt }

pub trigger-IsValid :
    (s : Scheduler) (kind summary : String) (frame : Frame) (now : ℕ) (wait_new : Bool)
    → IsValid s
    → IsValid (trigger s kind summary frame now wait_new)
unfolding trigger
trigger-IsValid s kind summary frame now wait_new v = ground arith

-- Only the rules and the burst matter.
same-IsValid :
    {s : Scheduler} (t : Scheduler) → IsValid s → t.rules ≡ s.rules → t.burst ≡ s.burst → IsValid t
same-IsValid t v r b = ground arith

on_slew_completed-IsValid :
    (s : Scheduler) (context : Option TelescopeContext) (frame : Frame) (now wall_ms : ℕ)
    → IsValid s
    → IsValid (on_slew_completed s context frame now wall_ms)
unfolding on_slew_completed
on_slew_completed-IsValid s context frame now wall_ms v =
    same-IsValid (on_slew_completed s context frame now wall_ms) v (ground arith) (ground arith)

supersede-IsValid :
    (s : Scheduler) (event : TelescopeEvent) (context : Option TelescopeContext)
    → IsValid s
    → IsValid (supersede s event context)
unfolding supersede
supersede-IsValid s event context v =
    same-IsValid (supersede s event context) v (ground arith) (ground arith)

expire_burst-IsValid :
    (s : Scheduler) (frame : Frame) (now : ℕ) → IsValid s → IsValid (expire_burst s frame now)
unfolding expire_burst
expire_burst-IsValid s frame now v = ground arith

attach-IsValid :
    (s : Scheduler) (event : TelescopeEvent) (context : Option TelescopeContext) (frame : Frame)
    (now : ℕ)
    → IsValid s
    → IsValid (attach s event context frame now)
unfolding attach trigger label relabel
attach-IsValid s event context frame now v = ground arith

on_event-IsValid :
    (s : Scheduler) (event : TelescopeEvent) (context : Option TelescopeContext) (frame : Frame)
    (now wall_ms : ℕ)
    → IsValid s
    → IsValid (on_event s event context frame now wall_ms)
unfolding on_event
on_event-IsValid s event context frame now wall_ms v =
    if_intro IsValid _ (on_slew_completed-IsValid s context frame now wall_ms v) (
      attach-IsValid _ event context frame now
        (expire_burst-IsValid _ frame now (supersede-IsValid s event context v)))

-- Every telescope event, known or not, keeps the invariant.
pub telescope_trigger-IsValid :
    (s : Scheduler) (event : String) (context : Option TelescopeContext) (frame : Frame)
    (now wall_ms : ℕ)
    → IsValid s
    → IsValid (telescope_trigger_with_context s event context frame now wall_ms)
unfolding telescope_trigger_with_context
telescope_trigger-IsValid s event context frame now wall_ms v =
    parsed (if is_some context then parse_context event else parse event)
  where
    parsed :
        (e : Option TelescopeEvent)
        → IsValid (elim e [ none ↦ s | some e' ↦ on_event s e' context frame now wall_ms ])
    parsed none = v
    parsed (some e) = on_event-IsValid s e context frame now wall_ms v

expire_finish-IsValid :
    (s : Scheduler) (frame : Frame) (now : ℕ) → IsValid s → IsValid (expire_finish s frame now)
unfolding expire_finish
expire_finish-IsValid s frame now v =
    same-IsValid (expire_finish s frame now) v (ground arith) (ground arith)

start_periodic-IsValid :
    (s : Scheduler) (periodic_due : Bool) (frame : Frame) (now : ℕ)
    → IsValid s
    → IsValid (start_periodic s periodic_due frame now)
unfolding start_periodic
start_periodic-IsValid s periodic_due frame now v = ground arith

due_frame-IsValid :
    (s : Scheduler) (periodic : PeriodicSchedule) (periodic_due : Bool) (frame : Frame)
    (now wall_ms : ℕ)
    → IsValid s
    → IsValid (due_frame s periodic periodic_due frame now wall_ms).scheduler
unfolding offer_finish offer_burst
due_frame-IsValid s periodic periodic_due frame now wall_ms v =
    let t = expire_finish-IsValid s frame now v in
    due_frame_cases (λ d. IsValid d.scheduler) s periodic periodic_due frame now wall_ms
      (λ _. same-IsValid (offer_finish (expire_finish s frame now) periodic).scheduler t refl refl)
      (λ _. start_periodic-IsValid _ periodic_due frame now (expire_burst-IsValid _ frame now t))

-- Asking for the next image keeps the invariant.
pub due-IsValid :
    (s : Scheduler) (frame : Option Frame) (now wall_ms : ℕ) (periodic : PeriodicSchedule)
    → IsValid s
    → IsValid (due s frame now wall_ms periodic).scheduler
unfolding due due_from
due-IsValid s none now wall_ms periodic v = record {
  count_positive = v.count_positive;
  count_byte = v.count_byte;
  burst = tt;
}
due-IsValid s (some frame) now wall_ms periodic v =
    due_frame-IsValid _ _ _ frame now wall_ms (same-IsValid _ v refl refl)

queued_finish-IsValid : (s : Scheduler) → IsValid s → IsValid (queued_finish s)
unfolding queued_finish
queued_finish-IsValid s v = ground arith

queued_burst-IsValid :
    (s : Scheduler) (frame : Frame) (now : ℕ)
    → IsValid s
    → IsValid (queued_burst s frame now s.burst)
unfolding queued_burst advance_burst
queued_burst-IsValid s frame now v = ground arith

-- A queued image keeps the invariant.
pub queued-IsValid :
    (s : Scheduler) (frame : Frame) (now : ℕ) → IsValid s → IsValid (queued s frame now)
unfolding queued
queued-IsValid s frame now v =
    let t = same-IsValid _ v refl refl in
    if_intro IsValid s.finish_ready (queued_finish-IsValid _ t) (queued_burst-IsValid _ frame now t)
