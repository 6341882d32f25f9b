-- ===== src/Triggers/Delivery.antt =====
-- `Scheduler::due` and `Scheduler::queued`: whether the latest frame is offered, and what an
-- accepted offer changes.
use Prim.Native.String.{String}
use autopiercam.Base.{
  ℕ, ◌+◌, ◌-◌, Bool, true, false, not, ◌&&◌, ◌||◌, Option, none, some, leb, ltb, ◌==◌,
  if◌then◌else◌, is_some, is_some_and, is_none_or, map_option, saturating_add, u8_add, u8_sub, ◌≡◌,
  if_split,
}
use autopiercam.Base.Text.{◌+++◌, show_u8}
use autopiercam.Triggers.Events.{TelescopeEvent, slew_started, event_eq, description}
use autopiercam.Triggers.Periodic.{PeriodicSchedule, slot_due}
use autopiercam.Triggers.Scheduler.{
  from_secs, Frame, TelescopeContext, caption, same_source, Burst, SlewFinish, Scheduler, trigger,
  expire_burst,
}

-- What `due` leaves behind, and the kind and the summary of the image that it offers.
pub record Due : Type 0 where
  pub scheduler : Scheduler
  pub periodic : PeriodicSchedule
  pub image : Option (String × String)

-- `self.last_queued != Some((frame.session, frame.sequence))`.
abbrev pub not_queued : Scheduler → Frame → Bool
not_queued s frame =
    not (is_some_and s.last_queued (λ last. last.0 == frame.session && last.1 == frame.sequence))

abbrev post_slew_summary : String
post_slew_summary =
    "Pier camera: Post-slew image after mount slew completed (exposure timing estimated)"

abbrev context_caption : Option TelescopeContext → String → String
context_caption none summary = summary
context_caption (some context) summary = caption context summary

-- The test of the post-slew image.
abbrev pub finish_due : Scheduler → Frame → ℕ → ℕ → SlewFinish → Bool
finish_due s frame now wall_ms p =
    ltb p.after_sequence frame.sequence
    && is_none_or s.last_queued_at (λ at. leb (from_secs s.rules.spacing_seconds) (now - at))
    && not_queued s frame
    && is_some_and frame.conservative_start_unix_ms
        (λ start. ltb p.after_unix_ms start && leb start wall_ms)
    && leb (wall_ms - frame.captured_at_unix_ms) 120000
    && leb frame.captured_at_unix_ms wall_ms

abbrev pub finish_over : SlewFinish → Frame → ℕ → Bool
finish_over p frame now = not (p.session == frame.session) || leb p.deadline now

unfoldable pub expire_finish : Scheduler → Frame → ℕ → Scheduler
expire_finish s frame now =
    if is_some_and s.slew_finish (λ p. finish_over p frame now)
    then record s { slew_finish = none }
    else s

-- A periodic slot asks for one image, unless a burst is on.
unfoldable pub start_periodic : Scheduler → Bool → Frame → ℕ → Scheduler
unfolding trigger
start_periodic s periodic_due frame now =
    if not (periodic_due && not (is_some s.burst))
    then s
    else let t : Scheduler = trigger s "periodic" "Scheduled pier-camera image" frame now false in
      record t { burst = map_option {A = Burst} (λ b. record b { remaining = 1 }) t.burst }

-- The test of a burst's next image.
abbrev pub burst_due : Scheduler → Frame → ℕ → ℕ → Burst → Bool
burst_due s frame now wall_ms b =
    leb b.due now
    && not_queued s frame
    && ltb b.after_sequence frame.sequence
    && leb (wall_ms - frame.captured_at_unix_ms) 120000
    && leb frame.captured_at_unix_ms (saturating_add wall_ms 30000)

unfoldable pub telescope_summary : Burst → Option TelescopeEvent → String
telescope_summary b none = b.summary
telescope_summary b (some event) =
    let index : ℕ = u8_add (u8_sub b.total b.remaining) 1 in
    "Pier camera: "
    +++ (if index == 1 then "Update" else "Follow-up")
    +++ " after "
    +++ description event
    +++ " (image "
    +++ show_u8 index
    +++ " of "
    +++ show_u8 b.total
    +++ ")"

unfoldable pub burst_image : Burst → String × String
unfolding telescope_summary
burst_image b = (b.kind, context_caption b.context (telescope_summary b b.telescope))

-- The last part of `due`, on the scheduler with what is over removed.
unfoldable pub offer_burst : Scheduler → PeriodicSchedule → Frame → ℕ → ℕ → Due
unfolding burst_image
offer_burst s periodic frame now wall_ms = record {
  scheduler = s;
  periodic = periodic;
  image = elim s.burst [
    | none ↦ none
    | some b ↦ if burst_due s frame now wall_ms b then some (burst_image b) else none
  ];
}

unfoldable pub offer_finish : Scheduler → PeriodicSchedule → Due
offer_finish s periodic = record {
  scheduler = record s { finish_ready = true };
  periodic = periodic;
  image = some (
    "telescope_event",
    context_caption (elim s.slew_finish [ none ↦ none | some p ↦ p.context ]) post_slew_summary,
  );
}

-- `due` on a frame, the slot already read.
unfoldable pub due_frame : Scheduler → PeriodicSchedule → Bool → Frame → ℕ → ℕ → Due
due_frame s periodic periodic_due frame now wall_ms =
    let t : Scheduler = expire_finish s frame now in
    if is_some_and t.slew_finish (finish_due t frame now wall_ms)
    then offer_finish t periodic
    else offer_burst (start_periodic (expire_burst t frame now) periodic_due frame now) periodic
        frame now wall_ms

unfoldable pub due_from : Scheduler → PeriodicSchedule × Bool → Option Frame → ℕ → ℕ → Due
due_from s slot none now wall_ms = record {
  scheduler = record s { burst = none; slew_finish = none };
  periodic = slot.0;
  image = none;
}
due_from s slot (some frame) now wall_ms = due_frame s slot.0 slot.1 frame now wall_ms

unfoldable pub due : Scheduler → Option Frame → ℕ → ℕ → PeriodicSchedule → Due
due s frame now wall_ms periodic =
    due_from (record s { finish_ready = false }) (slot_due periodic wall_ms) frame now wall_ms

-- The context of the pending post-slew request.
abbrev finish_context : Option SlewFinish → Option TelescopeContext
finish_context none = none
finish_context (some p) = p.context

abbrev burst_context : Option Burst → Option TelescopeContext
burst_context none = none
burst_context (some b) = b.context

-- The post-slew image ends its request, and the burst that the slew's start asked for.
unfoldable pub queued_finish : Scheduler → Scheduler
queued_finish s =
    if is_some_and s.burst (λ b. is_some_and b.telescope (λ e. event_eq e slew_started))
      && same_source (burst_context s.burst) (finish_context s.slew_finish)
    then record s { finish_ready = false; slew_finish = none; burst = none }
    else record s { finish_ready = false; slew_finish = none }

-- One image less, the next one after the spacing and from a later frame.
unfoldable pub advance_burst : Scheduler → Frame → ℕ → Burst → Scheduler
advance_burst s frame now b =
    let left : ℕ = u8_sub b.remaining 1 in
    if left == 0 then record s { burst = none } else record s {
      burst = some (record b {
        remaining = left;
        after_sequence = frame.sequence;
        due = now + from_secs s.rules.spacing_seconds;
      });
    }

unfoldable pub queued_burst : Scheduler → Frame → ℕ → Option Burst → Scheduler
queued_burst s frame now none = s
queued_burst s frame now (some b) = advance_burst s frame now b

unfoldable pub queued : Scheduler → Frame → ℕ → Scheduler
queued s frame now =
    let t : Scheduler = record s {
      last_queued = some (frame.session, frame.sequence);
      last_queued_at = some now;
    } in
    if s.finish_ready then queued_finish t else queued_burst t frame now t.burst

-- The post-slew image is offered.
abbrev pub offers_finish : Scheduler → Frame → ℕ → ℕ → Bool
offers_finish s frame now wall_ms =
    is_some_and (expire_finish s frame now).slew_finish
      (finish_due (expire_finish s frame now) frame now wall_ms)

-- The scheduler from which a burst's image is offered.
abbrev pub current : Scheduler → Bool → Frame → ℕ → Scheduler
current s periodic_due frame now =
    start_periodic (expire_burst (expire_finish s frame now) frame now) periodic_due frame now

-- The two cases of `due_frame`.
pub due_frame_cases {ℓ} :
    (Q : Due → Type ℓ) (s : Scheduler) (periodic : PeriodicSchedule) (periodic_due : Bool)
    (frame : Frame) (now wall_ms : ℕ)
    → (offers_finish s frame now wall_ms ≡ true
        → Q (offer_finish (expire_finish s frame now) periodic))
    → (offers_finish s frame now wall_ms ≡ false
        → Q (offer_burst (current s periodic_due frame now) periodic frame now wall_ms))
    → Q (due_frame s periodic periodic_due frame now wall_ms)
unfolding due_frame
due_frame_cases Q s periodic periodic_due frame now wall_ms =
    if_split Q (offers_finish s frame now wall_ms)
