-- ===== src/Tests/Triggers.antt =====
-- Runs of the image scheduler, and its theorems applied to them.
use autopiercam.Base.{
  ℕ, ◌+◌, ◌*◌, ◌≤◌, ◌≡◌, refl, ◌⊎◌, true, false, none, some, List, [], ◌∷◌, arith, pos,
}
use autopiercam.Triggers.Rules.{
  TriggerRules, Preferences, Settings, preferences_in_range, rules_in_force, Narrows,
  rules_in_force-Narrows,
}
use autopiercam.Triggers.Events.{slew_started, sequence_started, operation, parse_context}
use autopiercam.Triggers.Periodic.{PeriodicSchedule, no_schedule, slot_due}
use autopiercam.Triggers.Scheduler.{
  from_secs, Frame, TelescopeContext, Burst, SlewFinish, Scheduler, new, trigger, new_slew_finish,
  on_slew_completed, supersede, expire_burst, attach, label, relabel, on_event,
  telescope_trigger_with_context,
}
use autopiercam.Triggers.Delivery.{
  due, due_from, due_frame, queued, queued_burst, advance_burst, queued_finish, expire_finish,
  start_periodic, offer_burst,
}
use autopiercam.Triggers.Invariant.{
  IsValid, new-IsValid, telescope_trigger-IsValid, due-IsValid, queued-IsValid,
}
use autopiercam.Triggers.Freshness.{IsFreshOffer, due-IsFreshOffer}
use autopiercam.Triggers.Slew.{
  IsFreshRequest, Stands, StillOn, slew_completed_request, other_source_keeps_request,
  event_keeps_burst,
}
use autopiercam.Triggers.Polls.{Poll, poll_all, poll_once, budget, slots, sent-le-budget}

abbrev rules : TriggerRules
rules = record {
  interval_minutes = 10;
  scene_changes = true;
  day_night = false;
  telescope_events = true;
  burst_count = 3;
  spacing_seconds = 60;
}

abbrev preferences : Preferences
preferences = record {
  scene_changes = true;
  day_night = false;
  interval_minutes = 5;
  telescope_events = true;
  chat_configuration = true;
  burst_count = 3;
  spacing_seconds = 60;
}

abbrev settings : Settings
settings = record { preferences = preferences; remote_rules = some rules }

rules_in_force-Narrows_example : Narrows (rules_in_force settings) preferences
unfolding preferences_in_range
rules_in_force-Narrows_example = rules_in_force-Narrows settings refl

plate_solve_parses : parse_context "plate_solve_failed" ≡ some (operation "plate solving" "failed")
unfolding parse_context
plate_solve_parses = refl

abbrev ten_minutes : PeriodicSchedule
ten_minutes = record { interval_ms = 600000; next_ms = 600000 }

abbrev frame : ℕ → ℕ → Frame
frame sequence captured = record {
  conservative_start_unix_ms = some captured;
  session = 1;
  sequence = sequence;
  captured_at_unix_ms = captured;
  exposure_us = some (pos 2000000);
}

abbrev scope : ℕ → TelescopeContext
scope id = record { telescope_id = pos id; telescope_name = "East"; target_name = some "M 31" }

-- A burst of three that a started sequence asked for.
abbrev bursting : Scheduler
bursting = on_event (new rules) sequence_started none (frame 5 1000) 0 1000

rules-IsValid : IsValid (new rules)
unfolding new
rules-IsValid = new-IsValid rules (omega arith) (omega arith)

telescope_trigger-IsValid_example :
    IsValid
      (telescope_trigger_with_context (new rules) "sequence_started" none (frame 5 1000) 0 1000)
telescope_trigger-IsValid_example =
    telescope_trigger-IsValid (new rules) "sequence_started" none (frame 5 1000) 0 1000
      rules-IsValid

due-IsValid_example : IsValid (due (new rules) (some (frame 6 2000)) 1 2000 ten_minutes).scheduler
due-IsValid_example = due-IsValid (new rules) (some (frame 6 2000)) 1 2000 ten_minutes rules-IsValid

queued-IsValid_example : IsValid (queued (new rules) (frame 6 2000) 1)
queued-IsValid_example = queued-IsValid (new rules) (frame 6 2000) 1 rules-IsValid

due-IsFreshOffer_example :
    IsFreshOffer bursting
      (frame 6 2000)
      1
      2000
      (due bursting (some (frame 6 2000)) 1 2000 no_schedule)
unfolding new on_event attach trigger expire_burst supersede label relabel due due_from due_frame
    slot_due expire_finish start_periodic offer_burst
due-IsFreshOffer_example = due-IsFreshOffer bursting (frame 6 2000) 1 2000 no_schedule refl

abbrev pending : Scheduler
pending = on_slew_completed (new rules) (some (scope 1)) (frame 5 1000) 0 1000

slew_completed_request_example :
    let t = on_slew_completed pending (some (scope 1)) (frame 6 2000) 5 2000 in
    (Stands pending.slew_finish (some (scope 1)) (frame 6 2000) 5 × (t ≡ pending))
    ⊎ (¬ Stands pending.slew_finish (some (scope 1)) (frame 6 2000) 5
        × (p : SlewFinish) × IsFreshRequest p (some (scope 1)) (frame 6 2000) 5 2000
        × (t ≡ record pending { slew_finish = some p }))
slew_completed_request_example =
    slew_completed_request pending (some (scope 1)) (frame 6 2000) 5 2000

abbrev request : SlewFinish
request = new_slew_finish (some (scope 1)) (frame 5 1000) 0 1000

abbrev running : Burst
running = record {
  kind = "telescope_event";
  summary = "";
  telescope = some sequence_started;
  context = none;
  total = 3;
  session = 1;
  after_sequence = 5;
  remaining = 3;
  due = 0;
  deadline = from_secs 300;
}

abbrev poll : ℕ → ℕ → Poll
poll sequence at = record {
  frame = some (frame sequence (at * 1000));
  now = from_secs at;
  wall_ms = at * 1000;
  accepted = true;
  queued_at = from_secs at;
}

abbrev polls : List Poll
polls = poll 6 10 ∷ poll 7 20 ∷ poll 8 70 ∷ poll 9 140 ∷ poll 10 200 ∷ []

three_sent : (poll_all bursting no_schedule polls).sent ≡ 3
unfolding new on_event attach trigger expire_burst supersede label relabel due due_from due_frame
    slot_due expire_finish start_periodic poll_all poll_once queued queued_burst advance_burst
    queued_finish offer_burst
three_sent = refl

bursting-IsValid : IsValid bursting
unfolding new on_event attach trigger expire_burst supersede label
bursting-IsValid = record {
  count_positive = omega arith;
  count_byte = omega arith;
  burst = omega arith;
}

sent-le-budget_example :
    (poll_all bursting no_schedule polls).sent ≤ budget bursting + slots no_schedule polls
sent-le-budget_example = sent-le-budget bursting no_schedule polls bursting-IsValid

-- The first telescope's request stands when the second one's mount starts a slew.
other_source_keeps_request_example :
    (on_event pending slew_started (some (scope 2)) (frame 6 2000) 5 2000).slew_finish
    ≡ some request
unfolding on_slew_completed new new_slew_finish
other_source_keeps_request_example =
    other_source_keeps_request pending slew_started (some (scope 2)) (frame 6 2000) 5 2000 request
      refl (omega arith) refl

-- A burst of three images is on when another event of the telescope comes.
event_keeps_burst_example :
    StillOn running
      (on_event
        (record (new rules) { burst = some running })
        sequence_started
        none
        (frame 6 2000)
        (from_secs 10)
        2000).burst
event_keeps_burst_example =
    event_keeps_burst (record (new rules) { burst = some running }) sequence_started none
      (frame 6 2000) (from_secs 10) 2000 running refl refl (omega arith)
