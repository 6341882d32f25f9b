-- ===== src/Triggers/Scheduler.antt =====
-- `Scheduler`: one burst and one post-slew request at a time, over completed frames. An `Instant`
-- is a number of nanoseconds.
use Prim.Native.String.{String}
use autopiercam.Base.{
  ℕ, ◌+◌, ◌-◌, ◌*◌, ℤ, int_eq, to_unsigned, Bool, true, false, not, ◌&&◌, ◌||◌, Option, none, some,
  leb, ltb, ◌==◌, if◌then◌else◌, is_some, is_some_and, is_none_or, unwrap_or, map_option,
  saturating_add, saturating_mul, u8_sub, div_ceil, clamp,
}
use autopiercam.Base.Text.{◌+++◌, take_chars}
use autopiercam.Triggers.Rules.{TriggerRules}
use autopiercam.Triggers.Events.{
  TelescopeEvent, slew_started, slew_completed, event_eq, parse, parse_context,
}

-- `Duration::from_secs`.
abbrev pub from_secs : ℕ → ℕ
from_secs n = n * 1000000000

-- The fields of `Frame` that the scheduler reads.
pub record Frame : Type 0 where
  pub conservative_start_unix_ms : Option ℕ
  pub session : ℕ
  pub sequence : ℕ
  pub captured_at_unix_ms : ℕ
  pub exposure_us : Option ℤ

-- The fields of `TelescopeContext` that the scheduler reads.
pub record TelescopeContext : Type 0 where
  pub telescope_id : ℤ
  pub telescope_name : String
  pub target_name : Option String

unfoldable pub caption_suffix : TelescopeContext → Option String → String
caption_suffix context none = " · " +++ context.telescope_name
caption_suffix context (some target) = " · " +++ context.telescope_name +++ " · Target: " +++ target

unfoldable pub caption : TelescopeContext → String → String
unfolding caption_suffix
caption context summary = take_chars 300 (summary +++ caption_suffix context context.target_name)

abbrev pub same_source : Option TelescopeContext → Option TelescopeContext → Bool
same_source none none = true
same_source (some left) (some right) = int_eq left.telescope_id right.telescope_id
same_source _ _ = false

pub record Burst : Type 0 where
  pub kind : String
  pub summary : String
  pub telescope : Option TelescopeEvent
  pub context : Option TelescopeContext
  pub total : ℕ
  pub session : ℕ
  pub after_sequence : ℕ
  pub remaining : ℕ
  pub due : ℕ
  pub deadline : ℕ

pub record SlewFinish : Type 0 where
  pub session : ℕ
  pub after_sequence : ℕ
  pub after_unix_ms : ℕ
  pub deadline : ℕ
  pub context : Option TelescopeContext

pub record Scheduler : Type 0 where
  pub slew_finish : Option SlewFinish
  pub finish_ready : Bool
  pub last_queued_at : Option ℕ
  pub rules : TriggerRules
  pub burst : Option Burst
  pub last_queued : Option (ℕ × ℕ)

unfoldable pub new : TriggerRules → Scheduler
new rules = record {
  slew_finish = none;
  finish_ready = false;
  last_queued_at = none;
  rules = rules;
  burst = none;
  last_queued = none;
}

unfoldable pub new_burst : Scheduler → String → String → Frame → ℕ → Bool → Burst
new_burst s kind summary frame now wait_new = record {
  kind = kind;
  summary = summary;
  telescope = none;
  context = none;
  total = s.rules.burst_count;
  session = frame.session;
  after_sequence = if wait_new then frame.sequence else frame.sequence - 1;
  remaining = s.rules.burst_count;
  due = now;
  deadline = now + from_secs (180 + s.rules.spacing_seconds * u8_sub s.rules.burst_count 1);
}

unfoldable pub trigger : Scheduler → String → String → Frame → ℕ → Bool → Scheduler
unfolding new_burst
trigger s kind summary frame now wait_new =
    if is_some s.burst
    then s
    else record s { burst = some (new_burst s kind summary frame now wait_new) }

-- The request that a completed slew makes.
unfoldable pub new_slew_finish : Option TelescopeContext → Frame → ℕ → ℕ → SlewFinish
new_slew_finish context frame now wall_ms =
    let exposure_us : ℕ = elim frame.exposure_us [
      | none ↦ 60000000
      | some v ↦ unwrap_or (to_unsigned v) 60000000
    ] in
    let exposure_seconds : ℕ = div_ceil exposure_us 1000000 in
    record {
      session = frame.session;
      after_sequence = frame.sequence;
      after_unix_ms = wall_ms;
      deadline =
          now + from_secs (clamp (saturating_add (saturating_mul exposure_seconds 4) 180) 300 3600);
      context = context;
    }

unfoldable pub on_slew_completed : Scheduler → Option TelescopeContext → Frame → ℕ → ℕ → Scheduler
on_slew_completed s context frame now wall_ms =
    if is_some_and s.slew_finish (λ p. ltb now p.deadline && not (same_source p.context context))
    then s
    else if is_none_or s.slew_finish (λ p. not (p.session == frame.session) || leb p.deadline now)
    then record s { slew_finish = some (new_slew_finish context frame now wall_ms) }
    else s

-- A new slew supersedes the pending request of its own telescope.
unfoldable pub supersede : Scheduler → TelescopeEvent → Option TelescopeContext → Scheduler
supersede s event context =
    if event_eq event slew_started && is_none_or s.slew_finish (λ p. same_source p.context context)
    then record s { slew_finish = none }
    else s

abbrev pub burst_over : Burst → Frame → ℕ → Bool
burst_over b frame now = not (b.session == frame.session) || leb b.deadline now

unfoldable pub expire_burst : Scheduler → Frame → ℕ → Scheduler
expire_burst s frame now =
    if is_some_and s.burst (λ b. burst_over b frame now) then record s { burst = none } else s

unfoldable pub label : Option TelescopeContext → TelescopeEvent → Burst → Burst
label context event b = record b { telescope = some event; context = context }

-- The caption of a running burst may follow a new event, for frames after it.
unfoldable pub relabel : Option TelescopeContext → TelescopeEvent → Frame → Burst → Burst
relabel context event frame b =
    if not (is_some b.context)
      && (not (is_some context)
          && is_some_and b.telescope (λ previous. not (event_eq previous event)))
    then record b { telescope = some event; after_sequence = frame.sequence }
    else b

unfoldable pub attach : Scheduler → TelescopeEvent → Option TelescopeContext → Frame → ℕ → Scheduler
attach s event context frame now =
    if is_some s.burst
    then record s { burst = map_option (relabel context event frame) s.burst }
    else let t : Scheduler = trigger s "telescope_event" "" frame now true in
      record t { burst = map_option (label context event) t.burst }

unfoldable pub on_event :
    Scheduler → TelescopeEvent → Option TelescopeContext → Frame → ℕ → ℕ → Scheduler
on_event s event context frame now wall_ms =
    if event_eq event slew_completed
    then on_slew_completed s context frame now wall_ms
    else attach (expire_burst (supersede s event context) frame now) event context frame now

unfoldable pub telescope_trigger_with_context :
    Scheduler → String → Option TelescopeContext → Frame → ℕ → ℕ → Scheduler
telescope_trigger_with_context s event context frame now wall_ms =
    elim (if is_some context then parse_context event else parse event) [
      | none ↦ s
      | some e ↦ on_event s e context frame now wall_ms
    ]

unfoldable pub telescope_trigger : Scheduler → String → Frame → ℕ → ℕ → Scheduler
telescope_trigger s event frame now wall_ms =
    telescope_trigger_with_context s event none frame now wall_ms
