-- ===== src/Retention/Worker/End.antt =====
-- How many steps the thread takes once the stop flag is set, and that it is never stuck.
use autopiercam.Base.{
  ℕ, ◌+◌, ◌≤◌, ◌≡◌, refl, Bool, true, false, Option, none, some, List, [], ◌∷◌, arith, IfSome,
  IfSome-map, is_some, if◌then◌else◌,
}
use autopiercam.Retention.Environment.{RetentionTelemetry}
use autopiercam.Retention.Worker.{
  Phase, receiving, draining, loading, loaded, sweeping, observing, checking, final, final_sweeping,
  final_observing, ended, exited, Shared, store_suspended, call_observer, Action, send, suspend,
  set_stop, join, receive, time_out, disconnect, drain, drained, load_stop, begin_sweep, notify,
  check_stop, drop_guard, publish, receive_step, sweep_step, step, try_send, has_exited, run,
}

-- The steps that are left for the thread, without those that take a wake-up.
abbrev rank : Phase → ℕ
rank receiving = 11
rank draining = 10
rank loading = 9
rank (loaded before) = 8
rank (sweeping before) = 7
rank (observing before) = 6
rank (checking before) = 5
rank final = 4
rank final_sweeping = 3
rank final_observing = 2
rank ended = 1
rank exited = 0

abbrev pub steps_left : Shared → ℕ
steps_left s = rank s.phase + (if s.wake then 1 else 0)

-- The steps of the thread.
abbrev pub is_own : Action → Bool
is_own send = false
is_own suspend = false
is_own set_stop = false
is_own join = false
is_own _ = true

abbrev pub own_steps : List Action → ℕ
own_steps [] = 0
own_steps (a ∷ rest) = (if is_own a then 1 else 0) + own_steps rest

abbrev pub is_send : Action → Bool
is_send send = true
is_send _ = false

abbrev pub sends : List Action → ℕ
sends [] = 0
sends (a ∷ rest) = (if is_send a then 1 else 0) + sends rest

-- After one step the flag is still set, and a step of the thread is paid for.
record IsPaid (before : ℕ) (a : Action) (t : Shared) : Type 0 where
  stopped : t.stop ≡ true
  paid : (if is_own a then 1 else 0) + steps_left t ≤ before + (if is_send a then 1 else 0)

receive_step-IsPaid :
    (s : Shared) (p : Phase) (a : Action)
    → is_own a ≡ true
    → s.stop ≡ true
    → IfSome (IsPaid (rank p + (if s.wake then 1 else 0)) a) (receive_step s p a)
unfolding receive_step
receive_step-IsPaid s receiving receive o h = ground arith
receive_step-IsPaid s receiving time_out o h = ground arith
receive_step-IsPaid s receiving disconnect o h = ground arith
receive_step-IsPaid s draining drain o h = ground arith
receive_step-IsPaid s draining drained o h = ground arith
receive_step-IsPaid s draining disconnect o h = ground arith
receive_step-IsPaid s p a o h = tt

sweep_step-IsPaid :
    (s : Shared) (p : Phase) (a : Action)
    → is_own a ≡ true
    → s.stop ≡ true
    → IfSome (IsPaid (rank p + (if s.wake then 1 else 0)) a) (sweep_step s p a)
unfolding sweep_step store_suspended call_observer
sweep_step-IsPaid s loading load_stop o h = ground arith
sweep_step-IsPaid s (loaded before) begin_sweep o h = ground arith
sweep_step-IsPaid s (sweeping before) (publish t) o h = ground arith
sweep_step-IsPaid s (observing before) notify o h = ground arith
sweep_step-IsPaid s (checking before) check_stop o h = ground arith
sweep_step-IsPaid s final begin_sweep o h = ground arith
sweep_step-IsPaid s final_sweeping (publish t) o h = ground arith
sweep_step-IsPaid s final_observing notify o h = ground arith
sweep_step-IsPaid s ended drop_guard o h = ground arith
sweep_step-IsPaid s p a o h = tt

step-IsPaid :
    (s : Shared) (a : Action) → s.stop ≡ true → IfSome (IsPaid (steps_left s) a) (step s a)
unfolding step try_send
step-IsPaid s send h = ground arith
step-IsPaid s suspend h = ground arith
step-IsPaid s set_stop h = ground arith
step-IsPaid s join h = ground arith
step-IsPaid s receive h = receive_step-IsPaid s s.phase receive refl h
step-IsPaid s time_out h = receive_step-IsPaid s s.phase time_out refl h
step-IsPaid s disconnect h = receive_step-IsPaid s s.phase disconnect refl h
step-IsPaid s drain h = receive_step-IsPaid s s.phase drain refl h
step-IsPaid s drained h = receive_step-IsPaid s s.phase drained refl h
step-IsPaid s load_stop h = sweep_step-IsPaid s s.phase load_stop refl h
step-IsPaid s begin_sweep h = sweep_step-IsPaid s s.phase begin_sweep refl h
step-IsPaid s notify h = sweep_step-IsPaid s s.phase notify refl h
step-IsPaid s check_stop h = sweep_step-IsPaid s s.phase check_stop refl h
step-IsPaid s drop_guard h = sweep_step-IsPaid s s.phase drop_guard refl h
step-IsPaid s (publish t) h = sweep_step-IsPaid s s.phase (publish t) refl h

run_paid :
    (s : Shared) (actions : List Action)
    → s.stop ≡ true
    → IfSome (λ t. own_steps actions + steps_left t ≤ steps_left s + sends actions) (run s actions)
run_paid s [] h = omega arith
run_paid s (a ∷ rest) h = next (step s a) (step-IsPaid s a h) (λ t. run_paid t rest)
  where
    next :
        (r : Option Shared)
        → IfSome (IsPaid (steps_left s) a) r
        → ((t : Shared)
            → t.stop ≡ true
            → IfSome (λ u. own_steps rest + steps_left u ≤ steps_left t + sends rest) (run t rest))
        → IfSome
            (λ u. own_steps (a ∷ rest) + steps_left u ≤ steps_left s + sends (a ∷ rest))
            (elim r [ none ↦ none | some t ↦ run t rest ])
    next none j f = tt
    next (some t) j f = last (run t rest) (f t j.stopped)
      where
        last :
            (q : Option Shared)
            → IfSome (λ u. own_steps rest + steps_left u ≤ steps_left t + sends rest) q
            → IfSome (λ u. own_steps (a ∷ rest) + steps_left u ≤ steps_left s + sends (a ∷ rest)) q
        last none i = tt
        last (some u) i = omega (arith, j.paid, i)

-- A step of the thread that can be taken.
abbrev pub CanStep : Shared → Type 0
CanStep s = (a : Action) × (is_own a ≡ true) × (is_some (step s a) ≡ true)

can_step :
    (published observed : RetentionTelemetry) (stop capture_suspended wake connected : Bool)
    (phase : Phase)
    → has_exited phase ≡ false
    → CanStep (record {
      stop = stop;
      capture_suspended = capture_suspended;
      wake = wake;
      connected = connected;
      phase = phase;
      published = published;
      observed = observed;
    })
unfolding step receive_step sweep_step
can_step t u stop c true connected receiving h = (receive, refl, refl)
can_step t u stop c false connected receiving h = (time_out, refl, refl)
can_step t u stop c true connected draining h = (drain, refl, refl)
can_step t u stop c false true draining h = (drained, refl, refl)
can_step t u stop c false false draining h = (disconnect, refl, refl)
can_step t u stop c wake connected loading h = (load_stop, refl, refl)
can_step t u stop c wake connected (loaded b) h = (begin_sweep, refl, refl)
can_step t u stop c wake connected (sweeping b) h = (publish t, refl, refl)
can_step t u stop c wake connected (observing b) h = (notify, refl, refl)
can_step t u stop c wake connected (checking b) h = (check_stop, refl, refl)
can_step t u stop c wake connected final h = (begin_sweep, refl, refl)
can_step t u stop c wake connected final_sweeping h = (publish t, refl, refl)
can_step t u stop c wake connected final_observing h = (notify, refl, refl)
can_step t u stop c wake connected ended h = (drop_guard, refl, refl)
can_step t u stop c wake connected exited h = cc h

rank-le : (p : Phase) → rank p ≤ 11
rank-le p = ground arith

steps_left-le : (s : Shared) → steps_left s ≤ 12
steps_left-le s = ground (arith, rank-le s.phase)

-- The thread is never stuck, and once the stop flag is set it takes at most twelve steps more, and one
-- for each wake-up that is still sent, whatever the handle and the sinks do.
pub run_stopped :
    (s : Shared)
    → (has_exited s.phase ≡ false → CanStep s)
      × (s.stop ≡ true
          → (actions : List Action)
          → IfSome (λ t. own_steps actions ≤ 12 + sends actions) (run s actions))
run_stopped s = (
  can_step s.published s.observed s.stop s.capture_suspended s.wake s.connected s.phase,
  λ h actions.
      IfSome-map _ (λ t. own_steps actions ≤ 12 + sends actions) (run s actions)
        (λ t i. omega (arith, i, steps_left-le s)) (run_paid s actions h),
)
