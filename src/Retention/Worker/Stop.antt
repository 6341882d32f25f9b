-- ===== src/Retention/Worker/Stop.antt =====
-- What follows a stop request: the last sweep, and the end of the thread.
use autopiercam.Base.{
  ◌≡◌, refl, Bool, true, false, ◌||◌, Option, none, some, List, [], ◌∷◌, arith, IfSome, IfSome-map,
  All, All-intro, if_split,
}
use autopiercam.Retention.Environment.{RetentionTelemetry}
use autopiercam.Retention.Worker.{
  Phase, receiving, draining, loading, loaded, sweeping, observing, checking, final, final_sweeping,
  final_observing, ended, exited, Shared, store_suspended, call_observer, started, Action, send,
  suspend, set_stop, join, receive, time_out, disconnect, drain, drained, load_stop, begin_sweep,
  notify, check_stop, drop_guard, publish, receive_step, sweep_step, step, try_send, has_exited,
  has_returned, run,
}

-- What an observer of the actions knows: the stop was requested, and a sweep began after that.
pub record Watch : Type 0 where
  pub stopped : Bool
  pub swept : Bool

abbrev pub observe : Watch → Action → Watch
observe o set_stop = record o { stopped = true }
observe o begin_sweep = record o { swept = o.swept || o.stopped }
observe o _ = o

abbrev pub observe_all : Watch → List Action → Watch
observe_all o [] = o
observe_all o (a ∷ rest) = observe_all (observe o a) rest

-- What a phase knows of the flags and of the observer.
abbrev pub Knows : Shared → Watch → Phase → Type 0
Knows s o (loaded true) = (s.stop ≡ o.stopped) × (s.stop ≡ true)
Knows s o (sweeping true) = (s.stop ≡ o.stopped) × (o.swept ≡ true)
Knows s o (observing true) = (s.stop ≡ o.stopped) × (o.swept ≡ true)
Knows s o (checking true) = (s.stop ≡ o.stopped) × (o.swept ≡ true)
Knows s o final = (s.stop ≡ o.stopped) × (s.stop ≡ true)
Knows s o final_sweeping = (s.stop ≡ o.stopped) × (o.swept ≡ true)
Knows s o final_observing = (s.stop ≡ o.stopped) × (o.swept ≡ true)
Knows s o ended = o.swept ≡ true
Knows s o exited = o.swept ≡ true
Knows s o _ = s.stop ≡ o.stopped

abbrev pub IsConnected : Shared → Phase → Type 0
IsConnected s exited = Unit
IsConnected s _ = s.connected ≡ true

pub record IsTracked (s : Shared) (o : Watch) : Type 0 where
  pub knows : Knows s o s.phase
  pub connected : IsConnected s s.phase

sweep_step-IsTracked :
    (s : Shared) (o : Watch) (p : Phase) (a : Action)
    → Knows s o p
    → IsConnected s p
    → IfSome (λ t. IsTracked t (observe o a)) (sweep_step s p a)
unfolding sweep_step store_suspended call_observer
sweep_step-IsTracked s o loading load_stop k c = ground arith
sweep_step-IsTracked s o (loaded true) begin_sweep k c = ground arith
sweep_step-IsTracked s o (loaded false) begin_sweep k c = ground arith
sweep_step-IsTracked s o (sweeping true) (publish t) k c = ground arith
sweep_step-IsTracked s o (sweeping false) (publish t) k c = ground arith
sweep_step-IsTracked s o (observing true) notify k c = ground arith
sweep_step-IsTracked s o (observing false) notify k c = ground arith
sweep_step-IsTracked s o (checking true) check_stop k c = ground arith
sweep_step-IsTracked s o (checking false) check_stop k c = ground arith
sweep_step-IsTracked s o final begin_sweep k c = ground arith
sweep_step-IsTracked s o final_sweeping (publish t) k c = ground arith
sweep_step-IsTracked s o final_observing notify k c = ground arith
sweep_step-IsTracked s o ended drop_guard k c = ground arith
sweep_step-IsTracked s o p a k c = tt

receive_step-IsTracked :
    (s : Shared) (o : Watch) (p : Phase) (a : Action)
    → Knows s o p
    → IsConnected s p
    → IfSome (λ t. IsTracked t o) (receive_step s p a)
unfolding receive_step
receive_step-IsTracked s o receiving receive k c = ground arith
receive_step-IsTracked s o receiving time_out k c = ground arith
receive_step-IsTracked s o receiving disconnect k c = ground arith
receive_step-IsTracked s o draining drain k c = ground arith
receive_step-IsTracked s o draining drained k c = ground arith
receive_step-IsTracked s o draining disconnect k c = ground arith
receive_step-IsTracked s o p a k c = tt

stopped-Knows :
    (s : Shared) (o : Watch) (p : Phase)
    → Knows s o p
    → Knows (record s { stop = true }) (record o { stopped = true }) p
stopped-Knows s o receiving k = refl
stopped-Knows s o draining k = refl
stopped-Knows s o loading k = refl
stopped-Knows s o (loaded true) k = (refl, refl)
stopped-Knows s o (loaded false) k = refl
stopped-Knows s o (sweeping true) k = (refl, k.1)
stopped-Knows s o (sweeping false) k = refl
stopped-Knows s o (observing true) k = (refl, k.1)
stopped-Knows s o (observing false) k = refl
stopped-Knows s o (checking true) k = (refl, k.1)
stopped-Knows s o (checking false) k = refl
stopped-Knows s o final k = (refl, refl)
stopped-Knows s o final_sweeping k = (refl, k.1)
stopped-Knows s o final_observing k = (refl, k.1)
stopped-Knows s o ended k = k
stopped-Knows s o exited k = k

returned-Knows :
    (s : Shared) (o : Watch) (p : Phase)
    → has_returned p ≡ true
    → Knows s o p
    → Knows (record s { stop = true }) o p
returned-Knows s o ended h k = k
returned-Knows s o exited h k = k
returned-Knows s o p h k = cc h

exited-IsConnected : (t : Shared) (p : Phase) → has_exited p ≡ true → IsConnected t p
exited-IsConnected t exited h = tt
exited-IsConnected t p h = cc h

step-IsTracked :
    (s : Shared) (o : Watch) (a : Action)
    → IsTracked s o
    → IfSome (λ t. IsTracked t (observe o a)) (step s a)
unfolding step try_send
step-IsTracked s o send k =
    if_split (λ t. IsTracked t o) (has_returned s.phase)
      (λ h. record { knows = returned-Knows s o s.phase h k.knows; connected = k.connected })
      (λ h. record { knows = k.knows; connected = k.connected })
step-IsTracked s o suspend k = record { knows = k.knows; connected = k.connected }
step-IsTracked s o set_stop k = record {
  knows = stopped-Knows s o s.phase k.knows;
  connected = k.connected;
}
step-IsTracked s o join k =
    if_split (λ r. IfSome (λ t. IsTracked t o) r) (has_exited s.phase)
      (λ h. record {
        knows = k.knows;
        connected = exited-IsConnected (record s { connected = false }) s.phase h;
      })
      (λ h. tt)
step-IsTracked s o receive k = receive_step-IsTracked s o s.phase receive k.knows k.connected
step-IsTracked s o time_out k = receive_step-IsTracked s o s.phase time_out k.knows k.connected
step-IsTracked s o disconnect k = receive_step-IsTracked s o s.phase disconnect k.knows k.connected
step-IsTracked s o drain k = receive_step-IsTracked s o s.phase drain k.knows k.connected
step-IsTracked s o drained k = receive_step-IsTracked s o s.phase drained k.knows k.connected
step-IsTracked s o load_stop k = sweep_step-IsTracked s o s.phase load_stop k.knows k.connected
step-IsTracked s o begin_sweep k = sweep_step-IsTracked s o s.phase begin_sweep k.knows k.connected
step-IsTracked s o notify k = sweep_step-IsTracked s o s.phase notify k.knows k.connected
step-IsTracked s o check_stop k = sweep_step-IsTracked s o s.phase check_stop k.knows k.connected
step-IsTracked s o drop_guard k = sweep_step-IsTracked s o s.phase drop_guard k.knows k.connected
step-IsTracked s o (publish t) k = sweep_step-IsTracked s o s.phase (publish t) k.knows k.connected

-- A predicate that each step keeps, of an admitted action, holds after a run of admitted actions.
pub run_keeps {ℓ κ} :
    (I : Shared → Watch → Type ℓ) (IsAdmitted : Action → Type κ)
    → ((s : Shared) (o : Watch) (a : Action)
        → IsAdmitted a
        → I s o
        → IfSome (λ t. I t (observe o a)) (step s a))
    → (s : Shared) (o : Watch) (actions : List Action) → All IsAdmitted actions
    → I s o
    → IfSome (λ t. I t (observe_all o actions)) (run s actions)
run_keeps I IsAdmitted keeps s o [] q i = i
run_keeps I IsAdmitted keeps s o (a ∷ rest) q i =
    next (step s a) (keeps s o a q.0 i)
      (λ t j. run_keeps I IsAdmitted keeps t (observe o a) rest q.1 j)
  where
    next :
        (r : Option Shared)
        → IfSome (λ t. I t (observe o a)) r
        → ((t : Shared)
            → I t (observe o a)
            → IfSome (λ u. I u (observe_all (observe o a) rest)) (run t rest))
        → IfSome
            (λ t. I t (observe_all (observe o a) rest))
            (elim r [ none ↦ none | some t ↦ run t rest ])
    next none j f = tt
    next (some t) j f = f t j

abbrev pub unwatched : Watch
unwatched = record { stopped = false; swept = false }

started-IsTracked : (t : RetentionTelemetry) → IsTracked (started t) unwatched
unfolding started
started-IsTracked t = record { knows = refl; connected = refl }

-- Where the thread has returned, a sweep began after the stop request.
abbrev pub IsSweptAtEnd : Shared → Watch → Type 0
IsSweptAtEnd s o = has_returned s.phase ≡ true → o.swept ≡ true

tracked-IsSweptAtEnd :
    (o : Watch) (s : Shared) (p : Phase) → Knows s o p → has_returned p ≡ true → o.swept ≡ true
tracked-IsSweptAtEnd o s ended k h = k
tracked-IsSweptAtEnd o s exited k h = k
tracked-IsSweptAtEnd o s p k h = ground arith

-- However the steps of the thread, of its handle and of the sinks interleave from the first sweep
-- on: when the thread has returned, it began a sweep after the stop was requested.
pub run-IsSweptAtEnd :
    (t : RetentionTelemetry) (actions : List Action)
    → IfSome (λ s. IsSweptAtEnd s (observe_all unwatched actions)) (run (started t) actions)
run-IsSweptAtEnd t actions =
    let o : Watch = observe_all unwatched actions in
    IfSome-map (λ s. IsTracked s o) (λ s. IsSweptAtEnd s o) (run (started t) actions)
      (λ s k. tracked-IsSweptAtEnd o s s.phase k.knows)
      (run_keeps IsTracked (λ _. Unit {0}) (λ s o a _. step-IsTracked s o a) (started t) unwatched
        actions (All-intro (λ _. Unit {0}) (λ _. tt) actions) (started-IsTracked t))
