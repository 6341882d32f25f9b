-- ===== src/Retention/Worker/Capture.antt =====
-- When capture goes on (`RetentionSink::capture_suspended`): under the quotas of the last sweep.
use autopiercam.Base.{
  if◌then◌else◌, ◌≡◌, refl, sym, subst, ◌∙◌, not, Bool, true, false, ◌||◌, List, IfSome, IfSome-map,
  if_split, All,
}
use autopiercam.Retention.Policy.{RetentionPolicy, has_byte_quota, quotas_satisfied}
use autopiercam.Retention.Candidates.{PathOrder}
use autopiercam.Retention.Environment.{Environment, RetentionTelemetry}
use autopiercam.Retention.Sweep.{sweep_retention}
use autopiercam.Retention.Sweep.Verdict.{sweep_retention-IsVerdict, IsVerdict}
use autopiercam.Retention.Worker.{
  Phase, receiving, draining, loading, loaded, sweeping, observing, checking, final, final_sweeping,
  final_observing, ended, exited, Shared, store_suspended, call_observer, started, Action, send,
  suspend, set_stop, join, receive, time_out, disconnect, drain, drained, load_stop, begin_sweep,
  notify, check_stop, drop_guard, publish, receive_step, sweep_step, step, when, try_send,
  has_returned, run, capture_suspended,
}
use autopiercam.Retention.Worker.Stop.{unwatched, run_keeps}

-- What the observer got last is what was published last, but between the store of the flag and the
-- call of the observer.
abbrev IsObserved : RetentionTelemetry → RetentionTelemetry → Phase → Type 0
IsObserved observed published (observing before) = Unit
IsObserved observed published final_observing = Unit
IsObserved observed published _ = observed ≡ published

-- Where the stop flag is not set, capture goes on only under what the last telemetry allows.
record Follows (Q : RetentionTelemetry → Type 0) (s : Shared) (p : Phase) : Type 0 where
  flag : s.capture_suspended ≡ false → s.published.blocked_pressure ≡ false
  is_observed : IsObserved s.observed s.published p
  is_sweep : Q s.published

abbrev FollowsTelemetry : (RetentionTelemetry → Type 0) → Shared → Type 0
FollowsTelemetry Q s = Follows Q s s.phase

-- The thread has stored the flag of a sweep, and has not come back from the observer.
abbrev pub is_observing : Phase → Bool
is_observing (observing before) = true
is_observing final_observing = true
is_observing _ = false

observed_published :
    (observed published : RetentionTelemetry) (p : Phase)
    → IsObserved observed published p
    → is_observing p ≡ false
    → observed ≡ published
observed_published o t (observing before) k h = cc h
observed_published o t final_observing k h = cc h
observed_published o t receiving k h = k
observed_published o t draining k h = k
observed_published o t loading k h = k
observed_published o t (loaded before) k h = k
observed_published o t (sweeping before) k h = k
observed_published o t (checking before) k h = k
observed_published o t final k h = k
observed_published o t final_sweeping k h = k
observed_published o t ended k h = k
observed_published o t exited k h = k

module _ (Q : RetentionTelemetry → Type 0) where
  -- What is published is telemetry of this kind.
  abbrev pub Publishes : Action → Type 0
  Publishes (publish t) = Q t
  Publishes _ = Unit

  -- A step to another phase that keeps the flag and the telemetry.
  moved :
      (s t : Shared) (p q : Phase)
      → t.capture_suspended ≡ s.capture_suspended
      → t.published ≡ s.published
      → IsObserved t.observed t.published q
      → Follows Q s p
      → Follows Q t q
  moved s t p q e f g k = record {
    flag = λ h. rw f (k.flag (sym e ∙ h));
    is_observed = g;
    is_sweep = rw f k.is_sweep;
  }

  when_intro :
      (s : Shared) (b : Bool) → FollowsTelemetry Q s → IfSome (FollowsTelemetry Q) (when b s)
  when_intro s true k = k
  when_intro s false k = tt

  receive_step-Follows :
      (s : Shared) (p : Phase) (a : Action)
      → Follows Q s p
      → IfSome (FollowsTelemetry Q) (receive_step s p a)
  unfolding receive_step
  receive_step-Follows s receiving receive k =
      when_intro _ s.wake (moved s _ _ draining refl refl k.is_observed k)
  receive_step-Follows s receiving time_out k =
      when_intro _ _ (moved s _ _ loading refl refl k.is_observed k)
  receive_step-Follows s receiving disconnect k =
      when_intro _ _ (moved s _ _ ended refl refl k.is_observed k)
  receive_step-Follows s draining drain k =
      when_intro _ s.wake (moved s _ _ draining refl refl k.is_observed k)
  receive_step-Follows s draining drained k =
      when_intro _ _ (moved s _ _ loading refl refl k.is_observed k)
  receive_step-Follows s draining disconnect k =
      when_intro _ _ (moved s _ _ ended refl refl k.is_observed k)
  receive_step-Follows s p a k = tt

  -- After the check of the stop flag the thread is in a phase of agreement, whichever it is.
  checked :
      (s : Shared) (before stop : Bool)
      → s.observed ≡ s.published
      → IsObserved s.observed s.published
          (if not stop then receiving else if before then ended else final)
  checked s before false e = e
  checked s true true e = e
  checked s false true e = e

  sweep_step-Follows :
      (s : Shared) (p : Phase) (a : Action)
      → Publishes a
      → Follows Q s p
      → IfSome (FollowsTelemetry Q) (sweep_step s p a)
  unfolding sweep_step store_suspended call_observer
  sweep_step-Follows s loading load_stop q k = moved s _ _ (loaded s.stop) refl refl k.is_observed k
  sweep_step-Follows s (loaded before) begin_sweep q k =
      moved s _ _ (sweeping before) refl refl k.is_observed k
  sweep_step-Follows s (sweeping before) (publish t) q k = record {
    flag = λ h. h;
    is_observed = tt;
    is_sweep = q;
  }
  sweep_step-Follows s (observing before) notify q k =
      moved s _ _ (checking before) refl refl refl k
  sweep_step-Follows s (checking before) check_stop q k =
      moved s _ (checking before) _ refl refl (checked s before s.stop k.is_observed) k
  sweep_step-Follows s final begin_sweep q k = moved s _ _ final_sweeping refl refl k.is_observed k
  sweep_step-Follows s final_sweeping (publish t) q k = record {
    flag = λ h. h;
    is_observed = tt;
    is_sweep = q;
  }
  sweep_step-Follows s final_observing notify q k = moved s _ _ ended refl refl refl k
  sweep_step-Follows s ended drop_guard q k = record {
    flag = λ h. cc h;
    is_observed = k.is_observed;
    is_sweep = k.is_sweep;
  }
  sweep_step-Follows s p a q k = tt

  step-Follows :
      (s : Shared) (a : Action)
      → Publishes a
      → FollowsTelemetry Q s
      → IfSome (FollowsTelemetry Q) (step s a)
  unfolding step try_send
  step-Follows s send q k =
      if_split (FollowsTelemetry Q) (has_returned s.phase)
        (λ _. moved s _ s.phase s.phase refl refl k.is_observed k)
        (λ _. moved s _ s.phase s.phase refl refl k.is_observed k)
  step-Follows s suspend q k = record {
    flag = λ h. cc h;
    is_observed = k.is_observed;
    is_sweep = k.is_sweep;
  }
  step-Follows s set_stop q k = moved s _ s.phase s.phase refl refl k.is_observed k
  step-Follows s join q k = when_intro _ _ (moved s _ s.phase s.phase refl refl k.is_observed k)
  step-Follows s receive q k = receive_step-Follows s s.phase receive k
  step-Follows s time_out q k = receive_step-Follows s s.phase time_out k
  step-Follows s disconnect q k = receive_step-Follows s s.phase disconnect k
  step-Follows s drain q k = receive_step-Follows s s.phase drain k
  step-Follows s drained q k = receive_step-Follows s s.phase drained k
  step-Follows s load_stop q k = sweep_step-Follows s s.phase load_stop tt k
  step-Follows s begin_sweep q k = sweep_step-Follows s s.phase begin_sweep tt k
  step-Follows s notify q k = sweep_step-Follows s s.phase notify tt k
  step-Follows s check_stop q k = sweep_step-Follows s s.phase check_stop tt k
  step-Follows s drop_guard q k = sweep_step-Follows s s.phase drop_guard tt k
  step-Follows s (publish t) q k = sweep_step-Follows s s.phase (publish t) q k

  started-Follows : (t : RetentionTelemetry) → Q t → FollowsTelemetry Q (started t)
  unfolding started
  started-Follows t q = record { flag = λ h. h; is_observed = refl; is_sweep = q }

module _ {P W : Type 0} ⦃order : PathOrder P⦄ (env : Environment P W)
    (policy : RetentionPolicy) where
  -- Telemetry of a sweep, in some state of the world.
  abbrev pub IsSweep : RetentionTelemetry → Type 0
  IsSweep t = (w : W) × (t ≡ (sweep_retention env policy w).1)

  sweep-IsVerdict : (t : RetentionTelemetry) → IsSweep t → IsVerdict policy t
  sweep-IsVerdict t (w, e) =
      subst (IsVerdict policy) (sym e) (sweep_retention-IsVerdict env policy w)

  -- Capture goes on under a byte quota only where the published bytes satisfy the quotas, and but
  -- for the time between the two steps of a publication these are the observed bytes.
  abbrev pub IsAdmitted : Shared → Type 0
  IsAdmitted s =
      (capture_suspended s ≡ false
        → has_byte_quota policy ≡ true
        → quotas_satisfied policy s.published.managed_bytes s.published.free_bytes ≡ true)
      × (is_observing s.phase ≡ false → s.observed ≡ s.published)

  follows-IsAdmitted : (s : Shared) → FollowsTelemetry IsSweep s → IsAdmitted s
  unfolding capture_suspended
  follows-IsAdmitted s k = (
    (λ h b.
        (sweep-IsVerdict s.published k.is_sweep).1 (k.flag (running s.capture_suspended s.stop h))
          b),
    observed_published s.observed s.published s.phase k.is_observed,
  )
    where
      running : (c d : Bool) → (c || d) ≡ false → c ≡ false
      running false d h = refl
      running true d h = cc h

  -- From a first sweep on, whatever the interleaving, where only sweeps publish: while neither flag
  -- suspends capture under a byte quota, the quotas are satisfied by the managed and the free bytes of
  -- the sweep that was published last, whose flag was stored last. The observer has got this telemetry
  -- last, unless the thread is between the store of the flag and the end of the observer's call.
  pub run-IsAdmitted :
      (t : RetentionTelemetry) (actions : List Action)
      → IsSweep t
      → All (Publishes IsSweep) actions
      → IfSome IsAdmitted (run (started t) actions)
  run-IsAdmitted t actions q all =
      IfSome-map (FollowsTelemetry IsSweep) IsAdmitted (run (started t) actions) follows-IsAdmitted
        (run_keeps (λ s o. FollowsTelemetry IsSweep s) (Publishes IsSweep)
          (λ s o a p k. step-Follows IsSweep s a p k) (started t) unwatched actions all
          (started-Follows IsSweep t q))
