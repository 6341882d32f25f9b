-- ===== src/Tests/Worker.antt =====
-- Runs of the retention thread, and its theorems applied to them.
use Prim.Native.String.{String}
use autopiercam.Base.{
  ℕ, some, inr, arith, ◌↔◌, ◌+◌, ◌≤◌, ◌≡◌, refl, true, false, List, [], ◌∷◌, IfSome, ok, err,
}
use autopiercam.Retention.Policy.{
  RetentionPolicy, has_byte_quota, needs_free_space, quotas_satisfied,
}
use autopiercam.Retention.Environment.{Environment, RetentionTelemetry}
use autopiercam.Retention.Sweep.{sweep_retention}
use autopiercam.Retention.Worker.{
  Shared, receiving, started, Action, send, suspend, set_stop, receive, drained, load_stop,
  begin_sweep, notify, check_stop, drop_guard, publish, run, step, try_send, receive_step,
  sweep_step, store_suspended, call_observer, has_exited, check_video_space, video_space,
  check_quota, probe_free, add_artifacts, try_wake,
}
use autopiercam.Retention.Worker.Stop.{unwatched, observe_all, IsSweptAtEnd, run-IsSweptAtEnd}
use autopiercam.Retention.Worker.End.{CanStep, own_steps, sends, run_stopped}
use autopiercam.Retention.Worker.Capture.{IsAdmitted, run-IsAdmitted}
use autopiercam.Retention.Worker.Admission.{MayFilm, IsAwake, check_video_space_lem}
use autopiercam.Tests.Retention.{number_paths}
use autopiercam.Tests.Sweep.{world, quota, artifacts}

-- The telemetry of a sweep of the example world.
abbrev swept : RetentionTelemetry
swept = (sweep_retention world quota []).1

-- The stop arrives while a sweep is on.
abbrev late_stop : List Action
late_stop =
    send
    ∷ receive
    ∷ drained
    ∷ load_stop
    ∷ begin_sweep
    ∷ suspend
    ∷ set_stop
    ∷ publish swept
    ∷ notify
    ∷ check_stop
    ∷ begin_sweep
    ∷ publish swept
    ∷ notify
    ∷ drop_guard
    ∷ []

late_stop_ends : IfSome (λ s. has_exited s.phase ≡ true) (run (started swept) late_stop)
unfolding started step try_send receive_step sweep_step store_suspended call_observer
late_stop_ends = refl

run-IsSweptAtEnd_example :
    IfSome (λ s. IsSweptAtEnd s (observe_all unwatched late_stop)) (run (started swept) late_stop)
run-IsSweptAtEnd_example = run-IsSweptAtEnd swept late_stop

abbrev stopping : Shared
stopping = record {
  stop = true;
  capture_suspended = true;
  wake = true;
  connected = true;
  phase = receiving;
  published = swept;
  observed = swept;
}

run_stopped_example :
    (has_exited stopping.phase ≡ false → CanStep stopping)
    × (true ≡ true
        → (actions : List Action)
        → IfSome (λ t. own_steps actions ≤ 12 + sends actions) (run stopping actions))
run_stopped_example = run_stopped stopping

run-IsAdmitted_example : IfSome (IsAdmitted world quota) (run (started swept) late_stop)
run-IsAdmitted_example =
    run-IsAdmitted world quota swept late_stop ([], refl)
      (
        tt,
        (
          tt,
          (
            tt,
            (tt, (tt, (tt, (tt, (([], refl), (tt, (tt, (tt, (([], refl), (tt, (tt, tt))))))))))),
          ),
        ),
      )

-- The quota of the example, with 500 bytes to be left free of 900.
abbrev capture_quota : RetentionPolicy
capture_quota = record quota { max_managed_bytes = some 120; min_free_bytes = some 500 }

abbrev capture_world : Environment ℕ (List ℕ)
capture_world = record world { available_bytes = λ w. ok 900 }

abbrev capturing : Shared
capturing = record stopping { stop = false; capture_suspended = false; wake = false }

-- 105 bytes are there, and 15 more fit.
may_film : MayFilm capture_world capture_quota capturing [] 15
unfolding has_byte_quota
may_film = (refl, inr (artifacts, 5, refl, refl, omega arith, (900, refl, omega arith)))

-- 16 more do not.
may_not_film : ((check_video_space capture_world capture_quota capturing [] 16).0.wake) ≡ true
unfolding check_video_space video_space check_quota probe_free add_artifacts try_wake try_send
    has_byte_quota needs_free_space quotas_satisfied
may_not_film = refl

check_video_space_lem_example :
    let (t, result) = check_video_space capture_world capture_quota capturing [] 15 in
    ((result ≡ ok tt) ↔ MayFilm capture_world capture_quota capturing [] 15)
    × (result ≡ ok tt → t ≡ capturing)
    × ((e : String) → result ≡ err e → IsAwake t)
check_video_space_lem_example = check_video_space_lem capture_world capture_quota capturing [] 15

-- The movie of the example is let through, by the theorem.
admitted : (check_video_space capture_world capture_quota capturing [] 15).1 ≡ ok tt
admitted = (check_video_space_lem capture_world capture_quota capturing [] 15).0.1 may_film
