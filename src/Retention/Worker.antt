-- ===== src/Retention/Worker.antt =====
-- The retention thread, its handle and its sinks: the atomic steps of each, in any interleaving.
pub mod Stop
pub mod End
pub mod Capture
pub mod Admission
use autopiercam.Base.{
  ℕ, ◌+◌, ◌-◌, Bool, true, false, not, ◌&&◌, ◌||◌, Option, none, some, List, [], ◌∷◌, if◌then◌else◌,
  saturating_add, map_option, Result, ok, err, ◌>>=◌, ◌>>◌, guard,
}
use autopiercam.Retention.Policy.{
  RetentionPolicy, has_byte_quota, needs_free_space, quotas_satisfied,
}
use autopiercam.Retention.Candidates.{ManagedArtifact}
use autopiercam.Retention.Environment.{Environment, RetentionTelemetry}

-- Where the thread is. A `before` is `stopping_before_sweep`. Between the store of a sweep's flag and
-- the end of the observer's call the thread is `observing`.
pub data Phase : Type 0 where
  receiving draining loading : Phase
  loaded sweeping observing checking : Bool → Phase
  final final_sweeping final_observing ended exited : Phase

-- The shared flags and the one-slot channel, which is `connected` while a sender exists. `published`
-- is the argument of the last `publish_retention_telemetry`, and `observed` the telemetry that the
-- observer got last.
pub record Shared : Type 0 where
  pub stop : Bool
  pub capture_suspended : Bool
  pub wake : Bool
  pub connected : Bool
  pub phase : Phase
  pub published : RetentionTelemetry
  pub observed : RetentionTelemetry

-- `publish_retention_telemetry` in its two steps: it stores the flag, and then calls the observer.
unfoldable pub store_suspended : Shared → RetentionTelemetry → Phase → Shared
store_suspended s telemetry next = record s {
  capture_suspended = telemetry.blocked_pressure;
  published = telemetry;
  phase = next;
}

unfoldable pub call_observer : Shared → Phase → Shared
call_observer s next = record s { observed = s.published; phase = next }

-- `start_with_runtime`: what the synchronous first sweep leaves, published before the sinks exist.
unfoldable pub started : RetentionTelemetry → Shared
started telemetry = record {
  stop = false;
  capture_suspended = telemetry.blocked_pressure;
  wake = false;
  connected = true;
  phase = receiving;
  published = telemetry;
  observed = telemetry;
}

-- The steps of a sink (`send`), of the handle (`suspend`, `set_stop`, `send` and `join`), and of the
-- thread.
pub data Action : Type 0 where
  send suspend set_stop join : Action
  receive time_out disconnect drain drained load_stop begin_sweep notify check_stop drop_guard :
      Action
  publish : RetentionTelemetry → Action

abbrev pub when : Bool → Shared → Option Shared
when b s = if b then some s else none

-- The receiver's two loops: `recv_timeout`, then `try_recv` until the channel is empty.
unfoldable pub receive_step : Shared → Phase → Action → Option Shared
receive_step s receiving receive = when s.wake (record s { wake = false; phase = draining })
receive_step s receiving time_out = when (not s.wake) (record s { phase = loading })
receive_step s receiving disconnect =
    when (not s.connected && not s.wake) (record s { phase = ended })
receive_step s draining drain = when s.wake (record s { wake = false; phase = draining })
receive_step s draining drained = when (s.connected && not s.wake) (record s { phase = loading })
receive_step s draining disconnect =
    when (not s.connected && not s.wake) (record s { phase = ended })
receive_step s _ _ = none

-- The rest of `retention_loop`, and `RetentionStopOnDrop` at its end.
unfoldable pub sweep_step : Shared → Phase → Action → Option Shared
sweep_step s loading load_stop = some (record s { phase = loaded s.stop })
sweep_step s (loaded before) begin_sweep = some (record s { phase = sweeping before })
sweep_step s (sweeping before) (publish t) = some (store_suspended s t (observing before))
sweep_step s (observing before) notify = some (call_observer s (checking before))
sweep_step s (checking before) check_stop =
    some (record s { phase = if not s.stop then receiving else if before then ended else final })
sweep_step s final begin_sweep = some (record s { phase = final_sweeping })
sweep_step s final_sweeping (publish t) = some (store_suspended s t final_observing)
sweep_step s final_observing notify = some (call_observer s ended)
sweep_step s ended drop_guard =
    some (record s { capture_suspended = true; stop = true; phase = exited })
sweep_step s _ _ = none

abbrev pub has_exited : Phase → Bool
has_exited exited = true
has_exited _ = false

-- `retention_loop` has returned, and the receiver is gone.
abbrev pub has_returned : Phase → Bool
has_returned ended = true
has_returned exited = true
has_returned _ = false

-- `try_send`: into a full slot it sends nothing, and without a receiver a sink stops.
unfoldable pub try_send : Shared → Shared
try_send s = if has_returned s.phase then record s { stop = true } else record s { wake = true }

-- One step, if it can be taken. The handle holds a sender until it has joined the thread.
unfoldable pub step : Shared → Action → Option Shared
step s send = some (try_send s)
step s suspend = some (record s { capture_suspended = true })
step s set_stop = some (record s { stop = true })
step s join = when (has_exited s.phase) (record s { connected = false })
step s receive = receive_step s s.phase receive
step s time_out = receive_step s s.phase time_out
step s disconnect = receive_step s s.phase disconnect
step s drain = receive_step s s.phase drain
step s drained = receive_step s s.phase drained
step s load_stop = sweep_step s s.phase load_stop
step s begin_sweep = sweep_step s s.phase begin_sweep
step s notify = sweep_step s s.phase notify
step s check_stop = sweep_step s s.phase check_stop
step s drop_guard = sweep_step s s.phase drop_guard
step s (publish t) = sweep_step s s.phase (publish t)

-- `RetentionSink::capture_suspended`. Its second load is of the stop flag, which is never reset: if it
-- finds that clear, it was clear at the first load too.
unfoldable pub capture_suspended : Shared → Bool
capture_suspended s = s.capture_suspended || s.stop

pub data RetentionWakeResult : Type 0 where
  queued coalesced stopped : RetentionWakeResult

-- `RetentionSink::try_wake`, its two steps taken at once.
unfoldable pub try_wake : Shared → Shared × RetentionWakeResult
try_wake s =
    if s.stop
    then (s, stopped)
    else if has_returned s.phase
    then (try_send s, stopped)
    else if s.wake
    then (try_send s, coalesced)
    else (try_send s, queued)

module _ {P : Type 0} where
  -- The fold over the inventory.
  unfoldable pub add_artifacts : ℕ → List (ManagedArtifact P) → ℕ
  add_artifacts total [] = total
  add_artifacts total (file ∷ rest) = add_artifacts (saturating_add total file.file_size_bytes) rest

-- The wake-up after a failed check.
abbrev pub wake_on_error : Shared → Result (Unit {0}) → Shared × Result (Unit {0})
wake_on_error s (ok u) = (s, ok u)
wake_on_error s (err error) = ((try_wake s).0, err error)

-- `RetentionSink::check_video_space`.
module _ {P W : Type 0} (env : Environment P W) (policy : RetentionPolicy) where
  unfoldable pub probe_free : W → Result (Option ℕ)
  probe_free w =
      if needs_free_space policy
      then (do bytes ← env.available_bytes w; ok (some bytes))
      else ok none

  unfoldable pub check_quota : W → ℕ → Result (Unit {0})
  check_quota w additional = do
    inventory ← env.inventory w
    private ← env.private_bytes w
    free ← probe_free w
    guard
        (quotas_satisfied policy (saturating_add (add_artifacts private inventory) additional)
          (map_option (λ bytes. bytes - additional) free))
        "video deferred: shared storage quota or minimum free space would be exceeded"

  unfoldable pub video_space : Shared → W → ℕ → Result (Unit {0})
  video_space s w additional =
      if s.stop
      then err "retention worker stopped"
      else if not (has_byte_quota policy)
      then ok tt
      else check_quota w additional

  unfoldable pub check_video_space : Shared → W → ℕ → Shared × Result (Unit {0})
  check_video_space s w additional = wake_on_error s (video_space s w additional)

-- Actions one after another, where each can be taken.
abbrev pub run : Shared → List Action → Option Shared
run s [] = some s
run s (a ∷ rest) = elim (step s a) [ none ↦ none | some t ↦ run t rest ]
