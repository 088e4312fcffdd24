-- ===== src/Guardian/Monitor.antt =====
-- internal/guardian/parent.go: `normalizeParentOptions`, `stopChild` and `monitorReadyWorker`. The
-- loop's `select` is a step on one event. What the clock, the child process and the timers answer
-- while the event is handled is the argument `Env`.
pub mod Laws
use pxgo.Shared.{
  ℕ, ◌+◌, ◌*◌, ℤ, pos, Bool, true, false, not, Option, none, some, List, [], ◌∷◌, map, seconds,
  elapsed, is_zero, positive_or, if◌then◌else◌,
}
use pxgo.Guardian.Failure.{
  Failure, protocol, deadline_exceeded, join, exit_code, normalize_parent_stop_error,
  ExitDisposition, exit_startup_failure, exit_restart, exit_normal_stop,
}
use pxgo.Guardian.Backoff.{restart_backoff_schedule, stable_run_reset}
use pxgo.Guardian.Watchdog
use pxgo.Guardian.Watchdog.{Watchdog}
use pxgo.Guardian.Message.{Message, ready, beat, stop, unknown}

-- The durations that a caller gives, and what they are after the defaults are put in.
pub record GivenOptions : Type 0 where
  pub hang_window : ℤ
  pub watch_interval : ℤ
  pub stop_timeout : ℤ
  pub restart_schedule : List ℤ
  pub stable_run_reset : ℤ

pub record ParentOptions : Type 0 where
  pub hang_window : ℕ
  pub watch_interval : ℕ
  pub stop_timeout : ℕ
  pub restart_schedule : List ℕ
  pub stable_run_reset : ℕ

abbrev schedule_or_default : List ℤ → List ℕ
schedule_or_default [] = restart_backoff_schedule
schedule_or_default (d ∷ ds) = map (λ delay. positive_or delay (seconds 1)) (d ∷ ds)

unfoldable pub normalize_parent_options : GivenOptions → ParentOptions
normalize_parent_options o = record {
  hang_window = positive_or o.hang_window (seconds 20);
  watch_interval = positive_or o.watch_interval (seconds 2);
  stop_timeout = positive_or o.stop_timeout (seconds 5);
  restart_schedule = schedule_or_default o.restart_schedule;
  stable_run_reset = positive_or o.stable_run_reset stable_run_reset;
}

pub record GenerationResult : Type 0 where
  pub disposition : ExitDisposition
  pub err : Option Failure
  pub ready_for : ℕ
  pub startup_code : ℤ

-- The world while one event is handled: the time of the event, the result of `cmd.Wait` if it comes
-- before the stop timer, the result if it comes after the kill and before the second timer, and the
-- time at which the stop is over.
pub record Env : Type 0 where
  pub now : ℕ
  pub exits : Option (Option Failure)
  pub reaped : Option (Option Failure)
  pub ended : ℕ

pub record StopReport : Type 0 where
  pub err : Option Failure
  pub sent_stop : Bool
  pub killed : Bool

abbrev after_kill : Bool → Option (Option Failure) → StopReport
after_kill session (some err) = record { err = err; sent_stop = session; killed = true }
after_kill session none = record {
  err = some deadline_exceeded;
  sent_stop = session;
  killed = true;
}

abbrev after_stop : Bool → Option (Option Failure) → Option (Option Failure) → StopReport
after_stop session (some err) reaped = record { err = err; sent_stop = session; killed = false }
after_stop session none reaped = after_kill session reaped

-- `session` says that the session is not nil, so that a STOP is sent.
unfoldable pub stop_child : Bool → Env → StopReport
stop_child session env = after_stop session env.exits env.reaped

pub data Event : Type 0 where
  ctx_done : Event
  exited : Option Failure → Event
  message : Message → Event
  read_error : Failure → Event
  tick : Event

pub record Monitor : Type 0 where
  pub ready : Bool
  pub ready_at : ℕ
  pub watchdog : Watchdog
  pub on_ready_calls : ℕ

unfoldable pub start_monitor : ParentOptions → Monitor
unfolding Watchdog.new_watchdog
start_monitor options = record {
  ready = false;
  ready_at = 0;
  watchdog = Watchdog.new_watchdog (pos options.hang_window);
  on_ready_calls = 0;
}

unfoldable pub ready_duration : ℕ → ℕ → ℕ
ready_duration ready_at ended = if is_zero ready_at then 0 else elapsed ended ready_at

-- The loop goes on, or the generation is over.
pub data Next : Type 0 where
  continue : Monitor → Next
  finished : GenerationResult → Next

abbrev stopped : ExitDisposition → Option Failure → Monitor → ℕ → ℤ → Next
stopped disposition err m ended code = finished (record {
  disposition = disposition;
  err = err;
  ready_for = ready_duration m.ready_at ended;
  startup_code = code;
})

-- A result that carries no `readyFor`.
abbrev failed_startup : Option Failure → ℤ → Next
failed_startup err code =
    finished
      (record { disposition = exit_startup_failure; err = err; ready_for = 0; startup_code = code })

on_exit : Option Failure → Env → Monitor → Next
on_exit none env m =
    if m.ready
    then stopped exit_normal_stop none m env.ended (pos 0)
    else failed_startup none (exit_code none)
on_exit (some err) env m =
    if m.ready
    then stopped exit_restart (some err) m env.ended (pos 0)
    else failed_startup (some err) (exit_code (some err))

on_message : Message → Env → Monitor → Next
on_message ready env m =
    if m.ready
    then stopped exit_restart (join (some protocol) (stop_child true env).err) m env.ended (pos 0)
    else continue (record m {
      ready = true;
      ready_at = env.now;
      watchdog = Watchdog.ready_at env.now m.watchdog;
      on_ready_calls = m.on_ready_calls + 1;
    })
on_message (beat sequence) env m =
    let err = (stop_child true env).err in
    if m.ready
    then continue (record m { watchdog = Watchdog.beat sequence env.now m.watchdog })
    else failed_startup (join (some protocol) err) (exit_code err)
on_message stop env m =
    let err = (stop_child false env).err in
    if m.ready
    then stopped exit_normal_stop (normalize_parent_stop_error err) m env.ended (pos 0)
    else failed_startup (join (some protocol) err) (exit_code err)
on_message (unknown _) env m =
    let err = (stop_child true env).err in
    stopped (if m.ready then exit_restart else exit_startup_failure) (join (some protocol) err) m
      env.ended (exit_code err)

abbrev lost_session : Failure → Option Failure → Env → Monitor → Next
lost_session err none env m = stopped exit_normal_stop none m env.ended (pos 0)
lost_session err (some stop_err) env m =
    stopped exit_restart (join (some err) (some stop_err)) m env.ended (pos 0)

on_read_error : Failure → Env → Monitor → Next
on_read_error err env m =
    let stop_err = (stop_child true env).err in
    if m.ready
    then lost_session err stop_err env m
    else failed_startup (join (some err) stop_err) (exit_code stop_err)

on_tick : Env → Monitor → Next
on_tick env m =
    let (hung, watchdog) = Watchdog.check env.now m.watchdog in
    if not m.ready
    then continue m
    else if hung
    then stopped exit_restart (stop_child true env).err m env.ended (pos 0)
    else continue (record m { watchdog = watchdog })

-- One round of the loop of `monitorReadyWorker`.
unfoldable pub monitor_step : Event → Env → Monitor → Next
unfolding on_exit on_message on_read_error on_tick stop_child
monitor_step ctx_done env m =
    stopped exit_normal_stop (normalize_parent_stop_error (stop_child true env).err) m env.ended
      (pos 0)
monitor_step (exited err) env m = on_exit err env m
monitor_step (message msg) env m = on_message msg env m
monitor_step (read_error err) env m = on_read_error err env m
monitor_step tick env m = on_tick env m

-- The loop over the events that the `select` sees, in their order; still running if they end first.
unfoldable pub run_monitor : List (Event × Env) → Monitor → Next
run_monitor [] m = continue m
run_monitor ((event, env) ∷ rest) m = elim (monitor_step event env m) [
  | continue m' ↦ run_monitor rest m'
  | finished result ↦ finished result
]
