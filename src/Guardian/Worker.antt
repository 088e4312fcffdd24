-- ===== src/Guardian/Worker.antt =====
-- internal/guardian/worker.go: `RunWorker` as a step on each event of its `select`, and `stopWorker`.
-- What the hooks, the session and the timers answer while an event is handled is the argument `Env`;
-- a hook that is nil answers as the source does without it (no fatal request, progress 0).
pub mod Laws
use pxgo.Shared.{
  ℕ, ◌+◌, ℤ, Bool, true, false, not, ◌||◌, Option, none, some, List, [], ◌∷◌, ◌++◌, seconds,
  positive_or, if◌then◌else◌,
}
use pxgo.Guardian.Failure.{Failure, protocol, deadline_exceeded, other}
use pxgo.Guardian.Message.{Message, ready, beat, stop, unknown}

pub data WorkerExit : Type 0 where
  exit_normal exit_startup_failure exit_restart : WorkerExit

-- The exit code of the process.
abbrev pub exit_number : WorkerExit → ℕ
exit_number exit_normal = 0
exit_number exit_startup_failure = 5
exit_number exit_restart = 75

pub record WorkerResult : Type 0 where
  pub exit : WorkerExit
  pub err : Option Failure

pub record GivenOptions : Type 0 where
  pub heartbeat_interval : ℤ
  pub ready_poll_interval : ℤ
  pub stop_timeout : ℤ

pub record WorkerOptions : Type 0 where
  pub heartbeat_interval : ℕ
  pub ready_poll_interval : ℕ
  pub stop_timeout : ℕ

unfoldable pub normalize_worker_options : GivenOptions → WorkerOptions
normalize_worker_options o = record {
  heartbeat_interval = positive_or o.heartbeat_interval (seconds 2);
  ready_poll_interval = positive_or o.ready_poll_interval 25000000;
  stop_timeout = positive_or o.stop_timeout (seconds 5);
}

-- The answers of the world while one event is handled: the hooks, whether a send reaches the
-- connection (with the error if not), and what `Shutdown` and the server's end give to `stopWorker`
-- (no value: the timer fired first).
pub record Env : Type 0 where
  pub is_ready : Bool
  pub fatal_requested : Bool
  pub progress : ℕ
  pub send_error : Option Failure
  pub ctx_cancelled : Bool
  pub shutdown_error : Option Failure
  pub server_end : Option (Option Failure)

pub data Event : Type 0 where
  server_returned : Option Failure → Event
  ready_tick : Event
  heartbeat_tick : Event
  message : Message → Event
  control_error : Failure → Event
  ctx_done : Event

-- `sent` is what the session has taken, newest last; `snapshots` counts the calls of that hook.
pub record Worker : Type 0 where
  pub ready_sent : Bool
  pub sent : List Message
  pub snapshots : ℕ

abbrev pub start_worker : Worker
start_worker = record { ready_sent = false; sent = []; snapshots = 0 }

abbrev first_error : Option Failure → Option Failure → Option Failure
first_error none b = b
first_error (some a) b = some a

abbrev after_server : Option Failure → Option (Option Failure) → Option Failure
after_server err (some server_err) = first_error err server_err
after_server err none = first_error err (some deadline_exceeded)

unfoldable pub stop_worker : Env → WorkerExit → Option Failure → WorkerResult
stop_worker env exit err = record {
  exit = exit;
  err = after_server (first_error err env.shutdown_error) env.server_end;
}

pub data Next : Type 0 where
  continue : Worker → Next
  finished : Worker → WorkerResult → Next

-- Session.Send: a message that the session takes is appended.
abbrev sending : Env → Message → Worker → (Worker → Next) → (Worker → Next) → Next
sending env msg w taken failed = elim env.send_error [
  | none ↦ taken (record w { sent = w.sent ++ msg ∷ [] })
  | some _ ↦ failed w
]

-- errors.New("worker server exited before READY")
abbrev exited_before_ready : Failure
exited_before_ready = other 1

on_server_returned : Option Failure → Env → Worker → Next
on_server_returned none env w =
    if not w.ready_sent
    then finished w (record { exit = exit_startup_failure; err = some exited_before_ready })
    else sending env stop w (λ w'. finished w' (record { exit = exit_normal; err = none }))
        (λ w'. finished w' (record { exit = exit_normal; err = none }))
on_server_returned (some err) env w = finished w (record {
  exit = if not w.ready_sent then exit_startup_failure else exit_restart;
  err = some err;
})

on_ready_tick : Env → Worker → Next
unfolding stop_worker
on_ready_tick env w =
    if w.ready_sent || not env.is_ready
    then continue w
    else sending env ready w (λ w'. continue (record w' { ready_sent = true }))
        (λ w'. finished w' (stop_worker env exit_normal none))

on_heartbeat_tick : Env → Worker → Next
unfolding stop_worker
on_heartbeat_tick env w =
    if not w.ready_sent
    then continue w
    else if env.fatal_requested
    then finished (record w { snapshots = w.snapshots + 1 }) (stop_worker env exit_restart none)
    else sending env (beat env.progress) w (λ w'. continue w')
        (λ w'. finished w' (stop_worker env exit_normal none))

abbrev message_error : Message → Option Failure
message_error stop = none
message_error ready = some protocol
message_error (beat _) = some protocol
message_error (unknown _) = some protocol

-- One round of the loop of `RunWorker`.
unfoldable pub worker_step : Event → Env → Worker → Next
unfolding on_server_returned on_ready_tick on_heartbeat_tick stop_worker
worker_step (server_returned err) env w = on_server_returned err env w
worker_step ready_tick env w = on_ready_tick env w
worker_step heartbeat_tick env w = on_heartbeat_tick env w
worker_step (message msg) env w = finished w (stop_worker env exit_normal (message_error msg))
worker_step (control_error err) env w =
    finished w (stop_worker env exit_normal (if env.ctx_cancelled then none else some err))
worker_step ctx_done env w = finished w (stop_worker env exit_normal none)

-- The loop of `RunWorker`, for a session and hooks that are there.
unfoldable pub run_worker : List (Event × Env) → Worker → Next
run_worker [] w = continue w
run_worker ((event, env) ∷ rest) w = elim (worker_step event env w) [
  | continue w' ↦ run_worker rest w'
  | finished w' result ↦ finished w' result
]

-- errors.New("guardian worker hooks incomplete")
abbrev incomplete_hooks : Failure
incomplete_hooks = other 2

-- `RunWorker`; it refuses a session, or one of the three hooks that it needs, that is nil.
unfoldable pub run_worker_session : Bool → List (Event × Env) → Next
unfolding run_worker
run_worker_session complete events =
    if complete
    then run_worker events start_worker
    else finished start_worker (record { exit = exit_startup_failure; err = some incomplete_hooks })
