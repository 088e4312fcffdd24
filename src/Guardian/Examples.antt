-- ===== src/Guardian/Examples.antt =====
-- Runs of the guardian at concrete inputs, and each theorem of these modules at one of them.
use pxgo.Shared.{
  ◌+◌, ◌≤◌, ◌<◌, ◌≡◌, ◌≢◌, ◌↔◌, ◌⊎◌, refl, sym, pos, negsuc, Bool, true, false, none, some, List,
  [], ◌∷◌, ◌++◌, All, seconds, arith,
}
use pxgo.Shared.Text.{codes, is_space}
use pxgo.Guardian.Failure.{
  Failure, exit_error, other, exit_restart, exit_normal_stop, exit_startup_failure,
}
use pxgo.Guardian.Backoff.{
  Backoff, next, next_delay, reset, observe_ready_duration, stable_run_reset,
}
use pxgo.Guardian.Backoff.Laws.{after, delay-after-reset, delays_grow, stable_run_resets}
use pxgo.Guardian.Watchdog
use pxgo.Guardian.Watchdog.{Watchdog, check, new_watchdog}
use pxgo.Guardian.Watchdog.Laws.{
  Look, hears, look, watch, check_iff, suspend_grants_grace, beat_counts, silence_is_reported,
}
use pxgo.Guardian.Message.{
  ready, beat, stop, newline, send, read_line, line, parse_message, hello_line, validate_hello,
}
use pxgo.Guardian.Message.Laws.{wire, read-send, validate_hello_iff}
use pxgo.Guardian.Monitor.{
  GivenOptions, GenerationResult, Env, Event, ctx_done, exited, message, tick, Monitor,
  monitor_step, run_monitor, start_monitor, normalize_parent_options,
}
use pxgo.Guardian.Monitor.Laws.{EndsOk, last_monitor, disposition_by_readiness, run_monitor-IsSound}
use pxgo.Guardian.Parent.{run_parent}
use pxgo.Guardian.Parent.Laws.{backoff_delays, delays-eq-backoff, delays_positive}
use pxgo.Guardian.Worker
use pxgo.Guardian.Worker.{Worker, WorkerResult, start_worker, run_worker}
use pxgo.Guardian.Worker.Laws.{
  broken, phase_of, worker_of, worker_speaks_protocol, BeginsWithReady, exit_by_readiness,
}
use pxgo.Guardian.Agreement.{NoProtocolError, agreement}

abbrev fresh : Backoff
fresh = record { level = 0 }

delay-after-reset_example : (next (after 7 (reset fresh))).0 ≡ seconds 300
delay-after-reset_example = delay-after-reset 7 fresh

delays_grow_example :
    ((next fresh).0 ≤ (next (next fresh).1).0)
    × ((next fresh).0 ≡ next_delay fresh)
    × ((next fresh).0 ≤ seconds 300)
delays_grow_example = delays_grow fresh

stable_run_resets_example :
    (seconds 1 < stable_run_reset → observe_ready_duration (seconds 1) fresh ≡ (false, fresh))
    × (stable_run_reset ≤ seconds 1
        → ((observe_ready_duration (seconds 1) fresh).0 ≡ true)
          × ((next (observe_ready_duration (seconds 1) fresh).1).0 ≡ seconds 1))
stable_run_resets_example = stable_run_resets (seconds 1) fresh

-- A worker that was ready, and made progress, at second 100.
abbrev armed : Watchdog
armed = record {
  hang_window = seconds 20;
  ready = true;
  last_progress = seconds 100;
  last_observer = seconds 100;
  last_sequence = 5;
}

check_iff_example :
    ((check (seconds 121) armed).0 ≡ true
      → (armed.ready ≡ true)
        × (seconds 121 ≤ armed.last_observer + armed.hang_window)
        × (armed.last_progress + armed.hang_window < seconds 121))
    × (armed.ready ≡ true
        → seconds 121 ≤ armed.last_observer + armed.hang_window
        → armed.last_progress + armed.hang_window < seconds 121
        → (check (seconds 121) armed).0 ≡ true)
check_iff_example = check_iff armed (seconds 121) (omega arith) (omega arith)

-- The parent sleeps from second 100 to 500.
abbrev resumed : List Look
resumed = look (seconds 502) ∷ hears 6 (seconds 503) ∷ look (seconds 515) ∷ look (seconds 520) ∷ []

suspend_grants_grace_example : watch (look (seconds 500) ∷ resumed) armed ≡ false
suspend_grants_grace_example =
    suspend_grants_grace armed (seconds 500) resumed (omega arith) (omega arith) (omega arith)
      (omega arith)

beat_counts_example :
    (armed.ready ≡ true
      → armed.last_sequence < 6
      → ((Watchdog.beat 6 (seconds 101) armed).last_progress ≡ seconds 101)
        × ((Watchdog.beat 6 (seconds 101) armed).last_sequence ≡ 6))
    × ((armed.ready ≡ false) ⊎ (6 ≤ armed.last_sequence)
        → Watchdog.beat 6 (seconds 101) armed ≡ armed)
beat_counts_example = beat_counts armed 6 (seconds 101)

abbrev silent : List Look
silent = look (seconds 115) ∷ hears 3 (seconds 116) ∷ look (seconds 121) ∷ []

silence_is_reported_example : watch silent armed ≡ true
silence_is_reported_example =
    silence_is_reported silent armed (omega arith) (omega arith) refl (omega arith) (omega arith)

read-send_example :
    (send (beat 42) ≡ some (wire (beat 42) ++ newline ∷ []))
    × (read_line ((wire (beat 42) ++ newline ∷ []) ++ codes "STOP")
        ≡ line (wire (beat 42)) (codes "STOP"))
    × (parse_message (wire (beat 42)) ≡ some (beat 42))
read-send_example = read-send (beat 42) (codes "STOP") (omega arith)

validate_hello_iff_example :
    (validate_hello (hello_line (codes "af")) (codes "a0") ≡ true)
    ↔ ((codes "af" ≡ codes "a0") × (codes "a0" ≢ []))
unfolding is_space
validate_hello_iff_example = validate_hello_iff (codes "af") (codes "a0") (refl, (refl, tt))

abbrev given : GivenOptions
given = record {
  hang_window = negsuc 0;
  watch_interval = pos 0;
  stop_timeout = pos 0;
  restart_schedule = [];
  stable_run_reset = pos 0;
}

abbrev crash : GenerationResult
crash = record {
  disposition = exit_restart;
  err = some (exit_error (pos 2));
  ready_for = seconds 10;
  startup_code = pos 0;
}

abbrev crashes : List (GenerationResult × Bool)
crashes = (crash, false) ∷ (crash, false) ∷ (record crash { ready_for = seconds 301 }, true) ∷ []

delays_of_crashes :
    (run_parent (normalize_parent_options given) 0 crashes).delays
    ≡ seconds 1 ∷ seconds 5 ∷ seconds 1 ∷ []
unfolding normalize_parent_options run_parent pxgo.Guardian.Parent.parent_round
    pxgo.Guardian.Parent.parent_restart_delay
delays_of_crashes = refl

delays-eq-backoff_example :
    (run_parent (normalize_parent_options given) 0 crashes).delays ≡ backoff_delays fresh crashes
unfolding normalize_parent_options
delays-eq-backoff_example =
    delays-eq-backoff (normalize_parent_options given) crashes 0 refl refl (omega arith)

delays_positive_example :
    All (λ delay. 0 < delay) (run_parent (normalize_parent_options given) 0 crashes).delays
delays_positive_example = delays_positive (normalize_parent_options given) crashes 0

abbrev calm : Env
calm = record { now = seconds 200; exits = some none; reaped = none; ended = seconds 201 }

abbrev unready : Monitor
unready = record {
  ready = false;
  ready_at = 0;
  watchdog = record armed { ready = false };
  on_ready_calls = 0;
}

abbrev died : GenerationResult
died = record {
  disposition = exit_startup_failure;
  err = some (exit_error (pos 3));
  ready_for = 0;
  startup_code = pos 3;
}

disposition_by_readiness_example :
    (unready.ready ≡ false
      → (died.disposition ≡ exit_startup_failure)
        ⊎ ((died.disposition ≡ exit_normal_stop) × (exited (some (exit_error (pos 3))) ≡ ctx_done)))
    × (unready.ready ≡ true → died.disposition ≢ exit_startup_failure)
unfolding monitor_step pxgo.Guardian.Failure.exit_code
disposition_by_readiness_example =
    disposition_by_readiness (exited (some (exit_error (pos 3)))) calm unready died refl

abbrev one_life : List (Event × Env)
one_life =
    (message ready, calm)
    ∷ (tick, calm)
    ∷ (message (beat 1), record calm { now = seconds 202 })
    ∷ (message stop, calm)
    ∷ []

run_monitor-IsSound_example :
    EndsOk
      (last_monitor one_life (start_monitor (normalize_parent_options given)))
      (run_monitor one_life (start_monitor (normalize_parent_options given)))
run_monitor-IsSound_example = run_monitor-IsSound (normalize_parent_options given) one_life

abbrev healthy : Worker.Env
healthy = record {
  is_ready = true;
  fatal_requested = false;
  progress = 1;
  send_error = none;
  ctx_cancelled = false;
  shutdown_error = none;
  server_end = some none;
}

abbrev worker_life : List (Worker.Event × Worker.Env)
worker_life =
    (Worker.heartbeat_tick, healthy)
    ∷ (Worker.ready_tick, healthy)
    ∷ (Worker.heartbeat_tick, healthy)
    ∷ (Worker.server_returned none, healthy)
    ∷ []

worker_sends : (worker_of (run_worker worker_life start_worker)).sent ≡ ready ∷ beat 1 ∷ stop ∷ []
unfolding run_worker Worker.worker_step
worker_sends = refl

worker_speaks_protocol_example : phase_of (worker_of (run_worker worker_life start_worker)) ≢ broken
worker_speaks_protocol_example = worker_speaks_protocol worker_life

abbrev fatal_life : List (Worker.Event × Worker.Env)
fatal_life =
    (Worker.ready_tick, healthy)
    ∷ (Worker.heartbeat_tick, record healthy { fatal_requested = true })
    ∷ []

abbrev fatal_worker : Worker
fatal_worker = record { ready_sent = true; sent = ready ∷ []; snapshots = 1 }

abbrev restart_result : WorkerResult
restart_result = record { exit = Worker.exit_restart; err = none }

exit_by_readiness_example :
    (restart_result.exit ≡ Worker.exit_restart → BeginsWithReady fatal_worker.sent)
    × (restart_result.exit ≡ Worker.exit_startup_failure → fatal_worker.sent ≡ [])
unfolding run_worker Worker.worker_step
exit_by_readiness_example = exit_by_readiness fatal_life fatal_worker restart_result refl

agreement_example :
    NoProtocolError (run_monitor one_life (start_monitor (normalize_parent_options given)))
agreement_example =
    agreement (normalize_parent_options given) worker_life one_life (sym worker_sends)
      (ground arith)
