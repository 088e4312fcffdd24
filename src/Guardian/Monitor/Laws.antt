-- ===== src/Guardian/Monitor/Laws.antt =====
-- What Guardian/Monitor.antt promises.
use pxgo.Shared.{◌≡◌, ◌≢◌, ◌⊎◌, none, some, true, false, List, [], ◌∷◌, arith, if◌then◌else◌}
use pxgo.Guardian.Failure.{exit_startup_failure, exit_normal_stop}
use pxgo.Guardian.Watchdog
use pxgo.Guardian.Message.{ready, beat, stop, unknown}
use pxgo.Guardian.Monitor.{
  ParentOptions, GenerationResult, Env, Event, ctx_done, exited, message, read_error, tick,
  ready_duration, Monitor, Next, continue, finished, start_monitor, monitor_step, run_monitor,
}

-- Until READY a generation can end only as a startup failure, or as a normal stop because the
-- parent's context is done; from READY on it never ends as a startup failure.
pub disposition_by_readiness :
    (e : Event) (env : Env) (m : Monitor) (r : GenerationResult)
    → monitor_step e env m ≡ finished r
    → (m.ready ≡ false
        → (r.disposition ≡ exit_startup_failure)
          ⊎ ((r.disposition ≡ exit_normal_stop) × (e ≡ ctx_done)))
      × (m.ready ≡ true → r.disposition ≢ exit_startup_failure)
unfolding monitor_step Watchdog.beat Watchdog.check Watchdog.ready_at
disposition_by_readiness e env m r h = ground arith

-- READY has been seen, the watchdog is armed, the time is noted and the caller was told, all or none
-- of them, and once.
pub record IsSound (m : Monitor) : Type 0 where
  pub armed : m.watchdog.ready ≡ m.ready
  pub unready : m.ready ≡ false → m.ready_at ≡ 0
  pub told : m.on_ready_calls ≡ (if m.ready then 1 else 0)

-- The loop's state when its last round begins, or where it stands while it goes on.
pub last_monitor : List (Event × Env) → Monitor → Monitor
last_monitor [] m = m
last_monitor ((event, env) ∷ rest) m = elim (monitor_step event env m) [
  | continue m' ↦ last_monitor rest m'
  | finished _ ↦ m
]

-- What a round leaves: a sound state, or the end of a sound one. A failed startup is the end of a
-- state that has told nobody of READY, and says that the worker was ready for no time.
abbrev pub EndsOk : Monitor → Next → Type 0
EndsOk m (continue m') = IsSound m'
EndsOk m (finished r) =
    IsSound m
    × ((r.disposition ≢ exit_startup_failure)
        ⊎ ((m.ready ≡ false) × (m.on_ready_calls ≡ 0) × (r.ready_for ≡ 0)))

monitor_step-EndsOk :
    (e : Event) (env : Env) (m : Monitor) → IsSound m → EndsOk m (monitor_step e env m)
unfolding monitor_step Watchdog.beat Watchdog.check Watchdog.ready_at ready_duration
monitor_step-EndsOk (exited none) env m s = ground arith
monitor_step-EndsOk (exited (some err)) env m s = ground arith
monitor_step-EndsOk (message ready) env m s = ground arith
monitor_step-EndsOk (message (beat n)) env m s = ground arith
monitor_step-EndsOk (message stop) env m s = ground arith
monitor_step-EndsOk (message (unknown t)) env m s = ground arith
monitor_step-EndsOk ctx_done env m s = ground arith
monitor_step-EndsOk (read_error err) env m s = ground arith
monitor_step-EndsOk tick env m s = ground arith

run_monitor-EndsOk :
    (events : List (Event × Env)) (m : Monitor)
    → IsSound m
    → EndsOk (last_monitor events m) (run_monitor events m)
unfolding run_monitor last_monitor
run_monitor-EndsOk [] m s = s
run_monitor-EndsOk ((event, env) ∷ rest) m s =
    by_next (monitor_step event env m) (monitor_step-EndsOk event env m s)
      (λ m'. run_monitor-EndsOk rest m')
  where
    by_next :
        (n : Next)
        → EndsOk m n
        → ((m' : Monitor) → IsSound m' → EndsOk (last_monitor rest m') (run_monitor rest m'))
        → EndsOk
            (elim n [ continue m' ↦ last_monitor rest m' | finished _ ↦ m ])
            (elim n [ continue m' ↦ run_monitor rest m' | finished result ↦ finished result ])
    by_next (continue m') ok later = later m' ok
    by_next (finished r) ok later = ok

-- In every run of the loop: while it goes on the watchdog is armed and the caller was told exactly
-- if READY has come, and told once. This holds too of the state that the last round finds; if that
-- round ends the generation as a failed startup, READY had not come and nobody was told.
pub run_monitor-IsSound :
    (options : ParentOptions) (events : List (Event × Env))
    → EndsOk
        (last_monitor events (start_monitor options))
        (run_monitor events (start_monitor options))
unfolding start_monitor
run_monitor-IsSound options events =
    run_monitor-EndsOk events (start_monitor options) (ground arith)
