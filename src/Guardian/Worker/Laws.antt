-- ===== src/Guardian/Worker/Laws.antt =====
-- What Guardian/Worker.antt promises.
use pxgo.Shared.{◌≡◌, ◌≢◌, refl, none, some, List, [], ◌∷◌, ◌++◌, arith, if◌then◌else◌}
use pxgo.Guardian.Message.{Message, ready, beat, stop, unknown}
use pxgo.Guardian.Worker.{
  exit_startup_failure, exit_restart, WorkerResult, Env, Event, server_returned, ready_tick,
  heartbeat_tick, Worker, start_worker, Next, continue, finished, worker_step, run_worker,
}

-- The protocol that the worker's messages are meant to follow: READY, then beats, then at most one
-- STOP, and nothing after it.
pub data Phase : Type 0 where
  idle started stopped broken : Phase

abbrev pub hear : Phase → Message → Phase
hear idle ready = started
hear started (beat _) = started
hear started stop = stopped
hear _ _ = broken

-- Where a list of messages leaves the protocol.
abbrev pub phase_after : Phase → List Message → Phase
phase_after p [] = p
phase_after p (m ∷ ms) = phase_after (hear p m) ms

phase_after-append :
    (p : Phase) (ms : List Message) (m : Message)
    → phase_after p (ms ++ m ∷ []) ≡ hear (phase_after p ms) m
phase_after-append p [] m = refl
phase_after-append p (k ∷ ms) m = phase_after-append (hear p k) ms m

abbrev pub phase_of : Worker → Phase
phase_of w = phase_after idle w.sent

-- While the loop runs the worker has said READY and beats only, or nothing.
abbrev InStep : Worker → Type 0
InStep w = phase_of w ≡ (if w.ready_sent then started else idle)

-- What one round keeps, and how the loop can end.
abbrev StepOk : Next → Type 0
StepOk (continue w') = InStep w'
StepOk (finished w' r) =
    (phase_of w' ≢ broken)
    × (r.exit ≡ exit_restart → phase_of w' ≡ started)
    × (r.exit ≡ exit_startup_failure → phase_of w' ≡ idle)

worker_step-ok : (e : Event) (env : Env) (w : Worker) → InStep w → StepOk (worker_step e env w)
unfolding worker_step
worker_step-ok (server_returned none) env w h = ground (arith, phase_after-append idle w.sent stop)
worker_step-ok (server_returned (some err)) env w h = ground arith
worker_step-ok ready_tick env w h = ground (arith, phase_after-append idle w.sent ready)
worker_step-ok heartbeat_tick env w h =
    ground (arith, phase_after-append idle w.sent (beat env.progress))
worker_step-ok _ env w h = ground arith

run_worker-ok : (events : List (Event × Env)) (w : Worker) → InStep w → StepOk (run_worker events w)
unfolding run_worker
run_worker-ok [] w h = h
run_worker-ok ((event, env) ∷ rest) w h =
    go (worker_step event env w) (worker_step-ok event env w h) (λ w'. run_worker-ok rest w')
  where
    go :
        (n : Next)
        → StepOk n
        → ((w' : Worker) → InStep w' → StepOk (run_worker rest w'))
        → StepOk
            (elim n [ continue w' ↦ run_worker rest w' | finished w' result ↦ finished w' result ])
    go (continue w') ok later = later w' ok
    go (finished w' result) ok later = ok

abbrev pub worker_of : Next → Worker
worker_of (continue w) = w
worker_of (finished w _) = w

ok-ne-broken : (n : Next) → StepOk n → phase_of (worker_of n) ≢ broken
ok-ne-broken (continue w) h = ground arith
ok-ne-broken (finished w r) h = h.0

-- Whatever happens, and in whatever order, what a worker sends is READY first, once, then beats,
-- then at most one STOP with nothing behind it; or a beginning of that.
pub worker_speaks_protocol :
    (events : List (Event × Env)) → phase_of (worker_of (run_worker events start_worker)) ≢ broken
worker_speaks_protocol events = ok-ne-broken _ (run_worker-ok events start_worker refl)

-- No message brings the protocol back to its start.
never_back : (p : Phase) (ms : List Message) → p ≢ idle → phase_after p ms ≢ idle
never_back p [] h = h
never_back p (m ∷ ms) h = never_back (hear p m) ms (heard p m)
  where
    heard : (p : Phase) (m : Message) → hear p m ≢ idle
    heard p m = ground arith

nothing_said : (ms : List Message) → phase_after idle ms ≡ idle → ms ≡ []
nothing_said [] h = refl
nothing_said (m ∷ ms) h = absurd (never_back (hear idle m) ms (ground arith) h)

stays_broken : (ms : List Message) → phase_after broken ms ≡ broken
stays_broken [] = refl
stays_broken (m ∷ ms) = stays_broken ms

-- What was said is READY and then other messages.
abbrev pub BeginsWithReady : List Message → Type 0
BeginsWithReady ms = (others : List Message) × (ms ≡ ready ∷ others)

ready_said : (ms : List Message) → phase_after idle ms ≡ started → BeginsWithReady ms
ready_said [] h = absurd (ground arith)
ready_said (ready ∷ ms) h = (ms, refl)
ready_said (beat n ∷ ms) h = absurd (ground (arith, stays_broken ms))
ready_said (stop ∷ ms) h = absurd (ground (arith, stays_broken ms))
ready_said (unknown t ∷ ms) h = absurd (ground (arith, stays_broken ms))

-- A worker ends with the restart code only if READY was the first message that the session took
-- from it, and with the code of a failed startup only if the session took none.
pub exit_by_readiness :
    (events : List (Event × Env)) (w : Worker) (r : WorkerResult)
    → run_worker events start_worker ≡ finished w r
    → (r.exit ≡ exit_restart → BeginsWithReady w.sent)
      × (r.exit ≡ exit_startup_failure → w.sent ≡ [])
exit_by_readiness events w r h =
    let end : StepOk (finished w r) = rw h at (run_worker-ok events start_worker refl) in
    (λ e. ready_said w.sent (end.1 e), λ e. nothing_said w.sent (end.2 e))
