-- ===== src/Guardian/Agreement.antt =====
-- The two ends of the control connection together: `RunWorker` (internal/guardian/worker.go) sends,
-- `monitorReadyWorker` (internal/guardian/parent.go) listens.
use pxgo.Shared.{
  ◌≡◌, ◌≢◌, refl, Bool, false, Option, none, some, List, [], ◌∷◌, arith, if◌then◌else◌,
}
use pxgo.Guardian.Failure.{Failure, is_protocol, join, normalize_parent_stop_error}
use pxgo.Guardian.Message.{Message, ready, beat, stop, unknown}
use pxgo.Guardian.Monitor.{
  ParentOptions, Env, Event, ctx_done, exited, message, read_error, tick, Monitor, Next, continue,
  finished, start_monitor, monitor_step, run_monitor,
}
use pxgo.Guardian.Worker
use pxgo.Guardian.Worker.{start_worker, run_worker}
use pxgo.Guardian.Worker.Laws.{
  Phase, idle, started, broken, hear, phase_after, worker_of, worker_speaks_protocol,
}

abbrev pub mentions_protocol : Option Failure → Bool
mentions_protocol none = false
mentions_protocol (some err) = is_protocol err

abbrev exit_mentions_protocol : Option (Option Failure) → Bool
exit_mentions_protocol none = false
exit_mentions_protocol (some err) = mentions_protocol err

-- The world itself reports no ErrProtocol: neither the child's exit nor the connection does.
abbrev pub Innocent : Event → Env → Type 0
Innocent (exited err) env = mentions_protocol err ≡ false
Innocent (read_error err) env =
    (is_protocol err ≡ false)
    × (exit_mentions_protocol env.exits ≡ false)
    × (exit_mentions_protocol env.reaped ≡ false)
Innocent _ env =
    (exit_mentions_protocol env.exits ≡ false) × (exit_mentions_protocol env.reaped ≡ false)

abbrev pub AllInnocent : List (Event × Env) → Type 0
AllInnocent [] = Unit
AllInnocent ((event, env) ∷ rest) = Innocent event env × AllInnocent rest

-- The messages among the events.
abbrev pub heard : List (Event × Env) → List Message
heard [] = []
heard ((message m, env) ∷ rest) = m ∷ heard rest
heard ((ctx_done, env) ∷ rest) = heard rest
heard ((exited _, env) ∷ rest) = heard rest
heard ((read_error _, env) ∷ rest) = heard rest
heard ((tick, env) ∷ rest) = heard rest

-- Where the parent stands in the protocol.
abbrev parent_phase : Monitor → Phase
parent_phase m = if m.ready then started else idle

abbrev pub NoProtocolError : Next → Type 0
NoProtocolError (continue m) = Unit
NoProtocolError (finished r) = mentions_protocol r.err ≡ false

-- One round, and where it leaves the parent in the protocol.
abbrev RoundOk : Phase → Next → Type 0
RoundOk p (continue m) = parent_phase m ≡ p
RoundOk p (finished r) = mentions_protocol r.err ≡ false

message_ok :
    (msg : Message) (env : Env) (m : Monitor)
    → Innocent (message msg) env
    → hear (parent_phase m) msg ≢ broken
    → RoundOk (hear (parent_phase m) msg) (monitor_step (message msg) env m)
unfolding monitor_step normalize_parent_stop_error join is_protocol
message_ok ready env m i p = ground arith
message_ok (beat n) env m i p = ground arith
message_ok stop env m i p = ground arith
message_ok (unknown t) env m i p = ground arith

other_ok :
    (event : Event) (env : Env) (m : Monitor)
    → heard ((event, env) ∷ []) ≡ []
    → Innocent event env
    → RoundOk (parent_phase m) (monitor_step event env m)
unfolding monitor_step normalize_parent_stop_error join is_protocol
other_ok (message msg) env m h i = ground arith
other_ok ctx_done env m h i = ground arith
other_ok (exited none) env m h i = ground arith
other_ok (exited (some err)) env m h i = ground arith
other_ok (read_error err) env m h i = ground arith
other_ok tick env m h i = ground arith

broken_for_good : (ms : List Message) → phase_after broken ms ≡ broken
broken_for_good [] = refl
broken_for_good (m ∷ ms) = broken_for_good ms

not_broken_yet : (p : Phase) (ms : List Message) → phase_after p ms ≢ broken → p ≢ broken
not_broken_yet p ms h e = h (rw e (broken_for_good ms))

round_ok :
    (event : Event) (env : Env) (rest : List Message) (m : Monitor)
    → Innocent event env
    → phase_after (phase_after (parent_phase m) (heard ((event, env) ∷ []))) rest ≢ broken
    → RoundOk (phase_after (parent_phase m) (heard ((event, env) ∷ []))) (monitor_step event env m)
round_ok (message msg) env rest m i p =
    message_ok msg env m i (not_broken_yet (hear (parent_phase m) msg) rest p)
round_ok ctx_done env rest m i p = other_ok ctx_done env m refl i
round_ok (exited err) env rest m i p = other_ok (exited err) env m refl i
round_ok (read_error err) env rest m i p = other_ok (read_error err) env m refl i
round_ok tick env rest m i p = other_ok tick env m refl i

heard-cons :
    (p : Phase) (event : Event) (env : Env) (rest : List (Event × Env))
    → phase_after p (heard ((event, env) ∷ rest))
      ≡ phase_after (phase_after p (heard ((event, env) ∷ []))) (heard rest)
heard-cons p (message msg) env rest = refl
heard-cons p ctx_done env rest = refl
heard-cons p (exited err) env rest = refl
heard-cons p (read_error err) env rest = refl
heard-cons p tick env rest = refl

run_ok :
    (events : List (Event × Env)) (m : Monitor)
    → AllInnocent events
    → phase_after (parent_phase m) (heard events) ≢ broken
    → NoProtocolError (run_monitor events m)
unfolding run_monitor
run_ok [] m i p = tt
run_ok ((event, env) ∷ rest) m i p =
    go (monitor_step event env m) (round_ok event env (heard rest) m i.0 p') p'
      (λ m'. run_ok rest m' i.1)
  where
    q : Phase
    q = phase_after (parent_phase m) (heard ((event, env) ∷ []))

    p' : phase_after q (heard rest) ≢ broken
    p' = rw heard-cons at p

    go :
        (n : Next)
        → RoundOk q n
        → phase_after q (heard rest) ≢ broken
        → ((m' : Monitor)
            → phase_after (parent_phase m') (heard rest) ≢ broken
            → NoProtocolError (run_monitor rest m'))
        → NoProtocolError
            (elim n [ continue m' ↦ run_monitor rest m' | finished result ↦ finished result ])
    go (continue m') ok r later = later m' (rw ok r)
    go (finished result) ok r later = ok

-- A parent that hears what some worker sends, with clock ticks, the end of the child and of the
-- context anywhere between the messages, never ends the generation with a protocol error, unless
-- the child's exit or the connection itself reports one.
pub agreement :
    (options : ParentOptions) (sent : List (Worker.Event × Worker.Env))
    (events : List (Event × Env))
    → heard events ≡ (worker_of (run_worker sent start_worker)).sent
    → AllInnocent events
    → NoProtocolError (run_monitor events (start_monitor options))
unfolding start_monitor
agreement options sent events e i =
    run_ok events (start_monitor options) i (rw e (worker_speaks_protocol sent))
