-- ===== src/Supervisor/Run/Closed.antt =====
-- What a closed supervisor can still do, in every interleaving.
use pxgo.Shared.{ℕ, zero, ◌+◌, ◌≤◌, ◌≡◌, true, is_some, length, arith, if◌then◌else◌}
use pxgo.Supervisor.State.{ActionKey, Supervisor}
use pxgo.Supervisor.Outcome.{Outcome}
use pxgo.Supervisor.Health.{reset_transient}
use pxgo.Supervisor.Record.{record_outcome, tick}
use pxgo.Supervisor.Recovery.{trigger, release, action_done, close}
use pxgo.Supervisor.Run.Actions.{order-frame, length-drop_action}
use pxgo.Supervisor.Run.{
  Step, records, triggers, releases, finishes, ticks, orders, resets, closes, Reach, here, next,
  takes,
}

-- One signal waiting in the channel.
abbrev pub waiting : Supervisor → ℕ
waiting s = if is_some s.fatal_ch then 1 else 0

-- Since `s` nothing was recorded, begun or asked for: `n` signals were taken, each of which waited
-- already.
pub record IsFinal (s : Supervisor) (n : ℕ) (t : Supervisor) : Type 0 where
  pub shut : t.closed ≡ true
  pub fewer_running : t.running ≤ s.running
  pub fewer_inflight : length t.inflight ≤ length s.inflight
  pub same_progress : t.progress_sequence ≡ s.progress_sequence
  pub same_epoch : t.network_epoch ≡ s.network_epoch
  pub same_failures : t.internal_failures ≡ s.internal_failures
  pub same_request : t.fatal_requested ≡ s.fatal_requested
  pub no_signal : n + waiting t ≤ waiting s

closed-frame :
    (s : Supervisor)
    → s.closed ≡ true
    → ((now : ℕ) (o : Outcome) → (record_outcome now o s).state ≡ s)
      × ((clock given : ℕ) → (tick clock given s).1 ≡ s)
      × ((key : ActionKey) → (trigger key s).1 ≡ s)
      × (close s ≡ s)
unfolding record_outcome tick trigger close
closed-frame s c =
    (λ now o. ground arith, λ clock given. ground arith, λ key. ground arith, ground arith)

Step-IsFinal :
    (s : Supervisor) (n : ℕ) (t : Supervisor) {u : Supervisor}
    → Step t u
    → IsFinal s n t
    → IsFinal s n u
Step-IsFinal s n t (records now o) f = rw ((closed-frame t f.shut).0 now o) f
Step-IsFinal s n t (ticks clock given) f = rw ((closed-frame t f.shut).1 clock given) f
Step-IsFinal s n t (triggers key) f = rw ((closed-frame t f.shut).2 key) f
Step-IsFinal s n t closes f = rw ((closed-frame t f.shut).3) f
Step-IsFinal s n t (orders now cs) f = rw (order-frame now cs t) (record {
  shut = f.shut;
  fewer_running = f.fewer_running;
  fewer_inflight = f.fewer_inflight;
  same_progress = f.same_progress;
  same_epoch = f.same_epoch;
  same_failures = f.same_failures;
  same_request = f.same_request;
  no_signal = f.no_signal;
})
Step-IsFinal s n t (releases key e) f =
    unfold release in
    record {
      shut = f.shut;
      fewer_running = f.fewer_running;
      fewer_inflight = omega (arith, f.fewer_inflight, length-drop_action key t.inflight);
      same_progress = f.same_progress;
      same_epoch = f.same_epoch;
      same_failures = f.same_failures;
      same_request = f.same_request;
      no_signal = f.no_signal;
    }
Step-IsFinal s n t (finishes e) f =
    unfold action_done in
    record {
      shut = f.shut;
      fewer_running = omega (arith, f.fewer_running);
      fewer_inflight = f.fewer_inflight;
      same_progress = f.same_progress;
      same_epoch = f.same_epoch;
      same_failures = f.same_failures;
      same_request = f.same_request;
      no_signal = f.no_signal;
    }
Step-IsFinal s n t resets f =
    unfold reset_transient in
    record {
      shut = f.shut;
      fewer_running = f.fewer_running;
      fewer_inflight = f.fewer_inflight;
      same_progress = f.same_progress;
      same_epoch = f.same_epoch;
      same_failures = f.same_failures;
      same_request = f.same_request;
      no_signal = f.no_signal;
    }

close-IsFinal : (s : Supervisor) → IsFinal s zero (close s)
unfolding close
close-IsFinal s = ground arith

-- After Close, in every interleaving of whatever threads still call: the supervisor stays closed,
-- no action is started and none is put in flight, no progress, epoch or internal failure is counted,
-- the end of the process is not asked for, and no signal comes that did not wait already.
pub closed-IsFinal : (s : Supervisor) {n : ℕ} {t : Supervisor} → Reach (close s) n t → IsFinal s n t
closed-IsFinal s here = close-IsFinal s
closed-IsFinal s (next {n = n} {t = t} r st) = Step-IsFinal s n t st (closed-IsFinal s r)
closed-IsFinal s (takes {n = n} {t = t} signal r e) =
    let f = closed-IsFinal s r in
    record {
      shut = f.shut;
      fewer_running = f.fewer_running;
      fewer_inflight = f.fewer_inflight;
      same_progress = f.same_progress;
      same_epoch = f.same_epoch;
      same_failures = f.same_failures;
      same_request = f.same_request;
      no_signal = ground (arith, f.no_signal, e);
    }
