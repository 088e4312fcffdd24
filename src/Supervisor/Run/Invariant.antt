-- ===== src/Supervisor/Run/Invariant.antt =====
-- What holds of the supervisor between two locked sections, in every interleaving.
use pxgo.Shared.{ℕ, ◌+◌, ◌≤◌, String, ◌≡◌, refl, is_some, if_both, inr, arith, if◌then◌else◌}
use pxgo.Supervisor.Outcome.{Outcome}
use pxgo.Supervisor.State.{Owners, Supervisor, new_supervisor}
use pxgo.Supervisor.Health.{record_local_failure, reset_transient}
use pxgo.Supervisor.Record.{
  record_outcome, record_by, record_penalized, record_internal_failure, observe_correlated_failure,
  tick, Class, Verdict, class_of, is_success, is_penalized, is_internal, is_other,
}
use pxgo.Supervisor.Recovery.{trigger, release, action_done, close}
use pxgo.Supervisor.Run.{Step, records, orders, Reach, here, next, takes}
use pxgo.Supervisor.Run.Healths.{HealthOk, Step-HealthOk}
use pxgo.Supervisor.Run.Actions.{ActionsOk, Step-ActionsOk, order-frame}
use pxgo.Supervisor.Run.Signals.{SignalsOk, Step-SignalsOk}

pub record IsSound (s : Supervisor) : Type 0 where
  pub health_ok : HealthOk s.health
  pub actions_ok : ActionsOk s.inflight s.running
  pub signals_ok : SignalsOk s

new-IsSound : (owners : Owners) → IsSound (new_supervisor owners)
unfolding new_supervisor
new-IsSound owners = record {
  health_ok = record { bounded = omega arith; sane = tt };
  actions_ok = record { distinct = tt; counted = omega arith };
  signals_ok = ground arith;
}

Step-IsSound : (s : Supervisor) {t : Supervisor} → Step s t → IsSound s → IsSound t
Step-IsSound s st h = record {
  health_ok = Step-HealthOk s st h.health_ok;
  actions_ok = Step-ActionsOk s st h.actions_ok;
  signals_ok = Step-SignalsOk s st h.signals_ok;
}

Reach-IsSound : {s : Supervisor} {n : ℕ} {t : Supervisor} → Reach s n t → IsSound s → IsSound t
Reach-IsSound here h = h
Reach-IsSound (next {t = t} r st) h = Step-IsSound t st (Reach-IsSound r h)
Reach-IsSound (takes {t = t} signal r e) h =
    let before = Reach-IsSound r h in
    record {
      health_ok = before.health_ok;
      actions_ok = before.actions_ok;
      signals_ok = record {
        latched = inr refl;
        internal_low = before.signals_ok.internal_low;
        correlated_low = before.signals_ok.correlated_low;
      };
    }

-- In every interleaving of the supervisor's locked sections: at most 256 proxies are remembered,
-- each with a level of at most 5, and cooling only after two failures; no recovery action is in
-- flight twice and each is counted; until the end of the process is asked for, no signal for it waits
-- and fewer than three internal failures are in their window; and the window of correlated failures
-- has fewer than eight of them, or fewer than two proxies that had them.
pub supervisor-IsSound :
    (owners : Owners) {n : ℕ} {t : Supervisor} → Reach (new_supervisor owners) n t → IsSound t
supervisor-IsSound owners r = Reach-IsSound r (new-IsSound owners)

-- One signal waiting in the channel.
abbrev waiting : Supervisor → ℕ
waiting s = if is_some s.fatal_ch then 1 else 0

abbrev allowed : Supervisor → ℕ
allowed s = if s.fatal_requested then 1 else 0

record_penalized-signals :
    (now : ℕ) (key : String) (s : Supervisor)
    → ((record_penalized now key s).state.fatal_ch ≡ s.fatal_ch)
      × ((record_penalized now key s).state.fatal_requested ≡ s.fatal_requested)
unfolding record_penalized record_local_failure observe_correlated_failure
record_penalized-signals now key s = ground arith

record_by_sends :
    (n : ℕ) (class : Class) (now : ℕ) (o : Outcome) (s : Supervisor)
    → n + waiting s ≤ allowed s
    → n + waiting (record_by class now o s).state ≤ allowed (record_by class now o s).state
unfolding record_by
record_by_sends n is_success now o s h = ground arith
record_by_sends n is_penalized now o s h = ground (arith, record_penalized-signals now o.proxy s)
record_by_sends n is_internal now o s h = unfold record_internal_failure in ground arith
record_by_sends n is_other now o s h = h

-- A step sends a signal only as it sets the request.
Step-waiting :
    (n : ℕ) (s : Supervisor) {t : Supervisor}
    → Step s t
    → n + waiting s ≤ allowed s
    → n + waiting t ≤ allowed t
unfolding trigger release action_done tick reset_transient close record_outcome
Step-waiting n s (records now o) h =
    if_both (λ (v : Verdict). n + waiting v.state ≤ allowed v.state) s.closed _ _ h
      (record_by_sends n (class_of o.kind) now o s h)
Step-waiting n s (orders now cs) h = ground (arith, order-frame now cs s)
Step-waiting n s _ h = ground arith

signals_counted :
    (owners : Owners) {n : ℕ} {t : Supervisor}
    → Reach (new_supervisor owners) n t
    → n + waiting t ≤ allowed t
signals_counted owners here = unfold new_supervisor in omega arith
signals_counted owners (next {n = n} {t = t} r st) = Step-waiting n t st (signals_counted owners r)
signals_counted owners (takes {n = n} {t = t} signal r e) = ground (arith, signals_counted owners r)

-- However often internal failures repeat, the supervisor asks for the end of its process at most
-- once in its life.
pub fatal_at_most_once :
    (owners : Owners) {n : ℕ} {t : Supervisor} → Reach (new_supervisor owners) n t → n ≤ 1
fatal_at_most_once owners {n} {t} r = ground (arith, signals_counted owners r)
