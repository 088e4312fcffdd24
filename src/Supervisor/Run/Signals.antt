-- ===== src/Supervisor/Run/Signals.antt =====
-- The fatal signal and the two failure windows, in every step.
use pxgo.Shared.{ℕ, ◌<◌, String, ◌≡◌, ◌⊎◌, true, none, length, if_both, arith}
use pxgo.Supervisor.Outcome.{Outcome}
use pxgo.Supervisor.State.{Supervisor}
use pxgo.Supervisor.Health.{record_local_failure, reset_transient}
use pxgo.Supervisor.Record.{
  record_outcome, record_by, record_penalized, record_internal_failure, observe_correlated_failure,
  tick, Class, Verdict, class_of, is_success, is_penalized, is_internal, is_other,
}
use pxgo.Supervisor.Recovery.{trigger, release, action_done, close}
use pxgo.Supervisor.Run.Actions.{order-frame}
use pxgo.Supervisor.Run.{Step, records, orders}

-- A signal waits only once the end of the process was asked for; until then fewer than three internal
-- failures are in their window. Of correlated failures there are fewer than eight, or fewer than two
-- proxies that had them.
pub record SignalsOk (s : Supervisor) : Type 0 where
  pub latched : (s.fatal_requested ≡ true) ⊎ (s.fatal_ch ≡ none)
  pub internal_low : (s.internal_failures < 3) ⊎ (s.fatal_requested ≡ true)
  pub correlated_low : (s.correlated.count < 8) ⊎ (length s.correlated.proxies < 2)

-- The signals and windows after an outcome.
observe-SignalsOk :
    (now : ℕ) (key : String) (s : Supervisor)
    → SignalsOk s
    → SignalsOk (observe_correlated_failure now key s).1
unfolding observe_correlated_failure
observe-SignalsOk now key s h = ground arith

local-SignalsOk :
    (now : ℕ) (key : String) (s : Supervisor)
    → SignalsOk s
    → SignalsOk (record_local_failure now key s).1
unfolding record_local_failure
local-SignalsOk now key s h = ground arith

record_by-SignalsOk :
    (class : Class) (now : ℕ) (o : Outcome) (s : Supervisor)
    → SignalsOk s
    → SignalsOk (record_by class now o s).state
unfolding record_by record_penalized record_internal_failure
record_by-SignalsOk is_penalized now o s h =
    observe-SignalsOk now o.proxy _ (local-SignalsOk now o.proxy s h)
record_by-SignalsOk is_success now o s h = ground arith
record_by-SignalsOk is_internal now o s h = ground arith
record_by-SignalsOk is_other now o s h = h

pub Step-SignalsOk : (s : Supervisor) {t : Supervisor} → Step s t → SignalsOk s → SignalsOk t
unfolding trigger release action_done tick reset_transient close record_outcome
Step-SignalsOk s (records now o) h =
    if_both (λ (v : Verdict). SignalsOk v.state) s.closed _ _ h
      (record_by-SignalsOk (class_of o.kind) now o s h)
Step-SignalsOk s (orders now cs) h = ground (arith, order-frame now cs s)
Step-SignalsOk s _ h = ground arith
