-- ===== src/Supervisor/Run/Methods.antt =====
-- The public methods against the steps: each method that enters several locked sections is a run of
-- steps.
use pxgo.Shared.{ℕ, zero, if_both, if◌then◌else◌}
use pxgo.Supervisor.Outcome.{Outcome, OutcomeKind, route_failure, auth_exhausted}
use pxgo.Supervisor.State.{
  ActionKey, Supervisor, refresh_route, refresh_auth, close_idle_transports, clear_network_dns,
}
use pxgo.Supervisor.Record
use pxgo.Supervisor.Record.{record_outcome, tick}
use pxgo.Supervisor.Recovery.{
  trigger, trigger_network_recovery, trigger_for, recover, tick_and_recover,
}
use pxgo.Supervisor.Run.{records, triggers, ticks, Reach, here, next}

-- One more trigger.
then_trigger :
    {s : Supervisor} (key : ActionKey) (t : Supervisor)
    → Reach s zero t
    → Reach s zero (trigger key t).1
then_trigger key t r = next r (triggers key)

then_recover :
    {s : Supervisor} (t : Supervisor) → Reach s zero t → Reach s zero (trigger_network_recovery t)
unfolding trigger_network_recovery
then_recover t r = then_trigger clear_network_dns _ (
    then_trigger close_idle_transports _
      (then_trigger refresh_auth _ (then_trigger refresh_route t r)))

then_trigger_for :
    {s : Supervisor} (kind : OutcomeKind) (t : Supervisor)
    → Reach s zero t
    → Reach s zero (trigger_for kind t)
then_trigger_for route_failure t r = then_trigger refresh_route t r
then_trigger_for auth_exhausted t r = then_trigger refresh_auth t r
then_trigger_for _ t r = r

-- `Recover` is a run of locked sections: so all that holds in every interleaving of these holds of
-- it, with other threads between its sections or none.
pub recover-Reach :
    (now : ℕ) (outcome : Outcome) (s : Supervisor) → Reach s zero (recover now outcome s)
unfolding recover
recover-Reach now outcome s =
    if_both (Reach s zero) verdict.network_epoch (trigger_network_recovery idle) idle
      (then_recover idle ok) ok
  where
    verdict : Record.Verdict
    verdict = record_outcome now outcome s

    asked : Supervisor
    asked = trigger_for outcome.kind verdict.state

    idle : Supervisor
    idle = if verdict.trigger_idle then (trigger close_idle_transports asked).1 else asked

    asked_ok : Reach s zero asked
    asked_ok = then_trigger_for outcome.kind verdict.state (next here (records now outcome))

    ok : Reach s zero idle
    ok =
        if_both (Reach s zero) verdict.trigger_idle (trigger close_idle_transports asked).1 asked
          (then_trigger close_idle_transports asked asked_ok) asked_ok

pub tick_and_recover-Reach :
    (clock given : ℕ) (s : Supervisor) → Reach s zero (tick_and_recover clock given s)
unfolding tick_and_recover
tick_and_recover-Reach clock given s =
    if_both (Reach s zero) (tick clock given s).0 _ _
      (then_recover (tick clock given s).1 (next here (ticks clock given)))
      (next here (ticks clock given))
