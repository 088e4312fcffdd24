-- ===== src/Supervisor/Recovery.antt =====
-- internal/supervisor/recovery.go and the methods `Recover` and `Close`: owner actions, each at most
-- once in flight. The action itself runs on a goroutine of its own, outside the lock: `release` is
-- the locked end of `runAction`, `action_done` the `wg.Done` that follows.
use Prim.Native.Nat.{ℕ}
use pxgo.Shared.{◌+◌, ◌-◌, Bool, true, false, not, ◌||◌, List, [], ◌∷◌, ◌==◌, if◌then◌else◌}
use pxgo.Supervisor.Outcome.{OutcomeKind, Outcome, route_failure, auth_exhausted}
use pxgo.Supervisor.State.{
  ActionKey, refresh_route, refresh_auth, close_idle_transports, clear_network_dns, other_action,
  Owners, Supervisor,
}
use pxgo.Supervisor.Record.{record_outcome, tick}

-- The value of the constant; keys are compared by it.
abbrev pub action_code : ActionKey → ℕ
action_code refresh_route = 0
action_code refresh_auth = 1
action_code close_idle_transports = 2
action_code clear_network_dns = 3
action_code (other_action n) = 4 + n

-- Whether `ownerAction` finds a callback.
unfoldable pub owner_action : Owners → ActionKey → Bool
owner_action owners refresh_route = owners.refresh_route
owner_action owners refresh_auth = owners.refresh_auth
owner_action owners close_idle_transports = owners.close_idle_transports
owner_action owners clear_network_dns = owners.clear_network_dns
owner_action owners (other_action _) = false

unfoldable pub is_inflight : ActionKey → List ActionKey → Bool
is_inflight key [] = false
is_inflight key (k ∷ ks) = (action_code k == action_code key) || is_inflight key ks

-- delete(s.inflight, key)
unfoldable pub drop_action : ActionKey → List ActionKey → List ActionKey
drop_action key [] = []
drop_action key (k ∷ ks) =
    let rest = drop_action key ks in if action_code k == action_code key then rest else k ∷ rest

unfoldable pub trigger : ActionKey → Supervisor → Bool × Supervisor
unfolding owner_action
trigger key s =
    if not (owner_action s.owners key)
    then (false, s)
    else if s.closed || is_inflight key s.inflight
    then (false, s)
    else (true, record s { inflight = key ∷ s.inflight; running = s.running + 1 })

unfoldable pub release : ActionKey → Supervisor → Supervisor
unfolding drop_action
release key s = record s { inflight = drop_action key s.inflight }

-- `wg.Done`, by a goroutine that was counted.
unfoldable pub action_done : Supervisor → Supervisor
action_done s = record s { running = s.running - 1 }

unfoldable pub trigger_network_recovery : Supervisor → Supervisor
unfolding trigger
trigger_network_recovery s =
    (trigger clear_network_dns
      (trigger close_idle_transports (trigger refresh_auth (trigger refresh_route s).1).1).1).1

-- The action that the kind of an outcome asks for.
abbrev pub trigger_for : OutcomeKind → Supervisor → Supervisor
trigger_for route_failure s = (trigger refresh_route s).1
trigger_for auth_exhausted s = (trigger refresh_auth s).1
trigger_for _ s = s

-- `Recover`, when no other thread comes between its calls.
unfoldable pub recover : ℕ → Outcome → Supervisor → Supervisor
unfolding record_outcome trigger_network_recovery
recover now outcome s =
    let verdict = record_outcome now outcome s in
    let asked = trigger_for outcome.kind verdict.state in
    let idle = if verdict.trigger_idle then (trigger close_idle_transports asked).1 else asked in
    if verdict.network_epoch then trigger_network_recovery idle else idle

-- `Tick` as a whole, when no other thread comes between its parts.
unfoldable pub tick_and_recover : ℕ → ℕ → Supervisor → Supervisor
unfolding tick trigger_network_recovery
tick_and_recover clock given s =
    let (epoch, s') = tick clock given s in if epoch then trigger_network_recovery s' else s'

-- The locked part of `Close`; it returns when `running` is 0.
unfoldable pub close : Supervisor → Supervisor
close s = if s.closed then s else record s { closed = true; cancelled = true }
