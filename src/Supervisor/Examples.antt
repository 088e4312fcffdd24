-- ===== src/Supervisor/Examples.antt =====
-- The supervisor at concrete inputs, and each theorem of these modules at one of them.
use pxgo.Shared.{
  ℕ, zero, ◌+◌, ◌≤◌, String, ◌≡◌, ◌≢◌, refl, true, false, not, ◌&&◌, none, some, List, [], ◌∷◌,
  ◌++◌, ltb, seconds, arith, eq_iff,
}
use pxgo.Shared.Dict.{Dict, lookup, delete}
use pxgo.Supervisor.Outcome.{
  Outcome, Candidate, success, internal_failure, proxy_dial_failure, route_failure,
}
use pxgo.Supervisor.State.{
  Owners, Supervisor, HealthState, refresh_route, close_idle_transports, new_supervisor,
}
use pxgo.Supervisor.Health.{
  cooldown_for_level, evict_oldest_health, record_local_failure, is_cooling_state, candidate_cooled,
}
use pxgo.Supervisor.Health.Laws.{
  HasEntry, NoneOlder, cooldown_bounds, evict_oldest_health-lem, second_failure_cools,
}
use pxgo.Supervisor.Order.{order, fill, scan_all, scan_one}
use pxgo.Supervisor.Order.Laws.{explicit, members, cools, direct_slots, order-stable}
use pxgo.Supervisor.Record.{
  record_internal_failure, observe_correlated_failure, record_outcome, add_key,
  network_epoch_cooldown,
}
use pxgo.Supervisor.Record.Laws.{success_heals, third_internal_failure_is_fatal}
use pxgo.Supervisor.Recovery.{trigger, release, close, is_inflight, owner_action}
use pxgo.Supervisor.Run.{here, next, takes, records, triggers, releases}
use pxgo.Supervisor.Run.Invariant.{IsSound, supervisor-IsSound, fatal_at_most_once}
use pxgo.Supervisor.Run.Closed.{IsFinal, closed-IsFinal}
use pxgo.Supervisor.Run.Starts.{trigger_until_release}

abbrev all_owners : Owners
all_owners = record {
  refresh_route = true;
  refresh_auth = true;
  close_idle_transports = true;
  clear_network_dns = true;
}

abbrev fresh : Supervisor
fresh = new_supervisor all_owners

proxy_a_ne_empty : ◌≢◌ {A = String} "a:8080" ""
proxy_a_ne_empty = ground (arith, eq_iff "a:8080" "")

second_failure_cools_example :
    let s1 = (record_local_failure (seconds 1) "a:8080" fresh).1 in
    let s2 = (record_local_failure (seconds 2) "a:8080" s1).1 in
    ((record_local_failure (seconds 1) "a:8080" fresh).0 ≡ false)
    × (is_cooling_state (seconds 3) (lookup s1.health "a:8080") ≡ false)
    × ((record_local_failure (seconds 2) "a:8080" s1).0 ≡ true)
    × (is_cooling_state
          (seconds 3)
          (lookup (record_local_failure (seconds 2) "a:8080" s1).1.health "a:8080")
        ≡ ltb (seconds 3) (seconds 2 + seconds 2))
second_failure_cools_example =
    second_failure_cools "a:8080" fresh (seconds 1) (seconds 2) (seconds 3) proxy_a_ne_empty
      (unfold new_supervisor lookup in refl)

cooldown_bounds_example : (seconds 2 ≤ cooldown_for_level 3) × (cooldown_for_level 3 ≤ seconds 30)
cooldown_bounds_example = cooldown_bounds 3 (omega arith) (omega arith)

abbrev used_at : ℕ → HealthState
used_at n = record { failures = 2; backoff_level = 1; cooling_until = seconds 9; last_sequence = n }

evict_oldest_health-lem_example :
    let health : Dict HealthState = ("a", used_at 7) ∷ ("b", used_at 4) ∷ [] in
    (k : String) × (q : ℕ) × (evict_oldest_health health ≡ delete health k)
    × HasEntry k q health
    × NoneOlder q health
evict_oldest_health-lem_example = evict_oldest_health-lem "a" (used_at 7) (("b", used_at 4) ∷ [])

-- "a" is cooling, "b" is not known.
abbrev half_cooled : Supervisor
half_cooled = record {
  owners = all_owners;
  cancelled = false;
  running = 0;
  closed = false;
  health = ("a", used_at 4) ∷ [];
  sequence = 4;
  inflight = [];
  progress_sequence = 0;
  last_progress = 0;
  last_tick = seconds 8;
  network_epoch = 0;
  last_network_epoch = 0;
  correlated = record { start = seconds 7; count = 7; proxies = "b" ∷ [] };
  internal_window_start = 0;
  internal_failures = 0;
  fatal_requested = false;
  fatal_reason = "";
  fatal_ch = none;
}

abbrev member : String → Candidate
member key = record { key = key; direct = false }

abbrev route : List Candidate
route = member "a" ∷ record { key = ""; direct = true } ∷ member "b" ∷ []

order_runs :
    (order (seconds 8) route half_cooled).0
    ≡ some (member "b" ∷ record { key = ""; direct = true } ∷ member "a" ∷ [])
unfolding order scan_all scan_one fill candidate_cooled lookup
order_runs = refl

order-stable_example :
    (out : List Candidate) × ((order (seconds 8) route half_cooled).0 ≡ some out)
    × (explicit out
        ≡ members (cools (seconds 8) half_cooled.health) false route
          ++ members (cools (seconds 8) half_cooled.health) true route)
    × (direct_slots out ≡ direct_slots route)
order-stable_example = order-stable (seconds 8) route half_cooled

success_heals_example :
    let s' =
      (record_outcome (seconds 8) (record { kind = success; proxy = "a" }) half_cooled).state in
    (is_cooling_state (seconds 8) (lookup s'.health "a") ≡ false)
    × (◌≢◌ {A = String} "b" "a" → lookup s'.health "b" ≡ lookup half_cooled.health "b")
success_heals_example =
    success_heals (seconds 8) (seconds 8) "a" "b" half_cooled (ground (arith, eq_iff "a" "")) refl

epoch_begins : (observe_correlated_failure (seconds 8) "a" half_cooled).0 ≡ true
unfolding observe_correlated_failure add_key
epoch_begins = refl

-- One more dial of a proxy fails.
abbrev a_fails : Outcome
a_fails = record { kind = proxy_dial_failure; proxy = "a" }

abbrev after_epoch : Supervisor
after_epoch = (record_outcome (seconds 8) a_fails half_cooled).state

third_internal_failure_is_fatal_example :
    let s1 = record_internal_failure (seconds 1) half_cooled in
    let s2 = record_internal_failure (seconds 2) s1 in
    let s3 = record_internal_failure (seconds 3) s2 in
    (s1.fatal_requested ≡ false) × (s2.fatal_requested ≡ false) × (s3.fatal_requested ≡ true)
third_internal_failure_is_fatal_example =
    third_internal_failure_is_fatal (seconds 1) (seconds 2) (seconds 3) half_cooled (omega arith)
      (omega arith) (omega arith) refl refl

abbrev dial_failed : Outcome
dial_failed = record { kind = proxy_dial_failure; proxy = "a" }

supervisor-IsSound_example : IsSound (record_outcome (seconds 1) dial_failed fresh).state
supervisor-IsSound_example =
    supervisor-IsSound all_owners (next here (records (seconds 1) dial_failed))

abbrev broken : Outcome
broken = record { kind = internal_failure; proxy = "" }

-- The supervisor after three internal failures in three seconds.
abbrev failing : Supervisor
failing =
    (record_outcome (seconds 3) broken
      (record_outcome (seconds 2) broken
        (record_outcome (seconds 1) broken fresh).state).state).state

fatal_at_most_once_example : ◌≤◌ 1 1
unfolding record_outcome pxgo.Supervisor.Record.record_by record_internal_failure new_supervisor
fatal_at_most_once_example =
    fatal_at_most_once all_owners {t = record failing { fatal_ch = none }} (
      takes (record { reason = "repeated internal runtime failure"; at = seconds 3 })
        (next (next (next here (records (seconds 1) broken)) (records (seconds 2) broken))
          (records (seconds 3) broken))
        refl)

abbrev lost_route : Outcome
lost_route = record { kind = route_failure; proxy = "" }

closed-IsFinal_example :
    IsFinal half_cooled zero (record_outcome (seconds 9) lost_route (close half_cooled)).state
closed-IsFinal_example = closed-IsFinal half_cooled (next here (records (seconds 9) lost_route))

-- The route is being refreshed; idle transports are closed meanwhile, and that is over.
abbrev refreshing : Supervisor
refreshing = (trigger refresh_route half_cooled).1

abbrev closing_too : Supervisor
closing_too = (trigger close_idle_transports refreshing).1

abbrev still_refreshing : Supervisor
still_refreshing = release close_idle_transports closing_too

trigger_until_release_example :
    ((trigger refresh_route still_refreshing).0 ≡ false)
    × ((trigger refresh_route (release refresh_route still_refreshing)).0
        ≡ (owner_action still_refreshing.owners refresh_route && not still_refreshing.closed))
unfolding trigger is_inflight
trigger_until_release_example =
    trigger_until_release refresh_route half_cooled refl
      (next (next here (triggers close_idle_transports)) (releases close_idle_transports refl))
      (refl, (tt, tt))
