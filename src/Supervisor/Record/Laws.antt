-- ===== src/Supervisor/Record/Laws.antt =====
-- What Supervisor/Record.antt promises.
use pxgo.Shared.{ℕ, ◌+◌, ◌≤◌, ◌<◌, String, ◌≡◌, ◌≢◌, true, false, arith, eq_iff}
use pxgo.Shared.Dict.{lookup, lookup-delete}
use pxgo.Supervisor.Outcome.{success}
use pxgo.Supervisor.State.{Supervisor}
use pxgo.Supervisor.Health.{is_cooling_state}
use pxgo.Supervisor.Record.{
  record_internal_failure, record_outcome, record_by, internal_failure_window,
}

-- A success forgets the failures of the proxy: it is not cooling at any time, and every other key
-- keeps its health.
pub success_heals :
    (now t : ℕ) (key other : String) (s : Supervisor)
    → key ≢ ""
    → s.closed ≡ false
    → let s' = (record_outcome now (record { kind = success; proxy = key }) s).state in
      (is_cooling_state t (lookup s'.health key) ≡ false)
      × (other ≢ key → lookup s'.health other ≡ lookup s.health other)
unfolding record_outcome record_by
success_heals now t key other s k open_state = ground (
  arith,
  lookup-delete s.health key key,
  lookup-delete s.health key other,
  eq_iff key "",
  eq_iff key key,
  eq_iff other key,
)

-- Three internal failures, the last at most thirty seconds after the first, ask for a restart of
-- the process, once; fewer do not.
pub third_internal_failure_is_fatal :
    (a b c : ℕ) (s : Supervisor)
    → 0 < a
    → c ≤ a + internal_failure_window
    → b ≤ a + internal_failure_window
    → s.internal_window_start ≡ 0
    → s.fatal_requested ≡ false
    → let s1 = record_internal_failure a s in
      let s2 = record_internal_failure b s1 in
      let s3 = record_internal_failure c s2 in
      (s1.fatal_requested ≡ false) × (s2.fatal_requested ≡ false) × (s3.fatal_requested ≡ true)
unfolding record_internal_failure
third_internal_failure_is_fatal a b c s p hc hb w f = ground arith
