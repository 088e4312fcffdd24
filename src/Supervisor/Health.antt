-- ===== src/Supervisor/Health.antt =====
-- internal/supervisor/upstream.go: the health of one upstream proxy. A key that fails twice cools
-- for a time that doubles with each further failure.
pub mod Laws
use pxgo.Shared.{
  ℕ, zero, suc, ◌+◌, ◌-◌, ◌*◌, ◌^◌, String, Bool, true, false, not, ◌&&◌, ◌||◌, Option, none, some,
  List, [], ◌∷◌, seconds, is_zero, incr_u64, ltb, leb, length, str_eq, if◌then◌else◌,
}
use pxgo.Shared.Dict.{Dict, lookup, insert, delete}
use pxgo.Supervisor.State.{HealthState, Supervisor, no_window}

abbrev pub local_failure_threshold : ℕ
local_failure_threshold = 2

abbrev pub max_health_entries : ℕ
max_health_entries = 256

abbrev pub max_backoff_level : ℕ
max_backoff_level = 5

-- The level is at most `max_backoff_level`, where the shift does not overflow.
unfoldable pub cooldown_for_level : ℕ → ℕ
cooldown_for_level level =
    let d = seconds 2 * 2 ^ (level - 1) in
    if leb level 0 then 0 else if ltb (seconds 30) d then seconds 30 else d

-- The entry found so far by the loop of `evictOldestHealthLocked`.
abbrev pub Oldest : Type 0
Oldest = Option (String × ℕ)

abbrev pick_older : Oldest → String → HealthState → Oldest
pick_older none key state = some (key, state.last_sequence)
pick_older (some (oldest_key, oldest_seq)) key state =
    if ltb state.last_sequence oldest_seq
    then some (key, state.last_sequence)
    else some (oldest_key, oldest_seq)

unfoldable pub oldest_from : Oldest → Dict HealthState → Oldest
oldest_from found [] = found
oldest_from found ((key, state) ∷ rest) = oldest_from (pick_older found key state) rest

abbrev delete_found : Oldest → Dict HealthState → Dict HealthState
delete_found none health = health
delete_found (some (key, _)) health = delete health key

unfoldable pub evict_oldest_health : Dict HealthState → Dict HealthState
unfolding oldest_from
evict_oldest_health health = delete_found (oldest_from none health) health

abbrev pub new_health : HealthState
new_health = record { failures = 0; backoff_level = 0; cooling_until = 0; last_sequence = 0 }

-- The entry of the key, a new one if there is none.
abbrev pub state_or_new : Option HealthState → HealthState
state_or_new none = new_health
state_or_new (some state) = state

-- The map with room for a new key.
make_room : Option HealthState → Dict HealthState → Dict HealthState
unfolding evict_oldest_health
make_room none health =
    if leb max_health_entries (length health) then evict_oldest_health health else health
make_room (some _) health = health

-- An entry whose cooling is over starts again.
abbrev forgive : ℕ → HealthState → HealthState
forgive now state =
    if not (is_zero state.cooling_until) && not (ltb now state.cooling_until)
    then record state { failures = 0; backoff_level = 0; cooling_until = 0 }
    else state

abbrev raise_level : ℕ → ℕ
raise_level level = if ltb level max_backoff_level then level + 1 else level

-- One more failure of an entry, and whether it starts to cool.
unfoldable pub fail_once : ℕ → HealthState → Bool × HealthState
fail_once now state =
    let failures = (forgive now state).failures + 1 in
    let level = raise_level (forgive now state).backoff_level in
    if ltb failures local_failure_threshold
    then (false, record (forgive now state) { failures = failures })
    else (
      is_zero (forgive now state).cooling_until,
      record (forgive now state) {
        failures = failures;
        backoff_level = level;
        cooling_until = now + cooldown_for_level level;
      },
    )

unfoldable pub record_local_failure : ℕ → String → Supervisor → Bool × Supervisor
unfolding make_room
record_local_failure now key s =
    let found = lookup s.health key in
    let sequence = incr_u64 s.sequence in
    let (entered, state) =
      fail_once now (record (state_or_new found) { last_sequence = sequence }) in
    if str_eq key "" then (false, s) else (
      entered,
      record s { health = insert (make_room found s.health) key state; sequence = sequence },
    )

abbrev pub is_cooling_state : ℕ → Option HealthState → Bool
is_cooling_state now none = false
is_cooling_state now (some state) = not (is_zero state.cooling_until) && ltb now state.cooling_until

abbrev is_over : ℕ → Option HealthState → Bool
is_over now none = false
is_over now (some state) = not (is_zero state.cooling_until) && not (ltb now state.cooling_until)

-- Whether the key is cooling; an entry whose cooling is over is dropped.
unfoldable pub candidate_cooled : ℕ → String → Dict HealthState → Bool × Dict HealthState
candidate_cooled now key health =
    let found = lookup health key in
    (is_cooling_state now found, if is_over now found then delete health key else health)

unfoldable pub reset_transient : Supervisor → Supervisor
reset_transient s = record s { health = []; correlated = no_window }
