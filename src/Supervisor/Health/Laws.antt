-- ===== src/Supervisor/Health/Laws.antt =====
-- What Supervisor/Health.antt promises.
use pxgo.Shared.{
  ℕ, zero, suc, ◌+◌, ◌≤◌, ◌<◌, String, ◌≡◌, ◌≢◌, ◌⊎◌, refl, true, false, Option, none, some, [],
  ◌∷◌, length, ltb, leb, Bool-cases, inl, inr, arith, eq_iff, str_eq, seconds, incr_u64, eq_refl,
  if◌then◌else◌,
}
use pxgo.Shared.Dict.{
  Dict, EachValue, EachValue-insert, EachValue-delete, EachValue-lookup, lookup, insert, delete,
  lookup-insert, length-insert-le, length-insert_old, length-delete-lt,
}
use pxgo.Supervisor.State.{HealthState, Supervisor}
use pxgo.Supervisor.Health.{
  max_health_entries, max_backoff_level, cooldown_for_level, oldest_from, evict_oldest_health,
  fail_once, state_or_new, make_room, record_local_failure, is_cooling_state, new_health,
}

-- A cooldown lasts from two to thirty seconds, and grows with the level.
pub cooldown_bounds :
    (level : ℕ)
    → 0 < level
    → level ≤ max_backoff_level
    → (seconds 2 ≤ cooldown_for_level level) × (cooldown_for_level level ≤ seconds 30)
unfolding cooldown_for_level
cooldown_bounds zero p h = absurd (omega arith)
cooldown_bounds (suc zero) p h = omega arith
cooldown_bounds (suc (suc zero)) p h = ground arith
cooldown_bounds (suc (suc (suc zero))) p h = ground arith
cooldown_bounds (suc (suc (suc (suc zero)))) p h = ground arith
cooldown_bounds (suc (suc (suc (suc (suc zero))))) p h = ground arith
cooldown_bounds (suc (suc (suc (suc (suc (suc l)))))) p h = absurd (omega arith)

-- The map has an entry of that key with that sequence number.
abbrev pub HasEntry : String → ℕ → Dict HealthState → Type 0
HasEntry key seq [] = ⊥
HasEntry key seq ((k, state) ∷ rest) =
    ((k ≡ key) × (state.last_sequence ≡ seq)) ⊎ HasEntry key seq rest

-- No entry of the map was used before the number.
abbrev pub NoneOlder : ℕ → Dict HealthState → Type 0
NoneOlder seq = EachValue (λ state. seq ≤ state.last_sequence)

NoneOlder-le :
    (a b : ℕ) (health : Dict HealthState) → a ≤ b → NoneOlder b health → NoneOlder a health
NoneOlder-le a b [] h n = tt
NoneOlder-le a b ((k, state) ∷ rest) h n = (omega arith, NoneOlder-le a b rest h n.1)

oldest_from-minimal :
    (key : String) (seq : ℕ) (health : Dict HealthState)
    → (k : String) × (q : ℕ) × (oldest_from (some (key, seq)) health ≡ some (k, q))
      × (q ≤ seq)
      × NoneOlder q health
      × (((key ≡ k) × (seq ≡ q)) ⊎ HasEntry k q health)
unfolding oldest_from
oldest_from-minimal key seq [] = (key, seq, refl, omega arith, tt, inl (refl, refl))
oldest_from-minimal key seq ((j, state) ∷ rest) = elim (Bool-cases (ltb state.last_sequence seq)) [
  | inl older ↦
      let (k, q, e, le, all, or) = oldest_from-minimal j state.last_sequence rest in
      (k, q, rw older e, ground (arith, older), (le, all), inr or)
  | inr newer ↦
      let (k, q, e, le, all, or) = oldest_from-minimal key seq rest in
      (
        k,
        q,
        rw newer e,
        le,
        (ground (arith, newer), all),
        elim or [ inl same ↦ inl same | inr has ↦ inr (inr has) ],
      )
]

-- From a map that is not empty the eviction deletes the key of an entry that is there, and no entry
-- was used before it, in whatever order the loop sees them.
pub evict_oldest_health-lem :
    (key : String) (state : HealthState) (rest : Dict HealthState)
    → let health = (key, state) ∷ rest in
      (k : String) × (q : ℕ) × (evict_oldest_health health ≡ delete health k)
      × HasEntry k q health
      × NoneOlder q health
unfolding evict_oldest_health oldest_from
evict_oldest_health-lem key state rest =
    let (k, q, e, le, all, or) = oldest_from-minimal key state.last_sequence rest in
    (k, q, rw e, or, (le, all))

HasEntry-lookup :
    (key : String) (seq : ℕ) (health : Dict HealthState)
    → HasEntry key seq health
    → (state : HealthState) × (lookup health key ≡ some state)
unfolding lookup
HasEntry-lookup key seq [] h = elim h [ ]
HasEntry-lookup key seq ((k, state) ∷ rest) h = elim (Bool-cases (str_eq key k)) [
  | inl same ↦ (state, rw same)
  | inr new ↦ rw new (
      HasEntry-lookup key seq rest
        (elim h [ inl e ↦ absurd (ground (arith, eq_iff key k)) | inr has ↦ has ]))
]

length-evict :
    (health : Dict HealthState)
    → 0 < length health
    → length (evict_oldest_health health) < length health
length-evict [] h = absurd (omega arith)
length-evict ((key, state) ∷ rest) h =
    let (k, q, e, has, all) = evict_oldest_health-lem key state rest in
    let (st, found) = HasEntry-lookup k q ((key, state) ∷ rest) has in
    rw e (length-delete-lt ((key, state) ∷ rest) k st found)

-- An entry in range: the level fits the table of cooldowns, and only two failures make it cool.
abbrev pub IsSane : HealthState → Type 0
IsSane state =
    (state.backoff_level ≤ max_backoff_level)
    × (0 < state.cooling_until → (2 ≤ state.failures) × (0 < state.backoff_level))

fail_once-IsSane : (now : ℕ) (state : HealthState) → IsSane state → IsSane (fail_once now state).1
unfolding fail_once
fail_once-IsSane now state h = ground arith

make_room-lt :
    (health : Dict HealthState)
    → length health ≤ max_health_entries
    → length (make_room none health) < max_health_entries
unfolding make_room
make_room-lt health h = ground (arith, λ (p : 0 < length health). length-evict health p)

insert-bounded :
    (found : Option HealthState) (health : Dict HealthState) (key : String) (state : HealthState)
    → lookup health key ≡ found
    → length health ≤ max_health_entries
    → length (insert (make_room found health) key state) ≤ max_health_entries
insert-bounded none health key state e h =
    omega (arith, length-insert-le (make_room none health) key state, make_room-lt health h)
insert-bounded (some old) health key state e h =
    unfold make_room in omega (arith, length-insert_old health key state old e)

-- The map never holds more than `max_health_entries` entries.
pub record_local_failure-bounded :
    (now : ℕ) (key : String) (s : Supervisor)
    → length s.health ≤ max_health_entries
    → length (record_local_failure now key s).1.health ≤ max_health_entries
unfolding record_local_failure
record_local_failure-bounded now key s h = elim (Bool-cases (str_eq key "")) [
  | inl e ↦ rw e h
  | inr e ↦ rw e (insert-bounded (lookup s.health key) s.health key _ refl h)
]

evict_oldest_health-IsSane :
    (d : Dict HealthState) → EachValue IsSane d → EachValue IsSane (evict_oldest_health d)
evict_oldest_health-IsSane [] k = unfold evict_oldest_health oldest_from in tt
evict_oldest_health-IsSane ((key, state) ∷ rest) k =
    let (j, q, eq, has, all) = evict_oldest_health-lem key state rest in
    rw eq (EachValue-delete IsSane ((key, state) ∷ rest) j k)

state_or_new-IsSane :
    (found : Option HealthState) (health : Dict HealthState) (key : String)
    → lookup health key ≡ found
    → EachValue IsSane health
    → IsSane (state_or_new found)
state_or_new-IsSane none health key e h = (omega arith, λ p. absurd (omega arith))
state_or_new-IsSane (some state) health key e h = EachValue-lookup IsSane health key state h e

make_room-IsSane :
    (found : Option HealthState) (health : Dict HealthState)
    → EachValue IsSane health
    → EachValue IsSane (make_room found health)
make_room-IsSane (some old) health h = unfold make_room in h
make_room-IsSane none health h =
    unfold make_room in go (Bool-cases (leb max_health_entries (length health)))
  where
    go :
        (leb max_health_entries (length health) ≡ true)
          ⊎ (leb max_health_entries (length health) ≡ false)
        → EachValue IsSane
            (if leb max_health_entries (length health) then evict_oldest_health health else health)
    go (inl e) = rw e (evict_oldest_health-IsSane health h)
    go (inr e) = rw e h

pub record_local_failure-IsSane :
    (now : ℕ) (key : String) (s : Supervisor)
    → EachValue IsSane s.health
    → EachValue IsSane (record_local_failure now key s).1.health
unfolding record_local_failure
record_local_failure-IsSane now key s h = elim (Bool-cases (str_eq key "")) [
  | inl e ↦ rw e h
  | inr e ↦ rw e (
      EachValue-insert IsSane (make_room (lookup s.health key) s.health) key _
        (make_room-IsSane (lookup s.health key) s.health h)
        (fail_once-IsSane now _ (state_or_new-IsSane (lookup s.health key) s.health key refl h)))
]

-- What the map says of the key after a failure, and of every other key that is still there.
pub record_local_failure-lookup :
    (now : ℕ) (key : String) (s : Supervisor)
    → key ≢ ""
    → lookup (record_local_failure now key s).1.health key
      ≡ some
          (fail_once now
            (record (state_or_new (lookup s.health key)) { last_sequence = incr_u64 s.sequence })).1
unfolding record_local_failure
record_local_failure-lookup now key s k = elim (Bool-cases (str_eq key "")) [
  | inl e ↦ absurd (k ((eq_iff key "").0 e))
  | inr e ↦ rw (e, lookup-insert, eq_refl)
]

pub record_local_failure-entered :
    (now : ℕ) (key : String) (s : Supervisor)
    → key ≢ ""
    → (record_local_failure now key s).0
      ≡ (fail_once now
          (record (state_or_new (lookup s.health key)) { last_sequence = incr_u64 s.sequence })).0
unfolding record_local_failure
record_local_failure-entered now key s k = elim (Bool-cases (str_eq key "")) [
  | inl e ↦ absurd (k ((eq_iff key "").0 e))
  | inr e ↦ rw e
]

-- A key that is not known fails twice: the first failure does not make it cool, the second does,
-- and it cools for two seconds from then on.
pub second_failure_cools :
    (key : String) (s : Supervisor) (first second now : ℕ)
    → key ≢ ""
    → lookup s.health key ≡ none
    → let s1 = (record_local_failure first key s).1 in
      let s2 = (record_local_failure second key s1).1 in
      ((record_local_failure first key s).0 ≡ false)
      × (is_cooling_state now (lookup s1.health key) ≡ false)
      × ((record_local_failure second key s1).0 ≡ true)
      × (is_cooling_state now (lookup s2.health key) ≡ ltb now (second + seconds 2))
unfolding fail_once cooldown_for_level
second_failure_cools key s first second now k unknown = (
  rw (record_local_failure-entered first key s k, unknown),
  rw found1,
  rw (record_local_failure-entered second key s1 k, found1),
  rw found2 (ground arith),
)
  where
    s1 : Supervisor
    s1 = (record_local_failure first key s).1

    found1 :
        lookup s1.health key
        ≡ some (record new_health { failures = 1; last_sequence = incr_u64 s.sequence })
    found1 = rw (record_local_failure-lookup first key s k, unknown)

    found2 :
        lookup (record_local_failure second key s1).1.health key
        ≡ some (record {
          failures = 2;
          backoff_level = 1;
          cooling_until = second + seconds 2;
          last_sequence = incr_u64 s1.sequence;
        })
    found2 = rw (record_local_failure-lookup second key s1 k, found1)
