-- ===== src/DnsCache.antt =====
-- internal/dnscache/dnscache.go: the cache that its mutex guards. `LookupContext` enters it twice:
-- `begin_lookup` up to the call of the resolver, `end_lookup` after it. Addresses and errors are
-- opaque (`A`, `E`), so the copies that `cloneIPs` makes are the values themselves.
pub mod Laws
pub mod Eviction
pub mod Runs
pub mod Sharing
mod Examples
use pxgo.Shared.{
  ℕ, zero, suc, ◌+◌, ◌*◌, String, Bool, true, false, not, ◌&&◌, ◌||◌, Option, none, some, List, [],
  ◌∷◌, ◌==◌, seconds, incr_u64, is_zero, ltb, leb, length, str_eq, if◌then◌else◌,
}
use pxgo.Shared.Dict.{Dict, lookup, insert, delete}

abbrev pub positive_ttl : ℕ
positive_ttl = seconds 60

abbrev pub min_positive_ttl : ℕ
min_positive_ttl = seconds 1

abbrev pub max_positive_ttl : ℕ
max_positive_ttl = seconds 3600

abbrev pub negative_ttl : ℕ
negative_ttl = seconds 5

abbrev pub max_entries : ℕ
max_entries = 4096

-- What a resolver returns: addresses, or an error.
pub data Answer (A E : Type 0) : Type 0 where
  addresses : A → Answer A E
  failed : E → Answer A E

pub record Entry (A E : Type 0) : Type 0 where
  pub answer : Answer A E
  pub expires : ℕ

-- A `lookupCall` is a number that is never used again, with the generation it began in.
pub record Call : Type 0 where
  pub id : ℕ
  pub generation : ℕ

pub record Cache (A E : Type 0) : Type 0 where
  pub cache : Dict (Entry A E)
  pub inflight : Dict Call
  pub generation : ℕ
  pub has_ttl : Bool
  pub next_call : ℕ

-- What the first part of LookupContext does: an answer from the cache, a wait for the call of
-- another thread, or a call of the resolver.
pub data Begun (A E : Type 0) : Type 0 where
  cached : Answer A E → Begun A E
  waits_for : Call → Begun A E
  resolves : Call → Begun A E

-- max(minPositiveTTL, min(ttl, maxPositiveTTL))
abbrev clamp : ℕ → ℕ
clamp ttl =
    if ltb ttl min_positive_ttl
    then min_positive_ttl
    else if ltb max_positive_ttl ttl
    then max_positive_ttl
    else ttl

-- The inflight map without the call, if it still is the one of that host.
drop_call : String → ℕ → Option Call → Dict Call → Dict Call
drop_call host id none calls = calls
drop_call host id (some call) calls = if call.id == id then delete calls host else calls

module _ {A E : Type 0} where
  -- New and NewWithTTL
  unfoldable pub new_cache : Bool → Cache A E
  new_cache has_ttl = record {
    cache = [];
    inflight = [];
    generation = 0;
    has_ttl = has_ttl;
    next_call = 0;
  }

  by_call : String → Option Call → Cache A E → Begun A E × Cache A E
  by_call host (some call) c = (waits_for call, c)
  by_call host none c =
      let call : Call = record { id = c.next_call; generation = c.generation } in
      (
        resolves call,
        record c { inflight = insert c.inflight host call; next_call = c.next_call + 1 },
      )

  by_entry : ℕ → String → Option (Entry A E) → Cache A E → Begun A E × Cache A E
  unfolding by_call
  by_entry now host none c = by_call host (lookup c.inflight host) c
  by_entry now host (some e) c =
      let missed = by_call host (lookup c.inflight host) c in
      if ltb now e.expires then (cached e.answer, c) else missed

  unfoldable pub begin_lookup : ℕ → String → Cache A E → Begun A E × Cache A E
  unfolding by_entry
  begin_lookup now host c = by_entry now host (lookup c.cache host) c

  -- The first loop of evictLocked.
  unfoldable pub drop_expired : ℕ → Dict (Entry A E) → Dict (Entry A E)
  drop_expired now [] = []
  drop_expired now ((host, e) ∷ rest) =
      let kept = drop_expired now rest in if ltb now e.expires then (host, e) ∷ kept else kept

  -- The victim so far: a host, and when it expires. Of two that expire together the source takes
  -- the host that is smaller as bytes; `host_less` is that order.
  unfoldable pub pick_victim :
      (String → String → Bool) → Option (String × ℕ) → Dict (Entry A E) → Option (String × ℕ)
  pick_victim host_less found [] = found
  pick_victim host_less none ((host, e) ∷ rest) =
      pick_victim host_less (some (host, e.expires)) rest
  pick_victim host_less (some (victim, oldest)) ((host, e) ∷ rest) =
      pick_victim host_less
        (if (str_eq victim "" || ltb e.expires oldest)
            || ((e.expires == oldest) && host_less host victim)
          then some (host, e.expires)
          else some (victim, oldest))
        rest

  abbrev delete_victim : Option (String × ℕ) → Dict (Entry A E) → Dict (Entry A E)
  delete_victim none entries = entries
  delete_victim (some (victim, _)) entries =
      if str_eq victim "" then entries else delete entries victim

  -- The second loop of evictLocked, which ends early if it finds no victim; each round with a
  -- victim deletes an entry, so the size of the map is fuel enough.
  unfoldable pub evict_oldest : (String → String → Bool) → ℕ → Dict (Entry A E) → Dict (Entry A E)
  unfolding pick_victim
  evict_oldest host_less zero entries = entries
  evict_oldest host_less (suc fuel) entries =
      let fewer = delete_victim (pick_victim host_less none entries) entries in
      let rest = evict_oldest host_less fuel fewer in
      if ltb (length entries) max_entries then entries else rest

  unfoldable pub evict : (String → String → Bool) → ℕ → Dict (Entry A E) → Dict (Entry A E)
  unfolding drop_expired evict_oldest
  evict host_less now entries =
      let alive = drop_expired now entries in evict_oldest host_less (length alive) alive

  -- How long an answer is kept, `given` being what the resolver said; 0 is not at all.
  unfoldable pub ttl_of : Bool → Answer A E → ℕ → ℕ
  ttl_of has_ttl (failed err) given = negative_ttl
  ttl_of true (addresses ips) given = if leb given 0 then 0 else clamp given
  ttl_of false (addresses ips) given = positive_ttl

  -- The entries once an answer is stored that may be.
  unfoldable pub store :
      (String → String → Bool) → ℕ → String → Entry A E → Dict (Entry A E) → Dict (Entry A E)
  unfolding evict
  store host_less now host e entries =
      insert (if leb max_entries (length entries) then evict host_less now entries else entries)
        host e

  -- The part of LookupContext behind the resolver's return; `cancelled` is a context that is done.
  unfoldable pub end_lookup :
      (String → String → Bool) → ℕ → Bool → String → Call → Answer A E → ℕ → Cache A E → Cache A E
  unfolding store ttl_of drop_call
  end_lookup host_less now cancelled host call answer given c =
      let ttl = ttl_of c.has_ttl answer given in
      let kept = record c {
        cache = store host_less now host (record { answer = answer; expires = now + ttl }) c.cache;
      } in
      let stored =
        if (not cancelled && ltb 0 ttl) && (call.generation == c.generation) then kept else c in
      record stored {
        inflight = drop_call host call.id (lookup stored.inflight host) stored.inflight;
      }

  unfoldable pub clear_network_state : Cache A E → Cache A E
  clear_network_state c = record c { generation = incr_u64 c.generation; cache = []; inflight = [] }
