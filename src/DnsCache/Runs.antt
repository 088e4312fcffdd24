-- ===== src/DnsCache/Runs.antt =====
-- DnsCache.antt in every order in which threads enter the two parts of LookupContext and the
-- clearing of the network state.
use pxgo.Shared.{
  ℕ, ◌+◌, ◌≤◌, String, ◌≡◌, Bool, false, not, ◌&&◌, Option, none, some, ◌==◌, ltb, str_eq, if_both,
  length, arith,
}
use pxgo.Shared.Dict.{lookup}
use pxgo.DnsCache.{
  Answer, Entry, Call, Cache, Begun, by_call, by_entry, new_cache, begin_lookup, ttl_of, end_lookup,
  clear_network_state, max_entries,
}
use pxgo.DnsCache.Eviction.{Named, store-bound}

module _ {A E : Type 0} where
  -- What a thread may do. The end of a lookup may come at any time, with any call and answer.
  pub data Step (c : Cache A E) : Cache A E → Type 0 where
    begins : (now : ℕ) (host : String) → Step c (begin_lookup now host c).1
    ends :
        (host_less : String → String → Bool) (now : ℕ) (cancelled : Bool) (host : String)
        (call : Call) (answer : Answer A E) (given : ℕ)
        → str_eq host "" ≡ false
        → Step c (end_lookup host_less now cancelled host call answer given c)
    clears : Step c (clear_network_state c)

  pub data Run (c : Cache A E) : Cache A E → Type 0 where
    here : Run c c
    next : {t u : Cache A E} → Run c t → Step t u → Run c u

  abbrev pub IsBounded : Cache A E → Type 0
  IsBounded c = (length c.cache ≤ max_entries) × Named c.cache

  begin_lookup-IsBounded :
      (now : ℕ) (host : String) (c : Cache A E)
      → IsBounded c
      → IsBounded (begin_lookup now host c).1
  unfolding begin_lookup by_entry by_call
  begin_lookup-IsBounded now host c bounded = by_found (lookup c.cache host)
    where
      missed : (call : Option Call) → IsBounded (by_call host call c).1
      missed none = bounded
      missed (some call) = bounded

      by_found : (found : Option (Entry A E)) → IsBounded (by_entry now host found c).1
      by_found none = missed (lookup c.inflight host)
      by_found (some e) =
          if_both (λ (r : Begun A E × Cache A E). IsBounded r.1) (ltb now e.expires) _ _ bounded
            (missed (lookup c.inflight host))

  end_lookup-IsBounded :
      (host_less : String → String → Bool) (now : ℕ) (cancelled : Bool) (host : String)
      (call : Call) (answer : Answer A E) (given : ℕ) (c : Cache A E)
      → str_eq host "" ≡ false
      → IsBounded c
      → IsBounded (end_lookup host_less now cancelled host call answer given c)
  unfolding end_lookup
  end_lookup-IsBounded host_less now cancelled host call answer given c name bounded =
      if_both IsBounded
        ((not cancelled && ltb 0 (ttl_of c.has_ttl answer given))
          && (call.generation == c.generation))
        _ _
        (store-bound host_less now host
          (record { answer = answer; expires = now + ttl_of c.has_ttl answer given }) c.cache
          bounded.1 bounded.0 name)
        bounded

  Step-IsBounded : (c t : Cache A E) → IsBounded c → Step c t → IsBounded t
  unfolding clear_network_state
  Step-IsBounded c _ bounded (begins now host) = begin_lookup-IsBounded now host c bounded
  Step-IsBounded c _ bounded (ends host_less now cancelled host call answer given name) =
      end_lookup-IsBounded host_less now cancelled host call answer given c name bounded
  Step-IsBounded c _ bounded clears = (omega arith, tt)

  Run-IsBounded : (c t : Cache A E) → IsBounded c → Run c t → IsBounded t
  Run-IsBounded c _ bounded here = bounded
  Run-IsBounded c u bounded (next {t} run step) =
      Step-IsBounded t u (Run-IsBounded c t bounded run) step

  -- In every interleaving the cache holds at most 4096 entries, if no lookup of the empty host
  -- returns to it.
  pub cache-IsBounded : (has_ttl : Bool) (t : Cache A E) → Run (new_cache has_ttl) t → IsBounded t
  unfolding new_cache
  cache-IsBounded has_ttl t run = Run-IsBounded (new_cache has_ttl) t (omega arith, tt) run
