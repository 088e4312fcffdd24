-- ===== src/DnsCache/Laws.antt =====
-- What DnsCache.antt promises.
use mathlib.Core.Path.{subst}
use pxgo.Shared.{
  ℕ, ◌+◌, ◌<◌, String, ◌≡◌, ◌≢◌, refl, sym, ap, ◌∙◌, Bool, true, false, not, ◌&&◌, Option, none,
  some, [], ◌∷◌, ◌==◌, incr_u64, ltb, is_some, eq_refl, arith, if◌then◌else◌,
}
use pxgo.Shared.Dict.{Dict, lookup, insert, lookup-insert}
use pxgo.DnsCache.{
  Answer, Entry, Call, Cache, Begun, by_call, by_entry, drop_call, cached, resolves, begin_lookup,
  ttl_of, end_lookup, clear_network_state,
}

incr_u64-new : (g : ℕ) → g ≢ incr_u64 g
incr_u64-new g e = omega (arith, e)

pub lookup-insert_same :
    (d : Dict Call) (host : String) (call : Call) → lookup (insert d host call) host ≡ some call
lookup-insert_same d host call = lookup-insert d host host call ∙ rw (eq_refl host) refl

drop_call-other :
    (host : String) (call new : Call)
    → call.id < new.id
    → drop_call host call.id (lookup ((host, new) ∷ []) host) ((host, new) ∷ []) ≡ (host, new) ∷ []
unfolding drop_call lookup
drop_call-other host call new h = rw (eq_refl host) (rw apart refl)
  where
    apart : (new.id == call.id) ≡ false
    apart = ground (arith, h)

module _ {A E : Type 0} where
  -- The cache while a thread asks the resolver.
  abbrev pub asking : String → Cache A E → Cache A E
  asking host c = record c {
    inflight = insert c.inflight host (record { id = c.next_call; generation = c.generation });
    next_call = c.next_call + 1;
  }

  by_call-resolves :
      (host : String) (found : Option Call) (c : Cache A E) (call : Call)
      → (by_call host found c).0 ≡ resolves call
      → ((by_call host found c).1 ≡ asking host c)
        × (call.id ≡ c.next_call)
        × (call.generation ≡ c.generation)
  unfolding by_call
  by_call-resolves host none c call h = (refl, ground arith, ground arith)
  by_call-resolves host (some other) c call h = absurd (ground arith)

  pub begin_lookup-resolves :
      (now : ℕ) (host : String) (c : Cache A E) (call : Call)
      → (begin_lookup now host c).0 ≡ resolves call
      → ((begin_lookup now host c).1 ≡ asking host c)
        × (call.id ≡ c.next_call)
        × (call.generation ≡ c.generation)
  unfolding begin_lookup by_entry
  begin_lookup-resolves now host c call h = by_found (lookup c.cache host) h
    where
      by_found :
          (found : Option (Entry A E))
          → (by_entry now host found c).0 ≡ resolves call
          → ((by_entry now host found c).1 ≡ asking host c)
            × (call.id ≡ c.next_call)
            × (call.generation ≡ c.generation)
      by_found none h = by_call-resolves host (lookup c.inflight host) c call h
      by_found (some e) h = by_expiry (ltb now e.expires) h
        where
          missed : Begun A E × Cache A E
          missed = by_call host (lookup c.inflight host) c

          by_expiry :
              (fresh : Bool)
              → (if fresh then (cached e.answer, c) else missed).0 ≡ resolves call
              → ((if fresh then (cached e.answer, c) else missed).1 ≡ asking host c)
                × (call.id ≡ c.next_call)
                × (call.generation ≡ c.generation)
          by_expiry true h = absurd (ground arith)
          by_expiry false h = by_call-resolves host (lookup c.inflight host) c call h

  -- The end of a call that began in another generation.
  end_lookup-stale :
      (host_less : String → String → Bool) (now : ℕ) (cancelled : Bool) (host : String)
      (call : Call) (answer : Answer A E) (given : ℕ) (c : Cache A E)
      → call.generation ≢ c.generation
      → end_lookup host_less now cancelled host call answer given c
        ≡ record c { inflight = drop_call host call.id (lookup c.inflight host) c.inflight }
  unfolding end_lookup
  end_lookup-stale host_less now cancelled host call answer given c h = rw (end_lookup, other) refl
    where
      other :
          ((not cancelled && ltb 0 (ttl_of c.has_ttl answer given))
            && (call.generation == c.generation))
          ≡ false
      other = ground (arith, h)

  -- The cache after the network state was cleared and another lookup of the host began.
  abbrev pub again : ℕ → String → Cache A E → Cache A E
  again later host c = (begin_lookup later host (clear_network_state c)).1

  -- No answer is stored, and the call in flight for the host is the other one.
  abbrev pub IsDetached : String → Cache A E → Cache A E → Type 0
  IsDetached host ended other =
      (ended.cache ≡ [])
      × (lookup ended.inflight host ≡ lookup other.inflight host)
      × (is_some (lookup ended.inflight host) ≡ true)

  -- A lookup whose network state was cleared while the resolver ran, and another that began since
  -- then for the same host: the end of the first stores no answer, and the other stays in flight.
  pub stale_lookup-IsDetached :
      (host_less : String → String → Bool) (now later completed : ℕ) (cancelled : Bool)
      (host : String) (c : Cache A E) (call : Call) (answer : Answer A E) (given : ℕ)
      → (begin_lookup now host c).0 ≡ resolves call
      → IsDetached host
          (end_lookup host_less completed cancelled host call answer given
            (again later host (begin_lookup now host c).1))
          (again later host (begin_lookup now host c).1)
  unfolding begin_lookup by_entry by_call clear_network_state lookup insert
  stale_lookup-IsDetached host_less now later completed cancelled host c call answer given h =
      let (e, id, generation) = begin_lookup-resolves now host c call h in
      let new : Call = record { id = c.next_call + 1; generation = incr_u64 c.generation } in
      let dropped = drop_call-other host call new (omega (arith, id)) in
      subst
        (λ c'.
          IsDetached host
            (end_lookup host_less completed cancelled host call answer given (again later host c'))
            (again later host c'))
        (sym e)
        (subst (λ ended. IsDetached host ended (again later host (asking host c)))
          (sym (
            end_lookup-stale host_less completed cancelled host call answer given
              (again later host (asking host c))
              (λ same. incr_u64-new c.generation (sym generation ∙ same))))
          (
            refl,
            ap (λ d. lookup d host) dropped,
            ap (λ d. is_some (lookup d host)) dropped ∙ rw (eq_refl host) refl,
          ))
