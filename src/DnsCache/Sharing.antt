-- ===== src/DnsCache/Sharing.antt =====
-- DnsCache.antt: one call of the resolver serves all that ask for its host, and an answer is served
-- for as long as it lives.
use pxgo.Shared.{
  ℕ, min, String, ◌≡◌, ◌≢◌, inl, inr, refl, sym, ap, ◌∙◌, Bool, true, false, not, ◌&&◌, Option,
  none, some, ◌==◌, str_eq, eq_iff, ltb, Bool-cases, if_both, seconds, arith, if◌then◌else◌,
}
use pxgo.Shared.Dict.{Dict, lookup, lookup-insert, lookup-delete}
use pxgo.DnsCache.{
  Answer, addresses, failed, Entry, Call, Cache, Begun, by_call, by_entry, drop_call, cached,
  waits_for, resolves, begin_lookup, ttl_of, end_lookup,
}
use pxgo.DnsCache.Laws.{begin_lookup-resolves, lookup-insert_same}

-- The resolver is not asked.
abbrev pub AsksNobody : {A E : Type 0} → Begun A E → Type 0
AsksNobody (cached _) = Unit
AsksNobody (waits_for _) = Unit
AsksNobody (resolves _) = ⊥

-- The call in flight for a host is that one.
abbrev IsFlying : {A E : Type 0} → String → Call → Cache A E → Type 0
IsFlying host call c = lookup c.inflight host ≡ some call

call_eq : (a b : Call) → a.id ≡ b.id → a.generation ≡ b.generation → a ≡ b
call_eq a b i g = ground (arith, i, g)

drop_call-IsFlying :
    (host other : String) (call : Call) (id : ℕ) (calls : Dict Call)
    → lookup calls host ≡ some call
    → id ≢ call.id
    → (found : Option Call) → lookup calls other ≡ found
    → lookup (drop_call other id found calls) host ≡ some call
unfolding drop_call
drop_call-IsFlying host other call id calls h apart none e = h
drop_call-IsFlying host other call id calls h apart (some new) e =
    elim (Bool-cases (new.id == id)) [
      | inr kept ↦ rw kept h
      | inl dropped ↦ rw dropped (
          lookup-delete calls other host ∙ elim (Bool-cases (str_eq host other)) [
            | inr away ↦ rw away h
            | inl same ↦
                let one : some new ≡ some call =
                  sym e ∙ ap (lookup calls) (sym ((eq_iff host other).0 same)) ∙ h in
                absurd (ground (arith, one, dropped, apart))
          ])
    ]

module _ {A E : Type 0} where
  -- What threads do while a call is out: they begin lookups, of any host, and end other calls.
  pub data Work (out : Call) (c : Cache A E) : Cache A E → Type 0 where
    begins : (now : ℕ) (host : String) → Work out c (begin_lookup now host c).1
    ends :
        (host_less : String → String → Bool) (now : ℕ) (cancelled : Bool) (host : String)
        (call : Call) (answer : Answer A E) (given : ℕ)
        → call.id ≢ out.id
        → Work out c (end_lookup host_less now cancelled host call answer given c)

  pub data Works (out : Call) (c : Cache A E) : Cache A E → Type 0 where
    here : Works out c c
    next : {t u : Cache A E} → Works out c t → Work out t u → Works out c u

  by_call-IsFlying :
      (host other : String) (call : Call) (c : Cache A E)
      → IsFlying host call c
      → (found : Option Call) → lookup c.inflight other ≡ found
      → IsFlying host call (by_call other found c).1
  unfolding by_call
  by_call-IsFlying host other call c h (some new) e = h
  by_call-IsFlying host other call c h none e = elim (Bool-cases (str_eq host other)) [
    | inl same ↦
        let contrary : some call ≡ none =
          sym h ∙ ap (lookup c.inflight) ((eq_iff host other).0 same) ∙ e in
        absurd (ground (arith, contrary))
    | inr apart ↦
        lookup-insert c.inflight other host (record { id = c.next_call; generation = c.generation })
        ∙ rw apart h
  ]

  begin_lookup-IsFlying :
      (now : ℕ) (host other : String) (call : Call) (c : Cache A E)
      → IsFlying host call c
      → IsFlying host call (begin_lookup now other c).1
  unfolding begin_lookup by_entry
  begin_lookup-IsFlying now host other call c h = by_found (lookup c.cache other)
    where
      missed : IsFlying host call (by_call other (lookup c.inflight other) c).1
      missed = by_call-IsFlying host other call c h (lookup c.inflight other) refl

      by_found : (found : Option (Entry A E)) → IsFlying host call (by_entry now other found c).1
      by_found none = missed
      by_found (some e) =
          if_both (λ (r : Begun A E × Cache A E). IsFlying host call r.1) (ltb now e.expires) _ _ h
            missed

  end_lookup-IsFlying :
      (host_less : String → String → Bool) (now : ℕ) (cancelled : Bool) (host other : String)
      (out call : Call) (answer : Answer A E) (given : ℕ) (c : Cache A E)
      → call.id ≢ out.id
      → IsFlying host out c
      → IsFlying host out (end_lookup host_less now cancelled other call answer given c)
  unfolding end_lookup
  end_lookup-IsFlying host_less now cancelled host other out call answer given c apart h =
      if_both
        (λ (stored : Cache A E).
          lookup (drop_call other call.id (lookup stored.inflight other) stored.inflight) host
          ≡ some out)
        ((not cancelled && ltb 0 (ttl_of c.has_ttl answer given))
          && (call.generation == c.generation))
        _ _ kept kept
    where
      kept : lookup (drop_call other call.id (lookup c.inflight other) c.inflight) host ≡ some out
      kept =
          drop_call-IsFlying host other out call.id c.inflight h apart (lookup c.inflight other)
            refl

  Work-IsFlying :
      (host : String) (out : Call) (c : Cache A E) {t : Cache A E}
      → Work out c t
      → IsFlying host out c
      → IsFlying host out t
  Work-IsFlying host out c (begins now other) h = begin_lookup-IsFlying now host other out c h
  Work-IsFlying host out c (ends host_less now cancelled other call answer given apart) h =
      end_lookup-IsFlying host_less now cancelled host other out call answer given c apart h

  Works-IsFlying :
      (host : String) (out : Call) {c t : Cache A E}
      → Works out c t
      → IsFlying host out c
      → IsFlying host out t
  Works-IsFlying host out here h = h
  Works-IsFlying host out (next {t} works work) h =
      Work-IsFlying host out t work (Works-IsFlying host out works h)

  by_call-AsksNobody :
      (host : String) (call : Call) (c : Cache A E) (found : Option Call)
      → found ≡ some call
      → AsksNobody (by_call host found c).0
  unfolding by_call
  by_call-AsksNobody host call c none e = absurd (ground (arith, e))
  by_call-AsksNobody host call c (some other) e = tt

  IsFlying-AsksNobody :
      (now : ℕ) (host : String) (call : Call) (c : Cache A E)
      → IsFlying host call c
      → AsksNobody (begin_lookup now host c).0
  unfolding begin_lookup by_entry
  IsFlying-AsksNobody now host call c h = by_found (lookup c.cache host)
    where
      waits : AsksNobody (by_call host (lookup c.inflight host) c).0
      waits = by_call-AsksNobody host call c (lookup c.inflight host) h

      by_found : (found : Option (Entry A E)) → AsksNobody (by_entry now host found c).0
      by_found none = waits
      by_found (some e) =
          if_both (λ (r : Begun A E × Cache A E). AsksNobody r.0) (ltb now e.expires) _ _ tt waits

  -- While a thread asks the resolver for a host, no other thread asks it for the same host,
  -- whatever lookups of that host and others begin and whatever other calls end meanwhile, until
  -- this call ends or the network state is cleared.
  pub lookups_coalesce :
      (now later : ℕ) (host : String) (c t : Cache A E) (call : Call)
      → (begin_lookup now host c).0 ≡ resolves call
      → Works call (begin_lookup now host c).1 t
      → AsksNobody (begin_lookup later host t).0
  lookups_coalesce now later host c t call h works =
      IsFlying-AsksNobody later host call t (Works-IsFlying host call works flying)
    where
      flying : IsFlying host call (begin_lookup now host c).1
      flying =
          let (e, id, generation) = begin_lookup-resolves now host c call h in
          let new : Call = record { id = c.next_call; generation = c.generation } in
          ap (λ d. lookup d.inflight host) e
          ∙ lookup-insert_same c.inflight host new
          ∙ ap (λ x. some x) (call_eq new call (sym id) (sym generation))

  -- How long an answer lives: an error five seconds, addresses one minute if the resolver tells no
  -- lifetime, and what it tells, one second at least and one hour at most, if it does.
  abbrev pub lifetime : Bool → Answer A E → ℕ → ℕ
  lifetime has_ttl (failed _) given = seconds 5
  lifetime false (addresses _) given = seconds 60
  lifetime true (addresses _) given =
      if ltb given (seconds 1) then seconds 1 else min given (seconds 3600)

  abbrev pub IsCached : Begun A E → Type 0
  IsCached (cached _) = Unit
  IsCached (waits_for _) = ⊥
  IsCached (resolves _) = ⊥
