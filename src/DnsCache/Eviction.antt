-- ===== src/DnsCache/Eviction.antt =====
-- The eviction of DnsCache.antt leaves room for one more entry.
use mathlib.Core.Path.{subst}
use pxgo.Shared.{
  ℕ, zero, suc, ◌≤◌, ◌<◌, String, ◌≡◌, ◌⊎◌, inl, inr, refl, Bool, true, false, ◌&&◌, ◌||◌, Option,
  none, some, [], ◌∷◌, ◌==◌, ltb, leb, str_eq, eq_iff, Bool-cases, length, if_both, arith,
  if◌then◌else◌,
}
use pxgo.Shared.Dict.{Dict, delete, insert, length-insert-le, length-delete-le}
use pxgo.DnsCache.{
  Entry, drop_expired, delete_victim, pick_victim, evict_oldest, evict, store, max_entries,
}

module _ {A E : Type 0} where
  -- The map has an entry of that host, which is not the empty one.
  abbrev pub HasHost : String → Dict (Entry A E) → Type 0
  HasHost host [] = ⊥
  HasHost host ((h, e) ∷ rest) = (h ≡ host) ⊎ HasHost host rest

  -- No host is empty.
  abbrev pub Named : Dict (Entry A E) → Type 0
  Named [] = Unit
  Named ((h, e) ∷ rest) = (str_eq h "" ≡ false) × Named rest

  pick_victim-HasHost :
      (host_less : String → String → Bool) (victim : String) (oldest : ℕ) (d : Dict (Entry A E))
      → (v : String) × (o : ℕ) × (pick_victim host_less (some (victim, oldest)) d ≡ some (v, o))
        × ((victim ≡ v) ⊎ HasHost v d)
  unfolding pick_victim
  pick_victim-HasHost host_less victim oldest [] = (victim, oldest, refl, inl refl)
  pick_victim-HasHost host_less victim oldest ((h, e) ∷ rest) =
      by_test
        ((str_eq victim "" || ltb e.expires oldest)
          || ((e.expires == oldest) && host_less h victim))
        (pick_victim-HasHost host_less h e.expires rest)
        (pick_victim-HasHost host_less victim oldest rest)
    where
      Result : Option (String × ℕ) → String → Type 0
      Result found from =
          (v : String) × (o : ℕ) × (pick_victim host_less found rest ≡ some (v, o))
          × ((from ≡ v) ⊎ HasHost v rest)

      by_test :
          (b : Bool)
          → Result (some (h, e.expires)) h
          → Result (some (victim, oldest)) victim
          → (v : String) × (o : ℕ) × (pick_victim host_less
                (if b then some (h, e.expires) else some (victim, oldest))
                rest
              ≡ some (v, o))
            × ((victim ≡ v) ⊎ ((h ≡ v) ⊎ HasHost v rest))
      by_test true (v, o, p, has) _ = (v, o, p, inr has)
      by_test false _ (v, o, p, inl e) = (v, o, p, inl e)
      by_test false _ (v, o, p, inr has) = (v, o, p, inr (inr has))

  Named-HasHost :
      (host : String) (d : Dict (Entry A E)) → Named d → HasHost host d → str_eq host "" ≡ false
  Named-HasHost host [] named has = elim has [ ]
  Named-HasHost host ((h, e) ∷ rest) named (inl p) = subst (λ k. str_eq k "" ≡ false) p named.0
  Named-HasHost host ((h, e) ∷ rest) named (inr has) = Named-HasHost host rest named.1 has

  length-delete_host :
      (host : String) (d : Dict (Entry A E)) → HasHost host d → length (delete d host) < length d
  unfolding delete
  length-delete_host host [] has = elim has [ ]
  length-delete_host host ((h, e) ∷ rest) (inl p) =
      ground (arith, length-delete-le rest host, eq_iff host h, p)
  length-delete_host host ((h, e) ∷ rest) (inr has) =
      ground (arith, length-delete_host host rest has)

  delete-Named : (host : String) (d : Dict (Entry A E)) → Named d → Named (delete d host)
  unfolding delete
  delete-Named host [] named = tt
  delete-Named host ((h, e) ∷ rest) named =
      if_both Named (str_eq host h) _ _ (delete-Named host rest named.1)
        (named.0, delete-Named host rest named.1)

  insert-Named :
      (host : String) (e : Entry A E) (d : Dict (Entry A E))
      → str_eq host "" ≡ false
      → Named d
      → Named (insert d host e)
  unfolding insert
  insert-Named host e [] name named = (name, tt)
  insert-Named host e ((h, old) ∷ rest) name named =
      if_both Named (str_eq host h) _ _ (name, named.1)
        (named.0, insert-Named host e rest name named.1)

  drop_expired-Named : (now : ℕ) (d : Dict (Entry A E)) → Named d → Named (drop_expired now d)
  unfolding drop_expired
  drop_expired-Named now [] named = tt
  drop_expired-Named now ((h, e) ∷ rest) named =
      if_both Named (ltb now e.expires) _ _ (named.0, drop_expired-Named now rest named.1)
        (drop_expired-Named now rest named.1)

  -- One round of the second loop makes the map smaller.
  round-shrinks :
      (host_less : String → String → Bool) (d : Dict (Entry A E))
      → Named d
      → 0 < length d
      → (length (delete_victim (pick_victim host_less none d) d) < length d)
        × Named (delete_victim (pick_victim host_less none d) d)
  unfolding pick_victim
  round-shrinks host_less [] named h = absurd (omega (arith, h))
  round-shrinks host_less ((host, e) ∷ rest) named h =
      let (v, o, p, has) = pick_victim-HasHost host_less host e.expires rest in
      rw p (
        rw (Named-HasHost v ((host, e) ∷ rest) named has)
          (length-delete_host v ((host, e) ∷ rest) has, delete-Named v ((host, e) ∷ rest) named))

  evict_oldest-bound :
      (host_less : String → String → Bool) (fuel : ℕ) (d : Dict (Entry A E))
      → Named d
      → length d ≤ fuel
      → (length (evict_oldest host_less fuel d) < max_entries)
        × Named (evict_oldest host_less fuel d)
  unfolding evict_oldest
  evict_oldest-bound host_less zero d named h = (omega (arith, h), named)
  evict_oldest-bound host_less (suc fuel) d named h =
      by_size (Bool-cases (ltb (length d) max_entries)) (λ smaller.
        evict_oldest-bound host_less fuel (delete_victim (pick_victim host_less none d) d) smaller)
    where
      fewer : Dict (Entry A E)
      fewer = delete_victim (pick_victim host_less none d) d

      by_size :
          (ltb (length d) max_entries ≡ true) ⊎ (ltb (length d) max_entries ≡ false)
          → (Named fewer
              → length fewer ≤ fuel
              → (length (evict_oldest host_less fuel fewer) < max_entries)
                × Named (evict_oldest host_less fuel fewer))
          → (length (if ltb (length d) max_entries then d else evict_oldest host_less fuel fewer)
              < max_entries)
            × Named (if ltb (length d) max_entries then d else evict_oldest host_less fuel fewer)
      by_size (inl small) go = rw small (ground arith, named)
      by_size (inr large) go =
          let (less, kept) = round-shrinks host_less d named (ground arith) in
          rw large (go kept (omega (arith, less, h)))

  -- If no host is the empty text, an answer that is stored leaves at most 4096 entries, in a map that
  -- had at most as many, and none of them is of the empty host.
  pub store-bound :
      (host_less : String → String → Bool) (now : ℕ) (host : String) (e : Entry A E)
      (d : Dict (Entry A E))
      → Named d
      → length d ≤ max_entries
      → str_eq host "" ≡ false
      → (length (store host_less now host e d) ≤ max_entries) × Named (store host_less now host e d)
  unfolding store evict
  store-bound host_less now host e d named bounded name =
      by_size (Bool-cases (leb max_entries (length d)))
    where
      evicted : (length (evict host_less now d) < max_entries) × Named (evict host_less now d)
      evicted =
          evict_oldest-bound host_less (length (drop_expired now d)) (drop_expired now d)
            (drop_expired-Named now d named) (omega arith)

      by_size :
          (leb max_entries (length d) ≡ true) ⊎ (leb max_entries (length d) ≡ false)
          → (length
                (insert (if leb max_entries (length d) then evict host_less now d else d) host e)
              ≤ max_entries)
            × Named
                (insert (if leb max_entries (length d) then evict host_less now d else d) host e)
      by_size (inl large) = rw large (
        omega (arith, evicted.0, length-insert-le (evict host_less now d) host e),
        insert-Named host e (evict host_less now d) name evicted.1,
      )
      by_size (inr small) =
          rw small (ground (arith, length-insert-le d host e), insert-Named host e d name named)
