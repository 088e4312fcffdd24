-- ===== src/Proxy/TransportCache/Runs.antt =====
-- Proxy/TransportCache.antt in every order in which threads enter its locked parts.
use pxgo.Shared.{
  ℕ, ◌+◌, ◌≤◌, ◌<◌, String, ◌≡◌, refl, ◌∙◌, Bool, true, false, Option, none, some, List, ◌∷◌,
  if_both, ltb, length, arith, if◌then◌else◌,
}
use pxgo.Shared.Dict.{lookup, delete, lookup-delete, length-delete-lt}
use pxgo.Proxy.TransportCache.{
  TransportCache, new_transport_cache, create_candidate, get_entry, get_or_create, is_expected,
  admit, discard, put_candidate, remove, values, clear,
}
use pxgo.Proxy.TransportCache.Counts.{
  count, count-append, count-take_out, count-delete, Unique-delete,
}
use pxgo.Proxy.TransportCache.Laws.{IsSound, Moves-IsSound, admit-IsSound}

-- What a thread may do. Only the thread that holds a candidate puts it into the cache.
pub data Step (c : TransportCache) : TransportCache → Type 0 where
  creates : Step c (create_candidate c).1
  puts : (key : String) (id : ℕ) → 0 < count id c.held → Step c (put_candidate key id c).1
  removes : (key : String) (expected : Option ℕ) → Step c (remove key expected c).1
  clears : Step c (clear c)

pub data Run (c : TransportCache) : TransportCache → Type 0 where
  here : Run c c
  next : {t u : TransportCache} → Run c t → Step t u → Run c u

create-IsSound : (c : TransportCache) → IsSound c → IsSound (create_candidate c).1
unfolding create_candidate count
create-IsSound c sound = record {
  positive = sound.positive;
  bounded = sound.bounded;
  unique = sound.unique;
  ordered = sound.ordered;
  once = λ id h. ground (arith, h, sound.once id, sound.fresh id);
  fresh = λ id h. ground (arith, h, sound.fresh id);
}

discard-IsSound :
    (id : ℕ) (c : TransportCache) → IsSound c → 0 < count id c.held → IsSound (discard id c)
unfolding discard count
discard-IsSound id c sound held =
    Moves-IsSound c (discard id c) sound
      (record { next_entry = refl; total = λ i. omega (arith, count-take_out i id c.held held) })
      refl sound.bounded sound.unique sound.ordered

put-IsSound :
    (key : String) (id : ℕ) (c : TransportCache)
    → IsSound c
    → 0 < count id c.held
    → IsSound (put_candidate key id c).1
unfolding put_candidate
put-IsSound key id c sound held = by_found (lookup c.entries key) refl
  where
    by_found :
        (found : Option ℕ)
        → lookup c.entries key ≡ found
        → IsSound (
            let r : ℕ × TransportCache = elim found [
              | some entry ↦ (entry, discard id c)
              | none ↦ (id, admit key id c)
            ] in
            r.1)
    by_found none e = admit-IsSound key id c sound held e
    by_found (some entry) e = discard-IsSound id c sound held

-- An entry leaves the map and is closed.
closed-IsSound :
    (key : String) (entry : ℕ) (c : TransportCache)
    → IsSound c
    → lookup c.entries key ≡ some entry
    → IsSound (record c { entries = delete c.entries key; close_calls = entry ∷ c.close_calls })
unfolding count
closed-IsSound key entry c sound e =
    Moves-IsSound c
      (record c { entries = delete c.entries key; close_calls = entry ∷ c.close_calls }) sound
      (record {
        next_entry = refl;
        total = λ i. omega (arith, count-delete i c.entries key entry sound.unique e);
      })
      refl (omega (arith, length-delete-lt c.entries key entry e, sound.bounded))
      (Unique-delete c.entries key sound.unique)
      (λ k found. sound.ordered k (ground (arith, found, lookup-delete c.entries key k)))

remove-IsSound :
    (key : String) (expected : Option ℕ) (c : TransportCache)
    → IsSound c
    → IsSound (remove key expected c).1
unfolding remove
remove-IsSound key expected c sound = by_found (lookup c.entries key) refl
  where
    by_found :
        (found : Option ℕ)
        → lookup c.entries key ≡ found
        → IsSound (
            let r : Bool × TransportCache = elim found [
              | none ↦ (false, c)
              | some entry ↦
                  if is_expected expected entry
                  then (
                    true,
                    record c {
                      entries = delete c.entries key;
                      close_calls = entry ∷ c.close_calls;
                    },
                  )
                  else (false, c)
            ] in
            r.1)
    by_found none e = sound
    by_found (some entry) e =
        if_both (λ (r : Bool × TransportCache). IsSound r.1) (is_expected expected entry) _ _
          (closed-IsSound key entry c sound e) sound

clear-IsSound : (c : TransportCache) → IsSound c → IsSound (clear c)
unfolding clear count lookup values
clear-IsSound c sound =
    Moves-IsSound c (clear c) sound
      (record {
        next_entry = refl;
        total = λ i. omega (arith, count-append i (values c.entries) c.close_calls);
      })
      refl (omega arith) tt (λ k found. absurd (ground (arith, found)))

Step-IsSound : (c t : TransportCache) → IsSound c → Step c t → IsSound t
Step-IsSound c _ sound creates = create-IsSound c sound
Step-IsSound c _ sound (puts key id held) = put-IsSound key id c sound held
Step-IsSound c _ sound (removes key expected) = remove-IsSound key expected c sound
Step-IsSound c _ sound clears = clear-IsSound c sound

Run-IsSound : (c t : TransportCache) → IsSound c → Run c t → IsSound t
Run-IsSound c _ sound here = sound
Run-IsSound c u sound (next {t} run step) = Step-IsSound t u (Run-IsSound c t sound run) step

new-IsSound : (max : ℕ) → IsSound (new_transport_cache max)
unfolding new_transport_cache count lookup values
new-IsSound max = record {
  positive = ground arith;
  bounded = omega arith;
  unique = tt;
  ordered = λ k found. absurd (ground (arith, found));
  once = λ id h. absurd (omega (arith, h));
  fresh = λ id h. omega arith;
}

-- No step changes the bound.
Step-max : (c t : TransportCache) → Step c t → t.max ≡ c.max
unfolding create_candidate put_candidate admit discard remove clear
Step-max c _ creates = refl
Step-max c _ (puts key id held) = ground arith
Step-max c _ (removes key expected) = ground arith
Step-max c _ clears = refl

Run-max : (c t : TransportCache) → Run c t → t.max ≡ c.max
Run-max c _ here = refl
Run-max c u (next {t} run step) = Step-max t u step ∙ Run-max c t run

-- In every interleaving the cache holds at most as many entries as it was made for, one at
-- least, and each entry that was ever made is exactly once in one place: held by the thread that
-- made it, in the cache, or closed.
pub transports_are_owned :
    (max : ℕ) (c : TransportCache)
    → Run (new_transport_cache max) c
    → (length c.entries ≤ (if ltb max 1 then 1 else max))
      × ((id : ℕ)
          → id < c.next_entry
          → count id c.held + count id (values c.entries) + count id c.close_calls ≡ 1)
unfolding new_transport_cache
transports_are_owned max c run =
    let sound = Run-IsSound (new_transport_cache max) c (new-IsSound max) run in
    (omega (arith, sound.bounded, Run-max (new_transport_cache max) c run), sound.once)

held_first : (id : ℕ) (held : List ℕ) → 0 < count id (id ∷ held)
unfolding count
held_first id held = ground arith

-- getOrCreate as a whole is a run of these steps.
pub get_or_create-Run :
    (makes : Bool) (key : String) (c : TransportCache) → Run c (get_or_create makes key c).1
unfolding get_or_create get_entry create_candidate
get_or_create-Run makes key c = by_found (lookup c.entries key)
  where
    created : TransportCache
    created = (create_candidate c).1

    by_found :
        (found : Option ℕ)
        → Run c (
            let r : Option ℕ × TransportCache = elim found [
              | some entry ↦ (some entry, c)
              | none ↦
                  if makes
                  then (let (entry, c') = put_candidate key c.next_entry created in
                      (some entry, c'))
                  else (none, c)
            ] in
            r.1)
    by_found (some entry) = here
    by_found none =
        if_both (λ (r : Option ℕ × TransportCache). Run c r.1) makes _ _
          (next (next here Step.creates) (puts key c.next_entry (held_first c.next_entry c.held)))
          here
