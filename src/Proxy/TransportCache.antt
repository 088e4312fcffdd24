-- ===== src/Proxy/TransportCache.antt =====
-- internal/proxy/transport_cache.go: the bounded cache of transports. An entry (a pointer) is a
-- number that is never used again. `get_or_create` enters the lock twice, and the entry that it makes
-- in between is held by its thread alone; `close_calls` are the entries on which `close` was called.
pub mod Counts
pub mod Laws
pub mod Runs
use pxgo.Shared.{
  ℕ, suc, ◌+◌, String, Bool, true, false, ◌||◌, Option, none, some, List, [], ◌∷◌, ◌++◌, ◌==◌, ltb,
  leb, length, if◌then◌else◌,
}
use pxgo.Shared.Dict.{Dict, lookup, insert, delete}

pub record TransportCache : Type 0 where
  pub max : ℕ
  pub entries : Dict ℕ
  pub order : List String
  pub held : List ℕ
  pub close_calls : List ℕ
  pub next_entry : ℕ

-- newBoundedTransportCache; 0 stands for every bound below one.
unfoldable pub new_transport_cache : ℕ → TransportCache
new_transport_cache max = record {
  max = if ltb max 1 then 1 else max;
  entries = [];
  order = [];
  held = [];
  close_calls = [];
  next_entry = 0;
}

-- get
unfoldable pub get_entry : String → TransportCache → Option ℕ
get_entry key c = lookup c.entries key

-- The first of a list that is the number, taken out.
unfoldable pub take_out : ℕ → List ℕ → List ℕ
take_out id [] = []
take_out id (x ∷ xs) = let rest = x ∷ take_out id xs in if x == id then xs else rest

-- factory(), between the two locked parts of getOrCreate.
unfoldable pub create_candidate : TransportCache → ℕ × TransportCache
create_candidate c =
    (c.next_entry, record c { held = c.next_entry ∷ c.held; next_entry = c.next_entry + 1 })

pub record Evicted : Type 0 where
  pub victim : Option ℕ
  pub order : List String
  pub entries : Dict ℕ

-- The loop that drops keys from the front of `order` up to one that is in the map.
unfoldable pub evict_front : List String → Dict ℕ → Evicted
evict_front [] entries = record { victim = none; order = []; entries = entries }
evict_front (key ∷ keys) entries = elim (lookup entries key) [
  | none ↦ evict_front keys entries
  | some victim ↦ record { victim = some victim; order = keys; entries = delete entries key }
]

unfoldable pub make_room : TransportCache → Evicted
unfolding evict_front
make_room c =
    if leb c.max (length c.entries)
    then evict_front c.order c.entries
    else record { victim = none; order = c.order; entries = c.entries }

abbrev pub add_call : Option ℕ → List ℕ → List ℕ
add_call none calls = calls
add_call (some id) calls = id ∷ calls

-- The candidate enters the cache; an entry that had to go is closed.
unfoldable pub admit : String → ℕ → TransportCache → TransportCache
unfolding make_room take_out
admit key id c =
    let evicted = make_room c in
    record c {
      entries = insert evicted.entries key id;
      order = evicted.order ++ key ∷ [];
      held = take_out id c.held;
      close_calls = add_call evicted.victim c.close_calls;
    }

-- Another thread was first: the candidate is closed.
unfoldable pub discard : ℕ → TransportCache → TransportCache
unfolding take_out
discard id c = record c { held = take_out id c.held; close_calls = id ∷ c.close_calls }

-- The second locked part of getOrCreate with its candidate, and the entry that it returns.
unfoldable pub put_candidate : String → ℕ → TransportCache → ℕ × TransportCache
unfolding admit discard
put_candidate key id c = elim (lookup c.entries key) [
  | some entry ↦ (entry, discard id c)
  | none ↦ (id, admit key id c)
]

-- getOrCreate, when no other thread comes between; a factory that gives nothing is no value.
unfoldable pub get_or_create : Bool → String → TransportCache → Option ℕ × TransportCache
unfolding get_entry put_candidate create_candidate
get_or_create creates key c = elim (get_entry key c) [
  | some entry ↦ (some entry, c)
  | none ↦
      if creates
      then (let (id, created) = create_candidate c in
          let (entry, c') = put_candidate key id created in (some entry, c'))
      else (none, c)
]

-- Whether `remove` is to take the entry; no expected one fits each.
abbrev is_expected : Option ℕ → ℕ → Bool
is_expected none entry = true
is_expected (some id) entry = entry == id

unfoldable pub remove : String → Option ℕ → TransportCache → Bool × TransportCache
remove key expected c = elim (lookup c.entries key) [
  | none ↦ (false, c)
  | some entry ↦
      if is_expected expected entry
      then (true, record c { entries = delete c.entries key; close_calls = entry ∷ c.close_calls })
      else (false, c)
]

unfoldable pub values : Dict ℕ → List ℕ
values [] = []
values ((key, id) ∷ rest) = id ∷ values rest

unfoldable pub clear : TransportCache → TransportCache
unfolding values
clear c = record c { entries = []; order = []; close_calls = values c.entries ++ c.close_calls }
