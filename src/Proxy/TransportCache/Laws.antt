-- ===== src/Proxy/TransportCache/Laws.antt =====
-- What Proxy/TransportCache.antt promises, in every order in which threads enter its locked parts.
use mathlib.Core.Path.{subst}
use pxgo.Shared.{
  ℕ, ◌+◌, ◌≤◌, ◌<◌, String, ◌≡◌, refl, sym, ◌∙◌, inl, inr, Bool, true, false, ◌||◌, Option, none,
  some, List, [], ◌∷◌, ◌++◌, str_eq, eq_refl, eq_iff, Bool-cases, is_some, leb, length, arith,
}
use pxgo.Shared.Dict.{
  Dict, lookup, insert, delete, lookup-delete, lookup-insert, length-delete-lt, length-insert-le,
}
use pxgo.Proxy.TransportCache.{
  TransportCache, Evicted, evict_front, make_room, add_call, admit, values,
}
use pxgo.Proxy.TransportCache.Counts.{
  one, count, Unique, count-take_out, count-delete, Unique-delete, count-insert_new,
  Unique-insert_new,
}

unfoldable pub holds_name : String → List String → Bool
holds_name key [] = false
holds_name key (k ∷ ks) = str_eq key k || holds_name key ks

-- The eviction can find every key of the map in the queue.
abbrev pub Ordered : List String → Dict ℕ → Type 0
Ordered order entries =
    (key : String) → is_some (lookup entries key) ≡ true → holds_name key order ≡ true

-- The calls of `close` that the eviction adds.
abbrev victims : Option ℕ → ℕ → ℕ
victims none id = 0
victims (some victim) id = one id victim

count-add_call :
    (id : ℕ) (victim : Option ℕ) (calls : List ℕ)
    → count id (add_call victim calls) ≡ victims victim id + count id calls
unfolding count
count-add_call id none calls = omega arith
count-add_call id (some victim) calls = refl

-- What the eviction leaves.
record MakesRoom (entries : Dict ℕ) (r : Evicted) : Type 0 where
  counted : (id : ℕ) → count id (values r.entries) + victims r.victim id ≡ count id (values entries)
  unique : Unique r.entries
  ordered : Ordered r.order r.entries
  absent : (key : String) → lookup entries key ≡ none → lookup r.entries key ≡ none

Ordered-tail :
    (key : String) (keys : List String) (entries : Dict ℕ)
    → Ordered (key ∷ keys) entries
    → lookup entries key ≡ none
    → Ordered keys entries
unfolding holds_name
Ordered-tail key keys entries o h k found = elim (Bool-cases (str_eq k key)) [
  | inl e ↦
      absurd
        (ground (arith, found, subst (λ k'. lookup entries k' ≡ none) (sym ((eq_iff k key).0 e)) h))
  | inr e ↦ ground (arith, e, o k found)
]

pub Ordered-delete :
    (key : String) (keys : List String) (entries : Dict ℕ)
    → Ordered (key ∷ keys) entries
    → Ordered keys (delete entries key)
unfolding holds_name
Ordered-delete key keys entries o k found = elim (Bool-cases (str_eq k key)) [
  | inl e ↦ absurd (ground (arith, e, found, lookup-delete entries key k))
  | inr e ↦ ground (arith, e, o k, lookup-delete entries key k)
]

evict_front-lem :
    (order : List String) (entries : Dict ℕ)
    → Unique entries
    → Ordered order entries
    → 0 < length entries
    → MakesRoom entries (evict_front order entries)
      × (length (evict_front order entries).entries < length entries)
unfolding evict_front holds_name lookup
evict_front-lem [] [] u o h = absurd (omega (arith, h))
evict_front-lem [] ((k, id) ∷ rest) u o h = absurd (ground (arith, o k, eq_refl k))
evict_front-lem (key ∷ keys) entries u o h =
    by_found (lookup entries key) refl (evict_front-lem keys entries u)
  where
    Result : Evicted → Type 0
    Result r = MakesRoom entries r × (length r.entries < length entries)

    by_found :
        (found : Option ℕ)
        → lookup entries key ≡ found
        → (Ordered keys entries → 0 < length entries → Result (evict_front keys entries))
        → Result (elim found [
          | none ↦ evict_front keys entries
          | some victim ↦ record {
            victim = some victim;
            order = keys;
            entries = delete entries key;
          }
        ])
    by_found none e go = go (Ordered-tail key keys entries o e) h
    by_found (some v) e go = (
      record {
        counted = λ id. count-delete id entries key v u e;
        unique = Unique-delete entries key u;
        ordered = Ordered-delete key keys entries o;
        absent = λ k gone. ground (arith, lookup-delete entries key k, gone);
      },
      length-delete-lt entries key v e,
    )

pub record IsSound (c : TransportCache) : Type 0 where
  pub positive : 0 < c.max
  pub bounded : length c.entries ≤ c.max
  pub unique : Unique c.entries
  pub ordered : Ordered c.order c.entries
  pub once :
      (id : ℕ)
      → id < c.next_entry
      → count id c.held + count id (values c.entries) + count id c.close_calls ≡ 1
  pub fresh :
      (id : ℕ)
      → c.next_entry ≤ id
      → count id c.held + count id (values c.entries) + count id c.close_calls ≡ 0

-- What a step does to the three places that an entry may be in: nothing, for each of them.
pub record Moves (c t : TransportCache) : Type 0 where
  pub next_entry : t.next_entry ≡ c.next_entry
  pub total :
      (id : ℕ)
      → count id t.held + count id (values t.entries) + count id t.close_calls
        ≡ count id c.held + count id (values c.entries) + count id c.close_calls

pub Moves-IsSound :
    (c t : TransportCache)
    → IsSound c
    → Moves c t
    → t.max ≡ c.max
    → length t.entries ≤ c.max
    → Unique t.entries
    → Ordered t.order t.entries
    → IsSound t
Moves-IsSound c t sound m max bounded unique ordered = record {
  positive = omega (arith, max, sound.positive);
  bounded = omega (arith, max, bounded);
  unique = unique;
  ordered = ordered;
  once = λ id h. m.total id ∙ sound.once id (omega (arith, h, m.next_entry));
  fresh = λ id h. m.total id ∙ sound.fresh id (omega (arith, h, m.next_entry));
}

make_room-lem :
    (c : TransportCache)
    → IsSound c
    → MakesRoom c.entries (make_room c) × (length (make_room c).entries < c.max)
unfolding make_room
make_room-lem c sound = elim (Bool-cases (leb c.max (length c.entries))) [
  | inl full ↦
      let made =
        evict_front-lem c.order c.entries sound.unique sound.ordered
          (ground (arith, full, sound.positive)) in
      rw full (made.0, omega (arith, made.1, sound.bounded))
  | inr room ↦ rw room (
    record {
      counted = λ id. omega arith;
      unique = sound.unique;
      ordered = sound.ordered;
      absent = λ key gone. gone;
    },
    ground (arith, room),
  )
]

holds_name-append :
    (key last : String) (order : List String)
    → holds_name key (order ++ last ∷ []) ≡ (holds_name key order || str_eq key last)
unfolding holds_name
holds_name-append key last [] = ground arith
holds_name-append key last (k ∷ ks) = ground (arith, holds_name-append key last ks)

Ordered-insert :
    (key : String) (id : ℕ) (order : List String) (entries : Dict ℕ)
    → Ordered order entries
    → Ordered (order ++ key ∷ []) (insert entries key id)
Ordered-insert key id order entries o k found =
    ground (arith, holds_name-append k key order, lookup-insert entries key k id, found, o k)

pub admit-IsSound :
    (key : String) (id : ℕ) (c : TransportCache)
    → IsSound c
    → 0 < count id c.held
    → lookup c.entries key ≡ none
    → IsSound (admit key id c)
unfolding admit
admit-IsSound key id c sound held new =
    Moves-IsSound c (admit key id c) sound moves refl
      (omega (arith, length-insert-le evicted.entries key id, made.1))
      (Unique-insert_new evicted.entries key id absent made.0.unique)
      (Ordered-insert key id evicted.order evicted.entries made.0.ordered)
  where
    evicted : Evicted
    evicted = make_room c

    made : MakesRoom c.entries (make_room c) × (length (make_room c).entries < c.max)
    made = make_room-lem c sound

    absent : lookup evicted.entries key ≡ none
    absent = made.0.absent key new

    moves : Moves c (admit key id c)
    moves = record {
      next_entry = refl;
      total = λ i. omega (
        arith,
        count-take_out i id c.held held,
        count-insert_new i evicted.entries key id absent,
        count-add_call i evicted.victim c.close_calls,
        made.0.counted i,
      );
    }
