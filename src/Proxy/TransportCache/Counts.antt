-- ===== src/Proxy/TransportCache/Counts.antt =====
-- How often an entry stands in a list and in a map whose keys are all different.
use mathlib.Core.Path.{subst}
use pxgo.Shared.{
  ℕ, ◌+◌, ◌<◌, String, ◌≡◌, refl, sym, inl, inr, none, some, List, [], ◌∷◌, ◌++◌, ◌==◌, str_eq,
  eq_iff, Bool-cases, if_both, arith, if◌then◌else◌,
}
use pxgo.Shared.Dict.{Dict, lookup, insert, delete, lookup-delete, lookup-insert}
use pxgo.Proxy.TransportCache.{take_out, values}

abbrev pub one : ℕ → ℕ → ℕ
one id x = if x == id then 1 else 0

unfoldable pub count : ℕ → List ℕ → ℕ
count id [] = 0
count id (x ∷ xs) = one id x + count id xs

-- No key stands twice in the list that is the map.
abbrev pub Unique : Dict ℕ → Type 0
Unique [] = Unit
Unique ((key, id) ∷ rest) = (lookup rest key ≡ none) × Unique rest

pub count-append : (id : ℕ) (xs ys : List ℕ) → count id (xs ++ ys) ≡ count id xs + count id ys
unfolding count
count-append id [] ys = omega arith
count-append id (x ∷ xs) ys = omega (arith, count-append id xs ys)

pub count-take_out :
    (id out : ℕ) (xs : List ℕ)
    → 0 < count out xs
    → count id (take_out out xs) + one id out ≡ count id xs
unfolding count take_out
count-take_out id out [] h = absurd (omega (arith, h))
count-take_out id out (x ∷ xs) h = ground (arith, count-take_out id out xs)

delete_absent : (d : Dict ℕ) (key : String) → lookup d key ≡ none → delete d key ≡ d
unfolding delete lookup
delete_absent [] key h = refl
delete_absent ((k, id) ∷ rest) key h = ground (arith, delete_absent rest key, eq_iff key k)

pub count-delete :
    (id : ℕ) (d : Dict ℕ) (key : String) (out : ℕ)
    → Unique d
    → lookup d key ≡ some out
    → count id (values (delete d key)) + one id out ≡ count id (values d)
unfolding count values delete lookup
count-delete id [] key out u h = absurd (ground arith)
count-delete id ((k, x) ∷ rest) key out u h = elim (Bool-cases (str_eq key k)) [
  | inl e ↦
      let same : lookup rest key ≡ none =
        subst (λ k'. lookup rest k' ≡ none) (sym ((eq_iff key k).0 e)) u.0 in
      ground (arith, e, delete_absent rest key same)
  | inr e ↦ ground (arith, e, count-delete id rest key out u.1)
]

pub Unique-delete : (d : Dict ℕ) (key : String) → Unique d → Unique (delete d key)
unfolding delete
Unique-delete [] key u = tt
Unique-delete ((k, x) ∷ rest) key u =
    if_both Unique (str_eq key k) _ _ (Unique-delete rest key u.1)
      (ground (arith, lookup-delete rest key k, u.0), Unique-delete rest key u.1)

pub count-insert_new :
    (id : ℕ) (d : Dict ℕ) (key : String) (new : ℕ)
    → lookup d key ≡ none
    → count id (values (insert d key new)) ≡ count id (values d) + one id new
unfolding count values insert lookup
count-insert_new id [] key new h = omega arith
count-insert_new id ((k, x) ∷ rest) key new h = ground (arith, count-insert_new id rest key new)

pub Unique-insert_new :
    (d : Dict ℕ) (key : String) (new : ℕ)
    → lookup d key ≡ none
    → Unique d
    → Unique (insert d key new)
unfolding insert lookup
Unique-insert_new [] key new h u = (refl, tt)
Unique-insert_new ((k, x) ∷ rest) key new h u = elim (Bool-cases (str_eq key k)) [
  | inl e ↦ absurd (ground (arith, e, h))
  | inr e ↦
      let absent : lookup rest key ≡ none = ground (arith, e, h) in
      rw e (
        ground (arith, lookup-insert rest key k new, u.0, eq_iff k key, eq_iff key k),
        Unique-insert_new rest key new absent u.1,
      )
]
