-- ===== src/Shared/Dict.antt =====
-- Go's `map[string]V` as an association list. The order of the list stands for the order in which
-- a `range` loop happens to see the entries, so what is proved for every list holds for each order.
use Prim.Native.Nat.{◌+◌, ◌≤◌, ◌<◌}
use Prim.Native.String.{String}
use mathlib.Core.Path.{◌≡◌, refl, subst}
use mathlib.Core.Logic.{inl, inr}
use mathlib.Core.Option.{Option, none, some}
use mathlib.Core.List.{List, [], ◌∷◌}
use native.Mathlib.Omega.{arith}
use text.Mathlib.Text.{◌==◌}
use text.Mathlib.TextEquality.{eq_iff}
use pxgo.Shared.Tests.{if◌then◌else◌, Bool-cases}
use pxgo.Shared.Lists.{length, All}

abbrev pub Dict {ℓ} : Type ℓ → Type ℓ
Dict V = List (String × V)

-- What holds of each value of the map.
abbrev pub EachValue {ℓ κ} : {V : Type ℓ} → (V → Type κ) → Dict V → Type κ
EachValue Holds = All (λ entry. Holds entry.1)

module _ {ℓ} {V : Type ℓ} where
  -- d[key]
  unfoldable pub lookup : Dict V → String → Option V
  lookup [] key = none
  lookup ((k, value) ∷ d) key = if key == k then some value else lookup d key

  -- d[key] = new
  unfoldable pub insert : Dict V → String → V → Dict V
  insert [] key new = (key, new) ∷ []
  insert ((k, value) ∷ d) key new =
      if key == k then (key, new) ∷ d else (k, value) ∷ insert d key new

  -- delete(d, key)
  unfoldable pub delete : Dict V → String → Dict V
  delete [] key = []
  delete ((k, value) ∷ d) key =
      let others = delete d key in if key == k then others else (k, value) ∷ others

  pub lookup-insert :
      (d : Dict V) (key asked : String) (new : V)
      → lookup (insert d key new) asked ≡ (if asked == key then some new else lookup d asked)
  unfolding lookup insert
  lookup-insert [] key asked new = refl
  lookup-insert ((k, value) ∷ d) key asked new =
      ground (arith, lookup-insert d key asked new, eq_iff asked key, eq_iff asked k, eq_iff key k)

  pub lookup-delete :
      (d : Dict V) (key asked : String)
      → lookup (delete d key) asked ≡ (if asked == key then none else lookup d asked)
  unfolding lookup delete
  lookup-delete [] key asked = ground arith
  lookup-delete ((k, value) ∷ d) key asked =
      ground (arith, lookup-delete d key asked, eq_iff asked key, eq_iff asked k, eq_iff key k)

  pub length-insert-le :
      (d : Dict V) (key : String) (new : V) → length (insert d key new) ≤ length d + 1
  unfolding insert
  length-insert-le [] key new = omega arith
  length-insert-le ((k, value) ∷ d) key new = ground (arith, length-insert-le d key new)

  pub length-insert_old :
      (d : Dict V) (key : String) (new old : V)
      → lookup d key ≡ some old
      → length (insert d key new) ≡ length d
  unfolding insert lookup
  length-insert_old [] key new old found = ground arith
  length-insert_old ((k, value) ∷ d) key new old found =
      ground (arith, length-insert_old d key new old)

  pub length-delete-le : (d : Dict V) (key : String) → length (delete d key) ≤ length d
  unfolding delete
  length-delete-le [] key = omega arith
  length-delete-le ((k, value) ∷ d) key = ground (arith, length-delete-le d key)

  pub length-delete-lt :
      (d : Dict V) (key : String) (old : V)
      → lookup d key ≡ some old
      → length (delete d key) < length d
  unfolding delete lookup
  length-delete-lt [] key old found = ground arith
  length-delete-lt ((k, value) ∷ d) key old found =
      ground (arith, length-delete-lt d key old, length-delete-le d key)

module _ {ℓ κ} {V : Type ℓ} (Holds : V → Type κ) where
  pub EachValue-insert :
      (d : Dict V) (key : String) (new : V)
      → EachValue Holds d
      → Holds new
      → EachValue Holds (insert d key new)
  unfolding insert
  EachValue-insert [] key new h n = (n, tt)
  EachValue-insert ((k, value) ∷ d) key new h n = elim (Bool-cases (key == k)) [
    | inl e ↦ rw e (n, h.1)
    | inr e ↦ rw e (h.0, EachValue-insert d key new h.1 n)
  ]

  pub EachValue-delete :
      (d : Dict V) (key : String) → EachValue Holds d → EachValue Holds (delete d key)
  unfolding delete
  EachValue-delete [] key h = tt
  EachValue-delete ((k, value) ∷ d) key h = elim (Bool-cases (key == k)) [
    | inl e ↦ rw e (EachValue-delete d key h.1)
    | inr e ↦ rw e (h.0, EachValue-delete d key h.1)
  ]

  pub EachValue-lookup :
      (d : Dict V) (key : String) (value : V)
      → EachValue Holds d
      → lookup d key ≡ some value
      → Holds value
  unfolding lookup
  EachValue-lookup [] key value h e = cc
  EachValue-lookup ((k, old) ∷ d) key value h e = elim (Bool-cases (key == k)) [
    | inl t ↦ let same : old ≡ value = ground arith in subst Holds same h.0
    | inr t ↦ EachValue-lookup d key value h.1 (rw t at e)
  ]
