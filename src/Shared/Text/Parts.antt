-- ===== src/Shared/Text/Parts.antt =====
-- The parts between separators determine a text, and a suffix behind a separator is a suffix of
-- parts.
use Prim.Native.Nat.{ℕ}
use mathlib.Core.Path.{◌≡◌, refl, ap, sym, ◌∙◌}
use mathlib.Core.Logic.{inl, inr}
use mathlib.Core.Bool.{true, false}
use mathlib.Core.List.{List, [], ◌∷◌, ◌++◌}
use native.Mathlib.Omega.{arith}
use pxgo.Shared.Tests.{◌==◌, Bool-cases}
use pxgo.Shared.Text.{Text}
use pxgo.Shared.Text.Search.{
  contains_code, has_suffix, split_at, join_with, has_suffix-append, has_suffix-split,
  split_at-cons, split_at-append, join-split, join-append,
}

abbrev rest_of : List Text → List Text
rest_of [] = []
rest_of (part ∷ parts) = parts

-- A text with one part has no separator.
pub contains-one_part :
    (sep : ℕ) (s part : Text) → split_at sep s ≡ part ∷ [] → contains_code sep s ≡ false
unfolding contains_code split_at
contains-one_part sep [] part e = refl
contains-one_part sep (c ∷ s) part e = elim (Bool-cases (c == sep)) [
  | inl same ↦ let (x, xs, q) = split_at-cons sep s in absurd (ground (arith, rw (same, q) at e))
  | inr other ↦
      let (x, xs, q) = split_at-cons sep s in
      let alone : xs ≡ [] = ap rest_of (rw (other, q) at e) in
      rw (other, contains-one_part sep s x (q ∙ ap (λ ps. x ∷ ps) alone)) refl
]

pub split_at-injective : (sep : ℕ) (s t : Text) → split_at sep s ≡ split_at sep t → s ≡ t
split_at-injective sep s t e = sym (join-split sep s) ∙ ap (join_with sep) e ∙ join-split sep t

-- A text that ends in a separator and another text has that text's parts at its end.
pub has_suffix-parts :
    (sep : ℕ) (s t : Text)
    → has_suffix s (sep ∷ t) ≡ true
    → (x : Text) × (xs : List Text) × (split_at sep s ≡ x ∷ xs ++ split_at sep t)
has_suffix-parts sep s t h =
    let (p, e) = has_suffix-split s (sep ∷ t) h in
    let (x, xs, q) = split_at-cons sep p in
    (x, xs, ap (split_at sep) e ∙ split_at-append sep p t ∙ ap (λ ps. ps ++ split_at sep t) q)

-- And the other way round.
pub parts-has_suffix :
    (sep : ℕ) (s t x : Text) (xs : List Text)
    → split_at sep s ≡ x ∷ xs ++ split_at sep t
    → has_suffix s (sep ∷ t) ≡ true
parts-has_suffix sep s t x xs e =
    let (y, ys, q) = split_at-cons sep t in
    let whole : s ≡ join_with sep (x ∷ xs) ++ sep ∷ t =
      sym (join-split sep s)
      ∙ ap (join_with sep) (e ∙ ap (λ ps. x ∷ xs ++ ps) q)
      ∙ join-append sep x xs y ys
      ∙ ap (λ u. join_with sep (x ∷ xs) ++ sep ∷ u)
          (ap (join_with sep) (sym q) ∙ join-split sep t) in
    ap (λ u. has_suffix u (sep ∷ t)) whole ∙ has_suffix-append (join_with sep (x ∷ xs)) (sep ∷ t)
