-- ===== src/Shared/Text/Trim.antt =====
-- Trimming keeps every code point that is no space.
use Prim.Native.Nat.{ℕ}
use mathlib.Core.Path.{◌≡◌, refl, ap}
use mathlib.Core.Logic.{◌⊎◌, inl, inr}
use mathlib.Core.Bool.{Bool, true, false}
use mathlib.Core.List.{[], ◌∷◌}
use native.Mathlib.Omega.{arith}
use pxgo.Shared.Tests.{◌==◌, ==_iff, ==_refl, Bool-cases}
use pxgo.Shared.Text.{Text, is_space, trim_left, trim_right, trim_space, keep_unless}
use pxgo.Shared.Text.Search.{contains_code, split_at}

contains_code-cases :
    (sought c : ℕ) (s : Text)
    → contains_code sought (c ∷ s) ≡ true
    → (c ≡ sought) ⊎ (contains_code sought s ≡ true)
unfolding contains_code
contains_code-cases sought c s h = elim (Bool-cases (c == sought)) [
  | inl same ↦ inl ((==_iff c sought).0 same)
  | inr other ↦ inr (ground (arith, h, other))
]

module _ (drop : ℕ → Bool) (sought : ℕ) (kept : drop sought ≡ false) where
  contains-keep_unless :
      (c : ℕ) (t : Text)
      → (c ≡ sought) ⊎ (contains_code sought t ≡ true)
      → contains_code sought (keep_unless drop c t) ≡ true
  unfolding contains_code
  contains-keep_unless c [] (inl same) = rw (same, kept, ==_refl sought) refl
  contains-keep_unless c [] (inr h) = absurd (ground (arith, h))
  contains-keep_unless c (d ∷ t) (inl same) = rw (same, ==_refl sought) refl
  contains-keep_unless c (d ∷ t) (inr h) = rw h (ground arith)

  contains-trim_right :
      (s : Text) → contains_code sought s ≡ true → contains_code sought (trim_right drop s) ≡ true
  unfolding trim_right contains_code
  contains-trim_right [] h = h
  contains-trim_right (c ∷ s) h =
      contains-keep_unless c (trim_right drop s) (elim (contains_code-cases sought c s h) [
        | inl same ↦ inl same
        | inr inner ↦ inr (contains-trim_right s inner)
      ])

  contains-trim_left :
      (s : Text) → contains_code sought s ≡ true → contains_code sought (trim_left drop s) ≡ true
  unfolding trim_left contains_code
  contains-trim_left [] h = h
  contains-trim_left (c ∷ s) h = elim (Bool-cases (drop c)) [
    | inr stays ↦ rw stays h
    | inl goes ↦ rw goes (
        contains-trim_left s (elim (contains_code-cases sought c s h) [
          | inl same ↦ absurd (ground (arith, goes, kept, ap drop same))
          | inr inner ↦ inner
        ]))
  ]

-- A text of spaces alone has no other code point.
pub contains-trim_space :
    (sought : ℕ) (s : Text)
    → is_space sought ≡ false
    → trim_space s ≡ []
    → contains_code sought s ≡ false
unfolding trim_space contains_code
contains-trim_space sought s kept e = elim (Bool-cases (contains_code sought s)) [
  | inr absent ↦ absent
  | inl there ↦
      let inner = contains-trim_right is_space sought kept s there in
      let all = contains-trim_left is_space sought kept (trim_right is_space s) inner in
      absurd (ground (arith, rw e at all))
]

-- A text with no separator is its only part.
pub split_at-contains : (sep : ℕ) (s : Text) → contains_code sep s ≡ false → split_at sep s ≡ s ∷ []
unfolding split_at contains_code
split_at-contains sep [] h = refl
split_at-contains sep (c ∷ s) h =
    let other : (c == sep) ≡ false = ground (arith, h) in
    rw (other, split_at-contains sep s (ground (arith, h, other))) refl
