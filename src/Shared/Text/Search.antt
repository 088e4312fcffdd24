-- ===== src/Shared/Text/Search.antt =====
-- What the source uses of package strings to look into a text, and laws of suffixes and of the
-- parts between separators.
use Prim.Native.Nat.{ℕ, ◌+◌}
use mathlib.Core.Path.{◌≡◌, refl, ap, sym, ◌∙◌}
use mathlib.Core.Logic.{inl, inr}
use mathlib.Core.Bool.{Bool, true, false, ◌||◌}
use mathlib.Core.Option.{Option, none, some}
use mathlib.Core.List.{List, [], ◌∷◌, ◌++◌, append_assoc}
use native.Mathlib.Omega.{arith}
use pxgo.Shared.Tests.{◌==◌, ==_iff, if◌then◌else◌, Bool-cases}
use pxgo.Shared.Text.{Text, eq_text}
use pxgo.Shared.Text.Laws.{eq_text_refl, eq_text_sound}

-- strings.TrimPrefix that fails where the prefix is not there.
unfoldable pub after_prefix : Text → Text → Option Text
after_prefix [] s = some s
after_prefix (c ∷ prefix) [] = none
after_prefix (c ∷ prefix) (d ∷ s) = if c == d then after_prefix prefix s else none

abbrev is_there : Option Text → Bool
is_there none = false
is_there (some _) = true

abbrev or_whole : Text → Option Text → Text
or_whole s none = s
or_whole s (some rest) = rest

unfoldable pub has_prefix : Text → Text → Bool
unfolding after_prefix
has_prefix s prefix = is_there (after_prefix prefix s)

unfoldable pub trim_prefix : Text → Text → Text
unfolding after_prefix
trim_prefix s prefix = or_whole s (after_prefix prefix s)

-- strings.HasSuffix
unfoldable pub has_suffix : Text → Text → Bool
has_suffix [] suffix = eq_text [] suffix
has_suffix (c ∷ s) suffix = eq_text (c ∷ s) suffix || has_suffix s suffix

-- strings.TrimSuffix
unfoldable pub trim_suffix : Text → Text → Text
trim_suffix [] suffix = []
trim_suffix (c ∷ s) suffix = if eq_text (c ∷ s) suffix then [] else c ∷ trim_suffix s suffix

-- strings.Contains of one code point, and of a text.
unfoldable pub contains_code : ℕ → Text → Bool
contains_code sought [] = false
contains_code sought (c ∷ s) = (c == sought) || contains_code sought s

unfoldable pub contains_text : Text → Text → Bool
unfolding has_prefix
contains_text sought [] = has_prefix [] sought
contains_text sought (c ∷ s) = has_prefix (c ∷ s) sought || contains_text sought s

-- strings.Count of one code point.
unfoldable pub count_code : ℕ → Text → ℕ
count_code sought [] = 0
count_code sought (c ∷ s) = (if c == sought then 1 else 0) + count_code sought s

-- strings.Split at one code point: never empty.
abbrev pub onto_first : ℕ → List Text → List Text
onto_first c [] = (c ∷ []) ∷ []
onto_first c (part ∷ parts) = (c ∷ part) ∷ parts

unfoldable pub split_at : ℕ → Text → List Text
split_at sep [] = [] ∷ []
split_at sep (c ∷ s) =
    let parts = split_at sep s in if c == sep then [] ∷ parts else onto_first c parts

-- strings.Join with one code point.
unfoldable pub join_with : ℕ → List Text → Text
join_with sep [] = []
join_with sep (part ∷ []) = part
join_with sep (part ∷ next ∷ parts) = part ++ sep ∷ join_with sep (next ∷ parts)

pub has_suffix-append : (p s : Text) → has_suffix (p ++ s) s ≡ true
unfolding has_suffix
has_suffix-append [] [] = refl
has_suffix-append [] (c ∷ s) = rw (eq_text_refl (c ∷ s)) refl
has_suffix-append (c ∷ p) s = rw (has_suffix-append p s) (ground arith)

pub has_suffix-split :
    (s suffix : Text) → has_suffix s suffix ≡ true → (p : Text) × (s ≡ p ++ suffix)
unfolding has_suffix
has_suffix-split [] suffix h = ([], eq_text_sound [] suffix h)
has_suffix-split (c ∷ s) suffix h = elim (Bool-cases (eq_text (c ∷ s) suffix)) [
  | inl same ↦ ([], eq_text_sound (c ∷ s) suffix same)
  | inr other ↦
      let (p, e) = has_suffix-split s suffix (ground (arith, h, other)) in
      (c ∷ p, ap (λ (t : Text). c ∷ t) e)
]

-- The parts are a first part and others.
pub split_at-cons :
    (sep : ℕ) (s : Text) → (part : Text) × (parts : List Text) × (split_at sep s ≡ part ∷ parts)
unfolding split_at
split_at-cons sep [] = ([], [], refl)
split_at-cons sep (c ∷ s) = elim (Bool-cases (c == sep)) [
  | inl e ↦ ([], split_at sep s, rw e refl)
  | inr e ↦ let (part, parts, p) = split_at-cons sep s in (c ∷ part, parts, rw (e, p) refl)
]

pub split_at-append :
    (sep : ℕ) (p s : Text) → split_at sep (p ++ sep ∷ s) ≡ split_at sep p ++ split_at sep s
unfolding split_at
split_at-append sep [] s = ground arith
split_at-append sep (c ∷ p) s = elim (Bool-cases (c == sep)) [
  | inl e ↦ rw (e, split_at-append sep p s) refl
  | inr e ↦ let (part, parts, q) = split_at-cons sep p in rw (e, split_at-append sep p s, q) refl
]

join-onto_first :
    (sep c : ℕ) (part : Text) (parts : List Text)
    → join_with sep (onto_first c (part ∷ parts)) ≡ c ∷ join_with sep (part ∷ parts)
unfolding join_with
join-onto_first sep c part [] = refl
join-onto_first sep c part (next ∷ parts) = refl

pub join-split : (sep : ℕ) (s : Text) → join_with sep (split_at sep s) ≡ s
unfolding join_with split_at
join-split sep [] = refl
join-split sep (c ∷ s) =
    let (part, parts, q) = split_at-cons sep s in
    elim (Bool-cases (c == sep)) [
      | inl e ↦
          rw (e, q)
            (ap (λ (d : ℕ). d ∷ join_with sep (part ∷ parts)) (sym ((==_iff c sep).0 e))
              ∙ ap (λ (t : Text). c ∷ t) (ap (join_with sep) (sym q) ∙ join-split sep s))
      | inr e ↦
          rw (e, q)
            (join-onto_first sep c part parts
              ∙ ap (λ (t : Text). c ∷ t) (ap (join_with sep) (sym q) ∙ join-split sep s))
    ]

pub join-append :
    (sep : ℕ) (x : Text) (xs : List Text) (y : Text) (ys : List Text)
    → join_with sep ((x ∷ xs) ++ y ∷ ys) ≡ join_with sep (x ∷ xs) ++ sep ∷ join_with sep (y ∷ ys)
unfolding join_with
join-append sep x [] y ys = refl
join-append sep x (next ∷ xs) y ys =
    ap (λ (t : Text). x ++ sep ∷ t) (join-append sep next xs y ys)
    ∙ sym (append_assoc x (sep ∷ join_with sep (next ∷ xs)) (sep ∷ join_with sep (y ∷ ys)))
