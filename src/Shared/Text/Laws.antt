-- ===== src/Shared/Text/Laws.antt =====
-- Laws of the text functions: words, trimming, and decimal numbers written and read back.
use Prim.Native.Nat.{ℕ, zero, suc, ◌+◌, ◌-◌, ◌*◌, ◌/◌, ◌%◌, ◌≤◌, ◌<◌}
use mathlib.Core.Path.{◌≡◌, refl, ap, ◌∙◌}
use mathlib.Core.Logic.{inl, inr}
use mathlib.Core.Bool.{true, false}
use mathlib.Core.Option.{some}
use mathlib.Core.List.{List, [], ◌∷◌, ◌++◌}
use native.Mathlib.Omega.{arith}
use pxgo.Shared.Tests.{ltb, Bool-cases}
use pxgo.Shared.Lists.{All}
use pxgo.Shared.Text.{
  Text, eq_text, byte_length, is_space, words, fields, format_digits, parse_digits, parse_uint,
  format_uint, max_u64,
}

pub eq_text_refl : (s : Text) → eq_text s s ≡ true
eq_text_refl [] = refl
eq_text_refl (a ∷ s) = ground (arith, eq_text_refl s)

pub eq_text_sound : (s t : Text) → eq_text s t ≡ true → s ≡ t
eq_text_sound [] [] h = refl
eq_text_sound [] (b ∷ t) h = ground arith
eq_text_sound (a ∷ s) [] h = ground arith
eq_text_sound (a ∷ s) (b ∷ t) h = ground (arith, eq_text_sound s t)

-- No code point of the text is a space.
abbrev pub IsWord : Text → Type 0
IsWord = All (λ c. is_space c ≡ false)

pub words-word : (w : Text) → IsWord w → words w ≡ (w, [])
unfolding words
words-word [] h = refl
words-word (c ∷ w) h = rw (words-word w h.1, h.0)

pub words-append :
    (w : Text) (sep : ℕ) (s : Text)
    → IsWord w
    → is_space sep ≡ true
    → words (w ++ sep ∷ s) ≡ (w, fields s)
unfolding words fields
words-append [] sep s h k = rw k
words-append (c ∷ w) sep s h k = rw (words-append w sep s h.1 k, h.0)

pub fields-word : (a : ℕ) (v : Text) → IsWord (a ∷ v) → fields (a ∷ v) ≡ (a ∷ v) ∷ []
unfolding fields
fields-word a v h = rw (words-word (a ∷ v) h)

-- Two words and a space between them are cut into the two words.
pub fields-two :
    (a b : ℕ) (v w : Text)
    → IsWord (a ∷ v)
    → IsWord (b ∷ w)
    → fields ((a ∷ v) ++ 32 ∷ b ∷ w) ≡ (a ∷ v) ∷ (b ∷ w) ∷ []
fields-two a b v w hv hw =
    first ((a ∷ v) ++ 32 ∷ b ∷ w) (words-append (a ∷ v) 32 (b ∷ w) hv (unfold is_space in refl))
      (fields-word b w hw)
  where
    first :
        (s : Text) {ws : List Text}
        → words s ≡ (a ∷ v, fields (b ∷ w))
        → fields (b ∷ w) ≡ ws
        → fields s ≡ (a ∷ v) ∷ ws
    first s e f = unfold fields in rw e (ap (λ l. (a ∷ v) ∷ l) f)

-- A power of ten, in the form that linear arithmetic reads.
abbrev pub power_of_ten : ℕ → ℕ
power_of_ten zero = 1
power_of_ten (suc k) = 10 * power_of_ten k

parse_first :
    (n limit : ℕ) (tail : Text)
    → ltb n 10 ≡ true
    → n ≤ limit
    → parse_digits limit 0 ((48 + n) ∷ tail) ≡ parse_digits limit n tail
unfolding parse_digits
parse_first n limit tail h le =
    let sum : 0 * 10 + (48 + n - 48) ≡ n = omega arith in rw sum (ground arith)

parse_next :
    (n limit : ℕ) (tail : Text)
    → n ≤ limit
    → parse_digits limit (n / 10) ((48 + n % 10) ∷ tail) ≡ parse_digits limit n tail
unfolding parse_digits
parse_next n limit tail le =
    let sum : n / 10 * 10 + (48 + n % 10 - 48) ≡ n = omega arith in rw sum (ground arith)

-- Reading what `format_digits` wrote gives the number back, whatever follows.
pub parse_digits-format_digits :
    (fuel n limit : ℕ) (tail : Text)
    → n < power_of_ten fuel
    → n ≤ limit
    → parse_digits limit 0 (format_digits fuel n tail) ≡ parse_digits limit n tail
unfolding format_digits
parse_digits-format_digits zero n limit tail h le = let n_zero : n ≡ 0 = omega arith in rw n_zero
parse_digits-format_digits (suc f) n limit tail h le = elim (Bool-cases (ltb n 10)) [
  | inl small ↦ rw small (parse_first n limit tail small le)
  | inr big ↦ rw big (
      parse_digits-format_digits f (n / 10) limit ((48 + n % 10) ∷ tail) (ground arith)
        (omega arith)
      ∙ parse_next n limit tail le)
]

-- A formatted number is one word of digits.
pub format_digits-IsWord :
    (fuel n : ℕ) (tail : Text) → IsWord tail → IsWord (format_digits fuel n tail)
unfolding format_digits is_space
format_digits-IsWord zero n tail h = h
format_digits-IsWord (suc f) n tail h = elim (Bool-cases (ltb n 10)) [
  | inl small ↦ rw small (ground arith, h)
  | inr big ↦ rw big (format_digits-IsWord f (n / 10) ((48 + n % 10) ∷ tail) (ground arith, h))
]

-- It has at most as many bytes as the fuel allows.
pub format_digits-length :
    (fuel n : ℕ) (tail : Text) → byte_length (format_digits fuel n tail) ≤ byte_length tail + fuel
unfolding format_digits byte_length
format_digits-length zero n tail = omega arith
format_digits-length (suc f) n tail =
    ground (arith, format_digits-length f (n / 10) ((48 + n % 10) ∷ tail))

not_empty :
    (fuel n : ℕ) (c : ℕ) (tail : Text)
    → (d : ℕ) × (s : Text) × (format_digits fuel n (c ∷ tail) ≡ d ∷ s)
unfolding format_digits
not_empty zero n c tail = (c, tail, refl)
not_empty (suc f) n c tail = elim (Bool-cases (ltb n 10)) [
  | inl small ↦ (48 + n, c ∷ tail, rw small)
  | inr big ↦ let (d, s, e) = not_empty f (n / 10) (48 + n % 10) (c ∷ tail) in (d, s, rw big e)
]

pub format_digits-ne-nil :
    (fuel n : ℕ) → (d : ℕ) × (s : Text) × (format_digits (suc fuel) n [] ≡ d ∷ s)
unfolding format_digits
format_digits-ne-nil fuel n = elim (Bool-cases (ltb n 10)) [
  | inl small ↦ (48 + n, [], rw small)
  | inr big ↦ let (d, s, e) = not_empty fuel (n / 10) (48 + n % 10) [] in (d, s, rw big e)
]

-- strconv.ParseUint reads back what strconv.FormatUint wrote.
pub parse_uint-format_uint : (n : ℕ) → n ≤ max_u64 → parse_uint (format_uint n) ≡ some n
unfolding parse_uint
parse_uint-format_uint n h = let (d, s, e) = format_digits-ne-nil 19 n in rw e (rw e at read)
  where
    read : parse_digits max_u64 0 (format_digits 20 n []) ≡ some n
    read = parse_digits-format_digits 20 n max_u64 [] (omega arith) h
