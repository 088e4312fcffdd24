-- ===== src/Shared/Text.antt =====
-- Go strings as lists of code points (an ASCII text is its bytes), and what the source uses of
-- package strings, strconv and encoding/hex. Text that is not valid UTF-8 is not modelled.
pub mod Laws
pub mod ParseInt
pub mod Parts
pub mod Search
pub mod Table
pub mod Trim
use Prim.Native.Nat.{ℕ, zero, suc, ◌+◌, ◌-◌, ◌*◌, ◌/◌, ◌%◌}
use Prim.Native.Char.{code}
use Prim.Native.String.{String}
use mathlib.Core.Bool.{Bool, true, false, ◌&&◌, ◌||◌}
use mathlib.Core.Option.{Option, none, some}
use mathlib.Core.List.{List, [], ◌∷◌, ◌++◌}
use pxgo.Shared.Tests.{ltb, leb, ◌==◌, if◌then◌else◌}

abbrev pub Text : Type 0
Text = List ℕ

abbrev pub codes : String → Text
codes String.[] = []
codes (String.◌∷◌ first others) = code first ∷ codes others

-- s == t
abbrev pub eq_text : Text → Text → Bool
eq_text [] [] = true
eq_text [] (_ ∷ _) = false
eq_text (_ ∷ _) [] = false
eq_text (a ∷ s) (b ∷ t) = (a == b) && eq_text s t

-- The number of bytes of a code point in UTF-8, and of a text: Go's `len`.
abbrev pub rune_len : ℕ → ℕ
rune_len c = if ltb c 128 then 1 else if ltb c 2048 then 2 else if ltb c 65536 then 3 else 4

unfoldable pub byte_length : Text → ℕ
byte_length [] = 0
byte_length (c ∷ s) = rune_len c + byte_length s

-- unicode.IsSpace
unfoldable pub is_space : ℕ → Bool
is_space c =
    (leb 9 c && leb c 13)
    || (c == 32)
    || (c == 0x85)
    || (c == 0xa0)
    || (c == 0x1680)
    || (leb 0x2000 c && leb c 0x200a)
    || (c == 0x2028)
    || (c == 0x2029)
    || (c == 0x202f)
    || (c == 0x205f)
    || (c == 0x3000)

-- The word that the text begins with, up to the first space, and the words behind it.
abbrev close_word : Text → List Text → List Text
close_word [] ws = ws
close_word (c ∷ w) ws = (c ∷ w) ∷ ws

unfoldable pub words : Text → Text × List Text
words [] = ([], [])
words (c ∷ s) = let (w, ws) = words s in if is_space c then ([], close_word w ws) else (c ∷ w, ws)

-- strings.Fields
unfoldable pub fields : Text → List Text
unfolding words
fields s = let (w, ws) = words s in close_word w ws

abbrev keep_unless : (ℕ → Bool) → ℕ → Text → Text
keep_unless drop c [] = if drop c then [] else c ∷ []
keep_unless drop c (d ∷ s) = c ∷ d ∷ s

-- strings.TrimRight by the code points that `drop` picks, and the same at the left.
unfoldable pub trim_right : (ℕ → Bool) → Text → Text
trim_right drop [] = []
trim_right drop (c ∷ s) = keep_unless drop c (trim_right drop s)

unfoldable pub trim_left : (ℕ → Bool) → Text → Text
trim_left drop [] = []
trim_left drop (c ∷ s) = if drop c then trim_left drop s else c ∷ s

-- strings.TrimSpace
unfoldable pub trim_space : Text → Text
unfolding trim_left trim_right
trim_space s = trim_left is_space (trim_right is_space s)

-- strings.Cut at one code point.
abbrev cons_before : ℕ → Option (Text × Text) → Option (Text × Text)
cons_before c none = none
cons_before c (some (before, after)) = some (c ∷ before, after)

unfoldable pub cut : ℕ → Text → Option (Text × Text)
cut sep [] = none
cut sep (c ∷ s) = if c == sep then some ([], s) else cons_before c (cut sep s)

-- strconv.FormatUint(n, 10): `fuel` digits at most, put in front of `tail`.
unfoldable pub format_digits : ℕ → ℕ → Text → Text
format_digits zero n tail = tail
format_digits (suc fuel) n tail =
    let more = format_digits fuel (n / 10) ((48 + n % 10) ∷ tail) in
    if ltb n 10 then (48 + n) ∷ tail else more

abbrev pub format_uint : ℕ → Text
format_uint n = format_digits 20 n []

abbrev is_digit : ℕ → Bool
is_digit c = leb 48 c && leb c 57

-- strconv.ParseUint(s, 10, 64): digits alone, at least one, and no value above `limit`.
unfoldable pub parse_digits : ℕ → ℕ → Text → Option ℕ
parse_digits limit acc [] = some acc
parse_digits limit acc (c ∷ s) =
    let acc' = acc * 10 + (c - 48) in
    let rest = parse_digits limit acc' s in if is_digit c && leb acc' limit then rest else none

abbrev pub max_u64 : ℕ
max_u64 = 18446744073709551615

unfoldable pub parse_uint : Text → Option ℕ
unfolding parse_digits
parse_uint [] = none
parse_uint (c ∷ s) = parse_digits max_u64 0 (c ∷ s)

abbrev pub hex_digit : ℕ → ℕ
hex_digit d = if ltb d 10 then 48 + d else 87 + d

-- hex.EncodeToString
unfoldable pub encode_hex : List ℕ → Text
encode_hex [] = []
encode_hex (b ∷ bs) = hex_digit (b / 16) ∷ hex_digit (b % 16) ∷ encode_hex bs
