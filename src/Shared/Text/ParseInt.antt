-- ===== src/Shared/Text/ParseInt.antt =====
-- Signed decimal numbers: strconv.ParseInt with base 10 and 64 bits, which is strconv.Atoi too.
use pxgo.Shared.Int.{ℤ, pos, negsuc}
use Prim.Native.Nat.{ℕ, zero, suc}
use mathlib.Core.Option.{Option, none, some}
use mathlib.Core.List.{[], ◌∷◌}
use pxgo.Shared.Tests.{◌==◌, if◌then◌else◌}
use pxgo.Shared.Text.{Text, parse_digits}

parse_some : ℕ → Text → Option ℕ
unfolding parse_digits
parse_some limit [] = none
parse_some limit (d ∷ ds) = parse_digits limit 0 (d ∷ ds)

abbrev as_positive : Option ℕ → Option ℤ
as_positive none = none
as_positive (some n) = some (pos n)

abbrev as_negative : Option ℕ → Option ℤ
as_negative none = none
as_negative (some zero) = some (pos 0)
as_negative (some (suc n)) = some (negsuc n)

unfoldable pub parse_int : Text → Option ℤ
unfolding parse_some
parse_int [] = none
parse_int (c ∷ s) =
    if c == b'-'
    then as_negative (parse_some 9223372036854775808 s)
    else as_positive (parse_some 9223372036854775807 (if c == b'+' then s else c ∷ s))
