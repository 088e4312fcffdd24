-- ===== src/Shared/Text/Table.antt =====
-- Maps with texts as keys.
use mathlib.Core.Option.{Option, none, some}
use mathlib.Core.List.{List, [], ◌∷◌}
use pxgo.Shared.Tests.{if◌then◌else◌}
use pxgo.Shared.Text.{Text, eq_text}

unfoldable pub find_key : {V : Type 0} → Text → List (Text × V) → Option V
find_key key [] = none
find_key key ((k, v) ∷ rest) = if eq_text k key then some v else find_key key rest

unfoldable pub forget_key : {V : Type 0} → Text → List (Text × V) → List (Text × V)
forget_key key [] = []
forget_key key ((k, v) ∷ rest) =
    let others = forget_key key rest in if eq_text k key then others else (k, v) ∷ others
