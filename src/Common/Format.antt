-- ===== src/Common/Format.antt =====
-- Python's f-strings and `str.join`.
use Prim.Native.Nat.{zero, suc}
use Prim.Native.String
use Prim.Native.String.{String}
use mathlib.Core.Bool.{Bool, true, false}
use mathlib.Core.List.{List, [], ◌∷◌}
use mathlib.Core.Option.{none, some}
use text.Mathlib.Text.{find?}

-- `"".join(parts)`, and what an f-string writes
unfoldable pub concat : List String → String
concat [] = ""
concat (part ∷ parts) = String.◌++◌ part (concat parts)

-- `separator.join(parts)`
unfoldable pub join : String → List String → String
unfolding concat
join separator [] = ""
join separator (part ∷ []) = part
join separator (part ∷ next ∷ parts) =
    concat (part ∷ separator ∷ join separator (next ∷ parts) ∷ [])

-- `text.startswith(start)`
unfoldable pub starts_with : String → String → Bool
starts_with text start = elim (find? text start) [
  | none ↦ false
  | some zero ↦ true
  | some (suc i) ↦ false
]
