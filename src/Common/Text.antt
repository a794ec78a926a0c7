-- ===== src/Common/Text.antt =====
-- Python's `str` methods that the program calls. `lower` and `strip` are those of ASCII text: other
-- characters stay as they are.
use Prim.Native.Nat.{ℕ, ◌-◌}
use Prim.Native.Char.{Char, code}
use Prim.Native.String.{String, char_at, [], ◌∷◌}
use mathlib.Core.Bool.{Bool, true, false, ◌&&◌, ◌||◌}
use text.Mathlib.Text.{find?}
use mathlib.Core.Option.{none, some}
use numi_dba_agent.Common.Tests.{leb, if◌then◌else◌}

abbrev is_upper : ℕ → Bool
is_upper c = leb 65 c && leb c 90

abbrev pub is_digit : Char → Bool
is_digit ch = let c = code ch in leb 48 c && leb c 57

-- the characters of `[a-z0-9]`
abbrev pub is_lower_alnum : Char → Bool
is_lower_alnum ch = let c = code ch in leb 97 c && leb c 122 || is_digit ch

abbrev is_space : Char → Bool
is_space ch = let c = code ch in leb 9 c && leb c 13 || leb 28 c && leb c 32

lower_char : Char → Char
lower_char ch =
    let c = code ch in if is_upper c then char_at "abcdefghijklmnopqrstuvwxyz" (c - 65) else ch

-- `s.lower()`
unfoldable pub lower : String → String
unfolding lower_char
lower [] = []
lower (ch ∷ rest) = lower_char ch ∷ lower rest

strip_left : String → String
strip_left [] = []
strip_left (ch ∷ rest) =
    let stripped = strip_left rest in if is_space ch then stripped else ch ∷ rest

is_nil : String → Bool
is_nil [] = true
is_nil (ch ∷ rest) = false

strip_right : String → String
unfolding is_nil
strip_right [] = []
strip_right (ch ∷ rest) =
    let kept = strip_right rest in if is_space ch && is_nil kept then [] else ch ∷ kept

-- `s.strip()`
unfoldable pub strip : String → String
unfolding strip_left strip_right
strip s = strip_right (strip_left s)

-- `needle in text`
unfoldable pub is_in : String → String → Bool
is_in needle text = elim (find? text needle) [ none ↦ false | some i ↦ true ]

-- the characters of `s` that pass, in order
unfoldable pub keep : (Char → Bool) → String → String
keep p [] = []
keep p (ch ∷ rest) = let kept = keep p rest in if p ch then ch ∷ kept else kept
