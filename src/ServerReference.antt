-- ===== src/ServerReference.antt =====
-- common/server_reference.py
use Prim.Native.String.{[], ◌∷◌}
use Prim.Native.Char.{code}
use numi_dba_agent.Common.{String, Bool, false, not, ◌&&◌, ◌≡◌, refl, leb, if◌then◌else◌}
use numi_dba_agent.Common.Text.{lower, keep, is_digit, is_lower_alnum}

starts_with_digit : String → Bool
starts_with_digit [] = false
starts_with_digit (ch ∷ rest) = is_digit ch

-- `str(int(run))` on every run of digits: a zero goes when a digit follows it in the run and no
-- digit of the run has been kept before it. `kept` tells whether one has.
collapse_digits : Bool → String → String
unfolding starts_with_digit
collapse_digits kept [] = []
collapse_digits kept (ch ∷ rest) =
    let digit = is_digit ch in
    let leading_zero = digit && not kept && leb (code ch) 48 && starts_with_digit rest in
    let tail = collapse_digits (digit && not leading_zero) rest in
    if leading_zero then tail else ch ∷ tail

unfoldable pub normalize_server_reference : String → String
unfolding collapse_digits lower keep
normalize_server_reference text = collapse_digits false (keep is_lower_alnum (lower text))

normalize_spellings :
    (normalize_server_reference "SQL Server Dev 1" ≡ "sqlserverdev1")
    × (normalize_server_reference "sqlserver-dev-01" ≡ "sqlserverdev1")
    × (normalize_server_reference "db-00" ≡ "db0")
    × (normalize_server_reference "a0b100" ≡ "a0b100")
unfolding normalize_server_reference
normalize_spellings = (refl, refl, refl, refl)
