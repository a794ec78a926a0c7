-- ===== src/Policy/Window.antt =====
-- gateway/domain/policy_engine.py: `is_within_maintenance_window`.
use Prim.Native.Char.{code}
use Prim.Native.String.{[], ◌∷◌}
use numi_dba_agent.Common.{
  ℕ, ◌+◌, ◌-◌, ◌*◌, ◌%◌, String, Bool, true, false, ◌&&◌, ◌||◌, Option, none, some, ltb, leb,
  if◌then◌else◌,
}
use numi_dba_agent.Common.Text.{strip, is_digit}
use numi_dba_agent.Models.Json.{given}
use numi_dba_agent.Servers.{MaintenanceWindow}

-- The local time of day, in microseconds, at a time of the epoch; `none` for a name that `ZoneInfo`
-- refuses.
abbrev pub TimeZones : Type 0
TimeZones = String → ℕ → Option ℕ

abbrev pub minute : ℕ
minute = 60000000

abbrev pub day : ℕ
day = 86400000000

-- decimal digits, with single underscores between them
digits : ℕ → Bool → String → Option ℕ
digits n after_digit [] = if after_digit then some n else none
digits n after_digit (ch ∷ rest) =
    let c = code ch in
    let digit = is_digit ch in
    let value = digits (if digit then n * 10 + (c - 48) else n) digit rest in
    if digit || (leb 95 c && leb c 95 && after_digit) then value else none

unsigned : String → Option ℕ
unfolding digits
unsigned text = digits 0 false text

abbrev zero_only : Option ℕ → Option ℕ
zero_only none = none
zero_only (some n) = if leb n 0 then some n else none

-- `int(text)` where that is a number from 0 up, for ASCII digits; `none` where it raises, and where
-- it is negative, which `replace` refuses in its turn
signed : String → Option ℕ
unfolding unsigned
signed [] = none
signed (ch ∷ rest) =
    let c = code ch in
    if leb 43 c && leb c 43
    then unsigned rest
    else if leb 45 c && leb c 45
    then zero_only (unsigned rest)
    else unsigned (ch ∷ rest)

-- what stands before and behind the first colon
before_colon : String → String
before_colon [] = []
before_colon (ch ∷ rest) =
    let c = code ch in
    let more = before_colon rest in if leb 58 c && leb c 58 then [] else ch ∷ more

after_colon : String → Option String
after_colon [] = none
after_colon (ch ∷ rest) =
    let c = code ch in
    let more = after_colon rest in if leb 58 c && leb c 58 then some rest else more

abbrev has_colon : Option String → Bool
has_colon none = false
has_colon (some rest) = true

abbrev in_range : Option ℕ → Option ℕ → Option ℕ
in_range (some h) (some m) = if ltb h 24 && ltb m 60 then some ((h * 60 + m) * minute) else none
in_range _ _ = none

-- `h, m = (int(x) for x in text.split(":"))` and `replace(hour=h, minute=m, second=0,
-- microsecond=0)`: the time of day; `none` where either raises
unfoldable pub time_of_day : String → Option ℕ
unfolding signed before_colon after_colon strip
time_of_day text = elim (after_colon text) [
  | none ↦ none
  | some rest ↦
      if has_colon (after_colon rest)
      then none
      else in_range (signed (strip (before_colon text))) (signed (strip rest))
]

-- a window that wraps midnight is read as two
abbrev pub inside : ℕ → ℕ → ℕ → Bool
inside start end local =
    if leb start end then leb start local && leb local end else leb start local || leb local end

abbrev compare_times : Option ℕ → Option ℕ → ℕ → Option Bool
compare_times (some start) (some end) local = some (inside start end local)
compare_times _ _ local = none

abbrev text_of : Option String → String
text_of none = []
text_of (some s) = s

-- `ZoneInfo(name)`, or UTC where that raises
unfoldable pub local_time : TimeZones → Option String → ℕ → ℕ
local_time zones timezone now = elim (zones (elim timezone [ none ↦ "UTC" | some z ↦ z ]) now) [
  | none ↦ now % day
  | some t ↦ t
]

-- `none` stands for the exception that a malformed time raises
unfoldable pub is_within_maintenance_window : TimeZones → MaintenanceWindow → ℕ → Option Bool
unfolding time_of_day local_time
is_within_maintenance_window zones window now =
    if given window.start && given window.end
    then compare_times (time_of_day (text_of window.start)) (time_of_day (text_of window.end))
        (local_time zones window.timezone now)
    else some true
