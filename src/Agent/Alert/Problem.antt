-- ===== src/Agent/Alert/Problem.antt =====
-- agent/alert_trigger.py: the problem statement that an alert opens an investigation with, and what
-- Python's `str.format` makes of it.
use Prim.Native.Char.{Char, code}
use Prim.Native.String as Text
use numi_dba_agent.Common.{
  ℕ, zero, suc, String, Bool, false, ◌&&◌, Option, none, some, List, [], ◌∷◌, ◌++◌, ◌==◌, string_eq,
  leb, if◌then◌else◌,
}
use numi_dba_agent.Common.Format.{concat, join, starts_with}

pub record AlertPayload : Type 0 where
  pub server : String
  pub metric : String
  pub current_value : String
  pub threshold : String
  pub severity : String
  pub source : String
  pub message : String

-- text that is added only if a field of the alert is not empty
abbrev when_given : String → List String → List String
unfolding concat string_eq
when_given value parts = if value == "" then [] else concat parts ∷ []

metric_detail : AlertPayload → List String
unfolding string_eq concat
metric_detail alert = when_given alert.metric (
    "metric `"
    ∷ alert.metric
    ∷ "`"
    ∷ concat (when_given alert.current_value (" is currently " ∷ alert.current_value ∷ []))
    ∷ concat (when_given alert.threshold (" (threshold: " ∷ alert.threshold ∷ ")" ∷ []))
    ∷ [])

details_of : AlertPayload → List String
unfolding metric_detail string_eq concat
details_of alert =
    metric_detail alert
    ++ when_given alert.severity ("severity: " ∷ alert.severity ∷ [])
    ++ when_given alert.source ("reported by: " ∷ alert.source ∷ [])
    ++ when_given alert.message ("alert message: " ∷ alert.message ∷ [])

detail_text : List String → String
unfolding join
detail_text [] = "no further detail was provided by the alert"
detail_text (first ∷ others) = join "; " (first ∷ others)

-- the template: the f-string writes `{server_id}` for its `{{server_id}}`
unfoldable pub build_problem_statement : AlertPayload → String
unfolding concat detail_text details_of
build_problem_statement alert = concat (
    "A monitoring alert fired for the {server_id} server — "
    ∷ detail_text (details_of alert)
    ∷ ". This is an unattended, proactive investigation with no DBA in the conversation to answer a question or approve anything. Investigate this specific alert and report findings and a recommendation as text only: only read-only diagnostics are available to you here, and nothing you propose will be executed, approved, or acted on automatically. If this needs remediation, describe what you would recommend and why, for a DBA to decide on — never as an action you are taking. Do not ask a clarifying question; nobody is there to answer it."
    ∷ [])

is_char : ℕ → Char → Bool
is_char wanted ch = leb (code ch) wanted && leb wanted (code ch)

next_is : ℕ → String → Bool
unfolding is_char
next_is wanted Text.[] = false
next_is wanted (Text.◌∷◌ ch rest) = is_char wanted ch

-- what a character of a template begins, given what follows it
pub data Piece : Type 0 where
  plain doubled server_id_field other_field stray : Piece

piece : Char → String → Piece
unfolding is_char next_is starts_with
piece ch rest =
    if is_char 123 ch
    then if next_is 123 rest
      then doubled
      else if starts_with rest "server_id}"
      then server_id_field
      else other_field
    else if is_char 125 ch
    then if next_is 125 rest then doubled else stray
    else plain

-- `put text rest` is `text + rest`, where the rest could be formatted
put : String → Option String → Option String
put text none = none
put text (some rest) = some (Text.◌++◌ text rest)

-- `template.format(server_id=server_id)`; `none` is an exception. `skip` characters have been used
-- already. `formatted` is what Python makes of a template from another replacement field on.
module _ (formatted : String → Option String) where
  unfoldable pub format : String → ℕ → String → Option String
  unfolding piece put
  format server_id skip Text.[] = some ""
  format server_id (suc skip) (Text.◌∷◌ ch rest) = format server_id skip rest
  format server_id zero (Text.◌∷◌ ch rest) = elim (piece ch rest) [
    | plain ↦ put (Text.◌∷◌ ch Text.[]) (format server_id 0 rest)
    | doubled ↦ put (Text.◌∷◌ ch Text.[]) (format server_id 1 rest)
    | server_id_field ↦ put server_id (format server_id 10 rest)
    | other_field ↦ formatted rest
    | stray ↦ none
  ]
