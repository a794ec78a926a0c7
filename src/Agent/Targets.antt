-- ===== src/Agent/Targets.antt =====
-- agent/orchestrator.py: how a server that a DBA names is found, and how a new investigation takes
-- its target from a message and from the conversation.
pub mod Switching
pub mod Agreement
use numi_dba_agent.Common.{
  String, Bool, true, false, not, ◌&&◌, ◌||◌, Option, none, some, List, [], ◌∷◌, ◌++◌, map, ◌==◌,
  contains, string_eq, any, filter, is_empty, if◌then◌else◌,
}
use numi_dba_agent.Common.Dict
use numi_dba_agent.Common.Text.{lower, strip, is_in}
use numi_dba_agent.ServerReference.{normalize_server_reference}
use numi_dba_agent.Models.Json.{Json, str, Arguments, given}

-- an entry of `/v1/catalog/servers`
pub record ServerInfo : Type 0 where
  pub id : String
  pub aliases : List String
  pub host : Option String
  pub environment : Option String

-- the hints of `IntentExtraction` that name a target
pub record TargetHints : Type 0 where
  pub environment_hint : Option String
  pub database_hint : Option String
  pub instance_hint : Option String

server_names : ServerInfo → List String
unfolding lower
server_names s = lower s.id ∷ map lower s.aliases

text_or_empty : Option String → String
text_or_empty none = ""
text_or_empty (some s) = s

-- the test of `_find_matching_servers`
unfoldable pub is_named_by : String → ServerInfo → Bool
unfolding server_names text_or_empty lower strip string_eq is_in normalize_server_reference
is_named_by instance_hint s =
    let hint = lower (strip instance_hint) in
    let hint_normalized = normalize_server_reference hint in
    let names = server_names s in
    let host = lower (text_or_empty s.host) in
    let normalized_names = map normalize_server_reference names in
    contains names hint
    || hint == host
    || contains normalized_names hint_normalized
    || any (is_in hint) names
    || not (host == "") && is_in hint host
    || any (is_in hint_normalized) normalized_names

unfoldable pub find_matching_servers : List ServerInfo → String → List ServerInfo
unfolding is_named_by
find_matching_servers servers instance_hint = filter (is_named_by instance_hint) servers

prepend_given : Option String → List String → List String
unfolding given
prepend_given none texts = texts
prepend_given (some text) texts = if given (some text) then text ∷ texts else texts

-- the environments that the servers state
stated : List ServerInfo → List String
unfolding prepend_given
stated [] = []
stated (s ∷ servers) = prepend_given s.environment (stated servers)

all_equal : String → List String → Bool
unfolding string_eq
all_equal x [] = true
all_equal x (y ∷ ys) = x == y && all_equal x ys

-- the one element of a set
only : List String → Option String
unfolding all_equal
only [] = none
only (x ∷ xs) = if all_equal x xs then some x else none

unfoldable pub environment_for_instance : List ServerInfo → String → Option String
unfolding stated only find_matching_servers
environment_for_instance servers instance_hint =
    only (stated (find_matching_servers servers instance_hint))

or_hint : String → Option String → String
or_hint hint none = hint
or_hint hint (some id) = id

unfoldable pub canonical_server_id : List ServerInfo → String → String
unfolding only or_hint find_matching_servers
canonical_server_id servers instance_hint =
    or_hint instance_hint
      (only (map (λ (s : ServerInfo). s.id) (find_matching_servers servers instance_hint)))

-- `if hint: context[key] = hint`
set_given : String → Option String → Arguments → Arguments
unfolding given Dict.set
set_given key none context = context
set_given key (some hint) context =
    if given (some hint) then Dict.set context key (str hint) else context

-- `context.get("instance") != hint`
unfoldable pub is_switched : Arguments → String → Bool
unfolding Dict.get string_eq
is_switched context hint = elim (Dict.get context "instance") [
  | some (str old) ↦ not (old == hint)
  | _ ↦ true
]

-- The environment that goes with an instance named without one: its own, the remembered one while
-- the instance stays, or none.
fill_environment : Option String → Bool → Arguments → Arguments
unfolding given Dict.set Dict.remove
fill_environment automatic switched context =
    if given automatic
    then set_given "environment" automatic context
    else if switched
    then Dict.remove context "environment"
    else context

name_instance : List ServerInfo → TargetHints → String → Arguments → Arguments
unfolding is_switched fill_environment environment_for_instance given Dict.set Dict.remove
name_instance servers hints hint context =
    let switched = is_switched context hint in
    let fresh =
      if not (given hints.database_hint) && switched
      then Dict.remove context "database"
      else context in
    let named = Dict.set fresh "instance" (str hint) in
    if given hints.environment_hint
    then named
    else fill_environment (environment_for_instance servers hint) switched named

maybe_name_instance : List ServerInfo → TargetHints → Option String → Arguments → Arguments
unfolding name_instance given
maybe_name_instance servers hints none context = context
maybe_name_instance servers hints (some hint) context =
    if given (some hint) then name_instance servers hints hint context else context

-- what `_start_fresh_investigation` makes of `state.database_context`
unfoldable pub target_context : List ServerInfo → TargetHints → Arguments → Arguments
unfolding set_given maybe_name_instance
target_context servers hints context = maybe_name_instance servers hints hints.instance_hint (
    set_given "database" hints.database_hint
      (set_given "environment" hints.environment_hint context))
