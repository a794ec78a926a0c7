-- ===== src/Agent/Targets/Switching.antt =====
-- agent/orchestrator.py: a conversation that moves to another server forgets the old one's facts.
use numi_dba_agent.Common.{
  String, Bool, true, false, not, Option, none, some, List, ◌≡◌, refl, ◌∙◌, ◌==◌, string_eq, arith,
  if◌then◌else◌,
}
use numi_dba_agent.Common.Dict
use numi_dba_agent.Models.Json.{Json, str, Arguments, given}
use numi_dba_agent.Agent.Targets.{
  ServerInfo, TargetHints, set_given, is_switched, fill_environment, name_instance,
  maybe_name_instance, environment_for_instance, target_context,
}

-- a text as the conversation keeps it, or nothing
abbrev pub kept : Option String → Option Json
kept none = none
kept (some s) = if given (some s) then some (str s) else none

set_given_none :
    (key : String) (o : Option String) (c : Arguments) → given o ≡ false → set_given key o c ≡ c
unfolding set_given given
set_given_none key none c h = refl
set_given_none key (some s) c h = ground arith

get-set_given :
    (key k : String) (o : Option String) (c : Arguments)
    → (key == k) ≡ false
    → Dict.get (set_given key o c) k ≡ Dict.get c k
unfolding set_given
get-set_given key k none c h = refl
get-set_given key k (some s) c h = ground (arith, Dict.get-set c key k (str s))

fill_environment_lem :
    (automatic : Option String) (c : Arguments)
    → Dict.get (fill_environment automatic true c) "environment" ≡ kept automatic
unfolding fill_environment set_given given
fill_environment_lem none c = ground (arith, Dict.get-remove c "environment" "environment")
fill_environment_lem (some s) c = ground (
  arith,
  Dict.get-remove c "environment" "environment",
  Dict.get-set c "environment" "environment" (str s),
)

get-fill_environment :
    (automatic : Option String) (k : String) (c : Arguments)
    → ("environment" == k) ≡ false
    → Dict.get (fill_environment automatic true c) k ≡ Dict.get c k
unfolding fill_environment
get-fill_environment automatic k c h =
    ground (arith, Dict.get-remove c "environment" k, get-set_given "environment" k automatic c h)

abbrev same : String → String → Bool
same a b = a == b

-- the keys of a target differ
differ :
    (same "environment" "instance" ≡ false)
    × (same "environment" "database" ≡ false)
    × (same "instance" "database" ≡ false)
    × (same "database" "instance" ≡ false)
unfolding string_eq
differ = (refl, refl, refl, refl)

-- what is kept of the database, once it is set from the message
get_database :
    (o : Option String) (c : Arguments)
    → Dict.get
        (if not (given o)
          then Dict.remove (set_given "database" o c) "database"
          else set_given "database" o c)
        "database"
      ≡ kept o
unfolding set_given given
get_database none c = ground (arith, Dict.get-remove c "database" "database")
get_database (some s) c =
    ground (arith, Dict.get-remove c "database" "database", Dict.get-set_self c "database" (str s))

is_switched_lem :
    (c c' : Arguments) (hint : String)
    → Dict.get c "instance" ≡ Dict.get c' "instance"
    → is_switched c hint ≡ is_switched c' hint
unfolding is_switched
is_switched_lem c c' hint h = rw (h, is_switched)

module _ (servers : List ServerInfo) (hints : TargetHints) (context : Arguments) (hint : String)
    (named : hints.instance_hint ≡ some hint) (said : given (some hint) ≡ true)
    (moved : is_switched context hint ≡ true) (unsaid : given hints.environment_hint ≡ false) where
  with_database : Arguments
  with_database = set_given "database" hints.database_hint context

  still_moved : is_switched with_database hint ≡ true
  unfolding with_database
  still_moved =
      is_switched_lem with_database context hint
        (get-set_given "database" "instance" hints.database_hint context differ.3)
      ∙ moved

  abbrev fresh : Arguments
  fresh =
      if not (given hints.database_hint)
      then Dict.remove with_database "database"
      else with_database

  target_context_shape :
      target_context servers hints context
      ≡ fill_environment
          (environment_for_instance servers hint)
          true
          (Dict.set fresh "instance" (str hint))
  unfolding target_context maybe_name_instance name_instance with_database
  target_context_shape =
      ground
        (arith, set_given_none "environment" hints.environment_hint context unsaid, still_moved)

  -- A message that names an instance other than the remembered one, and no environment: the
  -- conversation has that instance, the environment that the registered servers of that name agree
  -- on or else none, and the database that the message names or else none. Nothing of the old
  -- instance is carried over.
  pub target_context_switched :
      (Dict.get (target_context servers hints context) "instance" ≡ some (str hint))
      × (Dict.get (target_context servers hints context) "environment"
          ≡ kept (environment_for_instance servers hint))
      × (Dict.get (target_context servers hints context) "database" ≡ kept hints.database_hint)
  unfolding with_database
  target_context_switched = rw target_context_shape (
    get-fill_environment _ "instance" _ differ.0 ∙ Dict.get-set_self fresh "instance" (str hint),
    fill_environment_lem _ _,
    get-fill_environment _ "database" _ differ.1
        ∙ (ground (arith, Dict.get-set fresh "instance" "database" (str hint), differ.2)
            ∙ get_database hints.database_hint context),
  )
