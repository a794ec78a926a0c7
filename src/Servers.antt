-- ===== src/Servers.antt =====
-- gateway/domain/servers.py: the registry of servers, and which of them a target names.
pub mod Resolution
use numi_dba_agent.Common.{
  ℕ, String, Bool, true, false, ◌&&◌, ◌||◌, Option, none, some, List, [], ◌∷◌, ◌==◌, string_eq,
  filter, any, is_empty, if◌then◌else◌,
}
use numi_dba_agent.Common.Dict
use numi_dba_agent.Common.Dict.{Dict}
use numi_dba_agent.Common.Exec.{Result, ok, err}
use numi_dba_agent.Common.Text.{lower, strip, is_in}
use numi_dba_agent.Models.Identity.{DbaRole}
use numi_dba_agent.Models.Json.{given}
use numi_dba_agent.Models.Target.{
  Environment, environment_eq, Platform, platform_eq, DatabaseTarget,
}
use numi_dba_agent.ServerReference.{normalize_server_reference}

-- The keys that the program reads of the `maintenance_window` dict.
pub record MaintenanceWindow : Type 0 where
  pub timezone : Option String
  pub start : Option String
  pub end : Option String

pub record DatabaseOverride : Type 0 where
  pub criticality : Option String
  pub classification : Option String
  pub allowed_roles : Option (List DbaRole)

pub record ServerEntry : Type 0 where
  pub id : String
  pub platform : Platform
  pub environment : Environment
  pub host : String
  pub port : ℕ
  pub aliases : List String
  pub organization : String
  pub region : String
  pub criticality : String
  pub classification : String
  pub owner : String
  pub support_team : String
  pub maintenance_window : MaintenanceWindow
  pub allowed_roles : List DbaRole
  pub database_overrides : Dict String DatabaseOverride
  pub status : String

pub record EffectivePolicy : Type 0 where
  pub criticality : String
  pub classification : String
  pub allowed_roles : List DbaRole

-- `a or b` of Python, for `a : str | None`
abbrev pub or_else : Option String → String → String
or_else none b = b
or_else (some a) b = if given (some a) then a else b

abbrev no_override : DatabaseOverride
no_override = record { criticality = none; classification = none; allowed_roles = none }

abbrev default_to {ℓ} : {A : Type ℓ} → A → Option A → A
default_to a none = a
default_to a (some b) = b

-- `effective_for`; every caller passes a string
unfoldable pub effective_for : ServerEntry → String → EffectivePolicy
effective_for server database =
    let o = default_to no_override (Dict.get server.database_overrides database) in
    record {
      criticality = or_else o.criticality server.criticality;
      classification = or_else o.classification server.classification;
      allowed_roles = default_to server.allowed_roles o.allowed_roles;
    }

-- the hint names the server in full
unfoldable pub matches_exactly : String → ServerEntry → Bool
matches_exactly needle e =
    let normalized = normalize_server_reference needle in
    lower e.id == needle
    || any (λ a. lower a == needle) e.aliases
    || lower e.host == needle
    || normalize_server_reference e.id == normalized
    || any (λ a. normalize_server_reference a == normalized) e.aliases

-- the hint is part of one of the server's names
unfoldable pub matches_partly : String → ServerEntry → Bool
matches_partly needle e =
    let normalized = normalize_server_reference needle in
    is_in needle (lower e.id)
    || any (λ a. is_in needle (lower a)) e.aliases
    || is_in needle (lower e.host)
    || is_in normalized (normalize_server_reference e.id)
    || any (λ a. is_in normalized (normalize_server_reference a)) e.aliases

-- one round of the loop over `(target.instance, target.cluster)`
unfoldable pub narrow_by_hint : Option String → List ServerEntry → List ServerEntry
narrow_by_hint none candidates = candidates
narrow_by_hint (some hint) candidates =
    let needle = lower (strip hint) in
    let exact = filter (matches_exactly needle) candidates in
    let partial = filter (matches_partly needle) candidates in
    if given (some hint) then (if is_empty exact then partial else exact) else candidates

unfoldable pub is_eligible : DatabaseTarget → ServerEntry → Bool
is_eligible target e = e.environment == target.environment && e.status == "active"

unfoldable pub narrow_by_platform : Option Platform → List ServerEntry → List ServerEntry
narrow_by_platform none candidates = candidates
narrow_by_platform (some platform) candidates =
    filter (λ (e : ServerEntry). e.platform == platform) candidates

abbrev is_plural : List ServerEntry → Bool
is_plural (a ∷ b ∷ rest) = true
is_plural _ = false

abbrev named_for : String → ServerEntry → Bool
named_for needle e = any (λ a. is_in needle (lower a)) e.aliases || is_in needle (lower e.id)

-- a database's name narrows only where some server's names hold it
unfoldable pub narrow_by_database : Option String → List ServerEntry → List ServerEntry
narrow_by_database none candidates = candidates
narrow_by_database (some database) candidates =
    let narrowed = filter (named_for (lower (strip database))) candidates in
    if given (some database) && is_plural candidates
    then (if is_empty narrowed then candidates else narrowed)
    else candidates

unfoldable pub find_candidates : List ServerEntry → DatabaseTarget → List ServerEntry
find_candidates entries target = narrow_by_database target.database (
    narrow_by_hint target.cluster (
      narrow_by_hint target.instance_name
        (narrow_by_platform target.platform (filter (is_eligible target) entries))))

pub data ResolveError : Type 0 where
  lookup_error : ResolveError
  ambiguous_server : List ServerEntry → ResolveError

abbrev only_one : List ServerEntry → Result ResolveError ServerEntry
only_one [] = err lookup_error
only_one (e ∷ []) = ok e
only_one (a ∷ b ∷ rest) = err (ambiguous_server (a ∷ b ∷ rest))

unfoldable pub resolve : List ServerEntry → DatabaseTarget → Result ResolveError ServerEntry
resolve entries target = only_one (find_candidates entries target)

-- `by_id`
unfoldable pub by_id : List ServerEntry → String → Option ServerEntry
by_id [] server_id = none
by_id (e ∷ es) server_id = if e.id == server_id then some e else by_id es server_id
