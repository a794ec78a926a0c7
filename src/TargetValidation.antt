-- ===== src/TargetValidation.antt =====
-- gateway/domain/target_validation.py
pub mod Located
use numi_dba_agent.Common.{
  String, Bool, not, ◌&&◌, Option, none, some, List, [], ◌∷◌, ◌==◌, contains, string_eq, filter,
  is_empty, map, if◌then◌else◌,
}
use numi_dba_agent.Common.Dict
use numi_dba_agent.Common.Dict.{Dict}
use numi_dba_agent.Common.Exec.{Result, ok, err}
use numi_dba_agent.Common.Text.{lower, strip}
use numi_dba_agent.Models.Catalog.{
  DiscoveredObject, DiscoveredDatabase, ServerCatalog, catalog_database,
}
use numi_dba_agent.Models.Failures.{Error, numi_error, invalid_target}
use numi_dba_agent.Models.Identity.{DbaRole}
use numi_dba_agent.Models.Json.{given}
use numi_dba_agent.Models.Target.{DatabaseTarget, environment_value}
use numi_dba_agent.Servers.{ServerEntry, ResolveError, or_else, effective_for, resolve}

pub record TargetContext : Type 0 where
  pub target : DatabaseTarget
  pub server : ServerEntry
  pub database : String
  pub criticality : String
  pub classification : String
  pub allowed_roles : List DbaRole
  pub discovered_database : Option DiscoveredDatabase

-- `_FIELD_ALIASES.get(name, name)`
abbrev field_alias : String → String
field_alias name =
    if name == "schema" then "schema_name" else if name == "object" then "object_name" else name

-- the dict `effective` of `_check_required_fields`
abbrev effective_fields : DatabaseTarget → ServerEntry → String → Dict String (Option String)
effective_fields target server database =
    ("environment", some (environment_value target.environment))
    ∷ ("instance", some (or_else target.instance_name server.id))
    ∷ ("cluster", some (or_else target.cluster server.id))
    ∷ ("database", some database)
    ∷ ("schema_name", target.schema_name)
    ∷ ("object_name", target.object_name)
    ∷ ("session_id", target.session_id)
    ∷ ("query_id", target.query_id)
    ∷ []

abbrev flat : Option (Option String) → Option String
flat none = none
flat (some v) = v

unfoldable pub is_missing : DatabaseTarget → ServerEntry → String → String → Bool
is_missing target server database name =
    not (given (flat (Dict.get (effective_fields target server database) (field_alias name))))

unfoldable pub check_required_fields :
    DatabaseTarget → ServerEntry → String → List String → Result Error (Unit {0})
check_required_fields target server database required_scope =
    if is_empty (filter (is_missing target server database) required_scope)
    then ok tt
    else err (numi_error invalid_target)

-- step 2: the name of the database, in the catalog's spelling, and its entry
unfoldable pub locate_database :
    Option ServerCatalog → String → List String → Result Error (String × Option DiscoveredDatabase)
locate_database none database required_scope = ok (database, none)
locate_database (some catalog) database required_scope =
    if is_empty catalog.databases
    then ok (database, none)
    else if database == ""
    then (if contains required_scope "database"
        then err (numi_error invalid_target)
        else ok (database, none))
    else elim (catalog_database catalog database) [
      | none ↦ err (numi_error invalid_target)
      | some d ↦ ok (d.name, some d)
    ]

-- step 4
unfoldable pub check_object : Option DiscoveredDatabase → Option String → Result Error (Unit {0})
check_object none object_name = ok tt
check_object (some d) none = ok tt
check_object (some d) (some name) =
    let object_names = map (λ (o : DiscoveredObject). lower o.name) d.objects in
    if given (some name) && not (is_empty object_names) && not (contains object_names (lower name))
    then err (numi_error invalid_target)
    else ok tt

abbrev resolved : Result ResolveError ServerEntry → Result Error ServerEntry
resolved (ok server) = ok server
resolved (err e) = err (numi_error invalid_target)

infixl 5 ◌>>=◌ ◌>>◌
abbrev ◌>>=◌ : {A B : Type 0} → Result Error A → (A → Result Error B) → Result Error B
ok a >>= f = f a
err e >>= f = err e

abbrev ◌>>◌ : {B : Type 0} → Result Error (Unit {0}) → Result Error B → Result Error B
m >> k = m >>= λ _. k

-- `validate`; `catalog_of` reads the catalog store.
unfoldable pub validate :
    List ServerEntry
    → (String → Option ServerCatalog)
    → DatabaseTarget
    → List String
    → Result Error TargetContext
validate entries catalog_of target required_scope = do
  server ← resolved (resolve entries target)
  located ←
      locate_database (catalog_of server.id) (strip (or_else target.database "")) required_scope
  check_required_fields target server located.0 required_scope
  check_object located.1 target.object_name
  let eff = effective_for server located.0
  ok (record {
    target = target;
    server = server;
    database = located.0;
    criticality = eff.criticality;
    classification = eff.classification;
    allowed_roles = eff.allowed_roles;
    discovered_database = located.1;
  })
