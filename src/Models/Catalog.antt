-- ===== src/Models/Catalog.antt =====
-- common/models/catalog.py
use numi_dba_agent.Common.{
  ℕ, String, Bool, Option, none, some, List, [], ◌∷◌, map, ◌==◌, string_eq, if◌then◌else◌,
}
use numi_dba_agent.Common.Text.{lower, strip}
use numi_dba_agent.Models.Json.{Arguments}

pub record DiscoveredObject : Type 0 where
  pub schema_name : String
  pub name : String
  pub kind : String
  pub row_estimate : Option ℕ
  pub size_bytes : Option ℕ
  pub properties : Arguments

pub record DiscoveredExtension : Type 0 where
  pub name : String
  pub installed_version : Option String
  pub default_version : Option String
  pub available : Bool

pub record DiscoveredDatabase : Type 0 where
  pub name : String
  pub state : String
  pub size_bytes : Option ℕ
  pub options : Arguments
  pub objects : List DiscoveredObject
  pub extensions : List DiscoveredExtension

pub record LeastPrivilegeFinding : Type 0 where
  pub checked : Bool
  pub login : String
  pub has_user_table_select : Bool
  pub granted_object_count : ℕ
  pub count_is_lower_bound : Bool
  pub sample_objects : List String
  pub scope_note : String

pub record ServerCatalog : Type 0 where
  pub server_id : String
  pub discovered_at : Option ℕ  -- microseconds since the epoch, UTC
  pub engine_version : String
  pub engine_edition : String
  pub instance_properties : Arguments
  pub databases : List DiscoveredDatabase
  pub warnings : List String
  pub least_privilege : Option LeastPrivilegeFinding

find_database : String → List DiscoveredDatabase → Option DiscoveredDatabase
unfolding string_eq
find_database lowered [] = none
find_database lowered (d ∷ ds) =
    if lower d.name == lowered then some d else find_database lowered ds

-- `ServerCatalog.database`
unfoldable pub catalog_database : ServerCatalog → String → Option DiscoveredDatabase
unfolding find_database lower strip
catalog_database catalog name = find_database (lower (strip name)) catalog.databases

unfoldable pub database_names : ServerCatalog → List String
database_names catalog = map (λ (d : DiscoveredDatabase). d.name) catalog.databases
