-- ===== src/ToolCatalog/Writes.antt =====
-- gateway/domain/tool_catalog.py: the controlled and the restricted tools of `build_tool_catalog`.
use numi_dba_agent.Common.{Bool, true, false, none, some, List, [], ◌∷◌, ◌++◌}
use numi_dba_agent.Models.Identity.{dba_l3, dba_manager}
use numi_dba_agent.Models.Risk.{low, medium, high, critical}
use numi_dba_agent.Models.Tool.{ToolDefinition}
use numi_dba_agent.ToolCatalog.Builders.{
  Schemas, advanced_roles, write_tool, restricted_tool, cancel_query_args, kill_session_args,
  update_statistics_args, create_index_args, rebuild_index_args, modify_configuration_args,
  restart_instance_args, failover_args, read_only_sql_args, execute_sql_args, restore_database_args,
  create_database_args, drop_database_args, truncate_table_args, bulk_delete_args,
}

-- the switches that common/config.py reads from the environment
pub record Settings : Type 0 where
  pub enable_readonly_sql_tool : Bool
  pub enable_execute_sql_tool : Bool
  pub enable_restore_database_tool : Bool
  pub enable_create_database_tool : Bool
  pub enable_drop_database_tool : Bool
  pub enable_truncate_table_tool : Bool
  pub enable_bulk_delete_tool : Bool

unfoldable pub write_tools : Schemas → List ToolDefinition
unfolding write_tool
write_tools schema =
    write_tool schema "database.cancel_query"
      "Cancel (soft-abort) a single running query without dropping the session." cancel_query_args
      low true false ("environment" ∷ "instance" ∷ "database" ∷ "session_id" ∷ []) false none
    ∷ write_tool schema "database.kill_session" "Terminate a database session." kill_session_args
        medium false true ("environment" ∷ "instance" ∷ "database" ∷ "session_id" ∷ []) false none
    ∷ write_tool schema "database.update_statistics" "Refresh optimizer statistics for a table."
        update_statistics_args low true false
        ("environment" ∷ "instance" ∷ "database" ∷ "schema_name" ∷ "object_name" ∷ []) false none
    ∷ write_tool schema "database.create_index" "Create a new index on a table." create_index_args
        medium true true
        ("environment" ∷ "instance" ∷ "database" ∷ "schema_name" ∷ "object_name" ∷ []) false none
    ∷ write_tool schema "database.rebuild_index" "Rebuild an existing index." rebuild_index_args
        medium true true
        ("environment" ∷ "instance" ∷ "database" ∷ "schema_name" ∷ "object_name" ∷ []) false none
    ∷ write_tool schema "database.modify_configuration"
        "Change a server/database configuration parameter." modify_configuration_args high true true
        ("environment" ∷ "instance" ∷ "database" ∷ []) false (some advanced_roles)
    ∷ write_tool schema "database.restart_instance" "Restart a database instance."
        restart_instance_args critical false true ("environment" ∷ "instance" ∷ []) true
        (some (advanced_roles ++ dba_manager ∷ []))
    ∷ write_tool schema "database.failover"
        "Force a cluster/Always On failover to another instance." failover_args critical false true
        ("environment" ∷ "cluster" ∷ []) true (some (dba_l3 ∷ dba_manager ∷ []))
    ∷ []

unfoldable pub restricted_tools : Schemas → Settings → List ToolDefinition
unfolding restricted_tool
restricted_tools schema settings =
    restricted_tool schema "database.execute_readonly_sql"
      "Execute a parsed, validated, single read-only statement. Disabled by default."
      read_only_sql_args settings.enable_readonly_sql_tool medium true
    ∷ restricted_tool schema "database.execute_sql"
        "Execute arbitrary SQL. Disabled by default and NOT recommended to enable." execute_sql_args
        settings.enable_execute_sql_tool critical false
    ∷ restricted_tool schema "database.restore_database"
        "Restore a database from backup. Disabled by default." restore_database_args
        settings.enable_restore_database_tool critical false
    ∷ restricted_tool schema "database.create_database"
        "Create a new database. Disabled by default." create_database_args
        settings.enable_create_database_tool critical false
    ∷ restricted_tool schema "database.drop_database" "Drop a database. Disabled by default."
        drop_database_args settings.enable_drop_database_tool critical false
    ∷ restricted_tool schema "database.truncate_table" "Truncate a table. Disabled by default."
        truncate_table_args settings.enable_truncate_table_tool critical false
    ∷ restricted_tool schema "database.bulk_delete"
        "Bulk-delete rows matching a predicate. Disabled by default." bulk_delete_args
        settings.enable_bulk_delete_tool critical false
    ∷ []
