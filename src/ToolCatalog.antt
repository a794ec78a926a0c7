-- ===== src/ToolCatalog.antt =====
-- gateway/domain/tool_catalog.py: `build_tool_catalog` and the argument models of its tools.
pub mod Builders
pub mod Reads
pub mod Writes
pub mod Facts
use numi_dba_agent.Common.{String, List, [], ◌∷◌, ◌++◌}
use numi_dba_agent.Common.Dict.{Dict}
use numi_dba_agent.Models.Tool.{ToolDefinition}
use numi_dba_agent.ToolCatalog.Builders.{
  ArgumentModel, Schemas, no_args, query_plan_args, top_queries_args, error_log_args,
  cancel_query_args, kill_session_args, update_statistics_args, create_index_args,
  rebuild_index_args, modify_configuration_args, restart_instance_args, failover_args,
  read_only_sql_args, execute_sql_args, restore_database_args, create_database_args,
  drop_database_args, truncate_table_args, bulk_delete_args,
}
use numi_dba_agent.ToolCatalog.Reads.{read_tools}
use numi_dba_agent.ToolCatalog.Writes.{Settings, write_tools, restricted_tools}

-- `ARGUMENT_MODELS`
unfoldable pub argument_models : Dict String ArgumentModel
argument_models =
    ("database.get_health", no_args)
    ∷ ("database.get_version", no_args)
    ∷ ("database.get_sessions", no_args)
    ∷ ("database.get_blocking_sessions", no_args)
    ∷ ("database.get_deadlocks", no_args)
    ∷ ("database.get_running_queries", no_args)
    ∷ ("database.get_wait_statistics", no_args)
    ∷ ("database.get_query_plan", query_plan_args)
    ∷ ("database.get_top_queries", top_queries_args)
    ∷ ("database.get_indexes", no_args)
    ∷ ("database.get_statistics", no_args)
    ∷ ("database.get_tables", no_args)
    ∷ ("database.get_storage", no_args)
    ∷ ("database.get_transaction_log", no_args)
    ∷ ("database.get_replication_status", no_args)
    ∷ ("database.get_backup_status", no_args)
    ∷ ("database.get_configuration", no_args)
    ∷ ("database.get_error_logs", error_log_args)
    ∷ ("database.cancel_query", cancel_query_args)
    ∷ ("database.kill_session", kill_session_args)
    ∷ ("database.update_statistics", update_statistics_args)
    ∷ ("database.create_index", create_index_args)
    ∷ ("database.rebuild_index", rebuild_index_args)
    ∷ ("database.modify_configuration", modify_configuration_args)
    ∷ ("database.restart_instance", restart_instance_args)
    ∷ ("database.failover", failover_args)
    ∷ ("database.execute_readonly_sql", read_only_sql_args)
    ∷ ("database.execute_sql", execute_sql_args)
    ∷ ("database.restore_database", restore_database_args)
    ∷ ("database.create_database", create_database_args)
    ∷ ("database.drop_database", drop_database_args)
    ∷ ("database.truncate_table", truncate_table_args)
    ∷ ("database.bulk_delete", bulk_delete_args)
    ∷ []

unfoldable pub build_tool_catalog : Schemas → Settings → List ToolDefinition
unfolding read_tools write_tools restricted_tools
build_tool_catalog schema settings =
    read_tools schema ++ (write_tools schema ++ restricted_tools schema settings)
