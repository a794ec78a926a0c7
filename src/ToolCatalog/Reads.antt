-- ===== src/ToolCatalog/Reads.antt =====
-- gateway/domain/tool_catalog.py: the read-only diagnostics of `build_tool_catalog`.
use numi_dba_agent.Common.{String, none, some, List, [], ◌∷◌}
use numi_dba_agent.Models.Tool.{ToolDefinition}
use numi_dba_agent.ToolCatalog.Builders.{
  Schemas, read_tool, error_log_args, no_args, query_plan_args, top_queries_args,
}

abbrev instance_wide_scope : List String
instance_wide_scope = "environment" ∷ "instance" ∷ []

unfoldable pub read_tools : Schemas → List ToolDefinition
unfolding read_tool
read_tools schema =
    read_tool schema "database.get_health" "Overall instance/database health snapshot." no_args
      (some instance_wide_scope) 100
    ∷ read_tool schema "database.get_version" "Engine version and edition/build info." no_args
        (some instance_wide_scope) 100
    ∷ read_tool schema "database.get_sessions" "Active session list." no_args
        (some instance_wide_scope) 100
    ∷ read_tool schema "database.get_blocking_sessions" "Current blocking chains." no_args
        (some instance_wide_scope) 100
    ∷ read_tool schema "database.get_deadlocks" "Recent deadlock graphs." no_args
        (some instance_wide_scope) 100
    ∷ read_tool schema "database.get_running_queries" "Currently executing queries." no_args
        (some instance_wide_scope) 100
    ∷ read_tool schema "database.get_wait_statistics" "Aggregated wait statistics." no_args
        (some instance_wide_scope) 100
    ∷ read_tool schema "database.get_query_plan" "Execution plan for a specific query id."
        query_plan_args (some ("environment" ∷ "instance" ∷ "database" ∷ "query_id" ∷ [])) 100
    ∷ read_tool schema "database.get_top_queries" "Top resource-consuming queries." top_queries_args
        none 100
    ∷ read_tool schema "database.get_indexes" "Index metadata for a schema/table." no_args
        (some ("environment" ∷ "instance" ∷ "database" ∷ "schema_name" ∷ "object_name" ∷ [])) 100
    ∷ read_tool schema "database.get_statistics" "Statistics metadata/staleness for a schema/table."
        no_args
        (some ("environment" ∷ "instance" ∷ "database" ∷ "schema_name" ∷ "object_name" ∷ [])) 100
    ∷ read_tool schema "database.get_tables" "Table inventory for a database." no_args none 100
    ∷ read_tool schema "database.get_storage" "Storage/space utilization." no_args
        (some instance_wide_scope) 100
    ∷ read_tool schema "database.get_transaction_log" "Transaction log / WAL usage." no_args none
        100
    ∷ read_tool schema "database.get_replication_status"
        "Replication / Always On / streaming status." no_args (some instance_wide_scope) 100
    ∷ read_tool schema "database.get_backup_status" "Recent backup history and status." no_args
        (some instance_wide_scope) 100
    ∷ read_tool schema "database.get_configuration" "Server/database configuration parameters."
        no_args (some instance_wide_scope) 100
    ∷ read_tool schema "database.get_error_logs" "Recent error log entries." error_log_args
        (some instance_wide_scope) 200
    ∷ []
