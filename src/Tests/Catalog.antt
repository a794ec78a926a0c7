-- ===== src/Tests/Catalog.antt =====
-- The catalog of tools with every restricted tool switched off.
use numi_dba_agent.Common.{false, All}
use numi_dba_agent.Models.Json.{null, str}
use numi_dba_agent.ToolCatalog.{build_tool_catalog}
use numi_dba_agent.ToolCatalog.Builders.{Schemas}
use numi_dba_agent.ToolCatalog.Facts.{IsGuarded, build_tool_catalog-IsGuarded}
use numi_dba_agent.ToolCatalog.Writes.{Settings}

abbrev pub schemas : Schemas
schemas = record { of_arguments = λ m. null; of_diagnostic = str "read"; of_write = str "write" }

abbrev pub switched_off : Settings
switched_off = record {
  enable_readonly_sql_tool = false;
  enable_execute_sql_tool = false;
  enable_restore_database_tool = false;
  enable_create_database_tool = false;
  enable_drop_database_tool = false;
  enable_truncate_table_tool = false;
  enable_bulk_delete_tool = false;
}

build_tool_catalog-IsGuarded_example :
    All (IsGuarded schemas switched_off) (build_tool_catalog schemas switched_off)
build_tool_catalog-IsGuarded_example = build_tool_catalog-IsGuarded schemas switched_off
