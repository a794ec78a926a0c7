-- ===== src/ToolCatalog/Builders.antt =====
-- gateway/domain/tool_catalog.py: the three ways in which a tool is defined. A tool's argument model is
-- a class of common/models/tool_arguments.py; the JSON schemas that pydantic writes are parameters.
use numi_dba_agent.Common.{ℕ, String, Bool, true, false, Option, none, some, List, [], ◌∷◌}
use numi_dba_agent.Models.Identity.{DbaRole, dba_l1, dba_l2, dba_l3, dba_manager}
use numi_dba_agent.Models.Json.{Json}
use numi_dba_agent.Models.Risk.{RiskLevel, low}
use numi_dba_agent.Models.Target.{Environment, development, uat, production}
use numi_dba_agent.Models.Tool.{read, write, privileged, ToolDefinition}

pub data ArgumentModel : Type 0 where
  no_args query_plan_args top_queries_args error_log_args cancel_query_args kill_session_args
        update_statistics_args create_index_args rebuild_index_args modify_configuration_args
        restart_instance_args failover_args read_only_sql_args execute_sql_args
        restore_database_args create_database_args drop_database_args truncate_table_args
        bulk_delete_args :
      ArgumentModel

-- `model_json_schema` of the argument models and of the two result models
pub record Schemas : Type 0 where
  pub of_arguments : ArgumentModel → Json
  pub of_diagnostic : Json
  pub of_write : Json

abbrev all_environments : List Environment
all_environments = development ∷ uat ∷ production ∷ []

abbrev all_roles : List DbaRole
all_roles = dba_l1 ∷ dba_l2 ∷ dba_l3 ∷ dba_manager ∷ []

abbrev write_roles : List DbaRole
write_roles = dba_l2 ∷ dba_l3 ∷ dba_manager ∷ []

abbrev pub advanced_roles : List DbaRole
advanced_roles = dba_l3 ∷ dba_manager ∷ []

-- `a or default`, for a list that is not empty
abbrev or_default {ℓ} : {A : Type ℓ} → A → Option A → A
or_default a none = a
or_default a (some b) = b

unfoldable pub read_tool :
    Schemas → String → String → ArgumentModel → Option (List String) → ℕ → ToolDefinition
read_tool schema tool_id description args_model required_scope max_result_rows = record {
  tool_id = tool_id;
  version = "1.0.0";
  description = description;
  operation_type = read;
  risk_level = low;
  reversible = true;
  availability_impact = false;
  data_modification = false;
  requires_approval = false;
  allowed_roles = all_roles;
  allowed_environments = all_environments;
  required_target_scope = or_default ("environment" ∷ "instance" ∷ "database" ∷ []) required_scope;
  argument_schema = schema.of_arguments args_model;
  result_schema = schema.of_diagnostic;
  max_execution_time = 30;
  max_result_rows = max_result_rows;
  audit_required = true;
  enabled = true;
  requires_change_ticket = false;
  requires_dual_approval = false;
}

-- Every tool of the catalog that is made with it is enabled.
unfoldable pub write_tool :
    Schemas
    → String
    → String
    → ArgumentModel
    → RiskLevel
    → Bool
    → Bool
    → List String
    → Bool
    → Option (List DbaRole)
    → ToolDefinition
write_tool schema tool_id description args_model risk_level reversible availability_impact
      required_scope dual roles =
    record {
      tool_id = tool_id;
      version = "1.0.0";
      description = description;
      operation_type = write;
      risk_level = risk_level;
      reversible = reversible;
      availability_impact = availability_impact;
      data_modification = true;
      requires_approval = true;
      allowed_roles = or_default write_roles roles;
      allowed_environments = all_environments;
      required_target_scope = required_scope;
      argument_schema = schema.of_arguments args_model;
      result_schema = schema.of_write;
      max_execution_time = 60;
      max_result_rows = 1;
      audit_required = true;
      enabled = true;
      requires_change_ticket = false;
      requires_dual_approval = dual;
    }

unfoldable pub restricted_tool :
    Schemas → String → String → ArgumentModel → Bool → RiskLevel → Bool → ToolDefinition
restricted_tool schema tool_id description args_model enabled risk_level reversible = record {
  tool_id = tool_id;
  version = "1.0.0";
  description = description;
  operation_type = privileged;
  risk_level = risk_level;
  reversible = reversible;
  availability_impact = true;
  data_modification = true;
  requires_approval = true;
  allowed_roles = advanced_roles;
  allowed_environments = all_environments;
  required_target_scope = "environment" ∷ "instance" ∷ "database" ∷ [];
  argument_schema = schema.of_arguments args_model;
  result_schema = schema.of_write;
  max_execution_time = 30;
  max_result_rows = 100;
  audit_required = true;
  enabled = enabled;
  requires_change_ticket = false;
  requires_dual_approval = true;
}
