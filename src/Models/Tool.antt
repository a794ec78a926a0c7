-- ===== src/Models/Tool.antt =====
-- common/models/tool.py
use numi_dba_agent.Common.{ℕ, String, Bool, Option, List, Eq}
use numi_dba_agent.Common.Dict.{Dict}
use numi_dba_agent.Models.Failures.{FailureCode}
use numi_dba_agent.Models.Identity.{DbaRole}
use numi_dba_agent.Models.Json.{Json, Arguments}
use numi_dba_agent.Models.Risk.{RiskLevel, RiskAssessment}
use numi_dba_agent.Models.Target.{Environment}

pub data OperationType : Type 0 where
  read write privileged : OperationType

unfoldable pub OperationType-discrete : Discrete OperationType
OperationType-discrete = hlevel

instance abbrev pub operation_type_eq : Eq OperationType
operation_type_eq = record { dec = OperationType-discrete }

pub record ToolDefinition : Type 0 where
  pub tool_id : String
  pub version : String
  pub description : String
  pub operation_type : OperationType
  pub risk_level : RiskLevel
  pub reversible : Bool
  pub availability_impact : Bool
  pub data_modification : Bool
  pub requires_approval : Bool
  pub allowed_roles : List DbaRole
  pub allowed_environments : List Environment
  pub required_target_scope : List String
  pub argument_schema : Json
  pub result_schema : Json
  pub max_execution_time : ℕ
  pub max_result_rows : ℕ
  pub audit_required : Bool
  pub enabled : Bool
  pub requires_change_ticket : Bool
  pub requires_dual_approval : Bool

-- Untrusted until validated. `arguments` and `target` are still raw JSON objects.
pub record ToolCallRequest : Type 0 where
  pub tool_id : String
  pub tool_version : Option String
  pub arguments : Arguments
  pub target : Arguments
  pub reason : String
  pub conversation_id : String
  pub investigation_id : Option String
  pub request_id : String
  pub channel : String
  pub channel_account_id : String
  pub approval_id : Option String
  pub change_id : Option String

pub data ToolCallStatus : Type 0 where
  executed approval_required denied failed : ToolCallStatus

-- The `result` dict of an executed call.
pub record ToolCallResult : Type 0 where
  pub columns : List String
  pub rows : List (Dict String Json)
  pub row_count : ℕ
  pub truncated : Bool
  pub masked_fields : List String
  pub literal_scrubbed_fields : List String
  pub affected : Arguments

-- `message`, the prose for the DBA, is left out.
pub record ToolCallResponse : Type 0 where
  pub status : ToolCallStatus
  pub execution_id : Option String
  pub approval_id : Option String
  pub result : Option ToolCallResult
  pub failure_code : Option FailureCode
  pub risk : Option RiskAssessment
  pub policy_decision : Option String
