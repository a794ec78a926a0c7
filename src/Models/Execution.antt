-- ===== src/Models/Execution.antt =====
-- common/models/execution.py
use numi_dba_agent.Common.{ℕ, String, Bool, Option, List}
use numi_dba_agent.Common.Dict.{Dict}
use numi_dba_agent.Models.Json.{Json, Arguments}
use numi_dba_agent.Models.Target.{Platform}

pub record ExecutionRequest : Type 0 where
  pub execution_id : String
  pub tool_id : String
  pub tool_version : String
  pub platform : Platform
  pub server_id : String
  pub database : String
  pub schema_name : Option String
  pub object_name : Option String
  pub session_id : Option String
  pub query_id : Option String
  pub arguments : Arguments
  pub max_execution_time : ℕ
  pub max_result_rows : ℕ

pub record DiscoveryRequest : Type 0 where
  pub server_id : String
  pub platform : Platform
  pub max_objects_per_database : ℕ

pub record ExecutionResult : Type 0 where
  pub execution_id : String
  pub success : Bool
  pub columns : List String
  pub rows : List (Dict String Json)
  pub row_count : ℕ
  pub truncated : Bool
  pub affected : Arguments
  pub error_code : Option String
  pub error_detail : Option String
  pub verification_status : String
  pub verification_detail : String
  pub duration_ms : ℕ
