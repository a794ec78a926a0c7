-- ===== src/Tests/Samples.antt =====
-- A small installation: two DBAs, a read tool and a write tool, one production server.
use numi_dba_agent.Common.{
  ℕ, String, Bool, true, false, Option, none, some, List, [], ◌∷◌, ◌==◌, string_eq,
}
use numi_dba_agent.Common.Exec.{ok}
use numi_dba_agent.Models.Execution.{ExecutionRequest, ExecutionResult}
use numi_dba_agent.Models.Identity.{VerifiedIdentity, DbaRole, dba_l1, dba_l2, dba_l3, dba_manager}
use numi_dba_agent.Models.Json.{null, str}
use numi_dba_agent.Models.Risk.{RiskLevel, low, medium, RiskAssessment, single_session}
use numi_dba_agent.Models.Target.{DatabaseTarget, development, production, uat, postgresql}
use numi_dba_agent.Models.Tool.{OperationType, read, write, ToolDefinition, ToolCallRequest}
use numi_dba_agent.Approval.Canonical.{Action}
use numi_dba_agent.Approval.Record.{ApprovalRecord, ApprovalStore, ApprovalStatus}
use numi_dba_agent.DataPolicy.{DataPolicyConfig}
use numi_dba_agent.Policy.{PolicyEngine, allow, deny, requires_approval}
use numi_dba_agent.RateLimit.{Tier, Limits, Key}
use numi_dba_agent.RateLimit.Backend.{RateLimitBackend}
use numi_dba_agent.Servers.{ServerEntry}
use numi_dba_agent.TargetValidation.{TargetContext}
use numi_dba_agent.Handler.State.{Gateway, Surroundings, GatewayState}

abbrev pub person : String → List DbaRole → VerifiedIdentity
person id roles = record {
  subject_id = id;
  email = "";
  display_name = "";
  enterprise_groups = [];
  dba_roles = roles;
  mfa_satisfied = true;
  authenticated_at = "";
}

abbrev pub ana : VerifiedIdentity
ana = person "ana" (dba_l2 ∷ dba_l3 ∷ [])

abbrev pub bob : VerifiedIdentity
bob = person "bob" (dba_manager ∷ [])

abbrev pub carol : VerifiedIdentity
carol = person "carol" (dba_l3 ∷ [])

abbrev tool : String → OperationType → RiskLevel → Bool → ToolDefinition
tool id operation level writes = record {
  tool_id = id;
  version = "1.0.0";
  description = "";
  operation_type = operation;
  risk_level = level;
  reversible = true;
  availability_impact = writes;
  data_modification = writes;
  requires_approval = writes;
  allowed_roles = dba_l1 ∷ dba_l2 ∷ dba_l3 ∷ dba_manager ∷ [];
  allowed_environments = development ∷ uat ∷ production ∷ [];
  required_target_scope = "environment" ∷ "instance" ∷ [];
  argument_schema = null;
  result_schema = null;
  max_execution_time = 30;
  max_result_rows = 100;
  audit_required = true;
  enabled = true;
  requires_change_ticket = false;
  requires_dual_approval = false;
}

abbrev pub get_health : ToolDefinition
get_health = tool "database.get_health" read low false

abbrev pub kill_session : ToolDefinition
kill_session = tool "database.kill_session" write medium true

abbrev pub server : ServerEntry
server = record {
  id = "pg-prod-01";
  platform = postgresql;
  environment = production;
  host = "10.1.3.7";
  port = 5432;
  aliases = "core" ∷ [];
  organization = "";
  region = "";
  criticality = "critical";
  classification = "internal";
  owner = "";
  support_team = "";
  maintenance_window = record { timezone = none; start = some "02:00"; end = some "04:00" };
  allowed_roles = dba_l2 ∷ dba_l3 ∷ dba_manager ∷ [];
  database_overrides = [];
  status = "active";
}

abbrev pub target : DatabaseTarget
target = record {
  environment = production;
  platform = none;
  cluster = none;
  instance_name = some "PG Prod 1";
  database = none;
  schema_name = none;
  object_name = none;
  session_id = some "9182";
  query_id = none;
}

abbrev pub context : TargetContext
context = record {
  target = target;
  server = server;
  database = "";
  criticality = "critical";
  classification = "internal";
  allowed_roles = server.allowed_roles;
  discovered_database = none;
}

abbrev pub policy : PolicyEngine
policy = record {
  default_decision = deny;
  table =
      (
        "production",
        ("database.get_health", ("DBA_L2", allow) ∷ ("DBA_L3", allow) ∷ [])
            ∷ ("database.kill_session", ("DBA_L3", requires_approval) ∷ [])
            ∷ [],
      )
      ∷ [];
  change_ticket_required = [];
  dual_approval_required = [];
}

abbrev pub sensitive : String → Bool
sensitive name = name == "password"

abbrev pub data_policy : DataPolicyConfig
data_policy = record {
  is_sensitive = sensitive;
  is_free_text_sql = λ name. name == "query";
  scrub = λ dialect text. "<redacted>";
  field_allowlist = none;
  field_denylist = "internal" ∷ [];
  max_rows = 100;
  max_columns = 2;
}

-- a backend that counts every call and refuses none
abbrev pub open_backend : RateLimitBackend Key ℕ
open_backend = record { increment_and_check = λ key limit window now n. (true, n) }

abbrev limits : Limits
limits = record {
  per_user_per_minute = 10;
  per_conversation_per_minute = 10;
  per_tool_per_minute = 10;
  per_database_per_minute = 10;
  per_environment_per_minute = 10;
}

abbrev pub limits_of : Tier → Limits
limits_of tier = limits

-- a stand-in for the hash, which reads the session only
abbrev pub digest : Action → String
digest a = elim a.target.session_id [ none ↦ "" | some s ↦ s ]

abbrev pub gateway : Gateway ℕ
gateway = record {
  tools = ("database.get_health", get_health) ∷ ("database.kill_session", kill_session) ∷ [];
  argument_models =
      ("database.get_health", λ args. some args)
      ∷ ("database.kill_session", λ args. some args)
      ∷ [];
  parse_target = λ raw. some target;
  model_copy = λ t updates. t;
  servers = server ∷ [];
  discovery = none;
  validate_sql = λ dialect sql rows. ok sql;
  limits_of = limits_of;
  backend = open_backend;
  policy = policy;
  zones = λ name now. none;
  digest = digest;
  digest_arguments = λ args. "";
  sort = λ names. names;
  data_policy = data_policy;
}

abbrev rows_of : ExecutionRequest → Option ExecutionResult
rows_of request = some (record {
  execution_id = request.execution_id;
  success = true;
  columns = "name" ∷ "password" ∷ [];
  rows = (("name", str "x") ∷ ("password", str "y") ∷ []) ∷ [];
  row_count = 1;
  truncated = false;
  affected = [];
  error_code = none;
  error_detail = none;
  verification_status = "NOT_APPLICABLE";
  verification_detail = "";
  duration_ms = 0;
})

abbrev pub surroundings : Surroundings
surroundings = record {
  discovered_at = 0;
  counted_at = 0;
  evaluated_at = 10800000000;
  approval_at = 5;
  consumed_at = 6;
  approval_id = "appr_1";
  execution_id = "exec_1";
  discover = λ request. none;
  execute = rows_of;
}

abbrev pub empty_store : ApprovalStore
empty_store = record { approvals = []; approval_events = [] }

abbrev pub start : GatewayState ℕ
start = record {
  approvals = empty_store;
  log = record { audit_events = []; security_events = [] };
  buckets = 0;
  catalogs = [];
  executions = [];
}

abbrev pub call : String → Option String → ToolCallRequest
call tool_id approval_id = record {
  tool_id = tool_id;
  tool_version = none;
  arguments = [];
  target = [];
  reason = "";
  conversation_id = "c";
  investigation_id = none;
  request_id = "r";
  channel = "slack";
  channel_account_id = "U1";
  approval_id = approval_id;
  change_id = none;
}

abbrev pub assessment : RiskAssessment
assessment = record {
  risk_level = medium;
  score = 50;
  blast_radius = single_session;
  reversible = true;
  availability_impact = true;
  reason_codes = [];
}

abbrev pub approval_for : Bool → ApprovalStatus → ApprovalRecord
approval_for dual status = record {
  approval_id = "appr_1";
  request_id = "r";
  actor_subject_id = "ana";
  tool_id = "database.kill_session";
  tool_version = "1.0.0";
  target = target;
  normalized_arguments = [];
  risk = assessment;
  policy_database_id = "pg-prod-01";
  policy_environment = production;
  action_hash = "9182";
  requires_dual_approval = dual;
  approver_1_subject_id = none;
  approver_2_subject_id = none;
  status = status;
  created_at = 0;
  expires_at = 600000000;
  decided_at = none;
}

abbrev pub store_with : ApprovalRecord → ApprovalStore
store_with r = record { approvals = ("appr_1", r) ∷ []; approval_events = [] }
