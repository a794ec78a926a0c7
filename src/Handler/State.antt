-- ===== src/Handler/State.antt =====
-- gateway/domain/tool_call_handler.py: what a handler is built from, and what its calls change.
use numi_dba_agent.Common.{ℕ, String, Option, List}
use numi_dba_agent.Common.Dict.{Dict}
use numi_dba_agent.Common.Exec.{Exec, Result}
use numi_dba_agent.Models.Catalog.{ServerCatalog}
use numi_dba_agent.Models.Execution.{DiscoveryRequest, ExecutionRequest, ExecutionResult}
use numi_dba_agent.Models.Failures.{Error}
use numi_dba_agent.Models.Json.{Arguments}
use numi_dba_agent.Models.Target.{DatabaseTarget}
use numi_dba_agent.Approval.Canonical.{Action}
use numi_dba_agent.Approval.Record.{ApprovalStore}
use numi_dba_agent.Approval.Engine.{Approving}
use numi_dba_agent.Audit.{AuditLog}
use numi_dba_agent.DataPolicy.{DataPolicyConfig}
use numi_dba_agent.Discovery.{Catalogs, DiscoverySettings}
use numi_dba_agent.Policy.{PolicyEngine}
use numi_dba_agent.Policy.Window.{TimeZones}
use numi_dba_agent.RateLimit.{Tier, Limits, Key}
use numi_dba_agent.RateLimit.Backend.{RateLimitBackend}
use numi_dba_agent.Servers.{ServerEntry}
use numi_dba_agent.ToolRegistry.{ToolTable}

-- `B` is the state of the rate limiter's backend. `parse_target`, `argument_models` and
-- `model_copy` are pydantic's validation and copying, `digest` and `digest_arguments` SHA-256 of
-- canonical JSON, `validate_sql` the checks of sql_validator.py, by dialect, text and row limit.
pub record Gateway (B : Type 0) : Type 0 where
  pub tools : ToolTable
  pub argument_models : Dict String (Arguments → Option Arguments)
  pub parse_target : Arguments → Option DatabaseTarget
  pub model_copy : DatabaseTarget → Arguments → DatabaseTarget
  pub servers : List ServerEntry
  pub discovery : Option DiscoverySettings
  pub validate_sql : String → String → ℕ → Result Error String
  pub limits_of : Tier → Limits
  pub backend : RateLimitBackend Key B
  pub policy : PolicyEngine
  pub zones : TimeZones
  pub digest : Action → String
  pub digest_arguments : Arguments → String
  pub sort : List String → List String
  pub data_policy : DataPolicyConfig

-- What one call meets: the clock's readings, the identifiers that are drawn, and the answers of the
-- Execution Service, where `none` stands for an exception on the way.
pub record Surroundings : Type 0 where
  pub discovered_at : ℕ
  pub counted_at : ℕ
  pub evaluated_at : ℕ
  pub approval_at : ℕ
  pub consumed_at : ℕ
  pub approval_id : String
  pub execution_id : String
  pub discover : DiscoveryRequest → Option ServerCatalog
  pub execute : ExecutionRequest → Option ExecutionResult

-- `executions` lists the requests sent to the Execution Service, in order.
pub record GatewayState (B : Type 0) : Type 0 where
  pub approvals : ApprovalStore
  pub log : AuditLog
  pub buckets : B
  pub catalogs : Catalogs
  pub executions : List ExecutionRequest

abbrev pub Handling : Type 0 → Type 0 → Type 0
Handling B = Exec Error (GatewayState B)

module _ {B : Type 0} where
  -- a method of the approval engine, on the handler's session
  abbrev pub on_approvals : {A : Type 0} → Approving A → Handling B A
  on_approvals m s = let (r, a) = m s.approvals in (r, record s { approvals = a })

  abbrev pub on_buckets : {A : Type 0} → Exec Error B A → Handling B A
  on_buckets m s = let (r, b) = m s.buckets in (r, record s { buckets = b })
