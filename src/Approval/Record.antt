-- ===== src/Approval/Record.antt =====
-- gateway/domain/approval.py: what the approval engine stores (ApprovalRecord and
-- ApprovalEventRecord of gateway/infrastructure/db/models.py) and what it hashes. Times are
-- microseconds since the epoch, UTC, as `_naive_utc` makes them.
use numi_dba_agent.Common.{ℕ, String, Bool, Option, List, Eq}
use numi_dba_agent.Common.Dict.{Dict}
use numi_dba_agent.Models.Identity.{VerifiedIdentity}
use numi_dba_agent.Models.Json.{Arguments}
use numi_dba_agent.Models.Risk.{RiskAssessment}
use numi_dba_agent.Models.Target.{DatabaseTarget, Environment}
use numi_dba_agent.Approval.Canonical.{Action, canonical}
use numi_dba_agent.Models.Tool.{ToolDefinition}

pub data ApprovalStatus : Type 0 where
  pending awaiting_second_approval approved rejected expired executed : ApprovalStatus

pub ApprovalStatus-discrete : Discrete ApprovalStatus
ApprovalStatus-discrete = hlevel

instance abbrev pub approval_status_eq : Eq ApprovalStatus
approval_status_eq = record { dec = ApprovalStatus-discrete }

pub data ApprovalDecision : Type 0 where
  approve reject : ApprovalDecision

pub record ApprovalContext : Type 0 where
  pub request_id : String
  pub actor : VerifiedIdentity
  pub tool : ToolDefinition
  pub target : DatabaseTarget
  pub normalized_arguments : Arguments
  pub environment : Environment
  pub database_id : String
  pub risk : RiskAssessment

-- what is hashed of a context
unfoldable pub action_of : ApprovalContext → Action
action_of ctx = record {
  actor = ctx.actor.subject_id;
  tool_id = ctx.tool.tool_id;
  tool_version = ctx.tool.version;
  target = ctx.target;
  arguments = ctx.normalized_arguments;
  environment = ctx.environment;
  database_id = ctx.database_id;
  risk_level = ctx.risk.risk_level;
}

-- `digest` is SHA-256 of an action's JSON, in hexadecimal.
unfoldable pub action_hash : (Action → String) → ApprovalContext → String
unfolding canonical
action_hash digest ctx = digest (canonical (action_of ctx))

pub record ApprovalRecord : Type 0 where
  pub approval_id : String
  pub request_id : String
  pub actor_subject_id : String
  pub tool_id : String
  pub tool_version : String
  pub target : DatabaseTarget
  pub normalized_arguments : Arguments
  pub risk : RiskAssessment
  pub policy_database_id : String  -- `policy["database_id"]`
  pub policy_environment : Environment  -- `policy["environment"]`
  pub action_hash : String
  pub requires_dual_approval : Bool
  pub approver_1_subject_id : Option String
  pub approver_2_subject_id : Option String
  pub status : ApprovalStatus
  pub created_at : ℕ
  pub expires_at : ℕ
  pub decided_at : Option ℕ

-- The free-form `detail` is left out.
pub record ApprovalEvent : Type 0 where
  pub approval_id : String
  pub event_type : String
  pub actor_subject_id : String
  pub created_at : ℕ

pub record ApprovalStore : Type 0 where
  pub approvals : Dict String ApprovalRecord
  pub approval_events : List ApprovalEvent
