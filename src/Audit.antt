-- ===== src/Audit.antt =====
-- gateway/domain/audit.py: the two logs that only grow.
use numi_dba_agent.Common.{String, Option, List, [], ◌∷◌, ◌++◌}
use numi_dba_agent.Models.Failures.{FailureCode}
use numi_dba_agent.Models.Json.{Arguments}
use numi_dba_agent.Models.Risk.{RiskAssessment}
use numi_dba_agent.Models.Target.{DatabaseTarget}

-- a refused call is logged with the target as it was sent
pub data AuditTarget : Type 0 where
  raw : Arguments → AuditTarget
  parsed : DatabaseTarget → AuditTarget

-- `duration_ms`, `channel` and `agent_version`, which no decision reads, are left out.
pub record AuditEvent : Type 0 where
  pub event_type : String
  pub conversation_id : String
  pub request_id : String
  pub investigation_id : String
  pub actor_subject_id : String
  pub tool_id : String
  pub tool_version : String
  pub target : Option AuditTarget
  pub arguments_hash : String
  pub policy_decision : String
  pub risk : Option RiskAssessment
  pub approval_id : Option String
  pub execution_result : String
  pub error_code : Option FailureCode

pub record SecurityEvent : Type 0 where
  pub event_type : String
  pub actor_subject_id : String
  pub tool_id : String
  pub severity : String

pub record AuditLog : Type 0 where
  pub audit_events : List AuditEvent
  pub security_events : List SecurityEvent

-- `AuditLog.record`
unfoldable pub record_event : AuditEvent → AuditLog → AuditLog
record_event e log = record log { audit_events = log.audit_events ++ e ∷ [] }

unfoldable pub record_security_event : SecurityEvent → AuditLog → AuditLog
record_security_event e log = record log { security_events = log.security_events ++ e ∷ [] }
