-- ===== src/Handler/Admission.antt =====
-- gateway/domain/tool_call_handler.py: what has been checked of a call that passes steps 1 to 7, and
-- what these steps leave alone.
use numi_dba_agent.Common.{◌≡◌, refl, List, string_eq, arith}
use numi_dba_agent.Common.Exec.{ok}
use numi_dba_agent.Common.Exec.Rules.{Leaves, leaves_rules}
use numi_dba_agent.Models.Execution.{ExecutionRequest}
use numi_dba_agent.Models.Identity.{VerifiedIdentity}
use numi_dba_agent.Models.Target.{DatabaseTarget}
use numi_dba_agent.Models.Tool.{ToolDefinition, ToolCallRequest, operation_type_eq}
use numi_dba_agent.Approval.Record.{ApprovalStore}
use numi_dba_agent.Audit.{AuditLog}
use numi_dba_agent.Authorization.{authorize}
use numi_dba_agent.Policy.{policy_decision_eq}
use numi_dba_agent.TargetValidation.{validate}
use numi_dba_agent.ToolRegistry.{find}
use numi_dba_agent.Handler.State.{Gateway, Surroundings, GatewayState}
use numi_dba_agent.Handler.Stages.{
  Resolved, discover_lazily, catalog_reader, resolve_call, limit_rate, apply_policy,
}
use numi_dba_agent.Handler.Pipeline.{Admitted, admit}

-- the parts of the state that only step 8 and later write
pub record Core : Type 0 where
  pub approvals : ApprovalStore
  pub log : AuditLog
  pub executions : List ExecutionRequest

module _ {B : Type 0} where
  abbrev pub core : GatewayState B → Core
  core s = record { approvals = s.approvals; log = s.log; executions = s.executions }

module _ {B : Type 0} (g : Gateway B) (w : Surroundings) where
  discover_lazily-Leaves :
      (tool : ToolDefinition) (target : DatabaseTarget)
      → Leaves core (discover_lazily g w tool target)
  unfolding discover_lazily
  discover_lazily-Leaves tool target = record { at = λ s. ground arith }

  resolve_call-Leaves : (request : ToolCallRequest) → Leaves core (resolve_call g w request)
  unfolding resolve_call
  resolve_call-Leaves request = search (leaves_rules, discover_lazily-Leaves) depth 20

  module _ (identity : VerifiedIdentity) (request : ToolCallRequest) where
    limit_rate-Leaves : (c : Resolved) → Leaves core (limit_rate g w identity request c)
    unfolding limit_rate
    limit_rate-Leaves c = record { at = λ s. refl }

    -- Steps 1 to 7 touch neither the approvals, nor the logs, nor the Execution Service.
    pub admit-Leaves : Leaves core (admit g w identity request)
    unfolding admit
    admit-Leaves = search (leaves_rules, resolve_call-Leaves, limit_rate-Leaves) depth 12

    -- what has been checked of a call that passes steps 1 to 3.5, from the state `s`
    pub record IsResolved (s : GatewayState B) (c : Resolved) : Type 0 where
      pub registered : find g.tools request.tool_id request.tool_version ≡ ok c.tool
      pub located :
          validate g.servers
            (catalog_reader (discover_lazily g w c.tool c.target s).1)
            c.target
            c.tool.required_target_scope
          ≡ ok c.ctx

    resolve_call-IsResolved :
        (s : GatewayState B) (c : Resolved) → (resolve_call g w request s).0 ≡ ok c → IsResolved s c
    unfolding resolve_call
    resolve_call-IsResolved s c h = ground arith

    -- what has been checked of an admitted call
    pub record IsCleared (s : GatewayState B) (a : Admitted) : Type 0 where
      pub resolved : IsResolved s a.call
      pub authorised : authorize identity a.call.tool a.call.ctx ≡ ok tt
      pub permitted : apply_policy g w identity request a.call ≡ ok a.evaluation

    -- Whatever passes steps 1 to 7 has been checked in each of them.
    pub admit-IsCleared :
        (s : GatewayState B) (a : Admitted)
        → (admit g w identity request s).0 ≡ ok a
        → IsCleared s a
    unfolding admit
    admit-IsCleared s a h = ground (arith, resolve_call-IsResolved s a.call)
