-- ===== src/Handler/Approvals.antt =====
-- gateway/domain/tool_call_handler.py: a call uses the approvals only through the engine's methods,
-- so that what holds of every approval holds behind every call that is sent.
use numi_dba_agent.Common.{◌+◌, ◌*◌, ◌≤◌, ◌≡◌, true, some, string_eq}
use numi_dba_agent.Common.Dict
use numi_dba_agent.Models.Identity.{VerifiedIdentity}
use numi_dba_agent.Models.Tool.{ToolCallRequest}
use numi_dba_agent.Approval.Canonical.{canonical}
use numi_dba_agent.Approval.Record.{approved, action_of, ApprovalRecord, ApprovalStore}
use numi_dba_agent.Approval.Engine.{default_ttl_seconds, microseconds}
use numi_dba_agent.Approval.Lifecycle.{Reach}
use numi_dba_agent.Approval.Binding.{recorded_action, HasTwoApprovers}
use numi_dba_agent.Handler.State.{Gateway, Surroundings, GatewayState, Handling}
use numi_dba_agent.Handler.Admission.{Core}
use numi_dba_agent.Handler.Pipeline.{Admitted, approval_context, presented}

module _ {B : Type 0} (g : Gateway B) (w : Surroundings) (identity : VerifiedIdentity)
    (request : ToolCallRequest) where
  -- calls of the engine lead from the one state's approvals to the other's
  abbrev Leads : ApprovalStore → GatewayState B → Type 0
  Leads a t = Reach g.digest default_ttl_seconds a t.approvals

  abbrev Extends : {A : Type 0} → Handling B A → Type 0
  Extends m = (a : ApprovalStore) (t : GatewayState B) → Leads a t → Leads a (m t).1

  -- an approval in `s` for the action of `a`, as far as the digest tells actions apart
  pub record IsBacked (s : GatewayState B) (a : Admitted) : Type 0 where
    pub approval : ApprovalRecord
    pub stored : Dict.get s.approvals.approvals (presented g w identity request) ≡ some approval
    pub agreed : approval.status ≡ approved
    pub same_action :
        g.digest (canonical (recorded_action approval))
        ≡ g.digest (canonical (action_of (approval_context g w identity request a)))
    pub in_time : w.approval_at ≤ approval.created_at + default_ttl_seconds * microseconds
    pub signed_twice : approval.requires_dual_approval ≡ true → HasTwoApprovers approval
