-- ===== src/Authorization/Gate.antt =====
-- gateway/domain/authorization.py: who passes the gate.
use numi_dba_agent.Common.{◌≡◌, ◌⊎◌, true, contains, is_empty, arith}
use numi_dba_agent.Common.Exec.{ok}
use numi_dba_agent.Models.Identity.{VerifiedIdentity, is_dba}
use numi_dba_agent.Models.Target.{environment_eq}
use numi_dba_agent.Models.Tool.{ToolDefinition}
use numi_dba_agent.TargetValidation.{TargetContext}
use numi_dba_agent.Authorization.{intersects, authorize}

-- The conditions of the module's text: a member of the DBA team, with multi-factor authentication,
-- whose roles meet the tool's and those of the server or database (where it names any), in an
-- environment that the tool allows.
pub record MayUse (identity : VerifiedIdentity) (tool : ToolDefinition) (ctx : TargetContext)
    : Type 0 where
  pub member : is_dba identity ≡ true
  pub second_factor : identity.mfa_satisfied ≡ true
  pub tool_role : intersects identity.dba_roles tool.allowed_roles ≡ true
  pub target_role :
      (is_empty ctx.allowed_roles ≡ true) ⊎ (intersects identity.dba_roles ctx.allowed_roles ≡ true)
  pub environment : contains tool.allowed_environments ctx.server.environment ≡ true

module _ (identity : VerifiedIdentity) (tool : ToolDefinition) (ctx : TargetContext) where
  -- Authorisation succeeds exactly for an identity that meets all five conditions.
  pub authorize_iff :
      (authorize identity tool ctx ≡ ok tt → MayUse identity tool ctx)
      × (MayUse identity tool ctx → authorize identity tool ctx ≡ ok tt)
  unfolding authorize
  authorize_iff = (λ h. ground arith, λ h. ground arith)
