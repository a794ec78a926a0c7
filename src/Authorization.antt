-- ===== src/Authorization.antt =====
-- gateway/domain/authorization.py
pub mod Gate
use numi_dba_agent.Common.{Bool, not, ◌&&◌, List, contains, any, is_empty, if◌then◌else◌}
use numi_dba_agent.Common.Exec.{Result, ok, err}
use numi_dba_agent.Models.Failures.{Error, numi_error, unauthorized, authentication_failed}
use numi_dba_agent.Models.Identity.{DbaRole, dba_role_eq, VerifiedIdentity, is_dba}
use numi_dba_agent.Models.Target.{environment_eq}
use numi_dba_agent.Models.Tool.{ToolDefinition}
use numi_dba_agent.TargetValidation.{TargetContext}

-- `set(a) & set(b)`, as a truth value
unfoldable pub intersects : List DbaRole → List DbaRole → Bool
intersects a b = any (λ r. contains b r) a

unfoldable pub authorize :
    VerifiedIdentity → ToolDefinition → TargetContext → Result Error (Unit {0})
authorize identity tool ctx =
    if not (is_dba identity)
    then err (numi_error unauthorized)
    else if not identity.mfa_satisfied
    then err (numi_error authentication_failed)
    else if not (intersects identity.dba_roles tool.allowed_roles)
    then err (numi_error unauthorized)
    else if not (is_empty ctx.allowed_roles)
        && not (intersects identity.dba_roles ctx.allowed_roles)
    then err (numi_error unauthorized)
    else if not (contains tool.allowed_environments ctx.server.environment)
    then err (numi_error unauthorized)
    else ok tt
