-- ===== src/Policy/Decisions.antt =====
-- gateway/domain/policy_engine.py: when a decision is ALLOW, and that it fails closed.
use numi_dba_agent.Common.{ℕ, String, Bool, true, false, ◌≡◌, Option, none, some, string_eq, arith}
use numi_dba_agent.Models.Identity.{DbaRole}
use numi_dba_agent.Models.Target.{Environment}
use numi_dba_agent.Models.Tool.{ToolDefinition}
use numi_dba_agent.TargetValidation.{TargetContext}
use numi_dba_agent.Policy.{
  PolicyEngine, PolicyEvaluation, RoleMap, allow, deny, table_decision, role_entry, tool_table,
  evaluate,
}
use numi_dba_agent.Policy.Window.{TimeZones, is_within_maintenance_window}

module _ (engine : PolicyEngine) (zones : TimeZones) (environment : Environment)
    (tool : ToolDefinition) (role : DbaRole) (ctx : TargetContext) (change_id : Option String)
    (loaded : Bool) (now : ℕ) where
  abbrev evaluated : Option PolicyEvaluation
  evaluated = evaluate engine zones environment tool role ctx change_id loaded now

  abbrev entry : Option RoleMap
  entry = tool_table engine environment tool.tool_id

  -- Every ALLOW is the table's own; a tool with an impact on availability is allowed only inside the
  -- maintenance window, and one that modifies data only where the load is not critical.
  pub evaluate-allow :
      (e : PolicyEvaluation)
      → evaluate engine zones environment tool role ctx change_id loaded now ≡ some e
      → e.decision ≡ allow
      → ((table_decision engine.default_decision entry role).0 ≡ allow)
        × (tool.availability_impact ≡ true
            → is_within_maintenance_window zones ctx.server.maintenance_window now ≡ some true)
        × (tool.data_modification ≡ true → loaded ≡ false)
  unfolding evaluate
  evaluate-allow e h d = (ground arith, λ impact. ground arith, λ modifies. ground arith)

  -- What the table denies stays denied, and only that: no escalation turns a DENY into anything
  -- else, or anything else into a DENY.
  pub evaluate-deny :
      (e : PolicyEvaluation)
      → evaluate engine zones environment tool role ctx change_id loaded now ≡ some e
      → (e.decision ≡ deny → (table_decision engine.default_decision entry role).0 ≡ deny)
        × ((table_decision engine.default_decision entry role).0 ≡ deny → e.decision ≡ deny)
  unfolding evaluate
  evaluate-deny e h = (λ d. ground arith, λ d. ground arith)

  -- Where the default is DENY, a tool or a role that the table does not list is denied.
  evaluate_closed :
      (e : PolicyEvaluation)
      → evaluate engine zones environment tool role ctx change_id loaded now ≡ some e
      → engine.default_decision ≡ deny
      → role_entry entry role ≡ none
      → e.decision ≡ deny
  unfolding evaluate table_decision
  evaluate_closed e h default missing = ground arith
