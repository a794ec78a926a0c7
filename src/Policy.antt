-- ===== src/Policy.antt =====
-- gateway/domain/policy_engine.py
pub mod Window
pub mod Decisions
use numi_dba_agent.Common.{
  ℕ, String, Bool, true, false, not, ◌&&◌, ◌||◌, Option, none, some, List, [], ◌∷◌, ◌++◌, ◌==◌,
  contains, string_eq, Eq, if◌then◌else◌,
}
use numi_dba_agent.Common.Dict
use numi_dba_agent.Common.Dict.{Dict}
use numi_dba_agent.Models.Identity.{DbaRole, role_value}
use numi_dba_agent.Models.Json.{given}
use numi_dba_agent.Models.Target.{Environment, environment_value}
use numi_dba_agent.Models.Tool.{ToolDefinition}
use numi_dba_agent.TargetValidation.{TargetContext}
use numi_dba_agent.Policy.Window.{TimeZones, is_within_maintenance_window}

pub data PolicyDecision : Type 0 where
  allow deny requires_approval : PolicyDecision

unfoldable pub PolicyDecision-discrete : Discrete PolicyDecision
PolicyDecision-discrete = hlevel

instance abbrev pub policy_decision_eq : Eq PolicyDecision
policy_decision_eq = record { dec = PolicyDecision-discrete }

-- `decision.value`
unfoldable pub decision_value : PolicyDecision → String
decision_value allow = "ALLOW"
decision_value deny = "DENY"
decision_value requires_approval = "REQUIRES_APPROVAL"

pub record PolicyEvaluation : Type 0 where
  pub decision : PolicyDecision
  pub requires_dual_approval : Bool
  pub requires_change_ticket : Bool
  pub in_maintenance_window : Bool
  pub reasons : List String

abbrev pub RoleMap : Type 0
RoleMap = Dict String PolicyDecision

-- what the constructor reads of the policy file
pub record PolicyEngine : Type 0 where
  pub default_decision : PolicyDecision
  pub table : Dict String (Dict String RoleMap)
  pub change_ticket_required : Dict String (List String)
  pub dual_approval_required : List String

-- `d.get(key, default)`
abbrev get_or {ℓ} : {A : Type ℓ} → A → Option A → A
get_or default none = default
get_or default (some a) = a

-- `[reason]` where the test holds
abbrev pub when : Bool → String → List String
when true reason = reason ∷ []
when false reason = []

-- the role's entry, if the tool and the role are listed
abbrev pub role_entry : Option RoleMap → DbaRole → Option PolicyDecision
role_entry none role = none
role_entry (some role_map) role = Dict.get role_map (role_value role)

-- the decision of the table, and the reasons that go with it
unfoldable pub table_decision :
    PolicyDecision → Option RoleMap → DbaRole → PolicyDecision × List String
table_decision default none role = (default, "no_policy_entry_fail_closed" ∷ [])
table_decision default (some role_map) role = elim (Dict.get role_map (role_value role)) [
  | none ↦ (default, "no_role_entry_fail_closed" ∷ [])
  | some d ↦ (d, [])
]

unfoldable pub tool_table : PolicyEngine → Environment → String → Option RoleMap
tool_table engine environment tool_id =
    Dict.get (get_or [] (Dict.get engine.table (environment_value environment))) tool_id

abbrev is_allow : PolicyDecision → Bool
is_allow allow = true
is_allow _ = false

-- an ALLOW becomes REQUIRES_APPROVAL where `escalate` holds
abbrev pub escalated : Bool → PolicyDecision → PolicyDecision
escalated escalate allow = if escalate then requires_approval else allow
escalated escalate d = d

abbrev is_deny : PolicyDecision → Bool
is_deny deny = true
is_deny _ = false

-- `evaluate`. `zones` is `zoneinfo`'s data and `now` the clock's reading, in microseconds since the
-- epoch. `none` stands for the exception that a malformed window raises.
unfoldable pub evaluate :
    PolicyEngine
    → TimeZones
    → Environment
    → ToolDefinition
    → DbaRole
    → TargetContext
    → Option String
    → Bool
    → ℕ
    → Option PolicyEvaluation
evaluate engine zones environment tool role ctx change_id current_load_critical now =
    elim (is_within_maintenance_window zones ctx.server.maintenance_window now) [
      | none ↦ none
      | some in_window ↦
          let looked_up =
            table_decision engine.default_decision (tool_table engine environment tool.tool_id)
              role in
          let outside = tool.availability_impact && not in_window in
          let by_window = escalated outside looked_up.0 in
          let loaded = current_load_critical && tool.data_modification in
          let decision = escalated loaded by_window in
          let ticket =
            contains
              (get_or [] (Dict.get engine.change_ticket_required (environment_value environment)))
              tool.tool_id in
          some (record {
            decision = decision;
            requires_dual_approval =
                tool.requires_dual_approval || contains engine.dual_approval_required tool.tool_id;
            requires_change_ticket = ticket;
            in_maintenance_window = in_window;
            reasons =
                looked_up.1
                ++ (when (tool.availability_impact && in_window) "inside_maintenance_window"
                    ++ (when outside "outside_maintenance_window"
                        ++ (when (outside && is_allow looked_up.0)
                              "escalated_outside_maintenance_window"
                            ++ (when (loaded && is_allow by_window)
                                  "escalated_current_load_critical"
                                ++ when (ticket && not (given change_id) && not (is_deny decision))
                                    "change_ticket_required_but_missing"))));
          })
    ]
