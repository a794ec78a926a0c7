-- ===== src/Tests/Gates.antt =====
-- The gates of a call at the sample installation.
use numi_dba_agent.Common.{
  ℕ, ◌≤◌, String, ◌≡◌, refl, string_eq, true, false, none, some, [], ◌∷◌, arith,
}
use numi_dba_agent.Common.Dict
use numi_dba_agent.Common.Exec.{ok}
use numi_dba_agent.Models.Identity.{dba_l3, role_value}
use numi_dba_agent.Models.Target.{development, production, Environment-discrete, environment_value}
use numi_dba_agent.Authorization.{authorize}
use numi_dba_agent.Authorization.Gate.{MayUse, authorize_iff}
use numi_dba_agent.Policy.{
  PolicyEvaluation, allow, deny, requires_approval, table_decision, tool_table, evaluate,
}
use numi_dba_agent.Policy.Window.{TimeZones, is_within_maintenance_window}
use numi_dba_agent.Policy.Decisions.{evaluate-allow, evaluate-deny}
use numi_dba_agent.Risk.{assess, level_index}
use numi_dba_agent.Risk.Bounds.{assess_bounds, assess_production}
use numi_dba_agent.RateLimit.Backend.{Buckets}
use numi_dba_agent.RateLimit.Window.{passed, smaller, passed-window}
use numi_dba_agent.Servers.{
  resolve, find_candidates, is_eligible, matches_exactly, narrow_by_database, narrow_by_hint,
  narrow_by_platform,
}
use numi_dba_agent.Servers.Resolution.{Fits, resolve-Fits}
use numi_dba_agent.Models.Json.{given}
use numi_dba_agent.Common.Text.{lower, strip}
use numi_dba_agent.ServerReference.{normalize_server_reference}
use numi_dba_agent.Tests.Samples.{ana, get_health, kill_session, server, target, context, policy}

authorize_iff_example :
    (authorize ana kill_session context ≡ ok tt → MayUse ana kill_session context)
    × (MayUse ana kill_session context → authorize ana kill_session context ≡ ok tt)
authorize_iff_example = authorize_iff ana kill_session context

abbrev utc : TimeZones
utc name now = none

-- three hours after midnight
abbrev at_night : ℕ
at_night = 10800000000

abbrev evaluation : PolicyEvaluation
evaluation = record {
  decision = allow;
  requires_dual_approval = false;
  requires_change_ticket = false;
  in_maintenance_window = true;
  reasons = [];
}

evaluate-allow_example :
    ((table_decision deny (tool_table policy production "database.get_health") dba_l3).0 ≡ allow)
    × (get_health.availability_impact ≡ true
        → is_within_maintenance_window utc server.maintenance_window at_night ≡ some true)
    × (get_health.data_modification ≡ true → false ≡ false)
unfolding evaluate is_within_maintenance_window given table_decision Dict.get tool_table
    environment_value role_value
evaluate-allow_example =
    evaluate-allow policy utc production get_health dba_l3 context none false at_night evaluation
      refl refl

abbrev asked : PolicyEvaluation
asked = record {
  decision = requires_approval;
  requires_dual_approval = false;
  requires_change_ticket = false;
  in_maintenance_window = true;
  reasons = "inside_maintenance_window" ∷ [];
}

evaluate-deny_example :
    (asked.decision ≡ deny
      → (table_decision deny (tool_table policy production "database.kill_session") dba_l3).0
        ≡ deny)
    × ((table_decision deny (tool_table policy production "database.kill_session") dba_l3).0 ≡ deny
        → asked.decision ≡ deny)
unfolding evaluate is_within_maintenance_window given table_decision Dict.get tool_table
    environment_value role_value
evaluate-deny_example =
    evaluate-deny policy utc production kill_session dba_l3 context none false at_night asked refl

assess_bounds_example :
    let a = assess kill_session production context 0 60 true in
    (a.score ≤ 100) × (level_index kill_session.risk_level ≤ level_index a.risk_level)
assess_bounds_example = assess_bounds kill_session production context 0 60 true

assess_production_example :
    let a = assess kill_session development context 0 1 false in
    let p = assess kill_session production context 0 1 false in
    (a.score ≤ p.score) × (level_index a.risk_level ≤ level_index p.risk_level)
assess_production_example = assess_production kill_session development context 0 1 false

abbrev who : String
who = "u"

-- a bucket that has counted three calls, and whose minute was over ten seconds ago
abbrev spent : Buckets String
spent = (who, (3, 0)) ∷ []

passed-window_example : passed who 2 60 (70000000 ∷ 70000001 ∷ 70000002 ∷ []) spent ≡ smaller 3 2
unfolding Dict.get string_eq
passed-window_example =
    passed-window who 2 60 70000000 (70000001 ∷ 70000002 ∷ []) spent (omega arith)
      (omega arith, (omega arith, tt))

resolve-Fits_example : Fits (server ∷ []) target server
unfolding resolve find_candidates narrow_by_database narrow_by_hint given narrow_by_platform
    is_eligible Environment-discrete matches_exactly lower strip normalize_server_reference
resolve-Fits_example = resolve-Fits (server ∷ []) target server refl
