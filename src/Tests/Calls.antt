-- ===== src/Tests/Calls.antt =====
-- Calls of the handler, run to the end: a read, and a write with an approval.
use mathlib.Core.Path.{subst₂}
use numi_dba_agent.Common.{
  ℕ, ◌≤◌, String, ◌≡◌, refl, string_eq, option_eq, Bool, true, false, none, some, List, [], ◌∷◌,
  inl, inr, Bool-cases, ◌==◌, ==→eq, arith, All,
}
use numi_dba_agent.Common.Dict
use numi_dba_agent.Common.Exec.{ok, err}
use numi_dba_agent.Models.Failures.{numi_error, approval_invalid, Error}
use numi_dba_agent.Models.Identity.{highest_role, is_dba, role_rank, DbaRole-discrete, role_value}
use numi_dba_agent.Models.Json.{str, given, truthy}
use numi_dba_agent.Models.Tool.{executed, ToolCallResponse, OperationType-discrete}
use numi_dba_agent.Approval.Record.{approved, ApprovalRecord, action_hash, action_of}
use numi_dba_agent.Approval.Engine.{verify_for_execution, default_ttl_seconds, mark_executed}
use numi_dba_agent.Approval.Canonical.{canonical}
use numi_dba_agent.Approval.Lifecycle.{AllSound, IsSound}
use numi_dba_agent.DataPolicy.{
  Row, minimize, row_cap, clean_row, clean_rows, clean_value, passes, sqlglot_dialect_for_platform,
}
use numi_dba_agent.DataPolicy.Masking.{IsCleanRow, minimize-IsCleanRow}
use numi_dba_agent.TargetValidation.{
  TargetContext, check_object, check_required_fields, is_missing, locate_database, validate,
}
use numi_dba_agent.TargetValidation.Located.{IsLocated, validate-IsLocated}
use numi_dba_agent.Handler.State.{GatewayState}
use numi_dba_agent.Handler.Pipeline.{
  admit, handle_inner, Admitted, needs_approval, handle, admitted_event, approval_context,
  check_approval, consume, executed_response, execution_request, finish, minimized, proceed,
  recover, run, sent_arguments,
}
use numi_dba_agent.Handler.Safety.{SendsAuthorised, handle-IsAuthorised}
use numi_dba_agent.Handler.Responses.{IsRecorded, handle-IsRecorded}
use numi_dba_agent.Servers.{
  effective_for, find_candidates, is_eligible, matches_exactly, narrow_by_database, narrow_by_hint,
  narrow_by_platform, resolve,
}
use numi_dba_agent.Models.Target.{Environment-discrete, environment_value, Platform-discrete}
use numi_dba_agent.Common.Text.{lower, strip}
use numi_dba_agent.ServerReference.{normalize_server_reference}
use numi_dba_agent.Handler.Consumption.{handle-Consumes}
use numi_dba_agent.Risk.{assess}
use numi_dba_agent.Models.Target.{production}
use numi_dba_agent.Handler.Stages.{
  resolve_call, validate_arguments, enrich_target, target_updates, discover_lazily, apply_policy,
  catalog_reader, check_sql, execute, limit_rate,
}
use numi_dba_agent.ToolRegistry.{find}
use numi_dba_agent.Authorization.{authorize, intersects}
use numi_dba_agent.RateLimit.{check, checks_of, count_all, tier_for}
use numi_dba_agent.Policy.{
  PolicyDecision-discrete, decision_value, evaluate, table_decision, tool_table,
}
use numi_dba_agent.Policy.Window.{is_within_maintenance_window, local_time, time_of_day}
use numi_dba_agent.Audit.{record_event}
use numi_dba_agent.Tests.Samples.{
  kill_session, context, ana, gateway, surroundings, start, call, approval_for, store_with, server,
  target, data_policy,
}

-- the approval that carol gave for ending the session
abbrev granted : ApprovalRecord
granted = record (approval_for false approved) { approver_1_subject_id = some "carol" }

abbrev prepared : GatewayState ℕ
prepared = record start { approvals = store_with granted }

granted-IsSound : IsSound gateway.digest default_ttl_seconds "appr_1" granted
unfolding canonical
granted-IsSound = record {
  keyed = refl;
  bound = refl;
  deadline = refl;
  first_is_other = λ dual. absurd cc;
  two_approvers = λ dual. absurd cc;
}

get_single :
    {V : Type 0} (k id : String) (v r : V) → Dict.get ((k, v) ∷ []) id ≡ some r → (k ≡ id) × (v ≡ r)
unfolding Dict.get
get_single k id v r found = ground arith

prepared-AllSound : AllSound gateway.digest default_ttl_seconds prepared.approvals
prepared-AllSound = record {
  at = λ id r found.
      let same = get_single "appr_1" id granted r found in
      subst₂ (λ id r. IsSound gateway.digest default_ttl_seconds id r) same.0 same.1
        granted-IsSound;
}

handle-IsAuthorised_example :
    SendsAuthorised gateway surroundings ana
      (call "database.kill_session" (some "appr_1"))
      prepared
      (handle gateway surroundings ana (call "database.kill_session" (some "appr_1")) prepared).1
handle-IsAuthorised_example =
    handle-IsAuthorised gateway surroundings ana (call "database.kill_session" (some "appr_1"))
      prepared

handle-IsRecorded_example :
    let request = call "database.get_health" none in
    ((response : ToolCallResponse)
      → (handle gateway surroundings ana request start).0 ≡ ok response
      → IsRecorded gateway surroundings ana request start
          (handle gateway surroundings ana request start).1
          response)
    × ((e : Error)
        → (handle gateway surroundings ana request start).0 ≡ err e
        → (handle gateway surroundings ana request start).1.log.audit_events
          ≡ start.log.audit_events)
handle-IsRecorded_example =
    handle-IsRecorded gateway surroundings ana (call "database.get_health" none) start

abbrev secrets : List Row
secrets = (("name", str "x") ∷ ("password", str "y") ∷ []) ∷ (("internal", str "z") ∷ []) ∷ []

minimize-IsCleanRow_example :
    let out = (minimize (λ names. names) data_policy secrets 1 none).rows in
    (numi_dba_agent.Common.length out ≤ row_cap data_policy 1)
    × All (IsCleanRow data_policy data_policy.max_columns) out
minimize-IsCleanRow_example = minimize-IsCleanRow data_policy (λ names. names) secrets 1 none

abbrev located : TargetContext
located = record {
  target = target;
  server = server;
  database = "";
  criticality = "critical";
  classification = "internal";
  allowed_roles = server.allowed_roles;
  discovered_database = none;
}

validate-IsLocated_example :
    IsLocated (server ∷ []) (λ id. none) target ("environment" ∷ "instance" ∷ []) located
unfolding validate resolve find_candidates narrow_by_database narrow_by_hint given
    narrow_by_platform is_eligible Environment-discrete matches_exactly lower strip
    normalize_server_reference locate_database check_required_fields is_missing Dict.get
    environment_value check_object effective_for
validate-IsLocated_example =
    validate-IsLocated (server ∷ []) (λ id. none) target ("environment" ∷ "instance" ∷ []) located
      refl

-- the answer to the write
abbrev write_response : ToolCallResponse
write_response = record {
  status = executed;
  execution_id = some "exec_1";
  approval_id = none;
  result = some (record {
    columns = "name" ∷ "password" ∷ [];
    rows = (("name", str "x") ∷ ("password", str "***MASKED***") ∷ []) ∷ [];
    row_count = 1;
    truncated = false;
    masked_fields = "password" ∷ [];
    literal_scrubbed_fields = [];
    affected = [];
  });
  failure_code = none;
  risk = some (assess kill_session production context 1 1 false);
  policy_decision = some "REQUIRES_APPROVAL";
}

handle-Consumes_example :
    let request = call "database.kill_session" (some "appr_1") in
    (a : Admitted) × ((admit gateway surroundings ana request prepared).0 ≡ ok a)
    × (needs_approval a ≡ true
        → (hash : String) (later : ℕ)
        → let u = (handle gateway surroundings ana request prepared).1.approvals in
          verify_for_execution "appr_1" hash later u ≡ (err (numi_error approval_invalid), u))
unfolding handle handle_inner admit resolve_call find validate_arguments enrich_target
    target_updates discover_lazily validate resolve highest_role verify_for_execution Dict.get
    Dict.set string_eq option_eq recover approval_context check_approval proceed run consume finish
    executed_response minimized execution_request sent_arguments admitted_event catalog_reader
    check_sql limit_rate apply_policy execute find_candidates narrow_by_database narrow_by_hint
    narrow_by_platform is_eligible matches_exactly effective_for given truthy Environment-discrete
    Platform-discrete environment_value lower strip normalize_server_reference locate_database
    check_required_fields is_missing check_object authorize intersects check checks_of count_all
    tier_for evaluate tool_table table_decision decision_value PolicyDecision-discrete
    is_within_maintenance_window local_time time_of_day is_dba role_value role_rank DbaRole-discrete
    action_hash action_of mark_executed minimize clean_rows clean_row clean_value passes row_cap
    sqlglot_dialect_for_platform OperationType-discrete record_event
handle-Consumes_example =
    handle-Consumes gateway surroundings ana (call "database.kill_session" (some "appr_1")) prepared
      write_response prepared-AllSound refl refl
