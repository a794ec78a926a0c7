-- ===== src/Handler/Pipeline.antt =====
-- gateway/domain/tool_call_handler.py: `_handle_inner` and `handle`, and the route that calls them
-- (gateway/api/routers/tool_calls.py).
use Prim.Native.String.{◌++◌ as join}
use numi_dba_agent.Common.{
  String, Bool, true, false, not, ◌&&◌, ◌||◌, Option, none, some, [], ◌==◌, string_eq, length,
  if◌then◌else◌,
}
use numi_dba_agent.Common.Dict
use numi_dba_agent.Common.Exec.{Result, ok, err, pure, lift, modify, ◌>>=◌, ◌>>◌}
use numi_dba_agent.Models.Execution.{ExecutionRequest, ExecutionResult}
use numi_dba_agent.Models.Failures.{
  FailureCode, Error, numi_error, uncaught, failure_code_value, execution_failed, execution_timeout,
  database_unavailable, unauthorized, authentication_failed, approval_mismatch, approval_invalid,
  separation_of_duties_violation,
}
use numi_dba_agent.Models.Identity.{VerifiedIdentity}
use numi_dba_agent.Models.Json.{str, Arguments, given}
use numi_dba_agent.Models.Risk.{RiskAssessment}
use numi_dba_agent.Models.Target.{platform_value}
use numi_dba_agent.Models.Tool.{
  ToolCallRequest, ToolCallResponse, executed, approval_required, denied, failed,
}
use numi_dba_agent.Approval.Record.{ApprovalContext, action_hash}
use numi_dba_agent.Approval.Engine.{
  default_ttl_seconds, create, verify_for_execution, mark_executed,
}
use numi_dba_agent.Audit.{
  raw, parsed, AuditEvent, SecurityEvent, record_event, record_security_event,
}
use numi_dba_agent.Authorization.{authorize}
use numi_dba_agent.DataPolicy.{MinimizedResult, minimize, sqlglot_dialect_for_platform}
use numi_dba_agent.Policy.{PolicyEvaluation, requires_approval, policy_decision_eq, decision_value}
use numi_dba_agent.Risk.{assess}
use numi_dba_agent.Handler.State.{Gateway, Surroundings, GatewayState, Handling, on_approvals}
use numi_dba_agent.Handler.Stages.{Resolved, resolve_call, limit_rate, apply_policy, execute}

-- a call that has passed the policy, with its risk
pub record Admitted : Type 0 where
  pub call : Resolved
  pub evaluation : PolicyEvaluation
  pub risk : RiskAssessment

abbrev pub needs_approval : Admitted → Bool
needs_approval a = a.evaluation.decision == requires_approval

abbrev merge : Arguments → String → Option String → Arguments
merge args key none = args
merge args key (some v) = Dict.set args key (str v)

-- the arguments that are sent: what the target names goes over what the caller passed
unfoldable pub sent_arguments : Resolved → Arguments
sent_arguments c =
    merge
      (merge
        (merge (merge c.arguments "schema_name" c.target.schema_name) "table" c.target.object_name)
        "session_id" c.target.session_id)
      "query_id" c.target.query_id

module _ {B : Type 0} (g : Gateway B) (w : Surroundings) where
  module _ (identity : VerifiedIdentity) (request : ToolCallRequest) where
    -- an event with what every event of the call has
    abbrev event_of : String → AuditEvent
    event_of type = record {
      event_type = type;
      conversation_id = request.conversation_id;
      request_id = request.request_id;
      investigation_id = elim request.investigation_id [ none ↦ "" | some i ↦ i ];
      actor_subject_id = identity.subject_id;
      tool_id = request.tool_id;
      tool_version = "";
      target = none;
      arguments_hash = g.digest_arguments [];
      policy_decision = "";
      risk = none;
      approval_id = none;
      execution_result = "";
      error_code = none;
    }

    abbrev audit : AuditEvent → Handling B Unit
    audit e = modify (λ s. record s { log = record_event e s.log })

    -- steps 1 to 7
    unfoldable pub admit : Handling B Admitted
    admit = do
      call ← resolve_call g w request
      lift (authorize identity call.tool call.ctx)
      limit_rate g w identity request call
      evaluation ← lift (apply_policy g w identity request call)
      pure (record {
        call = call;
        evaluation = evaluation;
        risk = assess call.tool call.ctx.server.environment call.ctx 1 1 false;
      })

    unfoldable pub approval_context : Admitted → ApprovalContext
    approval_context a =
        let ctx = a.call.ctx in
        record {
          request_id = request.request_id;
          actor = identity;
          tool = a.call.tool;
          target = a.call.target;
          normalized_arguments = a.call.arguments;
          environment = ctx.server.environment;
          database_id =
              if ctx.database == ""
              then ctx.server.id
              else join (join ctx.server.id "/") ctx.database;
          risk = a.risk;
        }

    unfoldable pub admitted_event : Admitted → String → Option String → String → AuditEvent
    admitted_event a type approval_id execution_result = record (event_of type) {
      tool_id = a.call.tool.tool_id;
      tool_version = a.call.tool.version;
      target = some (parsed a.call.target);
      arguments_hash = g.digest_arguments a.call.arguments;
      policy_decision = decision_value a.evaluation.decision;
      risk = some a.risk;
      approval_id = approval_id;
      execution_result = execution_result;
    }

    -- step 8 without an approval: one is created, and nothing runs
    unfoldable pub request_approval : Admitted → Handling B ToolCallResponse
    request_approval a = do
      r ← on_approvals (
          create g.digest default_ttl_seconds (approval_context a)
            a.evaluation.requires_dual_approval w.approval_id w.approval_at)
      audit (admitted_event a "APPROVAL_REQUESTED" (some r.approval_id) "")
      pure (record {
        status = approval_required;
        execution_id = none;
        approval_id = some r.approval_id;
        result = none;
        failure_code = none;
        risk = some a.risk;
        policy_decision = some (decision_value a.evaluation.decision);
      })

    unfoldable pub execution_request : Resolved → ExecutionRequest
    unfolding sent_arguments
    execution_request c = record {
      execution_id = w.execution_id;
      tool_id = c.tool.tool_id;
      tool_version = c.tool.version;
      platform = c.ctx.server.platform;
      server_id = c.ctx.server.id;
      database = c.ctx.database;
      schema_name = c.target.schema_name;
      object_name = c.target.object_name;
      session_id = c.target.session_id;
      query_id = c.target.query_id;
      arguments = sent_arguments c;
      max_execution_time = c.tool.max_execution_time;
      max_result_rows = c.tool.max_result_rows;
    }

    abbrev pub text_of : Option String → String
    text_of none = ""
    text_of (some t) = t

    abbrev pub presented : String
    presented = text_of request.approval_id

    -- step 8 with an approval: it must stand for this very action
    unfoldable pub check_approval : Admitted → Handling B Unit
    check_approval a =
        if needs_approval a
        then on_approvals (do
          verify_for_execution presented (action_hash g.digest (approval_context a)) w.approval_at
          pure tt)
        else pure tt

    -- after a success: the approval is used up
    unfoldable pub consume : Admitted → Handling B Unit
    consume a =
        if needs_approval a then on_approvals (mark_executed presented w.consumed_at) else pure tt

    -- step 10
    unfoldable pub minimized : Admitted → ExecutionResult → MinimizedResult
    minimized a result =
        minimize g.sort g.data_policy result.rows a.call.tool.max_result_rows
          (sqlglot_dialect_for_platform (platform_value a.call.ctx.server.platform))

    -- the answer to an executed call
    unfoldable pub executed_response : Admitted → ExecutionResult → ToolCallResponse
    unfolding minimized
    executed_response a result =
        let m = minimized a result in
        record {
          status = executed;
          execution_id = some w.execution_id;
          approval_id = none;
          result = some (record {
            columns = result.columns;
            rows = m.rows;
            row_count = length m.rows;
            truncated = m.truncated || result.truncated;
            masked_fields = m.masked_fields;
            literal_scrubbed_fields = m.literal_scrubbed_fields;
            affected = result.affected;
          });
          failure_code = none;
          risk = some a.risk;
          policy_decision = some (decision_value a.evaluation.decision);
        }

    -- what follows a success: steps 9 to 11
    unfoldable pub finish : Admitted → ExecutionResult → Handling B ToolCallResponse
    finish a result = do
      consume a
      audit (admitted_event a "TOOL_CALL_EXECUTED" request.approval_id "SUCCESS")
      pure (executed_response a result)

    -- from step 8 on, where no new approval has to be asked for
    unfoldable pub run : Admitted → Handling B ToolCallResponse
    run a = do check_approval a; result ← execute g w (execution_request a.call); finish a result

    unfoldable pub proceed : Admitted → Handling B ToolCallResponse
    proceed a =
        if needs_approval a && not (given request.approval_id) then request_approval a else run a

    unfoldable pub handle_inner : Handling B ToolCallResponse
    handle_inner = do a ← admit; proceed a

    abbrev pub is_execution_outcome : FailureCode → Bool
    is_execution_outcome execution_failed = true
    is_execution_outcome execution_timeout = true
    is_execution_outcome database_unavailable = true
    is_execution_outcome _ = false

    abbrev pub is_security_relevant : FailureCode → Bool
    is_security_relevant unauthorized = true
    is_security_relevant authentication_failed = true
    is_security_relevant approval_mismatch = true
    is_security_relevant approval_invalid = true
    is_security_relevant separation_of_duties_violation = true
    is_security_relevant _ = false

    -- the event that a `NumiError` leaves
    unfoldable pub refused_event : FailureCode → AuditEvent
    refused_event code =
        record (event_of
          (if is_execution_outcome code then "TOOL_CALL_FAILED" else "TOOL_CALL_DENIED")) {
            target = some (raw request.target);
            arguments_hash = g.digest_arguments request.arguments;
            error_code = some code;
          }

    abbrev security_event_of : FailureCode → SecurityEvent
    security_event_of code = record {
      event_type = failure_code_value code;
      actor_subject_id = identity.subject_id;
      tool_id = request.tool_id;
      severity = "WARNING";
    }

    unfoldable pub refused_response : FailureCode → ToolCallResponse
    refused_response code = record {
      status = if is_execution_outcome code then failed else denied;
      execution_id = none;
      approval_id = none;
      result = none;
      failure_code = some code;
      risk = none;
      policy_decision = none;
    }

    -- the `except NumiError` branch
    unfoldable pub refuse : FailureCode → GatewayState B → GatewayState B
    unfolding refused_event
    refuse code s =
        let logged = record_event (refused_event code) s.log in
        record s {
          log =
              if is_security_relevant code
              then record_security_event (security_event_of code) logged
              else logged;
        }

    unfoldable pub recover : Result Error ToolCallResponse → Handling B ToolCallResponse
    unfolding refuse refused_response
    recover (ok response) s = (ok response, s)
    recover (err (numi_error code)) s = (ok (refused_response code), refuse code s)
    recover (err uncaught) s = (err uncaught, s)

    unfoldable pub handle : Handling B ToolCallResponse
    handle s = let (r, s') = handle_inner s in recover r s'
