-- ===== src/Agent/Submit.antt =====
-- agent/orchestrator.py: `_submit_and_relay`, which sends one proposed call to the Gateway and turns
-- the response into a reply, or into `none` where the loop goes on.
pub mod Verdict
pub mod Frame
pub mod Sent
use numi_dba_agent.Common.{
  String, Bool, true, false, not, ◌&&◌, Option, none, some, List, [], ◌∷◌, ◌++◌, ◌==◌, ltb,
  string_eq, option_eq, is_empty, map, if◌then◌else◌,
}
use numi_dba_agent.Common.Dict
use numi_dba_agent.Common.Exec.{Result, ok, err}
use numi_dba_agent.Common.Format.{concat, join}
use numi_dba_agent.Models.Failures.{
  FailureCode, failure_code_eq, failure_code_value, invalid_target,
}
use numi_dba_agent.Models.Json.{Json, Arguments, truthy}
use numi_dba_agent.Models.Risk.{RiskAssessment, RiskLevel, BlastRadius}
use numi_dba_agent.Models.Tool.{ToolCallRequest, ToolCallResult, ToolCallStatus}
use numi_dba_agent.Agent.Actions.{
  ProposeToolCall, ApprovalCard, AgentReply, ReplyStatus, error, denied, approval_required,
}
use numi_dba_agent.Agent.State.{
  InvestigationState, ConversationState, PendingApproval, Entry, EntryResult, executed, failed,
  dropped_tool,
}
use numi_dba_agent.Agent.Session.{Menu, Answer, Services, Session, amend, add_evidence, add_entry}
use numi_dba_agent.Agent.Limits.{
  max_investigation_turns, is_self_correctable, read_only_guard_tool_id, is_confirmed_read_tool,
  strip_unschematized_arguments, py_str,
}
use numi_dba_agent.Agent.Submit.Verdict.{update_pending_verification}

abbrev plain_reply : ReplyStatus → InvestigationState → AgentReply
plain_reply status inv = record {
  status = status;
  approval_card = none;
  investigation_id = some inv.investigation_id;
  approval_still_pending = false;
}

entry_of : ProposeToolCall → EntryResult → Entry
entry_of action result = record {
  tool_id = action.tool_id;
  reason = action.reason;
  result = result;
}

-- The proposal is not submitted: an unattended run only reads.
drop_proposal : ProposeToolCall → InvestigationState → InvestigationState
unfolding concat
drop_proposal action inv =
    add_evidence
      (concat (
        "(a proposed " ∷ action.tool_id
        ∷ " was not submitted — this scheduled run is read-only and never executes an action)"
        ∷ []))
      (add_entry
        (record {
          tool_id = read_only_guard_tool_id;
          reason = "Enforcing read-only mode on an unattended, scheduled run.";
          result = dropped_tool action.tool_id (some action.reason) (
              concat (
                action.tool_id
                ∷ " was NOT submitted. This is an unattended scheduled health sweep: it reports findings and recommendations as text only and never takes an action. Describe what you would recommend and why, and conclude — a DBA will decide whether to act on it."
                ∷ []));
        })
        inv)

-- No approval is asked for: an unattended run has nobody to give it.
decline_card : ProposeToolCall → InvestigationState → InvestigationState
unfolding concat
decline_card action inv =
    add_evidence
      (concat (
        "(" ∷ action.tool_id
        ∷ " requires DBA approval — not requested, because this scheduled run never asks for one)"
        ∷ []))
      (add_entry
        (record {
          tool_id = read_only_guard_tool_id;
          reason = "Declining an approval card on an unattended, scheduled run.";
          result = dropped_tool action.tool_id none (
              concat (
                action.tool_id
                ∷ " requires DBA approval, which an unattended scheduled run must never request. Report this as something a DBA needs to look at, and conclude."
                ∷ []));
        })
        inv)

is_target_denial : ToolCallStatus → Option FailureCode → Bool
is_target_denial ToolCallStatus.denied code = code == some invalid_target
is_target_denial _ code = false

with_database : Option Json → Bool → Arguments → Arguments
unfolding truthy Dict.set
with_database none refused context = context
with_database (some database) refused context =
    if truthy database && not refused then Dict.set context "database" database else context

code_text : Option FailureCode → String
unfolding failure_code_value
code_text none = "None"
code_text (some code) = failure_code_value code

risk_level_of : Option RiskAssessment → Option RiskLevel
risk_level_of none = none
risk_level_of (some risk) = some risk.risk_level

blast_radius_of : Option RiskAssessment → Option BlastRadius
blast_radius_of none = none
blast_radius_of (some risk) = some risk.blast_radius

-- `_affected_summary`
affected_of : Option ToolCallResult → Arguments
affected_of none = []
affected_of (some result) = result.affected

unfoldable pub affected_summary : (Json → String) → Option ToolCallResult → String
unfolding affected_of concat join py_str
affected_summary container_text result =
    if is_empty (affected_of result)
    then ""
    else concat (
        " ("
        ∷ join ", " (
            map
              (λ (kv : String × Json). concat (kv.0 ∷ "=" ∷ py_str container_text (some kv.1) ∷ []))
              (affected_of result))
        ∷ ")"
        ∷ [])

module _ {World : Type 0} (services : Services World) (menu : Menu) where
  unfoldable pub request_for : ProposeToolCall → String → Session World → ToolCallRequest
  unfolding strip_unschematized_arguments Dict.merge
  request_for action id s = record {
    tool_id = action.tool_id;
    tool_version = none;
    arguments =
        strip_unschematized_arguments menu.tool_allowed_arguments action.tool_id action.arguments;
    target = Dict.merge s.conversation.database_context action.target;
    reason = action.reason;
    conversation_id = s.conversation.conversation_id;
    investigation_id = some s.investigation.investigation_id;
    request_id = id;
    channel = menu.channel;
    channel_account_id = menu.channel_account_id;
    approval_id = none;
    change_id = none;
  }

  remember_database : ToolCallRequest → Answer → Session World → Session World
  unfolding with_database is_target_denial Dict.get
  remember_database request answer s = record s {
    conversation = record s.conversation {
      database_context =
          with_database (Dict.get request.target "database")
            (is_target_denial answer.response.status answer.response.failure_code)
            s.conversation.database_context;
    };
  }

  -- The response asks for approval.
  ask_approval :
      Bool
      → ProposeToolCall
      → ToolCallRequest
      → Answer
      → Session World
      → Option AgentReply × Session World
  unfolding decline_card risk_level_of blast_radius_of
  ask_approval true action request answer s = (none, amend (decline_card action) s)
  ask_approval false action request answer s = (
    some (record {
      status = approval_required;
      approval_card = some (record {
        approval_id = answer.response.approval_id;
        tool_id = action.tool_id;
        reason = action.reason;
        risk_level = risk_level_of answer.response.risk;
        blast_radius = blast_radius_of answer.response.risk;
        expires_in_seconds = 600;
      });
      investigation_id = some s.investigation.investigation_id;
      approval_still_pending = false;
    }),
    record s {
      conversation = record s.conversation {
        pending_approval = some (record {
          approval_id = answer.response.approval_id;
          tool_id = action.tool_id;
          summary = action.reason;
          request = request;
        });
      };
    },
  )

  -- A refusal that the model can put right goes back to it while turns are left.
  note_denial : ProposeToolCall → Answer → InvestigationState → InvestigationState
  unfolding entry_of concat code_text
  note_denial action answer inv =
      add_evidence
        (concat (
          action.tool_id
          ∷ " was rejected ("
          ∷ code_text answer.response.failure_code
          ∷ "): "
          ∷ answer.message
          ∷ []))
        (add_entry
          (entry_of action (EntryResult.denied answer.message answer.response.failure_code)) inv)

  deny : ProposeToolCall → Answer → Session World → Option AgentReply × Session World
  unfolding note_denial is_self_correctable
  deny action answer s =
      if is_self_correctable answer.response.failure_code
        && ltb s.investigation.turn_count max_investigation_turns
      then (none, amend (note_denial action answer) s)
      else (some (plain_reply denied s.investigation), s)

  note_failure : ProposeToolCall → String → String → InvestigationState → InvestigationState
  unfolding entry_of concat
  note_failure action said text inv =
      add_evidence (concat (action.tool_id ∷ said ∷ text ∷ []))
        (add_entry (entry_of action (failed text)) inv)

  note_execution : ProposeToolCall → Arguments → Answer → InvestigationState → InvestigationState
  unfolding entry_of concat affected_summary update_pending_verification
  note_execution action arguments answer inv =
      update_pending_verification services.container_text menu.tool_operation_types action arguments
        answer.response.result
        (record (add_evidence
          (concat (
            action.tool_id
            ∷ ": "
            ∷ answer.message
            ∷ affected_summary services.container_text answer.response.result
            ∷ []))
          (add_entry (entry_of action (executed answer.response.result)) inv)) {
            actions =
                inv.actions
                ++ record { tool_id = action.tool_id; result = answer.response.result } ∷ [];
          })

  -- what follows a response, by its status
  relay :
      ToolCallStatus
      → ProposeToolCall
      → ToolCallRequest
      → Answer
      → Session World
      → Option AgentReply × Session World
  unfolding ask_approval deny note_failure note_execution
  relay ToolCallStatus.approval_required action request answer s =
      ask_approval s.investigation.read_only action request answer s
  relay ToolCallStatus.denied action request answer s = deny action answer s
  relay ToolCallStatus.failed action request answer s =
      (none, amend (note_failure action " failed: " answer.message) s)
  relay ToolCallStatus.executed action request answer s =
      (none, amend (note_execution action request.arguments answer) s)

  unfoldable pub respond :
      ProposeToolCall
      → ToolCallRequest
      → Result String Answer
      → Session World
      → Option AgentReply × Session World
  unfolding note_failure remember_database relay
  respond action request (err text) s = (
    some (plain_reply error s.investigation),
    amend (note_failure action " did not respond in time: " text) s,
  )
  respond action request (ok answer) s =
      relay answer.response.status action request answer (remember_database request answer s)

  send : ProposeToolCall → Session World → Option AgentReply × Session World
  unfolding request_for respond
  send action s =
      let (id, named) = services.new_request_id s.world in
      let request = request_for action id s in
      let (response, answered) = services.submit request named in
      respond action request response (record s { sent = request ∷ s.sent; world = answered })

  unfoldable pub submit_and_relay :
      ProposeToolCall → Session World → Option AgentReply × Session World
  unfolding drop_proposal send is_confirmed_read_tool
  submit_and_relay action s =
      if s.investigation.read_only
        && not (is_confirmed_read_tool menu.tool_operation_types action.tool_id)
      then (none, amend (drop_proposal action) s)
      else send action s
