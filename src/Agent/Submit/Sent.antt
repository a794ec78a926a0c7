-- ===== src/Agent/Submit/Sent.antt =====
-- agent/orchestrator.py: what `_submit_and_relay` sends, and what it keeps of the conversation.
use mathlib.Core.Path.{subst⁻¹}
use numi_dba_agent.Common.{
  ◌+◌, ◌≤◌, String, true, none, ◌∷◌, ◌≡◌, refl, ap, ◌∙◌, Bool-cases, inl, inr, All, length, arith,
}
use numi_dba_agent.Common.Dict.{Dict}
use numi_dba_agent.Common.Exec.{Result, ok, err}
use numi_dba_agent.Models.Tool.{OperationType, ToolCallRequest, ToolCallStatus}
use numi_dba_agent.Agent.Actions.{ProposeToolCall, HasNoCard}
use numi_dba_agent.Agent.State.{ConversationState}
use numi_dba_agent.Agent.Session.{Menu, Answer, Services, Session}
use numi_dba_agent.Agent.Limits.{is_confirmed_read_tool}
use numi_dba_agent.Agent.Submit.{
  request_for, ask_approval, deny, relay, respond, send, submit_and_relay, remember_database,
  drop_proposal,
}
use numi_dba_agent.Agent.Submit.Frame.{respond-IsSameRun}

-- Nobody watches: only confirmed reads were sent, and no approval waits.
pub record IsUnattended {World : Type 0} (types : Dict String OperationType) (s : Session World)
    : Type 0 where
  pub mode : s.investigation.read_only ≡ true
  pub no_pending : s.conversation.pending_approval ≡ none
  pub reads : All (λ (r : ToolCallRequest). is_confirmed_read_tool types r.tool_id ≡ true) s.sent

module _ {World : Type 0} (services : Services World) (menu : Menu) where
  relay-sent :
      (status : ToolCallStatus) (action : ProposeToolCall) (request : ToolCallRequest)
      (answer : Answer) (s : Session World)
      → (relay services menu status action request answer s).1.sent ≡ s.sent
  unfolding relay deny ask_approval
  relay-sent ToolCallStatus.approval_required action request answer s = ground arith
  relay-sent ToolCallStatus.denied action request answer s = ground arith
  relay-sent ToolCallStatus.failed action request answer s = refl
  relay-sent ToolCallStatus.executed action request answer s = refl

  respond-sent :
      (action : ProposeToolCall) (request : ToolCallRequest) (response : Result String Answer)
      (s : Session World)
      → (respond services menu action request response s).1.sent ≡ s.sent
  unfolding respond remember_database
  respond-sent action request (err text) s = refl
  respond-sent action request (ok answer) s =
      relay-sent answer.response.status action request answer
        (remember_database services menu request answer s)

  -- at most one request goes out
  pub submit_and_relay-sent :
      (action : ProposeToolCall) (s : Session World)
      → length (submit_and_relay services menu action s).1.sent ≤ length s.sent + 1
  unfolding submit_and_relay send
  submit_and_relay-sent action s = ground (arith, respond-sent action _ _ _)

  -- an unattended run is given no card and stores none
  relay-attended :
      (status : ToolCallStatus) (action : ProposeToolCall) (request : ToolCallRequest)
      (answer : Answer) (s : Session World)
      → s.investigation.read_only ≡ true
      → HasNoCard (relay services menu status action request answer s).0
        × ((relay services menu status action request answer s).1.conversation ≡ s.conversation)
  unfolding relay deny ask_approval
  relay-attended ToolCallStatus.approval_required action request answer s h = rw h (tt, refl)
  relay-attended ToolCallStatus.denied action request answer s h = ground arith
  relay-attended ToolCallStatus.failed action request answer s h = (tt, refl)
  relay-attended ToolCallStatus.executed action request answer s h = (tt, refl)

  respond-attended :
      (action : ProposeToolCall) (request : ToolCallRequest) (response : Result String Answer)
      (s : Session World)
      → s.investigation.read_only ≡ true
      → HasNoCard (respond services menu action request response s).0
        × ((respond services menu action request response s).1.conversation.pending_approval
            ≡ s.conversation.pending_approval)
  unfolding respond remember_database
  respond-attended action request (err text) s h = (refl, refl)
  respond-attended action request (ok answer) s h =
      let (card, kept) =
        relay-attended answer.response.status action request answer
          (remember_database services menu request answer s) h in
      (card, ap (λ (c : ConversationState). c.pending_approval) kept)

  send-IsUnattended :
      (action : ProposeToolCall) (s : Session World)
      → IsUnattended menu.tool_operation_types s
      → is_confirmed_read_tool menu.tool_operation_types action.tool_id ≡ true
      → HasNoCard (send services menu action s).0
        × IsUnattended menu.tool_operation_types (send services menu action s).1
  unfolding send request_for
  send-IsUnattended action s h confirmed =
      let (id, named) = services.new_request_id s.world in
      let request = request_for services menu action id s in
      let (response, answered) = services.submit request named in
      let before = record s { sent = request ∷ s.sent; world = answered } in
      let (card, kept) = respond-attended action request response before h.mode in
      (
        card,
        record {
          mode = (respond-IsSameRun services menu action request response before).mode ∙ h.mode;
          no_pending = kept ∙ h.no_pending;
          reads =
              subst⁻¹
                (All (λ (r : ToolCallRequest).
                  is_confirmed_read_tool menu.tool_operation_types r.tool_id ≡ true))
                (respond-sent action request response before) (confirmed, h.reads);
        },
      )

  pub submit_and_relay-IsUnattended :
      (action : ProposeToolCall) (s : Session World)
      → IsUnattended menu.tool_operation_types s
      → HasNoCard (submit_and_relay services menu action s).0
        × IsUnattended menu.tool_operation_types (submit_and_relay services menu action s).1
  unfolding submit_and_relay drop_proposal
  submit_and_relay-IsUnattended action s h =
      elim (Bool-cases (is_confirmed_read_tool menu.tool_operation_types action.tool_id)) [
        | inl e ↦ ground (arith, send-IsUnattended action s h e)
        | inr e ↦ ground arith
      ]
