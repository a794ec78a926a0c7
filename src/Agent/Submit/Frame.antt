-- ===== src/Agent/Submit/Frame.antt =====
-- agent/orchestrator.py: what `_submit_and_relay` leaves alone in the investigation.
use numi_dba_agent.Common.{
  String, Bool, true, false, Option, none, some, List, ◌≡◌, refl, Bool-cases, inl, inr, arith,
}
use numi_dba_agent.Common.Dict.{Dict}
use numi_dba_agent.Common.Exec.{Result, ok, err}
use numi_dba_agent.Models.Json.{Json, Arguments}
use numi_dba_agent.Models.Tool.{OperationType, ToolCallRequest, ToolCallResult, ToolCallStatus}
use numi_dba_agent.Agent.Actions.{ProposeToolCall}
use numi_dba_agent.Agent.State.{InvestigationState}
use numi_dba_agent.Agent.Session.{Menu, Answer, Services, Session}
use numi_dba_agent.Agent.Submit.Verdict.{await_check, is_recheck, update_pending_verification}
use numi_dba_agent.Agent.Submit.{
  decline_card, ask_approval, deny, note_execution, relay, respond, send, submit_and_relay,
}

-- the same investigation, as far as its mode and its turns go
pub record IsSameRun (inv inv' : InvestigationState) : Type 0 where
  pub mode : inv'.read_only ≡ inv.read_only
  pub turns : inv'.turn_count ≡ inv.turn_count

await_check-IsSameRun :
    (tools : Option (List String)) (known : Bool) (action : ProposeToolCall) (arguments : Arguments)
    (inv : InvestigationState)
    → IsSameRun inv (await_check tools known action arguments inv)
unfolding await_check
await_check-IsSameRun none known action arguments inv = record { mode = refl; turns = refl }
await_check-IsSameRun (some t) false action arguments inv = record { mode = refl; turns = refl }
await_check-IsSameRun (some t) true action arguments inv = record { mode = refl; turns = refl }

pub update_pending_verification-IsSameRun :
    (text : Json → String) (types : Dict String OperationType) (action : ProposeToolCall)
    (arguments : Arguments) (result : Option ToolCallResult) (inv : InvestigationState)
    → IsSameRun inv (update_pending_verification text types action arguments result inv)
unfolding update_pending_verification
update_pending_verification-IsSameRun text types action arguments result inv =
    elim (Bool-cases (is_recheck inv.pending_verification action.tool_id)) [
      | inl yes_ ↦ rw yes_ (record { mode = refl; turns = refl })
      | inr no_ ↦ rw no_ (await_check-IsSameRun _ _ action arguments inv)
    ]

module _ {World : Type 0} (services : Services World) (menu : Menu) where
  ask_approval-IsSameRun :
      (unattended : Bool) (action : ProposeToolCall) (request : ToolCallRequest) (answer : Answer)
      (s : Session World)
      → IsSameRun s.investigation
          (ask_approval services menu unattended action request answer s).1.investigation
  unfolding ask_approval decline_card
  ask_approval-IsSameRun true action request answer s = record { mode = refl; turns = refl }
  ask_approval-IsSameRun false action request answer s = record { mode = refl; turns = refl }

  relay-IsSameRun :
      (status : ToolCallStatus) (action : ProposeToolCall) (request : ToolCallRequest)
      (answer : Answer) (s : Session World)
      → IsSameRun s.investigation
          (relay services menu status action request answer s).1.investigation
  unfolding relay deny ask_approval decline_card note_execution
  relay-IsSameRun ToolCallStatus.approval_required action request answer s =
      ask_approval-IsSameRun s.investigation.read_only action request answer s
  relay-IsSameRun ToolCallStatus.denied action request answer s = ground arith
  relay-IsSameRun ToolCallStatus.failed action request answer s = ground arith
  relay-IsSameRun ToolCallStatus.executed action request answer s = ground (
    arith,
    update_pending_verification-IsSameRun services.container_text menu.tool_operation_types action
        request.arguments answer.response.result _,
  )

  pub respond-IsSameRun :
      (action : ProposeToolCall) (request : ToolCallRequest) (response : Result String Answer)
      (s : Session World)
      → IsSameRun s.investigation (respond services menu action request response s).1.investigation
  unfolding respond
  respond-IsSameRun action request (err text) s = ground arith
  respond-IsSameRun action request (ok answer) s =
      relay-IsSameRun answer.response.status action request answer _

  pub submit_and_relay-IsSameRun :
      (action : ProposeToolCall) (s : Session World)
      → IsSameRun s.investigation (submit_and_relay services menu action s).1.investigation
  unfolding submit_and_relay send
  submit_and_relay-IsSameRun action s = ground (arith, respond-IsSameRun action _ _ _)
