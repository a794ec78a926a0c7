-- ===== src/Agent/Decision.antt =====
-- agent/orchestrator.py: `handle_approval_decision`, which carries a DBA's answer to an approval card
-- to the Gateway and then sends the approved request once more.
pub mod Once
use numi_dba_agent.Common.{
  String, Bool, true, false, Option, none, some, List, [], ◌∷◌, ◌++◌, ◌≡◌, refl, ◌==◌, string_eq,
  arith, if◌then◌else◌,
}
use numi_dba_agent.Common.Dict
use numi_dba_agent.Common.Dict.{Dict}
use numi_dba_agent.Common.Exec.{Result, ok, err}
use numi_dba_agent.Models.Tool.{ToolCallRequest, ToolCallStatus}
use numi_dba_agent.Agent.Actions.{AgentReply, ReplyStatus, error}
use numi_dba_agent.Agent.State.{
  ConversationState, InvestigationState, PendingApproval, new_conversation,
}
use numi_dba_agent.Agent.Session.{Answer}

-- what the Gateway answers to an approval: the `status` of the dict, by the values that are told apart
pub data Verdict : Type 0 where
  refused awaiting_second approved : Verdict

-- `reject` and `approve` do not catch a failure of the network; `err text` is that exception.
pub record Desk (World : Type 0) : Type 0 where
  pub reject : Option String → String → String → World → Result String (Unit {0}) × World
  pub approve : Option String → String → String → World → Result String Verdict × World
  pub submit : ToolCallRequest → World → Result String Answer × World

-- a conversation with its investigation, the requests sent, the latest first, and the world
pub record Talk (World : Type 0) : Type 0 where
  pub conversation : ConversationState
  pub investigation : Option InvestigationState
  pub sent : List ToolCallRequest
  pub world : World

abbrev says : ReplyStatus → Bool → AgentReply
says status still_pending = record {
  status = status;
  approval_card = none;
  investigation_id = none;
  approval_still_pending = still_pending;
}

id_of : Option InvestigationState → Option String
id_of none = none
id_of (some inv) = some inv.investigation_id

-- the request that waited, with the approval's identifier
abbrev pub approved_request : PendingApproval → ToolCallRequest
approved_request pending = record pending.request { approval_id = pending.approval_id }

module _ {World : Type 0} (desk : Desk World) (channel account : String) where
  clear : Talk World → Talk World
  clear s = record s { conversation = record s.conversation { pending_approval = none } }

  note_action : String → Answer → Option InvestigationState → Option InvestigationState
  note_action tool_id answer none = none
  note_action tool_id answer (some inv) = some (record inv {
    actions = inv.actions ++ record { tool_id = tool_id; result = answer.response.result } ∷ [];
  })

  completed : ToolCallStatus → PendingApproval → Answer → Talk World → AgentReply × Talk World
  unfolding note_action id_of
  completed ToolCallStatus.executed pending answer s = (
    record (says ReplyStatus.ok false) { investigation_id = id_of s.investigation },
    record s { investigation = note_action pending.tool_id answer s.investigation },
  )
  completed _ pending answer s = (says error false, s)

  answered : PendingApproval → Result String Answer → Talk World → AgentReply × Talk World
  unfolding completed
  answered pending (err text) s = (says error false, s)
  answered pending (ok answer) s = completed answer.response.status pending answer s

  resubmit : PendingApproval → Talk World → AgentReply × Talk World
  unfolding clear answered
  resubmit pending s =
      let request = approved_request pending in
      let (response, after) = desk.submit request s.world in
      answered pending response (record (clear s) { sent = request ∷ s.sent; world = after })

  settled :
      PendingApproval → Result String Verdict → Talk World → Result String AgentReply × Talk World
  unfolding resubmit
  settled pending (err text) s = (err text, s)
  settled pending (ok refused) s = (ok (says error true), s)
  settled pending (ok awaiting_second) s = (ok (says ReplyStatus.ok true), s)
  settled pending (ok approved) s = let (reply, s') = resubmit pending s in (ok reply, s')

  rejected : Result String (Unit {0}) → Talk World → Result String AgentReply × Talk World
  unfolding clear
  rejected (err text) s = (err text, s)
  rejected (ok done) s = (ok (says ReplyStatus.ok false), clear s)

  decided : Option PendingApproval → String → Talk World → Result String AgentReply × Talk World
  unfolding rejected settled string_eq
  decided none decision s = (ok (says error false), s)
  decided (some pending) decision s =
      if decision == "reject"
      then (let (r, after) = desk.reject pending.approval_id channel account s.world in
          rejected r (record s { world = after }))
      else (let (r, after) = desk.approve pending.approval_id channel account s.world in
          settled pending r (record s { world = after }))

  unfoldable pub handle_approval_decision :
      String → Talk World → Result String AgentReply × Talk World
  unfolding decided
  handle_approval_decision decision s = decided s.conversation.pending_approval decision s
