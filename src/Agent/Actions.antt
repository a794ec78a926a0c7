-- ===== src/Agent/Actions.antt =====
-- agent/planner/actions.py and agent/reply.py: what the planner may propose, and what the agent
-- hands back to a channel. `recommended_tool_call` of a conclusion, which nothing reads, and the
-- prose of replies and cards are left out.
use numi_dba_agent.Common.{ℕ, String, Bool, Option, none, some, ◌≡◌, Eq}
use numi_dba_agent.Models.Json.{Arguments}
use numi_dba_agent.Models.Risk.{RiskLevel, BlastRadius}

pub record ProposeToolCall : Type 0 where
  pub tool_id : String
  pub arguments : Arguments
  pub target : Arguments
  pub reason : String

pub data Confidence : Type 0 where
  confirmed likely unable_to_confirm : Confidence

pub record Conclude : Type 0 where
  pub summary : String
  pub likely_root_cause : Option String
  pub confidence : Confidence
  pub recommendation : Option String

pub data AgentAction : Type 0 where
  ask_clarification : String → AgentAction
  propose_tool_call : ProposeToolCall → AgentAction
  record_observation : String → AgentAction
  conclude : Conclude → AgentAction

pub record CritiqueVerdict : Type 0 where
  pub sound : Bool
  pub issue : Option String

pub record ApprovalCard : Type 0 where
  pub approval_id : Option String
  pub tool_id : String
  pub reason : String
  pub risk_level : Option RiskLevel  -- `none` is "UNKNOWN"
  pub blast_radius : Option BlastRadius
  pub expires_in_seconds : ℕ

pub data ReplyStatus : Type 0 where
  ok approval_required denied error clarification : ReplyStatus

unfoldable pub ReplyStatus-discrete : Discrete ReplyStatus
ReplyStatus-discrete = hlevel

instance abbrev pub reply_status_eq : Eq ReplyStatus
reply_status_eq = record { dec = ReplyStatus-discrete }

pub record AgentReply : Type 0 where
  pub status : ReplyStatus
  pub approval_card : Option ApprovalCard
  pub investigation_id : Option String
  pub approval_still_pending : Bool

-- the reply, if there is one, shows no approval card
abbrev pub HasNoCard : Option AgentReply → Type 0
HasNoCard none = Unit
HasNoCard (some reply) = reply.approval_card ≡ none
