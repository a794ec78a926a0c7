-- ===== src/Agent/State.antt =====
-- agent/context_manager.py: the state of a conversation and of its investigation.
use numi_dba_agent.Common.{
  ℕ, String, Bool, true, false, Option, none, some, List, [], ◌==◌, Eq, if◌then◌else◌,
}
use numi_dba_agent.Models.Failures.{FailureCode}
use numi_dba_agent.Models.Json.{Json, Arguments}
use numi_dba_agent.Models.Tool.{ToolCallRequest, ToolCallResult}

pub data InvestigationStage : Type 0 where
  investigating awaiting_clarification awaiting_verification : InvestigationStage
  concluded_verified concluded_unresolved concluded_unverified concluded_no_action :
      InvestigationStage

unfoldable pub InvestigationStage-discrete : Discrete InvestigationStage
InvestigationStage-discrete = hlevel

instance abbrev pub investigation_stage_eq : Eq InvestigationStage
investigation_stage_eq = record { dec = InvestigationStage-discrete }

-- `request` stands for the dict of the `ToolCallRequest` that waits
pub record PendingApproval : Type 0 where
  pub approval_id : Option String
  pub tool_id : String
  pub summary : String
  pub request : ToolCallRequest

pub record PendingVerification : Type 0 where
  pub tool_id : String
  pub verification_tools : List String
  pub session_id : Option Json
  pub reason : String

pub data Verification : Type 0 where
  resolved unresolved : Verification

-- the `result` of a transcript entry, by the dict that each place writes
pub data EntryResult : Type 0 where
  executed : Option ToolCallResult → EntryResult
  failed : String → EntryResult
  denied : String → Option FailureCode → EntryResult
  rejected_names : List String → String → EntryResult
  pending_tool : String → String → EntryResult
  review_issue : Option String → String → EntryResult
  dropped_tool : String → Option String → String → EntryResult

pub record Entry : Type 0 where
  pub tool_id : String
  pub reason : String
  pub result : EntryResult

-- an entry of `actions`
pub record Done : Type 0 where
  pub tool_id : String
  pub result : Option ToolCallResult

-- `target` and `hypotheses`, which nothing writes, are left out
pub record InvestigationState : Type 0 where
  pub investigation_id : String
  pub problem : String
  pub status : InvestigationStage
  pub evidence : List String
  pub findings : List String
  pub recommendations : List String
  pub actions : List Done
  pub transcript : List Entry
  pub turn_count : ℕ
  pub playbook_id : Option String
  pub playbook_step : ℕ
  pub read_only : Bool
  pub consecutive_record_observations : ℕ
  pub clarification_count : ℕ
  pub last_message : String
  pub pending_verification : Option PendingVerification
  pub last_verification : Option Verification
  pub remote_bootstrap_done : Bool
  pub memory_context : List Json

-- The investigation stands beside its conversation, in a `Session`: both names that the source has
-- for it are one object. The choice of a model and the fallback notices are left out.
pub record ConversationState : Type 0 where
  pub conversation_id : String
  pub channel : String
  pub channel_thread_id : String
  pub channel_account_id : String
  pub database_context : Arguments
  pub pending_approval : Option PendingApproval

abbrev pub is_pending : Option PendingVerification → Bool
is_pending none = false
is_pending (some p) = true

unfoldable pub is_concluded : InvestigationStage → Bool
is_concluded concluded_verified = true
is_concluded concluded_unresolved = true
is_concluded concluded_unverified = true
is_concluded concluded_no_action = true
is_concluded _ = false

unfoldable pub effective_status : InvestigationState → InvestigationStage
unfolding InvestigationStage-discrete
effective_status inv =
    if inv.status == investigating
    then (if is_pending inv.pending_verification then awaiting_verification else investigating)
    else inv.status

unfoldable pub new_conversation : String → String → String → String → ConversationState
new_conversation conversation_id channel thread account = record {
  conversation_id = conversation_id;
  channel = channel;
  channel_thread_id = thread;
  channel_account_id = account;
  database_context = [];
  pending_approval = none;
}

-- `InvestigationState(...)`, its defaults written out
unfoldable pub new_investigation : String → String → Option String → Bool → InvestigationState
new_investigation id problem playbook_id read_only = record {
  investigation_id = id;
  problem = problem;
  status = investigating;
  evidence = [];
  findings = [];
  recommendations = [];
  actions = [];
  transcript = [];
  turn_count = 0;
  playbook_id = playbook_id;
  playbook_step = 0;
  read_only = read_only;
  consecutive_record_observations = 0;
  clarification_count = 0;
  last_message = "";
  pending_verification = none;
  last_verification = none;
  remote_bootstrap_done = false;
  memory_context = [];
}
