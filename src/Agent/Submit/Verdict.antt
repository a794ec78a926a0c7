-- ===== src/Agent/Submit/Verdict.antt =====
-- agent/orchestrator.py: `_update_pending_verification`, which remembers that a write still waits for
-- an independent check, and what that check showed.
use numi_dba_agent.Common.{
  String, Bool, true, false, Option, none, some, List, ◌==◌, contains, string_eq, if◌then◌else◌,
}
use numi_dba_agent.Common.Dict
use numi_dba_agent.Common.Dict.{Dict}
use numi_dba_agent.Models.Json.{Json, Arguments}
use numi_dba_agent.Models.Tool.{OperationType, operation_type_eq, write, ToolCallResult}
use numi_dba_agent.Agent.Actions.{ProposeToolCall}
use numi_dba_agent.Agent.State.{InvestigationState, PendingVerification, resolved, unresolved}
use numi_dba_agent.Agent.Limits.{
  verification_tools_by_write_tool, verification_still_shows_condition,
}

unfoldable pub is_write : Option OperationType → Bool
is_write none = false
is_write (some operation) = operation == write

-- `action.tool_id in investigation.pending_verification["verification_tools"]`
unfoldable pub is_recheck : Option PendingVerification → String → Bool
unfolding string_eq
is_recheck none tool_id = false
is_recheck (some pending) tool_id = contains pending.verification_tools tool_id

pending_session : Option PendingVerification → Option Json
pending_session none = none
pending_session (some pending) = pending.session_id

-- a write with a known check begins to wait for it
unfoldable pub await_check :
    Option (List String)
    → Bool
    → ProposeToolCall
    → Arguments
    → InvestigationState
    → InvestigationState
unfolding Dict.get
await_check none known action arguments inv = inv
await_check (some tools) false action arguments inv = inv
await_check (some tools) true action arguments inv = record inv {
  pending_verification = some (record {
    tool_id = action.tool_id;
    verification_tools = tools;
    session_id = Dict.get arguments "session_id";
    reason = action.reason;
  });
  last_verification = none;
}

unfoldable pub update_pending_verification :
    (Json → String)
    → Dict String OperationType
    → ProposeToolCall
    → Arguments
    → Option ToolCallResult
    → InvestigationState
    → InvestigationState
unfolding is_recheck pending_session await_check is_write verification_still_shows_condition
    verification_tools_by_write_tool
update_pending_verification container_text types action arguments result inv =
    if is_recheck inv.pending_verification action.tool_id
    then record inv {
      last_verification = some (
          if verification_still_shows_condition container_text action.tool_id
            (pending_session inv.pending_verification) result
          then unresolved
          else resolved);
      pending_verification = none;
    }
    else await_check (Dict.get verification_tools_by_write_tool action.tool_id)
        (is_write (Dict.get types action.tool_id)) action arguments inv
