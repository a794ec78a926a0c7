-- ===== src/Tests/Agents.antt =====
-- The agent at concrete inputs: a model that follows a script, and a Gateway that executes each call.
use numi_dba_agent.Common.{
  String, true, false, none, some, List, [], ◌∷◌, ◌≡◌, refl, ◌⊎◌, All, string_eq,
}
use numi_dba_agent.Common.Dict
use numi_dba_agent.Common.Exec.{Result, ok, err}
use numi_dba_agent.Models.Json.{str, Arguments}
use numi_dba_agent.Models.Tool.{ToolCallStatus, read, write}
use numi_dba_agent.Agent.Actions.{
  Conclude, likely, AgentAction, propose_tool_call, conclude, AgentReply, ReplyStatus,
}
use numi_dba_agent.Agent.State.{
  InvestigationState, PendingApproval, new_conversation, new_investigation,
}
use numi_dba_agent.Agent.Session.{Menu, Answer, Services, Session}
use numi_dba_agent.Agent.Continue.{Backend}
use numi_dba_agent.Agent.Loop.{run_investigation_loop, no_root_cause}
use numi_dba_agent.Agent.Loop.Ends.{Ends, run_investigation_loop-Ends}
use numi_dba_agent.Agent.Conclude.{finalize_conclude, conclusion_stage}
use numi_dba_agent.Agent.Conclude.Grounding.{
  ungrounded_identifiers, missing_names, haystack, claimed_text,
}
use numi_dba_agent.Agent.Conclude.Sound.{IsGrounded, finalize_conclude_sound}
use numi_dba_agent.Agent.Submit.{request_for}
use numi_dba_agent.Agent.Decision.{Desk, Talk, approved, handle_approval_decision}
use numi_dba_agent.Agent.Decision.Once.{Outcome, handle_approval_decision-Outcome}
use numi_dba_agent.Agent.Targets.{
  ServerInfo, TargetHints, is_named_by, is_switched, find_matching_servers,
  environment_for_instance, target_context,
}
use numi_dba_agent.Agent.Targets.Agreement.{Agrees, environment_for_instance-Agrees}
use numi_dba_agent.Agent.Targets.Switching.{kept, target_context_switched}
use numi_dba_agent.Agent.Playbooks.{playbooks}
use numi_dba_agent.Agent.Playbooks.Steps.{IsRunnable, playbooks-IsRunnable}
use numi_dba_agent.Agent.Unattended.{
  RunIds, is_ok, is_clean, unattended_summary, run_comprehensive_summary,
  run_triggered_investigation,
}
use numi_dba_agent.Agent.Unattended.Facts.{
  LeavesNothing, tools_for, digest_session, alert_session, unattended_runs-LeavesNothing,
  no_root_cause-is_clean,
}
use numi_dba_agent.Common.Format.{join}
use numi_dba_agent.Common.Text.{lower, strip, is_in}
use numi_dba_agent.ServerReference.{normalize_server_reference}
use numi_dba_agent.Models.Json.{given}
use numi_dba_agent.ToolRegistry.{build}
use numi_dba_agent.ToolCatalog.{build_tool_catalog}
use numi_dba_agent.Tests.Catalog.{schemas, switched_off}
use numi_dba_agent.Tests.Samples.{get_health, kill_session}

-- the actions that the model has left
abbrev pub Script : Type 0
Script = List AgentAction

abbrev pub pop : Script → Result String AgentAction × Script
pop [] = (err "no more actions", [])
pop (a ∷ rest) = (ok a, rest)

abbrev pub done : Answer
done = record {
  response = record {
    status = ToolCallStatus.executed;
    execution_id = some "exec-1";
    approval_id = none;
    result = none;
    failure_code = none;
    risk = none;
    policy_decision = none;
  };
  message = "done";
}

abbrev pub services : Services Script
services = record {
  decide_next_action = λ question w. pop w;
  critique_conclusion = λ inv action w. (err "off", w);
  submit = λ request w. (ok done, w);
  new_request_id = λ w. ("req-1", w);
  log_decision_event = λ event w. w;
  self_critique_enabled = false;
  camel_case_names = λ text. "WriteLog" ∷ [];
  dump_transcript = λ entries. "";
  container_text = λ v. "";
}

abbrev pub backend : Backend Script
backend = record {
  available_tools = λ channel account w. (ok (get_health ∷ kill_session ∷ []), w);
  list_servers = λ w. ([], w);
  create_investigation = λ created w. w;
  update_investigation = λ id updated w. w;
  get_investigation_memory = λ server id limit w. ([], w);
  get_cross_server_patterns = λ playbook environment server w. ([], w);
  memory_lookback = 3;
}

abbrev kill : AgentAction
kill = propose_tool_call (record {
  tool_id = "database.kill_session";
  arguments = ("session_id", str "9182") ∷ [];
  target = [];
  reason = "blocks others";
})

abbrev verdict : Conclude
verdict = record {
  summary = "WriteLog waits dominate.";
  likely_root_cause = some "WriteLog waits";
  confidence = likely;
  recommendation = none;
}

abbrev menu : Menu
menu = record {
  channel = "slack";
  channel_account_id = "ana";
  available_ids = "database.get_health" ∷ "database.kill_session" ∷ [];
  tool_requirements = [];
  tool_allowed_arguments = [];
  tool_operation_types = ("database.get_health", read) ∷ ("database.kill_session", write) ∷ [];
}

abbrev inv : InvestigationState
inv = new_investigation "inv-1" "why do writes wait on WriteLog?" none false

abbrev session : Session Script
session = record {
  conversation = new_conversation "conv-1" "slack" "" "ana";
  investigation = inv;
  sent = [];
  world = kill ∷ conclude verdict ∷ [];
}

run_investigation_loop-Ends_example :
    Ends session
      (run_investigation_loop services menu session).0
      (run_investigation_loop services menu session).1
run_investigation_loop-Ends_example = run_investigation_loop-Ends services menu session

-- a conclusion that every name in it is grounded in the problem
abbrev at_conclusion : Session Script
at_conclusion = record session { world = [] }

abbrev verdict_reply : AgentReply
verdict_reply = record {
  status = ReplyStatus.ok;
  approval_card = none;
  investigation_id = some "inv-1";
  approval_still_pending = false;
}

finalize_conclude_sound_example :
    All (IsGrounded (haystack services inv)) ("WriteLog" ∷ [])
    × ((false ≡ true) ⊎ (inv.pending_verification ≡ none))
    × ((finalize_conclude services false verdict at_conclusion).1.investigation.status
        ≡ conclusion_stage inv)
unfolding finalize_conclude ungrounded_identifiers missing_names haystack claimed_text is_in lower
    join new_investigation
finalize_conclude_sound_example =
    finalize_conclude_sound services verdict false at_conclusion verdict_reply refl

abbrev pub ids : RunIds
ids = record { run = "run-1"; investigation = "inv-2" }

unattended_runs-LeavesNothing_example :
    LeavesNothing
      (tools_for services backend "email" "numi" (
        digest_session services backend ids "pg-prod-01" "production" "email" "numi" "lag"
          (kill ∷ conclude verdict ∷ [])))
      (run_comprehensive_summary services backend ids "pg-prod-01" "production" "email" "numi"
        (kill ∷ conclude verdict ∷ [])).1
    × LeavesNothing
        (tools_for services backend "email" "numi" (
          alert_session services backend ids "pg-prod-01" "production" "email" "numi" "lag"
            (kill ∷ conclude verdict ∷ [])))
        (run_triggered_investigation services backend ids "pg-prod-01" "production" "email" "numi"
          "lag"
          (kill ∷ conclude verdict ∷ [])).1
unattended_runs-LeavesNothing_example =
    unattended_runs-LeavesNothing services backend ids "pg-prod-01" "production" "email" "numi"
      "lag" (kill ∷ conclude verdict ∷ [])

abbrev checked_once : Session Script
checked_once = record session {
  investigation = record inv {
    actions = record { tool_id = "database.get_health"; result = none } ∷ [];
  };
}

no_root_cause-is_clean_example :
    (reply : AgentReply) × ((no_root_cause services menu checked_once).0 ≡ some reply)
    × (is_ok (
          unattended_summary "pg-prod-01" "production"
            (no_root_cause services menu checked_once).1.investigation
            reply)
        ≡ true)
    × (is_clean (
          unattended_summary "pg-prod-01" "production"
            (no_root_cause services menu checked_once).1.investigation
            reply)
        ≡ true)
unfolding new_investigation
no_root_cause-is_clean_example =
    no_root_cause-is_clean services menu "pg-prod-01" "production" checked_once refl refl refl

-- a DBA answers an approval card
abbrev waiting : PendingApproval
waiting = record {
  approval_id = some "appr-1";
  tool_id = "database.kill_session";
  summary = "blocks others";
  request =
      request_for services menu
        (record {
          tool_id = "database.kill_session";
          arguments = ("session_id", str "9182") ∷ [];
          target = [];
          reason = "blocks others";
        })
        "req-1" session;
}

abbrev desk : Desk Script
desk = record {
  reject = λ id channel account w. (ok tt, w);
  approve = λ id channel account w. (ok approved, w);
  submit = λ request w. (ok done, w);
}

abbrev talk : Talk Script
talk = record {
  conversation = record session.conversation { pending_approval = some waiting };
  investigation = some inv;
  sent = [];
  world = [];
}

handle_approval_decision-Outcome_example :
    Outcome desk "slack" "ana" talk "approve" waiting
      (handle_approval_decision desk "slack" "ana" "approve" talk)
handle_approval_decision-Outcome_example =
    handle_approval_decision-Outcome desk "slack" "ana" talk "approve" waiting refl

-- two servers with the same alias, and a conversation that moves to them
abbrev known : List ServerInfo
known =
    record {
      id = "pg-prod-01";
      aliases = "core" ∷ [];
      host = none;
      environment = some "production";
    }
    ∷ record {
      id = "pg-prod-02";
      aliases = "core2" ∷ [];
      host = none;
      environment = some "production";
    }
    ∷ []

abbrev hints : TargetHints
hints = record { environment_hint = none; database_hint = none; instance_hint = some "core" }

abbrev before : Arguments
before =
    ("instance", str "mysql-uat") ∷ ("environment", str "uat") ∷ ("database", str "orders") ∷ []

target_context_switched_example :
    (Dict.get (target_context known hints before) "instance" ≡ some (str "core"))
    × (Dict.get (target_context known hints before) "environment"
        ≡ kept (environment_for_instance known "core"))
    × (Dict.get (target_context known hints before) "database" ≡ kept none)
unfolding is_switched Dict.get string_eq given
target_context_switched_example =
    target_context_switched known hints before "core" refl refl refl refl

environment_for_instance-Agrees_example :
    All (Agrees "production") (find_matching_servers known "core")
unfolding environment_for_instance find_matching_servers is_named_by normalize_server_reference
    string_eq is_in lower strip given
environment_for_instance-Agrees_example =
    environment_for_instance-Agrees known "core" "production" refl

playbooks-IsRunnable_example :
    All (IsRunnable (build (build_tool_catalog schemas switched_off))) playbooks
playbooks-IsRunnable_example = playbooks-IsRunnable schemas switched_off
