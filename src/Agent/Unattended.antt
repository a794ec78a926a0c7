-- ===== src/Agent/Unattended.antt =====
-- agent/orchestrator.py: the runs that nobody watches, and the summary that each hands back.
pub mod Facts
use numi_dba_agent.Common.{
  String, Bool, true, false, not, ◌&&◌, Option, none, some, List, [], ◌∷◌, ◌==◌, string_eq,
  is_empty, if◌then◌else◌,
}
use numi_dba_agent.Common.Exec.{Result, ok, err}
use numi_dba_agent.Common.Format.{concat}
use numi_dba_agent.Models.Json.{str}
use numi_dba_agent.Agent.Playbooks.{get_playbook}
use numi_dba_agent.Agent.Actions.{AgentReply, ReplyStatus, reply_status_eq, ReplyStatus-discrete}
use numi_dba_agent.Agent.State.{
  InvestigationState, ConversationState, Entry, EntryResult, dropped_tool, new_investigation,
}
use numi_dba_agent.Agent.Session.{Services, Session, Stop, raised}
use numi_dba_agent.Agent.Limits.{read_only_guard_tool_id}
use numi_dba_agent.Agent.Continue.{Backend, continue_investigation}

-- why a server counts as not checked; `none` is the empty text
pub data SummaryError : Type 0 where
  no_call_succeeded sweep_failed : SummaryError
  ended_with : ReplyStatus → SummaryError

-- the text of the reply is left out
pub record ScheduledSummary : Type 0 where
  pub server_id : String
  pub environment : String
  pub investigation_id : String
  pub status : ReplyStatus
  pub findings : List String
  pub recommendations : List String
  pub dropped_proposals : List String
  pub error : Option SummaryError

abbrev is_blank : Option SummaryError → Bool
is_blank none = true
is_blank (some e) = false

-- `ScheduledSummary.ok`
unfoldable pub is_ok : ScheduledSummary → Bool
unfolding ReplyStatus-discrete
is_ok summary = summary.status == ReplyStatus.ok && is_blank summary.error

unfoldable pub is_clean : ScheduledSummary → Bool
is_clean summary = is_empty summary.findings && is_empty summary.recommendations

-- `str(entry.get("result", {}).get("dropped_tool_id", ""))`
dropped_of : EntryResult → String
dropped_of (dropped_tool tool_id reason message) = tool_id
dropped_of other = ""

dropped_in : List Entry → List String
unfolding dropped_of string_eq
dropped_in [] = []
dropped_in (e ∷ entries) =
    let rest = dropped_in entries in
    if e.tool_id == read_only_guard_tool_id then dropped_of e.result ∷ rest else rest

summary_error : InvestigationState → AgentReply → Option SummaryError
unfolding ReplyStatus-discrete
summary_error inv reply =
    if is_empty inv.actions
    then some no_call_succeeded
    else if not (reply.status == ReplyStatus.ok)
    then some (ended_with reply.status)
    else none

unfoldable pub unattended_summary :
    String → String → InvestigationState → AgentReply → ScheduledSummary
unfolding summary_error dropped_in
unattended_summary server_id environment inv reply = record {
  server_id = server_id;
  environment = environment;
  investigation_id = inv.investigation_id;
  status = reply.status;
  findings = inv.findings;
  recommendations = inv.recommendations;
  dropped_proposals = dropped_in inv.transcript;
  error = summary_error inv reply;
}

unfoldable pub scheduled_problem : String → String → String
unfolding concat
scheduled_problem server_id environment = concat (
    "Scheduled daily health sweep of the " ∷ server_id ∷ " server (" ∷ environment
    ∷ ") — an unattended, proactive run with no DBA in the conversation to answer a question or approve anything. Report findings and recommendations as text only: only read-only diagnostics are available to you here, and nothing you propose will be executed, approved, or acted on automatically. If something needs remediation, describe what you would recommend and why, for a DBA to decide on — never as an action you are taking. Do not ask a clarifying question; nobody is there to answer it."
    ∷ [])

module _ {World : Type 0} where
  -- The session of a run of its own: no conversation of a DBA is touched. `run` and `inv` are fresh
  -- identifiers.
  unfoldable pub unattended_session :
      String
      → String
      → String
      → String
      → String
      → String
      → String
      → Option String
      → World
      → Session World
  unfolding new_investigation
  unattended_session conversation_id inv channel account server_id environment problem playbook w =
      record {
        conversation = record {
          conversation_id = conversation_id;
          channel = channel;
          channel_thread_id = "";
          channel_account_id = account;
          database_context = ("instance", str server_id) ∷ ("environment", str environment) ∷ [];
          pending_approval = none;
        };
        investigation = new_investigation inv problem playbook true;
        sent = [];
        world = w;
      }

  summarized :
      String
      → String
      → Result Stop (Option AgentReply) × Session World
      → Result Stop (Option ScheduledSummary) × Session World
  unfolding unattended_summary
  summarized server_id environment (ok (some reply), s) =
      (ok (some (unattended_summary server_id environment s.investigation reply)), s)
  summarized server_id environment (ok none, s) = (ok none, s)
  summarized server_id environment (err e, s) = (err e, s)

-- what `new_id` makes for one run
pub record RunIds : Type 0 where
  pub run : String
  pub investigation : String

module _ {World : Type 0} (services : Services World) (backend : Backend World) where
  unfoldable pub run_comprehensive_summary :
      RunIds
      → String
      → String
      → String
      → String
      → World
      → Result Stop (Option ScheduledSummary) × Session World
  unfolding concat scheduled_problem summarized unattended_session continue_investigation
      get_playbook
  run_comprehensive_summary ids server_id environment channel account w =
      let s =
        unattended_session (concat ("scheduled-digest:" ∷ server_id ∷ ":" ∷ ids.run ∷ []))
          ids.investigation channel account server_id environment
          (scheduled_problem server_id environment) (some "comprehensive_summary") w in
      elim (get_playbook (some "comprehensive_summary")) [
        | none ↦ (err (raised "playbook is not registered"), s)
        | some playbook ↦
            summarized server_id environment
              (continue_investigation services backend channel account s)
      ]

  unfoldable pub run_triggered_investigation :
      RunIds
      → String
      → String
      → String
      → String
      → String
      → World
      → Result Stop (Option ScheduledSummary) × Session World
  unfolding concat summarized unattended_session continue_investigation
  run_triggered_investigation ids server_id environment channel account problem w =
      summarized server_id environment (
        continue_investigation services backend channel account (
          unattended_session (concat ("triggered-investigation:" ∷ server_id ∷ ":" ∷ ids.run ∷ []))
            ids.investigation channel account server_id environment problem none w))
