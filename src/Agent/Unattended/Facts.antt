-- ===== src/Agent/Unattended/Facts.antt =====
-- agent/orchestrator.py: what an unattended run and its summary vouch for.
use mathlib.Core.Path.{subst⁻¹}
use numi_dba_agent.Common.{String, true, Option, none, some, List, [], ◌∷◌, ◌≡◌, refl, All, arith}
use numi_dba_agent.Common.Exec.{Result, ok, err}
use numi_dba_agent.Models.Tool.{ToolCallRequest, ToolDefinition}
use numi_dba_agent.Agent.Actions.{AgentReply, reply_status_eq, ReplyStatus-discrete}
use numi_dba_agent.Agent.State.{Done}
use numi_dba_agent.Common.Format.{concat}
use numi_dba_agent.Agent.Session.{Menu, Services, Session, Stop}
use numi_dba_agent.Agent.Loop.{no_root_cause}
use numi_dba_agent.Agent.Continue.{Backend, bootstrap_investigation_memory, continue_investigation}
use numi_dba_agent.Agent.Continue.Offered.{
  IsFresh, OnlyObserved, listed, is_offered_read, continue_investigation-OnlyObserved,
}
use numi_dba_agent.Agent.Unattended.{
  ScheduledSummary, is_ok, is_clean, summary_error, unattended_summary, unattended_session,
  summarized, scheduled_problem, RunIds, run_comprehensive_summary, run_triggered_investigation,
}

-- what a run left behind in the agent, given the tools of the Gateway
abbrev pub LeavesNothing : {World : Type 0} → List ToolDefinition → Session World → Type 0
LeavesNothing tools s =
    (s.conversation.pending_approval ≡ none)
    × All (λ (r : ToolCallRequest). is_offered_read tools r.tool_id ≡ true) s.sent

summarized_session :
    {World : Type 0} (server_id environment : String)
    (out : Result Stop (Option AgentReply) × Session World)
    → (summarized server_id environment out).1 ≡ out.1
unfolding summarized
summarized_session server_id environment (ok (some reply), s) = refl
summarized_session server_id environment (ok none, s) = refl
summarized_session server_id environment (err e, s) = refl

module _ {World : Type 0} (services : Services World) (backend : Backend World) where
  summarized-LeavesNothing :
      (tools : List ToolDefinition) (server_id environment : String)
      (out : Result Stop (Option AgentReply) × Session World)
      → OnlyObserved tools out
      → LeavesNothing tools (summarized server_id environment out).1
  summarized-LeavesNothing tools server_id environment out h =
      subst⁻¹ (λ (s : Session World). LeavesNothing tools s)
        (summarized_session server_id environment out) (h.no_pending, h.reads)

  -- the tools that the Gateway lists for a run
  abbrev pub tools_for : String → String → Session World → List ToolDefinition
  tools_for channel account s =
      listed
        (backend.available_tools channel account
          (bootstrap_investigation_memory services backend account s).world).0

  session-LeavesNothing :
      (server_id environment channel account : String) (s : Session World)
      → IsFresh s
      → LeavesNothing
          (tools_for channel account s)
          (summarized server_id environment
            (continue_investigation services backend channel account s)).1
  session-LeavesNothing server_id environment channel account s fresh =
      summarized-LeavesNothing (tools_for channel account s) server_id environment _
        (continue_investigation-OnlyObserved services backend channel account s fresh)

  module _ (ids : RunIds) (server_id environment channel account problem : String) (w : World) where
    abbrev pub digest_session : Session World
    digest_session =
        unattended_session (concat ("scheduled-digest:" ∷ server_id ∷ ":" ∷ ids.run ∷ []))
          ids.investigation channel account server_id environment
          (scheduled_problem server_id environment) (some "comprehensive_summary") w

    abbrev pub alert_session : Session World
    alert_session =
        unattended_session (concat ("triggered-investigation:" ∷ server_id ∷ ":" ∷ ids.run ∷ []))
          ids.investigation channel account server_id environment problem none w

    -- Whatever the model proposes and the Gateway answers, the daily sweep of a server and an
    -- investigation that an alert started send only requests whose tool is a read in the list of
    -- tools that the Gateway gave for that run, and the agent's conversation is left without a pending
    -- approval. (What the Gateway itself records for a read that its policy puts behind an approval is
    -- not said.)
    pub unattended_runs-LeavesNothing :
        LeavesNothing
          (tools_for channel account digest_session)
          (run_comprehensive_summary services backend ids server_id environment channel account w).1
        × LeavesNothing
            (tools_for channel account alert_session)
            (run_triggered_investigation services backend ids server_id environment channel account
              problem w).1
    unfolding run_comprehensive_summary run_triggered_investigation unattended_session
    unattended_runs-LeavesNothing = (
      session-LeavesNothing server_id environment channel account digest_session
          (record { mode = refl; no_pending = refl; nothing_sent = refl }),
      session-LeavesNothing server_id environment channel account alert_session
          (record { mode = refl; no_pending = refl; nothing_sent = refl }),
    )

-- A run that gives up without a root cause, after at least one call was executed and with no finding
-- or recommendation noted, is summarised as checked and as clean: its reply is an "ok" one.
pub no_root_cause-is_clean :
    {World : Type 0} (services : Services World) (menu : Menu) (server_id environment : String)
    (s : Session World) {first : Done} {others : List Done}
    → s.investigation.actions ≡ first ∷ others
    → s.investigation.findings ≡ []
    → s.investigation.recommendations ≡ []
    → (reply : AgentReply) × ((no_root_cause services menu s).0 ≡ some reply)
      × (is_ok (
            unattended_summary server_id environment
              (no_root_cause services menu s).1.investigation
              reply)
          ≡ true)
      × (is_clean (
            unattended_summary server_id environment
              (no_root_cause services menu s).1.investigation
              reply)
          ≡ true)
unfolding no_root_cause is_ok is_clean unattended_summary summary_error ReplyStatus-discrete
no_root_cause-is_clean services menu server_id environment s acted found advised =
    (_, refl, ground arith, ground arith)

-- a summary is about the server that was asked for
abbrev pub IsAbout : String → Result Stop (Option ScheduledSummary) → Type 0
IsAbout server_id (ok (some summary)) = summary.server_id ≡ server_id
IsAbout server_id (ok none) = Unit
IsAbout server_id (err e) = Unit

summarized-IsAbout :
    {World : Type 0} (server_id environment : String)
    (out : Result Stop (Option AgentReply) × Session World)
    → IsAbout server_id (summarized server_id environment out).0
unfolding summarized unattended_summary
summarized-IsAbout server_id environment (ok (some reply), s) = refl
summarized-IsAbout server_id environment (ok none, s) = tt
summarized-IsAbout server_id environment (err e, s) = tt

pub run_comprehensive_summary-IsAbout :
    {World : Type 0} (services : Services World) (backend : Backend World) (ids : RunIds)
    (server_id environment channel account : String) (w : World)
    → IsAbout server_id
        (run_comprehensive_summary services backend ids server_id environment channel account w).0
unfolding run_comprehensive_summary
run_comprehensive_summary-IsAbout services backend ids server_id environment channel account w =
    summarized-IsAbout server_id environment _

pub run_triggered_investigation-IsAbout :
    {World : Type 0} (services : Services World) (backend : Backend World) (ids : RunIds)
    (server_id environment channel account problem : String) (w : World)
    → IsAbout server_id
        (run_triggered_investigation services backend ids server_id environment channel account
          problem w).0
unfolding run_triggered_investigation
run_triggered_investigation-IsAbout services backend ids server_id environment channel account
      problem w =
    summarized-IsAbout server_id environment _
