-- ===== src/Agent/Conclude.antt =====
-- agent/orchestrator.py: `_finalize_conclude`, which accepts a conclusion of the model or sends it
-- back, and the stage that a concluded investigation ends in.
pub mod Grounding
pub mod Frame
pub mod Sound
use numi_dba_agent.Common.{
  String, Bool, true, false, not, ◌&&◌, Option, none, some, List, [], ◌∷◌, ◌++◌, ◌==◌, string_eq,
  is_empty, if◌then◌else◌,
}
use numi_dba_agent.Common.Exec.{Result, ok, err}
use numi_dba_agent.Common.Format.{concat, join}
use numi_dba_agent.Models.Json.{given}
use numi_dba_agent.Agent.Actions.{Conclude, CritiqueVerdict, AgentReply, ReplyStatus}
use numi_dba_agent.Agent.State.{
  InvestigationStage, concluded_verified, concluded_unresolved, concluded_unverified,
  concluded_no_action, InvestigationState, PendingVerification, Verification, resolved, unresolved,
  Entry, EntryResult, rejected_names, pending_tool, review_issue,
}
use numi_dba_agent.Agent.Session.{Services, Session, amend, add_evidence, add_entry}
use numi_dba_agent.Agent.Conclude.Grounding.{ungrounded_identifiers}

stage_of : Option Verification → Option PendingVerification → InvestigationStage
stage_of (some resolved) pending = concluded_verified
stage_of (some unresolved) pending = concluded_unresolved
stage_of none (some pending) = concluded_unverified
stage_of none none = concluded_no_action

unfoldable pub conclusion_stage : InvestigationState → InvestigationStage
unfolding stage_of
conclusion_stage inv = stage_of inv.last_verification inv.pending_verification

-- the outcome that `_verification_note` words
pub data VerificationNote : Type 0 where
  confirmed_resolved not_resolved : VerificationNote
  never_checked : Option PendingVerification → VerificationNote

note_of : InvestigationStage → Option PendingVerification → Option VerificationNote
note_of concluded_verified pending = some confirmed_resolved
note_of concluded_unresolved pending = some not_resolved
note_of concluded_unverified pending = some (never_checked pending)
note_of _ pending = none

unfoldable pub verification_note : InvestigationState → Option VerificationNote
unfolding note_of conclusion_stage
verification_note inv = note_of (conclusion_stage inv) inv.pending_verification

last_is : String → List String → Bool
unfolding string_eq
last_is text [] = false
last_is text (x ∷ []) = x == text
last_is text (x ∷ y ∷ rest) = last_is text (y ∷ rest)

unfoldable pub append_evidence_once : String → InvestigationState → InvestigationState
unfolding last_is
append_evidence_once text inv = if last_is text inv.evidence then inv else add_evidence text inv

-- an entry of the transcript that tells the model why a draft was sent back, and the line for the DBA
send_back : Entry → String → InvestigationState → InvestigationState
unfolding append_evidence_once
send_back entry line inv = append_evidence_once line (add_entry entry inv)

reject_ungrounded : List String → InvestigationState → InvestigationState
unfolding send_back concat join
reject_ungrounded names =
    let note = concat (
      "Your conclusion named "
      ∷ join ", " names
      ∷ ", which does not appear anywhere in this investigation's evidence or the DBA's own message — never state something as a finding unless it actually came from a tool result or what the DBA said. Revise your conclusion using only that."
      ∷ []) in
    send_back
      (record {
        tool_id = "internal.grounding_check";
        reason = "Verifying the conclusion before reporting it.";
        result = rejected_names names note;
      })
      (concat (
        "(a draft conclusion naming "
        ∷ join ", " names
        ∷ " was rejected — not found in any evidence gathered)"
        ∷ []))

reject_pending : PendingVerification → InvestigationState → InvestigationState
unfolding send_back concat join
reject_pending pending =
    let note = concat (
      pending.tool_id
      ∷ " executed, but nothing has independently re-checked yet whether it actually took effect — never mark an action as resolved merely because it was submitted. Call "
      ∷ join " or " pending.verification_tools
      ∷ " to confirm the real-world outcome before concluding."
      ∷ []) in
    send_back
      (record {
        tool_id = "internal.verification_check";
        reason = "Verifying the remediation's real-world effect before reporting it.";
        result = pending_tool pending.tool_id note;
      })
      (concat (
        "(a draft conclusion after " ∷ pending.tool_id
        ∷ " was rejected — not yet independently verified)" ∷ []))

-- `issue or default`
issue_or : String → Option String → String
unfolding given
issue_or default none = default
issue_or default (some issue) = if given (some issue) then issue else default

reject_unsound : Option String → InvestigationState → InvestigationState
unfolding send_back concat issue_or
reject_unsound issue =
    let note = concat (
      "A second review of your draft conclusion found a problem: "
      ∷ issue_or "it does not follow from the evidence gathered." issue
      ∷ " Revise your conclusion so it only states what the evidence actually supports."
      ∷ []) in
    send_back
      (record {
        tool_id = "internal.self_critique_check";
        reason = "A second review of the conclusion before reporting it.";
        result = review_issue issue note;
      })
      (concat (
        "(a draft conclusion was rejected on review — "
        ∷ issue_or "did not follow from the evidence" issue
        ∷ ")"
        ∷ []))

-- `if text: texts.append(text)`
append_given : Option String → List String → List String
unfolding given
append_given none texts = texts
append_given (some text) texts = if given (some text) then texts ++ text ∷ [] else texts

accept : Conclude → InvestigationState → InvestigationState
unfolding conclusion_stage append_given
accept action inv = record inv {
  status = conclusion_stage inv;
  findings = append_given action.likely_root_cause inv.findings;
  recommendations = append_given action.recommendation inv.recommendations;
}

ok_reply : InvestigationState → AgentReply
ok_reply inv = record {
  status = ReplyStatus.ok;
  approval_card = none;
  investigation_id = some inv.investigation_id;
  approval_still_pending = false;
}

module _ {World : Type 0} (services : Services World) where
  log : String → Session World → Session World
  log event_type s = record s {
    world =
        services.log_decision_event
          (record {
            event_type = event_type;
            conversation_id = s.conversation.conversation_id;
            investigation_id = s.investigation.investigation_id;
          })
          s.world;
  }

  accepted : Conclude → Session World → Option AgentReply × Session World
  unfolding accept ok_reply
  accepted action s = (some (ok_reply s.investigation), amend (accept action) s)

  -- `_self_critique_conclude`: a review that fails is no objection
  judged :
      Conclude → Result String CritiqueVerdict → Session World → Option AgentReply × Session World
  unfolding log accepted reject_unsound
  judged action (err text) s = accepted action (log "self_critique_call_failed" s)
  judged action (ok verdict) s =
      if verdict.sound
      then accepted action s
      else (none, log "conclusion_rejected_self_critique" (amend (reject_unsound verdict.issue) s))

  reviewed : Conclude → Session World → Option AgentReply × Session World
  unfolding accepted judged
  reviewed action s =
      if services.self_critique_enabled
      then (let (verdict, answered) = services.critique_conclusion s.investigation action s.world in
          judged action verdict (record s { world = answered }))
      else accepted action s

  -- a grounded conclusion, before the last chance
  checked :
      Option PendingVerification → Conclude → Session World → Option AgentReply × Session World
  unfolding log reject_pending reviewed
  checked (some pending) action s =
      (none, log "conclusion_rejected_pending_verification" (amend (reject_pending pending) s))
  checked none action s = reviewed action s

  unfoldable pub finalize_conclude :
      Bool → Conclude → Session World → Option AgentReply × Session World
  unfolding log reject_ungrounded accepted checked ungrounded_identifiers
  finalize_conclude final_chance action s =
      let names = ungrounded_identifiers services action s.investigation in
      if not (is_empty names)
      then (
        none,
        log "conclusion_rejected_ungrounded_identifiers" (amend (reject_ungrounded names) s),
      )
      else if final_chance
      then accepted action s
      else checked s.investigation.pending_verification action s
