-- ===== src/Agent/Loop/ReadOnly.antt =====
-- agent/orchestrator.py: a run of `_run_investigation_loop` that nobody watches only reads.
use numi_dba_agent.Common.{
  ℕ, zero, suc, String, true, false, Option, none, some, ◌≡◌, ap, ◌∙◌, Bool-cases, inl, inr, leb,
  ltb, All, arith,
}
use mathlib.Core.Path.{subst⁻¹}
use numi_dba_agent.Common.Exec.{Result, ok, err}
use numi_dba_agent.Models.Tool.{ToolCallRequest}
use numi_dba_agent.Agent.Actions.{
  ProposeToolCall, AgentAction, ask_clarification, propose_tool_call, record_observation, conclude,
  AgentReply, HasNoCard,
}
use numi_dba_agent.Agent.State.{InvestigationState, ConversationState}
use numi_dba_agent.Agent.Session.{Menu, Services, Session, Stop, amend}
use numi_dba_agent.Agent.Limits.{
  max_investigation_turns, max_consecutive_record_observations, max_clarification_turns,
  is_confirmed_read_tool,
}
use numi_dba_agent.Agent.Submit.Sent.{IsUnattended, submit_and_relay-IsUnattended}
use numi_dba_agent.Agent.Conclude.Frame.{IsQuiet, finalize_conclude-IsQuiet}
use numi_dba_agent.Agent.Loop.{
  ask, take_turn, spend, clarify, act, acts, decide, choose, turn, go_on, no_root_cause, last_words,
  or_no_root_cause, last_chance, run_loop, run_investigation_loop, next_playbook_action, begin_turn,
}

-- the result of a run shows no approval card
abbrev pub ShowsNoCard : Result Stop (Option AgentReply) → Type 0
ShowsNoCard (ok reply) = HasNoCard reply
ShowsNoCard (err e) = Unit

module _ {World : Type 0} (services : Services World) (menu : Menu) where
  -- an outcome of an unattended run
  abbrev Unwatched : Option AgentReply × Session World → Type 0
  Unwatched out = HasNoCard out.0 × IsUnattended menu.tool_operation_types out.1

  abbrev pub OnlyReads : Result Stop (Option AgentReply) × Session World → Type 0
  OnlyReads out = ShowsNoCard out.0 × IsUnattended menu.tool_operation_types out.1

  Unwatched-quiet :
      (s : Session World) (out : Option AgentReply × Session World)
      → IsUnattended menu.tool_operation_types s
      → IsQuiet s out
      → Unwatched out
  Unwatched-quiet s out h q = (
    q.no_card,
    record {
      mode = q.mode ∙ h.mode;
      no_pending = ap (λ (c : ConversationState). c.pending_approval) q.conversation ∙ h.no_pending;
      reads =
          subst⁻¹
            (All (λ (r : ToolCallRequest).
              is_confirmed_read_tool menu.tool_operation_types r.tool_id ≡ true))
            q.sent h.reads;
    },
  )

  clarify-Unwatched :
      (s : Session World)
      → IsUnattended menu.tool_operation_types s
      → Unwatched (clarify services menu s)
  unfolding clarify
  clarify-Unwatched s h =
      elim (Bool-cases (ltb max_clarification_turns s.investigation.clarification_count)) [
        | inl e ↦ rw e (ground arith)
        | inr e ↦ rw e (ground arith)
      ]

  act-Unwatched :
      (a : AgentAction) (s : Session World)
      → IsUnattended menu.tool_operation_types s
      → Unwatched (act services menu a s)
  unfolding act ask take_turn
  act-Unwatched (ask_clarification question) s h = clarify-Unwatched (amend ask s) (ground arith)
  act-Unwatched (record_observation text) s h = ground arith
  act-Unwatched (propose_tool_call action) s h =
      submit_and_relay-IsUnattended services menu action (amend (take_turn 0) s) (ground arith)
  act-Unwatched (conclude action) s h =
      Unwatched-quiet (amend (take_turn 0) s) _ (ground arith)
        (finalize_conclude-IsQuiet services false action (amend (take_turn 0) s))

  acts-OnlyReads :
      (a : Result String AgentAction) (s : Session World)
      → IsUnattended menu.tool_operation_types s
      → OnlyReads (acts services menu a s)
  unfolding acts
  acts-OnlyReads (err text) s h = (tt, h)
  acts-OnlyReads (ok action) s h =
      act-Unwatched action
        (amend (λ (inv : InvestigationState). record inv { last_message = "" }) s) (ground arith)

  choose-OnlyReads :
      (step : Option ProposeToolCall) (s : Session World)
      → IsUnattended menu.tool_operation_types s
      → OnlyReads (choose services menu step s)
  unfolding choose decide no_root_cause spend
  choose-OnlyReads (some step) s h =
      submit_and_relay-IsUnattended services menu step (amend spend s) (ground arith)
  choose-OnlyReads none s h =
      elim (Bool-cases
        (leb max_consecutive_record_observations s.investigation.consecutive_record_observations)) [
          | inl e ↦ rw e (ground arith)
          | inr e ↦ rw e (
              let asked =
                services.decide_next_action
                  (record {
                    investigation = s.investigation;
                    available_tool_ids = menu.available_ids;
                    tool_requirements = menu.tool_requirements;
                    out_of_turns = false;
                  })
                  s.world in
              acts-OnlyReads asked.0 (record s { world = asked.1 }) (ground arith))
        ]

  turn-OnlyReads :
      (s : Session World)
      → IsUnattended menu.tool_operation_types s
      → OnlyReads (turn services menu s)
  unfolding turn begin_turn next_playbook_action
  turn-OnlyReads s h =
      let step = next_playbook_action menu.available_ids (begin_turn s.investigation) in
      choose-OnlyReads step.0 (record s { investigation = step.1 }) (ground arith)

  or_no_root_cause-OnlyReads :
      (out : Option AgentReply × Session World)
      → Unwatched out
      → Unwatched (or_no_root_cause services menu out)
  unfolding or_no_root_cause no_root_cause
  or_no_root_cause-OnlyReads (some reply, s) h = h
  or_no_root_cause-OnlyReads (none, s) h = ground arith

  last_words-OnlyReads :
      (a : Result String AgentAction) (s : Session World)
      → IsUnattended menu.tool_operation_types s
      → OnlyReads (last_words services menu a s)
  unfolding last_words no_root_cause
  last_words-OnlyReads (err text) s h = (tt, h)
  last_words-OnlyReads (ok (conclude action)) s h =
      or_no_root_cause-OnlyReads _
        (Unwatched-quiet s _ h (finalize_conclude-IsQuiet services true action s))
  last_words-OnlyReads (ok (ask_clarification question)) s h = ground arith
  last_words-OnlyReads (ok (record_observation text)) s h = ground arith
  last_words-OnlyReads (ok (propose_tool_call action)) s h = ground arith

  last_chance-OnlyReads :
      (s : Session World)
      → IsUnattended menu.tool_operation_types s
      → OnlyReads (last_chance services menu s)
  unfolding last_chance
  last_chance-OnlyReads s h = last_words-OnlyReads _ _ (ground arith)

  go_on-OnlyReads :
      (again : Session World → Result Stop (Option AgentReply) × Session World)
      (r : Result Stop (Option AgentReply)) (s : Session World)
      → OnlyReads (r, s)
      → (IsUnattended menu.tool_operation_types s → OnlyReads (again s))
      → OnlyReads (go_on services menu again r s)
  unfolding go_on
  go_on-OnlyReads again (ok none) s h rest = rest h.1
  go_on-OnlyReads again (ok (some reply)) s h rest = h
  go_on-OnlyReads again (err e) s h rest = h

  run_loop-OnlyReads :
      (fuel : ℕ) (s : Session World)
      → IsUnattended menu.tool_operation_types s
      → OnlyReads (run_loop services menu fuel s)
  unfolding run_loop
  run_loop-OnlyReads zero s h = (tt, h)
  run_loop-OnlyReads (suc fuel) s h =
      elim (Bool-cases (ltb s.investigation.turn_count max_investigation_turns)) [
        | inl e ↦ rw e (
            go_on-OnlyReads (run_loop services menu fuel) (turn services menu s).0
              (turn services menu s).1 (turn-OnlyReads s h)
              (λ h'. run_loop-OnlyReads fuel (turn services menu s).1 h'))
        | inr e ↦ rw e (last_chance-OnlyReads s h)
      ]

  -- Whatever the model proposes and the Gateway answers: a read-only run that starts with no request
  -- sent but of reads, and with no approval waiting, stays so to its end. Every request that it sent
  -- names a tool that the map of operation types classifies as a read, no approval waits on the
  -- conversation, and its reply shows no approval card.
  pub run_investigation_loop-OnlyReads :
      (s : Session World)
      → IsUnattended menu.tool_operation_types s
      → OnlyReads (run_investigation_loop services menu s)
  unfolding run_investigation_loop
  run_investigation_loop-OnlyReads s h = run_loop-OnlyReads 7 s h
