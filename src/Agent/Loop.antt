-- ===== src/Agent/Loop.antt =====
-- agent/orchestrator.py: `_run_investigation_loop`, the turns of an investigation.
pub mod Turns
pub mod Ends
pub mod ReadOnly
use numi_dba_agent.Common.{
  ℕ, zero, suc, ◌+◌, ◌-◌, String, Bool, true, false, Option, none, some, List, [], ◌∷◌, ◌++◌,
  contains, string_eq, ltb, leb, if◌then◌else◌,
}
use numi_dba_agent.Common.Exec.{Result, ok, err, Exec}
use numi_dba_agent.Common.Format.{concat}
use numi_dba_agent.Agent.Playbooks.Defs.{Playbook, PlaybookStep}
use numi_dba_agent.Agent.Playbooks.{get_playbook}
use numi_dba_agent.Agent.Actions.{
  ProposeToolCall, Conclude, AgentAction, ask_clarification, propose_tool_call, record_observation,
  conclude, AgentReply, ReplyStatus, clarification,
}
use numi_dba_agent.Agent.State.{InvestigationState, investigating, awaiting_clarification}
use numi_dba_agent.Agent.Session.{
  Menu, Services, Session, Stop, raised, out_of_fuel, amend, add_evidence,
}
use numi_dba_agent.Agent.Limits.{
  max_investigation_turns, max_consecutive_record_observations, max_clarification_turns,
}
use numi_dba_agent.Agent.Submit.{submit_and_relay}
use numi_dba_agent.Agent.Conclude.{conclusion_stage, finalize_conclude}

-- the steps from a position on
abbrev drop_steps : ℕ → List PlaybookStep → List PlaybookStep
drop_steps zero steps = steps
drop_steps (suc n) [] = []
drop_steps (suc n) (s ∷ steps) = drop_steps n steps

abbrev proposal : Playbook → PlaybookStep → ProposeToolCall
proposal p s = record {
  tool_id = s.tool_id;
  arguments = s.arguments;
  target = [];
  reason = concat ("[" ∷ p.name ∷ " playbook] " ∷ s.purpose ∷ []);
}

-- the first step that is offered, and how far the playbook is then
first_offered : Playbook → List String → ℕ → List PlaybookStep → Option ProposeToolCall × ℕ
unfolding string_eq concat
first_offered p offered at [] = (none, at)
first_offered p offered at (s ∷ steps) =
    let rest = first_offered p offered (suc at) steps in
    if contains offered s.tool_id then (some (proposal p s), suc at) else rest

next_step : Option Playbook → List String → ℕ → Option ProposeToolCall × ℕ
unfolding first_offered
next_step none offered at = (none, at)
next_step (some p) offered at = first_offered p offered at (drop_steps at p.steps)

unfoldable pub next_playbook_action :
    List String → InvestigationState → Option ProposeToolCall × InvestigationState
unfolding next_step get_playbook
next_playbook_action offered inv =
    let (action, at) = next_step (get_playbook inv.playbook_id) offered inv.playbook_step in
    (action, record inv { playbook_step = at })

abbrev reply_of : ReplyStatus → InvestigationState → AgentReply
reply_of status inv = record {
  status = status;
  approval_card = none;
  investigation_id = some inv.investigation_id;
  approval_still_pending = false;
}

begin_turn : InvestigationState → InvestigationState
begin_turn inv = record inv { status = investigating }

-- a turn that is spent
spend : InvestigationState → InvestigationState
spend inv = record inv { turn_count = inv.turn_count + 1 }

close : InvestigationState → InvestigationState
unfolding conclusion_stage
close inv = record inv { status = conclusion_stage inv }

ask : InvestigationState → InvestigationState
ask inv = record inv {
  consecutive_record_observations = 0;
  clarification_count = inv.clarification_count + 1;
}

-- a turn of the model's own
take_turn : ℕ → InvestigationState → InvestigationState
take_turn observations inv = record inv {
  turn_count = inv.turn_count + 1;
  clarification_count = 0;
  consecutive_record_observations = observations;
}

module _ {World : Type 0} (services : Services World) (menu : Menu) where
  unfoldable pub no_root_cause : Session World → Option AgentReply × Session World
  unfolding close
  no_root_cause s = (some (reply_of ReplyStatus.ok s.investigation), amend close s)

  clarify : Session World → Option AgentReply × Session World
  unfolding close
  clarify s =
      if ltb max_clarification_turns s.investigation.clarification_count
      then (some (reply_of ReplyStatus.ok s.investigation), amend close s)
      else (
        some (reply_of clarification s.investigation),
        amend (λ (inv : InvestigationState). record inv { status = awaiting_clarification }) s,
      )

  -- what the loop does with an action of the model
  act : AgentAction → Session World → Option AgentReply × Session World
  unfolding clarify ask take_turn finalize_conclude submit_and_relay
  act (ask_clarification question) s = clarify (amend ask s)
  act (record_observation text) s = (
    none,
    amend
        (λ (inv : InvestigationState).
          add_evidence text (take_turn (inv.consecutive_record_observations + 1) inv))
        s,
  )
  act (propose_tool_call action) s = submit_and_relay services menu action (amend (take_turn 0) s)
  act (conclude action) s = finalize_conclude services false action (amend (take_turn 0) s)

  acts : Result String AgentAction → Session World → Result Stop (Option AgentReply) × Session World
  unfolding act
  acts (err text) s = (err (raised text), s)
  acts (ok action) s =
      let (reply, s') =
        act action (amend (λ (inv : InvestigationState). record inv { last_message = "" }) s) in
      (ok reply, s')

  decide : Session World → Result Stop (Option AgentReply) × Session World
  unfolding acts
  decide s =
      let (action, answered) =
        services.decide_next_action
          (record {
            investigation = s.investigation;
            available_tool_ids = menu.available_ids;
            tool_requirements = menu.tool_requirements;
            out_of_turns = false;
          })
          s.world in
      acts action (record s { world = answered })

  -- a step of the playbook, or the model's choice
  choose : Option ProposeToolCall → Session World → Result Stop (Option AgentReply) × Session World
  unfolding no_root_cause spend decide submit_and_relay
  choose (some step) s =
      let (reply, s') = submit_and_relay services menu step (amend spend s) in (ok reply, s')
  choose none s =
      if leb max_consecutive_record_observations s.investigation.consecutive_record_observations
      then (let (reply, s') = no_root_cause s in (ok reply, s'))
      else decide s

  -- the body of the `while`; `none` goes round again
  unfoldable pub turn : Session World → Result Stop (Option AgentReply) × Session World
  unfolding begin_turn choose next_playbook_action
  turn s =
      let (step, inv) = next_playbook_action menu.available_ids (begin_turn s.investigation) in
      choose step (record s { investigation = inv })

  or_no_root_cause : Option AgentReply × Session World → Option AgentReply × Session World
  unfolding no_root_cause
  or_no_root_cause (some reply, s) = (some reply, s)
  or_no_root_cause (none, s) = no_root_cause s

  last_words :
      Result String AgentAction → Session World → Result Stop (Option AgentReply) × Session World
  unfolding no_root_cause or_no_root_cause finalize_conclude
  last_words (err text) s = (err (raised text), s)
  last_words (ok (conclude action)) s =
      let (reply, s') = or_no_root_cause (finalize_conclude services true action s) in
      (ok reply, s')
  last_words (ok (ask_clarification question)) s =
      let (reply, s') = no_root_cause s in (ok reply, s')
  last_words (ok (record_observation text)) s = let (reply, s') = no_root_cause s in (ok reply, s')
  last_words (ok (propose_tool_call action)) s = let (reply, s') = no_root_cause s in (ok reply, s')

  -- after the last turn: one more question, with no tool on offer
  unfoldable pub last_chance : Session World → Result Stop (Option AgentReply) × Session World
  unfolding last_words
  last_chance s =
      let (action, answered) =
        services.decide_next_action
          (record {
            investigation = s.investigation;
            available_tool_ids = [];
            tool_requirements = [];
            out_of_turns = true;
          })
          s.world in
      last_words action (record s { world = answered })

  -- the end of a round: without a reply the loop goes round again
  go_on :
      (Session World → Result Stop (Option AgentReply) × Session World)
      → Result Stop (Option AgentReply)
      → Session World
      → Result Stop (Option AgentReply) × Session World
  go_on again (ok none) s = again s
  go_on again (ok (some reply)) s = (ok (some reply), s)
  go_on again (err e) s = (err e, s)

  -- the `while` on fuel
  unfoldable pub run_loop : ℕ → Session World → Result Stop (Option AgentReply) × Session World
  unfolding go_on
  run_loop zero s = (err out_of_fuel, s)
  run_loop (suc fuel) s =
      if ltb s.investigation.turn_count max_investigation_turns
      then (let (result, s') = turn s in go_on (run_loop fuel) result s')
      else last_chance s

  -- Seven rounds are enough: each spends one of six turns.
  unfoldable pub run_investigation_loop :
      Session World → Result Stop (Option AgentReply) × Session World
  unfolding run_loop turn last_chance
  run_investigation_loop s = run_loop 7 s
