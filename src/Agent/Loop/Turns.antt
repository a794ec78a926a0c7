-- ===== src/Agent/Loop/Turns.antt =====
-- agent/orchestrator.py: every round of `_run_investigation_loop` spends a turn, so the loop ends.
use numi_dba_agent.Common.{
  ◌+◌, ◌≤◌, String, false, Option, none, some, ◌≡◌, refl, ap, Bool-cases, inl, inr, length, leb,
  ltb, arith,
}
use numi_dba_agent.Common.Exec.{Result, ok, err}
use numi_dba_agent.Agent.Actions.{
  ProposeToolCall, AgentAction, ask_clarification, propose_tool_call, record_observation, conclude,
  AgentReply,
}
use numi_dba_agent.Agent.State.{InvestigationState}
use numi_dba_agent.Agent.Session.{Menu, Services, Session, Stop, raised, out_of_fuel, amend}
use numi_dba_agent.Agent.Limits.{max_consecutive_record_observations, max_clarification_turns}
use numi_dba_agent.Agent.Submit.Frame.{submit_and_relay-IsSameRun}
use numi_dba_agent.Agent.Submit.Sent.{submit_and_relay-sent}
use numi_dba_agent.Agent.Conclude.Frame.{finalize_conclude-IsQuiet}
use numi_dba_agent.Agent.Loop.{
  ask, take_turn, spend, clarify, act, acts, decide, choose, turn, no_root_cause,
  next_playbook_action, begin_turn,
}

module _ {World : Type 0} where
  -- A round sends one request at most, and spends one turn if it goes on.
  abbrev pub Spends : Session World → Option AgentReply → Session World → Type 0
  Spends s none s' =
      (s'.investigation.turn_count ≡ s.investigation.turn_count + 1)
      × (length s'.sent ≤ length s.sent + 1)
  Spends s (some reply) s' = length s'.sent ≤ length s.sent + 1

  abbrev pub Round : Session World → Result Stop (Option AgentReply) → Session World → Type 0
  Round s (ok reply) s' = Spends s reply s'
  Round s (err (raised text)) s' = s'.sent ≡ s.sent
  Round s (err out_of_fuel) s' = ⊥

  Spends-of :
      (s : Session World) (reply : Option AgentReply) (s' : Session World)
      → s'.investigation.turn_count ≡ s.investigation.turn_count + 1
      → length s'.sent ≤ length s.sent + 1
      → Spends s reply s'
  Spends-of s none s' turns sent = (turns, sent)
  Spends-of s (some reply) s' turns sent = sent

module _ {World : Type 0} (services : Services World) (menu : Menu) where
  clarify-Spends :
      (s : Session World) → Spends s (clarify services menu s).0 (clarify services menu s).1
  unfolding clarify
  clarify-Spends s =
      elim (Bool-cases (ltb max_clarification_turns s.investigation.clarification_count)) [
        | inl e ↦ rw e (omega arith)
        | inr e ↦ rw e (omega arith)
      ]

  act-Spends :
      (a : AgentAction) (s : Session World)
      → Spends s (act services menu a s).0 (act services menu a s).1
  unfolding act ask take_turn
  act-Spends (ask_clarification question) s = ground (arith, clarify-Spends (amend ask s))
  act-Spends (record_observation text) s = (refl, omega arith)
  act-Spends (propose_tool_call action) s =
      Spends-of s _ _
        (submit_and_relay-IsSameRun services menu action (amend (take_turn 0) s)).turns
        (submit_and_relay-sent services menu action (amend (take_turn 0) s))
  act-Spends (conclude action) s =
      let q = finalize_conclude-IsQuiet services false action (amend (take_turn 0) s) in
      Spends-of s _ _ q.turns (omega (arith, ap (length {0}) q.sent))

  acts-Round :
      (a : Result String AgentAction) (s : Session World)
      → Round s (acts services menu a s).0 (acts services menu a s).1
  unfolding acts
  acts-Round (err text) s = refl
  acts-Round (ok action) s =
      act-Spends action (amend (λ (inv : InvestigationState). record inv { last_message = "" }) s)

  choose-Round :
      (step : Option ProposeToolCall) (s : Session World)
      → Round s (choose services menu step s).0 (choose services menu step s).1
  unfolding choose decide no_root_cause spend
  choose-Round (some step) s =
      Spends-of s _ _ (submit_and_relay-IsSameRun services menu step (amend spend s)).turns
        (submit_and_relay-sent services menu step (amend spend s))
  choose-Round none s =
      elim (Bool-cases
        (leb max_consecutive_record_observations s.investigation.consecutive_record_observations)) [
          | inl e ↦ rw e (omega arith)
          | inr e ↦ rw e (
              let asked =
                services.decide_next_action
                  (record {
                    investigation = s.investigation;
                    available_tool_ids = menu.available_ids;
                    tool_requirements = menu.tool_requirements;
                    out_of_turns = false;
                  })
                  s.world in
              acts-Round asked.0 (record s { world = asked.1 }))
        ]

  -- Each round sends one request at most, and spends exactly one turn if it goes on.
  pub turn-Round : (s : Session World) → Round s (turn services menu s).0 (turn services menu s).1
  unfolding turn begin_turn next_playbook_action
  turn-Round s =
      let step = next_playbook_action menu.available_ids (begin_turn s.investigation) in
      choose-Round step.0 (record s { investigation = step.1 })
