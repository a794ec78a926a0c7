-- ===== src/Agent/Loop/Ends.antt =====
-- agent/orchestrator.py: `_run_investigation_loop` ends, within its turns.
use numi_dba_agent.Common.{
  ℕ, zero, suc, ◌+◌, ◌-◌, ◌≤◌, ◌<◌, String, true, Option, none, some, ◌≡◌, refl, ap, Bool-cases,
  inl, inr, length, ltb, ltb→lt, arith,
}
use numi_dba_agent.Common.Exec.{Result, ok, err}
use numi_dba_agent.Agent.Actions.{
  AgentAction, ask_clarification, propose_tool_call, record_observation, conclude, AgentReply,
}
use numi_dba_agent.Agent.Session.{Menu, Services, Session, Stop, raised, out_of_fuel}
use numi_dba_agent.Agent.Limits.{max_investigation_turns}
use numi_dba_agent.Agent.Conclude.Frame.{IsQuiet, finalize_conclude-IsQuiet}
use numi_dba_agent.Agent.Loop.{
  turn, go_on, no_root_cause, last_words, or_no_root_cause, last_chance, run_loop,
  run_investigation_loop,
}
use numi_dba_agent.Agent.Loop.Turns.{Round, turn-Round}

module _ {World : Type 0} where
  -- The run ended, with a reply or by an exception of a service, and sent no more requests than turns
  -- were left.
  abbrev pub Ends : Session World → Result Stop (Option AgentReply) → Session World → Type 0
  Ends s (ok none) s' = ⊥
  Ends s (ok (some reply)) s' =
      length s'.sent ≤ length s.sent + (max_investigation_turns - s.investigation.turn_count)
  Ends s (err (raised text)) s' =
      length s'.sent ≤ length s.sent + (max_investigation_turns - s.investigation.turn_count)
  Ends s (err out_of_fuel) s' = ⊥

  -- a round that spent a turn, and the rounds after it
  Ends-later :
      (s s' : Session World) (r : Result Stop (Option AgentReply)) (s'' : Session World)
      → s.investigation.turn_count < max_investigation_turns
      → s'.investigation.turn_count ≡ s.investigation.turn_count + 1
      → length s'.sent ≤ length s.sent + 1
      → Ends s' r s''
      → Ends s r s''
  Ends-later s s' (ok none) s'' left turns sent rest = rest
  Ends-later s s' (ok (some reply)) s'' left turns sent rest = omega arith
  Ends-later s s' (err (raised text)) s'' left turns sent rest = omega arith
  Ends-later s s' (err out_of_fuel) s'' left turns sent rest = rest

module _ {World : Type 0} (services : Services World) (menu : Menu) where
  no_root_cause-Ends :
      (s s' : Session World)
      → s'.sent ≡ s.sent
      → Ends s (ok (no_root_cause services menu s').0) (no_root_cause services menu s').1
  unfolding no_root_cause
  no_root_cause-Ends s s' same = omega (arith, ap (length {0}) same)

  or_no_root_cause-Ends :
      (s : Session World) (out : Option AgentReply × Session World)
      → IsQuiet s out
      → Ends s (ok (or_no_root_cause services menu out).0) (or_no_root_cause services menu out).1
  unfolding or_no_root_cause
  or_no_root_cause-Ends s (some reply, s') q = omega (arith, ap (length {0}) q.sent)
  or_no_root_cause-Ends s (none, s') q = no_root_cause-Ends s s' q.sent

  last_words-Ends :
      (a : Result String AgentAction) (s : Session World)
      → Ends s (last_words services menu a s).0 (last_words services menu a s).1
  unfolding last_words
  last_words-Ends (err text) s = omega arith
  last_words-Ends (ok (conclude action)) s =
      or_no_root_cause-Ends s _ (finalize_conclude-IsQuiet services true action s)
  last_words-Ends (ok (ask_clarification question)) s = no_root_cause-Ends s s refl
  last_words-Ends (ok (record_observation text)) s = no_root_cause-Ends s s refl
  last_words-Ends (ok (propose_tool_call action)) s = no_root_cause-Ends s s refl

  last_chance-Ends :
      (s : Session World) → Ends s (last_chance services menu s).0 (last_chance services menu s).1
  unfolding last_chance
  last_chance-Ends s = last_words-Ends _ _

  -- what a round leaves to the rounds after it
  go_on-Ends :
      (again : Session World → Result Stop (Option AgentReply) × Session World) (s : Session World)
      (r : Result Stop (Option AgentReply)) (s' : Session World)
      → s.investigation.turn_count < max_investigation_turns
      → Round s r s'
      → (s'.investigation.turn_count ≡ s.investigation.turn_count + 1
          → Ends s' (again s').0 (again s').1)
      → Ends s (go_on services menu again r s').0 (go_on services menu again r s').1
  unfolding go_on
  go_on-Ends again s (ok none) s' left (turns, sent) rest =
      Ends-later s s' (again s').0 (again s').1 left turns sent (rest turns)
  go_on-Ends again s (ok (some reply)) s' left sent rest = omega arith
  go_on-Ends again s (err (raised text)) s' left sent rest = omega (arith, ap (length {0}) sent)
  go_on-Ends again s (err out_of_fuel) s' left sent rest = sent

  run_loop-Ends :
      (fuel : ℕ) (s : Session World)
      → 0 < fuel
      → max_investigation_turns < fuel + s.investigation.turn_count
      → Ends s (run_loop services menu fuel s).0 (run_loop services menu fuel s).1
  unfolding run_loop
  run_loop-Ends zero s some_fuel enough = absurd (omega arith)
  run_loop-Ends (suc fuel) s some_fuel enough =
      elim (Bool-cases (ltb s.investigation.turn_count max_investigation_turns)) [
        | inl e ↦ rw e (
            go_on-Ends (run_loop services menu fuel) s (turn services menu s).0
              (turn services menu s).1 (ltb→lt _ _ e) (turn-Round services menu s)
              (λ turns.
                run_loop-Ends fuel (turn services menu s).1 (omega (arith, ltb→lt _ _ e))
                  (omega arith)))
        | inr e ↦ rw e (last_chance-Ends s)
      ]

  -- Started with any number of turns spent, the loop ends: the seven rounds of the model are never
  -- used up, a run that no service interrupts by an exception ends with a reply, and whatever ends
  -- it, no more requests were sent to the Gateway than the six turns had left.
  pub run_investigation_loop-Ends :
      (s : Session World)
      → Ends s (run_investigation_loop services menu s).0 (run_investigation_loop services menu s).1
  unfolding run_investigation_loop
  run_investigation_loop-Ends s = run_loop-Ends 7 s (omega arith) (omega arith)
