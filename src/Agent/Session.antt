-- ===== src/Agent/Session.antt =====
-- agent/orchestrator.py: what a run of the investigation loop reads and writes, and the services it
-- calls. The language model and the Gateway are behind a network, so they are functions of a
-- `World` that they change; the model's question is the investigation itself, of which
-- `_problem_statement_for_llm` writes the prompt.
use numi_dba_agent.Common.{String, Bool, List, [], ◌∷◌, ◌++◌}
use numi_dba_agent.Common.Dict.{Dict}
use numi_dba_agent.Common.Exec.{Result}
use numi_dba_agent.Models.Json.{Json}
use numi_dba_agent.Models.Tool.{OperationType, ToolCallRequest, ToolCallResponse}
use numi_dba_agent.Agent.Actions.{AgentAction, Conclude, CritiqueVerdict}
use numi_dba_agent.Agent.State.{InvestigationState, ConversationState, Entry}

-- what `_continue_investigation` passes to the loop: the caller, and what it fetched from `/v1/tools`
pub record Menu : Type 0 where
  pub channel : String
  pub channel_account_id : String
  pub available_ids : List String
  pub tool_requirements : Dict String (List String)
  pub tool_allowed_arguments : Dict String (List String)
  pub tool_operation_types : Dict String OperationType

-- the arguments of `decide_next_action`
pub record Question : Type 0 where
  pub investigation : InvestigationState
  pub available_tool_ids : List String
  pub tool_requirements : Dict String (List String)
  pub out_of_turns : Bool

-- a response of the Gateway and its message
pub record Answer : Type 0 where
  pub response : ToolCallResponse
  pub message : String

pub record DecisionEvent : Type 0 where
  pub event_type : String
  pub conversation_id : String
  pub investigation_id : String

-- `err text` of a service is an exception with that text. `log_decision_event` catches its own.
-- The last three are of Python's library: the matches of the pattern for CamelCase names,
-- `json.dumps` of a transcript, and `str` of a list or dict.
pub record Services (World : Type 0) : Type 0 where
  pub decide_next_action : Question → World → Result String AgentAction × World
  pub critique_conclusion :
      InvestigationState → Conclude → World → Result String CritiqueVerdict × World
  pub submit : ToolCallRequest → World → Result String Answer × World
  pub new_request_id : World → String × World
  pub log_decision_event : DecisionEvent → World → World
  pub self_critique_enabled : Bool
  pub camel_case_names : String → List String
  pub dump_transcript : List Entry → String
  pub container_text : Json → String

-- `sent` lists the requests handed to the Gateway, the latest first.
pub record Session (World : Type 0) : Type 0 where
  pub conversation : ConversationState
  pub investigation : InvestigationState
  pub sent : List ToolCallRequest
  pub world : World

-- what escapes a loop: an exception, or the end of the fuel
pub data Stop : Type 0 where
  raised : String → Stop
  out_of_fuel : Stop

module _ {World : Type 0} where
  abbrev pub amend : (InvestigationState → InvestigationState) → Session World → Session World
  amend f s = record s { investigation = f s.investigation }

abbrev pub add_evidence : String → InvestigationState → InvestigationState
add_evidence text inv = record inv { evidence = inv.evidence ++ text ∷ [] }

abbrev pub add_entry : Entry → InvestigationState → InvestigationState
add_entry entry inv = record inv { transcript = inv.transcript ++ entry ∷ [] }
