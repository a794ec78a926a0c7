-- ===== src/Agent/Playbooks/Defs.antt =====
-- agent/playbooks/library.py: a playbook and its steps.
use numi_dba_agent.Common.{String, List}
use numi_dba_agent.Models.Json.{Arguments}

pub record PlaybookStep : Type 0 where
  pub tool_id : String
  pub purpose : String
  pub arguments : Arguments

pub record Playbook : Type 0 where
  pub playbook_id : String
  pub name : String
  pub description : String
  pub triggers : List String
  pub steps : List PlaybookStep
  pub conclusion_guidance : String

-- `_step`
abbrev pub step : String → String → Arguments → PlaybookStep
step tool_id purpose arguments = record {
  tool_id = tool_id;
  purpose = purpose;
  arguments = arguments;
}
