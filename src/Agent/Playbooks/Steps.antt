-- ===== src/Agent/Playbooks/Steps.antt =====
-- agent/playbooks/library.py: what every playbook's steps can ask of the Gateway.
use numi_dba_agent.Common.{
  Bool, true, false, ◌&&◌, ◌<◌, ◌≡◌, refl, ◌==◌, string_eq, Option-cases, Option, none, some, inl,
  inr, List, [], ◌∷◌, All, length, arith,
}
use numi_dba_agent.Common.Dict
use numi_dba_agent.Models.Tool.{operation_type_eq, OperationType-discrete, read, ToolDefinition}
use numi_dba_agent.ToolRegistry.{ToolTable, build}
use numi_dba_agent.ToolCatalog.Builders.{Schemas, read_tool, write_tool, restricted_tool}
use numi_dba_agent.ToolCatalog.Writes.{Settings}
use numi_dba_agent.ToolCatalog.{build_tool_catalog}
use numi_dba_agent.Agent.Playbooks.Defs.{Playbook, PlaybookStep}
use numi_dba_agent.Agent.Playbooks.{playbooks, get_playbook}

-- the registry has the step's tool, switched on and classified as a read
abbrev pub IsReadStep : ToolTable → PlaybookStep → Type 0
IsReadStep tools s =
    (t : ToolDefinition) × (Dict.get tools s.tool_id ≡ some t)
    × (t.operation_type ≡ read)
    × (t.enabled ≡ true)

abbrev is_read_tool : Option ToolDefinition → Bool
is_read_tool none = false
is_read_tool (some t) = t.operation_type == read && t.enabled

abbrev all_read : ToolTable → List PlaybookStep → Bool
all_read tools [] = true
all_read tools (s ∷ steps) = is_read_tool (Dict.get tools s.tool_id) && all_read tools steps

read_step :
    (tools : ToolTable) (s : PlaybookStep)
    → is_read_tool (Dict.get tools s.tool_id) ≡ true
    → IsReadStep tools s
read_step tools s h = elim (Option-cases (Dict.get tools s.tool_id)) [
  | inl e ↦ ground arith
  | inr (t, e) ↦ (t, e, ground arith, ground arith)
]

read_steps :
    (tools : ToolTable) (steps : List PlaybookStep)
    → all_read tools steps ≡ true
    → All (IsReadStep tools) steps
read_steps tools [] h = tt
read_steps tools (s ∷ steps) h =
    (read_step tools s (ground arith), read_steps tools steps (ground arith))

pub record IsRunnable (tools : ToolTable) (p : Playbook) : Type 0 where
  pub found : get_playbook (some p.playbook_id) ≡ some p
  pub starts : 0 < length p.steps
  pub leaves_a_turn : length p.steps < 6
  pub reads : All (IsReadStep tools) p.steps

runnable :
    (tools : ToolTable) (p : Playbook)
    → get_playbook (some p.playbook_id) ≡ some p
    → 0 < length p.steps
    → length p.steps < 6
    → all_read tools p.steps ≡ true
    → IsRunnable tools p
runnable tools p found starts leaves reads = record {
  found = found;
  starts = starts;
  leaves_a_turn = leaves;
  reads = read_steps tools p.steps reads;
}

module _ (schema : Schemas) (settings : Settings) where
  -- Whatever the switches of the Gateway: every playbook is found under its own identifier, has at
  -- least one step and at most five, so that its steps leave one of the six turns of an
  -- investigation, and each of its steps names a tool that the registry has, switched on and
  -- classified as a read.
  pub playbooks-IsRunnable : All (IsRunnable (build (build_tool_catalog schema settings))) playbooks
  unfolding playbooks get_playbook build_tool_catalog build Dict.get Dict.set string_eq read_tool
      write_tool restricted_tool OperationType-discrete
  playbooks-IsRunnable = (
    runnable _ _ refl (omega arith) (omega arith) refl,
    (
      runnable _ _ refl (omega arith) (omega arith) refl,
      (
        runnable _ _ refl (omega arith) (omega arith) refl,
        (
          runnable _ _ refl (omega arith) (omega arith) refl,
          (
            runnable _ _ refl (omega arith) (omega arith) refl,
            (
              runnable _ _ refl (omega arith) (omega arith) refl,
              (
                runnable _ _ refl (omega arith) (omega arith) refl,
                (
                  runnable _ _ refl (omega arith) (omega arith) refl,
                  (
                    runnable _ _ refl (omega arith) (omega arith) refl,
                    (
                      runnable _ _ refl (omega arith) (omega arith) refl,
                      (
                        runnable _ _ refl (omega arith) (omega arith) refl,
                        (
                          runnable _ _ refl (omega arith) (omega arith) refl,
                          (
                            runnable _ _ refl (omega arith) (omega arith) refl,
                            (runnable _ _ refl (omega arith) (omega arith) refl, tt),
                          ),
                        ),
                      ),
                    ),
                  ),
                ),
              ),
            ),
          ),
        ),
      ),
    ),
  )
