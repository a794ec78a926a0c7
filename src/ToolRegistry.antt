-- ===== src/ToolRegistry.antt =====
-- gateway/domain/tool_registry.py, over the list that `build_tool_catalog` returns.
use numi_dba_agent.Common.{
  String, Bool, not, ◌&&◌, Option, none, some, List, [], ◌∷◌, ◌==◌, contains, string_eq, filter,
  if◌then◌else◌,
}
use numi_dba_agent.Common.Dict
use numi_dba_agent.Common.Dict.{Dict}
use numi_dba_agent.Common.Exec.{Result, ok, err}
use numi_dba_agent.Models.Failures.{Error, numi_error, tool_not_found, tool_not_available}
use numi_dba_agent.Models.Identity.{DbaRole, dba_role_eq}
use numi_dba_agent.Models.Tool.{ToolDefinition}

abbrev pub ToolTable : Type 0
ToolTable = Dict String ToolDefinition

register : ToolTable → List ToolDefinition → ToolTable
register tools [] = tools
register tools (t ∷ ts) = register (Dict.set tools t.tool_id t) ts

-- `{t.tool_id: t for t in build_tool_catalog(settings)}`
unfoldable pub build : List ToolDefinition → ToolTable
unfolding register
build catalog = register [] catalog

abbrev is_other_version : Option String → String → Bool
is_other_version none version = Bool.false
is_other_version (some wanted) version = not (wanted == version)

-- `ToolRegistry.get`
unfoldable pub find : ToolTable → String → Option String → Result Error ToolDefinition
find tools tool_id tool_version = elim (Dict.get tools tool_id) [
  | none ↦ err (numi_error tool_not_found)
  | some tool ↦
      if is_other_version tool_version tool.version
      then err (numi_error tool_not_found)
      else if not tool.enabled
      then err (numi_error tool_not_available)
      else ok tool
]

abbrev values {ℓ} : {A : Type ℓ} → Dict String A → List A
values [] = []
values ((k, v) ∷ d) = v ∷ values d

unfoldable pub tools_for_role : ToolTable → DbaRole → List ToolDefinition
tools_for_role tools role =
    filter (λ (t : ToolDefinition). t.enabled && contains t.allowed_roles role) (values tools)
