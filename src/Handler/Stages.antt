-- ===== src/Handler/Stages.antt =====
-- gateway/domain/tool_call_handler.py: the stages of `_handle_inner`, one function for each.
use numi_dba_agent.Common.{
  String, false, not, ◌&&◌, Option, none, some, [], ◌∷◌, ◌++◌, ◌==◌, string_eq, if◌then◌else◌,
}
use numi_dba_agent.Common.Dict
use numi_dba_agent.Common.Dict.{Dict}
use numi_dba_agent.Common.Exec.{Result, ok, err, pure, lift, gets, ◌>>=◌, ◌>>◌}
use numi_dba_agent.Models.Catalog.{ServerCatalog}
use numi_dba_agent.Models.Execution.{ExecutionRequest, ExecutionResult}
use numi_dba_agent.Models.Failures.{
  Error, numi_error, uncaught, tool_not_found, invalid_arguments, invalid_target, policy_denied,
  change_ticket_required, execution_failed, failure_code_of,
}
use numi_dba_agent.Models.Identity.{DbaRole, VerifiedIdentity, highest_role}
use numi_dba_agent.Models.Json.{str, Arguments, truthy, given}
use numi_dba_agent.Models.Target.{DatabaseTarget, Platform, sqlserver}
use numi_dba_agent.Models.Tool.{ToolDefinition, ToolCallRequest, read, operation_type_eq}
use numi_dba_agent.Discovery.{ensure_fresh}
use numi_dba_agent.Policy.{PolicyEvaluation, deny, policy_decision_eq, evaluate}
use numi_dba_agent.RateLimit.{check}
use numi_dba_agent.Servers.{resolve}
use numi_dba_agent.TargetValidation.{TargetContext, validate}
use numi_dba_agent.ToolRegistry.{find}
use numi_dba_agent.Handler.State.{Gateway, Surroundings, GatewayState, Handling, on_buckets}

-- `args_dict.get(key)` where it is truthy and the target does not have the field
abbrev update_for : Arguments → String → Option String → String → Arguments
update_for args key present field = elim (Dict.get args key) [
  | none ↦ []
  | some v ↦ if truthy v && not (given present) then (field, v) ∷ [] else []
]

-- the dict `updates`
unfoldable pub target_updates : DatabaseTarget → Arguments → Arguments
target_updates target args =
    update_for args "schema_name" target.schema_name "schema"
    ++ (update_for args "table" target.object_name "object"
        ++ (update_for args "session_id" target.session_id "session_id"
            ++ update_for args "query_id" target.query_id "query_id"))

-- `_enrich_target`
unfoldable pub enrich_target :
    (DatabaseTarget → Arguments → DatabaseTarget) → DatabaseTarget → Arguments → DatabaseTarget
unfolding target_updates
enrich_target model_copy target args = elim (target_updates target args) [
  | [] ↦ target
  | u ∷ us ↦ model_copy target (u ∷ us)
]

-- what the first stages make of a request
pub record Resolved : Type 0 where
  pub tool : ToolDefinition
  pub target : DatabaseTarget
  pub arguments : Arguments
  pub ctx : TargetContext

abbrev readonly_sql_tool : String
readonly_sql_tool = "database.execute_readonly_sql"

abbrev sql_dialect : Platform → String
sql_dialect sqlserver = "tsql"
sql_dialect _ = "postgres"

module _ {B : Type 0} where
  -- the catalog store, as the target's validation reads it
  unfoldable pub catalog_reader : GatewayState B → String → Option ServerCatalog
  catalog_reader s server_id = Dict.get s.catalogs server_id

module _ {B : Type 0} (g : Gateway B) (w : Surroundings) where
  -- steps 1 and 2
  unfoldable pub validate_arguments : ToolDefinition → Arguments → Result Error Arguments
  validate_arguments tool arguments = elim (Dict.get g.argument_models tool.tool_id) [
    | none ↦ err (numi_error tool_not_found)
    | some model ↦ elim (model arguments) [
      | none ↦ err (numi_error invalid_arguments)
      | some args ↦ ok args
    ]
  ]

  abbrev parsed_target : Option DatabaseTarget → Result Error DatabaseTarget
  parsed_target none = err (numi_error invalid_target)
  parsed_target (some t) = ok t

  -- the lazy discovery of step 3: for reads, and never fatal
  unfoldable pub discover_lazily : ToolDefinition → DatabaseTarget → Handling B Unit
  discover_lazily tool target s = elim g.discovery [
    | none ↦ (ok tt, s)
    | some settings ↦ elim (resolve g.servers target) [
      | err e ↦ (ok tt, s)
      | ok server ↦
          let catalogs =
            ensure_fresh settings w.discover g.servers server.id w.discovered_at s.catalogs in
          (ok tt, if tool.operation_type == read then record s { catalogs = catalogs } else s)
    ]
  ]

  -- step 3.5: the statement of the read-only SQL tool is replaced by the checked one
  unfoldable pub check_sql : ToolDefinition → TargetContext → Arguments → Result Error Arguments
  check_sql tool ctx args =
      if tool.tool_id == readonly_sql_tool
      then elim (Dict.get args "sql") [
        | some (str sql) ↦
            elim (g.validate_sql (sql_dialect ctx.server.platform) sql tool.max_result_rows) [
              | ok normalized ↦ ok (Dict.set args "sql" (str normalized))
              | err e ↦ err e
            ]
        | _ ↦ err uncaught
      ]
      else ok args

  -- steps 1 to 3.5
  unfoldable pub resolve_call : ToolCallRequest → Handling B Resolved
  resolve_call request = do
    tool ← lift (find g.tools request.tool_id request.tool_version)
    args ← lift (validate_arguments tool request.arguments)
    raw_target ← lift (parsed_target (g.parse_target request.target))
    let target = enrich_target g.model_copy raw_target args
    discover_lazily tool target
    catalog_of ← gets catalog_reader
    ctx ← lift (validate g.servers catalog_of target tool.required_target_scope)
    args' ← lift (check_sql tool ctx args)
    pure (record { tool = tool; target = target; arguments = args'; ctx = ctx })

  -- step 5
  unfoldable pub limit_rate : VerifiedIdentity → ToolCallRequest → Resolved → Handling B Unit
  limit_rate identity request c = on_buckets (
      check g.backend g.limits_of
        (record {
          operation_type = c.tool.operation_type;
          requires_approval = c.tool.requires_approval;
          user_subject_id = identity.subject_id;
          conversation_id = request.conversation_id;
          tool_id = c.tool.tool_id;
          database_id = c.ctx.server.id;
          environment = c.ctx.server.environment;
        })
        w.counted_at)

  -- `role.value` raises where there is no role
  abbrev evaluated : ToolCallRequest → Resolved → Option DbaRole → Result Error PolicyEvaluation
  evaluated request c none = err uncaught
  evaluated request c (some role) =
      elim (evaluate g.policy g.zones c.ctx.server.environment c.tool role c.ctx request.change_id
        false w.evaluated_at) [ none ↦ err uncaught | some e ↦ ok e ]

  -- step 6
  unfoldable pub apply_policy :
      VerifiedIdentity → ToolCallRequest → Resolved → Result Error PolicyEvaluation
  apply_policy identity request c = elim (evaluated request c (highest_role identity)) [
    | err e ↦ err e
    | ok evaluation ↦
        if evaluation.decision == deny
        then err (numi_error policy_denied)
        else if evaluation.requires_change_ticket && not (given request.change_id)
        then err (numi_error change_ticket_required)
        else ok evaluation
  ]

  -- `FailureCode(result.error_code) if result.error_code else EXECUTION_FAILED`
  unfoldable pub error_of : Option String → Error
  error_of none = numi_error execution_failed
  error_of (some text) =
      if given (some text)
      then elim (failure_code_of text) [ none ↦ uncaught | some c ↦ numi_error c ]
      else numi_error execution_failed

  abbrev outcome : Option ExecutionResult → Result Error ExecutionResult
  outcome none = err uncaught
  outcome (some result) = if result.success then ok result else err (error_of result.error_code)

  -- step 9: the request is sent, whatever comes back
  unfoldable pub execute : ExecutionRequest → Handling B ExecutionResult
  execute request s =
      (outcome (w.execute request), record s { executions = s.executions ++ request ∷ [] })
