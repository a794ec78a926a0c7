-- ===== src/Execution/Dispatch.antt =====
-- execution/service.py: `_dispatch`, from the identifier of a tool to one method of an adapter. The
-- adapters' methods run on a database: they are functions of a `World`.
pub mod Answers
use Prim.Native.Nat.{Ordering}
use Prim.Native.String
use numi_dba_agent.Common.{
  ℕ, String, Bool, true, false, Option, none, some, List, [], ◌∷◌, ◌++◌, map, ltb, length, take,
  string_eq, ◌==◌, if◌then◌else◌,
}
use numi_dba_agent.Common.Dict
use numi_dba_agent.Common.Dict.{Dict}
use numi_dba_agent.Common.Exec.{Result, ok, err, Exec, ◌>>=◌, lift}
use numi_dba_agent.Common.Format.{concat}
use numi_dba_agent.Models.Execution.{ExecutionRequest, ExecutionResult}
use numi_dba_agent.Models.Failures.{failure_code_value, tool_not_found}
use numi_dba_agent.Models.Json.{Json, Arguments}

abbrev pub Row : Type 0
Row = Dict String Json

-- what a method of an adapter, or the opening of a connection, raises
pub data Raised : Type 0 where
  timed_out : Raised
  not_implemented : String → Raised
  other : String → Raised

-- what a restricted tool returns: a list of rows, or a dict
pub data Outcome : Type 0 where
  row_list : List Row → Outcome
  changed : Arguments → Outcome

-- An adapter, by the name of the method. A call is cut off after the request's time limit.
pub record Adapter (World : Type 0) : Type 0 where
  pub fetch : ℕ → String → List Json → World → Result Raised (List Row) × World
  pub change : ℕ → String → List Json → World → Result Raised Arguments × World
  pub restricted : ℕ → String → List Json → World → Result Raised Outcome × World

abbrev Methods : Type 0
Methods = Dict String (String × List String)

unfoldable pub read_methods : Methods
read_methods =
    ("database.get_health", ("health", []))
    ∷ ("database.get_version", ("version", []))
    ∷ ("database.get_sessions", ("sessions", []))
    ∷ ("database.get_blocking_sessions", ("blocking", []))
    ∷ ("database.get_deadlocks", ("deadlocks", []))
    ∷ ("database.get_running_queries", ("running_queries", []))
    ∷ ("database.get_wait_statistics", ("waits", []))
    ∷ ("database.get_query_plan", ("query_plan", "query_id" ∷ []))
    ∷ ("database.get_top_queries", ("top_queries", "order_by" ∷ "limit" ∷ []))
    ∷ ("database.get_indexes", ("indexes", "schema_name" ∷ "table" ∷ []))
    ∷ ("database.get_statistics", ("statistics", "schema_name" ∷ "table" ∷ []))
    ∷ ("database.get_tables", ("tables", []))
    ∷ ("database.get_storage", ("storage", []))
    ∷ ("database.get_transaction_log", ("transaction_log", []))
    ∷ ("database.get_replication_status", ("replication", []))
    ∷ ("database.get_backup_status", ("backups", []))
    ∷ ("database.get_configuration", ("configuration", []))
    ∷ ("database.get_error_logs", ("error_logs", "since_minutes" ∷ "limit" ∷ []))
    ∷ []

unfoldable pub write_methods : Methods
write_methods =
    ("database.cancel_query", ("cancel_query", "session_id" ∷ "reason" ∷ []))
    ∷ ("database.kill_session", ("kill_session", "session_id" ∷ "reason" ∷ []))
    ∷ ("database.update_statistics", ("update_statistics", "schema_name" ∷ "table" ∷ []))
    ∷ (
      "database.create_index",
      ("create_index", "schema_name" ∷ "table" ∷ "columns" ∷ "name" ∷ "unique" ∷ []),
    )
    ∷ ("database.rebuild_index", ("rebuild_index", "schema_name" ∷ "table" ∷ "index_name" ∷ []))
    ∷ ("database.modify_configuration", ("modify_configuration", "parameter" ∷ "value" ∷ []))
    ∷ ("database.restart_instance", ("restart_instance", []))
    ∷ ("database.failover", ("failover", "target_instance" ∷ []))
    ∷ []

unfoldable pub restricted_methods : Methods
restricted_methods =
    ("database.execute_readonly_sql", ("execute_readonly_sql", "sql" ∷ []))
    ∷ ("database.execute_sql", ("execute_sql", "sql" ∷ []))
    ∷ ("database.restore_database", ("restore_database", "backup_id" ∷ []))
    ∷ ("database.create_database", ("create_database", "database_name" ∷ []))
    ∷ ("database.drop_database", ("drop_database", "database_name" ∷ []))
    ∷ ("database.truncate_table", ("truncate_table", "schema_name" ∷ "table" ∷ []))
    ∷ (
      "database.bulk_delete",
      ("bulk_delete", "schema_name" ∷ "table" ∷ "predicate_description" ∷ []),
    )
    ∷ []

-- `[args[name] for name in names]`; a missing name is a `KeyError`
call_args : Arguments → List String → Result Raised (List Json)
unfolding Dict.get
call_args args [] = ok []
call_args args (name ∷ names) =
    let rest = call_args args names in
    elim (Dict.get args name) [
      | none ↦ err (other name)
      | some value ↦ elim rest [ ok values ↦ ok (value ∷ values) | err e ↦ err e ]
    ]

-- a name put in its place, once
insert_name : String → List String → List String
insert_name name [] = name ∷ []
insert_name name (n ∷ names) =
    let later = insert_name name names in
    elim (String.compare name n) [
      | Ordering.lt ↦ name ∷ n ∷ names
      | Ordering.eq ↦ n ∷ names
      | Ordering.gt ↦ n ∷ later
    ]

row_columns : Row → List String → List String
unfolding insert_name
row_columns [] names = names
row_columns ((k, v) ∷ row) names = insert_name k (row_columns row names)

-- `sorted({k for row in rows for k in row.keys()})`
unfoldable pub columns_of : List Row → List String
unfolding row_columns
columns_of [] = []
columns_of (row ∷ rows) = row_columns row (columns_of rows)

-- an `ExecutionResult`, its defaults written out
unfoldable pub succeeded : String → ExecutionResult
succeeded id = record {
  execution_id = id;
  success = true;
  columns = [];
  rows = [];
  row_count = 0;
  truncated = false;
  affected = [];
  error_code = none;
  error_detail = none;
  verification_status = "NOT_APPLICABLE";
  verification_detail = "";
  duration_ms = 0;
}

unfoldable pub fail : String → String → String → ExecutionResult
unfolding succeeded
fail id code detail = record (succeeded id) {
  success = false;
  error_code = some code;
  error_detail = some detail;
}

fetched : ExecutionRequest → List Row → ExecutionResult
unfolding succeeded columns_of
fetched request all =
    let kept = take request.max_result_rows all in
    record (succeeded request.execution_id) {
      columns = columns_of kept;
      rows = kept;
      row_count = length kept;
      truncated = ltb request.max_result_rows (length all);
    }

-- The rows of a restricted tool are passed on whole.
returned : ExecutionRequest → Outcome → ExecutionResult
unfolding succeeded
returned request (row_list all) = record (succeeded request.execution_id) {
  rows = all;
  row_count = length all;
}
returned request (changed affected) = record (succeeded request.execution_id) {
  affected = affected;
}

module _ {World : Type 0} (adapter : Adapter World) (request : ExecutionRequest) where
  read_call : String × List String → Exec Raised World ExecutionResult
  unfolding call_args fetched
  read_call (method, names) = do
    args ← lift (call_args request.arguments names)
    all ← adapter.fetch request.max_execution_time method args
    lift (ok (fetched request all))

  write_call : String × List String → Exec Raised World ExecutionResult
  unfolding call_args succeeded
  write_call (method, names) = do
    args ← lift (call_args request.arguments names)
    affected ← adapter.change request.max_execution_time method args
    lift (ok (record (succeeded request.execution_id) { affected = affected }))

  restricted_call : String × List String → Exec Raised World ExecutionResult
  unfolding call_args returned
  restricted_call (method, names) = do
    args ← lift (call_args request.arguments names)
    outcome ← adapter.restricted request.max_execution_time method args
    lift (ok (returned request outcome))

  unknown_tool : Exec Raised World ExecutionResult
  unfolding concat fail failure_code_value
  unknown_tool = lift (
      ok (
        fail request.execution_id (failure_code_value tool_not_found)
          (concat ("Execution Service has no dispatch entry for '" ∷ request.tool_id ∷ "'." ∷ []))))

  dispatched :
      Option (String × List String)
      → Option (String × List String)
      → Option (String × List String)
      → Exec Raised World ExecutionResult
  unfolding read_call write_call restricted_call unknown_tool
  dispatched (some entry) writes restricted = read_call entry
  dispatched none (some entry) restricted = write_call entry
  dispatched none none (some entry) = restricted_call entry
  dispatched none none none = unknown_tool

  unfoldable pub dispatch : Exec Raised World ExecutionResult
  unfolding dispatched read_methods write_methods restricted_methods Dict.get string_eq
  dispatch =
      dispatched (Dict.get read_methods request.tool_id) (Dict.get write_methods request.tool_id)
        (Dict.get restricted_methods request.tool_id)
