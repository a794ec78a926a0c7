-- ===== src/Tests/Executions.antt =====
-- The Execution Service at a concrete request: a driver that counts, and a call that exceeds its time.
use numi_dba_agent.Common.{ℕ, suc, String, none, [], ◌∷◌, ◌≡◌}
use numi_dba_agent.Common.Exec.{ok, err}
use numi_dba_agent.Models.Execution.{ExecutionRequest}
use numi_dba_agent.Models.Target.{postgresql}
use numi_dba_agent.Execution.Dispatch.{timed_out, row_list}
use numi_dba_agent.Execution.Connect.{Drivers, Room, execute}
use numi_dba_agent.Execution.Connect.Closing.{IsConcluded, execute_closes, execute-IsConcluded}

-- the world counts the connections opened so far, and a handle is its number
abbrev drivers : Drivers ℕ String ℕ
drivers = record {
  get_credentials = λ server w. (ok "secret", w);
  with_database = λ database creds. creds;
  connect = λ engine creds w. (ok w, suc w);
  adapter = λ engine database handle. record {
    fetch = λ limit method args w. (err timed_out, w);
    change = λ limit method args w. (ok [], w);
    restricted = λ limit method args w. (ok (row_list []), w);
  };
  close = λ handle w. (ok tt, w);
  elapsed_ms = λ w. 30000;
  decimal = λ n. "30";
}

abbrev request : ExecutionRequest
request = record {
  execution_id = "exec-1";
  tool_id = "database.get_health";
  tool_version = "1.0.0";
  platform = postgresql;
  server_id = "pg-prod-01";
  database = "orders";
  schema_name = none;
  object_name = none;
  session_id = none;
  query_id = none;
  arguments = [];
  max_execution_time = 30;
  max_result_rows = 100;
}

abbrev room : Room ℕ ℕ
room = record { world = 7; open_handles = 3 ∷ [] }

execute_closes_example : (execute drivers request room).1.open_handles ≡ room.open_handles
execute_closes_example = execute_closes drivers request room

execute-IsConcluded_example : IsConcluded drivers request (execute drivers request room).0
execute-IsConcluded_example = execute-IsConcluded drivers request room
