-- ===== src/Execution/Connect.antt =====
-- execution/service.py: `_build_adapter` and `execute`, which opens a connection for one request and
-- closes it whatever happens. The drivers and the store of credentials are parameters; the factory
-- that only tests set is left out.
pub mod Closing
use numi_dba_agent.Common.{
  ℕ, String, Bool, true, false, Option, none, some, List, [], ◌∷◌, ◌+◌, ◌-◌, string_eq, ◌==◌, not,
  if◌then◌else◌,
}
use numi_dba_agent.Common.Exec.{Result, ok, err, Exec, ◌>>=◌, ◌>>◌, lift, pure, raise, gets}
use numi_dba_agent.Common.Format.{concat}
use numi_dba_agent.Models.Execution.{ExecutionRequest, ExecutionResult}
use numi_dba_agent.Models.Failures.{
  failure_code_value, execution_timeout, tool_not_available, execution_failed,
}
use numi_dba_agent.Models.Target.{Platform, sqlserver, postgresql, mysql, oracle, mariadb}
use numi_dba_agent.Execution.Dispatch.{
  Raised, timed_out, not_implemented, other, Adapter, fail, dispatch,
}

-- the classes of adapters
pub data Engine : Type 0 where
  sqlserver_engine postgresql_engine mysql_engine : Engine

unfoldable pub adapter_class_for : Platform → Result Raised Engine
adapter_class_for sqlserver = ok sqlserver_engine
adapter_class_for postgresql = ok postgresql_engine
adapter_class_for mysql = ok mysql_engine
adapter_class_for mariadb = ok mysql_engine
adapter_class_for oracle = err (
    not_implemented
      "No adapter registered for platform 'oracle'. Adding a new engine (e.g. Oracle) means implementing DatabaseAdapter and registering it here — the Agent/Gateway contract does not change.")

-- The credentials of a server, the drivers' connections and the clock. A connection that is closed
-- may raise too.
pub record Drivers (World Credentials Handle : Type 0) : Type 0 where
  pub get_credentials : String → World → Result Raised Credentials × World
  pub with_database : String → Credentials → Credentials
  pub connect : Engine → Credentials → World → Result Raised Handle × World
  pub adapter : Engine → String → Handle → Adapter World
  pub close : Handle → World → Result Raised (Unit {0}) × World
  pub elapsed_ms : World → ℕ
  pub decimal : ℕ → String  -- `str` of an `int`

-- the world, and the connections that are open, the latest first
pub record Room (World Handle : Type 0) : Type 0 where
  pub world : World
  pub open_handles : List Handle

-- what the body of the `try` came to: the connection, if one was opened, and the result or what it
-- raised
pub record Attempt (World Handle : Type 0) : Type 0 where
  pub handle : Option Handle
  pub result : Result Raised ExecutionResult
  pub room : Room World Handle

-- the connections that were open before the latest
abbrev rest_of {ℓ} : {A : Type ℓ} → List A → List A
rest_of [] = []
rest_of (h ∷ hs) = hs

in_place : ExecutionResult → Result Raised (Unit {0}) → Result Raised ExecutionResult
in_place result (ok done) = ok result
in_place result (err e) = err e

module _ {World Credentials Handle : Type 0} (drivers : Drivers World Credentials Handle)
    (request : ExecutionRequest) where
  -- `if request.database: creds = creds.model_copy(...)`
  scoped : Credentials → Credentials
  unfolding string_eq
  scoped creds =
      if request.database == "" then creds else drivers.with_database request.database creds

  -- with a connection: the one call, under its time limit
  run_on : Engine → Result Raised Handle × World → Room World Handle → Attempt World Handle
  unfolding dispatch
  run_on engine (err e, w) r = record {
    handle = none;
    result = err e;
    room = record r { world = w };
  }
  run_on engine (ok handle, w) r =
      let (result, after) = dispatch (drivers.adapter engine request.database handle) request w in
      record {
        handle = some handle;
        result = result;
        room = record { world = after; open_handles = handle ∷ r.open_handles };
      }

  connect_to : Result Raised Engine → Credentials → Room World Handle → Attempt World Handle
  unfolding run_on
  connect_to (err e) creds r = record { handle = none; result = err e; room = r }
  connect_to (ok engine) creds r = run_on engine (drivers.connect engine creds r.world) r

  with_credentials : Result Raised Credentials × World → Room World Handle → Attempt World Handle
  unfolding connect_to scoped adapter_class_for
  with_credentials (err e, w) r = record {
    handle = none;
    result = err e;
    room = record r { world = w };
  }
  with_credentials (ok creds, w) r =
      connect_to (adapter_class_for request.platform) (scoped creds) (record r { world = w })

  -- the body of the `try`
  attempt : Room World Handle → Attempt World Handle
  unfolding with_credentials
  attempt r = with_credentials (drivers.get_credentials request.server_id r.world) r

  detail_of : Raised → String
  unfolding concat
  detail_of timed_out =
      concat
        ("Execution exceeded " ∷ drivers.decimal request.max_execution_time ∷ "s timeout." ∷ [])
  detail_of (not_implemented text) = text
  detail_of (other text) = "The database operation failed. See server-side logs for detail."

  code_of : Raised → String
  unfolding failure_code_value
  code_of timed_out = failure_code_value execution_timeout
  code_of (not_implemented text) = failure_code_value tool_not_available
  code_of (other text) = failure_code_value execution_failed

  -- the `except` clauses, and the duration
  outcome : Result Raised ExecutionResult → World → ExecutionResult
  unfolding code_of detail_of fail
  outcome (ok result) w = record result { duration_ms = drivers.elapsed_ms w }
  outcome (err e) w = record (fail request.execution_id (code_of e) (detail_of e)) {
    duration_ms = drivers.elapsed_ms w;
  }

  -- The `finally`: a close that raises takes the result's place, and its handle counts as closed.
  closed :
      ExecutionResult
      → Option Handle
      → Room World Handle
      → Result Raised ExecutionResult × Room World Handle
  closed result none r = (ok result, r)
  closed result (some handle) r =
      let (done, w) = drivers.close handle r.world in
      (in_place result done, record { world = w; open_handles = rest_of r.open_handles })

  unfoldable pub execute : Room World Handle → Result Raised ExecutionResult × Room World Handle
  unfolding attempt outcome closed in_place
  execute r = let a = attempt r in closed (outcome a.result a.room.world) a.handle a.room
