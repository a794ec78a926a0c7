-- ===== src/Agent/Limits.antt =====
-- agent/orchestrator.py: the constants of the investigation loop, and its tests of a tool call.
use numi_dba_agent.Common.{
  ℕ, String, Bool, true, false, Option, none, some, List, [], ◌∷◌, ◌==◌, contains, string_eq, any,
  filter, if◌then◌else◌,
}
use numi_dba_agent.Common.Dict
use numi_dba_agent.Common.Dict.{Dict}
use numi_dba_agent.Models.Failures.{
  FailureCode, failure_code_eq, invalid_arguments, invalid_target, tool_not_found,
}
use numi_dba_agent.Models.Json.{Json, null, bool, num, str, Arguments, truthy}
use numi_dba_agent.Models.Tool.{OperationType, operation_type_eq, read, ToolCallResult}

abbrev pub max_investigation_turns : ℕ
max_investigation_turns = 6

abbrev pub max_consecutive_record_observations : ℕ
max_consecutive_record_observations = 2

abbrev pub max_clarification_turns : ℕ
max_clarification_turns = 4

abbrev pub self_correctable_denial_codes : List FailureCode
self_correctable_denial_codes = invalid_arguments ∷ invalid_target ∷ tool_not_found ∷ []

-- `response.failure_code in _SELF_CORRECTABLE_DENIAL_CODES`
unfoldable pub is_self_correctable : Option FailureCode → Bool
is_self_correctable none = false
is_self_correctable (some code) = contains self_correctable_denial_codes code

unfoldable pub verification_tools_by_write_tool : Dict String (List String)
verification_tools_by_write_tool =
    ("database.kill_session", "database.get_blocking_sessions" ∷ "database.get_sessions" ∷ [])
    ∷ (
      "database.cancel_query",
      "database.get_blocking_sessions" ∷ "database.get_running_queries" ∷ "database.get_sessions"
          ∷ [],
    )
    ∷ []

abbrev pub read_only_guard_tool_id : String
read_only_guard_tool_id = "internal.readonly_guard"

unfoldable pub is_read : Option OperationType → Bool
is_read none = false
is_read (some operation) = operation == read

-- `_is_confirmed_read_tool`; the loop always passes the map
unfoldable pub is_confirmed_read_tool : Dict String OperationType → String → Bool
unfolding is_read
is_confirmed_read_tool types tool_id = is_read (Dict.get types tool_id)

-- `str(value)`; a text is itself
unfoldable pub py_str : (Json → String) → Option Json → String
py_str container_text none = "None"
py_str container_text (some null) = "None"
py_str container_text (some (bool true)) = "True"
py_str container_text (some (bool false)) = "False"
py_str container_text (some (num t)) = t
py_str container_text (some (str s)) = s
py_str container_text (some v) = container_text v

shows : (Json → String) → Json → List String → List (Dict String Json) → Bool
unfolding py_str string_eq Dict.get
shows container_text session_id keys rows =
    any
      (λ (row : Dict String Json).
        any
          (λ (key : String).
            py_str container_text (Dict.get row key) == py_str container_text (some session_id))
          keys)
      rows

result_rows : Option ToolCallResult → List (Dict String Json)
result_rows none = []
result_rows (some result) = result.rows

abbrev result_keys : String → List String
result_keys tool_id =
    if tool_id == "database.get_blocking_sessions"
    then "blocked_session_id" ∷ "blocking_session_id" ∷ []
    else "session_id" ∷ []

unfoldable pub verification_still_shows_condition :
    (Json → String) → String → Option Json → Option ToolCallResult → Bool
unfolding shows result_rows truthy string_eq
verification_still_shows_condition container_text tool_id none result = false
verification_still_shows_condition container_text tool_id (some session_id) result =
    if truthy session_id
    then shows container_text session_id (result_keys tool_id) (result_rows result)
    else false

-- `_strip_unschematized_arguments`
keep_allowed : Option (List String) → Arguments → Arguments
keep_allowed none arguments = arguments
keep_allowed (some allowed) arguments =
    filter (λ (kv : String × Json). contains allowed kv.0) arguments

unfoldable pub strip_unschematized_arguments :
    Dict String (List String) → String → Arguments → Arguments
unfolding keep_allowed
strip_unschematized_arguments allowed tool_id arguments =
    keep_allowed (Dict.get allowed tool_id) arguments
