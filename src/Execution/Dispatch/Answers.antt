-- ===== src/Execution/Dispatch/Answers.antt =====
-- execution/service.py: the shape of every result that `_dispatch` gives back.
use numi_dba_agent.Common.{
  String, true, false, Option, none, some, List, [], ◌≡◌, refl, ◌≤◌, ◌⊎◌, inl, inr, string_eq,
  length, length-take, arith,
}
use numi_dba_agent.Common.Dict
use numi_dba_agent.Common.Exec.{Result, ok, err, Exec, continue}
use numi_dba_agent.Models.Execution.{ExecutionRequest, ExecutionResult}
use numi_dba_agent.Models.Failures.{
  FailureCode, failure_code_value, execution_timeout, tool_not_available, tool_not_found,
  execution_failed,
}
use numi_dba_agent.Models.Json.{Json}
use numi_dba_agent.Execution.Dispatch.{
  Raised, Adapter, Outcome, row_list, changed, read_methods, succeeded, fail, call_args, fetched,
  returned, read_call, write_call, restricted_call, unknown_tool, dispatched, dispatch,
}

-- A result succeeded, or it names one of four failures and carries no rows.
abbrev pub IsSettled : ExecutionResult → Type 0
IsSettled result =
    ((result.success ≡ true) × (result.error_code ≡ none))
    ⊎ ((result.success ≡ false)
        × (result.rows ≡ [])
        × ((code : FailureCode) × (result.error_code ≡ some (failure_code_value code))
            × ((code ≡ execution_timeout)
                ⊎ (code ≡ tool_not_available)
                ⊎ (code ≡ tool_not_found)
                ⊎ (code ≡ execution_failed))))

pub record IsAnswer (request : ExecutionRequest) (result : ExecutionResult) : Type 0 where
  pub names : result.execution_id ≡ request.execution_id
  pub settled : IsSettled result
  pub counted : result.row_count ≡ length result.rows
  pub within :
      (entry : String × List String)
      → Dict.get read_methods request.tool_id ≡ some entry
      → length result.rows ≤ request.max_result_rows

-- a failure has no rows
pub fail-IsAnswer :
    (request : ExecutionRequest) (code : FailureCode) (detail : String)
    → ((code ≡ execution_timeout)
        ⊎ (code ≡ tool_not_available)
        ⊎ (code ≡ tool_not_found)
        ⊎ (code ≡ execution_failed))
    → IsAnswer request (fail request.execution_id (failure_code_value code) detail)
unfolding fail succeeded
fail-IsAnswer request code detail known = record {
  names = refl;
  settled = inr (refl, refl, (code, refl, known));
  counted = refl;
  within = λ entry h. omega arith;
}

abbrev pub Answers : ExecutionRequest → Result Raised ExecutionResult → Type 0
Answers request (ok result) = IsAnswer request result
Answers request (err e) = Unit

module _ {World : Type 0} (adapter : Adapter World) (request : ExecutionRequest) where
  fetched-IsAnswer : (all : List (Dict.Dict String Json)) → IsAnswer request (fetched request all)
  unfolding fetched succeeded
  fetched-IsAnswer all = record {
    names = refl;
    settled = inl (refl, refl);
    counted = refl;
    within = λ entry h. length-take request.max_result_rows all;
  }

  -- a result that is not of a read
  plain-IsAnswer :
      (result : ExecutionResult)
      → Dict.get read_methods request.tool_id ≡ none
      → result.execution_id ≡ request.execution_id
      → result.success ≡ true
      → result.error_code ≡ none
      → result.row_count ≡ length result.rows
      → IsAnswer request result
  plain-IsAnswer result not_read names success no_code counted = record {
    names = names;
    settled = inl (success, no_code);
    counted = counted;
    within = λ entry h. absurd (cc);
  }

  returned-IsAnswer :
      (outcome : Outcome)
      → Dict.get read_methods request.tool_id ≡ none
      → IsAnswer request (returned request outcome)
  unfolding returned succeeded
  returned-IsAnswer (row_list all) h = plain-IsAnswer _ h refl refl refl refl
  returned-IsAnswer (changed affected) h = plain-IsAnswer _ h refl refl refl refl

  -- what is made of a method's answer is an answer, if the arguments and the method gave one
  continued :
      {A : Type 0} (r : Result Raised A) (f : A → Exec Raised World ExecutionResult) (w : World)
      → ((a : A) (w' : World) → Answers request (f a w').0)
      → Answers request (continue r f w).0
  continued (ok a) f w h = h a w
  continued (err e) f w h = tt

  read_call-Answers :
      (entry : String × List String) (w : World)
      → Answers request (read_call adapter request entry w).0
  unfolding read_call
  read_call-Answers (method, names) w =
      continued (call_args request.arguments names) _ w (λ args w'.
        continued (adapter.fetch request.max_execution_time method args w').0 _ _
          (λ all w''. fetched-IsAnswer all))

  write_call-Answers :
      (entry : String × List String) (w : World)
      → Dict.get read_methods request.tool_id ≡ none
      → Answers request (write_call adapter request entry w).0
  unfolding write_call succeeded
  write_call-Answers (method, names) w h =
      continued (call_args request.arguments names) _ w (λ args w'.
        continued (adapter.change request.max_execution_time method args w').0 _ _
          (λ affected w''. plain-IsAnswer _ h refl refl refl refl))

  restricted_call-Answers :
      (entry : String × List String) (w : World)
      → Dict.get read_methods request.tool_id ≡ none
      → Answers request (restricted_call adapter request entry w).0
  unfolding restricted_call
  restricted_call-Answers (method, names) w h =
      continued (call_args request.arguments names) _ w (λ args w'.
        continued (adapter.restricted request.max_execution_time method args w').0 _ _
          (λ outcome w''. returned-IsAnswer outcome h))

  dispatched-Answers :
      (reads writes restricted : Option (String × List String)) (w : World)
      → Dict.get read_methods request.tool_id ≡ reads
      → Answers request (dispatched adapter request reads writes restricted w).0
  unfolding dispatched unknown_tool
  dispatched-Answers (some entry) writes restricted w h = read_call-Answers entry w
  dispatched-Answers none (some entry) restricted w h = write_call-Answers entry w h
  dispatched-Answers none none (some entry) w h = restricted_call-Answers entry w h
  dispatched-Answers none none none w h =
      fail-IsAnswer request tool_not_found _ (inr (inr (inl refl)))

  pub dispatch-Answers : (w : World) → Answers request (dispatch adapter request w).0
  unfolding dispatch
  dispatch-Answers w = dispatched-Answers _ _ _ w refl
