-- ===== src/Execution/Connect/Closing.antt =====
-- execution/service.py: `execute` closes what it opened, and answers for every failure.
use numi_dba_agent.Common.{Option, none, some, List, ◌∷◌, ◌≡◌, refl, inl, inr, ap}
use numi_dba_agent.Common.Exec.{Result, ok, err}
use numi_dba_agent.Models.Execution.{ExecutionRequest, ExecutionResult}
use numi_dba_agent.Models.Failures.{execution_timeout, tool_not_available, execution_failed}
use numi_dba_agent.Execution.Dispatch.{Raised, timed_out, not_implemented, other}
use numi_dba_agent.Execution.Dispatch.Answers.{IsAnswer, Answers, fail-IsAnswer, dispatch-Answers}
use numi_dba_agent.Execution.Connect.{
  Engine, Drivers, Room, Attempt, adapter_class_for, in_place, rest_of, scoped, run_on, connect_to,
  with_credentials, attempt, outcome, closed, execute, code_of,
}

module _ {World Credentials Handle : Type 0} (drivers : Drivers World Credentials Handle)
    (request : ExecutionRequest) where
  -- at most the one connection that the attempt opened is on top of those that were open before
  abbrev TopsUp : List Handle → Option Handle → List Handle → Type 0
  TopsUp before none after = after ≡ before
  TopsUp before (some handle) after = after ≡ handle ∷ before

  -- an attempt, its connection accounted for and its result an answer
  record IsAttempt (before : List Handle) (a : Attempt World Handle) : Type 0 where
    opened : TopsUp before a.handle a.room.open_handles
    answers : Answers request a.result

  run_on-IsAttempt :
      (engine : Engine) (c : Result Raised Handle × World) (r : Room World Handle)
      → IsAttempt r.open_handles (run_on drivers request engine c r)
  unfolding run_on
  run_on-IsAttempt engine (err e, w) r = record { opened = refl; answers = tt }
  run_on-IsAttempt engine (ok handle, w) r = record {
    opened = refl;
    answers = dispatch-Answers (drivers.adapter engine request.database handle) request w;
  }

  connect_to-IsAttempt :
      (engine : Result Raised Engine) (creds : Credentials) (r : Room World Handle)
      → IsAttempt r.open_handles (connect_to drivers request engine creds r)
  unfolding connect_to
  connect_to-IsAttempt (err e) creds r = record { opened = refl; answers = tt }
  connect_to-IsAttempt (ok engine) creds r =
      run_on-IsAttempt engine (drivers.connect engine creds r.world) r

  with_credentials-IsAttempt :
      (c : Result Raised Credentials × World) (r : Room World Handle)
      → IsAttempt r.open_handles (with_credentials drivers request c r)
  unfolding with_credentials
  with_credentials-IsAttempt (err e, w) r = record { opened = refl; answers = tt }
  with_credentials-IsAttempt (ok creds, w) r =
      connect_to-IsAttempt (adapter_class_for request.platform) (scoped drivers request creds)
        (record r { world = w })

  timed-IsAnswer :
      (result : ExecutionResult) (w : World)
      → IsAnswer request result
      → IsAnswer request (record result { duration_ms = drivers.elapsed_ms w })
  timed-IsAnswer result w h = record {
    names = h.names;
    settled = h.settled;
    counted = h.counted;
    within = h.within;
  }

  outcome-IsAnswer :
      (result : Result Raised ExecutionResult) (w : World)
      → Answers request result
      → IsAnswer request (outcome drivers request result w)
  unfolding outcome code_of
  outcome-IsAnswer (ok result) w h = timed-IsAnswer result w h
  outcome-IsAnswer (err timed_out) w h =
      timed-IsAnswer _ w (fail-IsAnswer request execution_timeout _ (inl refl))
  outcome-IsAnswer (err (not_implemented text)) w h =
      timed-IsAnswer _ w (fail-IsAnswer request tool_not_available _ (inr (inl refl)))
  outcome-IsAnswer (err (other text)) w h =
      timed-IsAnswer _ w (fail-IsAnswer request execution_failed _ (inr (inr (inr refl))))

  -- an answer, or the exception of a `close`
  abbrev pub IsConcluded : Result Raised ExecutionResult → Type 0
  IsConcluded (ok result) = IsAnswer request result
  IsConcluded (err e) = (h : Handle) × (w : World) × ((drivers.close h w).0 ≡ err e)

  in_place-IsConcluded :
      (result : ExecutionResult) (h : Handle) (w : World) (done : Result Raised (Unit {0}))
      → IsAnswer request result
      → (drivers.close h w).0 ≡ done
      → IsConcluded (in_place result done)
  unfolding in_place
  in_place-IsConcluded result h w (ok done) answer e = answer
  in_place-IsConcluded result h w (err x) answer e = (h, w, e)

  closed-IsConcluded :
      (result : ExecutionResult) (handle : Option Handle) (r : Room World Handle)
      → IsAnswer request result
      → IsConcluded (closed drivers request result handle r).0
  unfolding closed
  closed-IsConcluded result none r answer = answer
  closed-IsConcluded result (some h) r answer =
      in_place-IsConcluded result h r.world (drivers.close h r.world).0 answer refl

  closed_lem :
      (before : List Handle) (result : ExecutionResult) (handle : Option Handle)
      (r : Room World Handle)
      → TopsUp before handle r.open_handles
      → (closed drivers request result handle r).1.open_handles ≡ before
  unfolding closed
  closed_lem before result none r h = h
  closed_lem before result (some handle) r h = ap (rest_of {A = Handle}) h

  -- Whatever fails on the way (the credentials, the platform, the connection, the arguments, the call
  -- or its time limit): after `execute` exactly the connections that were open before are open.
  pub execute_closes :
      (r : Room World Handle) → (execute drivers request r).1.open_handles ≡ r.open_handles
  unfolding execute attempt
  execute_closes r =
      closed_lem r.open_handles _ _ _
        (with_credentials-IsAttempt (drivers.get_credentials request.server_id r.world) r).opened

  -- `execute` answers every request, or raises what the closing of the connection raised. An answer
  -- carries the request's identifier; it succeeded without an error code, or it failed without rows
  -- and with one of four codes; its count is that of its rows; and for a tool that reads they are no
  -- more than the request's limit.
  pub execute-IsConcluded : (r : Room World Handle) → IsConcluded (execute drivers request r).0
  unfolding execute attempt
  execute-IsConcluded r =
      let tried =
        with_credentials-IsAttempt (drivers.get_credentials request.server_id r.world) r in
      closed-IsConcluded _ _ _ (outcome-IsAnswer _ _ tried.answers)
