-- ===== src/Handler/Responses.antt =====
-- gateway/domain/tool_call_handler.py: every call that is answered leaves one audit event that says
-- how it was answered.
use mathlib.Core.Path.{subst}
use numi_dba_agent.Common.{
  String, ◌≡◌, refl, ap, ◌∙◌, inl, inr, not, ◌&&◌, some, List, [], ◌∷◌, ◌++◌, string_eq, arith,
  Bool-cases,
}
use numi_dba_agent.Common.Exec.{Result, ok, err, continue, ◌>>=◌}
use numi_dba_agent.Common.Exec.Rules.{Leaves}
use numi_dba_agent.Models.Execution.{ExecutionRequest, ExecutionResult}
use numi_dba_agent.Models.Failures.{FailureCode, Error, numi_error, uncaught}
use numi_dba_agent.Models.Identity.{VerifiedIdentity}
use numi_dba_agent.Models.Json.{given}
use numi_dba_agent.Models.Tool.{
  ToolCallRequest, ToolCallResponse, ToolCallStatus, executed, approval_required, denied, failed,
}
use numi_dba_agent.Approval.Record.{ApprovalRecord}
use numi_dba_agent.Approval.Engine.{default_ttl_seconds, create}
use numi_dba_agent.Audit.{AuditEvent, record_event, record_security_event}
use numi_dba_agent.Handler.State.{Gateway, Surroundings, GatewayState, Handling, on_approvals}
use numi_dba_agent.Handler.Admission.{Core, admit-Leaves}
use numi_dba_agent.Handler.Stages.{execute}
use numi_dba_agent.Handler.Pipeline.{
  Admitted, needs_approval, admit, approval_context, request_approval, execution_request,
  check_approval, consume, finish, run, proceed, handle_inner, refused_event, refused_response,
  admitted_event, executed_response, refuse, recover, handle,
}

-- the event type that goes with a status
unfoldable pub event_type_of : ToolCallStatus → String
event_type_of executed = "TOOL_CALL_EXECUTED"
event_type_of approval_required = "APPROVAL_REQUESTED"
event_type_of denied = "TOOL_CALL_DENIED"
event_type_of failed = "TOOL_CALL_FAILED"

module _ {B : Type 0} (g : Gateway B) (w : Surroundings) (identity : VerifiedIdentity)
    (request : ToolCallRequest) where
  -- One event more, of the caller, for this request, with the type and the failure code of the
  -- response.
  pub record IsRecorded (s s' : GatewayState B) (response : ToolCallResponse) : Type 0 where
    pub event : AuditEvent
    pub appended : s'.log.audit_events ≡ s.log.audit_events ++ event ∷ []
    pub same_actor : event.actor_subject_id ≡ identity.subject_id
    pub same_request : event.request_id ≡ request.request_id
    pub same_type : event.event_type ≡ event_type_of response.status
    pub same_code : event.error_code ≡ response.failure_code

  abbrev answered : ToolCallResponse → Result Error ToolCallResponse
  answered = ok

  abbrev audited : GatewayState B → List AuditEvent
  audited s = s.log.audit_events

  -- an answer comes with its event, and a failure with none
  abbrev Records : GatewayState B → Result Error ToolCallResponse × GatewayState B → Type 0
  Records s (ok response, s') = IsRecorded s s' response
  Records s (err e, s') = audited s' ≡ audited s

  ok_injective : (a b : ToolCallResponse) → answered a ≡ answered b → a ≡ b
  ok_injective a b h = cc

  continue-Records :
      {A : Type 0} (s t : GatewayState B) (r : Result Error A) (f : A → Handling B ToolCallResponse)
      → audited t ≡ audited s
      → ((a : A) (u : GatewayState B) → audited u ≡ audited s → Records s (f a u))
      → Records s (continue r f t)
  continue-Records s t (ok a) f e h = h a t e
  continue-Records s t (err x) f e h = e

  -- a chain whose first action leaves the log alone
  bind-Records :
      {A : Type 0} (s t : GatewayState B) (m : Handling B A) (f : A → Handling B ToolCallResponse)
      → Leaves audited m
      → audited t ≡ audited s
      → ((a : A) (u : GatewayState B) → audited u ≡ audited s → Records s (f a u))
      → Records s ((m >>= f) t)
  bind-Records s t m f lm e h = continue-Records s (m t).1 (m t).0 f (lm.at t ∙ e) h

  consume-Leaves : (a : Admitted) → Leaves audited (consume g w identity request a)
  unfolding consume
  consume-Leaves a = record { at = λ s. ground arith }

  check_approval-Leaves : (a : Admitted) → Leaves audited (check_approval g w identity request a)
  unfolding check_approval
  check_approval-Leaves a = record { at = λ s. ground arith }

  execute-Leaves : (r : ExecutionRequest) → Leaves audited (execute g w r)
  unfolding execute
  execute-Leaves r = record { at = λ s. refl }

  admit-audited : Leaves audited (admit g w identity request)
  admit-audited = record {
    at = λ s. ap (λ (c : Core). c.log.audit_events) ((admit-Leaves g w identity request).at s);
  }

  finish-Records :
      (a : Admitted) (result : ExecutionResult) (s t : GatewayState B)
      → audited t ≡ audited s
      → Records s (finish g w identity request a result t)
  unfolding finish event_type_of admitted_event executed_response record_event
  finish-Records a result s t e =
      bind-Records s t (consume g w identity request a) _ (consume-Leaves a) e (λ done u same.
        record {
          event =
              admitted_event g w identity request a "TOOL_CALL_EXECUTED" request.approval_id
                "SUCCESS";
          appended =
              ap
                (λ (l : List AuditEvent).
                  l
                  ++ admitted_event g w identity request a "TOOL_CALL_EXECUTED" request.approval_id
                      "SUCCESS"
                    ∷ [])
                same;
          same_actor = refl;
          same_request = refl;
          same_type = refl;
          same_code = refl;
        })

  request_approval-Records :
      (a : Admitted) (s t : GatewayState B)
      → audited t ≡ audited s
      → Records s (request_approval g w identity request a t)
  unfolding request_approval event_type_of admitted_event record_event
  request_approval-Records a s t e =
      bind-Records s t
        (on_approvals (
          create g.digest default_ttl_seconds (approval_context g w identity request a)
            a.evaluation.requires_dual_approval w.approval_id w.approval_at))
        _ (record { at = λ u. refl }) e
        (λ (r : ApprovalRecord) u same. record {
          event =
              admitted_event g w identity request a "APPROVAL_REQUESTED" (some r.approval_id) "";
          appended =
              ap
                (λ (l : List AuditEvent).
                  l
                  ++ admitted_event g w identity request a "APPROVAL_REQUESTED" (some r.approval_id)
                      ""
                    ∷ [])
                same;
          same_actor = refl;
          same_request = refl;
          same_type = refl;
          same_code = refl;
        })

  run-Records :
      (a : Admitted) (s t : GatewayState B)
      → audited t ≡ audited s
      → Records s (run g w identity request a t)
  unfolding run
  run-Records a s t e =
      bind-Records s t (check_approval g w identity request a) _ (check_approval-Leaves a) e
        (λ done u same.
          bind-Records s u (execute g w (execution_request g w identity request a.call)) _
            (execute-Leaves _) same (λ result v kept. finish-Records a result s v kept))

  proceed-Records :
      (a : Admitted) (s t : GatewayState B)
      → audited t ≡ audited s
      → Records s (proceed g w identity request a t)
  unfolding proceed
  proceed-Records a s t e =
      elim (Bool-cases (needs_approval a && not (given request.approval_id))) [
        | inl asks ↦ rw asks (request_approval-Records a s t e)
        | inr goes ↦ rw goes (run-Records a s t e)
      ]

  handle_inner-Records : (s : GatewayState B) → Records s (handle_inner g w identity request s)
  unfolding handle_inner
  handle_inner-Records s =
      bind-Records s s (admit g w identity request) (proceed g w identity request) admit-audited
        refl (λ a u same. proceed-Records a s u same)

  refuse-audited :
      (code : FailureCode) (s : GatewayState B)
      → audited (refuse g w identity request code s)
        ≡ audited s ++ refused_event g w identity request code ∷ []
  unfolding refuse record_event record_security_event
  refuse-audited code s = ground arith

  refused_type :
      (code : FailureCode)
      → (refused_event g w identity request code).event_type
        ≡ event_type_of (refused_response g w identity request code).status
  unfolding refused_event refused_response event_type_of
  refused_type code = ground arith

  recover-Records :
      (r : Result Error ToolCallResponse) (s t : GatewayState B)
      → Records s (r, t)
      → Records s (recover g w identity request r t)
  unfolding recover
  recover-Records (ok response) s t h = h
  recover-Records (err uncaught) s t h = h
  recover-Records (err (numi_error code)) s t h = record {
    event = refused_event g w identity request code;
    appended =
        refuse-audited code t
        ∙ ap (λ (l : List AuditEvent). l ++ refused_event g w identity request code ∷ []) h;
    same_actor = unfold refused_event in refl;
    same_request = unfold refused_event in refl;
    same_type = refused_type code;
    same_code = unfold refused_event refused_response in refl;
  }

  Records-parts :
      (s : GatewayState B) (x : Result Error ToolCallResponse × GatewayState B)
      → Records s x
      → ((response : ToolCallResponse) → x.0 ≡ ok response → IsRecorded s x.1 response)
        × ((e : Error) → x.0 ≡ err e → audited x.1 ≡ audited s)
  Records-parts s (ok r, t) h =
      (λ response e. subst (λ r. IsRecorded s t r) (ok_injective r response e) h, λ x e. absurd cc)
  Records-parts s (err x, t) h = (λ response e. absurd cc, λ y e. h)

  -- Every call that `handle` answers appends exactly one event to the audit log, and the event names
  -- the caller, the request, how the call was answered and its failure code; a call that ends in an
  -- exception other than a `NumiError` appends none.
  pub handle-IsRecorded :
      (s : GatewayState B)
      → ((response : ToolCallResponse)
          → (handle g w identity request s).0 ≡ ok response
          → IsRecorded s (handle g w identity request s).1 response)
        × ((e : Error)
            → (handle g w identity request s).0 ≡ err e
            → audited (handle g w identity request s).1 ≡ audited s)
  unfolding handle
  handle-IsRecorded s =
      let (r, t) = handle_inner g w identity request s in
      let h = recover-Records r s t (handle_inner-Records s) in
      Records-parts s (recover g w identity request r t) h
