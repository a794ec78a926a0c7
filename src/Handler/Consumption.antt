-- ===== src/Handler/Consumption.antt =====
-- gateway/domain/tool_call_handler.py: a call that was executed has used up its approval.
use numi_dba_agent.Common.{
  ℕ, ◌⊎◌, Option, String, ◌≡◌, ◌≢◌, refl, ap, sym, ◌∙◌, inl, inr, true, none, some, not, ◌&&◌,
  string_eq, arith, Bool-cases,
}
use numi_dba_agent.Common.Dict
use numi_dba_agent.Common.Exec.{Result, Result-cases, ok, err}
use numi_dba_agent.Common.Exec.Rules.{part-bind, >>=-inverse}
use numi_dba_agent.Models.Execution.{ExecutionResult}
use numi_dba_agent.Models.Failures.{Error, numi_error, uncaught, approval_invalid}
use numi_dba_agent.Models.Identity.{VerifiedIdentity}
use numi_dba_agent.Models.Json.{given}
use numi_dba_agent.Models.Tool.{ToolCallRequest, ToolCallResponse, executed}
use numi_dba_agent.Approval.Record.{action_hash, ApprovalRecord, ApprovalStore}
use numi_dba_agent.Approval.Engine.{
  default_ttl_seconds, create, verify_for_execution, mark_executed,
}
use numi_dba_agent.Approval.Lifecycle.{AllSound}
use numi_dba_agent.Approval.Replay.{verify-mark_executed}
use numi_dba_agent.Approval.Verify.{verify_sound}
use numi_dba_agent.Handler.State.{Gateway, Surroundings, GatewayState}
use numi_dba_agent.Handler.Admission.{Core, admit-Leaves}
use numi_dba_agent.Handler.Stages.{execute}
use numi_dba_agent.Handler.Pipeline.{
  Admitted, needs_approval, admit, approval_context, request_approval, execution_request, presented,
  check_approval, consume, finish, run, proceed, handle_inner, refused_response, recover, handle,
}

option-cases : {A : Type 0} (o : Option A) → ((a : A) × (o ≡ some a)) ⊎ (o ≡ none)
option-cases none = inr refl
option-cases (some a) = inl (a, refl)

lookup-cases :
    (s : ApprovalStore) (id : String)
    → ((r : ApprovalRecord) × (Dict.get s.approvals id ≡ some r)) ⊎ (Dict.get s.approvals id ≡ none)
lookup-cases s id = option-cases (Dict.get s.approvals id)

module _ {B : Type 0} (g : Gateway B) (w : Surroundings) (identity : VerifiedIdentity)
    (request : ToolCallRequest) where
  abbrev approvals_of : GatewayState B → ApprovalStore
  approvals_of s = s.approvals

  abbrev marked : ApprovalStore → ApprovalStore
  marked s = (mark_executed (presented g w identity request) w.consumed_at s).1

  consume-marked :
      (a : Admitted) (t : GatewayState B)
      → needs_approval a ≡ true
      → (consume g w identity request a t).1.approvals ≡ marked t.approvals
  unfolding consume
  consume-marked a t needs = rw needs refl

  finish-marked :
      (a : Admitted) (result : ExecutionResult) (t : GatewayState B)
      → needs_approval a ≡ true
      → (finish g w identity request a result t).1.approvals ≡ marked t.approvals
  unfolding finish
  finish-marked a result t needs =
      part-bind approvals_of (consume g w identity request a) _ t (λ x. record { at = λ s. refl })
      ∙ consume-marked a t needs

  check_approval-still :
      (a : Admitted) (s : GatewayState B)
      → (check_approval g w identity request a s).0 ≡ ok tt
      → (check_approval g w identity request a s).1.approvals ≡ s.approvals
  unfolding check_approval
  check_approval-still a s passed =
      let hash = action_hash g.digest (approval_context g w identity request a) in
      let id = presented g w identity request in
      elim (Result-cases (verify_for_execution id hash w.approval_at s.approvals).0) [
        | inl (r, accepted) ↦
            ground (arith, (verify_sound s.approvals id hash w.approval_at accepted).4)
        | inr (e, refused) ↦ ground arith
      ]

  run-marked :
      (a : Admitted) (s : GatewayState B) (response : ToolCallResponse)
      → (run g w identity request a s).0 ≡ ok response
      → needs_approval a ≡ true
      → (run g w identity request a s).1.approvals ≡ marked s.approvals
  unfolding run
  run-marked a s response answered needs =
      let (unit, passed, first) =
        >>=-inverse (check_approval g w identity request a) _ s response answered in
      let t = (check_approval g w identity request a s).1 in
      let (result, came, second) =
        >>=-inverse (execute g w (execution_request g w identity request a.call))
          (finish g w identity request a) t response (ap (λ x. x.0) (sym first) ∙ answered) in
      ap (λ x. x.1.approvals) (first ∙ second)
      ∙ finish-marked a result _ needs
      ∙ unfold execute in ap marked (check_approval-still a s passed)

  request_approval-status :
      (a : Admitted) (s : GatewayState B) (response : ToolCallResponse)
      → (request_approval g w identity request a s).0 ≡ ok response
      → response.status ≢ executed
  unfolding request_approval create
  request_approval-status a s response answered ran = ground arith

  -- an executed call was run, not sent for approval
  proceed-marked :
      (a : Admitted) (s : GatewayState B) (response : ToolCallResponse)
      → (proceed g w identity request a s).0 ≡ ok response
      → response.status ≡ executed
      → needs_approval a ≡ true
      → (proceed g w identity request a s).1.approvals ≡ marked s.approvals
  unfolding proceed
  proceed-marked a s response answered ran needs =
      elim (Bool-cases (needs_approval a && not (given request.approval_id))) [
        | inl asks ↦
            let same : proceed g w identity request a s
                ≡ request_approval g w identity request a s =
              rw asks refl in
            absurd (request_approval-status a s response (ap (λ x. x.0) (sym same) ∙ answered) ran)
        | inr goes ↦
            let same : proceed g w identity request a s ≡ run g w identity request a s =
              rw goes refl in
            ap (λ x. x.1.approvals) same
            ∙ run-marked a s response (ap (λ x. x.0) (sym same) ∙ answered) needs
      ]

  recover-marked :
      (r : Result Error ToolCallResponse) (s : GatewayState B) (response : ToolCallResponse)
      → (recover g w identity request r s).0 ≡ ok response
      → response.status ≡ executed
      → (r ≡ ok response) × ((recover g w identity request r s).1 ≡ s)
  unfolding recover refused_response
  recover-marked (ok x) s response answered ran = (answered, refl)
  recover-marked (err (numi_error code)) s response answered ran = absurd (ground arith)
  recover-marked (err uncaught) s response answered ran = absurd cc

  handle_inner-marked :
      (s : GatewayState B) (response : ToolCallResponse)
      → (handle_inner g w identity request s).0 ≡ ok response
      → response.status ≡ executed
      → (a : Admitted) × ((admit g w identity request s).0 ≡ ok a)
        × (needs_approval a ≡ true
            → (handle_inner g w identity request s).1.approvals ≡ marked s.approvals)
  unfolding handle_inner
  handle_inner-marked s response answered ran =
      let (a, admitted, first) =
        >>=-inverse (admit g w identity request) (proceed g w identity request) s response
          answered in
      let t = (admit g w identity request s).1 in
      let kept : t.approvals ≡ s.approvals =
        ap (λ (c : Core). c.approvals) ((admit-Leaves g w identity request).at s) in
      (
        a,
        admitted,
        λ needs.
            ap (λ x. x.1.approvals) first
            ∙ proceed-marked a t response (ap (λ x. x.0) (sym first) ∙ answered) ran needs
            ∙ ap marked kept,
      )

  -- what is marked, or was never there, is refused
  marked-refused :
      (s : ApprovalStore) (hash : String) (later : ℕ)
      → AllSound g.digest default_ttl_seconds s
      → verify_for_execution (presented g w identity request) hash later (marked s)
        ≡ (err (numi_error approval_invalid), marked s)
  marked-refused s hash later sound =
      let id = presented g w identity request in
      elim (lookup-cases s id) [
        | inl (r, found) ↦
            verify-mark_executed s id hash w.consumed_at later r found (sound.at id r found).keyed
        | inr missing ↦ unfold mark_executed verify_for_execution in ground arith
      ]

  -- Where every stored approval is sound: once a call whose policy asks for an approval has been
  -- answered as EXECUTED, the approval it presented is refused as invalid, for whatever action and
  -- at whatever time, by the store that the call leaves.
  pub handle-Consumes :
      (s : GatewayState B) (response : ToolCallResponse)
      → AllSound g.digest default_ttl_seconds s.approvals
      → (handle g w identity request s).0 ≡ ok response
      → response.status ≡ executed
      → (a : Admitted) × ((admit g w identity request s).0 ≡ ok a)
        × (needs_approval a ≡ true
            → (hash : String) (later : ℕ)
            → let u = (handle g w identity request s).1.approvals in
              verify_for_execution (presented g w identity request) hash later u
              ≡ (err (numi_error approval_invalid), u))
  unfolding handle
  handle-Consumes s response sound answered ran =
      let (r, t) = handle_inner g w identity request s in
      let (returned, kept) = recover-marked r t response answered ran in
      let (a, admitted, used) = handle_inner-marked s response returned ran in
      (
        a,
        admitted,
        λ needs hash later.
            let same = ap approvals_of kept ∙ used needs in
            rw same (marked-refused s.approvals hash later sound),
      )
