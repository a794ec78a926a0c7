-- ===== src/Handler/Safety.antt =====
-- gateway/domain/tool_call_handler.py: nothing reaches the Execution Service unless every gate has
-- let it through.
use numi_dba_agent.Common.{
  ◌≤◌, String, ◌≡◌, refl, ◌∙◌, ap, ◌⊎◌, inl, inr, true, not, ◌&&◌, none, some, List, [], ◌∷◌, ◌++◌,
  string_eq, arith, Bool-cases,
}
use numi_dba_agent.Common.Dict
use numi_dba_agent.Common.Exec.{Result, ok, err, Result-cases, ◌>>=◌}
use numi_dba_agent.Common.Exec.Rules.{Leaves, part-bind, >>=-of_ok, >>=-of_err}
use numi_dba_agent.Models.Execution.{ExecutionRequest, ExecutionResult}
use numi_dba_agent.Models.Failures.{Error, numi_error, uncaught}
use numi_dba_agent.Models.Identity.{VerifiedIdentity}
use numi_dba_agent.Models.Json.{given}
use numi_dba_agent.Models.Tool.{ToolCallRequest, ToolCallResponse}
use numi_dba_agent.Approval.Record.{approved, action_hash, ApprovalRecord}
use numi_dba_agent.Approval.Engine.{verify_for_execution}
use numi_dba_agent.Approval.Verify.{verify_sound}
use numi_dba_agent.Handler.State.{Gateway, Surroundings, GatewayState}
use numi_dba_agent.Handler.Admission.{Core, core, admit-Leaves, IsCleared, admit-IsCleared}
use numi_dba_agent.Handler.Stages.{execute}
use numi_dba_agent.Handler.Pipeline.{
  Admitted, needs_approval, admit, approval_context, request_approval, execution_request,
  check_approval, consume, finish, run, proceed, handle_inner, refuse, recover, handle,
}

module _ {B : Type 0} (g : Gateway B) (w : Surroundings) (identity : VerifiedIdentity)
    (request : ToolCallRequest) where
  abbrev approval_id : String
  approval_id = elim request.approval_id [ none ↦ "" | some i ↦ i ]

  -- the stored approval that lets `a` run, where it needs one
  pub record IsApproved (s : GatewayState B) (a : Admitted) : Type 0 where
    pub holds :
        needs_approval a ≡ true
        → (r : ApprovalRecord) × (Dict.get s.approvals.approvals approval_id ≡ some r)
          × (r.status ≡ approved)
          × (w.approval_at ≤ r.expires_at)
          × (r.action_hash ≡ action_hash g.digest (approval_context g w identity request a))

  -- What a call that was sent out has behind it.
  pub record IsAuthorised (s : GatewayState B) (a : Admitted) : Type 0 where
    pub cleared : IsCleared g w identity request s a
    pub approval : IsApproved s a

  abbrev sent : GatewayState B → List ExecutionRequest
  sent s = s.executions

  consume-executions :
      (a : Admitted) (s : GatewayState B)
      → (consume g w identity request a s).1.executions ≡ s.executions
  unfolding consume
  consume-executions a s = ground arith

  check_approval-executions :
      (a : Admitted) (s : GatewayState B)
      → (check_approval g w identity request a s).1.executions ≡ s.executions
  unfolding check_approval
  check_approval-executions a s = ground arith

  check_approval-IsApproved :
      (a : Admitted) (s : GatewayState B)
      → (check_approval g w identity request a s).0 ≡ ok tt
      → IsApproved s a
  unfolding check_approval
  check_approval-IsApproved a s h = record {
    holds = λ needs.
        let hash = action_hash g.digest (approval_context g w identity request a) in
        elim (Result-cases (verify_for_execution approval_id hash w.approval_at s.approvals).0) [
          | inl (r, accepted) ↦
              let found = verify_sound s.approvals approval_id hash w.approval_at accepted in
              (r, found.0, found.1, found.2, found.3)
          | inr (e, refused) ↦ absurd (ground arith)
        ];
  }

  -- `s'` differs from `s` in the requests sent by that of `a`
  abbrev pub Sent : GatewayState B → GatewayState B → Admitted → Type 0
  Sent s s' a = s'.executions ≡ s.executions ++ execution_request g w identity request a.call ∷ []

  finish-executions :
      (a : Admitted) (result : ExecutionResult) → Leaves sent (finish g w identity request a result)
  unfolding finish
  finish-executions a result = record { at = λ s. ground (arith, consume-executions a s) }

  request_approval-executions :
      (a : Admitted) (s : GatewayState B)
      → (request_approval g w identity request a s).1.executions ≡ s.executions
  unfolding request_approval
  request_approval-executions a s = ground arith

  -- a call that goes on to the request has sent just that
  execute-finish :
      (a : Admitted) (s : GatewayState B)
      → Sent s
          ((do
            result ← execute g w (execution_request g w identity request a.call)
            finish g w identity request a result)
            s).1
          a
  execute-finish a s =
      part-bind sent (execute g w (execution_request g w identity request a.call))
        (finish g w identity request a) s (finish-executions a)
      ∙ unfold execute in refl

  run-executions :
      (a : Admitted) (s : GatewayState B)
      → let s' = (run g w identity request a s).1 in
        (s'.executions ≡ s.executions) ⊎ (Sent s s' a × IsApproved s a)
  unfolding run
  run-executions a s = elim (Result-cases (check_approval g w identity request a s).0) [
    | inl (unit, passed) ↦ inr (
      rw (>>=-of_ok (check_approval g w identity request a) _ s unit passed) (
          execute-finish a (check_approval g w identity request a s).1
          ∙ ap
              (λ (l : List ExecutionRequest).
                l ++ execution_request g w identity request a.call ∷ [])
              (check_approval-executions a s)),
      check_approval-IsApproved a s passed,
    )
    | inr (e, refused) ↦ inl (
        rw (>>=-of_err (check_approval g w identity request a) _ s e refused)
          (check_approval-executions a s))
  ]

  proceed-executions :
      (a : Admitted) (s : GatewayState B)
      → let s' = (proceed g w identity request a s).1 in
        (s'.executions ≡ s.executions) ⊎ (Sent s s' a × IsApproved s a)
  unfolding proceed
  proceed-executions a s = elim (Bool-cases (needs_approval a && not (given request.approval_id))) [
    | inl asks ↦ inl (rw asks (request_approval-executions a s))
    | inr goes ↦ rw goes (run-executions a s)
  ]

  recover-executions :
      (r : Result Error ToolCallResponse) (s : GatewayState B)
      → (recover g w identity request r s).1.executions ≡ s.executions
  unfolding recover refuse
  recover-executions (ok response) s = refl
  recover-executions (err (numi_error code)) s = refl
  recover-executions (err uncaught) s = refl

  same_core :
      (s t : GatewayState B) (a : Admitted) → core t ≡ core s → IsApproved t a → IsApproved s a
  same_core s t a e approval = record {
    holds = λ needs. rw (← ap (λ (c : Core). c.approvals) e) (approval.holds needs);
  }

  -- nothing was sent, or one request, with all that has to stand behind it
  abbrev pub SendsAuthorised : GatewayState B → GatewayState B → Type 0
  SendsAuthorised s s' =
      (s'.executions ≡ s.executions) ⊎ ((a : Admitted) × Sent s s' a × IsAuthorised s a)

  proceed-SendsAuthorised :
      (a : Admitted) (s : GatewayState B)
      → (admit g w identity request s).0 ≡ ok a
      → SendsAuthorised s (proceed g w identity request a (admit g w identity request s).1).1
  proceed-SendsAuthorised a s admitted =
      let t = (admit g w identity request s).1 in
      let same : core t ≡ core s = (admit-Leaves g w identity request).at s in
      let kept = ap (λ (c : Core). c.executions) same in
      elim (proceed-executions a t) [
        | inl still ↦ inl (still ∙ kept)
        | inr (out, approval) ↦ inr (
          a,
          out
              ∙ ap
                  (λ (l : List ExecutionRequest).
                    l ++ execution_request g w identity request a.call ∷ [])
                  kept,
          record {
            cleared = admit-IsCleared g w identity request s a admitted;
            approval = same_core s t a same approval;
          },
        )
      ]

  handle_inner-SendsAuthorised :
      (s : GatewayState B) → SendsAuthorised s (handle_inner g w identity request s).1
  unfolding handle_inner
  handle_inner-SendsAuthorised s = elim (Result-cases (admit g w identity request s).0) [
    | inl (a, admitted) ↦
        rw (>>=-of_ok (admit g w identity request) (proceed g w identity request) s a admitted)
          (proceed-SendsAuthorised a s admitted)
    | inr (e, refused) ↦
        rw (>>=-of_err (admit g w identity request) (proceed g w identity request) s e refused)
          (inl (ap (λ (c : Core). c.executions) ((admit-Leaves g w identity request).at s)))
  ]

  -- A call of `handle` sends nothing to the Execution Service, or sends exactly one request, and then
  -- that is the request of a call whose tool is registered and enabled, whose target was resolved,
  -- whose identity was authorised, which the policy did not refuse and which, where the policy asks
  -- for an approval, has a stored one that is APPROVED, in time, and for the hash of this action.
  pub handle-IsAuthorised :
      (s : GatewayState B) → SendsAuthorised s (handle g w identity request s).1
  unfolding handle
  handle-IsAuthorised s =
      let (r, t) = handle_inner g w identity request s in
      rw (recover-executions r t) (handle_inner-SendsAuthorised s)
