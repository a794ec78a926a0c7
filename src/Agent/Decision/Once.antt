-- ===== src/Agent/Decision/Once.antt =====
-- agent/orchestrator.py: what a decision on an approval card may send.
use mathlib.Core.Path.{subst⁻¹}
use numi_dba_agent.Common.{
  String, false, Option, none, some, ◌∷◌, ◌≡◌, refl, ap, ◌==◌, ==→eq, string_eq, Bool-cases, inl,
  inr, ◌⊎◌,
}
use numi_dba_agent.Common.Exec.{Result, ok, err}
use numi_dba_agent.Models.Tool.{ToolCallStatus}
use numi_dba_agent.Agent.Actions.{AgentReply}
use numi_dba_agent.Agent.State.{ConversationState, PendingApproval}
use numi_dba_agent.Agent.Session.{Answer}
use numi_dba_agent.Agent.Decision.{
  Verdict, refused, awaiting_second, approved, Desk, Talk, clear, completed, answered,
  approved_request, resubmit, settled, rejected, decided, handle_approval_decision,
}

-- a reply that says the approval is open leaves it open
abbrev pub Honest :
    Result String AgentReply → Option PendingApproval → Option PendingApproval → Type 0
Honest (err text) before after = after ≡ before
Honest (ok reply) before after = (reply.approval_still_pending ≡ false) ⊎ (after ≡ before)

module _ {World : Type 0} (desk : Desk World) (channel account : String) (s : Talk World) where
  -- nothing was sent; the card stays, or a rejection took it away
  abbrev pub Quiet : String → PendingApproval → Talk World → Type 0
  Quiet decision pending s' =
      (s'.sent ≡ s.sent)
      × ((s'.conversation.pending_approval ≡ some pending)
          ⊎ ((s'.conversation.pending_approval ≡ none) × (decision ≡ "reject")))

  -- the request that waited was sent once, after the Gateway completed the approval
  abbrev pub Sent : PendingApproval → Talk World → Type 0
  Sent pending s' =
      (s'.sent ≡ approved_request pending ∷ s.sent)
      × (s'.conversation.pending_approval ≡ none)
      × ((desk.approve pending.approval_id channel account s.world).0 ≡ ok approved)

  abbrev pub Outcome : String → PendingApproval → Result String AgentReply × Talk World → Type 0
  Outcome decision pending out =
      (Quiet decision pending out.1 ⊎ Sent pending out.1)
      × Honest out.0 (some pending) out.1.conversation.pending_approval

  completed_keeps :
      (status : ToolCallStatus) (pending : PendingApproval) (answer : Answer) (s' : Talk World)
      → ((completed desk channel account status pending answer s').1.sent ≡ s'.sent)
        × ((completed desk channel account status pending answer s').1.conversation
            ≡ s'.conversation)
        × ((completed desk channel account status pending answer s').0.approval_still_pending
            ≡ false)
  unfolding completed
  completed_keeps ToolCallStatus.executed pending answer s' = (refl, refl, refl)
  completed_keeps ToolCallStatus.approval_required pending answer s' = (refl, refl, refl)
  completed_keeps ToolCallStatus.denied pending answer s' = (refl, refl, refl)
  completed_keeps ToolCallStatus.failed pending answer s' = (refl, refl, refl)

  answered_keeps :
      (pending : PendingApproval) (response : Result String Answer) (s' : Talk World)
      → ((answered desk channel account pending response s').1.sent ≡ s'.sent)
        × ((answered desk channel account pending response s').1.conversation ≡ s'.conversation)
        × ((answered desk channel account pending response s').0.approval_still_pending ≡ false)
  unfolding answered
  answered_keeps pending (err text) s' = (refl, refl, refl)
  answered_keeps pending (ok answer) s' = completed_keeps answer.response.status pending answer s'

  settled-Outcome :
      (decision : String) (pending : PendingApproval) (r : Result String Verdict) (after : World)
      → s.conversation.pending_approval ≡ some pending
      → (desk.approve pending.approval_id channel account s.world).0 ≡ r
      → Outcome decision pending
          (settled desk channel account pending r (record s { world = after }))
  unfolding settled resubmit clear
  settled-Outcome decision pending (err text) after h asked = (inl (refl, inl h), h)
  settled-Outcome decision pending (ok refused) after h asked = (inl (refl, inl h), inr h)
  settled-Outcome decision pending (ok awaiting_second) after h asked = (inl (refl, inl h), inr h)
  settled-Outcome decision pending (ok approved) after h asked =
      let sent = desk.submit (approved_request pending) after in
      let keeps = answered_keeps pending sent.0 (record (clear desk channel account s) {
        sent = approved_request pending ∷ s.sent;
        world = sent.1;
      }) in
      (
        inr (keeps.0, ap (λ (c : ConversationState). c.pending_approval) keeps.1, asked),
        inl keeps.2,
      )

  rejected-Outcome :
      (decision : String) (pending : PendingApproval) (r : Result String (Unit {0})) (after : World)
      → s.conversation.pending_approval ≡ some pending
      → decision ≡ "reject"
      → Outcome decision pending (rejected desk channel account r (record s { world = after }))
  unfolding rejected clear
  rejected-Outcome decision pending (err text) after h d = (inl (refl, inl h), h)
  rejected-Outcome decision pending (ok done) after h d = (inl (refl, inr (refl, d)), inl refl)

  decided-Outcome :
      (decision : String) (pending : PendingApproval)
      → s.conversation.pending_approval ≡ some pending
      → Outcome decision pending (decided desk channel account (some pending) decision s)
  unfolding decided
  decided-Outcome decision pending h = elim (Bool-cases (decision == "reject")) [
    | inl e ↦ rw e (
        rejected-Outcome decision pending
          (desk.reject pending.approval_id channel account s.world).0
          (desk.reject pending.approval_id channel account s.world).1 h (==→eq _ _ e))
    | inr e ↦ rw e (
        settled-Outcome decision pending
          (desk.approve pending.approval_id channel account s.world).0
          (desk.approve pending.approval_id channel account s.world).1 h refl)
  ]

  -- A decision on an approval that waits. Either nothing is sent, and the approval still waits unless
  -- the decision was a rejection; or the Gateway answered that the approval is complete, the one
  -- request sent is the one that waited with the approval's identifier in it, and the approval waits
  -- no more. A reply that says the approval is still open is given only while it still waits.
  pub handle_approval_decision-Outcome :
      (decision : String) (pending : PendingApproval)
      → s.conversation.pending_approval ≡ some pending
      → Outcome decision pending (handle_approval_decision desk channel account decision s)
  unfolding handle_approval_decision
  handle_approval_decision-Outcome decision pending h =
      subst⁻¹
        (λ (p : Option PendingApproval).
          Outcome decision pending (decided desk channel account p decision s))
        h (decided-Outcome decision pending h)
