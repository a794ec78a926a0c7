-- ===== src/Approval/Decidable.antt =====
-- gateway/domain/approval.py: which approvals `decide` decides, for whom and when.
use numi_dba_agent.Common.{
  ℕ, ◌≤◌, String, ◌≡◌, ◌≢◌, refl, sym, ap, ◌∙◌, true, none, some, inl, inr, Option-cases, string_eq,
  option_eq, arith,
}
use numi_dba_agent.Common.Dict
use numi_dba_agent.Common.Exec.{Result, ok, err, Result-cases}
use numi_dba_agent.Models.Failures.{Error}
use numi_dba_agent.Models.Identity.{VerifiedIdentity}
use numi_dba_agent.Approval.Record.{
  expired, approved, rejected, ApprovalDecision, approve, reject, ApprovalRecord, ApprovalStore,
}
use numi_dba_agent.Approval.Change.{IsOpen, decide-eq-open}
use numi_dba_agent.Approval.Engine.{can_expire, decide_open, decide}

-- The stored record is open, within the deadline that its status has, and, to approve a dual approval,
-- the approver is neither the requester nor who approved it first.
pub record IsDecidable (s : ApprovalStore) (id : String) (a : VerifiedIdentity)
    (d : ApprovalDecision) (now : ℕ) (r : ApprovalRecord) : Type 0 where
  pub stored : Dict.get s.approvals id ≡ some r
  pub not_expired : r.status ≢ expired
  pub not_approved : r.status ≢ approved
  pub not_rejected : r.status ≢ rejected
  pub in_time : can_expire r.status ≡ true → now ≤ r.expires_at
  pub not_requester :
      d ≡ approve → r.requires_dual_approval ≡ true → a.subject_id ≢ r.actor_subject_id
  pub not_first :
      d ≡ approve → r.requires_dual_approval ≡ true → r.approver_1_subject_id ≢ some a.subject_id

module _ (s : ApprovalStore) (id : String) (a : VerifiedIdentity) (now : ℕ) where
  decide_missing :
      (d : ApprovalDecision) (r' : ApprovalRecord)
      → Dict.get s.approvals id ≡ none
      → (decide id a d now s).0 ≢ ok r'
  unfolding decide
  decide_missing d r' missing h = ground (arith, missing, h)

  decide-IsOpen :
      (d : ApprovalDecision) (r r' : ApprovalRecord)
      → Dict.get s.approvals id ≡ some r
      → (decide id a d now s).0 ≡ ok r'
      → IsOpen now r
  unfolding decide
  decide-IsOpen d r r' found h = record {
    unexpired = ground (arith, found, h);
    undecided = ground (arith, found, h);
    in_time = λ can. ground (arith, found, h, can);
  }

  decide_open-ok :
      (d : ApprovalDecision) (r r' : ApprovalRecord)
      → Dict.get s.approvals id ≡ some r
      → (decide id a d now s).0 ≡ ok r'
      → d ≡ approve
      → (decide_open r a approve now s).0 ≡ ok r'
  decide_open-ok reject r r' found h approves = absurd (cc)
  decide_open-ok approve r r' found h approves =
      sym (
        ap (λ (out : Result Error ApprovalRecord × ApprovalStore). out.0)
          (decide-eq-open s id now a approve r found (decide-IsOpen approve r r' found h)))
      ∙ h

  decide_open-separate :
      (r r' : ApprovalRecord)
      → r.requires_dual_approval ≡ true
      → (decide_open r a approve now s).0 ≡ ok r'
      → (a.subject_id ≢ r.actor_subject_id) × (r.approver_1_subject_id ≢ some a.subject_id)
  unfolding decide_open
  decide_open-separate r r' dual h =
      (λ same. ground (arith, dual, h, same), λ same. ground (arith, dual, h, same))

  decide-IsDecidable :
      (d : ApprovalDecision) (r r' : ApprovalRecord)
      → Dict.get s.approvals id ≡ some r
      → (decide id a d now s).0 ≡ ok r'
      → IsDecidable s id a d now r
  unfolding decide
  decide-IsDecidable d r r' found h = record {
    stored = found;
    not_expired = λ st. ground (arith, found, h, st);
    not_approved = λ st. ground (arith, found, h, st);
    not_rejected = λ st. ground (arith, found, h, st);
    in_time = λ can. ground (arith, found, h, can);
    not_requester = λ approves dual.
        (decide_open-separate r r' dual (decide_open-ok d r r' found h approves)).0;
    not_first = λ approves dual.
        (decide_open-separate r r' dual (decide_open-ok d r r' found h approves)).1;
  }

  IsDecidable-decide :
      (d : ApprovalDecision) (r : ApprovalRecord) (e : Error)
      → IsDecidable s id a d now r
      → (decide id a d now s).0 ≢ err e
  unfolding decide
  IsDecidable-decide reject r e c h =
      ground (arith, c.stored, c.not_expired, c.not_approved, c.not_rejected, c.in_time, h)
  IsDecidable-decide approve r e c h =
      let requester = c.not_requester refl in
      let first = c.not_first refl in
      ground (
        arith, c.stored, c.not_expired, c.not_approved, c.not_rejected, c.in_time, requester, first,
        h,
      )

  -- `decide` returns a record exactly if the record that is stored under the identifier is not
  -- EXPIRED, APPROVED or REJECTED, has a deadline that has not passed if its status is one that a
  -- deadline ends, and, where a dual approval is to be approved, the approver is neither its requester
  -- nor the person who approved it first.
  pub decide_iff :
      (d : ApprovalDecision)
      → ((r' : ApprovalRecord)
          → (decide id a d now s).0 ≡ ok r'
          → (r : ApprovalRecord) × IsDecidable s id a d now r)
        × ((r : ApprovalRecord)
            → IsDecidable s id a d now r
            → (r' : ApprovalRecord) × ((decide id a d now s).0 ≡ ok r'))
  decide_iff d = (
    λ r' h. elim (Option-cases (Dict.get s.approvals id)) [
      | inl missing ↦ absurd (decide_missing d r' missing h)
      | inr (r, found) ↦ (r, decide-IsDecidable d r r' found h)
    ],
    λ r c. elim (Result-cases (decide id a d now s).0) [
      | inl decided ↦ decided
      | inr (e, refused) ↦ absurd (IsDecidable-decide d r e c refused)
    ],
  )
