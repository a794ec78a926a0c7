-- ===== src/Approval/Lifecycle.antt =====
-- gateway/domain/approval.py: what holds of every approval record, whatever sequence of calls led
-- to the store.
use numi_dba_agent.Common.{
  ℕ, ◌+◌, ◌*◌, String, ◌≡◌, ◌≢◌, refl, ap, ◌∙◌, inl, inr, Bool, true, none, some, ◌==◌, string_eq,
  arith, Bool-cases,
}
use numi_dba_agent.Common.Dict
use numi_dba_agent.Common.Dict.{get-set}
use numi_dba_agent.Models.Identity.{VerifiedIdentity}
use numi_dba_agent.Approval.Canonical.{Action, canonical}
use numi_dba_agent.Approval.Record.{
  approved, ApprovalDecision, action_of, action_hash, ApprovalContext, ApprovalRecord,
  ApprovalStore,
}
use numi_dba_agent.Approval.Engine.{
  microseconds, new_record, create, decide, verify_for_execution, mark_executed,
}
use numi_dba_agent.Approval.Change.{
  Change, expires, rejects, approves, approves_first, approves_second, consumes, Touches,
  verify-Touches, mark_executed-Touches, decide-Touches,
}

-- What no call may change of a record, and what an approved record of a dual approval has.
pub record IsSound (digest : Action → String) (ttl : ℕ) (id : String) (r : ApprovalRecord)
    : Type 0 where
  pub keyed : r.approval_id ≡ id
  pub bound :
      digest (
        canonical (record {
          actor = r.actor_subject_id;
          tool_id = r.tool_id;
          tool_version = r.tool_version;
          target = r.target;
          arguments = r.normalized_arguments;
          environment = r.policy_environment;
          database_id = r.policy_database_id;
          risk_level = r.risk.risk_level;
        }))
      ≡ r.action_hash
  pub deadline : r.expires_at ≡ r.created_at + ttl * microseconds
  pub first_is_other :
      r.requires_dual_approval ≡ true → r.approver_1_subject_id ≢ some r.actor_subject_id
  pub two_approvers :
      r.requires_dual_approval ≡ true
      → r.status ≡ approved
      → (r.approver_1_subject_id ≢ none)
        × (r.approver_2_subject_id ≢ none)
        × (r.approver_1_subject_id ≢ r.approver_2_subject_id)
        × (r.approver_2_subject_id ≢ some r.actor_subject_id)

module _ (digest : Action → String) (ttl : ℕ) where
  -- one call of the engine, by anyone and at any time; an identifier is created once
  pub data Step (s t : ApprovalStore) : Type 0 where
    creates :
        (ctx : ApprovalContext) (dual : Bool) (id : String) (now : ℕ)
        → Dict.get s.approvals id ≡ none
        → t ≡ (create digest ttl ctx dual id now s).1
        → Step s t
    decides :
        (id : String) (approver : VerifiedIdentity) (d : ApprovalDecision) (now : ℕ)
        → t ≡ (decide id approver d now s).1
        → Step s t
    verifies : (id hash : String) (now : ℕ) → t ≡ (verify_for_execution id hash now s).1 → Step s t
    marks : (id : String) (now : ℕ) → t ≡ (mark_executed id now s).1 → Step s t

  pub data Reach (s : ApprovalStore) : ApprovalStore → Type 0 where
    here : Reach s s
    next : {t u : ApprovalStore} → Reach s t → Step t u → Reach s u

  pub record AllSound (s : ApprovalStore) : Type 0 where
    pub at :
        (id : String) (r : ApprovalRecord)
        → Dict.get s.approvals id ≡ some r
        → IsSound digest ttl id r

  Change-IsSound :
      {now : ℕ} {id : String} {r r' : ApprovalRecord}
      → Change now r r'
      → IsSound digest ttl id r
      → IsSound digest ttl id r'
  Change-IsSound (expires c d e) h = ground arith
  Change-IsSound (rejects o e) h = ground arith
  Change-IsSound (approves a o one e) h = ground arith
  Change-IsSound (approves_first a o two ne fresh e) h = ground arith
  Change-IsSound (approves_second a o two ne some_first other e) h = ground arith
  Change-IsSound (consumes e) h = ground arith

  set-AllSound :
      (s t : ApprovalStore) (id : String) (r : ApprovalRecord)
      → t.approvals ≡ Dict.set s.approvals id r
      → IsSound digest ttl id r
      → AllSound s
      → AllSound t
  set-AllSound s t id r e sound h = record {
    at = λ j q found. elim (Bool-cases (id == j)) [
      | inl same ↦ ground (arith, get-set s.approvals id j r)
      | inr other ↦ h.at j q (ground (arith, get-set s.approvals id j r))
    ];
  }

  Touches-AllSound :
      (now : ℕ) (id : String) (s t : ApprovalStore) → Touches now id s t → AllSound s → AllSound t
  Touches-AllSound now id s t (inl same) h = record {
    at = λ j q found. h.at j q (rw same at found);
  }
  Touches-AllSound now id s t (inr (r, r', found, moved, change)) h =
      let sound = h.at id r found in
      set-AllSound s t id r' (moved ∙ ap (λ k. Dict.set s.approvals k r') sound.keyed)
        (Change-IsSound change sound) h

  new_record-IsSound :
      (ctx : ApprovalContext) (dual : Bool) (id : String) (now : ℕ)
      → IsSound digest ttl id (new_record digest ttl ctx dual id now)
  unfolding new_record action_hash action_of
  new_record-IsSound ctx dual id now = record {
    keyed = refl;
    bound = refl;
    deadline = refl;
    first_is_other = λ _ p. cc;
    two_approvers = λ _ p. cc;
  }

  create-AllSound :
      (s : ApprovalStore) (ctx : ApprovalContext) (dual : Bool) (id : String) (now : ℕ)
      → AllSound s
      → AllSound (create digest ttl ctx dual id now s).1
  unfolding create
  create-AllSound s ctx dual id now h =
      set-AllSound s (create digest ttl ctx dual id now s).1 id
        (new_record digest ttl ctx dual id now) (unfold new_record in refl)
        (new_record-IsSound ctx dual id now) h

  Step-AllSound : {s t : ApprovalStore} → Step s t → AllSound s → AllSound t
  Step-AllSound {s} {t} (creates ctx dual id now new e) h =
      rw e (create-AllSound s ctx dual id now h)
  Step-AllSound {s} {t} (decides id a d now e) h =
      Touches-AllSound now id s t (rw e (decide-Touches s id now a d)) h
  Step-AllSound {s} {t} (verifies id hash now e) h =
      Touches-AllSound now id s t (rw e (verify-Touches s id now hash)) h
  Step-AllSound {s} {t} (marks id now e) h =
      Touches-AllSound now id s t (rw e (mark_executed-Touches s id now)) h

  -- From a store whose records are sound, every sequence of calls leads to such a store: the hash of
  -- every record is that of the action it names, its deadline is its creation plus the time to
  -- live, and a dual approval that is APPROVED has two approvers, who differ from one another and
  -- from the requester.
  pub Reach-AllSound : {s t : ApprovalStore} → AllSound s → Reach s t → AllSound t
  Reach-AllSound h here = h
  Reach-AllSound h (next r st) = Step-AllSound st (Reach-AllSound h r)
