-- ===== src/Approval/Verify.antt =====
-- gateway/domain/approval.py: what `verify_for_execution` accepts.
use numi_dba_agent.Common.{ℕ, ◌≤◌, String, ◌≡◌, some, string_eq, arith}
use numi_dba_agent.Common.Dict
use numi_dba_agent.Common.Exec.{ok}
use numi_dba_agent.Approval.Record.{approved, ApprovalRecord, ApprovalStore}
use numi_dba_agent.Approval.Engine.{verify_for_execution}

pub verify_sound :
    (s : ApprovalStore) (id hash : String) (now : ℕ) {r : ApprovalRecord}
    → (verify_for_execution id hash now s).0 ≡ ok r
    → (Dict.get s.approvals id ≡ some r)
      × (r.status ≡ approved)
      × (now ≤ r.expires_at)
      × (r.action_hash ≡ hash)
      × ((verify_for_execution id hash now s).1 ≡ s)
unfolding verify_for_execution
verify_sound s id hash now h = ground arith

pub verify_complete :
    (s : ApprovalStore) (id hash : String) (now : ℕ) (r : ApprovalRecord)
    → Dict.get s.approvals id ≡ some r
    → r.status ≡ approved
    → now ≤ r.expires_at
    → r.action_hash ≡ hash
    → verify_for_execution id hash now s ≡ (ok r, s)
unfolding verify_for_execution
verify_complete s id hash now r found st open_until same = ground arith

-- the record that stands under the identifier, APPROVED, within its deadline, with the expected hash
pub record Verifiable (s : ApprovalStore) (id hash : String) (now : ℕ) (r : ApprovalRecord)
    : Type 0 where
  pub stored : Dict.get s.approvals id ≡ some r
  pub granted : r.status ≡ approved
  pub in_time : now ≤ r.expires_at
  pub same : r.action_hash ≡ hash

-- Verification returns a record exactly if that record stands under the given identifier, is APPROVED,
-- has a deadline that has not passed and has the expected hash; and then it leaves the store as it
-- was.
pub verify_iff :
    (s : ApprovalStore) (id hash : String) (now : ℕ) (r : ApprovalRecord)
    → ((verify_for_execution id hash now s).0 ≡ ok r → Verifiable s id hash now r)
      × (Verifiable s id hash now r → verify_for_execution id hash now s ≡ (ok r, s))
verify_iff s id hash now r = (
  λ h.
      let (stored, granted, in_time, same, kept) = verify_sound s id hash now h in
      record { stored = stored; granted = granted; in_time = in_time; same = same },
  λ v. verify_complete s id hash now r v.stored v.granted v.in_time v.same,
)
