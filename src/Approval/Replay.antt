-- ===== src/Approval/Replay.antt =====
-- gateway/domain/approval.py: approvals that have been used.
use numi_dba_agent.Common.{ℕ, ◌≤◌, String, ◌≡◌, refl, false, some, string_eq, option_eq, arith}
use numi_dba_agent.Common.Dict
use numi_dba_agent.Common.Dict.{get-set_self}
use numi_dba_agent.Common.Exec.{ok, err}
use numi_dba_agent.Models.Failures.{numi_error, approval_invalid}
use numi_dba_agent.Models.Identity.{VerifiedIdentity}
use numi_dba_agent.Approval.Record.{approved, executed, approve, ApprovalRecord, ApprovalStore}
use numi_dba_agent.Approval.Engine.{decide_open, decide, verify_for_execution, mark_executed}
use numi_dba_agent.Approval.Verify.{verify_complete}
use numi_dba_agent.Approval.Change.{decide-eq-open}

-- Once `mark_executed` has run on a stored approval, verifying it is refused as invalid, whatever
-- the hash and the time, and the refusal changes nothing.
pub verify-mark_executed :
    (s : ApprovalStore) (id hash : String) (now later : ℕ) (r : ApprovalRecord)
    → Dict.get s.approvals id ≡ some r
    → r.approval_id ≡ id
    → let used = (mark_executed id now s).1 in
      verify_for_execution id hash later used ≡ (err (numi_error approval_invalid), used)
unfolding mark_executed verify_for_execution
verify-mark_executed s id hash now later r found keyed =
    ground (arith, get-set_self s.approvals id (record r { status = executed }))

-- the record that one signature leaves
abbrev pub signed : ApprovalRecord → VerifiedIdentity → ℕ → ApprovalRecord
signed r a now = record r {
  status = approved;
  approver_1_subject_id = some a.subject_id;
  decided_at = some now;
}

decide_executed :
    (s : ApprovalStore) (id : String) (a : VerifiedIdentity) (now : ℕ) (r : ApprovalRecord)
    → Dict.get s.approvals id ≡ some r
    → r.status ≡ executed
    → r.requires_dual_approval ≡ false
    → ((decide id a approve now s).0 ≡ ok (signed r a now))
      × ((decide id a approve now s).1.approvals
          ≡ Dict.set s.approvals r.approval_id (signed r a now))
decide_executed s id a now r found used single =
    rw (decide-eq-open s id now a approve r found (ground arith))
      (unfold decide_open in (ground arith, ground arith))

-- An approval that has been EXECUTED is not closed: where one signature suffices, any approver's
-- `decide` makes it APPROVED again, and until its deadline the same action is accepted for
-- execution a second time.
pub executed_reopens :
    (s : ApprovalStore) (id : String) (a : VerifiedIdentity) (now later : ℕ) (r : ApprovalRecord)
    → Dict.get s.approvals id ≡ some r
    → r.approval_id ≡ id
    → r.status ≡ executed
    → r.requires_dual_approval ≡ false
    → later ≤ r.expires_at
    → let t = (decide id a approve now s).1 in
      ((decide id a approve now s).0 ≡ ok (signed r a now))
      × (verify_for_execution id r.action_hash later t ≡ (ok (signed r a now), t))
executed_reopens s id a now later r found keyed used single in_time =
    let after = decide_executed s id a now r found used single in
    (
      after.0,
      verify_complete (decide id a approve now s).1 id r.action_hash later (signed r a now)
          (ground (arith, after.1, get-set_self s.approvals id (signed r a now))) refl in_time refl,
    )
