-- ===== src/Approval/Change.antt =====
-- gateway/domain/approval.py: the state machine of one approval record, and the proof that every
-- method that decides, verifies or consumes moves at most one record, along one of its edges.
use numi_dba_agent.Common.{
  ℕ, ◌≤◌, ◌<◌, String, ◌≡◌, ◌≢◌, refl, ◌⊎◌, inl, inr, Bool, true, false, ◌&&◌, ◌||◌, ◌==◌, none,
  some, string_eq, option_eq, arith, ltb, Bool-cases, Option-cases,
}
use numi_dba_agent.Common.Dict
use numi_dba_agent.Models.Identity.{VerifiedIdentity}
use numi_dba_agent.Approval.Record.{
  awaiting_second_approval, approved, rejected, expired, executed, ApprovalDecision, approve,
  reject, ApprovalRecord, ApprovalStore,
}
use numi_dba_agent.Approval.Engine.{
  can_expire, is_expired, is_decided, decide_open, decide, verify_for_execution, mark_executed,
}

-- A record that `decide` takes a decision on. EXECUTED is among the statuses that it lets through.
pub record IsOpen (now : ℕ) (r : ApprovalRecord) : Type 0 where
  pub unexpired : is_expired r.status ≡ false
  pub undecided : is_decided r.status ≡ false
  pub in_time : can_expire r.status ≡ true → now ≤ r.expires_at

pub data Change (now : ℕ) (r r' : ApprovalRecord) : Type 0 where
  expires :
      can_expire r.status ≡ true
      → r.expires_at < now
      → r' ≡ record r { status = expired }
      → Change now r r'
  rejects :
      IsOpen now r → r' ≡ record r { status = rejected; decided_at = some now } → Change now r r'
  approves :
      (approver : String)
      → IsOpen now r
      → r.requires_dual_approval ≡ false
      → r' ≡ record r {
        status = approved;
        approver_1_subject_id = some approver;
        decided_at = some now;
      }
      → Change now r r'
  approves_first :
      (approver : String)
      → IsOpen now r
      → r.requires_dual_approval ≡ true
      → approver ≢ r.actor_subject_id
      → r.approver_1_subject_id ≡ none
      → r' ≡ record r { approver_1_subject_id = some approver; status = awaiting_second_approval }
      → Change now r r'
  approves_second :
      (approver : String)
      → IsOpen now r
      → r.requires_dual_approval ≡ true
      → approver ≢ r.actor_subject_id
      → r.approver_1_subject_id ≢ none
      → r.approver_1_subject_id ≢ some approver
      → r' ≡ record r {
        approver_2_subject_id = some approver;
        status = approved;
        decided_at = some now;
      }
      → Change now r r'
  consumes : r' ≡ record r { status = executed } → Change now r r'

-- from `s` to `t` the table is left alone, or the record under `id` makes one change
abbrev pub Touches : ℕ → String → ApprovalStore → ApprovalStore → Type 0
Touches now id s t =
    (t.approvals ≡ s.approvals)
    ⊎ ((r r' : ApprovalRecord) × (Dict.get s.approvals id ≡ some r)
        × (t.approvals ≡ Dict.set s.approvals r.approval_id r')
        × Change now r r')

module _ (s : ApprovalStore) (id : String) (now : ℕ) where
  late : ApprovalRecord → Bool
  late r = can_expire r.status && ltb r.expires_at now

  late-expires : (r : ApprovalRecord) → late r ≡ true → Change now r (record r { status = expired })
  unfolding late
  late-expires r h = expires (ground arith) (ground arith) refl

  pub verify-Touches : (hash : String) → Touches now id s (verify_for_execution id hash now s).1
  unfolding verify_for_execution late
  verify-Touches hash = elim (Option-cases (Dict.get s.approvals id)) [
    | inl missing ↦ inl (ground arith)
    | inr (r, found) ↦ elim (Bool-cases (late r)) [
      | inl due ↦ inr (r, record r { status = expired }, found, ground arith, late-expires r due)
      | inr early ↦ inl (ground arith)
    ]
  ]

  pub mark_executed-Touches : Touches now id s (mark_executed id now s).1
  unfolding mark_executed
  mark_executed-Touches = elim (Option-cases (Dict.get s.approvals id)) [
    | inl missing ↦ inl (ground arith)
    | inr (r, found) ↦ inr (r, record r { status = executed }, found, ground arith, consumes refl)
  ]

  module _ (r : ApprovalRecord) (found : Dict.get s.approvals id ≡ some r)
      (is_open : IsOpen now r) where
    abbrev Moves : ApprovalDecision → VerifiedIdentity → Type 0
    Moves d a = Touches now id s (decide_open r a d now s).1

    Moves-single : (a : VerifiedIdentity) → r.requires_dual_approval ≡ false → Moves approve a
    unfolding decide_open
    Moves-single a one = inr (
      r,
      record r {
        status = approved;
        approver_1_subject_id = some a.subject_id;
        decided_at = some now;
      },
      found,
      ground arith,
      approves a.subject_id is_open one refl,
    )

    Moves-dual : (a : VerifiedIdentity) → r.requires_dual_approval ≡ true → Moves approve a
    unfolding decide_open
    Moves-dual a two = elim (Bool-cases (a.subject_id == r.actor_subject_id)) [
      | inl own ↦ inl (ground arith)
      | inr other ↦ elim (Bool-cases (r.approver_1_subject_id == none)) [
        | inl fresh ↦ inr (
          r,
          record r { approver_1_subject_id = some a.subject_id; status = awaiting_second_approval },
          found,
          ground arith,
          approves_first a.subject_id is_open two (ground arith) (ground arith) refl,
        )
        | inr first ↦ elim (Bool-cases (r.approver_1_subject_id == some a.subject_id)) [
          | inl same ↦ inl (ground arith)
          | inr second ↦ inr (
            r,
            record r {
              approver_2_subject_id = some a.subject_id;
              status = approved;
              decided_at = some now;
            },
            found,
            ground arith,
            approves_second a.subject_id is_open two (ground arith) (ground arith) (ground arith)
                refl,
          )
        ]
      ]
    ]

    decide_open-Touches : (a : VerifiedIdentity) (d : ApprovalDecision) → Moves d a
    unfolding decide_open
    decide_open-Touches a reject = inr (
      r,
      record r { status = rejected; decided_at = some now },
      found,
      ground arith,
      rejects is_open refl,
    )
    decide_open-Touches a approve = elim (Bool-cases r.requires_dual_approval) [
      | inl two ↦ Moves-dual a two
      | inr one ↦ Moves-single a one
    ]

  -- the state after `decide`: it has let the record through to `decide_open`, or only a deadline
  -- has been noted
  pub decide-eq-open :
      (a : VerifiedIdentity) (d : ApprovalDecision) (r : ApprovalRecord)
      → Dict.get s.approvals id ≡ some r
      → IsOpen now r
      → decide id a d now s ≡ decide_open r a d now s
  unfolding decide
  decide-eq-open a d r found o = ground arith

  pub decide-Touches :
      (a : VerifiedIdentity) (d : ApprovalDecision) → Touches now id s (decide id a d now s).1
  unfolding decide late
  decide-Touches a d = elim (Option-cases (Dict.get s.approvals id)) [
    | inl missing ↦ inl (ground arith)
    | inr (r, found) ↦ elim (Bool-cases (late r)) [
      | inl due ↦ inr (r, record r { status = expired }, found, ground arith, late-expires r due)
      | inr early ↦ elim (Bool-cases (is_expired r.status || is_decided r.status)) [
        | inl shut ↦ inl (ground arith)
        | inr undone ↦
            let o : IsOpen now r = ground arith in
            rw (decide-eq-open a d r found o) (decide_open-Touches r found o a d)
      ]
    ]
  ]
