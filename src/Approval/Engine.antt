-- ===== src/Approval/Engine.antt =====
-- gateway/domain/approval.py: the methods of `ApprovalEngine`. What an awaited `flush` writes is the
-- next state; the clock's reading and the identifier that `new_id` returns are arguments.
use numi_dba_agent.Common.{
  ℕ, ◌+◌, ◌*◌, String, Bool, true, false, ◌&&◌, Option, none, some, [], ◌∷◌, ◌++◌, ◌==◌, not,
  string_eq, option_eq, ltb, if◌then◌else◌,
}
use numi_dba_agent.Common.Dict
use numi_dba_agent.Common.Exec.{Exec, pure, raise, raise_if, modify, ◌>>=◌, ◌>>◌}
use numi_dba_agent.Models.Failures.{
  Error, numi_error, approval_required, approval_expired, approval_invalid, approval_mismatch,
  approval_already_decided, separation_of_duties_violation,
}
use numi_dba_agent.Models.Identity.{VerifiedIdentity}
use numi_dba_agent.Approval.Canonical.{Action}
use numi_dba_agent.Approval.Record.{
  ApprovalStatus, pending, awaiting_second_approval, approved, rejected, expired, executed,
  ApprovalDecision, approve, reject, ApprovalContext, action_hash, ApprovalRecord, ApprovalEvent,
  ApprovalStore,
}

abbrev pub Approving : Type 0 → Type 0
Approving = Exec Error ApprovalStore

-- `session.add(ApprovalEventRecord(...))`
abbrev pub add_event : ApprovalEvent → ApprovalStore → ApprovalStore
add_event e s = record s { approval_events = s.approval_events ++ e ∷ [] }

-- a record is an object of the session: what is assigned to its attributes is in the table
abbrev pub put : ApprovalRecord → ApprovalStore → ApprovalStore
put r s = record s { approvals = Dict.set s.approvals r.approval_id r }

abbrev log_event : String → String → String → ℕ → Approving Unit
log_event id type actor now = modify (
    add_event
      (record { approval_id = id; event_type = type; actor_subject_id = actor; created_at = now }))

abbrev pub microseconds : ℕ
microseconds = 1000000

abbrev pub default_ttl_seconds : ℕ
default_ttl_seconds = 600

unfoldable pub new_record :
    (Action → String) → ℕ → ApprovalContext → Bool → String → ℕ → ApprovalRecord
unfolding action_hash
new_record digest ttl ctx requires_dual_approval id now = record {
  approval_id = id;
  request_id = ctx.request_id;
  actor_subject_id = ctx.actor.subject_id;
  tool_id = ctx.tool.tool_id;
  tool_version = ctx.tool.version;
  target = ctx.target;
  normalized_arguments = ctx.normalized_arguments;
  risk = ctx.risk;
  policy_database_id = ctx.database_id;
  policy_environment = ctx.environment;
  action_hash = action_hash digest ctx;
  requires_dual_approval = requires_dual_approval;
  approver_1_subject_id = none;
  approver_2_subject_id = none;
  status = pending;
  created_at = now;
  expires_at = now + ttl * microseconds;
  decided_at = none;
}

-- `ApprovalEngine.create`; `id` is what `new_id("appr")` returns, `ttl` the engine's `_ttl`.
unfoldable pub create :
    (Action → String) → ℕ → ApprovalContext → Bool → String → ℕ → Approving ApprovalRecord
unfolding new_record
create digest ttl ctx requires_dual_approval id now =
    let r = new_record digest ttl ctx requires_dual_approval id now in
    do modify (put r); log_event id "CREATED" ctx.actor.subject_id now; pure r

-- `_get`
unfoldable pub get : String → Approving ApprovalRecord
get approval_id s = elim (Dict.get s.approvals approval_id) [
  | none ↦ raise (numi_error approval_invalid) s
  | some r ↦ pure r s
]

-- the statuses that a deadline ends
abbrev pub can_expire : ApprovalStatus → Bool
can_expire pending = true
can_expire awaiting_second_approval = true
can_expire approved = true
can_expire _ = false

-- `_expire_if_needed`; the result is the record as it then stands.
unfoldable pub expire_if_needed : ApprovalRecord → ℕ → Approving ApprovalRecord
expire_if_needed r now =
    if can_expire r.status && ltb r.expires_at now
    then (do
      modify (put (record r { status = expired }))
      log_event r.approval_id "EXPIRED" "" now
      pure (record r { status = expired }))
    else pure r

abbrev pub is_expired : ApprovalStatus → Bool
is_expired expired = true
is_expired _ = false

-- `record.status in (APPROVED, REJECTED)`
abbrev pub is_decided : ApprovalStatus → Bool
is_decided approved = true
is_decided rejected = true
is_decided _ = false

-- writes the record's new attributes and the event that goes with them
abbrev settle : ApprovalRecord → String → VerifiedIdentity → ℕ → Approving ApprovalRecord
settle r type approver now = do
  modify (put r)
  log_event r.approval_id type approver.subject_id now
  pure r

-- the second approver's turn of a dual approval
approve_second : ApprovalRecord → VerifiedIdentity → ℕ → Approving ApprovalRecord
approve_second r approver now =
    if r.approver_1_subject_id == some approver.subject_id
    then raise (numi_error separation_of_duties_violation)
    else settle
        (record r {
          approver_2_subject_id = some approver.subject_id;
          status = approved;
          decided_at = some now;
        })
        "APPROVER_2_APPROVED" approver now

approve_dual : ApprovalRecord → VerifiedIdentity → ℕ → Approving ApprovalRecord
unfolding approve_second
approve_dual r approver now =
    if approver.subject_id == r.actor_subject_id
    then raise (numi_error separation_of_duties_violation)
    else if r.approver_1_subject_id == none
    then settle
        (record r {
          approver_1_subject_id = some approver.subject_id;
          status = awaiting_second_approval;
        })
        "APPROVER_1_APPROVED" approver now
    else approve_second r approver now

approve_single : ApprovalRecord → VerifiedIdentity → ℕ → Approving ApprovalRecord
approve_single r approver now =
    settle
      (record r {
        status = approved;
        approver_1_subject_id = some approver.subject_id;
        decided_at = some now;
      })
      "APPROVED" approver now

-- `decide`, from where the record is known to be open
unfoldable pub decide_open :
    ApprovalRecord → VerifiedIdentity → ApprovalDecision → ℕ → Approving ApprovalRecord
unfolding approve_dual approve_single
decide_open r approver reject now =
    settle (record r { status = rejected; decided_at = some now }) "REJECTED" approver now
decide_open r approver approve now =
    if r.requires_dual_approval then approve_dual r approver now else approve_single r approver now

unfoldable pub decide : String → VerifiedIdentity → ApprovalDecision → ℕ → Approving ApprovalRecord
unfolding get expire_if_needed decide_open
decide approval_id approver decision now = do
  found ← get approval_id
  r ← expire_if_needed found now
  raise_if (is_expired r.status) (numi_error approval_expired)
  raise_if (is_decided r.status) (numi_error approval_already_decided)
  decide_open r approver decision now

-- the refusals of `verify_for_execution`, by status
abbrev refusal : ApprovalStatus → Option Error
refusal expired = some (numi_error approval_expired)
refusal pending = some (numi_error approval_required)
refusal awaiting_second_approval = some (numi_error approval_required)
refusal rejected = some (numi_error approval_invalid)
refusal executed = some (numi_error approval_invalid)
refusal approved = none

abbrev refuse : Option Error → Approving Unit
refuse none = pure tt
refuse (some e) = raise e

unfoldable pub verify_for_execution : String → String → ℕ → Approving ApprovalRecord
unfolding get expire_if_needed
verify_for_execution approval_id expected_action_hash now = do
  found ← get approval_id
  r ← expire_if_needed found now
  refuse (refusal r.status)
  raise_if (not (r.action_hash == expected_action_hash)) (numi_error approval_mismatch)
  pure r

unfoldable pub mark_executed : String → ℕ → Approving Unit
unfolding get
mark_executed approval_id now = do
  r ← get approval_id
  modify (put (record r { status = executed }))
  log_event approval_id "EXECUTED" "" now
