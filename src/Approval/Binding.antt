-- ===== src/Approval/Binding.antt =====
-- gateway/domain/approval.py: what an approval that is accepted for execution stands for.
use numi_dba_agent.Common.{
  ℕ, ◌+◌, ◌*◌, ◌≤◌, String, ◌≡◌, ◌≢◌, ◌∙◌, true, none, some, string_eq, arith,
}
use numi_dba_agent.Common.Dict
use numi_dba_agent.Common.Exec.{ok}
use numi_dba_agent.Approval.Canonical.{Action, canonical}
use numi_dba_agent.Approval.Record.{
  approved, action_of, action_hash, ApprovalContext, ApprovalRecord, ApprovalStore,
}
use numi_dba_agent.Approval.Engine.{microseconds, verify_for_execution}
use numi_dba_agent.Approval.Verify.{verify_sound}
use numi_dba_agent.Approval.Lifecycle.{IsSound, AllSound, Reach, Reach-AllSound}

-- the action that a record was made for
abbrev pub recorded_action : ApprovalRecord → Action
recorded_action r = record {
  actor = r.actor_subject_id;
  tool_id = r.tool_id;
  tool_version = r.tool_version;
  target = r.target;
  arguments = r.normalized_arguments;
  environment = r.policy_environment;
  database_id = r.policy_database_id;
  risk_level = r.risk.risk_level;
}

-- Two approvers signed, who are not the requester and not one person.
pub record HasTwoApprovers (r : ApprovalRecord) : Type 0 where
  pub has_first : r.approver_1_subject_id ≢ none
  pub has_second : r.approver_2_subject_id ≢ none
  pub distinct : r.approver_1_subject_id ≢ r.approver_2_subject_id
  pub first_other : r.approver_1_subject_id ≢ some r.actor_subject_id
  pub second_other : r.approver_2_subject_id ≢ some r.actor_subject_id

pub two_approvers-Has :
    {digest : Action → String} {ttl : ℕ} {id : String} {r : ApprovalRecord}
    → IsSound digest ttl id r
    → r.requires_dual_approval ≡ true
    → r.status ≡ approved
    → HasTwoApprovers r
two_approvers-Has h dual status =
    let two = h.two_approvers dual status in
    record {
      has_first = two.0;
      has_second = two.1;
      distinct = two.2;
      first_other = h.first_is_other dual;
      second_other = two.3;
    }

pub record Covers (ttl now : ℕ) (r : ApprovalRecord) (ctx : ApprovalContext) : Type 0 where
  pub same_action : canonical (recorded_action r) ≡ canonical (action_of ctx)
  pub in_time : now ≤ r.created_at + ttl * microseconds
  pub signed_twice : r.requires_dual_approval ≡ true → HasTwoApprovers r

-- the JSON texts that are hashed: that of a context, and that which a stored record was made from
module _ (sha256 : String → String) (dumps : Action → String) where
  abbrev pub hash_of : Action → String
  hash_of a = sha256 (dumps a)

  abbrev pub text_for : ApprovalContext → String
  text_for ctx = dumps (canonical (action_of ctx))

  abbrev pub text_behind : ApprovalRecord → String
  text_behind r = dumps (canonical (recorded_action r))

  -- no stored record's text has the hash of the context's without being that text
  abbrev pub HasNoCollision : ApprovalContext → ApprovalStore → Type 0
  HasNoCollision ctx t =
      (id : String) (r : ApprovalRecord)
      → Dict.get t.approvals id ≡ some r
      → sha256 (text_behind r) ≡ sha256 (text_for ctx)
      → text_behind r ≡ text_for ctx

  -- JSON texts with sorted keys tell actions apart, up to the order of the keys
  abbrev pub Distinguishes : ApprovalContext → Type 0
  Distinguishes ctx =
      (a : Action) → dumps (canonical a) ≡ text_for ctx → canonical a ≡ canonical (action_of ctx)

  -- In every store that calls of the engine lead to from a sound one, where no stored record's JSON
  -- collides with the context's under SHA-256, and that JSON is no other action's: an approval that is
  -- accepted for a context was created for its action (requester, tool, version, target, environment,
  -- database and risk level, and arguments up to the order of their keys), at most the time to live
  -- ago, and if it is a dual approval two different people other than the requester signed it.
  pub verified-Covers :
      (ttl : ℕ) (ctx : ApprovalContext) {s t : ApprovalStore}
      → AllSound hash_of ttl s
      → Reach hash_of ttl s t
      → HasNoCollision ctx t
      → Distinguishes ctx
      → (id : String) (now : ℕ) {r : ApprovalRecord}
      → (verify_for_execution id (action_hash hash_of ctx) now t).0 ≡ ok r
      → Covers ttl now r ctx
  unfolding action_hash
  verified-Covers ttl ctx {s} {t} sound reach no_collision apart id now {r} accepted =
      let found = verify_sound t id (action_hash hash_of ctx) now accepted in
      let h = (Reach-AllSound hash_of ttl sound reach).at id r found.0 in
      record {
        same_action = apart (recorded_action r) (no_collision id r found.0 (h.bound ∙ found.3));
        in_time = omega (arith, found.2, h.deadline);
        signed_twice = λ dual. two_approvers-Has h dual found.1;
      }
