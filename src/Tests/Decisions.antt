-- ===== src/Tests/Decisions.antt =====
-- The approvals routes over one stored approval, for a tool that only managers may use, with a
-- validation of targets that refuses the keys that the class does not take.
use numi_dba_agent.Common.{
  String, Bool, true, false, Option, none, some, [], ◌∷◌, ◌≡◌, refl, ap, ◌∙◌, ◌==◌, ==→eq, inl, inr,
  Bool-cases, contains, string_eq, sym, if◌then◌else◌,
}
use numi_dba_agent.Common.Dict
use numi_dba_agent.Common.Exec.{ok}
use numi_dba_agent.Models.Identity.{VerifiedIdentity, is_dba, dba_l1, dba_manager}
use numi_dba_agent.Models.Json.{Json, str, Arguments}
use numi_dba_agent.Models.Target.{DatabaseTarget}
use numi_dba_agent.Approval.Record.{pending, approved, approve, ApprovalRecord}
use numi_dba_agent.Approval.Engine.{decide}
use numi_dba_agent.Approval.Routes.{Routes, Tables, accepted_keys, decide_approval}
use numi_dba_agent.Approval.Routes.Guarded.{
  ForbidsExtra, Decides, decide_approval-Decides, decide_approval_unchecked,
}
use numi_dba_agent.ToolRegistry.{find}
use numi_dba_agent.Tests.Samples.{bob, target, kill_session, server, approval_for, store_with}

has_extra : Arguments → Bool
unfolding string_eq
has_extra [] = false
has_extra ((key, v) ∷ d) =
    let rest = has_extra d in if contains accepted_keys key then rest else true

text_of : Option Json → Option String
text_of (some (str s)) = some s
text_of v = none

model_validate : Arguments → Option DatabaseTarget
unfolding has_extra text_of string_eq
model_validate d =
    if has_extra d
    then none
    else some (record target { instance_name = text_of (Dict.get d "instance") })

pass :
    (k key : String) (v : Json) (d : Arguments)
    → (k == key) ≡ false
    → Dict.get ((k, v) ∷ d) key ≡ Dict.get d key
unfolding Dict.get
pass k key v d other = rw other refl

has_extra-true :
    (d : Arguments) (key : String) (v : Json)
    → Dict.get d key ≡ some v
    → contains accepted_keys key ≡ false
    → has_extra d ≡ true
unfolding has_extra Dict.get
has_extra-true [] key v found extra = absurd (cc)
has_extra-true ((k, v') ∷ d) key v found extra = elim (Bool-cases (k == key)) [
  | inl same ↦ let p = ap (contains accepted_keys) (==→eq k key same) ∙ extra in rw p refl
  | inr other ↦
      let rest = has_extra-true d key v (sym (pass k key v' d other) ∙ found) extra in
      elim (Bool-cases (contains accepted_keys k)) [
        | inl known ↦ rw known rest
        | inr unknown ↦ rw unknown refl
      ]
]

model_validate-ForbidsExtra : ForbidsExtra model_validate
unfolding model_validate
model_validate-ForbidsExtra d key v found extra = rw (has_extra-true d key v found extra) refl

abbrev routes : Routes
routes = record {
  tools = ("database.kill_session", record kill_session { allowed_roles = dba_manager ∷ [] }) ∷ [];
  servers = server ∷ [];
  model_validate = model_validate;
  no_arguments_hash = "";
}

abbrev waiting : Tables
waiting = record {
  approvals = store_with (approval_for false pending);
  log = record { audit_events = []; security_events = [] };
}

decide_approval-Decides_example :
    Decides routes
      (some (λ id. none))
      (some bob)
      "appr_1"
      approve
      5
      waiting
      (decide_approval routes (some (λ id. none)) (some bob) "appr_1" approve 5 waiting)
decide_approval-Decides_example =
    decide_approval-Decides routes (some (λ id. none)) (some bob) "appr_1" approve 5 waiting

-- not a manager
abbrev junior : VerifiedIdentity
junior = record bob { subject_id = "dan"; dba_roles = dba_l1 ∷ []; mfa_satisfied = false }

abbrev signed : ApprovalRecord
signed = record (approval_for false pending) {
  status = approved;
  approver_1_subject_id = some "dan";
  decided_at = some 5;
}

decide_approval_unchecked_example :
    let out = decide_approval routes (some (λ id. none)) (some junior) "appr_1" approve 5 waiting in
    (out.0 ≡ ok (record { approval_id = "appr_1"; status = approved }))
    × (out.1.approvals ≡ (decide "appr_1" junior approve 5 waiting.approvals).1)
unfolding Dict.get string_eq decide is_dba find
decide_approval_unchecked_example =
    decide_approval_unchecked routes (some (λ id. none)) junior "appr_1" 5 waiting
      (approval_for false pending) (record kill_session { allowed_roles = dba_manager ∷ [] }) signed
      (decide "appr_1" junior approve 5 waiting.approvals).1 model_validate-ForbidsExtra refl refl
      refl refl
