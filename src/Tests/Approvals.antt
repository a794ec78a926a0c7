-- ===== src/Tests/Approvals.antt =====
-- The theorems about approvals at concrete records: one life of an approval, from its creation in an
-- empty store, and records in the states of interest.
use numi_dba_agent.Common.{
  String, ◌≡◌, ◌≢◌, ◌∙◌, refl, ◌==◌, ==→eq, inl, inr, Bool-cases, if◌then◌else◌, ==_refl, string_eq,
  option_eq, Eq, true, false, some, [], ◌∷◌, arith,
}
use numi_dba_agent.Common.Dict
use numi_dba_agent.Common.Exec.{ok, err}
use numi_dba_agent.Models.Json.{str}
use numi_dba_agent.Models.Failures.{numi_error, approval_invalid}
use numi_dba_agent.Models.Target.{production}
use numi_dba_agent.Approval.Canonical.{Action, canonical, sort_keys}
use numi_dba_agent.Approval.Record.{
  executed, approved, approve, action_of, ApprovalContext, ApprovalRecord, ApprovalStore,
}
use numi_dba_agent.Approval.Engine.{new_record, create, decide, verify_for_execution, mark_executed}
use numi_dba_agent.Approval.Verify.{Verifiable, verify_iff}
use numi_dba_agent.Approval.Lifecycle.{
  Reach, here, next, creates, decides, AllSound, Reach-AllSound,
}
use numi_dba_agent.Approval.Binding.{Covers, Distinguishes, verified-Covers}
use numi_dba_agent.Approval.Decidable.{IsDecidable, decide_iff}
use numi_dba_agent.Approval.Replay.{signed, verify-mark_executed, executed_reopens}
use numi_dba_agent.Tests.Samples.{
  ana, bob, carol, kill_session, target, assessment, approval_for, store_with, empty_store,
}

action_dec : Discrete Action
action_dec = hlevel (string_eq.dec)

instance abbrev action_eq : Eq Action
action_eq = record { dec = action_dec }

abbrev request : ApprovalContext
request = record {
  request_id = "r";
  actor = ana;
  tool = kill_session;
  target = target;
  normalized_arguments = ("session_id", str "9182") ∷ ("reason", str "stuck") ∷ [];
  environment = production;
  database_id = "pg-prod-01";
  risk = assessment;
}

-- the same call, its arguments in another order
abbrev reordered : ApprovalContext
reordered = record request {
  normalized_arguments = ("reason", str "stuck") ∷ ("session_id", str "9182") ∷ [];
}

abbrev told : {A : Type 0} ⦃e : Eq A⦄ → A → A → String
told x a = if a == x then "this" else "other"

abbrev this : String
this = "this"

differ : (s : String) → s ≡ "other" → s ≢ this
differ s h k = cc

told_apart : {A : Type 0} ⦃e : Eq A⦄ (a x : A) → told x a ≡ told x x → a ≡ x
told_apart a x h = elim (Bool-cases (a == x)) [
  | inl same ↦ ==→eq a x same
  | inr other ↦ absurd (differ (told x a) (rw other refl) (h ∙ rw (==_refl x) refl))
]

-- the requested action, its keys sorted
abbrev wanted : Action
wanted = record {
  actor = "ana";
  tool_id = "database.kill_session";
  tool_version = "1.0.0";
  target = target;
  arguments = ("reason", str "stuck") ∷ ("session_id", str "9182") ∷ [];
  environment = production;
  database_id = "pg-prod-01";
  risk_level = assessment.risk_level;
}

-- texts that tell it from all others, under a hash that keeps them
abbrev mark : Action → String
mark a = told wanted a

abbrev keep_text : String → String
keep_text text = text

mark-Distinguishes : Distinguishes keep_text mark reordered
unfolding canonical action_of sort_keys
mark-Distinguishes a h = told_apart (canonical a) wanted h

abbrev created_record : ApprovalRecord
created_record = new_record mark 600 request true "appr_1" 0

abbrev created : ApprovalStore
created = (create mark 600 request true "appr_1" 0 empty_store).1

abbrev once_signed : ApprovalStore
once_signed = (decide "appr_1" bob approve 1 created).1

abbrev twice_signed : ApprovalStore
twice_signed = (decide "appr_1" carol approve 2 once_signed).1

empty_store-AllSound : AllSound mark 600 empty_store
empty_store-AllSound = record { at = λ id r found. absurd (unfold Dict.get in cc) }

signing : Reach mark 600 empty_store twice_signed
unfolding Dict.get
signing =
    next
      (next (next here (creates request true "appr_1" 0 refl refl))
        (decides "appr_1" bob approve 1 refl))
      (decides "appr_1" carol approve 2 refl)

Reach-AllSound_example : AllSound mark 600 twice_signed
Reach-AllSound_example = Reach-AllSound mark 600 empty_store-AllSound signing

abbrev final : ApprovalRecord
final = record created_record {
  status = approved;
  approver_1_subject_id = some "bob";
  approver_2_subject_id = some "carol";
  decided_at = some 2;
}

verified-Covers_example : Covers 600 3 final reordered
unfolding string_eq verify_for_execution Dict.get decide create Dict.set option_eq action_dec
    action_of canonical sort_keys
verified-Covers_example =
    verified-Covers keep_text mark 600 reordered empty_store-AllSound signing
      (λ id r found same. same) mark-Distinguishes "appr_1" 3 refl

verify_iff_example :
    ((verify_for_execution "appr_1" "this" 3 twice_signed).0 ≡ ok final
      → Verifiable twice_signed "appr_1" "this" 3 final)
    × (Verifiable twice_signed "appr_1" "this" 3 final
        → verify_for_execution "appr_1" "this" 3 twice_signed ≡ (ok final, twice_signed))
verify_iff_example = verify_iff twice_signed "appr_1" "this" 3 final

verify-mark_executed_example :
    let used = (mark_executed "appr_1" 4 twice_signed).1 in
    verify_for_execution "appr_1" "this" 5 used ≡ (err (numi_error approval_invalid), used)
unfolding Dict.get decide create Dict.set string_eq option_eq
verify-mark_executed_example = verify-mark_executed twice_signed "appr_1" "this" 4 5 final refl refl

-- the second approver's turn
decide_iff_example :
    ((r' : ApprovalRecord)
      → (decide "appr_1" carol approve 2 once_signed).0 ≡ ok r'
      → (r : ApprovalRecord) × IsDecidable once_signed "appr_1" carol approve 2 r)
    × ((r : ApprovalRecord)
        → IsDecidable once_signed "appr_1" carol approve 2 r
        → (r' : ApprovalRecord) × ((decide "appr_1" carol approve 2 once_signed).0 ≡ ok r'))
decide_iff_example = decide_iff once_signed "appr_1" carol 2 approve

executed_reopens_example :
    let used = approval_for false executed in
    let t = (decide "appr_1" bob approve 7 (store_with used)).1 in
    ((decide "appr_1" bob approve 7 (store_with used)).0 ≡ ok (signed used bob 7))
    × (verify_for_execution "appr_1" "9182" 8 t ≡ (ok (signed used bob 7), t))
unfolding Dict.get string_eq
executed_reopens_example =
    executed_reopens (store_with (approval_for false executed)) "appr_1" bob 7 8
      (approval_for false executed) refl refl refl refl (omega arith)
