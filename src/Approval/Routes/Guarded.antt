-- ===== src/Approval/Routes/Guarded.antt =====
-- gateway/api/routers/approvals.py: who decides an approval, and what a refusal leaves.
use numi_dba_agent.Common.{
  ℕ, String, true, Option, none, some, [], ◌∷◌, ◌++◌, ◌≡◌, refl, inl, inr, Option-cases, Bool-cases,
  string_eq, contains, false, arith,
}
use numi_dba_agent.Common.Dict
use numi_dba_agent.Common.Exec.{Result, ok, err, Result-cases}
use numi_dba_agent.Models.Failures.{Error}
use numi_dba_agent.Models.Json.{Arguments, Json}
use numi_dba_agent.Models.Identity.{VerifiedIdentity, is_dba}
use numi_dba_agent.Models.Target.{DatabaseTarget}
use numi_dba_agent.Models.Tool.{ToolDefinition}
use numi_dba_agent.Approval.Record.{
  ApprovalDecision, approve, reject, ApprovalRecord, ApprovalStore,
}
use numi_dba_agent.Approval.Engine.{get, decide}
use numi_dba_agent.Approval.Routes.{
  HttpError, Routes, Tables, Decided, CatalogReader, authorize_at, accepted_keys, nullable,
  model_dump, check_approver, check_for, event_of, decide_body, committed, decide_approval,
}
use numi_dba_agent.Audit.{AuditEvent}
use numi_dba_agent.ToolRegistry.{find}

module _ (routes : Routes) (reader : CatalogReader) where
  -- the tool of the approval, in its version, is registered and enabled
  abbrev pub IsAvailable : ApprovalRecord → Type 0
  IsAvailable r =
      (tool : ToolDefinition) × (find routes.tools r.tool_id (some r.tool_version) ≡ ok tool)

  abbrev pub MayDecide : ApprovalDecision → ApprovalRecord → Type 0
  MayDecide approve r = IsAvailable r
  MayDecide reject r = Unit

  check_approver-IsAvailable :
      (identity : VerifiedIdentity) (r : ApprovalRecord)
      → check_approver routes reader identity r ≡ ok tt
      → IsAvailable r
  unfolding check_approver
  check_approver-IsAvailable identity r h =
      elim (Result-cases (find routes.tools r.tool_id (some r.tool_version))) [
        | inr (e, refused) ↦ absurd (ground (arith, h, refused))
        | inl found ↦ found
      ]

  decide_body-parts :
      (id : String) (identity : VerifiedIdentity) (decision : ApprovalDecision) (now : ℕ)
      (s : Tables) (d : Decided) (after : Tables)
      → decide_body routes reader id identity decision now s ≡ (ok d, after)
      → (r : ApprovalRecord) × (decided : ApprovalRecord) × (Dict.get s.approvals.approvals id
          ≡ some r)
        × (check_for routes reader decision identity r ≡ ok tt)
        × (decide id identity decision now s.approvals ≡ (ok decided, after.approvals))
        × (d.status ≡ decided.status)
        × (after.log.audit_events
            ≡ s.log.audit_events ++ event_of routes reader id identity decision r decided ∷ [])
  unfolding decide_body get
  decide_body-parts id identity decision now s d after h =
      elim (Option-cases (Dict.get s.approvals.approvals id)) [
        | inl missing ↦ absurd (ground (arith, h, missing))
        | inr (r, found) ↦ elim (Result-cases (check_for routes reader decision identity r)) [
          | inr (e, refused) ↦ absurd (ground (arith, h, found, refused))
          | inl (passed, checked) ↦
              elim (Result-cases (decide id identity decision now s.approvals).0) [
                | inr (e, refused) ↦ absurd (ground (arith, h, found, checked, refused))
                | inl (decided, signed) ↦ (
                  r,
                  decided,
                  found,
                  checked,
                  ground (arith, h, found, checked, signed),
                  ground (arith, h, found, checked, signed),
                  ground (arith, h, found, checked, signed),
                )
              ]
        ]
      ]

  -- what a decision did, given the identity that was resolved
  abbrev pub Decides :
      Option VerifiedIdentity
      → String
      → ApprovalDecision
      → ℕ
      → Tables
      → Result HttpError Decided × Tables
      → Type 0
  Decides who id decision now before (err e, after) = after ≡ before
  Decides who id decision now before (ok d, after) =
      (identity : VerifiedIdentity) × (r : ApprovalRecord) × (decided : ApprovalRecord)
      × (event : AuditEvent) × (who ≡ some identity)
      × (is_dba identity ≡ true)
      × (Dict.get before.approvals.approvals id ≡ some r)
      × MayDecide decision r
      × (decide id identity decision now before.approvals ≡ (ok decided, after.approvals))
      × (d.status ≡ decided.status)
      × (after.log.audit_events ≡ before.log.audit_events ++ event ∷ [])
      × (event.actor_subject_id ≡ identity.subject_id)
      × (event.approval_id ≡ some id)

  check_for-MayDecide :
      (decision : ApprovalDecision) (identity : VerifiedIdentity) (r : ApprovalRecord)
      → check_for routes reader decision identity r ≡ ok tt
      → MayDecide decision r
  unfolding check_for
  check_for-MayDecide approve identity r h = check_approver-IsAvailable identity r h
  check_for-MayDecide reject identity r h = tt

  committed-Decides :
      (id : String) (identity : VerifiedIdentity) (decision : ApprovalDecision) (now : ℕ)
      (s : Tables) (out : Result Error Decided × Tables)
      → is_dba identity ≡ true
      → decide_body routes reader id identity decision now s ≡ out
      → Decides (some identity) id decision now s (committed s out)
  unfolding committed event_of
  committed-Decides id identity decision now s (err e, after) member h = refl
  committed-Decides id identity decision now s (ok d, after) member h =
      let (r, decided, found, checked, signed, status, logged) =
        decide_body-parts id identity decision now s d after h in
      (
        identity,
        r,
        decided,
        event_of routes reader id identity decision r decided,
        refl,
        member,
        found,
        check_for-MayDecide decision identity r checked,
        signed,
        status,
        logged,
        refl,
        refl,
      )

  -- A request to decide an approval that is answered with an error leaves the approvals and the log
  -- exactly as they were. One that succeeds was made by an identity that was resolved and is a member
  -- of the DBA team, on a stored approval; it did what the engine's `decide` does with that identity,
  -- and added one event to the audit log, with that identity as its actor. If it approved, the tool of
  -- the approval is registered in its version and enabled. (That the approver may use the tool at the
  -- target is not among what holds.)
  pub decide_approval-Decides :
      (who : Option VerifiedIdentity) (id : String) (decision : ApprovalDecision) (now : ℕ)
      (s : Tables)
      → Decides who id decision now s (decide_approval routes reader who id decision now s)
  unfolding decide_approval
  decide_approval-Decides none id decision now s = refl
  decide_approval-Decides (some identity) id decision now s = elim (Bool-cases (is_dba identity)) [
    | inl member ↦ rw member (committed-Decides id identity decision now s _ member refl)
    | inr other ↦ rw other refl
  ]

-- pydantic's `extra="forbid"`: a dict with a key that the class does not take is refused
abbrev pub ForbidsExtra : (Arguments → Option DatabaseTarget) → Type 0
ForbidsExtra model_validate =
    (d : Arguments) (key : String) (v : Json)
    → Dict.get d key ≡ some v
    → contains accepted_keys key ≡ false
    → model_validate d ≡ none

model_dump-schema_name :
    (target : DatabaseTarget)
    → Dict.get (model_dump target) "schema_name" ≡ some (nullable target.schema_name)
unfolding model_dump Dict.get string_eq
model_dump-schema_name target = refl

is_extra : contains accepted_keys "schema_name" ≡ false
unfolding string_eq
is_extra = refl

module _ (routes : Routes) (reader : CatalogReader) where
  check_approver_passes :
      (identity : VerifiedIdentity) (r : ApprovalRecord) (tool : ToolDefinition)
      → ForbidsExtra routes.model_validate
      → find routes.tools r.tool_id (some r.tool_version) ≡ ok tool
      → check_approver routes reader identity r ≡ ok tt
  unfolding check_approver authorize_at
  check_approver_passes identity r tool forbids found =
      let refused : routes.model_validate (model_dump r.target) ≡ none =
        forbids (model_dump r.target) "schema_name" (nullable r.target.schema_name)
          (model_dump-schema_name r.target) is_extra in
      ground (arith, found, refused)

  -- Where validation refuses keys that the class does not take, the check of the approver against the
  -- target never runs: every member of the DBA team, whatever their roles and factors, approves every
  -- stored approval whose tool is registered in its version and enabled, if the engine's `decide` lets
  -- them, and what is committed is what the engine's `decide` does.
  pub decide_approval_unchecked :
      (identity : VerifiedIdentity) (id : String) (now : ℕ) (s : Tables) (r : ApprovalRecord)
      (tool : ToolDefinition) (decided : ApprovalRecord) (after : ApprovalStore)
      → ForbidsExtra routes.model_validate
      → is_dba identity ≡ true
      → Dict.get s.approvals.approvals id ≡ some r
      → find routes.tools r.tool_id (some r.tool_version) ≡ ok tool
      → decide id identity approve now s.approvals ≡ (ok decided, after)
      → ((decide_approval routes reader (some identity) id approve now s).0
          ≡ ok (record { approval_id = id; status = decided.status }))
        × ((decide_approval routes reader (some identity) id approve now s).1.approvals ≡ after)
  unfolding decide_approval decide_body get check_for committed
  decide_approval_unchecked identity id now s r tool decided after forbids member stored found
        signed =
      let passes = check_approver_passes identity r tool forbids found in
      ground (arith, member, stored, passes, signed)
