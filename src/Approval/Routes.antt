-- ===== src/Approval/Routes.antt =====
-- gateway/api/routers/approvals.py: the routes on which approvals are read and decided, and the
-- identity that gateway/api/deps.py resolves for them.
pub mod Guarded
use numi_dba_agent.Common.{ℕ, String, not, Option, none, some, List, [], ◌∷◌, if◌then◌else◌}
use numi_dba_agent.Common.Exec.{Result, ok, err, Exec, pure, lift, modify, ◌>>=◌, ◌>>◌}
use numi_dba_agent.Models.Catalog.{ServerCatalog}
use numi_dba_agent.Models.Failures.{
  Error, numi_error, uncaught, FailureCode, approval_invalid, approval_expired, invalid_target,
  approval_already_decided, separation_of_duties_violation, unauthorized,
}
use numi_dba_agent.Models.Identity.{VerifiedIdentity, is_dba}
use numi_dba_agent.Models.Json.{Json, null, str, Arguments}
use numi_dba_agent.Models.Target.{DatabaseTarget, Platform, environment_value, platform_value}
use numi_dba_agent.Models.Tool.{ToolDefinition}
use numi_dba_agent.Approval.Record.{
  ApprovalStatus, pending, awaiting_second_approval, approved, rejected, expired, executed,
  ApprovalDecision, approve, reject, ApprovalRecord, ApprovalStore,
}
use numi_dba_agent.Approval.Engine.{Approving, get, decide}
use numi_dba_agent.Audit.{AuditEvent, AuditLog, parsed, record_event}
use numi_dba_agent.Authorization.{authorize}
use numi_dba_agent.Servers.{ResolveError, ServerEntry, resolve}
use numi_dba_agent.TargetValidation.{TargetContext, validate}
use numi_dba_agent.ToolRegistry.{ToolTable, find}

-- `HTTPException(status_code=...)`
pub data HttpError : Type 0 where
  http : ℕ → HttpError

-- `_CODE_TO_HTTP.get(code, 400)`
unfoldable pub code_to_http : FailureCode → ℕ
code_to_http approval_invalid = 404
code_to_http approval_expired = 410
code_to_http approval_already_decided = 409
code_to_http separation_of_duties_violation = 403
code_to_http unauthorized = 403
code_to_http _ = 400

-- an exception that no handler catches is answered by the framework
unfoldable pub http_of : Error → HttpError
unfolding code_to_http
http_of (numi_error code) = http (code_to_http code)
http_of uncaught = http 500

-- `status`, as the table holds it
unfoldable pub approval_status_value : ApprovalStatus → String
approval_status_value pending = "PENDING"
approval_status_value awaiting_second_approval = "AWAITING_SECOND_APPROVAL"
approval_status_value approved = "APPROVED"
approval_status_value rejected = "REJECTED"
approval_status_value expired = "EXPIRED"
approval_status_value executed = "EXECUTED"

-- What the routes are built from. `model_validate` is pydantic's validation of a dict as a
-- `DatabaseTarget`, `no_arguments_hash` what the audit log writes for a call without arguments.
pub record Routes : Type 0 where
  pub tools : ToolTable
  pub servers : List ServerEntry
  pub model_validate : Arguments → Option DatabaseTarget
  pub no_arguments_hash : String

-- the tables of a session
pub record Tables : Type 0 where
  pub approvals : ApprovalStore
  pub log : AuditLog

abbrev pub Deciding : Type 0 → Type 0
Deciding = Exec Error Tables

abbrev pub on_engine : {A : Type 0} → Approving A → Deciding A
on_engine m s = let (r, a) = m s.approvals in (r, record s { approvals = a })

pub record Decided : Type 0 where
  pub approval_id : String
  pub status : ApprovalStatus

-- what is committed: all of it, or, after an exception, nothing
abbrev committed : Tables → Result Error Decided × Tables → Result HttpError Decided × Tables
unfolding http_of
committed before (ok d, after) = (ok d, after)
committed before (err e, after) = (err (http_of e), before)

nullable : Option String → Json
nullable none = null
nullable (some text) = str text

nullable_platform : Option Platform → Json
nullable_platform none = null
nullable_platform (some platform) = str (platform_value platform)

-- `target.model_dump(mode="json")`, which is what the table holds: the keys are the names of the
-- fields, not their aliases
unfoldable pub model_dump : DatabaseTarget → Arguments
unfolding nullable nullable_platform environment_value
model_dump target =
    ("environment", str (environment_value target.environment))
    ∷ ("platform", nullable_platform target.platform)
    ∷ ("cluster", nullable target.cluster)
    ∷ ("instance", nullable target.instance_name)
    ∷ ("database", nullable target.database)
    ∷ ("schema_name", nullable target.schema_name)
    ∷ ("object_name", nullable target.object_name)
    ∷ ("session_id", nullable target.session_id)
    ∷ ("query_id", nullable target.query_id)
    ∷ []

-- the keys that the class takes: an alias stands in place of its field's name
abbrev pub accepted_keys : List String
accepted_keys =
    "environment" ∷ "platform" ∷ "cluster" ∷ "instance" ∷ "database" ∷ "schema" ∷ "object"
    ∷ "session_id" ∷ "query_id" ∷ []

decision_event : ApprovalDecision → String
decision_event approve = "APPROVAL_APPROVED"
decision_event reject = "APPROVAL_REJECTED"

unlisted : Result ResolveError ServerEntry → Result Error (Unit {0})
unlisted (err e) = err (numi_error invalid_target)
unlisted (ok server) = ok tt

-- The catalog store, as it is read; `none` where reading it raises, which only a target meets that a
-- registered server fits.
abbrev pub CatalogReader : Type 0
CatalogReader = Option (String → Option ServerCatalog)

module _ (routes : Routes) (reader : CatalogReader) where
  authorize_in :
      VerifiedIdentity → ToolDefinition → Result Error TargetContext → Result Error (Unit {0})
  unfolding authorize
  authorize_in identity tool (err e) = err e
  authorize_in identity tool (ok ctx) = authorize identity tool ctx

  -- Validation and authorisation of one target. An exception that is no `NumiError` is passed over.
  validated :
      CatalogReader → VerifiedIdentity → ToolDefinition → DatabaseTarget → Result Error (Unit {0})
  unfolding authorize_in validate resolve unlisted
  validated none identity tool target = unlisted (resolve routes.servers target)
  validated (some catalog_of) identity tool target =
      authorize_in identity tool (validate routes.servers catalog_of target [])

  authorize_at : VerifiedIdentity → ToolDefinition → Option DatabaseTarget → Result Error (Unit {0})
  unfolding validated
  authorize_at identity tool none = ok tt
  authorize_at identity tool (some target) = validated reader identity tool target

  -- what an approval asks of the approver
  check_approver : VerifiedIdentity → ApprovalRecord → Result Error (Unit {0})
  unfolding find authorize_at model_dump
  check_approver identity r = elim (find routes.tools r.tool_id (some r.tool_version)) [
    | err e ↦ err e
    | ok tool ↦ authorize_at identity tool (routes.model_validate (model_dump r.target))
  ]

  check_for : ApprovalDecision → VerifiedIdentity → ApprovalRecord → Result Error (Unit {0})
  unfolding check_approver
  check_for approve identity r = check_approver identity r
  check_for reject identity r = ok tt

  event_of :
      String → VerifiedIdentity → ApprovalDecision → ApprovalRecord → ApprovalRecord → AuditEvent
  unfolding decision_event approval_status_value
  event_of approval_id identity decision r decided = record {
    event_type = decision_event decision;
    conversation_id = "";
    request_id = r.request_id;
    investigation_id = "";
    actor_subject_id = identity.subject_id;
    tool_id = r.tool_id;
    tool_version = r.tool_version;
    target = some (parsed r.target);
    arguments_hash = routes.no_arguments_hash;
    policy_decision = approval_status_value decided.status;
    risk = none;
    approval_id = some approval_id;
    execution_result = "";
    error_code = none;
  }

  -- the body of the `try`, up to the commit
  unfoldable pub decide_body : String → VerifiedIdentity → ApprovalDecision → ℕ → Deciding Decided
  unfolding get decide check_for event_of record_event
  decide_body approval_id identity decision now = do
    r ← on_engine (get approval_id)
    lift (check_for decision identity r)
    decided ← on_engine (decide approval_id identity decision now)
    modify (λ s. record s {
      log = record_event (event_of approval_id identity decision r decided) s.log;
    })
    pure (record { approval_id = approval_id; status = decided.status })

  -- `_decide`; the first argument is the identity that the provider resolved
  unfoldable pub decide_approval :
      Option VerifiedIdentity
      → String
      → ApprovalDecision
      → ℕ
      → Tables
      → Result HttpError Decided × Tables
  unfolding decide_body is_dba committed
  decide_approval none approval_id decision now s = (err (http 401), s)
  decide_approval (some identity) approval_id decision now s =
      if not (is_dba identity)
      then (err (http 403), s)
      else committed s (decide_body approval_id identity decision now s)
