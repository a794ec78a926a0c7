-- ===== src/Lib.antt =====
-- The DBA agent: the agent's investigations, the Tool Gateway that stands between a tool call that
-- the agent proposes and the database, and the Execution Service that runs the call.
--
-- The program has four parts. The agent (src/numi/agent) plans calls and submits them to the Gateway
-- (src/numi/gateway); the Gateway resolves, authorises, limits, evaluates and audits every call, asks
-- people for approvals, and sends what it admits to the Execution Service (src/numi/execution); the
-- channels (src/numi/channels) carry messages and approvals. This library models the Gateway's domain,
-- src/numi/gateway/domain, with its routes for approvals and the data models it shares with the
-- others, src/numi/common/models; the agent's investigations, src/numi/agent; and the Execution
-- Service, src/numi/execution.
--
-- Files, and the code they are about (paths below src/numi):
--   Common            Python's comparisons, lists, dicts and methods that may raise; `Exec` is a
--                     method on a state, which keeps what was written before an exception
--   Models            common/models: enumerations and records, one file for each Python file
--   ServerReference   common/server_reference.py: `normalize_server_reference`
--   Servers           gateway/domain/servers.py: `ServerEntry`, `find_candidates`, `resolve`;
--                     Servers/Resolution is what a resolved server is
--   TargetValidation  gateway/domain/target_validation.py: `validate`; TargetValidation/Located is
--                     what it guarantees
--   Authorization     gateway/domain/authorization.py: `authorize`; Authorization/Gate its conditions
--   Policy            gateway/domain/policy_engine.py: `evaluate`; Policy/Window the maintenance
--                     windows, Policy/Decisions when a decision is ALLOW or DENY
--   Risk              gateway/domain/risk_engine.py: `assess`; Risk/Bounds its range and its order
--   RateLimit         gateway/domain/rate_limiter.py: `check` over any backend; RateLimit/Backend is
--                     the in-memory one of common/rate_limit_backend.py, RateLimit/Window and
--                     RateLimit/Cooldown what its count lets through
--   ToolRegistry      gateway/domain/tool_registry.py: `get` is `find` here, over a list of tools
--   ToolCatalog       gateway/domain/tool_catalog.py: ToolCatalog/Builders the three ways to define a
--                     tool, ToolCatalog/Reads and ToolCatalog/Writes the tools, ToolCatalog/Facts
--                     what holds of each of them
--   DataPolicy        gateway/domain/data_policy.py: `minimize`; DataPolicy/Masking what it lets out
--   Discovery         gateway/domain/discovery.py: `refresh_server` and `ensure_fresh`
--   Audit             gateway/domain/audit.py: the audit log and the log of security events
--   Approval          gateway/domain/approval.py: Approval/Canonical what is hashed of an action,
--                     Approval/Record the tables' rows, Approval/Engine the methods of
--                     `ApprovalEngine`, Approval/Decidable what `decide` accepts, Approval/Verify
--                     what `verify_for_execution` accepts, Approval/Change what one call can do to a
--                     record, Approval/Lifecycle the sequences of calls, Approval/Binding what an
--                     accepted approval stands for, Approval/Replay approvals that have been used,
--                     Approval/Routes the routes of gateway/api/routers/approvals.py, with the proofs
--                     in Approval/Routes/Guarded
--   Handler           gateway/domain/tool_call_handler.py: Handler/State what a handler is built from
--                     and what it changes, Handler/Stages the stages of `_handle_inner`,
--                     Handler/Pipeline their chain and `handle`; Handler/Admission, Handler/Safety,
--                     Handler/Approvals, Handler/Consumption and Handler/Responses are the
--                     proofs about a call
--   Agent             agent/: Agent/Actions is planner/actions.py and reply.py, Agent/State the state
--                     of context_manager.py, Agent/Playbooks playbooks/library.py; the rest is
--                     orchestrator.py: Agent/Limits its constants and tests, Agent/Submit
--                     `_submit_and_relay`, Agent/Conclude `_finalize_conclude`, Agent/Loop
--                     `_run_investigation_loop`, Agent/Targets how a target is taken from a
--                     message, Agent/Continue `_continue_investigation`, Agent/Unattended the runs
--                     that nobody watches, Agent/Decision `handle_approval_decision`; Agent/Fallback
--                     is llm/fallback.py, Agent/Digest scheduled_report.py, Agent/Alert
--                     alert_trigger.py, with its problem statement in Agent/Alert/Problem; the other
--                     children of these are the proofs
--   Identity          common/identity/: Identity/Groups is provider.py, Identity/Scim and
--                     Identity/Oidc oidc_provider.py; Identity/Oidc/Proven is what holds of an
--                     identity that was resolved
--   Execution         execution/service.py: Execution/Dispatch `_dispatch`, with the shape of its
--                     results in Execution/Dispatch/Answers; Execution/Connect `execute`, with
--                     what it closes and answers in Execution/Connect/Closing
--   Tests             a small installation, and the theorems at concrete inputs
--
-- State and operations. A call of `handle` takes the state `GatewayState`: the approvals, the two
-- logs, the counters of the rate limiter, the catalogs and the list of requests sent to the Execution
-- Service; it returns a response or an error and the next state. A `NumiError` is `numi_error` with
-- its code; every other exception is `uncaught`. The clock's readings, the identifiers drawn and the
-- answers of the Execution Service are the `Surroundings` of a call. A run of the agent takes a
-- `Session`: the conversation, its investigation, the requests sent to the Gateway and a world, which
-- the services that it calls (the model, the Gateway) change; what it raises is a `Stop`. `execute`
-- takes a `Room`: the world of the drivers and the connections that are open. An alert takes a `Room`
-- of its own: the world, the cooldowns, the investigations started and the posts, each alert at the
-- time at which it is counted. A decision on an approval takes the `Tables` of a database session,
-- which go back to what they were when an exception ends it. Each loop is a recursion on the list it
-- runs over, but for the `while` of an investigation, which takes seven rounds of fuel: each round
-- spends one of the six turns. Times are native numbers, in microseconds since the epoch.
--
-- What enters as a parameter, because it is other code: pydantic's validation and copying of models,
-- SHA-256 of JSON texts (whose keys the model sorts), the time zone database, the searches of regular expressions, the SQL
-- validator, the scrubber of SQL literals, sorting, the rate limiter's backend and, for the Gateway,
-- the Execution Service; for the agent, the language model and the Gateway; for the Execution Service,
-- the credentials, the drivers and the adapters' methods; for an alert, what `str.format` makes of a
-- replacement field other than `{server_id}`. Lower-casing, stripping and reading of numbers are those
-- of ASCII.
--
-- What is not modelled: texts of messages, durations, the channel and the agent's version, which no
-- decision reads; the routes and database sessions around `handle`; the slash commands of the agent, the
-- classification of a message, the choice of a model and the prompts; the channels, the adapters of the
-- database engines, and the classes of arguments. The pipeline takes any list of tools, not only that
-- of ToolCatalog.
pub mod Common
pub mod Models
pub mod ServerReference
pub mod Approval
pub mod Servers
pub mod TargetValidation
pub mod Authorization
pub mod Policy
pub mod Risk
pub mod RateLimit
pub mod ToolRegistry
pub mod ToolCatalog
pub mod DataPolicy
pub mod Audit
pub mod Discovery
pub mod Identity
pub mod Handler
pub mod Execution
pub mod Agent
pub mod Tests
