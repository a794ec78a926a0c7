-- ===== src/Tests.antt =====
-- Sample data, tests that run the models, and the theorems at concrete inputs.
mod Samples
mod Gates
mod Approvals
mod Calls
mod Catalog
mod Agents
mod Executions
mod Fallbacks
mod Identities
mod Digests
mod Alerts
mod Decisions
