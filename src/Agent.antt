-- ===== src/Agent.antt =====
-- agent/: the process that plans an investigation and talks to the Gateway.
pub mod Playbooks
pub mod Actions
pub mod State
pub mod Session
pub mod Limits
pub mod Submit
pub mod Conclude
pub mod Loop
pub mod Targets
pub mod Continue
pub mod Unattended
pub mod Decision
pub mod Fallback
pub mod Digest
pub mod Alert
