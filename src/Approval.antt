-- ===== src/Approval.antt =====
-- The approval engine (gateway/domain/approval.py): its records, its methods, and their proofs.
pub mod Canonical
pub mod Record
pub mod Engine
pub mod Verify
pub mod Change
pub mod Lifecycle
pub mod Binding
pub mod Replay
pub mod Decidable
pub mod Routes
