-- ===== src/Handler.antt =====
-- The Gateway's pipeline (gateway/domain/tool_call_handler.py) and the proofs about it.
pub mod State
pub mod Stages
pub mod Pipeline
pub mod Admission
pub mod Safety
pub mod Responses
pub mod Approvals
pub mod Consumption
