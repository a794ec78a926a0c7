-- ===== src/Execution.antt =====
-- execution/service.py: the dispatcher that alone opens a connection to a database.
pub mod Dispatch
pub mod Connect
