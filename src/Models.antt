-- ===== src/Models.antt =====
-- The shared data models of src/numi/common/models and common/ids.py.
pub mod Json
pub mod JsonAccess
pub mod Failures
pub mod Identity
pub mod Risk
pub mod Target
pub mod Tool
pub mod Execution
pub mod Catalog
