-- ===== src/Identity.antt =====
-- common/identity/: who a message comes from. Identity/Groups is provider.py: the mapping of groups to
-- roles, and the directory of a local installation.
pub mod Groups
pub mod Scim
pub mod Oidc
