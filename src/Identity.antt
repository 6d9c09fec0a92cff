-- ===== src/Identity.antt =====
-- The identity module (backend/app/modules/identity): roles, grants, sessions, and the decision
-- whether a caller may act.
pub mod Enums
pub mod Entities
pub mod Roles
pub mod Principal
pub mod Authorization
pub mod Store
pub mod Resolve
pub mod Sessions
pub mod Grants
pub mod Memberships
pub mod Samples
