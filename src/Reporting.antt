-- ===== src/Reporting.antt =====
-- The reporting module (backend/app/modules/reporting): what officers observe on the roads.
pub mod Enums
pub mod Entities
pub mod Store
pub mod Submission
pub mod Sync
pub mod Amendment
pub mod Verification
pub mod Media
pub mod Samples
