-- ===== src/Logistics.antt =====
-- The logistics module (backend/app/modules/logistics): fleet, commitments and the life of a trip.
pub mod Enums
pub mod Entities
pub mod Rules
pub mod Store
pub mod Dispatch
pub mod Samples
