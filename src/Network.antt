-- ===== src/Network.antt =====
-- The road network module (backend/app/modules/network): its data, its vehicle passage rule and
-- its edge status log.
pub mod Enums
pub mod Entities
pub mod Traversability
pub mod Status
pub mod Samples
