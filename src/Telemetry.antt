-- ===== src/Telemetry.antt =====
-- The telemetry module (backend/app/modules/telemetry): batches of position fixes from devices.
pub mod Entities
pub mod Store
pub mod Ingest
