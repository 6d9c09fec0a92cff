-- ===== src/Incidents.antt =====
-- The incidents module (backend/app/modules/incidents): the adjudication of field reports and the
-- life of the incidents that they open.
pub mod Enums
pub mod Entities
pub mod Recalculation
pub mod Store
pub mod Adjudication
pub mod Resolution
pub mod Merging
pub mod Samples
