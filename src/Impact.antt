-- ===== src/Impact.antt =====
-- The impact module (backend/app/modules/impact): what a disruption of an edge does to the trips on
-- their way over it, to their commitments and to the facilities nearby.
pub mod Enums
pub mod Entities
pub mod Store
pub mod Evaluation
