-- ===== src/Routing.antt =====
-- The routing module (backend/app/modules/routing): which edges a vehicle may use, the plan of a
-- route, and the dispatcher's decision on it.
pub mod Entities
pub mod Constraints
pub mod Store
pub mod Plans
pub mod Geometry
mod Samples
pub mod Routes
pub mod Evaluation
pub mod Decision
