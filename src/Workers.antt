-- ===== src/Workers.antt =====
-- The workers (backend/app/workers).
pub mod Outbox
pub mod ImpactEvaluator
