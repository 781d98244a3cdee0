-- ===== src/Ci.antt =====
-- The CI pipeline: api/ci_models.py and api/services/ci_service.py.
pub mod Types
pub mod Gates
pub mod GateLaws
pub mod Promotion
pub mod PromotionLaws
pub mod Execution
pub mod ExecutionLaws
pub mod Repair
pub mod RepairLaws
mod Tests
