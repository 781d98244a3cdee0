-- ===== src/Supervisor.antt =====
-- The supervisor that hands the workflow from stage to stage: graph/supervisor.
pub mod Types
pub mod State
pub mod Guards
pub mod Handoffs
pub mod Fingerprint
pub mod Loops
pub mod Decide
pub mod Node
pub mod Step
pub mod Progress
pub mod Stagnation
pub mod Numbering
pub mod Validation
mod Tests
