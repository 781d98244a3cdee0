-- ===== src/Planning.antt =====
-- Planning: graph/subgraphs/planning/executability.py.
pub mod Order
pub mod Termination
pub mod Entries
pub mod Soundness
pub mod Keys
pub mod Marks
pub mod Completeness
pub mod Acceptance
mod Tests
