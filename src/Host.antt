-- ===== src/Host.antt =====
-- The host of the tools, host.py.
pub mod Types
pub mod Paths
pub mod Actions
pub mod Validation
pub mod Update
pub mod Call
pub mod RepairLaws
pub mod CallLaws
pub mod ActionLaws
mod Tests
