-- ===== src/EventStore.antt =====
-- The durable store of workflow events: streaming/sqlite_store.py and streaming/emitter.py.
pub mod Types
pub mod Table
pub mod Query
pub mod QueryLaws
pub mod FetchLaws
pub mod BatchLaws
pub mod Emitter
pub mod Journal
pub mod Consistency
pub mod Refinement
pub mod Effects
pub mod EmitterLaws
pub mod RunLaws
pub mod JournalLaws
pub mod AnswerLaws
pub mod ClosedLaws
pub mod ReadLaws
mod Tests
