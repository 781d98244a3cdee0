-- ===== src/PlanSubgraph.antt =====
-- The loop of the planning subgraph, graph/subgraphs/planning/builder.py with the quality gate of
-- graph/subgraphs/planning/quality.py.
pub mod Gate
pub mod Loop
pub mod LoopLaws
pub mod DangerLaws
mod Tests
