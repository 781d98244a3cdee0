-- ===== src/TestingRepair.antt =====
-- The testing and repair subgraph: graph/subgraphs/testing_repair and its nodes of graph/nodes.py.
pub mod State
pub mod Nodes
pub mod Reads
pub mod Routers
pub mod Graph
pub mod Forward
pub mod Calls
pub mod Later
pub mod Ranks
pub mod NodeSteps
pub mod Termination
pub mod NodeLaws
mod Tests
