-- ===== src/PlanReview.antt =====
-- The review of a plan: graph/subgraphs/planning/risk.py, graph/planning_approval_policy.py, and the
-- nodes of graph/builder.py that ask for the approval of a risk.
pub mod Words
pub mod Terms
pub mod Risk
pub mod Analysis
pub mod Members
pub mod RiskLaws
pub mod Policy
pub mod PolicyLaws
pub mod ReviewLaws
pub mod Tests
