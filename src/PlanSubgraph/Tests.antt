-- ===== src/PlanSubgraph/Tests.antt =====
-- A plan that is refined once.
use mcp_software_factory.Prelude.{
  ℕ, ◌≡◌, refl, false, none, some, [], ◌∷◌, if◌then◌else◌, ltb, arith,
}
use mcp_software_factory.PlanReview.Policy.{refuses, review_plan}
use mcp_software_factory.PlanReview.ReviewLaws.{IsReviewed}
use mcp_software_factory.PlanReview.Tests.{
  wipe, report, no_paths, state, digest_of, wipe-is_dangerous,
}
use mcp_software_factory.PlanSubgraph.Gate.{PlanQuality, good, evaluate_quality_gate, gate_reasons}
use mcp_software_factory.PlanSubgraph.Loop.{
  Plan, checked, Refinement, refined, PlanningState, Checks, from_planning, error_code,
  validate_plan, refine_plan, route_after_plan_validation, plan_until,
}
use mcp_software_factory.PlanSubgraph.LoopLaws.{IsSettled, plan_until_total}
use mcp_software_factory.PlanSubgraph.DangerLaws.{planned_danger_needs_approval}

abbrev quality_of : ℕ → PlanQuality
quality_of attempts = record {
  score = 80;
  level = good;
  requirement_coverage = (if ltb attempts 1 then 50 else 90);
  dependency_coherence = 95;
  task_clarity = 80;
  plan_completeness = 100;
  issues = [];
  decision_confidence = 800;
}

abbrev plan : Plan
plan = record { analysis = "{}"; tasks = report ∷ wipe ∷ [] }

abbrev checks : Checks
checks = record {
  contract = λ p s. checked p [];
  executability = λ p s. [];
  quality = λ p s. quality_of s.attempts;
  paths = no_paths;
}

abbrev service : PlanningState → Refinement
service s = refined plan

abbrev start : PlanningState
start = record {
  plan = plan;
  valid = false;
  errors = [];
  attempts = 0;
  max_attempts = none;
  failure_reason = none;
  risk = none;
  quality_score = none;
  gate_decision = none;
  refinement_required = false;
  refinement_attempts = 0;
  approval_required = false;
  approval_id = none;
  approval_status = none;
  approval_fingerprint = none;
  terminal_status = none;
  failure_type = none;
}

plan_until_total_example :
    (z : PlanningState) × (plan_until 3 checks service start ≡ some z) × IsSettled checks start z
plan_until_total_example = plan_until_total checks service 3 start (omega arith) (omega arith)

-- The state behind the refinement.
abbrev ended : PlanningState
unfolding validate_plan refine_plan gate_reasons evaluate_quality_gate error_code
ended = validate_plan checks (refine_plan (refined plan) (validate_plan checks start))

planned_danger_needs_approval_example :
    IsReviewed digest_of false
      (from_planning ended state)
      (review_plan digest_of refuses (from_planning ended state))
unfolding plan_until route_after_plan_validation validate_plan refine_plan gate_reasons
    evaluate_quality_gate error_code
planned_danger_needs_approval_example =
    planned_danger_needs_approval checks digest_of service 3 start ended state refuses (report ∷ [])
      [] wipe (omega arith) (omega arith) refl refl refl wipe-is_dangerous refl
