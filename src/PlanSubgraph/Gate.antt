-- ===== src/PlanSubgraph/Gate.antt =====
-- `evaluate_quality_gate` of graph/subgraphs/planning/quality.py.
use mcp_software_factory.Prelude.{
  ℕ, Bool, true, false, ◌&&◌, List, [], ◌∷◌, String, string_eq, any, contains, dedup, leb, ltb,
  if◌then◌else◌,
}

pub data QualityLevel : Type 0 where
  excellent good acceptable weak poor : QualityLevel

-- `PlanQualityResult`, with the dimensions that the gate reads; the confidence in thousandths.
pub record PlanQuality : Type 0 where
  pub score : ℕ
  pub level : QualityLevel
  pub requirement_coverage : ℕ
  pub dependency_coherence : ℕ
  pub task_clarity : ℕ
  pub plan_completeness : ℕ
  pub issues : List String
  pub decision_confidence : ℕ

pub data GateDecision : Type 0 where
  continues refines fails : GateDecision

-- `QualityGateDecision`
pub record QualityGate : Type 0 where
  pub decision : GateDecision
  pub reason : String
  pub reason_codes : List String
  pub refinement_required : Bool

abbrev pub is_below : QualityLevel → Bool
is_below weak = true
is_below poor = true
is_below _ = false

abbrev pub is_acceptable : QualityLevel → Bool
is_acceptable acceptable = true
is_acceptable _ = false

-- `issues.intersection(codes)`, by its truth
abbrev pub has_issue : List String → List String → Bool
has_issue issues codes = any (λ c. contains c issues) codes

abbrev pub structural_quality_issues : List String
structural_quality_issues =
    "planning_quality_low_requirement_coverage" ∷ "planning_quality_incomplete_plan"
    ∷ "planning_quality_low_task_clarity" ∷ "planning_quality_high_coupling" ∷ []

-- `reason_codes.append(code)` under a condition, in front of those that follow
abbrev pub code_if : Bool → String → List String → List String
code_if b code codes = if b then code ∷ codes else codes

unfoldable pub gate_reasons : PlanQuality → List String
gate_reasons q = dedup (
    code_if (is_below q.level) "planning_quality_below_threshold" (
      code_if (ltb q.requirement_coverage 70) "planning_quality_low_requirement_coverage" (
        code_if (ltb q.plan_completeness 70) "planning_quality_incomplete_plan" (
          code_if (ltb q.task_clarity 50) "planning_quality_low_task_clarity" (
            code_if (ltb q.dependency_coherence 60) "planning_quality_high_coupling" (
              code_if
                (is_acceptable q.level
                  && has_issue q.issues (
                      "planning_quality_low_requirement_coverage"
                      ∷ "planning_quality_incomplete_plan" ∷ []))
                "planning_quality_acceptable_with_structural_issue"
                (code_if
                  (ltb q.decision_confidence 550 && has_issue q.issues structural_quality_issues)
                  "planning_quality_low_confidence" [])))))))

-- The gate behind the codes.
abbrev pub gate_of : List String → ℕ → ℕ → QualityGate
gate_of [] attempts max_attempts = record {
  decision = continues;
  reason = "quality_gate_passed";
  reason_codes = [];
  refinement_required = false;
}
gate_of (c ∷ cs) attempts max_attempts =
    if leb max_attempts attempts
    then record {
      decision = fails;
      reason = "planning_quality_below_threshold";
      reason_codes = c ∷ cs;
      refinement_required = false;
    }
    else record {
      decision = refines;
      reason = c;
      reason_codes = c ∷ cs;
      refinement_required = true;
    }

unfoldable pub evaluate_quality_gate : PlanQuality → ℕ → ℕ → QualityGate
unfolding gate_reasons
evaluate_quality_gate q attempts max_attempts = gate_of (gate_reasons q) attempts max_attempts
