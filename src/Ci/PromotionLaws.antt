-- ===== src/Ci/PromotionLaws.antt =====
-- When `evaluate_ci_promotion_eligibility` lets a commit be promoted.
use mcp_software_factory.Prelude.{
  String, ◌≡◌, ◌↔◌, ◌⊎◌, true, false, Option, none, some, arith, option_beq_iff, string_eq,
  option_eq,
}
use mcp_software_factory.Ci.Types.{
  PipelineStatus, Decision, PromotionPolicy, PipelineStatus-discrete, Decision-discrete,
  pipeline_status_eq, decision_eq,
}
use mcp_software_factory.Ci.Promotion.{
  GitState, CiRun, target_of, source_of, mode_of, evaluate_ci_promotion_eligibility,
}

-- A run that has finished and was accepted, with warnings only where the policy allows them.
abbrev pub IsAccepted : PromotionPolicy → CiRun → Type 0
IsAccepted policy r =
    ((r.status ≡ some PipelineStatus.passed) ⊎ (r.status ≡ some PipelineStatus.failed))
    × ((r.decision ≡ some Decision.accepted)
        ⊎ (r.decision ≡ some Decision.accepted_with_warnings) × (policy.allow_warnings ≡ true))

-- Where CI is required, a run makes a commit eligible exactly when it ran on a commit, that commit
-- is the one to promote, and it was accepted.
pub eligible_iff :
    (g : GitState) (r : CiRun) (policy : PromotionPolicy) (target : String)
    → policy.required ≡ true
    → target_of g ≡ some target
    → ((evaluate_ci_promotion_eligibility g (some r) policy).eligible ≡ true)
      ↔ ((mode_of r ≡ some "commit") × (source_of r ≡ some target) × IsAccepted policy r)
unfolding evaluate_ci_promotion_eligibility Decision-discrete PipelineStatus-discrete
eligible_iff g r policy target q t = rw t (
    ground (
      arith,
      option_beq_iff (mode_of r) (some "commit"),
      option_beq_iff (source_of r) (some target),
    ))

-- Where CI is required, nothing is eligible without a run or without a valid commit to promote.
pub required_needs_run :
    (g : GitState) (run : Option CiRun) (policy : PromotionPolicy)
    → policy.required ≡ true
    → (run ≡ none) ⊎ (target_of g ≡ none)
    → (evaluate_ci_promotion_eligibility g run policy).eligible ≡ false
unfolding evaluate_ci_promotion_eligibility
required_needs_run g run policy q h = ground arith
