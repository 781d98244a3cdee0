-- ===== src/PlanReview/Tests.antt =====
-- A plan of two tasks, and its review.
use mcp_software_factory.Prelude.{
  ℕ, ◌≤◌, ◌<◌, ◌≡◌, refl, ◌↔◌, ◌⊎◌, true, false, none, some, List, [], ◌∷◌, String, string_eq,
  casefold, char_count,
}
use mcp_software_factory.Supervisor.Types.{no_approval}
use mcp_software_factory.PlanReview.Words.{contains_word, finds_word, is_word_char}
use mcp_software_factory.PlanReview.Risk.{PlanTask}
use mcp_software_factory.PlanReview.Analysis.{analyze_plan_risk}
use mcp_software_factory.PlanReview.RiskLaws.{analyze_plan_risk_grows}
use mcp_software_factory.PlanReview.Policy.{
  PlanPayload, ReviewState, evaluate_policy, touches_sensitive,
}
use mcp_software_factory.PlanReview.PolicyLaws.{is_dangerous, needs_no_approval_iff}

abbrev task_of : ℕ → String → PlanTask
task_of n title = record {
  task = record { order = n; depends_on = [] };
  role = "Backend";
  title = title;
  description = "for the service";
}

abbrev pub wipe : PlanTask
wipe = task_of 1 "Wipe the table"

abbrev pub report : PlanTask
report = task_of 2 "Create a report"

abbrev pub no_paths : String → List String
no_paths text = []

pub wipe-is_dangerous : is_dangerous wipe ≡ true
unfolding contains_word finds_word is_word_char char_count casefold
wipe-is_dangerous = refl

analyze_plan_risk_grows_example :
    (analyze_plan_risk no_paths (report ∷ [])).risk_score
    ≤ (analyze_plan_risk no_paths (report ∷ wipe ∷ [])).risk_score
analyze_plan_risk_grows_example = analyze_plan_risk_grows no_paths (report ∷ []) (wipe ∷ [])

needs_no_approval_iff_example :
    let a = analyze_plan_risk no_paths (report ∷ []) in
    ((evaluate_policy a.level a.impact_areas a.sensitive).required ≡ false)
    ↔ ((a.risk_score < 50) × ((a.risk_score < 25) ⊎ (touches_sensitive a.impact_areas ≡ false)))
needs_no_approval_iff_example = needs_no_approval_iff no_paths (report ∷ [])

abbrev payload : PlanPayload
payload = record {
  project_name = some "shop";
  risk = some (analyze_plan_risk no_paths (report ∷ wipe ∷ []));
  analysis = "{}";
  tasks = report ∷ wipe ∷ [];
}

abbrev pub state : ReviewState
state = record {
  planning_valid = true;
  payload = payload;
  approval_required = false;
  policy_reason = none;
  approval_status = none;
  approval_id = none;
  approval_fingerprint = none;
  pending_operation = none;
  pending_fingerprint = none;
  pending_status = no_approval;
  terminal_status = none;
  failure_type = none;
  user_cancelled = false;
}

-- A digest that tells apart the analyses alone.
abbrev pub digest_of : PlanPayload → String
digest_of p = p.analysis
