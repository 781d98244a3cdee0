-- ===== src/PlanReview/Analysis.antt =====
-- `analyze_plan_risk` of graph/subgraphs/planning/risk.py: what a whole plan risks.
use mcp_software_factory.Prelude.{
  ℕ, ◌+◌, max, min, ◌||◌, List, [], ◌∷◌, ◌++◌, String, string_eq, nat_eq, leb, length, contains,
  dedup, keep, if◌then◌else◌,
}
use mcp_software_factory.PlanReview.Risk.{
  area_eq, reason_eq, Area, PlanTask, Reason, RiskLevel, Scored, application,
  broad_multi_area_impact, configuration, database, dependencies, destructive_operation,
  documentation, filesystem, impact_for_task, infrastructure, multi_area_impact, risk_level,
  runtime, score_task, security, task_text, tests,
}

-- An entry of `sensitive_tasks`.
pub record SensitiveTask : Type 0 where
  pub task_id : ℕ
  pub level : RiskLevel
  pub reasons : List Reason

-- The variables of the loop; the areas are a set.
pub record Findings : Type 0 where
  pub base : ℕ
  pub reasons : List Reason
  pub areas : List Area
  pub sensitive_tasks : List SensitiveTask
  pub target_count : ℕ

abbrev pub no_findings : Findings
no_findings = record { base = 0; reasons = []; areas = []; sensitive_tasks = []; target_count = 0 }

-- `duration_ms` is left out.
pub record RiskAnalysis : Type 0 where
  pub risk_score : ℕ
  pub level : RiskLevel
  pub risk_reasons : List Reason
  pub sensitive : List SensitiveTask
  pub impact_areas : List Area

-- All areas, in the order of their names.
abbrev pub all_areas : List Area
all_areas =
    application ∷ configuration ∷ database ∷ dependencies ∷ documentation ∷ filesystem
    ∷ infrastructure ∷ runtime ∷ security ∷ tests ∷ []

-- `sorted(areas)` of a set
abbrev pub sorted_areas : List Area → List Area
sorted_areas areas = keep (λ a. contains a areas) all_areas

-- `_paths`, whose pattern is a parameter
module _ (paths : String → List String) where
  abbrev pub task_risk : PlanTask → Scored
  unfolding score_task impact_for_task
  task_risk t = score_task (task_text t) (impact_for_task (task_text t) (paths (task_text t)))

  abbrev pub find_in : PlanTask → Findings → Findings
  unfolding score_task impact_for_task
  find_in t f =
      let text = task_text t in
      let impacts = impact_for_task text (paths text) in
      let scored = score_task text impacts in
      record {
        base = max f.base scored.0;
        reasons = f.reasons ++ scored.1;
        areas = impacts ++ f.areas;
        sensitive_tasks =
            (if leb 50 scored.0
              then f.sensitive_tasks
                ++ record {
                  task_id = t.task.order;
                  level = risk_level scored.0;
                  reasons = scored.1;
                }
                  ∷ []
              else f.sensitive_tasks);
        target_count = f.target_count + length (paths text);
      }

  unfoldable pub collect : List PlanTask → Findings → Findings
  unfolding score_task impact_for_task
  collect [] f = f
  collect (t ∷ ts) f = collect ts (find_in t f)

-- The number for the breadth, with its reason.
abbrev pub breadth_modifier : ℕ → ℕ → ℕ
breadth_modifier targets breadth =
    if leb 5 targets || leb 5 breadth then 10 else (if leb 2 targets || leb 3 breadth then 6 else 0)

abbrev pub breadth_reasons : ℕ → ℕ → List Reason
breadth_reasons targets breadth =
    if leb 5 targets || leb 5 breadth
    then broad_multi_area_impact ∷ []
    else (if leb 2 targets || leb 3 breadth then multi_area_impact ∷ [] else [])

abbrev pub total_score : Findings → ℕ
total_score f = min 100 (
    f.base
    + breadth_modifier f.target_count (length (sorted_areas f.areas))
    + (if contains destructive_operation f.reasons then 10 else 0)
    + (if leb 5 (length f.sensitive_tasks) then 10 else 0))

unfoldable pub analyze_plan_risk : (String → List String) → List PlanTask → RiskAnalysis
unfolding collect
analyze_plan_risk paths plan =
    let f = collect paths plan no_findings in
    record {
      risk_score = total_score f;
      level = risk_level (total_score f);
      risk_reasons =
          dedup (f.reasons ++ breadth_reasons f.target_count (length (sorted_areas f.areas)));
      sensitive = f.sensitive_tasks;
      impact_areas = sorted_areas f.areas;
    }
