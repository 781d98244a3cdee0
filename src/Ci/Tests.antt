-- ===== src/Ci/Tests.antt =====
-- Concrete pipelines and runs.
use mcp_software_factory.Prelude.{
  String, ◌≡◌, refl, ◌≢◌, ◌↔◌, true, false, none, some, List, [], ◌∷◌, ◌+◌, arith, length, any,
  char_count, strip, all_chars,
}
use mcp_software_factory.Ci.Types.{
  StepType, StepStatus, PipelineStatus, GateType, Decision, PipelineStep, Pipeline, StepRun,
  GateDefinition, GatePolicy, PromotionPolicy, StepType-discrete, StepStatus-discrete,
  GateStatus-discrete, Decision-discrete, step_status_eq,
}
use mcp_software_factory.Ci.Gates.{
  gate, evaluate_ci_gates, definitions_or_built, build_ci_gate_definitions,
}
use mcp_software_factory.Ci.GateLaws.{
  gate_failed, evaluate_ci_gates_rejected_iff, failed_tests_reject,
}
use mcp_software_factory.Ci.Promotion.{
  GitState, CiRun, target_of, source_of, mode_of, normalize_commit_id,
  evaluate_ci_promotion_eligibility,
}
use mcp_software_factory.Ci.PromotionLaws.{IsAccepted, eligible_iff}
use mcp_software_factory.Ci.Execution.{Tick, run_pipeline, run_steps, upsert_step}
use mcp_software_factory.Ci.ExecutionLaws.{
  AllFine, dotnet_pipeline, dotnet_step, dotnet_ticks, exit_tick, passed_run_is_clean,
  failed_restore_is_accepted,
}
use mcp_software_factory.Ci.Repair.{
  FailedRun, optional_in, infrastructure_ci_failures, configuration_ci_failures,
  classify_ci_failure_for_repair,
}
use mcp_software_factory.Ci.RepairLaws.{IsCodeFailure, repairable_iff_IsCodeFailure}

abbrev strict : GatePolicy
strict = record {
  version = "v1";
  build_blocking = true;
  test_blocking = true;
  lint_blocking = false;
  package_blocking = false;
}

abbrev dotnet : Pipeline
dotnet = dotnet_pipeline "v1" 60000

abbrev run_of : String → StepType → StepStatus → StepRun
run_of id type status = record {
  step_id = id;
  name = id;
  type = type;
  status = status;
  stdout_summary = none;
  stderr_summary = none;
  failure_type = none;
  failure_message = none;
}

-- The tests have failed.
abbrev results : List StepRun
results =
    run_of "restore" StepType.build StepStatus.passed
    ∷ run_of "build" StepType.build StepStatus.passed
    ∷ run_of "test" StepType.test StepStatus.failed
    ∷ []

-- The first of two build steps has failed and the second was skipped.
abbrev skipped_results : List StepRun
skipped_results =
    run_of "restore" StepType.build StepStatus.failed
    ∷ run_of "build" StepType.build StepStatus.skipped
    ∷ []

abbrev build_gate : GateDefinition
build_gate = gate dotnet strict GateType.build true

evaluate_ci_gates_rejected_iff_example :
    let e = evaluate_ci_gates dotnet results strict [] in
    ((e.decision ≡ Decision.rejected) ↔ (any gate_failed e.gates ≡ true))
    × (e.summary.total ≡ length (definitions_or_built dotnet strict []))
    × (e.summary.passed + e.summary.failed + e.summary.warning + e.summary.skipped
          + e.summary.not_applicable
        ≡ e.summary.total)
unfolding build_ci_gate_definitions
evaluate_ci_gates_rejected_iff_example =
    evaluate_ci_gates_rejected_iff dotnet results strict [] refl

failed_tests_reject_example :
    (evaluate_ci_gates dotnet results strict []).decision ≡ Decision.rejected
unfolding gate StepType-discrete StepStatus-discrete
failed_tests_reject_example =
    failed_tests_reject dotnet results strict refl refl refl refl (omega arith)

abbrev needed : PromotionPolicy
needed = record { version = "v1"; required = true; allow_warnings = false }

abbrev sha : String
sha = "0123456789abcdef0123456789abcdef01234567"

abbrev git : GitState
git = record { workflow_head = some sha; commit_sha = none; head_commit = none }

abbrev accepted_run : CiRun
accepted_run = record {
  ci_run_id = some "ci-1";
  status = some PipelineStatus.passed;
  source_mode = some "commit";
  source_commit = some sha;
  ci_validated_commit = none;
  decision = some Decision.accepted;
  warning_gates = [];
  warnings = [];
  failed_gates = [];
  blocking_gate = none;
}

eligible_iff_example :
    ((evaluate_ci_promotion_eligibility git (some accepted_run) needed).eligible ≡ true) ↔ (
      (mode_of accepted_run ≡ some "commit")
      × (source_of accepted_run ≡ some sha)
      × IsAccepted needed accepted_run)
unfolding target_of normalize_commit_id char_count strip all_chars
eligible_iff_example = eligible_iff git accepted_run needed sha refl refl

abbrev passing : String → StepType → PipelineStep × Tick
passing id type = (dotnet_step id id type, exit_tick 5 "0" false "" "")

abbrev short_pipeline : Pipeline
short_pipeline = record {
  version = "v1";
  steps = dotnet_step "build" "build" StepType.build ∷ dotnet_step "test" "test" StepType.test ∷ [];
  fail_fast = true;
  timeout_ms = 1000;
}

abbrev short_ticks : List (PipelineStep × Tick)
short_ticks = passing "build" StepType.build ∷ passing "test" StepType.test ∷ []

passed_run_is_clean_example :
    AllFine short_pipeline short_ticks
    × ((run_pipeline short_pipeline strict [] short_ticks).evaluation.decision ≢ Decision.rejected)
unfolding run_pipeline Decision-discrete evaluate_ci_gates build_ci_gate_definitions
    GateStatus-discrete run_steps StepStatus-discrete upsert_step StepType-discrete
passed_run_is_clean_example = passed_run_is_clean short_pipeline strict [] short_ticks refl

failed_restore_is_accepted_example :
    let ticks =
      dotnet_ticks
        (exit_tick 5 "1" false "" "NU1301")
        (exit_tick 5 "0" false "" "")
        (exit_tick 5 "0" false "" "") in
    let r = run_pipeline dotnet strict [] ticks in
    (r.state.final_status ≡ PipelineStatus.failed) × (r.evaluation.decision ≡ Decision.accepted)
failed_restore_is_accepted_example =
    failed_restore_is_accepted "v1" 60000 strict 5 "1" "" "NU1301" (exit_tick 5 "0" false "" "")
      (exit_tick 5 "0" false "" "") refl refl refl refl

abbrev failed_run : FailedRun
failed_run = record {
  decision = some Decision.rejected;
  status = PipelineStatus.failed;
  steps = results;
  failed_step = some "test";
  failure_type = some "ci_tests_failed";
  failure_message = none;
  failed_gates = "test-gate" ∷ [];
  blocking_gate = some "test-gate";
}

repairable_iff_IsCodeFailure_example :
    let x = classify_ci_failure_for_repair failed_run in
    (x.repairable ≡ true) ↔ (
      IsCodeFailure x
      × (failed_run.decision ≡ some Decision.rejected)
      × (optional_in failed_run.failure_type infrastructure_ci_failures ≡ false)
      × (optional_in failed_run.failure_type configuration_ci_failures ≡ false)
      × (failed_run.status ≢ PipelineStatus.timed_out)
      × (failed_run.status ≢ PipelineStatus.interrupted))
repairable_iff_IsCodeFailure_example = repairable_iff_IsCodeFailure failed_run
