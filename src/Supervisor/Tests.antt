-- ===== src/Supervisor/Tests.antt =====
-- The supervisor on concrete workflows, and its theorems at these.
use mcp_software_factory.Prelude.{
  ℕ, ◌<◌, String, ◌≡◌, refl, ◌≢◌, ◌↔◌, ◌⊎◌, true, false, none, some, [], ◌∷◌, ◌++◌, map, arith,
  get_or, replicate, contains, is_blank, string_eq,
}
use mcp_software_factory.Supervisor.Types.{
  create_project, waiting, TerminalStatus, SupervisorTarget, value, planning, implementation,
  testing_repair, finalize, WorkflowIntent-discrete, target_eq,
}
use mcp_software_factory.Supervisor.State.{
  State, Handoff, number, no_planning_result, no_implementation_result, no_testing_result,
}
use mcp_software_factory.Supervisor.Guards.{
  approval_blocks_supervisor, is_planning_valid, is_environment_prepared, are_tests_executed,
  are_tests_passed, git_workspace_prepared, git_commit_complete, promotion_complete, ci_required,
  git_target_commit, ci_valid_for_commit, is_review, handoffs_after_tests_passed,
  handoffs_after_inspection, handoffs_before_tests_passed, determine_allowed_handoffs,
  resolve_mandatory_handoff, is_not_finalize,
}
use mcp_software_factory.Supervisor.Handoffs.{
  resolve_is_total, finalize_requires_delivery, promotion_is_bound_to_commit,
  implementation_requires_plan, testing_requires_environment,
}
use mcp_software_factory.Supervisor.Fingerprint.{
  supervisor_progress_fingerprint, Fingerprint-discrete,
}
use mcp_software_factory.Supervisor.Loops.{
  detect_supervisor_loop, detect_on, no_progress, is_on_branch, reached,
}
use mcp_software_factory.Supervisor.Decide.{
  Config, default_config, Decision, timed_out, certain, is_unit_confidence,
  validate_supervisor_decision,
}
use mcp_software_factory.Supervisor.Node.{handoff_entry, push_handoff, next_sequence}
use mcp_software_factory.Supervisor.Step.{
  deterministic_choice, choose, force_model, finish_node, supervisor_node, route_after_supervisor,
}
use mcp_software_factory.Supervisor.Progress.{node_ignores_model, node_routes_to_allowed_target}
use mcp_software_factory.Supervisor.Stagnation.{IsStagnant, node_stops_iff_IsStagnant}
use mcp_software_factory.Supervisor.Numbering.{IsNumbered, loop_number_falls_back}
use mcp_software_factory.Supervisor.Validation.{validate_iff}

-- A workflow that has just begun.
abbrev start : State
start = record {
  workflow_intent = some create_project;
  terminal_status = none;
  pending_approval_status = none;
  last_completed_stage = none;
  last_completed_node = none;
  planning_result = no_planning_result;
  planning_valid = false;
  planning_attempts = 0;
  max_planning_attempts = none;
  workspace_inspected = false;
  implementation_result = no_implementation_result;
  implementation_valid = false;
  implementation_attempts = 0;
  max_implementation_attempts = none;
  project_created = false;
  project_exists = false;
  environment_prepared = false;
  detected_test_framework = none;
  testing_result = no_testing_result;
  tests_executed = false;
  tests_passed = false;
  test_infrastructure_failed = false;
  retry_limit_reached = false;
  repair_phase = none;
  repair_attempts = 0;
  files_updated_during_repair = [];
  git_integration_enabled = false;
  git_workflow_state = none;
  git_workflow_branch = none;
  git_commit_status = none;
  git_head_commit = none;
  git_developer_commit_sha = none;
  git_repair_commit_sha = none;
  git_promotion_required = false;
  git_auto_prepare_promotion = false;
  git_promotion_state = none;
  ci_promotion_required = false;
  ci_state = none;
  ci_validated_commit = none;
  ci_promotion_eligible = none;
  ci_decision = none;
  fork_origin_checkpoint_id = none;
  handoff_history = [];
  supervisor_decision = none;
  supervisor_reason = none;
  supervisor_confidence = none;
  supervisor_decision_source = none;
  allowed_handoffs = [];
  supervisor_attempts = 0;
  max_supervisor_attempts = none;
  supervisor_errors = [];
  supervisor_invalid_decision_count = 0;
  consecutive_invalid_decisions = 0;
  supervisor_stagnant_loop_probe_count = 0;
  supervisor_stagnant_loop_fingerprint = none;
  supervisor_stagnant_loop_active = false;
  failure_type = none;
  failure_stage = none;
  failure_message = none;
}

abbrev planned : State
planned = record start { planning_valid = true; planning_attempts = 1; workspace_inspected = true }

-- Its tests have passed and its commit is made, under Git and CI.
abbrev committed : State
committed = record planned {
  tests_executed = true;
  tests_passed = true;
  git_integration_enabled = true;
  git_workflow_state = some "committed";
  git_workflow_branch = some "workflow/1";
  git_developer_commit_sha = some "abc";
  git_auto_prepare_promotion = true;
  git_promotion_required = true;
  ci_promotion_required = true;
}

abbrev accepted : State
accepted = record committed {
  ci_validated_commit = some "abc";
  ci_promotion_eligible = some true;
  ci_decision = some "accepted";
}

abbrev promoted : State
promoted = record accepted { git_promotion_state = some "completed" }

abbrev asking : State
asking = record start { pending_approval_status = some waiting }

resolve_is_total_example :
    (t : SupervisorTarget) × (determine_allowed_handoffs planned ≡ t ∷ [])
    × (resolve_mandatory_handoff planned (determine_allowed_handoffs planned) ≡ some t)
resolve_is_total_example = resolve_is_total planned (λ e. cc)

finalize_requires_delivery_example :
    (git_workspace_prepared promoted ≡ true)
    × (git_commit_complete promoted ≡ true)
    × (ci_valid_for_commit promoted ≡ true)
    × (promotion_complete promoted ≡ true)
unfolding determine_allowed_handoffs handoffs_after_tests_passed approval_blocks_supervisor
    are_tests_passed git_commit_complete ci_valid_for_commit git_workspace_prepared
    promotion_complete
finalize_requires_delivery_example = finalize_requires_delivery promoted refl refl refl refl

promotion_is_bound_to_commit_example :
    (are_tests_passed accepted ≡ true)
    × (accepted.git_workflow_state ≡ some "committed")
    × (ci_required accepted ≡ true
        → (sha : String) × (git_target_commit accepted ≡ some sha)
          × (accepted.ci_validated_commit ≡ some sha)
          × (accepted.ci_promotion_eligible ≡ some true))
unfolding determine_allowed_handoffs handoffs_after_tests_passed approval_blocks_supervisor
    are_tests_passed git_commit_complete ci_valid_for_commit git_workspace_prepared
    promotion_complete
promotion_is_bound_to_commit_example = promotion_is_bound_to_commit accepted refl

implementation_requires_plan_example :
    ((is_review planned ≡ true) ⊎ (is_planning_valid planned ≡ true))
    × (planned.workspace_inspected ≡ true)
    × (are_tests_passed planned ≡ false)
    × (planned.implementation_attempts < get_or planned.max_implementation_attempts 2)
unfolding determine_allowed_handoffs approval_blocks_supervisor are_tests_passed
    handoffs_before_tests_passed is_planning_valid handoffs_after_inspection is_environment_prepared
    are_tests_executed WorkflowIntent-discrete
implementation_requires_plan_example = implementation_requires_plan planned refl

abbrev prepared : State
prepared = record planned { environment_prepared = true; project_created = true }

testing_requires_environment_example :
    (prepared.test_infrastructure_failed ≡ false)
    × ((is_environment_prepared prepared ≡ true) × (are_tests_executed prepared ≡ false)
        ⊎ (are_tests_executed prepared ≡ true)
          × (prepared.retry_limit_reached ≡ false)
          × (prepared.repair_attempts < 2))
unfolding determine_allowed_handoffs approval_blocks_supervisor are_tests_passed
    handoffs_before_tests_passed is_planning_valid handoffs_after_inspection is_environment_prepared
    are_tests_executed WorkflowIntent-discrete
testing_requires_environment_example = testing_requires_environment prepared refl

-- The hook asks for a decision of the model.
abbrev asking_config : Config
asking_config = record default_config { development = true; force_model_decision = true }

node_ignores_model_example :
    (t : SupervisorTarget) × (determine_allowed_handoffs planned ≡ t ∷ [])
    × (supervisor_node asking_config timed_out planned
        ≡ finish_node planned (deterministic_choice planned t))
node_ignores_model_example = node_ignores_model asking_config timed_out planned (λ e. cc) refl

node_routes_to_allowed_target_example :
    let s' = supervisor_node asking_config timed_out planned in
    (t : SupervisorTarget) × (determine_allowed_handoffs planned ≡ t ∷ [])
    × ((route_after_supervisor s' ≡ value t) × (s'.terminal_status ≡ none)
        ⊎ (route_after_supervisor s' ≡ value finalize)
          × (s'.terminal_status ≡ some TerminalStatus.supervisor_loop_detected))
node_routes_to_allowed_target_example =
    node_routes_to_allowed_target asking_config timed_out planned (λ e. cc) refl

-- An item that the node appended when it handed over to planning.
abbrev planning_item : ℕ → Handoff
planning_item n =
    record (handoff_entry start (record {
      target = planning;
      reason = "Deterministic policy selected planning.";
      source = "deterministic";
      confidence = certain;
      attempted_target = none;
      selected_target = none;
      progress_fingerprint = none;
      progress_detected = none;
    })) { sequence = number n }

abbrev stuck : State
stuck = record start { handoff_history = planning_item 1 ∷ planning_item 2 ∷ [] }

node_stops_iff_IsStagnant_example :
    ((supervisor_node default_config timed_out stuck).terminal_status
      ≡ some TerminalStatus.supervisor_loop_detected)
    ↔ IsStagnant stuck planning
        (planning_item 1)
        (planning_item 2)
        (supervisor_progress_fingerprint start)
        (supervisor_progress_fingerprint start)
unfolding determine_allowed_handoffs approval_blocks_supervisor are_tests_passed
    handoffs_before_tests_passed WorkflowIntent-discrete handoff_entry
node_stops_iff_IsStagnant_example =
    node_stops_iff_IsStagnant default_config timed_out stuck planning [] (planning_item 1)
      (planning_item 2) (supervisor_progress_fingerprint start)
      (supervisor_progress_fingerprint start) (λ e. cc) refl refl refl refl (refl, refl)
      (refl, refl)

-- Its last item is number 7.
abbrev seventh : State
seventh = record start { handoff_history = planning_item 7 ∷ [] }

-- Fifty items, the last of them number 90.
abbrev long_stuck : State
long_stuck = record start {
  handoff_history = replicate 49 (planning_item 40) ++ planning_item 90 ∷ [];
}

loop_number_falls_back_example :
    (m : ℕ) × IsNumbered (supervisor_node default_config timed_out long_stuck).handoff_history m
    × (m < 90)
unfolding determine_allowed_handoffs approval_blocks_supervisor are_tests_passed
    handoffs_before_tests_passed WorkflowIntent-discrete handoff_entry supervisor_node finish_node
    resolve_mandatory_handoff is_not_finalize force_model choose push_handoff next_sequence
    detect_supervisor_loop detect_on no_progress is_on_branch reached Fingerprint-discrete
    supervisor_progress_fingerprint
loop_number_falls_back_example =
    loop_number_falls_back default_config timed_out long_stuck 90 (λ e. cc) refl refl refl
      (planning_item 90, refl, refl) (omega arith) refl

abbrev skip_to_tests : Decision
skip_to_tests = record { target = "testing_repair"; reason = "Try."; confidence = certain }

validate_iff_example :
    (validate_supervisor_decision skip_to_tests (testing_repair ∷ []) (some prepared) ≡ []) ↔ (
      (contains "testing_repair" (map value (testing_repair ∷ [])) ≡ true)
      × (is_blank "Try." ≡ false)
      × (is_unit_confidence certain ≡ true)
      × (prepared.terminal_status ≢ none → skip_to_tests.target ≡ value finalize)
      × (skip_to_tests.target ≡ value testing_repair → prepared.environment_prepared ≡ true)
      × (skip_to_tests.target ≡ value implementation
          → (is_review prepared ≡ true) ⊎ (prepared.planning_valid ≡ true))
      × (skip_to_tests.target ≡ value planning → is_review prepared ≡ false)
      × (approval_blocks_supervisor prepared ≡ false))
validate_iff_example = validate_iff skip_to_tests (testing_repair ∷ []) prepared
