-- ===== src/Supervisor/Fingerprint.antt =====
-- `supervisor_progress_fingerprint` of graph/supervisor/guards.py.
use mcp_software_factory.Prelude.{
  String, some, Eq, discrete_eq, string_eq, get_or, or_else, ℕ_discrete, string_discrete,
}
use mcp_software_factory.Supervisor.State.{State, Fingerprint}

-- `str(a or b or "intent")`
unfoldable pub fingerprint_stage : State → String
fingerprint_stage s =
    get_or (or_else (or_else s.last_completed_stage s.last_completed_node) (some "intent")) "intent"

unfoldable pub supervisor_progress_fingerprint : State → Fingerprint
unfolding fingerprint_stage
supervisor_progress_fingerprint s = record {
  current_stage = fingerprint_stage s;
  planning_valid = get_or s.planning_result.valid s.planning_valid;
  planning_attempts = get_or s.planning_result.attempts s.planning_attempts;
  workspace_inspected = s.workspace_inspected;
  implementation_valid = get_or s.implementation_result.valid s.implementation_valid;
  implementation_attempts = get_or s.implementation_result.attempts s.implementation_attempts;
  project_created = get_or s.implementation_result.project_created s.project_created;
  environment_prepared = get_or s.implementation_result.environment_prepared s.environment_prepared;
  tests_executed = get_or s.testing_result.tests_executed s.tests_executed;
  tests_passed = get_or s.testing_result.tests_passed s.tests_passed;
  repair_phase = get_or s.testing_result.repair_phase (get_or s.repair_phase "not_started");
  repair_attempts = get_or s.testing_result.repair_attempts s.repair_attempts;
  git_workflow_state = get_or s.git_workflow_state "not_initialized";
  git_commit_status = s.git_commit_status;
  ci_state = get_or s.ci_state "not_started";
  ci_validated_commit = s.ci_validated_commit;
}

unfoldable pub Fingerprint-discrete : Discrete Fingerprint
unfolding string_discrete ℕ_discrete
Fingerprint-discrete = hlevel (ℕ_discrete, string_discrete)

instance abbrev pub fingerprint_eq : Eq Fingerprint
fingerprint_eq = discrete_eq Fingerprint-discrete
