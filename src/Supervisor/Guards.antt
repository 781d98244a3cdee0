-- ===== src/Supervisor/Guards.antt =====
-- The deterministic policy of graph/supervisor/guards.py: which stage may follow.
use mcp_software_factory.Prelude.{
  String, Bool, true, false, not, ◌&&◌, ◌||◌, Option, none, some, List, [], ◌∷◌, ◌==◌, nat_eq,
  string_eq, option_eq, get_or, is_some, ltb, contains, truthy, or_else, is_nonempty, if◌then◌else◌,
  option_beq, keep,
}
use mcp_software_factory.Supervisor.Types.{
  review_existing_project, waiting, SupervisorTarget, planning, inspect_workspace, implementation,
  testing_repair, git_workflow, ci_pipeline, git_promotion, finalize, target_eq, intent_eq,
  approval_eq,
}
use mcp_software_factory.Supervisor.State.{State, planning_result_present}

abbrev pub git_workspace_prepared_states : List String
git_workspace_prepared_states =
    "workspace_prepared" ∷ "ready" ∷ "awaiting_approval" ∷ "committed" ∷ "no_changes"
    ∷ "unavailable" ∷ []

abbrev pub git_final_states : List String
git_final_states = "committed" ∷ "no_changes" ∷ "unavailable" ∷ []

abbrev pub git_promotion_terminal_states : List String
git_promotion_terminal_states =
    "completed" ∷ "rejected" ∷ "conflicts" ∷ "unavailable" ∷ "already_promoted" ∷ []

-- `state.get(key) in {…}`: a missing value is in no set of texts
abbrev pub text_in : Option String → List String → Bool
text_in none xs = false
text_in (some s) xs = contains s xs

unfoldable pub approval_blocks_supervisor : State → Bool
approval_blocks_supervisor s = option_beq s.pending_approval_status (some waiting)

unfoldable pub is_planning_valid : State → Bool
is_planning_valid s = get_or s.planning_result.valid s.planning_valid

unfoldable pub is_project_available : State → Bool
is_project_available s =
    get_or s.implementation_result.project_created s.project_created || s.project_exists

unfoldable pub is_environment_prepared : State → Bool
is_environment_prepared s =
    get_or s.implementation_result.environment_prepared s.environment_prepared

unfoldable pub are_tests_executed : State → Bool
are_tests_executed s = get_or s.testing_result.tests_executed s.tests_executed

unfoldable pub are_tests_passed : State → Bool
are_tests_passed s = get_or s.testing_result.tests_passed s.tests_passed

unfoldable pub git_workspace_prepared : State → Bool
git_workspace_prepared s =
    if not s.git_integration_enabled
    then true
    else (text_in s.git_workflow_state git_workspace_prepared_states
        && truthy s.git_workflow_branch)

abbrev pub repair_commit_pending : State → Bool
repair_commit_pending s =
    truthy s.git_developer_commit_sha
    && is_nonempty s.files_updated_during_repair
    && not (truthy s.git_repair_commit_sha)

unfoldable pub git_commit_complete : State → Bool
git_commit_complete s =
    if not s.git_integration_enabled
    then true
    else (text_in s.git_workflow_state git_final_states && not (repair_commit_pending s))

unfoldable pub promotion_complete : State → Bool
promotion_complete s =
    if not s.git_promotion_required
    then true
    else text_in s.git_promotion_state ("completed" ∷ "already_promoted" ∷ [])

unfoldable pub ci_required : State → Bool
ci_required s = s.git_integration_enabled && s.ci_promotion_required

unfoldable pub git_target_commit : State → Option String
git_target_commit s =
    or_else (or_else s.git_repair_commit_sha s.git_developer_commit_sha) s.git_head_commit

unfoldable pub ci_valid_for_commit : State → Bool
unfolding ci_required git_target_commit
ci_valid_for_commit s =
    if not (ci_required s)
    then true
    else (truthy (git_target_commit s)
        && option_beq s.ci_validated_commit (git_target_commit s)
        && get_or s.ci_promotion_eligible false
        && text_in s.ci_decision ("accepted" ∷ "accepted_with_warnings" ∷ []))

-- The branch of `determine_allowed_handoffs` for a workflow whose tests have passed.
unfoldable pub handoffs_after_tests_passed : State → List SupervisorTarget
handoffs_after_tests_passed s =
    if s.git_integration_enabled && not (git_commit_complete s)
    then git_workflow ∷ []
    else (if s.git_integration_enabled && git_commit_complete s && not (ci_valid_for_commit s)
        then ci_pipeline ∷ []
        else (if s.git_auto_prepare_promotion
              && option_beq s.git_workflow_state (some "committed")
              && ci_valid_for_commit s
              && not (text_in s.git_promotion_state git_promotion_terminal_states)
            then git_promotion ∷ []
            else (if git_workspace_prepared s && git_commit_complete s && promotion_complete s
                then finalize ∷ []
                else (if s.git_integration_enabled then git_workflow ∷ [] else finalize ∷ []))))

-- Its branch from the test run on, once the workspace has been inspected.
unfoldable pub handoffs_after_inspection : State → List SupervisorTarget
handoffs_after_inspection s =
    if s.git_integration_enabled && is_project_available s && not (git_workspace_prepared s)
    then git_workflow ∷ []
    else (if is_environment_prepared s && not (are_tests_executed s)
        then testing_repair ∷ []
        else (if are_tests_executed s && not (are_tests_passed s)
            then (if not s.retry_limit_reached
                  && not s.test_infrastructure_failed
                  && ltb s.repair_attempts 2
                then testing_repair ∷ []
                else finalize ∷ [])
            else (if is_environment_prepared s
                  && truthy s.detected_test_framework
                  && is_project_available s
                then testing_repair ∷ []
                else (if ltb s.implementation_attempts (get_or s.max_implementation_attempts 2)
                    then implementation ∷ []
                    else finalize ∷ []))))

abbrev pub planning_started : State → Bool
planning_started s =
    planning_result_present s.planning_result || not (s.planning_attempts == 0) || s.planning_valid

abbrev pub is_review : State → Bool
is_review s = option_beq s.workflow_intent (some review_existing_project)

-- Its branch for a workflow whose tests have not passed.
unfoldable pub handoffs_before_tests_passed : State → List SupervisorTarget
handoffs_before_tests_passed s =
    if s.test_infrastructure_failed
    then finalize ∷ []
    else (if is_review s && not s.workspace_inspected
        then inspect_workspace ∷ []
        else (if not (is_review s) && not (planning_started s)
            then planning ∷ []
            else (if not (is_review s) && not (is_planning_valid s)
                then (if ltb s.planning_attempts (get_or s.max_planning_attempts 2)
                    then planning ∷ []
                    else finalize ∷ [])
                else (if not s.workspace_inspected
                    then inspect_workspace ∷ []
                    else handoffs_after_inspection s))))

unfoldable pub determine_allowed_handoffs : State → List SupervisorTarget
determine_allowed_handoffs s =
    if is_some s.terminal_status
    then finalize ∷ []
    else (if approval_blocks_supervisor s
        then []
        else (if are_tests_passed s
            then handoffs_after_tests_passed s
            else handoffs_before_tests_passed s))

unfoldable pub is_not_finalize : SupervisorTarget → Bool
is_not_finalize finalize = false
is_not_finalize _ = true

-- The only target that is not `finalize`, or `finalize` where it alone is allowed.
abbrev pub single_target : List SupervisorTarget → List SupervisorTarget → Option SupervisorTarget
single_target allowed (t ∷ []) = some t
single_target (finalize ∷ []) _ = some finalize
single_target _ _ = none

unfoldable pub resolve_mandatory_handoff : State → List SupervisorTarget → Option SupervisorTarget
resolve_mandatory_handoff s allowed =
    if approval_blocks_supervisor s
    then none
    else (if is_some s.terminal_status
        then some finalize
        else (if not (is_nonempty allowed)
            then none
            else single_target allowed (keep is_not_finalize allowed)))

unfoldable pub safe_fallback_target : List SupervisorTarget → SupervisorTarget
safe_fallback_target [] = finalize
safe_fallback_target (finalize ∷ ts) = safe_fallback_target ts
safe_fallback_target (t ∷ ts) = t
