-- ===== src/Supervisor/Handoffs.antt =====
-- What `determine_allowed_handoffs` and its readers promise, for every state.
use mcp_software_factory.Prelude.{
  ◌≤◌, ◌<◌, String, ◌≡◌, refl, ◌≢◌, ◌↔◌, ◌⊎◌, inl, inr, Bool, true, false, none, some, List, [],
  ◌∷◌, arith, length, get_or, option_beq_iff, string_eq, Option-cases, ◌∙◌,
}
use mcp_software_factory.Supervisor.Types.{
  waiting, approval_eq, SupervisorTarget, planning, implementation, testing_repair, git_workflow,
  ci_pipeline, git_promotion, finalize,
}
use mcp_software_factory.Supervisor.State.{State}
use mcp_software_factory.Supervisor.Guards.{
  approval_blocks_supervisor, is_planning_valid, is_environment_prepared, are_tests_executed,
  are_tests_passed, git_workspace_prepared, git_commit_complete, promotion_complete, ci_required,
  git_target_commit, ci_valid_for_commit, is_review, planning_started, handoffs_after_tests_passed,
  handoffs_after_inspection, handoffs_before_tests_passed, determine_allowed_handoffs,
  resolve_mandatory_handoff, is_not_finalize,
}

length-after_tests_passed : (s : State) → length (handoffs_after_tests_passed s) ≡ 1
unfolding handoffs_after_tests_passed
length-after_tests_passed s = ground arith

length-after_inspection : (s : State) → length (handoffs_after_inspection s) ≡ 1
unfolding handoffs_after_inspection
length-after_inspection s = ground arith

length-before_tests_passed : (s : State) → length (handoffs_before_tests_passed s) ≡ 1
unfolding handoffs_before_tests_passed
length-before_tests_passed s = ground (arith, length-after_inspection s)

-- a waiting approval, as the test reads it
pub blocks_iff :
    (s : State) → (approval_blocks_supervisor s ≡ true) ↔ (s.pending_approval_status ≡ some waiting)
unfolding approval_blocks_supervisor
blocks_iff s = option_beq_iff s.pending_approval_status (some waiting)

pub length-determine :
    (s : State)
    → (length (determine_allowed_handoffs s) ≡ 1)
      ⊎ ((determine_allowed_handoffs s ≡ [])
          × (approval_blocks_supervisor s ≡ true)
          × (s.terminal_status ≡ none))
unfolding determine_allowed_handoffs
length-determine s = ground (arith, length-before_tests_passed s, length-after_tests_passed s)

-- The policy allows no target exactly when an approval is waiting and the workflow has no
-- terminal status, and never allows more than one.
pub determine_at_most_one :
    (s : State)
    → (length (determine_allowed_handoffs s) ≤ 1)
      × ((determine_allowed_handoffs s ≡ [])
          ↔ ((s.pending_approval_status ≡ some waiting) × (s.terminal_status ≡ none)))
unfolding determine_allowed_handoffs
determine_at_most_one s =
    ground (arith, length-before_tests_passed s, length-after_tests_passed s, blocks_iff s)

single_of_length :
    (ts : List SupervisorTarget) → length ts ≡ 1 → (t : SupervisorTarget) × (ts ≡ t ∷ [])
single_of_length [] h = absurd (omega arith)
single_of_length (t ∷ []) h = (t, refl)
single_of_length (t ∷ u ∷ ts) h = absurd (omega arith)

resolve_single :
    (s : State) (t : SupervisorTarget)
    → approval_blocks_supervisor s ≡ false
    → s.terminal_status ≡ none
    → resolve_mandatory_handoff s (t ∷ []) ≡ some t
unfolding resolve_mandatory_handoff is_not_finalize
resolve_single s finalize b e = ground arith
resolve_single s _ b e = ground arith

resolve_terminal :
    (s : State)
    → approval_blocks_supervisor s ≡ false
    → s.terminal_status ≢ none
    → resolve_mandatory_handoff s (determine_allowed_handoffs s) ≡ some finalize
      × (determine_allowed_handoffs s ≡ finalize ∷ [])
unfolding resolve_mandatory_handoff determine_allowed_handoffs
resolve_terminal s b e = ground arith

not_blocked :
    (s : State) → s.pending_approval_status ≢ some waiting → approval_blocks_supervisor s ≡ false
not_blocked s h = ground (arith, blocks_iff s)

length-open :
    (s : State)
    → s.pending_approval_status ≢ some waiting
    → length (determine_allowed_handoffs s) ≡ 1
length-open s h = ground (arith, length-determine s, blocks_iff s)

-- While no approval is waiting, the policy allows one target, and that target is mandatory.
pub resolve_is_total :
    (s : State)
    → s.pending_approval_status ≢ some waiting
    → (t : SupervisorTarget) × (determine_allowed_handoffs s ≡ t ∷ [])
      × (resolve_mandatory_handoff s (determine_allowed_handoffs s) ≡ some t)
resolve_is_total s h = elim (Option-cases s.terminal_status) [
  | inl e ↦
      let (t, d) = single_of_length _ (length-open s h) in
      (t, d, rw d (resolve_single s t (not_blocked s h) e))
  | inr (x, e) ↦ let (r, d) = resolve_terminal s (not_blocked s h) (λ n. cc) in (finalize, d, r)
]

-- Without a terminal status, after the tests have passed, the policy allows to finalize a workflow
-- under Git only when its workspace is prepared, the commit is complete, the CI result holds for the
-- exact commit, and a promotion that is required is complete.
pub finalize_requires_delivery :
    (s : State)
    → s.terminal_status ≡ none
    → are_tests_passed s ≡ true
    → s.git_integration_enabled ≡ true
    → determine_allowed_handoffs s ≡ finalize ∷ []
    → (git_workspace_prepared s ≡ true)
      × (git_commit_complete s ≡ true)
      × (ci_valid_for_commit s ≡ true)
      × (promotion_complete s ≡ true)
unfolding determine_allowed_handoffs handoffs_after_tests_passed
finalize_requires_delivery s e p g d = ground arith

module _ (s : State) (r : ci_required s ≡ true) (v : ci_valid_for_commit s ≡ true) where
  same : s.ci_validated_commit ≡ git_target_commit s
  unfolding ci_valid_for_commit
  same = ground (arith, option_beq_iff s.ci_validated_commit (git_target_commit s))

  unbound : git_target_commit s ≢ none
  unfolding ci_valid_for_commit
  unbound e = ground arith

  eligible : s.ci_promotion_eligible ≡ some true
  unfolding ci_valid_for_commit
  eligible = ground arith

-- what a valid CI result says of the commit
pub ci_valid-IsBound :
    (s : State)
    → ci_required s ≡ true
    → ci_valid_for_commit s ≡ true
    → (sha : String) × (git_target_commit s ≡ some sha)
      × (s.ci_validated_commit ≡ some sha)
      × (s.ci_promotion_eligible ≡ some true)
unfolding ci_valid_for_commit
ci_valid-IsBound s r v = elim (Option-cases (git_target_commit s)) [
  | inl e ↦ absurd (unbound s r v e)
  | inr (sha, e) ↦ (sha, e, same s r v ∙ e, eligible s r v)
]

after_inspection-not_late :
    (s : State)
    → (handoffs_after_inspection s ≢ git_promotion ∷ [])
      × (handoffs_after_inspection s ≢ ci_pipeline ∷ [])
unfolding handoffs_after_inspection
after_inspection-not_late s = ground arith

before_tests_passed-not_late :
    (s : State)
    → (handoffs_before_tests_passed s ≢ git_promotion ∷ [])
      × (handoffs_before_tests_passed s ≢ ci_pipeline ∷ [])
unfolding handoffs_before_tests_passed
before_tests_passed-not_late s = ground (arith, after_inspection-not_late s)

promotion_gate :
    (s : State)
    → determine_allowed_handoffs s ≡ git_promotion ∷ []
    → (are_tests_passed s ≡ true)
      × (s.git_workflow_state ≡ some "committed")
      × (ci_valid_for_commit s ≡ true)
unfolding determine_allowed_handoffs handoffs_after_tests_passed
promotion_gate s d =
    ground (
      arith,
      before_tests_passed-not_late s,
      option_beq_iff s.git_workflow_state (some "committed"),
    )

-- The promotion stage is entered only with passed tests, in the committed Git state, and, where
-- CI is required, with a CI result for exactly the commit to promote that makes it eligible.
pub promotion_is_bound_to_commit :
    (s : State)
    → determine_allowed_handoffs s ≡ git_promotion ∷ []
    → (are_tests_passed s ≡ true)
      × (s.git_workflow_state ≡ some "committed")
      × (ci_required s ≡ true
          → (sha : String) × (git_target_commit s ≡ some sha)
            × (s.ci_validated_commit ≡ some sha)
            × (s.ci_promotion_eligible ≡ some true))
promotion_is_bound_to_commit s d =
    let (passed, committed, valid) = promotion_gate s d in
    (passed, committed, λ r. ci_valid-IsBound s r valid)

-- The CI stage is entered only under Git, after the tests have passed and the commit is complete,
-- while the CI result does not hold for the commit.
pub ci_pipeline_requires_commit :
    (s : State)
    → determine_allowed_handoffs s ≡ ci_pipeline ∷ []
    → (are_tests_passed s ≡ true)
      × (s.git_integration_enabled ≡ true)
      × (git_commit_complete s ≡ true)
      × (ci_valid_for_commit s ≡ false)
unfolding determine_allowed_handoffs handoffs_after_tests_passed
ci_pipeline_requires_commit s d = ground (arith, before_tests_passed-not_late s)

-- the stages that follow passed tests
is_delivery : SupervisorTarget → Bool
is_delivery git_workflow = true
is_delivery ci_pipeline = true
is_delivery git_promotion = true
is_delivery finalize = true
is_delivery _ = false

after_tests_passed-is_delivery :
    (s : State) (t : SupervisorTarget)
    → handoffs_after_tests_passed s ≡ t ∷ []
    → is_delivery t ≡ true
unfolding handoffs_after_tests_passed is_delivery
after_tests_passed-is_delivery s t h = ground arith

determine_early :
    (s : State) (t : SupervisorTarget)
    → is_delivery t ≡ false
    → determine_allowed_handoffs s ≡ t ∷ []
    → (handoffs_before_tests_passed s ≡ t ∷ []) × (are_tests_passed s ≡ false)
unfolding determine_allowed_handoffs is_delivery
determine_early s t k d = ground (arith, after_tests_passed-is_delivery s t)

after_inspection-not_planning : (s : State) → handoffs_after_inspection s ≢ planning ∷ []
unfolding handoffs_after_inspection
after_inspection-not_planning s h = ground arith

after_inspection-implementation :
    (s : State)
    → handoffs_after_inspection s ≡ implementation ∷ []
    → s.implementation_attempts < get_or s.max_implementation_attempts 2
unfolding handoffs_after_inspection
after_inspection-implementation s h = ground arith

-- The implementation stage is entered only with a valid plan or in a review, in an inspected
-- workspace, before the tests have passed, and with an attempt left.
pub implementation_requires_plan :
    (s : State)
    → determine_allowed_handoffs s ≡ implementation ∷ []
    → ((is_review s ≡ true) ⊎ (is_planning_valid s ≡ true))
      × (s.workspace_inspected ≡ true)
      × (are_tests_passed s ≡ false)
      × (s.implementation_attempts < get_or s.max_implementation_attempts 2)
unfolding handoffs_before_tests_passed is_delivery
implementation_requires_plan s d =
    ground (arith, determine_early s implementation refl d, after_inspection-implementation s)

-- The testing stage is entered only with a prepared environment that is still untested, or with
-- tests that ran and a repair attempt left; never when the test infrastructure has failed.
pub testing_requires_environment :
    (s : State)
    → determine_allowed_handoffs s ≡ testing_repair ∷ []
    → (s.test_infrastructure_failed ≡ false)
      × ((is_environment_prepared s ≡ true) × (are_tests_executed s ≡ false)
          ⊎ (are_tests_executed s ≡ true)
            × (s.retry_limit_reached ≡ false)
            × (s.repair_attempts < 2))
unfolding determine_allowed_handoffs handoffs_after_tests_passed handoffs_before_tests_passed
    handoffs_after_inspection
testing_requires_environment s d = ground arith

-- Planning is entered only outside a review, and only with no plan begun or with an invalid plan
-- and an attempt left.
pub planning_is_bounded :
    (s : State)
    → determine_allowed_handoffs s ≡ planning ∷ []
    → (is_review s ≡ false)
      × ((planning_started s ≡ false)
          ⊎ (is_planning_valid s ≡ false)
            × (s.planning_attempts < get_or s.max_planning_attempts 2))
unfolding handoffs_before_tests_passed is_delivery
planning_is_bounded s d =
    ground (arith, determine_early s planning refl d, after_inspection-not_planning s)
