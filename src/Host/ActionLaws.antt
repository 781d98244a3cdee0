-- ===== src/Host/ActionLaws.antt =====
-- How the next action, the allowed tools and the validation of a call fit together.
use mcp_software_factory.Prelude.{
  String, ◌≡◌, sym, ap, ◌∙◌, Bool-cases, inl, inr, Bool, not, is_nonempty, true, false, ◌&&◌, ◌||◌,
  Option, some, List, ◌==◌, string_eq, option_eq, contains, contains-cons_iff, is_some, or_else,
  get_or, arith, if◌then◌else◌,
}
use mcp_software_factory.Host.Types.{
  Tool, create_project_structure, read_file, update_project_files, run_tests,
  prepare_test_environment, tool_eq, Tool-discrete, read_related_source, apply_fix, ExecutionState,
  Arguments, Payload, ToolExecutionResult,
}
use mcp_software_factory.Host.Paths.{Libraries, normalize_pytest_path, infer_related_source_file}
use mcp_software_factory.Host.Actions.{determine_next_action, get_allowed_tools, repair_tool}
use mcp_software_factory.Host.Validation.{
  Verdict, accepted, rejected, reads_test, first_file, check_expected, validate_read,
  validate_update, project_name_of, ◌orelse◌, reject_if, is_completed_step,
  is_blocked_after_infra_failure, is_missing, conflicts, is_repair, validate_call_against_state,
  validate_repair, validate_repair_tool, validate_creation,
}
use mcp_software_factory.Host.Update.{
  update_execution_state, record_read, record_result, insert_text,
}
use mcp_software_factory.Host.RepairLaws.{noted, noted_phase}

module _ (w : Tool → Bool) (s : ExecutionState) (t : Tool)
    (allowed : contains t (get_allowed_tools w s) ≡ true) where
  allowed_is_open : is_completed_step s t ≡ false
  unfolding get_allowed_tools Tool-discrete
  allowed_is_open = ground arith

  allowed_is_unblocked : (s.test_infrastructure_failed && is_blocked_after_infra_failure t) ≡ false
  unfolding get_allowed_tools
  allowed_is_unblocked = ground arith

  allowed_is_unprepared : (t == prepare_test_environment && s.environment_prepared) ≡ false
  unfolding get_allowed_tools Tool-discrete
  allowed_is_unprepared = ground arith

  allowed_is_expected :
      is_repair (determine_next_action s) ≡ true → (some t == repair_tool s.repair_phase) ≡ true
  unfolding get_allowed_tools Tool-discrete
  allowed_is_expected h = ground arith

  allowed_is_uncreated :
      (t == create_project_structure && (s.project_created || s.project_exists)) ≡ false
  unfolding get_allowed_tools Tool-discrete
  allowed_is_uncreated = ground arith

-- The failing test is to be read, and none is known.
abbrev pub lacks_failing_test : ExecutionState → Tool → Bool
lacks_failing_test s t =
    is_repair (determine_next_action s)
    && t == read_file
    && reads_test s.repair_phase
    && not (is_nonempty s.failing_test_files)

-- The checks that compare the arguments with what the state expects of them. They raise where the
-- expected file has no path in the project.
abbrev pub check_read_arguments : Libraries → ExecutionState → Arguments → Verdict
check_read_arguments l s a = check_expected l s a (
    if reads_test s.repair_phase
    then first_file s.failing_test_files
    else infer_related_source_file l s)

abbrev pub check_repair_arguments : Libraries → ExecutionState → Tool → Arguments → Verdict
check_repair_arguments l s read_file a = check_read_arguments l s a
check_repair_arguments l s update_project_files a = validate_update l s a
check_repair_arguments l s run_tests a =
    reject_if (conflicts (project_name_of s) a) "argument_conflict"
check_repair_arguments l s _ a = accepted

abbrev pub check_creation_arguments : (Arguments → Bool) → ExecutionState → Arguments → Verdict
check_creation_arguments policy s a =
    reject_if (is_missing a.files) "invalid_tool_arguments"
    orelse reject_if (conflicts s.requested_project_name a) "argument_conflict"
    orelse reject_if (policy a) "dependency_policy_violation"

abbrev pub check_arguments :
    Libraries → (Arguments → Bool) → ExecutionState → Tool → Arguments → Verdict
check_arguments l policy s t a =
    (if is_repair (determine_next_action s) then check_repair_arguments l s t a else accepted)
    orelse (if t == create_project_structure then check_creation_arguments policy s a else accepted)

repair_of_known :
    (l : Libraries) (s : ExecutionState) (t : Tool) (a : Arguments)
    → lacks_failing_test s t ≡ false
    → (if is_repair (determine_next_action s) then validate_repair_tool l s t a else accepted)
      ≡ (if is_repair (determine_next_action s) then check_repair_arguments l s t a else accepted)
unfolding validate_read Tool-discrete
repair_of_known l s t a h = ground arith

repair_of_lacking :
    (l : Libraries) (s : ExecutionState) (t : Tool) (a : Arguments)
    → lacks_failing_test s t ≡ true
    → (if is_repair (determine_next_action s) then validate_repair_tool l s t a else accepted)
      ≡ rejected "missing_failing_test_file"
unfolding validate_read Tool-discrete
repair_of_lacking l s t a h = ground arith

repair_of_expected :
    (l : Libraries) (s : ExecutionState) (t : Tool) (a : Arguments)
    → (is_repair (determine_next_action s) ≡ true → (some t == repair_tool s.repair_phase) ≡ true)
    → (if is_repair (determine_next_action s) then validate_repair l s t a else accepted)
      ≡ (if is_repair (determine_next_action s) then validate_repair_tool l s t a else accepted)
repair_of_expected l s t a h = ground arith

creation_of_uncreated :
    (policy : Arguments → Bool) (s : ExecutionState) (t : Tool) (a : Arguments)
    → (t == create_project_structure && (s.project_created || s.project_exists)) ≡ false
    → (if t == create_project_structure then validate_creation policy s a else accepted)
      ≡ (if t == create_project_structure then check_creation_arguments policy s a else accepted)
creation_of_uncreated policy s t a h = ground arith

-- Where no failing test is known, every allowed call to read it is refused as missing. Any other
-- call of an allowed tool gets the verdict of `check_arguments`: the checks of completed steps, of a
-- failed infrastructure, of a prepared environment, of a created project and of the expected repair
-- tool do not refuse it, and what is left is the comparison of its arguments with the state and the
-- dependency policy, which raises where the expected file has no path in the project.
pub allowed_is_in_order :
    (l : Libraries) (policy : Arguments → Bool) (w : Tool → Bool) (s : ExecutionState) (t : Tool)
    (a : Arguments)
    → contains t (get_allowed_tools w s) ≡ true
    → validate_call_against_state l policy s t a ≡ (
        if lacks_failing_test s t
        then rejected "missing_failing_test_file"
        else check_arguments l policy s t a)
unfolding validate_call_against_state
allowed_is_in_order l policy w s t a k =
    let creation : Verdict =
      if t == create_project_structure then check_creation_arguments policy s a else accepted in
    rw
      (
        allowed_is_open w s t k,
        allowed_is_unblocked w s t k,
        allowed_is_unprepared w s t k,
        repair_of_expected l s t a (allowed_is_expected w s t k),
        creation_of_uncreated policy s t a (allowed_is_uncreated w s t k),
      )
      (elim (Bool-cases (lacks_failing_test s t)) [
        | inl h ↦
            ap (λ (v : Verdict). v orelse creation) (repair_of_lacking l s t a h)
            ∙ sym (chosen (lacks_failing_test s t) _ _ h)
        | inr h ↦
            ap (λ (v : Verdict). v orelse creation) (repair_of_known l s t a h)
            ∙ sym (not_chosen (lacks_failing_test s t) _ _ h)
      ])
  where
    chosen : (b : Bool) (u v : Verdict) → b ≡ true → (if b then u else v) ≡ u
    chosen b u v h = rw h

    not_chosen : (b : Bool) (u v : Verdict) → b ≡ false → (if b then u else v) ≡ v
    not_chosen b u v h = rw h

-- Tests are run only in an inspected workspace, for a project that exists, with a known framework
-- and a prepared environment, and only while they have not passed and nothing ended the work.
pub allowed_tests_are_prepared :
    (w : Tool → Bool) (s : ExecutionState)
    → contains run_tests (get_allowed_tools w s) ≡ true
    → (s.workspace_inspected ≡ true)
      × ((s.project_created || s.project_exists) ≡ true)
      × (is_some s.detected_test_framework ≡ true)
      × (s.environment_prepared ≡ true)
      × (s.tests_passed ≡ false)
      × (s.test_infrastructure_failed ≡ false)
      × (s.retry_limit_reached ≡ false)
      × (s.user_cancelled ≡ false)
unfolding get_allowed_tools Tool-discrete
allowed_tests_are_prepared w s k = ground arith

contains_insert : (t : String) (ts : List String) → contains t (insert_text t ts) ≡ true
contains_insert t ts = ground (arith, contains-cons_iff t t ts)

record_read_moves_on :
    (l : Libraries) (a : Arguments) (p : Payload) (s : ExecutionState)
    → s.repair_phase ≡ read_related_source
    → ((record_read l a p s).repair_phase ≡ apply_fix)
      × (contains
            (normalize_pytest_path l (get_or (or_else p.path a.relative_path) ""))
            (record_read l a p s).files_read_during_repair
          ≡ true)
unfolding record_read
record_read_moves_on l a p s q = (
  ground arith,
  ground (
    arith,
    contains_insert (normalize_pytest_path l (get_or (or_else p.path a.relative_path) ""))
        s.files_read_during_repair,
  ),
)

update_of_read :
    (l : Libraries) (w : Tool → Bool) (a : Arguments) (r : ToolExecutionResult) (p : Payload)
    (s : ExecutionState)
    → r.payload ≡ some p
    → update_execution_state l w read_file a r s ≡ record_read l a p (noted w read_file r s)
unfolding update_execution_state record_result
update_of_read l w a r p s e =
    ap (λ (o : Option Payload). record_result l read_file a r o (noted w read_file r s)) e

-- In the phase that reads the related source, any answer with a payload moves the repair on to the
-- fix and counts its file as read, an error or a reported failure too.
pub failed_read_moves_on :
    (l : Libraries) (w : Tool → Bool) (a : Arguments) (r : ToolExecutionResult) (p : Payload)
    (s : ExecutionState)
    → r.payload ≡ some p
    → s.repair_phase ≡ read_related_source
    → let s' = update_execution_state l w read_file a r s in
      (s'.repair_phase ≡ apply_fix)
      × (contains
            (normalize_pytest_path l (get_or (or_else p.path a.relative_path) ""))
            s'.files_read_during_repair
          ≡ true)
failed_read_moves_on l w a r p s e q =
    let path = normalize_pytest_path l (get_or (or_else p.path a.relative_path) "") in
    let at = update_of_read l w a r p s e in
    let (moved, kept) =
      record_read_moves_on l a p (noted w read_file r s) (noted_phase w read_file r s ∙ q) in
    (
      ap ExecutionState.repair_phase at ∙ moved,
      ap (λ (x : ExecutionState). contains path x.files_read_during_repair) at ∙ kept,
    )
