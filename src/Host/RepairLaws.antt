-- ===== src/Host/RepairLaws.antt =====
-- The repair loop is bounded: however the tools answer, no more than two repairs are made.
use mcp_software_factory.Prelude.{
  ◌≤◌, ◌<◌, String, ◌≡◌, refl, sym, ◌∙◌, ◌≢◌, ◌⊎◌, Bool, true, false, Option, none, some, List, [],
  ◌==◌, bool_eq, string_eq, option_eq, truthy, arith, if◌then◌else◌,
}
use mcp_software_factory.Host.Types.{
  Tool, analyze_requirement, create_tasks, list_files, create_project_structure,
  update_project_files, detect_test_framework, prepare_test_environment, run_tests, git_init,
  other_testing, other, Entry, read_file, RepairPhase, not_started, read_failing_test,
  read_related_source, apply_fix, ExecutionState, Arguments, Payload, ToolExecutionResult,
  RepairPhase-discrete,
}
use mcp_software_factory.Host.Paths.{Libraries}
use mcp_software_factory.Host.Update.{
  record_read, record_fix, record_tests, record_result, look_for_project, record_creation,
  record_environment, succeeds, note_pass, note_exit, note_test_timeout, update_execution_state,
  mark_done, note_failure, log_tool,
}

-- The phases in which a repair is on its way.
abbrev pub is_repairing : RepairPhase → Bool
is_repairing read_failing_test = true
is_repairing read_related_source = true
is_repairing apply_fix = true
is_repairing _ = false

-- What holds between the phase, the repairs made and the failing tests that are known.
pub record IsBounded (s : ExecutionState) : Type 0 where
  pub at_most : s.repair_attempts ≤ 2
  pub repairing : is_repairing s.repair_phase ≡ true → s.repair_attempts < 2
  pub idle :
      s.repair_phase ≡ not_started → (s.failing_test_files ≡ []) ⊎ (s.retry_limit_reached ≡ true)

-- A file is read while a repair is on its way, or none is needed.
record_read-IsBounded :
    (l : Libraries) (a : Arguments) (p : Payload) (s : ExecutionState)
    → (s.repair_phase ≡ not_started → s.repair_attempts < 2)
    → IsBounded s
    → IsBounded (record_read l a p s)
unfolding record_read
record_read-IsBounded l a p s h b = ground arith

record_fix-IsBounded :
    (l : Libraries) (a : Arguments) (s : ExecutionState)
    → IsBounded s
    → IsBounded (record_fix l a s)
unfolding record_fix RepairPhase-discrete
record_fix-IsBounded l a s b = ground arith

note_pass-IsBounded : (s : ExecutionState) → IsBounded s → IsBounded (note_pass s)
unfolding RepairPhase-discrete
note_pass-IsBounded s b = ground arith

note_exit-IsBounded :
    (l : Libraries) (p : Payload) (s : ExecutionState) → IsBounded s → IsBounded (note_exit l p s)
note_exit-IsBounded l p s b = ground arith

note_test_timeout-IsBounded :
    (p : Payload) (s : ExecutionState) → IsBounded s → IsBounded (note_test_timeout p s)
note_test_timeout-IsBounded p s b = ground arith

ran-IsBounded :
    (passed : Bool) (s : ExecutionState)
    → IsBounded s
    → IsBounded (record s { tests_executed = true; tests_passed = passed })
ran-IsBounded passed s b = ground arith

if-IsBounded :
    (b : Bool) (s t : ExecutionState) → IsBounded s → IsBounded t → IsBounded (if b then s else t)
if-IsBounded true s t p q = p
if-IsBounded false s t p q = q

record_tests-IsBounded :
    (l : Libraries) (p : Option Payload) (s : ExecutionState)
    → IsBounded s
    → IsBounded (record_tests l p s)
unfolding record_tests
record_tests-IsBounded l none s b = ran-IsBounded false s b
record_tests-IsBounded l (some p) s b =
    let ran = ran-IsBounded (p.success == some true) s b in
    note_test_timeout-IsBounded p _ (
      note_exit-IsBounded l p _
        (if-IsBounded (p.success == some true) _ _ (note_pass-IsBounded _ ran) ran))

-- The parts of the update that neither the phase nor the repairs depend on.
log_tool-IsBounded :
    (w : Tool → Bool) (t : Tool) (s : ExecutionState) → IsBounded s → IsBounded (log_tool w t s)
log_tool-IsBounded w t s b = ground arith

mark_done-IsBounded : (t : Tool) (s : ExecutionState) → IsBounded s → IsBounded (mark_done t s)
mark_done-IsBounded t s b = ground arith

note_failure-IsBounded :
    (t : Tool) (p : Option Payload) (s : ExecutionState)
    → IsBounded s
    → IsBounded (note_failure t p s)
note_failure-IsBounded t p s b = ground arith

-- The phase in which an executed read finds the state.
abbrev MayRead : Tool → ExecutionState → Type 0
MayRead t s = t ≡ read_file → s.repair_phase ≢ not_started

look_for_project-IsBounded :
    (l : Libraries) (name : Option String) (es : Option (List Entry)) (s : ExecutionState)
    → IsBounded s
    → IsBounded (look_for_project l name es s)
look_for_project-IsBounded l name es s b = ground arith

record_creation-IsBounded :
    (a : Arguments) (r : ToolExecutionResult) (p : Payload) (s : ExecutionState)
    → IsBounded s
    → IsBounded (record_creation a r p s)
record_creation-IsBounded a r p s b = ground arith

record_environment-IsBounded :
    (r : ToolExecutionResult) (p : Option Payload) (s : ExecutionState)
    → IsBounded s
    → IsBounded (record_environment r p s)
record_environment-IsBounded r p s b = ground arith

record_result-IsBounded :
    (l : Libraries) (t : Tool) (a : Arguments) (r : ToolExecutionResult) (p : Option Payload)
    (s : ExecutionState)
    → MayRead t s
    → IsBounded s
    → IsBounded (record_result l t a r p s)
unfolding record_result
record_result-IsBounded l list_files a r none s m b = b
record_result-IsBounded l list_files a r (some p) s m b =
    look_for_project-IsBounded l s.requested_project_name p.entries s b
record_result-IsBounded l create_project_structure a r none s m b = b
record_result-IsBounded l create_project_structure a r (some p) s m b =
    record_creation-IsBounded a r p s b
record_result-IsBounded l read_file a r none s m b = b
record_result-IsBounded l read_file a r (some p) s m b =
    record_read-IsBounded l a p s (λ q. absurd (m refl q)) b
record_result-IsBounded l update_project_files a r p s m b =
    if-IsBounded (succeeds r p) _ _ (record_fix-IsBounded l a s b) b
record_result-IsBounded l detect_test_framework a r none s m b = b
record_result-IsBounded l detect_test_framework a r (some p) s m b =
    if-IsBounded (truthy p.framework) (record s { detected_test_framework = p.framework }) s
      (ground arith) b
record_result-IsBounded l run_tests a r p s m b = record_tests-IsBounded l p s b
record_result-IsBounded l prepare_test_environment a r p s m b =
    record_environment-IsBounded r p s b
record_result-IsBounded l analyze_requirement a r p s m b = b
record_result-IsBounded l create_tasks a r p s m b = b
record_result-IsBounded l git_init a r p s m b = b
record_result-IsBounded l other_testing a r p s m b = b
record_result-IsBounded l other a r p s m b = b

-- The state that `record_result` is given.
abbrev pub noted : (Tool → Bool) → Tool → ToolExecutionResult → ExecutionState → ExecutionState
noted w t r s =
    note_failure t r.payload (if r.is_error then log_tool w t s else mark_done t (log_tool w t s))

noted-IsBounded :
    (w : Tool → Bool) (t : Tool) (r : ToolExecutionResult) (s : ExecutionState)
    → IsBounded s
    → IsBounded (noted w t r s)
noted-IsBounded w t r s b =
    let logged = log_tool-IsBounded w t s b in
    note_failure-IsBounded t r.payload _
      (if-IsBounded r.is_error _ _ logged (mark_done-IsBounded t _ logged))

mark_done_phase :
    (e : Bool) (t : Tool) (s : ExecutionState)
    → (if e then s else mark_done t s).repair_phase ≡ s.repair_phase
mark_done_phase e t s = ground arith

note_failure_phase :
    (t : Tool) (p : Option Payload) (s : ExecutionState)
    → (note_failure t p s).repair_phase ≡ s.repair_phase
note_failure_phase t p s = ground arith

pub noted_phase :
    (w : Tool → Bool) (t : Tool) (r : ToolExecutionResult) (s : ExecutionState)
    → (noted w t r s).repair_phase ≡ s.repair_phase
noted_phase w t r s =
    note_failure_phase t r.payload _ ∙ mark_done_phase r.is_error t (log_tool w t s)

pub update-IsBounded :
    (l : Libraries) (w : Tool → Bool) (t : Tool) (a : Arguments) (r : ToolExecutionResult)
    (s : ExecutionState)
    → (t ≡ read_file → s.repair_phase ≢ not_started)
    → IsBounded s
    → IsBounded (update_execution_state l w t a r s)
unfolding update_execution_state
update-IsBounded l w t a r s m b =
    record_result-IsBounded l t a r r.payload (noted w t r s)
      (λ e q. m e (sym (noted_phase w t r s) ∙ q)) (noted-IsBounded w t r s b)
