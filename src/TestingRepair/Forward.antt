-- ===== src/TestingRepair/Forward.antt =====
-- No call takes a repair back, and the phase of the rerun is entered by counting one.
use mcp_software_factory.Prelude.{
  ◌≤◌, ◌<◌, String, ◌≡◌, refl, sym, ◌∙◌, ap, Bool, true, false, Option, none, some, List, ◌==◌,
  string_eq, option_eq, bool_eq, truthy, or_else, arith, if◌then◌else◌,
}
use mcp_software_factory.Host.Types.{
  Tool, analyze_requirement, create_tasks, list_files, create_project_structure,
  update_project_files, detect_test_framework, prepare_test_environment, run_tests, git_init,
  other_testing, other, read_file, tool_eq, RepairPhase-discrete, repair_phase_eq, apply_fix,
  rerun_tests, ExecutionState, Arguments, Payload, Entry, ToolExecutionResult,
}
use mcp_software_factory.Host.Paths.{Libraries}
use mcp_software_factory.Host.Update.{
  record_read, record_fix, record_tests, record_result, record_creation, record_environment,
  look_for_project, update_execution_state, note_pass, note_exit, note_test_timeout, mark_done,
  note_failure, log_tool, succeeds,
}
use mcp_software_factory.Host.RepairLaws.{noted, noted_phase}

-- From one state to another, the repairs are not fewer, more where a fix led to the rerun, and a
-- failure is not forgotten.
pub record IsForward (s t : ExecutionState) : Type 0 where
  pub grows : s.repair_attempts ≤ t.repair_attempts
  pub counts :
      s.repair_phase ≡ apply_fix
      → t.repair_phase ≡ rerun_tests
      → s.repair_attempts < t.repair_attempts
  pub fails : truthy s.failure_type ≡ true → truthy t.failure_type ≡ true

-- Behind a change that keeps both.
after-IsForward :
    (s t u : ExecutionState)
    → s.repair_attempts ≡ t.repair_attempts
    → s.repair_phase ≡ t.repair_phase
    → (truthy s.failure_type ≡ true → truthy t.failure_type ≡ true)
    → IsForward t u
    → IsForward s u
after-IsForward s t u a p k f = record {
  grows = omega (arith, a, f.grows);
  counts = λ q r. omega (arith, a, f.counts (sym p ∙ q) r);
  fails = λ h. f.fails (k h);
}

if-IsForward :
    (b : Bool) (s t u : ExecutionState)
    → IsForward s t
    → IsForward s u
    → IsForward s (if b then t else u)
if-IsForward true s t u p q = p
if-IsForward false s t u p q = q

record_read-IsForward :
    (l : Libraries) (a : Arguments) (p : Payload) (s : ExecutionState)
    → IsForward s (record_read l a p s)
unfolding record_read
record_read-IsForward l a p s = ground arith

record_fix-IsForward :
    (l : Libraries) (a : Arguments) (s : ExecutionState) → IsForward s (record_fix l a s)
unfolding record_fix RepairPhase-discrete
record_fix-IsForward l a s = ground arith

-- A change that makes no repair and does not enter the rerun.
pub record IsIdle (s t : ExecutionState) : Type 0 where
  pub same : t.repair_attempts ≡ s.repair_attempts
  pub enters : t.repair_phase ≡ rerun_tests → s.repair_phase ≡ rerun_tests
  pub remains : truthy s.failure_type ≡ true → truthy t.failure_type ≡ true

IsIdle-trans : (s t u : ExecutionState) → IsIdle s t → IsIdle t u → IsIdle s u
IsIdle-trans s t u p q = record {
  same = q.same ∙ p.same;
  enters = λ r. p.enters (q.enters r);
  remains = λ h. q.remains (p.remains h);
}

pub IsIdle-IsForward : (s t : ExecutionState) → IsIdle s t → IsForward s t
IsIdle-IsForward s t i = record {
  grows = omega (arith, i.same);
  counts = λ q r. absurd (ground (arith, q, i.enters r));
  fails = i.remains;
}

if-IsIdle :
    (b : Bool) (s t u : ExecutionState) → IsIdle s t → IsIdle s u → IsIdle s (if b then t else u)
if-IsIdle true s t u p q = p
if-IsIdle false s t u p q = q

note_pass-IsIdle : (s : ExecutionState) → IsIdle s (note_pass s)
unfolding RepairPhase-discrete
note_pass-IsIdle s = ground arith

note_exit-IsIdle : (l : Libraries) (p : Payload) (s : ExecutionState) → IsIdle s (note_exit l p s)
note_exit-IsIdle l p s = ground arith

note_test_timeout-IsIdle : (p : Payload) (s : ExecutionState) → IsIdle s (note_test_timeout p s)
note_test_timeout-IsIdle p s = ground arith

ran-IsIdle :
    (passed : Bool) (s : ExecutionState)
    → IsIdle s (record s { tests_executed = true; tests_passed = passed })
ran-IsIdle passed s = ground arith

record_tests-IsIdle :
    (l : Libraries) (p : Option Payload) (s : ExecutionState) → IsIdle s (record_tests l p s)
unfolding record_tests
record_tests-IsIdle l none s = ran-IsIdle false s
record_tests-IsIdle l (some p) s =
    let passed = p.success == some true in
    let ran = record s { tests_executed = true; tests_passed = passed } in
    let start = ran-IsIdle passed s in
    let noted_pass =
      if-IsIdle passed s (note_pass ran) ran (IsIdle-trans _ _ _ start (note_pass-IsIdle ran))
        start in
    IsIdle-trans _ _ _ (IsIdle-trans _ _ _ noted_pass (note_exit-IsIdle l p _))
      (note_test_timeout-IsIdle p _)

look_for_project-IsIdle :
    (l : Libraries) (name : Option String) (es : Option (List Entry)) (s : ExecutionState)
    → IsIdle s (look_for_project l name es s)
look_for_project-IsIdle l name es s = ground arith

record_creation-IsIdle :
    (a : Arguments) (r : ToolExecutionResult) (p : Payload) (s : ExecutionState)
    → IsIdle s (record_creation a r p s)
record_creation-IsIdle a r p s = ground arith

record_environment-IsIdle :
    (r : ToolExecutionResult) (p : Option Payload) (s : ExecutionState)
    → IsIdle s (record_environment r p s)
record_environment-IsIdle r p s = ground arith

IsIdle-refl : (s : ExecutionState) → IsIdle s s
IsIdle-refl s = record { same = refl; enters = λ r. r; remains = λ h. h }

pub idle : (s : ExecutionState) → IsForward s s
idle s = IsIdle-IsForward s s (IsIdle-refl s)

record_result-IsForward :
    (l : Libraries) (t : Tool) (a : Arguments) (r : ToolExecutionResult) (p : Option Payload)
    (s : ExecutionState)
    → IsForward s (record_result l t a r p s)
unfolding record_result
record_result-IsForward l list_files a r none s = idle s
record_result-IsForward l list_files a r (some p) s =
    IsIdle-IsForward s _ (look_for_project-IsIdle l s.requested_project_name p.entries s)
record_result-IsForward l create_project_structure a r none s = idle s
record_result-IsForward l create_project_structure a r (some p) s =
    IsIdle-IsForward s _ (record_creation-IsIdle a r p s)
record_result-IsForward l read_file a r none s = idle s
record_result-IsForward l read_file a r (some p) s = record_read-IsForward l a p s
record_result-IsForward l update_project_files a r p s =
    if-IsForward (succeeds r p) s _ _ (record_fix-IsForward l a s) (idle s)
record_result-IsForward l detect_test_framework a r none s = idle s
record_result-IsForward l detect_test_framework a r (some p) s =
    if-IsForward (truthy p.framework) s (record s { detected_test_framework = p.framework }) s
      (ground arith) (idle s)
record_result-IsForward l run_tests a r p s = IsIdle-IsForward s _ (record_tests-IsIdle l p s)
record_result-IsForward l prepare_test_environment a r p s =
    IsIdle-IsForward s _ (record_environment-IsIdle r p s)
record_result-IsForward l analyze_requirement a r p s = idle s
record_result-IsForward l create_tasks a r p s = idle s
record_result-IsForward l git_init a r p s = idle s
record_result-IsForward l other_testing a r p s = idle s
record_result-IsForward l other a r p s = idle s

mark_done_attempts :
    (e : Bool) (t : Tool) (s : ExecutionState)
    → (if e then s else mark_done t s).repair_attempts ≡ s.repair_attempts
mark_done_attempts e t s = ground arith

note_failure_attempts :
    (t : Tool) (p : Option Payload) (s : ExecutionState)
    → (note_failure t p s).repair_attempts ≡ s.repair_attempts
note_failure_attempts t p s = ground arith

noted_attempts :
    (w : Tool → Bool) (t : Tool) (r : ToolExecutionResult) (s : ExecutionState)
    → (noted w t r s).repair_attempts ≡ s.repair_attempts
noted_attempts w t r s =
    note_failure_attempts t r.payload _ ∙ mark_done_attempts r.is_error t (log_tool w t s)

mark_done_failure :
    (e : Bool) (t : Tool) (s : ExecutionState)
    → (if e then s else mark_done t s).failure_type ≡ s.failure_type
mark_done_failure e t s = ground arith

pub or_else-truthy : (a b : Option String) → truthy b ≡ true → truthy (or_else a b) ≡ true
or_else-truthy a b h = ground arith

note_failure_remains :
    (t : Tool) (p : Option Payload) (s : ExecutionState)
    → truthy s.failure_type ≡ true
    → truthy (note_failure t p s).failure_type ≡ true
note_failure_remains t none s h = h
note_failure_remains t (some p) s h =
    ground (arith, or_else-truthy (or_else p.failure_type p.status) (some "unknown_failure") refl)

noted_remains :
    (w : Tool → Bool) (t : Tool) (r : ToolExecutionResult) (s : ExecutionState)
    → truthy s.failure_type ≡ true
    → truthy (noted w t r s).failure_type ≡ true
noted_remains w t r s h =
    note_failure_remains t r.payload _
      (ap truthy (mark_done_failure r.is_error t (log_tool w t s)) ∙ h)

pub update-IsForward :
    (l : Libraries) (w : Tool → Bool) (t : Tool) (a : Arguments) (r : ToolExecutionResult)
    (s : ExecutionState)
    → IsForward s (update_execution_state l w t a r s)
unfolding update_execution_state
update-IsForward l w t a r s =
    after-IsForward s (noted w t r s) _ (sym (noted_attempts w t r s)) (sym (noted_phase w t r s))
      (noted_remains w t r s) (record_result-IsForward l t a r r.payload (noted w t r s))
