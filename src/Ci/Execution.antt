-- ===== src/Ci/Execution.antt =====
-- The loop of `CIPipelineService.run` over the steps of a pipeline, with the result that it writes
-- (api/services/ci_service.py). What the clock and the subprocess of a step give is an argument,
-- the `Tick` of the step. Events, timestamps and the row of the run are left out.
use mcp_software_factory.Prelude.{
  ℕ, String, Bool, true, false, not, ◌&&◌, ◌||◌, Option, none, some, List, [], ◌∷◌, ◌++◌, ◌==◌,
  string_eq, option_eq, leb, get_or, map, truthy, text_append, if◌then◌else◌,
}
use mcp_software_factory.Ci.Types.{
  StepType, StepStatus, PipelineStatus, Decision, PipelineStep, Pipeline, StepRun, GateDefinition,
  GateEvaluation, GatePolicy, step_status_eq, decision_eq, pipeline_status_eq,
}
use mcp_software_factory.Ci.Gates.{evaluate_ci_gates}

-- How the subprocess of a step ended: with an exit code, as a text, and its summarised output,
-- with a mark where its directory was not the project's, or by its time limit, which was the
-- pipeline's own or the step's.
pub data StepOutcome : Type 0 where
  exited : String → Bool → String → String → StepOutcome
  expired : Bool → StepOutcome

-- What a step meets: the time since the pipeline's start, and how its subprocess ends.
pub record Tick : Type 0 where
  pub elapsed_ms : ℕ
  pub outcome : StepOutcome

-- `_failure_type`
unfoldable pub failure_type_of : StepType → String
failure_type_of StepType.build = "ci_build_failed"
failure_type_of StepType.test = "ci_tests_failed"
failure_type_of StepType.lint = "ci_lint_failed"
failure_type_of StepType.packaging = "ci_package_failed"
failure_type_of StepType.custom = "ci_step_failed"

abbrev pub plain_step : PipelineStep → StepStatus → Option String → Option String → StepRun
plain_step step status failure_type failure_message = record {
  step_id = step.step_id;
  name = step.name;
  type = step.type;
  status = status;
  stdout_summary = none;
  stderr_summary = none;
  failure_type = failure_type;
  failure_message = failure_message;
}

-- The failure of a process: a wrong directory, no failure, or the step's own.
abbrev pub exit_failure : PipelineStep → Bool → Bool → Option String
exit_failure step context_invalid zero =
    if context_invalid
    then some "ci_execution_context_invalid"
    else (if zero then none else some (failure_type_of step.type))

abbrev pub exit_message : PipelineStep → Bool → String → Option String
exit_message step context_invalid code =
    if context_invalid
    then some "CI test execution root did not match the project repository root."
    else (if code == "0"
        then none
        else some (text_append step.name (text_append " exited with code " (text_append code "."))))

-- `_execute_step`, for a step whose command and directory are valid
unfoldable pub execute_step : PipelineStep → StepOutcome → StepRun
unfolding failure_type_of
execute_step step (exited code context_invalid stdout stderr) = record {
  step_id = step.step_id;
  name = step.name;
  type = step.type;
  status = if code == "0" && not context_invalid then StepStatus.passed else StepStatus.failed;
  stdout_summary = some stdout;
  stderr_summary = some stderr;
  failure_type = exit_failure step context_invalid (code == "0");
  failure_message = exit_message step context_invalid code;
}
execute_step step (expired pipeline_timeout) =
    plain_step step StepStatus.timed_out
      (some (if pipeline_timeout then "ci_pipeline_timeout" else "ci_step_timeout"))
      (some (text_append step.name " exceeded its timeout."))

-- `_upsert_step_sync` of api/services/ci_store.py: the row with this id is replaced in its place.
unfoldable pub upsert_step : StepRun → List StepRun → List StepRun
upsert_step r [] = r ∷ []
upsert_step r (x ∷ xs) =
    let later = upsert_step r xs in if x.step_id == r.step_id then r ∷ xs else x ∷ later

-- `_skip_pending`: the steps behind the first one with this id
unfoldable pub skip_pending : String → Bool → List PipelineStep → List StepRun → List StepRun
skip_pending current found [] store = store
skip_pending current found (s ∷ ss) store =
    let here = skip_pending current true ss store in
    let skipped = skip_pending current found ss (
      upsert_step
        (plain_step s StepStatus.skipped (some "ci_pipeline_timeout")
          (some "Skipped because the pipeline timed out."))
        store) in
    let before = skip_pending current found ss store in
    if s.step_id == current then here else (if found then skipped else before)

-- The store's rows of the run, and the local variables of `run`.
pub record RunState : Type 0 where
  pub steps : List StepRun
  pub failed_step : Option String
  pub failure_type : Option String
  pub failure_message : Option String
  pub warnings : List String
  pub final_status : PipelineStatus
  pub skip_remaining : Bool

abbrev pub initial_run : Pipeline → RunState
initial_run p = record {
  steps = map (λ s. plain_step s StepStatus.pending none none) p.steps;
  failed_step = none;
  failure_type = none;
  failure_message = none;
  warnings = [];
  final_status = PipelineStatus.passed;
  skip_remaining = false;
}

abbrev pub status_text : StepStatus → String
status_text StepStatus.timed_out = "timed_out"
status_text _ = "failed"

-- What the loop does with the result of an executed step.
unfoldable pub record_result : Pipeline → PipelineStep → StepRun → RunState → RunState
record_result p step r st =
    let stored = record st { steps = upsert_step r st.steps } in
    if not (r.status == StepStatus.failed || r.status == StepStatus.timed_out)
    then stored
    else (if step.continue_on_error && not step.required
        then record stored {
          warnings =
              st.warnings
              ++ text_append step.step_id (
                  text_append ":" (
                    if truthy r.failure_type
                    then get_or r.failure_type ""
                    else status_text r.status))
                ∷ [];
        }
        else record stored {
          failed_step = some step.step_id;
          failure_type = r.failure_type;
          failure_message = r.failure_message;
          final_status =
              if r.status == StepStatus.timed_out && r.failure_type == some "ci_pipeline_timeout"
              then PipelineStatus.timed_out
              else PipelineStatus.failed;
          skip_remaining = st.skip_remaining || (p.fail_fast && step.required);
        })

-- The body of the loop, for a step that is reached in time.
unfoldable pub run_step : Pipeline → PipelineStep → StepOutcome → RunState → RunState
unfolding record_result execute_step
run_step p step outcome st =
    if st.skip_remaining
    then record st {
      steps =
          upsert_step
            (plain_step step StepStatus.skipped st.failure_type
              (some "Skipped because a required previous step failed."))
            st.steps;
    }
    else record_result p step (execute_step step outcome) st

abbrev pub time_out_at : Pipeline → PipelineStep → RunState → RunState
time_out_at p step st = record st {
  steps = skip_pending step.step_id false p.steps st.steps;
  failed_step = some step.step_id;
  failure_type = some "ci_pipeline_timeout";
  failure_message = some "CI pipeline exceeded its timeout.";
  final_status = PipelineStatus.timed_out;
}

unfoldable pub run_steps : Pipeline → List (PipelineStep × Tick) → RunState → RunState
unfolding run_step
run_steps p [] st = st
run_steps p ((step, tick) ∷ rest) st =
    let later = run_steps p rest (run_step p step tick.outcome st) in
    if leb p.timeout_ms tick.elapsed_ms then time_out_at p step st else later

-- The result of a run that its gates have judged.
pub record RunResult : Type 0 where
  pub state : RunState
  pub evaluation : GateEvaluation

-- `if gate_evaluation.decision == "rejected" and not failure_type`
unfoldable pub reconcile_gates : GateEvaluation → RunState → RunState
reconcile_gates e st =
    if e.decision == Decision.rejected && not (truthy st.failure_type)
    then record st {
      final_status = PipelineStatus.failed;
      failed_step = e.blocking_gate;
      failure_type = e.failure_type;
      failure_message = some (
          text_append "Blocking CI gate failed: "
            (text_append (get_or e.blocking_gate "None") "."));
    }
    else st

unfoldable pub run_pipeline :
    Pipeline → GatePolicy → List GateDefinition → List (PipelineStep × Tick) → RunResult
unfolding reconcile_gates
run_pipeline p policy expected_gates ticks =
    let st = run_steps p ticks (initial_run p) in
    let e = evaluate_ci_gates p st.steps policy expected_gates in
    record { state = reconcile_gates e st; evaluation = e }
