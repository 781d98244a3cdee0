-- ===== src/Ci/ExecutionLaws.antt =====
-- What the run loop promises, and a run that its gates accept although a required step failed.
use mcp_software_factory.Prelude.{
  ℕ, ◌<◌, String, ◌≡◌, refl, sym, ap, ◌∙◌, ◌≢◌, ◌↔◌, ◌⊎◌, inl, inr, Bool, true, false, none, some,
  List, [], ◌∷◌, arith, leb, Bool-cases, text_append, ◌==◌, string_eq,
}
use mcp_software_factory.Ci.Types.{
  StepType, StepStatus, PipelineStatus, Decision, PipelineStep, Pipeline, GateDefinition,
  GateEvaluation, GatePolicy, StepStatus-discrete, StepType-discrete, GateStatus-discrete,
  Decision-discrete,
}
use mcp_software_factory.Ci.Gates.{evaluate_ci_gates, build_ci_gate_definitions}
use mcp_software_factory.Ci.Execution.{
  StepOutcome, exited, Tick, execute_step, plain_step, upsert_step, RunState, initial_run, run_step,
  time_out_at, run_steps, reconcile_gates, run_pipeline,
}

-- The status is `passed` exactly as long as no step is recorded as failed.
abbrev pub IsConsistent : RunState → Type 0
IsConsistent st = (st.final_status ≡ PipelineStatus.passed) ↔ (st.failed_step ≡ none)

run_step-IsConsistent :
    (p : Pipeline) (step : PipelineStep) (outcome : StepOutcome) (st : RunState)
    → IsConsistent st
    → IsConsistent (run_step p step outcome st)
unfolding run_step
run_step-IsConsistent p step outcome st h = ground arith

run_steps-IsConsistent :
    (p : Pipeline) (ticks : List (PipelineStep × Tick)) (st : RunState)
    → IsConsistent st
    → IsConsistent (run_steps p ticks st)
unfolding run_steps
run_steps-IsConsistent p [] st h = h
run_steps-IsConsistent p ((step, tick) ∷ ticks) st h = ground (
  arith,
  run_steps-IsConsistent p ticks (run_step p step tick.outcome st),
  run_step-IsConsistent p step tick.outcome st h,
)

-- The local variables before and after a recorded failure: none is forgotten, and only a recorded
-- failure makes the loop skip.
abbrev pub IsSound : RunState → Type 0
IsSound st =
    IsConsistent st
    × (st.failed_step ≡ none → st.failure_type ≡ none)
    × (st.skip_remaining ≡ true → st.failed_step ≢ none)

run_step-IsSound :
    (p : Pipeline) (step : PipelineStep) (outcome : StepOutcome) (st : RunState)
    → IsSound st
    → IsSound (run_step p step outcome st)
unfolding run_step
run_step-IsSound p step outcome st h = ground arith

run_steps-IsSound :
    (p : Pipeline) (ticks : List (PipelineStep × Tick)) (st : RunState)
    → IsSound st
    → IsSound (run_steps p ticks st)
unfolding run_steps
run_steps-IsSound p [] st h = h
run_steps-IsSound p ((step, tick) ∷ ticks) st h = ground (
  arith,
  run_steps-IsSound p ticks (run_step p step tick.outcome st),
  run_step-IsSound p step tick.outcome st h,
)

run_step_keeps_failure :
    (p : Pipeline) (step : PipelineStep) (outcome : StepOutcome) (st : RunState)
    → (run_step p step outcome st).failed_step ≡ none
    → st.failed_step ≡ none
unfolding run_step
run_step_keeps_failure p step outcome st h = ground arith

run_steps_keeps_failure :
    (p : Pipeline) (ticks : List (PipelineStep × Tick)) (st : RunState)
    → (run_steps p ticks st).failed_step ≡ none
    → st.failed_step ≡ none
unfolding run_steps
run_steps_keeps_failure p [] st h = h
run_steps_keeps_failure p ((step, tick) ∷ ticks) st h = ground (
  arith,
  run_steps_keeps_failure p ticks (run_step p step tick.outcome st),
  run_step_keeps_failure p step tick.outcome st,
)

-- A step that was reached in time and has passed, or that may fail without stopping the run.
abbrev pub IsFine : Pipeline → PipelineStep × Tick → Type 0
IsFine p (step, tick) =
    (tick.elapsed_ms < p.timeout_ms)
    × (((execute_step step tick.outcome).status ≡ StepStatus.passed)
        ⊎ (step.continue_on_error ≡ true) × (step.required ≡ false))

abbrev pub AllFine : Pipeline → List (PipelineStep × Tick) → Type 0
AllFine p [] = Unit
AllFine p (t ∷ ticks) = IsFine p t × AllFine p ticks

step_is_fine :
    (p : Pipeline) (step : PipelineStep) (outcome : StepOutcome) (st : RunState)
    → st.skip_remaining ≡ false
    → (run_step p step outcome st).failed_step ≡ none
    → ((execute_step step outcome).status ≡ StepStatus.passed)
      ⊎ (step.continue_on_error ≡ true) × (step.required ≡ false)
unfolding run_step StepStatus-discrete
step_is_fine p step outcome st k h = ground arith

late_step :
    (p : Pipeline) (step : PipelineStep) (tick : Tick) (ticks : List (PipelineStep × Tick))
    (st : RunState)
    → leb p.timeout_ms tick.elapsed_ms ≡ true
    → run_steps p ((step, tick) ∷ ticks) st ≡ time_out_at p step st
unfolding run_steps
late_step p step tick ticks st e = rw e

early_step :
    (p : Pipeline) (step : PipelineStep) (tick : Tick) (ticks : List (PipelineStep × Tick))
    (st : RunState)
    → leb p.timeout_ms tick.elapsed_ms ≡ false
    → run_steps p ((step, tick) ∷ ticks) st ≡ run_steps p ticks (run_step p step tick.outcome st)
unfolding run_steps
early_step p step tick ticks st e = rw e

some_not_none : {s : String} → some s ≢ none
some_not_none e = cc

lt_of_leb : (a b : ℕ) → leb a b ≡ false → b < a
lt_of_leb a b h = ground arith

not_skipping : (st : RunState) → IsSound st → st.failed_step ≡ none → st.skip_remaining ≡ false
not_skipping st s h = ground arith

reconcile_passed :
    (e : GateEvaluation) (st : RunState)
    → IsSound st
    → (reconcile_gates e st).final_status ≡ PipelineStatus.passed
    → (st.failed_step ≡ none) × (e.decision ≢ Decision.rejected)
unfolding reconcile_gates Decision-discrete
reconcile_passed e st s h = ground arith

initial_run-IsSound : (p : Pipeline) → IsSound (initial_run p)
initial_run-IsSound p = ground arith

run_steps-AllFine :
    (p : Pipeline) (ticks : List (PipelineStep × Tick)) (st : RunState)
    → IsSound st
    → (run_steps p ticks st).failed_step ≡ none
    → AllFine p ticks
unfolding run_steps
run_steps-AllFine p [] st s h = tt
run_steps-AllFine p ((step, tick) ∷ ticks) st s h =
    elim (Bool-cases (leb p.timeout_ms tick.elapsed_ms)) [
      | inl late ↦
          absurd (
            some_not_none (sym (ap RunState.failed_step (late_step p step tick ticks st late)) ∙ h))
      | inr early ↦
          let st' = run_step p step tick.outcome st in
          let h' : (run_steps p ticks st').failed_step ≡ none =
            sym (ap RunState.failed_step (early_step p step tick ticks st early)) ∙ h in
          (
            (
              lt_of_leb p.timeout_ms tick.elapsed_ms early,
              step_is_fine p step tick.outcome st
                  (not_skipping st s (
                    run_step_keeps_failure p step tick.outcome st
                      (run_steps_keeps_failure p ticks st' h')))
                  (run_steps_keeps_failure p ticks st' h'),
            ),
            run_steps-AllFine p ticks st' (run_step-IsSound p step tick.outcome st s) h',
          )
    ]

-- A run ends as `passed` only if every step was reached in time and passed, or may fail, and then
-- its gates do not reject it.
pub passed_run_is_clean :
    (p : Pipeline) (policy : GatePolicy) (gates : List GateDefinition)
    (ticks : List (PipelineStep × Tick))
    → let r = run_pipeline p policy gates ticks in
      r.state.final_status ≡ PipelineStatus.passed
      → AllFine p ticks × (r.evaluation.decision ≢ Decision.rejected)
unfolding run_pipeline
passed_run_is_clean p policy gates ticks h =
    let start = initial_run p in
    let st = run_steps p ticks start in
    let sound = run_steps-IsSound p ticks start (initial_run-IsSound p) in
    let (fine, kept) = reconcile_passed (evaluate_ci_gates p st.steps policy gates) st sound h in
    (run_steps-AllFine p ticks start (initial_run-IsSound p) fine, kept)

-- The steps that `default_pipeline` gives a .NET project.
abbrev pub dotnet_step : String → String → StepType → PipelineStep
dotnet_step id name type = record {
  step_id = id;
  name = name;
  type = type;
  required = true;
  continue_on_error = false;
}

abbrev pub dotnet_pipeline : String → ℕ → Pipeline
dotnet_pipeline version timeout_ms = record {
  version = version;
  steps =
      dotnet_step "restore" "Restore" StepType.build
      ∷ dotnet_step "build" "Build" StepType.build
      ∷ dotnet_step "test" "Test" StepType.test
      ∷ [];
  fail_fast = true;
  timeout_ms = timeout_ms;
}

abbrev pub dotnet_ticks : Tick → Tick → Tick → List (PipelineStep × Tick)
dotnet_ticks a b c =
    (dotnet_step "restore" "Restore" StepType.build, a)
    ∷ (dotnet_step "build" "Build" StepType.build, b)
    ∷ (dotnet_step "test" "Test" StepType.test, c)
    ∷ []

abbrev pub exit_tick : ℕ → String → Bool → String → String → Tick
exit_tick elapsed code context_invalid out error = record {
  elapsed_ms = elapsed;
  outcome = exited code context_invalid out error;
}

-- three steps that are reached in time
three_steps :
    (p : Pipeline) (s t u : PipelineStep) (a b c : Tick) (st : RunState)
    → leb p.timeout_ms a.elapsed_ms ≡ false
    → leb p.timeout_ms b.elapsed_ms ≡ false
    → leb p.timeout_ms c.elapsed_ms ≡ false
    → run_steps p ((s, a) ∷ (t, b) ∷ (u, c) ∷ []) st
      ≡ run_step p u c.outcome (run_step p t b.outcome (run_step p s a.outcome st))
unfolding run_steps
three_steps p s t u a b c st i j k = rw (i, j, k)

-- the state behind a `restore` step that fails
abbrev restore_failed : String → ℕ → String → String → String → RunState
restore_failed version timeout_ms code out error =
    let p = dotnet_pipeline version timeout_ms in
    let s = dotnet_step "restore" "Restore" StepType.build in
    let message =
      some (text_append "Restore" (text_append " exited with code " (text_append code "."))) in
    record (initial_run p) {
      steps =
          upsert_step
            (record (plain_step s StepStatus.failed (some "ci_build_failed") message) {
              stdout_summary = some out;
              stderr_summary = some error;
            })
            (initial_run p).steps;
      failed_step = some "restore";
      failure_type = some "ci_build_failed";
      failure_message = message;
      final_status = PipelineStatus.failed;
      skip_remaining = true;
    }

restore_fails :
    (version : String) (timeout_ms : ℕ) (code out error : String)
    → (code == "0") ≡ false
    → run_step
        (dotnet_pipeline version timeout_ms)
        (dotnet_step "restore" "Restore" StepType.build)
        (exited code false out error)
        (initial_run (dotnet_pipeline version timeout_ms))
      ≡ restore_failed version timeout_ms code out error
unfolding run_step StepStatus-discrete
restore_fails version timeout_ms code out error fails = rw fails

-- the run whose steps have been recorded
judged :
    (p : Pipeline) (policy : GatePolicy) (ticks : List (PipelineStep × Tick)) (st : RunState)
    → run_steps p ticks (initial_run p) ≡ st
    → run_pipeline p policy [] ticks ≡ record {
      state = reconcile_gates (evaluate_ci_gates p st.steps policy []) st;
      evaluation = evaluate_ci_gates p st.steps policy [];
    }
unfolding run_pipeline
judged p policy ticks st e = rw e

skips_are_accepted :
    (version : String) (timeout_ms : ℕ) (policy : GatePolicy) (code out error : String)
    (x y : StepOutcome)
    → let p = dotnet_pipeline version timeout_ms in
      let st = run_step p (dotnet_step "test" "Test" StepType.test) y (
        run_step p
          (dotnet_step "build" "Build" StepType.build)
          x
          (restore_failed version timeout_ms code out error)) in
      let e = evaluate_ci_gates p st.steps policy [] in
      ((reconcile_gates e st).final_status ≡ PipelineStatus.failed)
      × (e.decision ≡ Decision.accepted)
unfolding run_step reconcile_gates evaluate_ci_gates upsert_step build_ci_gate_definitions
    StepStatus-discrete StepType-discrete GateStatus-discrete Decision-discrete
skips_are_accepted version timeout_ms policy code out error x y = (refl, refl)

-- In a .NET pipeline that is never late, a failing `restore` step makes the run fail, and yet its
-- gates accept it, whatever their policy: the steps that were skipped behind it hide the failure.
pub failed_restore_is_accepted :
    (version : String) (timeout_ms : ℕ) (policy : GatePolicy) (elapsed : ℕ)
    (code out error : String) (b c : Tick)
    → (code == "0") ≡ false
    → leb timeout_ms elapsed ≡ false
    → leb timeout_ms b.elapsed_ms ≡ false
    → leb timeout_ms c.elapsed_ms ≡ false
    → let ticks = dotnet_ticks (exit_tick elapsed code false out error) b c in
      let r = run_pipeline (dotnet_pipeline version timeout_ms) policy [] ticks in
      (r.state.final_status ≡ PipelineStatus.failed) × (r.evaluation.decision ≡ Decision.accepted)
failed_restore_is_accepted version timeout_ms policy elapsed code out error b c fails i j k =
    let p = dotnet_pipeline version timeout_ms in
    let a = exit_tick elapsed code false out error in
    let s = dotnet_step "restore" "Restore" StepType.build in
    let t = dotnet_step "build" "Build" StepType.build in
    let u = dotnet_step "test" "Test" StepType.test in
    let e =
      three_steps p s t u a b c (initial_run p) i j k
      ∙ ap (λ (st : RunState). run_step p u c.outcome (run_step p t b.outcome st))
          (restore_fails version timeout_ms code out error fails) in
    rw (judged p policy (dotnet_ticks a b c) _ e)
      (skips_are_accepted version timeout_ms policy code out error b.outcome c.outcome)
