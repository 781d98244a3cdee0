-- ===== src/Ci/Gates.antt =====
-- `build_ci_gate_definitions` and `evaluate_ci_gates` of api/services/ci_service.py.
use mcp_software_factory.Prelude.{
  ℕ, String, Bool, true, false, not, ◌&&◌, ◌||◌, Option, none, some, List, [], ◌∷◌, ◌==◌, nat_eq,
  string_eq, leb, length, keep, any, map, truthy, is_nonempty, text_append, if◌then◌else◌,
}
use mcp_software_factory.Ci.Types.{
  StepStatus, GateType, GateStatus, Decision, PipelineStep, Pipeline, StepRun, GateDefinition,
  GateResult, GateSummary, GateEvaluation, GatePolicy, step_type, gate_text, step_type_eq,
  step_status_eq, gate_status_eq,
}

abbrev pub steps_of_type : Pipeline → GateType → List PipelineStep
steps_of_type pipeline t = keep (λ s. s.type == step_type t) pipeline.steps

abbrev pub is_build_or_test : GateType → Bool
is_build_or_test GateType.build = true
is_build_or_test GateType.test = true
is_build_or_test _ = false

-- the local function `gate`
unfoldable pub gate : Pipeline → GatePolicy → GateType → Bool → GateDefinition
gate pipeline policy t blocking =
    let steps = steps_of_type pipeline t in
    let required = is_nonempty steps && (is_build_or_test t || any PipelineStep.required steps) in
    record {
      gate_id = text_append (gate_text t) "-gate";
      type = t;
      required = required;
      blocking = blocking && required;
      source_step_types = t ∷ [];
      minimum_success_count = if is_nonempty steps && required then some (length steps) else none;
      allow_skipped = false;
      policy_version = policy.version;
    }

unfoldable pub build_ci_gate_definitions : Pipeline → GatePolicy → List GateDefinition
unfolding gate
build_ci_gate_definitions pipeline policy =
    gate pipeline policy GateType.build policy.build_blocking
    ∷ gate pipeline policy GateType.test policy.test_blocking
    ∷ gate pipeline policy GateType.lint policy.lint_blocking
    ∷ gate pipeline policy GateType.packaging policy.package_blocking
    ∷ []

abbrev pub is_source : GateDefinition → StepRun → Bool
is_source d s = any (λ t. s.type == step_type t) d.source_step_types

abbrev pub has_failed : StepStatus → Bool
has_failed StepStatus.failed = true
has_failed StepStatus.timed_out = true
has_failed StepStatus.cancelled = true
has_failed StepStatus.interrupted = true
has_failed _ = false

-- `minimum_success_count or len(sources)`: 0 counts as missing
abbrev pub minimum_of : Option ℕ → ℕ → ℕ
minimum_of none n = n
minimum_of (some m) n = if m == 0 then n else m

abbrev pub gate_failure : GateType → Option String
gate_failure t = some (text_append "ci_" (text_append (gate_text t) "_gate_failed"))

abbrev pub gate_result :
    GateDefinition → List StepRun → GateStatus → String → Option String → GateResult
gate_result d sources status reason failure_type = record {
  gate_id = d.gate_id;
  type = d.type;
  status = status;
  required = d.required;
  blocking = d.blocking;
  reason = reason;
  source_steps = map StepRun.step_id sources;
  failure_type = failure_type;
}

abbrev pub passed_count : List StepRun → ℕ
passed_count sources = length (keep (λ s. s.status == StepStatus.passed) sources)

-- A gate without enough passed steps, of which none has failed.
unfoldable pub gate_without_failure : GateDefinition → List StepRun → GateResult
gate_without_failure d sources =
    if d.required && d.blocking
    then gate_result d sources GateStatus.failed "minimum_success_count_not_met"
        (gate_failure d.type)
    else (if d.required
        then gate_result d sources GateStatus.warning "minimum_success_count_not_met"
            (gate_failure d.type)
        else gate_result d sources GateStatus.not_applicable "minimum_success_count_not_met" none)

-- The three branches for sources that may count.
unfoldable pub count_gate : GateDefinition → List StepRun → GateResult
unfolding gate_without_failure
count_gate d sources =
    if leb (minimum_of d.minimum_success_count (length sources)) (passed_count sources)
    then gate_result d sources GateStatus.passed "minimum_success_count_met" none
    else (if any (λ s. has_failed s.status) sources
        then (if d.blocking
            then gate_result d sources GateStatus.failed "blocking_source_step_failed"
                (gate_failure d.type)
            else gate_result d sources GateStatus.warning "non_blocking_source_step_failed"
                (gate_failure d.type))
        else gate_without_failure d sources)

-- The body of the loop over the definitions.
unfoldable pub evaluate_gate : GateDefinition → List StepRun → GateResult
unfolding count_gate
evaluate_gate d results =
    let sources = keep (is_source d) results in
    if not (is_nonempty sources)
    then gate_result d [] GateStatus.not_applicable "no_source_steps" none
    else (if any (λ s. s.status == StepStatus.skipped) sources && not d.allow_skipped
        then gate_result d sources GateStatus.skipped "source_step_skipped" none
        else count_gate d sources)

unfoldable pub evaluate_each : List GateDefinition → List StepRun → List GateResult
unfolding evaluate_gate
evaluate_each [] results = []
evaluate_each (d ∷ ds) results = evaluate_gate d results ∷ evaluate_each ds results

abbrev pub ids_with : GateStatus → List GateResult → List String
ids_with status gates = map GateResult.gate_id (keep (λ g. g.status == status) gates)

abbrev pub count_with : GateStatus → List GateResult → ℕ
count_with status gates = length (keep (λ g. g.status == status) gates)

abbrev pub is_blocking_failure : GateResult → Bool
is_blocking_failure g = g.status == GateStatus.failed && g.blocking

-- `next((gate.gate_id for …), None)`
unfoldable pub first_blocking_gate : List GateResult → Option String
first_blocking_gate [] = none
first_blocking_gate (g ∷ gs) =
    let later = first_blocking_gate gs in if is_blocking_failure g then some g.gate_id else later

-- the failure type of the first gate with this id
unfoldable pub failure_of_gate : Option String → List GateResult → Option String
failure_of_gate none gs = none
failure_of_gate (some id) [] = none
failure_of_gate (some id) (g ∷ gs) =
    let later = failure_of_gate (some id) gs in if g.gate_id == id then g.failure_type else later

unfoldable pub decide_gates : List GateResult → Decision
unfolding first_blocking_gate
decide_gates gates =
    if truthy (first_blocking_gate gates)
    then Decision.rejected
    else (if is_nonempty (ids_with GateStatus.warning gates)
        then Decision.accepted_with_warnings
        else Decision.accepted)

abbrev pub summarize : List GateResult → GateSummary
summarize gates = record {
  total = length gates;
  passed = count_with GateStatus.passed gates;
  failed = count_with GateStatus.failed gates;
  warning = count_with GateStatus.warning gates;
  skipped = count_with GateStatus.skipped gates;
  not_applicable = count_with GateStatus.not_applicable gates;
  blocking_failed_count = length (keep is_blocking_failure gates);
}

-- `gate_definitions or build_ci_gate_definitions(…)`
abbrev pub definitions_or_built : Pipeline → GatePolicy → List GateDefinition → List GateDefinition
definitions_or_built pipeline policy ds =
    if is_nonempty ds then ds else build_ci_gate_definitions pipeline policy

unfoldable pub evaluate_ci_gates :
    Pipeline → List StepRun → GatePolicy → List GateDefinition → GateEvaluation
unfolding evaluate_each decide_gates failure_of_gate
evaluate_ci_gates pipeline results policy definitions =
    let gates = evaluate_each (definitions_or_built pipeline policy definitions) results in
    record {
      policy_version = policy.version;
      gates = gates;
      decision = decide_gates gates;
      failed_gates = ids_with GateStatus.failed gates;
      warning_gates = ids_with GateStatus.warning gates;
      blocking_gate = first_blocking_gate gates;
      failure_type = failure_of_gate (first_blocking_gate gates) gates;
      summary = summarize gates;
    }
