-- ===== src/Ci/GateLaws.antt =====
-- What the gates promise for every pipeline, every step result and every policy.
use mcp_software_factory.Prelude.{
  ◌+◌, ◌≤◌, ◌<◌, ◌≡◌, refl, ◌↔◌, ◌⊎◌, inl, inr, Bool, true, false, not, ◌&&◌, ◌||◌, &&-cases, List,
  [], ◌∷◌, arith, length, keep, any, all, is_nonempty, truthy, ◌==◌, string_eq, eqb_iff, Bool-cases,
}
use mcp_software_factory.Ci.Types.{
  StepStatus, GateType, GateStatus, Decision, Pipeline, StepRun, GateDefinition, GateResult,
  GatePolicy, GateStatus-discrete, StepStatus-discrete, gate_status_eq, step_status_eq,
}
use mcp_software_factory.Ci.Gates.{
  steps_of_type, gate, build_ci_gate_definitions, is_source, minimum_of, passed_count,
  evaluate_gate, evaluate_each, count_with, first_blocking_gate, decide_gates, definitions_or_built,
  evaluate_ci_gates,
}

abbrev pub sources_of : GateDefinition → List StepRun → List StepRun
sources_of d results = keep (is_source d) results

-- A gate passes exactly when it has sources, none of them was skipped (or skipping is allowed), and
-- at least the minimum number of them passed.
pub evaluate_gate-passed_iff :
    (d : GateDefinition) (results : List StepRun)
    → let sources = sources_of d results in
      ((evaluate_gate d results).status ≡ GateStatus.passed) ↔ (
        (is_nonempty sources ≡ true)
        × ((any (λ s. s.status == StepStatus.skipped) sources ≡ false) ⊎ (d.allow_skipped ≡ true))
        × (minimum_of d.minimum_success_count (length sources) ≤ passed_count sources))
unfolding evaluate_gate GateStatus-discrete
evaluate_gate-passed_iff d results = ground arith

evaluate_gate-blocking :
    (d : GateDefinition) (results : List StepRun)
    → (evaluate_gate d results).status ≡ GateStatus.failed
    → (evaluate_gate d results).blocking ≡ true
unfolding evaluate_gate
evaluate_gate-blocking d results h = ground arith

evaluate_gate-gate_id :
    (d : GateDefinition) (results : List StepRun) → (evaluate_gate d results).gate_id ≡ d.gate_id
unfolding evaluate_gate
evaluate_gate-gate_id d results = ground arith

abbrev pub is_named : GateDefinition → Bool
is_named d = not (d.gate_id == "")

abbrev pub gate_failed : GateResult → Bool
gate_failed g = g.status == GateStatus.failed

-- A failed result is blocking and has a name.
abbrev rejects_if_failed : GateResult → Bool
rejects_if_failed g = not (gate_failed g) || (g.blocking && not (g.gate_id == ""))

truthy-first_blocking :
    (gs : List GateResult)
    → all rejects_if_failed gs ≡ true
    → truthy (first_blocking_gate gs) ≡ any gate_failed gs
unfolding first_blocking_gate
truthy-first_blocking [] h = refl
truthy-first_blocking (g ∷ gs) h = ground (arith, truthy-first_blocking gs)

rejects_of_parts :
    (g : GateResult)
    → (gate_failed g ≡ true → g.blocking ≡ true)
    → not (g.gate_id == "") ≡ true
    → rejects_if_failed g ≡ true
rejects_of_parts g b n = elim (Bool-cases (gate_failed g)) [
  | inl failed ↦ rw (failed, b failed, n)
  | inr fine ↦ rw fine
]

and_true : {a b : Bool} → a ≡ true → b ≡ true → (a && b) ≡ true
and_true h k = rw (h, k)

evaluate_gate-rejects :
    (d : GateDefinition) (results : List StepRun)
    → is_named d ≡ true
    → rejects_if_failed (evaluate_gate d results) ≡ true
evaluate_gate-rejects d results h =
    rejects_of_parts (evaluate_gate d results)
      (λ failed. evaluate_gate-blocking d results ((eqb_iff GateStatus-discrete _ _).0 failed))
      (rw (evaluate_gate-gate_id d results) h)

evaluate_each-rejects :
    (ds : List GateDefinition) (results : List StepRun)
    → all is_named ds ≡ true
    → all rejects_if_failed (evaluate_each ds results) ≡ true
unfolding evaluate_each
evaluate_each-rejects [] results h = refl
evaluate_each-rejects (d ∷ ds) results h =
    let (named, rest) = &&-cases (is_named d) (all is_named ds) h in
    and_true (evaluate_gate-rejects d results named) (evaluate_each-rejects ds results rest)

blocking-truthy :
    (ds : List GateDefinition) (results : List StepRun)
    → all is_named ds ≡ true
    → truthy (first_blocking_gate (evaluate_each ds results))
      ≡ any gate_failed (evaluate_each ds results)
blocking-truthy ds results h =
    truthy-first_blocking (evaluate_each ds results) (evaluate_each-rejects ds results h)

length-evaluate_each :
    (ds : List GateDefinition) (results : List StepRun)
    → length (evaluate_each ds results) ≡ length ds
unfolding evaluate_each
length-evaluate_each [] results = refl
length-evaluate_each (d ∷ ds) results = omega (arith, length-evaluate_each ds results)

counts_add_up :
    (gs : List GateResult)
    → count_with GateStatus.passed gs
        + count_with GateStatus.failed gs
        + count_with GateStatus.warning gs
        + count_with GateStatus.skipped gs
        + count_with GateStatus.not_applicable gs
      ≡ length gs
unfolding GateStatus-discrete
counts_add_up [] = refl
counts_add_up (g ∷ gs) = ground (arith, counts_add_up gs)

-- For named gate definitions, the decision is `rejected` exactly when some gate has failed; the
-- summary has one result for each definition, and its five counts add up to the total.
pub evaluate_ci_gates_rejected_iff :
    (pipeline : Pipeline) (results : List StepRun) (policy : GatePolicy) (ds : List GateDefinition)
    → all is_named (definitions_or_built pipeline policy ds) ≡ true
    → let e = evaluate_ci_gates pipeline results policy ds in
      ((e.decision ≡ Decision.rejected) ↔ (any gate_failed e.gates ≡ true))
      × (e.summary.total ≡ length (definitions_or_built pipeline policy ds))
      × (e.summary.passed + e.summary.failed + e.summary.warning + e.summary.skipped
            + e.summary.not_applicable
          ≡ e.summary.total)
unfolding evaluate_ci_gates decide_gates
evaluate_ci_gates_rejected_iff pipeline results policy ds h =
    let defs = definitions_or_built pipeline policy ds in
    (
      ground (arith, blocking-truthy defs results h),
      length-evaluate_each defs results,
      counts_add_up (evaluate_each defs results),
    )

built-is_named :
    (pipeline : Pipeline) (policy : GatePolicy)
    → all is_named (build_ci_gate_definitions pipeline policy) ≡ true
unfolding build_ci_gate_definitions
built-is_named pipeline policy = refl

test_gate_fails :
    (pipeline : Pipeline) (results : List StepRun) (policy : GatePolicy)
    → let d = gate pipeline policy GateType.test policy.test_blocking in
      policy.test_blocking ≡ true
      → is_nonempty (steps_of_type pipeline GateType.test) ≡ true
      → is_nonempty (sources_of d results) ≡ true
      → any (λ s. s.status == StepStatus.skipped) (sources_of d results) ≡ false
      → passed_count (sources_of d results) < length (steps_of_type pipeline GateType.test)
      → (evaluate_gate d results).status ≡ GateStatus.failed
unfolding gate evaluate_gate
test_gate_fails pipeline results policy b n s k c = ground arith

or_second : (a b c : Bool) → b ≡ true → (a || (b || c)) ≡ true
or_second a b c h = ground arith

second_failed :
    (pipeline : Pipeline) (results : List StepRun) (policy : GatePolicy)
    → (evaluate_gate (gate pipeline policy GateType.test policy.test_blocking) results).status
      ≡ GateStatus.failed
    → any gate_failed (evaluate_each (build_ci_gate_definitions pipeline policy) results) ≡ true
unfolding evaluate_each build_ci_gate_definitions
second_failed pipeline results policy h =
    or_second _ _ _ ((eqb_iff GateStatus-discrete _ GateStatus.failed).1 h)

-- With the definitions that the service builds, a pipeline with test steps whose test gate blocks
-- is rejected whenever a test step has a result, none was skipped, and fewer of them passed than
-- the pipeline has.
pub failed_tests_reject :
    (pipeline : Pipeline) (results : List StepRun) (policy : GatePolicy)
    → let d = gate pipeline policy GateType.test policy.test_blocking in
      policy.test_blocking ≡ true
      → is_nonempty (steps_of_type pipeline GateType.test) ≡ true
      → is_nonempty (sources_of d results) ≡ true
      → any (λ s. s.status == StepStatus.skipped) (sources_of d results) ≡ false
      → passed_count (sources_of d results) < length (steps_of_type pipeline GateType.test)
      → (evaluate_ci_gates pipeline results policy []).decision ≡ Decision.rejected
unfolding evaluate_ci_gates evaluate_each
failed_tests_reject pipeline results policy b n s k c =
    (evaluate_ci_gates_rejected_iff pipeline results policy [] (built-is_named pipeline policy)).0.1
      (second_failed pipeline results policy (test_gate_fails pipeline results policy b n s k c))

-- A gate with a skipped source is reported as skipped, whatever its other sources did, unless its
-- definition allows skipping.
pub skipped_source_hides_failure :
    (d : GateDefinition) (results : List StepRun)
    → any (λ s. s.status == StepStatus.skipped) (sources_of d results) ≡ true
    → d.allow_skipped ≡ false
    → (evaluate_gate d results).status ≡ GateStatus.skipped
unfolding evaluate_gate StepStatus-discrete
skipped_source_hides_failure d results h a = ground arith
