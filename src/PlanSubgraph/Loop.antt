-- ===== src/PlanSubgraph/Loop.antt =====
-- `validate_plan`, `refine_plan` and the edges of graph/subgraphs/planning/builder.py, with
-- graph/subgraphs/planning/routers.py.
use mcp_software_factory.Prelude.{
  ℕ, zero, suc, ◌+◌, Bool, false, not, ◌&&◌, Option, none, some, List, [], ◌∷◌, String, ◌==◌,
  nat_eq, get_or, leb, ltb, is_nonempty, if◌then◌else◌, text_append,
}
use Prim.Native.Char.{code}
use mcp_software_factory.Supervisor.Types.{TerminalStatus, planning_failed}
use mcp_software_factory.PlanReview.Risk.{PlanTask}
use mcp_software_factory.PlanReview.Analysis.{RiskAnalysis, analyze_plan_risk}
use mcp_software_factory.PlanReview.Policy.{PlanningApprovalStatus, not_required, ReviewState}
use mcp_software_factory.PlanSubgraph.Gate.{
  PlanQuality, QualityGate, GateDecision, continues, refines, evaluate_quality_gate,
}

-- A plan: the analysis and the criteria are a text.
pub record Plan : Type 0 where
  pub analysis : String
  pub tasks : List PlanTask

-- What `validate_planning_contract` gives: no plan and an error, or the plan in its normal form with
-- the errors of its validation.
pub data Contract : Type 0 where
  malformed : String → Contract
  checked : Plan → List String → Contract

-- What the service gives for a refinement: a plan, or a `PlanningDomainError`.
pub data Refinement : Type 0 where
  refined : Plan → Refinement
  domain_error : String → String → Refinement

-- `PlanningState`, but for what is only shown and for what the knowledge of the planner brings.
pub record PlanningState : Type 0 where
  pub plan : Plan
  pub valid : Bool
  pub errors : List String
  pub attempts : ℕ
  pub max_attempts : Option ℕ
  pub failure_reason : Option String
  pub risk : Option RiskAnalysis
  pub quality_score : Option ℕ
  pub gate_decision : Option GateDecision
  pub refinement_required : Bool
  pub refinement_attempts : ℕ
  pub approval_required : Bool
  pub approval_id : Option String
  pub approval_status : Option PlanningApprovalStatus
  pub approval_fingerprint : Option String
  pub terminal_status : Option TerminalStatus
  pub failure_type : Option String

-- The validation of the contract and of the executability, the quality of a plan and the
-- paths in a text are parameters.
pub record Checks : Type 0 where
  pub contract : Plan → PlanningState → Contract
  pub executability : Plan → PlanningState → List String
  pub quality : Plan → PlanningState → PlanQuality
  pub paths : String → List String

abbrev pub limit : PlanningState → ℕ
limit s = get_or s.max_attempts 2

-- `error.split(":", 1)[0]`
unfoldable pub error_code : String → String
error_code String.[] = ""
error_code (String.◌∷◌ c s) =
    let rest = error_code s in if code c == 58 then "" else String.◌∷◌ c rest

-- `_planning_error_codes(errors)[0] if errors else None`
abbrev pub first_code : List String → Option String
first_code [] = none
first_code (e ∷ es) = some (error_code e)

-- The state with the defaults of the updates, where risk and quality are not reached.
abbrev pub without_review : PlanningState → PlanningState
without_review s = record s {
  risk = none;
  quality_score = none;
  gate_decision = none;
  refinement_required = false;
}

abbrev pub counted : GateDecision → ℕ → ℕ
counted refines n = n + 1
counted _ n = n

abbrev pub gate_errors : QualityGate → List String
gate_errors g = elim g.decision [ continues ↦ [] | _ ↦ g.reason ∷ [] ]

-- The state and the errors behind the gate.
abbrev pub gated :
    RiskAnalysis → PlanQuality → QualityGate → PlanningState → PlanningState × List String
gated risk quality gate s = (
  record s {
    risk = some risk;
    quality_score = some quality.score;
    gate_decision = some gate.decision;
    refinement_required = gate.refinement_required;
    refinement_attempts = counted gate.decision s.refinement_attempts;
  },
  gate_errors gate,
)

module _ (k : Checks) where
  -- Behind a contract without errors.
  abbrev pub assessed : Plan → PlanningState → PlanningState × List String
  assessed p s =
      let risk = analyze_plan_risk k.paths p.tasks in
      let q = k.quality p (record s { risk = some risk }) in
      if is_nonempty (k.executability p s)
      then (without_review s, k.executability p s)
      else gated risk q (evaluate_quality_gate q s.attempts (limit s)) s

  abbrev pub examined : Contract → PlanningState → PlanningState × List String
  examined (malformed e) s = (without_review s, e ∷ [])
  examined (checked p es) s =
      if is_nonempty es
      then (without_review (record s { plan = p }), es)
      else assessed p (record s { plan = p })

-- The updates with the errors.
abbrev pub concluded : PlanningState × List String → PlanningState
concluded (s, errors) =
    let t = record s {
      valid = not (is_nonempty errors);
      errors = errors;
      failure_reason = first_code errors;
    } in
    if is_nonempty errors && leb (limit s) s.attempts
    then record t {
      terminal_status = some planning_failed;
      failure_type = some "planning_validation_failed";
    }
    else t

unfoldable pub validate_plan : Checks → PlanningState → PlanningState
unfolding error_code evaluate_quality_gate analyze_plan_risk
validate_plan k s = concluded (examined k (k.contract s.plan s) s)

unfoldable pub refine_plan : Refinement → PlanningState → PlanningState
refine_plan (refined p) s = record s {
  plan = p;
  attempts = s.attempts + 1;
  failure_reason = none;
  approval_required = false;
  approval_id = none;
  approval_status = some not_required;
  approval_fingerprint = none;
}
refine_plan (domain_error c message) s = record s {
  attempts = s.attempts + 1;
  errors = text_append c (text_append ": " message) ∷ [];
  failure_reason = some c;
}

pub data PlanningRoute : Type 0 where
  to_valid to_refine to_failed : PlanningRoute

unfoldable pub route_after_plan_validation : PlanningState → PlanningRoute
route_after_plan_validation s =
    if s.valid then to_valid else (if ltb s.attempts (limit s) then to_refine else to_failed)

-- `from_planning_output`, merged into the state of the workflow
abbrev pub from_planning : PlanningState → ReviewState → ReviewState
from_planning z r = record r {
  planning_valid = z.valid;
  payload = record r.payload { risk = z.risk; analysis = z.plan.analysis; tasks = z.plan.tasks };
  approval_required = z.approval_required;
  approval_id = z.approval_id;
  approval_status = z.approval_status;
  approval_fingerprint = z.approval_fingerprint;
  terminal_status = z.terminal_status;
  failure_type = z.failure_type;
}

-- The nodes from `validate_plan` on; `none` is that the fuel ran out.
unfoldable pub plan_until :
    ℕ → Checks → (PlanningState → Refinement) → PlanningState → Option PlanningState
unfolding validate_plan route_after_plan_validation refine_plan
plan_until zero k service s = none
plan_until (suc fuel) k service s =
    let t = validate_plan k s in
    let again = plan_until fuel k service (refine_plan (service t) t) in
    elim (route_after_plan_validation t) [
      | to_valid ↦ some t
      | to_refine ↦ again
      | to_failed ↦ some t
    ]
