-- ===== src/Supervisor/Decide.antt =====
-- The development hooks (graph/supervisor/config.py), `SupervisorService.decide`
-- (graph/supervisor/service.py) and `validate_supervisor_decision` (graph/supervisor/validators.py).
use mcp_software_factory.Prelude.{
  String, Bool, false, not, ◌&&◌, ◌||◌, Option, none, some, List, [], ◌∷◌, ◌++◌, ◌==◌, string_eq,
  option_eq, leb, is_some, contains, truthy, dedup, is_blank, get_or, map, text_append,
  if◌then◌else◌,
}
use mcp_software_factory.Supervisor.Types.{
  SupervisorTarget, value, planning, implementation, testing_repair, finalize,
}
use mcp_software_factory.Supervisor.State.{State, Confidence}
use mcp_software_factory.Supervisor.Guards.{approval_blocks_supervisor, is_review}

-- `SupervisorDevelopmentConfig`
pub record Config : Type 0 where
  pub development : Bool
  pub force_model_decision : Bool
  pub force_timeout : Bool
  pub force_invalid_target : Bool
  pub force_target : Option String
  pub force_stagnant_loop : Bool

abbrev pub default_config : Config
default_config = record {
  development = false;
  force_model_decision = false;
  force_timeout = false;
  force_invalid_target = false;
  force_target = none;
  force_stagnant_loop = false;
}

-- The target is a text: a forced decision skips the validation of `SupervisorDecision`.
pub record Decision : Type 0 where
  pub target : String
  pub reason : String
  pub confidence : Confidence

-- What awaiting the model's client gives: the time limit, an exception with its text, an
-- incomplete response, one without a parsed output (a refusal or not), one whose output does not
-- validate, or a validated decision.
pub data Response : Type 0 where
  timed_out : Response
  raised : String → Response
  incomplete : Response
  no_output : Bool → Response
  invalid_output : Response
  parsed : SupervisorTarget → String → Confidence → Response

-- How `decide` ends: with a decision, a `TimeoutError`, or another exception with its text.
pub data Outcome : Type 0 where
  decided : Decision → Outcome
  timeout : Outcome
  failed : String → Outcome

abbrev pub certain : Confidence
certain = record { negative = false; thousandths = 1000 }

abbrev pub forced_confidence : Confidence
forced_confidence = record { negative = false; thousandths = 900 }

unfoldable pub read_response : Response → Outcome
read_response timed_out = timeout
read_response (raised message) = failed message
read_response incomplete = failed "supervisor_output_incomplete"
read_response (no_output refused) =
    failed (if refused then "supervisor_refused" else "supervisor_output_empty")
read_response invalid_output = failed "supervisor_output_invalid"
read_response (parsed t reason c) =
    decided (record { target = value t; reason = reason; confidence = c })

unfoldable pub forced_decision : String → Decision
forced_decision t = record {
  target = t;
  reason = text_append "Forced target " (text_append t " for development.");
  confidence = forced_confidence;
}

unfoldable pub decide : Config → Response → Outcome
unfolding forced_decision
decide config response =
    if config.development && config.force_timeout
    then timeout
    else (if config.development && config.force_invalid_target
        then decided (record {
          target = "deployment";
          reason = "Forced invalid target for development.";
          confidence = forced_confidence;
        })
        else (if config.development && truthy config.force_target
            then decided (forced_decision (get_or config.force_target ""))
            else read_response response))

-- `0.0 <= confidence <= 1.0`
unfoldable pub is_unit_confidence : Confidence → Bool
is_unit_confidence c = (not c.negative || leb c.thousandths 0) && leb c.thousandths 1000

abbrev pub error_if : Bool → String → List String
error_if test code = if test then code ∷ [] else []

-- The checks that need the workflow's state.
unfoldable pub state_errors : Decision → State → List String
state_errors d s =
    error_if (is_some s.terminal_status && not (d.target == value finalize))
      "supervisor_terminal_state_conflict"
    ++ (error_if (d.target == value testing_repair && not s.environment_prepared)
          "supervisor_testing_environment_missing"
        ++ (error_if (d.target == value implementation && not (is_review s) && not s.planning_valid)
              "supervisor_implementation_without_plan"
            ++ (error_if (d.target == value planning && is_review s)
                  "supervisor_planning_not_allowed_for_review"
                ++ error_if (approval_blocks_supervisor s) "supervisor_approval_pending")))

unfoldable pub decision_errors : Decision → List SupervisorTarget → List String
decision_errors d allowed =
    error_if (not (contains d.target (map value allowed))) "target_not_allowed"
    ++ (error_if (is_blank d.reason) "supervisor_reason_missing"
        ++ error_if (not (is_unit_confidence d.confidence)) "supervisor_confidence_invalid")

unfoldable pub validate_supervisor_decision :
    Decision → List SupervisorTarget → Option State → List String
unfolding decision_errors state_errors
validate_supervisor_decision d allowed none = decision_errors d allowed
validate_supervisor_decision d allowed (some s) =
    dedup (decision_errors d allowed ++ state_errors d s)
