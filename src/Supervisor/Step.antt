-- ===== src/Supervisor/Step.antt =====
-- The choice of a target and the whole of `supervisor_node` (graph/supervisor/service.py).
use mcp_software_factory.Prelude.{
  ℕ, ◌+◌, String, Bool, true, false, not, ◌&&◌, ◌||◌, Option, none, some, List, [], ◌∷◌, ◌++◌, ◌==◌,
  string_eq, option_eq, leb, dedup, get_or, map, text_append, length, take_chars, is_nonempty,
  if◌then◌else◌,
}
use mcp_software_factory.Supervisor.Types.{
  SupervisorTarget, value, testing_repair, finalize, parse_target, target_eq,
}
use mcp_software_factory.Supervisor.State.{State, Confidence, Handoff, number}
use mcp_software_factory.Supervisor.Guards.{
  approval_blocks_supervisor, determine_allowed_handoffs, resolve_mandatory_handoff,
  safe_fallback_target,
}
use mcp_software_factory.Supervisor.Loops.{detect_supervisor_loop}
use mcp_software_factory.Supervisor.Decide.{
  Config, Decision, Response, Outcome, decided, timeout, failed, certain, decide,
  validate_supervisor_decision,
}
use mcp_software_factory.Supervisor.Node.{
  handoff_entry, push_handoff, set_last, with_loop_failure, loop_reason,
  stagnant_loop_probe_updates, text_or,
}

-- The local variables of `supervisor_node` after the target is chosen.
pub record Choice : Type 0 where
  pub target : SupervisorTarget
  pub reason : String
  pub confidence : Confidence
  pub source : String
  pub attempted_target : Option String
  pub selected_target : Option String
  pub attempts : ℕ
  pub errors : List String
  pub invalid_decision : Bool

abbrev pub deterministic_choice : State → SupervisorTarget → Choice
deterministic_choice s t = record {
  target = t;
  reason = text_append "Deterministic policy selected " (text_append (value t) ".");
  confidence = certain;
  source = "deterministic";
  attempted_target = some (value t);
  selected_target = some (value t);
  attempts = s.supervisor_attempts;
  errors = s.supervisor_errors;
  invalid_decision = false;
}

-- The fallback of the three branches that fail, with the errors that each appends.
abbrev pub fallback_choice :
    State → List SupervisorTarget → String → Option String → List String → Bool → Choice
fallback_choice s allowed reason attempted codes invalid = record {
  target = safe_fallback_target allowed;
  reason = reason;
  confidence = certain;
  source = "fallback";
  attempted_target = attempted;
  selected_target = some (value (safe_fallback_target allowed));
  attempts = s.supervisor_attempts + 1;
  errors = s.supervisor_errors ++ codes;
  invalid_decision = invalid;
}

abbrev pub failure_choice : State → List SupervisorTarget → Option String → String → Choice
failure_choice s allowed attempted message =
    fallback_choice s allowed "Safe deterministic fallback after supervisor failure." attempted
      ("supervisor_decision_failed" ∷ take_chars 500 message ∷ []) false

-- A validated decision: `SupervisorTarget(str(target))` raises on a text that is no target.
unfoldable pub accept_decision :
    State → List SupervisorTarget → Decision → Option SupervisorTarget → Choice
accept_decision s allowed d none =
    failure_choice s allowed (some d.target)
      (text_append "'" (text_append d.target "' is not a valid SupervisorTarget"))
accept_decision s allowed d (some t) = record {
  target = t;
  reason = d.reason;
  confidence = d.confidence;
  source = "model";
  attempted_target = some d.target;
  selected_target = some (value t);
  attempts = s.supervisor_attempts;
  errors = s.supervisor_errors;
  invalid_decision = false;
}

unfoldable pub choose_by_model : State → List SupervisorTarget → Outcome → Choice
unfolding accept_decision
choose_by_model s allowed timeout =
    fallback_choice s allowed "Safe deterministic fallback after supervisor timeout." none
      ("supervisor_timeout" ∷ []) false
choose_by_model s allowed (failed message) = failure_choice s allowed none message
choose_by_model s allowed (decided d) =
    let errors = validate_supervisor_decision d allowed (some s) in
    if is_nonempty errors
    then fallback_choice s allowed
        "Safe deterministic fallback after an invalid supervisor decision." (some d.target)
        ("supervisor_invalid_decision" ∷ errors) true
    else accept_decision s allowed d (parse_target d.target)

-- The development hook asks the model although the policy has an answer.
unfoldable pub force_model : Config → List SupervisorTarget → Option SupervisorTarget → Bool
force_model config allowed mandatory =
    config.development
    && config.force_model_decision
    && leb 2 (length allowed)
    && not (mandatory == some testing_repair || mandatory == some finalize)

unfoldable pub choose_mandatory :
    Config → Response → State → List SupervisorTarget → Option SupervisorTarget → Choice
unfolding choose_by_model
choose_mandatory config response s allowed none = choose_by_model s allowed (decide config response)
choose_mandatory config response s allowed (some t) =
    if not (force_model config allowed (some t))
      || leb (get_or s.max_supervisor_attempts 3) s.supervisor_attempts
    then deterministic_choice s t
    else choose_by_model s allowed (decide config response)

unfoldable pub choose : Config → Response → State → Choice
unfolding choose_mandatory
choose config response s =
    choose_mandatory config response s (determine_allowed_handoffs s)
      (resolve_mandatory_handoff s (determine_allowed_handoffs s))

abbrev pub choice_history : State → Choice → List Handoff
choice_history s c =
    push_handoff
      (handoff_entry s (record {
        target = c.target;
        reason = c.reason;
        source = c.source;
        confidence = c.confidence;
        attempted_target = c.attempted_target;
        selected_target = c.selected_target;
        progress_fingerprint = none;
        progress_detected = none;
      }))
      s.handoff_history

-- The item that replaces the last one when a loop is detected; its number is overwritten.
unfoldable pub loop_entry : State → Choice → Handoff
loop_entry s c =
    record (handoff_entry s (record {
      target = finalize;
      reason = loop_reason;
      source = "deterministic";
      confidence = certain;
      attempted_target = some (text_or c.attempted_target (value c.target));
      selected_target = some (value finalize);
      progress_fingerprint = none;
      progress_detected = none;
    })) { sequence = number (length s.handoff_history + 1) }

-- The part of the result that a detected loop does not change.
abbrev pub with_choice : State → Choice → State
with_choice s c = record s {
  supervisor_attempts = c.attempts;
  allowed_handoffs = map value (determine_allowed_handoffs s);
  supervisor_invalid_decision_count =
      s.supervisor_invalid_decision_count + (if c.invalid_decision then 1 else 0);
  consecutive_invalid_decisions =
      if c.invalid_decision then s.consecutive_invalid_decisions + 1 else 0;
}

unfoldable pub finish_node : State → Choice → State
unfolding loop_entry
finish_node s c =
    if detect_supervisor_loop (choice_history s c)
    then with_loop_failure (record (with_choice s c) {
      supervisor_decision = some (value finalize);
      supervisor_reason = some loop_reason;
      supervisor_confidence = some certain;
      supervisor_decision_source = some "deterministic";
      handoff_history = set_last (loop_entry s c) (choice_history s c);
      supervisor_errors = dedup (c.errors ++ "supervisor_loop_detected" ∷ []);
    })
    else (record (with_choice s c) {
      supervisor_decision = some (value c.target);
      supervisor_reason = some c.reason;
      supervisor_confidence = some c.confidence;
      supervisor_decision_source = some c.source;
      handoff_history = choice_history s c;
      supervisor_errors = dedup c.errors;
    })

unfoldable pub supervisor_node : Config → Response → State → State
unfolding choose finish_node
supervisor_node config response s =
    if approval_blocks_supervisor s
    then s
    else (if config.development && config.force_stagnant_loop
        then stagnant_loop_probe_updates s (determine_allowed_handoffs s)
        else finish_node s (choose config response s))

-- `route_after_supervisor` of graph/supervisor/routers.py, which gives the name of the next node.
unfoldable pub route_after_supervisor : State → String
route_after_supervisor s =
    if s.supervisor_decision == some "supervisor_loop_probe" && s.supervisor_stagnant_loop_active
    then "supervisor_loop_probe"
    else value (get_or (parse_target (get_or s.supervisor_decision "None")) finalize)
