-- ===== src/Supervisor/Node.antt =====
-- `supervisor_node` of graph/supervisor/service.py. The dictionary that the node returns is merged
-- into the workflow's state, so the model returns the state that results.
use mcp_software_factory.Prelude.{
  ℕ, ◌+◌, String, Bool, true, false, Option, none, some, List, [], ◌∷◌, ◌++◌, string_eq, option_eq,
  truthy, dedup, get_or, map, text_append, length, last?, last_n, if◌then◌else◌,
}
use mcp_software_factory.Supervisor.Types.{
  TerminalStatus, SupervisorTarget, value, planning, finalize, target_eq,
}
use mcp_software_factory.Supervisor.State.{
  State, Confidence, Handoff, Fingerprint, Sequence, absent, number, other,
}
use mcp_software_factory.Supervisor.Fingerprint.{supervisor_progress_fingerprint}
use mcp_software_factory.Supervisor.Loops.{detect_supervisor_loop}
use mcp_software_factory.Supervisor.Decide.{certain}

abbrev pub max_handoff_history : ℕ
max_handoff_history = 50

-- One more than the last item's number, if that is an integer, or than `size` items.
abbrev pub number_after : ℕ → Sequence → ℕ
number_after size absent = size + 1
number_after size (number n) = n + 1
number_after size other = size + 1

abbrev pub number_after_last : ℕ → Option Handoff → ℕ
number_after_last size none = 1
number_after_last size (some h) = number_after size h.sequence

-- `sequence` of the next item
unfoldable pub next_sequence : List Handoff → ℕ
next_sequence history = number_after_last (length history) (last? history)

abbrev pub fork_branch : State → String
fork_branch s =
    if truthy s.fork_origin_checkpoint_id
    then text_append "fork:" (get_or s.fork_origin_checkpoint_id "")
    else "original"

abbrev pub text_or : Option String → String → String
text_or o d = if truthy o then get_or o d else d

-- The arguments of `_handoff_entry` besides the state.
pub record EntryArgs : Type 0 where
  pub target : SupervisorTarget
  pub reason : String
  pub source : String
  pub confidence : Confidence
  pub attempted_target : Option String
  pub selected_target : Option String
  pub progress_fingerprint : Option Fingerprint
  pub progress_detected : Option Bool

unfoldable pub handoff_entry : State → EntryArgs → Handoff
unfolding next_sequence
handoff_entry s a = record {
  sequence = number (next_sequence s.handoff_history);
  to = some (value a.target);
  attempted_to = some (text_or a.attempted_target (value a.target));
  selected_to = some (text_or a.selected_target (value a.target));
  executed_to = some (value a.target);
  reason = some a.reason;
  source = some a.source;
  confidence = some a.confidence;
  progress_fingerprint = some (get_or a.progress_fingerprint (supervisor_progress_fingerprint s));
  progress_detected = a.progress_detected;
  branch_id = some (fork_branch s);
  planning_attempts = some s.planning_attempts;
  implementation_attempts = some s.implementation_attempts;
  tests_executed = some s.tests_executed;
  tests_passed = some s.tests_passed;
  repair_phase = s.repair_phase;
  repair_attempts = some s.repair_attempts;
  lineage = some (if truthy s.fork_origin_checkpoint_id then "fork" else "original");
}

-- `history.append(entry)` and `history[-MAX_HANDOFF_HISTORY:]`
unfoldable pub push_handoff : Handoff → List Handoff → List Handoff
push_handoff entry history = last_n max_handoff_history (history ++ entry ∷ [])

-- `history[-1] = entry`
unfoldable pub set_last : Handoff → List Handoff → List Handoff
set_last entry [] = []
set_last entry (x ∷ []) = entry ∷ []
set_last entry (x ∷ y ∷ xs) = x ∷ set_last entry (y ∷ xs)

-- The terminal fields that a detected loop adds to the result.
abbrev pub with_loop_failure : State → State
with_loop_failure s = record s {
  terminal_status = some TerminalStatus.supervisor_loop_detected;
  failure_type = some "supervisor_loop_detected";
  failure_stage = some "supervisor";
  failure_message = some "El Supervisor detectó un ciclo de handoffs sin progreso.";
}

abbrev pub loop_reason : String
loop_reason = "Supervisor loop detected; finalizing safely."

-- `_stagnant_loop_probe_updates`
abbrev pub probe_fingerprint : State → Fingerprint
probe_fingerprint s =
    get_or s.supervisor_stagnant_loop_fingerprint (supervisor_progress_fingerprint s)

abbrev pub probe_history : State → List Handoff
probe_history s =
    push_handoff
      (handoff_entry s (record {
        target = planning;
        reason = "Forced stagnant loop probe for development.";
        source = "development_loop_probe";
        confidence = certain;
        attempted_target = some (value planning);
        selected_target = some (value planning);
        progress_fingerprint = some (probe_fingerprint s);
        progress_detected = some false;
      }))
      s.handoff_history

-- What both of its results have in common.
abbrev pub with_probe : State → List SupervisorTarget → List String → State
with_probe s allowed errors = record s {
  supervisor_confidence = some certain;
  supervisor_decision_source = some "development_loop_probe";
  allowed_handoffs = map value allowed;
  handoff_history = probe_history s;
  supervisor_errors = dedup errors;
  supervisor_stagnant_loop_probe_count = s.supervisor_stagnant_loop_probe_count + 1;
  supervisor_stagnant_loop_fingerprint = some (probe_fingerprint s);
}

unfoldable pub stagnant_loop_probe_updates : State → List SupervisorTarget → State
stagnant_loop_probe_updates s allowed =
    if detect_supervisor_loop (probe_history s)
    then with_loop_failure
        (record (with_probe s allowed (s.supervisor_errors ++ "supervisor_loop_detected" ∷ [])) {
          supervisor_decision = some (value finalize);
          supervisor_reason = some loop_reason;
          supervisor_stagnant_loop_active = false;
        })
    else (record (with_probe s allowed s.supervisor_errors) {
      supervisor_decision = some "supervisor_loop_probe";
      supervisor_reason = some "Continue controlled stagnant-loop probe.";
      supervisor_stagnant_loop_active = true;
    })
