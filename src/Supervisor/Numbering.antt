-- ===== src/Supervisor/Numbering.antt =====
-- The numbers that `_handoff_entry` and the loop branch of the node give to the history's items.
use mcp_software_factory.Prelude.{
  ℕ, ◌<◌, ◌+◌, ◌-◌, ◌≡◌, refl, sym, ap, ◌∙◌, ◌≢◌, true, false, ◌&&◌, none, some, List, [], ◌∷◌,
  ◌++◌, arith, length, last?, last?-append, last?-drop, length-append, Bool-cases, inl, inr,
}
use mcp_software_factory.Supervisor.Types.{waiting, TerminalStatus}
use mcp_software_factory.Supervisor.State.{State, Handoff, number}
use mcp_software_factory.Supervisor.Loops.{detect_supervisor_loop}
use mcp_software_factory.Supervisor.Decide.{Config, Response}
use mcp_software_factory.Supervisor.Node.{
  handoff_entry, push_handoff, number_after, number_after_last, next_sequence, set_last,
}
use mcp_software_factory.Supervisor.Step.{
  Choice, deterministic_choice, choice_history, loop_entry, finish_node, supervisor_node,
}
use mcp_software_factory.Supervisor.Progress.{
  finish_quiet, finish_loop, finish_terminal_iff, node_ignores_model,
}

last?-push_handoff : (e : Handoff) (hs : List Handoff) → last? (push_handoff e hs) ≡ some e
unfolding push_handoff
last?-push_handoff e hs =
    last?-drop (length (hs ++ e ∷ []) - 50) (hs ++ e ∷ [])
      (omega (arith, length-append hs (e ∷ [])))
    ∙ last?-append hs e

last?-set_last :
    (e : Handoff) (hs : List Handoff) {h : Handoff}
    → last? hs ≡ some h
    → last? (set_last e hs) ≡ some e
unfolding set_last
last?-set_last e [] h = cc
last?-set_last e (x ∷ []) h = refl
last?-set_last e (x ∷ y ∷ []) h = refl
last?-set_last e (x ∷ y ∷ z ∷ hs) h = last?-set_last e (y ∷ z ∷ hs) h

-- The last item of a history is numbered.
abbrev pub IsNumbered : List Handoff → ℕ → Type 0
IsNumbered hs n = (h : Handoff) × (last? hs ≡ some h) × (h.sequence ≡ number n)

next_of_numbered : (hs : List Handoff) (n : ℕ) → IsNumbered hs n → next_sequence hs ≡ n + 1
unfolding next_sequence
next_of_numbered hs n (h, e, q) =
    ap (number_after_last (length hs)) e ∙ ap (number_after (length hs)) q

quiet_number :
    (s : State) (c : Choice)
    → detect_supervisor_loop (choice_history s c) ≡ false
    → IsNumbered (finish_node s c).handoff_history (next_sequence s.handoff_history)
unfolding handoff_entry
quiet_number s c q = rw ((finish_quiet s c q).2) (_, last?-push_handoff _ s.handoff_history, refl)

loop_number :
    (s : State) (c : Choice)
    → detect_supervisor_loop (choice_history s c) ≡ true
    → IsNumbered (finish_node s c).handoff_history (length s.handoff_history + 1)
unfolding loop_entry
loop_number s c q = rw ((finish_loop s c q).2) (
  loop_entry s c,
  last?-set_last (loop_entry s c) (choice_history s c) (last?-push_handoff _ s.handoff_history),
  refl,
)

no_loop :
    (s : State) (c : Choice)
    → s.terminal_status ≡ none
    → (finish_node s c).terminal_status ≡ none
    → detect_supervisor_loop (choice_history s c) ≡ false
no_loop s c e q = elim (Bool-cases (detect_supervisor_loop (choice_history s c))) [
  | inl found ↦ let w = (finish_loop s c found).1 in cc
  | inr quiet ↦ quiet
]

full_number : (s : State) → length s.handoff_history ≡ 50 → length s.handoff_history + 1 ≡ 51
full_number s full = omega arith

-- Without a loop, a node that follows an item numbered n appends an item numbered n + 1.
pub node_numbers_handoffs :
    (config : Config) (response : Response) (s : State) (n : ℕ)
    → s.pending_approval_status ≢ some waiting
    → (config.development && config.force_stagnant_loop) ≡ false
    → s.terminal_status ≡ none
    → IsNumbered s.handoff_history n
    → (supervisor_node config response s).terminal_status ≡ none
    → IsNumbered (supervisor_node config response s).handoff_history (n + 1)
node_numbers_handoffs config response s n w k e h q =
    let (t, d, eq) = node_ignores_model config response s w k in
    let c = deterministic_choice s t in
    let quiet = no_loop s c e (sym (ap State.terminal_status eq) ∙ q) in
    rw (eq, ← next_of_numbered s.handoff_history n h) (quiet_number s c quiet)

-- Where no approval is waiting, the stagnant-loop hook is off and the workflow has no terminal
-- status, the node that finds a loop behind fifty kept items, the last of them with a number above
-- 51, leaves a last item with a smaller number than that one.
pub loop_number_falls_back :
    (config : Config) (response : Response) (s : State) (n : ℕ)
    → s.pending_approval_status ≢ some waiting
    → (config.development && config.force_stagnant_loop) ≡ false
    → s.terminal_status ≡ none
    → length s.handoff_history ≡ 50
    → IsNumbered s.handoff_history n
    → 51 < n
    → (supervisor_node config response s).terminal_status
      ≡ some TerminalStatus.supervisor_loop_detected
    → (m : ℕ) × IsNumbered (supervisor_node config response s).handoff_history m × (m < n)
loop_number_falls_back config response s n w k e full h le q =
    let (t, d, eq) = node_ignores_model config response s w k in
    let c = deterministic_choice s t in
    let found = (finish_terminal_iff s c e).0 (sym (ap State.terminal_status eq) ∙ q) in
    (51, rw (eq, ← full_number s full) (loop_number s c found), le)
