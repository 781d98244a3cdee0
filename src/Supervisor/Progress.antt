-- ===== src/Supervisor/Progress.antt =====
-- What the whole node promises: who decides, which targets can follow, and when it stops.
use mcp_software_factory.Prelude.{
  ◌≤◌, ◌≡◌, refl, sym, ap, ◌∙◌, ◌≢◌, ◌↔◌, ◌⊎◌, inl, inr, true, false, ◌&&◌, none, some, List, [],
  ◌∷◌, ◌++◌, arith, length, length-last_n, suc, Bool-cases,
}
use mcp_software_factory.Supervisor.Types.{
  waiting, TerminalStatus, SupervisorTarget, value, finalize, parse_target,
}
use mcp_software_factory.Supervisor.State.{State, Handoff}
use mcp_software_factory.Supervisor.Guards.{
  approval_blocks_supervisor, determine_allowed_handoffs, resolve_mandatory_handoff,
}
use mcp_software_factory.Supervisor.Handoffs.{blocks_iff, resolve_is_total}
use mcp_software_factory.Supervisor.Loops.{detect_supervisor_loop}
use mcp_software_factory.Supervisor.Decide.{Config, Response}
use mcp_software_factory.Supervisor.Node.{
  push_handoff, probe_history, set_last, stagnant_loop_probe_updates, max_handoff_history,
}
use mcp_software_factory.Supervisor.Step.{
  Choice, deterministic_choice, force_model, choose_mandatory, choose, choice_history, loop_entry,
  finish_node, supervisor_node, route_after_supervisor,
}

-- One target is too few for the hook that asks the model.
choose_mandatory_single :
    (config : Config) (response : Response) (s : State) (t : SupervisorTarget)
    → choose_mandatory config response s (t ∷ []) (some t) ≡ deterministic_choice s t
unfolding choose_mandatory force_model
choose_mandatory_single config response s t = ground arith

choose_is_deterministic :
    (config : Config) (response : Response) (s : State) (t : SupervisorTarget)
    → determine_allowed_handoffs s ≡ t ∷ []
    → resolve_mandatory_handoff s (determine_allowed_handoffs s) ≡ some t
    → choose config response s ≡ deterministic_choice s t
unfolding choose
choose_is_deterministic config response s t d r =
    rw (r, d) (choose_mandatory_single config response s t)

node_eq :
    (config : Config) (response : Response) (s : State) (t : SupervisorTarget)
    → approval_blocks_supervisor s ≡ false
    → (config.development && config.force_stagnant_loop) ≡ false
    → choose config response s ≡ deterministic_choice s t
    → supervisor_node config response s ≡ finish_node s (deterministic_choice s t)
unfolding supervisor_node
node_eq config response s t b k e = rw (b, k, e)

-- Outside the stagnant-loop hook and a waiting approval, the node decides by the policy alone: it
-- takes the one target that the policy allows, whatever the configuration and the model's answer.
pub node_ignores_model :
    (config : Config) (response : Response) (s : State)
    → s.pending_approval_status ≢ some waiting
    → (config.development && config.force_stagnant_loop) ≡ false
    → (t : SupervisorTarget) × (determine_allowed_handoffs s ≡ t ∷ [])
      × (supervisor_node config response s ≡ finish_node s (deterministic_choice s t))
node_ignores_model config response s h k =
    let (t, d, r) = resolve_is_total s h in
    (
      t,
      d,
      node_eq config response s t (ground (arith, blocks_iff s)) k
          (choose_is_deterministic config response s t d r),
    )

cons_injective : {t u : SupervisorTarget} → t ∷ [] ≡ u ∷ [] → t ≡ u
cons_injective e = cc

-- the same for a target that is known to be allowed
pub node_of_target :
    (config : Config) (response : Response) (s : State) (t : SupervisorTarget)
    → s.pending_approval_status ≢ some waiting
    → (config.development && config.force_stagnant_loop) ≡ false
    → determine_allowed_handoffs s ≡ t ∷ []
    → supervisor_node config response s ≡ finish_node s (deterministic_choice s t)
node_of_target config response s t h k d =
    let (u, d', e) = node_ignores_model config response s h k in
    e ∙ ap (λ x. finish_node s (deterministic_choice s x)) (cons_injective (sym d' ∙ d))

pub parse_target-value : (t : SupervisorTarget) → parse_target (value t) ≡ some t
unfolding parse_target
parse_target-value finalize = refl
parse_target-value _ = refl

-- a decision that names a target is routed to it
route-target :
    (s : State) (t : SupervisorTarget)
    → s.supervisor_decision ≡ some (value t)
    → route_after_supervisor s ≡ value t
unfolding route_after_supervisor parse_target
route-target s finalize e = rw e
route-target s _ e = rw e

module _ (s : State) (c : Choice) where
  -- the result when no loop is found
  pub finish_quiet :
      detect_supervisor_loop (choice_history s c) ≡ false
      → let s' = finish_node s c in
        (s'.supervisor_decision ≡ some (value c.target))
        × (s'.terminal_status ≡ s.terminal_status)
        × (s'.handoff_history ≡ choice_history s c)
  unfolding finish_node
  finish_quiet e = rw e (refl, refl, refl)

  -- the result when a loop is found
  pub finish_loop :
      detect_supervisor_loop (choice_history s c) ≡ true
      → let s' = finish_node s c in
        (s'.supervisor_decision ≡ some (value finalize))
        × (s'.terminal_status ≡ some TerminalStatus.supervisor_loop_detected)
        × (s'.handoff_history ≡ set_last (loop_entry s c) (choice_history s c))
  unfolding finish_node
  finish_loop e = rw e (refl, refl, refl)

finish_routes :
    (s : State) (t : SupervisorTarget)
    → let s' = finish_node s (deterministic_choice s t) in
      (route_after_supervisor s' ≡ value t) × (s'.terminal_status ≡ s.terminal_status)
      ⊎ (route_after_supervisor s' ≡ value finalize)
        × (s'.terminal_status ≡ some TerminalStatus.supervisor_loop_detected)
finish_routes s t =
    let c = deterministic_choice s t in
    elim (Bool-cases (detect_supervisor_loop (choice_history s c))) [
      | inl e ↦
          let (d, w, _) = finish_loop s c e in inr (route-target (finish_node s c) finalize d, w)
      | inr e ↦ let (d, w, _) = finish_quiet s c e in inl (route-target (finish_node s c) t d, w)
    ]

pub finish_terminal_iff :
    (s : State) (c : Choice)
    → s.terminal_status ≡ none
    → ((finish_node s c).terminal_status ≡ some TerminalStatus.supervisor_loop_detected)
      ↔ (detect_supervisor_loop (choice_history s c) ≡ true)
finish_terminal_iff s c n = elim (Bool-cases (detect_supervisor_loop (choice_history s c))) [
  | inl e ↦ ((λ _. e), (λ _. (finish_loop s c e).1))
  | inr e ↦ let w = (finish_quiet s c e).1 in ((λ h. cc), (λ h. cc))
]

-- Where no approval is waiting and the stagnant-loop hook is off, the node hands over to the one
-- target that the policy allows and leaves the terminal status, or it hands over to `finalize` and
-- the terminal status is that of a loop.
pub node_routes_to_allowed_target :
    (config : Config) (response : Response) (s : State)
    → s.pending_approval_status ≢ some waiting
    → (config.development && config.force_stagnant_loop) ≡ false
    → let s' = supervisor_node config response s in
      (t : SupervisorTarget) × (determine_allowed_handoffs s ≡ t ∷ [])
      × ((route_after_supervisor s' ≡ value t) × (s'.terminal_status ≡ s.terminal_status)
          ⊎ (route_after_supervisor s' ≡ value finalize)
            × (s'.terminal_status ≡ some TerminalStatus.supervisor_loop_detected))
node_routes_to_allowed_target config response s h k =
    let (t, d, e) = node_ignores_model config response s h k in (t, d, rw e (finish_routes s t))

-- While an approval is waiting the node changes nothing.
pub node_waits_for_approval :
    (config : Config) (response : Response) (s : State)
    → s.pending_approval_status ≡ some waiting
    → supervisor_node config response s ≡ s
unfolding supervisor_node
node_waits_for_approval config response s h = rw ((blocks_iff s).1 h)

length-set_last : (e : Handoff) (hs : List Handoff) → length (set_last e hs) ≡ length hs
unfolding set_last
length-set_last e [] = refl
length-set_last e (x ∷ []) = refl
length-set_last e (x ∷ y ∷ hs) = ap suc (length-set_last e (y ∷ hs))

length-push_handoff :
    (e : Handoff) (hs : List Handoff) → length (push_handoff e hs) ≤ max_handoff_history
unfolding push_handoff
length-push_handoff e hs = length-last_n max_handoff_history (hs ++ e ∷ [])

finish_history_bounded :
    (s : State) (c : Choice) → length (finish_node s c).handoff_history ≤ max_handoff_history
finish_history_bounded s c = elim (Bool-cases (detect_supervisor_loop (choice_history s c))) [
  | inl e ↦ rw ((finish_loop s c e).2) (
      omega (
        arith,
        length-set_last (loop_entry s c) (choice_history s c),
        length-push_handoff _ s.handoff_history,
      ))
  | inr e ↦ rw ((finish_quiet s c e).2) (length-push_handoff _ s.handoff_history)
]

probe_history_bounded :
    (s : State) (ts : List SupervisorTarget)
    → length (stagnant_loop_probe_updates s ts).handoff_history ≤ max_handoff_history
unfolding stagnant_loop_probe_updates
probe_history_bounded s ts = elim (Bool-cases (detect_supervisor_loop (probe_history s))) [
  | inl e ↦ rw e (length-push_handoff _ s.handoff_history)
  | inr e ↦ rw e (length-push_handoff _ s.handoff_history)
]

-- The handoff history never grows past fifty items, in the stagnant-loop hook too.
pub node_history_bounded :
    (config : Config) (response : Response) (s : State)
    → length s.handoff_history ≤ max_handoff_history
    → length (supervisor_node config response s).handoff_history ≤ max_handoff_history
unfolding supervisor_node
node_history_bounded config response s h = ground (
  arith,
  finish_history_bounded s (choose config response s),
  probe_history_bounded s (determine_allowed_handoffs s),
)
