-- ===== src/Supervisor/Stagnation.antt =====
-- When the node finds a loop: `detect_supervisor_loop` on the history that the node has extended.
use mcp_software_factory.Prelude.{
  String, ◌≡◌, refl, ap, ◌∙◌, ◌≢◌, ◌↔◌, Bool, true, false, ◌&&◌, none, some, List, [], ◌∷◌, ◌++◌,
  arith, keep, last?, last_n, last_n-append, last_n-append_exact, keep-append, is_nonempty,
  option_beq_iff, eqb_iff, eq_iff, string_eq,
}
use mathlib.Core.List.{append_assoc}
use mcp_software_factory.Supervisor.Types.{
  waiting, TerminalStatus, SupervisorTarget, value, finalize,
}
use mcp_software_factory.Supervisor.State.{State, Handoff, Fingerprint}
use mcp_software_factory.Supervisor.Guards.{determine_allowed_handoffs}
use mcp_software_factory.Supervisor.Fingerprint.{
  supervisor_progress_fingerprint, Fingerprint-discrete, fingerprint_eq,
}
use mcp_software_factory.Supervisor.Loops.{
  reached, branch_of, is_on_branch, latest_branch, active_history, no_progress, detect_on,
  detect_supervisor_loop,
}
use mcp_software_factory.Supervisor.Decide.{Config, Response}
use mcp_software_factory.Supervisor.Node.{handoff_entry, push_handoff, fork_branch}
use mcp_software_factory.Supervisor.Step.{deterministic_choice, choice_history, supervisor_node}
use mcp_software_factory.Supervisor.Progress.{finish_terminal_iff, node_of_target}

last?-append_three : (zs : List Handoff) (a b c : Handoff) → last? (zs ++ a ∷ b ∷ c ∷ []) ≡ some c
last?-append_three [] a b c = refl
last?-append_three (x ∷ []) a b c = refl
last?-append_three (x ∷ y ∷ zs) a b c = last?-append_three (y ∷ zs) a b c

is_nonempty-append_three :
    (zs : List Handoff) (a b c : Handoff) → is_nonempty (zs ++ a ∷ b ∷ c ∷ []) ≡ true
is_nonempty-append_three [] a b c = refl
is_nonempty-append_three (x ∷ zs) a b c = refl

on_branch :
    (branch : String) (h : Handoff)
    → h.branch_id ≡ some branch
    → is_on_branch (some branch) h ≡ true
unfolding is_on_branch
on_branch branch h e = rw e ((eq_iff branch branch).1 refl)

keep_three :
    (p : Handoff → Bool) (a b c : Handoff)
    → p a ≡ true
    → p b ≡ true
    → p c ≡ true
    → keep p (a ∷ b ∷ c ∷ []) ≡ a ∷ b ∷ c ∷ []
keep_three p a b c i j k = ground arith

latest-suffix :
    (zs : List Handoff) (a b c : Handoff) → latest_branch (zs ++ a ∷ b ∷ c ∷ []) ≡ c.branch_id
unfolding latest_branch
latest-suffix zs a b c = ap branch_of (last?-append_three zs a b c)

active-suffix :
    (branch : String) (zs : List Handoff) (a b c : Handoff)
    → a.branch_id ≡ some branch
    → b.branch_id ≡ some branch
    → c.branch_id ≡ some branch
    → active_history (zs ++ a ∷ b ∷ c ∷ []) ≡ keep (is_on_branch (some branch)) zs ++ a ∷ b ∷ c ∷ []
unfolding active_history
active-suffix branch zs a b c i j k =
    let p = is_on_branch (some branch) in
    let kept : keep p (a ∷ b ∷ c ∷ []) ≡ a ∷ b ∷ c ∷ [] =
      keep_three p a b c (on_branch branch a i) (on_branch branch b j) (on_branch branch c k) in
    ap (λ branch. keep (is_on_branch branch) (zs ++ a ∷ b ∷ c ∷ [])) (latest-suffix zs a b c ∙ k)
    ∙ keep-append p zs (a ∷ b ∷ c ∷ [])
    ∙ ap (λ kept_items. keep p zs ++ kept_items) kept

-- A history that ends in three items of one branch is judged by these.
pub detect-suffix :
    (branch : String) (zs : List Handoff) (a b c : Handoff)
    → a.branch_id ≡ some branch
    → b.branch_id ≡ some branch
    → c.branch_id ≡ some branch
    → detect_supervisor_loop (zs ++ a ∷ b ∷ c ∷ []) ≡ detect_on a b c
unfolding detect_supervisor_loop
detect-suffix branch zs a b c i j k =
    let p = is_on_branch (some branch) in
    rw (
      is_nonempty-append_three zs a b c,
      active-suffix branch zs a b c i j k,
      last_n-append_exact (keep p zs) (a ∷ b ∷ c ∷ []),
    )

-- The test of three items that carry their fingerprints.
pub detect_on_iff :
    (a b c : Handoff) (f g h : Fingerprint)
    → a.progress_fingerprint ≡ some f
    → b.progress_fingerprint ≡ some g
    → c.progress_fingerprint ≡ some h
    → (detect_on a b c ≡ true)
      ↔ ((reached a ≡ reached b) × (reached b ≡ reached c) × (f ≡ g) × (g ≡ h))
unfolding detect_on no_progress
detect_on_iff a b c f g h i j k =
    rw (i, j, k)
      (ground (
        arith,
        option_beq_iff (reached a) (reached b),
        option_beq_iff (reached b) (reached c),
        eqb_iff Fingerprint-discrete f g,
        eqb_iff Fingerprint-discrete g h,
      ))

-- the item that the node appends for a target
abbrev next_item : State → SupervisorTarget → Handoff
next_item s t = handoff_entry s (record {
  target = t;
  reason = (deterministic_choice s t).reason;
  source = "deterministic";
  confidence = (deterministic_choice s t).confidence;
  attempted_target = some (value t);
  selected_target = some (value t);
  progress_fingerprint = none;
  progress_detected = none;
})

reached-next_item : (s : State) (t : SupervisorTarget) → reached (next_item s t) ≡ some (value t)
unfolding reached handoff_entry
reached-next_item s finalize = refl
reached-next_item s _ = refl

-- An item of the branch that the node continues, with its fingerprint.
abbrev pub HasPrint : State → Handoff → Fingerprint → Type 0
HasPrint s h f = (h.branch_id ≡ some (fork_branch s)) × (h.progress_fingerprint ≡ some f)

-- Both earlier items led to the target, from the progress that the state has now.
abbrev pub IsStagnant :
    State → SupervisorTarget → Handoff → Handoff → Fingerprint → Fingerprint → Type 0
IsStagnant s t a b f g =
    (reached a ≡ some (value t))
    × (reached b ≡ some (value t))
    × (f ≡ supervisor_progress_fingerprint s)
    × (g ≡ supervisor_progress_fingerprint s)

module _ (s : State) (t : SupervisorTarget) (pre : List Handoff) (a b : Handoff) (f g : Fingerprint)
    (history : s.handoff_history ≡ pre ++ a ∷ b ∷ []) (ha : HasPrint s a f)
    (hb : HasPrint s b g) where
  extended : s.handoff_history ++ next_item s t ∷ [] ≡ pre ++ a ∷ b ∷ next_item s t ∷ []
  extended =
      ap (λ items. items ++ next_item s t ∷ []) history
      ∙ append_assoc pre (a ∷ b ∷ []) (next_item s t ∷ [])

  detect-choice_history :
      detect_supervisor_loop (choice_history s (deterministic_choice s t))
      ≡ detect_on a b (next_item s t)
  unfolding push_handoff handoff_entry
  detect-choice_history =
      let (zs, e) = last_n-append 50 pre (a ∷ b ∷ next_item s t ∷ []) (omega arith) in
      ap (λ items. detect_supervisor_loop (last_n 50 items)) extended
      ∙ ap detect_supervisor_loop e
      ∙ detect-suffix (fork_branch s) zs a b (next_item s t) ha.0 hb.0 refl

  detect-choice_iff :
      (detect_supervisor_loop (choice_history s (deterministic_choice s t)) ≡ true)
      ↔ IsStagnant s t a b f g
  unfolding handoff_entry
  detect-choice_iff = rw detect-choice_history (
      ground (
        arith,
        detect_on_iff a b (next_item s t) f g (supervisor_progress_fingerprint s) ha.1 hb.1 refl,
        reached-next_item s t,
      ))

-- Where no approval is waiting, the stagnant-loop hook is off and the workflow has no terminal
-- status, after two handoffs on its branch that carry their fingerprints the node ends the workflow as a
-- loop exactly when both led to the target that the policy allows now and were made from the
-- progress that the state has now.
pub node_stops_iff_IsStagnant :
    (config : Config) (response : Response) (s : State) (t : SupervisorTarget) (pre : List Handoff)
    (a b : Handoff) (f g : Fingerprint)
    → s.pending_approval_status ≢ some waiting
    → (config.development && config.force_stagnant_loop) ≡ false
    → s.terminal_status ≡ none
    → determine_allowed_handoffs s ≡ t ∷ []
    → s.handoff_history ≡ pre ++ a ∷ b ∷ []
    → HasPrint s a f
    → HasPrint s b g
    → let s' = supervisor_node config response s in
      (s'.terminal_status ≡ some TerminalStatus.supervisor_loop_detected) ↔ IsStagnant s t a b f g
node_stops_iff_IsStagnant config response s t pre a b f g w k e d hist ha hb =
    let c = deterministic_choice s t in
    let (to, from) = finish_terminal_iff s c e in
    let (found, back) = detect-choice_iff s t pre a b f g hist ha hb in
    rw (node_of_target config response s t w k d) ((λ h. found (to h)), (λ h. from (back h)))
