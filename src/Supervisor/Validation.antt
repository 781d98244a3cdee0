-- ===== src/Supervisor/Validation.antt =====
-- What `validate_supervisor_decision` and the branch that asks the model let through.
use mcp_software_factory.Prelude.{
  String, ◌≡◌, refl, sym, ap, ◌∙◌, ◌≢◌, ◌↔◌, ◌⊎◌, inl, inr, true, false, Option, none, some, List,
  [], ◌∷◌, ◌++◌, map, arith, contains, contains-cons_iff, dedup, dedup_from, is_nonempty, is_blank,
  eq_iff, string_eq, Bool-cases,
}
use mcp_software_factory.Supervisor.Types.{
  SupervisorTarget, SupervisorTarget-discrete, target_eq, value, planning, implementation,
  testing_repair, finalize, parse_target,
}
use mcp_software_factory.Supervisor.State.{State}
use mcp_software_factory.Supervisor.Guards.{
  approval_blocks_supervisor, is_review, safe_fallback_target,
}
use mcp_software_factory.Supervisor.Decide.{
  Decision, Outcome, decided, timeout, failed, decision_errors, state_errors, is_unit_confidence,
  validate_supervisor_decision,
}
use mcp_software_factory.Supervisor.Progress.{parse_target-value}
use mcp_software_factory.Supervisor.Step.{accept_decision, choose_by_model}

parse_target_sound :
    (text : String) (t : SupervisorTarget) → parse_target text ≡ some t → text ≡ value t
unfolding parse_target
parse_target_sound text t h = ground (
  arith,
  eq_iff text "planning",
  eq_iff text "inspect_workspace",
  eq_iff text "implementation",
  eq_iff text "testing_repair",
  eq_iff text "git_workflow",
  eq_iff text "ci_pipeline",
  eq_iff text "git_promotion",
  eq_iff text "finalize",
)

dedup_from-nil : (xs : List String) → dedup_from [] xs ≡ [] → xs ≡ []
dedup_from-nil [] h = refl
dedup_from-nil (x ∷ xs) h = cc

dedup-nil : (xs : List String) → (dedup xs ≡ []) ↔ (xs ≡ [])
dedup-nil [] = ((λ _. refl), (λ _. refl))
dedup-nil (x ∷ xs) = ((λ h. cc), (λ h. cc))

nil_of_empty : (xs : List String) → is_nonempty xs ≡ false → xs ≡ []
nil_of_empty [] h = refl
nil_of_empty (x ∷ xs) h = cc

append-nil_iff : (xs ys : List String) → (xs ++ ys ≡ []) ↔ ((xs ≡ []) × (ys ≡ []))
append-nil_iff [] ys = ((λ h. (refl, h)), (λ h. h.1))
append-nil_iff (x ∷ xs) ys = ((λ h. cc), (λ h. cc (h.0)))

decision_errors-nil :
    (d : Decision) (allowed : List SupervisorTarget)
    → (decision_errors d allowed ≡ []) ↔ (
        (contains d.target (map value allowed) ≡ true)
        × (is_blank d.reason ≡ false)
        × (is_unit_confidence d.confidence ≡ true))
unfolding decision_errors
decision_errors-nil d allowed = ground arith

state_errors-nil :
    (d : Decision) (s : State)
    → (state_errors d s ≡ []) ↔ (
        (s.terminal_status ≢ none → d.target ≡ value finalize)
        × (d.target ≡ value testing_repair → s.environment_prepared ≡ true)
        × (d.target ≡ value implementation → (is_review s ≡ true) ⊎ (s.planning_valid ≡ true))
        × (d.target ≡ value planning → is_review s ≡ false)
        × (approval_blocks_supervisor s ≡ false))
unfolding state_errors
state_errors-nil d s = ground (
  arith,
  eq_iff d.target "finalize",
  eq_iff d.target "testing_repair",
  eq_iff d.target "implementation",
  eq_iff d.target "planning",
)

-- A decision passes the validation against a state exactly when its target is allowed, its reason
-- is not blank, its confidence lies between 0 and 1, and the state permits the target: a terminal
-- workflow only `finalize`, testing only a prepared environment, implementation only a review or
-- a valid plan, planning no review, and no approval is waiting.
pub validate_iff :
    (d : Decision) (allowed : List SupervisorTarget) (s : State)
    → (validate_supervisor_decision d allowed (some s) ≡ []) ↔ (
        (contains d.target (map value allowed) ≡ true)
        × (is_blank d.reason ≡ false)
        × (is_unit_confidence d.confidence ≡ true)
        × (s.terminal_status ≢ none → d.target ≡ value finalize)
        × (d.target ≡ value testing_repair → s.environment_prepared ≡ true)
        × (d.target ≡ value implementation → (is_review s ≡ true) ⊎ (s.planning_valid ≡ true))
        × (d.target ≡ value planning → is_review s ≡ false)
        × (approval_blocks_supervisor s ≡ false))
unfolding validate_supervisor_decision
validate_iff d allowed s = ground (
  arith,
  dedup-nil (decision_errors d allowed ++ state_errors d s),
  append-nil_iff (decision_errors d allowed) (state_errors d s),
  decision_errors-nil d allowed,
  state_errors-nil d s,
)

some_equal : {t u : SupervisorTarget} → some t ≡ some u → t ≡ u
some_equal e = cc

value-injective : (t u : SupervisorTarget) → value t ≡ value u → t ≡ u
value-injective t u h =
    some_equal (sym (parse_target-value t) ∙ ap parse_target h ∙ parse_target-value u)

contains-value :
    (t : SupervisorTarget) (ts : List SupervisorTarget)
    → contains (value t) (map value ts) ≡ true
    → contains t ts ≡ true
contains-value t [] h = h
contains-value t (u ∷ ts) h = elim ((contains-cons_iff (value t) (value u) (map value ts)).0 h) [
  | inl e ↦ (contains-cons_iff t u ts).1 (inl (value-injective t u e))
  | inr later ↦ (contains-cons_iff t u ts).1 (inr (contains-value t ts later))
]

fallback-allowed :
    (ts : List SupervisorTarget)
    → (safe_fallback_target ts ≡ finalize) ⊎ (contains (safe_fallback_target ts) ts ≡ true)
unfolding safe_fallback_target SupervisorTarget-discrete
fallback-allowed [] = inl refl
fallback-allowed (finalize ∷ ts) = ground (arith, fallback-allowed ts)
fallback-allowed (_ ∷ ts) = inr refl

accepted-allowed :
    (s : State) (ts : List SupervisorTarget) (d : Decision) (o : Option SupervisorTarget)
    → parse_target d.target ≡ o
    → contains d.target (map value ts) ≡ true
    → let c = accept_decision s ts d o in (c.target ≡ finalize) ⊎ (contains c.target ts ≡ true)
unfolding accept_decision
accepted-allowed s ts d none e h = fallback-allowed ts
accepted-allowed s ts d (some t) e h =
    inr (contains-value t ts (rw (← parse_target_sound d.target t e) h))

-- However asking the model ends, by a decision, a time-out or an exception, the target that is
-- taken is one of the allowed ones or `finalize`.
pub choose_by_model_is_allowed :
    (s : State) (allowed : List SupervisorTarget) (o : Outcome)
    → let c = choose_by_model s allowed o in
      (c.target ≡ finalize) ⊎ (contains c.target allowed ≡ true)
unfolding choose_by_model
choose_by_model_is_allowed s allowed timeout = fallback-allowed allowed
choose_by_model_is_allowed s allowed (failed message) = fallback-allowed allowed
choose_by_model_is_allowed s allowed (decided d) =
    elim (Bool-cases (is_nonempty (validate_supervisor_decision d allowed (some s)))) [
      | inl invalid ↦ rw invalid (fallback-allowed allowed)
      | inr valid ↦ rw valid (
          accepted-allowed s allowed d (parse_target d.target) refl
            ((validate_iff d allowed s).0 (nil_of_empty _ valid)).0)
    ]
