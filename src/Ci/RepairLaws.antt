-- ===== src/Ci/RepairLaws.antt =====
-- Which CI failures are handed to a repair.
use mathlib.Core.Bool.{true≢false}
use mcp_software_factory.Prelude.{
  not, inl, inr, refl, sym, ap, ◌∙◌, [], ◌∷◌, if◌then◌else◌, ◌≡◌, ◌≢◌, ◌↔◌, ◌⊎◌, Bool, true, false,
  ◌||◌, ◌==◌, option_eq, some, arith, option_beq_iff, eqb_iff,
}
use mcp_software_factory.Ci.Types.{
  PipelineStatus, Decision, PipelineStatus-discrete, pipeline_status_eq, decision_eq,
}
use mcp_software_factory.Ci.Repair.{
  repairable_tests, repairable_lint, repairable_build, RepairCategory, infrastructure,
  configuration, unknown, for_failed_step, for_run, not_rejected, FailedRun, Repairability,
  infrastructure_ci_failures, configuration_ci_failures, optional_in, classify_build,
  classify_by_gate, classify_ci_failure_for_repair,
}

-- The categories of failures that a change of the code can repair.
abbrev pub IsCodeFailure : Repairability → Type 0
IsCodeFailure x =
    (x.category ≡ repairable_tests)
    ⊎ (x.category ≡ repairable_build)
    ⊎ (x.category ≡ repairable_lint)

abbrev is_code : RepairCategory → Bool
is_code repairable_tests = true
is_code repairable_build = true
is_code repairable_lint = true
is_code _ = false

abbrev Fits : Repairability → Type 0
Fits x = (x.repairable ≡ true) ↔ IsCodeFailure x

if-Fits : (b : Bool) (x y : Repairability) → Fits x → Fits y → Fits (if b then x else y)
if-Fits true x y h k = h
if-Fits false x y h k = k

code-Fits : (x : Repairability) → x.repairable ≡ true → IsCodeFailure x → Fits x
code-Fits x h k = ((λ _. k), (λ _. h))

code_category : (x : Repairability) → IsCodeFailure x → is_code x.category ≡ true
code_category x (inl p) = ap is_code p
code_category x (inr (inl p)) = ap is_code p
code_category x (inr (inr p)) = ap is_code p

other-Fits : (x : Repairability) → x.repairable ≡ false → is_code x.category ≡ false → Fits x
other-Fits x h k = (
  (λ q. absurd (true≢false (sym q ∙ h))),
  (λ q. absurd (true≢false (sym (code_category x q) ∙ k))),
)

classify_build-Fits : (r : FailedRun) → Fits (classify_build r)
unfolding classify_build
classify_build-Fits r =
    if-Fits _ _ _
      (other-Fits
        (for_failed_step r false infrastructure 800 ("ci_build_infrastructure_signal" ∷ [])) refl
        refl)
      (code-Fits (for_failed_step r true repairable_build 750 ("ci_build_gate_failed" ∷ [])) refl
        (inr (inl refl)))

tests-Fits :
    (r : FailedRun)
    → Fits (
        for_failed_step r true repairable_tests 850
          ("ci_test_gate_failed" ∷ "ci_environment_executed" ∷ []))
tests-Fits r =
    code-Fits
      (for_failed_step r true repairable_tests 850
        ("ci_test_gate_failed" ∷ "ci_environment_executed" ∷ []))
      refl (inl refl)

lint-Fits :
    (r : FailedRun) → Fits (for_failed_step r true repairable_lint 800 ("ci_lint_gate_failed" ∷ []))
lint-Fits r =
    code-Fits (for_failed_step r true repairable_lint 800 ("ci_lint_gate_failed" ∷ [])) refl
      (inr (inr refl))

classify_by_gate-Fits : (r : FailedRun) → Fits (classify_by_gate r)
unfolding classify_by_gate
classify_by_gate-Fits r = if-Fits _ _ _ (tests-Fits r) (
    if-Fits _ _ _ (classify_build-Fits r) (
      if-Fits _ _ _ (lint-Fits r)
        (other-Fits (for_failed_step r false unknown 300 ("ci_failure_unknown" ∷ [])) refl refl)))

repairable_iff : (r : FailedRun) → Fits (classify_ci_failure_for_repair r)
unfolding classify_ci_failure_for_repair
repairable_iff r = if-Fits _ _ _ (other-Fits (not_rejected r) refl refl) (
    if-Fits _ _ _
      (other-Fits (for_run r infrastructure 950 ("ci_infrastructure_failure" ∷ [])) refl refl)
      (if-Fits _ _ _
        (other-Fits (for_run r configuration 900 ("ci_configuration_failure" ∷ [])) refl refl)
        (classify_by_gate-Fits r)))

not_taken :
    (b : Bool) (x y : Repairability)
    → x.repairable ≡ false
    → (if b then x else y).repairable ≡ true
    → (b ≡ false) × (y.repairable ≡ true)
not_taken true x y h k = absurd (true≢false (sym k ∙ h))
not_taken false x y h k = (refl, k)

negated : (b : Bool) → not b ≡ false → b ≡ true
negated true h = refl
negated false h = absurd (true≢false h)

-- The three early returns are not taken.
repairable_reaches_gates :
    (r : FailedRun)
    → (classify_ci_failure_for_repair r).repairable ≡ true
    → (not (r.decision == some Decision.rejected) ≡ false)
      × ((optional_in r.failure_type infrastructure_ci_failures
            || (r.status == PipelineStatus.timed_out || r.status == PipelineStatus.interrupted))
          ≡ false)
      × (optional_in r.failure_type configuration_ci_failures ≡ false)
unfolding classify_ci_failure_for_repair
repairable_reaches_gates r h =
    let (a, h') = not_taken _ _ _ refl h in
    let (b, h'') = not_taken _ _ _ refl h' in let (c, _) = not_taken _ _ _ refl h'' in (a, b, c)

or_are_false : (a b c : Bool) → (a || (b || c)) ≡ false → (a ≡ false) × (b ≡ false) × (c ≡ false)
or_are_false a b c h = ground arith

differs : (s t : PipelineStatus) → (s == t) ≡ false → s ≢ t
differs s t h e = ground (arith, (eqb_iff PipelineStatus-discrete s t).1 e)

-- A failed run is handed to a repair exactly when its category is one of failing tests, build or
-- lint, it was rejected, its failure is none of the environment's or the configuration's, and it
-- neither timed out nor was interrupted.
pub repairable_iff_IsCodeFailure :
    (r : FailedRun)
    → let x = classify_ci_failure_for_repair r in
      (x.repairable ≡ true) ↔ (
        IsCodeFailure x
        × (r.decision ≡ some Decision.rejected)
        × (optional_in r.failure_type infrastructure_ci_failures ≡ false)
        × (optional_in r.failure_type configuration_ci_failures ≡ false)
        × (r.status ≢ PipelineStatus.timed_out)
        × (r.status ≢ PipelineStatus.interrupted))
repairable_iff_IsCodeFailure r = (
  (λ h.
      let (rejected, other, configured) = repairable_reaches_gates r h in
      let (a, b, c) = or_are_false _ _ _ other in
      (
        (repairable_iff r).0 h,
        (option_beq_iff r.decision (some Decision.rejected)).0 (negated _ rejected),
        a,
        configured,
        differs _ _ b,
        differs _ _ c,
      )),
  (λ h. (repairable_iff r).1 h.0),
)
