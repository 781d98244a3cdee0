-- ===== src/PlanReview/ReviewLaws.antt =====
-- What a review lets pass to the judge.
use mcp_software_factory.Prelude.{
  ◌≡◌, refl, sym, ap, ◌∙◌, subst, if_cases, Bool, true, false, not, ◌&&◌, ◌||◌, Option, some, List,
  ◌∷◌, ◌++◌, String, ◌==◌, string_eq, option_eq, arith,
}
use mcp_software_factory.Supervisor.Types.{user_cancelled}
use mcp_software_factory.PlanReview.Risk.{PlanTask, RiskLevel, critical}
use mcp_software_factory.PlanReview.Analysis.{RiskAnalysis, analyze_plan_risk}
use mcp_software_factory.PlanReview.PolicyLaws.{required_lem, is_dangerous, dangerous_is_critical}
use mcp_software_factory.PlanReview.Policy.{
  PolicyReason, is_high, is_medium, has_high_task, touches_sensitive, evaluate_policy, decision_of,
  PlanPayload, ReviewState, plan_approved, plan_rejected, is_plan_approved, Answer, agrees, refuses,
  unclear, Destination, judge, finalize, answered, reject_planning_risk, still_approved,
  asking_approval, planning_risk_policy, accept_planning_risk, is_asking, directed, review_plan,
}

abbrev pub is_agreed : Answer → Bool
is_agreed agrees = true
is_agreed _ = false

module _ (digest : PlanPayload → String) where
  -- The state holds an approval of its own plan.
  abbrev pub is_approved_for : ReviewState → Bool
  is_approved_for s =
      is_plan_approved s.approval_status && s.approval_fingerprint == some (digest s.payload)

  abbrev pub IsPassed : ReviewState → Destination × ReviewState → Type 0
  IsPassed s r =
      (r.0 ≡ judge)
      × (r.1.approval_status ≡ some plan_approved)
      × (r.1.approval_fingerprint ≡ some (digest s.payload))
      × (r.1.payload ≡ s.payload)

  abbrev pub IsStopped : Destination × ReviewState → Type 0
  IsStopped r =
      (r.0 ≡ finalize)
      × (r.1.approval_status ≡ some plan_rejected)
      × (r.1.terminal_status ≡ some user_cancelled)

  -- A review that ends as the approval and the answer say.
  abbrev pub IsReviewed : Bool → ReviewState → Destination × ReviewState → Type 0
  IsReviewed passes s r = (passes ≡ true → IsPassed s r) × (passes ≡ false → IsStopped r)

  accept_own :
      (s : ReviewState)
      → (s.pending_fingerprint == some (digest s.payload)) ≡ true
      → ((accept_planning_risk digest s).approval_status ≡ some plan_approved)
        × ((accept_planning_risk digest s).approval_fingerprint ≡ s.approval_fingerprint)
        × ((accept_planning_risk digest s).payload ≡ s.payload)
  unfolding accept_planning_risk
  accept_own s h =
      if_cases
        (λ (t : ReviewState).
          (t.approval_status ≡ some plan_approved)
          × (t.approval_fingerprint ≡ s.approval_fingerprint)
          × (t.payload ≡ s.payload))
        (not (s.pending_fingerprint == some (digest s.payload)))
        (λ k. absurd (ground (arith, h, k))) (λ _. (refl, refl, refl))

  asked-IsReviewed :
      (a : Answer) (reason : PolicyReason) (s : ReviewState)
      → IsReviewed (is_agreed a) s (directed digest a (asking_approval digest reason s))
  unfolding answered accept_planning_risk reject_planning_risk
  asked-IsReviewed agrees reason s =
      let own =
        accept_own (answered agrees (asking_approval digest reason s))
          (ground (arith, string_eq.same_iff (digest s.payload) (digest s.payload))) in
      ((λ _. (refl, own.0, own.1, own.2)), (λ h. absurd (ground (arith, h))))
  asked-IsReviewed refuses reason s = ((λ h. absurd (ground (arith, h))), (λ _. (refl, refl, refl)))
  asked-IsReviewed unclear reason s = ((λ h. absurd (ground (arith, h))), (λ _. (refl, refl, refl)))

  kept-IsPassed :
      (a : Answer) (reason : PolicyReason) (s : ReviewState)
      → s.planning_valid ≡ true
      → is_asking digest s ≡ false
      → IsPassed s (directed digest a (still_approved digest reason s))
  unfolding answered accept_planning_risk reject_planning_risk
  kept-IsPassed a reason s v p =
      if_cases (IsPassed s) (is_asking digest s) (λ h. absurd (ground (arith, h, p)))
        (λ _.
          if_cases (IsPassed s) s.planning_valid (λ _. (refl, refl, refl, refl))
            (λ h. absurd (ground (arith, h, v))))

  pub review_lem :
      (a : Answer) (s : ReviewState)
      → s.planning_valid ≡ true
      → (decision_of s.payload.risk).required ≡ true
      → is_asking digest s ≡ false
      → IsReviewed (is_approved_for s || is_agreed a) s (review_plan digest a s)
  unfolding review_plan planning_risk_policy
  review_lem a s v d p =
      let Goal : ReviewState → Type 0 =
        λ z. IsReviewed (is_approved_for s || is_agreed a) s (directed digest a z) in
      let reason : PolicyReason = (decision_of s.payload.risk).reason in
      if_cases Goal (not s.planning_valid) (λ h. absurd (ground (arith, h, v)))
        (λ _.
          if_cases Goal (not (decision_of s.payload.risk).required)
            (λ h. absurd (ground (arith, h, d)))
            (λ _.
              if_cases Goal (is_approved_for s)
                (λ h. ((λ _. kept-IsPassed a reason s v p), (λ k. absurd (ground (arith, h, k)))))
                (λ h.
                  subst
                    (λ (b : Bool).
                      IsReviewed (b || is_agreed a) s
                        (directed digest a (asking_approval digest reason s)))
                    (sym h) (asked-IsReviewed a reason s))))

  -- A valid plan that holds a destructive task, or one that names a secret, is critical, and passes to
  -- the judge just when the user agrees or the state holds an approval of the same plan.
  pub dangerous_plan_needs_approval :
      (paths : String → List String) (xs ys : List PlanTask) (t : PlanTask) (a : Answer)
      (s : ReviewState)
      → is_dangerous t ≡ true
      → s.planning_valid ≡ true
      → is_asking digest s ≡ false
      → s.payload.tasks ≡ xs ++ t ∷ ys
      → s.payload.risk ≡ some (analyze_plan_risk paths s.payload.tasks)
      → IsReviewed (is_approved_for s || is_agreed a) s (review_plan digest a s)
  unfolding evaluate_policy
  dangerous_plan_needs_approval paths xs ys t a s h v p e r =
      review_lem a s v
        (ap (λ (o : Option RiskAnalysis). (decision_of o).required)
            (r ∙ ap (λ (ts : List PlanTask). some (analyze_plan_risk paths ts)) e)
          ∙ critical_required (analyze_plan_risk paths (xs ++ t ∷ ys))
              (dangerous_is_critical paths xs ys t h))
        p
    where
      critical_required :
          (r : RiskAnalysis) → r.level ≡ critical → (decision_of (some r)).required ≡ true
      critical_required r h =
          required_lem r.level r.impact_areas r.sensitive
          ∙ ap
              (λ (l : RiskLevel).
                is_high l
                || has_high_task r.sensitive
                || (is_medium l && touches_sensitive r.impact_areas))
              h
