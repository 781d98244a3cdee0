-- ===== src/PlanSubgraph/LoopLaws.antt =====
-- The loop of the planning subgraph ends, in a valid plan or in a failure.
use mcp_software_factory.Prelude.{
  ℕ, zero, suc, ◌+◌, ◌≤◌, ◌<◌, max, ◌≡◌, refl, ◌⊎◌, inl, inr, if_cases, true, false, Option, some,
  List, [], ◌∷◌, String, leb, ltb, is_nonempty, arith,
}
use mcp_software_factory.Supervisor.Types.{planning_failed}
use mcp_software_factory.PlanReview.Analysis.{analyze_plan_risk}
use mcp_software_factory.PlanSubgraph.Gate.{
  PlanQuality, QualityGate, GateDecision, continues, refines, fails, evaluate_quality_gate,
}
use mcp_software_factory.PlanSubgraph.Loop.{
  Contract, malformed, checked, Refinement, refined, domain_error, PlanningState, Checks, limit,
  gated, examined, concluded, validate_plan, refine_plan, PlanningRoute, to_valid, to_refine,
  to_failed, route_after_plan_validation, plan_until,
}

none_left : (es : List String) → is_nonempty es ≡ true → es ≡ [] → ⊥
none_left [] h i = ground (arith, h)
none_left (e ∷ es) h i = cc

module _ (k : Checks) where
  -- The state behind an examination, with its errors.
  abbrev IsExamined : PlanningState → PlanningState × List String → Type 0
  IsExamined s (t, errors) =
      (t.attempts ≡ s.attempts)
      × (limit t ≡ limit s)
      × (errors ≡ []
          → (t.risk ≡ some (analyze_plan_risk k.paths t.plan.tasks))
            × (t.gate_decision ≡ some continues))

  gated-IsExamined :
      (s : PlanningState) (q : PlanQuality) (g : QualityGate)
      → IsExamined s (gated (analyze_plan_risk k.paths s.plan.tasks) q g s)
  gated-IsExamined s q g = (refl, refl, λ h. (refl, none_continue g.decision g.reason h))
    where
      none_continue :
          (d : GateDecision) (r : String)
          → (elim d as (λ x. List String) [ continues ↦ [] | _ ↦ r ∷ [] ]) ≡ []
          → some d ≡ some continues
      none_continue continues r h = refl
      none_continue refines r h = cc
      none_continue fails r h = cc

  examined-IsExamined : (c : Contract) (s : PlanningState) → IsExamined s (examined k c s)
  unfolding evaluate_quality_gate analyze_plan_risk
  examined-IsExamined (malformed e) s = (refl, refl, λ h. cc)
  examined-IsExamined (checked p es) s =
      let t : PlanningState = record s { plan = p } in
      if_cases (IsExamined s) (is_nonempty es) (λ h. (refl, refl, λ i. absurd (none_left es h i)))
        (λ _.
          if_cases (IsExamined s) (is_nonempty (k.executability p t))
            (λ h. (refl, refl, λ i. absurd (none_left (k.executability p t) h i)))
            (λ _.
              let q = k.quality p (record t { risk = some (analyze_plan_risk k.paths p.tasks) }) in
              gated-IsExamined t q (evaluate_quality_gate q t.attempts (limit t))))

  -- A validation: the plan is valid and was reviewed, or the attempts are used up and it has failed.
  abbrev pub IsValidated : PlanningState → Type 0
  IsValidated z =
      ((z.valid ≡ true)
        × (z.risk ≡ some (analyze_plan_risk k.paths z.plan.tasks))
        × (z.gate_decision ≡ some continues))
      ⊎ ((z.valid ≡ false) × (limit z ≤ z.attempts → z.terminal_status ≡ some planning_failed))

  concluded-IsValidated :
      (s : PlanningState) (r : PlanningState × List String)
      → IsExamined s r
      → IsValidated (concluded r)
        × ((concluded r).attempts ≡ s.attempts)
        × (limit (concluded r) ≡ limit s)
  concluded-IsValidated s (t, []) (a, l, e) = (inl (refl, (e refl).0, (e refl).1), a, l)
  concluded-IsValidated s (t, x ∷ xs) (a, l, e) =
      let Goal : PlanningState → Type 0 =
        λ z. IsValidated z × (z.attempts ≡ s.attempts) × (limit z ≡ limit s) in
      if_cases Goal (leb (limit t) t.attempts) (λ h. (inr (refl, λ _. refl), a, l))
        (λ h. (inr (refl, λ i. absurd (ground (arith, h, i))), a, l))

  validate_plan-IsValidated :
      (s : PlanningState)
      → IsValidated (validate_plan k s)
        × ((validate_plan k s).attempts ≡ s.attempts)
        × (limit (validate_plan k s) ≡ limit s)
  unfolding validate_plan
  validate_plan-IsValidated s =
      concluded-IsValidated s (examined k (k.contract s.plan s) s)
        (examined-IsExamined (k.contract s.plan s) s)

  -- How the loop leaves a state.
  abbrev pub IsSettled : PlanningState → PlanningState → Type 0
  IsSettled s z =
      (z.attempts ≤ max s.attempts (limit s))
      × (((z.valid ≡ true)
            × (z.risk ≡ some (analyze_plan_risk k.paths z.plan.tasks))
            × (z.gate_decision ≡ some continues))
          ⊎ ((z.valid ≡ false) × (z.terminal_status ≡ some planning_failed)))

  refined_counts :
      (r : Refinement) (t : PlanningState)
      → ((refine_plan r t).attempts ≡ t.attempts + 1) × (limit (refine_plan r t) ≡ limit t)
  unfolding refine_plan
  refined_counts (refined p) t = (refl, refl)
  refined_counts (domain_error c m) t = (refl, refl)

  abbrev Ends : ℕ → (PlanningState → Refinement) → PlanningState → Type 0
  Ends fuel service s = (z : PlanningState) × (plan_until fuel k service s ≡ some z) × IsSettled s z

  routed :
      (s t : PlanningState) (again : Option PlanningState)
      → IsValidated t
      → t.attempts ≡ s.attempts
      → limit t ≡ limit s
      → (t.attempts < limit t → (z : PlanningState) × (again ≡ some z) × IsSettled s z)
      → (z : PlanningState) × (elim (route_after_plan_validation t) as (λ r. Option PlanningState) [
        | to_valid ↦ some t
        | to_refine ↦ again
        | to_failed ↦ some t
      ]
          ≡ some z)
        × IsSettled s z
  unfolding route_after_plan_validation
  routed s t again v a l h = decided v
    where
      IsRouted : PlanningRoute → Type 0
      IsRouted r =
          (z : PlanningState) × (elim r as (λ q. Option PlanningState) [
            | to_valid ↦ some t
            | to_refine ↦ again
            | to_failed ↦ some t
          ]
            ≡ some z)
          × IsSettled s z

      decided : IsValidated t → IsRouted (route_after_plan_validation t)
      decided (inl w) =
          if_cases IsRouted t.valid (λ _. (t, refl, (omega (arith, a), inl w)))
            (λ i. absurd (ground (arith, w.0, i)))
      decided (inr (w, f)) =
          if_cases IsRouted t.valid (λ i. absurd (ground (arith, w, i)))
            (λ _.
              if_cases IsRouted (ltb t.attempts (limit t)) (λ i. h (ground (arith, i)))
                (λ i. (t, refl, (omega (arith, a), inr (w, f (ground (arith, i)))))))

  -- Whatever the contract, the executability, the quality and the service give, the loop ends, within
  -- the attempts that are left and one round more: in a valid plan with the analysis of its own risk
  -- and an open gate, or in the status of a failed planning, with no more attempts than allowed.
  pub plan_until_total :
      (service : PlanningState → Refinement) (fuel : ℕ) (s : PlanningState)
      → limit s < fuel + s.attempts
      → 0 < fuel
      → (z : PlanningState) × (plan_until fuel k service s ≡ some z) × IsSettled s z
  unfolding plan_until
  plan_until_total service zero s h p = absurd (omega (arith, p))
  plan_until_total service (suc fuel) s h p =
      let t = validate_plan k s in
      let (v, a, l) = validate_plan-IsValidated s in
      routed s t (plan_until fuel k service (refine_plan (service t) t)) v a l (λ i.
        let x = refine_plan (service t) t in
        let (c, m) = refined_counts (service t) t in
        let (z, e, (b, w)) =
          plan_until_total service fuel x (omega (arith, h, i, a, l, c, m))
            (omega (arith, h, i, a, l)) in
        (z, e, (omega (arith, b, i, a, l, c, m), w)))
