-- ===== src/PlanReview/PolicyLaws.antt =====
-- Which plans pass without an approval, and what an approval is given for.
use mcp_software_factory.Prelude.{
  ℕ, ◌+◌, ◌≤◌, ◌<◌, min, max, ◌≡◌, refl, sym, ap, ◌∙◌, subst, ◌↔◌, ◌⊎◌, inl, inr, Bool-cases, Bool,
  true, false, not, ◌&&◌, ◌||◌, List, [], ◌∷◌, ◌++◌, String, string_eq, option_eq, leb, contains,
  if◌then◌else◌, arith,
}
use mcp_software_factory.PlanReview.Risk.{
  PlanTask, RiskLevel, low, medium, high, critical, Area, area_eq, reason_eq, destructive_operation,
  task_text, risk_level, impact_for_task, names_secret, is_destructive, score_task,
}
use mcp_software_factory.PlanReview.Analysis.{
  SensitiveTask, Findings, no_findings, sorted_areas, task_risk, find_in, collect, total_score,
  analyze_plan_risk,
}
use mcp_software_factory.PlanReview.RiskLaws.{
  Grows, collect-Grows, collect-append, destructive_scores, secret_scores,
}
use mcp_software_factory.PlanReview.Members.{contains-append_right}
use mcp_software_factory.PlanReview.Policy.{
  PolicyDecision, risk_level_is, high_sensitive_tasks, sensitive_areas, needs_no_approval, is_high,
  is_medium, touches_sensitive, has_high_task, evaluate_policy,
}

-- A task that destroys something, or that names a secret.
abbrev pub is_dangerous : PlanTask → Bool
is_dangerous t = is_destructive (task_text t) || names_secret (task_text t)

level_critical : (n : ℕ) → 75 ≤ n → risk_level n ≡ critical
level_critical n h = ground (arith, h)

is_high_level : (n : ℕ) → is_high (risk_level n) ≡ leb 50 n
is_high_level n = chosen (leb 75 n) (leb 50 n) (leb 25 n) ∙ merged
  where
    chosen :
        (p q r : Bool)
        → is_high (if p then critical else (if q then high else (if r then medium else low)))
          ≡ (p || q)
    chosen true q r = refl
    chosen false true r = refl
    chosen false false true = refl
    chosen false false false = refl

    merged : (leb 75 n || leb 50 n) ≡ leb 50 n
    merged = ground arith

is_medium_level : (n : ℕ) → is_medium (risk_level n) ≡ (leb 25 n && not (leb 50 n))
is_medium_level n = chosen (leb 75 n) (leb 50 n) (leb 25 n) ∙ merged
  where
    chosen :
        (p q r : Bool)
        → is_medium (if p then critical else (if q then high else (if r then medium else low)))
          ≡ (not p && not q && r)
    chosen true q r = refl
    chosen false true r = refl
    chosen false false true = refl
    chosen false false false = refl

    merged : (not (leb 75 n) && not (leb 50 n) && leb 25 n) ≡ (leb 25 n && not (leb 50 n))
    merged = ground arith

pub required_lem :
    (level : RiskLevel) (areas : List Area) (tasks : List SensitiveTask)
    → (evaluate_policy level areas tasks).required
      ≡ (is_high level || has_high_task tasks || (is_medium level && touches_sensitive areas))
unfolding evaluate_policy
required_lem level areas tasks = chosen (is_high level) (has_high_task tasks) _
  where
    chosen :
        (a b c : Bool)
        → (if◌then◌else◌ {A = PolicyDecision} a
            record { required = true; reason = risk_level_is level }
            (if b
              then record { required = true; reason = high_sensitive_tasks }
              else (if c
                  then record { required = true; reason = sensitive_areas }
                  else record { required = false; reason = needs_no_approval level }))).required
          ≡ (a || b || c)
    chosen true b c = refl
    chosen false true c = refl
    chosen false false true = refl
    chosen false false false = refl

module _ (paths : String → List String) where
  -- A dangerous task brings a total of 75.
  found_total :
      (t : PlanTask) (f g : Findings)
      → is_dangerous t ≡ true
      → Grows (find_in paths t f) g
      → 75 ≤ total_score g
  unfolding score_task impact_for_task
  found_total t f g h (a, b, c, d, e) =
      let text = task_text t in
      let impacts = impact_for_task text (paths text) in
      elim (Bool-cases (is_destructive text)) [
        | inl k ↦
            let scores = destructive_scores text impacts k in
            let named = d destructive_operation (
              contains-append_right destructive_operation f.reasons (score_task text impacts).1
                scores.1) in
            enough g.base (contains destructive_operation g.reasons) _ _
              (omega (arith, scores.0, a)) named
        | inr k ↦
            many g.base _ _ _ (omega (arith, secret_scores text impacts (ground (arith, h, k)), a))
      ]
    where
      enough :
          (n : ℕ) (b : Bool) (m k : ℕ)
          → 65 ≤ n
          → b ≡ true
          → 75 ≤ min 100 (n + m + (if b then 10 else 0) + k)
      enough n true m k h i = omega (arith, h)
      enough n false m k h i = absurd (ground (arith, i))

      many : (n m k l : ℕ) → 80 ≤ n → 75 ≤ min 100 (n + m + k + l)
      many n m k l h = omega (arith, h)

  -- A plan that holds a task that destroys something, or names a secret or a credential, is
  -- critical, whatever its other tasks are.
  pub dangerous_is_critical :
      (xs ys : List PlanTask) (t : PlanTask)
      → is_dangerous t ≡ true
      → (analyze_plan_risk paths (xs ++ t ∷ ys)).level ≡ critical
  unfolding analyze_plan_risk collect
  dangerous_is_critical xs ys t h =
      level_critical (total_score (collect paths (xs ++ t ∷ ys) no_findings)) (
        subst (λ (g : Findings). 75 ≤ total_score g)
          (sym (collect-append paths xs (t ∷ ys) no_findings))
          (found_total t (collect paths xs no_findings) _ h
            (collect-Grows paths ys (find_in paths t (collect paths xs no_findings)))))

  -- High entries among the sensitive tasks stand for a base of at least 50.
  abbrev IsBacked : Findings → Type 0
  IsBacked f = has_high_task f.sensitive_tasks ≡ true → 50 ≤ f.base

  find_in-IsBacked : (t : PlanTask) (f : Findings) → IsBacked f → IsBacked (find_in paths t f)
  unfolding score_task impact_for_task
  find_in-IsBacked t f h = backed (task_risk paths t).0 (leb 50 (task_risk paths t).0) _ refl
    where
      backed :
          (n : ℕ) (b : Bool) (x : SensitiveTask)
          → leb 50 n ≡ b
          → has_high_task (if b then f.sensitive_tasks ++ x ∷ [] else f.sensitive_tasks) ≡ true
          → 50 ≤ max f.base n
      backed n true x k i = ground (arith, k)
      backed n false x k i = omega (arith, h i)

  collect-IsBacked :
      (ts : List PlanTask) (f : Findings) → IsBacked f → IsBacked (collect paths ts f)
  unfolding collect
  collect-IsBacked [] f h = h
  collect-IsBacked (t ∷ ts) f h = collect-IsBacked ts (find_in paths t f) (find_in-IsBacked t f h)

  -- The policy lets a plan pass without an approval just when its score is below 50, and below 25
  -- or in no sensitive area; high-risk tasks alone never decide it.
  pub needs_no_approval_iff :
      (plan : List PlanTask)
      → let a = analyze_plan_risk paths plan in
        ((evaluate_policy a.level a.impact_areas a.sensitive).required ≡ false)
        ↔ ((a.risk_score < 50) × ((a.risk_score < 25) ⊎ (touches_sensitive a.impact_areas ≡ false)))
  unfolding analyze_plan_risk
  needs_no_approval_iff plan =
      let f = collect paths plan no_findings in
      let score = total_score f in
      decided score (has_high_task f.sensitive_tasks) (touches_sensitive (sorted_areas f.areas)) _
        (λ h. total_base f (collect-IsBacked plan no_findings (λ i. absurd (ground (arith, i))) h))
        (required_lem (risk_level score) (sorted_areas f.areas) f.sensitive_tasks
          ∙ ap
              (λ (b : Bool).
                b
                || has_high_task f.sensitive_tasks
                || (is_medium (risk_level score) && touches_sensitive (sorted_areas f.areas)))
              (is_high_level score)
          ∙ ap
              (λ (b : Bool).
                leb 50 score
                || has_high_task f.sensitive_tasks
                || (b && touches_sensitive (sorted_areas f.areas)))
              (is_medium_level score))
    where
      total_base : (f : Findings) → 50 ≤ f.base → 50 ≤ total_score f
      total_base f h = omega (arith, h)

      decided :
          (n : ℕ) (b c r : Bool)
          → (b ≡ true → 50 ≤ n)
          → r ≡ (leb 50 n || b || ((leb 25 n && not (leb 50 n)) && c))
          → (r ≡ false) ↔ ((n < 50) × ((n < 25) ⊎ (c ≡ false)))
      decided n true c r h k = ground (arith, k, h refl)
      decided n false true r h k = ground (arith, k)
      decided n false false r h k = ground (arith, k)
