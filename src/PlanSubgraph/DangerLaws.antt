-- ===== src/PlanSubgraph/DangerLaws.antt =====
-- From the planning subgraph to the review: what `from_planning_output` of graph/subgraph_adapters.py
-- hands over, and what the review then lets pass.
use mcp_software_factory.Prelude.{
  ℕ, ◌+◌, ◌<◌, ◌≡◌, sym, ◌∙◌, subst, inl, inr, true, false, ◌||◌, some, List, ◌∷◌, ◌++◌, String,
  arith,
}
use mcp_software_factory.PlanReview.Risk.{PlanTask}
use mcp_software_factory.PlanReview.Analysis.{analyze_plan_risk}
use mcp_software_factory.PlanReview.Policy.{
  PlanPayload, ReviewState, Answer, is_asking, review_plan,
}
use mcp_software_factory.PlanReview.PolicyLaws.{is_dangerous}
use mcp_software_factory.PlanReview.ReviewLaws.{
  is_agreed, is_approved_for, IsReviewed, dangerous_plan_needs_approval,
}
use mcp_software_factory.PlanSubgraph.Loop.{
  Refinement, PlanningState, Checks, limit, from_planning, plan_until,
}
use mcp_software_factory.PlanSubgraph.LoopLaws.{IsSettled, plan_until_total}

some-injective : {A : Type 0} (x y : A) → some x ≡ some y → x ≡ y
some-injective x y h = cc

module _ (k : Checks) where
  settled_risk :
      (s z : PlanningState)
      → IsSettled k s z
      → z.valid ≡ true
      → z.risk ≡ some (analyze_plan_risk k.paths z.plan.tasks)
  settled_risk s z (b, inl (v, r, g)) h = r
  settled_risk s z (b, inr (v, f)) h = absurd (ground (arith, h, v))

  ended_risk :
      (service : PlanningState → Refinement) (fuel : ℕ) (s z : PlanningState)
      → limit s < fuel + s.attempts
      → 0 < fuel
      → plan_until fuel k service s ≡ some z
      → z.valid ≡ true
      → z.risk ≡ some (analyze_plan_risk k.paths z.plan.tasks)
  ended_risk service fuel s z l p e h =
      let (w, f, settled) = plan_until_total k service fuel s l p in
      settled_risk s z (subst (IsSettled k s) (some-injective w z (sym f ∙ e)) settled) h

  -- Where the loop of the planning subgraph has accepted a plan with a task that destroys something,
  -- or names a secret, the plan passes to the judge just when the user agrees or the state holds an
  -- approval of the same plan, and otherwise the workflow is cancelled; no approval may be pending.
  pub planned_danger_needs_approval :
      (digest : PlanPayload → String) (service : PlanningState → Refinement) (fuel : ℕ)
      (s z : PlanningState) (r : ReviewState) (a : Answer) (xs ys : List PlanTask) (t : PlanTask)
      → limit s < fuel + s.attempts
      → 0 < fuel
      → plan_until fuel k service s ≡ some z
      → z.valid ≡ true
      → z.plan.tasks ≡ xs ++ t ∷ ys
      → is_dangerous t ≡ true
      → is_asking digest (from_planning z r) ≡ false
      → IsReviewed digest
          (is_approved_for digest (from_planning z r) || is_agreed a)
          (from_planning z r)
          (review_plan digest a (from_planning z r))
  planned_danger_needs_approval digest service fuel s z r a xs ys t l p e v tasks h pending =
      dangerous_plan_needs_approval digest k.paths xs ys t a (from_planning z r) h v pending tasks
        (ended_risk service fuel s z l p e v)
