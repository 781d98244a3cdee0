-- ===== src/Planning/Tests.antt =====
-- Tests of the order of tasks, and the theorems at concrete tasks.
use mcp_software_factory.Prelude.{
  ℕ, ◌≡◌, refl, true, some, List, [], ◌∷◌, ◌<◌, contains, nat_eq, arith, ◌==◌, if◌then◌else◌,
}
use mcp_software_factory.Planning.Order.{Task, topological_order, is_acyclic}
use mcp_software_factory.Planning.Entries.{dependencies}
use mcp_software_factory.Planning.Termination.{topological_order_total}
use mcp_software_factory.Planning.Soundness.{IsOrdered, topological_order-IsOrdered}
use mcp_software_factory.Planning.Keys.{has_order}
use mcp_software_factory.Planning.Acceptance.{ranked_are_accepted}

abbrev task : ℕ → List ℕ → Task
task n ds = record { order = n; depends_on = ds }

-- A plan whose second task waits for the third.
abbrev plan : List Task
plan = task 1 [] ∷ task 2 (3 ∷ 1 ∷ []) ∷ task 3 (1 ∷ 1 ∷ []) ∷ []

abbrev cyclic_plan : List Task
cyclic_plan = task 1 [] ∷ task 2 (3 ∷ []) ∷ task 3 (2 ∷ []) ∷ []

plan_order : topological_order plan ≡ some (1 ∷ 3 ∷ 2 ∷ [])
unfolding topological_order
plan_order = refl

cyclic_plan_order : topological_order cyclic_plan ≡ some (1 ∷ [])
unfolding topological_order
cyclic_plan_order = refl

topological_order_total_example : (r : List ℕ) × (topological_order cyclic_plan ≡ some r)
topological_order_total_example = topological_order_total cyclic_plan

topological_order-IsOrdered_example : IsOrdered (dependencies plan) [] (1 ∷ 3 ∷ 2 ∷ [])
topological_order-IsOrdered_example = topological_order-IsOrdered plan (1 ∷ 3 ∷ 2 ∷ []) plan_order

abbrev rank : ℕ → ℕ
rank n = if n == 1 then 0 else (if n == 3 then 1 else 2)

plan-ranked :
    (k d : ℕ)
    → has_order k plan ≡ true
    → contains d (dependencies plan k) ≡ true
    → (has_order d plan ≡ true) × (rank d < rank k)
plan-ranked k d h n = ground arith

ranked_are_accepted_example : is_acyclic plan (1 ∷ 3 ∷ 2 ∷ []) ≡ true
ranked_are_accepted_example =
    ranked_are_accepted plan rank (1 ∷ 3 ∷ 2 ∷ []) (refl, (refl, (refl, tt))) plan-ranked plan_order
