-- ===== src/TestingRepair/NodeSteps.antt =====
-- Every node of the subgraph leads on to one that leaves fewer nodes to visit.
use mcp_software_factory.Prelude.{
  ℕ, zero, suc, ◌≤◌, ◌<◌, ◌≡◌, ◌≢◌, refl, subst, sym, ap, ◌⊎◌, inl, inr, Bool, true, false, not,
  ◌||◌, Option, none, some, List, [], ◌∷◌, String, truthy, get_or, or_else, ◌==◌, option_eq,
  string_eq, bool_eq, arith, if◌then◌else◌, length,
}
use mcp_software_factory.Host.Types.{Payload, RepairPhase-discrete}
use mcp_software_factory.Host.Types
use mcp_software_factory.Host.Paths.{Libraries}
use mcp_software_factory.Host.Call.{Surroundings}
use mcp_software_factory.TestingRepair.State.{TestingRepairState}
use mcp_software_factory.TestingRepair.Nodes.{
  Turn, System, ToolExecutionOutcome, execute_tests, execute_fix, after_execution, after_fix,
  starts_repair, has_success, forget_source, clear_approval, fix_failure,
}
use mcp_software_factory.TestingRepair.Reads.{
  read_failing_test_node, read_related_source_node, after_test_read, after_source_read, read_failed,
  read_test, read_source, read_candidate, read_candidates, item_at, related_source_candidates,
}
use mcp_software_factory.TestingRepair.Routers.{route_after_related_source}
use mcp_software_factory.TestingRepair.Graph.{
  Node, at_qa_knowledge, at_repair_knowledge, at_test_request, at_approval, at_tests,
  at_failing_test, at_related_source, at_prepare_fix, at_fix, at_exit, run_node,
}
use mcp_software_factory.TestingRepair.Forward.{or_else-truthy}
use mcp_software_factory.TestingRepair.Later.{
  WhenSome, IsLater, execute_approved-IsLater, read_path-IsLater, prepare_knowledge_state,
}
use mcp_software_factory.TestingRepair.Ranks.{
  MayFix, IsPlaced, Leads, knowledge-Leads, test_request-Leads, approval-Leads, prepare_fix-Leads,
  tests-Leads, failing_test-Leads, fix-Leads, related_source-Leads,
}

-- Where a node makes a system, the node leads on from it.
abbrev pub LeadsOn : Node → TestingRepairState → Option System → Type 0
LeadsOn n s = WhenSome (λ (y : System). Leads n s y.state)

if-LeadsOn :
    (n : Node) (s : TestingRepairState) (b : Bool) (p q : Option System)
    → LeadsOn n s p
    → LeadsOn n s q
    → LeadsOn n s (if b then p else q)
if-LeadsOn n s true p q f g = f
if-LeadsOn n s false p q f g = g

after_execution-LeadsOn :
    (s : TestingRepairState) (o : Option ToolExecutionOutcome)
    → WhenSome (λ (x : ToolExecutionOutcome). IsLater s x.system.state) o
    → LeadsOn at_tests s (after_execution s o)
after_execution-LeadsOn s none f = tt
after_execution-LeadsOn s (some o) f =
    if-LeadsOn at_tests s (starts_repair s o.system.state) _ _
      (tests-Leads s (forget_source (clear_approval o.system)).state f.grows)
      (tests-Leads s (clear_approval o.system).state f.grows)

tests-LeadsOn :
    (w : Surroundings) (u : Turn) (y : System) → LeadsOn at_tests y.state (execute_tests w u y)
unfolding execute_tests
tests-LeadsOn w u y = after_execution-LeadsOn y.state _ (execute_approved-IsLater w u y _)

renamed-truthy :
    (b : Bool) (t : String)
    → truthy (some t) ≡ true
    → truthy (some (if b then "repair_state_guard_rejected" else t)) ≡ true
renamed-truthy true t h = refl
renamed-truthy false t h = h

value-truthy : (o : Option String) → truthy o ≡ true → truthy (some (get_or o "")) ≡ true
value-truthy none h = absurd (ground (arith, h))
value-truthy (some t) h = h

fix_failure-truthy : (p : Option Payload) → truthy (some (fix_failure p)) ≡ true
fix_failure-truthy none = refl
fix_failure-truthy (some p) =
    let status = or_else (or_else p.status p.failure_type) (some "update_project_files_failed") in
    renamed-truthy (get_or status "" == "repair_step_not_allowed") (get_or status "") (
      value-truthy status (
        or_else-truthy (or_else p.status p.failure_type) (some "update_project_files_failed") refl))

-- A fix leads to the rerun only where it is counted, or a failure stands.
counted_or_failed :
    (s t : TestingRepairState)
    → MayFix s
    → IsLater s t
    → (t.repair_phase ≡ Types.rerun_tests → s.repair_attempts < t.repair_attempts)
      ⊎ (truthy t.failure_type ≡ true)
counted_or_failed s t (inl h) f = inl (f.counts h)
counted_or_failed s t (inr h) f = inr (f.fails h)

after_fix-LeadsOn :
    (y : System) (o : Option ToolExecutionOutcome)
    → MayFix y.state
    → WhenSome (λ (x : ToolExecutionOutcome). IsLater y.state x.system.state) o
    → LeadsOn at_fix y.state (after_fix y o)
after_fix-LeadsOn y none m f = tt
after_fix-LeadsOn y (some o) m f =
    if-LeadsOn at_fix y.state (o.is_error || not (has_success true o.payload)) _ _
      (fix-Leads y.state _ (omega arith) (inr (fix_failure-truthy o.payload)))
      (fix-Leads y.state (clear_approval o.system).state f.grows
        (counted_or_failed y.state o.system.state m f))

fix-LeadsOn :
    (w : Surroundings) (u : Turn) (y : System)
    → MayFix y.state
    → LeadsOn at_fix y.state (execute_fix w u y)
unfolding execute_fix
fix-LeadsOn w u y m = after_fix-LeadsOn y _ m (execute_approved-IsLater w u y _)

after_test_read-LeadsOn :
    (y : System) (o : Option ToolExecutionOutcome)
    → WhenSome (λ (x : ToolExecutionOutcome). IsLater y.state x.system.state) o
    → LeadsOn at_failing_test y.state (after_test_read y o)
after_test_read-LeadsOn y none f = tt
after_test_read-LeadsOn y (some o) f =
    if-LeadsOn at_failing_test y.state (read_failed o) _ _
      (failing_test-Leads y.state _ (omega arith)) (failing_test-Leads y.state _ f.grows)

read_test-LeadsOn :
    (w : Surroundings) (u : Turn) (y : System) (files : List String)
    → LeadsOn at_failing_test y.state (read_test w u y files)
read_test-LeadsOn w u y [] = failing_test-Leads y.state _ (omega arith)
read_test-LeadsOn w u y (f ∷ fs) = after_test_read-LeadsOn y _ (read_path-IsLater w u y _)

failing_test-LeadsOn :
    (w : Surroundings) (u : Turn) (y : System)
    → LeadsOn at_failing_test y.state (read_failing_test_node w u y)
unfolding read_failing_test_node
failing_test-LeadsOn w u y = read_test-LeadsOn w u y _

after_source_read-LeadsOn :
    (y : System) (path : String) (candidates : List String) (o : Option ToolExecutionOutcome)
    → WhenSome (λ (x : ToolExecutionOutcome). IsLater y.state x.system.state) o
    → LeadsOn at_related_source y.state (after_source_read y path candidates o)
after_source_read-LeadsOn y path candidates none f = tt
after_source_read-LeadsOn y path candidates (some o) f =
    if-LeadsOn at_related_source y.state (read_failed o) _ _
      (related_source-Leads y.state _ (omega arith) refl)
      (related_source-Leads y.state _ f.grows refl)

read_candidate-LeadsOn :
    (w : Surroundings) (u : Turn) (y : System) (candidates : List String) (path : Option String)
    → LeadsOn at_related_source y.state (read_candidate w u y candidates path)
read_candidate-LeadsOn w u y candidates none = tt
read_candidate-LeadsOn w u y candidates (some path) =
    after_source_read-LeadsOn y path candidates _ (read_path-IsLater w u y (some path))

item_at-none : (n : ℕ) (xs : List String) → item_at n xs ≡ none → length xs ≤ n
item_at-none n [] h = omega arith
item_at-none zero (x ∷ xs) h = absurd (ground (arith, h))
item_at-none (suc n) (x ∷ xs) h = omega (arith, item_at-none n xs h)

-- Where no candidate is left, the subgraph is left.
none_left-Leads :
    (s t : TestingRepairState)
    → t.repair_phase ≡ Types.read_related_source
    → length t.related_source_candidates ≤ t.related_source_read_attempts
    → Leads at_related_source s t
unfolding route_after_related_source RepairPhase-discrete
none_left-Leads s t p h = ground arith

read_source-LeadsOn :
    (w : Surroundings) (u : Turn) (y : System) (candidates : List String) (item : Option String)
    → item_at y.state.related_source_read_attempts candidates ≡ item
    → LeadsOn at_related_source y.state (read_source w u y candidates item)
read_source-LeadsOn w u y candidates none h =
    none_left-Leads y.state _ refl (item_at-none y.state.related_source_read_attempts candidates h)
read_source-LeadsOn w u y candidates (some source) h = read_candidate-LeadsOn w u y candidates _

no_candidates :
    (l : Libraries) (s : TestingRepairState)
    → related_source_candidates l s ≡ none
    → s.related_source_candidates ≡ []
unfolding related_source_candidates
no_candidates l s h = ground arith

read_candidates-LeadsOn :
    (w : Surroundings) (u : Turn) (y : System) (candidates : Option (List String))
    → related_source_candidates w.libraries y.state ≡ candidates
    → LeadsOn at_related_source y.state (read_candidates w u y candidates)
read_candidates-LeadsOn w u y none h =
    none_left-Leads y.state _ refl (omega (arith, ap length (no_candidates w.libraries y.state h)))
read_candidates-LeadsOn w u y (some candidates) h = read_source-LeadsOn w u y candidates _ refl

related_source-LeadsOn :
    (w : Surroundings) (u : Turn) (y : System)
    → LeadsOn at_related_source y.state (read_related_source_node w u y)
unfolding read_related_source_node
related_source-LeadsOn w u y = read_candidates-LeadsOn w u y _ refl

kept-Leads : (n : Node) (s t : TestingRepairState) → t ≡ s → Leads n s s → Leads n s t
kept-Leads n s t e h = subst (Leads n s) (sym e) h

-- Every node but the exit leads on.
pub node-LeadsOn :
    (w : Surroundings) (u : Turn) (n : Node) (y : System)
    → n ≢ at_exit
    → IsPlaced n y.state
    → LeadsOn n y.state (run_node w u n y)
node-LeadsOn w u at_qa_knowledge y e p =
    kept-Leads at_qa_knowledge y.state _ (prepare_knowledge_state w u y) (knowledge-Leads y.state).0
node-LeadsOn w u at_repair_knowledge y e p =
    kept-Leads at_repair_knowledge y.state _ (prepare_knowledge_state w u y)
      (knowledge-Leads y.state).1
node-LeadsOn w u at_test_request y e p = test_request-Leads y.state
node-LeadsOn w u at_approval y e p = approval-Leads u.decision y.state p
node-LeadsOn w u at_tests y e p = tests-LeadsOn w u y
node-LeadsOn w u at_failing_test y e p = failing_test-LeadsOn w u y
node-LeadsOn w u at_related_source y e p = related_source-LeadsOn w u y
node-LeadsOn w u at_prepare_fix y e p = prepare_fix-Leads u y.state
node-LeadsOn w u at_fix y e p = fix-LeadsOn w u y p
node-LeadsOn w u at_exit y e p = absurd (e refl)
