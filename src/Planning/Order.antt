-- ===== src/Planning/Order.antt =====
-- `_topological_sort` of graph/subgraphs/planning/executability.py. The dictionary `graph` is read by
-- its sorted keys alone, so it is a list of its items, sorted by their keys.
use mcp_software_factory.Prelude.{
  ℕ, zero, suc, Bool, not, ◌&&◌, Option, none, some, List, [], ◌∷◌, ◌++◌, ◌==◌, nat_eq, ltb, leb,
  length, contains, dedup, keep, is_nonempty, if◌then◌else◌,
}

-- The fields of an `ImplementationTask` that the order depends on.
pub record Task : Type 0 where
  pub order : ℕ
  pub depends_on : List ℕ

abbrev pub Graph : Type 0
Graph = List (ℕ × List ℕ)

-- `graph[order] = deps`
unfoldable pub set_node : ℕ → List ℕ → Graph → Graph
set_node k ds [] = (k, ds) ∷ []
set_node k ds ((j, es) ∷ g) =
    let later = set_node k ds g in
    if k == j then (k, ds) ∷ g else (if ltb k j then (k, ds) ∷ (j, es) ∷ g else (j, es) ∷ later)

-- `{task.order: set(task.depends_on) for task in tasks}`
unfoldable pub build_graph : List Task → Graph → Graph
unfolding set_node
build_graph [] g = g
build_graph (t ∷ ts) g = build_graph ts (set_node t.order (dedup t.depends_on) g)

-- `sorted(order for order, deps in graph.items() if not deps)`
unfoldable pub initial_ready : Graph → List ℕ
initial_ready [] = []
initial_ready ((k, ds) ∷ g) =
    let rest = initial_ready g in if is_nonempty ds then rest else k ∷ rest

abbrev pub without : ℕ → List ℕ → List ℕ
without n = keep (λ d. not (d == n))

-- The variables `graph` and `ready` behind the inner loop.
pub record Progress : Type 0 where
  pub graph : Graph
  pub ready : List ℕ

-- `ready.append(other)`, where nothing is left to wait for.
abbrev pub appended : ℕ → List ℕ → List ℕ → List ℕ → List ℕ
appended other ds result ready =
    if not (is_nonempty ds) && not (contains other result) && not (contains other ready)
    then ready ++ other ∷ []
    else ready

-- The inner loop, `for other in sorted(graph)`, over the items that are left.
unfoldable pub relax : ℕ → List ℕ → List ℕ → Graph → Progress
relax order result ready [] = record { graph = []; ready = ready }
relax order result ready ((other, ds) ∷ g) =
    let ds' = without order ds in
    let changed = relax order result (appended other ds' result ready) g in
    let same = relax order result ready g in
    if contains order ds
    then record { graph = (other, ds') ∷ changed.graph; ready = changed.ready }
    else record { graph = (other, ds) ∷ same.graph; ready = same.ready }

-- `ready.sort()`
unfoldable pub insert_number : ℕ → List ℕ → List ℕ
insert_number n [] = n ∷ []
insert_number n (m ∷ ms) =
    let later = insert_number n ms in if leb n m then n ∷ m ∷ ms else m ∷ later

unfoldable pub sort_numbers : List ℕ → List ℕ
unfolding insert_number
sort_numbers [] = []
sort_numbers (n ∷ ns) = insert_number n (sort_numbers ns)

-- The loop `while ready`; `none` means that the fuel ran out.
unfoldable pub drain : ℕ → List ℕ → Graph → List ℕ → Option (List ℕ)
unfolding relax sort_numbers
drain zero result g ready = none
drain (suc fuel) result g [] = some result
drain (suc fuel) result g (n ∷ ready) =
    let result' = result ++ n ∷ [] in
    let p = relax n result' ready g in drain fuel result' p.graph (sort_numbers p.ready)

unfoldable pub topological_order : List Task → Option (List ℕ)
unfolding build_graph initial_ready drain
topological_order tasks =
    let g = build_graph tasks [] in drain (suc (length tasks)) [] g (initial_ready g)

abbrev pub is_acyclic : List Task → List ℕ → Bool
is_acyclic tasks result = length result == length tasks
