-- ===== src/Planning/Entries.antt =====
-- The graph of the tasks: its keys grow, and each holds the dependencies of its last task.
use mcp_software_factory.Prelude.{
  ℕ, suc, ◌≤◌, ◌≡◌, refl, sym, ap, ◌∙◌, List, [], ◌∷◌, ◌==◌, nat_eq, dedup, arith, if◌then◌else◌,
}
use mcp_software_factory.Planning.Order.{Task, Graph, set_node, build_graph}

-- `graph.get(k, set())`
abbrev pub lookup_node : ℕ → Graph → List ℕ
lookup_node k [] = []
lookup_node k ((j, ds) ∷ g) = if j == k then ds else lookup_node k g

-- The dependencies of the last of the tasks with an order, after given ones.
abbrev pub dependencies_from : List ℕ → List Task → ℕ → List ℕ
dependencies_from ds [] k = ds
dependencies_from ds (t ∷ ts) k =
    dependencies_from (if t.order == k then dedup t.depends_on else ds) ts k

abbrev pub dependencies : List Task → ℕ → List ℕ
dependencies = dependencies_from []

-- The keys grow, from a lower bound.
abbrev pub IsIncreasing : ℕ → Graph → Type 0
IsIncreasing n [] = Unit
IsIncreasing n ((k, ds) ∷ g) = (n ≤ k) × IsIncreasing (suc k) g

-- Every item holds what a function gives for its key.
abbrev pub AllSame : (ℕ → List ℕ) → Graph → Type 0
AllSame needs [] = Unit
AllSame needs ((k, ds) ∷ g) = (needs k ≡ ds) × AllSame needs g

set_node-IsIncreasing :
    (n k : ℕ) (ds : List ℕ) (g : Graph)
    → n ≤ k
    → IsIncreasing n g
    → IsIncreasing n (set_node k ds g)
unfolding set_node
set_node-IsIncreasing n k ds [] h i = (h, tt)
set_node-IsIncreasing n k ds ((j, es) ∷ g) h (l, i) =
    ground (arith, set_node-IsIncreasing (suc j) k ds g)

pub build_graph-IsIncreasing :
    (ts : List Task) (g : Graph) → IsIncreasing 0 g → IsIncreasing 0 (build_graph ts g)
unfolding build_graph
build_graph-IsIncreasing [] g i = i
build_graph-IsIncreasing (t ∷ ts) g i =
    build_graph-IsIncreasing ts _
      (set_node-IsIncreasing 0 t.order (dedup t.depends_on) g (omega arith) i)

lookup-set_node :
    (j k : ℕ) (ds : List ℕ) (g : Graph)
    → lookup_node j (set_node k ds g) ≡ (if k == j then ds else lookup_node j g)
unfolding set_node
lookup-set_node j k ds [] = refl
lookup-set_node j k ds ((i, es) ∷ g) = ground (arith, lookup-set_node j k ds g)

pub lookup-build_graph :
    (j : ℕ) (ts : List Task) (g : Graph)
    → lookup_node j (build_graph ts g) ≡ dependencies_from (lookup_node j g) ts j
unfolding build_graph
lookup-build_graph j [] g = refl
lookup-build_graph j (t ∷ ts) g =
    lookup-build_graph j ts (set_node t.order (dedup t.depends_on) g)
    ∙ ap (λ (ds : List ℕ). dependencies_from ds ts j)
        (lookup-set_node j t.order (dedup t.depends_on) g)

entries-AllSame :
    (needs : ℕ → List ℕ) (n : ℕ) (g : Graph)
    → ((j : ℕ) → n ≤ j → needs j ≡ lookup_node j g)
    → IsIncreasing n g
    → AllSame needs g
entries-AllSame needs n [] h i = tt
entries-AllSame needs n ((k, ds) ∷ g) h (l, i) =
    (ground (arith, h k), entries-AllSame needs (suc k) g (λ j m. ground (arith, h j)) i)

-- The items of the graph of the tasks hold the dependencies of its tasks.
pub build_graph-AllSame : (tasks : List Task) → AllSame (dependencies tasks) (build_graph tasks [])
build_graph-AllSame tasks =
    entries-AllSame (dependencies tasks) 0 (build_graph tasks [])
      (λ j m. sym (lookup-build_graph j tasks [])) (build_graph-IsIncreasing tasks [] tt)
