-- ===== src/Planning/Keys.antt =====
-- The numbers of the tasks are the keys of their graph.
use mcp_software_factory.Prelude.{
  ℕ, suc, ◌+◌, ◌≡◌, refl, Bool, true, false, ◌||◌, List, [], ◌∷◌, ◌==◌, nat_eq, length, arith,
  dedup,
}
use mcp_software_factory.Planning.Order.{Task, Graph, set_node, build_graph}

abbrev pub has_order : ℕ → List Task → Bool
has_order k [] = false
has_order k (t ∷ ts) = t.order == k || has_order k ts

-- No two tasks have the same number.
abbrev pub AreDistinct : List Task → Type 0
AreDistinct [] = Unit
AreDistinct (t ∷ ts) = (has_order t.order ts ≡ false) × AreDistinct ts

abbrev pub is_key : ℕ → Graph → Bool
is_key k [] = false
is_key k ((j, ds) ∷ g) = j == k || is_key k g

is_key-set_node :
    (j k : ℕ) (ds : List ℕ) (g : Graph) → is_key j (set_node k ds g) ≡ (k == j) || is_key j g
unfolding set_node
is_key-set_node j k ds [] = refl
is_key-set_node j k ds ((i, es) ∷ g) = ground (arith, is_key-set_node j k ds g)

pub is_key-build_graph :
    (j : ℕ) (ts : List Task) (g : Graph)
    → is_key j (build_graph ts g) ≡ has_order j ts || is_key j g
unfolding build_graph
is_key-build_graph j [] g = refl
is_key-build_graph j (t ∷ ts) g = ground (
  arith,
  is_key-build_graph j ts (set_node t.order (dedup t.depends_on) g),
  is_key-set_node j t.order (dedup t.depends_on) g,
)

length-set_node_new :
    (k : ℕ) (ds : List ℕ) (g : Graph)
    → is_key k g ≡ false
    → length (set_node k ds g) ≡ suc (length g)
unfolding set_node
length-set_node_new k ds [] h = refl
length-set_node_new k ds ((j, es) ∷ g) h = ground (arith, length-set_node_new k ds g)

-- The orders that are keys already are none of the tasks'.
abbrev IsNew : Graph → List Task → Type 0
IsNew g ts = (j : ℕ) → has_order j ts ≡ true → is_key j g ≡ false

pub length-build_graph_distinct :
    (ts : List Task) (g : Graph)
    → AreDistinct ts
    → IsNew g ts
    → length (build_graph ts g) ≡ length ts + length g
unfolding build_graph
length-build_graph_distinct [] g d n = omega arith
length-build_graph_distinct (t ∷ ts) g (h, d) n =
    let g' = set_node t.order (dedup t.depends_on) g in
    omega (
      arith,
      length-build_graph_distinct ts g' d
          (λ j m. ground (arith, n j, h, is_key-set_node j t.order (dedup t.depends_on) g)),
      length-set_node_new t.order (dedup t.depends_on) g (n t.order (ground arith)),
    )
