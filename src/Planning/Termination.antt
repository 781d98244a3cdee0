-- ===== src/Planning/Termination.antt =====
-- The sort of the tasks ends, with one round to spare for each of them.
use mcp_software_factory.Prelude.{
  ℕ, zero, suc, ◌+◌, ◌≤◌, ◌<◌, ◌≡◌, refl, true, some, List, [], ◌∷◌, ◌++◌, nat_eq, length,
  length-append, contains, is_nonempty, arith, if◌then◌else◌, dedup,
}
use mcp_software_factory.Planning.Order.{
  Task, Graph, set_node, build_graph, initial_ready, without, appended, relax, insert_number,
  sort_numbers, drain, topological_order,
}

-- The number of tasks that still wait for another.
abbrev pub waiting : Graph → ℕ
waiting [] = 0
waiting ((_, ds) ∷ g) = if is_nonempty ds then suc (waiting g) else waiting g

length-insert_number : (n : ℕ) (ns : List ℕ) → length (insert_number n ns) ≡ suc (length ns)
unfolding insert_number
length-insert_number n [] = refl
length-insert_number n (m ∷ ms) = ground (arith, length-insert_number n ms)

pub length-sort_numbers : (ns : List ℕ) → length (sort_numbers ns) ≡ length ns
unfolding sort_numbers
length-sort_numbers [] = refl
length-sort_numbers (n ∷ ns) =
    omega (arith, length-sort_numbers ns, length-insert_number n (sort_numbers ns))

contains-nonempty : (n : ℕ) (ds : List ℕ) → contains n ds ≡ true → is_nonempty ds ≡ true
contains-nonempty n [] h = h
contains-nonempty n (d ∷ ds) h = refl

length-appended :
    (other : ℕ) (ds result ready : List ℕ)
    → length (appended other ds result ready) + (if is_nonempty ds then 1 else 0)
      ≤ suc (length ready)
length-appended other ds result ready = ground (arith, length-append ready (other ∷ []))

relax-waiting :
    (n : ℕ) (result ready : List ℕ) (g : Graph)
    → let p = relax n result ready g in length p.ready + waiting p.graph ≤ length ready + waiting g
unfolding relax
relax-waiting n result ready [] = omega arith
relax-waiting n result ready ((k, ds) ∷ g) = ground (
  arith,
  relax-waiting n result ready g,
  relax-waiting n result (appended k (without n ds) result ready) g,
  length-appended k (without n ds) result ready,
  contains-nonempty n ds,
)

drain_total :
    (fuel : ℕ) (result : List ℕ) (g : Graph) (ready : List ℕ)
    → length ready + waiting g < fuel
    → (r : List ℕ) × (drain fuel result g ready ≡ some r)
unfolding drain
drain_total zero result g ready h = absurd (omega arith)
drain_total (suc fuel) result g [] h = (result, refl)
drain_total (suc fuel) result g (n ∷ ready) h = drain_total fuel _ _ _ (
    omega (
      arith,
      relax-waiting n (result ++ n ∷ []) ready g,
      length-sort_numbers (relax n (result ++ n ∷ []) ready g).ready,
    ))

pub initial-waiting : (g : Graph) → length (initial_ready g) + waiting g ≡ length g
unfolding initial_ready
initial-waiting [] = refl
initial-waiting ((k, ds) ∷ g) = ground (arith, initial-waiting g)

length-set_node : (k : ℕ) (ds : List ℕ) (g : Graph) → length (set_node k ds g) ≤ suc (length g)
unfolding set_node
length-set_node k ds [] = omega arith
length-set_node k ds ((j, es) ∷ g) = ground (arith, length-set_node k ds g)

pub length-build_graph :
    (ts : List Task) (g : Graph) → length (build_graph ts g) ≤ length ts + length g
unfolding build_graph
length-build_graph [] g = omega arith
length-build_graph (t ∷ ts) g = omega (
  arith,
  length-build_graph ts (set_node t.order (dedup t.depends_on) g),
  length-set_node t.order (dedup t.depends_on) g,
)

-- For any tasks, cyclic ones and ones with unknown dependencies too, the sort ends with an order.
pub topological_order_total :
    (tasks : List Task) → (r : List ℕ) × (topological_order tasks ≡ some r)
unfolding topological_order
topological_order_total tasks =
    let g = build_graph tasks [] in
    drain_total (suc (length tasks)) [] g (initial_ready g)
      (omega (arith, initial-waiting g, length-build_graph tasks []))
