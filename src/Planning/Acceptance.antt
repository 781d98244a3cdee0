-- ===== src/Planning/Acceptance.antt =====
-- The second result of the sort: the tasks are accepted when none depends on itself in the end.
use mcp_software_factory.Prelude.{
  ℕ, zero, suc, ◌<◌, ◌≡◌, refl, sym, ap, ◌∙◌, true, false, not, some, List, [], ◌∷◌, ◌==◌, nat_eq,
  length, contains, is_nonempty, arith, Bool-cases, inl, inr,
}
use mcp_software_factory.Planning.Order.{
  Task, Graph, build_graph, initial_ready, topological_order, is_acyclic,
}
use mcp_software_factory.Planning.Termination.{waiting, length-build_graph}
use mcp_software_factory.Planning.Entries.{
  dependencies, build_graph-AllSame, build_graph-IsIncreasing,
}
use mcp_software_factory.Planning.Keys.{
  has_order, AreDistinct, is_key, is_key-build_graph, length-build_graph_distinct,
}
use mcp_software_factory.Planning.Marks.{seen, AllMarked}
use mcp_software_factory.Planning.Completeness.{
  AllFresh, IsFresh, IsSorting, initial-IsSorting, drain-IsSorting,
}

-- Where the loop ends, with the numbers of the tasks as the keys of the graph.
topological_order-IsSorting :
    (tasks : List Task) (r : List ℕ)
    → topological_order tasks ≡ some r
    → (g : Graph) × (IsSorting (dependencies tasks) (length (build_graph tasks [])) r [] g
        × ((k : ℕ) → is_key k g ≡ has_order k tasks))
unfolding topological_order
topological_order-IsSorting tasks r h =
    let g = build_graph tasks [] in
    let last =
      drain-IsSorting (dependencies tasks) (length g) (suc (length tasks)) [] g (initial_ready g) r
        (initial-IsSorting (dependencies tasks) g (build_graph-IsIncreasing tasks [] tt)
          (build_graph-AllSame tasks))
        h in
    (last.0, (last.1.0, λ k. ground (arith, last.1.1 k, is_key-build_graph k tasks [])))

module _ (needs : ℕ → List ℕ) (r : List ℕ) where
  unplaced-waiting :
      (k : ℕ) (g : Graph)
      → AllMarked r [] g
      → is_key k g ≡ true
      → contains k r ≡ false
      → 0 < waiting g
  unplaced-waiting k [] a h u = absurd (ground (arith, h))
  unplaced-waiting k ((j, ds) ∷ g) (e, a) h u = ground (arith, unplaced-waiting k g a, e, h, u)

  -- A task waits for one that it needs and that is not placed.
  abbrev Waits : ℕ → Type 0
  Waits k = (d : ℕ) × ((contains d (needs k) ≡ true) × (contains d r ≡ false))

  item-Waits :
      (j k : ℕ) (ds : List ℕ)
      → seen r [] j ≡ not (is_nonempty ds)
      → IsFresh needs r j ds
      → (j == k) ≡ true
      → contains k r ≡ false
      → Waits k
  item-Waits j k [] e w h u = absurd (ground (arith, e, h, u))
  item-Waits j k (d ∷ ds) e w h u =
      (d, (ground (arith, (w d (ground arith)).0, h, ap needs), (w d (ground arith)).1))

  unplaced-Waits :
      (k : ℕ) (g : Graph)
      → AllMarked r [] g
      → AllFresh needs r g
      → is_key k g ≡ true
      → contains k r ≡ false
      → Waits k
  unplaced-Waits k [] a f h u = absurd (ground (arith, h))
  unplaced-Waits k ((j, ds) ∷ g) (e, a) (w, f) h u = elim (Bool-cases (j == k)) [
    | inl c ↦ item-Waits j k ds e w c u
    | inr c ↦ unplaced-Waits k g a f (ground (arith, h, c)) u
  ]

  -- Where the needs have ranks, every key is placed.
  ranked_placed :
      (rank : ℕ → ℕ) (g : Graph)
      → AllMarked r [] g
      → AllFresh needs r g
      → ((k d : ℕ)
          → is_key k g ≡ true
          → contains d (needs k) ≡ true
          → (is_key d g ≡ true) × (rank d < rank k))
      → (bound k : ℕ) → rank k < bound
      → is_key k g ≡ true
      → contains k r ≡ true
  ranked_placed rank g a f n zero k l h = absurd (omega (arith, l))
  ranked_placed rank g a f n (suc bound) k l h = elim (Bool-cases (contains k r)) [
    | inl c ↦ c
    | inr c ↦
        let waits = unplaced-Waits k g a f h c in
        let needed = n k waits.0 h waits.1.0 in
        absurd (
          ground (
            arith,
            waits.1.1,
            ranked_placed rank g a f n bound waits.0 (omega (arith, needed.1, l)) needed.0,
          ))
  ]

  placed-waiting :
      (g : Graph)
      → AllMarked r [] g
      → ((k : ℕ) → is_key k g ≡ true → contains k r ≡ true)
      → waiting g ≡ 0
  placed-waiting [] a h = refl
  placed-waiting ((j, ds) ∷ g) (e, a) h =
      ground (arith, h j, e, placed-waiting g a (λ k i. h k (ground (arith, i))))

-- Accepted tasks are all in the order.
pub accepted_are_placed :
    (tasks : List Task) (r : List ℕ)
    → topological_order tasks ≡ some r
    → is_acyclic tasks r ≡ true
    → (k : ℕ) → has_order k tasks ≡ true
    → contains k r ≡ true
accepted_are_placed tasks r h acyclic k m =
    let last = topological_order-IsSorting tasks r h in
    let marked = last.1.0.1.0 in
    elim (Bool-cases (contains k r)) [
      | inl c ↦ c
      | inr c ↦ absurd (
          ground (
            arith,
            last.1.0.1.1.1,
            length-build_graph tasks [],
            acyclic,
            unplaced-waiting (dependencies tasks) r k last.0 marked (last.1.1 k ∙ m) c,
          ))
    ]

-- Tasks with different numbers are accepted when ranks show that none depends on itself in the end:
-- each depends on tasks of a lower rank alone.
pub ranked_are_accepted :
    (tasks : List Task) (rank : ℕ → ℕ) (r : List ℕ)
    → AreDistinct tasks
    → ((k d : ℕ)
        → has_order k tasks ≡ true
        → contains d (dependencies tasks k) ≡ true
        → (has_order d tasks ≡ true) × (rank d < rank k))
    → topological_order tasks ≡ some r
    → is_acyclic tasks r ≡ true
ranked_are_accepted tasks rank r distinct ranked h =
    let last = topological_order-IsSorting tasks r h in
    let needs = dependencies tasks in
    let marked = last.1.0.1.0 in
    let placed = ranked_placed needs r rank last.0 marked last.1.0.1.1.0 (λ k d i n.
      let needed = ranked k d (sym (last.1.1 k) ∙ i) n in (last.1.1 d ∙ needed.0, needed.1)) in
    ground (
      arith,
      last.1.0.1.1.1,
      placed-waiting needs r last.0 marked (λ k i. placed (suc (rank k)) k (omega arith) i),
      length-build_graph_distinct tasks [] distinct (λ j m. refl),
    )
