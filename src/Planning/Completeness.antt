-- ===== src/Planning/Completeness.antt =====
-- The loop leaves out no task that does not wait for another that is left out.
use mcp_software_factory.Prelude.{
  ℕ, zero, suc, ◌+◌, ◌<◌, ◌≡◌, refl, subst, ap, ◌∙◌, Bool, true, false, ◌||◌, some, List, [], ◌∷◌,
  ◌++◌, ◌==◌, nat_eq, length, length-append, contains, arith,
}
use mcp_software_factory.Planning.Order.{
  Graph, initial_ready, without, Progress, appended, relax, sort_numbers, drain,
}
use mcp_software_factory.Planning.Termination.{waiting, length-sort_numbers, initial-waiting}
use mcp_software_factory.Planning.Entries.{IsIncreasing, AllSame}
use mcp_software_factory.Planning.Soundness.{contains-append, contains-without, if_both}
use mcp_software_factory.Planning.Keys.{is_key}
use mcp_software_factory.Planning.Marks.{
  contains-sort_numbers, AllMarked, AllMarked-same, relax-IsIncreasing, if_cases, relax_marks,
}

module _ (needs : ℕ → List ℕ) where
  -- What an item waits for is needed, and not placed.
  abbrev pub IsFresh : List ℕ → ℕ → List ℕ → Type 0
  IsFresh result k ds =
      (d : ℕ) → contains d ds ≡ true → (contains d (needs k) ≡ true) × (contains d result ≡ false)

  abbrev pub AllFresh : List ℕ → Graph → Type 0
  AllFresh result [] = Unit
  AllFresh result ((k, ds) ∷ g) = IsFresh result k ds × AllFresh result g

  without-IsFresh :
      (n : ℕ) (result : List ℕ) (k : ℕ) (ds : List ℕ)
      → IsFresh result k ds
      → IsFresh (result ++ n ∷ []) k (without n ds)
  without-IsFresh n result k ds f d h = (
    (f d (ground (arith, h, contains-without d n ds))).0,
    ground (
      arith,
      (f d (ground (arith, h, contains-without d n ds))).1,
      h,
      contains-without d n ds,
      contains-append d result (n ∷ []),
    ),
  )

  later-IsFresh :
      (n : ℕ) (result : List ℕ) (k : ℕ) (ds : List ℕ)
      → contains n ds ≡ false
      → IsFresh result k ds
      → IsFresh (result ++ n ∷ []) k ds
  later-IsFresh n result k ds c f d h = (
    (f d h).0,
    ground (arith, (f d h).1, contains-append d result (n ∷ []), other_than d n ds h c),
  )
    where
      other_than :
          (d n : ℕ) (ds : List ℕ) → contains d ds ≡ true → contains n ds ≡ false → (d == n) ≡ false
      other_than d n [] h c = ground arith
      other_than d n (e ∷ ds) h c = ground (arith, other_than d n ds)

  relax_fresh :
      (n : ℕ) (result ready : List ℕ) (g : Graph)
      → AllFresh result g
      → AllFresh (result ++ n ∷ []) (relax n (result ++ n ∷ []) ready g).graph
  unfolding relax
  relax_fresh n result ready [] f = tt
  relax_fresh n result ready ((k, ds) ∷ g) (w, f) =
      if_cases (λ (q : Progress). AllFresh (result ++ n ∷ []) q.graph) (contains n ds)
        (λ c. (
          without-IsFresh n result k ds w,
          relax_fresh n result (appended k (without n ds) (result ++ n ∷ []) ready) g f,
        ))
        (λ c. (later-IsFresh n result k ds c w, relax_fresh n result ready g f))

  -- The state of the loop: every item is placed or ready, or waits for tasks that are not placed;
  -- the tasks are counted.
  abbrev pub IsSorting : ℕ → List ℕ → List ℕ → Graph → Type 0
  IsSorting total result ready g =
      IsIncreasing 0 g
      × (AllMarked result ready g
          × (AllFresh result g × (length result + (length ready + waiting g) ≡ total)))

  AllMarked-moved :
      (n : ℕ) (result ready : List ℕ) (g : Graph)
      → AllMarked result (n ∷ ready) g
      → AllMarked (result ++ n ∷ []) ready g
  AllMarked-moved n result ready [] a = tt
  AllMarked-moved n result ready ((k, ds) ∷ g) (e, a) =
      (ground (arith, e, contains-append k result (n ∷ [])), AllMarked-moved n result ready g a)

  round-IsSorting :
      (total n : ℕ) (result ready : List ℕ) (g : Graph)
      → IsSorting total result (n ∷ ready) g
      → let result' = result ++ n ∷ [] in
        let p = relax n result' ready g in IsSorting total result' (sort_numbers p.ready) p.graph
  round-IsSorting total n result ready g (i, (a, (f, c))) =
      let result' = result ++ n ∷ [] in
      let p = relax n result' ready g in
      let kept = relax_marks 0 n result' ready g i (AllMarked-moved n result ready g a) in
      let i' = relax-IsIncreasing 0 n result' ready g i in
      (
        i',
        (
          AllMarked-same 0 result' p.ready (sort_numbers p.ready) p.graph i'
              (λ k h. ap (λ (b : Bool). contains k result' || b) (contains-sort_numbers k p.ready))
              kept.0,
          (
            relax_fresh n result ready g f,
            omega (arith, kept.1, c, length-append result (n ∷ []), length-sort_numbers p.ready),
          ),
        ),
      )

  pub drain-IsSorting :
      (total fuel : ℕ) (result : List ℕ) (g : Graph) (ready r : List ℕ)
      → IsSorting total result ready g
      → drain fuel result g ready ≡ some r
      → (g' : Graph) × (IsSorting total r [] g' × ((k : ℕ) → is_key k g' ≡ is_key k g))
  unfolding drain relax
  drain-IsSorting total zero result g ready r s h = absurd (ground (arith, h))
  drain-IsSorting total (suc fuel) result g [] r s h =
      (g, (subst (λ (q : List ℕ). IsSorting total q [] g) (ground (arith, h)) s, λ k. refl))
  drain-IsSorting total (suc fuel) result g (n ∷ ready) r s h =
      let last = drain-IsSorting total fuel _ _ _ r (round-IsSorting total n result ready g s) h in
      (last.0, (last.1.0, λ k. last.1.1 k ∙ is_key-relax k n (result ++ n ∷ []) ready g))
    where
      is_key-relax :
          (k n : ℕ) (result ready : List ℕ) (g : Graph)
          → is_key k (relax n result ready g).graph ≡ is_key k g
      is_key-relax k n result ready [] = refl
      is_key-relax k n result ready ((j, ds) ∷ g) =
          if_both (λ (q : Progress). is_key k q.graph ≡ ((j == k) || is_key k g)) (contains n ds)
            (ap (λ (b : Bool). (j == k) || b)
              (is_key-relax k n result (appended j (without n ds) result ready) g))
            (ap (λ (b : Bool). (j == k) || b) (is_key-relax k n result ready g))

  pub initial-IsSorting :
      (g : Graph) → IsIncreasing 0 g → AllSame needs g → IsSorting (length g) [] (initial_ready g) g
  unfolding initial_ready
  initial-IsSorting g i s =
      (i, (initial-AllMarked 0 g i, (initial-AllFresh g s, omega (arith, initial-waiting g))))
    where
      initial-below :
          (m : ℕ) (g : Graph) (k : ℕ)
          → IsIncreasing m g
          → k < m
          → contains k (initial_ready g) ≡ false
      initial-below m [] k i h = refl
      initial-below m ((j, ds) ∷ g) k (l, i) h = ground (arith, initial-below (suc j) g k i, l, h)

      initial-AllMarked : (m : ℕ) (g : Graph) → IsIncreasing m g → AllMarked [] (initial_ready g) g
      initial-AllMarked m [] i = tt
      initial-AllMarked m ((k, ds) ∷ g) (l, i) = (
        ground (arith, initial-below (suc k) g k i),
        AllMarked-same (suc k) [] _ _ g i (λ j h. ground (arith, h))
            (initial-AllMarked (suc k) g i),
      )

      initial-AllFresh : (g : Graph) → AllSame needs g → AllFresh [] g
      initial-AllFresh [] s = tt
      initial-AllFresh ((k, ds) ∷ g) (e, s) =
          ((λ d h. (ground (arith, h, ap (contains d) e), refl)), initial-AllFresh g s)
