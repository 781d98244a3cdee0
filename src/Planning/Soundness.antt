-- ===== src/Planning/Soundness.antt =====
-- The order places a task behind the tasks that it depends on.
use mcp_software_factory.Prelude.{
  ℕ, zero, suc, ◌≡◌, refl, subst, ap, Bool, true, false, not, ◌||◌, ◌&&◌, some, List, [], ◌∷◌, ◌++◌,
  ◌==◌, nat_eq, leb, length, contains, arith, if◌then◌else◌,
}
use mcp_software_factory.Planning.Order.{
  Task, Graph, build_graph, initial_ready, without, Progress, appended, relax, insert_number,
  sort_numbers, drain, topological_order,
}
use mcp_software_factory.Planning.Entries.{dependencies, AllSame, build_graph-AllSame}

-- Every item of the first list is in the second.
abbrev pub IsWithin : List ℕ → List ℕ → Type 0
IsWithin ds placed = (d : ℕ) → contains d ds ≡ true → contains d placed ≡ true

pub contains-append :
    (d : ℕ) (xs ys : List ℕ) → contains d (xs ++ ys) ≡ contains d xs || contains d ys
contains-append d [] ys = refl
contains-append d (x ∷ xs) ys = ground (arith, contains-append d xs ys)

pub contains-without :
    (d n : ℕ) (ds : List ℕ) → contains d (without n ds) ≡ contains d ds && not (d == n)
contains-without d n [] = refl
contains-without d n (e ∷ ds) = ground (arith, contains-without d n ds)

-- What both results of a test have, its result has.
pub if_both :
    {A : Type 0} (P : A → Type 0) (b : Bool) {x y : A} → P x → P y → P (if b then x else y)
if_both P true p q = p
if_both P false p q = q

module _ (needs : ℕ → List ℕ) where
  -- Behind the given tasks, each task of a list has what it needs in front of it.
  abbrev pub IsOrdered : List ℕ → List ℕ → Type 0
  IsOrdered placed [] = Unit
  IsOrdered placed (n ∷ ns) = IsWithin (needs n) placed × IsOrdered (placed ++ n ∷ []) ns

  -- What a task of the graph needs is still waited for, or placed.
  abbrev AllPlaced : List ℕ → Graph → Type 0
  AllPlaced result [] = Unit
  AllPlaced result ((k, ds) ∷ g) =
      ((d : ℕ) → contains d (needs k) ≡ true → contains d ds || contains d result ≡ true)
      × AllPlaced result g

  abbrev AllReady : List ℕ → List ℕ → Type 0
  AllReady result [] = Unit
  AllReady result (n ∷ ns) = IsWithin (needs n) result × AllReady result ns

  IsOrdered-append :
      (placed xs : List ℕ) (n : ℕ)
      → IsOrdered placed xs
      → IsWithin (needs n) (placed ++ xs)
      → IsOrdered placed (xs ++ n ∷ [])
  IsOrdered-append placed [] n o w =
      ((λ d h. ground (arith, w d h, contains-append d placed [])), tt)
  IsOrdered-append placed (x ∷ xs) n (v, o) w = (
    v,
    IsOrdered-append (placed ++ x ∷ []) xs n o (λ d h. ground (
      arith,
      w d h,
      contains-append d placed (x ∷ xs),
      contains-append d (placed ++ x ∷ []) xs,
      contains-append d placed (x ∷ []),
    )),
  )

  AllReady-later :
      (result : List ℕ) (n : ℕ) (ns : List ℕ) → AllReady result ns → AllReady (result ++ n ∷ []) ns
  AllReady-later result n [] a = tt
  AllReady-later result n (m ∷ ns) (w, a) = (
    (λ d h. ground (arith, w d h, contains-append d result (n ∷ []))),
    AllReady-later result n ns a,
  )

  AllReady-append :
      (result ns : List ℕ) (n : ℕ)
      → AllReady result ns
      → IsWithin (needs n) result
      → AllReady result (ns ++ n ∷ [])
  AllReady-append result [] n a w = (w, tt)
  AllReady-append result (m ∷ ns) n (v, a) w = (v, AllReady-append result ns n a w)

  insert_number-AllReady :
      (result : List ℕ) (n : ℕ) (ns : List ℕ)
      → IsWithin (needs n) result
      → AllReady result ns
      → AllReady result (insert_number n ns)
  unfolding insert_number
  insert_number-AllReady result n [] w a = (w, tt)
  insert_number-AllReady result n (m ∷ ns) w (v, a) =
      if_both (AllReady result) (leb n m) (w, (v, a)) (v, insert_number-AllReady result n ns w a)

  sort_numbers-AllReady :
      (result ns : List ℕ) → AllReady result ns → AllReady result (sort_numbers ns)
  unfolding sort_numbers
  sort_numbers-AllReady result [] a = tt
  sort_numbers-AllReady result (n ∷ ns) (w, a) =
      insert_number-AllReady result n _ w (sort_numbers-AllReady result ns a)

  appended-AllReady :
      (other : ℕ) (ds result ready : List ℕ)
      → AllReady result ready
      → ((d : ℕ) → contains d (needs other) ≡ true → contains d ds || contains d result ≡ true)
      → AllReady result (appended other ds result ready)
  appended-AllReady other (d ∷ ds) result ready a w = a
  appended-AllReady other [] result ready a w =
      if_both (AllReady result) (not (contains other result) && not (contains other ready))
        (AllReady-append result ready other a w) a

  -- Removing the placed task keeps what is waited for or placed.
  without_placed :
      (n : ℕ) (needed ds result : List ℕ)
      → ((d : ℕ) → contains d needed ≡ true → contains d ds || contains d result ≡ true)
      → (d : ℕ) → contains d needed ≡ true
      → contains d (without n ds) || contains d (result ++ n ∷ []) ≡ true
  without_placed n needed ds result w d h =
      ground (arith, w d h, contains-without d n ds, contains-append d result (n ∷ []))

  later_placed :
      (n : ℕ) (needed ds result : List ℕ)
      → ((d : ℕ) → contains d needed ≡ true → contains d ds || contains d result ≡ true)
      → (d : ℕ) → contains d needed ≡ true
      → contains d ds || contains d (result ++ n ∷ []) ≡ true
  later_placed n needed ds result w d h = ground (arith, w d h, contains-append d result (n ∷ []))

  -- The inner loop keeps both; its `result` holds the placed task already.
  relax_keeps :
      (n : ℕ) (result ready : List ℕ) (g : Graph)
      → AllPlaced result g
      → AllReady (result ++ n ∷ []) ready
      → let p = relax n (result ++ n ∷ []) ready g in
        AllPlaced (result ++ n ∷ []) p.graph × AllReady (result ++ n ∷ []) p.ready
  unfolding relax
  relax_keeps n result ready [] p a = (tt, a)
  relax_keeps n result ready ((k, ds) ∷ g) (w, p) a =
      let w' = without_placed n (needs k) ds result w in
      let changed =
        relax_keeps n result (appended k (without n ds) (result ++ n ∷ []) ready) g p
          (appended-AllReady k (without n ds) (result ++ n ∷ []) ready a w') in
      let same = relax_keeps n result ready g p a in
      if_both
        (λ (q : Progress).
          AllPlaced (result ++ n ∷ []) q.graph × AllReady (result ++ n ∷ []) q.ready)
        (contains n ds) ((w', changed.0), changed.1)
        ((later_placed n (needs k) ds result w, same.0), same.1)

  pub drain-IsOrdered :
      (fuel : ℕ) (result : List ℕ) (g : Graph) (ready r : List ℕ)
      → IsOrdered [] result
      → AllPlaced result g
      → AllReady result ready
      → drain fuel result g ready ≡ some r
      → IsOrdered [] r
  unfolding drain
  drain-IsOrdered zero result g ready r o p a h = absurd (ground (arith, h))
  drain-IsOrdered (suc fuel) result g [] r o p a h = subst (IsOrdered []) (ground (arith, h)) o
  drain-IsOrdered (suc fuel) result g (n ∷ ready) r o p (w, a) h =
      let kept = relax_keeps n result ready g p (AllReady-later result n ready a) in
      drain-IsOrdered fuel _ _ _ r (IsOrdered-append [] result n o w) kept.0
        (sort_numbers-AllReady _ _ kept.1) h

  pub entries-AllPlaced : (g : Graph) → AllSame needs g → AllPlaced [] g
  entries-AllPlaced [] s = tt
  entries-AllPlaced ((k, ds) ∷ g) (e, s) =
      ((λ d h. ground (arith, ap (contains d) e)), entries-AllPlaced g s)

  pub initial-AllReady : (g : Graph) → AllSame needs g → AllReady [] (initial_ready g)
  unfolding initial_ready
  initial-AllReady [] s = tt
  initial-AllReady ((k, []) ∷ g) (e, s) =
      ((λ d h. ground (arith, ap (contains d) e)), initial-AllReady g s)
  initial-AllReady ((k, _ ∷ _) ∷ g) (e, s) = initial-AllReady g s

-- The order places each of its tasks behind all the tasks that this task depends on, by the last of
-- the given tasks with its number; a task with an unknown dependency is not in it.
pub topological_order-IsOrdered :
    (tasks : List Task) (r : List ℕ)
    → topological_order tasks ≡ some r
    → IsOrdered (dependencies tasks) [] r
unfolding topological_order
topological_order-IsOrdered tasks r h =
    let s = build_graph-AllSame tasks in
    let needs = dependencies tasks in
    drain-IsOrdered needs (suc (length tasks)) [] (build_graph tasks []) _ r tt
      (entries-AllPlaced needs _ s) (initial-AllReady needs _ s) h
