-- ===== src/Planning/Marks.antt =====
-- The inner loop marks a task as ready just when it waits for nothing any more.
use mcp_software_factory.Prelude.{
  ℕ, suc, ◌+◌, ◌≤◌, ◌<◌, ◌≡◌, refl, ◌∙◌, Bool, true, false, not, ◌||◌, List, [], ◌∷◌, ◌==◌, nat_eq,
  length, length-append, contains, is_nonempty, arith, if◌then◌else◌,
}
use mcp_software_factory.Planning.Order.{
  Graph, without, Progress, appended, relax, insert_number, sort_numbers,
}
use mcp_software_factory.Planning.Termination.{waiting}
use mcp_software_factory.Planning.Entries.{IsIncreasing}
use mcp_software_factory.Planning.Soundness.{contains-append, if_both}

contains-insert_number :
    (d n : ℕ) (ns : List ℕ) → contains d (insert_number n ns) ≡ (d == n) || contains d ns
unfolding insert_number
contains-insert_number d n [] = refl
contains-insert_number d n (m ∷ ms) = ground (arith, contains-insert_number d n ms)

pub contains-sort_numbers : (d : ℕ) (ns : List ℕ) → contains d (sort_numbers ns) ≡ contains d ns
unfolding sort_numbers
contains-sort_numbers d [] = refl
contains-sort_numbers d (n ∷ ns) =
    ground (arith, contains-sort_numbers d ns, contains-insert_number d n (sort_numbers ns))

abbrev pub seen : List ℕ → List ℕ → ℕ → Bool
seen result ready k = contains k result || contains k ready

-- An item is seen just when it waits for nothing.
abbrev pub AllMarked : List ℕ → List ℕ → Graph → Type 0
AllMarked result ready [] = Unit
AllMarked result ready ((k, ds) ∷ g) =
    (seen result ready k ≡ not (is_nonempty ds)) × AllMarked result ready g

appended-seen :
    (other : ℕ) (ds result ready : List ℕ) (k : ℕ)
    → seen result ready other ≡ false
    → seen result (appended other ds result ready) k
      ≡ (if is_nonempty ds then seen result ready k else ((k == other) || seen result ready k))
appended-seen other ds result ready k h = ground (arith, h, contains-append k ready (other ∷ []))

marked-length-appended :
    (other : ℕ) (ds result ready : List ℕ)
    → seen result ready other ≡ false
    → length (appended other ds result ready) + (if is_nonempty ds then 1 else 0)
      ≡ suc (length ready)
marked-length-appended other ds result ready h = ground (arith, h, length-append ready (other ∷ []))

pub AllMarked-same :
    (m : ℕ) (result ready ready' : List ℕ) (g : Graph)
    → IsIncreasing m g
    → ((k : ℕ) → m ≤ k → seen result ready' k ≡ seen result ready k)
    → AllMarked result ready g
    → AllMarked result ready' g
AllMarked-same m result ready ready' [] i h a = tt
AllMarked-same m result ready ready' ((k, ds) ∷ g) (l, i) h (e, a) =
    (h k l ∙ e, AllMarked-same (suc k) result ready ready' g i (λ j n. h j (omega (arith, l, n))) a)

pub relax-IsIncreasing :
    (m n : ℕ) (result ready : List ℕ) (g : Graph)
    → IsIncreasing m g
    → IsIncreasing m (relax n result ready g).graph
unfolding relax
relax-IsIncreasing m n result ready [] i = tt
relax-IsIncreasing m n result ready ((k, ds) ∷ g) (l, i) =
    if_both (λ (q : Progress). IsIncreasing m q.graph) (contains n ds)
      (l, relax-IsIncreasing (suc k) n result _ g i)
      (l, relax-IsIncreasing (suc k) n result ready g i)

-- The inner loop makes ready no number below the keys of the graph.
relax-below :
    (m n : ℕ) (result ready : List ℕ) (g : Graph) (j : ℕ)
    → IsIncreasing m g
    → j < m
    → contains j (relax n result ready g).ready ≡ contains j ready
unfolding relax
relax-below m n result ready [] j i h = refl
relax-below m n result ready ((k, ds) ∷ g) j (l, i) h =
    if_both (λ (q : Progress). contains j q.ready ≡ contains j ready) (contains n ds)
      (relax-below (suc k) n result _ g j i (omega (arith, l, h))
        ∙ below_appended j k (without n ds) result ready (omega (arith, l, h)))
      (relax-below (suc k) n result ready g j i (omega (arith, l, h)))
  where
    below_appended :
        (j k : ℕ) (ds result ready : List ℕ)
        → j < k
        → contains j (appended k ds result ready) ≡ contains j ready
    below_appended j k ds result ready h = ground (arith, h, contains-append j ready (k ∷ []))

pub if_cases :
    {A : Type 0} (P : A → Type 0) (b : Bool) {x y : A}
    → (b ≡ true → P x)
    → (b ≡ false → P y)
    → P (if b then x else y)
if_cases P true p q = p refl
if_cases P false p q = q refl

contains-nonempty : (n : ℕ) (ds : List ℕ) → contains n ds ≡ true → is_nonempty ds ≡ true
contains-nonempty n [] h = h
contains-nonempty n (d ∷ ds) h = refl

-- The inner loop keeps the marks and loses no task.
abbrev HasMarks : List ℕ → ℕ → Progress → Type 0
HasMarks result total p =
    AllMarked result p.ready p.graph × (length p.ready + waiting p.graph ≡ total)

pub relax_marks :
    (m n : ℕ) (result ready : List ℕ) (g : Graph)
    → IsIncreasing m g
    → AllMarked result ready g
    → HasMarks result (length ready + waiting g) (relax n result ready g)
unfolding relax
relax_marks m n result ready [] i a = (tt, refl)
relax_marks m n result ready ((k, ds) ∷ g) (l, i) (e, a) =
    if_cases (HasMarks result (length ready + waiting ((k, ds) ∷ g))) (contains n ds)
      (λ c.
        let ds' = without n ds in
        let ready' = appended k ds' result ready in
        let unseen : seen result ready k ≡ false = ground (arith, e, contains-nonempty n ds c) in
        let kept = relax_marks (suc k) n result ready' g i (
          AllMarked-same (suc k) result ready ready' g i
            (λ j h. ground (arith, appended-seen k ds' result ready j unseen, h)) a) in
        (
          (
            ground (
              arith,
              relax-below (suc k) n result ready' g k i,
              appended-seen k ds' result ready k unseen,
              unseen,
            ),
            kept.0,
          ),
          ground (
            arith,
            kept.1,
            marked-length-appended k ds' result ready unseen,
            contains-nonempty n ds c,
          ),
        ))
      (λ c.
        let kept = relax_marks (suc k) n result ready g i a in
        (
          (ground (arith, relax-below (suc k) n result ready g k i, e), kept.0),
          ground (arith, kept.1),
        ))
