-- ===== src/EventStore/FetchLaws.antt =====
-- The loop of `get_events_sync` ends, and gives the first of the events that are asked for.
use mcp_software_factory.Prelude.{
  if_cases, ℕ, zero, suc, ◌+◌, ◌≤◌, ◌<◌, ◌≡◌, refl, sym, ap, ◌∙◌, subst, inl, inr, true, false, not,
  Option, some, List, [], ◌∷◌, ◌++◌, nat_eq, drop, if◌then◌else◌, ltb, length, is_nonempty, arith,
}
use mcp_software_factory.Events.Broker.{take}
use mcp_software_factory.EventStore.Types.{WorkflowEvent, Row}
use mcp_software_factory.EventStore.Query.{sequence, behind, read_rows, scan, fetch}
use mcp_software_factory.EventStore.QueryLaws.{
  IsAbove, IsScanned, head-IsAbove, behind-IsAbove, behind-behind, scan-IsScanned, scan_grows,
  append-nil, take_all,
}

abbrev pub IsIncreasing : List Row → Type 0
IsIncreasing [] = Unit
IsIncreasing (r ∷ rs) = IsAbove (sequence r) rs

increasing_behind : (c : ℕ) (rs : List Row) → IsIncreasing rs → IsAbove c (behind c rs)
increasing_behind c [] a = tt
increasing_behind c (r ∷ rs) a = head-IsAbove c r rs a (behind-IsAbove c (sequence r) rs a)

pub fetch_done :
    (fuel : ℕ) (select : ℕ → List Row) (limit b c : ℕ) (es : List WorkflowEvent)
    → 0 < fuel
    → length es ≡ limit
    → fetch fuel select limit b c es ≡ some es
unfolding fetch
fetch_done zero select limit b c es f h = absurd (omega arith)
fetch_done (suc fuel) select limit b c es f h = ground arith

-- The tests of the loop, on the batch and what the scan of it gives.
abbrev decided :
    ℕ
    → ℕ
    → List WorkflowEvent
    → List Row
    → ℕ × List WorkflowEvent
    → Option (List WorkflowEvent)
    → Option (List WorkflowEvent)
decided limit b es rows q again =
    if not (ltb (length es) limit)
    then some es
    else (if not (is_nonempty rows)
        then some es
        else (if ltb (length rows) b then some q.1 else again))

take_empty : (b : ℕ) (m : List Row) → 0 < b → not (is_nonempty (take b m)) ≡ true → m ≡ []
take_empty zero m l h = absurd (omega arith)
take_empty (suc b) [] l h = refl
take_empty (suc b) (r ∷ m) l h = absurd (ground (arith, h))

take_short : (b : ℕ) (m : List Row) → ltb (length (take b m)) b ≡ true → drop b m ≡ []
take_short zero m h = absurd (ground (arith, h))
take_short (suc b) [] h = refl
take_short (suc b) (r ∷ m) h = take_short b m (ground (arith, h))

take_long : (b : ℕ) (m : List Row) → ltb (length (take b m)) b ≡ false → b ≤ length m
take_long zero m h = omega arith
take_long (suc b) [] h = absurd (ground (arith, h))
take_long (suc b) (r ∷ m) h = omega (arith, take_long b m (ground (arith, h)))

module _ (limit b : ℕ) (positive : 0 < b) where
  abbrev pub Gives : List WorkflowEvent → List Row → Option (List WorkflowEvent) → Type 0
  Gives es m r = r ≡ some (take limit (es ++ read_rows m))

  empty-Gives :
      (es : List WorkflowEvent) (m : List Row) → length es < limit → m ≡ [] → Gives es m (some es)
  unfolding read_rows
  empty-Gives es m h e = ap some (
      sym (take_all limit es (omega arith))
      ∙ ap (take limit) (sym (append-nil es))
      ∙ ap (λ (rs : List Row). take limit (es ++ read_rows rs)) (sym e))

  short-Gives :
      (es : List WorkflowEvent) (m : List Row) (q : ℕ × List WorkflowEvent)
      → IsScanned limit b es m q
      → drop b m ≡ []
      → Gives es m (some q.1)
  unfolding read_rows
  short-Gives es m q (inl (l, f)) d = ap some (sym f)
  short-Gives es m q (inr (l, (e, f))) d = ap some (
      sym (take_all limit q.1 (omega arith))
      ∙ ap (take limit)
          (sym (append-nil q.1) ∙ ap (λ (rs : List Row). q.1 ++ read_rows rs) (sym d) ∙ f))

  again-Gives :
      (es : List WorkflowEvent) (m : List Row) (q : ℕ × List WorkflowEvent)
      (again : Option (List WorkflowEvent))
      → IsScanned limit b es m q
      → (length q.1 ≡ limit → again ≡ some q.1)
      → (length q.1 < limit → behind q.0 m ≡ drop b m → Gives q.1 (drop b m) again)
      → Gives es m again
  again-Gives es m q again (inl (l, f)) full left = full l ∙ ap some (sym f)
  again-Gives es m q again (inr (l, (e, f))) full left =
      left l e ∙ ap (λ (fs : List WorkflowEvent). some (take limit fs)) f

  decided-Gives :
      (es : List WorkflowEvent) (m : List Row) (q : ℕ × List WorkflowEvent)
      (again : Option (List WorkflowEvent))
      → length es < limit
      → IsScanned limit b es m q
      → (b ≤ length m → length q.1 ≡ limit → again ≡ some q.1)
      → (b ≤ length m → length q.1 < limit → behind q.0 m ≡ drop b m → Gives q.1 (drop b m) again)
      → Gives es m (decided limit b es (take b m) q again)
  decided-Gives es m q again h s full left =
      if_cases (Gives es m) (not (ltb (length es) limit)) (λ e. absurd (ground (arith, e)))
        (λ _.
          if_cases (Gives es m) (not (is_nonempty (take b m)))
            (λ e. empty-Gives es m h (take_empty b m positive e))
            (λ _.
              if_cases (Gives es m) (ltb (length (take b m)) b)
                (λ e. short-Gives es m q s (take_short b m e))
                (λ e.
                  again-Gives es m q again s (full (take_long b m e)) (left (take_long b m e)))))

  length-drop_long : (n : ℕ) (m : List Row) → n ≤ length m → length (drop n m) + n ≡ length m
  length-drop_long zero m h = omega arith
  length-drop_long (suc n) [] h = absurd (omega arith)
  length-drop_long (suc n) (r ∷ m) h = omega (arith, length-drop_long n m (omega arith))

  pub fetch-Gives :
      (fuel c : ℕ) (es : List WorkflowEvent) (rows m : List Row)
      → IsIncreasing rows
      → behind c rows ≡ m
      → length es < limit
      → length m < fuel
      → Gives es m (fetch fuel (λ n. behind n rows) limit b c es)
  unfolding fetch
  fetch-Gives zero c es rows m i e h l = absurd (omega arith)
  fetch-Gives (suc fuel) c es rows m i e h l =
      let above = subst (IsAbove c) e (increasing_behind c rows i) in
      let q = scan limit c es (take b m) in
      let again = fetch fuel (λ n. behind n rows) limit b q.0 q.1 in
      let grows = scan_grows limit c es (take b m) in
      subst
        (λ (n : List Row). Gives es m (
          decided limit b es (take b n) (scan limit c es (take b n)) (
            fetch fuel (λ n. behind n rows) limit b (scan limit c es (take b n)).0
              (scan limit c es (take b n)).1)))
        (sym e)
        (decided-Gives es m q again h (scan-IsScanned limit b c es m above h)
          (λ long full.
            fetch_done fuel (λ n. behind n rows) limit b q.0 q.1 (omega (arith, l, long)) full)
          (λ long less left.
            fetch-Gives fuel q.0 q.1 rows (drop b m) i
              (sym (behind-behind c q.0 rows grows) ∙ ap (behind q.0) e ∙ left) less
              (omega (arith, length-drop_long b m long, l, long))))
