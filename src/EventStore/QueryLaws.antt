-- ===== src/EventStore/QueryLaws.antt =====
-- Reading in batches gives the first of the events that reading at once gives.
use mcp_software_factory.Prelude.{
  if_cases, ℕ, zero, suc, ◌≤◌, ◌<◌, max, ◌≡◌, refl, sym, ap, ◌∙◌, subst, ◌⊎◌, inl, inr, Bool-cases,
  true, false, ◌&&◌, List, [], ◌∷◌, ◌++◌, ◌==◌, nat_eq, drop, ltb, length, length-append, arith,
}
use mcp_software_factory.Events.Broker.{take}
use mcp_software_factory.EventStore.Types.{WorkflowEvent, Row}
use mcp_software_factory.EventStore.Query.{
  sequence, behind, row_to_event, read_row, read_rows, scan,
}

-- The sequences grow, from above a lower bound.
abbrev pub IsAbove : ℕ → List Row → Type 0
IsAbove n [] = Unit
IsAbove n (r ∷ rs) = (n < sequence r) × IsAbove (sequence r) rs

pub behind_low : (c n : ℕ) (rs : List Row) → c ≤ n → IsAbove n rs → behind c rs ≡ rs
behind_low c n [] l a = refl
behind_low c n (r ∷ rs) l (h, a) = ground (arith, behind_low c (sequence r) rs)

-- The rows behind a part that was read are those that are left of it.
behind_read :
    (c : ℕ) (r : Row) (rs : List Row)
    → IsAbove c (r ∷ rs)
    → behind (max c (sequence r)) (r ∷ rs) ≡ rs
behind_read c r rs (h, a) = ground (arith, behind_low (max c (sequence r)) (sequence r) rs)

pub behind_kept :
    (c : ℕ) (r : Row) (rs : List Row)
    → ltb c (sequence r) ≡ true
    → behind c (r ∷ rs) ≡ r ∷ behind c rs
behind_kept c r rs h = ground arith

pub behind_skipped :
    (c : ℕ) (r : Row) (rs : List Row) → ltb c (sequence r) ≡ false → behind c (r ∷ rs) ≡ behind c rs
behind_skipped c r rs h = ground arith

pub head-IsAbove :
    (c : ℕ) (r : Row) (rs : List Row)
    → IsAbove (sequence r) rs
    → IsAbove c (behind c rs)
    → IsAbove c (behind c (r ∷ rs))
head-IsAbove c r rs a later = elim (Bool-cases (ltb c (sequence r))) [
  | inl l ↦ subst (IsAbove c) (sym (behind_kept c r rs l)) (
    ground (arith, l),
    subst (IsAbove (sequence r)) (sym (behind_low c (sequence r) rs (ground (arith, l)) a)) a,
  )
  | inr l ↦ subst (IsAbove c) (sym (behind_skipped c r rs l)) later
]

pub behind-IsAbove : (c n : ℕ) (rs : List Row) → IsAbove n rs → IsAbove c (behind c rs)
behind-IsAbove c n [] a = tt
behind-IsAbove c n (r ∷ rs) (h, a) = head-IsAbove c r rs a (behind-IsAbove c (sequence r) rs a)

pub behind-behind : (c d : ℕ) (rs : List Row) → c ≤ d → behind d (behind c rs) ≡ behind d rs
behind-behind c d [] h = refl
behind-behind c d (r ∷ rs) h = ground (arith, behind-behind c d rs)

pub take_all : (n : ℕ) (es : List WorkflowEvent) → length es ≤ n → take n es ≡ es
take_all zero [] h = refl
take_all zero (e ∷ es) h = absurd (omega arith)
take_all (suc n) [] h = refl
take_all (suc n) (e ∷ es) h = ap (λ (xs : List WorkflowEvent). e ∷ xs) (take_all n es (omega arith))

take_first : (es fs : List WorkflowEvent) → take (length es) (es ++ fs) ≡ es
take_first [] fs = refl
take_first (e ∷ es) fs = ap (λ (xs : List WorkflowEvent). e ∷ xs) (take_first es fs)

append_assoc : (xs ys zs : List WorkflowEvent) → (xs ++ ys) ++ zs ≡ xs ++ (ys ++ zs)
append_assoc [] ys zs = refl
append_assoc (x ∷ xs) ys zs = ap (λ (es : List WorkflowEvent). x ∷ es) (append_assoc xs ys zs)

pub append-nil : (xs : List WorkflowEvent) → xs ++ [] ≡ xs
append-nil [] = refl
append-nil (x ∷ xs) = ap (λ (es : List WorkflowEvent). x ∷ es) (append-nil xs)

pub scan_grows :
    (limit c : ℕ) (es : List WorkflowEvent) (rs : List Row) → c ≤ (scan limit c es rs).0
unfolding scan
scan_grows limit c es [] = omega arith
scan_grows limit c es (r ∷ rs) =
    ground (arith, scan_grows limit (max c (sequence r)) (es ++ read_row (row_to_event r)) rs)

-- Behind the inner loop over a batch, the limit is reached, or the rest of the rows is left.
abbrev pub IsFull : ℕ → List WorkflowEvent → List Row → ℕ × List WorkflowEvent → Type 0
IsFull limit es rs q = (length q.1 ≡ limit) × (take limit (es ++ read_rows rs) ≡ q.1)

abbrev pub IsLeft : ℕ → ℕ → List WorkflowEvent → List Row → ℕ × List WorkflowEvent → Type 0
IsLeft limit n es rs q =
    (length q.1 < limit)
    × ((behind q.0 rs ≡ drop n rs) × (q.1 ++ read_rows (drop n rs) ≡ es ++ read_rows rs))

abbrev pub IsScanned : ℕ → ℕ → List WorkflowEvent → List Row → ℕ × List WorkflowEvent → Type 0
IsScanned limit n es rs q = IsFull limit es rs q ⊎ IsLeft limit n es rs q

take_full :
    (limit : ℕ) (es fs : List WorkflowEvent) → length es ≡ limit → take limit (es ++ fs) ≡ es
take_full limit es fs h = ap (λ (n : ℕ). take n (es ++ fs)) (sym h) ∙ take_first es fs

not_full :
    (limit : ℕ) (es : List WorkflowEvent) (r : Row)
    → length es < limit
    → (r.is_readable && length (es ++ read_row (row_to_event r)) == limit) ≡ false
    → length (es ++ read_row (row_to_event r)) < limit
not_full limit es r h f = ground (arith, length-append es (r.stored ∷ []), length-append es [])

next-IsScanned :
    (limit n : ℕ) (es : List WorkflowEvent) (r : Row) (rs : List Row) (q : ℕ × List WorkflowEvent)
    → sequence r ≤ q.0
    → IsScanned limit n (es ++ read_row (row_to_event r)) rs q
    → IsScanned limit (suc n) es (r ∷ rs) q
unfolding read_rows
next-IsScanned limit n es r rs q l (inl (h, f)) =
    inl (h, ap (take limit) (sym (append_assoc es (read_row (row_to_event r)) (read_rows rs))) ∙ f)
next-IsScanned limit n es r rs q l (inr (h, (b, f))) = inr (
  h,
  (
    behind_skipped q.0 r rs (ground (arith, l)) ∙ b,
    f ∙ append_assoc es (read_row (row_to_event r)) (read_rows rs),
  ),
)

pub scan-IsScanned :
    (limit n c : ℕ) (es : List WorkflowEvent) (rs : List Row)
    → IsAbove c rs
    → length es < limit
    → IsScanned limit n es rs (scan limit c es (take n rs))
unfolding scan read_rows
scan-IsScanned limit zero c es rs a h = inr (h, (behind_low c c rs (omega arith) a, refl))
scan-IsScanned limit (suc n) c es [] a h = inr (h, (refl, refl))
scan-IsScanned limit (suc n) c es (r ∷ rs) (l, a) h =
    let x = read_row (row_to_event r) in
    if_cases (IsScanned limit (suc n) es (r ∷ rs)) (r.is_readable && length (es ++ x) == limit)
      (λ f. inl (
        ground (arith, f),
        ap (take limit) (sym (append_assoc es x (read_rows rs)))
            ∙ take_full limit (es ++ x) (read_rows rs) (ground (arith, f)),
      ))
      (λ f.
        next-IsScanned limit n es r rs (scan limit (max c (sequence r)) (es ++ x) (take n rs))
          (omega (arith, scan_grows limit (max c (sequence r)) (es ++ x) (take n rs)))
          (scan-IsScanned limit n (max c (sequence r)) (es ++ x) rs (raised c (sequence r) rs l a)
            (not_full limit es r h f)))
  where
    raised : (c d : ℕ) (rs : List Row) → c < d → IsAbove d rs → IsAbove (max c d) rs
    raised c d [] l a = tt
    raised c d (r ∷ rs) l (h, a) = (omega (arith, l, h), a)
