-- ===== src/EventStore/ReadLaws.antt =====
-- Reading back what was emitted.
use mcp_software_factory.Prelude.{
  ℕ, max, ◌≡◌, refl, ap, ◌∙◌, String, Bool, true, false, ◌&&◌, none, some, List, [], ◌∷◌, ◌++◌,
  keep, map, ltb, arith,
}
use mcp_software_factory.EventStore.Types.{WorkflowEvent, Row, in_stream}
use mcp_software_factory.EventStore.Query.{
  sequence, is_selected, insert_row_by, order_rows, behind, query, read_rows, get_events,
}
use mcp_software_factory.EventStore.QueryLaws.{IsAbove}
use mcp_software_factory.EventStore.Emitter.{Emitter, with_branch, emit}
use mcp_software_factory.EventStore.Journal.{Journals, events_of, journal_of}
use mcp_software_factory.EventStore.Consistency.{IsConsistent}
use mcp_software_factory.EventStore.EmitterLaws.{emitted-IsConsistent}
use mcp_software_factory.EventStore.RunLaws.{
  Call, emit_all, log_all, AllNew, all_new, emitted_rows, emit_all_refines,
}
use mcp_software_factory.EventStore.JournalLaws.{IsAscending, IsOrderly, emit_all-IsOrderly}

abbrev pub AllReadable : List Row → Type 0
AllReadable [] = Unit
AllReadable (r ∷ rs) = (r.is_readable ≡ true) × AllReadable rs

AllReadable-append :
    (rs : List Row) (r : Row) → AllReadable rs → r.is_readable ≡ true → AllReadable (rs ++ r ∷ [])
AllReadable-append [] r a h = (h, tt)
AllReadable-append (x ∷ rs) r (k, a) h = (k, AllReadable-append rs r a h)

AllReadable-keep : (p : Row → Bool) (rs : List Row) → AllReadable rs → AllReadable (keep p rs)
AllReadable-keep p [] a = tt
AllReadable-keep p (r ∷ rs) (h, a) = kept (p r) (AllReadable-keep p rs a)
  where
    kept :
        (b : Bool)
        → AllReadable (keep p rs)
        → AllReadable (elim b as (λ c. List Row) [ true ↦ r ∷ keep p rs | false ↦ keep p rs ])
    kept true k = (h, k)
    kept false k = k

emit_all-AllReadable :
    (cs : List Call) (y : Emitter)
    → IsConsistent y.store
    → AllNew y.store.rows cs
    → AllReadable y.store.rows
    → AllReadable (emit_all cs y).store.rows
unfolding emit
emit_all-AllReadable [] y c a h = h
emit_all-AllReadable (d ∷ cs) y c (u, v, a) h =
    let x = with_branch d.event in
    emit_all-AllReadable cs (emit d.faults d.now d.event y).0
      (emitted-IsConsistent d.faults d.now x y c u) (all_new d.faults d.now d.event y cs c u v a)
      (emitted_rows AllReadable d.faults d.now x y c u h (AllReadable-append y.store.rows _ h refl))

order_rows_ascending : (n : ℕ) (rs : List Row) → IsAbove n rs → order_rows rs ≡ rs
unfolding order_rows insert_row_by
order_rows_ascending n [] a = refl
order_rows_ascending n (r ∷ rs) (h, a) =
    ap (insert_row_by r) (order_rows_ascending (sequence r) rs a) ∙ first rs a
  where
    first : (xs : List Row) → IsAbove (sequence r) xs → insert_row_by r xs ≡ r ∷ xs
    first [] b = refl
    first (x ∷ xs) (k, b) = ground (arith, k)

rows-IsAbove :
    (low high : ℕ) (rs : List Row) → IsAscending low (map (λ r. r.stored) rs) high → IsAbove low rs
rows-IsAbove low high [] a = tt
rows-IsAbove low high (r ∷ rs) (h, a) = (h, rows-IsAbove (sequence r) high rs a)

read_all : (rs : List Row) → AllReadable rs → read_rows rs ≡ map (λ r. r.stored) rs
unfolding read_rows
read_all [] a = refl
read_all (r ∷ rs) (h, a) = ground (arith, h, read_all rs a)

-- The events above a number.
abbrev pub after : ℕ → List WorkflowEvent → List WorkflowEvent
after n = keep (λ e. ltb n e.event.sequence)

after-behind :
    (n : ℕ) (rs : List Row) → map (λ r. r.stored) (behind n rs) ≡ after n (map (λ r. r.stored) rs)
after-behind n [] = refl
after-behind n (r ∷ rs) = step (ltb n (sequence r)) (after-behind n rs)
  where
    step :
        (b : Bool)
        → map (λ x. x.stored) (behind n rs) ≡ after n (map (λ x. x.stored) rs)
        → map
            (λ x. x.stored)
            (elim b as (λ c. List Row) [ true ↦ r ∷ behind n rs | false ↦ behind n rs ])
          ≡ elim b as (λ c. List WorkflowEvent) [
            | true ↦ r.stored ∷ after n (map (λ x. x.stored) rs)
            | false ↦ after n (map (λ x. x.stored) rs)
          ]
    step true h = ap (λ (es : List WorkflowEvent). r.stored ∷ es) h
    step false h = h

selected_all :
    (thread branch : String) (rs : List Row)
    → keep (is_selected thread branch []) rs ≡ keep (in_stream thread branch) rs
selected_all thread branch rs =
    ap (λ (p : Row → Bool). keep p rs) (λ i r. and_true (in_stream thread branch r) i)
  where
    and_true : (b : Bool) → (b && true) ≡ b
    and_true b = ground arith

query_stream :
    (thread branch : String) (n high : ℕ) (rs : List Row)
    → AllReadable rs
    → IsAscending 0 (events_of rs thread branch) high
    → read_rows (query rs thread branch [] n) ≡ after n (events_of rs thread branch)
query_stream thread branch n high rs a h =
    let kept = keep (in_stream thread branch) rs in
    ap (λ (xs : List Row). read_rows (behind n (order_rows xs))) (selected_all thread branch rs)
    ∙ ap (λ (xs : List Row). read_rows (behind n xs))
        (order_rows_ascending 0 kept (rows-IsAbove 0 high kept h))
    ∙ read_all (behind n kept) (
        AllReadable-keep (λ r. ltb n (sequence r)) kept
          (AllReadable-keep (in_stream thread branch) rs a))
    ∙ after-behind n kept

-- From a consistent store whose streams are orderly and whose rows can be read, after any calls of the
-- emitter, with new and different identifiers and whatever statements fail, reading a branch above a
-- number gives the events above it that the specification has logged for the branch, in its order.
pub emit_all-get_events :
    (cs : List Call) (y : Emitter) (thread branch : String) (n : ℕ)
    → IsConsistent y.store
    → AllNew y.store.rows cs
    → AllReadable y.store.rows
    → ((t b : String) → IsOrderly (journal_of y.store t b))
    → get_events (emit_all cs y).store thread branch (some n) none []
      ≡ some (
          after n
            (log_all (max y.persistence_retries 1) cs (journal_of y.store) thread branch).entries)
unfolding get_events
emit_all-get_events cs y thread branch n c u a o = ap some (
    query_stream thread branch n (journal_of (emit_all cs y).store thread branch).counter
      (emit_all cs y).store.rows (emit_all-AllReadable cs y c u a)
      (emit_all-IsOrderly cs y c u o thread branch).0
    ∙ ap (λ (j : Journals). after n (j thread branch).entries) (emit_all_refines cs y c u))
