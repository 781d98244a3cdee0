-- ===== src/EventStore/BatchLaws.antt =====
-- `get_events_sync` with a limit, over a table that keeps its unique index.
use mcp_software_factory.Prelude.{
  ℕ, zero, suc, ◌≤◌, ◌<◌, ◌≡◌, refl, ◌∙◌, String, Bool, true, false, ◌&&◌, ◌||◌, Option, none, some,
  List, [], ◌∷◌, ◌==◌, nat_eq, string_eq, any, keep, ltb, length, arith, get_or,
}
use mcp_software_factory.Events.Broker.{take}
use mcp_software_factory.EventStore.Types.{WorkflowEvent, Row, Store, in_stream, branch_of}
use mcp_software_factory.EventStore.Query.{
  sequence, is_selected, insert_row_by, order_rows, query, batch_size_of, get_events,
}
use mcp_software_factory.EventStore.QueryLaws.{IsAbove}
use mcp_software_factory.EventStore.FetchLaws.{IsIncreasing, fetch_done, fetch-Gives}

abbrev pub map_option :
    (List WorkflowEvent → List WorkflowEvent)
    → Option (List WorkflowEvent)
    → Option (List WorkflowEvent)
map_option f none = none
map_option f (some es) = some (f es)

-- Two rows that the unique index on the sequences of a stream sets against each other.
abbrev pub clashes : Row → Row → Bool
clashes r x = in_stream r.stored.event.thread_id (branch_of r.stored) x && sequence x == sequence r

-- `UNIQUE(thread_id, branch_id, sequence)`
abbrev pub HasUniqueSequences : List Row → Type 0
HasUniqueSequences [] = Unit
HasUniqueSequences (r ∷ rs) = (any (clashes r) rs ≡ false) × HasUniqueSequences rs

abbrev repeats : ℕ → List Row → Bool
repeats n = any (λ x. sequence x == n)

insert_row_by-IsAbove :
    (n : ℕ) (r : Row) (rs : List Row)
    → n < sequence r
    → IsAbove n rs
    → repeats (sequence r) rs ≡ false
    → IsAbove n (insert_row_by r rs)
unfolding insert_row_by
insert_row_by-IsAbove n r [] l a u = (l, tt)
insert_row_by-IsAbove n r (x ∷ rs) l (h, a) u =
    ground (arith, insert_row_by-IsAbove (sequence x) r rs)

insert_row_by-IsIncreasing :
    (r : Row) (rs : List Row)
    → IsIncreasing rs
    → repeats (sequence r) rs ≡ false
    → IsIncreasing (insert_row_by r rs)
unfolding insert_row_by
insert_row_by-IsIncreasing r [] i u = tt
insert_row_by-IsIncreasing r (x ∷ rs) a u = ground (arith, insert_row_by-IsAbove (sequence x) r rs)

repeats-insert_row_by :
    (n : ℕ) (r : Row) (rs : List Row)
    → repeats n (insert_row_by r rs) ≡ (sequence r == n) || repeats n rs
unfolding insert_row_by
repeats-insert_row_by n r [] = refl
repeats-insert_row_by n r (x ∷ rs) = ground (arith, repeats-insert_row_by n r rs)

repeats-order_rows : (n : ℕ) (rs : List Row) → repeats n (order_rows rs) ≡ repeats n rs
unfolding order_rows
repeats-order_rows n [] = refl
repeats-order_rows n (r ∷ rs) =
    ground (arith, repeats-insert_row_by n r (order_rows rs), repeats-order_rows n rs)

-- Rows of one stream clash when their sequences are the same.
selected_clashes :
    (thread branch : String) (types : List String) (r x : Row)
    → is_selected thread branch types r ≡ true
    → is_selected thread branch types x ≡ true
    → clashes r x ≡ (sequence x == sequence r)
selected_clashes thread branch types r x h k = ground (
  arith,
  string_eq.same_iff r.stored.event.thread_id thread,
  string_eq.same_iff x.stored.event.thread_id thread,
  string_eq.same_iff x.stored.event.thread_id r.stored.event.thread_id,
  string_eq.same_iff (branch_of r.stored) branch,
  string_eq.same_iff (branch_of x.stored) branch,
  string_eq.same_iff (branch_of x.stored) (branch_of r.stored),
)

-- A row is kept or left out.
keep_cases :
    (P : List Row → Type 0) (p : Row → Bool) (r : Row) (rs : List Row)
    → (p r ≡ true → P (r ∷ keep p rs))
    → (p r ≡ false → P (keep p rs))
    → P (keep p (r ∷ rs))
keep_cases P p r rs = go (p r)
  where
    go :
        (b : Bool)
        → (b ≡ true → P (r ∷ keep p rs))
        → (b ≡ false → P (keep p rs))
        → P (elim b as (λ c. List Row) [ true ↦ r ∷ keep p rs | false ↦ keep p rs ])
    go true f g = f refl
    go false f g = g refl

selected_repeats :
    (thread branch : String) (types : List String) (r : Row) (rs : List Row)
    → is_selected thread branch types r ≡ true
    → any (clashes r) rs ≡ false
    → repeats (sequence r) (keep (is_selected thread branch types) rs) ≡ false
selected_repeats thread branch types r [] h u = refl
selected_repeats thread branch types r (x ∷ rs) h u =
    let later = selected_repeats thread branch types r rs h (ground (arith, u)) in
    keep_cases (λ (xs : List Row). repeats (sequence r) xs ≡ false)
      (is_selected thread branch types) x rs
      (λ k.
        other (sequence x == sequence r) (clashes r x) _ _
          (selected_clashes thread branch types r x h k) u later)
      (λ _. later)
  where
    other : (a b c d : Bool) → b ≡ a → (b || c) ≡ false → d ≡ false → (a || d) ≡ false
    other a b c d e u l = ground arith

selected-IsIncreasing :
    (thread branch : String) (types : List String) (rs : List Row)
    → HasUniqueSequences rs
    → IsIncreasing (order_rows (keep (is_selected thread branch types) rs))
unfolding order_rows
selected-IsIncreasing thread branch types [] u = tt
selected-IsIncreasing thread branch types (r ∷ rs) (h, u) =
    let later = selected-IsIncreasing thread branch types rs u in
    keep_cases (λ (xs : List Row). IsIncreasing (order_rows xs)) (is_selected thread branch types) r
      rs
      (λ k. insert_row_by-IsIncreasing r _ later (
        repeats-order_rows (sequence r) (keep (is_selected thread branch types) rs)
        ∙ selected_repeats thread branch types r rs k h))
      (λ _. later)

length-insert_row_by : (r : Row) (rs : List Row) → length (insert_row_by r rs) ≡ suc (length rs)
unfolding insert_row_by
length-insert_row_by r [] = refl
length-insert_row_by r (x ∷ rs) = ground (arith, length-insert_row_by r rs)

length-order_rows : (rs : List Row) → length (order_rows rs) ≡ length rs
unfolding order_rows
length-order_rows [] = refl
length-order_rows (r ∷ rs) =
    omega (arith, length-insert_row_by r (order_rows rs), length-order_rows rs)

length-keep : (p : Row → Bool) (rs : List Row) → length (keep p rs) ≤ length rs
length-keep p [] = omega arith
length-keep p (r ∷ rs) = ground (arith, length-keep p rs)

-- Over a table that keeps its unique index, reading with a limit ends, and gives the first of the
-- events that reading without one gives, as many as the limit says, whatever rows cannot be read.
pub get_events_takes :
    (s : Store) (thread branch : String) (after_sequence : Option ℕ) (limit : ℕ)
    (types : List String)
    → HasUniqueSequences s.rows
    → get_events s thread branch after_sequence (some limit) types
      ≡ map_option (take limit) (get_events s thread branch after_sequence none types)
unfolding get_events
get_events_takes s thread branch after_sequence zero types u =
    fetch_done (suc (length s.rows)) (query s.rows thread branch types) zero (batch_size_of zero)
      (get_or after_sequence 0) [] (omega arith) refl
get_events_takes s thread branch after_sequence (suc limit) types u =
    let rows = order_rows (keep (is_selected thread branch types) s.rows) in
    fetch-Gives (suc limit) (batch_size_of (suc limit)) (omega arith) (suc (length s.rows))
      (get_or after_sequence 0) [] rows _ (selected-IsIncreasing thread branch types s.rows u) refl
      (omega arith)
      (omega (
        arith,
        length-keep (λ r. ltb (get_or after_sequence 0) (sequence r)) rows,
        length-order_rows (keep (is_selected thread branch types) s.rows),
        length-keep (is_selected thread branch types) s.rows,
      ))
