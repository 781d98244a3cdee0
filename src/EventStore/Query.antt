-- ===== src/EventStore/Query.antt =====
-- `get_events_sync` of streaming/sqlite_store.py: the query, and the loop that reads it in batches.
use mcp_software_factory.Prelude.{
  ℕ, zero, suc, max, String, Bool, not, ◌&&◌, ◌||◌, Option, none, some, List, [], ◌∷◌, ◌++◌, ◌==◌,
  nat_eq, keep, if◌then◌else◌, ltb, leb, length, contains, is_nonempty, get_or, string_eq,
}
use mcp_software_factory.Events.Types.{type_text}
use mcp_software_factory.Events.Broker.{take}
use mcp_software_factory.EventStore.Types.{WorkflowEvent, Row, Store, in_stream}

abbrev pub sequence : Row → ℕ
sequence r = r.stored.event.sequence

-- The clauses of the query but that on the sequence.
abbrev pub is_selected : String → String → List String → Row → Bool
is_selected thread branch types r =
    in_stream thread branch r
    && (not (is_nonempty types) || contains (type_text r.stored.event.type) types)

-- `ORDER BY sequence ASC`
unfoldable pub insert_row_by : Row → List Row → List Row
insert_row_by r [] = r ∷ []
insert_row_by r (x ∷ xs) =
    let later = insert_row_by r xs in
    if leb (sequence r) (sequence x) then r ∷ x ∷ xs else x ∷ later

unfoldable pub order_rows : List Row → List Row
unfolding insert_row_by
order_rows [] = []
order_rows (r ∷ rs) = insert_row_by r (order_rows rs)

-- `sequence > ?`
abbrev pub behind : ℕ → List Row → List Row
behind cursor = keep (λ r. ltb cursor (sequence r))

-- The rows that the query gives.
abbrev pub query : List Row → String → String → List String → ℕ → List Row
query rows thread branch types cursor =
    behind cursor (order_rows (keep (is_selected thread branch types) rows))

-- `_row_to_event`; a row that cannot be read is counted and skipped
abbrev pub row_to_event : Row → Option WorkflowEvent
row_to_event r = if r.is_readable then some r.stored else none

abbrev pub read_row : Option WorkflowEvent → List WorkflowEvent
read_row none = []
read_row (some e) = e ∷ []

unfoldable pub read_rows : List Row → List WorkflowEvent
read_rows [] = []
read_rows (r ∷ rs) = read_row (row_to_event r) ++ read_rows rs

-- The cursor and the events behind the inner loop, which stops at the limit.
unfoldable pub scan : ℕ → ℕ → List WorkflowEvent → List Row → ℕ × List WorkflowEvent
scan limit cursor events [] = (cursor, events)
scan limit cursor events (r ∷ rs) =
    let cursor' = max cursor (sequence r) in
    let events' = events ++ read_row (row_to_event r) in
    let rest = scan limit cursor' events' rs in
    if r.is_readable && length events' == limit then (cursor', events') else rest

-- The loop; `none` means that the fuel ran out. The rows behind a cursor are an argument.
unfoldable pub fetch :
    ℕ → (ℕ → List Row) → ℕ → ℕ → ℕ → List WorkflowEvent → Option (List WorkflowEvent)
unfolding scan
fetch zero select limit batch_size cursor events = none
fetch (suc fuel) select limit batch_size cursor events =
    let rows = take batch_size (select cursor) in
    let (cursor', events') = scan limit cursor events rows in
    let again = fetch fuel select limit batch_size cursor' events' in
    if not (ltb (length events) limit)
    then some events
    else (if not (is_nonempty rows)
        then some events
        else (if ltb (length rows) batch_size then some events' else again))

abbrev pub batch_size_of : ℕ → ℕ
batch_size_of limit = max limit 25

unfoldable pub get_events :
    Store → String → String → Option ℕ → Option ℕ → List String → Option (List WorkflowEvent)
unfolding order_rows read_rows fetch
get_events s thread branch after_sequence none types =
    some (read_rows (query s.rows thread branch types (get_or after_sequence 0)))
get_events s thread branch after_sequence (some limit) types =
    fetch (suc (length s.rows)) (query s.rows thread branch types) limit (batch_size_of limit)
      (get_or after_sequence 0) []

-- `get_terminal_event`
abbrev pub last_event : List WorkflowEvent → Option WorkflowEvent
last_event [] = none
last_event (e ∷ []) = some e
last_event (_ ∷ e ∷ es) = last_event (e ∷ es)
