-- ===== src/EventStore/Table.antt =====
-- The statements of `SQLiteWorkflowEventStore` that write. A statement that SQLite refuses is a fault
-- that the caller is given; the transaction is rolled back then.
use mcp_software_factory.Prelude.{
  ℕ, ◌+◌, max, String, Bool, true, false, ◌&&◌, ◌||◌, Option, none, some, List, [], ◌∷◌, ◌++◌, ◌==◌,
  nat_eq, string_eq, option_eq, is_some, any, if◌then◌else◌,
}
use mcp_software_factory.Events.Types.{EventType}
use mcp_software_factory.EventStore.Types.{
  WorkflowEvent, LogicalKey, logical_key_eq, ends_branch, logical_event_key, branch_of, Row,
  StreamRow, Store, in_stream, set_stream,
}

-- `int(row["last_sequence"]) if row is not None else 0`
abbrev pub sequence_of : Option StreamRow → ℕ
sequence_of none = 0
sequence_of (some r) = r.last_sequence

abbrev pub terminal_of : Option StreamRow → Option EventType
terminal_of none = none
terminal_of (some r) = r.terminal_event_type

abbrev pub get_last_sequence : Store → String → String → ℕ
get_last_sequence s thread branch = sequence_of (s.streams thread branch)

-- `last_sequence = excluded.last_sequence`
abbrev pub reserved_row : ℕ → Option StreamRow → StreamRow
reserved_row n none = record {
  last_sequence = n;
  terminal_event_type = none;
  terminal_sequence = none;
}
reserved_row n (some r) = record r { last_sequence = n }

unfoldable pub reserve_next_sequence : Store → String → String → ℕ × Store
reserve_next_sequence s thread branch =
    let n = get_last_sequence s thread branch + 1 in
    (
      n,
      record s {
        streams = set_stream thread branch (reserved_row n (s.streams thread branch)) s.streams;
      },
    )

-- `logical_key = ?`, which is never true of NULL
abbrev pub has_key : Option LogicalKey → Row → Bool
has_key none r = false
has_key (some k) r = logical_event_key r.stored == some k

unfoldable pub has_logical_event : Store → String → String → Option LogicalKey → Bool
unfolding logical_event_key
has_logical_event s thread branch key = any (λ r. in_stream thread branch r && has_key key r) s.rows

-- A row that a unique index or the primary key sets against the event.
abbrev pub violates : WorkflowEvent → Row → Bool
violates e r =
    r.stored.event_id == e.event_id
    || (in_stream e.event.thread_id (branch_of e) r
        && (r.stored.event.sequence == e.event.sequence || has_key (logical_event_key e) r))

-- `SELECT 1 … WHERE event_id = ? OR (… AND logical_key = ?)`
abbrev pub is_duplicate : WorkflowEvent → Row → Bool
is_duplicate e r =
    r.stored.event_id == e.event_id
    || (in_stream e.event.thread_id (branch_of e) r && has_key (logical_event_key e) r)

abbrev pub or_first {ℓ} : {A : Type ℓ} → Option A → Option A → Option A
or_first none b = b
or_first (some a) b = some a

-- `terminal_type` and its sequence
abbrev pub when {ℓ} : {A : Type ℓ} → Bool → A → Option A
when b a = if b then some a else none

-- `ON CONFLICT … DO UPDATE SET …`
abbrev pub appended_row : WorkflowEvent → Option StreamRow → StreamRow
appended_row e none = record {
  last_sequence = e.event.sequence;
  terminal_event_type = when (ends_branch e.event.type) e.event.type;
  terminal_sequence = when (ends_branch e.event.type) e.event.sequence;
}
appended_row e (some r) = record {
  last_sequence = max r.last_sequence e.event.sequence;
  terminal_event_type =
      or_first r.terminal_event_type (when (ends_branch e.event.type) e.event.type);
  terminal_sequence =
      or_first r.terminal_sequence (when (ends_branch e.event.type) e.event.sequence);
}

-- How an append ends.
pub data Appended : Type 0 where
  inserted : Store → Appended
  ignored conflicting : Appended

abbrev pub insert_row : ℕ → WorkflowEvent → Store → Store
insert_row now e s = record {
  rows = s.rows ++ record { stored = e; created_at = now; is_readable = true } ∷ [];
  streams =
      set_stream e.event.thread_id (branch_of e)
        (appended_row e (s.streams e.event.thread_id (branch_of e))) s.streams;
}

-- `_append_on_connection`
unfoldable pub append_event : ℕ → WorkflowEvent → Store → Appended
unfolding logical_event_key
append_event now e s =
    let new = if any (violates e) s.rows then ignored else inserted (insert_row now e s) in
    if ends_branch e.event.type && is_some (terminal_of (s.streams e.event.thread_id (branch_of e)))
    then (if any (is_duplicate e) s.rows then ignored else conflicting)
    else new

-- `append_many_sync`: the number of the inserted events and the store; `none` is a conflict, which
-- is rolled back.
abbrev pub count_inserted : Option (ℕ × Store) → Option (ℕ × Store)
count_inserted none = none
count_inserted (some (n, s)) = some (n + 1, s)

unfoldable pub append_many : ℕ → List WorkflowEvent → Store → Option (ℕ × Store)
unfolding append_event
append_many now [] s = some (0, s)
append_many now (e ∷ es) s = elim (append_event now e s) [
  | inserted s' ↦ count_inserted (append_many now es s')
  | ignored ↦ append_many now es s
  | conflicting ↦ none
]
