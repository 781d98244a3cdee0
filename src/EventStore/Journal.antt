-- ===== src/EventStore/Journal.antt =====
-- What the store promises of a stream: a journal that holds no key twice, numbers its events as they
-- come, and takes no second end.
use mcp_software_factory.Prelude.{
  ℕ, ◌+◌, Bool, false, not, ◌&&◌, ◌||◌, Option, none, some, List, [], ◌∷◌, ◌++◌, ◌==◌, option_eq,
  any, keep, map, is_some, if◌then◌else◌, String,
}
use mcp_software_factory.EventStore.Types.{
  WorkflowEvent, LogicalKey, logical_key_eq, logical_event_key, ends_branch, branch_of, Row, Store,
  in_stream, is_stream,
}
use mcp_software_factory.EventStore.Table.{get_last_sequence, terminal_of}
use mcp_software_factory.EventStore.Emitter.{
  Emission, conflicted, deduplicated, delivery, unpersisted, unreserved, with_sequence,
}

pub record Journal : Type 0 where
  pub counter : ℕ
  pub entries : List WorkflowEvent
  pub is_closed : Bool

abbrev pub has_entry_key : Option LogicalKey → WorkflowEvent → Bool
has_entry_key none x = false
has_entry_key (some k) x = logical_event_key x == some k

abbrev pub holds : WorkflowEvent → List WorkflowEvent → Bool
holds e = any (has_entry_key (logical_event_key e))

abbrev pub logged : WorkflowEvent → Journal → Journal
logged e j = record {
  counter = j.counter + 1;
  entries = j.entries ++ with_sequence (j.counter + 1) e ∷ [];
  is_closed = j.is_closed || ends_branch e.event.type;
}

abbrev pub skipped : Journal → Journal
skipped j = record j { counter = j.counter + 1 }

-- An event comes; whether a number can be reserved, and the event be stored, is given.
unfoldable pub log : Bool → Bool → WorkflowEvent → Journal → Journal
log reserves persists e j =
    if holds e j.entries
    then j
    else (if not reserves
        then j
        else (if not persists || (ends_branch e.event.type && j.is_closed)
            then skipped j
            else logged e j))

-- How the call ends; whether memory takes the event is given too.
abbrev pub answer : Bool → Bool → Bool → WorkflowEvent → Journal → Emission
answer reserves persists told e j =
    if holds e j.entries
    then deduplicated
    else (if not reserves
        then unreserved
        else (if not persists
            then unpersisted
            else (if ends_branch e.event.type && j.is_closed then conflicted else delivery told)))

-- The journal of a stream of the store.
abbrev pub events_of : List Row → String → String → List WorkflowEvent
events_of rows thread branch = map (λ r. r.stored) (keep (in_stream thread branch) rows)

abbrev pub journal_of : Store → String → String → Journal
journal_of s thread branch = record {
  counter = get_last_sequence s thread branch;
  entries = events_of s.rows thread branch;
  is_closed = is_some (terminal_of (s.streams thread branch));
}

abbrev pub Journals : Type 0
Journals = String → String → Journal

abbrev pub log_at : Bool → Bool → WorkflowEvent → Journals → Journals
log_at reserves persists e j t b =
    if is_stream e.event.thread_id (branch_of e) t b then log reserves persists e (j t b) else j t b
