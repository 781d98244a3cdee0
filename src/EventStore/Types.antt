-- ===== src/EventStore/Types.antt =====
-- The tables of streaming/migrations.py and the keys of streaming/sqlite_store.py. A row holds its
-- event; whether it can be read back is what the parsers of JSON and of the model say.
use mcp_software_factory.Prelude.{
  ℕ, List, String, Bool, true, false, not, ◌&&◌, ◌||◌, Option, none, some, Eq, discrete_eq,
  string_discrete, ℕ_discrete, is_some, or_else, if◌then◌else◌, ◌==◌, string_eq,
}
use mcp_software_factory.Events.Types.{
  EventType, EventType-discrete, workflow_started, workflow_completed, workflow_failed,
  supervisor_loop_detected, approval_required, Event, event_branch_id,
}

-- `WorkflowEvent`, with what only the store reads of it.
pub record WorkflowEvent : Type 0 where
  pub event_id : String
  pub node : Option String
  pub event : Event

-- The items of the JSON text of a key.
pub record LogicalKey : Type 0 where
  pub type : EventType
  pub stage : Option String
  pub checkpoint_id : Option String
  pub node : Option String
  pub operation : Option String
  pub tool : Option String
  pub attempt : Option ℕ
  pub handoff_sequence : Option ℕ

unfoldable pub LogicalKey-discrete : Discrete LogicalKey
LogicalKey-discrete = hlevel (EventType-discrete, string_discrete, ℕ_discrete)

instance abbrev pub logical_key_eq : Eq LogicalKey
logical_key_eq = discrete_eq LogicalKey-discrete

-- `TERMINAL_EVENT_TYPES`
unfoldable pub ends_branch : EventType → Bool
ends_branch workflow_completed = true
ends_branch workflow_failed = true
ends_branch supervisor_loop_detected = true
ends_branch _ = false

-- The types that have a key without an identity.
abbrev pub is_unique_type : EventType → Bool
is_unique_type workflow_started = true
is_unique_type workflow_completed = true
is_unique_type workflow_failed = true
is_unique_type _ = false

abbrev pub key_checkpoint : EventType → Option String → Option String
key_checkpoint approval_required checkpoint = none
key_checkpoint _ checkpoint = checkpoint

abbrev pub full_key : WorkflowEvent → LogicalKey
full_key e = record {
  type = e.event.type;
  stage = e.event.stage;
  checkpoint_id = key_checkpoint e.event.type e.event.checkpoint_id;
  node = e.node;
  operation = e.event.operation;
  tool = or_else e.event.tool_name e.event.tool;
  attempt = e.event.attempt;
  handoff_sequence = e.event.handoff_sequence;
}

abbrev pub has_identity : LogicalKey → Bool
has_identity k =
    is_some k.checkpoint_id
    || is_some k.node
    || is_some k.operation
    || is_some k.tool
    || is_some k.attempt
    || is_some k.handoff_sequence

unfoldable pub logical_event_key : WorkflowEvent → Option LogicalKey
logical_event_key e =
    if not (has_identity (full_key e)) && not (is_unique_type e.event.type)
    then none
    else some (full_key e)

abbrev pub branch_of : WorkflowEvent → String
branch_of e = event_branch_id e.event

-- A row of `workflow_events`.
pub record Row : Type 0 where
  pub stored : WorkflowEvent
  pub created_at : ℕ
  pub is_readable : Bool

-- A row of `workflow_event_streams`.
pub record StreamRow : Type 0 where
  pub last_sequence : ℕ
  pub terminal_event_type : Option EventType
  pub terminal_sequence : Option ℕ

-- The database: the table of the events in the order of their insertion, and that of the streams.
pub record Store : Type 0 where
  pub rows : List Row
  pub streams : String → String → Option StreamRow

abbrev pub is_stream : String → String → String → String → Bool
is_stream thread branch t b = thread == t && branch == b

-- `thread_id = ? AND branch_id = ?`
abbrev pub in_stream : String → String → Row → Bool
in_stream thread branch r = is_stream r.stored.event.thread_id (branch_of r.stored) thread branch

abbrev pub set_stream :
    String
    → String
    → StreamRow
    → (String → String → Option StreamRow)
    → String
    → String
    → Option StreamRow
set_stream thread branch row streams t b =
    if is_stream thread branch t b then some row else streams t b
