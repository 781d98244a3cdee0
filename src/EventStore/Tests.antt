-- ===== src/EventStore/Tests.antt =====
-- A store with one branch of a workflow, and calls of its emitter.
use mcp_software_factory.Prelude.{
  ℕ, ◌≡◌, refl, true, false, Bool, none, some, Option, List, [], ◌∷◌, String, leb, arith,
}
use mcp_software_factory.Events.Types.{
  EventType, EventType-discrete, workflow_started, planning_started, supervisor_loop_detected,
  workflow_failed,
}
use mcp_software_factory.Events.Broker.{take}
use mcp_software_factory.EventStore.Types.{
  logical_event_key, WorkflowEvent, LogicalKey-discrete, Row, Store, ends_branch,
}
use mcp_software_factory.EventStore.Table.{append_event, reserve_next_sequence, has_logical_event}
use mcp_software_factory.EventStore.Query.{get_events}
use mcp_software_factory.EventStore.BatchLaws.{map_option, get_events_takes}
use mcp_software_factory.EventStore.Emitter.{
  emit, persist, remember, Emitter, Faults, conflicted, emit_event,
}
use mcp_software_factory.EventStore.Journal.{events_of, journal_of, answer}
use mcp_software_factory.EventStore.RunLaws.{Call, emit_all, log_all, emit_all_refines}
use mcp_software_factory.EventStore.JournalLaws.{IsOrderly, emit_all-IsOrderly}
use mcp_software_factory.EventStore.ReadLaws.{after, emit_all-get_events}
use mcp_software_factory.EventStore.ClosedLaws.{loop_refuses_end}
use mcp_software_factory.EventStore.EmitterLaws.{emitted-IsConsistent}
use mcp_software_factory.EventStore.AnswerLaws.{is_told, event_answers}

abbrev event_of : String → EventType → Option String → WorkflowEvent
event_of id type node = record {
  event_id = id;
  node = node;
  event = record {
    thread_id = "t1";
    sequence = 0;
    type = type;
    stage = none;
    branch_id = some "original";
    checkpoint_id = none;
    operation = none;
    tool_name = none;
    tool = none;
    attempt = none;
    handoff_sequence = none;
  };
}

abbrev start : WorkflowEvent
start = event_of "e1" workflow_started none

abbrev loop : WorkflowEvent
loop = event_of "e2" supervisor_loop_detected (some "supervisor")

abbrev failure : WorkflowEvent
failure = event_of "e3" workflow_failed none

abbrev empty_store : Store
empty_store = record { rows = []; streams = λ thread branch. none }

abbrev emitter_of : Store → Emitter
emitter_of s = record {
  store = s;
  memory = λ thread. record { events = []; last_sequence = 0; dropped = 0 };
  deduplicated = 0;
  persistence_retries = 3;
  max_events_per_thread = 1000;
}

abbrev fresh : Emitter
fresh = emitter_of empty_store

-- No statement fails; or the first two attempts to append fail.
abbrev fine : Faults
fine = record { reservation = false; append = λ left. false }

abbrev slow : Faults
slow = record { reservation = false; append = leb 1 }

abbrev calls : List Call
calls =
    record { faults = fine; now = 1; event = start }
    ∷ record { faults = slow; now = 2; event = loop }
    ∷ record { faults = fine; now = 3; event = failure }
    ∷ []

emit_all_refines_example :
    journal_of (emit_all calls fresh).store ≡ log_all 3 calls (journal_of empty_store)
emit_all_refines_example =
    emit_all_refines calls fresh (λ t b. tt) (refl, refl, (refl, refl, (refl, refl, tt)))

emit_all-IsOrderly_example : IsOrderly (journal_of (emit_all calls fresh).store "t1" "original")
emit_all-IsOrderly_example =
    emit_all-IsOrderly calls fresh (λ t b. tt) (refl, refl, (refl, refl, (refl, refl, tt)))
      (λ t b. (omega arith, tt, refl)) "t1" "original"

event_answers_example :
    (emit_event fine 1 start fresh).1
    ≡ answer true true (is_told fine 1 start fresh) start (journal_of empty_store "t1" "original")
event_answers_example = event_answers fine 1 start fresh (λ t b. tt) refl

-- The event of the loop is stored, and the branch goes on.
abbrev looped : Emitter
unfolding emit
looped = (emit fine 2 loop fresh).0

abbrev start_call : Call
start_call = record { faults = fine; now = 3; event = start }

abbrev failure_call : Call
failure_call = record { faults = fine; now = 4; event = failure }

loop_refuses_end_example :
    let (after, emission) = emit fine 4 failure (emit_all (start_call ∷ []) looped) in
    (events_of after.store.rows "t1" "original"
      ≡ events_of (emit_all (start_call ∷ []) looped).store.rows "t1" "original")
    × (emission ≡ conflicted)
unfolding ends_branch emit emit_event persist append_event remember reserve_next_sequence
    has_logical_event logical_event_key LogicalKey-discrete EventType-discrete
loop_refuses_end_example =
    loop_refuses_end (start_call ∷ []) failure_call looped
      (emitted-IsConsistent fine 2 loop fresh (λ t b. tt) refl) (refl, refl, (refl, refl, tt))
      (emit_all-IsOrderly (record { faults = fine; now = 2; event = loop } ∷ []) fresh (λ t b. tt)
        (refl, refl, tt) (λ t b. (omega arith, tt, refl)) "t1" "original")
      refl refl

emit_all-get_events_example :
    get_events (emit_all calls fresh).store "t1" "original" (some 1) none []
    ≡ some (after 1 (log_all 3 calls (journal_of empty_store) "t1" "original").entries)
emit_all-get_events_example =
    emit_all-get_events calls fresh "t1" "original" 1 (λ t b. tt)
      (refl, refl, (refl, refl, (refl, refl, tt))) tt (λ t b. (omega arith, tt, refl))

-- A table whose second row cannot be read.
abbrev row_of : ℕ → Bool → String → Row
row_of n readable id = record {
  stored = record (event_of id planning_started (some id)) {
    event = record (event_of id planning_started (some id)).event { sequence = n };
  };
  created_at = n;
  is_readable = readable;
}

abbrev table : Store
table = record {
  rows = row_of 1 true "a" ∷ row_of 3 true "c" ∷ row_of 2 false "b" ∷ [];
  streams = λ thread branch. none;
}

get_events_takes_example :
    get_events table "t1" "original" none (some 2) []
    ≡ map_option (take 2) (get_events table "t1" "original" none none [])
get_events_takes_example =
    get_events_takes table "t1" "original" none 2 [] (refl, (refl, (refl, tt)))
