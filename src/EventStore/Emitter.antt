-- ===== src/EventStore/Emitter.antt =====
-- `DurableWorkflowEventEmitter` of streaming/emitter.py over the store. The locked sections are steps;
-- which statements SQLite refuses is an argument.
use mcp_software_factory.Prelude.{
  ℕ, zero, suc, ◌+◌, max, String, Bool, true, false, not, ◌&&◌, Option, none, some, List, [], ◌∷◌,
  ◌++◌, ◌==◌, string_eq, if◌then◌else◌, leb, length, any,
}
use mcp_software_factory.Events.Types.{is_critical}
use mcp_software_factory.EventStore.Types.{WorkflowEvent, logical_event_key, branch_of, Store}
use mcp_software_factory.EventStore.Table.{
  reserve_next_sequence, has_logical_event, Appended, inserted, ignored, conflicting, append_event,
}

-- What the emitter holds of a thread in memory.
pub record Memory : Type 0 where
  pub events : List WorkflowEvent
  pub last_sequence : ℕ
  pub dropped : ℕ

pub record Emitter : Type 0 where
  pub store : Store
  pub memory : String → Memory
  pub deduplicated : ℕ
  pub persistence_retries : ℕ
  pub max_events_per_thread : ℕ

-- The statements that fail in the course of a call: the reservation, and the attempts to append by
-- how many are left behind them.
pub record Faults : Type 0 where
  pub reservation : Bool
  pub append : ℕ → Bool

-- How a call ends.
pub data Emission : Type 0 where
  delivered dropped deduplicated conflicted unreserved unpersisted : Emission

-- `event.data.setdefault("branch_id", "original")`
abbrev pub default_branch : Option String → Option String
default_branch none = some "original"
default_branch (some b) = some b

abbrev pub with_branch : WorkflowEvent → WorkflowEvent
with_branch e = record e { event = record e.event { branch_id = default_branch e.event.branch_id } }

abbrev pub with_sequence : ℕ → WorkflowEvent → WorkflowEvent
with_sequence n e = record e { event = record e.event { sequence = n } }

-- The loop over the attempts; `none` is that all of them failed.
unfoldable pub persist : ℕ → (ℕ → Bool) → ℕ → WorkflowEvent → Store → Option Appended
unfolding append_event
persist zero fails now e s = none
persist (suc n) fails now e s =
    let again = persist n fails now e s in if fails n then again else some (append_event now e s)

-- The queue without its first event that is not critical.
unfoldable pub without_removable : List WorkflowEvent → List WorkflowEvent
without_removable [] = []
without_removable (x ∷ xs) =
    let rest = without_removable xs in if is_critical x.event.type then x ∷ rest else xs

abbrev pub all_critical : List WorkflowEvent → Bool
all_critical queue = not (any (λ x. not (is_critical x.event.type)) queue)

-- The section under `self._lock`: whether the event is kept in memory and told to the subscribers.
unfoldable pub remember : ℕ → WorkflowEvent → Memory → Memory × Bool
unfolding without_removable
remember limit e m =
    let is_full = leb limit (length m.events) in
    let kept = record m {
      events = (if is_full then without_removable m.events else m.events) ++ e ∷ [];
      last_sequence = max m.last_sequence e.event.sequence;
      dropped = if is_full && not (all_critical m.events) then m.dropped + 1 else m.dropped;
    } in
    if is_full && not (is_critical e.event.type)
    then (record m { dropped = m.dropped + 1 }, false)
    else (kept, true)

abbrev pub set_memory : String → Memory → (String → Memory) → String → Memory
set_memory thread m memory t = if thread == t then m else memory t

abbrev pub delivery : Bool → Emission
delivery b = if b then delivered else dropped

abbrev pub after_persistence : WorkflowEvent → Emitter → Option Appended → Emitter × Emission
after_persistence e y none = (y, unpersisted)
after_persistence e y (some ignored) =
    (record y { deduplicated = y.deduplicated + 1 }, deduplicated)
after_persistence e y (some conflicting) = (y, conflicted)
after_persistence e y (some (inserted s)) =
    let (m, told) = remember y.max_events_per_thread e (y.memory e.event.thread_id) in
    (record y { store = s; memory = set_memory e.event.thread_id m y.memory }, delivery told)

-- Behind the reservation of a number.
abbrev pub after_reservation : Faults → ℕ → WorkflowEvent → Emitter → ℕ × Store → Emitter × Emission
after_reservation f now e y (n, s) =
    after_persistence (with_sequence n e) (record y { store = s })
      (persist (max y.persistence_retries 1) f.append now (with_sequence n e) s)

-- `emit`, of an event with its branch
unfoldable pub emit_event : Faults → ℕ → WorkflowEvent → Emitter → Emitter × Emission
unfolding persist remember reserve_next_sequence has_logical_event
emit_event f now e y =
    if has_logical_event y.store e.event.thread_id (branch_of e) (logical_event_key e)
    then (record y { deduplicated = y.deduplicated + 1 }, deduplicated)
    else (if f.reservation
        then (y, unreserved)
        else after_reservation f now e y
            (reserve_next_sequence y.store e.event.thread_id (branch_of e)))

unfoldable pub emit : Faults → ℕ → WorkflowEvent → Emitter → Emitter × Emission
unfolding emit_event
emit f now e y = emit_event f now (with_branch e) y
