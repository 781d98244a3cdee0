-- ===== src/EventStore/AnswerLaws.antt =====
-- How a call of the durable emitter ends.
use mcp_software_factory.Prelude.{
  ℕ, ◌+◌, ◌≡◌, refl, sym, ap, ◌∙◌, Bool, true, false, not, Option, none, some, string_eq,
  if◌then◌else◌,
}
use mcp_software_factory.EventStore.Types.{WorkflowEvent, branch_of, Store}
use mcp_software_factory.EventStore.Table.{
  has_logical_event, reserve_next_sequence, Appended, inserted, ignored, conflicting,
}
use mcp_software_factory.EventStore.Emitter.{
  Emitter, Faults, Emission, conflicted, delivery, unpersisted, unreserved, remember, persist,
  after_persistence, after_reservation, emit_event,
}
use mcp_software_factory.EventStore.Journal.{answer, journal_of}
use mcp_software_factory.EventStore.Consistency.{IsConsistent, is_used}
use mcp_software_factory.EventStore.Refinement.{persists, persist_lem, holds_journal}
use mcp_software_factory.EventStore.EmitterLaws.{
  numbered, before, is_known, is_refused, attempts, numbered_append,
}

-- Whether memory takes the event behind its number.
abbrev pub is_told : Faults → ℕ → WorkflowEvent → Emitter → Bool
unfolding remember
is_told f now e y =
    (remember y.max_events_per_thread (numbered f now e y) (y.memory e.event.thread_id)).1

-- What an append says of the call.
abbrev outcome : Bool → Option Appended → Emission
outcome told none = unpersisted
outcome told (some ignored) = Emission.deduplicated
outcome told (some conflicting) = conflicted
outcome told (some (inserted s)) = delivery told

after_persistence_outcome :
    (e : WorkflowEvent) (y : Emitter) (r : Option Appended)
    → (after_persistence e y r).1
      ≡ outcome (remember y.max_events_per_thread e (y.memory e.event.thread_id)).1 r
unfolding remember
after_persistence_outcome e y none = refl
after_persistence_outcome e y (some ignored) = refl
after_persistence_outcome e y (some conflicting) = refl
after_persistence_outcome e y (some (inserted s)) = refl

module _ (f : Faults) (now : ℕ) (e : WorkflowEvent) (y : Emitter) where
  reserved_outcome :
      IsConsistent y.store
      → is_used e.event_id y.store.rows ≡ false
      → is_known f now e y ≡ false
      → (after_reservation f now e y
          (reserve_next_sequence y.store e.event.thread_id (branch_of e))).1
        ≡ (if not (persists (attempts f now e y) f.append)
            then unpersisted
            else (if is_refused f now e y then conflicted else delivery (is_told f now e y)))
  unfolding reserve_next_sequence remember
  reserved_outcome c u k =
      let told = is_told f now e y in
      let store = before f now e y in
      after_persistence_outcome (numbered f now e y) (record y { store = store })
        (persist (attempts f now e y) f.append now (numbered f now e y) store)
      ∙ ap (outcome told) (
          persist_lem (attempts f now e y) f.append now (numbered f now e y) store
          ∙ ap (λ (a : Appended). if persists (attempts f now e y) f.append then some a else none)
              (numbered_append f now e y c u k))
      ∙ decided told _ (persists (attempts f now e y) f.append) (is_refused f now e y)
    where
      decided :
          (told : Bool) (s : Store) (p r : Bool)
          → outcome told (if p then some (if r then conflicting else inserted s) else none)
            ≡ (if not p then unpersisted else (if r then conflicted else delivery told))
      decided told s true true = refl
      decided told s true false = refl
      decided told s false r = refl

  -- In a consistent store, an event with a new identifier is reported as a duplicate if its stream
  -- holds its key, and otherwise as unreserved or unpersisted when the reservation or every
  -- attempt fails, as a conflict when it would end a branch that has ended, and as delivered or
  -- dropped, as memory has room, in every other case.
  pub event_answers :
      IsConsistent y.store
      → is_used e.event_id y.store.rows ≡ false
      → (emit_event f now e y).1
        ≡ answer
            (not f.reservation)
            (persists (attempts f now e y) f.append)
            (is_told f now e y)
            e
            (journal_of y.store e.event.thread_id (branch_of e))
  unfolding emit_event has_logical_event
  event_answers c u =
      decided (is_known f now e y) f.reservation _ _ (reserved_outcome c u)
      ∙ ap
          (λ (k : Bool).
            if k
            then Emission.deduplicated
            else (if not (not f.reservation)
                then unreserved
                else (if not (persists (attempts f now e y) f.append)
                    then unpersisted
                    else (if is_refused f now e y
                        then conflicted
                        else delivery (is_told f now e y)))))
          (sym (holds_journal e e.event.thread_id (branch_of e) y.store.rows))
    where
      decided :
          (k r : Bool) (z : Emitter × Emission) (a : Emission)
          → (k ≡ false → z.1 ≡ a)
          → (if k
              then (record y { deduplicated = y.deduplicated + 1 }, Emission.deduplicated)
              else (if r then (y, unreserved) else z)).1
            ≡ (if k then Emission.deduplicated else (if not (not r) then unreserved else a))
      decided true r z a h = refl
      decided false true z a h = refl
      decided false false z a h = h refl
