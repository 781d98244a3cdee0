-- ===== src/EventStore/EmitterLaws.antt =====
-- Every call of the durable emitter does to the journals what the specification says.
use mcp_software_factory.Prelude.{
  if_cases, ℕ, ◌+◌, max, ◌≡◌, refl, sym, ap, ◌∙◌, subst, String, Bool, true, false, not, ◌&&◌, ◌||◌,
  Option, none, some, nat_eq, string_eq, option_eq, is_some, if◌then◌else◌,
}
use mcp_software_factory.EventStore.Types.{
  WorkflowEvent, logical_key_eq, logical_event_key, ends_branch, branch_of, Store, is_stream,
}
use mcp_software_factory.EventStore.Table.{
  sequence_of, terminal_of, get_last_sequence, reserve_next_sequence, has_logical_event, Appended,
  inserted, conflicting, insert_row, append_event,
}
use mcp_software_factory.EventStore.Emitter.{
  Emitter, Faults, Emission, unreserved, with_sequence, persist, after_reservation, emit_event,
}
use mcp_software_factory.EventStore.Journal.{Journal, logged, skipped, log, journal_of, log_at}
use mcp_software_factory.EventStore.Consistency.{
  IsConsistent, is_used, no_violation, no_duplicate, same_stream, insert-IsConsistent,
  reserve-IsConsistent,
}
use mcp_software_factory.EventStore.Refinement.{
  persists, persist_lem, Journal-eq, stored, after_persistence_store, holds_journal, append_new,
}
use mcp_software_factory.EventStore.Effects.{
  reserved, reserved_stream, reserved_journal, reserved_other, reserved_counter, insert_journal,
  insert_other,
}

module _ (f : Faults) (now : ℕ) (e : WorkflowEvent) (y : Emitter) where
  abbrev pub thread : String
  thread = e.event.thread_id

  abbrev pub branch : String
  branch = branch_of e

  abbrev pub number : ℕ
  number = get_last_sequence y.store thread branch

  abbrev pub numbered : WorkflowEvent
  numbered = with_sequence (number + 1) e

  abbrev pub before : Store
  before = reserved y.store thread branch

  abbrev pub attempts : ℕ
  attempts = max y.persistence_retries 1

  -- The store behind a call.
  abbrev pub store_behind : Bool → Bool → Bool → Bool → Store
  store_behind known reserves kept closed =
      if known
      then y.store
      else (if not reserves
          then y.store
          else (if not kept || closed then before else insert_row now numbered before))

  abbrev pub is_known : Bool
  is_known = has_logical_event y.store thread branch (logical_event_key e)

  abbrev pub is_refused : Bool
  is_refused = ends_branch e.event.type && is_some (terminal_of (y.store.streams thread branch))

  before_terminal :
      is_some (terminal_of (before.streams thread branch))
      ≡ is_some (terminal_of (y.store.streams thread branch))
  before_terminal = ap (λ (j : Journal). j.is_closed) (reserved_journal y.store thread branch)

  -- The append of the numbered event.
  pub numbered_append :
      IsConsistent y.store
      → is_used e.event_id y.store.rows ≡ false
      → is_known ≡ false
      → append_event now numbered before
        ≡ (if is_refused then conflicting else inserted (insert_row now numbered before))
  unfolding has_logical_event reserve_next_sequence
  numbered_append c u k =
      append_new now numbered before (no_violation number e y.store.rows (c thread branch) u k)
        (no_duplicate (number + 1) e y.store.rows u k)
      ∙ ap
          (λ (b : Bool).
            if ends_branch e.event.type && b
            then conflicting
            else inserted (insert_row now numbered before))
          before_terminal

  store_reserved :
      IsConsistent y.store
      → is_used e.event_id y.store.rows ≡ false
      → is_known ≡ false
      → (after_reservation f now e y (reserve_next_sequence y.store thread branch)).0.store ≡ (
          if not (persists attempts f.append) || is_refused
          then before
          else insert_row now numbered before)
  unfolding reserve_next_sequence
  store_reserved c u k =
      after_persistence_store numbered (record y { store = before })
        (persist attempts f.append now numbered before)
      ∙ ap (λ (r : Option Appended). stored r before)
          (persist_lem attempts f.append now numbered before
            ∙ ap (λ (a : Appended). if persists attempts f.append then some a else none)
                (numbered_append c u k))
      ∙ decided (persists attempts f.append) is_refused
    where
      decided :
          (p r : Bool)
          → stored
              (if p
                then some (if r then conflicting else inserted (insert_row now numbered before))
                else none)
              before
            ≡ (if not p || r then before else insert_row now numbered before)
      decided true true = refl
      decided true false = refl
      decided false r = refl

  pub emitted_store :
      IsConsistent y.store
      → is_used e.event_id y.store.rows ≡ false
      → (emit_event f now e y).0.store
        ≡ store_behind is_known (not f.reservation) (persists attempts f.append) is_refused
  unfolding emit_event
  emitted_store c u = decided is_known f.reservation _ _ (store_reserved c u)
    where
      decided :
          (k r : Bool) (z : Emitter × Emission) (t : Store)
          → (k ≡ false → z.0.store ≡ t)
          → (if k
              then (record y { deduplicated = y.deduplicated + 1 }, Emission.deduplicated)
              else (if r then (y, unreserved) else z)).0.store
            ≡ (if k then y.store else (if not (not r) then y.store else t))
      decided true r z t h = refl
      decided false true z t h = refl
      decided false false z t h = h refl

  before_counter : get_last_sequence before thread branch ≡ number + 1
  before_counter =
      ap sequence_of (reserved_stream y.store thread branch)
      ∙ reserved_counter y.store thread branch (number + 1) (y.store.streams thread branch)

  inserted_journal :
      journal_of (insert_row now numbered before) thread branch
      ≡ logged e (journal_of y.store thread branch)
  unfolding reserve_next_sequence
  inserted_journal =
      insert_journal now numbered before before_counter
      ∙ Journal-eq _ _ before_counter refl
          (ap (λ (b : Bool). b || ends_branch e.event.type) before_terminal)

  behind_journal :
      (k r p c : Bool)
      → journal_of (store_behind k r p c) thread branch ≡ (
          if k
          then journal_of y.store thread branch
          else (if not r
              then journal_of y.store thread branch
              else (if not p || c
                  then skipped (journal_of y.store thread branch)
                  else logged e (journal_of y.store thread branch))))
  behind_journal true r p c = refl
  behind_journal false false p c = refl
  behind_journal false true false c = reserved_journal y.store thread branch
  behind_journal false true true true = reserved_journal y.store thread branch
  behind_journal false true true false = inserted_journal

  behind_other :
      (t b : String)
      → is_stream thread branch t b ≡ false
      → (k r p c : Bool) → journal_of (store_behind k r p c) t b ≡ journal_of y.store t b
  behind_other t b h true r p c = refl
  behind_other t b h false false p c = refl
  behind_other t b h false true false c = reserved_other y.store thread branch t b h
  behind_other t b h false true true true = reserved_other y.store thread branch t b h
  behind_other t b h false true true false =
      insert_other now numbered before t b h ∙ reserved_other y.store thread branch t b h

  behind-IsConsistent :
      IsConsistent y.store → (k r p c : Bool) → IsConsistent (store_behind k r p c)
  behind-IsConsistent h true r p c = h
  behind-IsConsistent h false false p c = h
  behind-IsConsistent h false true false c = reserve-IsConsistent y.store thread branch h
  behind-IsConsistent h false true true true = reserve-IsConsistent y.store thread branch h
  behind-IsConsistent h false true true false =
      insert-IsConsistent now numbered before (reserve-IsConsistent y.store thread branch h)

  pub own_journal :
      IsConsistent y.store
      → is_used e.event_id y.store.rows ≡ false
      → journal_of (emit_event f now e y).0.store thread branch
        ≡ log (not f.reservation) (persists attempts f.append) e (journal_of y.store thread branch)
  unfolding log has_logical_event
  own_journal c u =
      ap (λ (s : Store). journal_of s thread branch) (emitted_store c u)
      ∙ behind_journal is_known (not f.reservation) (persists attempts f.append) is_refused
      ∙ ap
          (λ (k : Bool).
            if k
            then journal_of y.store thread branch
            else (if not (not f.reservation)
                then journal_of y.store thread branch
                else (if not (persists attempts f.append) || is_refused
                    then skipped (journal_of y.store thread branch)
                    else logged e (journal_of y.store thread branch))))
          (sym (holds_journal e thread branch y.store.rows))

  pub event_refines :
      IsConsistent y.store
      → is_used e.event_id y.store.rows ≡ false
      → (t b : String)
      → journal_of (emit_event f now e y).0.store t b
        ≡ log_at (not f.reservation) (persists attempts f.append) e (journal_of y.store) t b
  event_refines c u t b =
      if_cases (λ (j : Journal). journal_of (emit_event f now e y).0.store t b ≡ j)
        (is_stream thread branch t b)
        (λ h.
          let same = same_stream thread branch t b h in
          subst
            (λ (t' : String).
              journal_of (emit_event f now e y).0.store t' b
              ≡ log (not f.reservation) (persists attempts f.append) e (journal_of y.store t' b))
            same.0
            (subst
              (λ (b' : String).
                journal_of (emit_event f now e y).0.store thread b'
                ≡ log (not f.reservation) (persists attempts f.append) e
                    (journal_of y.store thread b'))
              same.1 (own_journal c u)))
        (λ h.
          ap (λ (s : Store). journal_of s t b) (emitted_store c u)
          ∙ behind_other t b h is_known (not f.reservation) (persists attempts f.append) is_refused)

  pub emitted-IsConsistent :
      IsConsistent y.store
      → is_used e.event_id y.store.rows ≡ false
      → IsConsistent (emit_event f now e y).0.store
  emitted-IsConsistent c u =
      subst IsConsistent (sym (emitted_store c u))
        (behind-IsConsistent c is_known (not f.reservation) (persists attempts f.append) is_refused)
