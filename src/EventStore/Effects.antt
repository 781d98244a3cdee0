-- ===== src/EventStore/Effects.antt =====
-- What the reservation of a number and the insertion of a row do to the journals.
use mcp_software_factory.Prelude.{
  ℕ, ◌+◌, ◌≡◌, refl, sym, ap, ◌∙◌, String, Bool, true, false, ◌||◌, Option, none, some, List, [],
  ◌∷◌, ◌++◌, nat_eq, string_eq, option_eq, keep, map, is_some, if◌then◌else◌, arith, keep-append,
}
use mcp_software_factory.EventStore.Types.{
  WorkflowEvent, logical_key_eq, ends_branch, branch_of, Row, StreamRow, Store, in_stream,
  is_stream,
}
use mcp_software_factory.EventStore.Table.{
  sequence_of, terminal_of, get_last_sequence, reserved_row, reserve_next_sequence, insert_row,
  appended_row,
}
use mcp_software_factory.EventStore.Journal.{skipped, events_of, journal_of}
use mcp_software_factory.EventStore.QueryLaws.{append-nil}
use mcp_software_factory.EventStore.Consistency.{is_stream_self}
use mcp_software_factory.EventStore.Refinement.{Journal-eq}

-- What reserving a number and inserting a row do to the journal of the stream, and to the others.
module _ (s : Store) (thread branch : String) where
  abbrev pub reserved : Store
  reserved = (reserve_next_sequence s thread branch).1

  pub chosen : {A : Type 0} (b : Bool) (x y : A) → b ≡ true → (if b then x else y) ≡ x
  chosen true x y h = refl
  chosen false x y h = absurd (ground (arith, h))

  pub not_chosen : {A : Type 0} (b : Bool) (x y : A) → b ≡ false → (if b then x else y) ≡ y
  not_chosen true x y h = absurd (ground (arith, h))
  not_chosen false x y h = refl

  reserved_terminal :
      (n : ℕ) (r : Option StreamRow) → terminal_of (some (reserved_row n r)) ≡ terminal_of r
  reserved_terminal n none = refl
  reserved_terminal n (some r) = refl

  pub reserved_counter : (n : ℕ) (r : Option StreamRow) → sequence_of (some (reserved_row n r)) ≡ n
  reserved_counter n none = refl
  reserved_counter n (some r) = refl

  pub reserved_stream :
      reserved.streams thread branch
      ≡ some (reserved_row (get_last_sequence s thread branch + 1) (s.streams thread branch))
  unfolding reserve_next_sequence
  reserved_stream =
      chosen (is_stream thread branch thread branch) _ _ (is_stream_self thread branch)

  pub reserved_journal : journal_of reserved thread branch ≡ skipped (journal_of s thread branch)
  unfolding reserve_next_sequence
  reserved_journal =
      Journal-eq (journal_of reserved thread branch) (skipped (journal_of s thread branch))
        (ap sequence_of reserved_stream
          ∙ reserved_counter (get_last_sequence s thread branch + 1) (s.streams thread branch))
        refl
        (ap (λ (r : Option StreamRow). is_some (terminal_of r)) reserved_stream
          ∙ ap is_some
              (reserved_terminal (get_last_sequence s thread branch + 1) (s.streams thread branch)))

  pub reserved_other :
      (t b : String)
      → is_stream thread branch t b ≡ false
      → journal_of reserved t b ≡ journal_of s t b
  unfolding reserve_next_sequence
  reserved_other t b h =
      let same = not_chosen (is_stream thread branch t b) _ _ h in
      Journal-eq (journal_of reserved t b) (journal_of s t b) (ap sequence_of same) refl
        (ap (λ (r : Option StreamRow). is_some (terminal_of r)) same)

map-append : (f : Row → WorkflowEvent) (xs ys : List Row) → map f (xs ++ ys) ≡ map f xs ++ map f ys
map-append f [] ys = refl
map-append f (x ∷ xs) ys = ap (λ (es : List WorkflowEvent). f x ∷ es) (map-append f xs ys)

module _ (now : ℕ) (e : WorkflowEvent) (s : Store) where
  abbrev new_row : Row
  new_row = record { stored = e; created_at = now; is_readable = true }

  events_of_insert :
      (t b : String)
      → events_of (insert_row now e s).rows t b
        ≡ events_of s.rows t b ++ (if in_stream t b new_row then e ∷ [] else [])
  events_of_insert t b =
      ap (map (λ r. r.stored)) (keep-append (in_stream t b) s.rows (new_row ∷ []))
      ∙ map-append (λ r. r.stored) (keep (in_stream t b) s.rows)
          (keep (in_stream t b) (new_row ∷ []))
      ∙ ap (λ (es : List WorkflowEvent). events_of s.rows t b ++ es) (one (in_stream t b new_row))
    where
      one :
          (c : Bool)
          → map (λ r. r.stored) (elim c as (λ d. List Row) [ true ↦ new_row ∷ [] | false ↦ [] ])
            ≡ (if c then e ∷ [] else [])
      one true = refl
      one false = refl

  -- With the number that was reserved for it.
  pub insert_journal :
      get_last_sequence s e.event.thread_id (branch_of e) ≡ e.event.sequence
      → journal_of (insert_row now e s) e.event.thread_id (branch_of e)
        ≡ record (journal_of s e.event.thread_id (branch_of e)) {
          entries = events_of s.rows e.event.thread_id (branch_of e) ++ e ∷ [];
          is_closed =
              is_some (terminal_of (s.streams e.event.thread_id (branch_of e)))
              || ends_branch e.event.type;
        }
  insert_journal c =
      let self = is_stream_self e.event.thread_id (branch_of e) in
      let here =
        chosen s e.event.thread_id (branch_of e)
          (is_stream e.event.thread_id (branch_of e) e.event.thread_id (branch_of e)) _ _ self in
      Journal-eq _ _
        (ap sequence_of here ∙ counter_kept (s.streams e.event.thread_id (branch_of e)) c)
        (events_of_insert e.event.thread_id (branch_of e)
          ∙ ap (λ (es : List WorkflowEvent). events_of s.rows e.event.thread_id (branch_of e) ++ es)
              (chosen s e.event.thread_id (branch_of e)
                (is_stream e.event.thread_id (branch_of e) e.event.thread_id (branch_of e)) _ _
                self))
        (ap (λ (r : Option StreamRow). is_some (terminal_of r)) here
          ∙ closed (s.streams e.event.thread_id (branch_of e)))
    where
      counter_kept :
          (r : Option StreamRow)
          → sequence_of r ≡ e.event.sequence
          → sequence_of (some (appended_row e r)) ≡ sequence_of r
      counter_kept none h = sym h
      counter_kept (some r) h = omega (arith, h)

      closed :
          (r : Option StreamRow)
          → is_some (terminal_of (some (appended_row e r)))
            ≡ (is_some (terminal_of r) || ends_branch e.event.type)
      closed none = ground arith
      closed (some r) = ground arith

  pub insert_other :
      (t b : String)
      → is_stream e.event.thread_id (branch_of e) t b ≡ false
      → journal_of (insert_row now e s) t b ≡ journal_of s t b
  insert_other t b h =
      let same = not_chosen s t b (is_stream e.event.thread_id (branch_of e) t b) _ _ h in
      Journal-eq _ _ (ap sequence_of same)
        (events_of_insert t b
          ∙ ap (λ (es : List WorkflowEvent). events_of s.rows t b ++ es)
              (not_chosen s t b (in_stream t b new_row) _ _ h)
          ∙ append-nil (events_of s.rows t b))
        (ap (λ (r : Option StreamRow). is_some (terminal_of r)) same)
