-- ===== src/EventStore/Refinement.antt =====
-- The durable emitter over the tables keeps the journals that the specification keeps.
use mcp_software_factory.Prelude.{
  ℕ, zero, suc, ◌≡◌, refl, ap, String, Bool, true, false, ◌&&◌, ◌||◌, Option, none, some, List, [],
  ◌∷◌, ◌==◌, nat_eq, string_eq, option_eq, any, keep, map, is_some, if◌then◌else◌,
}
use mcp_software_factory.EventStore.Types.{
  WorkflowEvent, LogicalKey, logical_key_eq, logical_event_key, ends_branch, branch_of, Row, Store,
  in_stream,
}
use mcp_software_factory.EventStore.Table.{
  terminal_of, has_key, violates, is_duplicate, Appended, inserted, ignored, conflicting,
  insert_row, append_event,
}
use mcp_software_factory.EventStore.Emitter.{Emitter, persist, remember, after_persistence}
use mcp_software_factory.EventStore.Journal.{Journal, has_entry_key, holds, events_of}

-- Whether one of the attempts succeeds.
abbrev pub persists : ℕ → (ℕ → Bool) → Bool
persists zero fails = false
persists (suc n) fails = if fails n then persists n fails else true

pub persist_lem :
    (n : ℕ) (fails : ℕ → Bool) (now : ℕ) (e : WorkflowEvent) (s : Store)
    → persist n fails now e s ≡ (if persists n fails then some (append_event now e s) else none)
unfolding persist
persist_lem zero fails now e s = refl
persist_lem (suc n) fails now e s = if_if (fails n) _ _ _ (persist_lem n fails now e s)
  where
    if_if :
        (b c : Bool) (p : Option Appended) (q : Appended)
        → p ≡ (if c then some q else none)
        → (if b then p else some q) ≡ (if (if b then c else true) then some q else none)
    if_if true c p q h = h
    if_if false c p q h = refl

pub Journal-eq :
    (j k : Journal)
    → j.counter ≡ k.counter
    → j.entries ≡ k.entries
    → j.is_closed ≡ k.is_closed
    → j ≡ k
Journal-eq j k p q r = cc

-- What an append leaves of the store.
abbrev pub stored : Option Appended → Store → Store
stored (some (inserted t)) s = t
stored _ s = s

pub after_persistence_store :
    (e : WorkflowEvent) (y : Emitter) (r : Option Appended)
    → (after_persistence e y r).0.store ≡ stored r y.store
unfolding remember
after_persistence_store e y none = refl
after_persistence_store e y (some ignored) = refl
after_persistence_store e y (some conflicting) = refl
after_persistence_store e y (some (inserted t)) = refl

-- The store holds a key just when the journal does.
pub holds_journal :
    (e : WorkflowEvent) (thread branch : String) (rs : List Row)
    → holds e (events_of rs thread branch)
      ≡ any (λ r. in_stream thread branch r && has_key (logical_event_key e) r) rs
holds_journal e thread branch [] = refl
holds_journal e thread branch (r ∷ rs) =
    step (in_stream thread branch r) (logical_event_key e) (holds_journal e thread branch rs)
  where
    step :
        (b : Bool) (k : Option LogicalKey)
        → any (has_entry_key k) (map (λ x. x.stored) (keep (in_stream thread branch) rs))
          ≡ any (λ x. in_stream thread branch x && has_key k x) rs
        → any (has_entry_key k) (
            map
              (λ x. x.stored)
              (elim b as (λ c. List Row) [
                | true ↦ r ∷ keep (in_stream thread branch) rs
                | false ↦ keep (in_stream thread branch) rs
              ]))
          ≡ ((b && has_key k r) || any (λ x. in_stream thread branch x && has_key k x) rs)
    step true none h = h
    step true (some k) h = ap (λ (c : Bool). (logical_event_key r.stored == some k) || c) h
    step false k h = h

-- The append of an event whose key and identifier are new, with the next number.
pub append_new :
    (now : ℕ) (e : WorkflowEvent) (s : Store)
    → any (violates e) s.rows ≡ false
    → any (is_duplicate e) s.rows ≡ false
    → append_event now e s ≡ (
        if ends_branch e.event.type
          && is_some (terminal_of (s.streams e.event.thread_id (branch_of e)))
        then conflicting
        else inserted (insert_row now e s))
unfolding append_event
append_new now e s v d = choosing _ _ _ v d
  where
    choosing :
        (a v d : Bool)
        → v ≡ false
        → d ≡ false
        → (if a
            then (if d then ignored else conflicting)
            else (if v then ignored else inserted (insert_row now e s)))
          ≡ (if a then conflicting else inserted (insert_row now e s))
    choosing true v d p q = ap (λ (c : Bool). if c then ignored else conflicting) q
    choosing false v d p q =
        ap (λ (c : Bool). if c then ignored else inserted (insert_row now e s)) p
