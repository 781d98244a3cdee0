-- ===== src/EventStore/RunLaws.antt =====
-- Runs of the durable emitter: the events that come one behind another, each with the statements that
-- fail in its course.
use mcp_software_factory.Prelude.{
  ℕ, ◌+◌, max, ◌≡◌, refl, sym, ap, ◌∙◌, subst, String, Bool, true, false, not, ◌||◌, Option, none,
  some, List, [], ◌∷◌, ◌++◌, ◌==◌, string_eq, any, if◌then◌else◌, arith,
}
use mcp_software_factory.EventStore.Types.{WorkflowEvent, Row, Store}
use mcp_software_factory.EventStore.Table.{
  reserve_next_sequence, Appended, inserted, ignored, conflicting,
}
use mcp_software_factory.EventStore.Emitter.{
  Emitter, Faults, Emission, with_branch, remember, after_persistence, emit_event, emit,
}
use mcp_software_factory.EventStore.Journal.{Journals, journal_of, log_at}
use mcp_software_factory.EventStore.Consistency.{IsConsistent, is_used}
use mcp_software_factory.EventStore.Refinement.{persists}
use mcp_software_factory.EventStore.EmitterLaws.{
  numbered, store_behind, is_known, is_refused, attempts, emitted_store, event_refines,
  emitted-IsConsistent,
}

pub record Call : Type 0 where
  pub faults : Faults
  pub now : ℕ
  pub event : WorkflowEvent

abbrev pub emit_all : List Call → Emitter → Emitter
emit_all [] y = y
emit_all (c ∷ cs) y = emit_all cs (emit c.faults c.now c.event y).0

-- The specification, over the same events.
abbrev pub log_all : ℕ → List Call → Journals → Journals
log_all n [] j = j
log_all n (c ∷ cs) j =
    log_all n cs
      (log_at (not c.faults.reservation) (persists n c.faults.append) (with_branch c.event) j)

-- The identifiers are new to the rows, and no two calls have the same.
abbrev pub AllNew : List Row → List Call → Type 0
AllNew rows [] = Unit
AllNew rows (c ∷ cs) =
    (is_used c.event.event_id rows ≡ false)
    × (any (λ d. c.event.event_id == d.event.event_id) cs ≡ false)
    × AllNew rows cs

retries_kept :
    (f : Faults) (now : ℕ) (e : WorkflowEvent) (y : Emitter)
    → (emit f now e y).0.persistence_retries ≡ y.persistence_retries
unfolding emit emit_event remember
retries_kept f now e y = decided _ f.reservation _ (persisted _ _ _)
  where
    persisted :
        (x : WorkflowEvent) (z : Emitter) (r : Option Appended)
        → (after_persistence x z r).0.persistence_retries ≡ z.persistence_retries
    persisted x z none = refl
    persisted x z (some ignored) = refl
    persisted x z (some conflicting) = refl
    persisted x z (some (inserted s)) = refl

    decided :
        (k r : Bool) (z : Emitter × Emission)
        → z.0.persistence_retries ≡ y.persistence_retries
        → (if k
            then (record y { deduplicated = y.deduplicated + 1 }, Emission.deduplicated)
            else (if r then (y, Emission.unreserved) else z)).0.persistence_retries
          ≡ y.persistence_retries
    decided true r z h = refl
    decided false true z h = refl
    decided false false z h = h

is_used-append :
    (id : String) (rows : List Row) (r : Row)
    → is_used id rows ≡ false
    → (r.stored.event_id == id) ≡ false
    → is_used id (rows ++ r ∷ []) ≡ false
is_used-append id [] r h k = ground (arith, k)
is_used-append id (x ∷ rows) r h k =
    let rest : is_used id rows ≡ false → is_used id (rows ++ r ∷ []) ≡ false =
      λ l. is_used-append id rows r l k in
    step (x.stored.event_id == id) _ _ h rest
  where
    step : (a b c : Bool) → (a || b) ≡ false → (b ≡ false → c ≡ false) → (a || c) ≡ false
    step a b c h k = ground (arith, h, k)

-- A call leaves the rows, or adds one that can be read.
pub emitted_rows :
    (P : List Row → Type 0) (f : Faults) (now : ℕ) (e : WorkflowEvent) (y : Emitter)
    → IsConsistent y.store
    → is_used e.event_id y.store.rows ≡ false
    → P y.store.rows
    → P (
        y.store.rows
        ++ record { stored = numbered f now e y; created_at = now; is_readable = true } ∷ [])
    → P (emit_event f now e y).0.store.rows
unfolding reserve_next_sequence
emitted_rows P f now e y c u h k =
    subst (λ (s : Store). P s.rows) (sym (emitted_store f now e y c u))
      (behind (is_known f now e y) (not f.reservation) (persists (attempts f now e y) f.append)
        (is_refused f now e y))
  where
    behind :
        (known reserves kept closed : Bool)
        → P (store_behind f now e y known reserves kept closed).rows
    behind true r p c = h
    behind false false p c = h
    behind false true false c = h
    behind false true true true = h
    behind false true true false = k

pub all_new :
    (f : Faults) (now : ℕ) (e : WorkflowEvent) (y : Emitter) (cs : List Call)
    → IsConsistent y.store
    → is_used e.event_id y.store.rows ≡ false
    → any (λ (d : Call). e.event_id == d.event.event_id) cs ≡ false
    → AllNew y.store.rows cs
    → AllNew (emit f now e y).0.store.rows cs
unfolding emit
all_new f now e y [] c u h a = tt
all_new f now e y (d ∷ cs) c u h (v, w, a) =
    let both = parts (e.event_id == d.event.event_id) _ h in
    (
      emitted_rows (λ (rows : List Row). is_used d.event.event_id rows ≡ false) f now
          (with_branch e) y c u v (is_used-append d.event.event_id y.store.rows _ v both.0),
      w,
      all_new f now e y cs c u both.1 a,
    )
  where
    parts : (a b : Bool) → (a || b) ≡ false → (a ≡ false) × (b ≡ false)
    parts a b h = (ground (arith, h), ground (arith, h))

-- From a consistent store, whatever statements fail, events with new and different identifiers
-- that are emitted one behind another leave every stream with the journal that the specification
-- gives it: each event whose key the journal does not hold takes the next number if one can be
-- reserved, and is stored under it if one of the attempts succeeds, unless it would end a branch
-- that has ended.
pub emit_all_refines :
    (cs : List Call) (y : Emitter)
    → IsConsistent y.store
    → AllNew y.store.rows cs
    → journal_of (emit_all cs y).store
      ≡ log_all (max y.persistence_retries 1) cs (journal_of y.store)
unfolding emit
emit_all_refines [] y c a = refl
emit_all_refines (d ∷ cs) y c (u, v, a) =
    let z : Emitter = (emit d.faults d.now d.event y).0 in
    let x = with_branch d.event in
    emit_all_refines cs z (emitted-IsConsistent d.faults d.now x y c u)
      (all_new d.faults d.now d.event y cs c u v a)
    ∙ ap (λ (n : ℕ). log_all (max n 1) cs (journal_of z.store))
        (retries_kept d.faults d.now d.event y)
    ∙ ap (log_all (max y.persistence_retries 1) cs)
        (λ i t b. event_refines d.faults d.now x y c u t b i)
