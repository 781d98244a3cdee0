-- ===== src/EventStore/Consistency.antt =====
-- Where the sequences of a stream do not pass its counter, a new number meets no row of the stream.
use mcp_software_factory.Prelude.{
  if_cases, ℕ, ◌+◌, ◌≤◌, ◌≡◌, refl, subst, String, Bool, true, false, ◌&&◌, ◌||◌, Option, none,
  some, List, [], ◌∷◌, ◌++◌, ◌==◌, nat_eq, string_eq, option_eq, any, arith,
}
use mcp_software_factory.EventStore.Types.{
  WorkflowEvent, logical_key_eq, logical_event_key, branch_of, Row, StreamRow, Store, in_stream,
  is_stream,
}
use mcp_software_factory.EventStore.Table.{
  sequence_of, get_last_sequence, reserved_row, reserve_next_sequence, has_key, violates,
  is_duplicate, insert_row, appended_row,
}
use mcp_software_factory.EventStore.Emitter.{with_sequence}

-- The rows of a stream are numbered no higher than this.
abbrev pub AllBelow : String → String → ℕ → List Row → Type 0
AllBelow thread branch n [] = Unit
AllBelow thread branch n (r ∷ rs) =
    (in_stream thread branch r ≡ true → r.stored.event.sequence ≤ n) × AllBelow thread branch n rs

abbrev pub IsConsistent : Store → Type 0
IsConsistent s =
    (thread branch : String) → AllBelow thread branch (get_last_sequence s thread branch) s.rows

-- No row has the identifier.
abbrev pub is_used : String → List Row → Bool
is_used id = any (λ r. r.stored.event_id == id)

AllBelow-mono :
    (thread branch : String) (n m : ℕ) (rs : List Row)
    → n ≤ m
    → AllBelow thread branch n rs
    → AllBelow thread branch m rs
AllBelow-mono thread branch n m [] l a = tt
AllBelow-mono thread branch n m (r ∷ rs) l (h, a) =
    ((λ i. omega (arith, h i, l)), AllBelow-mono thread branch n m rs l a)

AllBelow-append :
    (thread branch : String) (n : ℕ) (rs : List Row) (r : Row)
    → AllBelow thread branch n rs
    → (in_stream thread branch r ≡ true → r.stored.event.sequence ≤ n)
    → AllBelow thread branch n (rs ++ r ∷ [])
AllBelow-append thread branch n [] r a h = (h, tt)
AllBelow-append thread branch n (x ∷ rs) r (k, a) h = (k, AllBelow-append thread branch n rs r a h)

or_left : (a b : Bool) → (a || b) ≡ false → a ≡ false
or_left a b h = ground arith

or_right : (a b : Bool) → (a || b) ≡ false → b ≡ false
or_right a b h = ground arith

not_violated :
    (a b c d v : Bool)
    → a ≡ false
    → (b ≡ true → c ≡ false)
    → (b && d) ≡ false
    → v ≡ false
    → ((a || (b && (c || d))) || v) ≡ false
not_violated a b c d v p h q r = ground (arith, h)

not_duplicate : (a b v : Bool) → a ≡ false → b ≡ false → v ≡ false → ((a || b) || v) ≡ false
not_duplicate a b v p q r = ground arith

below_next : (m n : ℕ) → m ≤ n → (m == (n + 1)) ≡ false
below_next m n h = ground arith

-- The event with the next number meets no row.
pub no_violation :
    (n : ℕ) (e : WorkflowEvent) (rs : List Row)
    → AllBelow e.event.thread_id (branch_of e) n rs
    → is_used e.event_id rs ≡ false
    → any (λ r. in_stream e.event.thread_id (branch_of e) r && has_key (logical_event_key e) r) rs
      ≡ false
    → any (violates (with_sequence (n + 1) e)) rs ≡ false
unfolding logical_event_key
no_violation n e [] a u k = refl
no_violation n e (r ∷ rs) (h, a) u k =
    not_violated (r.stored.event_id == e.event_id) (in_stream e.event.thread_id (branch_of e) r)
      (r.stored.event.sequence == (n + 1)) (has_key (logical_event_key e) r)
      (any (violates (with_sequence (n + 1) e)) rs) (or_left _ _ u)
      (λ i. below_next r.stored.event.sequence n (h i)) (or_left _ _ k)
      (no_violation n e rs a (or_right _ _ u) (or_right _ _ k))

pub no_duplicate :
    (n : ℕ) (e : WorkflowEvent) (rs : List Row)
    → is_used e.event_id rs ≡ false
    → any (λ r. in_stream e.event.thread_id (branch_of e) r && has_key (logical_event_key e) r) rs
      ≡ false
    → any (is_duplicate (with_sequence n e)) rs ≡ false
unfolding logical_event_key
no_duplicate n e [] u k = refl
no_duplicate n e (r ∷ rs) u k =
    not_duplicate (r.stored.event_id == e.event_id)
      (in_stream e.event.thread_id (branch_of e) r && has_key (logical_event_key e) r)
      (any (is_duplicate (with_sequence n e)) rs) (or_left _ _ u) (or_left _ _ k)
      (no_duplicate n e rs (or_right _ _ u) (or_right _ _ k))

pub same_stream : (a b t c : String) → is_stream a b t c ≡ true → (a ≡ t) × (b ≡ c)
same_stream a b t c h = ground (arith, string_eq.same_iff a t, string_eq.same_iff b c)

pub is_stream_self : (t b : String) → is_stream t b t b ≡ true
is_stream_self t b = ground (arith, string_eq.same_iff t t, string_eq.same_iff b b)

appended_sequence :
    (e : WorkflowEvent) (r : Option StreamRow)
    → (sequence_of r ≤ sequence_of (some (appended_row e r)))
      × (e.event.sequence ≤ sequence_of (some (appended_row e r)))
appended_sequence e none = (omega arith, omega arith)
appended_sequence e (some r) = (omega arith, omega arith)

-- Storing keeps the invariant.
pub insert-IsConsistent :
    (now : ℕ) (e : WorkflowEvent) (s : Store) → IsConsistent s → IsConsistent (insert_row now e s)
insert-IsConsistent now e s c thread branch =
    let row = s.streams e.event.thread_id (branch_of e) in
    let here = is_stream e.event.thread_id (branch_of e) thread branch in
    let grows : get_last_sequence s thread branch
        ≤ get_last_sequence (insert_row now e s) thread branch =
      if_cases (λ (r : Option StreamRow). get_last_sequence s thread branch ≤ sequence_of r) here
        (λ i.
          let same = same_stream e.event.thread_id (branch_of e) thread branch i in
          subst
            (λ (t : String). get_last_sequence s t branch ≤ sequence_of (some (appended_row e row)))
            same.0
            (subst
              (λ (b : String).
                get_last_sequence s e.event.thread_id b ≤ sequence_of (some (appended_row e row)))
              same.1 (appended_sequence e row).0))
        (λ _. omega arith) in
    AllBelow-append thread branch (get_last_sequence (insert_row now e s) thread branch) s.rows
      (record { stored = e; created_at = now; is_readable = true })
      (AllBelow-mono thread branch (get_last_sequence s thread branch)
        (get_last_sequence (insert_row now e s) thread branch) s.rows grows (c thread branch))
      (if_cases (λ (r : Option StreamRow). here ≡ true → e.event.sequence ≤ sequence_of r) here
        (λ _ _. (appended_sequence e row).1) (λ f i. absurd (contradicts here i f)))
  where
    contradicts : (b : Bool) → b ≡ true → b ≡ false → ⊥
    contradicts b h k = ground (arith, h, k)

pub reserve-IsConsistent :
    (s : Store) (t b : String) → IsConsistent s → IsConsistent (reserve_next_sequence s t b).1
unfolding reserve_next_sequence
reserve-IsConsistent s t b c thread branch =
    let row = s.streams t b in
    AllBelow-mono thread branch (get_last_sequence s thread branch)
      (get_last_sequence (reserve_next_sequence s t b).1 thread branch) s.rows
      (if_cases (λ (r : Option StreamRow). get_last_sequence s thread branch ≤ sequence_of r)
        (is_stream t b thread branch)
        (λ i.
          let same = same_stream t b thread branch i in
          subst
            (λ (u : String).
              get_last_sequence s u branch
              ≤ sequence_of (some (reserved_row (get_last_sequence s t b + 1) row)))
            same.0
            (subst
              (λ (v : String).
                get_last_sequence s t v
                ≤ sequence_of (some (reserved_row (get_last_sequence s t b + 1) row)))
              same.1 (reserved_sequence (get_last_sequence s t b) row)))
        (λ _. omega arith))
      (c thread branch)
  where
    reserved_sequence :
        (n : ℕ) (r : Option StreamRow) → n ≤ sequence_of (some (reserved_row (n + 1) r))
    reserved_sequence n none = omega arith
    reserved_sequence n (some r) = omega arith
