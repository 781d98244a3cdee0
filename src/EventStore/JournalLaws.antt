-- ===== src/EventStore/JournalLaws.antt =====
-- What holds of every journal, and so of every stream of the store.
use mcp_software_factory.Prelude.{
  if_cases, ℕ, ◌+◌, ◌≤◌, ◌<◌, ◌≡◌, refl, sym, ap, ◌∙◌, subst, String, Bool, true, false, not, ◌&&◌,
  ◌||◌, Option, none, some, List, [], ◌∷◌, ◌++◌, ◌==◌, option_eq, if◌then◌else◌, arith, max,
}
use mcp_software_factory.EventStore.Types.{
  WorkflowEvent, LogicalKey, logical_key_eq, logical_event_key, ends_branch, branch_of, is_stream,
}
use mcp_software_factory.EventStore.Emitter.{Emitter, with_branch, with_sequence}
use mcp_software_factory.EventStore.Journal.{
  Journal, Journals, has_entry_key, holds, logged, log, journal_of,
}
use mcp_software_factory.EventStore.Consistency.{IsConsistent}
use mcp_software_factory.EventStore.Refinement.{persists}
use mcp_software_factory.EventStore.RunLaws.{Call, emit_all, log_all, AllNew, emit_all_refines}

-- The sequences grow, from above `low` up to `high` at most.
abbrev pub IsAscending : ℕ → List WorkflowEvent → ℕ → Type 0
IsAscending low [] high = low ≤ high
IsAscending low (e ∷ es) high = (low < e.event.sequence) × IsAscending e.event.sequence es high

-- No entry has the key of one before it.
abbrev pub HasUniqueKeys : List WorkflowEvent → Type 0
HasUniqueKeys [] = Unit
HasUniqueKeys (e ∷ es) = (holds e es ≡ false) × HasUniqueKeys es

-- How many of the events end the branch.
abbrev pub count_ends : List WorkflowEvent → ℕ
count_ends [] = 0
count_ends (e ∷ es) = (if ends_branch e.event.type then 1 else 0) + count_ends es

abbrev pub IsOrderly : Journal → Type 0
IsOrderly j =
    IsAscending 0 j.entries j.counter
    × HasUniqueKeys j.entries
    × (count_ends j.entries ≡ (if j.is_closed then 1 else 0))

IsAscending-suc :
    (low : ℕ) (es : List WorkflowEvent) (n : ℕ) → IsAscending low es n → IsAscending low es (n + 1)
IsAscending-suc low [] n h = omega (arith, h)
IsAscending-suc low (e ∷ es) n (h, a) = (h, IsAscending-suc e.event.sequence es n a)

IsAscending-append :
    (low : ℕ) (es : List WorkflowEvent) (n : ℕ) (e : WorkflowEvent)
    → IsAscending low es n
    → IsAscending low (es ++ with_sequence (n + 1) e ∷ []) (n + 1)
IsAscending-append low [] n e h = (omega (arith, h), omega arith)
IsAscending-append low (x ∷ es) n e (h, a) = (h, IsAscending-append x.event.sequence es n e a)

key_with_sequence :
    (n : ℕ) (e : WorkflowEvent) → logical_event_key (with_sequence n e) ≡ logical_event_key e
unfolding logical_event_key
key_with_sequence n e = refl

unequal : (k l : LogicalKey) → (some k == some l) ≡ false → (some l == some k) ≡ false
unequal k l h = ground (arith, h, logical_key_eq.same_iff k l, logical_key_eq.same_iff l k)

has_entry_key-sym :
    (k l : Option LogicalKey) (x e : WorkflowEvent)
    → logical_event_key x ≡ k
    → logical_event_key e ≡ l
    → has_entry_key l x ≡ false
    → has_entry_key k e ≡ false
has_entry_key-sym none l x e p q h = refl
has_entry_key-sym (some k) none x e p q h = ap (λ (o : Option LogicalKey). o == some k) q
has_entry_key-sym (some k) (some l) x e p q h =
    ap (λ (o : Option LogicalKey). o == some k) q
    ∙ unequal k l (ap (λ (o : Option LogicalKey). o == some l) (sym p) ∙ h)

holds-append :
    (x : WorkflowEvent) (es : List WorkflowEvent) (e : WorkflowEvent)
    → holds x es ≡ false
    → has_entry_key (logical_event_key x) e ≡ false
    → holds x (es ++ e ∷ []) ≡ false
holds-append x [] e h k = ground (arith, k)
holds-append x (y ∷ es) e h k =
    step (has_entry_key (logical_event_key x) y) _ _ h (λ l. holds-append x es e l k)
  where
    step : (a b c : Bool) → (a || b) ≡ false → (b ≡ false → c ≡ false) → (a || c) ≡ false
    step a b c h k = ground (arith, h, k)

HasUniqueKeys-append :
    (es : List WorkflowEvent) (n : ℕ) (e : WorkflowEvent)
    → HasUniqueKeys es
    → holds e es ≡ false
    → HasUniqueKeys (es ++ with_sequence n e ∷ [])
HasUniqueKeys-append [] n e u h = (refl, tt)
HasUniqueKeys-append (x ∷ es) n e (k, u) h =
    let both = parts (has_entry_key (logical_event_key e) x) _ h in
    (
      holds-append x es (with_sequence n e) k (
          has_entry_key-sym (logical_event_key x) (logical_event_key e) x (with_sequence n e) refl
            (key_with_sequence n e) both.0),
      HasUniqueKeys-append es n e u both.1,
    )
  where
    parts : (a b : Bool) → (a || b) ≡ false → (a ≡ false) × (b ≡ false)
    parts a b h = (ground (arith, h), ground (arith, h))

count_ends-append :
    (es : List WorkflowEvent) (e : WorkflowEvent)
    → count_ends (es ++ e ∷ []) ≡ count_ends es + (if ends_branch e.event.type then 1 else 0)
count_ends-append [] e = omega arith
count_ends-append (x ∷ es) e = let rest = count_ends-append es e in omega (arith, rest)

logged-IsOrderly :
    (e : WorkflowEvent) (j : Journal)
    → IsOrderly j
    → holds e j.entries ≡ false
    → (ends_branch e.event.type && j.is_closed) ≡ false
    → IsOrderly (logged e j)
logged-IsOrderly e j (a, u, c) h k = (
  IsAscending-append 0 j.entries j.counter e a,
  HasUniqueKeys-append j.entries (j.counter + 1) e u h,
  count_ends-append j.entries (with_sequence (j.counter + 1) e)
      ∙ ended (count_ends j.entries) (ends_branch e.event.type) j.is_closed c k,
)
  where
    ended :
        (n : ℕ) (b d : Bool)
        → n ≡ (if d then 1 else 0)
        → (b && d) ≡ false
        → n + (if b then 1 else 0) ≡ (if d || b then 1 else 0)
    ended n true true c k = absurd (ground (arith, k))
    ended n true false c k = omega (arith, c)
    ended n false true c k = omega (arith, c)
    ended n false false c k = omega (arith, c)

log-IsOrderly :
    (reserves keeps : Bool) (e : WorkflowEvent) (j : Journal)
    → IsOrderly j
    → IsOrderly (log reserves keeps e j)
unfolding log
log-IsOrderly reserves keeps e j o =
    if_cases IsOrderly (holds e j.entries) (λ _. o)
      (λ h.
        if_cases IsOrderly (not reserves) (λ _. o)
          (λ _.
            if_cases IsOrderly (not keeps || (ends_branch e.event.type && j.is_closed))
              (λ _. (IsAscending-suc 0 j.entries j.counter o.0, o.1, o.2))
              (λ k. logged-IsOrderly e j o h (ground (arith, k)))))

log_all-IsOrderly :
    (n : ℕ) (cs : List Call) (j : Journals)
    → ((t b : String) → IsOrderly (j t b))
    → (t b : String) → IsOrderly (log_all n cs j t b)
log_all-IsOrderly n [] j o = o
log_all-IsOrderly n (c ∷ cs) j o = log_all-IsOrderly n cs _ (λ t b.
    if_cases IsOrderly (is_stream c.event.event.thread_id (branch_of (with_branch c.event)) t b)
      (λ _.
        log-IsOrderly (not c.faults.reservation) (persists n c.faults.append) (with_branch c.event)
          (j t b) (o t b))
      (λ _. o t b))

-- From a consistent store whose streams are orderly, whatever statements fail, events with new and
-- different identifiers that are emitted one behind another leave every stream orderly: its
-- numbers grow and do not pass its counter, no two of its events have the same key, and it holds
-- one event that ends the branch if it is marked as ended, and none otherwise.
pub emit_all-IsOrderly :
    (cs : List Call) (y : Emitter)
    → IsConsistent y.store
    → AllNew y.store.rows cs
    → ((t b : String) → IsOrderly (journal_of y.store t b))
    → (t b : String) → IsOrderly (journal_of (emit_all cs y).store t b)
emit_all-IsOrderly cs y c a o t b =
    subst (λ (j : Journals). IsOrderly (j t b)) (sym (emit_all_refines cs y c a))
      (log_all-IsOrderly (max y.persistence_retries 1) cs (journal_of y.store) o t b)
