-- ===== src/EventStore/ClosedLaws.antt =====
-- What a branch that has ended refuses, however many calls later.
use mcp_software_factory.Prelude.{
  if_cases, ℕ, ◌≤◌, ◌≡◌, refl, sym, ap, ◌∙◌, subst, String, Bool, true, false, not, ◌&&◌, ◌||◌,
  List, [], ◌∷◌, ◌++◌, string_eq, any, if◌then◌else◌, arith, max,
}
use mcp_software_factory.Events.Types.{EventType, supervisor_loop_detected}
use mcp_software_factory.EventStore.Types.{WorkflowEvent, ends_branch, branch_of, is_stream}
use mcp_software_factory.EventStore.Emitter.{
  Emitter, Emission, conflicted, unpersisted, unreserved, with_branch, emit,
}
use mcp_software_factory.EventStore.Journal.{Journal, holds, log, answer, events_of, journal_of}
use mcp_software_factory.EventStore.Consistency.{IsConsistent, is_used}
use mcp_software_factory.EventStore.Refinement.{persists}
use mcp_software_factory.EventStore.EmitterLaws.{event_refines, own_journal, emitted-IsConsistent}
use mcp_software_factory.EventStore.RunLaws.{Call, emit_all, AllNew, all_new}
use mcp_software_factory.EventStore.JournalLaws.{count_ends, IsOrderly}
use mcp_software_factory.EventStore.AnswerLaws.{is_told, event_answers}

abbrev pub is_loop_type : EventType → Bool
is_loop_type supervisor_loop_detected = true
is_loop_type _ = false

-- The events hold one that tells of a loop of the supervisor.
abbrev pub tells_loop : List WorkflowEvent → Bool
tells_loop = any (λ e. is_loop_type e.event.type)

loop_ends : (t : EventType) → is_loop_type t ≡ true → ends_branch t ≡ true
unfolding ends_branch
loop_ends supervisor_loop_detected h = refl
loop_ends _ h = absurd (ground (arith, h))

loop_counts : (es : List WorkflowEvent) → tells_loop es ≡ true → 1 ≤ count_ends es
loop_counts [] h = absurd (ground (arith, h))
loop_counts (e ∷ es) h = ground (arith, h, loop_ends e.event.type, loop_counts es)

-- An orderly journal that holds the event of a loop is closed.
loop-is_closed : (j : Journal) → IsOrderly j → tells_loop j.entries ≡ true → j.is_closed ≡ true
loop-is_closed j o h = closed j.is_closed (count_ends j.entries) o.2 (loop_counts j.entries h)
  where
    closed : (b : Bool) (n : ℕ) → n ≡ (if b then 1 else 0) → 1 ≤ n → b ≡ true
    closed true n e l = refl
    closed false n e l = absurd (omega (arith, e, l))

log-is_closed :
    (reserves keeps : Bool) (e : WorkflowEvent) (j : Journal)
    → j.is_closed ≡ true
    → (log reserves keeps e j).is_closed ≡ true
unfolding log
log-is_closed reserves keeps e j h =
    let IsClosed : Journal → Type 0 = λ k. k.is_closed ≡ true in
    if_cases IsClosed (holds e j.entries) (λ _. h)
      (λ _.
        if_cases IsClosed (not reserves) (λ _. h)
          (λ _.
            if_cases IsClosed (not keeps || (ends_branch e.event.type && j.is_closed)) (λ _. h)
              (λ _. ground (arith, h))))

-- A closed journal takes no end.
log-entries :
    (reserves keeps : Bool) (e : WorkflowEvent) (j : Journal)
    → ends_branch e.event.type ≡ true
    → j.is_closed ≡ true
    → (log reserves keeps e j).entries ≡ j.entries
unfolding log
log-entries reserves keeps e j t h =
    let IsKept : Journal → Type 0 = λ k. k.entries ≡ j.entries in
    if_cases IsKept (holds e j.entries) (λ _. refl)
      (λ _.
        if_cases IsKept (not reserves) (λ _. refl)
          (λ _.
            if_cases IsKept (not keeps || (ends_branch e.event.type && j.is_closed)) (λ _. refl)
              (λ k. absurd (ground (arith, t, h, k)))))

-- How a call ends that would end a closed branch.
abbrev pub refusal : Bool → Bool → Bool → Emission
refusal known reserves keeps =
    if known
    then Emission.deduplicated
    else (if not reserves then unreserved else (if not keeps then unpersisted else conflicted))

answer_refusal :
    (reserves keeps told : Bool) (e : WorkflowEvent) (j : Journal)
    → ends_branch e.event.type ≡ true
    → j.is_closed ≡ true
    → answer reserves keeps told e j ≡ refusal (holds e j.entries) reserves keeps
answer_refusal reserves keeps told e j t h = rw (t, h)

-- Behind any calls a closed branch is closed, and the identifier of a later call is new.
closed_behind :
    (cs : List Call) (d : Call) (y : Emitter) (thread branch : String)
    → IsConsistent y.store
    → AllNew y.store.rows (cs ++ d ∷ [])
    → (journal_of y.store thread branch).is_closed ≡ true
    → IsConsistent (emit_all cs y).store
      × (is_used d.event.event_id (emit_all cs y).store.rows ≡ false)
      × ((journal_of (emit_all cs y).store thread branch).is_closed ≡ true)
unfolding emit
closed_behind [] d y thread branch c (u, v, a) h = (c, u, h)
closed_behind (x ∷ cs) d y thread branch c (u, v, a) h =
    let e = with_branch x.event in
    let keeps = persists (max y.persistence_retries 1) x.faults.append in
    let z : Emitter = (emit x.faults x.now x.event y).0 in
    closed_behind cs d z thread branch (emitted-IsConsistent x.faults x.now e y c u)
      (all_new x.faults x.now x.event y (cs ++ d ∷ []) c u v a)
      (subst (λ (j : Journal). j.is_closed ≡ true)
        (sym (event_refines x.faults x.now e y c u thread branch))
        (if_cases (λ (j : Journal). j.is_closed ≡ true)
          (is_stream e.event.thread_id (branch_of e) thread branch)
          (λ _.
            log-is_closed (not x.faults.reservation) keeps e (journal_of y.store thread branch) h)
          (λ _. h)))

module _ (cs : List Call) (d : Call) (y : Emitter) where
  abbrev pub thread : String
  thread = d.event.event.thread_id

  abbrev pub branch : String
  branch = branch_of (with_branch d.event)

  abbrev pub behind : Emitter
  behind = emit_all cs y

  abbrev pub attempts : ℕ
  attempts = max behind.persistence_retries 1

  -- Once a consistent store with an orderly branch holds the event of a supervisor loop on it,
  -- and after any further calls with new and different identifiers, whatever statements fail, a
  -- call with an event that would end the branch stores nothing on it, and is reported as a
  -- duplicate if the branch holds its key, as unreserved or unpersisted if its reservation or
  -- every attempt to append fails, and as a conflict in every other case.
  pub loop_refuses_end :
      IsConsistent y.store
      → AllNew y.store.rows (cs ++ d ∷ [])
      → IsOrderly (journal_of y.store thread branch)
      → tells_loop (events_of y.store.rows thread branch) ≡ true
      → ends_branch d.event.event.type ≡ true
      → let (after, emission) = emit d.faults d.now d.event behind in
        (events_of after.store.rows thread branch ≡ events_of behind.store.rows thread branch)
        × (emission
            ≡ refusal
                (holds (with_branch d.event) (events_of behind.store.rows thread branch))
                (not d.faults.reservation)
                (persists attempts d.faults.append))
  unfolding emit
  loop_refuses_end c a o l t =
      let e = with_branch d.event in
      let j = journal_of behind.store thread branch in
      let (c', u, h) =
        closed_behind cs d y thread branch c a
          (loop-is_closed (journal_of y.store thread branch) o l) in
      let keeps = persists attempts d.faults.append in
      (
        ap (λ (k : Journal). k.entries) (own_journal d.faults d.now e behind c' u)
            ∙ log-entries (not d.faults.reservation) keeps e j t h,
        event_answers d.faults d.now e behind c' u
            ∙ answer_refusal (not d.faults.reservation) keeps (is_told d.faults d.now e behind) e j
                t h,
      )
