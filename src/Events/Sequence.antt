-- ===== src/Events/Sequence.antt =====
-- `WorkflowEventSequence` of streaming/sequence.py: the last number of each thread. A method runs
-- under the lock, so it is one step.
use mcp_software_factory.Prelude.{
  ℕ, ◌+◌, String, Option, none, some, List, [], ◌∷◌, ◌==◌, string_eq, ltb, get_or, if◌then◌else◌,
}

abbrev pub Sequences : Type 0
Sequences = String → Option ℕ

-- `self._values.get(thread_id, 0)`
abbrev pub current : Sequences → String → ℕ
current values thread = get_or (values thread) 0

abbrev pub assign : Sequences → String → Option ℕ → Sequences
assign values thread v t = if thread == t then v else values t

unfoldable pub next : Sequences → String → ℕ × Sequences
next values thread =
    (current values thread + 1, assign values thread (some (current values thread + 1)))

unfoldable pub ensure_at_least : Sequences → String → ℕ → ℕ × Sequences
ensure_at_least values thread value =
    if ltb (current values thread) value
    then (value, assign values thread (some value))
    else (current values thread, values)

unfoldable pub clear : Sequences → String → Sequences
clear values thread = assign values thread none

-- A call that keeps the numbers of a thread.
pub data Call : Type 0 where
  calls_next : String → Call
  calls_ensure : String → ℕ → Call

-- The numbers that `next` hands out to a thread in the course of some calls.
unfoldable pub handed_out : String → Sequences → List Call → List ℕ
unfolding next ensure_at_least
handed_out t values [] = []
handed_out t values (calls_next thread ∷ calls) =
    let (n, after) = next values thread in
    let later = handed_out t after calls in if thread == t then n ∷ later else later
handed_out t values (calls_ensure thread value ∷ calls) =
    handed_out t (ensure_at_least values thread value).1 calls
