-- ===== src/Events/SequenceLaws.antt =====
-- The numbers of a thread grow.
use mcp_software_factory.Prelude.{ℕ, ◌≤◌, ◌<◌, String, List, [], ◌∷◌, string_eq, eq_iff, arith}
use mcp_software_factory.Events.Sequence.{
  Sequences, current, next, ensure_at_least, Call, calls_next, calls_ensure, handed_out,
}

-- Each number is larger than the one before it, the first one than the given one.
abbrev pub IsGrowing : ℕ → List ℕ → Type 0
IsGrowing n [] = Unit
IsGrowing n (m ∷ ms) = (n < m) × IsGrowing m ms

IsGrowing-weaken : (a b : ℕ) (ns : List ℕ) → a ≤ b → IsGrowing b ns → IsGrowing a ns
IsGrowing-weaken a b [] h k = tt
IsGrowing-weaken a b (n ∷ ns) h (l, k) = (omega arith, k)

current-ensure :
    (values : Sequences) (thread t : String) (value : ℕ)
    → current values t ≤ current (ensure_at_least values thread value).1 t
unfolding ensure_at_least
current-ensure values thread t value = ground (arith, eq_iff thread t)

-- Whatever calls of `next` and `ensure_at_least` come, for whichever threads, the numbers that a
-- thread is given grow, from above its last number.
pub handed_out-IsGrowing :
    (t : String) (values : Sequences) (calls : List Call)
    → IsGrowing (current values t) (handed_out t values calls)
unfolding handed_out next
handed_out-IsGrowing t values [] = tt
handed_out-IsGrowing t values (calls_next thread ∷ calls) =
    ground (arith, eq_iff thread t, handed_out-IsGrowing t (next values thread).1 calls)
handed_out-IsGrowing t values (calls_ensure thread value ∷ calls) =
    IsGrowing-weaken _ _ _ (current-ensure values thread t value)
      (handed_out-IsGrowing t (ensure_at_least values thread value).1 calls)
