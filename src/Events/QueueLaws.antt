-- ===== src/Events/QueueLaws.antt =====
-- What a bounded queue keeps: every critical event, and its bound as long as others are left.
use mcp_software_factory.Prelude.{
  ℕ, suc, ◌≡◌, refl, ap, ◌≤◌, ◌⊎◌, inr, Bool, true, false, List, [], ◌∷◌, ◌++◌, length, keep, all,
  keep-append, length-append, arith,
}
use mcp_software_factory.Events.Types.{Event, is_critical}
use mcp_software_factory.Events.Queue.{remove_removable, enqueue}

-- The critical events of a queue, in their order.
abbrev pub criticals : List Event → List Event
criticals = keep (λ e. is_critical e.type)

abbrev pub all_critical : List Event → Bool
all_critical = all (λ e. is_critical e.type)

-- A queue is within its limit, or nothing but critical events is in it.
abbrev pub IsBounded : ℕ → List Event → Type 0
IsBounded limit q = (length q ≤ limit) ⊎ (all_critical q ≡ true)

criticals-remove : (q : List Event) → criticals (remove_removable q) ≡ criticals q
unfolding remove_removable
criticals-remove [] = refl
criticals-remove (x ∷ xs) = ground (arith, criticals-remove xs)

append_nil : (q : List Event) → q ++ [] ≡ q
append_nil [] = refl
append_nil (x ∷ xs) = ap (λ ys. x ∷ ys) (append_nil xs)

-- Whatever is evicted or dropped, the critical events of a queue are those before and the new one.
pub enqueue_keeps_criticals :
    (q : List Event) (e : Event) (limit : ℕ)
    → criticals (enqueue q e limit) ≡ criticals q ++ criticals (e ∷ [])
unfolding enqueue
enqueue_keeps_criticals q e limit = ground (
  arith,
  keep-append (λ (x : Event). is_critical x.type) q (e ∷ []),
  keep-append (λ (x : Event). is_critical x.type) (remove_removable q) (e ∷ []),
  criticals-remove q,
  append_nil (criticals q),
)

-- If an event can be removed the queue becomes shorter by one; otherwise it stays as it is.
pub length-remove :
    (q : List Event)
    → ((all_critical q ≡ false) × (suc (length (remove_removable q)) ≡ length q))
      ⊎ ((all_critical q ≡ true) × (remove_removable q ≡ q))
unfolding remove_removable
length-remove [] = inr (refl, refl)
length-remove (x ∷ xs) = ground (arith, length-remove xs)

all_critical-append :
    (q : List Event) (e : Event)
    → all_critical q ≡ true
    → is_critical e.type ≡ true
    → all_critical (q ++ e ∷ []) ≡ true
all_critical-append [] e h k = ground arith
all_critical-append (x ∷ xs) e h k = ground (arith, all_critical-append xs e)

pub enqueue-IsBounded :
    (q : List Event) (e : Event) (limit : ℕ)
    → IsBounded limit q
    → IsBounded limit (enqueue q e limit)
unfolding enqueue
enqueue-IsBounded q e limit h = ground (
  arith,
  length-append q (e ∷ []),
  length-append (remove_removable q) (e ∷ []),
  length-remove q,
  all_critical-append q e,
)
