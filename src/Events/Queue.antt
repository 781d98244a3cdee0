-- ===== src/Events/Queue.antt =====
-- `_make_room` of api/services/event_broker.py, and the append behind it.
use mcp_software_factory.Prelude.{
  ℕ, not, Option, none, some, List, [], ◌∷◌, ◌++◌, length, ltb, if◌then◌else◌,
}
use mcp_software_factory.Events.Types.{Event, is_critical}

-- The queue without its first event that is not critical.
unfoldable pub remove_removable : List Event → List Event
remove_removable [] = []
remove_removable (x ∷ xs) =
    let rest = remove_removable xs in if is_critical x.type then x ∷ rest else xs

-- The queue in which there is room now, if any.
unfoldable pub make_room : List Event → Event → ℕ → Option (List Event)
unfolding remove_removable
make_room queue event limit =
    if ltb (length queue) limit
    then some queue
    else (if not (is_critical event.type) then none else some (remove_removable queue))

abbrev pub append_to : Option (List Event) → List Event → Event → List Event
append_to none queue event = queue
append_to (some room) queue event = room ++ event ∷ []

abbrev pub drops : Option (List Event) → ℕ
drops none = 1
drops (some _) = 0

unfoldable pub enqueue : List Event → Event → ℕ → List Event
unfolding make_room
enqueue queue event limit = append_to (make_room queue event limit) queue event
