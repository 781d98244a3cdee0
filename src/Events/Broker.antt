-- ===== src/Events/Broker.antt =====
-- `WorkflowEventBroker` of api/services/event_broker.py. Each of its dictionaries has the key of a
-- stream, a thread and a branch: the broker is a function from the keys to the streams. A method
-- runs its locked section as one step. What the store answers is an argument.
use mcp_software_factory.Prelude.{
  ℕ, zero, suc, ◌+◌, String, Bool, true, false, not, ◌&&◌, ◌||◌, Option, none, some, List, [], ◌∷◌,
  ◌++◌, ◌==◌, nat_eq, string_eq, length, ltb, leb, keep, map, contains, is_nonempty, get_or,
  if◌then◌else◌,
}
use mcp_software_factory.Events.Types.{Event, event_branch_id, is_terminal, type_text}
use mcp_software_factory.Events.Queue.{make_room, append_to, drops, enqueue}

-- `_Subscriber`; the objects of a set are told apart by a number
pub record Subscriber : Type 0 where
  pub id : ℕ
  pub events : List Event
  pub ready : Bool

pub record Stream : Type 0 where
  pub history : List Event
  pub subscribers : List Subscriber
  pub seen_sequences : List ℕ
  pub dropped : ℕ

pub record BrokerConfig : Type 0 where
  pub has_store : Bool
  pub history_size : ℕ
  pub subscriber_queue_size : ℕ

abbrev pub Broker : Type 0
Broker = String → String → Stream

abbrev pub empty_stream : Stream
empty_stream = record { history = []; subscribers = []; seen_sequences = []; dropped = 0 }

abbrev pub empty_broker : Broker
empty_broker thread branch = empty_stream

abbrev pub update : Broker → String → String → Stream → Broker
update b thread branch stream t r = if thread == t && branch == r then stream else b t r

-- One subscriber is given the event, where there is room.
abbrev pub notify : Option (List Event) → Event → Subscriber → Subscriber
notify none event s = s
notify (some room) event s = record s {
  events = append_to (some room) s.events event;
  ready = true;
}

unfoldable pub offer : ℕ → Event → Subscriber → Subscriber
unfolding make_room
offer limit event s = notify (make_room s.events event limit) event s

unfoldable pub offers_dropped : ℕ → Event → List Subscriber → ℕ
unfolding make_room
offers_dropped limit event [] = 0
offers_dropped limit event (s ∷ ss) =
    drops (make_room s.events event limit) + offers_dropped limit event ss

-- The locked section of `publish`.
unfoldable pub publish_to : BrokerConfig → Event → Stream → Stream
unfolding enqueue offer offers_dropped
publish_to c event stream =
    if contains event.sequence stream.seen_sequences then stream else record {
      history = if c.has_store then stream.history else enqueue stream.history event c.history_size;
      subscribers = map (offer c.subscriber_queue_size event) stream.subscribers;
      seen_sequences = event.sequence ∷ stream.seen_sequences;
      dropped =
          (if c.has_store
            then stream.dropped
            else drops (make_room stream.history event c.history_size) + stream.dropped)
          + offers_dropped c.subscriber_queue_size event stream.subscribers;
    }

-- `publish`, with `already_persisted` and with what `store.append` answers
unfoldable pub publish : BrokerConfig → Bool → Bool → Event → Broker → Broker
unfolding publish_to
publish c already_persisted appended event b =
    if c.has_store && not already_persisted && not appended
    then b
    else update b event.thread_id (event_branch_id event)
        (publish_to c event (b event.thread_id (event_branch_id event)))

-- `sorted(…, key=lambda event: event.sequence)`, which keeps the order of equal keys
unfoldable pub insert : Event → List Event → List Event
insert e [] = e ∷ []
insert e (x ∷ xs) =
    let later = insert e xs in if leb e.sequence x.sequence then e ∷ x ∷ xs else x ∷ later

unfoldable pub sort : List Event → List Event
unfolding insert
sort [] = []
sort (e ∷ es) = insert e (sort es)

abbrev pub is_wanted : ℕ → List String → Event → Bool
is_wanted threshold event_types e =
    ltb threshold e.sequence
    && (not (is_nonempty event_types) || contains (type_text e.type) event_types)

abbrev pub take {ℓ} : {A : Type ℓ} → ℕ → List A → List A
take zero xs = []
take (suc n) [] = []
take (suc n) (x ∷ xs) = x ∷ take n xs

abbrev pub limited : Option ℕ → List Event → List Event
limited none es = es
limited (some n) es = take n es

-- `get_history` without a store
unfoldable pub get_history : Stream → Option ℕ → Option ℕ → List String → List Event
unfolding sort
get_history stream after_sequence limit event_types =
    limited limit (sort (keep (is_wanted (get_or after_sequence 0) event_types) stream.history))

-- What a subscription has yielded, the last sequence it delivered and whether it has returned.
pub record Delivery : Type 0 where
  pub yielded : List Event
  pub last_delivered : ℕ
  pub finished : Bool

-- The loops of `subscribe` over the events that come, from the history or from the queue.
unfoldable pub deliver : ℕ → List Event → Delivery
deliver last [] = record { yielded = []; last_delivered = last; finished = false }
deliver last (e ∷ es) =
    let skipped = deliver last es in
    let later = deliver e.sequence es in
    if leb e.sequence last
    then skipped
    else (if is_terminal e.type
        then record { yielded = e ∷ []; last_delivered = e.sequence; finished = true }
        else record later { yielded = e ∷ later.yielded })

-- The events that `subscribe` yields: those of the history, and then those that come through the
-- subscriber's queue.
unfoldable pub subscription : Option ℕ → List Event → List Event → List Event
unfolding deliver
subscription after_sequence history live =
    let replay = deliver (get_or after_sequence 0) history in
    if replay.finished
    then replay.yielded
    else replay.yielded ++ (deliver replay.last_delivered live).yielded

abbrev pub add_subscriber : ℕ → Stream → Stream
add_subscriber id stream = record stream {
  subscribers = record { id = id; events = []; ready = false } ∷ stream.subscribers;
}

-- the `finally` of `subscribe`
abbrev pub remove_subscriber : ℕ → Stream → Stream
remove_subscriber id stream = record stream {
  subscribers = keep (λ s. not (s.id == id)) stream.subscribers;
}

abbrev pub subscriber_count : Stream → ℕ
subscriber_count stream = length stream.subscribers

-- `close`
abbrev pub close : Broker → Broker
close b t r = record (b t r) { subscribers = [] }

-- One turn of the inner loop of `subscribe`: the next event is taken, or there is none.
abbrev pub take_next : Subscriber → List Event → Subscriber
take_next s [] = record s { ready = false }
take_next s (_ ∷ es) = record s { events = es }

abbrev pub poll_one : ℕ → Subscriber → Subscriber
poll_one id s = let taken = take_next s s.events in if s.id == id then taken else s

abbrev pub poll : ℕ → Stream → Stream
poll id stream = record stream { subscribers = map (poll_one id) stream.subscribers }

-- The steps of a broker; a subscription adds its subscriber, polls it and removes it.
pub data Step (c : BrokerConfig) : Broker → Broker → Type 0 where
  publishes :
      (already_persisted appended : Bool) (event : Event) (b : Broker)
      → Step c b (publish c already_persisted appended event b)
  subscribes :
      (thread branch : String) (id : ℕ) (b : Broker)
      → Step c b (update b thread branch (add_subscriber id (b thread branch)))
  polls :
      (thread branch : String) (id : ℕ) (b : Broker)
      → Step c b (update b thread branch (poll id (b thread branch)))
  unsubscribes :
      (thread branch : String) (id : ℕ) (b : Broker)
      → Step c b (update b thread branch (remove_subscriber id (b thread branch)))
  closes : (b : Broker) → Step c b (close b)

-- The brokers that a sequence of steps reaches.
pub data Reachable (c : BrokerConfig) : Broker → Type 0 where
  created : Reachable c empty_broker
  stepped : {a b : Broker} → Reachable c a → Step c a b → Reachable c b
