-- ===== src/Events/Tests.antt =====
-- Concrete events, brokers and subscriptions.
use mcp_software_factory.Prelude.{
  ℕ, ◌≡◌, refl, ◌↔◌, true, false, none, some, List, [], ◌∷◌, ◌++◌, arith,
}
use mcp_software_factory.Events.Types.{
  EventType, Event, planning_started, approval_required, workflow_completed, is_critical,
}
use mcp_software_factory.Events.QueueLaws.{criticals}
use mcp_software_factory.Events.Broker.{
  Stream, BrokerConfig, Broker, empty_broker, publish, subscription, created, stepped, publishes,
  subscribes, update, add_subscriber,
}
use mcp_software_factory.Events.StreamLaws.{IsWell, Reachable-IsWell}
use mcp_software_factory.Events.BrokerLaws.{
  stream_of, publish_is_idempotent, publish_keeps_criticals, IsExchanged, eviction_is_uncounted,
}
use mcp_software_factory.Events.Sequence.{
  Sequences, current, Call, calls_next, calls_ensure, handed_out,
}
use mcp_software_factory.Events.SequenceLaws.{IsGrowing, handed_out-IsGrowing}
use mcp_software_factory.Events.DeliveryLaws.{IsIncreasingFrom, EndsOnce, subscription_is_exact}

abbrev event_of : ℕ → EventType → Event
event_of n type = record {
  thread_id = "t1";
  sequence = n;
  type = type;
  stage = some "planning";
  branch_id = none;
  checkpoint_id = none;
  operation = none;
  tool_name = none;
  tool = none;
  attempt = none;
  handoff_sequence = none;
}

-- Two events fit into each queue.
abbrev small : BrokerConfig
small = record { has_store = false; history_size = 2; subscriber_queue_size = 2 }

abbrev plan : ℕ → Event
plan n = event_of n planning_started

abbrev approval : Event
approval = event_of 3 approval_required

-- The history is full.
abbrev full_stream : Stream
full_stream = record {
  history = plan 1 ∷ plan 2 ∷ [];
  subscribers = [];
  seen_sequences = 2 ∷ 1 ∷ [];
  dropped = 0;
}

abbrev full : Broker
full thread branch = full_stream

publish_is_idempotent_example :
    publish small false true approval (publish small false true approval full) "t1" "original"
    ≡ publish small false true approval full "t1" "original"
publish_is_idempotent_example =
    publish_is_idempotent small false false true true approval full refl "t1" "original"

publish_keeps_criticals_example :
    criticals (stream_of (publish small false true approval full) approval).history
    ≡ criticals (plan 1 ∷ plan 2 ∷ []) ++ criticals (approval ∷ [])
publish_keeps_criticals_example = publish_keeps_criticals small false true approval full refl refl

eviction_is_uncounted_example :
    let after = stream_of (publish small false true approval full) approval in
    IsExchanged full_stream.history approval after.history × (after.dropped ≡ 0)
unfolding is_critical
eviction_is_uncounted_example =
    eviction_is_uncounted small false true approval full refl refl refl refl (omega arith) refl

-- A subscriber, and two events.
abbrev watched : Broker
watched = update empty_broker "t1" "original" (add_subscriber 1 (empty_broker "t1" "original"))

Reachable-IsWell_example :
    IsWell small (
      publish small false true approval (publish small false true (plan 1) watched) "t1" "original")
Reachable-IsWell_example =
    Reachable-IsWell small
      (publish small false true approval (publish small false true (plan 1) watched))
      (stepped
        (stepped (stepped created (subscribes "t1" "original" 1 empty_broker))
          (publishes false true (plan 1) watched))
        (publishes false true approval (publish small false true (plan 1) watched)))
      "t1" "original"

-- The second event comes both by the history and by the queue.
abbrev replayed : List Event
replayed = plan 1 ∷ plan 2 ∷ []

abbrev live_events : List Event
live_events = plan 2 ∷ event_of 4 workflow_completed ∷ []

subscription_is_exact_example :
    let y = subscription (some 0) replayed live_events in
    IsIncreasingFrom 0 y
    × EndsOnce y
    × ((y ≡ replayed ++ live_events)
        ↔ (IsIncreasingFrom 0 (replayed ++ live_events) × EndsOnce (replayed ++ live_events)))
subscription_is_exact_example = subscription_is_exact (some 0) replayed live_events

abbrev numbers : Sequences
numbers thread = some 4

abbrev calls : List Call
calls = calls_next "t1" ∷ calls_ensure "t1" 9 ∷ calls_next "t2" ∷ calls_next "t1" ∷ []

handed_out-IsGrowing_example : IsGrowing (current numbers "t1") (handed_out "t1" numbers calls)
handed_out-IsGrowing_example = handed_out-IsGrowing "t1" numbers calls
