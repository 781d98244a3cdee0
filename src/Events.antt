-- ===== src/Events.antt =====
-- Workflow events: streaming/emitter.py, streaming/sequence.py and api/services/event_broker.py.
pub mod Types
pub mod Queue
pub mod Broker
pub mod QueueLaws
pub mod StreamLaws
pub mod BrokerLaws
pub mod DeliveryLaws
pub mod Sequence
pub mod SequenceLaws
mod Tests
