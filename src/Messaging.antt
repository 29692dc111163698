-- ===== src/Messaging.antt =====
-- mas/messaging: messages, topics and the in-process broker.
pub mod Message
pub mod Topics
pub mod Broker
