-- ===== src/Events.antt =====
-- src/events.rs: the chain events, their decoder, the journal, the frames of a stream and the
-- webhooks' outbox.
pub mod Decode
pub mod Journal
pub mod Frames
pub mod RoundTrip
pub mod Outbox
