-- ===== src/Announce.antt =====
-- The announces of src/sync.rs: the announce row, the claim and delivery of a tip, and the writes
-- after it.
pub mod Row
pub mod Notify
pub mod Claims
pub mod Owed
pub mod Marker
