-- ===== src/Examples.antt =====
-- The theorems at concrete inputs.
mod Toy
mod Rows
mod Chains
mod Served
mod Batches
mod Courier
mod Stream
mod Writers
mod Reads
mod Feeds
mod Announces
mod Pushes
mod Doors
mod Frames
