-- ===== src/Lib.antt =====
-- A model of chaintracks-cloudflare, a service that follows the BSV header chain in a Cloudflare
-- Worker: headers come from a ladder of couriers on a cron tick and from a peer's tip stream, are
-- judged by the node's rules, stored with their cumulative work in D1, and served from an edge
-- cache. A writer lease serialises the writers.
--
-- Parts, and the files of the repository that they model:
--   Types            src/types.rs: the stored header, its 80-byte frame's fields, the chain work;
--                    Types/Frame: to_bytes and from_bytes.
--   Consensus        src/consensus.rs: the faults, proof of work, checkpoints and difficulty bits
--                    (check_pow of src/types.rs is here too); Consensus/Window is the window of
--                    ancestors, Consensus/Params the chain parameters and with_checkpoints.
--   Store            src/storage.rs. Store/Table: the rows of `headers` and the `sync_state` row, and
--                    each SQL statement as a function on them. Store/Ancestry: walk_back,
--                    find_common_ancestor, load_window. Store/Rules: the node's rules on the store.
--                    Store/Reorg: handle_reorg. Store/Insert: insert_header and
--                    relink_orphan_and_reevaluate. Store/Served: served_ceiling, served_tip,
--                    headers_hex_under, present_height. Store/Revalidate: revalidate_step.
--                    Store/Batch: the judgment of insert_headers_batch, Store/Batch/Write its write,
--                    and Store/Batch/Above judge_above. Theorems in Rows, Tip, Keep, Distinct, OneTip,
--                    Relink, Highest, Runs, Common, Served/Under, Revalidate/Checked, Batch/Judge,
--                    Batch/Above, Batch/Write/Kept and
--                    Batch/Write/Stored.
--                    Store/Ingest: ingest_pushed, with theorems in Canon, Soles, Shown, Served and
--                    Sound.
--                    Store/Sorted: lemmas on the rows that a statement reads.
--                    Store/Dedupe: dedupe_active_heights, with theorems in Counts and Settled.
--   Outcomes         the answers and faults that pass between src/storage.rs, src/sync.rs and
--                    src/push.rs.
--   Lease            src/sync.rs: take_lease, release_lease, the fence and Fenced; Lease/Queries: the
--                    holder's view of the store, execute, batch_changes and note_lapse. Theorems in
--                    Exclusion and Fence.
--   Couriers         src/couriers.rs: CourierLadder.
--   Rungs            src/rungs.rs, and rung_span of src/health.rs.
--   TipStream        src/tip_stream.rs: StreamState, PollState, poll_due, through_the_lease.
--   Push             src/push.rs: ingest_announced, the door for a header that the stream pushes: it
--                    uses Store/Ingest, Lease and Announce. Theorems in Walk and Door.
--   Webhooks         src/sync.rs: the configured targets, parse_webhook_targets.
--   Announce         src/sync.rs: notify_tip. Announce/Row: the announce columns and the deliveries
--                    table; Announce/Notify: the claim, the posts and the settlement. Theorems in
--                    Owed, Claims and Marker.
--   Sse              src/sse.rs: the parser of a stream's bytes; theorems in Chunks.
--   Events           src/events.rs. Events/Decode: the rules of an event. Events/Journal: the reads
--                    of the journal and its retention. Events/Frames: the frames and the feed-2
--                    stream; Events/RoundTrip reads them back with Sse. Events/Outbox: the delivery
--                    to the consumers, with theorems in Accepted, Turns and Ticks.
--   Edge             src/edge.rs: the settled line, what the edge keeps, the purge's tags and keys.
--   Prelude          shared names, lists, byte texts and results.
--   Examples         the theorems at concrete inputs.
--
-- Conventions. Numbers are natural numbers; u32 counters wrap in add_u32, saturating subtraction
-- is the truncated difference, and chain work wraps at 2^256 in the crate's own functions. A text
-- is its list of bytes, and Prelude/Utf8 and Prelude/Decimal are the lossy decoding and the
-- decimal display of the source's standard library. The journal's rows are held in the order of
-- their keys, in which the statements read them. Heights stay below 2^32 - 1, so a height plus one
-- does not wrap. A function that writes takes the store and gives the new one with a Result; an
-- SQL batch is one function, since D1 runs it as one transaction. A fault is the value that its
-- message is written from.
--
-- Parameters. Bsv (Bsv.antt) stands for the crates bsv-rs and hex: the frame's hash, the
-- proof-of-work test, the work of a header's bits, chain work and its hex digits, the difficulty
-- rule. WorkLaws are the documented laws of that arithmetic, which one theorem assumes; Frames and
-- FrameLaws are the crates' reading, writing and display of a frame and what they document of it.
-- Serde stands for serde_json. What a courier, a webhook's consumer or an event's consumer answers
-- (Source, Hooks, TipWebhooks), what the stream is told by the door, the clocks, the lease tokens
-- and whether D1 refuses a fenced batch are arguments. Outside the fence, the runs modelled are
-- those in which D1 answers, and the door's in which the lease's term outlasts the write.
--
-- Bounds. find_common_ancestor takes the source's 400 steps, and the door's walk the source's 36
-- fetches. The loop of handle_reorg that collects the new branch has no bound in the source; here
-- it takes one step more than there are rows and then answers `endless`, since a longer walk has
-- come back to a row it had seen. The rotation of the ladder takes one step for each rung, a
-- purge's chunks one for each tag.
--
-- Not modelled: HTTP (src/routes.rs, src/woc.rs and the couriers' clients), the D1 and R2 adapters,
-- the Durable Object's socket and alarm, the cron's tick around these parts with its healing and
-- backfill (src/sync.rs), the link check and repair_cumulative_work of src/storage.rs, the feed-1
-- stream and the timer's SQL of src/events.rs, hand_over of src/push.rs, metrics and logs.
pub mod Prelude
pub mod Bsv
pub mod Types
pub mod Consensus
pub mod Edge
pub mod Rungs
pub mod Couriers
pub mod Outcomes
pub mod Sse
pub mod Events
pub mod Store
pub mod TipStream
pub mod Lease
pub mod Webhooks
pub mod Announce
pub mod Push
pub mod Examples
