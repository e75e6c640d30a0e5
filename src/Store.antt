-- ===== src/Store.antt =====
-- The header store of src/storage.rs over the `headers` table and the one `sync_state` row of D1.
-- A statement is the function on the rows that its text says; a batch is one transaction. The runs
-- are those in which D1 answers every statement.
pub mod Table
pub mod Sorted
pub mod Ancestry
pub mod Rules
pub mod Reorg
pub mod Insert
pub mod Rows
pub mod Tip
pub mod Keep
pub mod Distinct
pub mod Relink
pub mod OneTip
pub mod Highest
pub mod Runs
pub mod Common
pub mod Served
pub mod Revalidate
pub mod Batch
pub mod Dedupe
pub mod Ingest
