-- ===== src/Outcomes.antt =====
-- The answers that the store, the door and the tip stream hand one another: `IngestError` and the
-- faults in it (src/storage.rs, src/sync.rs), and `Announced` (src/push.rs). A fault is the value
-- that its message is written from.
use chaintracks_cloudflare.Prelude.{ℕ, Text, Bool, true, false}
use chaintracks_cloudflare.Consensus.{HeaderFault}
use chaintracks_cloudflare.Couriers.{CourierError}

pub data StoreFault : Type 0 where
  -- `refused(header, fault)`: the hash, the height.
  refused : Text → ℕ → HeaderFault → StoreFault
  -- The height does not extend the parent: the height, the parent's hash and height.
  bad_prev : ℕ → Text → ℕ → StoreFault
  -- The new and the old tip of a refused reorg.
  no_common_ancestor : Text → Text → StoreFault
  -- The parent walk's two refusals: the parent still missing.
  walk_too_deep : Text → StoreFault
  parent_missing : Text → CourierError → StoreFault
  -- The writer lease lapsed: its owner.
  lapsed : Text → StoreFault
  -- The walk of a reorg came back to a row it had seen.
  endless : StoreFault
  -- The re-validation's own: no checkpoint is held; no active row at the height links to the hash.
  no_checkpoint : StoreFault
  unlinked_row : ℕ → Text → StoreFault
  -- D1 refused a statement or a batch.
  database : StoreFault

pub data IngestError : Type 0 where
  refused store : StoreFault → IngestError

-- `Announced::outcome`; the last three are `storage::ingest_pushed`'s.
pub data Outcome : Type 0 where
  known busy active activated stored_inactive : Outcome

pub record Announced : Type 0 where
  pub outcome : Outcome
  pub walked : ℕ
  pub tip_height : ℕ
  pub tip_hash : Text

-- `Announced::stored`.
unfoldable pub stored : Announced → Bool
stored a = elim a.outcome [ known ↦ false | busy ↦ false | _ ↦ true ]

pub ancestry_fault : HeaderFault → Bool
ancestry_fault (HeaderFault.ancestry_missing h) = true
ancestry_fault _ = false

unjudged_fault : StoreFault → Bool
unfolding ancestry_fault
unjudged_fault (StoreFault.refused hash height f) = ancestry_fault f
unjudged_fault (StoreFault.walk_too_deep want) = true
unjudged_fault (StoreFault.parent_missing want e) = true
unjudged_fault _ = false

-- A refusal that judged nothing of the header.
unfoldable pub unjudged : IngestError → Bool
unfolding unjudged_fault
unjudged (IngestError.refused e) = unjudged_fault e
unjudged (IngestError.store e) = false
