-- ===== src/Store/Reorg.antt =====
-- `handle_reorg`.
use chaintracks_cloudflare.Prelude.{
  ℕ, zero, suc, ◌+◌, Option, none, some, Text, List, [], ◌∷◌, leb, if◌then◌else◌, Result, ok, err,
  length,
}
use chaintracks_cloudflare.Types.{BlockHeader}
use chaintracks_cloudflare.Outcomes.{StoreFault}
use chaintracks_cloudflare.Store.Table.{
  Db, count_active_above, deactivate_above, activate_hash, record_pending_reorg, clear_chain_tip,
  set_chain_tip_active,
}
use chaintracks_cloudflare.Store.Ancestry.{walk_back, find_common_ancestor}

-- The hashes of the new branch, from its head down to the ancestor's height. `none`: the walk came
-- back to a row it had seen, which the source's loop would do for ever.
unfoldable pub branch_hashes : ℕ → Db → ℕ → Option BlockHeader → Option (List Text)
branch_hashes fuel db ancestor none = some []
branch_hashes zero db ancestor (some h) = if leb h.height ancestor then some [] else none
branch_hashes (suc fuel) db ancestor (some h) =
    let rest = branch_hashes fuel db ancestor (walk_back db h) in
    let more : Option (List Text) = (elim rest [ none ↦ none | some hs ↦ some (h.hash ∷ hs) ]) in
    if leb h.height ancestor then some [] else more

unfoldable pub activate_all : List Text → List BlockHeader → List BlockHeader
activate_all [] rows = rows
activate_all (h ∷ hs) rows = activate_all hs (activate_hash h rows)

-- The batch: one transaction.
unfoldable pub apply_reorg : ℕ → List Text → Text → Db → Db
apply_reorg ancestor branch new_tip db = record db {
  headers =
      set_chain_tip_active new_tip
        (clear_chain_tip (activate_all branch (deactivate_above ancestor db.headers)));
  sync = record_pending_reorg (ancestor + 1) db.sync;
}

-- The new store and the rows deactivated, or the refusal with the store as it was.
unfoldable pub handle_reorg : BlockHeader → BlockHeader → Db → Db × Result StoreFault ℕ
handle_reorg new_header old_tip db = elim (find_common_ancestor db new_header old_tip) [
  | none ↦ (db, err (StoreFault.no_common_ancestor new_header.hash old_tip.hash))
  | some ancestor ↦
      elim (branch_hashes (suc (length db.headers)) db ancestor.height (some new_header)) [
        | none ↦ (db, err StoreFault.endless)
        | some branch ↦ (
          apply_reorg ancestor.height branch new_header.hash db,
          ok (count_active_above db ancestor.height),
        )
      ]
]
