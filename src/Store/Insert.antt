-- ===== src/Store/Insert.antt =====
-- `insert_header` and `relink_orphan_and_reevaluate`.
use chaintracks_cloudflare.Prelude.{
  ℕ, zero, suc, Option, none, some, Text, text_eq, zero_hash, Bool, true, false, ◌&&◌, ltb,
  if◌then◌else◌, Result, ok, err, ◌>>=◌,
}
use chaintracks_cloudflare.Bsv.{Bsv}
use chaintracks_cloudflare.Types.{
  BlockHeader, InsertHeaderResult, no_insert, calculate_work, add_work, is_more_work,
}
use chaintracks_cloudflare.Consensus.{check_pow}
use chaintracks_cloudflare.Consensus.Params.{ChainParams}
use chaintracks_cloudflare.Outcomes.{StoreFault}
use chaintracks_cloudflare.Store.Table.{
  Db, find_chain_tip, find_header_for_hash, insert_row, update_chain_tip, relink_header,
}
use chaintracks_cloudflare.Store.Rules.{refused, judge, check_linked, check_prev}
use chaintracks_cloudflare.Store.Reorg.{handle_reorg}

unfoldable pub previous_of : Db → BlockHeader → Option BlockHeader
previous_of db header =
    if text_eq header.previous_hash zero_hash
    then none
    else find_header_for_hash db header.previous_hash

-- The parent's cumulative work and the header's own; its own alone with no parent.
unfoldable pub work_over : ⦃b : Bsv⦄ → Option BlockHeader → BlockHeader → Text
work_over none header = calculate_work header.bits
work_over (some parent) header = add_work parent.chain_work (calculate_work header.bits)

unfoldable pub outworks : ⦃b : Bsv⦄ → Bool → Text → Option BlockHeader → Bool
outworks anchored work none = true
outworks anchored work (some tip) = anchored && is_more_work work tip.chain_work

unfoldable pub extends : BlockHeader → Option BlockHeader → Bool
extends header none = true
extends header (some tip) = text_eq header.previous_hash tip.hash

abbrev pub parent_id : Option BlockHeader → Option ℕ
parent_id none = none
parent_id (some p) = p.header_id

-- The row as it is inserted; the tip flag is never set here.
abbrev pub new_row : BlockHeader → Option BlockHeader → Text → Bool → BlockHeader
new_row header previous work active = record header {
  previous_header_id = parent_id previous;
  chain_work = work;
  is_active = active;
  is_chain_tip = false;
}

abbrev pub answer :
    BlockHeader → Option BlockHeader → Option BlockHeader → Bool → ℕ → InsertHeaderResult
answer header previous tip becomes_tip depth = record {
  added = true;
  dupe = false;
  is_active_tip = becomes_tip;
  reorg_depth = depth;
  no_prev = (elim previous [ none ↦ ltb 0 header.height | some _ ↦ false ]);
  no_tip = (elim tip [ none ↦ true | some _ ↦ false ]);
}

-- A reorg that deactivated nothing leaves the tip to be moved here.
unfoldable pub settle_tip : BlockHeader → Db × Result StoreFault ℕ → Db × Result StoreFault ℕ
settle_tip header (db, err e) = (db, err e)
settle_tip header (db, ok zero) = (update_chain_tip header.hash db, ok 0)
settle_tip header (db, ok (suc n)) = (db, ok (suc n))

-- Step 6, once the row is in and the header outworks the tip: the reorg, unless the header extends
-- the tip.
unfoldable pub take_tip : BlockHeader → Option BlockHeader → Db → Db × Result StoreFault ℕ
unfolding settle_tip
take_tip header none db = (update_chain_tip header.hash db, ok 0)
take_tip header (some tip) db =
    if text_eq header.previous_hash tip.hash
    then (update_chain_tip header.hash db, ok 0)
    else settle_tip header (handle_reorg header tip db)

unfoldable pub with_answer :
    (ℕ → InsertHeaderResult) → Db × Result StoreFault ℕ → Db × Result StoreFault InsertHeaderResult
with_answer f (db, err e) = (db, err e)
with_answer f (db, ok depth) = (db, ok (f depth))

-- Steps 5 to 7. The insert and the tip's move of an extension are one transaction.
unfoldable pub write_header :
    BlockHeader
    → Option BlockHeader
    → Option BlockHeader
    → Text
    → Bool
    → Db
    → Db × Result StoreFault InsertHeaderResult
unfolding with_answer
write_header header previous tip work becomes_tip db =
    let inserted =
      insert_row (new_row header previous work (becomes_tip && extends header tip)) db in
    if becomes_tip
    then with_answer (answer header previous tip true) (take_tip header tip inserted)
    else (inserted, ok (answer header previous tip false 0))

unfoldable pub insert_new :
    ⦃b : Bsv⦄ → ChainParams → BlockHeader → Db → Db × Result StoreFault InsertHeaderResult
insert_new params header db =
    let previous = previous_of db header in
    let tip = find_chain_tip db in
    let work = work_over previous header in
    elim (judge db params header previous tip) [
      | err e ↦ (db, err e)
      | ok anchored ↦ write_header header previous tip work (outworks anchored work tip) db
    ]

unfoldable pub insert_header :
    ⦃b : Bsv⦄ → ChainParams → BlockHeader → Db → Db × Result StoreFault InsertHeaderResult
insert_header params header db = elim (check_pow header params) [
  | err f ↦ (db, err (refused header f))
  | ok _ ↦ elim (find_header_for_hash db header.hash) [
    | some _ ↦ (db, ok (record no_insert { dupe = true }))
    | none ↦ insert_new params header db
  ]
]

-- The end of `relink_orphan_and_reevaluate`, once the stored row and its parent are found.
unfoldable pub relink_stored :
    ⦃b : Bsv⦄
    → ChainParams
    → BlockHeader
    → BlockHeader
    → Db
    → Db × Result StoreFault InsertHeaderResult
unfolding with_answer
relink_stored params row parent db =
    let work = add_work parent.chain_work (calculate_work row.bits) in
    elim (check_prev row (some parent) >>= λ _. check_linked db params row parent) [
      | err e ↦ (db, err e)
      | ok _ ↦
          let relinked = record db {
            headers = relink_header parent.header_id work row.header_id db.headers;
          } in
          let tip = find_chain_tip relinked in
          let updated = record row { chain_work = work; previous_header_id = parent.header_id } in
          if outworks true work tip
          then with_answer
              (λ depth. record no_insert { dupe = true; is_active_tip = true; reorg_depth = depth })
              (take_tip updated tip relinked)
          else (relinked, ok (record no_insert { dupe = true }))
    ]

unfoldable pub relink_orphan_and_reevaluate :
    ⦃b : Bsv⦄ → ChainParams → Text → Db → Db × Result StoreFault InsertHeaderResult
unfolding relink_stored
relink_orphan_and_reevaluate params hash db = elim (find_header_for_hash db hash) [
  | none ↦ (db, ok no_insert)
  | some row ↦ elim (find_header_for_hash db row.previous_hash) [
    | none ↦ (db, ok (record no_insert { dupe = true; no_prev = true }))
    | some parent ↦ relink_stored params row parent db
  ]
]
