-- ===== src/Store/Tip/Work.antt =====
-- The chain work of the tip over a run of inserts.
use chaintracks_cloudflare.Prelude.{
  ℕ, ◌≤◌, Option, none, some, List, [], ◌∷◌, ◌≡◌, ap, inl, inr, true, Option-cases, arith, ltb→lt,
  Text,
}
use chaintracks_cloudflare.Bsv.{Bsv}
use chaintracks_cloudflare.Types.{BlockHeader, stored_work, is_more_work}
use chaintracks_cloudflare.Consensus.Params.{ChainParams}
use chaintracks_cloudflare.Store.Table.{Db, find_chain_tip}
use chaintracks_cloudflare.Store.Insert.{insert_header}
use chaintracks_cloudflare.Store.Tip.Heaviest.{Heavier, insert_header-Heavier}

-- The work of a tip; none weighs nothing.
abbrev pub work_of : ⦃b : Bsv⦄ → Option BlockHeader → ℕ
work_of none = 0
work_of (some tip) = stored_work tip.chain_work

-- Headers given to the store one after the other, whatever each answers.
unfoldable pub insert_all : ⦃b : Bsv⦄ → ChainParams → List BlockHeader → Db → Db
insert_all params [] db = db
insert_all params (h ∷ hs) db = insert_all params hs (insert_header params h db).0

module _ ⦃b : Bsv⦄ (params : ChainParams) where
  more-work : (x y : Text) → is_more_work x y ≡ true → stored_work y ≤ stored_work x
  unfolding is_more_work
  more-work x y e = omega (arith, ltb→lt (stored_work y) (stored_work x) e)

  Heavier-work :
      (header : BlockHeader) (db : Db) (tip : Option BlockHeader)
      → Heavier params header db tip
      → work_of (find_chain_tip db) ≤ work_of tip
  Heavier-work header db tip (y, k, same, active, more) = elim (Option-cases (find_chain_tip db)) [
    | inl e ↦ rw (e) (omega arith)
    | inr (old, e) ↦ rw (e, k) (more-work y.chain_work old.chain_work (more old e))
  ]

  insert-work :
      (header : BlockHeader) (db : Db)
      → work_of (find_chain_tip db) ≤ work_of (find_chain_tip (insert_header params header db).0)
  insert-work header db = elim (insert_header-Heavier params header db) [
    | inl e ↦ omega (arith, ap work_of e)
    | inr h ↦ Heavier-work header db _ h
  ]

  -- Whatever headers are given to the store, in whatever order and whatever it answers, an error
  -- included, the chain work of its tip never goes down.
  pub work_of-insert_all :
      (headers : List BlockHeader) (db : Db)
      → work_of (find_chain_tip db) ≤ work_of (find_chain_tip (insert_all params headers db))
  unfolding insert_all
  work_of-insert_all [] db = omega arith
  work_of-insert_all (h ∷ hs) db =
      omega (arith, insert-work h db, work_of-insert_all hs (insert_header params h db).0)
