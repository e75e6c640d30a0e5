-- ===== src/Store/Runs.antt =====
-- Every sequence of inserts, relinks, batches, pushes, sweeps and tip recomputations.
use chaintracks_cloudflare.Prelude.{
  ℕ, Option, Text, List, ◌≡◌, refl, sym, ap, ◌∙◌, subst, inl, inr, Result,
}
use chaintracks_cloudflare.Bsv.{Bsv}
use chaintracks_cloudflare.Types.{BlockHeader}
use chaintracks_cloudflare.Consensus.Params.{ChainParams}
use chaintracks_cloudflare.Outcomes.{StoreFault}
use chaintracks_cloudflare.Store.Table.{Db, has_id, relink_header, update_chain_tip_to_highest}
use chaintracks_cloudflare.Store.Rows.{TipIs}
use chaintracks_cloudflare.Store.Tip.{take_tip-Taken}
use chaintracks_cloudflare.Store.Keep.{take_tip-contents}
use chaintracks_cloudflare.Store.Distinct.{
  Distinct, hashes, hashes-contents, insert_header-Distinct, hash-update_rows, All-update_rows,
}
use chaintracks_cloudflare.Store.Relink.{linked, relink-Relinked}
use chaintracks_cloudflare.Store.Highest.{OneTip-highest, hashes-highest}
use chaintracks_cloudflare.Store.OneTip.{OneTip, Tip-One, insert_header-OneTip}
use chaintracks_cloudflare.Store.Batch.Write.{insert_headers_batch}
use chaintracks_cloudflare.Store.Batch.Write.Kept.{insert_headers_batch-Sound}
use chaintracks_cloudflare.Store.Ingest.{ingest_pushed}
use chaintracks_cloudflare.Store.Ingest.Sound.{ingest_pushed-Sound, dedupe_active_heights-Sound}
use chaintracks_cloudflare.Store.Dedupe.{dedupe_active_heights}
use chaintracks_cloudflare.Store.Insert.{take_tip, insert_header, relink_orphan_and_reevaluate}

OneTip-linked :
    (parent : Option ℕ) (work : Text) (id : Option ℕ) (db : Db)
    → OneTip db
    → OneTip (linked parent work id db)
unfolding relink_header
OneTip-linked parent work id db (h, t) = (
  h,
  All-update_rows _ (has_id id) (λ r. record r { previous_header_id = parent; chain_work = work })
      (λ r x. x) db.headers t,
)

hashes-linked :
    (parent : Option ℕ) (work : Text) (id : Option ℕ) (db : Db)
    → hashes (linked parent work id db) ≡ hashes db
unfolding relink_header
hashes-linked parent work id db =
    hash-update_rows (has_id id) (λ r. record r { previous_header_id = parent; chain_work = work })
      (λ r. refl) db.headers

OneTip-take_tip :
    (header : BlockHeader) (tip : Option BlockHeader) (db : Db)
    → OneTip db
    → OneTip (take_tip header tip db).0
OneTip-take_tip header tip db o = elim (take_tip-Taken header tip db) [
  | inl (db', d, q, t) ↦ (
    header.hash,
    Tip-One header.hash _
        (subst (λ (r : Db × Result StoreFault ℕ). TipIs header.hash r.0.headers) (sym q) t),
  )
  | inr (e, q, x) ↦ subst (λ (r : Db × Result StoreFault ℕ). OneTip r.0) (sym q) o
]

hashes-take_tip :
    (header : BlockHeader) (tip : Option BlockHeader) (db : Db)
    → hashes (take_tip header tip db).0 ≡ hashes db
hashes-take_tip header tip db =
    hashes-contents db (take_tip header tip db).0 (take_tip-contents header tip db)

relink-OneTip :
    ⦃b : Bsv⦄ (params : ChainParams) (hash : Text) (db : Db)
    → OneTip db
    → OneTip (relink_orphan_and_reevaluate params hash db).0
relink-OneTip params hash db o = elim (relink-Relinked params hash db) [
  | inl e ↦ subst OneTip (sym e) o
  | inr (parent, work, id, inl e) ↦ subst OneTip (sym e) (OneTip-linked parent work id db o)
  | inr (parent, work, id, inr (h, tip, e)) ↦
      subst OneTip (sym e) (OneTip-take_tip h tip _ (OneTip-linked parent work id db o))
]

hashes-relink :
    ⦃b : Bsv⦄ (params : ChainParams) (hash : Text) (db : Db)
    → hashes (relink_orphan_and_reevaluate params hash db).0 ≡ hashes db
hashes-relink params hash db = elim (relink-Relinked params hash db) [
  | inl e ↦ ap hashes e
  | inr (parent, work, id, inl e) ↦ ap hashes e ∙ hashes-linked parent work id db
  | inr (parent, work, id, inr (h, tip, e)) ↦
      ap hashes e ∙ hashes-take_tip h tip _ ∙ hashes-linked parent work id db
]

-- What moves the tip or writes a row: an insert, a relink of an orphan, a batch, a push, the sweep
-- of heights with two active rows, and the tip's recomputation.
pub data Step ⦃b : Bsv⦄ (params : ChainParams) (db : Db) : Db → Type 0 where
  inserts : (header : BlockHeader) → Step params db (insert_header params header db).0
  relinks : (hash : Text) → Step params db (relink_orphan_and_reevaluate params hash db).0
  recomputes : Step params db (update_chain_tip_to_highest db).0
  pushes : (headers : List BlockHeader) → Step params db (ingest_pushed params headers db).0
  dedupes : Step params db (dedupe_active_heights db).0
  batches : (headers : List BlockHeader) → Step params db (insert_headers_batch params headers db).0

pub data Reach ⦃b : Bsv⦄ (params : ChainParams) (db : Db) : Db → Type 0 where
  start : Reach params db db
  then : (db' db'' : Db) → Reach params db db' → Step params db' db'' → Reach params db db''

Step-Sound :
    ⦃b : Bsv⦄ (params : ChainParams) (db db' : Db)
    → Step params db db'
    → OneTip db
    → Distinct (hashes db)
    → OneTip db' × Distinct (hashes db')
Step-Sound params db db' (inserts header) o d =
    (insert_header-OneTip params header db o, insert_header-Distinct params header db d)
Step-Sound params db db' (relinks hash) o d =
    (relink-OneTip params hash db o, subst Distinct (sym (hashes-relink params hash db)) d)
Step-Sound params db db' (batches headers) o d = insert_headers_batch-Sound params headers db o d
Step-Sound params db db' (pushes headers) o d = ingest_pushed-Sound params headers db (o, d)
Step-Sound params db db' dedupes o d = dedupe_active_heights-Sound db (o, d)
Step-Sound params db db' recomputes o d =
    (OneTip-highest db o, subst Distinct (sym (hashes-highest db)) d)

-- Over every sequence of inserts, relinks, batches, pushes, sweeps of heights with two active rows
-- and recomputations of the tip, in any order and with any headers: a store in which no two rows
-- share a hash and the tip flag names one hash stays so.
pub Reach-Sound :
    ⦃b : Bsv⦄ (params : ChainParams) (db db' : Db)
    → Reach params db db'
    → OneTip db
    → Distinct (hashes db)
    → OneTip db' × Distinct (hashes db')
Reach-Sound params db db' start o d = (o, d)
Reach-Sound params db db' (then mid _ r s) o d =
    let ih = Reach-Sound params db mid r o d in Step-Sound params mid db' s ih.0 ih.1
