-- ===== src/Store/OneTip.antt =====
-- The tip flag names one hash, before and after an insert.
use chaintracks_cloudflare.Prelude.{
  Text, text_eq, text_eq_iff, true, false, List, [], ◌∷◌, ◌≡◌, sym, ◌∙◌, subst, inl, inr, any,
  Bool-cases, All, All-append,
}
use chaintracks_cloudflare.Bsv.{Bsv}
use chaintracks_cloudflare.Types.{BlockHeader}
use chaintracks_cloudflare.Consensus.Params.{ChainParams}
use chaintracks_cloudflare.Store.Table.{Db, insert_row}
use chaintracks_cloudflare.Store.Rows.{TipIs}
use chaintracks_cloudflare.Store.Tip.Takeover.{insert_header-Landed}
use chaintracks_cloudflare.Store.Insert.{insert_header}

-- Every row with the tip flag has one hash.
abbrev pub OneTip : Db → Type 0
OneTip db = (h : Text) × All (λ r. r.is_chain_tip ≡ true → r.hash ≡ h) db.headers

pub Tip-One :
    (h : Text) (rows : List BlockHeader)
    → TipIs h rows
    → All (λ r. r.is_chain_tip ≡ true → r.hash ≡ h) rows
Tip-One h [] t = tt
Tip-One h (r ∷ rs) ((x, y), t) = (λ e. (text_eq_iff r.hash h).0 (sym x ∙ e), Tip-One h rs t)

-- A row more without the flag.
pub OneTip-insert_row :
    (r : BlockHeader) (db : Db) → r.is_chain_tip ≡ false → OneTip db → OneTip (insert_row r db)
unfolding insert_row
OneTip-insert_row r db e (h, t) = elim (Bool-cases (any (λ s. text_eq s.hash r.hash) db.headers)) [
  | inl x ↦ rw (x) (h, t)
  | inr x ↦ rw (x) (h, All-append _ db.headers _ t (λ f. cc, tt))
]

pub insert_header-OneTip :
    ⦃b : Bsv⦄ (params : ChainParams) (header : BlockHeader) (db : Db)
    → OneTip db
    → OneTip (insert_header params header db).0
insert_header-OneTip params header db o = elim (insert_header-Landed params header db) [
  | inl (n, inl e) ↦ subst OneTip (sym e) o
  | inl (n, inr (r, h, a, t, e)) ↦ subst OneTip (sym e) (OneTip-insert_row r db t o)
  | inr (y, j, i) ↦ (header.hash, Tip-One header.hash _ i)
]
