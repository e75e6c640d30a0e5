-- ===== src/Store/Tip.antt =====
-- What an insert does to the tip and to the active rows.
pub mod Takeover
pub mod Heaviest
pub mod Work
use chaintracks_cloudflare.Prelude.{
  ℕ, zero, suc, Option, none, some, Text, text_eq, Bool, true, false, ◌&&◌, List, [], ◌∷◌, ◌++◌,
  ◌≡◌, refl, sym, ap, ◌∙◌, subst, ◌⊎◌, inl, inr, if◌then◌else◌, Bool-cases, Option-cases, Result,
  ok, err, Result-cases, All, All-append, length, arith,
}
use chaintracks_cloudflare.Bsv.{Bsv}
use chaintracks_cloudflare.Types.{BlockHeader, InsertHeaderResult, is_more_work}
use chaintracks_cloudflare.Consensus.{check_pow}
use chaintracks_cloudflare.Consensus.Params.{ChainParams}
use chaintracks_cloudflare.Outcomes.{StoreFault}
use chaintracks_cloudflare.Store.Table.{
  Db, count_active_above, find_chain_tip, find_header_for_hash, insert_row, update_chain_tip,
}
use chaintracks_cloudflare.Store.Rules.{judge}
use chaintracks_cloudflare.Store.Ancestry.{find_common_ancestor}
use chaintracks_cloudflare.Store.Reorg.{branch_hashes, apply_reorg, handle_reorg}
use chaintracks_cloudflare.Store.Rows.{TipIs, update_chain_tip-TipIs, apply_reorg-TipIs}
use chaintracks_cloudflare.Store.Insert.{
  previous_of, work_over, outworks, answer, with_answer, extends, settle_tip, new_row, take_tip,
  write_header, insert_new, insert_header,
}

-- The store is as it was, or one row is added that is neither active nor the tip.
abbrev pub Aside : BlockHeader → Db → Db → Type 0
Aside header db db' =
    (db' ≡ db)
    ⊎ ((r : BlockHeader) × (r.hash ≡ header.hash)
        × (r.is_active ≡ false)
        × (r.is_chain_tip ≡ false)
        × (db' ≡ insert_row r db))

-- A reorg is refused whole or carried out whole.
pub handle_reorg-cases :
    (header tip : BlockHeader) (db : Db)
    → ((e : StoreFault) × (handle_reorg header tip db ≡ (db, err e)))
      ⊎ ((a : ℕ) × (hs : List Text) × (n : ℕ) × (handle_reorg header tip db
            ≡ (apply_reorg a hs header.hash db, ok n)))
unfolding handle_reorg
handle_reorg-cases header tip db = elim (Option-cases (find_common_ancestor db header tip)) [
  | inl e ↦ inl (StoreFault.no_common_ancestor header.hash tip.hash, rw (handle_reorg, e) refl)
  | inr (a, e) ↦
      elim (Option-cases (branch_hashes (suc (length db.headers)) db a.height (some header))) [
        | inl f ↦ inl (StoreFault.endless, rw (handle_reorg, e, f) refl)
        | inr (hs, f) ↦
            inr (a.height, hs, count_active_above db a.height, rw (handle_reorg, e, f) refl)
      ]
]

-- The tip is the header, or nothing changes, which happens to no header that extends the tip.
abbrev pub Taken : BlockHeader → Option BlockHeader → Db → Db × Result StoreFault ℕ → Type 0
Taken header tip db out =
    ((db' : Db) × (d : ℕ) × (out ≡ (db', ok d)) × TipIs header.hash db'.headers)
    ⊎ ((e : StoreFault) × (out ≡ (db, err e)) × (extends header tip ≡ false))

settle_tip-Taken :
    (header tip : BlockHeader) (db : Db)
    → text_eq header.previous_hash tip.hash ≡ false
    → Taken header (some tip) db (settle_tip header (handle_reorg header tip db))
unfolding settle_tip extends
settle_tip-Taken header tip db x = elim (handle_reorg-cases header tip db) [
  | inl (e, q) ↦ inr (e, rw (q) refl, x)
  | inr (a, hs, zero, q) ↦ inl (
    update_chain_tip header.hash (apply_reorg a hs header.hash db),
    0,
    rw (q) refl,
    update_chain_tip-TipIs header.hash _,
  )
  | inr (a, hs, suc n, q) ↦
      inl
        (apply_reorg a hs header.hash db, suc n, rw (q) refl, apply_reorg-TipIs a hs header.hash db)
]

pub take_tip-Taken :
    (header : BlockHeader) (tip : Option BlockHeader) (db : Db)
    → Taken header tip db (take_tip header tip db)
unfolding take_tip
take_tip-Taken header none db = inl (_, _, refl, update_chain_tip-TipIs header.hash db)
take_tip-Taken header (some tip) db = elim (Bool-cases (text_eq header.previous_hash tip.hash)) [
  | inl x ↦
      inl (update_chain_tip header.hash db, 0, rw (x) refl, update_chain_tip-TipIs header.hash db)
  | inr x ↦ subst (Taken header (some tip) db) (rw (x) refl) (settle_tip-Taken header tip db x)
]

-- Where the written header does not become the tip, it stands aside; where it does, it is the tip.
abbrev pub Written :
    BlockHeader
    → Option BlockHeader
    → Bool
    → Db
    → Db × Result StoreFault InsertHeaderResult
    → Type 0
Written header tip becomes db out =
    ((db' : Db) × (r : InsertHeaderResult) × (out ≡ (db', ok r))
      × (r.is_active_tip ≡ false)
      × Aside header db db')
    ⊎ (((db' : Db) × (e : StoreFault) × (out ≡ (db', err e)) × Aside header db db')
        ⊎ ((db' : Db) × (r : InsertHeaderResult) × (out ≡ (db', ok r))
            × (r.is_active_tip ≡ true)
            × (becomes ≡ true)
            × TipIs header.hash db'.headers))

write_header-Written :
    (header : BlockHeader) (previous tip : Option BlockHeader) (work : Text) (becomes : Bool)
    (db : Db)
    → Written header tip becomes db (write_header header previous tip work becomes db)
unfolding write_header with_answer
write_header-Written header previous tip work false db = inl (
  insert_row (new_row header previous work false) db,
  answer header previous tip false 0,
  refl,
  refl,
  inr (_, refl, refl, refl, refl),
)
write_header-Written header previous tip work true db =
    let row = insert_row (new_row header previous work (extends header tip)) db in
    elim (take_tip-Taken header tip row) [
      | inl (db', d, q, t) ↦
          inr (inr (db', answer header previous tip true d, rw (q) refl, refl, refl, t))
      | inr (e, q, x) ↦ inr (
          inl (
            row,
            e,
            rw (q) refl,
            inr (new_row header previous work (extends header tip), refl, x, refl, refl),
          ))
    ]
