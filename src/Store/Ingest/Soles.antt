-- ===== src/Store/Ingest/Soles.antt =====
-- That no rival is active at a height stays so while rows are linked and the tip moves.
use chaintracks_cloudflare.Prelude.{
  ℕ, suc, ◌≤◌, text_eq, Bool, true, false, not, ◌&&◌, List, [], ◌∷◌, length, filter, leb,
  Bool-cases, Option-cases, ◌≡◌, inl, inr, All, arith,
}
use chaintracks_cloudflare.Types.{BlockHeader}
use chaintracks_cloudflare.Store.Table.{
  Db, find_highest_active, set_chain_tip, clear_chain_tip, update_chain_tip_to_highest,
}
use chaintracks_cloudflare.Store.Distinct.{All-update_rows}
use chaintracks_cloudflare.Store.Ingest.{id_of, with_parent, has_parent, link_span}
use chaintracks_cloudflare.Store.Ingest.Canon.{Sole}

length-filter-le :
    (p : BlockHeader → Bool) (hs : List BlockHeader) → length (filter p hs) ≤ length hs
length-filter-le p [] = omega arith
length-filter-le p (h ∷ hs) = elim (Bool-cases (p h)) [
  | inl e ↦ rw (e) (omega (arith, length-filter-le p hs))
  | inr e ↦ rw (e) (omega (arith, length-filter-le p hs))
]

pub filter-whole :
    (p : BlockHeader → Bool) (hs : List BlockHeader)
    → length (filter p hs) ≡ length hs
    → All (λ h. p h ≡ true) hs
filter-whole p [] e = tt
filter-whole p (h ∷ hs) e = elim (Bool-cases (p h)) [
  | inl x ↦
      let k : suc (length (filter p hs)) ≡ suc (length hs) = rw (x) at e in
      (x, filter-whole p hs (omega arith))
  | inr x ↦
      let k : length (filter p hs) ≡ suc (length hs) = rw (x) at e in
      absurd (omega (arith, length-filter-le p hs))
]

pub link_span-Sole :
    (h : BlockHeader) (lo hi : ℕ) (rows : List BlockHeader)
    → All (Sole h) rows
    → All (Sole h) (link_span lo hi rows)
unfolding link_span
link_span-Sole h lo hi rows a =
    All-update_rows (Sole h)
      (λ r. r.is_active && (not (has_parent r) && (leb lo r.height && leb r.height hi)))
      (λ r. with_parent (id_of r.previous_hash rows) r) (λ r x. x) rows a

pub highest-Sole :
    (h : BlockHeader) (db : Db)
    → All (Sole h) db.headers
    → All (Sole h) (update_chain_tip_to_highest db).0.headers
unfolding update_chain_tip_to_highest set_chain_tip clear_chain_tip
highest-Sole h db a = elim (Option-cases (find_highest_active db)) [
  | inl e ↦ rw (update_chain_tip_to_highest, e) a
  | inr (t, e) ↦
      rw (update_chain_tip_to_highest, e)
        (All-update_rows (Sole h) (λ r. text_eq r.hash t.hash)
          (λ r. record r { is_chain_tip = true }) (λ r x. x) (clear_chain_tip db.headers)
          (All-update_rows (Sole h) (λ r. r.is_chain_tip) (λ r. record r { is_chain_tip = false })
            (λ r x. x) db.headers a))
]
