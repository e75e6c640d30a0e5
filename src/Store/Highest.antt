-- ===== src/Store/Highest.antt =====
-- The recomputation of the tip keeps the store's hashes distinct and its tip one.
use mathlib.Core.List.{map}
use chaintracks_cloudflare.Prelude.{
  Text, text_eq, text_eq_iff, true, false, List, [], ◌∷◌, ◌≡◌, refl, ◌∙◌, inl, inr, Option-cases,
  Bool-cases, All, arith,
}
use chaintracks_cloudflare.Types.{BlockHeader}
use chaintracks_cloudflare.Store.Table.{
  Db, find_highest_active, set_chain_tip, clear_chain_tip, update_chain_tip_to_highest,
}
use chaintracks_cloudflare.Store.Rows.{when, update_rows-map}
use chaintracks_cloudflare.Store.Distinct.{hashes, hash-update_rows}
use chaintracks_cloudflare.Store.OneTip.{OneTip}

cleared-row :
    (r : BlockHeader)
    → (when (λ x. x.is_chain_tip) (λ x. record x { is_chain_tip = false }) r).is_chain_tip ≡ false
cleared-row r = ground arith

set-row :
    (hash : Text) (r : BlockHeader)
    → r.is_chain_tip ≡ false
    → (when (λ x. text_eq x.hash hash) (λ x. record x { is_chain_tip = true }) r).is_chain_tip
      ≡ true
    → (when (λ x. text_eq x.hash hash) (λ x. record x { is_chain_tip = true }) r).hash ≡ hash
set-row hash r c = elim (Bool-cases (text_eq r.hash hash)) [
  | inl x ↦ rw (x) (λ e. (text_eq_iff r.hash hash).0 x)
  | inr x ↦ rw (x) (λ e. cc)
]

All-map-map :
    (hash : Text) (rows : List BlockHeader)
    → All
        (λ r. r.is_chain_tip ≡ true → r.hash ≡ hash)
        (map
          (when (λ x. text_eq x.hash hash) (λ x. record x { is_chain_tip = true }))
          (map (when (λ x. x.is_chain_tip) (λ x. record x { is_chain_tip = false })) rows))
All-map-map hash [] = tt
All-map-map hash (r ∷ rs) = (set-row hash _ (cleared-row r), All-map-map hash rs)

One-moved :
    (hash : Text) (rows : List BlockHeader)
    → All (λ r. r.is_chain_tip ≡ true → r.hash ≡ hash) (set_chain_tip hash (clear_chain_tip rows))
unfolding set_chain_tip clear_chain_tip
One-moved hash rows = rw (update_rows-map, update_rows-map) (All-map-map hash rows)

pub OneTip-highest : (db : Db) → OneTip db → OneTip (update_chain_tip_to_highest db).0
unfolding update_chain_tip_to_highest
OneTip-highest db o = elim (Option-cases (find_highest_active db)) [
  | inl e ↦ rw (update_chain_tip_to_highest, e) o
  | inr (t, e) ↦ rw (update_chain_tip_to_highest, e) (t.hash, One-moved t.hash db.headers)
]

pub hashes-highest : (db : Db) → hashes (update_chain_tip_to_highest db).0 ≡ hashes db
unfolding update_chain_tip_to_highest set_chain_tip clear_chain_tip
hashes-highest db = elim (Option-cases (find_highest_active db)) [
  | inl e ↦ rw (update_chain_tip_to_highest, e) refl
  | inr (t, e) ↦
      rw (update_chain_tip_to_highest, e)
        (hash-update_rows (λ x. text_eq x.hash t.hash) (λ x. record x { is_chain_tip = true })
            (λ r. refl) _
          ∙ hash-update_rows (λ x. x.is_chain_tip) (λ x. record x { is_chain_tip = false })
              (λ r. refl) db.headers)
]
