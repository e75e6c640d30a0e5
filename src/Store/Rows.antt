-- ===== src/Store/Rows.antt =====
-- The statements of src/storage.rs that flag rows, as functions of one row.
use mathlib.Core.List.{map}
use chaintracks_cloudflare.Prelude.{
  ℕ, Text, text_eq, Bool, true, false, ◌&&◌, ◌||◌, List, [], ◌∷◌, ltb, leb, ◌≡◌, subst, All, refl,
  sym, ap, ◌∙◌, if◌then◌else◌, any, Bool-cases, arith, inl, inr,
}
use chaintracks_cloudflare.Types.{BlockHeader}
use chaintracks_cloudflare.Store.Table.{
  Db, update_chain_tip, update_rows, clear_chain_tip, set_chain_tip_active, deactivate_above,
  activate_hash,
}
use chaintracks_cloudflare.Store.Reorg.{activate_all, apply_reorg}

abbrev pub when : (BlockHeader → Bool) → (BlockHeader → BlockHeader) → BlockHeader → BlockHeader
when p f r = if p r then f r else r

pub update_rows-map :
    (p : BlockHeader → Bool) (f : BlockHeader → BlockHeader) (rows : List BlockHeader)
    → update_rows p f rows ≡ map (when p f) rows
unfolding update_rows
update_rows-map p f [] = refl
update_rows-map p f (r ∷ rs) = ap (λ t. when p f r ∷ t) (update_rows-map p f rs)

abbrev pub mentions : List Text → Text → Bool
mentions hs h = any (λ x. text_eq h x) hs

-- A row after a reorg onto `new_tip` above `ancestor`.
unfoldable pub reorged : ℕ → List Text → Text → BlockHeader → BlockHeader
reorged ancestor branch new_tip r = record r {
  is_active =
      text_eq r.hash new_tip || (mentions branch r.hash || (leb r.height ancestor && r.is_active));
  is_chain_tip = text_eq r.hash new_tip;
}

activated : List Text → BlockHeader → BlockHeader
activated hs r = record r { is_active = mentions hs r.hash || r.is_active }

-- One activation more.
map-id : (rows : List BlockHeader) → map (λ r. r) rows ≡ rows
map-id [] = refl
map-id (r ∷ rs) = ap (λ t. r ∷ t) (map-id rs)

-- One pass in place of two.
pub map-map :
    (f g k : BlockHeader → BlockHeader)
    → ((r : BlockHeader) → g (f r) ≡ k r)
    → (rows : List BlockHeader) → map g (map f rows) ≡ map k rows
map-map f g k e [] = refl
map-map f g k e (r ∷ rs) = λ i. e r i ∷ map-map f g k e rs i

activated-step :
    (h : Text) (hs : List Text) (r : BlockHeader)
    → activated hs (when (λ x. text_eq x.hash h) (λ x. record x { is_active = true }) r)
      ≡ activated (h ∷ hs) r
unfolding activated
activated-step h hs r = elim (Bool-cases (text_eq r.hash h)) [
  | inl e ↦ elim (Bool-cases (mentions hs r.hash)) [
    | inl m ↦ rw (e, m) refl
    | inr m ↦ rw (e, m) refl
  ]
  | inr e ↦ rw (e) refl
]

activate_all-map :
    (hs : List Text) (rows : List BlockHeader) → activate_all hs rows ≡ map (activated hs) rows
unfolding activate_all activate_hash activated
activate_all-map [] rows = sym (map-id rows)
activate_all-map (h ∷ hs) rows =
    activate_all-map hs (activate_hash h rows)
    ∙ ap (map (activated hs))
        (update_rows-map (λ x. text_eq x.hash h) (λ x. record x { is_active = true }) rows)
    ∙ map-map _ _ _ (activated-step h hs) rows

reorged-row :
    (ancestor : ℕ) (branch : List Text) (new_tip : Text) (r : BlockHeader)
    → when
        (λ x. text_eq x.hash new_tip)
        (λ x. record x { is_chain_tip = true; is_active = true })
        (when
          (λ x. x.is_chain_tip)
          (λ x. record x { is_chain_tip = false })
          (activated branch (
            when
              (λ x. ltb ancestor x.height && x.is_active)
              (λ x. record x { is_active = false; is_chain_tip = false })
              r)))
      ≡ reorged ancestor branch new_tip r
unfolding reorged activated
reorged-row ancestor branch new_tip r = ground arith

-- A reorg onto `new_tip` at once: after it a row is active exactly when it is the new tip, or is on
-- the branch, or was active at or below the ancestor; the new tip's rows alone carry the tip flag,
-- and nothing else of a row changes.
pub apply_reorg-rows :
    (ancestor : ℕ) (branch : List Text) (new_tip : Text) (db : Db)
    → (apply_reorg ancestor branch new_tip db).headers
      ≡ map (reorged ancestor branch new_tip) db.headers
unfolding apply_reorg set_chain_tip_active clear_chain_tip deactivate_above
apply_reorg-rows ancestor branch new_tip db =
    rw (activate_all-map, update_rows-map, update_rows-map, update_rows-map)
      (ap (map _) (ap (map _) (map-map _ _ _ (λ r. refl) db.headers))
        ∙ ap (map _) (map-map _ _ _ (λ r. refl) db.headers)
        ∙ map-map _ _ _ (reorged-row ancestor branch new_tip) db.headers)

-- A row after the tip moved to `hash` with no reorg.
unfoldable pub tipped : Text → BlockHeader → BlockHeader
tipped hash r = record r {
  is_active = text_eq r.hash hash || r.is_active;
  is_chain_tip = text_eq r.hash hash;
}

tipped-row :
    (hash : Text) (r : BlockHeader)
    → when
        (λ x. text_eq x.hash hash)
        (λ x. record x { is_chain_tip = true; is_active = true })
        (when (λ x. x.is_chain_tip) (λ x. record x { is_chain_tip = false }) r)
      ≡ tipped hash r
unfolding tipped
tipped-row hash r = ground arith

pub update_chain_tip-rows :
    (hash : Text) (db : Db) → (update_chain_tip hash db).headers ≡ map (tipped hash) db.headers
unfolding update_chain_tip set_chain_tip_active clear_chain_tip
update_chain_tip-rows hash db =
    rw (update_rows-map, update_rows-map) (map-map _ _ _ (tipped-row hash) db.headers)

-- After `update_chain_tip` and after a reorg the tip flag stands on the named rows, and on those alone.
abbrev pub TipIs : Text → List BlockHeader → Type 0
TipIs hash =
    All λ r.
      (r.is_chain_tip ≡ text_eq r.hash hash) × (text_eq r.hash hash ≡ true → r.is_active ≡ true)

pub All-map :
    (P : BlockHeader → Type 0) (f : BlockHeader → BlockHeader)
    → ((r : BlockHeader) → P (f r))
    → (rows : List BlockHeader) → All P (map f rows)
All-map P f h [] = tt
All-map P f h (r ∷ rs) = (h r, All-map P f h rs)

pub update_chain_tip-TipIs : (hash : Text) (db : Db) → TipIs hash (update_chain_tip hash db).headers
unfolding tipped
update_chain_tip-TipIs hash db =
    subst (TipIs hash) (sym (update_chain_tip-rows hash db))
      (All-map _ (tipped hash) (λ r. (refl, λ e. rw (e) refl)) db.headers)

pub apply_reorg-TipIs :
    (ancestor : ℕ) (branch : List Text) (new_tip : Text) (db : Db)
    → TipIs new_tip (apply_reorg ancestor branch new_tip db).headers
unfolding reorged
apply_reorg-TipIs ancestor branch new_tip db =
    subst (TipIs new_tip) (sym (apply_reorg-rows ancestor branch new_tip db))
      (All-map _ (reorged ancestor branch new_tip) (λ r. (refl, λ e. rw (e) refl)) db.headers)
