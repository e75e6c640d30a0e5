-- ===== src/Store/Tip/Heaviest.antt =====
-- Which header `find_chain_tip` answers after an insert.
use mathlib.Core.List.{map}
use chaintracks_cloudflare.Prelude.{
  Option, none, some, Text, text_eq, text_eq_refl, Bool, true, false, List, [], ◌∷◌, ◌++◌, ◌≡◌,
  refl, sym, ap, ◌∙◌, subst, ◌⊎◌, inl, inr, find, any, Bool-cases, All, Has, Has-map,
  Has-append_right, arith,
}
use chaintracks_cloudflare.Bsv.{Bsv}
use chaintracks_cloudflare.Types.{BlockHeader, is_more_work}
use chaintracks_cloudflare.Consensus.Params.{ChainParams}
use chaintracks_cloudflare.Store.Table.{
  Db, before, pick, top, find_chain_tip, find_header_for_hash, insert_row,
}
use chaintracks_cloudflare.Store.Rows.{TipIs}
use chaintracks_cloudflare.Store.Tip.Takeover.{insert_header-Landed}
use chaintracks_cloudflare.Store.Insert.{previous_of, work_over, outworks, insert_header}
use chaintracks_cloudflare.Store.Keep.{
  contents, unflagged, appended, work-appended, insert_header-adds,
}

pick-some :
    (r : BlockHeader) (o : Option BlockHeader)
    → (y : BlockHeader) × (pick r o ≡ some y) × ((y ≡ r) ⊎ (o ≡ some y))
pick-some r none = (r, refl, inl refl)
pick-some r (some s) = elim (Bool-cases (before s r)) [
  | inl e ↦ (s, rw (e) refl, inr refl)
  | inr e ↦ (r, rw (e) refl, inl refl)
]

pub some-inj : (a c : BlockHeader) → some a ≡ some c → a ≡ c
some-inj a c e = cc

-- The row that a statement picks is one of the table's and passes its test.
pub top-Has :
    (p : BlockHeader → Bool) (rows : List BlockHeader) (x : BlockHeader)
    → top p rows ≡ some x
    → Has x rows × (p x ≡ true)
unfolding top
top-Has p [] x e = cc
top-Has p (r ∷ rs) x e = elim (Bool-cases (p r)) [
  | inr f ↦ let q = top-Has p rs x (rw (f) at e) in (inr q.0, q.1)
  | inl t ↦
      let e' : pick r (top p rs) ≡ some x = rw (t) at e in
      let (y, k, w) = pick-some r (top p rs) in
      let same : y ≡ x = some-inj y x (sym k ∙ e') in
      elim w [
        | inl z ↦ (inl (sym same ∙ z), subst (λ v. p v ≡ true) (sym z ∙ same) t)
        | inr z ↦ let q = top-Has p rs x (z ∙ ap some same) in (inr q.0, q.1)
      ]
]

-- A row that passes makes the statement answer.
top-answers :
    (p : BlockHeader → Bool) (rows : List BlockHeader) (x : BlockHeader)
    → Has x rows
    → p x ≡ true
    → (y : BlockHeader) × (top p rows ≡ some y)
unfolding top
top-answers p [] x m e = elim m [ ]
top-answers p (r ∷ rs) x m e = elim (Bool-cases (p r)) [
  | inl t ↦ let (y, k, w) = pick-some r (top p rs) in (y, rw (t) k)
  | inr f ↦ elim m [
    | inl q ↦ let k : true ≡ false = sym e ∙ ap p q ∙ f in cc
    | inr h ↦ let (y, k) = top-answers p rs x h e in (y, rw (f) k)
  ]
]

-- A row at the end that does not pass changes no answer.
top-snoc :
    (p : BlockHeader → Bool) (rows : List BlockHeader) (x : BlockHeader)
    → p x ≡ false
    → top p (rows ++ x ∷ []) ≡ top p rows
unfolding top
top-snoc p [] x e = rw (e) refl
top-snoc p (r ∷ rs) x e = rw (top-snoc p rs x e) refl

Has-unmap :
    (y : BlockHeader) (rows : List BlockHeader)
    → Has y (map unflagged rows)
    → (r : BlockHeader) × Has r rows × (y ≡ unflagged r)
Has-unmap y [] h = elim h [ ]
Has-unmap y (r ∷ rs) (inl e) = (r, inl refl, e)
Has-unmap y (r ∷ rs) (inr h) = let (x, m, e) = Has-unmap y rs h in (x, inr m, e)

Has-append-cases :
    (y z : BlockHeader) (rows : List BlockHeader) → Has y (rows ++ z ∷ []) → Has y rows ⊎ (y ≡ z)
Has-append-cases y z [] (inl e) = inr e
Has-append-cases y z [] (inr h) = elim h [ ]
Has-append-cases y z (r ∷ rs) (inl e) = inl (inl e)
Has-append-cases y z (r ∷ rs) (inr h) = elim (Has-append-cases y z rs h) [
  | inl m ↦ inl (inr m)
  | inr e ↦ inr e
]

All-Has :
    (P : BlockHeader → Type 0) (rows : List BlockHeader) (r : BlockHeader)
    → All P rows
    → Has r rows
    → P r
All-Has P [] r a h = elim h [ ]
All-Has P (x ∷ rows) r a (inl e) = subst P (sym e) a.0
All-Has P (x ∷ rows) r a (inr h) = All-Has P rows r a.1 h

not_found :
    (h : Text) (rows : List BlockHeader) (r : BlockHeader)
    → find (λ x. text_eq x.hash h) rows ≡ none
    → Has r rows
    → text_eq r.hash h ≡ false
not_found h [] r e m = elim m [ ]
not_found h (x ∷ rows) r e m = elim (Bool-cases (text_eq x.hash h)) [
  | inl t ↦ ground arith
  | inr t ↦ elim m [
    | inl q ↦ ap (λ (v : BlockHeader). text_eq v.hash h) q ∙ t
    | inr k ↦ not_found h rows r (rw (t) at e) k
  ]
]

-- The one row of a table with the tip's flags that was not in the table before.
tip-is-new :
    (db db' : Db) (new : BlockHeader)
    → TipIs new.hash db'.headers
    → find_header_for_hash db new.hash ≡ none
    → contents db' ≡ contents db ++ unflagged new ∷ []
    → (y : BlockHeader) × (find_chain_tip db' ≡ some y)
      × (unflagged y ≡ unflagged new)
      × (y.is_active ≡ true)
unfolding find_chain_tip find_header_for_hash
tip-is-new db db' new tip none_yet c =
    let there : Has (unflagged new) (contents db') =
      subst (Has (unflagged new)) (sym c)
        (Has-append_right (unflagged new) (contents db) _ (inl refl)) in
    let (r, m, e) = Has-unmap (unflagged new) db'.headers there in
    let named : text_eq r.hash new.hash ≡ true =
      subst (λ (v : BlockHeader). text_eq v.hash new.hash ≡ true) e (text_eq_refl new.hash) in
    let flag = (All-Has _ db'.headers r tip m).0 ∙ named in
    let (y, k) = top-answers (λ x. x.is_chain_tip) db'.headers r m flag in
    let (n, f) = top-Has (λ x. x.is_chain_tip) db'.headers y k in
    let own = All-Has _ db'.headers y tip n in
    let same : text_eq y.hash new.hash ≡ true = sym own.0 ∙ f in
    let old_or_new =
      Has-append-cases (unflagged y) (unflagged new) (contents db)
        (subst (Has (unflagged y)) c (Has-map unflagged y db'.headers n)) in
    let is_new : unflagged y ≡ unflagged new = (elim old_or_new [
      | inr q ↦ q
      | inl h ↦
          let (z, l, q) = Has-unmap (unflagged y) db.headers h in
          let k : true ≡ false =
            sym same
            ∙ ap (λ (v : BlockHeader). text_eq v.hash new.hash) q
            ∙ not_found new.hash db.headers z none_yet l in
          cc
    ]) in
    (y, k, is_new, own.1 same)

tip-insert_row :
    (r : BlockHeader) (db : Db)
    → r.is_chain_tip ≡ false
    → find_chain_tip (insert_row r db) ≡ find_chain_tip db
unfolding find_chain_tip insert_row
tip-insert_row r db e = elim (Bool-cases (any (λ s. text_eq s.hash r.hash) db.headers)) [
  | inl t ↦ rw (t) refl
  | inr t ↦ rw (t) (top-snoc (λ x. x.is_chain_tip) db.headers _ e)
]

outworks-more :
    ⦃b : Bsv⦄ (anchored : Bool) (work : Text) (old : BlockHeader)
    → outworks anchored work (some old) ≡ true
    → is_more_work work old.chain_work ≡ true
unfolding outworks
outworks-more anchored work old e = ground arith

module _ ⦃b : Bsv⦄ (params : ChainParams) (header : BlockHeader) (db : Db) where
  -- The tip is the header as it was stored, active, and with more work than the tip before.
  abbrev pub Heavier : Option BlockHeader → Type 0
  Heavier tip =
      (y : BlockHeader) × (tip ≡ some y)
      × (unflagged y ≡ appended params header db)
      × (y.is_active ≡ true)
      × ((old : BlockHeader)
          → find_chain_tip db ≡ some old
          → is_more_work y.chain_work old.chain_work ≡ true)

  more_than :
      (old : BlockHeader)
      → find_chain_tip db ≡ some old
      → (y : BlockHeader) → unflagged y ≡ appended params header db
      → (anchored : Bool)
      → outworks anchored (work_over (previous_of db header) header) (find_chain_tip db) ≡ true
      → is_more_work y.chain_work old.chain_work ≡ true
  more_than old e y same anchored more =
      subst (λ (v : BlockHeader). is_more_work v.chain_work old.chain_work ≡ true) (sym same)
        (subst (λ w. is_more_work w old.chain_work ≡ true) (work-appended params header db)
          (outworks-more anchored (work_over (previous_of db header) header) old (
            subst
              (λ (o : Option BlockHeader).
                outworks anchored (work_over (previous_of db header) header) o ≡ true)
              e more)))

  -- The tip that the store answers after an insert is the tip that it answered before; or it is the
  -- header itself, as it was stored, active, and its cumulative work is more than that of the tip
  -- before, if there was one.
  pub insert_header-Heavier :
      (find_chain_tip (insert_header params header db).0 ≡ find_chain_tip db)
      ⊎ Heavier (find_chain_tip (insert_header params header db).0)
  insert_header-Heavier = elim (insert_header-Landed params header db) [
    | inl (n, inl e) ↦ inl (ap find_chain_tip e)
    | inl (n, inr (r, h, a, t, e)) ↦ inl (ap find_chain_tip e ∙ tip-insert_row r db t)
    | inr (t, (pow, none_yet, (anchored, judged, more)), i) ↦
        let (y, k, same, active) =
          tip-is-new db (insert_header params header db).0 (appended params header db) i none_yet
            (insert_header-adds params header db pow none_yet anchored judged) in
        inr (y, k, same, active, λ old e. more_than old e y same anchored more)
  ]
