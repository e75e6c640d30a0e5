-- ===== src/Store/Batch/Write/Kept.antt =====
-- A batch keeps the store's hashes distinct and its tip one.
use mathlib.Core.List.{map}
use chaintracks_cloudflare.Prelude.{
  ℕ, Option, none, some, Text, text_eq, Bool, true, false, ◌&&◌, ◌==◌, List, [], ◌∷◌, ◌++◌, ◌≡◌,
  refl, sym, ap, subst, inl, inr, any, Bool-cases, Result-cases, All, arith,
}
use chaintracks_cloudflare.Bsv.{Bsv}
use chaintracks_cloudflare.Types.{BlockHeader}
use chaintracks_cloudflare.Consensus.Params.{ChainParams}
use chaintracks_cloudflare.Store.Table.{Db, insert_row}
use chaintracks_cloudflare.Store.Distinct.{
  Distinct, Distinct-snoc, hashes, insert_header-Distinct, hash-update_rows, All-update_rows,
}
use chaintracks_cloudflare.Store.OneTip.{OneTip, OneTip-insert_row, insert_header-OneTip}
use chaintracks_cloudflare.Store.Insert.{insert_header}
use chaintracks_cloudflare.Store.Batch.{judge_batch}
use chaintracks_cloudflare.Store.Batch.Write.{
  insert_each, replaces, activate_stored, run_work, bulk_row, write_one, write_run, write_batch,
  insert_headers_batch,
}

All-any :
    (h : Text) (rows : List BlockHeader)
    → any (λ r. text_eq r.hash h) rows ≡ false
    → All (λ k. text_eq k h ≡ false) (map (λ r. r.hash) rows)
All-any h [] e = tt
All-any h (r ∷ rs) e = (ground arith, All-any h rs (ground arith))

hashes-snoc :
    (rows : List BlockHeader) (r : BlockHeader)
    → map (λ r. r.hash) (rows ++ r ∷ []) ≡ map (λ r. r.hash) rows ++ r.hash ∷ []
hashes-snoc [] r = refl
hashes-snoc (x ∷ rows) r = ap (λ t. x.hash ∷ t) (hashes-snoc rows r)

insert_row-Distinct :
    (r : BlockHeader) (db : Db) → Distinct (hashes db) → Distinct (hashes (insert_row r db))
unfolding insert_row
insert_row-Distinct r db d = elim (Bool-cases (any (λ s. text_eq s.hash r.hash) db.headers)) [
  | inl e ↦ rw (e) d
  | inr e ↦ rw (e) (
      subst Distinct (sym (hashes-snoc db.headers _))
        (Distinct-snoc r.hash (hashes db) d (All-any r.hash db.headers e)))
]

abbrev stored_with : Text → Text → ℕ → Db → Db
stored_with work hash height db = record db {
  headers = activate_stored work hash height db.headers;
}

hashes-activate_stored :
    (work hash : Text) (height : ℕ) (db : Db) → hashes (stored_with work hash height db) ≡ hashes db
unfolding activate_stored
hashes-activate_stored work hash height db =
    elim (Bool-cases (any (λ o. (o.height == height) && o.is_active) db.headers)) [
      | inl e ↦ rw (e) refl
      | inr e ↦ rw (e) (
          hash-update_rows _ (λ r. record r { is_active = true; chain_work = work }) (λ r. refl)
            db.headers)
    ]

OneTip-activate_stored :
    (work hash : Text) (height : ℕ) (db : Db) → OneTip db → OneTip (stored_with work hash height db)
unfolding activate_stored
OneTip-activate_stored work hash height db (h, t) =
    elim (Bool-cases (any (λ o. (o.height == height) && o.is_active) db.headers)) [
      | inl e ↦ rw (e) (h, t)
      | inr e ↦ rw (e) (
        h,
        All-update_rows _ _ (λ r. record r { is_active = true; chain_work = work }) (λ r x. x)
            db.headers t,
      )
    ]

abbrev Sound : Db → Type 0
Sound db = OneTip db × Distinct (hashes db)

row-Sound :
    (r : BlockHeader) (db : Db) → r.is_chain_tip ≡ false → Sound db → Sound (insert_row r db)
row-Sound r db e s = (OneTip-insert_row r db e s.0, insert_row-Distinct r db s.1)

write_one-Sound :
    (inactive : Text → Bool) (h : BlockHeader) (work : Text) (db : Db)
    → Sound db
    → Sound (write_one inactive h work db)
unfolding write_one
write_one-Sound inactive h work db s = elim (Bool-cases (inactive h.hash)) [
  | inl e ↦ rw (e) (
      row-Sound (bulk_row h work) (stored_with work h.hash h.height db) refl (
        OneTip-activate_stored work h.hash h.height db s.0,
        subst Distinct (sym (hashes-activate_stored work h.hash h.height db)) s.1,
      ))
  | inr e ↦ rw (e) (row-Sound (bulk_row h work) db refl s)
]

module _ ⦃b : Bsv⦄ where
  write_run-Sound :
      (inactive : Text → Bool) (hs : List BlockHeader) (running : Text) (previous : Option Text)
      (db : Db)
      → Sound db
      → Sound (write_run inactive hs running previous db)
  unfolding write_run
  write_run-Sound inactive [] running previous db s = s
  write_run-Sound inactive (h ∷ hs) running previous db s =
      write_run-Sound inactive hs (run_work running previous h) (some h.hash) _
        (write_one-Sound inactive h (run_work running previous h) db s)

  insert_each-Sound :
      (params : ChainParams) (hs : List BlockHeader) (added : ℕ) (db : Db)
      → Sound db
      → Sound (insert_each params hs added db).0
  unfolding insert_each
  insert_each-Sound params [] added db s = s
  insert_each-Sound params (h ∷ hs) added db s =
      let next : Sound (insert_header params h db).0 =
        (insert_header-OneTip params h db s.0, insert_header-Distinct params h db s.1) in
      elim (Result-cases (insert_header params h db).1) [
        | inl (a, e) ↦
            rw (insert_each, e) (insert_each-Sound params hs _ (insert_header params h db).0 next)
        | inr (f, e) ↦ rw (insert_each, e) next
      ]

  write_batch-Sound :
      (params : ChainParams) (first : BlockHeader) (rest : List BlockHeader) (db : Db)
      → Sound db
      → Sound (write_batch params first rest db).0
  unfolding write_batch
  write_batch-Sound params first rest db s = elim (Bool-cases (replaces db first rest)) [
    | inl e ↦ rw (e) (insert_each-Sound params (first ∷ rest) 0 db s)
    | inr e ↦ rw (e) (write_run-Sound _ (first ∷ rest) _ none db s)
  ]

  -- A batch keeps the hashes of the rows distinct and the tip one.
  pub insert_headers_batch-Sound :
      (params : ChainParams) (headers : List BlockHeader) (db : Db)
      → OneTip db
      → Distinct (hashes db)
      → OneTip (insert_headers_batch params headers db).0
        × Distinct (hashes (insert_headers_batch params headers db).0)
  unfolding insert_headers_batch
  insert_headers_batch-Sound params [] db o d = (o, d)
  insert_headers_batch-Sound params (first ∷ rest) db o d =
      elim (Result-cases (judge_batch db params first rest)) [
        | inr (e, q) ↦ rw (insert_headers_batch, q) (o, d)
        | inl (_, q) ↦ rw (insert_headers_batch, q) (write_batch-Sound params first rest db (o, d))
      ]
