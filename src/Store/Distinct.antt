-- ===== src/Store/Distinct.antt =====
-- An insert never stores a hash twice; the lemmas on updated rows.
use mathlib.Core.List.{map}
use chaintracks_cloudflare.Prelude.{
  none, Text, text_eq, Bool, false, List, [], ◌∷◌, ◌++◌, ◌≡◌, refl, sym, ap, ◌∙◌, subst, inl, inr,
  find, Bool-cases, All, All-append, arith,
}
use chaintracks_cloudflare.Bsv.{Bsv}
use chaintracks_cloudflare.Types.{BlockHeader}
use chaintracks_cloudflare.Consensus.Params.{ChainParams}
use chaintracks_cloudflare.Store.Table.{Db, find_header_for_hash, update_rows}
use chaintracks_cloudflare.Store.Keep.{contents, unflagged, insert_header-Kept}
use chaintracks_cloudflare.Store.Insert.{insert_header}

-- No two rows have one hash.
abbrev pub Distinct : List Text → Type 0
Distinct [] = Unit {0}
Distinct (h ∷ hs) = All (λ k. text_eq h k ≡ false) hs × Distinct hs

abbrev pub hashes : Db → List Text
hashes db = map (λ r. r.hash) db.headers

map-hash-unflagged :
    (rows : List BlockHeader) → map (λ r. r.hash) (map unflagged rows) ≡ map (λ r. r.hash) rows
map-hash-unflagged [] = refl
map-hash-unflagged (r ∷ rs) = ap (λ t. r.hash ∷ t) (map-hash-unflagged rs)

pub hashes-contents : (db db' : Db) → contents db' ≡ contents db → hashes db' ≡ hashes db
hashes-contents db db' e =
    sym (map-hash-unflagged db'.headers) ∙ ap (map (λ r. r.hash)) e ∙ map-hash-unflagged db.headers

map-hash-snoc :
    (rows : List BlockHeader) (r : BlockHeader)
    → map (λ r. r.hash) (map unflagged rows ++ r ∷ []) ≡ map (λ r. r.hash) rows ++ r.hash ∷ []
map-hash-snoc [] r = refl
map-hash-snoc (x ∷ rows) r = ap (λ t. x.hash ∷ t) (map-hash-snoc rows r)

All-find :
    (h : Text) (rows : List BlockHeader)
    → find (λ r. text_eq r.hash h) rows ≡ none
    → All (λ k. text_eq k h ≡ false) (map (λ r. r.hash) rows)
All-find h [] e = tt
All-find h (r ∷ rs) e = elim (Bool-cases (text_eq r.hash h)) [
  | inl x ↦ ground arith
  | inr x ↦ (x, All-find h rs (rw (x) at e))
]

pub Distinct-snoc :
    (h : Text) (hs : List Text)
    → Distinct hs
    → All (λ k. text_eq k h ≡ false) hs
    → Distinct (hs ++ h ∷ [])
Distinct-snoc h [] d a = (tt, tt)
Distinct-snoc h (k ∷ hs) (x, d) (e, a) =
    (All-append _ hs (h ∷ []) x (e, tt), Distinct-snoc h hs d a)

pub insert_header-Distinct :
    ⦃b : Bsv⦄ (params : ChainParams) (header : BlockHeader) (db : Db)
    → Distinct (hashes db)
    → Distinct (hashes (insert_header params header db).0)
unfolding find_header_for_hash
insert_header-Distinct params header db d = elim (insert_header-Kept params header db) [
  | inl e ↦ subst Distinct (sym (hashes-contents db (insert_header params header db).0 e)) d
  | inr (q, e) ↦
      let eq : hashes (insert_header params header db).0 ≡ hashes db ++ header.hash ∷ [] =
        sym (map-hash-unflagged _) ∙ ap (map (λ r. r.hash)) e ∙ map-hash-snoc db.headers _ in
      subst Distinct (sym eq)
        (Distinct-snoc header.hash (hashes db) d (All-find header.hash db.headers q))
]

pub hash-update_rows :
    (p : BlockHeader → Bool) (f : BlockHeader → BlockHeader)
    → ((r : BlockHeader) → (f r).hash ≡ r.hash)
    → (rows : List BlockHeader) → map (λ r. r.hash) (update_rows p f rows) ≡ map (λ r. r.hash) rows
unfolding update_rows
hash-update_rows p f e [] = refl
hash-update_rows p f e (r ∷ rs) = elim (Bool-cases (p r)) [
  | inl x ↦ rw (x) (λ i. e r i ∷ hash-update_rows p f e rs i)
  | inr x ↦ rw (x) (λ i. r.hash ∷ hash-update_rows p f e rs i)
]

pub All-update_rows :
    (P : BlockHeader → Type 0) (p : BlockHeader → Bool) (f : BlockHeader → BlockHeader)
    → ((r : BlockHeader) → P r → P (f r))
    → (rows : List BlockHeader) → All P rows
    → All P (update_rows p f rows)
unfolding update_rows
All-update_rows P p f e [] a = tt
All-update_rows P p f e (r ∷ rs) (x, a) = elim (Bool-cases (p r)) [
  | inl t ↦ rw (t) (e r x, All-update_rows P p f e rs a)
  | inr t ↦ rw (t) (x, All-update_rows P p f e rs a)
]
