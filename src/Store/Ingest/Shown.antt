-- ===== src/Store/Ingest/Shown.antt =====
-- An active row that carries the pushed hash: found among the rows read, and kept by the statements
-- that link rows and move the tip.
use chaintracks_cloudflare.Prelude.{
  Text, ℕ, Option-cases, text_eq, eq_ignore_ascii_case, Bool, true, false, not, ◌&&◌, ◌||◌, List,
  [], ◌∷◌, any, all, filter, leb, ◌==◌, &&-both, Bool-cases, ◌≡◌, refl, sym, ◌∙◌, inl, inr, arith,
}
use chaintracks_cloudflare.Types.{BlockHeader}
use chaintracks_cloudflare.Store.Table.{
  Db, active_between, find_highest_active, set_chain_tip, clear_chain_tip,
  update_chain_tip_to_highest,
}
use chaintracks_cloudflare.Store.Batch.Write.Stored.{has_hash, Stored}
use chaintracks_cloudflare.Store.Sorted.{any-sort, any-update_rows}
use chaintracks_cloudflare.Store.Ingest.{
  canonicalize_height, canonicalize_all, link_child, sole_active, id_of, with_parent, has_parent,
  link_span,
}

abbrev pub shows : BlockHeader → BlockHeader → Bool
shows h r = r.is_active && eq_ignore_ascii_case r.hash h.hash

-- Some active row has the header's hash.
abbrev pub Shown : BlockHeader → List BlockHeader → Type 0
Shown h rows = any (shows h) rows ≡ true

-- What a test finds among the rows that a stronger filter keeps, it finds among all.
any-filter :
    (p q s : BlockHeader → Bool) (rows : List BlockHeader)
    → ((r : BlockHeader) → q r ≡ true → p r ≡ true → s r ≡ true)
    → any p (filter q rows) ≡ true
    → any s rows ≡ true
any-filter p q s [] f e = cc
any-filter p q s (r ∷ rows) f e = elim (Bool-cases (q r)) [
  | inr x ↦ rest (any-filter p q s rows f (rw (x) at e))
  | inl x ↦ elim (Bool-cases (p r)) [
    | inl y ↦ rw (f r x y) refl
    | inr y ↦
        let k : (p r || any p (filter q rows)) ≡ true = rw (x) at e in
        rest (any-filter p q s rows f (ground arith))
  ]
]
  where
    rest : any s rows ≡ true → (s r || any s rows) ≡ true
    rest k = ground arith

pub sole_active-Shown :
    (db : Db) (lo hi : ℕ) (h : BlockHeader)
    → sole_active (active_between db lo hi) h ≡ true
    → Shown h db.headers
unfolding active_between
sole_active-Shown db lo hi h e =
    let range : BlockHeader → Bool = (λ r. r.is_active && (leb lo r.height && leb r.height hi)) in
    let here : BlockHeader → Bool = (λ r. eq_ignore_ascii_case r.hash h.hash) in
    let (x, y) =
      &&-both (all here (filter (λ r. r.height == h.height) (active_between db lo hi))) _ e in
    any-filter here range (shows h) db.headers (λ r a b. both r a b)
      (sym (any-sort here (filter range db.headers)) ∙ y)
  where
    both :
        (r : BlockHeader)
        → (r.is_active && (leb lo r.height && leb r.height hi)) ≡ true
        → eq_ignore_ascii_case r.hash h.hash ≡ true
        → shows h r ≡ true
    both r a b = let (u, v) = &&-both r.is_active _ a in rw (u, b) refl

pub link_span-Shown :
    (h : BlockHeader) (lo hi : ℕ) (rows : List BlockHeader)
    → Shown h rows
    → Shown h (link_span lo hi rows)
unfolding link_span
link_span-Shown h lo hi rows a =
    any-update_rows (shows h)
      (λ r. r.is_active && (not (has_parent r) && (leb lo r.height && leb r.height hi)))
      (λ r. with_parent (id_of r.previous_hash rows) r) (λ r. refl) rows
    ∙ a

pub highest-Shown :
    (h : BlockHeader) (db : Db)
    → Shown h db.headers
    → Shown h (update_chain_tip_to_highest db).0.headers
unfolding update_chain_tip_to_highest set_chain_tip clear_chain_tip
highest-Shown h db a = elim (Option-cases (find_highest_active db)) [
  | inl e ↦ rw (update_chain_tip_to_highest, e) a
  | inr (t, e) ↦
      rw (update_chain_tip_to_highest, e)
        (any-update_rows (shows h) (λ r. text_eq r.hash t.hash)
            (λ r. record r { is_chain_tip = true }) (λ r. refl) (clear_chain_tip db.headers)
          ∙ any-update_rows (shows h) (λ r. r.is_chain_tip) (λ r. record r { is_chain_tip = false })
              (λ r. refl) db.headers
          ∙ a)
]

canonicalize_all-Stored :
    (hash : Text) (hs rows : List BlockHeader)
    → Stored hash rows
    → Stored hash (canonicalize_all hs rows)
unfolding canonicalize_all canonicalize_height
canonicalize_all-Stored hash [] rows a = a
canonicalize_all-Stored hash (h ∷ hs) rows a =
    canonicalize_all-Stored hash hs (canonicalize_height h.hash h.height rows) (
      any-update_rows (has_hash hash) (λ r. r.height == h.height)
        (λ r. record r { is_active = text_eq r.hash h.hash }) (λ r. refl) rows
      ∙ a)

-- The activation keeps every hash.
pub activated-Stored :
    (hash : Text) (hs : List BlockHeader) (parent child : Text) (rows : List BlockHeader)
    → Stored hash rows
    → Stored hash (link_child parent child (canonicalize_all hs rows))
unfolding link_child
activated-Stored hash hs parent child rows a =
    let next = canonicalize_all hs rows in
    any-update_rows (has_hash hash) (λ r. text_eq r.hash child) (with_parent (id_of parent next))
      (λ r. refl) next
    ∙ canonicalize_all-Stored hash hs rows a
