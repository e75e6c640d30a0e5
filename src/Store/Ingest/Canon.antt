-- ===== src/Store/Ingest/Canon.antt =====
-- The rows at a height that the activation sets, and what the test of the active rows says of them.
use chaintracks_cloudflare.Prelude.{
  ℕ, ◌+◌, ◌≤◌, ◌<◌, Text, text_eq, eq_ignore_ascii_case, Bool, true, not, ◌&&◌, ◌||◌, List, [], ◌∷◌,
  all, filter, leb, le→leb, ◌==◌, ==_iff, &&-both, Bool-cases, ◌≡◌, ◌≢◌, refl, sym, ap, ◌∙◌, inl,
  inr, All, arith,
}
use chaintracks_cloudflare.Types.{BlockHeader}
use chaintracks_cloudflare.Store.Table.{Db, by_height, sort_by_height, active_between, update_rows}
use chaintracks_cloudflare.Store.Distinct.{All-update_rows}
use chaintracks_cloudflare.Store.Batch.Judge.{Linked}
use chaintracks_cloudflare.Store.Ingest.{
  last_of, sole_active, id_of, with_parent, link_child, canonicalize_height, canonicalize_all,
}

-- Every active row at the header's height is the header.
abbrev pub Sole : BlockHeader → BlockHeader → Type 0
Sole h r = r.height ≡ h.height → r.is_active ≡ true → eq_ignore_ascii_case r.hash h.hash ≡ true

-- At the header's height the row with its hash is active, and no other.
abbrev pub Canon : BlockHeader → BlockHeader → Type 0
Canon h r = r.height ≡ h.height → r.is_active ≡ text_eq r.hash h.hash

canonicalize-Canon :
    (h : BlockHeader) (rows : List BlockHeader)
    → All (Canon h) (canonicalize_height h.hash h.height rows)
unfolding canonicalize_height update_rows
canonicalize-Canon h [] = tt
canonicalize-Canon h (r ∷ rs) = elim (Bool-cases (r.height == h.height)) [
  | inl e ↦ rw (canonicalize_height, update_rows, e) (λ x. refl, canonicalize-Canon h rs)
  | inr e ↦
      rw (canonicalize_height, update_rows, e)
        (λ x. let k = (==_iff r.height h.height).1 x in cc, canonicalize-Canon h rs)
]

canonicalize-keeps :
    (h k : BlockHeader) (rows : List BlockHeader)
    → k.height ≢ h.height
    → All (Canon h) rows
    → All (Canon h) (canonicalize_height k.hash k.height rows)
unfolding canonicalize_height update_rows
canonicalize-keeps h k [] n a = tt
canonicalize-keeps h k (r ∷ rs) n (x, a) = elim (Bool-cases (r.height == k.height)) [
  | inl e ↦
      rw (canonicalize_height, update_rows, e)
        (λ y. absurd (n (sym ((==_iff r.height k.height).0 e) ∙ y)), canonicalize-keeps h k rs n a)
  | inr e ↦ rw (canonicalize_height, update_rows, e) (x, canonicalize-keeps h k rs n a)
]

canonicalize_all-keeps :
    (h : BlockHeader) (hs rows : List BlockHeader)
    → All (λ k. k.height ≢ h.height) hs
    → All (Canon h) rows
    → All (Canon h) (canonicalize_all hs rows)
unfolding canonicalize_all
canonicalize_all-keeps h [] rows n a = a
canonicalize_all-keeps h (k ∷ hs) rows (x, n) a =
    canonicalize_all-keeps h hs (canonicalize_height k.hash k.height rows) n
      (canonicalize-keeps h k rows x a)

-- The heights of a linked run rise, from the first header's to the last one's.
pub rises :
    (a : BlockHeader) (hs : List BlockHeader)
    → Linked a hs
    → All (λ k. a.height < k.height) hs
      × All (λ k. k.height ≤ (last_of a hs).height) hs
      × (a.height ≤ (last_of a hs).height)
rises a [] l = (tt, tt, omega arith)
rises a (h ∷ hs) (f, l) =
    let (x, y, z) = rises h hs l in
    let step = (==_iff h.height (a.height + 1)).0 (&&-both (h.height == a.height + 1) _ f).0 in
    let up : a.height < h.height = omega arith in
    ((up, above a.height h.height hs up x), (z, y), omega arith)
  where
    above :
        (lo hi : ℕ) (hs : List BlockHeader)
        → lo < hi
        → All (λ k. hi < k.height) hs
        → All (λ k. lo < k.height) hs
    above lo hi [] u x = tt
    above lo hi (k ∷ hs) u (y, x) = (omega arith, above lo hi hs u x)

apart :
    (a : BlockHeader) (hs : List BlockHeader)
    → All (λ k. a.height < k.height) hs
    → All (λ k. k.height ≢ a.height) hs
apart a [] x = tt
apart a (k ∷ hs) (y, x) = (λ e. absurd (omega arith), apart a hs x)

pub canonicalize_all-Canon :
    (a : BlockHeader) (hs rows : List BlockHeader)
    → Linked a hs
    → All (λ h. All (Canon h) (canonicalize_all (a ∷ hs) rows)) (a ∷ hs)
unfolding canonicalize_all
canonicalize_all-Canon a [] rows l = (canonicalize-Canon a rows, tt)
canonicalize_all-Canon a (h ∷ hs) rows (f, l) =
    let next = canonicalize_height a.hash a.height rows in
    (
      canonicalize_all-keeps a (h ∷ hs) next (apart a (h ∷ hs) (rises a (h ∷ hs) (f, l)).0)
          (canonicalize-Canon a rows),
      canonicalize_all-Canon h hs next l,
    )

pub link_child-Canon :
    (h : BlockHeader) (parent child : Text) (rows : List BlockHeader)
    → All (Canon h) rows
    → All (Canon h) (link_child parent child rows)
unfolding link_child
link_child-Canon h parent child rows a =
    All-update_rows (Canon h) (λ r. text_eq r.hash child) (with_parent (id_of parent rows))
      (λ r x. x) rows a

-- What `all` says of sorted and of filtered rows.
all-by_height :
    (p : BlockHeader → Bool) (r : BlockHeader) (rows : List BlockHeader)
    → all p (by_height r rows) ≡ (p r && all p rows)
unfolding by_height
all-by_height p r [] = refl
all-by_height p r (s ∷ rows) = elim (Bool-cases (leb r.height s.height)) [
  | inl e ↦ rw (by_height, e) refl
  | inr e ↦ rw (by_height, e, all-by_height p r rows) (and_swap (p s) (p r) (all p rows))
]
  where
    and_swap : (a b c : Bool) → (a && (b && c)) ≡ (b && (a && c))
    and_swap a b c = ground arith

all-sort :
    (p : BlockHeader → Bool) (rows : List BlockHeader) → all p (sort_by_height rows) ≡ all p rows
unfolding sort_by_height
all-sort p [] = refl
all-sort p (r ∷ rows) =
    all-by_height p r (sort_by_height rows) ∙ ap (λ b. p r && b) (all-sort p rows)

abbrev unless : (BlockHeader → Bool) → (BlockHeader → Bool) → BlockHeader → Bool
unless q p r = not (q r) || p r

all-filter :
    (p q : BlockHeader → Bool) (rows : List BlockHeader)
    → all p (filter q rows) ≡ all (unless q p) rows
all-filter p q [] = refl
all-filter p q (r ∷ rows) = elim (Bool-cases (q r)) [
  | inl e ↦ rw (e, all-filter p q rows) refl
  | inr e ↦ rw (e) (all-filter p q rows)
]

-- The test of `sole_active` on the rows that the store holds, not only those it read.
abbrev sole_test : BlockHeader → ℕ → ℕ → BlockHeader → Bool
sole_test h lo hi =
    unless (λ r. r.is_active && (leb lo r.height && leb r.height hi))
      (unless (λ r. r.height == h.height) (λ r. eq_ignore_ascii_case r.hash h.hash))

sole_test-Sole :
    (h : BlockHeader) (lo hi : ℕ) (rows : List BlockHeader)
    → lo ≤ h.height
    → h.height ≤ hi
    → all (sole_test h lo hi) rows ≡ true
    → All (Sole h) rows
sole_test-Sole h lo hi [] a b e = tt
sole_test-Sole h lo hi (r ∷ rows) a b e =
    let (x, y) = &&-both (sole_test h lo hi r) (all (sole_test h lo hi) rows) e in
    (
      λ same on.
          (rw
            (
              on,
              (==_iff r.height h.height).1 same,
              le→leb lo r.height (omega arith),
              le→leb r.height hi (omega arith),
            )
            at x),
      sole_test-Sole h lo hi rows a b y,
    )

pub sole_active-Sole :
    (db : Db) (lo hi : ℕ) (h : BlockHeader)
    → lo ≤ h.height
    → h.height ≤ hi
    → sole_active (active_between db lo hi) h ≡ true
    → All (Sole h) db.headers
unfolding active_between
sole_active-Sole db lo hi h a b e =
    let inner = unless (λ r. r.height == h.height) (λ r. eq_ignore_ascii_case r.hash h.hash) in
    let range : BlockHeader → Bool = (λ r. r.is_active && (leb lo r.height && leb r.height hi)) in
    let (x, y) =
      &&-both
        (all (λ r. eq_ignore_ascii_case r.hash h.hash)
          (filter (λ r. r.height == h.height) (active_between db lo hi)))
        _ e in
    sole_test-Sole h lo hi db.headers a b (
      sym (
        all-filter (λ r. eq_ignore_ascii_case r.hash h.hash) (λ r. r.height == h.height)
          (active_between db lo hi)
        ∙ all-sort inner (filter range db.headers)
        ∙ all-filter inner range db.headers)
      ∙ x)
