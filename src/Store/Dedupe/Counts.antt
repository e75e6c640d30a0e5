-- ===== src/Store/Dedupe/Counts.antt =====
-- The rows of a height, counted across its statement.
use mathlib.Core.List.{map}
use chaintracks_cloudflare.Prelude.{
  ℕ, suc, max, Option, none, some, Bool, true, false, ◌&&◌, ◌||◌, List, [], ◌∷◌, length, any,
  filter, ◌==◌, ==_iff, &&-both, ◌≡◌, refl, ap, ◌∙◌, subst, inl, inr, Bool-cases, Option-cases, All,
  arith,
}
use chaintracks_cloudflare.Types.{BlockHeader}
use chaintracks_cloudflare.Store.Table.{row_id, update_rows}
use chaintracks_cloudflare.Store.Rows.{when, update_rows-map}
use chaintracks_cloudflare.Store.Dedupe.{active_at, count_at, max_id, is_extra}

-- No two rows have one id.
abbrev pub DistinctIds : List ℕ → Type 0
DistinctIds [] = Unit {0}
DistinctIds (i ∷ is) = All (λ k. (i == k) ≡ false) is × DistinctIds is

abbrev pub ids : List BlockHeader → List ℕ
ids rows = map row_id rows

abbrev pub Is : ℕ → ℕ → BlockHeader → Bool
Is height i r = active_at height r && (row_id r == i)

pub max_id-any :
    (height : ℕ) (p : BlockHeader → Bool) (rows : List BlockHeader) (i : ℕ)
    → ((r : BlockHeader) → p r ≡ true → active_at height r ≡ true)
    → max_id p rows ≡ some i
    → any (Is height i) rows ≡ true
unfolding max_id
max_id-any height p [] i w h = cc
max_id-any height p (r ∷ rs) i w h = elim (Bool-cases (p r)) [
  | inr e ↦
      let ih = max_id-any height p rs i w (rw (max_id, e) at h) in rw (ih) (or_true (Is height i r))
  | inl e ↦ elim (Option-cases (max_id p rs)) [
    | inl q ↦
        let k : row_id r ≡ i = some-inj (row_id r) i (rw (max_id, e, q) at h) in
        rw (w r e, (==_iff (row_id r) i).1 k) refl
    | inr (j, q) ↦
        let k : max (row_id r) j ≡ i = some-inj (max (row_id r) j) i (rw (max_id, e, q) at h) in
        elim (Bool-cases (row_id r == i)) [
          | inl x ↦ rw (w r e, x) refl
          | inr x ↦
              let same : j ≡ i = ground arith in
              let ih = max_id-any height p rs i w (q ∙ ap some same) in
              rw (ih) (or_true (Is height i r))
        ]
  ]
]
  where
    some-inj : (a b : ℕ) → some a ≡ some b → a ≡ b
    some-inj a b e = cc

    or_true : (b : Bool) → (b || true) ≡ true
    or_true b = ground arith

pub max_id-none :
    (p : BlockHeader → Bool) (rows : List BlockHeader)
    → max_id p rows ≡ none
    → length (filter p rows) ≡ 0
unfolding max_id
max_id-none p [] h = refl
max_id-none p (r ∷ rs) h = elim (Bool-cases (p r)) [
  | inl e ↦ let k = (rw (max_id, e) at h) in cc
  | inr e ↦ rw (e) (max_id-none p rs (rw (max_id, e) at h))
]

and_other : (b : Bool) (j i : ℕ) → (i == j) ≡ false → (b && (j == i)) ≡ false
and_other b j i h = ground arith

none_Is :
    (height i : ℕ) (rows : List BlockHeader)
    → All (λ k. (i == k) ≡ false) (ids rows)
    → length (filter (Is height i) rows) ≡ 0
none_Is height i [] a = refl
none_Is height i (r ∷ rs) (x, a) =
    rw (and_other (active_at height r) (row_id r) i x) (none_Is height i rs a)

-- With distinct ids, the rows with one id are one row.
pub one_Is :
    (height i : ℕ) (rows : List BlockHeader)
    → DistinctIds (ids rows)
    → any (Is height i) rows ≡ true
    → length (filter (Is height i) rows) ≡ 1
one_Is height i [] d h = cc
one_Is height i (r ∷ rs) (x, d) h = elim (Bool-cases (Is height i r)) [
  | inr e ↦ rw (e) (one_Is height i rs d (rw (e) at h))
  | inl e ↦
      let same = (==_iff (row_id r) i).0 (&&-both (active_at height r) _ e).1 in
      rw (e)
        (ap suc (none_Is height i rs (subst (λ k. All (λ y. (k == y) ≡ false) (ids rs)) same x)))
]

-- Rows that are counted by what they were.
pub count-map :
    (p q : BlockHeader → Bool) (f : BlockHeader → BlockHeader)
    → ((r : BlockHeader) → p (f r) ≡ q r)
    → (rows : List BlockHeader) → length (filter p (map f rows)) ≡ length (filter q rows)
count-map p q f e [] = refl
count-map p q f e (r ∷ rs) = elim (Bool-cases (q r)) [
  | inl x ↦ rw (e r, x) (ap suc (count-map p q f e rs))
  | inr x ↦ rw (e r, x) (count-map p q f e rs)
]

abbrev pub off : BlockHeader → BlockHeader
off r = record r { is_active = false }

extra-is :
    (height i : ℕ) (r : BlockHeader)
    → active_at height (when (is_extra height (some i)) off r) ≡ Is height i r
extra-is height i r = ground arith

other-is :
    (height k : ℕ) (o : Option ℕ) (r : BlockHeader)
    → (height == k) ≡ false
    → active_at k (when (is_extra height o) off r) ≡ active_at k r
other-is height k none r h = refl
other-is height k (some i) r h = ground arith

-- What a height's statement leaves at its height: the kept row alone.
pub extra-count :
    (height i : ℕ) (rows : List BlockHeader)
    → count_at height (update_rows (is_extra height (some i)) off rows)
      ≡ length (filter (Is height i) rows)
extra-count height i rows =
    ap (count_at height) (update_rows-map (is_extra height (some i)) off rows)
    ∙ count-map (active_at height) (Is height i) (when (is_extra height (some i)) off)
        (extra-is height i) rows

-- Rows at other heights are left.
pub other-count :
    (height k : ℕ) (o : Option ℕ) (rows : List BlockHeader)
    → (height == k) ≡ false
    → count_at k (update_rows (is_extra height o) off rows) ≡ count_at k rows
other-count height k o rows h =
    ap (count_at k) (update_rows-map (is_extra height o) off rows)
    ∙ count-map (active_at k) (active_at k) (when (is_extra height o) off)
        (λ r. other-is height k o r h) rows
