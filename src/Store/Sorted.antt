-- ===== src/Store/Sorted.antt =====
-- What the reads of sorted and filtered rows say of the rows that the store holds.
use chaintracks_cloudflare.Prelude.{
  ◌++◌, map, Bool, true, false, ◌&&◌, ◌||◌, List, [], ◌∷◌, any, filter, find, leb, none, Bool-cases,
  ◌≡◌, refl, ap, ◌∙◌, inl, inr, All, Has, arith,
}
use chaintracks_cloudflare.Types.{BlockHeader}
use chaintracks_cloudflare.Store.Table.{by_height, sort_by_height, update_rows}

any-by_height :
    (p : BlockHeader → Bool) (r : BlockHeader) (rows : List BlockHeader)
    → any p (by_height r rows) ≡ (p r || any p rows)
unfolding by_height
any-by_height p r [] = refl
any-by_height p r (s ∷ rows) = elim (Bool-cases (leb r.height s.height)) [
  | inl e ↦ rw (by_height, e) refl
  | inr e ↦ rw (by_height, e, any-by_height p r rows) (or_swap (p s) (p r) (any p rows))
]
  where
    or_swap : (a b c : Bool) → (a || (b || c)) ≡ (b || (a || c))
    or_swap a b c = ground arith

pub any-sort :
    (p : BlockHeader → Bool) (rows : List BlockHeader) → any p (sort_by_height rows) ≡ any p rows
unfolding sort_by_height
any-sort p [] = refl
any-sort p (r ∷ rows) =
    any-by_height p r (sort_by_height rows) ∙ ap (λ b. p r || b) (any-sort p rows)

-- A test of the rows that a filter keeps is a test of all.
pub any-filter-ext :
    (p q s : BlockHeader → Bool) (rows : List BlockHeader)
    → ((r : BlockHeader) → (q r && p r) ≡ s r)
    → any p (filter q rows) ≡ any s rows
any-filter-ext p q s [] e = refl
any-filter-ext p q s (r ∷ rows) e = elim (Bool-cases (q r)) [
  | inl x ↦ let k : p r ≡ s r = (rw (x) at (e r)) in rw (x, k, any-filter-ext p q s rows e) refl
  | inr x ↦ let k : false ≡ s r = (rw (x) at (e r)) in rw (x, any-filter-ext p q s rows e, ← k) refl
]

pub any-found :
    (p : BlockHeader → Bool) (rows : List BlockHeader) → find p rows ≡ none → any p rows ≡ false
any-found p [] h = refl
any-found p (r ∷ rs) h = ground (arith, any-found p rs)

pub All-kept :
    (P : BlockHeader → Type 0) (q : BlockHeader → Bool) (rows : List BlockHeader)
    → ((r : BlockHeader) → Has r rows → q r ≡ true → P r)
    → All P (filter q rows)
All-kept P q [] f = tt
All-kept P q (r ∷ rows) f = elim (Bool-cases (q r)) [
  | inl e ↦ rw (e) (f r (inl refl) e, All-kept P q rows (λ s h. f s (inr h)))
  | inr e ↦ rw (e) (All-kept P q rows (λ s h. f s (inr h)))
]

-- An update that a test does not see.
pub any-update_rows :
    (p q : BlockHeader → Bool) (f : BlockHeader → BlockHeader)
    → ((r : BlockHeader) → p (f r) ≡ p r)
    → (rows : List BlockHeader) → any p (update_rows q f rows) ≡ any p rows
unfolding update_rows
any-update_rows p q f e [] = refl
any-update_rows p q f e (r ∷ rows) = elim (Bool-cases (q r)) [
  | inl x ↦ rw (x, e r, any-update_rows p q f e rows) refl
  | inr x ↦ rw (x, any-update_rows p q f e rows) refl
]

pub any-snoc :
    (p : BlockHeader → Bool) (rows : List BlockHeader) (r : BlockHeader)
    → any p (rows ++ r ∷ []) ≡ (any p rows || p r)
any-snoc p [] r = ground arith
any-snoc p (s ∷ rows) r = rw (any-snoc p rows r) (ground arith)

pub any-map :
    (p : BlockHeader → Bool) (f : BlockHeader → BlockHeader) (rows : List BlockHeader)
    → ((r : BlockHeader) → p (f r) ≡ p r)
    → any p (map f rows) ≡ any p rows
any-map p f [] e = refl
any-map p f (r ∷ rows) e = rw (e r, any-map p f rows e) refl
