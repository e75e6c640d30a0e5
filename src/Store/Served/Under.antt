-- ===== src/Store/Served/Under.antt =====
-- Nothing above the ceiling is served.
use chaintracks_cloudflare.Prelude.{
  ℕ, ◌+◌, ◌≤◌, ◌<◌, Option, none, some, Bool, true, List, [], ◌∷◌, leb, ◌==◌, ◌≡◌, refl, ◌⊎◌, inl,
  inr, All, filter, Bool-cases, Option-cases, arith,
}
use chaintracks_cloudflare.Types.{BlockHeader}
use chaintracks_cloudflare.Store.Table.{
  Db, find_chain_tip, active_from_to, by_height, sort_by_height,
}
use chaintracks_cloudflare.Store.Served.{
  Ceiling, all_rows, up_to, nothing, admits, served_ceiling, clipped, headers_under, get_headers,
  served_tip, raised, present_height,
}

abbrev pub listed : Option BlockHeader → List BlockHeader
listed none = []
listed (some x) = x ∷ []

abbrev Under : Db → BlockHeader → Type 0
Under db t =
    (admits (served_ceiling db) t.height ≡ true)
    × ((find_chain_tip db ≡ some t)
        ⊎ ((served_ceiling db ≡ up_to t.height)
            × (t.is_active ≡ true)
            × All (λ x. t.height < x.height) (listed (find_chain_tip db))))

All-by_height :
    (P : BlockHeader → Type 0) (r : BlockHeader) (rows : List BlockHeader)
    → P r
    → All P rows
    → All P (by_height r rows)
unfolding by_height
All-by_height P r [] p a = (p, tt)
All-by_height P r (s ∷ rows) p a = elim (Bool-cases (leb r.height s.height)) [
  | inl e ↦ rw (e) (p, a)
  | inr e ↦ rw (e) (a.0, All-by_height P r rows p a.1)
]

pub All-sort :
    (P : BlockHeader → Type 0) (rows : List BlockHeader) → All P rows → All P (sort_by_height rows)
unfolding sort_by_height
All-sort P [] a = tt
All-sort P (r ∷ rows) a = All-by_height P r (sort_by_height rows) a.0 (All-sort P rows a.1)

pub All-filter :
    (P : BlockHeader → Type 0) (p : BlockHeader → Bool) (rows : List BlockHeader)
    → ((r : BlockHeader) → p r ≡ true → P r)
    → All P (filter p rows)
All-filter P p [] f = tt
All-filter P p (r ∷ rows) f = elim (Bool-cases (p r)) [
  | inl e ↦ rw (e) (f r e, All-filter P p rows f)
  | inr e ↦ rw (e) (All-filter P p rows f)
]

clipped-le : (ceiling : Ceiling) (start count : ℕ) → clipped ceiling start count ≤ count
unfolding clipped
clipped-le all_rows start count = omega arith
clipped-le nothing start count = omega arith
clipped-le (up_to c) start count = ground arith

clipped-admits :
    (ceiling : Ceiling) (start count h : ℕ)
    → start ≤ h
    → h < start + clipped ceiling start count
    → admits ceiling h ≡ true
unfolding clipped admits
clipped-admits all_rows start count h a b = refl
clipped-admits nothing start count h a b = absurd (omega arith)
clipped-admits (up_to c) start count h a b = ground arith

-- Every header that a range answers is an active row inside the range asked for, and none is above
-- the ceiling, whatever range is asked for.
pub headers_under-admits :
    (db : Db) (ceiling : Ceiling) (start count : ℕ)
    → All
        (λ h.
          (h.is_active ≡ true)
          × (start ≤ h.height)
          × (h.height < start + count)
          × (admits ceiling h.height ≡ true))
        (headers_under db ceiling start count)
unfolding headers_under get_headers active_from_to
headers_under-admits db ceiling start count = elim (Bool-cases (clipped ceiling start count == 0)) [
  | inl e ↦ rw (e) tt
  | inr e ↦ rw (e) (
      All-sort _ _ (
        All-filter _ _ db.headers (λ r q. (
          ground arith,
          ground arith,
          ground (arith, clipped-le ceiling start count),
          clipped-admits ceiling start count r.height (ground arith) (ground arith),
        ))))
]

le-raised : (seen : Option ℕ) (height : ℕ) → height ≤ raised seen height
unfolding raised
le-raised none height = omega arith
le-raised (some s) height = omega arith

some_height-inj : (a c : ℕ) → some a ≡ some c → a ≡ c
some_height-inj a c e = cc

-- The present height is that of the served tip, or a higher one that the couriers answered; with
-- nothing served there is none.
pub present_height-served :
    (db : Db) (h : ℕ)
    → present_height db ≡ some h
    → (t : BlockHeader) × (served_tip db ≡ some t) × (t.height ≤ h)
unfolding present_height
present_height-served db h e = elim (Option-cases (served_tip db)) [
  | inl n ↦ let k : none ≡ some h = rw (present_height, n) at e in cc
  | inr (t, n) ↦
      let k : some (raised db.sync.last_seen_height t.height) ≡ some h =
        rw (present_height, n) at e in
      (t, n, omega (arith, some_height-inj _ h k, le-raised db.sync.last_seen_height t.height))
]
