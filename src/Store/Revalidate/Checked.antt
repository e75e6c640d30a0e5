-- ===== src/Store/Revalidate/Checked.antt =====
-- What a step of the re-validation vouches for.
use mathlib.Core.List.{reverse}
use chaintracks_cloudflare.Prelude.{
  ℕ, zero, suc, ◌+◌, ◌-◌, ◌<◌, min, max, u32_max, map, any, filter, leb, le→leb, Text, Has, Lift⊥,
  sym, ◌≤◌, Option, none, some, eq_ignore_ascii_case, Bool, true, false, ◌&&◌, List, [], ◌∷◌, ◌==◌,
  ==_iff, leb→le, ◌≡◌, refl, ◌∙◌, subst, inl, inr, find, find-passes, All, Bool-cases, Option-cases,
  ok, ◌>>◌, Result-cases, >>=-eq-ok, arith,
}
use chaintracks_cloudflare.Bsv.{Bsv}
use chaintracks_cloudflare.Types.{BlockHeader}
use chaintracks_cloudflare.Consensus.{check_pow, check_context, link_of}
use chaintracks_cloudflare.Consensus.Params.{ChainParams}
use chaintracks_cloudflare.Consensus.Window.{Window, new, push}
use chaintracks_cloudflare.Outcomes.{StoreFault}
use chaintracks_cloudflare.Store.Table.{Db, active_between}
use chaintracks_cloudflare.Store.Sorted.{any-sort, any-filter-ext, any-found, All-kept}
use chaintracks_cloudflare.Store.Served.Under.{All-sort}
use chaintracks_cloudflare.Store.Tip.Heaviest.{some-inj}
use chaintracks_cloudflare.Store.Revalidate.{
  below_cursor, recheck, last_passed, cursor_window, concluded, advance, set_validated,
  record_validation_fault,
}

-- A run of active stored rows on `last`: each is the child of the one before it, meets its own
-- target, and passes the context rules against the window, which grows by it.
pub Checked : ⦃b : Bsv⦄ → ChainParams → Db → Window → BlockHeader → List BlockHeader → Type 0
Checked params db window last [] = Unit {0}
Checked params db window last (r ∷ rs) =
    Has r db.headers
    × (r.is_active ≡ true)
    × (r.height ≡ last.height + 1)
    × (eq_ignore_ascii_case r.previous_hash last.hash ≡ true)
    × (check_pow r params ≡ ok tt)
    × (check_context window r params ≡ ok tt)
    × Checked params db (push window (link_of r)) r rs

abbrev pub is_row : ℕ → Text → BlockHeader → Bool
is_row height hash r = (r.height == height) && eq_ignore_ascii_case r.hash hash

-- The active stored rows down from a height and hash, each the parent of the one before it: `left` of
-- them, or as many as the store has.
pub Ancestors : Db → ℕ → ℕ → Text → List BlockHeader → Type 0
Ancestors db zero height hash [] = Unit {0}
Ancestors db zero height hash (r ∷ rs) = Lift⊥ {0}
Ancestors db (suc left) height hash [] =
    any (λ r. r.is_active && is_row height hash r) db.headers ≡ false
Ancestors db (suc left) height hash (r ∷ rs) =
    Has r db.headers
    × (r.is_active ≡ true)
    × (is_row height hash r ≡ true)
    × Ancestors db left (height - 1) r.previous_hash rs

find-All :
    (P : BlockHeader → Type 0) (p : BlockHeader → Bool) (rows : List BlockHeader) (x : BlockHeader)
    → All P rows
    → find p rows ≡ some x
    → P x
find-All P p [] x a e = cc
find-All P p (r ∷ rows) x a e = elim (Bool-cases (p r)) [
  | inl t ↦ let k : some r ≡ some x = rw (t) at e in subst P (some-inj r x k) a.0
  | inr t ↦ find-All P p rows x a.1 (rw (t) at e)
]

pub and-both : (x y : Bool) → (x && y) ≡ true → (x ≡ true) × (y ≡ true)
and-both true y e = (refl, e)
and-both false y e = cc

abbrev Active : Db → BlockHeader → Type 0
Active db r = Has r db.headers × (r.is_active ≡ true)

active_between-Active : (db : Db) (lo hi : ℕ) → All (Active db) (active_between db lo hi)
unfolding active_between
active_between-Active db lo hi =
    All-sort _ _ (All-kept (Active db) _ db.headers (λ r h e. (h, ground arith)))

-- Inside the heights that a step reads, what it does not find is not stored.
missing :
    (db : Db) (lo hi height : ℕ) (hash : Text)
    → lo ≤ height
    → height ≤ hi
    → find (is_row height hash) (active_between db lo hi) ≡ none
    → any (λ r. r.is_active && is_row height hash r) db.headers ≡ false
unfolding active_between
missing db lo hi height hash l u e =
    let range : BlockHeader → Bool = (λ r. r.is_active && (leb lo r.height && leb r.height hi)) in
    sym (
      any-sort (is_row height hash) (filter range db.headers)
      ∙ any-filter-ext (is_row height hash) range (λ r. r.is_active && is_row height hash r)
          db.headers inside)
    ∙ any-found (is_row height hash) (active_between db lo hi) e
  where
    inside :
        (r : BlockHeader)
        → ((r.is_active && (leb lo r.height && leb r.height hi)) && is_row height hash r)
          ≡ (r.is_active && is_row height hash r)
    inside r = elim (Bool-cases (r.height == height)) [
      | inl x ↦
          let same = (==_iff r.height height).0 x in
          rw (x, le→leb lo r.height (omega arith), le→leb r.height hi (omega arith)) (ground arith)
      | inr x ↦ rw (x) (ground arith)
    ]

below_cursor-Ancestors :
    (db : Db) (lo hi left height : ℕ) (hash : Text)
    → lo + left ≤ height + 1
    → height ≤ hi
    → Ancestors db left height hash (below_cursor (active_between db lo hi) left height hash)
unfolding below_cursor Ancestors
below_cursor-Ancestors db lo hi zero height hash l u = tt
below_cursor-Ancestors db lo hi (suc left) height hash l u =
    elim (Option-cases (find (is_row height hash) (active_between db lo hi))) [
      | inl n ↦ rw (below_cursor, n) (missing db lo hi height hash (omega arith) u n)
      | inr (r, n) ↦
          let (h, on) = find-All (Active db) _ _ r (active_between-Active db lo hi) n in
          rw (below_cursor, n)
            (
              h,
              on,
              find-passes _ (active_between db lo hi) r n,
              below_cursor-Ancestors db lo hi left (height - 1) r.previous_hash (omega arith)
                  (omega arith),
            )
    ]

module _ ⦃b : Bsv⦄ (params : ChainParams) where
  recheck-Checked :
      (db : Db) (rows : List BlockHeader)
      → All (Active db) rows
      → (left h : ℕ) (last : BlockHeader) (window : Window) → h ≡ last.height + 1
      → Checked params db window last (recheck params rows left h last window).0
  unfolding recheck Checked
  recheck-Checked db rows a zero h last window e = tt
  recheck-Checked db rows a (suc left) h last window e =
      elim (Option-cases
        (find (λ r. (r.height == h) && eq_ignore_ascii_case r.previous_hash last.hash) rows)) [
          | inl n ↦ rw (recheck, n) tt
          | inr (row, n) ↦
              elim (Result-cases (check_pow row params >> check_context window row params)) [
                | inr (f, q) ↦ rw (recheck, n, q) tt
                | inl (_, q) ↦
                    let at : ((row.height == h) && eq_ignore_ascii_case row.previous_hash last.hash)
                        ≡ true =
                      find-passes _ rows row n in
                    let (u, pow, context) =
                      >>=-eq-ok (check_pow row params) (λ _. check_context window row params) q in
                    let (high, linked) =
                      and-both (row.height == h) (eq_ignore_ascii_case row.previous_hash last.hash)
                        at in
                    let same = (==_iff row.height h).0 high in
                    let (stored, on) = find-All (Active db) _ rows row a n in
                    rw (recheck, n, q)
                      (
                        stored,
                        on,
                        same ∙ e,
                        linked,
                        pow,
                        context,
                        recheck-Checked db rows a left (h + 1) row (push window (link_of row))
                            (omega (arith, same)),
                      )
              ]
        ]

  -- The window that the rules read at a cursor: its links are those of the cursor and its ancestors,
  -- lowest first, as many as the rules ask for or as the store has.
  abbrev pub IsWindow : Db → BlockHeader → Window → Type 0
  IsWindow db cursor window =
      (ancestors : List BlockHeader) × Ancestors db
        (min (max (params.pow.window_depth cursor.height) 1) (cursor.height + 1)) cursor.height
        cursor.hash ancestors
      × (window ≡ new (map link_of (reverse ancestors)))

  -- What the step leaves in `after`, of the rows that it read in `db`.
  abbrev pub Vouched : Db → BlockHeader → BlockHeader → Db → Type 0
  Vouched db tip cursor after =
      (window : Window) × (passed : List BlockHeader) × IsWindow db cursor window
      × Checked params db window cursor passed
      × (after.sync.validated_height ≡ some (last_passed cursor passed).height)
      × (after.sync.validated_hash ≡ some (last_passed cursor passed).hash)
      × (after.sync.validation_complete ≡ true → tip.height ≤ (last_passed cursor passed).height)

  concluded-Vouched :
      (tip cursor : BlockHeader) (window : Window) (out : List BlockHeader × Option StoreFault)
      (db : Db)
      → IsWindow db cursor window
      → Checked params db window cursor out.0
      → Vouched db tip cursor (concluded tip cursor out db).0
  unfolding concluded set_validated record_validation_fault
  concluded-Vouched tip cursor window (passed, some f) db w c =
      (window, passed, w, c, refl, refl, λ e. cc)
  concluded-Vouched tip cursor window (passed, none) db w c = (
    window,
    passed,
    w,
    c,
    refl,
    refl,
    λ e. leb→le tip.height (last_passed cursor passed).height e,
  )

  cursor_window-IsWindow :
      (db : Db) (cursor : BlockHeader) (hi : ℕ)
      → cursor.height ≤ hi
      → let lo = cursor.height + 1 - max (params.pow.window_depth cursor.height) 1 in
        IsWindow db cursor (cursor_window lo (active_between db lo hi) cursor)
  unfolding cursor_window
  cursor_window-IsWindow db cursor hi u =
      let depth = max (params.pow.window_depth cursor.height) 1 in
      let lo = cursor.height + 1 - depth in
      let left = cursor.height + 1 - lo in
      let same : left ≡ min depth (cursor.height + 1) = omega arith in
      let rows = below_cursor (active_between db lo hi) left cursor.height cursor.hash in
      (
        rows,
        subst (λ n. Ancestors db n cursor.height cursor.hash rows) same
            (below_cursor-Ancestors db lo hi left cursor.height cursor.hash (omega arith) u),
        refl,
      )

  -- A step of the re-validation below a tip whose height is a `u32` sets the ceiling to a row that a
  -- run of active stored rows reaches from the cursor, each of which links to the one below it, meets
  -- its target and passes the context rules against the window of its own ancestors, as deep as the
  -- rules ask or as the store has them, whether it advances, completes or stops at a fault; and it
  -- marks the store as complete only if that row is at the tip or above.
  pub advance-Vouched :
      (budget : ℕ) (tip cursor : BlockHeader) (db : Db)
      → cursor.height < tip.height
      → tip.height ≤ u32_max
      → Vouched db tip cursor (advance params budget tip cursor db).0
  unfolding advance
  advance-Vouched budget tip cursor db l u =
      let hi = min tip.height (min (cursor.height + budget) u32_max) in
      concluded-Vouched tip cursor _ _ db (cursor_window-IsWindow db cursor hi (omega arith))
        (recheck-Checked db _ (active_between-Active db _ _) _ _ cursor _ refl)
