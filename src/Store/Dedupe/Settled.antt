-- ===== src/Store/Dedupe/Settled.antt =====
-- A sweep leaves one active row where there were some.
use chaintracks_cloudflare.Prelude.{
  ℕ, zero, suc, ◌≤◌, min, none, some, Bool, true, false, ◌&&◌, ◌||◌, List, [], ◌∷◌, length, any,
  contains, take, ltb, ltb→lt, ◌==◌, ==_iff, if◌then◌else◌, &&-both, ◌≡◌, refl, sym, ap, ◌∙◌, subst,
  inl, inr, Bool-cases, Option-cases, arith,
}
use chaintracks_cloudflare.Types.{BlockHeader}
use chaintracks_cloudflare.Store.Table.{Db, row_id, update_rows}
use chaintracks_cloudflare.Store.Rows.{when, update_rows-map}
use chaintracks_cloudflare.Store.Dedupe.{
  active_at, count_at, put_height, dual_heights, dual_active_heights, max_id, is_named, kept_id,
  is_extra, dedupe_height, sweep, dedupe_active_heights,
}
use chaintracks_cloudflare.Store.Dedupe.Counts.{
  DistinctIds, ids, Is, off, max_id-any, max_id-none, one_Is, count-map, extra-count, other-count,
}

ids-update_rows :
    (p : BlockHeader → Bool) (rows : List BlockHeader) → ids (update_rows p off rows) ≡ ids rows
unfolding update_rows
ids-update_rows p [] = refl
ids-update_rows p (r ∷ rs) = elim (Bool-cases (p r)) [
  | inl e ↦ rw (update_rows, e) (ap (λ t. row_id r ∷ t) (ids-update_rows p rs))
  | inr e ↦ rw (update_rows, e) (ap (λ t. row_id r ∷ t) (ids-update_rows p rs))
]

any-count :
    (height i : ℕ) (rows : List BlockHeader)
    → any (Is height i) rows ≡ true
    → 1 ≤ count_at height rows
any-count height i [] h = cc
any-count height i (r ∷ rs) h = elim (Bool-cases (active_at height r)) [
  | inl e ↦ rw (e) (omega arith)
  | inr e ↦ rw (e) (any-count height i rs (rw (e) at h))
]

-- The row that a height keeps is one of its active rows, if it has any.
kept_id-some :
    (height i : ℕ) (rows : List BlockHeader)
    → kept_id height rows ≡ some i
    → any (Is height i) rows ≡ true
unfolding kept_id
kept_id-some height i rows h =
    let named : BlockHeader → Bool = (λ e. active_at height e && is_named height rows e) in
    elim (Option-cases (max_id named rows)) [
      | inr (j, q) ↦
          max_id-any height named rows i
            (λ r x. (&&-both (active_at height r) (is_named height rows r) x).0)
            (q ∙ (rw (kept_id, q) at h))
      | inl q ↦ max_id-any height (active_at height) rows i (λ r x. x) (rw (kept_id, q) at h)
    ]

kept_id-none :
    (height : ℕ) (rows : List BlockHeader) → kept_id height rows ≡ none → count_at height rows ≡ 0
unfolding kept_id
kept_id-none height rows h =
    let named : BlockHeader → Bool = (λ e. active_at height e && is_named height rows e) in
    elim (Option-cases (max_id named rows)) [
      | inr (j, q) ↦ let k = (rw (kept_id, q) at h) in cc
      | inl q ↦ max_id-none (active_at height) rows (rw (kept_id, q) at h)
    ]

dedupe_height-own :
    (height : ℕ) (rows : List BlockHeader)
    → DistinctIds (ids rows)
    → count_at height (dedupe_height height rows) ≡ min 1 (count_at height rows)
unfolding dedupe_height
dedupe_height-own height rows d = elim (Option-cases (kept_id height rows)) [
  | inl q ↦
      let zero_at = kept_id-none height rows q in
      rw (dedupe_height, q)
        (ap (count_at height) (update_rows-map (is_extra height none) off rows)
          ∙ count-map (active_at height) (active_at height) (when (is_extra height none) off)
              (λ r. refl) rows
          ∙ zero_at
          ∙ ap (min 1) (sym zero_at))
  | inr (i, q) ↦
      let found = kept_id-some height i rows q in
      let more = any-count height i rows found in
      rw (dedupe_height, q) (extra-count height i rows ∙ one_Is height i rows d found ∙ omega arith)
]

ids-dedupe_height :
    (height : ℕ) (rows : List BlockHeader) → ids (dedupe_height height rows) ≡ ids rows
unfolding dedupe_height
ids-dedupe_height height rows = ids-update_rows (is_extra height (kept_id height rows)) rows

if-min : (b : Bool) (n : ℕ) → (if b then min 1 (min 1 n) else min 1 n) ≡ min 1 n
if-min true n = omega arith
if-min false n = refl

sweep-count :
    (k : ℕ) (hs : List ℕ) (rows : List BlockHeader)
    → DistinctIds (ids rows)
    → count_at k (sweep hs rows).0
      ≡ (if contains hs k then min 1 (count_at k rows) else count_at k rows)
unfolding sweep
sweep-count k [] rows d = refl
sweep-count k (h ∷ hs) rows d =
    let next = dedupe_height h rows in
    let ih = sweep-count k hs next (subst DistinctIds (sym (ids-dedupe_height h rows)) d) in
    elim (Bool-cases (h == k)) [
      | inl e ↦
          let own : count_at k next ≡ min 1 (count_at k rows) =
            subst (λ x. count_at x (dedupe_height h rows) ≡ min 1 (count_at x rows))
              ((==_iff h k).0 e) (dedupe_height-own h rows d) in
          ih ∙ rw (own, e) (if-min (contains hs k) (count_at k rows))
      | inr e ↦ ih ∙ rw (other-count h k (kept_id h rows) rows e, e) refl
    ]

contains-put_height :
    (h k : ℕ) (xs : List ℕ) → contains (put_height h xs) k ≡ ((h == k) || contains xs k)
unfolding put_height
contains-put_height h k [] = refl
contains-put_height h k (x ∷ xs) = elim (Bool-cases (x == h)) [
  | inl e ↦
      let same = (==_iff x h).0 e in rw (put_height, e, same) (or_twice (h == k) (contains xs k))
  | inr e ↦ elim (Bool-cases (ltb x h)) [
    | inl f ↦ rw (put_height, e, f) refl
    | inr f ↦
        rw (put_height, e, f, contains-put_height h k xs)
          (or_swap (x == k) (h == k) (contains xs k))
  ]
]
  where
    or_twice : (a b : Bool) → (a || b) ≡ (a || (a || b))
    or_twice a b = ground arith

    or_swap : (a b c : Bool) → (a || (b || c)) ≡ (b || (a || c))
    or_swap a b c = ground arith

-- A height with more than one active row is listed.
dual_heights-contains :
    (k : ℕ) (table rows : List BlockHeader)
    → ltb 1 (count_at k table) ≡ true
    → 1 ≤ count_at k rows
    → contains (dual_heights table rows) k ≡ true
unfolding dual_heights
dual_heights-contains k table [] h c = absurd (omega arith)
dual_heights-contains k table (r ∷ rs) h c = elim (Bool-cases (active_at k r)) [
  | inl e ↦
      let (same, on) = &&-both (r.height == k) r.is_active e in
      let listed : ltb 1 (count_at r.height table) ≡ true =
        subst (λ x. ltb 1 (count_at x table) ≡ true) (sym ((==_iff r.height k).0 same)) h in
      rw (dual_heights, on, listed, contains-put_height r.height k, same) refl
  | inr e ↦
      let ih = dual_heights-contains k table rs h (rw (e) at c) in
      elim (Bool-cases (r.is_active && ltb 1 (count_at r.height table))) [
        | inl f ↦ rw (dual_heights, f, contains-put_height r.height k, ih) (or_true (r.height == k))
        | inr f ↦ rw (dual_heights, f) ih
      ]
]
  where
    or_true : (b : Bool) → (b || true) ≡ true
    or_true b = ground arith

take-all : (n : ℕ) (l : List ℕ) → length (take (suc n) l) ≤ n → take n (take (suc n) l) ≡ l
take-all zero [] h = refl
take-all (suc n) [] h = refl
take-all zero (x ∷ l) h = absurd (omega arith)
take-all (suc n) (x ∷ l) h = ap (λ t. x ∷ t) (take-all n l (omega arith))

if-few : (b : Bool) (n : ℕ) → ltb 1 n ≡ false → (if b then min 1 n else n) ≡ min 1 n
if-few true n h = refl
if-few false n h = ground arith

-- Where row ids are distinct and at most 1000 heights have more than one active row, a sweep
-- leaves exactly one active row at every height that had any, and none where there was none.
pub dedupe_active_heights-settles :
    (db : Db) (height : ℕ)
    → DistinctIds (ids db.headers)
    → length (dual_active_heights 1001 db.headers) ≤ 1000
    → count_at height (dedupe_active_heights db).0.headers ≡ min 1 (count_at height db.headers)
unfolding dedupe_active_heights dual_active_heights
dedupe_active_heights-settles db height d l =
    let hs = dual_heights db.headers db.headers in
    let whole : take 1000 (take 1001 hs) ≡ hs = take-all 1000 hs l in
    sweep-count height (take 1000 (take 1001 hs)) db.headers d
    ∙ ap
        (λ t.
          if contains t height
          then min 1 (count_at height db.headers)
          else count_at height db.headers)
        whole
    ∙ elim (Bool-cases (ltb 1 (count_at height db.headers))) [
      | inl e ↦
          rw (dual_heights-contains height db.headers db.headers e (omega (arith, ltb→lt 1 _ e)))
            refl
      | inr e ↦ if-few (contains hs height) (count_at height db.headers) e
    ]
