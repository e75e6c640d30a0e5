-- ===== src/Edge/Purge.antt =====
-- What a purge names: the tags of its heights, in requests of at most a hundred.
use mathlib.Core.List.{map, flatten}
use chaintracks_cloudflare.Prelude.{
  ℕ, zero, suc, ◌/◌, ◌≤◌, ◌≡◌, refl, ap, ◌∙◌, List, [], ◌∷◌, ◌++◌, All, take, drop, length,
  length-take-le, ◌==◌, leb, ◌⊎◌, inl, inr, Bool-cases, arith, sym, Has, Has-map, Has-append_left,
  Has-append_right, ==_iff,
}
use chaintracks_cloudflare.Edge.{
  Tag, of_height, of_thousand, sort, insert_sorted, dedup, dedup_after, purge_tags, purge_bodies,
  chunks_fuel,
}

Has-insert_sorted : (a h : ℕ) (r : List ℕ) → (a ≡ h) ⊎ Has a r → Has a (insert_sorted h r)
unfolding insert_sorted
Has-insert_sorted a h [] m = m
Has-insert_sorted a h (k ∷ r) m = elim (Bool-cases (leb h k)) [
  | inl e ↦ rw e m
  | inr e ↦ rw e (elim m [
    | inl p ↦ inr (Has-insert_sorted a h r (inl p))
    | inr q ↦ elim q [ inl p ↦ inl p | inr t ↦ inr (Has-insert_sorted a h r (inr t)) ]
  ])
]

Has-sort : (a : ℕ) (l : List ℕ) → Has a l → Has a (sort l)
unfolding sort
Has-sort a [] m = m
Has-sort a (h ∷ r) (inl e) = Has-insert_sorted a h (sort r) (inl e)
Has-sort a (h ∷ r) (inr m) = Has-insert_sorted a h (sort r) (inr (Has-sort a r m))

Has-dedup_after : (a last : ℕ) (l : List ℕ) → Has a l → (a ≡ last) ⊎ Has a (dedup_after last l)
unfolding dedup_after
Has-dedup_after a last [] m = elim m [ ]
Has-dedup_after a last (k ∷ r) (inl e) = elim (Bool-cases (last == k)) [
  | inl p ↦ inl (e ∙ sym ((==_iff last k).0 p))
  | inr p ↦ rw p (inr (inl e))
]
Has-dedup_after a last (k ∷ r) (inr m) = elim (Bool-cases (last == k)) [
  | inl p ↦ rw p (Has-dedup_after a last r m)
  | inr p ↦ rw p (elim (Has-dedup_after a k r m) [ inl e ↦ inr (inl e) | inr t ↦ inr (inr t) ])
]

Has-dedup : (a : ℕ) (l : List ℕ) → Has a l → Has a (dedup l)
unfolding dedup
Has-dedup a [] m = m
Has-dedup a (k ∷ r) (inl e) = inl e
Has-dedup a (k ∷ r) (inr m) = Has-dedup_after a k r m

-- A purge names, for each of its heights, the height's own tag and its thousand's.
pub purge_tags-Has :
    (h : ℕ) (heights : List ℕ)
    → Has h heights
    → Has (of_height h) (purge_tags heights) × Has (of_thousand (h / 1000)) (purge_tags heights)
unfolding purge_tags
purge_tags-Has h heights m =
    let sorted = dedup (sort heights) in
    let s : Has h sorted = Has-dedup h (sort heights) (Has-sort h heights m) in
    let buckets = dedup (map (λ (k : ℕ). k / 1000) sorted) in
    let b : Has (h / 1000) buckets =
      Has-dedup (h / 1000) _ (Has-map (λ (k : ℕ). k / 1000) h sorted s) in
    (
      Has-append_left (of_height h) (map of_height sorted) (map of_thousand buckets)
          (Has-map of_height h sorted s),
      Has-append_right (of_thousand (h / 1000)) (map of_height sorted) (map of_thousand buckets)
          (Has-map of_thousand (h / 1000) buckets b),
    )

take-drop : (n : ℕ) (ts : List Tag) → take n ts ++ drop n ts ≡ ts
take-drop zero ts = refl
take-drop (suc n) [] = refl
take-drop (suc n) (t ∷ ts) = ap (◌∷◌ t) (take-drop n ts)

length-drop-le : (n : ℕ) (ts : List Tag) → length (drop n ts) ≤ length ts
length-drop-le zero ts = omega arith
length-drop-le (suc n) [] = omega arith
length-drop-le (suc n) (t ∷ ts) = omega (arith, length-drop-le n ts)

chunks_fuel_lem :
    (f : ℕ) (tags : List Tag)
    → length tags ≤ f
    → (flatten (chunks_fuel f tags) ≡ tags) × All (λ c. length c ≤ 100) (chunks_fuel f tags)
unfolding chunks_fuel flatten
chunks_fuel_lem zero [] h = (refl, tt)
chunks_fuel_lem zero (t ∷ ts) h = absurd (omega arith)
chunks_fuel_lem (suc f) [] h = (refl, tt)
chunks_fuel_lem (suc f) (t ∷ ts) h =
    let (whole, small) =
      chunks_fuel_lem f (drop 100 (t ∷ ts)) (omega (arith, length-drop-le 99 ts)) in
    (
      ap (◌++◌ (take 100 (t ∷ ts))) whole ∙ take-drop 100 (t ∷ ts),
      (length-take-le 100 (t ∷ ts), small),
    )

-- The purge requests carry every tag once, in order, and none carries more than a hundred.
pub flatten-purge_bodies :
    (tags : List Tag)
    → (flatten (purge_bodies tags) ≡ tags) × All (λ c. length c ≤ 100) (purge_bodies tags)
unfolding purge_bodies
flatten-purge_bodies tags = chunks_fuel_lem (length tags) tags (omega arith)
