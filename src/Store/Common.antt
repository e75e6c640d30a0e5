-- ===== src/Store/Common.antt =====
-- What `find_common_ancestor` finds.
use chaintracks_cloudflare.Prelude.{
  ℕ, zero, suc, Option, none, some, text_eq, text_eq_iff, true, ltb, ◌≡◌, refl, sym, subst, ◌∙◌,
  ◌⊎◌, inl, inr, Bool-cases,
}
use chaintracks_cloudflare.Types.{BlockHeader}
use chaintracks_cloudflare.Store.Table.{Db}
use chaintracks_cloudflare.Store.Ancestry.{
  walk_back, step_back, common_ancestor, find_common_ancestor, max_steps,
}

-- `c` is `a`, or is reached from it by at most so many steps of `walk_back`.
pub data Back (db : Db) : ℕ → BlockHeader → BlockHeader → Type 0 where
  here : (n : ℕ) (a : BlockHeader) → Back db n a a
  back :
      (n : ℕ) (a p c : BlockHeader) → walk_back db a ≡ some p → Back db n p c → Back db (suc n) a c

waits : (db : Db) (n : ℕ) (a c : BlockHeader) → Back db n a c → Back db (suc n) a c
waits db n a c (here _ _) = here (suc n) a
waits db n a c (back m _ p _ e r) = back (suc m) a p c e (waits db m p c r)

-- A header that both sides reach, by its hash.
abbrev pub Met : Db → ℕ → BlockHeader → BlockHeader → BlockHeader → Type 0
Met db n a b c = (d : BlockHeader) × Back db n a c × Back db n b d × (c.hash ≡ d.hash)

some-inj : (a c : BlockHeader) → some a ≡ some c → a ≡ c
some-inj a c e = cc

meets :
    (db : Db) (n : ℕ) (a b c : BlockHeader) → text_eq a.hash b.hash ≡ true → a ≡ c → Met db n a b c
meets db n a b c x e =
    subst (Met db n a b) e (b, here n a, here n b, (text_eq_iff a.hash b.hash).0 x)

both_back :
    (n : ℕ) (db : Db) (a b : Option BlockHeader) (c : BlockHeader)
    → ((x y : BlockHeader) → common_ancestor n db (some x, some y) ≡ some c → Met db n x y c)
    → common_ancestor n db (a, b) ≡ some c
    → (x : BlockHeader) × (y : BlockHeader) × (a ≡ some x) × (b ≡ some y) × Met db n x y c
unfolding common_ancestor
both_back zero db none b c ih h = cc
both_back (suc n) db none b c ih h = cc
both_back zero db (some a) none c ih h = cc
both_back (suc n) db (some a) none c ih h = cc
both_back n db (some a) (some b) c ih h = (a, b, refl, refl, ih a b h)

-- A side of a round stays or steps back.
abbrev Side : Db → BlockHeader → Option BlockHeader → Type 0
Side db a o = (o ≡ some a) ⊎ (o ≡ walk_back db a)

sides :
    (db : Db) (a b : BlockHeader)
    → (o : Option BlockHeader) × (q : Option BlockHeader) × (step_back db a b ≡ (o, q))
      × Side db a o
      × Side db b q
sides db a b = elim (Bool-cases (ltb b.height a.height)) [
  | inl x ↦ (walk_back db a, some b, rw (x) refl, inr refl, inl refl)
  | inr x ↦ elim (Bool-cases (ltb a.height b.height)) [
    | inl y ↦ (some a, walk_back db b, rw (x, y) refl, inl refl, inr refl)
    | inr y ↦ (walk_back db a, walk_back db b, rw (x, y) refl, inr refl, inr refl)
  ]
]

extend :
    (db : Db) (n : ℕ) (a x c : BlockHeader) (o : Option BlockHeader)
    → Side db a o
    → o ≡ some x
    → Back db n x c
    → Back db (suc n) a c
extend db n a x c o (inl e) q r =
    waits db n a c (subst (λ y. Back db n y c) (some-inj x a (sym q ∙ e)) r)
extend db n a x c o (inr e) q r = back n a x c (sym e ∙ q) r

steps :
    (n : ℕ) (db : Db) (a b c : BlockHeader)
    → ((x y : BlockHeader) → common_ancestor n db (some x, some y) ≡ some c → Met db n x y c)
    → common_ancestor n db (step_back db a b) ≡ some c
    → Met db (suc n) a b c
steps n db a b c ih h =
    let (o, q, e, s, t) = sides db a b in
    let (x, y, l, r, m) =
      both_back n db o q c ih (subst (λ u. common_ancestor n db u ≡ some c) e h) in
    let (d, k, j, w) = m in (d, extend db n a x c o s l k, extend db n b y d q t r j, w)

common_ancestor-Met :
    (n : ℕ) (db : Db) (a b c : BlockHeader)
    → common_ancestor n db (some a, some b) ≡ some c
    → Met db n a b c
unfolding common_ancestor
common_ancestor-Met zero db a b c h = elim (Bool-cases (text_eq a.hash b.hash)) [
  | inl x ↦ meets db 0 a b c x (some-inj a c (rw (x) at h))
  | inr x ↦ let k = (rw (x) at h) in cc
]
common_ancestor-Met (suc n) db a b c h = elim (Bool-cases (text_eq a.hash b.hash)) [
  | inl x ↦ meets db (suc n) a b c x (some-inj a c (rw (x) at h))
  | inr x ↦ steps n db a b c (λ x y. common_ancestor-Met n db x y c) (rw (x) at h)
]

-- What `find_common_ancestor` answers is the first header, or is reached from it by at most 400
-- steps of `walk_back`, and so many steps from the second reach a header of the same hash.
pub find_common_ancestor-Met :
    (db : Db) (a b c : BlockHeader) → find_common_ancestor db a b ≡ some c → Met db max_steps a b c
unfolding find_common_ancestor
find_common_ancestor-Met db a b c h = common_ancestor-Met max_steps db a b c h
