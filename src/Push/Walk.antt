-- ===== src/Push/Walk.antt =====
-- The run that the parent walk ends with.
use chaintracks_cloudflare.Prelude.{
  ℕ, zero, suc, ◌+◌, ◌≤◌, text_eq, zero_hash, true, ◌||◌, List, [], ◌∷◌, length, Result, ok, err,
  ◌≡◌, refl, Lift⊥, subst, inl, inr, Bool-cases, Result-cases, Has, arith,
}
use chaintracks_cloudflare.Types.{BlockHeader}
use chaintracks_cloudflare.Outcomes.{StoreFault}
use chaintracks_cloudflare.Store.Table.{Db}
use chaintracks_cloudflare.Push.{Source, parent_walk_limit, is_stored, walk}

-- A run of headers, the lowest first.
abbrev pub Run : Type 0
Run = BlockHeader × List BlockHeader

-- The header stands on a stored row, or on nothing.
abbrev pub Grounded : Db → BlockHeader → Type 0
Grounded db h = (text_eq h.previous_hash zero_hash || is_stored db h.previous_hash) ≡ true

-- A run grown downwards by what the source answered for the hash that was missing.
pub data Grown (source : Source)
    : BlockHeader → List BlockHeader → BlockHeader → List BlockHeader → Type 0 where
  whole : {f : BlockHeader} {r : List BlockHeader} → Grown source f r f r
  below :
      {f p g : BlockHeader} {r q : List BlockHeader}
      → source f.previous_hash ≡ ok p
      → Grown source p (f ∷ r) g q
      → Grown source f r g q

abbrev pub Walked : Source → Db → ℕ → BlockHeader → List BlockHeader → Run → Type 0
Walked source db left first rest run =
    Grounded db run.0 × (length run.1 ≤ length rest + left) × Grown source first rest run.0 run.1

abbrev pub Answer : Type 0
Answer = Result StoreFault Run

ok-inj : {a b : Run} → ◌≡◌ {A = Answer} (ok a) (ok b) → a ≡ b
ok-inj e = cc

not_err : {f : StoreFault} {a : Run} → ◌≡◌ {A = Answer} (err f) (ok a) → Lift⊥ {0}
not_err e = cc

ended :
    (source : Source) (db : Db) (left : ℕ) (first : BlockHeader) (rest : List BlockHeader)
    (run : Run)
    → Grounded db first
    → ◌≡◌ {A = Answer} (ok (first, rest)) (ok run)
    → Walked source db left first rest run
ended source db left first rest run g e =
    subst (Walked source db left first rest) (ok-inj e) (g, omega arith, whole)

pub walk-Walked :
    (source : Source) (db : Db) (left : ℕ) (first : BlockHeader) (rest : List BlockHeader)
    (run : Run)
    → ◌≡◌ {A = Answer} (walk source db left first rest) (ok run)
    → Walked source db left first rest run
unfolding walk
walk-Walked source db zero first rest run e =
    elim (Bool-cases (text_eq first.previous_hash zero_hash || is_stored db first.previous_hash)) [
      | inl x ↦ ended source db zero first rest run x (rw (x) at e)
      | inr x ↦ elim (not_err {a = run} (rw (x) at e)) [ ]
    ]
walk-Walked source db (suc left) first rest run e =
    elim (Bool-cases (text_eq first.previous_hash zero_hash || is_stored db first.previous_hash)) [
      | inl x ↦ ended source db (suc left) first rest run x (rw (x) at e)
      | inr x ↦ elim (Result-cases (source first.previous_hash)) [
        | inl (p, y) ↦
            let (g, l, w) = walk-Walked source db left p (first ∷ rest) run (rw (x, y) at e) in
            (g, omega arith, below y w)
        | inr (f, y) ↦ elim (not_err {a = run} (rw (x, y) at e)) [ ]
      ]
    ]

-- What a run holds, the run grown from it holds.
pub Grown-Has :
    (source : Source) (h : BlockHeader) {f g : BlockHeader} {r q : List BlockHeader}
    → Grown source f r g q
    → Has h (f ∷ r)
    → Has h (g ∷ q)
Grown-Has source h whole x = x
Grown-Has source h (below e w) x = Grown-Has source h w (inr x)

Grown-longer :
    (source : Source) {f g : BlockHeader} {r q : List BlockHeader}
    → Grown source f r g q
    → length r ≤ length q
Grown-longer source whole = omega arith
Grown-longer source (below e w) = omega (arith, Grown-longer source w)

-- The walk answers where some run is grounded within its fetches.
walk-answers :
    (source : Source) (db : Db) (left : ℕ) (first : BlockHeader) (rest : List BlockHeader)
    (run : Run)
    → Walked source db left first rest run
    → (answer : Run) × ◌≡◌ {A = Answer} (walk source db left first rest) (ok answer)
unfolding walk
walk-answers source db zero first rest run (g, l, whole) = ((first, rest), rw (walk, g) refl)
walk-answers source db (suc left) first rest run (g, l, whole) = ((first, rest), rw (walk, g) refl)
walk-answers source db zero first rest run (g, l, below e w) =
    absurd (omega (arith, Grown-longer source w))
walk-answers source db (suc left) first rest run (g, l, below {p = p} e w) =
    elim (Bool-cases (text_eq first.previous_hash zero_hash || is_stored db first.previous_hash)) [
      | inl x ↦ ((first, rest), rw (walk, x) refl)
      | inr x ↦
          let (a, q) = walk-answers source db left p (first ∷ rest) run (g, omega arith, w) in
          (a, rw (walk, x, e) q)
    ]

-- Where the couriers serve a pushed header's missing ancestors down to one that stands on a stored
-- row or on nothing, and these are at most 36, the walk answers; and what it answers is the header
-- with ancestors that the couriers served below it, at most 36, of which the lowest stands on a
-- stored row or on nothing.
pub walk-ends :
    (source : Source) (db : Db) (header : BlockHeader) (run : Run)
    → Walked source db parent_walk_limit header [] run
    → (answer : Run) × ◌≡◌ {A = Answer} (walk source db parent_walk_limit header []) (ok answer)
      × Walked source db parent_walk_limit header [] answer
walk-ends source db header run w =
    let (a, e) = walk-answers source db parent_walk_limit header [] run w in
    (a, e, walk-Walked source db parent_walk_limit header [] a e)
