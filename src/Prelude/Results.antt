-- ===== src/Prelude/Results.antt =====
-- `Result<A, E>`: an answer or a fault, the `?` operator as a bind, and `map_err`.
use mathlib.Core.Path.{◌≡◌, refl}
use mathlib.Core.Logic.{◌⊎◌, inl, inr}

pub data Result (E A : Type 0) : Type 0 where
  ok : A → Result E A
  err : E → Result E A

module _ {E : Type 0} where
  -- The two forms that a result has.
  pub Result-cases :
      {A : Type 0} (r : Result E A) → ((a : A) × (r ≡ ok a)) ⊎ ((e : E) × (r ≡ err e))
  Result-cases (err fault) = inr (fault, refl)
  Result-cases (ok answer) = inl (answer, refl)

  abbrev pub map_err : {F A : Type 0} → (E → F) → Result E A → Result F A
  map_err to r = elim r [ err fault ↦ err (to fault) | ok answer ↦ ok answer ]

  infixl 5 ◌>>=◌
  abbrev pub ◌>>=◌ : {A B : Type 0} → Result E A → (A → Result E B) → Result E B
  r >>= next = elim r [ err fault ↦ err fault | ok answer ↦ next answer ]

  infixl 5 ◌>>◌
  abbrev pub ◌>>◌ : {B : Type 0} → Result E (Unit {0}) → Result E B → Result E B
  r >> next = elim r [ err fault ↦ err fault | ok done ↦ next ]

  -- What a chain that answers went through.
  pub >>=-eq-ok :
      {A B : Type 0} {answer : B} (r : Result E A) (next : A → Result E B)
      → (r >>= next) ≡ ok answer
      → (a : A) × (r ≡ ok a) × (next a ≡ ok answer)
  >>=-eq-ok (err fault) next h = cc
  >>=-eq-ok (ok a) next h = (a, refl, h)
