-- ===== src/Rungs/Observed.antt =====
-- What a tick's record does to the table of the couriers' tips.
use chaintracks_cloudflare.Prelude.{
  ℕ, ◌≤◌, ◌≡◌, refl, ◌∙◌, sym, subst, Option, none, some, Text, Bool, true, false, ◌&&◌, List, [],
  ◌∷◌, any, text_eq, text_eq_iff, arith, Bool-cases, inl, inr,
}
use chaintracks_cloudflare.Rungs.{
  Definition, Observation, TipRow, delete_unlisted, upsert, fresher, observe, observe_row,
  record_rung, record_rungs, record_tips,
}

-- The tip that the table holds for a name.
abbrev pub tip_at : Text → List TipRow → Option Observation
tip_at name [] = none
tip_at name (r ∷ rows) = elim (text_eq r.name name) [ true ↦ r.tip | false ↦ tip_at name rows ]

-- The table holds for the name an observation no older than `at`.
abbrev pub HeldSince : Text → ℕ → List TipRow → Type 0
HeldSince name at rows = (o : Observation) × (tip_at name rows ≡ some o) × (at ≤ o.observed_at)

abbrev pub listed : Text → List (Definition × Option Observation) → Bool
listed name rungs = any (λ d. text_eq d.0.name name) rungs

tip_at-delete :
    (rungs : List (Definition × Option Observation)) (name : Text) (rows : List TipRow)
    → listed name rungs ≡ true
    → tip_at name (delete_unlisted rungs rows) ≡ tip_at name rows
unfolding delete_unlisted
tip_at-delete rungs name [] h = refl
tip_at-delete rungs name (r ∷ rows) h = elim (Bool-cases (text_eq r.name name)) [
  | inl e ↦
      let k = subst (λ (n : Text). listed n rungs ≡ true) (sym ((text_eq_iff r.name name).0 e)) h in
      rw (k, e, tip_at) refl
  | inr e ↦ elim (Bool-cases (listed r.name rungs)) [
    | inl k ↦ ground (arith, tip_at-delete rungs name rows)
    | inr k ↦ ground (arith, tip_at-delete rungs name rows)
  ]
]

tip_at-upsert :
    (d : Definition) (name : Text) (rows : List TipRow)
    → tip_at name (upsert d rows) ≡ tip_at name rows
unfolding upsert
tip_at-upsert d name [] = ground arith
tip_at-upsert d name (r ∷ rows) = ground (arith, tip_at-upsert d name rows)

name-observe_row : (n : Text) (o : Observation) (r : TipRow) → (observe_row n o r).name ≡ r.name
unfolding observe_row
name-observe_row n o r = ground arith

-- A row's observation is replaced by none that is older.
tip-observe_row :
    (n : Text) (o : Observation) (r : TipRow) (x : Observation)
    → r.tip ≡ some x
    → (y : Observation) × ((observe_row n o r).tip ≡ some y) × (x.observed_at ≤ y.observed_at)
unfolding observe_row
tip-observe_row n o r x e = elim (Bool-cases (text_eq r.name n && fresher o r.tip)) [
  | inl t ↦ (o, ground arith, ground arith)
  | inr t ↦ (x, ground arith, omega arith)
]

observe-HeldSince :
    (n : Text) (o : Observation) (name : Text) (at : ℕ) (rows : List TipRow)
    → HeldSince name at rows
    → HeldSince name at (observe n o rows)
unfolding observe
observe-HeldSince n o name at [] held = held
observe-HeldSince n o name at (r ∷ rows) (x, e, k) = elim (Bool-cases (text_eq r.name name)) [
  | inl hit ↦
      let (y, e', k') = tip-observe_row n o r x (ground arith) in
      (y, ground (arith, name-observe_row n o r), omega arith)
  | inr miss ↦
      let (y, e', k') = observe-HeldSince n o name at rows (x, ground arith, k) in
      (y, ground (arith, name-observe_row n o r), k')
]

record_rungs-HeldSince :
    (rungs : List (Definition × Option Observation)) (name : Text) (at : ℕ) (rows : List TipRow)
    → HeldSince name at rows
    → HeldSince name at (record_rungs rungs rows)
unfolding record_rungs record_rung
record_rungs-HeldSince [] name at rows held = held
record_rungs-HeldSince ((d, none) ∷ rungs) name at rows (x, e, k) =
    record_rungs-HeldSince rungs name at (upsert d rows) (x, tip_at-upsert d name rows ∙ e, k)
record_rungs-HeldSince ((d, some o) ∷ rungs) name at rows (x, e, k) =
    record_rungs-HeldSince rungs name at (observe d.name o (upsert d rows))
      (observe-HeldSince d.name o name at (upsert d rows) (x, tip_at-upsert d name rows ∙ e, k))

-- A tick never replaces a listed courier's observation by an older one, and never drops it: not
-- for a late answer, and not for a courier that failed.
pub record_tips-HeldSince :
    (rungs : List (Definition × Option Observation)) (rows : List TipRow) (name : Text)
    (old : Observation)
    → listed name rungs ≡ true
    → tip_at name rows ≡ some old
    → HeldSince name old.observed_at (record_tips rungs rows)
unfolding record_tips
record_tips-HeldSince rungs rows name old h e =
    record_rungs-HeldSince rungs name old.observed_at (delete_unlisted rungs rows)
      (old, tip_at-delete rungs name rows h ∙ e, omega arith)
