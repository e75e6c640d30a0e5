-- ===== src/Couriers/Order.antt =====
-- The order in which a ladder asks its rungs.
use native.Mathlib.Nat.{mod-eq_of_lt, add-mod_right}
use chaintracks_cloudflare.Prelude.{
  ℕ, zero, suc, ◌+◌, ◌-◌, ◌%◌, ◌<◌, ◌≡◌, refl, ap, ◌∙◌, Option, none, some, Bool, true, false, not,
  ◌&&◌, ◌||◌, List, [], ◌∷◌, ◌++◌, contains, length, arith, Bool-cases, inl, inr, ◌==◌, sym, subst,
  leb, leb→le, if◌then◌else◌,
}
use chaintracks_cloudflare.Couriers.{Ladder, Rung, askable, rotation, first_choice, push_if, order}

-- No rung twice.
abbrev pub Distinct : List ℕ → Type 0
Distinct [] = Unit
Distinct (x ∷ xs) = (contains xs x ≡ false) × Distinct xs

abbrev pub AllAskable : List Rung → List ℕ → Type 0
AllAskable rungs [] = Unit
AllAskable rungs (x ∷ xs) = (askable rungs x ≡ true) × AllAskable rungs xs

contains-append : (xs : List ℕ) (i j : ℕ) → contains (xs ++ i ∷ []) j ≡ (contains xs j || (i == j))
contains-append [] i j = ground arith
contains-append (x ∷ xs) i j = ground (arith, contains-append xs i j)

Distinct-append :
    (xs : List ℕ) (i : ℕ) → contains xs i ≡ false → Distinct xs → Distinct (xs ++ i ∷ [])
Distinct-append [] i h d = (refl, tt)
Distinct-append (x ∷ xs) i h d =
    (ground (arith, contains-append xs i x), Distinct-append xs i (ground arith) d.1)

AllAskable-append :
    (rungs : List Rung) (xs : List ℕ) (i : ℕ)
    → askable rungs i ≡ true
    → AllAskable rungs xs
    → AllAskable rungs (xs ++ i ∷ [])
AllAskable-append rungs [] i h a = (h, tt)
AllAskable-append rungs (x ∷ xs) i h a = (a.0, AllAskable-append rungs xs i h a.1)

abbrev Sound : List Rung → List ℕ → Type 0
Sound rungs out = Distinct out × AllAskable rungs out

push_if-Sound :
    (rungs : List Rung) (out : List ℕ) (i : ℕ)
    → Sound rungs out
    → Sound rungs (push_if (not (contains out i) && askable rungs i) i out)
unfolding push_if
push_if-Sound rungs out i s = elim (Bool-cases (contains out i)) [
  | inl e ↦ rw e s
  | inr e ↦ elim (Bool-cases (askable rungs i)) [
    | inl a ↦ rw (e, a) (Distinct-append out i e s.0, AllAskable-append rungs out i a s.1)
    | inr a ↦ rw (e, a) s
  ]
]

rotation-Sound :
    (rungs : List Rung) (start k left : ℕ) (out : List ℕ)
    → Sound rungs out
    → Sound rungs (rotation rungs start k left out)
unfolding rotation
rotation-Sound rungs start k zero out s = s
rotation-Sound rungs start k (suc left) out s =
    let i = (start + k) % length rungs in
    rotation-Sound rungs start (k + 1) left
      (push_if (not (contains out i) && askable rungs i) i out) (push_if-Sound rungs out i s)

first_choice-Sound : (rungs : List Rung) (p : Option ℕ) → Sound rungs (first_choice rungs p)
unfolding first_choice push_if
first_choice-Sound rungs none = (tt, tt)
first_choice-Sound rungs (some p) = elim (Bool-cases (askable rungs p)) [
  | inl a ↦ rw a ((refl, tt), (a, tt))
  | inr a ↦ rw a (tt, tt)
]

contains-push_if :
    (c : Bool) (out : List ℕ) (i j : ℕ)
    → contains out j ≡ true
    → contains (push_if c i out) j ≡ true
unfolding push_if
contains-push_if true out i j h = rw (contains-append out i j, h)
contains-push_if false out i j h = h

contains-rotation :
    (rungs : List Rung) (start k left : ℕ) (out : List ℕ) (j : ℕ)
    → contains out j ≡ true
    → contains (rotation rungs start k left out) j ≡ true
unfolding rotation
contains-rotation rungs start k zero out j h = h
contains-rotation rungs start k (suc left) out j h =
    let i = (start + k) % length rungs in
    let c = not (contains out i) && askable rungs i in
    contains-rotation rungs start (k + 1) left (push_if c i out) j (contains-push_if c out i j h)

contains-push_if_self :
    (rungs : List Rung) (out : List ℕ) (i : ℕ)
    → askable rungs i ≡ true
    → contains (push_if (not (contains out i) && askable rungs i) i out) i ≡ true
unfolding push_if
contains-push_if_self rungs out i a = elim (Bool-cases (contains out i)) [
  | inl e ↦ rw (e, push_if) e
  | inr e ↦ rw (e, a) (rw (contains-append out i i) (ground arith))
]

-- Every place of the rotation that is still to be seen, and can be asked, is in the order.
rotation_complete :
    (rungs : List Rung) (start k left : ℕ) (out : List ℕ) (d i : ℕ)
    → d < left
    → (start + (k + d)) % length rungs ≡ i
    → askable rungs i ≡ true
    → contains (rotation rungs start k left out) i ≡ true
unfolding rotation
rotation_complete rungs start k zero out d i h e a = absurd (omega arith)
rotation_complete rungs start k (suc left) out zero i h e a =
    let i' = (start + k) % length rungs in
    let same : k ≡ k + 0 = omega arith in
    let q : i' ≡ i = ap (λ (m : ℕ). (start + m) % length rungs) same ∙ e in
    let out' = push_if (not (contains out i') && askable rungs i') i' out in
    subst (λ (j : ℕ). contains (rotation rungs start (k + 1) left out') j ≡ true) q
      (contains-rotation rungs start (k + 1) left out' i'
        (contains-push_if_self rungs out i' (subst (λ (j : ℕ). askable rungs j ≡ true) (sym q) a)))
rotation_complete rungs start k (suc left) out (suc d) i h e a =
    let i' = (start + k) % length rungs in
    let next : k + 1 + d ≡ k + suc d = omega arith in
    rotation_complete rungs start (k + 1) left
      (push_if (not (contains out i') && askable rungs i') i' out) d i (omega arith)
      (ap (λ (m : ℕ). (start + m) % length rungs) next ∙ e) a

-- How far the rotation turns from the start to reach a rung.
turns : ℕ → ℕ → ℕ → ℕ
turns start n i = if leb start i then i - start else i + n - start

turns_lem :
    (start n i : ℕ)
    → start < n
    → i < n
    → (turns start n i < n) × ((start + (0 + turns start n i)) % n ≡ i)
unfolding turns
turns_lem start n i h k = elim (Bool-cases (leb start i)) [
  | inl e ↦
      let s : start + (0 + (i - start)) ≡ i = omega (arith, leb→le start i e) in
      rw e (omega (arith, leb→le start i e), ap (λ (m : ℕ). m % n) s ∙ mod-eq_of_lt k)
  | inr e ↦
      let below : i < start = ground arith in
      let s : start + (0 + (i + n - start)) ≡ i + n = omega arith in
      rw e (omega arith, ap (λ (m : ℕ). m % n) s ∙ add-mod_right i n ∙ mod-eq_of_lt k)
]

-- A tick's order names no rung twice and none that is skipped, and leaves out no rung that can
-- still be asked.
pub order_lem :
    (l : Ladder)
    → l.start < length l.rungs
    → Distinct (order l)
      × AllAskable l.rungs (order l)
      × ((i : ℕ) → i < length l.rungs → askable l.rungs i ≡ true → contains (order l) i ≡ true)
unfolding order
order_lem l h =
    let out = first_choice l.rungs l.preferred in
    let (d, a) =
      rotation-Sound l.rungs l.start 0 (length l.rungs) out
        (first_choice-Sound l.rungs l.preferred) in
    (
      d,
      a,
      λ i k ask.
          let (near, at) = turns_lem l.start (length l.rungs) i h k in
          rotation_complete l.rungs l.start 0 (length l.rungs) out
            (turns l.start (length l.rungs) i) i near at ask,
    )
