-- ===== src/Prelude/Decimal.antt =====
-- `Display` of an unsigned integer, and that it parses back.
use Prim.Native.Nat.{ℕ, zero, suc, ◌+◌, ◌-◌, ◌*◌, ◌/◌, ◌%◌, ◌≤◌, ◌<◌}
use mathlib.Core.Path.{◌≡◌, ◌∙◌}
use mathlib.Core.Bool.{true, false}
use mathlib.Core.Option.{some}
use mathlib.Core.List.{[], ◌∷◌, ◌++◌}
use mathlib.Core.Logic.{◌≢◌, inl, inr}
use native.Mathlib.Omega.{arith}
use chaintracks_cloudflare.Prelude.Tests.{if◌then◌else◌, ltb, ◌==◌, Bool-cases}
use chaintracks_cloudflare.Prelude.Texts.{Text}
use chaintracks_cloudflare.Prelude.Lists.{all, length}
use chaintracks_cloudflare.Prelude.Parse.{is_digit, digits_value, parse_uint, parse_uint-digits}

-- The digits, the last ones first found; a digit goes with each step, so the number is fuel enough.
digits_of : ℕ → ℕ → Text
digits_of zero n = (48 + n % 10) ∷ []
digits_of (suc fuel) n =
    let rest = digits_of fuel (n / 10) in
    if ltb n 10 then (48 + n) ∷ [] else rest ++ (48 + n % 10) ∷ []

unfoldable pub display : ℕ → Text
unfolding digits_of
display n = digits_of n n

-- Digits behind others.
value-append :
    (s : Text) (acc n d : ℕ)
    → d < 10
    → digits_value acc s ≡ some n
    → digits_value acc (s ++ (48 + d) ∷ []) ≡ some (n * 10 + d)
unfolding digits_value
value-append [] acc n d h e = ground arith
value-append (c ∷ s) acc n d h e = elim (Bool-cases (is_digit c)) [
  | inl x ↦
      rw (digits_value, x) (value-append s (acc * 10 + (c - 48)) n d h (rw (digits_value, x) at e))
  | inr x ↦ let k = (rw (digits_value, x) at e) in cc
]

digits_of-value : (fuel n : ℕ) → n ≤ fuel → digits_value 0 (digits_of fuel n) ≡ some n
unfolding digits_of digits_value
digits_of-value zero n h = ground arith
digits_of-value (suc fuel) n h = elim (Bool-cases (ltb n 10)) [
  | inl x ↦ rw (digits_of, x) (ground arith)
  | inr x ↦
      rw (digits_of, x)
        (value-append (digits_of fuel (n / 10)) 0 (n / 10) (n % 10) (omega arith)
            (digits_of-value fuel (n / 10) (omega arith))
          ∙ ground arith)
]

snoc-some : (s : Text) (c : ℕ) → length (s ++ c ∷ []) ≢ 0
snoc-some [] c h = omega arith
snoc-some (d ∷ s) c h = omega arith

digits_of-some : (fuel n : ℕ) → length (digits_of fuel n) ≢ 0
unfolding digits_of
digits_of-some zero n h = omega arith
digits_of-some (suc fuel) n h = elim (Bool-cases (ltb n 10)) [
  | inl x ↦ let k = (rw (digits_of, x) at h) in omega arith
  | inr x ↦ snoc-some (digits_of fuel (n / 10)) (48 + n % 10) (rw (digits_of, x) at h)
]

all-snoc :
    (s : Text) (c : ℕ)
    → all is_digit s ≡ true
    → is_digit c ≡ true
    → all is_digit (s ++ c ∷ []) ≡ true
all-snoc [] c h k = ground arith
all-snoc (d ∷ s) c h k = ground (arith, all-snoc s c)

digits_of-digits : (fuel n : ℕ) → n ≤ fuel → all is_digit (digits_of fuel n) ≡ true
unfolding digits_of
digits_of-digits zero n h = ground arith
digits_of-digits (suc fuel) n h = elim (Bool-cases (ltb n 10)) [
  | inl x ↦ rw (digits_of, x) (ground arith)
  | inr x ↦
      rw (digits_of, x)
        (all-snoc (digits_of fuel (n / 10)) (48 + n % 10)
          (digits_of-digits fuel (n / 10) (omega arith)) (ground arith))
]

pub display-digits : (n : ℕ) → all is_digit (display n) ≡ true
unfolding display
display-digits n = digits_of-digits n n (omega arith)

-- What `display` writes, `parse` reads, within the type's range.
pub parse_uint-display : (limit n : ℕ) → n ≤ limit → parse_uint limit (display n) ≡ some n
unfolding display
parse_uint-display limit n h =
    parse_uint-digits limit (digits_of n n) n (digits_of-digits n n (omega arith))
      (digits_of-value n n (omega arith)) (digits_of-some n n) h

pub display_some : (n : ℕ) → (length (display n) == 0) ≡ false
unfolding display
display_some n = let k = digits_of-some n n in ground arith
