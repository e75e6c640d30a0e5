-- ===== src/Prelude/Parse.antt =====
-- The text functions of the standard library that the service parses its variables with, over
-- ASCII bytes: `split`, `trim`, `split_once`, and the unsigned `parse`.
use Prim.Native.Nat.{ℕ, ◌+◌, ◌-◌, ◌*◌, ◌≤◌}
use mathlib.Core.Path.{◌≡◌, refl}
use mathlib.Core.Bool.{Bool, true, false, ◌&&◌, ◌||◌}
use mathlib.Core.Option.{Option, none, some}
use mathlib.Core.List.{List, [], ◌∷◌, reverse}
use mathlib.Core.Logic.{◌≢◌}
use native.Mathlib.Omega.{arith}
use chaintracks_cloudflare.Prelude.Tests.{if◌then◌else◌, leb, ◌==◌}
use chaintracks_cloudflare.Prelude.Texts.{Text}
use chaintracks_cloudflare.Prelude.Lists.{all, length}

abbrev pub is_space : ℕ → Bool
is_space c = c == 32 || (leb 9 c && leb c 13)

trim_start : Text → Text
trim_start [] = []
trim_start (c ∷ cs) = if is_space c then trim_start cs else c ∷ cs

unfoldable pub trim : Text → Text
unfolding trim_start
trim s = reverse (trim_start (reverse (trim_start s)))

-- `split`: at least one piece.
split_go : ℕ → Text → Text → List Text
split_go sep acc [] = reverse acc ∷ []
split_go sep acc (c ∷ cs) = elim (c == sep) [
  | true ↦ reverse acc ∷ split_go sep [] cs
  | false ↦ split_go sep (c ∷ acc) cs
]

unfoldable pub split : ℕ → Text → List Text
unfolding split_go
split sep s = split_go sep [] s

split_once_go : ℕ → Text → Text → Option (Text × Text)
split_once_go sep acc [] = none
split_once_go sep acc (c ∷ cs) = elim (c == sep) [
  | true ↦ some (reverse acc, cs)
  | false ↦ split_once_go sep (c ∷ acc) cs
]

unfoldable pub split_once : ℕ → Text → Option (Text × Text)
unfolding split_once_go
split_once sep s = split_once_go sep [] s

abbrev pub is_digit : ℕ → Bool
is_digit c = leb b'0' c && leb c b'9'

unfoldable pub digits_value : ℕ → Text → Option ℕ
digits_value acc [] = some acc
digits_value acc (c ∷ cs) = elim (is_digit c) [
  | true ↦ digits_value (acc * 10 + (c - b'0')) cs
  | false ↦ none
]

at_most : ℕ → Option ℕ → Option ℕ
at_most limit none = none
at_most limit (some n) = if leb n limit then some n else none

unsigned : Text → Option ℕ
unfolding digits_value
unsigned [] = none
unsigned (c ∷ cs) = digits_value 0 (c ∷ cs)

-- `str::parse` of an unsigned integer with the largest value `limit`: a leading `+` is allowed.
unfoldable pub parse_uint : ℕ → Text → Option ℕ
unfolding at_most unsigned
parse_uint limit [] = none
parse_uint limit (c ∷ cs) = at_most limit (if c == b'+' then unsigned cs else unsigned (c ∷ cs))

pub parse_uint-le : (limit : ℕ) (s : Text) (n : ℕ) → parse_uint limit s ≡ some n → n ≤ limit
unfolding parse_uint
parse_uint-le limit [] n h = ground arith
parse_uint-le limit (c ∷ cs) n h =
    at_most-le (if c == b'+' then unsigned cs else unsigned (c ∷ cs)) h
  where
    at_most-le : (o : Option ℕ) → at_most limit o ≡ some n → n ≤ limit
    at_most-le none e = ground arith
    at_most-le (some m) e = ground arith

-- `is_ascii_hexdigit`.
abbrev pub is_hex_digit : ℕ → Bool
is_hex_digit c = is_digit c || (leb b'a' c && leb c b'f' || leb b'A' c && leb c b'F')

-- Digits alone are read as their value.
pub parse_uint-digits :
    (limit : ℕ) (s : Text) (n : ℕ)
    → all is_digit s ≡ true
    → digits_value 0 s ≡ some n
    → length s ≢ 0
    → n ≤ limit
    → parse_uint limit s ≡ some n
unfolding parse_uint
parse_uint-digits limit [] n a e h l = absurd (h refl)
parse_uint-digits limit (c ∷ cs) n a e h l =
    let plus : (c == b'+') ≡ false = ground arith in
    rw (parse_uint, plus, unsigned, e) (ground arith)

-- `starts_with`, and `contains` of a text.
abbrev pub starts_with : Text → Text → Bool
starts_with [] s = true
starts_with (c ∷ cs) [] = false
starts_with (c ∷ cs) (d ∷ s) = c == d && starts_with cs s

abbrev pub has_text : Text → Text → Bool
has_text t [] = starts_with t []
has_text t (d ∷ s) = starts_with t (d ∷ s) || has_text t s
