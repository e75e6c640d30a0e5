-- ===== src/Prelude/Utf8.antt =====
-- `String::from_utf8_lossy` of the standard library on bytes: each maximal piece that no character
-- continues is one U+FFFD.
use Prim.Native.Nat.{ℕ, zero, suc}
use mathlib.Core.Path.{◌≡◌, refl}
use mathlib.Core.Bool.{Bool, true, ◌&&◌, ◌||◌}
use mathlib.Core.List.{[], ◌∷◌, ◌++◌}
use chaintracks_cloudflare.Prelude.Tests.{if◌then◌else◌, leb, ◌==◌}
use chaintracks_cloudflare.Prelude.Texts.{Text}

-- The bytes of a character begun, how many it still needs, and the range of the next.
record Partial : Type 0 where
  held : Text
  needs : ℕ
  lo : ℕ
  hi : ℕ

abbrev between : ℕ → ℕ → ℕ → Bool
between lo hi c = leb lo c && leb c hi

abbrev fresh : Partial
fresh = record { held = []; needs = 0; lo = 0; hi = 0 }

abbrev begun : ℕ → ℕ → ℕ → ℕ → Partial
begun c needs lo hi = record { held = c ∷ []; needs = needs; lo = lo; hi = hi }

abbrev replacement : Text
replacement = 239 ∷ 191 ∷ 189 ∷ []

-- A byte that begins a character.
lead : ℕ → Text × Partial
lead c =
    if leb c 127
    then (c ∷ [], fresh)
    else if between 194 223 c
    then ([], begun c 1 128 191)
    else if c == 224
    then ([], begun c 2 160 191)
    else if between 225 236 c || between 238 239 c
    then ([], begun c 2 128 191)
    else if c == 237
    then ([], begun c 2 128 159)
    else if c == 240
    then ([], begun c 3 144 191)
    else if between 241 243 c
    then ([], begun c 3 128 191)
    else if c == 244
    then ([], begun c 3 128 143)
    else (replacement, fresh)

continue : Partial → ℕ → Text × Partial
continue s c = elim s.needs [
  | zero ↦ ([], fresh)
  | suc zero ↦ (s.held ++ c ∷ [], fresh)
  | suc (suc n) ↦ ([], record { held = s.held ++ c ∷ []; needs = suc n; lo = 128; hi = 191 })
]

decode_byte : Partial → ℕ → Text × Partial
unfolding lead continue
decode_byte s c =
    if s.needs == 0
    then lead c
    else if between s.lo s.hi c
    then continue s c
    else (let r = lead c in (replacement ++ r.0, r.1))

decode_from : Partial → Text → Text
unfolding decode_byte
decode_from s [] = if s.needs == 0 then [] else replacement
decode_from s (c ∷ cs) = let r = decode_byte s c in r.0 ++ decode_from r.1 cs

unfoldable pub from_utf8_lossy : Text → Text
unfolding decode_from
from_utf8_lossy s = decode_from fresh s

-- An ASCII byte is a character.
pub from_utf8_lossy-cons :
    (c : ℕ) (s : Text) → leb c 127 ≡ true → from_utf8_lossy (c ∷ s) ≡ c ∷ from_utf8_lossy s
unfolding from_utf8_lossy
from_utf8_lossy-cons c s h = rw (from_utf8_lossy, decode_from, decode_byte, lead, h) refl

pub from_utf8_lossy-nil : from_utf8_lossy [] ≡ []
unfolding from_utf8_lossy
from_utf8_lossy-nil = refl
