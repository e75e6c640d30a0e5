-- ===== src/Examples/Frames.antt =====
-- A header read from a frame, at a stand-in for the frames of `bsv-rs`: four numbers and the bytes
-- of two hashes, which are displayed as their bytes in reverse.
use mathlib.Core.List.{reverse}
use chaintracks_cloudflare.Prelude.{
  ℕ, zero, suc, ◌+◌, ◌<◌, Option, none, some, Text, Bool, true, if◌then◌else◌, [], ◌∷◌, ◌++◌,
  length, take, drop, replicate, all, ltb, ltb→lt, ◌==◌, ==_iff, ◌&&◌, &&-both, Bool-cases, ◌≡◌,
  refl, sym, ap, ◌∙◌, subst, inl, inr, All, arith,
}
use chaintracks_cloudflare.Bsv.{Bsv, Wire}
use chaintracks_cloudflare.Types.{BlockHeader, wire, calculate_work}
use chaintracks_cloudflare.Types.Frame.{
  Frames, Hash, FrameLaws, to_bytes, header_of, from_bytes, to_bytes-from_bytes,
}
use chaintracks_cloudflare.Examples.Toy.{toy}

abbrev hexed : Bsv
hexed = record toy { hex_decode = λ t. some t }

abbrev is_byte : ℕ → Bool
is_byte c = ltb c 256

take-drop : (n : ℕ) (xs : Text) → take n xs ++ drop n xs ≡ xs
take-drop zero xs = refl
take-drop (suc n) [] = refl
take-drop (suc n) (x ∷ xs) = ap (λ ys. x ∷ ys) (take-drop n xs)

take-Hash :
    (n k : ℕ) (xs : Text)
    → length xs ≡ n + k
    → all is_byte xs ≡ true
    → (length (take n xs) ≡ n) × All (λ c. c < 256) (take n xs)
take-Hash zero k xs e a = (refl, tt)
take-Hash (suc n) k [] e a = absurd (omega arith)
take-Hash (suc n) k (x ∷ xs) e a =
    let (p, q) = &&-both (is_byte x) (all is_byte xs) a in
    let (l, r) = take-Hash n k xs (omega arith) q in (omega arith, (ltb→lt x 256 p, r))

All-bytes : (xs : Text) → all is_byte xs ≡ true → All (λ c. c < 256) xs
All-bytes [] a = tt
All-bytes (x ∷ xs) a =
    let (p, q) = &&-both (is_byte x) (all is_byte xs) a in (ltb→lt x 256 p, All-bytes xs q)

drop-Hash :
    (n k : ℕ) (xs : Text)
    → length xs ≡ n + k
    → all is_byte xs ≡ true
    → (length (drop n xs) ≡ k) × All (λ c. c < 256) (drop n xs)
drop-Hash zero k xs e a = (omega arith, All-bytes xs a)
drop-Hash (suc n) k [] e a = absurd (omega arith)
drop-Hash (suc n) k (x ∷ xs) e a =
    drop-Hash n k xs (omega arith) (&&-both (is_byte x) (all is_byte xs) a).1

abbrev is_hashes : Text → Bool
is_hashes rest = (length rest == 64) && all is_byte rest

abbrev wire_of : ℕ → ℕ → ℕ → ℕ → Text → Wire
wire_of v t b n rest = record {
  version = v;
  prev_hash = take 32 rest;
  merkle_root = drop 32 rest;
  time = t;
  bits = b;
  nonce = n;
}

abbrev read : Text → Option Wire
read [] = none
read (v ∷ []) = none
read (v ∷ t ∷ []) = none
read (v ∷ t ∷ b ∷ []) = none
read (v ∷ t ∷ b ∷ n ∷ rest) = if is_hashes rest then some (wire_of v t b n rest) else none

abbrev frames : Frames
frames = record {
  to_binary = λ w. w.version ∷ w.time ∷ w.bits ∷ w.nonce ∷ w.prev_hash ++ w.merkle_root;
  from_binary = read;
  display = reverse;
}

-- What a frame that is read looks like.
read-wire :
    (bytes : Text) (w : Wire)
    → read bytes ≡ some w
    → (v : ℕ) × (t : ℕ) × (b : ℕ) × (n : ℕ) × (rest : Text) × (bytes ≡ (v ∷ t ∷ b ∷ n ∷ rest))
      × (is_hashes rest ≡ true)
      × (wire_of v t b n rest ≡ w)
read-wire [] w e = cc
read-wire (v ∷ []) w e = cc
read-wire (v ∷ t ∷ []) w e = cc
read-wire (v ∷ t ∷ b ∷ []) w e = cc
read-wire (v ∷ t ∷ b ∷ n ∷ rest) w e = elim (Bool-cases (is_hashes rest)) [
  | inl x ↦
      let k : ◌≡◌ {A = Option Wire} (some (wire_of v t b n rest)) (some w) = rw (x) at e in
      (v, t, b, n, rest, refl, x, cc)
  | inr x ↦ let k : ◌≡◌ {A = Option Wire} none (some w) = rw (x) at e in cc
]

frame_laws : FrameLaws ⦃b = hexed⦄ ⦃f = frames⦄
frame_laws = record {
  written = λ bytes w e.
      let (v, t, b, n, rest, eq, x, same) = read-wire bytes w e in
      ap frames.to_binary (sym same) ∙ (ap (λ r. v ∷ t ∷ b ∷ n ∷ r) (take-drop 32 rest) ∙ sym eq);
  hashes = λ bytes w e.
      let (v, t, b, n, rest, eq, x, same) = read-wire bytes w e in
      let (l, a) = &&-both (length rest == 64) (all is_byte rest) x in
      let m = (==_iff (length rest) 64).0 l in
      subst (λ (u : Wire). Hash u.prev_hash × Hash u.merkle_root) same
        (take-Hash 32 32 rest m a, drop-Hash 32 32 rest m a);
  displayed = λ h k. refl;
}

abbrev frame : Text
frame = 1 ∷ 1700000000 ∷ 5 ∷ 9 ∷ replicate 32 7 ++ replicate 32 8

abbrev from_frame : BlockHeader
from_frame =
    header_of ⦃b = hexed⦄ ⦃f = frames⦄ (wire_of 1 1700000000 5 9 (replicate 32 7 ++ replicate 32 8))
      3

frame_read : from_bytes ⦃b = hexed⦄ ⦃f = frames⦄ frame 3 ≡ some from_frame
unfolding from_bytes
frame_read = refl

to_bytes-from_bytes_example :
    (to_bytes ⦃b = hexed⦄ ⦃f = frames⦄ from_frame ≡ frame)
    × (from_frame.height ≡ 3)
    × (from_frame.hash ≡ hexed.wire_id (wire ⦃b = hexed⦄ from_frame))
    × (from_frame.chain_work ≡ calculate_work ⦃b = hexed⦄ from_frame.bits)
to_bytes-from_bytes_example =
    to_bytes-from_bytes ⦃b = hexed⦄ ⦃f = frames⦄ frame_laws frame 3 from_frame frame_read
