-- ===== src/Types/Frame.antt =====
-- src/types.rs: the 80-byte frame of a header, `to_bytes` and `from_bytes`.
use mathlib.Core.List.{reverse, reverse-cons, reverse-reverse}
use chaintracks_cloudflare.Prelude.{
  ℕ, ◌<◌, Option, none, some, Option-cases, Text, true, false, [], ◌∷◌, length, length-append, ◌==◌,
  ==_iff, ◌≡◌, refl, sym, ap, ◌∙◌, subst, inl, inr, All, arith,
}
use chaintracks_cloudflare.Bsv.{Bsv, Wire}
use chaintracks_cloudflare.Types.{BlockHeader, internal_order, wire, calculate_work}

-- The frame of `bsv_rs::block::BlockHeader`: `to_binary`, `from_binary`, and the display of a hash
-- by `prev_id` and `merkle_root_hex`.
pub record Frames : Type 0 where
  pub to_binary : Wire → Text
  pub from_binary : Text → Option Wire
  pub display : Text → Text

-- A `Hash32`.
abbrev pub Hash : Text → Type 0
Hash h = (length h ≡ 32) × All (λ c. c < 256) h

-- The documented behaviour: a frame that is read is written back, its hashes are 32 bytes, and a
-- hash is displayed as the hex digits of its bytes in reverse.
pub record FrameLaws ⦃b : Bsv⦄ ⦃f : Frames⦄ : Type 0 where
  pub written : (bytes : Text) (w : Wire) → f.from_binary bytes ≡ some w → f.to_binary w ≡ bytes
  pub hashes :
      (bytes : Text) (w : Wire)
      → f.from_binary bytes ≡ some w
      → Hash w.prev_hash × Hash w.merkle_root
  pub displayed : (h : Text) → Hash h → b.hex_decode (f.display h) ≡ some (reverse h)

unfoldable pub to_bytes : ⦃b : Bsv⦄ → ⦃f : Frames⦄ → BlockHeader → Text
unfolding wire
to_bytes ⦃b⦄ ⦃f⦄ h = f.to_binary (wire h)

abbrev pub header_of : ⦃b : Bsv⦄ → ⦃f : Frames⦄ → Wire → ℕ → BlockHeader
header_of ⦃b⦄ ⦃f⦄ w height = record {
  header_id = none;
  previous_header_id = none;
  version = w.version;
  previous_hash = f.display w.prev_hash;
  merkle_root = f.display w.merkle_root;
  time = w.time;
  bits = w.bits;
  nonce = w.nonce;
  height = height;
  hash = b.wire_id w;
  chain_work = calculate_work w.bits;
  is_active = true;
  is_chain_tip = false;
}

unfoldable pub from_bytes : ⦃b : Bsv⦄ → ⦃f : Frames⦄ → Text → ℕ → Option BlockHeader
from_bytes ⦃b⦄ ⦃f⦄ bytes height = elim (f.from_binary bytes) [
  | none ↦ none
  | some w ↦ some (header_of w height)
]

length-reverse : (xs : Text) → length (reverse xs) ≡ length xs
length-reverse [] = refl
length-reverse (x ∷ xs) =
    ap length (reverse-cons x xs)
    ∙ (length-append (reverse xs) (x ∷ []) ∙ omega (arith, length-reverse xs))

module _ ⦃b : Bsv⦄ ⦃f : Frames⦄ (laws : FrameLaws) where
  internal_order-display : (h : Text) → Hash h → internal_order (f.display h) ≡ h
  unfolding internal_order
  internal_order-display h k =
      let n : (length (reverse h) == 32) ≡ true =
        (==_iff (length (reverse h)) 32).1 (length-reverse h ∙ k.0) in
      rw (internal_order, laws.displayed h k, n) (reverse-reverse h)

  wire-header_of :
      (w : Wire) (height : ℕ)
      → Hash w.prev_hash
      → Hash w.merkle_root
      → wire (header_of w height) ≡ w
  unfolding wire
  wire-header_of w height p m =
      rw (wire, internal_order-display w.prev_hash p, internal_order-display w.merkle_root m) refl

  -- A header that is read from a frame is written as that frame; it stands at the height asked, its
  -- hash is the identifier of what is written, and its work is its own bits' alone.
  pub to_bytes-from_bytes :
      (bytes : Text) (height : ℕ) (h : BlockHeader)
      → from_bytes bytes height ≡ some h
      → (to_bytes h ≡ bytes)
        × (h.height ≡ height)
        × (h.hash ≡ b.wire_id (wire h))
        × (h.chain_work ≡ calculate_work h.bits)
  unfolding from_bytes to_bytes
  to_bytes-from_bytes bytes height h e = elim (Option-cases (f.from_binary bytes)) [
    | inl n ↦ let k = (rw (from_bytes, n) at e) in cc
    | inr (w, r) ↦
        let s : ◌≡◌ {A = Option BlockHeader} (some (header_of w height)) (some h) =
          rw (from_bytes, r) at e in
        let same : header_of w height ≡ h = cc in
        let (p, m) = laws.hashes bytes w r in
        let q = wire-header_of w height p m in
        subst
          (λ k.
            (to_bytes k ≡ bytes)
            × (k.height ≡ height)
            × (k.hash ≡ b.wire_id (wire k))
            × (k.chain_work ≡ calculate_work k.bits))
          same (ap f.to_binary q ∙ laws.written bytes w r, refl, ap b.wire_id (sym q), refl)
  ]
