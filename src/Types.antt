-- ===== src/Types.antt =====
-- src/types.rs: the stored header and the chain work the store keeps as hex.
pub mod Frame
use chaintracks_cloudflare.Prelude.{
  ℕ, Option, none, some, Text, Bool, false, replicate, if◌then◌else◌, length, ◌==◌, ltb,
}
use mathlib.Core.List.{reverse}
use chaintracks_cloudflare.Bsv.{Bsv, Wire}

pub data Chain : Type 0 where
  main test : Chain

pub record BlockHeader : Type 0 where
  pub header_id : Option ℕ
  pub previous_header_id : Option ℕ
  pub version : ℕ
  pub previous_hash : Text
  pub merkle_root : Text
  pub time : ℕ
  pub bits : ℕ
  pub nonce : ℕ
  pub height : ℕ
  pub hash : Text
  pub chain_work : Text
  pub is_active : Bool
  pub is_chain_tip : Bool

-- A display-order hash as the frame carries it; zeros when it does not decode to 32 bytes.
internal_order : ⦃b : Bsv⦄ → Text → Text
internal_order ⦃b⦄ display = elim (b.hex_decode display) [
  | none ↦ replicate 32 0
  | some bytes ↦ if length bytes == 32 then reverse bytes else replicate 32 0
]

-- The version's bits are kept as they are, `u32` or `i32`.
unfoldable pub wire : ⦃b : Bsv⦄ → BlockHeader → Wire
unfolding internal_order
wire h = record {
  version = h.version;
  prev_hash = internal_order h.previous_hash;
  merkle_root = internal_order h.merkle_root;
  time = h.time;
  bits = h.bits;
  nonce = h.nonce;
}

-- A stored chain work; zero when it is not 64 hex digits.
unfoldable pub stored_work : ⦃b : Bsv⦄ → Text → ℕ
stored_work ⦃b⦄ hex =
    if length hex == 64 then (elim (b.work_from_hex hex) [ none ↦ 0 | some w ↦ w ]) else 0

unfoldable pub calculate_work : ⦃b : Bsv⦄ → ℕ → Text
calculate_work ⦃b⦄ bits = b.work_to_hex (b.work_from_bits bits)

unfoldable pub add_work : ⦃b : Bsv⦄ → Text → Text → Text
unfolding stored_work
add_work ⦃b⦄ a_hex b_hex = b.work_to_hex (b.wrapping_add (stored_work a_hex) (stored_work b_hex))

unfoldable pub is_more_work : ⦃b : Bsv⦄ → Text → Text → Bool
unfolding stored_work
is_more_work a_hex b_hex = ltb (stored_work b_hex) (stored_work a_hex)

pub record InsertHeaderResult : Type 0 where
  pub added : Bool
  pub dupe : Bool
  pub is_active_tip : Bool
  pub reorg_depth : ℕ
  pub no_prev : Bool
  pub no_tip : Bool

-- `InsertHeaderResult::default()`.
abbrev pub no_insert : InsertHeaderResult
no_insert = record {
  added = false;
  dupe = false;
  is_active_tip = false;
  reorg_depth = 0;
  no_prev = false;
  no_tip = false;
}
