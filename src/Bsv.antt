-- ===== src/Bsv.antt =====
-- What the service takes from the crate `bsv-rs` (and `hex`), which is not in this repository:
-- the 80-byte frame's hash, proof of work, chain work and the difficulty rule, as a parameter.
use chaintracks_cloudflare.Prelude.{
  ℕ, ◌+◌, ◌-◌, ◌%◌, ◌^◌, ◌<◌, ◌≡◌, Option, some, Text, length, Result, Bool,
}

-- `bsv_rs::block::BlockHeader`: the frame, hashes in internal order.
pub record Wire : Type 0 where
  pub version : ℕ
  pub prev_hash : Text
  pub merkle_root : Text
  pub time : ℕ
  pub bits : ℕ
  pub nonce : ℕ

-- `bsv_rs::block::PowError`; `other` stands for the variants that the service does not name.
pub data PowError : Type 0 where
  bits_negative bits_zero bits_overflow bits_above_limit high_hash : ℕ → PowError
  other : PowError

-- `bsv_rs::block::DifficultyError`; `other` stands for the variants that the service does not name.
pub data DifficultyError : Type 0 where
  missing_ancestor : ℕ → DifficultyError
  other : ℕ → DifficultyError

-- `bsv_rs::block::HeaderLink`.
pub record HeaderLink : Type 0 where
  pub height : ℕ
  pub time : ℕ
  pub bits : ℕ

-- The trait `bsv_rs::block::HeaderAncestry`.
pub record HeaderAncestry : Type 0 where
  pub link_at : ℕ → Option HeaderLink
  pub work_between : ℕ → ℕ → Result DifficultyError ℕ

-- `bsv_rs::block::ChainParams`: the limit, and the two functions that read the rest of it.
pub record PowParams : Type 0 where
  pub pow_limit : ℕ
  pub window_depth : ℕ → ℕ
  pub next_work_required : HeaderAncestry → ℕ → ℕ → Result DifficultyError ℕ

-- The functions. A `U256` or `ChainWork` is its value.
pub record Bsv : Type 0 where
  pub wire_hash : Wire → Text
  pub wire_id : Wire → Text
  pub hex_decode : Text → Option Text
  pub check_proof_of_work : Text → ℕ → ℕ → Result PowError (Unit {0})
  pub compact_overflow : ℕ → Bool
  pub work_from_bits : ℕ → ℕ
  pub work_from_hex : Text → Option ℕ
  pub u256_from_hex : Text → Option ℕ
  pub work_to_hex : ℕ → Text
  pub wrapping_add : ℕ → ℕ → ℕ
  pub wrapping_sub : ℕ → ℕ → ℕ

-- The documented behaviour of the chain work's arithmetic and of its 64 hex digits.
pub record WorkLaws ⦃b : Bsv⦄ : Type 0 where
  pub from_bits_range : (bits : ℕ) → b.work_from_bits bits < 2 ^ 256
  pub add_mod : (x y : ℕ) → b.wrapping_add x y ≡ (x + y) % 2 ^ 256
  pub sub_mod :
      (x y : ℕ) → x < 2 ^ 256 → y < 2 ^ 256 → b.wrapping_sub x y ≡ (x + 2 ^ 256 - y) % 2 ^ 256
  pub hex_length : (w : ℕ) → length (b.work_to_hex w) ≡ 64
  pub hex_round : (w : ℕ) → w < 2 ^ 256 → b.work_from_hex (b.work_to_hex w) ≡ some w
