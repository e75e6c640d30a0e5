-- ===== src/Examples/Toy.antt =====
-- A stand-in for `bsv-rs` in the examples: a header's id is its nonce, every hash meets its target,
-- a header's work is its bits, and the difficulty rule asks for bits equal to the time.
use chaintracks_cloudflare.Prelude.{
  ℕ, ◌+◌, ◌-◌, ◌%◌, ◌^◌, Option, none, some, Text, false, [], ◌∷◌, replicate, ok, refl, arith,
}
use chaintracks_cloudflare.Bsv.{Bsv, WorkLaws}
use chaintracks_cloudflare.Types.{BlockHeader}
use chaintracks_cloudflare.Consensus.Params.{ChainParams}

abbrev first_digit : Text → Option ℕ
first_digit [] = none
first_digit (w ∷ r) = some w

abbrev pub toy : Bsv
toy = record {
  wire_hash = λ w. replicate 32 0;
  wire_id = λ w. w.nonce ∷ [];
  hex_decode = λ t. none;
  check_proof_of_work = λ h bits limit. ok tt;
  compact_overflow = λ n. false;
  work_from_bits = λ bits. bits % 2 ^ 256;
  work_from_hex = first_digit;
  u256_from_hex = first_digit;
  work_to_hex = λ w. w ∷ replicate 63 b'0';
  wrapping_add = λ x y. (x + y) % 2 ^ 256;
  wrapping_sub = λ x y. (x + 2 ^ 256 - y) % 2 ^ 256;
}

pub toy_laws : WorkLaws ⦃b = toy⦄
toy_laws = record {
  from_bits_range = λ bits. omega arith;
  add_mod = λ x y. refl;
  sub_mod = λ x y h k. refl;
  hex_length = λ w. refl;
  hex_round = λ w h. refl;
}

abbrev pub toy_params : ChainParams
toy_params = record {
  network = [];
  pow = record {
    pow_limit = 1000;
    window_depth = λ height. 3;
    next_work_required = λ ancestry height time. ok time;
  };
  genesis_hash = 1 ∷ [];
  checkpoints = [];
}

-- A header by its nonce, its parent's, its height and its work.
abbrev pub block : ℕ → Text → ℕ → ℕ → BlockHeader
block nonce previous height work = record {
  header_id = none;
  previous_header_id = none;
  version = 1;
  previous_hash = previous;
  merkle_root = [];
  time = work;
  bits = work;
  nonce = nonce;
  height = height;
  hash = nonce ∷ [];
  chain_work = [];
  is_active = false;
  is_chain_tip = false;
}
