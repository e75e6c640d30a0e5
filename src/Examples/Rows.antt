-- ===== src/Examples/Rows.antt =====
-- A store of a genesis and a tip on it, and two headers beside the tip: one has more work than it,
-- the other less.
use chaintracks_cloudflare.Prelude.{
  ℕ, none, some, Text, zero_hash, Bool, true, false, [], ◌∷◌, replicate,
}
use chaintracks_cloudflare.Types.{BlockHeader}
use chaintracks_cloudflare.Store.Table.{Db}
use chaintracks_cloudflare.Examples.Toy.{block}

abbrev row : BlockHeader → ℕ → Text → Bool → Bool → BlockHeader
row h id work active tip = record h {
  header_id = some id;
  chain_work = work;
  is_active = active;
  is_chain_tip = tip;
}

abbrev work_hex : ℕ → Text
work_hex w = w ∷ replicate 63 b'0'

abbrev pub genesis : BlockHeader
genesis = row (block 1 zero_hash 0 5) 1 (work_hex 5) true false

abbrev pub first : BlockHeader
first = row (block 2 (1 ∷ []) 1 5) 2 (work_hex 10) true true

abbrev pub rival : BlockHeader
rival = block 3 (1 ∷ []) 1 7

abbrev pub weak : BlockHeader
weak = block 4 (1 ∷ []) 1 3

abbrev pub two_rows : Db
two_rows = record {
  headers = genesis ∷ first ∷ [];
  next_id = 3;
  sync = record {
    pending_reorg_from = none;
    last_seen_height = none;
    validated_height = none;
    validated_hash = none;
    validation_fault = none;
    validation_complete = true;
  };
}
