-- ===== src/Examples/Courier.antt =====
-- The ladder's theorems: two couriers, the first of which names the wrong height.
use chaintracks_cloudflare.Prelude.{
  ℕ, zero, suc, ◌≤◌, ◌<◌, some, none, Text, eq_ignore_ascii_case, true, [], ◌∷◌, ◌≡◌, refl, Result,
  ok, Has, contains, arith, inl, inr,
}
use chaintracks_cloudflare.Types.{BlockHeader, wire}
use chaintracks_cloudflare.Consensus.{check_pow, check_bits, check_proof_of_work}
use chaintracks_cloudflare.Couriers.{
  ChainInfo, Rung, CourierError, Ladder, askable, skipped, order, rotation, first_choice, ask,
  at_height, with_hash, bind, header_by_height, header_by_hash, chain_info, prefer, survey, better,
}
use chaintracks_cloudflare.Couriers.Order.{Distinct, AllAskable, order_lem}
use chaintracks_cloudflare.Couriers.Answers.{header_by_height-ok, header_by_height-available}
use chaintracks_cloudflare.Couriers.Tip.{chain_info-highest}
use chaintracks_cloudflare.Examples.Toy.{toy, toy_params, block}

abbrev rung : Text → Rung
rung name = record { name = name; observed = none; ok_count = 0; faults = 0 }

abbrev ladder : Ladder
ladder = record {
  rungs = rung (1 ∷ []) ∷ rung (2 ∷ []) ∷ [];
  start = 0;
  preferred = none;
  faults = [];
  params = toy_params;
}

abbrev served : BlockHeader
served = block 9 (8 ∷ []) 50 7

abbrev elsewhere : BlockHeader
elsewhere = block 8 (7 ∷ []) 49 7

abbrev answers : ℕ → Result CourierError BlockHeader
answers zero = ok elsewhere
answers (suc n) = ok served

by_height : (header_by_height ⦃b = toy⦄ answers ladder 50).1 ≡ ok served
unfolding header_by_height order rotation first_choice askable skipped ask at_height bind check_pow
    check_bits check_proof_of_work wire eq_ignore_ascii_case
by_height = refl

by_hash : (header_by_hash ⦃b = toy⦄ answers ladder (9 ∷ [])).1 ≡ ok served
unfolding header_by_hash order rotation first_choice askable skipped ask with_hash bind check_pow
    check_bits check_proof_of_work wire eq_ignore_ascii_case
by_hash = refl

meets : check_pow ⦃b = toy⦄ served toy_params ≡ ok tt
unfolding check_pow check_bits check_proof_of_work wire eq_ignore_ascii_case
meets = refl

in_order : Has 1 (order ladder)
unfolding order rotation first_choice askable skipped
in_order = inr (inl refl)

order_lem_example :
    Distinct (order ladder)
    × AllAskable ladder.rungs (order ladder)
    × ((i : ℕ) → i < 2 → askable ladder.rungs i ≡ true → contains (order ladder) i ≡ true)
order_lem_example = order_lem ladder (omega arith)

header_by_height-ok_example :
    (served.height ≡ 50)
    × (check_pow ⦃b = toy⦄ served toy_params ≡ ok tt)
    × ((i : ℕ) × Has i (order ladder) × (answers i ≡ ok served))
header_by_height-ok_example = header_by_height-ok ⦃b = toy⦄ answers ladder 50 served by_height

header_by_height-available_example :
    (h' : BlockHeader) × ((header_by_height ⦃b = toy⦄ answers ladder 50).1 ≡ ok h')
header_by_height-available_example =
    header_by_height-available ⦃b = toy⦄ answers ladder 50 1 served in_order refl refl meets

abbrev tips : ℕ → Result CourierError ChainInfo
tips zero = ok (record { blocks = 50; best_block_hash = none })
tips (suc n) = ok (record { blocks = 51; best_block_hash = none })

abbrev highest : ChainInfo
highest = record { blocks = 51; best_block_hash = none }

surveyed : (chain_info tips (λ i. 1000) ladder).1 ≡ ok highest
unfolding chain_info prefer survey better order rotation first_choice askable skipped
surveyed = refl

chain_info-highest_example :
    ((i : ℕ) × Has i (order ladder)
      × (tips i ≡ ok highest)
      × ((chain_info tips (λ i. 1000) ladder).0.preferred ≡ some i))
    × ((j : ℕ) (other : ChainInfo) → Has j (order ladder) → tips j ≡ ok other → other.blocks ≤ 51)
chain_info-highest_example = chain_info-highest tips (λ i. 1000) ladder highest surveyed
