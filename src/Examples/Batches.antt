-- ===== src/Examples/Batches.antt =====
-- A batch of two headers on the tip.
use chaintracks_cloudflare.Prelude.{
  ℕ, ◌≤◌, Option, none, some, ap, arith, text_eq, eq_ignore_ascii_case, [], ◌∷◌, ◌≡◌, refl, ok, All,
}
use chaintracks_cloudflare.Types.{BlockHeader, wire}
use chaintracks_cloudflare.Consensus.{
  check_pow, check_proof_of_work, check_bits, check_checkpoint, next_work_required, check_context,
}
use chaintracks_cloudflare.Consensus.Params.{checkpoint_at}
use chaintracks_cloudflare.Store.Table.{find_chain_tip, find_header_for_hash}
use chaintracks_cloudflare.Store.Rules.{stored_checkpoint_above}
use chaintracks_cloudflare.Store.Batch.{
  check_pows, check_links, batch_start, check_fork, check_rule, check_run, judge_batch,
}
use chaintracks_cloudflare.Store.Batch.Judge.{Linked, judge_batch-Linked}
use chaintracks_cloudflare.Store.Batch.Above.{
  passed, judge_contexts, active_parent, judge_above, judge_above-batch,
}
use chaintracks_cloudflare.Examples.Toy.{toy, toy_params, block}
use chaintracks_cloudflare.Examples.Rows.{two_rows}

abbrev second : BlockHeader
second = block 5 (2 ∷ []) 2 6

abbrev third : BlockHeader
third = block 6 (5 ∷ []) 3 6

abbrev height_or_zero : Option BlockHeader → ℕ
height_or_zero none = 0
height_or_zero (some t) = t.height

passes : judge_batch ⦃b = toy⦄ two_rows toy_params second (third ∷ []) ≡ ok tt
unfolding judge_batch check_pows check_links batch_start check_fork check_rule check_run
    stored_checkpoint_above find_chain_tip find_header_for_hash text_eq check_pow check_bits
    check_proof_of_work wire eq_ignore_ascii_case check_context check_checkpoint checkpoint_at
    next_work_required
passes = refl

judge_batch-Linked_example :
    Linked second (third ∷ [])
    × All (λ h. check_pow ⦃b = toy⦄ h toy_params ≡ ok tt) (second ∷ third ∷ [])
    × All (λ h. check_checkpoint h.height h.hash toy_params ≡ ok tt) (second ∷ third ∷ [])
judge_batch-Linked_example =
    judge_batch-Linked ⦃b = toy⦄ toy_params two_rows second (third ∷ []) passes

above : judge_above ⦃b = toy⦄ two_rows toy_params (second ∷ third ∷ []) ≡ passed
unfolding judge_above judge_contexts active_parent check_pows check_links find_header_for_hash
    text_eq check_pow check_bits check_proof_of_work wire eq_ignore_ascii_case check_context
    check_checkpoint checkpoint_at next_work_required
above = refl

tip_below : (t : BlockHeader) → find_chain_tip two_rows ≡ some t → t.height ≤ 2
unfolding find_chain_tip
tip_below t e = omega (arith, ap height_or_zero e)

judge_above-batch_example : judge_batch ⦃b = toy⦄ two_rows toy_params second (third ∷ []) ≡ ok tt
judge_above-batch_example =
    judge_above-batch ⦃b = toy⦄ two_rows toy_params second (third ∷ []) tip_below above
