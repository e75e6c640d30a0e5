-- ===== src/Examples/Chains.antt =====
-- The store's theorems: a genesis, a tip on it, and a header beside the tip with more work.
use chaintracks_cloudflare.Prelude.{
  ◌≤◌, ◌⊎◌, none, some, text_eq, true, false, [], ◌∷◌, ◌++◌, map, ◌≡◌, refl, ok,
  eq_ignore_ascii_case,
}
use chaintracks_cloudflare.Types.{wire, stored_work, calculate_work, add_work, is_more_work}
use chaintracks_cloudflare.Consensus.{
  check_pow, check_proof_of_work, check_bits, check_checkpoint, next_work_required, check_context,
}
use chaintracks_cloudflare.Consensus.Params.{checkpoint_at}
use chaintracks_cloudflare.Store.Table.{
  Db, find_chain_tip, find_header_for_hash, find_header_for_id, count_active_above, insert_row,
}
use chaintracks_cloudflare.Store.Ancestry.{walk_back, find_common_ancestor, max_steps}
use chaintracks_cloudflare.Store.Rules.{
  judge, check_prev, check_fork_prior_to_checkpoint, stored_checkpoint_above, check_linked,
}
use chaintracks_cloudflare.Store.Reorg.{apply_reorg, handle_reorg, branch_hashes}
use chaintracks_cloudflare.Store.Insert.{
  previous_of, work_over, outworks, insert_new, insert_header, write_header, take_tip, extends,
  with_answer, settle_tip,
}
use chaintracks_cloudflare.Store.Rows.{TipIs, reorged, apply_reorg-rows}
use chaintracks_cloudflare.Store.Tip.{Aside}
use chaintracks_cloudflare.Store.Tip.Takeover.{
  took_tip, Judged, insert_header-Aside, insert_header-TipIs,
}
use chaintracks_cloudflare.Store.Tip.Heaviest.{Heavier, insert_header-Heavier}
use chaintracks_cloudflare.Store.Tip.Work.{work_of, insert_all, work_of-insert_all}
use chaintracks_cloudflare.Store.Common.{Met, find_common_ancestor-Met}
use chaintracks_cloudflare.Store.Distinct.{Distinct, hashes}
use chaintracks_cloudflare.Store.OneTip.{OneTip}
use chaintracks_cloudflare.Store.Runs.{Reach, Step, Reach-Sound}
use chaintracks_cloudflare.Store.Keep.{
  Kept, contents, appended, insert_header-Kept, insert_header-adds,
}
use chaintracks_cloudflare.Examples.Toy.{toy, toy_params}
use chaintracks_cloudflare.Examples.Rows.{genesis, first, rival, weak, two_rows}

pow_ok : check_pow ⦃b = toy⦄ rival toy_params ≡ ok tt
unfolding check_pow check_bits check_proof_of_work wire eq_ignore_ascii_case
pow_ok = refl

fresh : find_header_for_hash two_rows (3 ∷ []) ≡ none
unfolding find_header_for_hash text_eq
fresh = refl

judged_ok :
    judge ⦃b = toy⦄ two_rows toy_params rival (previous_of two_rows rival) (find_chain_tip two_rows)
    ≡ ok true
unfolding judge previous_of find_header_for_hash text_eq find_chain_tip check_prev
    check_fork_prior_to_checkpoint stored_checkpoint_above check_linked check_context
    check_checkpoint checkpoint_at next_work_required
judged_ok = refl

tip_is_first : find_chain_tip two_rows ≡ some first
unfolding find_chain_tip
tip_is_first = refl

takes : took_tip (insert_header ⦃b = toy⦄ toy_params rival two_rows).1 ≡ true
unfolding insert_header insert_new check_pow check_bits check_proof_of_work wire
    eq_ignore_ascii_case find_header_for_hash text_eq judge previous_of find_chain_tip check_prev
    check_fork_prior_to_checkpoint stored_checkpoint_above check_linked check_context
    check_checkpoint checkpoint_at next_work_required outworks work_over add_work calculate_work
    stored_work is_more_work write_header take_tip with_answer settle_tip handle_reorg
    find_common_ancestor walk_back branch_hashes extends insert_row find_header_for_id
    count_active_above
takes = refl

refuses : took_tip (insert_header ⦃b = toy⦄ toy_params weak two_rows).1 ≡ false
unfolding insert_header insert_new check_pow check_bits check_proof_of_work wire
    eq_ignore_ascii_case find_header_for_hash text_eq judge previous_of find_chain_tip check_prev
    check_fork_prior_to_checkpoint stored_checkpoint_above check_linked check_context
    check_checkpoint checkpoint_at next_work_required outworks work_over add_work calculate_work
    stored_work is_more_work write_header
refuses = refl

insert_header-TipIs_example :
    Judged ⦃b = toy⦄ toy_params rival two_rows
    × TipIs (3 ∷ []) (insert_header ⦃b = toy⦄ toy_params rival two_rows).0.headers
insert_header-TipIs_example = insert_header-TipIs ⦃b = toy⦄ toy_params rival two_rows takes

insert_header-Aside_example :
    Aside weak two_rows (insert_header ⦃b = toy⦄ toy_params weak two_rows).0
insert_header-Aside_example = insert_header-Aside ⦃b = toy⦄ toy_params weak two_rows refuses

insert_header-Kept_example :
    Kept ⦃b = toy⦄ toy_params rival two_rows (insert_header ⦃b = toy⦄ toy_params rival two_rows).0
insert_header-Kept_example = insert_header-Kept ⦃b = toy⦄ toy_params rival two_rows

insert_header-adds_example :
    contents (insert_header ⦃b = toy⦄ toy_params rival two_rows).0
    ≡ contents two_rows ++ appended ⦃b = toy⦄ toy_params rival two_rows ∷ []
insert_header-adds_example =
    insert_header-adds ⦃b = toy⦄ toy_params rival two_rows pow_ok fresh true judged_ok

abbrev after_rival : Db
after_rival = (insert_header ⦃b = toy⦄ toy_params rival two_rows).0

Reach-Sound_example :
    let db' = (insert_header ⦃b = toy⦄ toy_params weak after_rival).0 in
    OneTip db' × Distinct (hashes db')
unfolding text_eq
Reach-Sound_example =
    Reach-Sound ⦃b = toy⦄ toy_params two_rows
      (insert_header ⦃b = toy⦄ toy_params weak after_rival).0
      (Reach.then after_rival _ (Reach.then two_rows _ Reach.start (Step.inserts rival))
        (Step.inserts weak))
      (2 ∷ [], (λ e. cc e, (λ e. refl, tt))) ((refl, tt), (tt, tt))

apply_reorg-rows_example :
    (apply_reorg 0 ((3 ∷ []) ∷ []) (3 ∷ []) two_rows).headers
    ≡ map (reorged 0 ((3 ∷ []) ∷ []) (3 ∷ [])) (genesis ∷ first ∷ [])
apply_reorg-rows_example = apply_reorg-rows 0 ((3 ∷ []) ∷ []) (3 ∷ []) two_rows

meet : find_common_ancestor two_rows rival first ≡ some genesis
unfolding find_common_ancestor walk_back find_header_for_hash text_eq
meet = refl

find_common_ancestor-Met_example : Met two_rows max_steps rival first genesis
find_common_ancestor-Met_example = find_common_ancestor-Met two_rows rival first genesis meet

insert_header-Heavier_example :
    let db' = (insert_header ⦃b = toy⦄ toy_params rival two_rows).0 in
    (find_chain_tip db' ≡ find_chain_tip two_rows)
    ⊎ Heavier ⦃b = toy⦄ toy_params rival two_rows (find_chain_tip db')
insert_header-Heavier_example = insert_header-Heavier ⦃b = toy⦄ toy_params rival two_rows

work_of-insert_all_example :
    work_of ⦃b = toy⦄ (find_chain_tip two_rows)
    ≤ work_of ⦃b = toy⦄
        (find_chain_tip (insert_all ⦃b = toy⦄ toy_params (rival ∷ weak ∷ []) two_rows))
work_of-insert_all_example = work_of-insert_all ⦃b = toy⦄ toy_params (rival ∷ weak ∷ []) two_rows
