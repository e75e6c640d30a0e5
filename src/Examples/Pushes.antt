-- ===== src/Examples/Pushes.antt =====
-- A push of two headers on the tip, and a height with two active rows.
use chaintracks_cloudflare.Prelude.{
  min, none, some, text_eq, eq_ignore_ascii_case, true, [], ◌∷◌, ◌≡◌, refl, ok, inl, arith,
}
use chaintracks_cloudflare.Types.{BlockHeader, wire, add_work, stored_work, calculate_work}
use chaintracks_cloudflare.Consensus.{
  check_pow, check_proof_of_work, check_bits, check_checkpoint, next_work_required, check_context,
}
use chaintracks_cloudflare.Consensus.Params.{checkpoint_at}
use chaintracks_cloudflare.Store.Rules.{stored_checkpoint_above}
use chaintracks_cloudflare.Store.Batch.{
  check_pows, check_links, batch_start, check_fork, check_rule, check_run, judge_batch,
}
use chaintracks_cloudflare.Store.Batch.Write.{
  insert_headers_batch, write_batch, write_run, write_one, run_work, replaces, activate_stored,
}
use chaintracks_cloudflare.Outcomes.{active}
use chaintracks_cloudflare.Store.Table.{
  Db, find_chain_tip, find_header_for_hash, active_between, insert_row,
}
use chaintracks_cloudflare.Store.Ingest.{IngestOutcome, ingest_pushed}
use chaintracks_cloudflare.Store.Ingest.Served.{Serves, ingest_pushed-Serves}
use chaintracks_cloudflare.Store.Dedupe.{count_at, dual_active_heights, dedupe_active_heights}
use chaintracks_cloudflare.Store.Dedupe.Settled.{dedupe_active_heights-settles}
use chaintracks_cloudflare.Examples.Toy.{toy, toy_params, block}
use chaintracks_cloudflare.Examples.Rows.{genesis, first, rival, two_rows}

abbrev pub second : BlockHeader
second = block 5 (2 ∷ []) 2 6

abbrev pub third : BlockHeader
third = block 6 (5 ∷ []) 3 6

abbrev both_active : IngestOutcome
both_active = record {
  inserted = 2;
  canonicalized = 2;
  outcome = active;
  deactivated = [];
  child_relinked = none;
  reason = none;
}

pushed : (ingest_pushed ⦃b = toy⦄ toy_params (second ∷ third ∷ []) two_rows).1 ≡ ok both_active
unfolding ingest_pushed insert_headers_batch write_batch write_run write_one run_work replaces
    activate_stored insert_row add_work stored_work judge_batch check_pows check_links batch_start
    check_fork check_rule check_run stored_checkpoint_above find_chain_tip find_header_for_hash
    text_eq check_pow check_bits check_proof_of_work wire eq_ignore_ascii_case check_context
    check_checkpoint checkpoint_at next_work_required active_between calculate_work
pushed = refl

ingest_pushed-Serves_example :
    Serves
      (second ∷ third ∷ [])
      active
      (ingest_pushed ⦃b = toy⦄ toy_params (second ∷ third ∷ []) two_rows).0
ingest_pushed-Serves_example =
    ingest_pushed-Serves ⦃b = toy⦄ toy_params (second ∷ third ∷ []) two_rows both_active pushed
      (inl refl)

-- A rival of the tip, active beside it.
abbrev dual : Db
dual = record two_rows {
  headers = genesis ∷ first ∷ record rival { header_id = some 3; is_active = true } ∷ [];
  next_id = 4;
}

dual_is_one : dual_active_heights 1001 dual.headers ≡ 1 ∷ []
unfolding dual_active_heights
dual_is_one = refl

dedupe_active_heights-settles_example :
    count_at 1 (dedupe_active_heights dual).0.headers ≡ min 1 (count_at 1 dual.headers)
unfolding dual_active_heights
dedupe_active_heights-settles_example =
    dedupe_active_heights-settles dual 1 ((refl, (refl, tt)), ((refl, tt), (tt, tt))) (omega arith)
