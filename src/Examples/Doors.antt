-- ===== src/Examples/Doors.antt =====
-- A header pushed to the door whose parent the couriers hold.
use chaintracks_cloudflare.Prelude.{
  arith, ◌∷◌, [], none, some, codes, text_eq, eq_ignore_ascii_case, true, ◌≡◌, refl, ok, inl,
}
use chaintracks_cloudflare.Types.{wire, add_work, stored_work, calculate_work}
use chaintracks_cloudflare.Consensus.{
  check_pow, check_proof_of_work, check_bits, check_checkpoint, next_work_required, check_context,
}
use chaintracks_cloudflare.Consensus.Params.{checkpoint_at}
use chaintracks_cloudflare.Store.Rules.{stored_checkpoint_above}
use chaintracks_cloudflare.Store.Batch.{
  check_pows, check_links, batch_start, check_fork, check_rule, check_run, judge_batch,
}
use chaintracks_cloudflare.Store.Batch.Write.{
  insert_headers_batch, write_batch, write_run, write_one, run_work, replaces, activate_stored,
}
use chaintracks_cloudflare.Outcomes.{active, Announced}
use chaintracks_cloudflare.Store.Table.{
  find_chain_tip, find_header_for_hash, active_between, insert_row, update_chain_tip_to_highest,
}
use chaintracks_cloudflare.Store.Ingest.{ingest_pushed}
use chaintracks_cloudflare.Store.Ingest.Served.{Standing}
use chaintracks_cloudflare.Lease.{take_sql, take_lease}
use chaintracks_cloudflare.Push.{
  parent_walk_limit, Source, Service, walk, ingest_run, ingest_held, after_write, write_under,
  ingest_announced,
}
use chaintracks_cloudflare.Push.Walk.{Run, Answer, Walked, whole, below, walk-ends}
use chaintracks_cloudflare.Push.Door.{ingest_announced-Serves}
use chaintracks_cloudflare.Examples.Toy.{toy, toy_params}
use chaintracks_cloudflare.Examples.Rows.{two_rows}
use chaintracks_cloudflare.Examples.Pushes.{second, third}
use chaintracks_cloudflare.Examples.Announces.{two_hooks, quiet}

abbrev couriers : Source
couriers = λ hash. ok second

abbrev service : Service
service = record {
  db = two_rows;
  lease = record { lease_owner = none; lease_until = none };
  announced = quiet;
  last_error = none;
}

abbrev told : Announced
told = record { outcome = active; walked = 1; tip_height = 3; tip_hash = third.hash }

door_told :
    (ingest_announced ⦃b = toy⦄ toy_params couriers two_hooks
      (some (codes "me"))
      true
      100
      third
      service).1
    ≡ ok told
unfolding ingest_pushed insert_headers_batch write_batch write_run write_one run_work replaces
    activate_stored insert_row add_work stored_work judge_batch check_pows check_links batch_start
    check_fork check_rule check_run stored_checkpoint_above find_chain_tip find_header_for_hash
    text_eq check_pow check_bits check_proof_of_work wire eq_ignore_ascii_case check_context
    check_checkpoint checkpoint_at next_work_required active_between calculate_work ingest_announced
    write_under after_write ingest_held ingest_run walk take_lease take_sql
    update_chain_tip_to_highest
door_told = refl

ingest_announced-Serves_example :
    Standing third active
      (ingest_announced ⦃b = toy⦄ toy_params couriers two_hooks
        (some (codes "me"))
        true
        100
        third
        service).0.db.headers
ingest_announced-Serves_example =
    ingest_announced-Serves ⦃b = toy⦄ toy_params couriers two_hooks (some (codes "me")) true 100
      third service told door_told (inl refl)

-- The walk from the pushed header fetches its parent, which stands on a stored row.
walked_down : Walked couriers two_rows parent_walk_limit third [] (second, third ∷ [])
unfolding find_header_for_hash text_eq
walked_down = (refl, omega arith, below refl whole)

walk-ends_example :
    (answer : Run) × ◌≡◌ {A = Answer}
      (walk couriers two_rows parent_walk_limit third [])
      (ok answer)
    × Walked couriers two_rows parent_walk_limit third [] answer
walk-ends_example = walk-ends couriers two_rows third (second, third ∷ []) walked_down
