-- ===== src/Examples/Served.antt =====
-- The reads under the ceiling, and a step of the re-validation.
use chaintracks_cloudflare.Prelude.{◌≤◌, ◌<◌, arith, some, true, false, [], ◌∷◌, ◌≡◌, refl, All}
use chaintracks_cloudflare.Store.Table.{Db, find_chain_tip, find_header_for_height}
use chaintracks_cloudflare.Store.Served.{
  up_to, admits, served_tip, raised, present_height, headers_under,
}
use chaintracks_cloudflare.Store.Served.Under.{headers_under-admits}
use chaintracks_cloudflare.Store.Revalidate.{advance}
use chaintracks_cloudflare.Store.Revalidate.Checked.{Vouched, advance-Vouched}
use chaintracks_cloudflare.Examples.Toy.{toy, toy_params}
use chaintracks_cloudflare.Examples.Rows.{two_rows, genesis, first}

-- Only the genesis was passed by the re-validation.
abbrev partly_passed : Db
partly_passed = record two_rows {
  sync = record (two_rows.sync) {
    validation_complete = false;
    validated_height = some 0;
    validated_hash = some (1 ∷ []);
    last_seen_height = some 4;
  };
}

present_is_4 : present_height partly_passed ≡ some 4
unfolding present_height raised served_tip find_chain_tip find_header_for_height
present_is_4 = refl

headers_under-admits_example :
    All
      (λ h.
        (h.is_active ≡ true)
        × (0 ≤ h.height)
        × (h.height < 10)
        × (admits (up_to 0) h.height ≡ true))
      (headers_under partly_passed (up_to 0) 0 10)
headers_under-admits_example = headers_under-admits partly_passed (up_to 0) 0 10

advance-Vouched_example :
    Vouched ⦃b = toy⦄ toy_params partly_passed first genesis
      (advance ⦃b = toy⦄ toy_params 2000 first genesis partly_passed).0
advance-Vouched_example =
    advance-Vouched ⦃b = toy⦄ toy_params 2000 first genesis partly_passed (omega arith)
      (omega arith)
