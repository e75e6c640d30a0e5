-- ===== src/Examples/Reads.antt =====
-- The theorems of the edge, of the couriers' tips and of the difficulty window.
use chaintracks_cloudflare.Prelude.{
  ◌++◌, split, split_once, to_ascii_lowercase, ℕ, ◌+◌, ◌<◌, ◌%◌, ◌^◌, some, none, Text, text_eq,
  codes, true, false, List, [], ◌∷◌, ◌≡◌, refl, ok, arith, Option, replicate, any, parse_uint, trim,
}
use chaintracks_cloudflare.Bsv.{HeaderLink}
use chaintracks_cloudflare.Edge.{
  Edge, parse, line, settled, control, kept, near, settled_control, reorg_bound,
}
use chaintracks_cloudflare.Edge.Settled.{kept-deep, control-near}
use chaintracks_cloudflare.Rungs.{Definition, Observation, TipRow, record_tips}
use chaintracks_cloudflare.Rungs.Observed.{tip_at, HeldSince, record_tips-HeldSince}
use chaintracks_cloudflare.Consensus.Window.{new, work_between, link_at}
use chaintracks_cloudflare.Consensus.Window.Sums.{total, work_between-total}
use chaintracks_cloudflare.Examples.Toy.{toy, toy_laws, toy_params}
use chaintracks_cloudflare.Consensus.Params.{
  ChainParams, checkpoint_at, is_hash_hex, parse_entry, put_entries, put_checkpoint,
  insert_by_height, sort_by_height, entries, with_checkpoints,
}
use chaintracks_cloudflare.Consensus.Params.Owner.{last_named, with_checkpoints-last}

abbrev setting : Option Text
setting = some (codes "500")

keeps : kept (parse setting) (settled (some 1000) 100 (line (parse setting))) ≡ true
unfolding kept parse settled line parse_uint trim
keeps = refl

kept-deep_example :
    (t : ℕ) × (some 1000 ≡ some t)
    × (100 + reorg_bound < t)
    × (control (parse setting) (settled (some 1000) 100 (line (parse setting))) none
        ≡ some settled_control)
kept-deep_example = kept-deep setting (some 1000) 100 none keeps

control-near_example :
    (control (Edge.depth 500) (settled (some 1000) 600 (line (Edge.depth 500))) none ≡ some near)
    × (control (Edge.depth 500) (settled none 600 (line (Edge.depth 500))) none ≡ some near)
    × (kept (Edge.depth 500) (settled (some 1000) 600 (line (Edge.depth 500))) ≡ false)
unfolding line
control-near_example = control-near (Edge.depth 500) 1000 600 none (omega arith)

abbrev woc : Definition
woc = record { name = 1 ∷ []; implementation = 9 ∷ [] }

abbrev seen : ℕ → Observation
seen at = record { hash = 5 ∷ []; height = 50; observed_at = at }

abbrev table : List TipRow
table = record { name = 1 ∷ []; implementation = 9 ∷ []; tip = some (seen 100) } ∷ []

listed_woc :
    any
      (λ (d : Definition × Option Observation). text_eq d.0.name (1 ∷ []))
      ((woc, some (seen 90)) ∷ [])
    ≡ true
unfolding text_eq
listed_woc = refl

held_woc : tip_at (1 ∷ []) table ≡ some (seen 100)
unfolding text_eq
held_woc = refl

record_tips-HeldSince_example :
    HeldSince (1 ∷ []) 100 (record_tips ((woc, some (seen 90)) ∷ []) table)
record_tips-HeldSince_example =
    record_tips-HeldSince ((woc, some (seen 90)) ∷ []) table (1 ∷ []) (seen 100) listed_woc held_woc

abbrev link : ℕ → ℕ → HeaderLink
link height bits = record { height = height; time = 0; bits = bits }

work_between-total_example :
    (work_between ⦃b = toy⦄ (new ⦃b = toy⦄ (link 10 3 ∷ link 11 5 ∷ link 12 8 ∷ [])) 11 12
      ≡ ok (total ⦃b = toy⦄ (link 12 8 ∷ []) 1 % 2 ^ 256))
    × (link_at (new ⦃b = toy⦄ (link 10 3 ∷ link 11 5 ∷ link 12 8 ∷ [])) 11 ≡ some (link 11 5))
work_between-total_example =
    work_between-total ⦃b = toy⦄ toy_laws (link 10 3) (link 11 5 ∷ link 12 8 ∷ []) 1 1 (omega arith)

-- `7:` and 64 digits of 5, then the same height with digits of 6.
abbrev five_then_six : Text
five_then_six = (codes "7:" ++ replicate 64 b'5') ++ (codes ",7:" ++ replicate 64 b'6')

abbrev with_six : ChainParams
with_six = record toy_params { checkpoints = (7, replicate 64 b'6') ∷ [] }

taken : with_checkpoints ⦃b = toy⦄ toy_params five_then_six ≡ ok with_six
unfolding with_checkpoints put_entries parse_entry put_checkpoint insert_by_height sort_by_height
    is_hash_hex split split_once trim parse_uint text_eq to_ascii_lowercase
taken = refl

with_checkpoints-last_example :
    checkpoint_at with_six 7 ≡ last_named (entries five_then_six) 7 (checkpoint_at toy_params 7)
with_checkpoints-last_example =
    with_checkpoints-last ⦃b = toy⦄ toy_params with_six five_then_six 7 taken
