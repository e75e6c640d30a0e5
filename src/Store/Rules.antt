-- ===== src/Store/Rules.antt =====
-- The node's rules on the store: a header with no stored parent, the checkpoints that the store
-- holds, and the judgment of a single header.
use mathlib.Core.List.{reverse}
use chaintracks_cloudflare.Prelude.{
  ℕ, ◌+◌, Option, none, some, Text, text_eq, eq_ignore_ascii_case, zero_hash, Bool, true, false,
  ◌&&◌, ◌||◌, List, [], ◌∷◌, ltb, leb, ◌==◌, if◌then◌else◌, Result, ok, err, ◌>>=◌, ◌>>◌, map_err,
}
use chaintracks_cloudflare.Bsv.{Bsv}
use chaintracks_cloudflare.Types.{BlockHeader}
use chaintracks_cloudflare.Consensus.{HeaderFault, check_checkpoint, check_context}
use chaintracks_cloudflare.Consensus.Params.{ChainParams, checkpoint_at}
use chaintracks_cloudflare.Outcomes.{StoreFault}
use chaintracks_cloudflare.Store.Table.{Db, find_header_for_hash}
use chaintracks_cloudflare.Store.Ancestry.{load_window}

-- `refused(header, fault)`.
abbrev pub refused : BlockHeader → HeaderFault → StoreFault
refused header fault = StoreFault.refused header.hash header.height fault

unfoldable pub check_unlinked : ChainParams → BlockHeader → Bool → Result HeaderFault Bool
check_unlinked params header store_empty = do
  check_checkpoint header.height header.hash params
  if (header.height == 0) || text_eq header.previous_hash zero_hash
      then (if (header.height == 0) && eq_ignore_ascii_case header.hash params.genesis_hash
          then ok true
          else err (HeaderFault.bad_genesis header.hash))
      else (elim (checkpoint_at params header.height) [
        | some _ ↦ ok true
        | none ↦
            if store_empty then err (HeaderFault.prev_not_found header.previous_hash) else ok false
      ])

-- The checkpoints from the highest down: those at or below the header end the search, those above
-- the tip are passed over, and the first that is stored is the answer.
unfoldable pub highest_stored : Db → ℕ → ℕ → List (ℕ × Text) → Option ℕ
highest_stored db height tip [] = none
highest_stored db height tip ((cp, hash) ∷ r) =
    let rest = highest_stored db height tip r in
    let here : Option ℕ = (elim (find_header_for_hash db hash) [
      | none ↦ rest
      | some _ ↦ some cp
    ]) in
    if leb cp height then none else (if ltb tip cp then rest else here)

unfoldable pub stored_checkpoint_above : Db → ChainParams → ℕ → Option BlockHeader → Option ℕ
unfolding highest_stored
stored_checkpoint_above db params height none = none
stored_checkpoint_above db params height (some tip) =
    highest_stored db height tip.height (reverse params.checkpoints)

unfoldable pub check_fork_prior_to_checkpoint :
    Db → ChainParams → BlockHeader → Option BlockHeader → Result StoreFault (Unit {0})
check_fork_prior_to_checkpoint db params header tip =
    elim (stored_checkpoint_above db params header.height tip) [
      | none ↦ ok tt
      | some cp ↦ err (refused header (HeaderFault.fork_prior_to_checkpoint header.height cp))
    ]

-- The badPrev guard: a header stands one above its stored parent.
unfoldable pub check_prev : BlockHeader → Option BlockHeader → Result StoreFault (Unit {0})
check_prev header none = ok tt
check_prev header (some parent) =
    if header.height == parent.height + 1
    then ok tt
    else err (StoreFault.bad_prev header.height parent.hash parent.height)

-- The context rules against the stored ancestry of the parent.
unfoldable pub check_linked :
    ⦃b : Bsv⦄ → Db → ChainParams → BlockHeader → BlockHeader → Result StoreFault (Unit {0})
check_linked db params header parent =
    map_err (refused header)
      (check_context (load_window db parent (params.pow.window_depth parent.height)) header params)

-- Whether the header is anchored; the guards in the code's order.
unfoldable pub judge :
    ⦃b : Bsv⦄
    → Db
    → ChainParams
    → BlockHeader
    → Option BlockHeader
    → Option BlockHeader
    → Result StoreFault Bool
judge db params header previous tip = do
  check_prev header previous
  check_fork_prior_to_checkpoint db params header tip
  elim previous [
    | some parent ↦ check_linked db params header parent >>= λ _. ok true
    | none ↦
        map_err (refused header)
          (check_unlinked params header (elim tip [ none ↦ true | some _ ↦ false ]))
  ]
