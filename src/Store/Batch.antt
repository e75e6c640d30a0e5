-- ===== src/Store/Batch.antt =====
-- `insert_headers_batch` and `judge_above`: the judgment of a run, and its write.
pub mod Judge
pub mod Write
pub mod Above
use mathlib.Core.List.{reverse}
use chaintracks_cloudflare.Prelude.{
  ℕ, zero, suc, ◌+◌, ◌-◌, min, max, Option, none, some, Text, text_eq, eq_ignore_ascii_case,
  to_ascii_lowercase, zero_hash, Bool, true, false, not, ◌&&◌, ◌||◌, List, [], ◌∷◌, leb, ltb, ◌==◌,
  if◌then◌else◌, find, any, map, filter, add_u32, replicate, Result, ok, err, ◌>>=◌, ◌>>◌, map_err,
}
use chaintracks_cloudflare.Bsv.{Bsv}
use chaintracks_cloudflare.Types.{BlockHeader, InsertHeaderResult, calculate_work, add_work}
use chaintracks_cloudflare.Consensus.{
  HeaderFault, check_pow, check_context, check_checkpoint, link_of,
}
use chaintracks_cloudflare.Consensus.Params.{ChainParams}
use chaintracks_cloudflare.Consensus.Window.{Window, empty, push}
use chaintracks_cloudflare.Outcomes.{StoreFault}
use chaintracks_cloudflare.Store.Table.{
  Db, find_chain_tip, find_header_for_hash, active_between, update_rows, insert_row,
}
use chaintracks_cloudflare.Store.Ancestry.{load_window}
use chaintracks_cloudflare.Store.Rules.{refused, check_unlinked, stored_checkpoint_above}
use chaintracks_cloudflare.Store.Insert.{insert_header}

unfoldable pub check_pows :
    ⦃b : Bsv⦄ → ChainParams → List BlockHeader → Result StoreFault (Unit {0})
check_pows params [] = ok tt
check_pows params (h ∷ hs) = map_err (refused h) (check_pow h params) >> check_pows params hs

abbrev pub follows : BlockHeader → BlockHeader → Bool
follows a h = (h.height == a.height + 1) && eq_ignore_ascii_case h.previous_hash a.hash

-- `headers.windows(2)`: each header the parent of the next.
unfoldable pub check_links : BlockHeader → List BlockHeader → Result StoreFault (Unit {0})
check_links a [] = ok tt
check_links a (h ∷ hs) =
    if follows a h
    then check_links h hs
    else err (refused h (HeaderFault.prev_not_found h.previous_hash))

-- The deepest window that a header of the run asks for, less the headers of the run below it.
unfoldable pub depth_wanted : ChainParams → ℕ → List BlockHeader → ℕ
depth_wanted params first [] = 0
depth_wanted params first (h ∷ hs) =
    max (params.pow.window_depth (h.height - 1) - (h.height - first)) (depth_wanted params first hs)

abbrev pub last_height : BlockHeader → List BlockHeader → ℕ
last_height a [] = a.height
last_height a (h ∷ hs) = last_height h hs

-- The highest checkpoint that the run carries.
abbrev pub anchor_in : List (ℕ × Text) → ℕ → ℕ → Option ℕ
anchor_in [] lo hi = none
anchor_in ((h, hash) ∷ r) lo hi = if leb lo h && leb h hi then some h else anchor_in r lo hi

-- The window to start from, and the height up to which an anchor vouches.
unfoldable pub batch_start :
    ⦃b : Bsv⦄
    → Db
    → ChainParams
    → BlockHeader
    → List BlockHeader
    → Option BlockHeader
    → Option BlockHeader
    → Result StoreFault (Window × Option ℕ)
batch_start db params first rest (some p) tip =
    if first.height == p.height + 1
    then ok (load_window db p (depth_wanted params first.height (first ∷ rest)), none)
    else err (StoreFault.bad_prev first.height p.hash p.height)
batch_start db params first rest none tip =
    if (first.height == 0) || text_eq first.previous_hash zero_hash
    then (map_err (refused first)
          (check_unlinked params first (elim tip [ none ↦ true | some t ↦ false ]))
        >>= λ _. ok (empty, some 0))
    else (elim (anchor_in (reverse params.checkpoints) first.height (last_height first rest)) [
      | none ↦ err (refused first (HeaderFault.prev_not_found first.previous_hash))
      | some v ↦ ok (empty, some v)
    ])

-- The map of the active rows read, by height: the last row of a height stands.
abbrev pub hash_at : List BlockHeader → ℕ → Option Text
hash_at [] height = none
hash_at (r ∷ rs) height = elim (hash_at rs height) [
  | some h ↦ some h
  | none ↦ if r.height == height then some r.hash else none
]

-- Below a checkpoint that the store holds, only a header that is the active row already. The rows
-- are read a thousand heights at a time, from the first header's to the checkpoint's or the last.
unfoldable pub check_fork : Option ℕ → List BlockHeader → BlockHeader → Result StoreFault (Unit {0})
check_fork none rows h = ok tt
check_fork (some cp) rows h =
    let stored : Bool = (elim (hash_at rows h.height) [
      | none ↦ false
      | some s ↦ text_eq s h.hash
    ]) in
    if ltb h.height cp && not stored
    then err (refused h (HeaderFault.fork_prior_to_checkpoint h.height cp))
    else ok tt

abbrev pub vouched : Option ℕ → ℕ → Bool
vouched none height = false
vouched (some v) height = leb height v

unfoldable pub check_rule :
    ⦃b : Bsv⦄ → ChainParams → Option ℕ → Window → BlockHeader → Result StoreFault (Unit {0})
check_rule params v window h = map_err (refused h) (
    if vouched v h.height
    then check_checkpoint h.height h.hash params
    else check_context window h params)

unfoldable pub check_run :
    ⦃b : Bsv⦄
    → ChainParams
    → Option ℕ
    → List BlockHeader
    → Option ℕ
    → Window
    → List BlockHeader
    → Result StoreFault (Unit {0})
check_run params below rows v window [] = ok tt
check_run params below rows v window (h ∷ hs) =
    check_fork below rows h
    >> (check_rule params v window h >> check_run params below rows v (push window (link_of h)) hs)

-- The judgment of a batch, before anything is written.
unfoldable pub judge_batch :
    ⦃b : Bsv⦄ → Db → ChainParams → BlockHeader → List BlockHeader → Result StoreFault (Unit {0})
judge_batch db params first rest =
    let tip = find_chain_tip db in
    let below = stored_checkpoint_above db params first.height tip in
    let last = last_height first rest in
    let rows : List BlockHeader = (elim below [
      | none ↦ []
      | some cp ↦ active_between db first.height (min last (cp - 1))
    ]) in
    check_pows params (first ∷ rest)
    >> (check_links first rest
        >> (batch_start db params first rest (find_header_for_hash db first.previous_hash) tip
            >>= λ s. check_run params below rows s.1 s.0 (first ∷ rest)))
