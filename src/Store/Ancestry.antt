-- ===== src/Store/Ancestry.antt =====
-- The walks back over the stored rows: one step, the common ancestor, the window.
use mathlib.Core.List.{reverse}
use chaintracks_cloudflare.Prelude.{
  ℕ, zero, suc, ◌+◌, ◌-◌, Option, none, some, text_eq, eq_ignore_ascii_case, zero_hash, ◌&&◌, ◌||◌,
  List, [], ◌∷◌, ◌++◌, ltb, ◌==◌, if◌then◌else◌, find, map, length, last?,
}
use chaintracks_cloudflare.Bsv.{Bsv}
use chaintracks_cloudflare.Types.{BlockHeader}
use chaintracks_cloudflare.Consensus.{link_of}
use chaintracks_cloudflare.Consensus.Window.{Window, new}
use chaintracks_cloudflare.Store.Table.{
  Db, find_header_for_id, find_header_for_hash, active_between,
}

by_hash : Db → BlockHeader → Option BlockHeader
by_hash db h =
    if text_eq h.previous_hash zero_hash then none else find_header_for_hash db h.previous_hash

-- The row that the parent id names, if it is there; else the row with the parent's hash.
unfoldable pub walk_back : Db → BlockHeader → Option BlockHeader
unfolding by_hash
walk_back db h = elim h.previous_header_id [
  | none ↦ by_hash db h
  | some id ↦ elim (find_header_for_id db id) [ none ↦ by_hash db h | some p ↦ some p ]
]

-- One round of the walk: the higher header steps back, or both at one height.
abbrev pub step_back : Db → BlockHeader → BlockHeader → Option BlockHeader × Option BlockHeader
step_back db a b =
    if ltb b.height a.height
    then (walk_back db a, some b)
    else (if ltb a.height b.height
        then (some a, walk_back db b)
        else (walk_back db a, walk_back db b))

abbrev pub max_steps : ℕ
max_steps = 400

-- The loop with the steps that are left.
unfoldable pub common_ancestor :
    ℕ → Db → Option BlockHeader × Option BlockHeader → Option BlockHeader
common_ancestor left db (none, b) = none
common_ancestor left db (some a, none) = none
common_ancestor zero db (some a, some b) = if text_eq a.hash b.hash then some a else none
common_ancestor (suc left) db (some a, some b) =
    let rest = common_ancestor left db (step_back db a b) in
    if text_eq a.hash b.hash then some a else rest

unfoldable pub find_common_ancestor : Db → BlockHeader → BlockHeader → Option BlockHeader
unfolding common_ancestor
find_common_ancestor db a b = common_ancestor max_steps db (some a, some b)

-- `load_window`, its first loop: the parents of a row off the active chain, nearest first, down to
-- the first active one; `left` are the headers that the window still wants.
inactive_run : Db → ℕ → BlockHeader → List BlockHeader
inactive_run db zero cur = []
inactive_run db (suc left) cur =
    let step = walk_back db cur in
    let stop = cur.is_active || (cur.height == 0) in
    let rest : List BlockHeader = (elim step [
      | none ↦ []
      | some p ↦
          let more = p ∷ inactive_run db left p in
          if (p.height + 1 == cur.height) && eq_ignore_ascii_case p.hash cur.previous_hash
          then more
          else []
    ]) in
    if stop then [] else rest

-- Its second loop, over the active rows read: each the parent of the last by hash.
active_run : List BlockHeader → ℕ → BlockHeader → List BlockHeader
active_run rows zero cur = []
active_run rows (suc left) cur =
    let parent =
      find (λ r. (r.height == cur.height - 1) && eq_ignore_ascii_case r.hash cur.previous_hash)
        rows in
    let rest : List BlockHeader = (elim parent [
      | none ↦ []
      | some p ↦ p ∷ active_run rows left p
    ]) in
    if cur.height == 0 then [] else rest

abbrev last_or : BlockHeader → List BlockHeader → BlockHeader
last_or d xs = elim (last? xs) [ none ↦ d | some x ↦ x ]

-- The headers below the parent, nearest first.
unfoldable pub window_below : Db → BlockHeader → ℕ → List BlockHeader
unfolding inactive_run active_run
window_below db parent depth =
    let off = inactive_run db (depth - 1) parent in
    let cur = last_or parent off in
    let need = depth - suc (length off) in
    let rows = active_between db (cur.height - need) (cur.height - 1) in
    off ++ (if cur.is_active then active_run rows need cur else [])

unfoldable pub load_window : ⦃b : Bsv⦄ → Db → BlockHeader → ℕ → Window
unfolding window_below
load_window db parent depth = new (map link_of (reverse (parent ∷ window_below db parent depth)))
