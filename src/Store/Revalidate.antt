-- ===== src/Store/Revalidate.antt =====
-- `revalidate_step`: the stored chain above the last checkpoint through the node's checks.
pub mod Checked
use mathlib.Core.List.{reverse}
use chaintracks_cloudflare.Prelude.{
  ℕ, zero, suc, ◌+◌, ◌-◌, min, max, Option, none, some, Text, text_eq, eq_ignore_ascii_case, Bool,
  true, false, not, ◌&&◌, ◌||◌, List, [], ◌∷◌, leb, ltb, ◌==◌, if◌then◌else◌, find, map, u32_max,
  Result, ok, err, ◌>>◌, last?,
}
use chaintracks_cloudflare.Bsv.{Bsv}
use chaintracks_cloudflare.Types.{BlockHeader}
use chaintracks_cloudflare.Consensus.{HeaderFault, check_pow, check_context, link_of}
use chaintracks_cloudflare.Consensus.Params.{ChainParams}
use chaintracks_cloudflare.Consensus.Window.{Window, new, push}
use chaintracks_cloudflare.Outcomes.{StoreFault}
use chaintracks_cloudflare.Store.Table.{
  Db, SyncState, find_chain_tip, find_header_for_height, find_header_for_hash, active_between,
}
use chaintracks_cloudflare.Store.Ancestry.{walk_back}
use chaintracks_cloudflare.Store.Rules.{refused}

pub data Revalidation : Type 0 where
  complete : Revalidation
  advanced : ℕ → Revalidation
  faulted : StoreFault → Revalidation

-- `SQL_SET_VALIDATED` and `SQL_SET_VALIDATION_FAULT`.
abbrev height_of : Option BlockHeader → Option ℕ
height_of none = none
height_of (some h) = some h.height

abbrev hash_of : Option BlockHeader → Option Text
hash_of none = none
hash_of (some h) = some h.hash

unfoldable pub set_validated : Option BlockHeader → Bool → Db → Db
set_validated at done db = record db {
  sync = record (db.sync) {
    validated_height = height_of at;
    validated_hash = hash_of at;
    validation_complete = done;
  };
}

unfoldable pub record_validation_fault : StoreFault → Option BlockHeader → Db → Db × Revalidation
record_validation_fault fault last_good db = (
  record db {
    sync = record (db.sync) {
      validation_fault = some fault;
      validated_height = height_of last_good;
      validated_hash = hash_of last_good;
      validation_complete = false;
    };
  },
  faulted fault,
)

-- The highest checkpoint at or below the tip whose height the store holds.
unfoldable pub find_anchor : Db → ℕ → List (ℕ × Text) → Result StoreFault BlockHeader
find_anchor db tip [] = err StoreFault.no_checkpoint
find_anchor db tip ((cp, hash) ∷ r) =
    let rest = find_anchor db tip r in
    let here : Result StoreFault BlockHeader = (elim (find_header_for_height db cp) [
      | none ↦ rest
      | some row ↦
          if eq_ignore_ascii_case row.hash hash
          then ok row
          else err (refused row (HeaderFault.checkpoint_mismatch cp hash))
    ]) in
    if ltb tip cp then rest else here

-- The first active row below a row that a reorg took off the chain, not below the anchor.
unfoldable pub fork_point : ℕ → Db → ℕ → BlockHeader → Option BlockHeader
fork_point zero db anchor row = none
fork_point (suc left) db anchor row = elim (walk_back db row) [
  | none ↦ none
  | some p ↦
      let rest = fork_point left db anchor p in
      if leb anchor p.height then (if p.is_active then some p else rest) else none
]

cursor_at : Db → BlockHeader → ℕ → Text → BlockHeader
cursor_at db anchor height hash =
    if ltb anchor.height height
    then (elim (find_header_for_hash db hash) [
      | none ↦ anchor
      | some row ↦
          if row.is_active
          then row
          else (elim (fork_point 400 db anchor.height row) [ none ↦ anchor | some p ↦ p ])
    ])
    else anchor

unfoldable pub cursor_of : Db → BlockHeader → Option ℕ → Option Text → BlockHeader
unfolding cursor_at
cursor_of db anchor (some height) (some hash) = cursor_at db anchor height hash
cursor_of db anchor (some height) none = anchor
cursor_of db anchor none hash = anchor

-- The run of the rows read that ends at the cursor, nearest first; `left` heights are still to be
-- seen, `h` is the next.
pub below_cursor : List BlockHeader → ℕ → ℕ → Text → List BlockHeader
below_cursor rows zero h want = []
below_cursor rows (suc left) h want =
    elim (find (λ r. (r.height == h) && eq_ignore_ascii_case r.hash want) rows) [
      | none ↦ []
      | some r ↦ r ∷ below_cursor rows left (h - 1) r.previous_hash
    ]

-- The loop over the heights above the cursor: the rows that passed, and the fault that ended it.
unfoldable pub recheck :
    ⦃b : Bsv⦄
    → ChainParams
    → List BlockHeader
    → ℕ
    → ℕ
    → BlockHeader
    → Window
    → List BlockHeader × Option StoreFault
recheck params rows zero h last window = ([], none)
recheck params rows (suc left) h last window =
    elim (find (λ r. (r.height == h) && eq_ignore_ascii_case r.previous_hash last.hash) rows) [
      | none ↦ ([], some (StoreFault.unlinked_row h last.hash))
      | some row ↦ elim (check_pow row params >> check_context window row params) [
        | err fault ↦ ([], some (refused row fault))
        | ok _ ↦
            let (passed, fault) =
              recheck params rows left (h + 1) row (push window (link_of row)) in
            (row ∷ passed, fault)
      ]
    ]

abbrev pub last_passed : BlockHeader → List BlockHeader → BlockHeader
last_passed cursor [] = cursor
last_passed cursor (r ∷ rs) = last_passed r rs

unfoldable pub concluded :
    BlockHeader → BlockHeader → List BlockHeader × Option StoreFault → Db → Db × Revalidation
unfolding set_validated record_validation_fault
concluded tip cursor (passed, some fault) db =
    record_validation_fault fault (some (last_passed cursor passed)) db
concluded tip cursor (passed, none) db =
    let last = last_passed cursor passed in
    let done = leb tip.height last.height in
    (set_validated (some last) done db, (if done then complete else advanced last.height))

-- The window at the cursor, from the rows that the step reads.
unfoldable pub cursor_window : ⦃b : Bsv⦄ → ℕ → List BlockHeader → BlockHeader → Window
unfolding below_cursor
cursor_window lo rows cursor =
    new
      (map link_of (reverse (below_cursor rows (cursor.height + 1 - lo) cursor.height cursor.hash)))

-- The step from its cursor, below the tip.
unfoldable pub advance :
    ⦃b : Bsv⦄ → ChainParams → ℕ → BlockHeader → BlockHeader → Db → Db × Revalidation
unfolding concluded
advance params budget tip cursor db =
    let depth = max (params.pow.window_depth cursor.height) 1 in
    let lo = cursor.height + 1 - depth in
    let hi = min tip.height (min (cursor.height + budget) u32_max) in
    let rows = active_between db lo hi in
    concluded tip cursor
      (recheck params rows (hi - cursor.height) (cursor.height + 1) cursor
        (cursor_window lo rows cursor))
      db

-- The step from its anchor. The cursor is written where it is not the stored one; where it is, the
-- write would change nothing.
unfoldable pub from_anchor :
    ⦃b : Bsv⦄ → ChainParams → ℕ → BlockHeader → BlockHeader → Db → Db × Revalidation
from_anchor params budget tip anchor db =
    let cursor = cursor_of db anchor db.sync.validated_height db.sync.validated_hash in
    let db' = set_validated (some cursor) false db in
    if leb tip.height cursor.height
    then (set_validated (some tip) true db', complete)
    else advance params budget tip cursor db'

unfoldable pub revalidate_step : ⦃b : Bsv⦄ → ChainParams → ℕ → Db → Db × Revalidation
revalidate_step params budget db =
    if db.sync.validation_complete then (db, complete) else (elim db.sync.validation_fault [
      | some fault ↦ (db, faulted fault)
      | none ↦ elim (find_chain_tip db) [
        | none ↦ (set_validated none true db, complete)
        | some tip ↦ elim (find_anchor db tip.height (reverse params.checkpoints)) [
          | err fault ↦ record_validation_fault fault none db
          | ok anchor ↦ from_anchor params budget tip anchor db
        ]
      ]
    ])
