-- ===== src/Store/Dedupe.antt =====
-- `dedupe_active_heights` of src/storage.rs: one active row a height.
pub mod Counts
pub mod Settled
use chaintracks_cloudflare.Prelude.{
  ℕ, ◌+◌, max, Option, none, some, text_eq, Bool, true, false, not, ◌&&◌, List, [], ◌∷◌, length,
  any, filter, take, ltb, ◌==◌, if◌then◌else◌,
}
use chaintracks_cloudflare.Types.{BlockHeader}
use chaintracks_cloudflare.Store.Table.{Db, row_id, update_rows}

abbrev pub dedupe_heights_per_sweep : ℕ
dedupe_heights_per_sweep = 1000

abbrev pub active_at : ℕ → BlockHeader → Bool
active_at height r = (r.height == height) && r.is_active

abbrev pub count_at : ℕ → List BlockHeader → ℕ
count_at height rows = length (filter (active_at height) rows)

-- `GROUP BY height … ORDER BY height DESC`.
unfoldable pub put_height : ℕ → List ℕ → List ℕ
put_height h [] = h ∷ []
put_height h (x ∷ xs) =
    if x == h then x ∷ xs else (if ltb x h then h ∷ x ∷ xs else x ∷ put_height h xs)

unfoldable pub dual_heights : List BlockHeader → List BlockHeader → List ℕ
unfolding put_height
dual_heights table [] = []
dual_heights table (r ∷ rs) =
    let rest = dual_heights table rs in
    if r.is_active && ltb 1 (count_at r.height table) then put_height r.height rest else rest

-- `SQL_DUAL_ACTIVE_HEIGHTS`.
unfoldable pub dual_active_heights : ℕ → List BlockHeader → List ℕ
unfolding dual_heights
dual_active_heights limit rows = take limit (dual_heights rows rows)

-- `SELECT MAX(header_id) … WHERE`.
unfoldable pub max_id : (BlockHeader → Bool) → List BlockHeader → Option ℕ
max_id p [] = none
max_id p (r ∷ rs) =
    let rest = max_id p rs in
    if p r then some (elim rest [ none ↦ row_id r | some j ↦ max (row_id r) j ]) else rest

-- An active row at the next height names the row as its parent.
abbrev pub is_named : ℕ → List BlockHeader → BlockHeader → Bool
is_named height rows e = any (λ c. active_at (height + 1) c && text_eq c.previous_hash e.hash) rows

-- The row of a height that stays active.
unfoldable pub kept_id : ℕ → List BlockHeader → Option ℕ
unfolding max_id
kept_id height rows = elim (max_id (λ e. active_at height e && is_named height rows e) rows) [
  | some i ↦ some i
  | none ↦ max_id (active_at height) rows
]

-- `SQL_DEDUPE_HEIGHT`, and the rows it changes.
abbrev pub is_extra : ℕ → Option ℕ → BlockHeader → Bool
is_extra height none r = false
is_extra height (some i) r = active_at height r && not (row_id r == i)

unfoldable pub dedupe_height : ℕ → List BlockHeader → List BlockHeader
unfolding kept_id update_rows
dedupe_height height rows =
    update_rows (is_extra height (kept_id height rows)) (λ r. record r { is_active = false }) rows

abbrev pub changes_of : ℕ → List BlockHeader → ℕ
changes_of height rows = length (filter (is_extra height (kept_id height rows)) rows)

-- The heights of a sweep, one statement each, and the rows deactivated.
unfoldable pub sweep : List ℕ → List BlockHeader → List BlockHeader × ℕ
unfolding dedupe_height kept_id
sweep [] rows = (rows, 0)
sweep (h ∷ hs) rows =
    let rest = sweep hs (dedupe_height h rows) in (rest.0, changes_of h rows + rest.1)

unfoldable pub dedupe_active_heights : Db → Db × ℕ
unfolding sweep dual_active_heights
dedupe_active_heights db =
    let heights = dual_active_heights (dedupe_heights_per_sweep + 1) db.headers in
    let swept = sweep (take dedupe_heights_per_sweep heights) db.headers in
    (record db { headers = swept.0 }, swept.1)
