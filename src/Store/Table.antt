-- ===== src/Store/Table.antt =====
-- The rows, and the statements of src/storage.rs and src/sync.rs on them.
use chaintracks_cloudflare.Prelude.{
  ℕ, suc, Option, none, some, Text, text_eq, Bool, true, false, ◌&&◌, ◌||◌, List, [], ◌∷◌, ◌++◌,
  ltb, leb, ◌==◌, if◌then◌else◌, find, filter, any, length,
}
use chaintracks_cloudflare.Types.{BlockHeader}
use chaintracks_cloudflare.Outcomes.{StoreFault}

-- The columns of `sync_state` that the modelled statements read or write.
pub record SyncState : Type 0 where
  pub pending_reorg_from : Option ℕ
  pub last_seen_height : Option ℕ
  pub validated_height : Option ℕ
  pub validated_hash : Option Text
  pub validation_fault : Option StoreFault
  pub validation_complete : Bool

-- `headers` in the order of insertion, the next row id, and `sync_state`.
pub record Db : Type 0 where
  pub headers : List BlockHeader
  pub next_id : ℕ
  pub sync : SyncState

abbrev pub row_id : BlockHeader → ℕ
row_id r = elim r.header_id [ none ↦ 0 | some i ↦ i ]

-- `ORDER BY height DESC, header_id DESC`: `a` stands before `r`.
abbrev pub before : BlockHeader → BlockHeader → Bool
before a r = ltb r.height a.height || (a.height == r.height && ltb (row_id r) (row_id a))

abbrev pub pick : BlockHeader → Option BlockHeader → Option BlockHeader
pick r none = some r
pick r (some s) = if before s r then some s else some r

-- The first row in that order that passes the `WHERE` clause.
unfoldable pub top : (BlockHeader → Bool) → List BlockHeader → Option BlockHeader
top p [] = none
top p (r ∷ rs) = if p r then pick r (top p rs) else top p rs

-- `sql_chain_tip`.
unfoldable pub find_chain_tip : Db → Option BlockHeader
unfolding top
find_chain_tip db = top (λ r. r.is_chain_tip) db.headers

unfoldable pub get_chain_tip_height : Db → ℕ
unfolding find_chain_tip
get_chain_tip_height db = elim (find_chain_tip db) [ none ↦ 0 | some h ↦ h.height ]

unfoldable pub find_header_for_height : Db → ℕ → Option BlockHeader
unfolding top
find_header_for_height db height = top (λ r. (r.height == height) && r.is_active) db.headers

unfoldable pub find_header_for_hash : Db → Text → Option BlockHeader
find_header_for_hash db hash = find (λ r. text_eq r.hash hash) db.headers

unfoldable pub find_active_header_for_hash : Db → Text → Option BlockHeader
find_active_header_for_hash db hash = find (λ r. text_eq r.hash hash && r.is_active) db.headers

-- `sql_header_for_id`.
unfoldable pub find_header_for_id : Db → ℕ → Option BlockHeader
find_header_for_id db id =
    find (λ r. elim r.header_id [ none ↦ false | some i ↦ i == id ]) db.headers

-- `sql_highest_active_header`.
unfoldable pub find_highest_active : Db → Option BlockHeader
unfolding top
find_highest_active db = top (λ r. r.is_active) db.headers

-- `SQL_COUNT_ACTIVE_ABOVE`.
unfoldable pub count_active_above : Db → ℕ → ℕ
count_active_above db height = length (filter (λ r. r.is_active && ltb height r.height) db.headers)

unfoldable pub by_height : BlockHeader → List BlockHeader → List BlockHeader
by_height r [] = r ∷ []
by_height r (s ∷ ss) = if leb r.height s.height then r ∷ s ∷ ss else s ∷ by_height r ss

unfoldable pub sort_by_height : List BlockHeader → List BlockHeader
unfolding by_height
sort_by_height [] = []
sort_by_height (r ∷ rs) = by_height r (sort_by_height rs)

-- `sql_active_headers_between`: both ends included, ascending.
unfoldable pub active_between : Db → ℕ → ℕ → List BlockHeader
unfolding sort_by_height
active_between db lo hi =
    sort_by_height (filter (λ r. r.is_active && (leb lo r.height && leb r.height hi)) db.headers)

-- `sql_active_headers_from_to`: the end is left out.
unfoldable pub active_from_to : Db → ℕ → ℕ → List BlockHeader
unfolding sort_by_height
active_from_to db lo hi =
    sort_by_height (filter (λ r. r.is_active && (leb lo r.height && ltb r.height hi)) db.headers)

-- `UPDATE headers SET … WHERE …`.
unfoldable pub update_rows :
    (BlockHeader → Bool) → (BlockHeader → BlockHeader) → List BlockHeader → List BlockHeader
update_rows p f [] = []
update_rows p f (r ∷ rs) = (if p r then f r else r) ∷ update_rows p f rs

-- `SQL_INSERT_HEADER`: ignored when the hash is stored; the row takes the next id.
unfoldable pub insert_row : BlockHeader → Db → Db
insert_row r db = if any (λ s. text_eq s.hash r.hash) db.headers then db else record db {
  headers = db.headers ++ record r { header_id = some db.next_id } ∷ [];
  next_id = suc db.next_id;
}

-- `SQL_CLEAR_CHAIN_TIP`.
unfoldable pub clear_chain_tip : List BlockHeader → List BlockHeader
unfolding update_rows
clear_chain_tip = update_rows (λ r. r.is_chain_tip) (λ r. record r { is_chain_tip = false })

-- `SQL_SET_CHAIN_TIP_ACTIVE`.
unfoldable pub set_chain_tip_active : Text → List BlockHeader → List BlockHeader
unfolding update_rows
set_chain_tip_active hash =
    update_rows (λ r. text_eq r.hash hash) (λ r. record r { is_chain_tip = true; is_active = true })

-- `SQL_SET_CHAIN_TIP`.
unfoldable pub set_chain_tip : Text → List BlockHeader → List BlockHeader
unfolding update_rows
set_chain_tip hash = update_rows (λ r. text_eq r.hash hash) (λ r. record r { is_chain_tip = true })

-- `SQL_DEACTIVATE_ABOVE`.
unfoldable pub deactivate_above : ℕ → List BlockHeader → List BlockHeader
unfolding update_rows
deactivate_above height =
    update_rows (λ r. ltb height r.height && r.is_active)
      (λ r. record r { is_active = false; is_chain_tip = false })

-- `SQL_ACTIVATE_HASH`.
unfoldable pub activate_hash : Text → List BlockHeader → List BlockHeader
unfolding update_rows
activate_hash hash = update_rows (λ r. text_eq r.hash hash) (λ r. record r { is_active = true })

-- `SQL_RELINK_HEADER` and `SQL_SET_CHAIN_WORK`, by row id.
abbrev pub has_id : Option ℕ → BlockHeader → Bool
has_id none r = false
has_id (some i) r = elim r.header_id [ none ↦ false | some j ↦ j == i ]

unfoldable pub relink_header : Option ℕ → Text → Option ℕ → List BlockHeader → List BlockHeader
unfolding update_rows
relink_header parent work id =
    update_rows (has_id id) (λ r. record r { previous_header_id = parent; chain_work = work })

unfoldable pub set_chain_work : Text → Option ℕ → List BlockHeader → List BlockHeader
unfolding update_rows
set_chain_work work id = update_rows (has_id id) (λ r. record r { chain_work = work })

-- `RECORD_PENDING_REORG_SQL`: the lowest height is kept.
unfoldable pub record_pending_reorg : ℕ → SyncState → SyncState
record_pending_reorg at s = record s {
  pending_reorg_from = elim s.pending_reorg_from [
    | none ↦ some at
    | some old ↦ if ltb at old then some at else some old
  ];
}

-- `update_chain_tip`: one transaction.
unfoldable pub update_chain_tip : Text → Db → Db
unfolding clear_chain_tip set_chain_tip_active
update_chain_tip hash db = record db {
  headers = set_chain_tip_active hash (clear_chain_tip db.headers);
}

-- `update_chain_tip_to_highest`.
unfoldable pub update_chain_tip_to_highest : Db → Db × Option BlockHeader
unfolding find_highest_active clear_chain_tip set_chain_tip
update_chain_tip_to_highest db = elim (find_highest_active db) [
  | none ↦ (db, none)
  | some h ↦ (record db { headers = set_chain_tip h.hash (clear_chain_tip db.headers) }, some h)
]
