-- ===== src/Store/Served.antt =====
-- What the store may serve as proof: the ceiling, and the reads under it.
pub mod Under
use chaintracks_cloudflare.Prelude.{
  ℕ, zero, suc, ◌+◌, ◌-◌, min, max, u32_max, Option, none, some, Text, Bool, true, false, ◌&&◌,
  List, [], ◌∷◌, leb, ltb, ◌==◌, if◌then◌else◌,
}
use chaintracks_cloudflare.Types.{BlockHeader}
use chaintracks_cloudflare.Store.Table.{
  Db, SyncState, find_chain_tip, find_header_for_height, active_from_to,
}

pub data Ceiling : Type 0 where
  all_rows nothing : Ceiling
  up_to : ℕ → Ceiling

unfoldable pub admits : Ceiling → ℕ → Bool
admits all_rows height = true
admits (up_to c) height = leb height c
admits nothing height = false

-- `served_ceiling`, over the columns that `read_validation_state` reads.
unfoldable pub served_ceiling : Db → Ceiling
served_ceiling db =
    if db.sync.validation_complete
    then all_rows
    else (elim db.sync.validated_height [ none ↦ nothing | some h ↦ up_to h ])

-- The count of `headers_hex_under`, clipped to the ceiling.
unfoldable pub clipped : Ceiling → ℕ → ℕ → ℕ
clipped all_rows start count = count
clipped (up_to c) start count = if leb start c then min count (c - start + 1) else 0
clipped nothing start count = 0

-- The headers whose frames `get_headers_hex` joins: `saturating_add` stops at the last `u32`.
unfoldable pub get_headers : Db → ℕ → ℕ → List BlockHeader
get_headers db start count = active_from_to db start (min (start + count) u32_max)

-- `headers_hex_under`, with headers in place of their hex.
unfoldable pub headers_under : Db → Ceiling → ℕ → ℕ → List BlockHeader
unfolding clipped
headers_under db ceiling start count =
    let n = clipped ceiling start count in if n == 0 then [] else get_headers db start n

unfoldable pub served_tip : Db → Option BlockHeader
unfolding served_ceiling
served_tip db = elim (served_ceiling db) [
  | all_rows ↦ find_chain_tip db
  | up_to c ↦ elim (find_chain_tip db) [
    | none ↦ find_header_for_height db c
    | some t ↦ if leb t.height c then some t else find_header_for_height db c
  ]
  | nothing ↦ none
]

unfoldable pub raised : Option ℕ → ℕ → ℕ
raised none height = height
raised (some seen) height = max seen height

-- `present_height`, with `sync_state` readable.
unfoldable pub present_height : Db → Option ℕ
present_height db = elim (served_tip db) [
  | none ↦ none
  | some tip ↦ some (raised db.sync.last_seen_height tip.height)
]
