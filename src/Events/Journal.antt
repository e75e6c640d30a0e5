-- ===== src/Events/Journal.antt =====
-- The journal of src/events.rs: the reads of `chain_events` above a cursor, and the retention.
use mathlib.Core.List.{map}
use chaintracks_cloudflare.Prelude.{
  ℕ, ◌+◌, ◌-◌, ◌*◌, max, Option, none, some, Text, codes, text_eq, Bool, true, false, not, ◌&&◌,
  ◌||◌, List, [], ◌∷◌, ◌++◌, length, any, filter, take, leb, ltb, ◌==◌, if◌then◌else◌, Result, ok,
  err, display, trim,
}
use chaintracks_cloudflare.Events.Decode.{Serde, EventFault, strip, decode}

pub data Feed : Type 0 where
  v1 v2 : Feed

-- `Feed::parse`.
unfoldable pub parse_feed : Option Text → Feed
parse_feed none = v1
parse_feed (some raw) = if text_eq (trim raw) (codes "2") then v2 else v1

abbrev pub page_size : ℕ
page_size = 100

abbrev pub max_cursor : ℕ
max_cursor = 9007199254740991

-- A row of `chain_events`.
pub record JournalRow : Type 0 where
  pub cursor : ℕ
  pub payload : Text
  pub event_key : Option Text
  pub created_at : ℕ

-- The height, the hash and the time.
pub record ServedTip : Type 0 where
  pub height : ℕ
  pub hash : Text
  pub time : ℕ

-- `chain_events` in the order of its key, `chain_event_state.floor`, the served tip, and
-- `chain_event_deliveries`.
pub record Journal : Type 0 where
  pub rows : List JournalRow
  pub floor : ℕ
  pub served_tip : Option ServedTip
  pub deliveries : List (Text × ℕ)

pub record JournalEvent : Type 0 where
  pub cursor : ℕ
  pub payload : Text
  pub fault : Option EventFault

pub record Page : Type 0 where
  pub cursor : ℕ
  pub events : List JournalEvent
  pub has_more : Bool

pub record Wake : Type 0 where
  pub page : Page
  pub head : ℕ
  pub floor : ℕ
  pub tip : Option ServedTip

unfoldable pub unreadable : ⦃s : Serde⦄ → ℕ → EventFault → Text
unreadable ⦃s⦄ cursor fault =
    codes "{\"v\":1,\"kind\":\"unreadable\",\"cursor\":"
    ++ display cursor
    ++ codes ",\"fault\":"
    ++ s.write_fault fault
    ++ codes "}"

-- A row that does not decode goes out in its place as `unreadable`.
unfoldable pub journal_event : ⦃s : Serde⦄ → JournalRow → JournalEvent
unfolding unreadable
journal_event r = elim (decode r.payload) [
  | ok e ↦ record { cursor = r.cursor; payload = r.payload; fault = none }
  | err f ↦ record { cursor = r.cursor; payload = unreadable r.cursor f; fault = some f }
]

-- `COALESCE(MAX(cursor), 0)`.
abbrev pub max_of : List JournalRow → ℕ
max_of [] = 0
max_of (r ∷ rs) = max r.cursor (max_of rs)

unfoldable pub head : Journal → Result EventFault ℕ
head j = if ltb max_cursor (max_of j.rows) then err EventFault.exhausted else ok (max_of j.rows)

-- `cursor > ? ORDER BY cursor LIMIT ?`.
unfoldable pub rows_above : ℕ → ℕ → List JournalRow → List JournalRow
rows_above since limit rows = take limit (filter (λ r. ltb since r.cursor) rows)

abbrev pub cursor_after : ℕ → List JournalEvent → ℕ
cursor_after since [] = since
cursor_after since (e ∷ es) = cursor_after e.cursor es

-- The page of at most `limit` rows, read with one more to see whether more follow.
unfoldable pub page_of : ⦃s : Serde⦄ → ℕ → ℕ → List JournalRow → Page
unfolding journal_event rows_above
page_of since limit all_rows =
    let rows = rows_above since (limit + 1) all_rows in
    let events = map journal_event (take limit rows) in
    record {
      cursor = cursor_after since events;
      events = events;
      has_more = ltb limit (length rows);
    }

abbrev bad_read : ℕ → ℕ → Bool
bad_read since limit = ltb max_cursor since || (ltb limit 1 || ltb page_size limit)

unfoldable pub read_page : ⦃s : Serde⦄ → Journal → ℕ → ℕ → Result EventFault Page
unfolding head page_of
read_page j since limit =
    if bad_read since limit then err EventFault.bad_request else (elim (head j) [
      | err f ↦ err f
      | ok top ↦
          if ltb top since then err EventFault.cursor_ahead else ok (page_of since limit j.rows)
    ])

unfoldable pub read_wake : ⦃s : Serde⦄ → Journal → ℕ → ℕ → Result EventFault Wake
unfolding head page_of
read_wake j since limit =
    if bad_read since limit then err EventFault.bad_request else (elim (head j) [
      | err f ↦ err f
      | ok top ↦ ok (record {
        page = page_of since limit j.rows;
        head = top;
        floor = j.floor;
        tip = j.served_tip;
      })
    ])

-- `Wake::expired`.
unfoldable pub expired : Wake → ℕ → Bool
expired w since = ltb since w.floor

abbrev pub retain_chain_secs : ℕ
retain_chain_secs = 90 * 86400

abbrev pub retain_tip_age_secs : ℕ
retain_tip_age_secs = 86400

abbrev chain_kinds : List Text
chain_kinds =
    codes "tip"
    ∷ codes "fork"
    ∷ codes "reorg"
    ∷ codes "invalidated"
    ∷ codes "frozen"
    ∷ codes "split"
    ∷ codes "splitResolved"
    ∷ []

-- `json_extract(payload, '$.kind')` is one of the chain's.
unfoldable pub is_chain : ⦃s : Serde⦄ → JournalRow → Bool
is_chain ⦃s⦄ r = elim (s.read_object r.payload) [
  | none ↦ false
  | some o ↦ any (λ k. text_eq k o.kind) chain_kinds
]

-- `event_key >= 'tipAge:' AND event_key < 'tipAge;'`.
unfoldable pub is_tip_age : JournalRow → Bool
is_tip_age r = elim r.event_key [
  | none ↦ false
  | some k ↦ elim (strip (codes "tipAge:") k) [ none ↦ false | some x ↦ true ]
]

-- The oldest row above the floor that is young, or the head.
abbrev young : ℕ → ℕ → ℕ → List JournalRow → ℕ
young floor cutoff top [] = top
young floor cutoff top (r ∷ rs) =
    if ltb floor r.cursor && leb cutoff r.created_at then r.cursor else young floor cutoff top rs

-- What one row adds to `picked`: its cursor, and whether it is a chain row.
unfoldable pub picks : ⦃s : Serde⦄ → ℕ → ℕ → ℕ → ℕ → JournalRow → List (ℕ × Bool)
unfolding is_chain is_tip_age
picks floor youngest age_cutoff top r =
    (if ltb floor r.cursor && (ltb r.cursor youngest && is_chain r)
      then (r.cursor, true) ∷ []
      else [])
    ++ (if is_tip_age r && (ltb r.created_at age_cutoff && ltb r.cursor top)
        then (r.cursor, false) ∷ []
        else [])

abbrev pub all_picks : (JournalRow → List (ℕ × Bool)) → List JournalRow → List (ℕ × Bool)
all_picks f [] = []
all_picks f (r ∷ rs) = f r ++ all_picks f rs

-- `RETAIN_PICKED`, at most 1000 rows a tick.
unfoldable pub retain_picked : ⦃s : Serde⦄ → ℕ → ℕ → ℕ → List JournalRow → List (ℕ × Bool)
unfolding picks
retain_picked floor chain_cutoff age_cutoff rows =
    let top = max_of rows in
    take 1000 (all_picks (picks floor (young floor chain_cutoff top rows) age_cutoff top) rows)

-- `MAX(cursor)` of the chain rows picked, or 0.
abbrev pub max_chain : List (ℕ × Bool) → ℕ
max_chain [] = 0
max_chain ((c, chain) ∷ ps) = if chain then max c (max_chain ps) else max_chain ps

abbrev pub has_cursor : List (ℕ × Bool) → JournalRow → Bool
has_cursor picked r = any (λ p. p.0 == r.cursor) picked

-- `retain`: the floor rises and the rows go in one transaction.
unfoldable pub retain : ⦃s : Serde⦄ → ℕ → Journal → Journal
unfolding retain_picked
retain now j =
    let picked =
      retain_picked j.floor (now - retain_chain_secs) (now - retain_tip_age_secs) j.rows in
    record j {
      floor = max j.floor (max_chain picked);
      rows = filter (λ r. not (has_cursor picked r)) j.rows;
    }
