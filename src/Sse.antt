-- ===== src/Sse.antt =====
-- src/sse.rs: the reader's half of an event stream, fed in the chunks that the peer sends.
pub mod Chunks
use chaintracks_cloudflare.Prelude.{
  ℕ, zero, suc, Option, none, some, Text, codes, text_eq, Bool, true, false, not, ◌&&◌, List, [],
  ◌∷◌, ◌++◌, length, ltb, ◌==◌, if◌then◌else◌, contains, Result, ok, err, split_once,
  from_utf8_lossy,
}

-- The `id`, the `event` and the data of a dispatched event; a comment is the peer's heartbeat.
pub data Item : Type 0 where
  comment : Item
  event : Option Text → Text → Text → Item

pub record Parser : Type 0 where
  pub pending : Text
  pub data_lines : List Text
  pub event_name : Option Text
  pub id : Option Text
  pub has_fields : Bool

-- `Parser::default()`.
abbrev pub new : Parser
new = record { pending = []; data_lines = []; event_name = none; id = none; has_fields = false }

abbrev pub max_line : ℕ
max_line = 65536

-- A line of more than `max_line` bytes with no end.
pub data FeedFault : Type 0 where
  line_too_long : FeedFault

abbrev pub lf : ℕ
lf = 10

-- The bytes before the first LF, and those behind it.
unfoldable pub cut_line : Text → Option (Text × Text)
cut_line [] = none
cut_line (c ∷ cs) = elim (c == lf) [
  | true ↦ some ([], cs)
  | false ↦ elim (cut_line cs) [ none ↦ none | some (l, rest) ↦ some (c ∷ l, rest) ]
]

unfoldable pub drop_cr : Text → Text
drop_cr [] = []
drop_cr (c ∷ []) = if c == 13 then [] else c ∷ []
drop_cr (c ∷ d ∷ r) = c ∷ drop_cr (d ∷ r)

-- `join("\n")`.
unfoldable pub join_lines : List Text → Text
join_lines [] = []
join_lines (l ∷ []) = l
join_lines (l ∷ k ∷ r) = l ++ lf ∷ join_lines (k ∷ r)

abbrev pub strip_space : Text → Text
strip_space [] = []
strip_space (c ∷ cs) = if c == b' ' then cs else c ∷ cs

unfoldable pub field_of : Text → Text × Text
field_of line = elim (split_once b':' line) [ none ↦ (line, []) | some (f, v) ↦ (f, strip_space v) ]

unfoldable pub take_field : Parser → Text → Text → Parser
take_field p field value =
    if text_eq field (codes "data")
    then record p { data_lines = p.data_lines ++ value ∷ []; has_fields = true }
    else (if text_eq field (codes "event")
        then record p { event_name = some value; has_fields = true }
        else (if text_eq field (codes "id") && not (contains value 0)
            then record p { id = some value; has_fields = true }
            else p))

abbrev pub dispatch : Parser → Item
dispatch p =
    event p.id (elim p.event_name [ none ↦ codes "message" | some e ↦ e ]) (join_lines p.data_lines)

unfoldable pub line : Parser → Text → Parser × Option Item
unfolding take_field field_of
line p [] =
    if p.has_fields
    then (
      record p { has_fields = false; id = none; event_name = none; data_lines = [] },
      some (dispatch p),
    )
    else (p, none)
line p (c ∷ cs) =
    if c == b':'
    then (p, some comment)
    else (let f = field_of (c ∷ cs) in (take_field p f.0 f.1, none))

abbrev pub to_list : Option Item → List Item
to_list none = []
to_list (some i) = i ∷ []

-- The loop of `feed`: the lines of `pending`, in order.
unfoldable pub drain : ℕ → Parser → List Item → Parser × List Item
drain zero p out = (p, out)
drain (suc fuel) p out = elim (cut_line p.pending) [
  | none ↦ (p, out)
  | some (l, rest) ↦
      let r = line (record p { pending = rest }) (from_utf8_lossy (drop_cr l)) in
      drain fuel r.0 (out ++ to_list r.1)
]

-- A byte of `pending` leaves with each line, so its length is fuel enough.
unfoldable pub feed : Parser → Text → Parser × Result FeedFault (List Item)
unfolding drain
feed p chunk =
    let held = p.pending ++ chunk in
    let r = drain (length held) (record p { pending = held }) [] in
    (r.0, if ltb max_line (length r.0.pending) then err line_too_long else ok r.1)
