-- ===== src/Events/Frames.antt =====
-- The frames of src/events.rs: a journal event as a stream writes it, the cursor a reader sends
-- back, the query budget and the feed-2 stream.

use chaintracks_cloudflare.Prelude.{
  ℕ, ◌+◌, ◌-◌, min, Option, none, some, Text, codes, Bool, List, [], ◌∷◌, ◌++◌, length, all, leb,
  ltb, ◌==◌, if◌then◌else◌, not, ◌||◌, Result, ok, err, ◌>>=◌, parse_uint, is_digit, display,
}
use chaintracks_cloudflare.Events.Decode.{
  Serde, EventFault, Envelope, tip, reorg, CompatView, header_view, reorg_view, decode,
}
use chaintracks_cloudflare.Events.Journal.{
  Journal, JournalEvent, Wake, ServedTip, page_size, max_cursor, read_wake, expired,
}

pub data View : Type 0 where
  envelope_view tip_view reorg_only : View

-- `compatibility_view`. A decoded reorg has a deactivated header.
unfoldable pub compatibility_view : Envelope → View → Option CompatView
compatibility_view e v = elim e.event [
  | tip height hash time header ↦ elim v [ tip_view ↦ some (header_view header) | _ ↦ none ]
  | reorg fork_height depth headers new_tip ↦ elim v [
    | reorg_only ↦ elim headers [
      | [] ↦ none
      | old ∷ rest ↦ some (reorg_view depth old new_tip (old ∷ rest))
    ]
    | _ ↦ none
  ]
  | _ ↦ none
]

abbrev blank : Text
blank = 10 ∷ 10 ∷ []

abbrev pub id_line : ℕ → Text
id_line cursor = codes "id: " ++ display cursor

abbrev pub frame_of : ℕ → Option Text → Text
frame_of cursor none = id_line cursor ++ blank
frame_of cursor (some text) = id_line cursor ++ 10 ∷ (codes "data: " ++ text ++ blank)

-- What a view shows of an event: the payload, or the compatibility view of what it decodes to.
abbrev shown : ⦃s : Serde⦄ → JournalEvent → View → Result EventFault (Option Text)
shown e envelope_view = ok (some e.payload)
shown ⦃s⦄ e v = elim e.fault [
  | some f ↦ ok none
  | none ↦ decode e.payload >>= λ d.
      ok (elim (compatibility_view d v) [ none ↦ none | some c ↦ some (s.write_view c) ])
]

unfoldable pub sse_frame : ⦃s : Serde⦄ → JournalEvent → View → Result EventFault Text
unfolding compatibility_view
sse_frame e v = shown e v >>= λ text. ok (frame_of e.cursor text)

unfoldable pub heartbeat : Option ServedTip → ℕ → Text
heartbeat none now = codes ": heartbeat" ++ blank
heartbeat (some t) now = codes ": heartbeat tipAge=" ++ display (now - t.time) ++ blank

abbrev pub stream_end : Text
stream_end = codes "retry: 1000" ++ blank

abbrev u64_max : ℕ
u64_max = 18446744073709551615

unfoldable pub cursor_of_text : Text → Result EventFault ℕ
cursor_of_text raw =
    if (length raw == 0) || not (all is_digit raw)
    then err EventFault.not_decimal
    else (elim (parse_uint u64_max raw) [
      | none ↦ err EventFault.out_of_range
      | some n ↦ if leb n max_cursor then ok n else err EventFault.out_of_range
    ])

-- `parse_cursor`: the values of `since`, and the header `Last-Event-ID`, which goes first.
unfoldable pub parse_cursor : List Text → Option Text → Result EventFault (Option ℕ)
unfolding cursor_of_text
parse_cursor (a ∷ b ∷ r) last = err EventFault.duplicate_since
parse_cursor values (some raw) = cursor_of_text raw >>= λ n. ok (some n)
parse_cursor (a ∷ []) none = cursor_of_text a >>= λ n. ok (some n)
parse_cursor [] none = ok none

abbrev pub stream_query_bound : ℕ
stream_query_bound = 900

pub record QueryBudget : Type 0 where
  pub spent : ℕ
  pub bound : ℕ

-- `QueryBudget::new`.
abbrev pub budget : ℕ → ℕ → QueryBudget
budget spent bound = record { spent = spent; bound = min bound stream_query_bound }

-- `QueryBudget::take`: none where no room is left.
unfoldable pub take_query : QueryBudget → Option QueryBudget
take_query b = if leb b.bound b.spent then none else some (record b { spent = b.spent + 1 })

unfoldable pub frames_of : ⦃s : Serde⦄ → List JournalEvent → View → Result EventFault Text
unfolding sse_frame
frames_of [] v = ok []
frames_of (e ∷ es) v = sse_frame e v >>= λ frame. frames_of es v >>= λ rest. ok (frame ++ rest)

unfoldable pub wake_frames : ⦃s : Serde⦄ → Wake → View → ℕ → Result EventFault Text
unfolding frames_of heartbeat
wake_frames w v now = frames_of w.page.events v >>= λ chunk. elim chunk [
  | [] ↦ ok (heartbeat w.tip now)
  | c ∷ cs ↦ ok (c ∷ cs)
]

-- The state of `stream_v2` between two chunks.
pub record StreamV2 : Type 0 where
  pub cursor : ℕ
  pub ready : Text
  pub has_more : Bool
  pub budget : QueryBudget

-- What a poll of the stream gives: a chunk and the next state, or an error that ends it.
pub data Polled : Type 0 where
  chunk : Text → StreamV2 → Polled
  last_chunk : Text → Polled
  feed_unavailable : EventFault → Polled
  broken : EventFault → Polled

-- The opening read, already counted in the budget.
unfoldable pub stream_v2 :
    ⦃s : Serde⦄ → Wake → View → Text → QueryBudget → ℕ → Result EventFault StreamV2
unfolding wake_frames
stream_v2 opening v initial b now = wake_frames opening v now >>= λ text. ok (record {
  cursor = opening.page.cursor;
  ready = initial ++ text;
  has_more = opening.page.has_more;
  budget = b;
})

woken : ⦃s : Serde⦄ → View → ℕ → ℕ → QueryBudget → Result EventFault Wake → Polled
unfolding wake_frames expired
woken v now cursor b (err f) = feed_unavailable f
woken v now cursor b (ok w) =
    if ltb w.head cursor
    then feed_unavailable EventFault.cursor_ahead
    else (if expired w cursor then last_chunk stream_end else (elim (wake_frames w v now) [
      | err f ↦ broken f
      | ok text ↦
          chunk text
            (record { cursor = w.page.cursor; ready = []; has_more = w.page.has_more; budget = b })
    ]))

-- One poll, with the journal as it stands when the read is made.
unfoldable pub poll_stream : ⦃s : Serde⦄ → View → Journal → ℕ → StreamV2 → Polled
unfolding woken read_wake take_query
poll_stream v j now st = elim st.ready [
  | c ∷ cs ↦ chunk (c ∷ cs) (record st { ready = [] })
  | [] ↦ elim (take_query st.budget) [
    | none ↦ last_chunk stream_end
    | some b ↦ woken v now st.cursor b (read_wake j st.cursor page_size)
  ]
]
