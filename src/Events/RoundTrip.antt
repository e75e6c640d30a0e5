-- ===== src/Events/RoundTrip.antt =====
-- What the stream writes, the reader of src/sse.rs reads back.
use mathlib.Core.List.{map}
use chaintracks_cloudflare.Prelude.{
  ℕ, ◌≤◌, none, some, Text, codes, true, false, List, [], ◌∷◌, ◌++◌, all, leb, ◌==◌, ok, is_digit,
  contains, display, display-digits, display_some, le→leb, parse_uint-display, split_once, text_eq,
  from_utf8_lossy, from_utf8_lossy-cons, from_utf8_lossy-nil, ◌≡◌, refl, sym, ap, ◌∙◌, inl, inr,
  Bool-cases, Option-cases, All, arith,
}
use chaintracks_cloudflare.Sse.{
  Item, event, Parser, new, to_list, lf, cut_line, drop_cr, take_field, field_of, join_lines, line,
  feed,
}
use chaintracks_cloudflare.Sse.Chunks.{
  holding, run, run-append, run-ends, cut-some, cut-lf, feed-run,
}
use chaintracks_cloudflare.Events.Decode.{Serde}
use chaintracks_cloudflare.Events.Journal.{JournalEvent, max_cursor}
use chaintracks_cloudflare.Events.Frames.{
  envelope_view, sse_frame, frames_of, cursor_of_text, parse_cursor, id_line, frame_of,
}

-- A text that goes on one line and comes back: no LF, no CR at its end, and UTF-8.
abbrev pub IsPlain : Text → Type 0
IsPlain s = (cut_line s ≡ none) × (drop_cr s ≡ s) × (from_utf8_lossy s ≡ s)

cut_line-cons : (c : ℕ) (s : Text) → (c == lf) ≡ false → cut_line s ≡ none → cut_line (c ∷ s) ≡ none
cut_line-cons c s e h = cut-some c s e none h

drop_cr-cons : (c : ℕ) (s : Text) → (c == 13) ≡ false → drop_cr (c ∷ s) ≡ c ∷ drop_cr s
unfolding drop_cr
drop_cr-cons c [] e = rw (drop_cr, e) refl
drop_cr-cons c (d ∷ s) e = refl

IsPlain-cons :
    (c : ℕ) (s : Text)
    → (c == lf) ≡ false
    → (c == 13) ≡ false
    → leb c 127 ≡ true
    → IsPlain s
    → IsPlain (c ∷ s)
IsPlain-cons c s a b d (x, y, z) = (
  cut_line-cons c s a x,
  drop_cr-cons c s b ∙ ap (λ t. c ∷ t) y,
  from_utf8_lossy-cons c s d ∙ ap (λ t. c ∷ t) z,
)

nil-IsPlain : IsPlain []
unfolding cut_line drop_cr
nil-IsPlain = (refl, refl, from_utf8_lossy-nil)

all-IsPlain : (s : Text) → all is_digit s ≡ true → IsPlain s × (contains s 0 ≡ false)
all-IsPlain [] h = (nil-IsPlain, refl)
all-IsPlain (c ∷ s) h =
    let ih = all-IsPlain s (ground arith) in
    (IsPlain-cons c s (ground arith) (ground arith) (ground arith) ih.0, ground arith)

cut_line-here : (l rest : Text) → cut_line l ≡ none → cut_line (l ++ lf ∷ rest) ≡ some (l, rest)
unfolding cut_line
cut_line-here [] rest h = refl
cut_line-here (c ∷ l) rest h = elim (Bool-cases (c == lf)) [
  | inl e ↦ let k = sym (cut-lf c l e) ∙ h in cc
  | inr e ↦ elim (Option-cases (cut_line l)) [
    | inr (x, q) ↦ let k = sym (cut-some c l e (some x) q) ∙ h in cc
    | inl q ↦ cut-some c (l ++ lf ∷ rest) e (some (l, rest)) (cut_line-here l rest q)
  ]
]

-- A plain line at the start of a chunk is read as it stands.
run-line :
    (p : Parser) (l rest : Text)
    → IsPlain l
    → run (holding [] p) (l ++ lf ∷ rest)
      ≡ (let s = line (holding [] p) l in let r = run s.0 rest in (r.0, to_list s.1 ++ r.1))
run-line p l rest (x, y, z) =
    run-ends (l ++ lf ∷ rest) (holding [] p) l rest (cut_line-here l rest x) ∙ rw (y, z) refl

-- The parser once it has read an `id` line, and then a `data` line.
abbrev with_id : ℕ → Parser
with_id c = record new { id = some (display c); has_fields = true }

abbrev with_data : ℕ → Text → Parser
with_data c payload = record (with_id c) { data_lines = payload ∷ [] }

id_line-read : (c : ℕ) → line new (id_line c) ≡ (with_id c, none)
unfolding line take_field field_of split_once text_eq
id_line-read c = rw ((all-IsPlain (display c) (display-digits c)).1) refl

data-read :
    (c : ℕ) (payload : Text)
    → line (with_id c) (codes "data: " ++ payload) ≡ (with_data c payload, none)
unfolding line take_field field_of split_once text_eq
data-read c payload = refl

end-read :
    (c : ℕ) (payload : Text)
    → line (with_data c payload) []
      ≡ (new, some (event (some (display c)) (codes "message") payload))
unfolding line join_lines
end-read c payload = refl

id_line-IsPlain : (c : ℕ) → IsPlain (id_line c)
id_line-IsPlain c = IsPlain-cons b'i' _ refl refl refl (
    IsPlain-cons b'd' _ refl refl refl (
      IsPlain-cons b':' _ refl refl refl
        (IsPlain-cons b' ' _ refl refl refl (all-IsPlain (display c) (display-digits c)).0)))

data-IsPlain : (payload : Text) → IsPlain payload → IsPlain (codes "data: " ++ payload)
data-IsPlain payload h = IsPlain-cons b'd' _ refl refl refl (
    IsPlain-cons b'a' _ refl refl refl (
      IsPlain-cons b't' _ refl refl refl (
        IsPlain-cons b'a' _ refl refl refl
          (IsPlain-cons b':' _ refl refl refl (IsPlain-cons b' ' _ refl refl refl h)))))

-- What a reader hears of an event: its cursor as the id, and its payload.
abbrev pub item : JournalEvent → Item
item e = event (some (display e.cursor)) (codes "message") e.payload

abbrev frame_text : JournalEvent → Text
frame_text e = frame_of e.cursor (some e.payload)

run-frame : (e : JournalEvent) → IsPlain e.payload → run new (frame_text e) ≡ (new, item e ∷ [])
unfolding run
run-frame e h =
    run-line new (id_line e.cursor) ((codes "data: " ++ e.payload) ++ lf ∷ lf ∷ [])
      (id_line-IsPlain e.cursor)
    ∙ rw
        (
          id_line-read e.cursor,
          run-line (with_id e.cursor) (codes "data: " ++ e.payload) (lf ∷ [])
              (data-IsPlain e.payload h),
          data-read e.cursor e.payload,
          run-line (with_data e.cursor e.payload) [] [] nil-IsPlain,
          end-read e.cursor e.payload,
          run,
        )
        refl

abbrev joined : List JournalEvent → Text
joined [] = []
joined (e ∷ es) = frame_text e ++ joined es

frames_of-joined :
    ⦃s : Serde⦄ (es : List JournalEvent) → frames_of es envelope_view ≡ ok (joined es)
unfolding frames_of sse_frame
frames_of-joined [] = refl
frames_of-joined (e ∷ es) = rw (frames_of, frames_of-joined es) refl

run-joined :
    (es : List JournalEvent)
    → All (λ e. IsPlain e.payload) es
    → run new (joined es) ≡ (new, map item es)
unfolding run
run-joined [] h = refl
run-joined (e ∷ es) (x, h) =
    run-append (frame_text e) (joined es) new
    ∙ (ap (λ r. ((run r.0 (joined es)).0, r.1 ++ (run r.0 (joined es)).1)) (run-frame e x)
        ∙ ap (λ r. (r.0, item e ∷ r.1)) (run-joined es h))

cursor_of_text-display : (c : ℕ) → c ≤ max_cursor → cursor_of_text (display c) ≡ ok c
unfolding cursor_of_text
cursor_of_text-display c h =
    rw
      (
        cursor_of_text,
        display_some c,
        display-digits c,
        parse_uint-display 18446744073709551615 c (omega arith),
        le→leb c max_cursor h,
      )
      refl

-- For any events whose payloads hold no LF, do not end in a CR and are UTF-8, and whose cursors
-- are in the journal's range: the envelope stream has a text for them, the reader that is fed it
-- hears exactly these events in order, each with its cursor as the id and its payload as the data,
-- and holds nothing back; and each id, sent back as `Last-Event-ID`, is read as the event's cursor.
pub feed-frames_of :
    ⦃s : Serde⦄ (es : List JournalEvent)
    → All (λ e. IsPlain e.payload) es
    → All (λ e. e.cursor ≤ max_cursor) es
    → (text : Text) × (frames_of es envelope_view ≡ ok text)
      × (feed new text ≡ (new, ok (map item es)))
      × All (λ e. parse_cursor [] (some (display e.cursor)) ≡ ok (some e.cursor)) es
unfolding parse_cursor
feed-frames_of es h k = (
  joined es,
  frames_of-joined es,
  feed-run new (joined es) ∙ rw (run-joined es h) refl,
  cursors es k,
)
  where
    cursors :
        (es : List JournalEvent)
        → All (λ e. e.cursor ≤ max_cursor) es
        → All (λ e. parse_cursor [] (some (display e.cursor)) ≡ ok (some e.cursor)) es
    cursors [] k = tt
    cursors (e ∷ es) (x, k) =
        (rw (parse_cursor, cursor_of_text-display e.cursor x) refl, cursors es k)
