-- ===== src/Examples/Feeds.antt =====
-- The event stream, its reader and the outbox at concrete inputs.
use mathlib.Core.List.{map}
use chaintracks_cloudflare.Prelude.{
  from_utf8_lossy, split_once, ℕ, none, some, Text, codes, text_eq, true, List, [], ◌∷◌, ◌++◌, ltb,
  display, ok, ◌≡◌, refl, inl, All, arith,
}
use chaintracks_cloudflare.Sse.{Parser, new, feed, cut_line, line, drop_cr}
use chaintracks_cloudflare.Sse.Chunks.{behind, feed-append}
use chaintracks_cloudflare.Webhooks.{WebhookTarget}
use chaintracks_cloudflare.Events.Decode.{Serde, decode}
use chaintracks_cloudflare.Events.Journal.{v2, Journal, JournalRow, JournalEvent}
use chaintracks_cloudflare.Events.Frames.{envelope_view, frames_of, parse_cursor}
use chaintracks_cloudflare.Events.RoundTrip.{item, feed-frames_of}
use chaintracks_cloudflare.Events.Outbox.{TipWebhooks, target_key, from, deliver}
use chaintracks_cloudflare.Events.Outbox.Accepted.{Heard}
use chaintracks_cloudflare.Events.Outbox.Ticks.{start_at, deliver-Heard}

-- A reader of JSON that reads nothing.
instance no_json : Serde
no_json = record { read_object = λ t. none; write_fault = λ f. codes "\"\""; write_view = λ v. [] }

-- `id: 7` and a data line that is cut in two.
abbrev first_part : Text
first_part = codes "id: 7" ++ 10 ∷ codes "da"

abbrev last_part : Text
last_part = codes "ta: x" ++ 10 ∷ 10 ∷ []

abbrev mid_line : Parser
mid_line = record new { pending = codes "da"; id = some (codes "7"); has_fields = true }

first_part-read : feed new first_part ≡ (mid_line, ok [])
unfolding feed cut_line line from_utf8_lossy drop_cr text_eq split_once
first_part-read = refl

feed-append_example : feed new (first_part ++ last_part) ≡ behind [] (feed mid_line last_part)
feed-append_example = feed-append new mid_line first_part last_part [] first_part-read

abbrev two_events : List JournalEvent
two_events =
    record { cursor = 41; payload = codes "{}"; fault = none }
    ∷ record { cursor = 42; payload = codes "[1]"; fault = none }
    ∷ []

feed-frames_of_example :
    (text : Text) × (frames_of two_events envelope_view ≡ ok text)
    × (feed new text ≡ (new, ok (map item two_events)))
    × All (λ e. parse_cursor [] (some (display e.cursor)) ≡ ok (some e.cursor)) two_events
unfolding cut_line drop_cr from_utf8_lossy
feed-frames_of_example =
    feed-frames_of two_events ((refl, refl, refl), ((refl, refl, refl), tt))
      (omega arith, (omega arith, tt))

abbrev consumer : WebhookTarget
consumer = record { binding = none; url = codes "https://a" }

-- It accepts the events below 3.
abbrev hooks : TipWebhooks
hooks = record {
  targets = consumer ∷ [];
  token = codes "t";
  feed = v2;
  accepts = λ t e. ltb e.cursor 3;
}

abbrev row : ℕ → JournalRow
row c = record { cursor = c; payload = codes "{}"; event_key = none; created_at = 0 }

abbrev journal : Journal
journal = record {
  rows = row 1 ∷ row 2 ∷ row 3 ∷ [];
  floor = 0;
  served_tip = none;
  deliveries = (target_key consumer, 1) ∷ [];
}

deliver-Heard_example :
    Heard
      (hooks.accepts consumer)
      (from (start_at hooks.feed journal) (target_key consumer) journal.deliveries)
      (from
        (start_at hooks.feed journal)
        (target_key consumer)
        (deliver hooks journal).0.deliveries)
      journal.rows
deliver-Heard_example =
    deliver-Heard hooks journal consumer
      ((omega arith, (omega arith, tt)), ((omega arith, tt), (tt, tt))) (tt, tt) (inl refl)

-- The second event was accepted, the third refused.
second_heard :
    from (start_at hooks.feed journal) (target_key consumer) (deliver hooks journal).0.deliveries
    ≡ 2
unfolding deliver text_eq decode no_json
second_heard = refl
