-- ===== src/Events/Outbox.antt =====
-- The webhooks' outbox of src/events.rs: each target's cursor in the journal. A consumer's answer to
-- a POST is a parameter.
pub mod Accepted
pub mod Turns
pub mod Ticks
use mathlib.Core.List.{map}
use chaintracks_cloudflare.Prelude.{
  ℕ, ◌/◌, max, Option, none, some, Text, text_eq, Bool, true, false, List, [], ◌∷◌, ◌++◌, length,
  ltb, ◌==◌, if◌then◌else◌, Result, ok, err,
}
use chaintracks_cloudflare.Webhooks.{WebhookTarget}
use chaintracks_cloudflare.Events.Decode.{Serde, EventFault}
use chaintracks_cloudflare.Events.Journal.{
  Feed, v1, v2, Journal, JournalEvent, head, max_of, journal_event, rows_above, read_page,
}

-- The consumers: the targets, the token, and whether a POST of an event is answered with a 2xx.
pub record TipWebhooks : Type 0 where
  pub targets : List WebhookTarget
  pub token : Text
  pub feed : Feed
  pub accepts : WebhookTarget → JournalEvent → Bool

abbrev pub target_key : WebhookTarget → Text
target_key t = (elim t.binding [ none ↦ [] | some b ↦ b ]) ++ b'=' ∷ t.url

-- A target's row of `chain_event_deliveries`.
unfoldable pub stored_cursor : Text → List (Text × ℕ) → Option ℕ
stored_cursor key [] = none
stored_cursor key ((k, c) ∷ r) = if text_eq k key then some c else stored_cursor key r

abbrev pub or_else : ℕ → Option ℕ → ℕ
or_else d none = d
or_else d (some c) = c

-- Where a target reads on from: its stored cursor, or a default.
abbrev pub from : ℕ → Text → List (Text × ℕ) → ℕ
from d key ds = or_else d (stored_cursor key ds)

-- `INSERT … ON CONFLICT(target) DO UPDATE SET cursor = MAX(…)`.
unfoldable pub upsert_cursor : Text → ℕ → List (Text × ℕ) → List (Text × ℕ)
upsert_cursor key c [] = (key, c) ∷ []
upsert_cursor key c ((k, d) ∷ r) =
    if text_eq k key then (k, max d c) ∷ r else (k, d) ∷ upsert_cursor key c r

-- A refusal stops the target at its cursor.
unfoldable pub post_events :
    (JournalEvent → Bool) → Text → List JournalEvent → List (Text × ℕ) → List (Text × ℕ)
unfolding upsert_cursor
post_events accepts key [] ds = ds
post_events accepts key (e ∷ es) ds = elim (accepts e) [
  | true ↦ post_events accepts key es (upsert_cursor key e.cursor ds)
  | false ↦ ds
]

abbrev pub with_deliveries : List (Text × ℕ) → Journal → Journal
with_deliveries ds j = record j { deliveries = ds }

-- The feed-1 outbox: a page a target. A fault ends the tick; what was recorded stands.
unfoldable pub deliver_v1 :
    ⦃s : Serde⦄
    → TipWebhooks
    → ℕ
    → List WebhookTarget
    → Journal
    → Journal × Result EventFault (Unit {0})
unfolding stored_cursor post_events read_page
deliver_v1 hooks limit [] j = (j, ok tt)
deliver_v1 hooks limit (t ∷ ts) j =
    let key = target_key t in
    elim (read_page j (from 0 key j.deliveries) limit) [
      | err f ↦ (j, err f)
      | ok page ↦
          deliver_v1 hooks limit ts
            (with_deliveries (post_events (hooks.accepts t) key page.events j.deliveries) j)
    ]

-- One target's turn under feed 2, from the cursor it had when the tick began, or the floor.
unfoldable pub turn :
    ⦃s : Serde⦄ → TipWebhooks → ℕ → Journal → WebhookTarget → List (Text × ℕ) → List (Text × ℕ)
unfolding stored_cursor post_events rows_above journal_event
turn hooks limit j t ds =
    let key = target_key t in
    let since = from j.floor key j.deliveries in
    if (since == max_of j.rows)
    then ds
    else (if ltb (max_of j.rows) since
        then ds
        else (if ltb since j.floor
            then ds
            else post_events (hooks.accepts t) key
                (map journal_event (rows_above since limit j.rows)) ds))

unfoldable pub turns :
    ⦃s : Serde⦄ → TipWebhooks → ℕ → Journal → List WebhookTarget → List (Text × ℕ) → List (Text × ℕ)
unfolding turn
turns hooks limit j [] ds = ds
turns hooks limit j (t ∷ ts) ds = turns hooks limit j ts (turn hooks limit j t ds)

unfoldable pub deliver_v2 : ⦃s : Serde⦄ → TipWebhooks → ℕ → Journal → Journal
unfolding turns
deliver_v2 hooks limit j = with_deliveries (turns hooks limit j hooks.targets j.deliveries) j

-- At most 32 targets, which share 32 POSTs a tick.
unfoldable pub deliver :
    ⦃s : Serde⦄ → TipWebhooks → Journal → Journal × Result EventFault (Unit {0})
unfolding deliver_v1 deliver_v2
deliver hooks j =
    let n = length hooks.targets in
    if n == 0
    then (j, ok tt)
    else (if ltb 32 n
        then (j, err EventFault.too_many_targets)
        else (if length hooks.token == 0 then (j, err EventFault.no_token) else (elim hooks.feed [
          | v2 ↦ (deliver_v2 hooks (32 / n) j, ok tt)
          | v1 ↦ deliver_v1 hooks (32 / n) hooks.targets j
        ])))
