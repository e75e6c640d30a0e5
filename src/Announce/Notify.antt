-- ===== src/Announce/Notify.antt =====
-- `notify_tip` of src/sync.rs: the claim of a tip and its delivery to the webhook targets. The claim,
-- and the writes after the POSTs, are two steps, so that other isolates can run between them. A
-- consumer's answer to a POST is a parameter.
use chaintracks_cloudflare.Prelude.{
  ℕ, ◌+◌, ◌%◌, min, Option, none, some, Text, codes, text_eq, to_ascii_lowercase, trim, display,
  Bool, false, not, ◌&&◌, ◌||◌, List, [], ◌∷◌, ◌++◌, length, all, filter, ltb, ◌==◌, if◌then◌else◌,
  u32_max,
}
use chaintracks_cloudflare.Types.{BlockHeader}
use chaintracks_cloudflare.Webhooks.{WebhookTarget}
use chaintracks_cloudflare.Announce.Row.{
  Delivery, AnnounceState, is_hash, tip_announce, reclaim_announce, delivery_of, is_fork,
  record_delivery, clear_pending_reorg,
}

abbrev pub announce_stuck_after : ℕ
announce_stuck_after = 5

unfoldable pub tip_is_unannounced : ℕ → Option Text → ℕ → Text → Bool
tip_is_unannounced last_height last_hash height hash =
    ltb last_height height || (last_height == height && not (is_hash last_hash hash))

abbrev pub has_tip : Option Delivery → ℕ → Text → Bool
has_tip none height hash = false
has_tip (some d) height hash = (d.height == height) && text_eq d.hash hash

-- A target is owed the tip until its delivery of it is recorded.
unfoldable pub is_owed : List (Text × Delivery) → ℕ → Text → Text → Bool
unfolding delivery_of
is_owed ds height hash url = not (has_tip (delivery_of url ds) height hash)

unfoldable pub tip_webhook_body : ℕ → Text → Option ℕ → Text
tip_webhook_body height hash reorg_from =
    let lower = to_ascii_lowercase (trim hash) in
    codes "{\"height\":" ++ display height ++ codes ",\"hash\":\"" ++ lower ++ (elim reorg_from [
      | none ↦ codes "\"}"
      | some v ↦ codes "\",\"reorgFrom\":" ++ display v ++ codes "}"
    ])

-- The consumers: the targets, the token, and whether a POST of a body is answered with a 2xx.
pub record Hooks : Type 0 where
  pub targets : List WebhookTarget
  pub token : Text
  pub accepts : WebhookTarget → Text → Bool

-- What the winner of a claim read: the tip, the deliveries and the failures before the claim, and
-- the pending fork after it.
pub record Plan : Type 0 where
  pub height : ℕ
  pub hash : Text
  pub delivered : List (Text × Delivery)
  pub failures : ℕ
  pub reorg_from : Option ℕ

abbrev pub owed_targets :
    List WebhookTarget → List (Text × Delivery) → ℕ → Text → List WebhookTarget
owed_targets targets ds height hash = filter (λ t. is_owed ds height hash t.url) targets

-- The claim of the tip on the row as it is now, by an isolate that read `seen` before.
unfoldable pub claim :
    List WebhookTarget → AnnounceState → ℕ → ℕ → Text → AnnounceState → Option AnnounceState
unfolding tip_is_unannounced tip_announce reclaim_announce is_owed
claim targets seen now height hash st =
    if tip_is_unannounced seen.last_synced_height seen.last_announced_hash height hash
    then tip_announce now height hash st
    else (if (seen.last_synced_height == height)
          && (is_hash seen.last_announced_hash hash
              && not (length (owed_targets targets seen.deliveries height hash) == 0))
        then reclaim_announce now height hash st
        else none)

abbrev pub heard_before : List (Text × Delivery) → Text → Option ℕ
heard_before ds url = elim (delivery_of url ds) [ none ↦ none | some d ↦ d.reorg_from ]

-- The fork that a target's body carries: the pending one, unless the target has heard it.
unfoldable pub carry : Plan → Text → Option ℕ
unfolding delivery_of
carry p url = elim p.reorg_from [
  | none ↦ none
  | some v ↦ if is_fork (heard_before p.delivered url) v then none else some v
]

-- `notify_tip_webhooks`: who accepted, with the fork the body carried, and how many did not.
pub record Round : Type 0 where
  pub accepted : List (Text × Option ℕ)
  pub failed : ℕ

unfoldable pub post_all : Hooks → Plan → List WebhookTarget → Round
unfolding carry tip_webhook_body
post_all hooks p [] = record { accepted = []; failed = 0 }
post_all hooks p (t ∷ ts) =
    let rest = post_all hooks p ts in
    if hooks.accepts t (tip_webhook_body p.height p.hash (carry p t.url))
    then record rest { accepted = (t.url, carry p t.url) ∷ rest.accepted }
    else record rest { failed = rest.failed + 1 }

unfoldable pub notify_tip_webhooks : Hooks → Plan → List WebhookTarget → Round
unfolding post_all
notify_tip_webhooks hooks p owed =
    if length (trim hooks.token) == 0
    then record { accepted = []; failed = length owed }
    else post_all hooks p owed

unfoldable pub record_all : Plan → List (Text × Option ℕ) → AnnounceState → AnnounceState
unfolding record_delivery
record_all p [] st = st
record_all p (a ∷ r) st = record_all p r (record_delivery p.height p.hash a st)

-- The fork that a target accepted in the round: of the first entry with its URL.
unfoldable pub heard_now : Text → List (Text × Option ℕ) → Option ℕ
heard_now url [] = none
heard_now url ((u, c) ∷ r) = if text_eq u url then c else heard_now url r

unfoldable pub heard_by_all : Hooks → Plan → Round → ℕ → Bool
unfolding heard_now delivery_of
heard_by_all hooks p round v =
    all
      (λ t.
        is_fork (heard_now t.url round.accepted) v || is_fork (heard_before p.delivered t.url) v)
      hooks.targets

unfoldable pub settle_marker : Hooks → Plan → Round → AnnounceState → AnnounceState
unfolding heard_by_all clear_pending_reorg
settle_marker hooks p round st = elim p.reorg_from [
  | none ↦ st
  | some v ↦ if heard_by_all hooks p round v then clear_pending_reorg v st else st
]

unfoldable pub settle_failures : Plan → Round → AnnounceState → AnnounceState
settle_failures p round st =
    let n = min (p.failures + 1) u32_max in
    if round.failed == 0
    then record st { announce_failures = 0 }
    else (if n % announce_stuck_after == 0
        then record st {
          announce_failures = n;
          tip_announce_stuck_total = st.tip_announce_stuck_total + 1;
        }
        else record st { announce_failures = n })

-- The writes after the POSTs.
unfoldable pub settle : Hooks → Plan → Round → AnnounceState → AnnounceState
unfolding record_all settle_marker settle_failures
settle hooks p round st =
    settle_failures p round (settle_marker hooks p round (record_all p round.accepted st))

abbrev pub tip_hash : BlockHeader → Text
tip_hash tip = to_ascii_lowercase (trim tip.hash)

abbrev pub plan_of : BlockHeader → AnnounceState → AnnounceState → Plan
plan_of tip seen st = record {
  height = tip.height;
  hash = tip_hash tip;
  delivered = seen.deliveries;
  failures = seen.announce_failures;
  reorg_from = st.pending_reorg_from;
}

abbrev pub round_of : Hooks → Plan → Round
round_of hooks p =
    notify_tip_webhooks hooks p (owed_targets hooks.targets p.delivered p.height p.hash)

-- The whole of it, with no other isolate between the steps.
unfoldable pub notify_tip : Hooks → ℕ → Option BlockHeader → AnnounceState → AnnounceState
unfolding claim notify_tip_webhooks settle
notify_tip hooks now none st = st
notify_tip hooks now (some tip) st =
    elim (claim hooks.targets st now tip.height (tip_hash tip) st) [
      | none ↦ st
      | some st' ↦ let p = plan_of tip st st' in settle hooks p (round_of hooks p) st'
    ]
