-- ===== src/Examples/Announces.antt =====
-- The announce of a tip at concrete inputs.
use chaintracks_cloudflare.Prelude.{
  trim, to_ascii_lowercase, none, some, Text, codes, text_eq, true, false, not, ◌&&◌, [], ◌∷◌, ◌≡◌,
  refl, inr, arith,
}
use chaintracks_cloudflare.Webhooks.{WebhookTarget}
use chaintracks_cloudflare.Announce.Row.{AnnounceState}
use chaintracks_cloudflare.Announce.Notify.{
  Hooks, Plan, claim, is_owed, tip_hash, plan_of, round_of, settle, notify_tip, notify_tip_webhooks,
}
use chaintracks_cloudflare.Announce.Owed.{accepted_by, notify_tip-owed}
use chaintracks_cloudflare.Announce.Claims.{Since, claim-exclusive}
use chaintracks_cloudflare.Announce.Marker.{Kept, settle-Kept}
use chaintracks_cloudflare.Examples.Rows.{first}

abbrev target : Text → WebhookTarget
target url = record { binding = none; url = url }

-- Two consumers, of which the second refuses.
abbrev pub two_hooks : Hooks
two_hooks = record {
  targets = target (codes "https://a") ∷ target (codes "https://b") ∷ [];
  token = codes "t";
  accepts = λ t body. text_eq t.url (codes "https://a");
}

-- Nothing announced yet, a reorg's fork pending.
abbrev pub quiet : AnnounceState
quiet = record {
  last_synced_height = 0;
  last_announced_hash = none;
  live_sync_active = false;
  claimed_at = none;
  updated_at = 0;
  announce_failures = 0;
  tip_announce_stuck_total = 0;
  pending_reorg_from = some 1;
  deliveries = [];
}

abbrev claimed : AnnounceState
claimed = record quiet {
  last_synced_height = first.height;
  last_announced_hash = some (tip_hash first);
  live_sync_active = true;
  claimed_at = some 100;
  updated_at = 100;
}

claim_won : claim two_hooks.targets quiet 100 first.height (tip_hash first) quiet ≡ some claimed
unfolding claim
claim_won = refl

notify_tip-owed_example :
    is_owed
      (notify_tip two_hooks 100 (some first) quiet).deliveries
      first.height
      (tip_hash first)
      (codes "https://b")
    ≡ (is_owed quiet.deliveries first.height (tip_hash first) (codes "https://b")
        && not (accepted_by two_hooks (plan_of first quiet claimed) (codes "https://b")))
notify_tip-owed_example =
    notify_tip-owed two_hooks 100 first quiet claimed claim_won (codes "https://b")

abbrev plan : Plan
plan = plan_of first quiet claimed

claim-exclusive_example :
    claim two_hooks.targets quiet 120 first.height
      (tip_hash first)
      (settle two_hooks plan (round_of two_hooks plan) claimed)
    ≡ none
claim-exclusive_example =
    claim-exclusive two_hooks.targets quiet 100 first.height (tip_hash first) quiet claimed
      (settle two_hooks plan (round_of two_hooks plan) claimed) two_hooks.targets quiet 120
      first.height (tip_hash first) claim_won
      (Since.settles two_hooks plan (round_of two_hooks plan) Since.won) (omega arith)
      (inr (refl, refl))

settle-Kept_example :
    Kept two_hooks plan
      (round_of two_hooks plan)
      claimed.pending_reorg_from
      (settle two_hooks plan (round_of two_hooks plan) claimed).pending_reorg_from
settle-Kept_example = settle-Kept two_hooks plan (round_of two_hooks plan) claimed

-- One consumer refused, so the fork stays.
fork_stays : (settle two_hooks plan (round_of two_hooks plan) claimed).pending_reorg_from ≡ some 1
unfolding settle notify_tip_webhooks trim is_owed text_eq to_ascii_lowercase
fork_stays = refl
