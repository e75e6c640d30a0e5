-- ===== src/Events/Outbox/Ticks.antt =====
-- A whole tick of the outbox, over every target, under both feeds.
use mathlib.Core.List.{map}
use chaintracks_cloudflare.Prelude.{
  ℕ, ◌/◌, ltb, ◌==◌, length, ◌≡◌, refl, sym, subst, ◌⊎◌, inl, inr, Bool-cases, Has,
}
use chaintracks_cloudflare.Webhooks.{WebhookTarget}
use chaintracks_cloudflare.Store.Distinct.{Distinct}
use chaintracks_cloudflare.Events.Decode.{Serde}
use chaintracks_cloudflare.Events.Journal.{Feed, v1, v2, Journal}
use chaintracks_cloudflare.Events.Outbox.{
  TipWebhooks, target_key, from, deliver_v1, deliver_v2, deliver,
}
use chaintracks_cloudflare.Events.Outbox.Accepted.{Ascending, Heard, stays-Heard}
use chaintracks_cloudflare.Events.Outbox.Turns.{turns-Heard, deliver_v1-Heard}

-- Where a target with no stored cursor starts: the journal's start, or the floor under feed 2.
abbrev pub start_at : Feed → Journal → ℕ
start_at v1 j = 0
start_at v2 j = j.floor

Feed-cases : (f : Feed) → (f ≡ v1) ⊎ (f ≡ v2)
Feed-cases v1 = inl refl
Feed-cases v2 = inr refl

-- A tick is refused, or is one of the two feeds'.
deliver-cases :
    ⦃s : Serde⦄ (hooks : TipWebhooks) (j : Journal)
    → let limit = 32 / length hooks.targets in
      ((deliver hooks j).0 ≡ j)
      ⊎ ((hooks.feed ≡ v1) × ((deliver hooks j).0 ≡ (deliver_v1 hooks limit hooks.targets j).0))
      ⊎ ((hooks.feed ≡ v2) × ((deliver hooks j).0 ≡ deliver_v2 hooks limit j))
unfolding deliver
deliver-cases hooks j = elim (Bool-cases (length hooks.targets == 0)) [
  | inl a ↦ inl (rw (deliver, a) refl)
  | inr a ↦ elim (Bool-cases (ltb 32 (length hooks.targets))) [
    | inl b ↦ inl (rw (deliver, a, b) refl)
    | inr b ↦ elim (Bool-cases (length hooks.token == 0)) [
      | inl c ↦ inl (rw (deliver, a, b, c) refl)
      | inr c ↦ elim (Feed-cases hooks.feed) [
        | inl f ↦ inr (inl (f, rw (deliver, a, b, c, f) refl))
        | inr f ↦ inr (inr (f, rw (deliver, a, b, c, f) refl))
      ]
    ]
  ]
]

-- Over a tick of the outbox under either feed, where no two targets have one key: the cursor of a
-- configured target does not move back, and every row between its cursor before the tick and its
-- cursor after it was accepted by that target.
pub deliver-Heard :
    ⦃s : Serde⦄ (hooks : TipWebhooks) (j : Journal) (t : WebhookTarget)
    → Ascending j.rows
    → Distinct (map target_key hooks.targets)
    → Has t hooks.targets
    → Heard
        (hooks.accepts t)
        (from (start_at hooks.feed j) (target_key t) j.deliveries)
        (from (start_at hooks.feed j) (target_key t) (deliver hooks j).0.deliveries)
        j.rows
unfolding deliver_v2
deliver-Heard hooks j t u d m =
    let k = target_key t in
    let acc = hooks.accepts t in
    let limit = 32 / length hooks.targets in
    let Ended : ℕ → Journal → Type 0 =
      (λ z j'. Heard acc (from z k j.deliveries) (from z k j'.deliveries) j.rows) in
    elim (deliver-cases hooks j) [
      | inl e ↦ subst (Ended (start_at hooks.feed j)) (sym e) (stays-Heard acc _ j.rows)
      | inr (inl (f, e)) ↦ subst (Ended (start_at hooks.feed j)) (sym e) (
          subst (λ v. Ended (start_at v j) (deliver_v1 hooks limit hooks.targets j).0) (sym f)
            (deliver_v1-Heard hooks limit hooks.targets j t u d m))
      | inr (inr (f, e)) ↦ subst (Ended (start_at hooks.feed j)) (sym e) (
          subst (λ v. Ended (start_at v j) (deliver_v2 hooks limit j)) (sym f)
            (turns-Heard hooks limit j t hooks.targets j.deliveries u d m refl))
    ]
