-- ===== src/Announce/Owed.antt =====
-- A target is owed a tip until its acceptance is recorded, and not after.
use chaintracks_cloudflare.Prelude.{
  ℕ, ◌+◌, ◌%◌, min, trim, length, Option, some, Text, text_eq, text_eq_iff, text_eq_refl, Bool,
  true, false, not, ◌&&◌, ◌||◌, List, [], ◌∷◌, any, ◌==◌, ==_iff, if-some, if-else-some, &&-both,
  text_eq-flip, if◌then◌else◌, ◌≡◌, refl, sym, ap, ◌∙◌, subst, inl, inr, Bool-cases, Option-cases,
  arith,
}
use chaintracks_cloudflare.Types.{BlockHeader}
use chaintracks_cloudflare.Webhooks.{WebhookTarget}
use chaintracks_cloudflare.Announce.Row.{
  Delivery, AnnounceState, is_hash, tip_announce, reclaim_announce, delivery_of, put_delivery,
  record_delivery, clear_pending_reorg, is_fork,
}
use chaintracks_cloudflare.Announce.Notify.{
  Hooks, Plan, Round, is_owed, claim, record_all, settle_marker, settle_failures, heard_by_all,
  settle, tip_hash, plan_of, round_of, notify_tip, owed_targets, carry, tip_webhook_body, post_all,
  notify_tip_webhooks, tip_is_unannounced,
}

and_true : (b : Bool) → (b && true) ≡ b
and_true b = ground arith

and_false : (b : Bool) → (b && false) ≡ false
and_false b = ground arith

and-not_or : (b c d : Bool) → ((b && not c) && not d) ≡ (b && not (c || d))
and-not_or b c d = ground arith

-- The claim is the tip's.
abbrev pub Claimed : ℕ → Text → AnnounceState → Type 0
Claimed height hash st =
    (st.last_synced_height ≡ height) × (is_hash st.last_announced_hash hash ≡ true)

-- What a claim that is won leaves: the claim is the tip's, and no delivery or fork is touched.
abbrev pub Won : ℕ → Text → AnnounceState → AnnounceState → Type 0
Won height hash st st' =
    Claimed height hash st'
    × (st'.deliveries ≡ st.deliveries)
    × (st'.pending_reorg_from ≡ st.pending_reorg_from)

tip_announce-Won :
    (now height : ℕ) (hash : Text) (st st' : AnnounceState)
    → tip_announce now height hash st ≡ some st'
    → Won height hash st st'
unfolding tip_announce
tip_announce-Won now height hash st st' h =
    subst (Won height hash st) (if-some _ _ st' h).1 ((refl, text_eq_refl hash), refl, refl)

reclaim_announce-Won :
    (now height : ℕ) (hash : Text) (st st' : AnnounceState)
    → reclaim_announce now height hash st ≡ some st'
    → Won height hash st st'
unfolding reclaim_announce
reclaim_announce-Won now height hash st st' h =
    let (c, e) = if-some _ _ st' h in
    let (a, b) = &&-both (st.last_synced_height == height) _ c in
    let (b, d) = &&-both (is_hash st.last_announced_hash hash) _ b in
    subst (Won height hash st) e (((==_iff st.last_synced_height height).0 a, b), refl, refl)

pub claim-Won :
    (targets : List WebhookTarget) (seen : AnnounceState) (now height : ℕ) (hash : Text)
    (st st' : AnnounceState)
    → claim targets seen now height hash st ≡ some st'
    → Won height hash st st'
unfolding claim
claim-Won targets seen now height hash st st' h =
    elim (Bool-cases
      (tip_is_unannounced seen.last_synced_height seen.last_announced_hash height hash)) [
        | inl e ↦ tip_announce-Won now height hash st st' (rw (claim, e) at h)
        | inr e ↦
            reclaim_announce-Won now height hash st st'
              (if-else-some _ _ st' (rw (claim, e) at h)).1
      ]

delivery_of-put_delivery :
    (u url : Text) (d : Delivery) (ds : List (Text × Delivery))
    → delivery_of url (put_delivery u d ds) ≡ (if text_eq u url then some d else delivery_of url ds)
unfolding delivery_of put_delivery
delivery_of-put_delivery u url d [] = refl
delivery_of-put_delivery u url d ((v, e) ∷ ds) = elim (Bool-cases (text_eq v u)) [
  | inr x ↦ elim (Bool-cases (text_eq v url)) [
    | inr y ↦ rw (put_delivery, x, delivery_of, y) (delivery_of-put_delivery u url d ds)
    | inl y ↦
        let apart : text_eq u url ≡ false =
          subst (λ w. text_eq u w ≡ false) ((text_eq_iff v url).0 y) (text_eq-flip v u x) in
        rw (put_delivery, x, delivery_of, y, apart) refl
  ]
  | inl x ↦
      let same = (text_eq_iff v u).0 x in
      rw (put_delivery, x, delivery_of, same)
        (elim (Bool-cases (text_eq u url)) [ inl y ↦ rw (y) refl | inr y ↦ rw (y) refl ])
]

abbrev pub took : List (Text × Option ℕ) → Text → Bool
took accepted url = any (λ a. text_eq a.0 url) accepted

record_delivery-Claimed :
    (height : ℕ) (hash : Text) (a : Text × Option ℕ) (st : AnnounceState)
    → Claimed height hash st
    → Claimed height hash (record_delivery height hash a st)
unfolding record_delivery
record_delivery-Claimed height hash (u, c) st (h, k) =
    rw (record_delivery, (==_iff st.last_synced_height height).1 h, k) (h, k)

-- A delivery recorded under its claim pays what is owed to its URL, and to no other.
is_owed-record_delivery :
    (height : ℕ) (hash : Text) (a : Text × Option ℕ) (st : AnnounceState) (url : Text)
    → Claimed height hash st
    → is_owed (record_delivery height hash a st).deliveries height hash url
      ≡ (is_owed st.deliveries height hash url && not (text_eq a.0 url))
unfolding record_delivery is_owed
is_owed-record_delivery height hash (u, c) st url (h, k) =
    rw (record_delivery, (==_iff st.last_synced_height height).1 h, k, delivery_of-put_delivery)
      (elim (Bool-cases (text_eq u url)) [
        | inl e ↦ rw (e, text_eq_refl hash, (==_iff height height).1 refl) (sym (and_false _))
        | inr e ↦ rw (e) (sym (and_true _))
      ])

is_owed-record_all :
    (p : Plan) (accepted : List (Text × Option ℕ)) (st : AnnounceState) (url : Text)
    → Claimed p.height p.hash st
    → is_owed (record_all p accepted st).deliveries p.height p.hash url
      ≡ (is_owed st.deliveries p.height p.hash url && not (took accepted url))
unfolding record_all
is_owed-record_all p [] st url k = sym (and_true _)
is_owed-record_all p (a ∷ r) st url k =
    is_owed-record_all p r (record_delivery p.height p.hash a st) url
      (record_delivery-Claimed p.height p.hash a st k)
    ∙ ap (λ b. b && not (took r url)) (is_owed-record_delivery p.height p.hash a st url k)
    ∙ and-not_or _ (text_eq a.0 url) (took r url)

clear-deliveries :
    (v : ℕ) (st : AnnounceState) → (clear_pending_reorg v st).deliveries ≡ st.deliveries
unfolding clear_pending_reorg
clear-deliveries v st = elim (Bool-cases (is_fork st.pending_reorg_from v)) [
  | inl e ↦ rw (clear_pending_reorg, e) refl
  | inr e ↦ rw (clear_pending_reorg, e) refl
]

settle_marker-deliveries :
    (hooks : Hooks) (p : Plan) (round : Round) (st : AnnounceState)
    → (settle_marker hooks p round st).deliveries ≡ st.deliveries
unfolding settle_marker
settle_marker-deliveries hooks p round st = elim (Option-cases p.reorg_from) [
  | inl e ↦ rw (settle_marker, e) refl
  | inr (v, e) ↦ elim (Bool-cases (heard_by_all hooks p round v)) [
    | inl f ↦ rw (settle_marker, e, f) (clear-deliveries v st)
    | inr f ↦ rw (settle_marker, e, f) refl
  ]
]

settle_failures-deliveries :
    (p : Plan) (round : Round) (st : AnnounceState)
    → (settle_failures p round st).deliveries ≡ st.deliveries
unfolding settle_failures
settle_failures-deliveries p round st = elim (Bool-cases (round.failed == 0)) [
  | inl e ↦ rw (settle_failures, e) refl
  | inr e ↦ elim (Bool-cases (min (p.failures + 1) 4294967295 % 5 == 0)) [
    | inl f ↦ rw (settle_failures, e, f) refl
    | inr f ↦ rw (settle_failures, e, f) refl
  ]
]

settle-deliveries :
    (hooks : Hooks) (p : Plan) (round : Round) (st : AnnounceState)
    → (settle hooks p round st).deliveries ≡ (record_all p round.accepted st).deliveries
unfolding settle
settle-deliveries hooks p round st =
    let st' = record_all p round.accepted st in
    settle_failures-deliveries p round (settle_marker hooks p round st')
    ∙ settle_marker-deliveries hooks p round st'

-- The consumer's own answer to the POST of the tip to its URL.
abbrev pub said_yes : Hooks → Plan → Text → WebhookTarget → Bool
said_yes hooks p url t =
    text_eq t.url url && hooks.accepts t (tip_webhook_body p.height p.hash (carry p t.url))

took-post_all :
    (hooks : Hooks) (p : Plan) (url : Text) (ts : List WebhookTarget)
    → took (post_all hooks p ts).accepted url ≡ any (said_yes hooks p url) ts
unfolding post_all
took-post_all hooks p url [] = refl
took-post_all hooks p url (t ∷ ts) =
    elim (Bool-cases (hooks.accepts t (tip_webhook_body p.height p.hash (carry p t.url)))) [
      | inl e ↦ rw (post_all, e, took-post_all hooks p url ts, and_true (text_eq t.url url)) refl
      | inr e ↦ rw (post_all, e, took-post_all hooks p url ts, and_false (text_eq t.url url)) refl
    ]

any-owed :
    (hooks : Hooks) (p : Plan) (url : Text) (ts : List WebhookTarget)
    → is_owed p.delivered p.height p.hash url ≡ true
    → any (said_yes hooks p url) (owed_targets ts p.delivered p.height p.hash)
      ≡ any (said_yes hooks p url) ts
any-owed hooks p url [] o = refl
any-owed hooks p url (t ∷ ts) o = elim (Bool-cases (is_owed p.delivered p.height p.hash t.url)) [
  | inl e ↦ rw (e, any-owed hooks p url ts o) refl
  | inr e ↦
      let apart : text_eq t.url url ≡ false = (elim (Bool-cases (text_eq t.url url)) [
        | inl x ↦
            let paid : is_owed p.delivered p.height p.hash url ≡ false =
              subst (λ u. is_owed p.delivered p.height p.hash u ≡ false)
                ((text_eq_iff t.url url).0 x) e in
            cc
        | inr x ↦ x
      ]) in
      rw (e, any-owed hooks p url ts o, apart) refl
]

-- A POST is sent only with a token.
abbrev pub accepted_by : Hooks → Plan → Text → Bool
accepted_by hooks p url =
    not (length (trim hooks.token) == 0) && any (said_yes hooks p url) hooks.targets

took-accepted :
    (hooks : Hooks) (p : Plan) (url : Text)
    → (is_owed p.delivered p.height p.hash url && not (took (round_of hooks p).accepted url))
      ≡ (is_owed p.delivered p.height p.hash url && not (accepted_by hooks p url))
unfolding notify_tip_webhooks
took-accepted hooks p url = elim (Bool-cases (is_owed p.delivered p.height p.hash url)) [
  | inr o ↦ rw (o) refl
  | inl o ↦ elim (Bool-cases (length (trim hooks.token) == 0)) [
    | inl e ↦ rw (o, notify_tip_webhooks, e) refl
    | inr e ↦
        rw
          (
            o,
            notify_tip_webhooks,
            e,
            took-post_all hooks p url (owed_targets hooks.targets p.delivered p.height p.hash),
            any-owed hooks p url hooks.targets o,
          )
          refl
  ]
]

module _ (hooks : Hooks) (now : ℕ) (tip : BlockHeader) (st st' : AnnounceState) where
  abbrev round : Round
  round = round_of hooks (plan_of tip st st')

  notify_tip-claimed :
      claim hooks.targets st now tip.height (tip_hash tip) st ≡ some st'
      → notify_tip hooks now (some tip) st ≡ settle hooks (plan_of tip st st') round st'
  unfolding notify_tip
  notify_tip-claimed c = rw (notify_tip, c) refl

  -- After an announce whose claim is won, a URL is owed the tip exactly when it was owed it before
  -- and no configured target with that URL answered the POST of the tip with an acceptance, or no
  -- POST could be sent for want of a token.
  pub notify_tip-owed :
      claim hooks.targets st now tip.height (tip_hash tip) st ≡ some st'
      → (url : Text)
      → is_owed (notify_tip hooks now (some tip) st).deliveries tip.height (tip_hash tip) url ≡ (
          is_owed st.deliveries tip.height (tip_hash tip) url
          && not (accepted_by hooks (plan_of tip st st') url))
  notify_tip-owed c url =
      let p = plan_of tip st st' in
      let (k, d, m) = claim-Won hooks.targets st now tip.height (tip_hash tip) st st' c in
      ap (λ (x : AnnounceState). is_owed x.deliveries tip.height (tip_hash tip) url)
        (notify_tip-claimed c)
      ∙ ap (λ ds. is_owed ds tip.height (tip_hash tip) url) (settle-deliveries hooks p round st')
      ∙ is_owed-record_all p round.accepted st' url k
      ∙ ap (λ ds. is_owed ds tip.height (tip_hash tip) url && not (took round.accepted url)) d
      ∙ took-accepted hooks p url
