-- ===== src/Announce/Marker.antt =====
-- The fork height of a reorg is kept until every target has heard it.
use chaintracks_cloudflare.Prelude.{
  ℕ, ◌+◌, ◌%◌, min, Option, none, some, Text, Bool, true, ◌&&◌, ◌||◌, List, [], ◌∷◌, all, ◌==◌,
  ==_iff, &&-both, ◌≡◌, refl, sym, ap, ◌∙◌, subst, ◌⊎◌, inl, inr, Bool-cases, Option-cases, All,
}
use chaintracks_cloudflare.Webhooks.{WebhookTarget}
use chaintracks_cloudflare.Announce.Row.{
  AnnounceState, is_hash, is_fork, record_delivery, clear_pending_reorg,
}
use chaintracks_cloudflare.Announce.Notify.{
  Hooks, Plan, Round, heard_before, heard_now, heard_by_all, record_all, settle_marker,
  settle_failures, settle,
}

-- A target has heard of a fork: it accepted a body with it in this round, or before.
abbrev pub HasHeard : Plan → Round → ℕ → WebhookTarget → Type 0
HasHeard p round v t =
    (heard_now t.url round.accepted ≡ some v) ⊎ (heard_before p.delivered t.url ≡ some v)

is_fork-some : (o : Option ℕ) (v : ℕ) → is_fork o v ≡ true → o ≡ some v
is_fork-some none v h = cc
is_fork-some (some w) v h = ap some ((==_iff w v).0 h)

abbrev told : Plan → Round → ℕ → WebhookTarget → Bool
told p round v t =
    is_fork (heard_now t.url round.accepted) v || is_fork (heard_before p.delivered t.url) v

told-HasHeard :
    (p : Plan) (round : Round) (v : ℕ) (t : WebhookTarget)
    → told p round v t ≡ true
    → HasHeard p round v t
told-HasHeard p round v t h = elim (Bool-cases (is_fork (heard_now t.url round.accepted) v)) [
  | inl e ↦ inl (is_fork-some (heard_now t.url round.accepted) v e)
  | inr e ↦ inr (is_fork-some (heard_before p.delivered t.url) v (rw (e) at h))
]

all-HasHeard :
    (p : Plan) (round : Round) (v : ℕ) (ts : List WebhookTarget)
    → all (told p round v) ts ≡ true
    → All (HasHeard p round v) ts
all-HasHeard p round v [] h = tt
all-HasHeard p round v (t ∷ ts) h =
    let (a, b) = &&-both (told p round v t) (all (told p round v) ts) h in
    (told-HasHeard p round v t a, all-HasHeard p round v ts b)

record_delivery-marker :
    (height : ℕ) (hash : Text) (a : Text × Option ℕ) (st : AnnounceState)
    → (record_delivery height hash a st).pending_reorg_from ≡ st.pending_reorg_from
unfolding record_delivery
record_delivery-marker height hash (u, c) st =
    elim (Bool-cases ((st.last_synced_height == height) && is_hash st.last_announced_hash hash)) [
      | inl e ↦ rw (record_delivery, e) refl
      | inr e ↦ rw (record_delivery, e) refl
    ]

record_all-marker :
    (p : Plan) (accepted : List (Text × Option ℕ)) (st : AnnounceState)
    → (record_all p accepted st).pending_reorg_from ≡ st.pending_reorg_from
unfolding record_all
record_all-marker p [] st = refl
record_all-marker p (a ∷ r) st =
    record_all-marker p r (record_delivery p.height p.hash a st)
    ∙ record_delivery-marker p.height p.hash a st

settle_failures-marker :
    (p : Plan) (round : Round) (st : AnnounceState)
    → (settle_failures p round st).pending_reorg_from ≡ st.pending_reorg_from
unfolding settle_failures
settle_failures-marker p round st = elim (Bool-cases (round.failed == 0)) [
  | inl e ↦ rw (settle_failures, e) refl
  | inr e ↦ elim (Bool-cases (min (p.failures + 1) 4294967295 % 5 == 0)) [
    | inl f ↦ rw (settle_failures, e, f) refl
    | inr f ↦ rw (settle_failures, e, f) refl
  ]
]

-- What the marker comes to: kept, or cleared where it is the fork carried and all have heard it.
abbrev pub Kept : Hooks → Plan → Round → Option ℕ → Option ℕ → Type 0
Kept hooks p round before after =
    (after ≡ before)
    ⊎ ((v : ℕ) × (p.reorg_from ≡ some v)
        × (before ≡ some v)
        × (after ≡ none)
        × All (HasHeard p round v) hooks.targets)

settle_marker-Kept :
    (hooks : Hooks) (p : Plan) (round : Round) (st : AnnounceState)
    → Kept hooks p round st.pending_reorg_from (settle_marker hooks p round st).pending_reorg_from
unfolding settle_marker heard_by_all clear_pending_reorg
settle_marker-Kept hooks p round st = elim (Option-cases p.reorg_from) [
  | inl e ↦ inl (rw (settle_marker, e) refl)
  | inr (v, e) ↦ elim (Bool-cases (heard_by_all hooks p round v)) [
    | inr f ↦ inl (rw (settle_marker, e, f) refl)
    | inl f ↦ elim (Bool-cases (is_fork st.pending_reorg_from v)) [
      | inr g ↦ inl (rw (settle_marker, e, f, clear_pending_reorg, g) refl)
      | inl g ↦ inr (
        v,
        e,
        is_fork-some st.pending_reorg_from v g,
        rw (settle_marker, e, f, clear_pending_reorg, g) refl,
        all-HasHeard p round v hooks.targets f,
      )
    ]
  ]
]

-- The writes after a round, on the row as it is by then and whatever other isolates wrote to it:
-- the pending fork stays as it is, a deeper one recorded meanwhile included, or it is the fork that
-- the winner read, every configured target has heard of exactly that one, and it is cleared.
pub settle-Kept :
    (hooks : Hooks) (p : Plan) (round : Round) (st : AnnounceState)
    → Kept hooks p round st.pending_reorg_from (settle hooks p round st).pending_reorg_from
unfolding settle
settle-Kept hooks p round st =
    let st' = record_all p round.accepted st in
    let before = record_all-marker p round.accepted st in
    let after = settle_failures-marker p round (settle_marker hooks p round st') in
    subst (λ o. Kept hooks p round o (settle hooks p round st).pending_reorg_from) before
      (subst (Kept hooks p round st'.pending_reorg_from) (sym after)
        (settle_marker-Kept hooks p round st'))
