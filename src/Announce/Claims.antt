-- ===== src/Announce/Claims.antt =====
-- One isolate announces a tip.
use chaintracks_cloudflare.Prelude.{
  ℕ, ◌+◌, ◌%◌, min, ◌<◌, ◌&&◌, [], ◌∷◌, Option-cases, Option, none, some, Text, text_eq_refl, Bool,
  true, false, List, ◌==◌, ==_iff, if◌then◌else◌, if-some, if-else-some, &&-both, ◌≡◌, refl, subst,
  ◌⊎◌, inl, inr, Bool-cases, arith,
}
use chaintracks_cloudflare.Webhooks.{WebhookTarget}
use chaintracks_cloudflare.Announce.Row.{
  AnnounceState, is_hash, is_fork, tip_announce, reclaim_announce, record_delivery,
  clear_pending_reorg,
}
use chaintracks_cloudflare.Announce.Notify.{
  Hooks, Plan, Round, claim, tip_is_unannounced, record_all, heard_by_all, settle_marker,
  settle_failures, settle,
}

-- The claim as it stands just after one isolate has won it at `now`.
abbrev Fresh : ℕ → ℕ → Text → AnnounceState → Type 0
Fresh now height hash st =
    (st.last_synced_height ≡ height)
    × (is_hash st.last_announced_hash hash ≡ true)
    × (st.claimed_at ≡ some now)

claim-Fresh :
    (targets : List WebhookTarget) (seen : AnnounceState) (now height : ℕ) (hash : Text)
    (st st' : AnnounceState)
    → claim targets seen now height hash st ≡ some st'
    → Fresh now height hash st'
unfolding claim tip_announce reclaim_announce
claim-Fresh targets seen now height hash st st' h =
    elim (Bool-cases
      (tip_is_unannounced seen.last_synced_height seen.last_announced_hash height hash)) [
        | inl e ↦
            subst (Fresh now height hash) (if-some _ _ st' (rw (claim, e, tip_announce) at h)).1
              (refl, text_eq_refl hash, refl)
        | inr e ↦
            let (c, k) = if-else-some _ _ st' (rw (claim, e) at h) in
            let (d, q) = if-some _ _ st' k in
            let (a, b) = &&-both (st.last_synced_height == height) _ d in
            subst (Fresh now height hash) q (
              (==_iff st.last_synced_height height).0 a,
              (&&-both (is_hash st.last_announced_hash hash) _ b).0,
              refl,
            )
      ]

-- A tip that stands no higher than the claim's, and is not another one of its height.
abbrev pub Behind : ℕ → Text → ℕ → Text → Type 0
Behind height hash other other_hash = (other < height) ⊎ ((other ≡ height) × (other_hash ≡ hash))

tip_announce-none :
    (now height : ℕ) (hash : Text) (other : ℕ) (other_hash : Text) (now' : ℕ) (st : AnnounceState)
    → Fresh now height hash st
    → Behind height hash other other_hash
    → tip_announce now' other other_hash st ≡ none
unfolding tip_announce
tip_announce-none now height hash other other_hash now' st (a, b, c) (inl h) = ground arith
tip_announce-none now height hash other other_hash now' st (a, b, c) (inr (h, k)) =
    rw (tip_announce, h, k, a, b) (ground arith)

reclaim_announce-none :
    (now height : ℕ) (hash : Text) (other : ℕ) (other_hash : Text) (now' : ℕ) (st : AnnounceState)
    → Fresh now height hash st
    → now' < now + 45
    → Behind height hash other other_hash
    → reclaim_announce now' other other_hash st ≡ none
unfolding reclaim_announce
reclaim_announce-none now height hash other other_hash now' st (a, b, c) l (inl h) = ground arith
reclaim_announce-none now height hash other other_hash now' st (a, b, c) l (inr (h, k)) =
    rw (reclaim_announce, h, k, a, b, c) (ground arith)

if-none : {A : Type 0} (b : Bool) (o : Option A) → o ≡ none → (if b then o else none) ≡ none
if-none true o h = h
if-none false o h = refl

record_delivery-Fresh :
    (now height : ℕ) (hash : Text) (h : ℕ) (k : Text) (a : Text × Option ℕ) (st : AnnounceState)
    → Fresh now height hash st
    → Fresh now height hash (record_delivery h k a st)
unfolding record_delivery
record_delivery-Fresh now height hash h k (url, carried) st f =
    elim (Bool-cases ((st.last_synced_height == h) && is_hash st.last_announced_hash k)) [
      | inl e ↦ rw (record_delivery, e) f
      | inr e ↦ rw (record_delivery, e) f
    ]

record_all-Fresh :
    (now height : ℕ) (hash : Text) (p : Plan) (taken : List (Text × Option ℕ)) (st : AnnounceState)
    → Fresh now height hash st
    → Fresh now height hash (record_all p taken st)
unfolding record_all
record_all-Fresh now height hash p [] st f = f
record_all-Fresh now height hash p (a ∷ taken) st f =
    record_all-Fresh now height hash p taken (record_delivery p.height p.hash a st)
      (record_delivery-Fresh now height hash p.height p.hash a st f)

clear-Fresh :
    (now height : ℕ) (hash : Text) (v : ℕ) (st : AnnounceState)
    → Fresh now height hash st
    → Fresh now height hash (clear_pending_reorg v st)
unfolding clear_pending_reorg
clear-Fresh now height hash v st f = elim (Bool-cases (is_fork st.pending_reorg_from v)) [
  | inl e ↦ rw (clear_pending_reorg, e) f
  | inr e ↦ rw (clear_pending_reorg, e) f
]

settle_marker-Fresh :
    (now height : ℕ) (hash : Text) (hooks : Hooks) (p : Plan) (round : Round) (st : AnnounceState)
    → Fresh now height hash st
    → Fresh now height hash (settle_marker hooks p round st)
unfolding settle_marker
settle_marker-Fresh now height hash hooks p round st f = elim (Option-cases p.reorg_from) [
  | inl e ↦ rw (settle_marker, e) f
  | inr (v, e) ↦ elim (Bool-cases (heard_by_all hooks p round v)) [
    | inl x ↦ rw (settle_marker, e, x) (clear-Fresh now height hash v st f)
    | inr x ↦ rw (settle_marker, e, x) f
  ]
]

settle_failures-Fresh :
    (now height : ℕ) (hash : Text) (p : Plan) (round : Round) (st : AnnounceState)
    → Fresh now height hash st
    → Fresh now height hash (settle_failures p round st)
unfolding settle_failures
settle_failures-Fresh now height hash p round st f = elim (Bool-cases (round.failed == 0)) [
  | inl e ↦ rw (settle_failures, e) f
  | inr e ↦ elim (Bool-cases (min (p.failures + 1) 4294967295 % 5 == 0)) [
    | inl x ↦ rw (settle_failures, e, x) f
    | inr x ↦ rw (settle_failures, e, x) f
  ]
]

settle-Fresh :
    (now height : ℕ) (hash : Text) (hooks : Hooks) (p : Plan) (round : Round) (st : AnnounceState)
    → Fresh now height hash st
    → Fresh now height hash (settle hooks p round st)
unfolding settle
settle-Fresh now height hash hooks p round st f =
    let told = record_all p round.accepted st in
    settle_failures-Fresh now height hash p round (settle_marker hooks p round told) (
      settle_marker-Fresh now height hash hooks p round told
        (record_all-Fresh now height hash p round.accepted st f))

claim-none :
    (now height : ℕ) (hash : Text) (targets : List WebhookTarget) (seen : AnnounceState)
    (now' other : ℕ) (other_hash : Text) (st : AnnounceState)
    → Fresh now height hash st
    → now' < now + 45
    → Behind height hash other other_hash
    → claim targets seen now' other other_hash st ≡ none
unfolding claim
claim-none now height hash targets seen now' other other_hash st f l h =
    elim (Bool-cases
      (tip_is_unannounced seen.last_synced_height seen.last_announced_hash other other_hash)) [
        | inl e ↦ rw (claim, e) (tip_announce-none now height hash other other_hash now' st f h)
        | inr e ↦
            rw (claim, e)
              (if-none _ _ (reclaim_announce-none now height hash other other_hash now' st f l h))
      ]

-- What isolates do to the row in the 45 seconds after a claim at `now`: they settle their rounds,
-- record a reorg's fork, and ask for the claim of a tip that is behind.
pub data Since (now height : ℕ) (hash : Text) (st : AnnounceState) : AnnounceState → Type 0 where
  won : Since now height hash st st
  settles :
      {s : AnnounceState} (hooks : Hooks) (p : Plan) (round : Round)
      → Since now height hash st s
      → Since now height hash st (settle hooks p round s)
  forks :
      {s : AnnounceState} (fork : Option ℕ)
      → Since now height hash st s
      → Since now height hash st (record s { pending_reorg_from = fork })
  asks :
      {s : AnnounceState} (targets : List WebhookTarget) (seen : AnnounceState) (now' other : ℕ)
      (other_hash : Text)
      → now' < now + 45
      → Behind height hash other other_hash
      → Since now height hash st s
      → Since now height hash st
          (elim (claim targets seen now' other other_hash s) [ none ↦ s | some t ↦ t ])

Since-Fresh :
    {now height : ℕ} {hash : Text} {st s : AnnounceState}
    → Fresh now height hash st
    → Since now height hash st s
    → Fresh now height hash s
Since-Fresh f won = f
Since-Fresh {now} {height} {hash} f (settles hooks p round w) =
    settle-Fresh now height hash hooks p round _ (Since-Fresh f w)
Since-Fresh f (forks fork w) = Since-Fresh f w
Since-Fresh {now} {height} {hash} f (asks {s = s} targets seen now' other other_hash l h w) =
    let g = Since-Fresh f w in
    rw (claim-none now height hash targets seen now' other other_hash s g l h) g

-- Once an isolate has won the claim of a tip, no isolate wins that tip's claim in the next 45
-- seconds, nor the claim of a lower tip, whatever it had read of the row and of the deliveries and
-- whatever its targets are, and whatever rounds were settled, forks recorded and claims of such tips
-- asked for meanwhile; the claim of a higher tip, or of another tip of that height, ends this.
pub claim-exclusive :
    (targets : List WebhookTarget) (seen : AnnounceState) (now height : ℕ) (hash : Text)
    (st st' s : AnnounceState) (targets' : List WebhookTarget) (seen' : AnnounceState)
    (now' other : ℕ) (other_hash : Text)
    → claim targets seen now height hash st ≡ some st'
    → Since now height hash st' s
    → now' < now + 45
    → Behind height hash other other_hash
    → claim targets' seen' now' other other_hash s ≡ none
claim-exclusive targets seen now height hash st st' s targets' seen' now' other other_hash c w l h =
    claim-none now height hash targets' seen' now' other other_hash s
      (Since-Fresh (claim-Fresh targets seen now height hash st st' c) w) l h
