-- ===== src/TipStream/Poll.antt =====
-- When a cron tick asks the couriers.
use chaintracks_cloudflare.Prelude.{
  ℕ, ◌+◌, ◌≤◌, ◌<◌, ◌≡◌, ◌≢◌, refl, ◌∙◌, ◌↔◌, none, Bool, true, false, List, [], ◌∷◌, All, arith,
  ◌⊎◌,
}
use chaintracks_cloudflare.Outcomes.{Outcome, known, busy, active, activated, stored_inactive}
use chaintracks_cloudflare.TipStream.{
  StreamState, PollState, ingested, hint, polled, note_behind, hinted, note_behind_or_hinted,
  poll_due,
}

-- A tick is left to the push exactly when a session is reading and the peer spoke within the
-- heartbeat, the store was not behind for more than one tick, and a push or a poll was heard
-- within the quiet interval (which is positive).
poll_due-none :
    (st : StreamState) (p : PollState) (now heartbeat quiet : ℕ)
    → 0 < quiet
    → (poll_due st p now heartbeat quiet ≡ none) ↔ (
        (st.reading ≡ true)
        × (now ≤ st.last_beat_at + heartbeat)
        × (p.behind_ticks ≤ 1)
        × ((now < st.last_push_at + quiet) ⊎ (now < p.last_poll_at + quiet)))
unfolding poll_due
poll_due-none st p now heartbeat quiet q = (λ e. ground arith, λ h. ground arith)

-- Outcomes that did not advance the active chain.
abbrev pub Unheard : Outcome → Type 0
Unheard o = (o ≢ active) × (o ≢ activated)

ingested-last_push_at :
    (st : StreamState) (o : Outcome) (now : ℕ)
    → Unheard o
    → (ingested st o now).last_push_at ≡ st.last_push_at
unfolding ingested
ingested-last_push_at st known now h = refl
ingested-last_push_at st busy now h = refl
ingested-last_push_at st active now h = absurd (h.0 refl)
ingested-last_push_at st activated now h = absurd (h.1 refl)
ingested-last_push_at st stored_inactive now h = refl

-- The door's answers in turn, each at its time.
pub pushes : StreamState → List (Outcome × ℕ) → StreamState
pushes st [] = st
pushes st ((o, at) ∷ os) = pushes (ingested st o at) os

pushes-last_push_at :
    (st : StreamState) (os : List (Outcome × ℕ))
    → All (λ o. Unheard o.0) os
    → (pushes st os).last_push_at ≡ st.last_push_at
unfolding pushes
pushes-last_push_at st [] h = refl
pushes-last_push_at st ((o, at) ∷ os) h =
    pushes-last_push_at (ingested st o at) os h.1 ∙ ingested-last_push_at st o at h.0

-- However often the peer pushes a header that does not advance the active chain (known, turned
-- away, or stored inactive), the poll is due once the quiet interval has passed since the last
-- push that did and the last poll.
pub poll_due-Unheard :
    (st : StreamState) (p : PollState) (os : List (Outcome × ℕ)) (now heartbeat quiet : ℕ)
    → All (λ o. Unheard o.0) os
    → st.last_push_at + quiet ≤ now
    → p.last_poll_at + quiet ≤ now
    → poll_due (pushes st os) p now heartbeat quiet ≢ none
unfolding poll_due
poll_due-Unheard st p os now heartbeat quiet h a b =
    let e = pushes-last_push_at st os h in λ n. ground (arith, e)

-- A push that did not land, above the tip that the stream last served and after the last poll,
-- makes the poll due by the second tick that finds it so, whatever the store's own answers were;
-- and the poll that runs spends it.
hint_polls :
    (st : StreamState) (p : PollState) (height at now heartbeat quiet requests : ℕ) (b b' : Bool)
    → st.last_tip_height < height
    → p.last_poll_at < at
    → at ≤ now
    → (poll_due
          (hint st height at)
          (note_behind_or_hinted
            (note_behind_or_hinted p b (hint st height at))
            b'
            (hint st height at))
          now
          heartbeat
          quiet
        ≢ none)
      × (hinted (hint st height at) (polled p requests true now) ≡ false)
unfolding poll_due note_behind_or_hinted note_behind hinted hint polled
hint_polls st p height at now heartbeat quiet requests b b' h k m =
    (λ n. ground arith, ground arith)
