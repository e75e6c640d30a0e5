-- ===== src/Examples/Stream.antt =====
-- The tip stream's theorems.
use chaintracks_cloudflare.Prelude.{
  ℕ, zero, suc, ◌+◌, ◌≤◌, ◌<◌, some, none, true, false, [], ◌∷◌, ◌≡◌, ◌≢◌, ◌⊎◌, ok, arith,
  if◌then◌else◌, add_u32,
}
use chaintracks_cloudflare.Types.{BlockHeader}
use chaintracks_cloudflare.Outcomes.{known, busy, active, stored_inactive}
use chaintracks_cloudflare.TipStream.{
  StreamState, PollState, Door, dropped, is_busy, through_the_lease, poll_due,
}
use chaintracks_cloudflare.TipStream.Poll.{pushes, poll_due-Unheard}
use chaintracks_cloudflare.TipStream.Lease.{through_the_lease-Ends, through_the_lease-dropped}
use chaintracks_cloudflare.Examples.Toy.{block}

abbrev stream : StreamState
stream = record {
  last_event_id = none;
  last_tip_height = 100;
  last_tip_hash = 1 ∷ [];
  reading = true;
  connected_at = 1000;
  last_beat_at = 5000;
  last_push_at = 4000;
  connects = 1;
  drops = 0;
  drops_in_row = 0;
  last_drop = none;
  events = 3;
  stored = 2;
  known_pushes = 0;
  refused = 0;
  last_fault = none;
  walk_requests = 0;
  busy_pushes = 0;
  hint_height = 0;
  hint_at = 0;
}

abbrev poll : PollState
poll = record {
  last_poll_at = 3000;
  polls_run = 1;
  polls_skipped = 0;
  poll_requests = 2;
  last_reason = none;
  behind_ticks = 0;
}

-- Turned away twice, then stored.
abbrev door : Door
door zero = ok (record { outcome = busy; walked = 0; tip_height = 0; tip_hash = [] })
door (suc zero) = ok (record { outcome = busy; walked = 0; tip_height = 0; tip_hash = [] })
door (suc (suc n)) =
    ok (record { outcome = active; walked = 1; tip_height = 101; tip_hash = 9 ∷ [] })

abbrev pushed : BlockHeader
pushed = block 9 (8 ∷ []) 101 7

poll_due-Unheard_example :
    poll_due (pushes stream ((known, 8000) ∷ (stored_inactive, 8500) ∷ [])) poll 9000 9000 5000
    ≢ none
poll_due-Unheard_example =
    poll_due-Unheard stream poll ((known, 8000) ∷ (stored_inactive, 8500) ∷ []) 9000 9000 5000
      ((λ e. ground arith, λ e. ground arith), ((λ e. ground arith, λ e. ground arith), tt))
      (omega arith) (omega arith)

through_the_lease-Ends_example :
    let r = through_the_lease door (λ i. 7000) (3 ∷ []) pushed 15 stream in
    (k : ℕ) × (k ≤ 15)
    × (r.1 ≡ door k)
    × (r.2 ≡ k + 1)
    × ((j : ℕ) → j < k → is_busy (door j) ≡ true)
    × ((is_busy (door k) ≡ false) ⊎ (k ≡ 15))
through_the_lease-Ends_example = through_the_lease-Ends door (λ i. 7000) (3 ∷ []) pushed 15 stream

through_the_lease-dropped_example :
    let r = through_the_lease door (λ i. 7000) (3 ∷ []) pushed 1 stream in
    (r.0.busy_pushes ≡ (if is_busy (door 0) then add_u32 0 1 else 0))
    × (is_busy r.1 ≡ true
        → (r.0.last_fault ≡ some (dropped (3 ∷ []) (9 ∷ []) 101 r.2))
          × (r.0.hint_height ≡ 101)
          × (r.0.hint_at ≡ 7000))
through_the_lease-dropped_example =
    through_the_lease-dropped door (λ i. 7000) (3 ∷ []) pushed 1 stream
