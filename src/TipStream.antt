-- ===== src/TipStream.antt =====
-- src/tip_stream.rs: the state of the push source, the poll's record, the rule of which cron ticks
-- ask the couriers, and a push asked again while the writer lease is held.
pub mod Poll
pub mod Lease
use chaintracks_cloudflare.Prelude.{
  ℕ, zero, suc, ◌+◌, ◌-◌, ◌*◌, ◌^◌, min, max, Option, none, some, Text, Bool, true, false, not,
  ◌&&◌, ◌||◌, ltb, leb, ◌==◌, if◌then◌else◌, add_u32, u32_max, Result, ok, err,
}
use chaintracks_cloudflare.Types.{BlockHeader}
use chaintracks_cloudflare.Outcomes.{
  IngestError, StoreFault, Outcome, known, busy, active, activated, stored_inactive, Announced,
  unjudged,
}

abbrev pub backoff_first_ms : ℕ
backoff_first_ms = 1000

abbrev pub backoff_cap_ms : ℕ
backoff_cap_ms = 60000

unfoldable pub backoff_ms : ℕ → ℕ
backoff_ms drops_in_row = min (backoff_first_ms * 2 ^ min (drops_in_row - 1) 16) backoff_cap_ms

-- `last_fault`: the line of a dropped push (who, the hash, the height, the asks), or the answer's fault.
pub data FaultLine : Type 0 where
  dropped : Text → Text → ℕ → ℕ → FaultLine
  refusal store_fault : StoreFault → FaultLine

pub record StreamState : Type 0 where
  pub last_event_id : Option Text
  pub last_tip_height : ℕ
  pub last_tip_hash : Text
  pub reading : Bool
  pub connected_at : ℕ
  pub last_beat_at : ℕ
  pub last_push_at : ℕ
  pub connects : ℕ
  pub drops : ℕ
  pub drops_in_row : ℕ
  pub last_drop : Option Text
  pub events : ℕ
  pub stored : ℕ
  pub known_pushes : ℕ
  pub refused : ℕ
  pub last_fault : Option FaultLine
  pub walk_requests : ℕ
  pub busy_pushes : ℕ
  pub hint_height : ℕ
  pub hint_at : ℕ

-- `saturating_sub` is the truncated difference.
unfoldable pub live : StreamState → ℕ → ℕ → Bool
live st now heartbeat_ms = st.reading && leb (now - st.last_beat_at) heartbeat_ms

unfoldable pub ingested : StreamState → Outcome → ℕ → StreamState
ingested st known now = record st { known_pushes = add_u32 st.known_pushes 1 }
ingested st busy now = record st { busy_pushes = add_u32 st.busy_pushes 1 }
ingested st active now = record st { stored = add_u32 st.stored 1; last_push_at = now }
ingested st activated now = record st { stored = add_u32 st.stored 1; last_push_at = now }
ingested st stored_inactive now = record st { stored = add_u32 st.stored 1 }

unfoldable pub hint : StreamState → ℕ → ℕ → StreamState
hint st height now = record st { hint_height = height; hint_at = now }

unfoldable pub wake_due : StreamState → ℕ → ℕ → Option ℕ → Bool
unfolding live
wake_due st now heartbeat_ms alarm =
    not (live st now heartbeat_ms) && (elim alarm [ none ↦ true | some at ↦ ltb (now + 60000) at ])

pub data Reason : Type 0 where
  stream_down store_behind push_quiet : Reason

pub record PollState : Type 0 where
  pub last_poll_at : ℕ
  pub polls_run : ℕ
  pub polls_skipped : ℕ
  pub poll_requests : ℕ
  pub last_reason : Option Reason
  pub behind_ticks : ℕ

unfoldable pub woke : PollState → Option Reason → ℕ → PollState
woke p (some why) now = record p { polls_run = add_u32 p.polls_run 1; last_reason = some why }
woke p none now = record p { polls_skipped = add_u32 p.polls_skipped 1 }

unfoldable pub polled : PollState → ℕ → Bool → ℕ → PollState
polled p requests ran now = record p {
  poll_requests = add_u32 p.poll_requests requests;
  last_poll_at = if ran then now else p.last_poll_at;
}

unfoldable pub note_behind : PollState → Bool → PollState
note_behind p behind = record p {
  behind_ticks = if behind then min (p.behind_ticks + 1) u32_max else 0;
}

unfoldable pub hinted : StreamState → PollState → Bool
hinted st p = ltb p.last_poll_at st.hint_at && ltb st.last_tip_height st.hint_height

unfoldable pub note_behind_or_hinted : PollState → Bool → StreamState → PollState
unfolding note_behind hinted
note_behind_or_hinted p behind st = note_behind p (behind || hinted st p)

unfoldable pub poll_due : StreamState → PollState → ℕ → ℕ → ℕ → Option Reason
unfolding live
poll_due st p now heartbeat_ms quiet_ms =
    if live st now heartbeat_ms
    then (if ltb 1 p.behind_ticks
        then some store_behind
        else (if leb quiet_ms (now - max st.last_push_at p.last_poll_at)
            then some push_quiet
            else none))
    else some stream_down

abbrev pub busy_tries : ℕ
busy_tries = 15

-- `through_the_lease`. The door's answer to each ask and the clock's readings are parameters, by
-- their number; `left` are the tries left and `asked` those made. Beside the state and the answer
-- it gives the asks that were made.
abbrev pub Door : Type 0
Door = ℕ → Result IngestError Announced

-- The event is counted as busy at its first turning away.
count_busy : StreamState → ℕ → ℕ → StreamState
unfolding ingested
count_busy st zero now = ingested st busy now
count_busy st (suc asked) now = st

drop_push : StreamState → BlockHeader → Text → ℕ → ℕ → StreamState
unfolding hint
drop_push st header who asks now =
    hint (record st { last_fault = some (dropped who header.hash header.height asks) })
      header.height now

unfoldable pub is_busy : Result IngestError Announced → Bool
is_busy (ok a) = elim a.outcome [ busy ↦ true | _ ↦ false ]
is_busy (err e) = false

unfoldable pub is_unjudged : Result IngestError Announced → Bool
is_unjudged (ok a) = false
is_unjudged (err e) = unjudged e

-- Any other answer ends the asks; an unjudged refusal leaves its height as the hint.
settle : Result IngestError Announced → BlockHeader → ℕ → StreamState → StreamState
unfolding hint is_unjudged
settle answer header now st = if is_unjudged answer then hint st header.height now else st

unfoldable pub ask_door :
    Door
    → (ℕ → ℕ)
    → Text
    → BlockHeader
    → ℕ
    → ℕ
    → StreamState
    → StreamState × Result IngestError Announced × ℕ
unfolding count_busy drop_push settle
ask_door door clock who header zero asked st = elim (is_busy (door asked)) [
  | true ↦ (
    drop_push (count_busy st asked (clock 0)) header who (asked + 1) (clock 1),
    door asked,
    asked + 1,
  )
  | false ↦ (settle (door asked) header (clock 1) st, door asked, asked + 1)
]
ask_door door clock who header (suc left) asked st = elim (is_busy (door asked)) [
  | true ↦ ask_door door clock who header left (suc asked) (count_busy st asked (clock 0))
  | false ↦ (settle (door asked) header (clock 1) st, door asked, asked + 1)
]

unfoldable pub through_the_lease :
    Door
    → (ℕ → ℕ)
    → Text
    → BlockHeader
    → ℕ
    → StreamState
    → StreamState × Result IngestError Announced × ℕ
through_the_lease door clock who header tries st = ask_door door clock who header tries 0 st

-- The end of `TipStream::tip`: what an answer does to the state.
unfoldable pub answered : StreamState → Result IngestError Announced → ℕ → StreamState
unfolding ingested
answered st (ok a) now =
    let st' = record st {
      drops_in_row = 0;
      last_tip_height = a.tip_height;
      last_tip_hash = a.tip_hash;
    } in
    if is_busy (ok a) then st' else ingested st' a.outcome now
answered st (err (IngestError.refused e)) now = record st {
  refused = add_u32 st.refused 1;
  last_fault = some (refusal e);
}
answered st (err (IngestError.store e)) now = record st { last_fault = some (store_fault e) }
