-- ===== src/Announce/Row.antt =====
-- The announce row of `sync_state`, `announce_deliveries`, and the statements of src/sync.rs on them.
use chaintracks_cloudflare.Prelude.{
  ℕ, ◌-◌, Option, none, some, Text, text_eq, Bool, true, false, not, ◌&&◌, ◌||◌, List, [], ◌∷◌, leb,
  ltb, ◌==◌, if◌then◌else◌,
}

-- A target's recorded delivery: the tip it accepted last, and the fork it has been told about.
pub record Delivery : Type 0 where
  pub height : ℕ
  pub hash : Text
  pub reorg_from : Option ℕ

-- The columns of `sync_state` that the announce reads and writes, and `announce_deliveries`.
pub record AnnounceState : Type 0 where
  pub last_synced_height : ℕ
  pub last_announced_hash : Option Text
  pub live_sync_active : Bool
  pub claimed_at : Option ℕ
  pub updated_at : ℕ
  pub announce_failures : ℕ
  pub tip_announce_stuck_total : ℕ
  pub pending_reorg_from : Option ℕ
  pub deliveries : List (Text × Delivery)

abbrev pub claim_in_flight_s : ℕ
claim_in_flight_s = 45

abbrev pub is_hash : Option Text → Text → Bool
is_hash none hash = false
is_hash (some h) hash = text_eq h hash

-- `TIP_ANNOUNCE_SQL`: none when no row is changed.
unfoldable pub tip_announce : ℕ → ℕ → Text → AnnounceState → Option AnnounceState
tip_announce now height hash st =
    if ltb st.last_synced_height height
      || (st.last_synced_height == height && not (is_hash st.last_announced_hash hash))
    then some (record st {
      last_synced_height = height;
      last_announced_hash = some hash;
      live_sync_active = true;
      claimed_at = some now;
      updated_at = now;
    })
    else none

abbrev is_old : ℕ → Option ℕ → Bool
is_old now none = true
is_old now (some at) = leb claim_in_flight_s (now - at)

-- `RECLAIM_ANNOUNCE_SQL`.
unfoldable pub reclaim_announce : ℕ → ℕ → Text → AnnounceState → Option AnnounceState
reclaim_announce now height hash st =
    if (st.last_synced_height == height)
      && (is_hash st.last_announced_hash hash && is_old now st.claimed_at)
    then some (record st { claimed_at = some now })
    else none

-- `read_deliveries`, looked up by the URL.
unfoldable pub delivery_of : Text → List (Text × Delivery) → Option Delivery
delivery_of url [] = none
delivery_of url ((u, d) ∷ r) = if text_eq u url then some d else delivery_of url r

abbrev pub is_fork : Option ℕ → ℕ → Bool
is_fork none v = false
is_fork (some w) v = w == v

-- `RECORD_DELIVERY_SQL`: only while the claim is the tip's; a fork heard before is kept.
abbrev merge : Option ℕ → Option Delivery → Option ℕ
merge (some v) d = some v
merge none none = none
merge none (some d) = d.reorg_from

unfoldable pub put_delivery : Text → Delivery → List (Text × Delivery) → List (Text × Delivery)
put_delivery url d [] = (url, d) ∷ []
put_delivery url d ((u, e) ∷ r) =
    if text_eq u url then (u, d) ∷ r else (u, e) ∷ put_delivery url d r

unfoldable pub record_delivery : ℕ → Text → Text × Option ℕ → AnnounceState → AnnounceState
unfolding put_delivery delivery_of
record_delivery height hash (url, carried) st =
    if (st.last_synced_height == height) && is_hash st.last_announced_hash hash
    then record st {
      deliveries =
          put_delivery url
            (record {
              height = height;
              hash = hash;
              reorg_from = merge carried (delivery_of url st.deliveries);
            })
            st.deliveries;
    }
    else st

-- `CLEAR_PENDING_REORG_SQL`: only the fork that was carried.
unfoldable pub clear_pending_reorg : ℕ → AnnounceState → AnnounceState
clear_pending_reorg v st =
    if is_fork st.pending_reorg_from v then record st { pending_reorg_from = none } else st
