-- ===== src/Events/Decode.antt =====
-- `decode` of src/events.rs: what an envelope must be. The JSON reader of the crate `serde_json` is a
-- parameter.
use chaintracks_cloudflare.Prelude.{
  ℕ, ◌+◌, ◌-◌, Option, none, some, Text, codes, text_eq, Bool, true, false, not, ◌&&◌, ◌||◌, List,
  [], ◌∷◌, length, all, any, leb, ltb, ◌==◌, if◌then◌else◌, last?, Result, ok, err, is_hex_digit,
  u32_max,
}

pub record EventHeader : Type 0 where
  pub version : ℕ
  pub previous_hash : Text
  pub merkle_root : Text
  pub time : ℕ
  pub bits : ℕ
  pub nonce : ℕ
  pub height : ℕ
  pub hash : Text
  pub chain_work : Text

pub record SplitTip : Type 0 where
  pub hash : Text
  pub height : ℕ
  pub chain_work : Text
  pub rungs : List Text

pub data ChainEvent : Type 0 where
  -- The height, the hash, the time and the header.
  tip : ℕ → Text → ℕ → EventHeader → ChainEvent
  -- The height, the competing tips and the depth.
  fork : ℕ → List EventHeader → ℕ → ChainEvent
  -- The fork height, the depth, the deactivated headers and the new tip.
  reorg : ℕ → ℕ → List EventHeader → EventHeader → ChainEvent
  invalidated : Text → ChainEvent
  -- The outpoint: its `txid` and `vout`.
  frozen : Text → ℕ → ChainEvent
  tip_age : ℕ → EventHeader → ChainEvent
  -- The key, the fork height and the tips.
  split_seen : Text → ℕ → List SplitTip → ChainEvent
  split_resolved : Text → ℕ → ChainEvent

pub record Envelope : Type 0 where
  pub v : ℕ
  pub event : ChainEvent

pub data EventFault : Type 0 where
  unknown_shape unknown_version unknown_kind inconsistent : EventFault
  bad_request cursor_ahead exhausted unavailable not_decimal out_of_range duplicate_since :
      EventFault
  too_many_targets no_token : EventFault

-- A JSON object: `v` (absent, not an unsigned number, or one), `kind` (empty when it is no text),
-- and what the typed reader makes of the rest.
pub record Object : Type 0 where
  pub version : Option (Option ℕ)
  pub kind : Text
  pub event : Option ChainEvent

-- The shapes of the compatibility views: a header without its work, or a reorg's depth, old tip,
-- new tip and deactivated headers.
pub data CompatView : Type 0 where
  header_view : EventHeader → CompatView
  reorg_view : ℕ → EventHeader → EventHeader → List EventHeader → CompatView

-- `serde_json`: a payload read, none where it is not a JSON object; a fault's message written as a
-- JSON string; a
-- view written.
pub record Serde : Type 0 where
  pub read_object : Text → Option Object
  pub write_fault : EventFault → Text
  pub write_view : CompatView → Text

abbrev one_of : List Text → Text → Bool
one_of names k = any (λ n. text_eq n k) names

unfoldable pub known_kind : ℕ → Text → Bool
known_kind version kind =
    one_of
      (codes "tip"
        ∷ codes "fork"
        ∷ codes "reorg"
        ∷ codes "invalidated"
        ∷ codes "frozen"
        ∷ codes "tipAge"
        ∷ [])
      kind
    || (version == 2) && one_of (codes "split" ∷ codes "splitResolved" ∷ []) kind

abbrev i32_max : ℕ
i32_max = 2147483647

unfoldable pub valid_hash : Text → Bool
valid_hash s = (length s == 64) && all is_hex_digit s

unfoldable pub valid_header : EventHeader → Bool
unfolding valid_hash
valid_header h =
    leb h.height i32_max
    && (valid_hash h.hash
        && (valid_hash h.previous_hash && (valid_hash h.merkle_root && valid_hash h.chain_work)))

-- `strip_prefix`.
abbrev pub strip : Text → Text → Option Text
strip [] s = some s
strip (c ∷ cs) [] = none
strip (c ∷ cs) (d ∷ s) = elim (c == d) [ true ↦ strip cs s | false ↦ none ]

unfoldable pub valid_split_key : Text → ℕ → Bool
unfolding valid_hash
valid_split_key key height =
    ltb 0 height
    && (leb height i32_max
        && (elim (strip (codes "split:") key) [ none ↦ false | some h ↦ valid_hash h ]))

-- The order of `String`.
abbrev text_ltb : Text → Text → Bool
text_ltb [] [] = false
text_ltb [] (d ∷ ds) = true
text_ltb (c ∷ cs) [] = false
text_ltb (c ∷ cs) (d ∷ ds) = ltb c d || (c == d) && text_ltb cs ds

ascending : List Text → Bool
ascending [] = true
ascending (a ∷ []) = true
ascending (a ∷ b ∷ r) = text_ltb a b && ascending (b ∷ r)

-- The deactivated headers, highest first, each the child of the next.
unfoldable pub descending : List EventHeader → Bool
descending [] = true
descending (a ∷ []) = true
descending (a ∷ b ∷ r) =
    (a.height == b.height + 1) && (text_eq a.previous_hash b.hash && descending (b ∷ r))

-- `checked_sub(depth)` and `checked_add(1)`.
abbrev fork_start : ℕ → ℕ → Option ℕ
fork_start height depth =
    if leb depth height && ltb (height - depth) u32_max then some (height - depth + 1) else none

abbrev is_some_of : Option ℕ → ℕ → Bool
is_some_of none n = false
is_some_of (some m) n = m == n

valid_tip : ℕ → SplitTip → Bool
unfolding ascending valid_hash
valid_tip fork_height t =
    valid_hash t.hash
    && (valid_hash t.chain_work
        && (leb fork_height t.height
            && (leb t.height i32_max
                && (not (length t.rungs == 0)
                    && (all (λ n. not (length n == 0)) t.rungs && ascending t.rungs)))))

unfoldable pub valid_event : ChainEvent → Bool
unfolding valid_hash valid_header valid_split_key descending valid_tip
valid_event (tip height hash time header) =
    valid_header header
    && ((height == header.height) && (text_eq hash header.hash && (time == header.time)))
valid_event (fork height (a ∷ b ∷ []) depth) =
    ltb 0 depth
    && (valid_header a
        && (valid_header b
            && (not (text_eq a.hash b.hash) && is_some_of (fork_start a.height depth) height)))
valid_event (fork height tips depth) = false
valid_event (reorg fork_height depth headers new_tip) =
    ltb 0 depth
    && (leb depth 400
        && ((length headers == depth)
            && (valid_header new_tip
                && (all valid_header headers
                    && ((elim (last? headers) [ none ↦ false | some h ↦ h.height == fork_height ])
                        && descending headers)))))
valid_event (invalidated hash) = valid_hash hash
valid_event (frozen txid vout) = valid_hash txid
valid_event (tip_age seconds t) = valid_header t
valid_event (split_seen key fork_height (a ∷ b ∷ [])) =
    valid_split_key key fork_height
    && (valid_tip fork_height a
        && (valid_tip fork_height b
            && (not (text_eq a.hash b.hash) && all (λ n. not (one_of b.rungs n)) a.rungs)))
valid_event (split_seen key fork_height tips) = false
valid_event (split_resolved key fork_height) = valid_split_key key fork_height

version_of : Option (Option ℕ) → Option ℕ
version_of none = none
version_of (some none) = none
version_of (some (some n)) = if n == 1 || n == 2 then some n else none

unfoldable pub decode : ⦃s : Serde⦄ → Text → Result EventFault Envelope
unfolding known_kind valid_event version_of
decode ⦃s⦄ payload = elim (s.read_object payload) [
  | none ↦ err unknown_shape
  | some o ↦ elim (version_of o.version) [
    | none ↦ err unknown_version
    | some n ↦
        if known_kind n o.kind
        then (elim o.event [
          | none ↦ err unknown_shape
          | some e ↦ if valid_event e then ok (record { v = n; event = e }) else err inconsistent
        ])
        else err unknown_kind
  ]
]
