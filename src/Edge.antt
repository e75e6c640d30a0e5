-- ===== src/Edge.antt =====
-- src/edge.rs: which answers the edge cache may keep, and the tags and keys that a purge names.
-- A tag is a value here; its text is `h-<height>` or `hb-<thousand>`.
pub mod Settled
pub mod Purge
use chaintracks_cloudflare.Prelude.{
  ℕ, ◌-◌, ◌+◌, ◌/◌, max, Option, none, some, Text, codes, Bool, true, false, ◌&&◌, List, [], ◌∷◌,
  ◌++◌, ltb, leb, ◌==◌, if◌then◌else◌, trim, parse_uint, u32_max, map, take, drop, length, suc,
  zero, to_ascii_lowercase,
}

abbrev pub reorg_bound : ℕ
reorg_bound = 400

abbrev pub settled_control : Text
settled_control = codes "public, max-age=86400"

abbrev pub near : Text
near = codes "no-cache"

pub data Edge : Type 0 where
  off : Edge
  depth : ℕ → Edge

unfoldable pub parse : Option Text → Edge
parse none = off
parse (some raw) = elim (parse_uint u32_max (trim raw)) [
  | none ↦ off
  | some d ↦ depth (max d reorg_bound)
]

unfoldable pub line : Edge → ℕ
line off = reorg_bound
line (depth d) = d

-- More than `line` below the served tip.
unfoldable pub settled : Option ℕ → ℕ → ℕ → Bool
settled none height line = false
settled (some t) height line = ltb height t && ltb line (t - height)

unfoldable pub control : Edge → Bool → Option Text → Option Text
control edge false v060 = some near
control off true v060 = v060
control (depth d) true v060 = some settled_control

-- `answer`: whether the answer is kept in the cache, beside its `Cache-Control`.
unfoldable pub kept : Edge → Bool → Bool
kept off settled = false
kept (depth d) settled = settled

pub data Tag : Type 0 where
  of_height of_thousand : ℕ → Tag

insert_sorted : ℕ → List ℕ → List ℕ
insert_sorted h [] = h ∷ []
insert_sorted h (k ∷ r) = if leb h k then h ∷ k ∷ r else k ∷ insert_sorted h r

pub sort : List ℕ → List ℕ
unfolding insert_sorted
sort [] = []
sort (h ∷ r) = insert_sorted h (sort r)

dedup_after : ℕ → List ℕ → List ℕ
dedup_after last [] = []
dedup_after last (k ∷ r) = if last == k then dedup_after last r else k ∷ dedup_after k r

-- `Vec::dedup`: of each run of equal neighbours the first.
pub dedup : List ℕ → List ℕ
unfolding dedup_after
dedup [] = []
dedup (k ∷ r) = k ∷ dedup_after k r

unfoldable pub purge_tags : List ℕ → List Tag
unfolding sort dedup
purge_tags heights =
    let sorted = dedup (sort heights) in
    let buckets = dedup (map (λ h. h / 1000) sorted) in
    map of_height sorted ++ map of_thousand buckets

-- `chunks(100)`: the bodies of the purge requests. Each takes at least one tag, so the number of
-- tags bounds the rounds.
chunks_fuel : ℕ → List Tag → List (List Tag)
chunks_fuel zero tags = []
chunks_fuel (suc f) [] = []
chunks_fuel (suc f) (t ∷ ts) = take 100 (t ∷ ts) ∷ chunks_fuel f (drop 100 (t ∷ ts))

unfoldable pub purge_bodies : List Tag → List (List Tag)
unfolding chunks_fuel
purge_bodies tags = chunks_fuel (length tags) tags

pub data Key : Type 0 where
  height_v1 : ℕ → Key
  height_v2 : ℕ → Bool → Key
  hash_v1 : Text → Key
  hash_v2 : Text → Bool → Key
  root : ℕ → Text → Key
  range_v1 : ℕ → ℕ → Key
  range_v2 : ℕ → ℕ → Bool → Key

abbrev keys_of_heights : List ℕ → List Key
keys_of_heights [] = []
keys_of_heights (h ∷ r) = height_v1 h ∷ height_v2 h false ∷ height_v2 h true ∷ keys_of_heights r

abbrev keys_of_hashes : List Text → List Key
keys_of_hashes [] = []
keys_of_hashes (s ∷ r) =
    hash_v1 s
    ∷ hash_v2 (to_ascii_lowercase s) false
    ∷ hash_v2 (to_ascii_lowercase s) true
    ∷ keys_of_hashes r

unfoldable pub local_keys : List ℕ → List Text → List Key
local_keys heights hashes = keys_of_heights heights ++ keys_of_hashes hashes
