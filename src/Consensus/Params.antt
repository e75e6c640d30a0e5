-- ===== src/Consensus/Params.antt =====
-- src/consensus.rs: the chain parameters and the owner's checkpoints.
pub mod Owner
use chaintracks_cloudflare.Prelude.{
  map, filter, not, false, true, ◌&&◌, length, ◌>>=◌, split, split_once, trim, parse_uint, u32_max,
  text_eq, ℕ, Option, none, some, Text, Bool, List, [], ◌∷◌, ◌==◌, leb, Result, ok, err,
  if◌then◌else◌, to_ascii_lowercase,
}
use chaintracks_cloudflare.Bsv.{Bsv, PowParams}

pub record ChainParams : Type 0 where
  pub network : Text
  pub pow : PowParams
  pub genesis_hash : Text
  pub checkpoints : List (ℕ × Text)

abbrev pub checkpoint_in : List (ℕ × Text) → ℕ → Option Text
checkpoint_in [] height = none
checkpoint_in ((h, hash) ∷ r) height = if h == height then some hash else checkpoint_in r height

unfoldable pub checkpoint_at : ChainParams → ℕ → Option Text
checkpoint_at params height = checkpoint_in params.checkpoints height

-- The first entry at the height takes the hash; with none, the pair is pushed at the end.
unfoldable pub put_checkpoint : ℕ → Text → List (ℕ × Text) → List (ℕ × Text)
put_checkpoint height hash [] = (height, hash) ∷ []
put_checkpoint height hash ((h, old) ∷ r) =
    if h == height then (h, hash) ∷ r else (h, old) ∷ put_checkpoint height hash r

-- `sort_by_key`: stable.
unfoldable pub insert_by_height : ℕ × Text → List (ℕ × Text) → List (ℕ × Text)
insert_by_height (h, s) [] = (h, s) ∷ []
insert_by_height (h, s) ((k, t) ∷ r) =
    if leb h k then (h, s) ∷ (k, t) ∷ r else (k, t) ∷ insert_by_height (h, s) r

unfoldable pub sort_by_height : List (ℕ × Text) → List (ℕ × Text)
sort_by_height [] = []
sort_by_height (c ∷ r) = insert_by_height c (sort_by_height r)

pub data SpecError : Type 0 where
  no_colon bad_height : Text → SpecError
  not_hex : Text → SpecError

-- Exactly 64 hex digits.
unfoldable pub is_hash_hex : ⦃b : Bsv⦄ → Text → Bool
is_hash_hex ⦃b⦄ s = (length s == 64) && (elim (b.u256_from_hex s) [ none ↦ false | some w ↦ true ])

-- `height:hash`, the hash in lower case.
unfoldable pub parse_entry : ⦃b : Bsv⦄ → Text → Result SpecError (ℕ × Text)
unfolding is_hash_hex
parse_entry entry = elim (split_once b':' entry) [
  | none ↦ err (SpecError.no_colon entry)
  | some (h, hash) ↦ elim (parse_uint u32_max (trim h)) [
    | none ↦ err (SpecError.bad_height entry)
    | some height ↦
        let lower = to_ascii_lowercase (trim hash) in
        if is_hash_hex lower then ok (height, lower) else err (SpecError.not_hex entry)
  ]
]

-- The loop of `with_checkpoints`.
unfoldable pub put_entries :
    ⦃b : Bsv⦄ → List Text → List (ℕ × Text) → Result SpecError (List (ℕ × Text))
put_entries [] cps = ok cps
put_entries (entry ∷ es) cps = elim (parse_entry entry) [
  | err e ↦ err e
  | ok (height, hash) ↦ put_entries es (put_checkpoint height hash cps)
]

-- The entries between the commas that are not blank.
abbrev pub entries : Text → List Text
entries spec = filter (λ e. not (text_eq e [])) (map trim (split b',' spec))

unfoldable pub with_checkpoints : ⦃b : Bsv⦄ → ChainParams → Text → Result SpecError ChainParams
with_checkpoints params spec = put_entries (entries spec) params.checkpoints >>= λ cps.
    ok (record params { checkpoints = sort_by_height cps })
