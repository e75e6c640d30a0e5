-- ===== src/Rungs.antt =====
-- src/rungs.rs and the rung span of src/health.rs: the couriers' labels, the split depth, and the
-- table of each courier's latest tip, `sync_rung_tips`, keyed by name.
pub mod Observed
use chaintracks_cloudflare.Prelude.{
  ℕ, Option, none, some, Text, codes, Bool, true, false, not, ◌&&◌, ◌||◌, List, [], ◌∷◌, map, ltb,
  leb, ◌==◌, if◌then◌else◌, text_eq, trim, parse_uint, u32_max, find, any, all, take, filter,
}
use chaintracks_cloudflare.Types.{Chain, main, test}

abbrev pub default_split_depth : ℕ
default_split_depth = 3

abbrev pub ancestry_limit : ℕ
ancestry_limit = 400

pub record Definition : Type 0 where
  pub name : Text
  pub implementation : Text

-- The name, the label, and the variable that overrides it.
abbrev pub definitions_table : List (Text × Text × Text)
definitions_table =
    (codes "woc", codes "reference", codes "WOC_IMPLEMENTATION")
    ∷ (codes "arcade", codes "teranode", codes "ARCADE_IMPLEMENTATION")
    ∷ (codes "bitails", codes "reference", codes "BITAILS_IMPLEMENTATION")
    ∷ []

label_in : Text → List (Text × Text × Text) → Text
label_in name [] = codes "peer"
label_in name ((n, label, key) ∷ r) = if text_eq n name then label else label_in name r

unfoldable pub default_implementation : Text → Text
unfolding label_in
default_implementation name = label_in name definitions_table

abbrev is_blank : Text → Bool
is_blank s = text_eq (trim s) []

-- A variable that is set and not blank replaces the label.
labelled : Text → Option Text → Text
labelled label none = label
labelled label (some s) = if is_blank s then label else trim s

unfoldable pub definitions : Chain → (Text → Option Text) → List Definition
unfolding labelled
definitions chain var =
    map (λ (d : Text × Text × Text). record { name = d.0; implementation = labelled d.1 (var d.2) })
      (take (elim chain [ main ↦ 3 | test ↦ 1 ]) definitions_table)

-- `none` is the refusal: not an integer in 1..=400.
unfoldable pub split_depth : Option Text → Option ℕ
split_depth none = some default_split_depth
split_depth (some s) = elim (parse_uint u32_max s) [
  | none ↦ none
  | some n ↦ if leb 1 n && leb n ancestry_limit then some n else none
]

pub record Observation : Type 0 where
  pub hash : Text
  pub height : ℕ
  pub observed_at : ℕ

-- A row of `sync_rung_tips`.
pub record TipRow : Type 0 where
  pub name : Text
  pub implementation : Text
  pub tip : Option Observation

-- `DELETE … WHERE name NOT IN (…)`.
unfoldable pub delete_unlisted : List (Definition × Option Observation) → List TipRow → List TipRow
delete_unlisted rungs rows = filter (λ r. any (λ d. text_eq d.0.name r.name) rungs) rows

-- `INSERT … ON CONFLICT(name) DO UPDATE SET implementation = excluded.implementation`.
unfoldable pub upsert : Definition → List TipRow → List TipRow
upsert d [] = record { name = d.name; implementation = d.implementation; tip = none } ∷ []
upsert d (r ∷ rows) =
    if text_eq r.name d.name
    then record r { implementation = d.implementation } ∷ rows
    else r ∷ upsert d rows

unfoldable pub fresher : Observation → Option Observation → Bool
fresher o none = true
fresher o (some old) = leb old.observed_at o.observed_at

-- `UPDATE … WHERE name = ? AND (observed_at IS NULL OR observed_at <= ?)`.
pub observe_row : Text → Observation → TipRow → TipRow
unfolding fresher
observe_row name o r =
    if text_eq r.name name && fresher o r.tip then record r { tip = some o } else r

unfoldable pub observe : Text → Observation → List TipRow → List TipRow
observe name o [] = []
observe name o (r ∷ rows) = observe_row name o r ∷ observe name o rows

unfoldable pub record_rung : Definition × Option Observation → List TipRow → List TipRow
record_rung (d, none) rows = upsert d rows
record_rung (d, some o) rows = observe d.name o (upsert d rows)

unfoldable pub record_rungs : List (Definition × Option Observation) → List TipRow → List TipRow
record_rungs [] rows = rows
record_rungs (r ∷ rungs) rows = record_rungs rungs (record_rung r rows)

-- `record`: one transaction. The split signal's trigger is not modelled.
unfoldable pub record_tips : List (Definition × Option Observation) → List TipRow → List TipRow
record_tips rungs rows = record_rungs rungs (delete_unlisted rungs rows)

tip_of : Definition → List TipRow → TipRow
tip_of d [] = record { name = d.name; implementation = d.implementation; tip = none }
tip_of d (r ∷ rows) =
    if text_eq r.name d.name then record r { implementation = d.implementation } else tip_of d rows

-- `for_config`: every configured rung, with its deploy's label.
unfoldable pub for_config : List Definition → List TipRow → List TipRow
unfolding tip_of
for_config ds tips = map (λ (d : Definition). tip_of d tips) ds

abbrev known_label : Text → Bool
known_label l =
    text_eq l (codes "reference") || text_eq l (codes "teranode") || text_eq l (codes "peer")

abbrev has_label : Text → List Definition → Bool
has_label l rungs = any (λ d. text_eq d.implementation l) rungs

-- `health::rung_span`: its `status` is `ok`.
unfoldable pub rung_span_ok : List Definition → Bool
rung_span_ok rungs =
    (has_label (codes "reference") rungs
      && (has_label (codes "teranode") rungs || has_label (codes "peer") rungs))
    && all (λ d. known_label d.implementation) rungs
