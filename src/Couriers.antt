-- ===== src/Couriers.antt =====
-- The ladder of src/couriers.rs for one cron tick. What the rungs' sources answer to a call is a
-- parameter: a function of the rung's index.
pub mod Order
pub mod Answers
pub mod Tip
use chaintracks_cloudflare.Prelude.{
  ℕ, zero, suc, ◌+◌, ◌%◌, ◌^◌, ◌-◌, Option, none, some, Text, Bool, true, false, not, ◌&&◌, List,
  [], ◌∷◌, ◌++◌, ltb, leb, ◌==◌, if◌then◌else◌, contains, get_elem?, set, length, add_u32, Result,
  ok, err, ◌>>=◌, ◌>>◌, map_err, eq_ignore_ascii_case,
}
use chaintracks_cloudflare.Bsv.{Bsv}
use chaintracks_cloudflare.Types.{BlockHeader}
use chaintracks_cloudflare.Consensus.{HeaderFault, check_pow}
use chaintracks_cloudflare.Consensus.Params.{ChainParams}

abbrev pub rung_fault_cap : ℕ
rung_fault_cap = 3

-- `WocChainInfo`.
pub record ChainInfo : Type 0 where
  pub blocks : ℕ
  pub best_block_hash : Option Text

pub record Rung : Type 0 where
  pub name : Text
  pub observed : Option (ChainInfo × ℕ)
  pub ok_count : ℕ
  pub faults : ℕ

-- The faults, as values: `fetch` is a source's own, the others the ladder's.
pub data CourierError : Type 0 where
  fetch : ℕ → CourierError
  wrong_height : ℕ → ℕ → CourierError
  wrong_hash : Text → Text → CourierError
  fails_pow : Text → HeaderFault → CourierError
  all_faulted : CourierError

pub record Ladder : Type 0 where
  pub rungs : List Rung
  pub start : ℕ
  pub preferred : Option ℕ
  pub faults : List (ℕ × CourierError)
  pub params : ChainParams

unfoldable pub skipped : Rung → Bool
skipped r = leb rung_fault_cap r.faults

-- `!self.rungs[i].skipped()`; no rung stands at an index out of range.
unfoldable pub askable : List Rung → ℕ → Bool
askable rungs i = elim (get_elem? rungs i) [ none ↦ false | some r ↦ not (skipped r) ]

-- `CourierLadder::new` over rungs that were not asked yet.
unfoldable pub new : List Rung → ℕ → ChainParams → Ladder
new rungs start params = record {
  rungs = rungs;
  start = start % length rungs;
  preferred = none;
  faults = [];
  params = params;
}

push_if : Bool → ℕ → List ℕ → List ℕ
push_if true i out = out ++ i ∷ []
push_if false i out = out

-- The rotation from the start rung: `left` of the `n` places are still to be seen.
unfoldable pub rotation : List Rung → ℕ → ℕ → ℕ → List ℕ → List ℕ
unfolding push_if
rotation rungs start k zero out = out
rotation rungs start k (suc left) out =
    let i = (start + k) % length rungs in
    rotation rungs start (k + 1) left (push_if (not (contains out i) && askable rungs i) i out)

unfoldable pub first_choice : List Rung → Option ℕ → List ℕ
unfolding push_if
first_choice rungs none = []
first_choice rungs (some p) = push_if (askable rungs p) p []

unfoldable pub order : Ladder → List ℕ
unfolding rotation first_choice
order l = rotation l.rungs l.start 0 (length l.rungs) (first_choice l.rungs l.preferred)

set_rung : List Rung → ℕ → (Rung → Rung) → List Rung
set_rung rungs i f = elim (get_elem? rungs i) [ none ↦ rungs | some r ↦ set rungs i (f r) ]

unfoldable pub note_ok : Ladder → ℕ → Ladder
unfolding set_rung
note_ok l i = record l {
  rungs = set_rung l.rungs i (λ r. record r { ok_count = add_u32 r.ok_count 1 });
}

unfoldable pub note_fault : Ladder → ℕ → CourierError → Ladder
unfolding set_rung
note_fault l i e = record l {
  rungs = set_rung l.rungs i (λ r. record r { faults = add_u32 r.faults 1 });
  faults = l.faults ++ (i, e) ∷ [];
}

pub note_observed : Ladder → ℕ → ChainInfo → ℕ → Ladder
unfolding set_rung
note_observed l i info at = record l {
  rungs = set_rung l.rungs i (λ r. record r { observed = some (info, at) });
}

unfoldable pub requests : List Rung → ℕ
requests [] = 0
requests (r ∷ rs) = add_u32 (add_u32 r.ok_count r.faults) (requests rs)

-- The loop of `header_by_height` and of `header_by_hash`: the rungs of the order in turn, until one
-- answers; each refusal is noted.
unfoldable pub ask :
    (ℕ → Result CourierError BlockHeader)
    → List ℕ
    → Ladder
    → Ladder × Result CourierError BlockHeader
ask answers [] l = (l, err CourierError.all_faulted)
ask answers (i ∷ is) l = elim (answers i) [
  | ok h ↦ (note_ok l i, ok h)
  | err e ↦ ask answers is (note_fault l i e)
]

-- `bind`: the header's own proof of work.
unfoldable pub bind : ⦃b : Bsv⦄ → ChainParams → BlockHeader → Result CourierError BlockHeader
bind params h = elim (check_pow h params) [
  | ok _ ↦ ok h
  | err fault ↦ err (CourierError.fails_pow h.hash fault)
]

unfoldable pub at_height :
    ⦃b : Bsv⦄ → ChainParams → ℕ → BlockHeader → Result CourierError BlockHeader
at_height params height h =
    if h.height == height then bind params h else err (CourierError.wrong_height h.height height)

unfoldable pub with_hash :
    ⦃b : Bsv⦄ → ChainParams → Text → BlockHeader → Result CourierError BlockHeader
with_hash params hash h =
    if eq_ignore_ascii_case h.hash hash
    then bind params h
    else err (CourierError.wrong_hash h.hash hash)

unfoldable pub header_by_height :
    ⦃b : Bsv⦄
    → (ℕ → Result CourierError BlockHeader)
    → Ladder
    → ℕ
    → Ladder × Result CourierError BlockHeader
header_by_height source l height = ask (λ i. source i >>= at_height l.params height) (order l) l

unfoldable pub header_by_hash :
    ⦃b : Bsv⦄
    → (ℕ → Result CourierError BlockHeader)
    → Ladder
    → Text
    → Ladder × Result CourierError BlockHeader
header_by_hash source l hash = ask (λ i. source i >>= with_hash l.params hash) (order l) l

-- The higher tip of two; the one found first on a tie.
unfoldable pub better : Option (ℕ × ChainInfo) → ℕ → ChainInfo → Option (ℕ × ChainInfo)
better none i info = some (i, info)
better (some (j, best)) i info =
    if ltb best.blocks info.blocks then some (i, info) else some (j, best)

-- The loop of `chain_info`, which asks every rung of the order.
unfoldable pub survey :
    (ℕ → Result CourierError ChainInfo)
    → (ℕ → ℕ)
    → List ℕ
    → Ladder
    → Option (ℕ × ChainInfo)
    → Ladder × Option (ℕ × ChainInfo)
survey source clock [] l best = (l, best)
survey source clock (i ∷ is) l best = elim (source i) [
  | ok info ↦
      survey source clock is (note_observed (note_ok l i) i info (clock i)) (better best i info)
  | err e ↦ survey source clock is (note_fault l i e) best
]

unfoldable pub prefer : Ladder × Option (ℕ × ChainInfo) → Ladder × Result CourierError ChainInfo
prefer (l, none) = (l, err CourierError.all_faulted)
prefer (l, some (i, info)) = (record l { preferred = some i }, ok info)

unfoldable pub chain_info :
    (ℕ → Result CourierError ChainInfo) → (ℕ → ℕ) → Ladder → Ladder × Result CourierError ChainInfo
chain_info source clock l = prefer (survey source clock (order l) l none)
