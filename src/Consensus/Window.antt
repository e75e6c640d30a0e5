-- ===== src/Consensus/Window.antt =====
-- src/consensus.rs: `Window`, the run of ancestors that the difficulty rule reads, with the prefix
-- sums of its chain work.
pub mod Sums
use chaintracks_cloudflare.Prelude.{
  ℕ, zero, suc, ◌+◌, ◌-◌, ◌≤◌, ◌<◌, ◌%◌, ◌^◌, ◌≡◌, refl, Option, none, some, Bool, true, false,
  List, [], ◌∷◌, ◌++◌, if◌then◌else◌, leb, ltb, ◌==◌, Result, ok, err, ◌>>=◌, length, get_elem?,
  last?, arith,
}
use chaintracks_cloudflare.Bsv.{Bsv, HeaderLink, HeaderAncestry, DifficultyError, WorkLaws}

pub record Window : Type 0 where
  pub links : List HeaderLink
  pub work : List ℕ

abbrev pub empty : Window
empty = record { links = []; work = [] }

unfoldable pub push : ⦃b : Bsv⦄ → Window → HeaderLink → Window
push ⦃b⦄ w link = record { links = w.links ++ link ∷ []; work = w.work ++ sum ∷ [] }
  where
    sum : ℕ
    sum = elim (last? w.work) [
      | none ↦ 0
      | some last ↦ b.wrapping_add last (b.work_from_bits link.bits)
    ]

unfoldable pub push_all : ⦃b : Bsv⦄ → Window → List HeaderLink → Window
push_all w [] = w
push_all w (l ∷ ls) = push_all (push w l) ls

unfoldable pub new : ⦃b : Bsv⦄ → List HeaderLink → Window
unfolding push_all
new links = push_all empty links

abbrev index_from : List HeaderLink → ℕ → Option ℕ
index_from [] height = none
index_from (l ∷ ls) height =
    if leb l.height height
    then (if ltb (height - l.height) (suc (length ls)) then some (height - l.height) else none)
    else none

unfoldable pub index : Window → ℕ → Option ℕ
index w height = index_from w.links height

unfoldable pub link_at : Window → ℕ → Option HeaderLink
link_at w height = elim (index w height) [ none ↦ none | some i ↦ get_elem? w.links i ]

-- The prefix sum at a height. `self.work[i]`: the two lists have one length, so it is in range.
unfoldable pub work_at : Window → ℕ → Result DifficultyError ℕ
work_at w height = elim (index w height) [
  | none ↦ err (DifficultyError.missing_ancestor height)
  | some i ↦ elim (get_elem? w.work i) [
    | none ↦ err (DifficultyError.missing_ancestor height)
    | some s ↦ ok s
  ]
]

unfoldable pub work_between : ⦃b : Bsv⦄ → Window → ℕ → ℕ → Result DifficultyError ℕ
work_between ⦃b⦄ w first last = do x ← work_at w first; y ← work_at w last; ok (b.wrapping_sub y x)

unfoldable pub as_ancestry : ⦃b : Bsv⦄ → Window → HeaderAncestry
as_ancestry w = record { link_at = link_at w; work_between = work_between w }
