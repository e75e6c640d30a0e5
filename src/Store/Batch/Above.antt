-- ===== src/Store/Batch/Above.antt =====
-- `judge_above`: the read-through's judgment of a run above the tip, with no write.
use mathlib.Core.List.{reverse}
use chaintracks_cloudflare.Prelude.{
  ℕ, ◌+◌, ◌≤◌, Option, none, some, Text, Bool, true, false, ◌&&◌, List, [], ◌∷◌, ◌==◌, ==_iff, ltb,
  leb, ◌≡◌, refl, sym, ap, ◌∙◌, subst, inl, inr, if◌then◌else◌, Bool-cases, Option-cases, ok, err,
  ◌>>◌, Result-cases, >>=-eq-ok, arith,
}
use chaintracks_cloudflare.Bsv.{Bsv}
use chaintracks_cloudflare.Types.{BlockHeader}
use chaintracks_cloudflare.Consensus.{check_context, link_of}
use chaintracks_cloudflare.Consensus.Params.{ChainParams}
use chaintracks_cloudflare.Consensus.Window.{Window, push}
use chaintracks_cloudflare.Outcomes.{StoreFault, ancestry_fault}
use chaintracks_cloudflare.Store.Table.{Db, find_chain_tip, find_header_for_hash}
use chaintracks_cloudflare.Store.Ancestry.{load_window}
use chaintracks_cloudflare.Store.Rules.{refused, highest_stored, stored_checkpoint_above}
use chaintracks_cloudflare.Store.Tip.Heaviest.{some-inj}
use chaintracks_cloudflare.Store.Revalidate.Checked.{and-both}
use chaintracks_cloudflare.Store.Batch.{
  check_pows, check_links, depth_wanted, batch_start, check_fork, check_rule, check_run,
  judge_batch,
}

-- `unread` is a run that was not judged for a fault of its ancestry; `unjudged` one that does not
-- stand on the active row below it, or is empty.
pub data Judged : Type 0 where
  passed unjudged : Judged
  refusal unread : StoreFault → Judged

unfoldable pub judge_contexts : ⦃b : Bsv⦄ → ChainParams → Window → List BlockHeader → Judged
judge_contexts params window [] = passed
judge_contexts params window (h ∷ hs) = elim (check_context window h params) [
  | ok _ ↦ judge_contexts params (push window (link_of h)) hs
  | err f ↦ if ancestry_fault f then unread (refused h f) else refusal (refused h f)
]

-- `find_header_for_hash` of the parent, active and one below.
unfoldable pub active_parent : Db → BlockHeader → Option BlockHeader
active_parent db first = elim (find_header_for_hash db first.previous_hash) [
  | none ↦ none
  | some p ↦ if p.is_active && (p.height + 1 == first.height) then some p else none
]

unfoldable pub judge_above : ⦃b : Bsv⦄ → Db → ChainParams → List BlockHeader → Judged
judge_above db params [] = unjudged
judge_above db params (first ∷ rest) =
    elim (check_pows params (first ∷ rest) >> check_links first rest) [
      | err e ↦ refusal e
      | ok _ ↦ elim (active_parent db first) [
        | none ↦ unjudged
        | some p ↦
            judge_contexts params
              (load_window db p (depth_wanted params first.height (first ∷ rest))) (first ∷ rest)
      ]
    ]

-- No checkpoint that the store holds is above a header at or above the tip.
highest_stored-none :
    (db : Db) (height tip : ℕ) (cps : List (ℕ × Text))
    → tip ≤ height
    → highest_stored db height tip cps ≡ none
unfolding highest_stored
highest_stored-none db height tip [] h = refl
highest_stored-none db height tip ((cp, hash) ∷ r) h = elim (Bool-cases (leb cp height)) [
  | inl e ↦ rw (e) refl
  | inr e ↦
      let t : ltb tip cp ≡ true = ground arith in rw (e, t) (highest_stored-none db height tip r h)
]

not_passed :
    {A : Type 0} (c : Bool) (x : StoreFault) → (if c then unread x else refusal x) ≡ passed → A
not_passed true x e = cc
not_passed false x e = cc

above-none :
    (db : Db) (params : ChainParams) (height : ℕ)
    → ((t : BlockHeader) → find_chain_tip db ≡ some t → t.height ≤ height)
    → (o : Option BlockHeader) → find_chain_tip db ≡ o
    → stored_checkpoint_above db params height o ≡ none
unfolding stored_checkpoint_above
above-none db params height top none e = refl
above-none db params height top (some t) e =
    highest_stored-none db height t.height (reverse params.checkpoints) (top t e)

module _ ⦃b : Bsv⦄ (db : Db) (params : ChainParams) where
  contexts-run :
      (window : Window) (hs : List BlockHeader) (rows : List BlockHeader)
      → judge_contexts params window hs ≡ passed
      → check_run params none rows none window hs ≡ ok tt
  unfolding judge_contexts check_run check_fork check_rule
  contexts-run window [] rows e = refl
  contexts-run window (h ∷ hs) rows e = elim (Result-cases (check_context window h params)) [
    | inl (_, q) ↦
        rw (q) (contexts-run (push window (link_of h)) hs rows (rw (judge_contexts, q) at e))
    | inr (f, q) ↦ not_passed (ancestry_fault f) (refused h f) (rw (judge_contexts, q) at e)
  ]

  active-is-stored :
      (first p : BlockHeader)
      → active_parent db first ≡ some p
      → (find_header_for_hash db first.previous_hash ≡ some p) × (p.height + 1 ≡ first.height)
  unfolding active_parent
  active-is-stored first p e = elim (Option-cases (find_header_for_hash db first.previous_hash)) [
    | inl n ↦ let k : none ≡ some p = rw (active_parent, n) at e in cc
    | inr (x, n) ↦ elim (Bool-cases (x.is_active && (x.height + 1 == first.height))) [
      | inl t ↦
          let same = some-inj x p (rw (active_parent, n, t) at e) in
          (
            n ∙ ap some same,
            subst (λ (v : BlockHeader). v.height + 1 ≡ first.height) same
                ((==_iff (x.height + 1) first.height).0 (and-both x.is_active _ t).1),
          )
      | inr t ↦ let k : none ≡ some p = rw (active_parent, n, t) at e in cc
    ]
  ]

  start-linked :
      (first p : BlockHeader) (rest : List BlockHeader) (tip : Option BlockHeader)
      → p.height + 1 ≡ first.height
      → batch_start db params first rest (some p) tip
        ≡ ok (load_window db p (depth_wanted params first.height (first ∷ rest)), none)
  unfolding batch_start
  start-linked first p rest tip e = rw ((==_iff first.height (p.height + 1)).1 (sym e)) refl

  -- A run at or above the tip that the read-through's judgment passes is one that the batch writer's
  -- judgment passes.
  pub judge_above-batch :
      (first : BlockHeader) (rest : List BlockHeader)
      → ((t : BlockHeader) → find_chain_tip db ≡ some t → t.height ≤ first.height)
      → judge_above db params (first ∷ rest) ≡ passed
      → judge_batch db params first rest ≡ ok tt
  unfolding judge_above judge_batch
  judge_above-batch first rest top e =
      elim (Result-cases (check_pows params (first ∷ rest) >> check_links first rest)) [
        | inr (f, q) ↦ let k : refusal f ≡ passed = rw (judge_above, q) at e in cc
        | inl (_, q) ↦ elim (Option-cases (active_parent db first)) [
          | inl n ↦ let k : unjudged ≡ passed = rw (judge_above, q, n) at e in cc
          | inr (p, n) ↦
              let (stored, next) = active-is-stored first p n in
              let (u, pows, links) =
                >>=-eq-ok (check_pows params (first ∷ rest)) (λ _. check_links first rest) q in
              rw
                (
                  above-none db params first.height top (find_chain_tip db) refl,
                  pows,
                  links,
                  stored,
                  start-linked first p rest (find_chain_tip db) next,
                )
                (contexts-run _ (first ∷ rest) [] (rw (judge_above, q, n) at e))
        ]
      ]
