-- ===== src/Store/Batch/Judge.antt =====
-- What the judgment of a batch vouches for.
use chaintracks_cloudflare.Prelude.{
  ℕ, Option, true, List, [], ◌∷◌, ◌≡◌, refl, inl, inr, Bool-cases, Result, ok, err, ◌>>◌, map_err,
  >>=-eq-ok, All,
}
use chaintracks_cloudflare.Bsv.{Bsv}
use chaintracks_cloudflare.Types.{BlockHeader}
use chaintracks_cloudflare.Consensus.{
  HeaderFault, check_pow, check_context, check_checkpoint, link_of,
}
use chaintracks_cloudflare.Consensus.Params.{ChainParams}
use chaintracks_cloudflare.Consensus.Window.{Window, push}
use chaintracks_cloudflare.Outcomes.{StoreFault}
use chaintracks_cloudflare.Store.Table.{Db, find_header_for_hash, find_chain_tip}
use chaintracks_cloudflare.Store.Batch.{
  check_pows, follows, check_links, vouched, check_fork, check_rule, check_run, batch_start,
  judge_batch,
}

map_err-eq-ok :
    {E F : Type 0} (f : E → F) (r : Result E (Unit {0})) → map_err f r ≡ ok tt → r ≡ ok tt
map_err-eq-ok f (ok u) e = refl
map_err-eq-ok f (err x) e = cc

-- Each header of a run is the child of the one before it.
abbrev pub Linked : BlockHeader → List BlockHeader → Type 0
Linked a [] = Unit {0}
Linked a (h ∷ hs) = (follows a h ≡ true) × Linked h hs

check_links-Linked :
    (a : BlockHeader) (hs : List BlockHeader) → check_links a hs ≡ ok tt → Linked a hs
unfolding check_links
check_links-Linked a [] e = tt
check_links-Linked a (h ∷ hs) e = elim (Bool-cases (follows a h)) [
  | inl t ↦ (t, check_links-Linked h hs (rw (t) at e))
  | inr t ↦
      let k : err (StoreFault.refused h.hash h.height (HeaderFault.prev_not_found h.previous_hash))
          ≡ ok tt =
        rw (t) at e in
      cc
]

module _ ⦃b : Bsv⦄ (params : ChainParams) where
  check_pows-All :
      (hs : List BlockHeader)
      → check_pows params hs ≡ ok tt
      → All (λ h. check_pow h params ≡ ok tt) hs
  unfolding check_pows
  check_pows-All [] e = tt
  check_pows-All (h ∷ hs) e =
      let (u, p, k) = >>=-eq-ok (map_err _ (check_pow h params)) (λ _. check_pows params hs) e in
      (map_err-eq-ok _ (check_pow h params) p, check_pows-All hs k)

  context-checkpoint :
      (window : Window) (h : BlockHeader)
      → check_context window h params ≡ ok tt
      → check_checkpoint h.height h.hash params ≡ ok tt
  unfolding check_context
  context-checkpoint window h e = (>>=-eq-ok (check_checkpoint h.height h.hash params) _ e).1

  rule-checkpoint :
      (v : Option ℕ) (window : Window) (h : BlockHeader)
      → check_rule params v window h ≡ ok tt
      → check_checkpoint h.height h.hash params ≡ ok tt
  unfolding check_rule
  rule-checkpoint v window h e = elim (Bool-cases (vouched v h.height)) [
    | inl t ↦ map_err-eq-ok _ (check_checkpoint h.height h.hash params) (rw (t) at e)
    | inr t ↦
        context-checkpoint window h (map_err-eq-ok _ (check_context window h params) (rw (t) at e))
  ]

  check_run-All :
      (below : Option ℕ) (rows : List BlockHeader) (v : Option ℕ) (window : Window)
      (hs : List BlockHeader)
      → check_run params below rows v window hs ≡ ok tt
      → All (λ h. check_checkpoint h.height h.hash params ≡ ok tt) hs
  unfolding check_run
  check_run-All below rows v window [] e = tt
  check_run-All below rows v window (h ∷ hs) e =
      let next =
        check_rule params v window h
        >> check_run params below rows v (push window (link_of h)) hs in
      let (u, fork, k) = >>=-eq-ok (check_fork below rows h) (λ _. next) e in
      let (w, rule, l) =
        >>=-eq-ok (check_rule params v window h)
          (λ _. check_run params below rows v (push window (link_of h)) hs) k in
      (rule-checkpoint v window h rule, check_run-All below rows v (push window (link_of h)) hs l)

  -- A batch that is judged to pass is one linked run of headers, each of which meets its own target
  -- and carries the checkpoint at its height.
  pub judge_batch-Linked :
      (db : Db) (first : BlockHeader) (rest : List BlockHeader)
      → judge_batch db params first rest ≡ ok tt
      → Linked first rest
        × All (λ h. check_pow h params ≡ ok tt) (first ∷ rest)
        × All (λ h. check_checkpoint h.height h.hash params ≡ ok tt) (first ∷ rest)
  unfolding judge_batch
  judge_batch-Linked db first rest e =
      let (u, pows, k) = >>=-eq-ok (check_pows params (first ∷ rest)) _ e in
      let (w, links, l) = >>=-eq-ok (check_links first rest) _ k in
      let (s, start, run) =
        >>=-eq-ok
          (batch_start db params first rest (find_header_for_hash db first.previous_hash)
            (find_chain_tip db))
          _ l in
      (
        check_links-Linked first rest links,
        check_pows-All (first ∷ rest) pows,
        check_run-All _ _ s.1 s.0 (first ∷ rest) run,
      )
