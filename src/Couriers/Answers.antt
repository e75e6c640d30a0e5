-- ===== src/Couriers/Answers.antt =====
-- What a header call of the ladder answers.
use chaintracks_cloudflare.Prelude.{
  ℕ, ◌≡◌, refl, sym, ap, ◌∙◌, Text, true, List, [], ◌∷◌, ◌==◌, Has, Result, ok,
  eq_ignore_ascii_case, Bool-cases, inl, inr, >>=-eq-ok, Result-cases, ==_iff,
}
use chaintracks_cloudflare.Bsv.{Bsv}
use chaintracks_cloudflare.Types.{BlockHeader}
use chaintracks_cloudflare.Consensus.{check_pow}
use chaintracks_cloudflare.Consensus.Params.{ChainParams}
use chaintracks_cloudflare.Couriers.{
  Ladder, CourierError, ask, bind, at_height, with_hash, header_by_height, header_by_hash, order,
  note_fault,
}

abbrev Answers : Type 0
Answers = ℕ → Result CourierError BlockHeader

-- The answer that is returned is one of the rungs'.
ask-answer :
    (answers : Answers) (is : List ℕ) (l : Ladder) (h : BlockHeader)
    → (ask answers is l).1 ≡ ok h
    → (i : ℕ) × (Has i is) × (answers i ≡ ok h)
unfolding ask
ask-answer answers [] l h e = cc
ask-answer answers (i ∷ is) l h e = elim (Result-cases (answers i)) [
  | inl (a, p) ↦ (i, inl refl, p ∙ (rw (p, ask) at e))
  | inr (f, p) ↦
      let (j, m, q) = ask-answer answers is (note_fault l i f) h (rw (p, ask) at e) in (j, inr m, q)
]

ask-available :
    (answers : Answers) (is : List ℕ) (l : Ladder) (i : ℕ) (h : BlockHeader)
    → Has i is
    → answers i ≡ ok h
    → (h' : BlockHeader) × ((ask answers is l).1 ≡ ok h')
unfolding ask
ask-available answers [] l i h m e = elim m [ ]
ask-available answers (j ∷ is) l i h m e = elim (Result-cases (answers j)) [
  | inl (a, p) ↦ (a, rw (p, ask))
  | inr (f, p) ↦
      let later : Has i is = elim m [ inl q ↦ cc (ap answers q) | inr t ↦ t ] in
      let (h', r) = ask-available answers is (note_fault l j f) i h later e in (h', rw (p, ask) r)
]

module _ ⦃b : Bsv⦄ where
  bind-ok :
      (params : ChainParams) (g h : BlockHeader)
      → bind params g ≡ ok h
      → (g ≡ h) × (check_pow h params ≡ ok tt)
  unfolding bind
  bind-ok params g h e = elim (Result-cases (check_pow g params)) [
    | inl (_, p) ↦
        let q : g ≡ h = cc (rw (p, bind) at e) in
        (q, ap (λ (x : BlockHeader). check_pow x params) (sym q) ∙ p)
    | inr (f, p) ↦ cc (rw (p, bind) at e)
  ]

  at_height-ok :
      (params : ChainParams) (height : ℕ) (g h : BlockHeader)
      → at_height params height g ≡ ok h
      → (g ≡ h) × (h.height ≡ height) × (check_pow h params ≡ ok tt)
  unfolding at_height
  at_height-ok params height g h e = elim (Bool-cases (g.height == height)) [
    | inl t ↦
        let (q, p) = bind-ok params g h (rw (t, at_height) at e) in
        (q, ap (λ (x : BlockHeader). x.height) (sym q) ∙ (==_iff g.height height).0 t, p)
    | inr f ↦ cc (rw (f, at_height) at e)
  ]

  with_hash-ok :
      (params : ChainParams) (hash : Text) (g h : BlockHeader)
      → with_hash params hash g ≡ ok h
      → (g ≡ h) × (eq_ignore_ascii_case h.hash hash ≡ true) × (check_pow h params ≡ ok tt)
  unfolding with_hash
  with_hash-ok params hash g h e = elim (Bool-cases (eq_ignore_ascii_case g.hash hash)) [
    | inl t ↦
        let (q, p) = bind-ok params g h (rw (t, with_hash) at e) in
        (q, ap (λ (x : BlockHeader). eq_ignore_ascii_case x.hash hash) (sym q) ∙ t, p)
    | inr f ↦ cc (rw (f, with_hash) at e)
  ]

  -- A header that the ladder answers by height is one that a rung of its order served, stands at
  -- the height asked, and meets its own proof of work.
  pub header_by_height-ok :
      (source : Answers) (l : Ladder) (height : ℕ) (h : BlockHeader)
      → (header_by_height source l height).1 ≡ ok h
      → (h.height ≡ height)
        × (check_pow h l.params ≡ ok tt)
        × ((i : ℕ) × Has i (order l) × (source i ≡ ok h))
  unfolding header_by_height
  header_by_height-ok source l height h e =
      let (i, m, p) = ask-answer _ (order l) l h e in
      let (g, s, c) = >>=-eq-ok (source i) (at_height l.params height) p in
      let (q, at, work) = at_height-ok l.params height g h c in (at, work, (i, m, s ∙ ap ok q))

  -- A header that it answers by hash carries that hash, in any case of its letters, and meets its
  -- own proof of work; and it was served by a rung of the order.
  pub header_by_hash-ok :
      (source : Answers) (l : Ladder) (hash : Text) (h : BlockHeader)
      → (header_by_hash source l hash).1 ≡ ok h
      → (eq_ignore_ascii_case h.hash hash ≡ true)
        × (check_pow h l.params ≡ ok tt)
        × ((i : ℕ) × Has i (order l) × (source i ≡ ok h))
  unfolding header_by_hash
  header_by_hash-ok source l hash h e =
      let (i, m, p) = ask-answer _ (order l) l h e in
      let (g, s, c) = >>=-eq-ok (source i) (with_hash l.params hash) p in
      let (q, same, work) = with_hash-ok l.params hash g h c in (same, work, (i, m, s ∙ ap ok q))

  -- The ladder answers whenever one rung of its order serves a header at the height that meets its
  -- proof of work, whatever the others do.
  pub header_by_height-available :
      (source : Answers) (l : Ladder) (height i : ℕ) (h : BlockHeader)
      → Has i (order l)
      → source i ≡ ok h
      → h.height ≡ height
      → check_pow h l.params ≡ ok tt
      → (h' : BlockHeader) × ((header_by_height source l height).1 ≡ ok h')
  unfolding header_by_height at_height bind
  header_by_height-available source l height i h m s at work =
      ask-available _ (order l) l i h m (rw (s, (==_iff h.height height).1 at, bind, work) refl)
