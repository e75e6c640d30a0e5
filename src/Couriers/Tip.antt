-- ===== src/Couriers/Tip.antt =====
-- The tip that a tick prefers.
use chaintracks_cloudflare.Prelude.{
  ℕ, ◌≤◌, ◌≡◌, refl, ap, subst, ◌∙◌, Option, none, some, List, [], ◌∷◌, Has, ltb, ◌⊎◌, Result, ok,
  arith, Bool-cases, inl, inr, Result-cases,
}
use chaintracks_cloudflare.Couriers.{
  Ladder, CourierError, ChainInfo, survey, better, chain_info, prefer, order, note_ok, note_fault,
  note_observed,
}

-- At least as high as `n`.
abbrev AtLeast : ℕ → Option (ℕ × ChainInfo) → Type 0
AtLeast n best = (i : ℕ) × (m : ChainInfo) × (best ≡ some (i, m)) × (n ≤ m.blocks)

better-AtLeast :
    (best : Option (ℕ × ChainInfo)) (i : ℕ) (info : ChainInfo)
    → AtLeast info.blocks (better best i info)
      × ((n : ℕ) → AtLeast n best → AtLeast n (better best i info))
unfolding better
better-AtLeast none i info = ((i, info, refl, omega arith), λ n a. cc (a.2))
better-AtLeast (some (j, m)) i info = elim (Bool-cases (ltb m.blocks info.blocks)) [
  | inl t ↦ rw t ((i, info, refl, omega arith), λ n a. (i, info, refl, ground arith))
  | inr f ↦ rw f ((j, m, refl, ground arith), λ n a. a)
]

survey-AtLeast :
    (source : ℕ → Result CourierError ChainInfo) (clock : ℕ → ℕ) (is : List ℕ) (l : Ladder)
    (best : Option (ℕ × ChainInfo))
    → ((n : ℕ) → AtLeast n best → AtLeast n (survey source clock is l best).1)
      × ((j : ℕ) (info : ChainInfo)
          → Has j is
          → source j ≡ ok info
          → AtLeast info.blocks (survey source clock is l best).1)
unfolding survey
survey-AtLeast source clock [] l best = (λ n a. a, λ j info m e. elim m [ ])
survey-AtLeast source clock (i ∷ is) l best = elim (Result-cases (source i)) [
  | inl (m, p) ↦
      let (up, keep) = better-AtLeast best i m in
      let (later, rest) =
        survey-AtLeast source clock is (note_observed (note_ok l i) i m (clock i))
          (better best i m) in
      rw (p, survey)
        (
          λ n a. later n (keep n a),
          λ j info at e. elim at [
            | inl q ↦ later info.blocks (
                subst (λ (k : ChainInfo). AtLeast k.blocks (better best i m)) (same j info q e m p)
                  up)
            | inr t ↦ rest j info t e
          ],
        )
  | inr (f, p) ↦
      let (later, rest) = survey-AtLeast source clock is (note_fault l i f) best in
      rw (p, survey)
        (later, λ j info at e. elim at [ inl q ↦ cc (ap source q) | inr t ↦ rest j info t e ])
]
  where
    same :
        (j : ℕ) (info : ChainInfo)
        → j ≡ i
        → source j ≡ ok info
        → (m : ChainInfo) → source i ≡ ok m
        → m ≡ info
    same j info q e m p = cc (ap source q)

better-source :
    (best : Option (ℕ × ChainInfo)) (k : ℕ) (g : ChainInfo) (i : ℕ) (m : ChainInfo)
    → better best k g ≡ some (i, m)
    → (best ≡ some (i, m)) ⊎ ((i ≡ k) × (g ≡ m))
unfolding better
better-source none k g i m e = inr (ground arith, ground arith)
better-source (some (j, h)) k g i m e = elim (Bool-cases (ltb h.blocks g.blocks)) [
  | inl t ↦ inr (ground arith, ground arith)
  | inr f ↦ inl (ground arith)
]

survey-source :
    (source : ℕ → Result CourierError ChainInfo) (clock : ℕ → ℕ) (is : List ℕ) (l : Ladder)
    (best : Option (ℕ × ChainInfo)) (i : ℕ) (m : ChainInfo)
    → (survey source clock is l best).1 ≡ some (i, m)
    → (best ≡ some (i, m)) ⊎ (Has i is × (source i ≡ ok m))
unfolding survey
survey-source source clock [] l best i m e = inl e
survey-source source clock (k ∷ is) l best i m e = elim (Result-cases (source k)) [
  | inl (g, p) ↦
      elim (survey-source source clock is (note_observed (note_ok l k) k g (clock k))
        (better best k g) i m (rw (p, survey) at e)) [
          | inl q ↦ elim (better-source best k g i m q) [
            | inl old ↦ inl old
            | inr (a, c) ↦ inr (inl a, ap source a ∙ p ∙ ap ok c)
          ]
          | inr (t, q) ↦ inr (inr t, q)
        ]
  | inr (f, p) ↦
      elim (survey-source source clock is (note_fault l k f) best i m (rw (p, survey) at e)) [
        | inl q ↦ inl q
        | inr (t, q) ↦ inr (inr t, q)
      ]
]

prefer-ok :
    (r : Ladder × Option (ℕ × ChainInfo)) (info : ChainInfo)
    → (prefer r).1 ≡ ok info
    → (i : ℕ) × (r.1 ≡ some (i, info)) × ((prefer r).0.preferred ≡ some i)
unfolding prefer
prefer-ok (l, none) info e = cc
prefer-ok (l, some (i, m)) info e = (i, ground arith, refl)

-- The tip that the tick goes by was answered by a rung of the order, which is preferred for the
-- tick's headers, and no rung that answered named a higher one.
pub chain_info-highest :
    (source : ℕ → Result CourierError ChainInfo) (clock : ℕ → ℕ) (l : Ladder) (info : ChainInfo)
    → (chain_info source clock l).1 ≡ ok info
    → ((i : ℕ) × Has i (order l)
        × (source i ≡ ok info)
        × ((chain_info source clock l).0.preferred ≡ some i))
      × ((j : ℕ) (other : ChainInfo)
          → Has j (order l)
          → source j ≡ ok other
          → other.blocks ≤ info.blocks)
unfolding chain_info
chain_info-highest source clock l info e =
    let r = survey source clock (order l) l none in
    let (i, s, p) = prefer-ok r info e in
    let (_, reached) = survey-AtLeast source clock (order l) l none in
    (
      elim (survey-source source clock (order l) l none i info s) [
        | inl q ↦ cc
        | inr (m, q) ↦ (i, m, q, p)
      ],
      λ j other m q. let (x, h, t, le) = reached j other m q in ground (arith, s, t),
    )
