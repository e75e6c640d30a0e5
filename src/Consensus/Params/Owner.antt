-- ===== src/Consensus/Params/Owner.antt =====
-- The owner's checkpoints on top of the node's.
use chaintracks_cloudflare.Prelude.{
  ℕ, Option, none, some, Option-cases, Bool-cases, split_once, parse_uint, trim, u32_max,
  to_ascii_lowercase, Text, List, [], ◌∷◌, ◌==◌, if◌then◌else◌, ◌≡◌, refl, sym, ap, ◌∙◌, subst, inl,
  inr, Result, ok, err, Result-cases, >>=-eq-ok, arith,
}
use chaintracks_cloudflare.Bsv.{Bsv}
use chaintracks_cloudflare.Consensus.Params.{
  ChainParams, SpecError, checkpoint_in, checkpoint_at, put_checkpoint, insert_by_height,
  sort_by_height, is_hash_hex, parse_entry, put_entries, entries, with_checkpoints,
}

-- What `height:hash` names at a height: the hash after the colon, trimmed and in lower case, where
-- the number before it is the height.
pub named : Text → ℕ → Option Text
named entry height = elim (split_once b':' entry) [
  | none ↦ none
  | some (h, hash) ↦ elim (parse_uint u32_max (trim h)) [
    | none ↦ none
    | some n ↦ if n == height then some (to_ascii_lowercase (trim hash)) else none
  ]
]

abbrev or_before : Option Text → Option Text → Option Text
or_before none before = before
or_before (some hash) before = some hash

-- What the entries say of a height: the last of those at the height, else what was there before.
pub last_named : List Text → ℕ → Option Text → Option Text
last_named [] height before = before
last_named (entry ∷ es) height before = last_named es height (or_before (named entry height) before)

parse_entry-named :
    ⦃b : Bsv⦄ (entry : Text) (h : ℕ) (hash : Text) (height : ℕ)
    → parse_entry entry ≡ ok (h, hash)
    → (before : Option Text)
    → or_before (named entry height) before ≡ (if h == height then some hash else before)
unfolding parse_entry named
parse_entry-named entry h hash height e before = elim (Option-cases (split_once b':' entry)) [
  | inl q ↦ let k : err (SpecError.no_colon entry) ≡ ok (h, hash) = (rw (parse_entry, q) at e) in cc
  | inr ((n, text), q) ↦ elim (Option-cases (parse_uint u32_max (trim n))) [
    | inl r ↦
        let k : err (SpecError.bad_height entry) ≡ ok (h, hash) = (rw (parse_entry, q, r) at e) in
        cc
    | inr (at, r) ↦ elim (Bool-cases (is_hash_hex (to_ascii_lowercase (trim text)))) [
      | inr x ↦
          let k : err (SpecError.not_hex entry) ≡ ok (h, hash) = (rw (parse_entry, q, r, x) at e) in
          cc
      | inl x ↦
          let k : ◌≡◌ {A = Result SpecError (ℕ × Text)} (ok (at, to_ascii_lowercase (trim text)))
              (ok (h, hash)) =
            (rw (parse_entry, q, r, x) at e) in
          let same : (at, to_ascii_lowercase (trim text)) ≡ (h, hash) = cc in
          subst
            (λ (c : ℕ × Text).
              or_before (named entry height) before ≡ (if c.0 == height then some c.1 else before))
            same
            (elim (Bool-cases (at == height)) [
              | inl y ↦ rw (named, q, r, y) refl
              | inr y ↦ rw (named, q, r, y) refl
            ])
    ]
  ]
]

checkpoint_in-put :
    (h : ℕ) (hash : Text) (cps : List (ℕ × Text)) (height : ℕ)
    → checkpoint_in (put_checkpoint h hash cps) height
      ≡ (if h == height then some hash else checkpoint_in cps height)
unfolding put_checkpoint
checkpoint_in-put h hash [] height = refl
checkpoint_in-put h hash ((k, old) ∷ r) height = ground (arith, checkpoint_in-put h hash r height)

checkpoint_in-insert :
    (c : ℕ × Text) (cps : List (ℕ × Text)) (height : ℕ)
    → checkpoint_in (insert_by_height c cps) height ≡ checkpoint_in (c ∷ cps) height
unfolding insert_by_height
checkpoint_in-insert (h, s) [] height = refl
checkpoint_in-insert (h, s) ((k, t) ∷ r) height =
    ground (arith, checkpoint_in-insert (h, s) r height)

checkpoint_in-sort :
    (cps : List (ℕ × Text)) (height : ℕ)
    → checkpoint_in (sort_by_height cps) height ≡ checkpoint_in cps height
unfolding sort_by_height
checkpoint_in-sort [] height = refl
checkpoint_in-sort ((h, s) ∷ r) height =
    checkpoint_in-insert (h, s) (sort_by_height r) height
    ∙ ap (λ o. if h == height then some s else o) (checkpoint_in-sort r height)

ok-inj : {A : Type 0} (x y : A) (r : Result SpecError A) → r ≡ ok x → r ≡ ok y → x ≡ y
ok-inj x y r e f = cc

module _ ⦃b : Bsv⦄ where
  checkpoint_in-entries :
      (es : List Text) (cps cps' : List (ℕ × Text)) (height : ℕ)
      → put_entries es cps ≡ ok cps'
      → checkpoint_in cps' height ≡ last_named es height (checkpoint_in cps height)
  unfolding put_entries last_named
  checkpoint_in-entries [] cps cps' height e =
      ap (λ c. checkpoint_in c height) (sym (ok-inj cps cps' (ok cps) refl e))
  checkpoint_in-entries (entry ∷ es) cps cps' height e = elim (Result-cases (parse_entry entry)) [
    | inr (f, q) ↦ let k : err f ≡ ok cps' = rw (put_entries, q) at e in cc
    | inl ((h, hash), q) ↦
        checkpoint_in-entries es (put_checkpoint h hash cps) cps' height (rw (put_entries, q) at e)
        ∙ ap (last_named es height) (
            checkpoint_in-put h hash cps height
            ∙ sym (parse_entry-named entry h hash height q (checkpoint_in cps height)))
  ]

  -- When `CHECKPOINTS` is taken, the checkpoint at each height is the hash that its last entry at
  -- the height names, in lower case; where no entry names the height, it is the one there was.
  pub with_checkpoints-last :
      (params params' : ChainParams) (spec : Text) (height : ℕ)
      → with_checkpoints params spec ≡ ok params'
      → checkpoint_at params' height
        ≡ last_named (entries spec) height (checkpoint_at params height)
  unfolding with_checkpoints checkpoint_at
  with_checkpoints-last params params' spec height e =
      let (cps, put, q) = >>=-eq-ok (put_entries (entries spec) params.checkpoints) _ e in
      ap (λ (p : ChainParams). checkpoint_in p.checkpoints height) (sym (ok-inj _ params' _ refl q))
      ∙ checkpoint_in-sort cps height
      ∙ checkpoint_in-entries (entries spec) params.checkpoints cps height put
