-- ===== src/Sse/Chunks.antt =====
-- Where the chunks of a stream end does not matter: `feed` is one fold over the bytes.
use mathlib.Core.List.{append_assoc, append-nil}
use chaintracks_cloudflare.Prelude.{
  ℕ, zero, suc, ◌≤◌, Option, none, some, Text, true, false, List, [], ◌∷◌, ◌++◌, length, ltb, ◌==◌,
  if◌then◌else◌, Result, ok, err, from_utf8_lossy, ◌≡◌, ◌≢◌, refl, sym, ap, ◌∙◌, subst, inl, inr,
  Bool-cases, Option-cases, arith,
}
use chaintracks_cloudflare.Sse.{
  Item, Parser, FeedFault, line_too_long, lf, cut_line, drop_cr, take_field, line, to_list, drain,
  feed, max_line,
}

abbrev pub holding : Text → Parser → Parser
holding t p = record p { pending = t }

-- One byte.
unfoldable pub step : Parser → ℕ → Parser × List Item
step p c =
    if c == lf
    then (let r = line (holding [] p) (from_utf8_lossy (drop_cr p.pending)) in (r.0, to_list r.1))
    else (holding (p.pending ++ c ∷ []) p, [])

unfoldable pub run : Parser → Text → Parser × List Item
run p [] = (p, [])
run p (c ∷ cs) = let s = step p c in let r = run s.0 cs in (r.0, s.1 ++ r.1)

pub run-append :
    (a b : Text) (p : Parser)
    → run p (a ++ b) ≡ ((run (run p a).0 b).0, (run p a).1 ++ (run (run p a).0 b).1)
unfolding run
run-append [] b p = refl
run-append (c ∷ a) b p = rw (run-append a b (step p c).0, append_assoc) refl

-- What `line` does has nothing to do with the bytes held.
take_field-holding :
    (t : Text) (p : Parser) (f v : Text)
    → take_field (holding t p) f v ≡ holding t (take_field p f v)
unfolding take_field
take_field-holding t p f v = ground arith

line-holding :
    (t : Text) (p : Parser) (l : Text)
    → line (holding t p) l ≡ (holding t (line p l).0, (line p l).1)
unfolding line
line-holding t p [] = ground arith
line-holding t p (c ∷ cs) = elim (Bool-cases (c == b':')) [
  | inl e ↦ rw (e) refl
  | inr e ↦ rw (e, take_field-holding) refl
]

step-keeps :
    (p : Parser) (c : ℕ) → (c == lf) ≡ false → step p c ≡ (holding (p.pending ++ c ∷ []) p, [])
unfolding step
step-keeps p c e = rw (step, e) refl

pub cut-some :
    (c : ℕ) (cs : Text)
    → (c == lf) ≡ false
    → (o : Option (Text × Text)) → cut_line cs ≡ o
    → cut_line (c ∷ cs) ≡ elim o [ none ↦ none | some (l, rest) ↦ some (c ∷ l, rest) ]
unfolding cut_line
cut-some c cs e o q = rw (cut_line, e, q) refl

pub cut-lf : (c : ℕ) (cs : Text) → (c == lf) ≡ true → cut_line (c ∷ cs) ≡ some ([], cs)
unfolding cut_line
cut-lf c cs e = rw (cut_line, e) refl

-- Bytes with no LF are held.
run-held : (t : Text) (p : Parser) → cut_line t ≡ none → run p t ≡ (holding (p.pending ++ t) p, [])
unfolding run
run-held [] p h = rw append-nil refl
run-held (c ∷ t) p h = elim (Bool-cases (c == lf)) [
  | inl e ↦ let k = cut-lf c t e in cc
  | inr e ↦ elim (Option-cases (cut_line t)) [
    | inr (x, q) ↦ let k = cut-some c t e (some x) q in cc
    | inl q ↦
        rw (run, step-keeps p c e, run-held t (holding (p.pending ++ c ∷ []) p) q, append_assoc)
          refl
  ]
]

cut_line-shorter : (t l rest : Text) → cut_line t ≡ some (l, rest) → suc (length rest) ≤ length t
unfolding cut_line
cut_line-shorter [] l rest h = cc
cut_line-shorter (c ∷ t) l rest h = elim (Bool-cases (c == lf)) [
  | inl e ↦ let k = sym (cut-lf c t e) ∙ h in ground arith
  | inr e ↦ elim (Option-cases (cut_line t)) [
    | inl q ↦ let k = sym (cut-some c t e none q) ∙ h in cc
    | inr ((l', rest'), q) ↦
        let k = sym (cut-some c t e (some (l', rest')) q) ∙ h in
        let ih = cut_line-shorter t l' rest' q in ground arith
  ]
]

cut-nil : (x : Text × Text) → cut_line [] ≢ some x
unfolding cut_line
cut-nil x h = cc

cut-empty : cut_line [] ≡ none
unfolding cut_line
cut-empty = refl

-- A line ends: its bytes are read, and the rest is run from there.
abbrev ended : Parser → Text → Text → Parser × List Item
ended p l rest =
    let s = line (holding [] p) (from_utf8_lossy (drop_cr l)) in
    let r = run s.0 rest in (r.0, to_list s.1 ++ r.1)

pub run-ends :
    (t : Text) (p : Parser) (l rest : Text)
    → cut_line t ≡ some (l, rest)
    → run p t ≡ ended p (p.pending ++ l) rest
unfolding run step
run-ends [] p l rest h = absurd (cut-nil (l, rest) h)
run-ends (c ∷ t) p l rest h = elim (Bool-cases (c == lf)) [
  | inl e ↦
      let k : (l ≡ []) × (rest ≡ t) = ground (arith, sym (cut-lf c t e) ∙ h) in
      rw (k.0, k.1, run, step, e, append-nil) refl
  | inr e ↦ elim (Option-cases (cut_line t)) [
    | inl q ↦ let k = sym (cut-some c t e none q) ∙ h in cc
    | inr ((l', rest'), q) ↦
        let k : (l ≡ c ∷ l') × (rest ≡ rest') =
          ground (arith, sym (cut-some c t e (some (l', rest')) q) ∙ h) in
        rw
          (
            k.0,
            k.1,
            run,
            step-keeps p c e,
            run-ends t (holding (p.pending ++ c ∷ []) p) l' rest' q,
            append_assoc,
          )
          refl
  ]
]

drain-stop :
    (fuel : ℕ) (p : Parser) (out : List Item)
    → cut_line p.pending ≡ none
    → drain fuel p out ≡ (p, out)
unfolding drain
drain-stop zero p out q = refl
drain-stop (suc fuel) p out q = rw (drain, q) refl

drain-next :
    (fuel : ℕ) (p : Parser) (out : List Item) (l rest : Text)
    → cut_line p.pending ≡ some (l, rest)
    → drain (suc fuel) p out
      ≡ drain fuel
          (line (holding rest p) (from_utf8_lossy (drop_cr l))).0
          (out ++ to_list (line (holding rest p) (from_utf8_lossy (drop_cr l))).1)
unfolding drain
drain-next fuel p out l rest q = rw (drain, q) refl

cut-short : (t : Text) → length t ≤ 0 → cut_line t ≡ none
unfolding cut_line
cut-short [] h = refl
cut-short (c ∷ t) h = absurd (omega arith)

drain-stopped :
    (fuel : ℕ) (p : Parser) (out : List Item)
    → cut_line p.pending ≡ none
    → drain fuel p out ≡ ((run (holding [] p) p.pending).0, out ++ (run (holding [] p) p.pending).1)
drain-stopped fuel p out q =
    rw (drain-stop fuel p out q, run-held p.pending (holding [] p) q, append-nil) refl

-- The loop of `feed` is the fold.
drain-run :
    (fuel : ℕ) (p : Parser) (out : List Item)
    → length p.pending ≤ fuel
    → drain fuel p out ≡ ((run (holding [] p) p.pending).0, out ++ (run (holding [] p) p.pending).1)
drain-run zero p out h = drain-stopped zero p out (cut-short p.pending h)
drain-run (suc fuel) p out h = elim (Option-cases (cut_line p.pending)) [
  | inl q ↦ drain-stopped (suc fuel) p out q
  | inr ((l, rest), q) ↦
      let text = from_utf8_lossy (drop_cr l) in
      let enough : length rest ≤ fuel = omega (arith, cut_line-shorter p.pending l rest q) in
      let ih =
        drain-run fuel (holding rest (line p text).0) (out ++ to_list (line p text).1) enough in
      drain-next fuel p out l rest q
      ∙ rw
          (
            line-holding rest p text,
            run-ends p.pending (holding [] p) l rest q,
            line-holding [] p text,
          )
          (ih ∙ rw append_assoc refl)
]

pub feed-run :
    (p : Parser) (a : Text)
    → feed p a ≡ (
        let r = run (holding [] p) (p.pending ++ a) in
        (r.0, if ltb max_line (length r.0.pending) then err line_too_long else ok r.1))
unfolding feed
feed-run p a =
    rw (feed, drain-run (length (p.pending ++ a)) (holding (p.pending ++ a) p) [] (omega arith))
      refl

-- The bytes held never have an LF in them.
cut-snoc :
    (t : Text) (c : ℕ) → (c == lf) ≡ false → cut_line t ≡ none → cut_line (t ++ c ∷ []) ≡ none
unfolding cut_line
cut-snoc [] c e h = rw (cut_line, e) refl
cut-snoc (d ∷ t) c e h = elim (Bool-cases (d == lf)) [
  | inl x ↦ let k = sym (cut-lf d t x) ∙ h in cc
  | inr x ↦ elim (Option-cases (cut_line t)) [
    | inl q ↦ cut-some d (t ++ c ∷ []) x none (cut-snoc t c e q)
    | inr (y, q) ↦ let k = sym (cut-some d t x (some y) q) ∙ h in cc
  ]
]

run-HoldsNone :
    (t : Text) (p : Parser) → cut_line p.pending ≡ none → cut_line (run p t).0.pending ≡ none
unfolding run step
run-HoldsNone [] p h = h
run-HoldsNone (c ∷ t) p h = elim (Bool-cases (c == lf)) [
  | inl e ↦
      rw (run, step, e, line-holding)
        (run-HoldsNone t (holding [] (line p (from_utf8_lossy (drop_cr p.pending))).0) cut-empty)
  | inr e ↦
      rw (run, step-keeps p c e)
        (run-HoldsNone t (holding (p.pending ++ c ∷ []) p) (cut-snoc p.pending c e h))
]

abbrev checked : Parser × List Item → Parser × Result FeedFault (List Item)
checked r = (r.0, if ltb max_line (length r.0.pending) then err line_too_long else ok r.1)

resume :
    (q : Parser) (b : Text)
    → cut_line q.pending ≡ none
    → run (holding [] q) (q.pending ++ b) ≡ run q b
resume q b h = rw (run-append q.pending b (holding [] q), run-held q.pending (holding [] q) h) refl

-- The items of an earlier chunk, ahead of what a later one gives.
abbrev pub behind :
    List Item → Parser × Result FeedFault (List Item) → Parser × Result FeedFault (List Item)
behind xs r = (r.0, elim r.1 [ err f ↦ err f | ok ys ↦ ok (xs ++ ys) ])

checked-behind :
    (xs : List Item) (r : Parser × List Item) → checked (r.0, xs ++ r.1) ≡ behind xs (checked r)
checked-behind xs r = elim (Bool-cases (ltb max_line (length r.0.pending))) [
  | inl e ↦ rw (e) refl
  | inr e ↦ rw (e) refl
]

checked-ok :
    (r : Parser × List Item) (q : Parser) (xs : List Item)
    → checked r ≡ (q, ok xs)
    → (r.0 ≡ q) × (r.1 ≡ xs)
checked-ok r q xs h = elim (Bool-cases (ltb max_line (length r.0.pending))) [
  | inl e ↦ let k = (rw (e) at h) in cc
  | inr e ↦ let k = (rw (e) at h) in (ap (λ x. x.0) h, ground arith)
]

-- A stream whose first chunk was read gives the same items and the same parser however it is cut:
-- feeding two chunks one after the other is feeding them joined, a fault of the second included.
pub feed-append :
    (p q : Parser) (a b : Text) (xs : List Item)
    → feed p a ≡ (q, ok xs)
    → feed p (a ++ b) ≡ behind xs (feed q b)
feed-append p q a b xs h =
    let (e, f) = checked-ok (run (holding [] p) (p.pending ++ a)) q xs (sym (feed-run p a) ∙ h) in
    let held : cut_line q.pending ≡ none =
      subst (λ x. cut_line x.pending ≡ none) e
        (run-HoldsNone (p.pending ++ a) (holding [] p) cut-empty) in
    feed-run p (a ++ b)
    ∙ rw (sym (append_assoc p.pending a b), run-append (p.pending ++ a) b (holding [] p), e, f)
        (checked-behind xs (run q b) ∙ rw (feed-run q b, resume q b held) refl)
