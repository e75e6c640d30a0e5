-- ===== src/Push/Door.antt =====
-- What the door answers of a pushed header.
use chaintracks_cloudflare.Prelude.{
  ℕ, Option, none, some, Option-cases, Text, Bool, true, List, [], ◌∷◌, length, ltb, Result, ok,
  err, Result-cases, Bool-cases, ◌≡◌, refl, Lift⊥, sym, ◌∙◌, subst, ◌⊎◌, inl, inr, Has,
}
use chaintracks_cloudflare.Bsv.{Bsv}
use chaintracks_cloudflare.Types.{BlockHeader}
use chaintracks_cloudflare.Consensus.{check_pow}
use chaintracks_cloudflare.Consensus.Params.{ChainParams}
use chaintracks_cloudflare.Outcomes.{
  Outcome, IngestError, known, busy, active, activated, Announced,
}
use chaintracks_cloudflare.Lease.{Lease, held, unserialized, lease_s, take_lease, release_lease}
use chaintracks_cloudflare.Store.Table.{Db}
use chaintracks_cloudflare.Store.Rules.{refused}
use chaintracks_cloudflare.Store.Served.{
  Ceiling, all_rows, nothing, up_to, served_ceiling, served_tip,
}
use chaintracks_cloudflare.Store.Ingest.{IngestOutcome, ingest_pushed}
use chaintracks_cloudflare.Store.Ingest.Served.{Standing, Serves, ingest_pushed-Serves}
use chaintracks_cloudflare.Announce.Notify.{Hooks}
use chaintracks_cloudflare.Push.{
  Source, parent_walk_limit, walk, Service, answer, ingest_run, ingest_held, note_seen, notify,
  announce_tip, after_write, write_under, is_served, ingest_announced,
}
use chaintracks_cloudflare.Push.Walk.{walk-Walked, Grown-Has}

abbrev Door : Type 0
Door = Service × Result IngestError Announced

-- The outcome says that the header is the one served.
abbrev pub Taken : Announced → Type 0
Taken a = (a.outcome ≡ active) ⊎ (a.outcome ≡ activated)

-- An answer that the header was taken is true of the store.
abbrev Backed : BlockHeader → Door → Type 0
Backed h out =
    (a : Announced)
    → ◌≡◌ {A = Result IngestError Announced} out.1 (ok a)
    → Taken a
    → Standing h a.outcome out.0.db.headers

Serves-Has :
    (h : BlockHeader) (hs : List BlockHeader) (o : Outcome) (db : Db)
    → Serves hs o db
    → Has h hs
    → Standing h o db.headers
Serves-Has h [] o db a i = elim i [ ]
Serves-Has h (k ∷ hs) o db (x, a) (inl e) = subst (λ j. Standing j o db.headers) (sym e) x
Serves-Has h (k ∷ hs) o db (x, a) (inr i) = Serves-Has h hs o db a i

refused-Backed : (h : BlockHeader) (s : Service) (e : IngestError) → Backed h (s, err e)
refused-Backed h s e a q t = cc

-- An answer whose outcome is neither is backed by anything.
other-Backed :
    (h : BlockHeader) (s : Service) (a : Announced) → (Taken a → Lift⊥ {0}) → Backed h (s, ok a)
other-Backed h s a n c q t = let e : a ≡ c = cc in elim (n (subst Taken (sym e) t)) [ ]

refused_run :
    ⦃b : Bsv⦄ (params : ChainParams) (first : BlockHeader) (rest : List BlockHeader) (s : Service)
    (f : IngestError)
    → (ingest_pushed params (first ∷ rest) s.db).1 ≡ err f
    → (t : Service) × (g : IngestError) × (ingest_run params first rest s ≡ (t, err g))
unfolding ingest_run
refused_run params first rest s (IngestError.refused f) e =
    let t = record s { db = (ingest_pushed params (first ∷ rest) s.db).0 } in
    (record t { last_error = some f }, IngestError.refused f, rw (ingest_run, e) refl)
refused_run params first rest s (IngestError.store f) e = (
  record s { db = (ingest_pushed params (first ∷ rest) s.db).0 },
  IngestError.store f,
  rw (ingest_run, e) refl,
)

answered_run :
    ⦃b : Bsv⦄ (params : ChainParams) (first : BlockHeader) (rest : List BlockHeader) (s : Service)
    (o : IngestOutcome)
    → (ingest_pushed params (first ∷ rest) s.db).1 ≡ ok o
    → let db = (ingest_pushed params (first ∷ rest) s.db).0 in
      ingest_run params first rest s
      ≡ (record s { db = db }, ok (answer o.outcome (length rest) db))
unfolding ingest_run
answered_run params first rest s o e = rw (ingest_run, e) refl

ingest_run-Backed :
    ⦃b : Bsv⦄ (params : ChainParams) (h first : BlockHeader) (rest : List BlockHeader) (s : Service)
    → Has h (first ∷ rest)
    → Backed h (ingest_run params first rest s)
ingest_run-Backed params h first rest s i =
    elim (Result-cases (ingest_pushed params (first ∷ rest) s.db).1) [
      | inl (o, e) ↦ subst (Backed h) (sym (answered_run params first rest s o e)) (λ a q t.
          let same : answer o.outcome (length rest) (ingest_pushed params (first ∷ rest) s.db).0
              ≡ a =
            cc in
          let end = (ingest_pushed params (first ∷ rest) s.db).0 in
          subst (λ (c : Announced). Standing h c.outcome end.headers) same
            (Serves-Has h (first ∷ rest) o.outcome end
              (ingest_pushed-Serves params (first ∷ rest) s.db o e (subst Taken (sym same) t)) i))
      | inr (f, e) ↦
          let (t, g, q) = refused_run params first rest s f e in
          subst (Backed h) (sym q) (refused-Backed h t g)
    ]

ingest_held-Backed :
    ⦃b : Bsv⦄ (params : ChainParams) (source : Source) (h : BlockHeader) (s : Service)
    → Backed h (ingest_held params source h s)
unfolding ingest_held
ingest_held-Backed params source h s =
    elim (Result-cases (walk source s.db parent_walk_limit h [])) [
      | inl (run, e) ↦
          let (g, l, w) = walk-Walked source s.db parent_walk_limit h [] run e in
          let q : ingest_held params source h s ≡ ingest_run params run.0 run.1 s =
            rw (ingest_held, e) refl in
          subst (Backed h) (sym q)
            (ingest_run-Backed params h run.0 run.1 s (Grown-Has source h w (inl refl)))
      | inr (f, e) ↦
          let t = record s { last_error = some f } in
          let q : ingest_held params source h s ≡ (t, err (IngestError.refused f)) =
            rw (ingest_held, e) refl in
          subst (Backed h) (sym q) (refused-Backed h t (IngestError.refused f))
    ]

note_seen-headers : (height : ℕ) (db : Db) → (note_seen height db).headers ≡ db.headers
unfolding note_seen
note_seen-headers height db =
    let lower : Bool = (elim db.sync.last_seen_height [ none ↦ true | some s ↦ ltb s height ]) in
    elim (Bool-cases lower) [ inl e ↦ rw (e) refl | inr e ↦ rw (e) refl ]

Ceiling-cases : (c : Ceiling) → (c ≡ all_rows) ⊎ ((c ≡ nothing) ⊎ ((h : ℕ) × (c ≡ up_to h)))
Ceiling-cases all_rows = inl refl
Ceiling-cases nothing = inr (inl refl)
Ceiling-cases (up_to h) = inr (inr (h, refl))

announce_tip-headers :
    (hooks : Hooks) (now : ℕ) (tip : Option BlockHeader) (s : Service)
    → (announce_tip hooks now tip s).db.headers ≡ s.db.headers
unfolding announce_tip notify
announce_tip-headers hooks now tip s = elim (Ceiling-cases (served_ceiling s.db)) [
  | inl e ↦ rw (announce_tip, e) refl
  | inr (inl e) ↦ elim (Option-cases (served_tip s.db)) [
    | inl f ↦ rw (announce_tip, e, f) refl
    | inr (t, f) ↦ rw (announce_tip, e, f) refl
  ]
  | inr (inr (h, e)) ↦ elim (Option-cases (served_tip s.db)) [
    | inl f ↦ rw (announce_tip, e, f) refl
    | inr (t, f) ↦ rw (announce_tip, e, f) refl
  ]
]

after_write-Backed :
    (hooks : Hooks) (now height : ℕ) (h : BlockHeader) (out : Door)
    → Backed h out
    → Backed h (after_write hooks now height out)
unfolding after_write
after_write-Backed hooks now height h (s, err e) k a q t = refused-Backed h s e a q t
after_write-Backed hooks now height h (s, ok a) k c q t =
    let seen = record s { db = note_seen height s.db } in
    subst (Standing h c.outcome)
      (sym (announce_tip-headers hooks now none seen ∙ note_seen-headers height s.db)) (k c q t)

write_under-Backed :
    ⦃b : Bsv⦄ (params : ChainParams) (source : Source) (hooks : Hooks) (now : ℕ) (h : BlockHeader)
    (l : Lease) (s : Service)
    → Backed h (write_under params source hooks now h l s)
unfolding write_under
write_under-Backed params source hooks now h l s =
    let out = ingest_held params source h s in
    after_write-Backed hooks now h.height h
      (record out.0 { lease = release_lease l out.0.lease }, out.1)
      (ingest_held-Backed params source h s)

known-untaken : (db : Db) → Taken (answer known 0 db) → Lift⊥ {0}
known-untaken db (inl e) = cc
known-untaken db (inr e) = cc

busy-untaken : (db : Db) → Taken (answer busy 0 db) → Lift⊥ {0}
busy-untaken db (inl e) = cc
busy-untaken db (inr e) = cc

Lease-cases : (l : Lease) → (l ≡ Lease.busy) ⊎ ((l ≡ unserialized) ⊎ ((t : Text) × (l ≡ held t)))
Lease-cases Lease.busy = inl refl
Lease-cases unserialized = inr (inl refl)
Lease-cases (held t) = inr (inr (t, refl))

ingest_announced-Backed :
    ⦃b : Bsv⦄ (params : ChainParams) (source : Source) (hooks : Hooks) (token : Option Text)
    (readable : Bool) (now : ℕ) (h : BlockHeader) (s : Service)
    → Backed h (ingest_announced params source hooks token readable now h s)
unfolding ingest_announced
ingest_announced-Backed params source hooks token readable now h s =
    let taken = take_lease token readable lease_s now s.lease in
    let s' = record s { lease = taken.0 } in
    let door = ingest_announced params source hooks token readable now h s in
    elim (Result-cases (check_pow h params)) [
      | inr (f, e) ↦
          let t = record s { last_error = some (refused h f) } in
          let q : door ≡ (t, err (IngestError.refused (refused h f))) =
            rw (ingest_announced, e) refl in
          subst (Backed h) (sym q) (refused-Backed h t (IngestError.refused (refused h f)))
      | inl (u, e) ↦ elim (Bool-cases (is_served s.db h.hash)) [
        | inl i ↦
            let q : door ≡ (s, ok (answer known 0 s.db)) = rw (ingest_announced, e, i) refl in
            subst (Backed h) (sym q) (other-Backed h s (answer known 0 s.db) (known-untaken s.db))
        | inr i ↦ elim (Lease-cases taken.1) [
          | inl l ↦
              let q : door ≡ (s', ok (answer busy 0 s.db)) = rw (ingest_announced, e, i, l) refl in
              subst (Backed h) (sym q) (other-Backed h s' (answer busy 0 s.db) (busy-untaken s.db))
          | inr (inl l) ↦
              let q : door ≡ write_under params source hooks now h unserialized s' =
                rw (ingest_announced, e, i, l) refl in
              subst (Backed h) (sym q)
                (write_under-Backed params source hooks now h unserialized s')
          | inr (inr (w, l)) ↦
              let q : door ≡ write_under params source hooks now h (held w) s' =
                rw (ingest_announced, e, i, l) refl in
              subst (Backed h) (sym q) (write_under-Backed params source hooks now h (held w) s')
        ]
      ]
    ]

-- After the door answers a pushed header as active, its hash is that of an active row, and no row with
-- another hash is active at its height; after it answers it as activated, its hash is stored, and a
-- row at its height is active exactly when it has its hash.
pub ingest_announced-Serves :
    ⦃b : Bsv⦄ (params : ChainParams) (source : Source) (hooks : Hooks) (token : Option Text)
    (readable : Bool) (now : ℕ) (header : BlockHeader) (s : Service) (a : Announced)
    → (ingest_announced params source hooks token readable now header s).1 ≡ ok a
    → (a.outcome ≡ active) ⊎ (a.outcome ≡ activated)
    → Standing header a.outcome
        (ingest_announced params source hooks token readable now header s).0.db.headers
ingest_announced-Serves params source hooks token readable now header s =
    ingest_announced-Backed params source hooks token readable now header s
