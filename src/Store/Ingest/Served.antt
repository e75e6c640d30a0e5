-- ===== src/Store/Ingest/Served.antt =====
-- A push that is answered as active is what the store serves at its heights.
use chaintracks_cloudflare.Prelude.{
  ℕ, ◌+◌, ◌≤◌, ◌<◌, Option, Text, eq_ignore_ascii_case, Bool, true, false, ◌&&◌, List, [], ◌∷◌,
  length, filter, find, ltb, ◌==◌, ==_iff, Result, ok, err, Result-cases, Bool-cases, Option-cases,
  ◌≡◌, refl, Lift⊥, sym, ap, ◌∙◌, subst, ◌⊎◌, inl, inr, All, arith,
}
use chaintracks_cloudflare.Bsv.{Bsv}
use chaintracks_cloudflare.Types.{BlockHeader}
use chaintracks_cloudflare.Consensus.Params.{ChainParams}
use chaintracks_cloudflare.Outcomes.{
  StoreFault, IngestError, Outcome, active, activated, stored_inactive,
}
use chaintracks_cloudflare.Store.Table.{Db, active_between, update_chain_tip_to_highest}
use chaintracks_cloudflare.Store.Batch.{judge_batch}
use chaintracks_cloudflare.Store.Batch.Judge.{Linked, judge_batch-Linked}
use chaintracks_cloudflare.Store.Batch.Write.{insert_headers_batch}
use chaintracks_cloudflare.Store.Batch.Write.Stored.{Stored, AllStored, insert_headers_batch-Stored}
use chaintracks_cloudflare.Store.Ingest.{
  IngestOutcome, last_of, lowest, sole_active, rivals, parent_is_inactive, link_child, link_span,
  canonicalize_all, activate, compete, canonicalize_pushed, ingest_pushed,
}
use chaintracks_cloudflare.Store.Ingest.Canon.{
  Sole, Canon, rises, canonicalize_all-Canon, link_child-Canon, sole_active-Sole,
}
use chaintracks_cloudflare.Store.Ingest.Shown.{
  Shown, sole_active-Shown, link_span-Shown, highest-Shown, activated-Stored,
}
use chaintracks_cloudflare.Store.Ingest.Soles.{filter-whole, link_span-Sole, highest-Sole}

-- What an outcome says of a pushed header: as active, some active row has its hash and no row with
-- another is active at its height; as activated, some row has its hash, and a row at its height is
-- active exactly when it has it.
abbrev pub Standing : BlockHeader → Outcome → List BlockHeader → Type 0
Standing h o rows =
    ((o ≡ active) × All (Sole h) rows × Shown h rows)
    ⊎ ((o ≡ activated) × Stored h.hash rows × All (Canon h) rows)

abbrev pub Serves : List BlockHeader → Outcome → Db → Type 0
Serves headers o db = All (λ h. Standing h o db.headers) headers

activate-Serves :
    (first : BlockHeader) (rest : List BlockHeader) (last child : Text) (low : Option ℕ) (db : Db)
    (o : Outcome)
    → o ≡ activated
    → Linked first rest
    → AllStored (first ∷ rest) db
    → Serves (first ∷ rest) o (activate (first ∷ rest) last child low db)
unfolding activate
activate-Serves first rest last child low db o t l k =
    each (first ∷ rest) (canonicalize_all-Canon first rest db.headers l) k
  where
    each :
        (hs : List BlockHeader)
        → All (λ h. All (Canon h) (canonicalize_all (first ∷ rest) db.headers)) hs
        → AllStored hs db
        → All
            (λ h. Standing h o (link_child last child (canonicalize_all (first ∷ rest) db.headers)))
            hs
    each [] a k = tt
    each (h ∷ hs) (x, a) (y, k) = (
      inr (
        t,
        activated-Stored h.hash (first ∷ rest) last child db.headers y,
        link_child-Canon h last child (canonicalize_all (first ∷ rest) db.headers) x,
      ),
      each hs a k,
    )

-- Not stored inactive.
abbrev pub Answered : IngestOutcome → Type 0
Answered out = (out.outcome ≡ active) ⊎ (out.outcome ≡ activated)

inactive-Answered : (out : IngestOutcome) → out.outcome ≡ stored_inactive → Answered out → Lift⊥ {0}
inactive-Answered out e (inl a) = cc
inactive-Answered out e (inr a) = cc

-- A competitor changes nothing, or is activated.
pub compete-cases :
    (first : BlockHeader) (rest : List BlockHeader) (inserted sole : ℕ) (rows : List BlockHeader)
    (db : Db)
    → let out = compete first rest inserted sole rows db in
      ((out.0 ≡ db) × (out.1.outcome ≡ stored_inactive))
      ⊎ ((child : Text) × (low : Option ℕ) × (out.0
            ≡ activate (first ∷ rest) (last_of first rest).hash child low db)
          × (out.1.outcome ≡ activated))
unfolding compete
compete-cases first rest inserted sole rows db =
    let last = last_of first rest in
    let child_of : BlockHeader → Bool =
      (λ r. (r.height == last.height + 1) && eq_ignore_ascii_case r.previous_hash last.hash) in
    elim (Option-cases (find child_of rows)) [
      | inl e ↦ inl (rw (compete, e) refl, rw (compete, e) refl)
      | inr (child, e) ↦ elim (Bool-cases (parent_is_inactive db first)) [
        | inl f ↦ inl (rw (compete, e, f) refl, rw (compete, e, f) refl)
        | inr f ↦ elim (Bool-cases (ltb 400 (length (first ∷ rest)))) [
          | inl g ↦ inl (rw (compete, e, f, g) refl, rw (compete, e, f, g) refl)
          | inr g ↦ inr (
            child.hash,
            lowest (rivals rows last.height (first ∷ rest)),
            rw (compete, e, f, g) refl,
            rw (compete, e, f, g) refl,
          )
        ]
      ]
    ]

compete-Serves :
    (first : BlockHeader) (rest : List BlockHeader) (inserted sole : ℕ) (rows : List BlockHeader)
    (db : Db)
    → Linked first rest
    → AllStored (first ∷ rest) db
    → Answered (compete first rest inserted sole rows db).1
    → let out = compete first rest inserted sole rows db in
      Serves (first ∷ rest) out.1.outcome out.0
compete-Serves first rest inserted sole rows db l k a =
    let out = compete first rest inserted sole rows db in
    elim (compete-cases first rest inserted sole rows db) [
      | inl (e, o) ↦ elim (inactive-Answered out.1 o a) [ ]
      | inr (child, low, e, o) ↦
          subst (Serves (first ∷ rest) out.1.outcome) (sym e)
            (activate-Serves first rest (last_of first rest).hash child low db out.1.outcome o l k)
    ]

all_Sole :
    (first : BlockHeader) (rest : List BlockHeader) (db : Db)
    → Linked first rest
    → All
        (λ h.
          sole_active (active_between db first.height ((last_of first rest).height + 1)) h ≡ true)
        (first ∷ rest)
    → Serves (first ∷ rest) active db
all_Sole first rest db l (x, a) =
    let (up, down, whole) = rises first rest l in
    let hi = (last_of first rest).height + 1 in
    (
      inl (
        refl,
        sole_active-Sole db first.height hi first (omega arith) (omega arith) x,
        sole_active-Shown db first.height hi first x,
      ),
      each rest up down a,
    )
  where
    each :
        (hs : List BlockHeader)
        → All (λ k. first.height < k.height) hs
        → All (λ k. k.height ≤ (last_of first rest).height) hs
        → All
            (λ h.
              sole_active (active_between db first.height ((last_of first rest).height + 1)) h
              ≡ true)
            hs
        → Serves hs active db
    each [] u d a = tt
    each (h ∷ hs) (y, u) (z, d) (x, a) = (
      inl (
        refl,
        sole_active-Sole db first.height ((last_of first rest).height + 1) h (omega arith)
            (omega arith) x,
        sole_active-Shown db first.height ((last_of first rest).height + 1) h x,
      ),
      each hs u d a,
    )

settled :
    (lo hi : ℕ) (hs : List BlockHeader) (db : Db)
    → Serves hs active db
    → Serves hs active
        (update_chain_tip_to_highest (record db { headers = link_span lo hi db.headers })).0
settled lo hi [] db a = tt
settled lo hi (h ∷ hs) db (inl (o, x, y), a) = (
  inl (
    o,
    highest-Sole h (record db { headers = link_span lo hi db.headers })
        (link_span-Sole h lo hi db.headers x),
    highest-Shown h (record db { headers = link_span lo hi db.headers })
        (link_span-Shown h lo hi db.headers y),
  ),
  settled lo hi hs db a,
)
settled lo hi (h ∷ hs) db (inr (o, x, y), a) = let k : active ≡ activated = o in cc

unfoldable pub sole_count : BlockHeader → List BlockHeader → Db → ℕ
sole_count first rest db = length (
    filter (sole_active (active_between db first.height ((last_of first rest).height + 1)))
      (first ∷ rest))

-- A push that is served already is linked and has the tip recomputed; another competes.
pub served_already :
    (first : BlockHeader) (rest : List BlockHeader) (inserted : ℕ) (db : Db)
    → (sole_count first rest db == length (first ∷ rest)) ≡ true
    → ((canonicalize_pushed (first ∷ rest) inserted db).0
        ≡ (update_chain_tip_to_highest (record db {
          headers = link_span first.height ((last_of first rest).height + 1) db.headers;
        })).0)
      × ((canonicalize_pushed (first ∷ rest) inserted db).1.outcome ≡ active)
unfolding canonicalize_pushed sole_count
served_already first rest inserted db e =
    (rw (canonicalize_pushed, e) refl, rw (canonicalize_pushed, e) refl)

pub not_served :
    (first : BlockHeader) (rest : List BlockHeader) (inserted : ℕ) (db : Db)
    → (sole_count first rest db == length (first ∷ rest)) ≡ false
    → canonicalize_pushed (first ∷ rest) inserted db
      ≡ compete first rest inserted
          (sole_count first rest db)
          (active_between db first.height ((last_of first rest).height + 1))
          db
unfolding canonicalize_pushed sole_count
not_served first rest inserted db e = rw (canonicalize_pushed, e) refl

canonicalize_pushed-Serves :
    (first : BlockHeader) (rest : List BlockHeader) (inserted : ℕ) (db : Db)
    → Linked first rest
    → AllStored (first ∷ rest) db
    → Answered (canonicalize_pushed (first ∷ rest) inserted db).1
    → let out = canonicalize_pushed (first ∷ rest) inserted db in
      Serves (first ∷ rest) out.1.outcome out.0
unfolding sole_count
canonicalize_pushed-Serves first rest inserted db l k a =
    let headers = first ∷ rest in
    let hi = (last_of first rest).height + 1 in
    let rows = active_between db first.height hi in
    let sole = sole_count first rest db in
    elim (Bool-cases (sole == length headers)) [
      | inl e ↦
          let (q, o) = served_already first rest inserted db e in
          subst (λ v. Serves headers v (canonicalize_pushed headers inserted db).0) (sym o)
            (subst (Serves headers active) (sym q) (
              settled first.height hi headers db (
                all_Sole first rest db l
                  (filter-whole (sole_active rows) headers ((==_iff sole (length headers)).0 e)))))
      | inr e ↦
          let q = not_served first rest inserted db e in
          subst (λ (o : Db × IngestOutcome). Serves headers o.1.outcome o.0) (sym q)
            (compete-Serves first rest inserted sole rows db l k
              (subst (λ (o : Db × IngestOutcome). Answered o.1) q a))
    ]

batch-Linked :
    ⦃b : Bsv⦄ (params : ChainParams) (first : BlockHeader) (rest : List BlockHeader) (db : Db)
    (n : ℕ)
    → (insert_headers_batch params (first ∷ rest) db).1 ≡ ok n
    → Linked first rest
unfolding insert_headers_batch
batch-Linked params first rest db n h = elim (Result-cases (judge_batch db params first rest)) [
  | inr (f, e) ↦ let k = (rw (insert_headers_batch, e) at h) in cc
  | inl (u, e) ↦ (judge_batch-Linked params db first rest e).0
]

pub ingest_pushed-written :
    ⦃b : Bsv⦄ (params : ChainParams) (headers : List BlockHeader) (db : Db) (n : ℕ)
    → (insert_headers_batch params headers db).1 ≡ ok n
    → let out = canonicalize_pushed headers n (insert_headers_batch params headers db).0 in
      ingest_pushed params headers db ≡ (out.0, ok out.1)
unfolding ingest_pushed
ingest_pushed-written params headers db n e = rw (ingest_pushed, e) refl

ingest_pushed-refused :
    ⦃b : Bsv⦄ (params : ChainParams) (headers : List BlockHeader) (db : Db) (f : StoreFault)
    → (insert_headers_batch params headers db).1 ≡ err f
    → (ingest_pushed params headers db).1 ≡ err (IngestError.refused f)
unfolding ingest_pushed
ingest_pushed-refused params headers db f e = rw (ingest_pushed, e) refl

ok-inj : (x y : IngestOutcome) → ◌≡◌ {A = Result IngestError IngestOutcome} (ok x) (ok y) → x ≡ y
ok-inj x y e = cc

-- After a push that is answered as active, each pushed header's hash is that of an active row, and no
-- row with another hash is active at its height; after one that is answered as activated, each pushed
-- header's hash is stored, and a row at its height is active exactly when it has that hash.
pub ingest_pushed-Serves :
    ⦃b : Bsv⦄ (params : ChainParams) (headers : List BlockHeader) (db : Db) (out : IngestOutcome)
    → (ingest_pushed params headers db).1 ≡ ok out
    → (out.outcome ≡ active) ⊎ (out.outcome ≡ activated)
    → Serves headers out.outcome (ingest_pushed params headers db).0
ingest_pushed-Serves params [] db out h a = tt
ingest_pushed-Serves params (first ∷ rest) db out h a =
    let headers = first ∷ rest in
    let written = insert_headers_batch params headers db in
    elim (Result-cases written.1) [
      | inr (f, e) ↦ let k = sym (ingest_pushed-refused params headers db f e) ∙ h in cc
      | inl (n, e) ↦
          let q = ingest_pushed-written params headers db n e in
          let same : (canonicalize_pushed headers n written.0).1 ≡ out =
            ok-inj (canonicalize_pushed headers n written.0).1 out
              (sym (ap (λ (o : Db × Result IngestError IngestOutcome). o.1) q) ∙ h) in
          subst (λ (o : Db × Result IngestError IngestOutcome). Serves headers out.outcome o.0)
            (sym q)
            (subst
              (λ (o : IngestOutcome).
                Serves headers o.outcome (canonicalize_pushed headers n written.0).0)
              same
              (canonicalize_pushed-Serves first rest n written.0
                (batch-Linked params first rest db n e)
                (insert_headers_batch-Stored params headers db n e) (subst Answered (sym same) a)))
    ]
