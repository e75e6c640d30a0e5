-- ===== src/Store/Ingest/Sound.antt =====
-- A push and a sweep keep the store's hashes distinct and its tip one.
use mathlib.Core.List.{map}
use chaintracks_cloudflare.Prelude.{
  take, ℕ, ◌+◌, Option, Text, text_eq, Bool, true, false, not, ◌&&◌, List, [], ◌∷◌, leb, length,
  ◌==◌, ◌≡◌, refl, sym, subst, inl, inr, Bool-cases, Result, Result-cases, All,
}
use chaintracks_cloudflare.Bsv.{Bsv}
use chaintracks_cloudflare.Types.{BlockHeader}
use chaintracks_cloudflare.Consensus.Params.{ChainParams}
use chaintracks_cloudflare.Outcomes.{IngestError}
use chaintracks_cloudflare.Store.Table.{
  Db, update_rows, active_between, update_chain_tip_to_highest,
}
use chaintracks_cloudflare.Store.OneTip.{OneTip}
use chaintracks_cloudflare.Store.Highest.{OneTip-highest, hashes-highest}
use chaintracks_cloudflare.Store.Distinct.{Distinct, hashes, hash-update_rows, All-update_rows}
use chaintracks_cloudflare.Store.Batch.Write.{insert_headers_batch}
use chaintracks_cloudflare.Store.Batch.Write.Kept.{insert_headers_batch-Sound}
use chaintracks_cloudflare.Store.Dedupe.{
  is_extra, kept_id, dedupe_height, sweep, dual_active_heights, dedupe_active_heights,
}
use chaintracks_cloudflare.Store.Ingest.{
  IngestOutcome, id_of, with_parent, has_parent, last_of, link_child, link_span,
  canonicalize_height, canonicalize_all, activate, compete, canonicalize_pushed, ingest_pushed,
}
use chaintracks_cloudflare.Store.Ingest.Served.{
  compete-cases, sole_count, served_already, not_served, ingest_pushed-written,
}

abbrev pub Sound : Db → Type 0
Sound db = OneTip db × Distinct (hashes db)

-- The same, of the rows.
abbrev SoundRows : List BlockHeader → Type 0
SoundRows rows =
    ((h : Text) × All (λ r. r.is_chain_tip ≡ true → r.hash ≡ h) rows)
    × Distinct (map (λ r. r.hash) rows)

canonicalize_all-Sound :
    (hs rows : List BlockHeader) → SoundRows rows → SoundRows (canonicalize_all hs rows)
unfolding canonicalize_all canonicalize_height
canonicalize_all-Sound [] rows x = x
canonicalize_all-Sound (h ∷ hs) rows ((t, o), d) =
    let here : BlockHeader → Bool = (λ r. r.height == h.height) in
    canonicalize_all-Sound hs (canonicalize_height h.hash h.height rows) (
      (
        t,
        All-update_rows (λ r. r.is_chain_tip ≡ true → r.hash ≡ t) here
            (λ r. record r { is_active = text_eq r.hash h.hash }) (λ r y. y) rows o,
      ),
      subst Distinct
          (sym (
            hash-update_rows here (λ r. record r { is_active = text_eq r.hash h.hash }) (λ r. refl)
              rows))
          d,
    )

-- A parent link set by any rule.
linked-Sound :
    (p : BlockHeader → Bool) (id : BlockHeader → Option ℕ) (rows : List BlockHeader)
    → SoundRows rows
    → SoundRows (update_rows p (λ r. with_parent (id r) r) rows)
linked-Sound p id rows ((t, o), d) = (
  (
    t,
    All-update_rows (λ r. r.is_chain_tip ≡ true → r.hash ≡ t) p (λ r. with_parent (id r) r)
        (λ r y. y) rows o,
  ),
  subst Distinct (sym (hash-update_rows p (λ r. with_parent (id r) r) (λ r. refl) rows)) d,
)

activate-Sound :
    (headers : List BlockHeader) (last child : Text) (low : Option ℕ) (db : Db)
    → Sound db
    → Sound (activate headers last child low db)
unfolding activate link_child
activate-Sound headers last child low db x =
    let rows = canonicalize_all headers db.headers in
    linked-Sound (λ r. text_eq r.hash child) (λ r. id_of last rows) rows
      (canonicalize_all-Sound headers db.headers x)

highest-Sound : (db : Db) → Sound db → Sound (update_chain_tip_to_highest db).0
highest-Sound db (o, d) = (OneTip-highest db o, subst Distinct (sym (hashes-highest db)) d)

link_span-Sound :
    (lo hi : ℕ) (db : Db) → Sound db → Sound (record db { headers = link_span lo hi db.headers })
unfolding link_span
link_span-Sound lo hi db x =
    linked-Sound (λ r. r.is_active && (not (has_parent r) && (leb lo r.height && leb r.height hi)))
      (λ r. id_of r.previous_hash db.headers) db.headers x

compete-Sound :
    (first : BlockHeader) (rest : List BlockHeader) (inserted sole : ℕ) (rows : List BlockHeader)
    (db : Db)
    → Sound db
    → Sound (compete first rest inserted sole rows db).0
compete-Sound first rest inserted sole rows db x =
    elim (compete-cases first rest inserted sole rows db) [
      | inl (e, o) ↦ subst Sound (sym e) x
      | inr (child, low, e, o) ↦
          subst Sound (sym e)
            (activate-Sound (first ∷ rest) (last_of first rest).hash child low db x)
    ]

canonicalize_pushed-Sound :
    (headers : List BlockHeader) (inserted : ℕ) (db : Db)
    → Sound db
    → Sound (canonicalize_pushed headers inserted db).0
unfolding canonicalize_pushed
canonicalize_pushed-Sound [] inserted db x = x
canonicalize_pushed-Sound (first ∷ rest) inserted db x =
    let hi = (last_of first rest).height + 1 in
    elim (Bool-cases (sole_count first rest db == length (first ∷ rest))) [
      | inl e ↦ subst Sound (sym (served_already first rest inserted db e).0) (
          highest-Sound (record db { headers = link_span first.height hi db.headers })
            (link_span-Sound first.height hi db x))
      | inr e ↦
          subst (λ (o : Db × IngestOutcome). Sound o.0) (sym (not_served first rest inserted db e))
            (compete-Sound first rest inserted (sole_count first rest db)
              (active_between db first.height hi) db x)
    ]

pub ingest_pushed-Sound :
    ⦃b : Bsv⦄ (params : ChainParams) (headers : List BlockHeader) (db : Db)
    → Sound db
    → Sound (ingest_pushed params headers db).0
unfolding ingest_pushed
ingest_pushed-Sound params headers db (o, d) =
    let written = insert_headers_batch params headers db in
    let x : Sound written.0 = insert_headers_batch-Sound params headers db o d in
    elim (Result-cases written.1) [
      | inr (f, e) ↦ rw (ingest_pushed, e) x
      | inl (n, e) ↦
          subst (λ (r : Db × Result IngestError IngestOutcome). Sound r.0)
            (sym (ingest_pushed-written params headers db n e))
            (canonicalize_pushed-Sound headers n written.0 x)
    ]

sweep-Sound : (hs : List ℕ) (rows : List BlockHeader) → SoundRows rows → SoundRows (sweep hs rows).0
unfolding sweep dedupe_height
sweep-Sound [] rows x = x
sweep-Sound (h ∷ hs) rows ((t, o), d) =
    let extra : BlockHeader → Bool = is_extra h (kept_id h rows) in
    sweep-Sound hs (dedupe_height h rows) (
      (
        t,
        All-update_rows (λ r. r.is_chain_tip ≡ true → r.hash ≡ t) extra
            (λ r. record r { is_active = false }) (λ r y. y) rows o,
      ),
      subst Distinct
          (sym (hash-update_rows extra (λ r. record r { is_active = false }) (λ r. refl) rows)) d,
    )

pub dedupe_active_heights-Sound : (db : Db) → Sound db → Sound (dedupe_active_heights db).0
unfolding dedupe_active_heights
dedupe_active_heights-Sound db x =
    sweep-Sound (take 1000 (dual_active_heights 1001 db.headers)) db.headers x
