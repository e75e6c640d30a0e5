-- ===== src/Store/Ingest.antt =====
-- `ingest_pushed` of src/storage.rs: the operator's and the door's push of a run of headers.
pub mod Canon
pub mod Soles
pub mod Shown
pub mod Served
pub mod Sound
use mathlib.Core.List.{map}
use chaintracks_cloudflare.Prelude.{
  ℕ, zero, suc, ◌+◌, min, Option, none, some, Text, text_eq, eq_ignore_ascii_case, Bool, true,
  false, not, ◌&&◌, List, [], ◌∷◌, length, any, all, filter, find, ltb, leb, ◌==◌, if◌then◌else◌,
  Result, ok, err,
}
use chaintracks_cloudflare.Bsv.{Bsv}
use chaintracks_cloudflare.Types.{BlockHeader}
use chaintracks_cloudflare.Consensus.Params.{ChainParams}
use chaintracks_cloudflare.Outcomes.{
  IngestError, refused, Outcome, active, activated, stored_inactive,
}
use chaintracks_cloudflare.Store.Table.{
  Db, find_header_for_hash, active_between, update_rows, record_pending_reorg,
  update_chain_tip_to_highest,
}
use chaintracks_cloudflare.Store.Batch.Write.{insert_headers_batch}

abbrev pub max_activation : ℕ
max_activation = 400

-- Why a push is stored inactive.
pub data Reason : Type 0 where
  -- The active row at the height does not name the pushed header as its parent.
  not_named : ℕ → Text → Reason
  -- The parent of the pushed header at the height is not the active row below it.
  parent_inactive : Text → ℕ → Reason
  too_many : Reason

pub record IngestOutcome : Type 0 where
  pub inserted : ℕ
  pub canonicalized : ℕ
  pub outcome : Outcome
  pub deactivated : List Text
  pub child_relinked : Option Text
  pub reason : Option Reason

abbrev pub id_of : Text → List BlockHeader → Option ℕ
id_of hash rows = elim (find (λ r. text_eq r.hash hash) rows) [ none ↦ none | some r ↦ r.header_id ]

abbrev pub with_parent : Option ℕ → BlockHeader → BlockHeader
with_parent id r = record r { previous_header_id = id }

-- `SQL_LINK_CHILD`.
unfoldable pub link_child : Text → Text → List BlockHeader → List BlockHeader
unfolding update_rows
link_child parent child rows =
    update_rows (λ r. text_eq r.hash child) (with_parent (id_of parent rows)) rows

abbrev pub has_parent : BlockHeader → Bool
has_parent r = elim r.previous_header_id [ none ↦ false | some i ↦ true ]

-- `SQL_LINK_SPAN`.
unfoldable pub link_span : ℕ → ℕ → List BlockHeader → List BlockHeader
unfolding update_rows
link_span lo hi rows =
    update_rows (λ r. r.is_active && (not (has_parent r) && (leb lo r.height && leb r.height hi)))
      (λ r. with_parent (id_of r.previous_hash rows) r) rows

-- `SQL_CANONICALIZE_HEIGHT`.
unfoldable pub canonicalize_height : Text → ℕ → List BlockHeader → List BlockHeader
unfolding update_rows
canonicalize_height hash height =
    update_rows (λ r. r.height == height) (λ r. record r { is_active = text_eq r.hash hash })

unfoldable pub canonicalize_all : List BlockHeader → List BlockHeader → List BlockHeader
unfolding canonicalize_height
canonicalize_all [] rows = rows
canonicalize_all (h ∷ hs) rows = canonicalize_all hs (canonicalize_height h.hash h.height rows)

abbrev pub last_of : BlockHeader → List BlockHeader → BlockHeader
last_of a [] = a
last_of a (h ∷ hs) = last_of h hs

-- The active row at the pushed height, and no other, is the pushed header.
abbrev pub sole_active : List BlockHeader → BlockHeader → Bool
sole_active rows h =
    all (λ r. eq_ignore_ascii_case r.hash h.hash) (filter (λ r. r.height == h.height) rows)
    && any (λ r. eq_ignore_ascii_case r.hash h.hash) rows

-- The active rows at the pushed heights that are not pushed.
abbrev pub rivals : List BlockHeader → ℕ → List BlockHeader → List BlockHeader
rivals rows last_height headers =
    filter
      (λ r. leb r.height last_height && not (any (λ h. eq_ignore_ascii_case h.hash r.hash) headers))
      rows

abbrev pub lowest : List BlockHeader → Option ℕ
lowest [] = none
lowest (r ∷ rs) = elim (lowest rs) [ none ↦ some r.height | some h ↦ some (min r.height h) ]

-- The parent is stored and is not active.
abbrev pub parent_is_inactive : Db → BlockHeader → Bool
parent_is_inactive db first =
    ltb 0 first.height && (elim (find_header_for_hash db first.previous_hash) [
      | none ↦ false
      | some p ↦ not p.is_active
    ])

-- The activation: one transaction.
unfoldable pub activate : List BlockHeader → Text → Text → Option ℕ → Db → Db
unfolding canonicalize_all link_child record_pending_reorg
activate headers last child low db = record db {
  headers = link_child last child (canonicalize_all headers db.headers);
  sync = elim low [ none ↦ db.sync | some h ↦ record_pending_reorg h db.sync ];
}

abbrev stays : ℕ → ℕ → Reason → IngestOutcome
stays inserted sole why = record {
  inserted = inserted;
  canonicalized = sole;
  outcome = stored_inactive;
  deactivated = [];
  child_relinked = none;
  reason = some why;
}

-- The push is not served: a stored child activates it, or it stays as it is.
unfoldable pub compete :
    BlockHeader → List BlockHeader → ℕ → ℕ → List BlockHeader → Db → Db × IngestOutcome
unfolding activate
compete first rest inserted sole rows db =
    let headers = first ∷ rest in
    let last = last_of first rest in
    elim (find
      (λ r. (r.height == last.height + 1) && eq_ignore_ascii_case r.previous_hash last.hash) rows) [
        | none ↦ (db, stays inserted sole (not_named (last.height + 1) last.hash))
        | some child ↦
            if parent_is_inactive db first
            then (db, stays inserted sole (parent_inactive first.previous_hash first.height))
            else (if ltb max_activation (length headers)
                then (db, stays inserted sole too_many)
                else (let beaten = rivals rows last.height headers in
                    (
                      activate headers last.hash child.hash (lowest beaten) db,
                      record {
                        inserted = inserted;
                        canonicalized = length headers;
                        outcome = activated;
                        deactivated = map (λ r. r.hash) beaten;
                        child_relinked = some child.hash;
                        reason = none;
                      },
                    )))
      ]

unfoldable pub canonicalize_pushed : List BlockHeader → ℕ → Db → Db × IngestOutcome
unfolding compete link_span
canonicalize_pushed [] inserted db = (
  db,
  record {
    inserted = inserted;
    canonicalized = 0;
    outcome = active;
    deactivated = [];
    child_relinked = none;
    reason = none;
  },
)
canonicalize_pushed (first ∷ rest) inserted db =
    let headers = first ∷ rest in
    let last = last_of first rest in
    let rows = active_between db first.height (last.height + 1) in
    let sole = length (filter (sole_active rows) headers) in
    if sole == length headers
    then (
      (update_chain_tip_to_highest
          (record db { headers = link_span first.height (last.height + 1) db.headers })).0,
      record {
        inserted = inserted;
        canonicalized = sole;
        outcome = active;
        deactivated = [];
        child_relinked = none;
        reason = none;
      },
    )
    else compete first rest inserted sole rows db

unfoldable pub ingest_pushed :
    ⦃b : Bsv⦄ → ChainParams → List BlockHeader → Db → Db × Result IngestError IngestOutcome
unfolding canonicalize_pushed
ingest_pushed params headers db =
    let written = insert_headers_batch params headers db in
    elim written.1 [
      | err e ↦ (written.0, err (IngestError.refused e))
      | ok inserted ↦ let out = canonicalize_pushed headers inserted written.0 in (out.0, ok out.1)
    ]
