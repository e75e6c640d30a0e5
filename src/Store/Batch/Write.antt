-- ===== src/Store/Batch/Write.antt =====
-- What `insert_headers_batch` writes once its run is judged.
pub mod Kept
pub mod Stored
use chaintracks_cloudflare.Prelude.{
  ℕ, zero, suc, ◌+◌, Option, none, some, Text, text_eq, eq_ignore_ascii_case, to_ascii_lowercase,
  zero_hash, Bool, true, false, not, ◌&&◌, ◌||◌, List, [], ◌∷◌, leb, ◌==◌, if◌then◌else◌, any,
  add_u32, Result, ok, err,
}
use chaintracks_cloudflare.Bsv.{Bsv}
use chaintracks_cloudflare.Types.{BlockHeader, InsertHeaderResult, calculate_work, add_work}
use chaintracks_cloudflare.Consensus.Params.{ChainParams}
use chaintracks_cloudflare.Outcomes.{StoreFault}
use chaintracks_cloudflare.Store.Table.{
  Db, find_chain_tip, find_header_for_hash, active_between, update_rows, insert_row,
}
use chaintracks_cloudflare.Store.Batch.{last_height, judge_batch}
use chaintracks_cloudflare.Store.Insert.{insert_header}

-- One insert after another; a fault ends them, and what was written before it stays.
unfoldable pub insert_each :
    ⦃b : Bsv⦄ → ChainParams → List BlockHeader → ℕ → Db → Db × Result StoreFault ℕ
insert_each params [] added db = (db, ok added)
insert_each params (h ∷ hs) added db =
    let (db', r) = insert_header params h db in
    elim r [
      | err e ↦ (db', err e)
      | ok a ↦ insert_each params hs (if a.added then add_u32 added 1 else added) db'
    ]

-- A run that replaces an active row, or stands on a row off the active chain, goes by the inserts.
abbrev off_chain : Option BlockHeader → Bool
off_chain none = false
off_chain (some p) = not p.is_active

abbrev at_or_below : Option BlockHeader → ℕ → Bool
at_or_below none height = false
at_or_below (some t) height = leb height t.height

abbrev competes : List BlockHeader → BlockHeader → Bool
competes headers r = any (λ h. (r.height == h.height) && not (text_eq r.hash h.hash)) headers

unfoldable pub replaces : Db → BlockHeader → List BlockHeader → Bool
replaces db first rest =
    let off = off_chain (find_header_for_hash db first.previous_hash) in
    (off || at_or_below (find_chain_tip db) first.height)
    && (off
        || any (competes (first ∷ rest)) (active_between db first.height (last_height first rest)))

-- `SQL_ACTIVATE_STORED`.
unfoldable pub activate_stored : Text → Text → ℕ → List BlockHeader → List BlockHeader
activate_stored work hash height rows =
    if any (λ o. (o.height == height) && o.is_active) rows
    then rows
    else update_rows (λ r. text_eq r.hash hash && not r.is_active)
        (λ r. record r { is_active = true; chain_work = work }) rows

-- The hashes of `SQL_INACTIVE_HASHES_BETWEEN`, compared in lower case.
abbrev pub stored_inactive : Db → ℕ → ℕ → Text → Bool
stored_inactive db lo hi hash =
    any
      (λ r.
        (not r.is_active && (leb lo r.height && leb r.height hi))
        && text_eq (to_ascii_lowercase r.hash) (to_ascii_lowercase hash))
      db.headers

-- The work of a header of the run: on the work before it while the run is linked.
unfoldable pub run_work : ⦃b : Bsv⦄ → Text → Option Text → BlockHeader → Text
run_work running none h = add_work running (calculate_work h.bits)
run_work running (some previous) h =
    if eq_ignore_ascii_case previous h.previous_hash
    then add_work running (calculate_work h.bits)
    else calculate_work h.bits

abbrev pub bulk_row : BlockHeader → Text → BlockHeader
bulk_row h work = record h {
  previous_header_id = none;
  chain_work = work;
  is_active = true;
  is_chain_tip = false;
}

-- The statements of one header.
unfoldable pub write_one : (Text → Bool) → BlockHeader → Text → Db → Db
write_one inactive h work db = insert_row (bulk_row h work) (record db {
  headers = if inactive h.hash then activate_stored work h.hash h.height db.headers else db.headers;
})

-- The statements in order; their batches of a hundred are consecutive.
unfoldable pub write_run :
    ⦃b : Bsv⦄ → (Text → Bool) → List BlockHeader → Text → Option Text → Db → Db
write_run inactive [] running previous db = db
write_run inactive (h ∷ hs) running previous db =
    let work = run_work running previous h in
    write_run inactive hs work (some h.hash) (write_one inactive h work db)

abbrev count : List BlockHeader → ℕ
count [] = 0
count (h ∷ hs) = suc (count hs)

abbrev pub work_before : Option BlockHeader → Text
work_before none = zero_hash
work_before (some p) = p.chain_work

unfoldable pub write_batch :
    ⦃b : Bsv⦄ → ChainParams → BlockHeader → List BlockHeader → Db → Db × Result StoreFault ℕ
write_batch params first rest db =
    let lo = first.height in
    let hi = last_height first rest in
    if replaces db first rest then insert_each params (first ∷ rest) 0 db else (
      write_run (stored_inactive db lo hi) (first ∷ rest)
          (work_before (find_header_for_hash db first.previous_hash)) none db,
      ok (count (first ∷ rest)),
    )

unfoldable pub insert_headers_batch :
    ⦃b : Bsv⦄ → ChainParams → List BlockHeader → Db → Db × Result StoreFault ℕ
insert_headers_batch params [] db = (db, ok 0)
insert_headers_batch params (first ∷ rest) db = elim (judge_batch db params first rest) [
  | err e ↦ (db, err e)
  | ok _ ↦ write_batch params first rest db
]
