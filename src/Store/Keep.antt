-- ===== src/Store/Keep.antt =====
-- No statement of an insert drops a row or rewrites one but in its two flags.
use mathlib.Core.List.{map}
use chaintracks_cloudflare.Prelude.{
  ℕ, zero, suc, Option, none, some, Text, text_eq, zero_hash, if◌then◌else◌, Bool, true, false,
  List, [], ◌∷◌, ◌++◌, ◌≡◌, refl, sym, ap, ◌∙◌, subst, ◌⊎◌, inl, inr, Option-cases, Bool-cases,
  Result, ok, err, Result-cases,
}
use chaintracks_cloudflare.Bsv.{Bsv}
use chaintracks_cloudflare.Types.{
  BlockHeader, InsertHeaderResult, stored_work, calculate_work, add_work,
}
use chaintracks_cloudflare.Consensus.{check_pow}
use chaintracks_cloudflare.Consensus.Params.{ChainParams}
use chaintracks_cloudflare.Outcomes.{StoreFault}
use chaintracks_cloudflare.Store.Table.{
  Db, find_chain_tip, find_header_for_hash, insert_row, update_chain_tip,
}
use chaintracks_cloudflare.Store.Sorted.{any-found}
use chaintracks_cloudflare.Store.Rules.{judge}
use chaintracks_cloudflare.Store.Reorg.{apply_reorg, handle_reorg}
use chaintracks_cloudflare.Store.Rows.{
  map-map, tipped, reorged, update_chain_tip-rows, apply_reorg-rows,
}
use chaintracks_cloudflare.Store.Tip.{handle_reorg-cases}
use chaintracks_cloudflare.Store.Tip.Takeover.{
  insert_header-refused, insert_header-stored, insert_header-fresh, insert_new-refused,
  insert_new-judged,
}
use chaintracks_cloudflare.Store.Insert.{
  previous_of, work_over, outworks, extends, new_row, settle_tip, with_answer, take_tip,
  write_header, insert_new, insert_header,
}

-- What of a row no move of the tip touches.
abbrev pub unflagged : BlockHeader → BlockHeader
unflagged r = record r { is_active = false; is_chain_tip = false }

abbrev pub contents : Db → List BlockHeader
contents db = map unflagged db.headers

pub update_chain_tip-contents :
    (hash : Text) (db : Db) → contents (update_chain_tip hash db) ≡ contents db
unfolding tipped
update_chain_tip-contents hash db =
    ap (map unflagged) (update_chain_tip-rows hash db) ∙ map-map _ _ _ (λ r. refl) db.headers

pub apply_reorg-contents :
    (ancestor : ℕ) (branch : List Text) (tip : Text) (db : Db)
    → contents (apply_reorg ancestor branch tip db) ≡ contents db
unfolding reorged
apply_reorg-contents ancestor branch tip db =
    ap (map unflagged) (apply_reorg-rows ancestor branch tip db)
    ∙ map-map _ _ _ (λ r. refl) db.headers

settle_tip-contents :
    (header : BlockHeader) (db : Db) (out : Db × Result StoreFault ℕ)
    → contents out.0 ≡ contents db
    → contents (settle_tip header out).0 ≡ contents db
unfolding settle_tip
settle_tip-contents header db (db', err e) h = h
settle_tip-contents header db (db', ok zero) h = update_chain_tip-contents header.hash db' ∙ h
settle_tip-contents header db (db', ok (suc n)) h = h

handle_reorg-contents :
    (header tip : BlockHeader) (db : Db) → contents (handle_reorg header tip db).0 ≡ contents db
handle_reorg-contents header tip db = elim (handle_reorg-cases header tip db) [
  | inl (e, q) ↦ ap (λ r. contents r.0) q
  | inr (a, hs, n, q) ↦ ap (λ r. contents r.0) q ∙ apply_reorg-contents a hs header.hash db
]

pub take_tip-contents :
    (header : BlockHeader) (tip : Option BlockHeader) (db : Db)
    → contents (take_tip header tip db).0 ≡ contents db
unfolding take_tip
take_tip-contents header none db = update_chain_tip-contents header.hash db
take_tip-contents header (some tip) db = elim (Bool-cases (text_eq header.previous_hash tip.hash)) [
  | inl x ↦ rw (x) (update_chain_tip-contents header.hash db)
  | inr x ↦ rw (x) (
      settle_tip-contents header db (handle_reorg header tip db)
        (handle_reorg-contents header tip db))
]

pub with_answer-store :
    (f : ℕ → InsertHeaderResult) (out : Db × Result StoreFault ℕ) → (with_answer f out).0 ≡ out.0
unfolding with_answer
with_answer-store f (db, ok d) = refl
with_answer-store f (db, err e) = refl

write_header-contents :
    (header : BlockHeader) (previous tip : Option BlockHeader) (work : Text) (becomes : Bool)
    (db : Db)
    → (active : Bool) × (contents (write_header header previous tip work becomes db).0
        ≡ contents (insert_row (new_row header previous work active) db))
unfolding write_header
write_header-contents header previous tip work false db = (false, refl)
write_header-contents header previous tip work true db =
    (extends header tip, ap contents (with_answer-store _ _) ∙ take_tip-contents header tip _)

map-snoc :
    (f : BlockHeader → BlockHeader) (rows : List BlockHeader) (r : BlockHeader)
    → map f (rows ++ r ∷ []) ≡ map f rows ++ f r ∷ []
map-snoc f [] r = refl
map-snoc f (x ∷ rows) r = ap (λ t. f x ∷ t) (map-snoc f rows r)

insert_row-contents :
    (r : BlockHeader) (db : Db)
    → find_header_for_hash db r.hash ≡ none
    → contents (insert_row r db)
      ≡ contents db ++ unflagged (record r { header_id = some db.next_id }) ∷ []
unfolding insert_row find_header_for_hash
insert_row-contents r db h =
    rw (any-found (λ s. text_eq s.hash r.hash) db.headers h)
      (map-snoc unflagged db.headers (record r { header_id = some db.next_id }))

-- The row that is added, but for its flags: its own work, on top of the parent's where there is one.
abbrev pub added_row : ⦃b : Bsv⦄ → Option BlockHeader → BlockHeader → ℕ → BlockHeader
added_row ⦃b⦄ parent header id =
    let own = b.work_to_hex (b.work_from_bits header.bits) in
    record header {
      header_id = some id;
      previous_header_id = elim parent [ none ↦ none | some p ↦ p.header_id ];
      chain_work = elim parent [
        | none ↦ own
        | some p ↦ b.work_to_hex (b.wrapping_add (stored_work p.chain_work) (stored_work own))
      ];
      is_active = false;
      is_chain_tip = false;
    }

new_row-added :
    ⦃b : Bsv⦄ (previous : Option BlockHeader) (header : BlockHeader) (id : ℕ)
    → unflagged
        (record (new_row header previous (work_over previous header) false) { header_id = some id })
      ≡ added_row previous header id
unfolding work_over add_work calculate_work
new_row-added none header id = refl
new_row-added (some p) header id = refl

module _ ⦃b : Bsv⦄ (params : ChainParams) (header : BlockHeader) (db : Db) where
  -- On the parent that the header names, where it is stored.
  abbrev pub appended : BlockHeader
  appended =
      added_row
        (if text_eq header.previous_hash zero_hash
          then none
          else find_header_for_hash db header.previous_hash)
        header db.next_id

  row-appended :
      unflagged
        (record (new_row header
          (previous_of db header)
          (work_over (previous_of db header) header)
          false) { header_id = some db.next_id })
      ≡ appended
  unfolding previous_of
  row-appended = new_row-added (previous_of db header) header db.next_id

  pub work-appended : work_over (previous_of db header) header ≡ appended.chain_work
  work-appended = ap (λ (r : BlockHeader). r.chain_work) row-appended

  abbrev pub Kept : Db → Type 0
  Kept db' =
      (contents db' ≡ contents db)
      ⊎ ((find_header_for_hash db header.hash ≡ none)
          × (contents db' ≡ contents db ++ appended ∷ []))

  insert_new-adds :
      find_header_for_hash db header.hash ≡ none
      → (anchored : Bool)
      → judge db params header (previous_of db header) (find_chain_tip db) ≡ ok anchored
      → contents (insert_new params header db).0 ≡ contents db ++ appended ∷ []
  insert_new-adds q anchored j =
      ap (λ r. contents r.0) (insert_new-judged params header db anchored j)
      ∙ (write_header-contents header (previous_of db header) (find_chain_tip db)
          (work_over (previous_of db header) header)
          (outworks anchored (work_over (previous_of db header) header) (find_chain_tip db)) db).1
      ∙ insert_row-contents _ db q
      ∙ ap (λ r. contents db ++ r ∷ []) row-appended

  -- A header that meets its target, is not stored and passes the judgment of the rules is stored,
  -- and nothing else of what is stored changes but the flags.
  pub insert_header-adds :
      check_pow header params ≡ ok tt
      → find_header_for_hash db header.hash ≡ none
      → (anchored : Bool)
      → judge db params header (previous_of db header) (find_chain_tip db) ≡ ok anchored
      → contents (insert_header params header db).0 ≡ contents db ++ appended ∷ []
  insert_header-adds p q anchored j =
      ap (λ r. contents r.0) (insert_header-fresh params header db p q)
      ∙ insert_new-adds q anchored j

  insert_new-Kept :
      find_header_for_hash db header.hash ≡ none → Kept (insert_new params header db).0
  insert_new-Kept q =
      elim (Result-cases (judge db params header (previous_of db header) (find_chain_tip db))) [
        | inr (e, j) ↦ inl (ap (λ r. contents r.0) (insert_new-refused params header db e j))
        | inl (anchored, j) ↦ inr (q, insert_new-adds q anchored j)
      ]

  -- An insert keeps every row and its order, and changes nothing of a row but its two flags; it
  -- adds at most one row, with a hash that was not stored, the next id, the id of the stored parent
  -- and its own work on top of the parent's.
  pub insert_header-Kept : Kept (insert_header params header db).0
  insert_header-Kept = elim (Result-cases (check_pow header params)) [
    | inr (f, p) ↦ inl (ap (λ r. contents r.0) (insert_header-refused params header db f p))
    | inl (_, p) ↦ elim (Option-cases (find_header_for_hash db header.hash)) [
      | inr (s, q) ↦ inl (ap (λ r. contents r.0) (insert_header-stored params header db s p q))
      | inl q ↦
          subst (λ (o : Db × Result StoreFault InsertHeaderResult). Kept o.0)
            (sym (insert_header-fresh params header db p q)) (insert_new-Kept q)
    ]
  ]
