-- ===== src/Store/Batch/Write/Stored.antt =====
-- A batch that is written leaves every header of its run stored.
use chaintracks_cloudflare.Prelude.{
  ℕ, Option, none, some, Text, text_eq, text_eq_refl, Bool, true, ◌&&◌, ◌==◌, List, [], ◌∷◌, any,
  find, add_u32, if◌then◌else◌, ◌≡◌, refl, sym, ap, ◌∙◌, subst, inl, inr, Bool-cases, Option-cases,
  Result, ok, err, Result-cases, All, arith,
}
use chaintracks_cloudflare.Bsv.{Bsv}
use chaintracks_cloudflare.Types.{BlockHeader, InsertHeaderResult}
use chaintracks_cloudflare.Consensus.{check_pow}
use chaintracks_cloudflare.Consensus.Params.{ChainParams}
use chaintracks_cloudflare.Outcomes.{StoreFault}
use chaintracks_cloudflare.Store.Table.{Db, find_chain_tip, find_header_for_hash, insert_row}
use chaintracks_cloudflare.Store.Sorted.{any-update_rows, any-snoc, any-map}
use chaintracks_cloudflare.Store.Rules.{judge}
use chaintracks_cloudflare.Store.Insert.{previous_of, insert_header}
use chaintracks_cloudflare.Store.Tip.Takeover.{
  insert_header-refused, insert_header-fresh, insert_new-refused,
}
use chaintracks_cloudflare.Store.Keep.{
  contents, unflagged, appended, insert_header-Kept, insert_header-adds,
}
use chaintracks_cloudflare.Store.Batch.{last_height, judge_batch}
use chaintracks_cloudflare.Store.Batch.Write.{
  insert_each, replaces, stored_inactive, work_before, activate_stored, run_work, bulk_row,
  write_one, write_run, write_batch, insert_headers_batch,
}

abbrev pub has_hash : Text → BlockHeader → Bool
has_hash hash r = text_eq r.hash hash

-- Some row, active or not, has the hash.
abbrev pub Stored : Text → List BlockHeader → Type 0
Stored hash rows = any (has_hash hash) rows ≡ true

insert_row-keeps :
    (hash : Text) (r : BlockHeader) (db : Db)
    → Stored hash db.headers
    → Stored hash (insert_row r db).headers
unfolding insert_row
insert_row-keeps hash r db a = elim (Bool-cases (any (λ s. text_eq s.hash r.hash) db.headers)) [
  | inl e ↦ rw (e) a
  | inr e ↦
      rw (e) (
        any-snoc (has_hash hash) db.headers (record r { header_id = some db.next_id })
        ∙ rw (a) refl)
]

insert_row-Stored : (r : BlockHeader) (db : Db) → Stored r.hash (insert_row r db).headers
unfolding insert_row
insert_row-Stored r db = elim (Bool-cases (any (λ s. text_eq s.hash r.hash) db.headers)) [
  | inl e ↦ rw (e) e
  | inr e ↦ rw (e) (
      any-snoc (has_hash r.hash) db.headers (record r { header_id = some db.next_id })
      ∙ rw (text_eq_refl r.hash, e) refl)
]

activate_stored-keeps :
    (hash : Text) (work of : Text) (height : ℕ) (rows : List BlockHeader)
    → Stored hash rows
    → Stored hash (activate_stored work of height rows)
unfolding activate_stored
activate_stored-keeps hash work of height rows a =
    elim (Bool-cases (any (λ o. (o.height == height) && o.is_active) rows)) [
      | inl e ↦ rw (e) a
      | inr e ↦ rw (e) (
          any-update_rows (has_hash hash) _ (λ r. record r { is_active = true; chain_work = work })
            (λ r. refl) rows
          ∙ a)
    ]

write_one-keeps :
    (inactive : Text → Bool) (h : BlockHeader) (work hash : Text) (db : Db)
    → Stored hash db.headers
    → Stored hash (write_one inactive h work db).headers
unfolding write_one
write_one-keeps inactive h work hash db a = elim (Bool-cases (inactive h.hash)) [
  | inl e ↦ rw (e) (
      insert_row-keeps hash (bulk_row h work)
        (record db { headers = activate_stored work h.hash h.height db.headers })
        (activate_stored-keeps hash work h.hash h.height db.headers a))
  | inr e ↦ rw (e) (insert_row-keeps hash (bulk_row h work) db a)
]

write_one-Stored :
    (inactive : Text → Bool) (h : BlockHeader) (work : Text) (db : Db)
    → Stored h.hash (write_one inactive h work db).headers
unfolding write_one
write_one-Stored inactive h work db = insert_row-Stored (bulk_row h work) _

abbrev pub AllStored : List BlockHeader → Db → Type 0
AllStored hs db = All (λ h. Stored h.hash db.headers) hs

abbrev of_result : Db × Result StoreFault ℕ → Result StoreFault ℕ
of_result r = r.1

module _ ⦃b : Bsv⦄ where
  write_run-keeps :
      (inactive : Text → Bool) (hs : List BlockHeader) (running : Text) (previous : Option Text)
      (hash : Text) (db : Db)
      → Stored hash db.headers
      → Stored hash (write_run inactive hs running previous db).headers
  unfolding write_run
  write_run-keeps inactive [] running previous hash db a = a
  write_run-keeps inactive (h ∷ hs) running previous hash db a =
      let work = run_work running previous h in
      write_run-keeps inactive hs work (some h.hash) hash (write_one inactive h work db)
        (write_one-keeps inactive h work hash db a)

  write_run-Stored :
      (inactive : Text → Bool) (hs : List BlockHeader) (running : Text) (previous : Option Text)
      (db : Db)
      → AllStored hs (write_run inactive hs running previous db)
  unfolding write_run
  write_run-Stored inactive [] running previous db = tt
  write_run-Stored inactive (h ∷ hs) running previous db =
      let work = run_work running previous h in
      let next = write_one inactive h work db in
      (
        write_run-keeps inactive hs work (some h.hash) h.hash next
            (write_one-Stored inactive h work db),
        write_run-Stored inactive hs work (some h.hash) next,
      )

  -- What the contents hold, the rows hold.
  of_contents :
      (hash : Text) (db : Db) → any (has_hash hash) (contents db) ≡ any (has_hash hash) db.headers
  of_contents hash db = any-map (has_hash hash) unflagged db.headers (λ r. refl)

  insert_header-keeps :
      (params : ChainParams) (h : BlockHeader) (hash : Text) (db : Db)
      → Stored hash db.headers
      → Stored hash (insert_header params h db).0.headers
  insert_header-keeps params h hash db a =
      let a' : any (has_hash hash) (contents db) ≡ true = of_contents hash db ∙ a in
      sym (of_contents hash (insert_header params h db).0) ∙ elim (insert_header-Kept params h db) [
        | inl e ↦ ap (any (has_hash hash)) e ∙ a'
        | inr (n, e) ↦
            ap (any (has_hash hash)) e
            ∙ any-snoc (has_hash hash) (contents db) (appended params h db)
            ∙ rw (a') refl
      ]

  insert_header-Stored :
      (params : ChainParams) (h : BlockHeader) (db : Db) (a : InsertHeaderResult)
      → (insert_header params h db).1 ≡ ok a
      → Stored h.hash (insert_header params h db).0.headers
  unfolding find_header_for_hash
  insert_header-Stored params h db a o = elim (Result-cases (check_pow h params)) [
    | inr (f, p) ↦
        let k =
          sym (
            ap (λ (r : Db × Result StoreFault InsertHeaderResult). r.1)
              (insert_header-refused params h db f p))
          ∙ o in
        cc
    | inl (_, p) ↦ elim (Option-cases (find_header_for_hash db h.hash)) [
      | inr (s, q) ↦ insert_header-keeps params h h.hash db (found db.headers s q)
      | inl q ↦ elim (Result-cases (judge db params h (previous_of db h) (find_chain_tip db))) [
        | inr (e, j) ↦
            let k =
              sym (
                ap (λ (r : Db × Result StoreFault InsertHeaderResult). r.1)
                  (insert_header-fresh params h db p q ∙ insert_new-refused params h db e j))
              ∙ o in
            cc
        | inl (anchored, j) ↦
            sym (of_contents h.hash (insert_header params h db).0)
            ∙ ap (any (has_hash h.hash)) (insert_header-adds params h db p q anchored j)
            ∙ any-snoc (has_hash h.hash) (contents db) (appended params h db)
            ∙ rw (text_eq_refl h.hash) (ground arith)
      ]
    ]
  ]
    where
      found :
          (rows : List BlockHeader) (s : BlockHeader)
          → find (λ r. text_eq r.hash h.hash) rows ≡ some s
          → Stored h.hash rows
      found [] s e = cc
      found (r ∷ rows) s e = elim (Bool-cases (text_eq r.hash h.hash)) [
        | inl x ↦ rw (x) refl
        | inr x ↦ rw (x) (found rows s (rw (x) at e))
      ]

  insert_each-keeps :
      (params : ChainParams) (hs : List BlockHeader) (added : ℕ) (hash : Text) (db : Db)
      → Stored hash db.headers
      → Stored hash (insert_each params hs added db).0.headers
  unfolding insert_each
  insert_each-keeps params [] added hash db a = a
  insert_each-keeps params (h ∷ hs) added hash db a =
      let next = insert_header-keeps params h hash db a in
      elim (Result-cases (insert_header params h db).1) [
        | inl (r, e) ↦
            rw (insert_each, e)
              (insert_each-keeps params hs _ hash (insert_header params h db).0 next)
        | inr (f, e) ↦ rw (insert_each, e) next
      ]

  insert_each-Stored :
      (params : ChainParams) (hs : List BlockHeader) (added : ℕ) (db : Db) (n : ℕ)
      → (insert_each params hs added db).1 ≡ ok n
      → AllStored hs (insert_each params hs added db).0
  unfolding insert_each
  insert_each-Stored params [] added db n o = tt
  insert_each-Stored params (h ∷ hs) added db n o =
      elim (Result-cases (insert_header params h db).1) [
        | inr (f, e) ↦ let k : err f ≡ ok n = rw (insert_each, e) at o in cc
        | inl (r, e) ↦
            let db' = (insert_header params h db).0 in
            let count = if r.added then add_u32 added 1 else added in
            let q : insert_each params (h ∷ hs) added db ≡ insert_each params hs count db' =
              rw (insert_each, e) refl in
            let next : AllStored (h ∷ hs) (insert_each params hs count db').0 = (
              insert_each-keeps params hs count h.hash db' (insert_header-Stored params h db r e),
              insert_each-Stored params hs count db' n (sym (ap of_result q) ∙ o),
            ) in
            subst (λ (x : Db × Result StoreFault ℕ). AllStored (h ∷ hs) x.0) (sym q) next
      ]

  -- Every header of a batch that is taken is stored after it.
  pub insert_headers_batch-Stored :
      (params : ChainParams) (hs : List BlockHeader) (db : Db) (n : ℕ)
      → (insert_headers_batch params hs db).1 ≡ ok n
      → AllStored hs (insert_headers_batch params hs db).0
  unfolding insert_headers_batch write_batch
  insert_headers_batch-Stored params [] db n o = tt
  insert_headers_batch-Stored params (first ∷ rest) db n o =
      let hs = first ∷ rest in
      elim (Result-cases (judge_batch db params first rest)) [
        | inr (f, e) ↦ let k : err f ≡ ok n = rw (insert_headers_batch, e) at o in cc
        | inl (u, e) ↦ elim (Bool-cases (replaces db first rest)) [
          | inl x ↦
              let q : insert_headers_batch params hs db ≡ insert_each params hs 0 db =
                rw (insert_headers_batch, e, write_batch, x) refl in
              subst (λ (y : Db × Result StoreFault ℕ). AllStored hs y.0) (sym q)
                (insert_each-Stored params hs 0 db n (sym (ap of_result q) ∙ o))
          | inr x ↦
              let db' =
                write_run (stored_inactive db first.height (last_height first rest)) hs
                  (work_before (find_header_for_hash db first.previous_hash)) none db in
              let q : (insert_headers_batch params hs db).0 ≡ db' =
                rw (insert_headers_batch, e, write_batch, x) refl in
              subst (AllStored hs) (sym q) (
                write_run-Stored (stored_inactive db first.height (last_height first rest)) hs
                  (work_before (find_header_for_hash db first.previous_hash)) none db)
        ]
      ]
