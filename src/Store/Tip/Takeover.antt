-- ===== src/Store/Tip/Takeover.antt =====
-- When `insert_header` moves the tip, and that it changes no active row otherwise.
use chaintracks_cloudflare.Prelude.{
  none, some, Text, Bool, true, false, ◌≡◌, refl, sym, subst, ◌⊎◌, inl, inr, Option-cases, Result,
  ok, err, Result-cases,
}
use chaintracks_cloudflare.Bsv.{Bsv}
use chaintracks_cloudflare.Types.{BlockHeader, InsertHeaderResult, no_insert}
use chaintracks_cloudflare.Consensus.{HeaderFault, check_pow}
use chaintracks_cloudflare.Consensus.Params.{ChainParams}
use chaintracks_cloudflare.Outcomes.{StoreFault}
use chaintracks_cloudflare.Store.Table.{Db, find_chain_tip, find_header_for_hash}
use chaintracks_cloudflare.Store.Rules.{refused, judge}
use chaintracks_cloudflare.Store.Rows.{TipIs}
use chaintracks_cloudflare.Store.Tip.{Aside, Written, write_header-Written}
use chaintracks_cloudflare.Store.Insert.{
  previous_of, work_over, outworks, write_header, insert_new, insert_header,
}

-- An answer that says the header became the tip.
abbrev pub took_tip : Result StoreFault InsertHeaderResult → Bool
took_tip (ok r) = r.is_active_tip
took_tip (err e) = false

module _ ⦃b : Bsv⦄ (params : ChainParams) (header : BlockHeader) (db : Db) where
  abbrev pub Judged : Type 0
  Judged =
      (check_pow header params ≡ ok tt)
      × (find_header_for_hash db header.hash ≡ none)
      × ((anchored : Bool) × (judge db params header (previous_of db header) (find_chain_tip db)
            ≡ ok anchored)
          × (outworks anchored (work_over (previous_of db header) header) (find_chain_tip db)
              ≡ true))

  abbrev pub Landed : Db × Result StoreFault InsertHeaderResult → Type 0
  Landed out =
      ((took_tip out.1 ≡ false) × Aside header db out.0)
      ⊎ ((took_tip out.1 ≡ true) × Judged × TipIs header.hash out.0.headers)

  abbrev pub work : Text
  work = work_over (previous_of db header) header

  pub insert_header-refused :
      (f : HeaderFault)
      → check_pow header params ≡ err f
      → insert_header params header db ≡ (db, err (refused header f))
  unfolding insert_header
  insert_header-refused f p = rw (insert_header, p) refl

  pub insert_header-stored :
      (s : BlockHeader)
      → check_pow header params ≡ ok tt
      → find_header_for_hash db header.hash ≡ some s
      → insert_header params header db ≡ (db, ok (record no_insert { dupe = true }))
  unfolding insert_header
  insert_header-stored s p q = rw (insert_header, p, q) refl

  pub insert_header-fresh :
      check_pow header params ≡ ok tt
      → find_header_for_hash db header.hash ≡ none
      → insert_header params header db ≡ insert_new params header db
  unfolding insert_header
  insert_header-fresh p q = rw (insert_header, p, q) refl

  pub insert_new-refused :
      (e : StoreFault)
      → judge db params header (previous_of db header) (find_chain_tip db) ≡ err e
      → insert_new params header db ≡ (db, err e)
  unfolding insert_new
  insert_new-refused e j = rw (insert_new, j) refl

  pub insert_new-judged :
      (anchored : Bool)
      → judge db params header (previous_of db header) (find_chain_tip db) ≡ ok anchored
      → insert_new params header db
        ≡ write_header header
            (previous_of db header)
            (find_chain_tip db)
            work
            (outworks anchored work (find_chain_tip db))
            db
  unfolding insert_new
  insert_new-judged anchored j = rw (insert_new, j) refl

  of_Written :
      (pow : check_pow header params ≡ ok tt) (fresh : find_header_for_hash db header.hash ≡ none)
      (anchored : Bool)
      (judged : judge db params header (previous_of db header) (find_chain_tip db) ≡ ok anchored)
      (out : Db × Result StoreFault InsertHeaderResult)
      → Written header
          (find_chain_tip db)
          (outworks anchored (work_over (previous_of db header) header) (find_chain_tip db))
          db
          out
      → Landed out
  of_Written pow fresh anchored judged out (inl (db', r, q, t, a)) = rw (q) (inl (t, a))
  of_Written pow fresh anchored judged out (inr (inl (db', e, q, a))) = rw (q) (inl (refl, a))
  of_Written pow fresh anchored judged out (inr (inr (db', r, q, t, w, i))) =
      rw (q) (inr (t, (pow, fresh, (anchored, judged, w)), i))

  insert_new-Landed :
      check_pow header params ≡ ok tt
      → find_header_for_hash db header.hash ≡ none
      → Landed (insert_new params header db)
  insert_new-Landed p q =
      elim (Result-cases (judge db params header (previous_of db header) (find_chain_tip db))) [
        | inr (e, j) ↦ subst Landed (sym (insert_new-refused e j)) (inl (refl, inl refl))
        | inl (anchored, j) ↦ subst Landed (sym (insert_new-judged anchored j)) (
            of_Written p q anchored j _
              (write_header-Written header (previous_of db header) (find_chain_tip db) _ _ db))
      ]

  pub insert_header-Landed : Landed (insert_header params header db)
  insert_header-Landed = elim (Result-cases (check_pow header params)) [
    | inr (f, p) ↦ subst Landed (sym (insert_header-refused f p)) (inl (refl, inl refl))
    | inl (_, p) ↦ elim (Option-cases (find_header_for_hash db header.hash)) [
      | inr (s, q) ↦ subst Landed (sym (insert_header-stored s p q)) (inl (refl, inl refl))
      | inl q ↦ subst Landed (sym (insert_header-fresh p q)) (insert_new-Landed p q)
    ]
  ]

  -- Whatever `insert_header` answers but that the header became the tip, an error included, the
  -- store is as it was, or has one row more, which is neither active nor the tip.
  pub insert_header-Aside :
      took_tip (insert_header params header db).1 ≡ false
      → Aside header db (insert_header params header db).0
  insert_header-Aside h = elim insert_header-Landed [ inl (n, a) ↦ a | inr (y, j, i) ↦ cc ]

  -- Where `insert_header` answers that the header became the tip, the header met its target, was
  -- not stored, and passed the judgment of the rules; it is anchored and has more work than the tip
  -- there was, if there was one; and after it the tip flag stands on the rows of its hash and on no
  -- other, and they are active.
  pub insert_header-TipIs :
      took_tip (insert_header params header db).1 ≡ true
      → Judged × TipIs header.hash (insert_header params header db).0.headers
  insert_header-TipIs h = elim insert_header-Landed [ inl (n, a) ↦ cc | inr (y, j, i) ↦ (j, i) ]
