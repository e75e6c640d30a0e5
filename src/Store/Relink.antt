-- ===== src/Store/Relink.antt =====
-- What `relink_orphan_and_reevaluate` does to the rows.
use chaintracks_cloudflare.Prelude.{
  ℕ, Option, some, Text, true, ◌≡◌, refl, sym, subst, ◌⊎◌, inl, inr, Option-cases, Bool-cases,
  ◌>>=◌, Result-cases,
}
use chaintracks_cloudflare.Bsv.{Bsv}
use chaintracks_cloudflare.Types.{BlockHeader, add_work, calculate_work}
use chaintracks_cloudflare.Consensus.Params.{ChainParams}
use chaintracks_cloudflare.Store.Table.{Db, find_chain_tip, find_header_for_hash, relink_header}
use chaintracks_cloudflare.Store.Rules.{check_prev, check_linked}
use chaintracks_cloudflare.Store.Keep.{with_answer-store}
use chaintracks_cloudflare.Store.Insert.{
  outworks, take_tip, relink_stored, relink_orphan_and_reevaluate,
}

-- The store with one row linked to its parent.
abbrev pub linked : Option ℕ → Text → Option ℕ → Db → Db
linked parent work id db = record db { headers = relink_header parent work id db.headers }

abbrev pub Relinked : Db → Db → Type 0
Relinked db db' =
    (db' ≡ db)
    ⊎ ((parent : Option ℕ) × (work : Text) × (id : Option ℕ) × ((db' ≡ linked parent work id db)
          ⊎ ((h : BlockHeader) × (tip : Option BlockHeader) × (db'
                ≡ (take_tip h tip (linked parent work id db)).0))))

relink_stored-Relinked :
    ⦃b : Bsv⦄ (params : ChainParams) (row parent : BlockHeader) (db : Db)
    → Relinked db (relink_stored params row parent db).0
unfolding relink_stored
relink_stored-Relinked params row parent db =
    elim (Result-cases (check_prev row (some parent) >>= λ _. check_linked db params row parent)) [
      | inr (e, q) ↦ inl (rw (relink_stored, q) refl)
      | inl (_, q) ↦
          let work = add_work parent.chain_work (calculate_work row.bits) in
          let to = linked parent.header_id work row.header_id db in
          let updated = record row { chain_work = work; previous_header_id = parent.header_id } in
          elim (Bool-cases (outworks true work (find_chain_tip to))) [
            | inr t ↦
                inr (parent.header_id, work, row.header_id, inl (rw (relink_stored, q, t) refl))
            | inl t ↦ inr (
              parent.header_id,
              work,
              row.header_id,
              inr (updated, find_chain_tip to, rw (relink_stored, q, t) (with_answer-store _ _)),
            )
          ]
    ]

pub relink-Relinked :
    ⦃b : Bsv⦄ (params : ChainParams) (hash : Text) (db : Db)
    → Relinked db (relink_orphan_and_reevaluate params hash db).0
unfolding relink_orphan_and_reevaluate
relink-Relinked params hash db = elim (Option-cases (find_header_for_hash db hash)) [
  | inl q ↦ inl (rw (relink_orphan_and_reevaluate, q) refl)
  | inr (row, q) ↦ elim (Option-cases (find_header_for_hash db row.previous_hash)) [
    | inl p ↦ inl (rw (relink_orphan_and_reevaluate, q, p) refl)
    | inr (parent, p) ↦
        let eq : (relink_orphan_and_reevaluate params hash db).0
            ≡ (relink_stored params row parent db).0 =
          rw (relink_orphan_and_reevaluate, q, p) refl in
        subst (Relinked db) (sym eq) (relink_stored-Relinked params row parent db)
  ]
]
