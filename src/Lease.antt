-- ===== src/Lease.antt =====
-- The writer lease of src/sync.rs: the two columns of `sync_state`, the statements that take it,
-- give it back and fence a write, and the holder's view of the store (`Fenced`). The clock, the
-- owner's token and what the fenced batch does to the table are parameters.
pub mod Exclusion
pub mod Queries
pub mod Fence
use chaintracks_cloudflare.Prelude.{
  ℕ, zero, suc, ◌+◌, ◌*◌, Option, none, some, Text, text_eq, Bool, true, false, not, ◌&&◌, ◌||◌,
  ltb, leb, if◌then◌else◌, Result, ok, err,
}
use chaintracks_cloudflare.Outcomes.{StoreFault}

-- `LEASE_S`.
abbrev pub lease_s : ℕ
lease_s = 120

pub record LeaseRow : Type 0 where
  pub lease_owner : Option Text
  pub lease_until : Option ℕ

abbrev pub owned_by : Option Text → Text → Bool
owned_by none owner = false
owned_by (some o) owner = text_eq o owner

-- `lease_owner IS NULL OR lease_owner = ?1 OR lease_until < now`: a NULL term is not passed.
unfoldable pub free_for : Text → ℕ → LeaseRow → Bool
free_for owner now row =
    (elim row.lease_owner [ none ↦ true | some o ↦ text_eq o owner ])
    || (elim row.lease_until [ none ↦ false | some until ↦ ltb until now ])

-- `TAKE_LEASE_SQL`, with the number of rows it changed.
unfoldable pub take_sql : Text → ℕ → ℕ → LeaseRow → LeaseRow × ℕ
unfolding free_for
take_sql owner term now row =
    if free_for owner now row
    then (record { lease_owner = some owner; lease_until = some (now + term) }, 1)
    else (row, 0)

-- `RELEASE_LEASE_SQL`.
unfoldable pub release_sql : Text → LeaseRow → LeaseRow
release_sql owner row =
    if owned_by row.lease_owner owner
    then record { lease_owner = none; lease_until = none }
    else row

pub data Lease : Type 0 where
  held : Text → Lease
  busy unserialized : Lease

-- `take_lease`: `token` is the owner when random bytes could be had, and `readable` is false where
-- the statement fails (no migration 0015).
unfoldable pub take_lease : Option Text → Bool → ℕ → ℕ → LeaseRow → LeaseRow × Lease
take_lease none readable term now row = (row, unserialized)
take_lease (some owner) false term now row = (row, unserialized)
take_lease (some owner) true term now row =
    let (row', changed) = take_sql owner term now row in
    (row', (elim changed [ zero ↦ busy | suc n ↦ held owner ]))

unfoldable pub release_lease : Lease → LeaseRow → LeaseRow
unfolding release_sql
release_lease (held owner) row = release_sql owner row
release_lease busy row = row
release_lease unserialized row = row

-- `FENCE_SQL` leaves the transaction alone exactly when this holds.
unfoldable pub fence_holds : Text → ℕ → LeaseRow → Bool
fence_holds owner now row =
    owned_by row.lease_owner owner
    && leb now (elim row.lease_until [ none ↦ 0 | some until ↦ until ])

-- `lease_left_of` is positive: `LEASE_LEFT_SQL`, in milliseconds.
unfoldable pub has_left : Text → ℕ → LeaseRow → Bool
has_left owner now_ms row =
    owned_by row.lease_owner owner
    && (elim row.lease_until [ none ↦ false | some until ↦ ltb now_ms ((until + 1) * 1000) ])

-- A holder's view: the table, whether its lease lapsed, and the last fault recorded.
pub record Fenced (T : Type 0) : Type 0 where
  pub table : T
  pub lapsed : Bool
  pub last_error : Option StoreFault

-- `Fenced::fenced`: one transaction behind the guard. `fails`: D1 refuses the batch for a reason
-- of its own.
unfoldable pub fenced :
    {T : Type 0}
    → Text
    → ℕ
    → ℕ
    → LeaseRow
    → Bool
    → (T → T)
    → Fenced T
    → Fenced T × Result StoreFault (Unit {0})
fenced owner now now_ms row fails write w =
    if w.lapsed
    then (w, err (StoreFault.lapsed owner))
    else (if fence_holds owner now row && not fails
        then (record w { table = write w.table }, ok tt)
        else (if has_left owner now_ms row then (w, err StoreFault.database) else (
          record w { lapsed = true; last_error = some (StoreFault.lapsed owner) },
          err (StoreFault.lapsed owner),
        )))

pub data Pass : Type 0 where
  completed skipped : Pass

-- `Fenced::close`: what a pass answers, and whether it is stamped.
unfoldable pub close :
    {T : Type 0}
    → Text
    → Result StoreFault Pass
    → Fenced T
    → Fenced T × Result StoreFault (Unit {0}) × Bool
close owner (err e) w = (w, err e, false)
close owner (ok pass) w =
    if w.lapsed
    then (
      record w { last_error = some (StoreFault.lapsed owner) },
      err (StoreFault.lapsed owner),
      false,
    )
    else (w, ok tt, (elim pass [ completed ↦ true | skipped ↦ false ]))
