-- ===== src/Lease/Queries.antt =====
-- The holder's view of the store as the store sees it (`impl HeaderDb for Fenced` of src/sync.rs):
-- which statements go behind the fence and which pass through. The number of rows that a statement
-- changed is left out of the answers.
use chaintracks_cloudflare.Prelude.{
  ℕ, Option, none, some, Text, codes, starts_with, Bool, true, List, [], ◌∷◌, any, if◌then◌else◌,
  Result, ok, err,
}
use chaintracks_cloudflare.Outcomes.{StoreFault}
use chaintracks_cloudflare.Lease.{LeaseRow, Fenced, fenced}

-- A statement: its text, what it does to the store, and the fault it records, if it is
-- `record_fault`'s.
pub record Query (T : Type 0) : Type 0 where
  pub sql : Text
  pub run : T → T
  pub fault : Option StoreFault

-- What a call meets: the clocks, the lease row, and whether D1 fails.
pub record Moment : Type 0 where
  pub now : ℕ
  pub now_ms : ℕ
  pub row : LeaseRow
  pub fails : Bool

abbrev header_writes : List Text
header_writes =
    codes "INSERT OR IGNORE INTO headers"
    ∷ codes "INSERT INTO headers"
    ∷ codes "UPDATE headers "
    ∷ codes "DELETE FROM headers"
    ∷ []

-- `Fenced::writes_headers`.
unfoldable pub writes_headers : Text → Bool
writes_headers sql = any (λ head. starts_with head sql) header_writes

abbrev pub run_all : {T : Type 0} → List (Query T) → T → T
run_all [] t = t
run_all (q ∷ qs) t = run_all qs (q.run t)

abbrev last_fault : {T : Type 0} → List (Query T) → Option StoreFault → Option StoreFault
last_fault [] e = e
last_fault (q ∷ qs) e = last_fault qs (elim q.fault [ none ↦ e | some f ↦ some f ])

-- The inner store's answer to statements that pass through, one transaction.
unfoldable pub pass :
    {T : Type 0} → Bool → List (Query T) → Fenced T → Fenced T × Result StoreFault (Unit {0})
pass fails qs w =
    if fails
    then (w, err StoreFault.database)
    else (record w { table = run_all qs w.table; last_error = last_fault qs w.last_error }, ok tt)

-- The owner is none where the writer runs unserialized.
unfoldable pub execute :
    {T : Type 0}
    → Option Text
    → Moment
    → Query T
    → Fenced T
    → Fenced T × Result StoreFault (Unit {0})
unfolding pass
execute none m q w = pass m.fails (q ∷ []) w
execute (some owner) m q w =
    if writes_headers q.sql
    then fenced owner m.now m.now_ms m.row m.fails q.run w
    else pass m.fails (q ∷ []) w

unfoldable pub batch_changes :
    {T : Type 0}
    → Option Text
    → Moment
    → List (Query T)
    → Fenced T
    → Fenced T × Result StoreFault (Unit {0})
unfolding pass
batch_changes none m qs w = pass m.fails qs w
batch_changes (some owner) m qs w =
    if any (λ q. writes_headers q.sql) qs
    then fenced owner m.now m.now_ms m.row m.fails (run_all qs) w
    else pass m.fails qs w

unfoldable pub note_lapse : {T : Type 0} → Option Text → Fenced T → Fenced T
note_lapse none w = w
note_lapse (some owner) w = record w { lapsed = true }
