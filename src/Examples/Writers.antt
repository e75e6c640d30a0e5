-- ===== src/Examples/Writers.antt =====
-- The writer lease's theorems.
use chaintracks_cloudflare.Prelude.{
  ℕ, ◌+◌, some, none, Text, text_eq, true, false, [], ◌∷◌, ◌≡◌, ◌≢◌, refl, ◌⊎◌, ok, err, ap, sym,
  ◌∙◌, List, codes, arith,
}
use chaintracks_cloudflare.Outcomes.{StoreFault}
use chaintracks_cloudflare.Lease.{
  LeaseRow, Fenced, take_sql, take_lease, held, busy, fence_holds, has_left, fenced, free_for,
  close, completed,
}
use chaintracks_cloudflare.Lease.Exclusion.{Clocked, Step, Reach, take_lease-exclusive}
use chaintracks_cloudflare.Lease.Queries.{Query, Moment, writes_headers, execute}
use chaintracks_cloudflare.Lease.Fence.{
  Call, executes, batches, notes, calls, fenced_lem, attempts-lapsed,
}

abbrev cron : Text
cron = 1 ∷ []

abbrev push : Text
push = 2 ∷ []

abbrev free_row : LeaseRow
free_row = record { lease_owner = none; lease_until = none }

abbrev at_10 : Clocked
at_10 = record { row = free_row; now = 10 }

cron_holds : (take_lease (some cron) true 120 10 free_row).1 ≡ held cron
unfolding take_lease take_sql free_for
cron_holds = refl

first_byte : Text → ℕ
first_byte [] = 0
first_byte (x ∷ xs) = x

apart : push ≢ cron
unfolding first_byte
apart e = let k = ap first_byte e in cc

-- The push asks at once, and again thirty seconds later.
abbrev taken : Clocked
taken = record at_10 { row = (take_lease (some cron) true 120 10 free_row).0 }

abbrev asked : Clocked
asked = record taken { row = (take_sql push 120 10 taken.row).0 }

abbrev later : Clocked
later = record asked { now = 40 }

take_lease-exclusive_example :
    (fence_holds cron 40 later.row ≡ true)
    × (take_lease (some push) true 120 40 later.row ≡ (later.row, busy))
take_lease-exclusive_example =
    take_lease-exclusive cron 120 at_10 later push 120 cron_holds
      (Reach.next (Reach.next Reach.here (Step.take taken push 120 apart)) (Step.tick asked 30))
      (omega arith) apart

abbrev held_row : LeaseRow
held_row = record { lease_owner = some cron; lease_until = some 130 }

abbrev untouched : Fenced ℕ
untouched = record { table = 7; lapsed = false; last_error = none }

fenced_lem_example :
    let r = fenced cron 131 131000 held_row false (λ n. n + 1) untouched in
    ((r.1 ≡ ok tt) × (r.0.table ≡ 8) × (fence_holds cron 131 held_row ≡ true) × (false ≡ false))
    ⊎ ((f : StoreFault) × (r.1 ≡ err f) × (r.0.table ≡ 7))
fenced_lem_example = fenced_lem cron 131 131000 held_row false (λ n. n + 1) untouched

abbrev moment : Moment
moment = record { now = 131; now_ms = 131000; row = held_row; fails = false }

-- The store is the count of its headers and that of its records.
abbrev insert : Query (ℕ × ℕ)
insert = record { sql = codes "INSERT INTO headers"; run = λ t. (t.0 + 1, t.1); fault = none }

abbrev note : Query (ℕ × ℕ)
note = record {
  sql = codes "UPDATE sync_state SET";
  run = λ t. (t.0, t.1 + 1);
  fault = some StoreFault.database;
}

abbrev view : Fenced (ℕ × ℕ)
view = record { table = (7, 0); lapsed = false; last_error = none }

abbrev later_calls : List (Call (ℕ × ℕ))
later_calls = executes moment insert ∷ batches moment (note ∷ []) ∷ notes ∷ []

no_fence : fence_holds cron 131 held_row ≡ false
unfolding fence_holds text_eq
no_fence = refl

none_left : has_left cron 131000 held_row ≡ false
unfolding has_left text_eq
none_left = refl

is_write : writes_headers insert.sql ≡ true
unfolding writes_headers
is_write = refl

not_write : writes_headers insert.sql ≡ false → (t : ℕ × ℕ) → (insert.run t).0 ≡ t.0
not_write e t = let k = sym is_write ∙ e in cc

attempts-lapsed_example :
    let first = (execute (some cron) moment insert view).0 in
    let end = close cron (ok completed) (calls cron later_calls first) in
    (first.last_error ≡ some (StoreFault.lapsed cron))
    × (end.0.table.0 ≡ 7)
    × (end.0.last_error ≡ some (StoreFault.lapsed cron))
    × (end.1 ≡ err (StoreFault.lapsed cron))
    × (end.2 ≡ false)
attempts-lapsed_example =
    attempts-lapsed (λ (t : ℕ × ℕ). t.0) cron moment insert view later_calls is_write refl no_fence
      none_left (not_write, ((λ e t. refl, tt), (tt, tt)))
