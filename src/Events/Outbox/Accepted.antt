-- ===== src/Events/Outbox/Accepted.antt =====
-- A target's cursor never passes an event that the target did not accept.
use mathlib.Core.List.{map}
use chaintracks_cloudflare.Prelude.{
  ℕ, zero, suc, ◌+◌, ◌≤◌, ◌<◌, max, some, Text, text_eq, text_eq_iff, text_eq_refl, Bool, true,
  false, List, [], ◌∷◌, ltb, ltb→lt, lt→ltb, if◌then◌else◌, filter, take, ◌≡◌, refl, sym, ap, ◌∙◌,
  subst, inl, inr, Bool-cases, Result-cases, All, arith,
}
use chaintracks_cloudflare.Events.Decode.{Serde, decode}
use chaintracks_cloudflare.Events.Journal.{JournalRow, JournalEvent, journal_event, rows_above}
use chaintracks_cloudflare.Events.Outbox.{stored_cursor, or_else, from, upsert_cursor, post_events}

-- The journal's rows in the order of their key.
abbrev pub Ascending : List JournalRow → Type 0
Ascending [] = Unit {0}
Ascending (r ∷ rs) = All (λ x. r.cursor < x.cursor) rs × Ascending rs

-- The cursor a target gets to: the last event before its first refusal.
unfoldable pub reached : (JournalEvent → Bool) → ℕ → List JournalEvent → ℕ
reached acc since [] = since
reached acc since (e ∷ es) = elim (acc e) [ true ↦ reached acc e.cursor es | false ↦ since ]

-- Between the two cursors every row was accepted, and the second is not below the first.
abbrev pub Heard : ⦃s : Serde⦄ → (JournalEvent → Bool) → ℕ → ℕ → List JournalRow → Type 0
Heard acc since after rows =
    (since ≤ after)
    × All (λ r. since < r.cursor → r.cursor ≤ after → acc (journal_event r) ≡ true) rows

pub journal_event-cursor : ⦃s : Serde⦄ (r : JournalRow) → (journal_event r).cursor ≡ r.cursor
unfolding journal_event
journal_event-cursor r = elim (Result-cases (decode r.payload)) [
  | inl (e, q) ↦ rw (journal_event, q) refl
  | inr (f, q) ↦ rw (journal_event, q) refl
]

abbrev Up : ℕ → List JournalEvent → Type 0
Up since [] = Unit {0}
Up since (e ∷ es) = (since < e.cursor) × Up e.cursor es

max-right : (x c : ℕ) → x ≤ c → max x c ≡ c
max-right x c h = omega arith

stored-upsert_same :
    (d : ℕ) (key : Text) (c : ℕ) (ds : List (Text × ℕ))
    → from d key ds ≤ c
    → stored_cursor key (upsert_cursor key c ds) ≡ some c
unfolding stored_cursor upsert_cursor
stored-upsert_same d key c [] h = rw (stored_cursor, text_eq_refl key) refl
stored-upsert_same d key c ((k, x) ∷ ds) h = elim (Bool-cases (text_eq k key)) [
  | inl e ↦
      let l : x ≤ c = subst (λ b. or_else d (if b then some x else stored_cursor key ds) ≤ c) e h in
      rw (upsert_cursor, e, stored_cursor, e) (ap some (max-right x c l))
  | inr e ↦
      rw (upsert_cursor, e, stored_cursor, e)
        (stored-upsert_same d key c ds
          (subst (λ b. or_else d (if b then some x else stored_cursor key ds) ≤ c) e h))
]

pub stored-upsert_other :
    (k key : Text) (c : ℕ) (ds : List (Text × ℕ))
    → text_eq key k ≡ false
    → stored_cursor k (upsert_cursor key c ds) ≡ stored_cursor k ds
unfolding stored_cursor upsert_cursor
stored-upsert_other k key c [] h = rw (stored_cursor, h) refl
stored-upsert_other k key c ((j, x) ∷ ds) h = elim (Bool-cases (text_eq j key)) [
  | inl e ↦
      let same : text_eq j k ≡ false =
        subst (λ y. text_eq y k ≡ false) (sym ((text_eq_iff j key).0 e)) h in
      rw (upsert_cursor, e, stored_cursor, same) refl
  | inr e ↦ elim (Bool-cases (text_eq j k)) [
    | inl f ↦ rw (upsert_cursor, e, stored_cursor, f) refl
    | inr f ↦ rw (upsert_cursor, e, stored_cursor, f) (stored-upsert_other k key c ds h)
  ]
]

pub post_events-other :
    (acc : JournalEvent → Bool) (k key : Text) (es : List JournalEvent) (ds : List (Text × ℕ))
    → text_eq key k ≡ false
    → stored_cursor k (post_events acc key es ds) ≡ stored_cursor k ds
unfolding post_events
post_events-other acc k key [] ds h = refl
post_events-other acc k key (e ∷ es) ds h = elim (Bool-cases (acc e)) [
  | inl x ↦
      rw (post_events, x)
        (post_events-other acc k key es (upsert_cursor key e.cursor ds) h
          ∙ stored-upsert_other k key e.cursor ds h)
  | inr x ↦ rw (post_events, x) refl
]

from-post_events :
    (acc : JournalEvent → Bool) (d : ℕ) (key : Text) (es : List JournalEvent) (since : ℕ)
    (ds : List (Text × ℕ))
    → from d key ds ≡ since
    → Up since es
    → from d key (post_events acc key es ds) ≡ reached acc since es
unfolding post_events reached
from-post_events acc d key [] since ds h u = h
from-post_events acc d key (e ∷ es) since ds h (x, u) = elim (Bool-cases (acc e)) [
  | inl y ↦
      rw (post_events, reached, y)
        (from-post_events acc d key es e.cursor (upsert_cursor key e.cursor ds)
          (ap (or_else d) (stored-upsert_same d key e.cursor ds (omega arith))) u)
  | inr y ↦ rw (post_events, reached, y) h
]

reached-ge :
    (acc : JournalEvent → Bool) (es : List JournalEvent) (since : ℕ)
    → Up since es
    → since ≤ reached acc since es
unfolding reached
reached-ge acc [] since u = omega arith
reached-ge acc (e ∷ es) since (x, u) = elim (Bool-cases (acc e)) [
  | inl y ↦ rw (reached, y) (omega (arith, reached-ge acc es e.cursor u))
  | inr y ↦ rw (reached, y) (omega arith)
]

-- The rows read, as events, rise from the cursor that they were read above.
above-Up :
    ⦃s : Serde⦄ (n since : ℕ) (rows : List JournalRow)
    → All (λ r. since < r.cursor) rows
    → Ascending rows
    → Up since (map journal_event (take n rows))
above-Up zero since rows a u = tt
above-Up (suc n) since [] a u = tt
above-Up (suc n) since (r ∷ rs) (x, a) (b, u) = (
  omega (arith, journal_event-cursor r),
  above-Up n (journal_event r).cursor rs
      (subst (λ c. All (λ x. c < x.cursor) rs) (sym (journal_event-cursor r)) b) u,
)

reached-accepted :
    (acc : JournalEvent → Bool) (since : ℕ) (e : JournalEvent) (es : List JournalEvent)
    → acc e ≡ true
    → reached acc since (e ∷ es) ≡ reached acc e.cursor es
unfolding reached
reached-accepted acc since e es h = rw (reached, h) refl

reached-refused :
    (acc : JournalEvent → Bool) (since : ℕ) (e : JournalEvent) (es : List JournalEvent)
    → acc e ≡ false
    → reached acc since (e ∷ es) ≡ since
unfolding reached
reached-refused acc since e es h = rw (reached, h) refl

All-above :
    (lo hi : ℕ) (rows : List JournalRow)
    → lo < hi
    → All (λ r. hi < r.cursor) rows
    → All (λ r. lo < r.cursor) rows
All-above lo hi [] h a = tt
All-above lo hi (r ∷ rs) h (x, a) = (omega arith, All-above lo hi rs h a)

filter-above :
    (since : ℕ) (rows : List JournalRow)
    → All (λ r. since < r.cursor) rows
    → filter (λ r. ltb since r.cursor) rows ≡ rows
filter-above since [] a = refl
filter-above since (r ∷ rs) (x, a) =
    rw (lt→ltb since r.cursor x) (ap (λ t. r ∷ t) (filter-above since rs a))

module _ ⦃s : Serde⦄ (acc : JournalEvent → Bool) where
  -- The claim of `Heard` on rows, for a cursor that was got to.
  abbrev Below : ℕ → ℕ → List JournalRow → Type 0
  Below since top rows =
      All (λ r. since < r.cursor → r.cursor ≤ top → acc (journal_event r) ≡ true) rows

  All-weaken :
      (lo hi top : ℕ) (rows : List JournalRow)
      → All (λ r. hi < r.cursor) rows
      → Below hi top rows
      → Below lo top rows
  All-weaken lo hi top [] a b = tt
  All-weaken lo hi top (r ∷ rs) (x, a) (b, bs) = (λ p q. b x q, All-weaken lo hi top rs a bs)

  stopped : (since : ℕ) (rows : List JournalRow) → Below since since rows
  stopped since [] = tt
  stopped since (r ∷ rs) = (λ p q. absurd (omega arith), stopped since rs)

  above-Below :
      (n since top : ℕ) (rows : List JournalRow)
      → All (λ r. since < r.cursor) rows
      → Ascending rows
      → reached acc since (map journal_event (take n rows)) ≡ top
      → Below since top rows
  unfolding reached
  above-Below n since top [] a u e = tt
  above-Below zero since top (r ∷ rs) a u e =
      subst (λ t. Below since t (r ∷ rs)) e (stopped since (r ∷ rs))
  above-Below (suc n) since top (r ∷ rs) (x, a) (b, u) e =
      let rest = map journal_event (take n rs) in
      elim (Bool-cases (acc (journal_event r))) [
        | inr y ↦
            subst (λ t. Below since t (r ∷ rs))
              (sym (reached-refused acc since (journal_event r) rest y) ∙ e)
              (stopped since (r ∷ rs))
        | inl y ↦ (
          λ p q. y,
          All-weaken since r.cursor top rs b (
              above-Below n r.cursor top rs b u (
                ap (λ c. reached acc c rest) (sym (journal_event-cursor r))
                ∙ sym (reached-accepted acc since (journal_event r) rest y)
                ∙ e)),
        )
      ]

  -- A page of the rows above a cursor, whatever rows are below it.
  rows_above-Below :
      (n since top : ℕ) (rows : List JournalRow)
      → Ascending rows
      → reached acc since (map journal_event (rows_above since n rows)) ≡ top
      → Below since top rows
  unfolding rows_above
  rows_above-Below n since top [] u e = tt
  rows_above-Below n since top (r ∷ rs) (b, u) e = elim (Bool-cases (ltb since r.cursor)) [
    | inr y ↦ (
      λ p q. let k = lt→ltb since r.cursor p in cc,
      rows_above-Below n since top rs u (rw (rows_above, y) at e),
    )
    | inl y ↦
        let x = ltb→lt since r.cursor y in
        let a = All-above since r.cursor rs x b in
        above-Below n since top (r ∷ rs) (x, a) (b, u)
          (subst (λ l. reached acc since (map journal_event (take n l)) ≡ top)
            (filter-above since (r ∷ rs) (x, a)) e)
  ]

rows_above-Up :
    ⦃s : Serde⦄ (n since : ℕ) (rows : List JournalRow)
    → Ascending rows
    → Up since (map journal_event (rows_above since n rows))
unfolding rows_above
rows_above-Up zero since [] u = tt
rows_above-Up (suc n) since [] u = tt
rows_above-Up n since (r ∷ rs) (b, u) = elim (Bool-cases (ltb since r.cursor)) [
  | inr y ↦ rw (rows_above, y) (rows_above-Up n since rs u)
  | inl y ↦
      let x = ltb→lt since r.cursor y in
      let a = All-above since r.cursor rs x b in
      subst (λ l. Up since (map journal_event (take n l)))
        (sym (filter-above since (r ∷ rs) (x, a))) (above-Up n since (r ∷ rs) (x, a) (b, u))
]

-- A target that is sent a page of the rows above its cursor hears it up to its first refusal.
pub post_events-Heard :
    ⦃s : Serde⦄ (acc : JournalEvent → Bool) (d : ℕ) (key : Text) (n : ℕ) (rows : List JournalRow)
    (ds : List (Text × ℕ))
    → Ascending rows
    → Heard acc
        (from d key ds)
        (from d key
          (post_events acc key (map journal_event (rows_above (from d key ds) n rows)) ds))
        rows
post_events-Heard acc d key n rows ds u =
    let since = from d key ds in
    let up = rows_above-Up n since rows u in
    let es = map journal_event (rows_above since n rows) in
    let e = from-post_events acc d key es since ds refl up in
    (
      subst (λ c. since ≤ c) (sym e) (reached-ge acc es since up),
      rows_above-Below acc n since (from d key (post_events acc key es ds)) rows u (sym e),
    )

pub stays-Heard :
    ⦃s : Serde⦄ (acc : JournalEvent → Bool) (since : ℕ) (rows : List JournalRow)
    → Heard acc since since rows
stays-Heard acc since rows = (omega arith, stopped acc since rows)

pub take-rows_above :
    (n since : ℕ) (rows : List JournalRow)
    → take n (rows_above since (n + 1) rows) ≡ rows_above since n rows
unfolding rows_above
take-rows_above n since rows =
    subst (λ m. take n (take m (filter (λ r. ltb since r.cursor) rows)) ≡ rows_above since n rows)
      {x = suc n} (omega arith) (take-take n (filter (λ r. ltb since r.cursor) rows))
  where
    take-take : (n : ℕ) (l : List JournalRow) → take n (take (suc n) l) ≡ take n l
    take-take zero l = refl
    take-take (suc n) [] = refl
    take-take (suc n) (r ∷ rs) = ap (λ t. r ∷ t) (take-take n rs)
