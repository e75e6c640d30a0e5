-- ===== src/Lease/Fence.antt =====
-- What a holder past its term can still write.
use chaintracks_cloudflare.Prelude.{
  ◌≡◌, refl, sym, ◌∙◌, some, Text, Bool, true, false, not, ◌&&◌, ◌⊎◌, List, [], ◌∷◌, any, ok, err,
  arith, Bool-cases, inl, inr, All, ℕ, subst,
}
use chaintracks_cloudflare.Outcomes.{StoreFault}
use chaintracks_cloudflare.Lease.{LeaseRow, Fenced, fenced, fence_holds, has_left, close, completed}
use chaintracks_cloudflare.Lease.Queries.{
  Query, Moment, writes_headers, run_all, pass, execute, batch_changes, note_lapse,
}

-- What a holder asks of its view of the store.
pub data Call (T : Type 0) : Type 0 where
  executes : Moment → Query T → Call T
  batches : Moment → List (Query T) → Call T
  notes : Call T

pub make : {T : Type 0} → Text → Call T → Fenced T → Fenced T
make owner (executes m q) w = (execute (some owner) m q w).0
make owner (batches m qs) w = (batch_changes (some owner) m qs w).0
make owner notes w = note_lapse (some owner) w

pub calls : {T : Type 0} → Text → List (Call T) → Fenced T → Fenced T
calls owner [] w = w
calls owner (c ∷ later) w = calls owner later (make owner c w)

module _ {T : Type 0} where
  -- A fenced write that answers no fault is applied, and then the lease is the writer's, inside its
  -- term, and the writer had not lapsed before; one that answers a fault leaves the table as it was.
  pub fenced_lem :
      (owner : Text) (now now_ms : ℕ) (row : LeaseRow) (fails : Bool) (write : T → T) (w : Fenced T)
      → let r = fenced owner now now_ms row fails write w in
        ((r.1 ≡ ok tt)
          × (r.0.table ≡ write w.table)
          × (fence_holds owner now row ≡ true)
          × (w.lapsed ≡ false))
        ⊎ ((f : StoreFault) × (r.1 ≡ err f) × (r.0.table ≡ w.table))
  unfolding fenced
  fenced_lem owner now now_ms row fails write w = elim (Bool-cases w.lapsed) [
    | inl l ↦ inr (StoreFault.lapsed owner, ground arith, ground arith)
    | inr l ↦ elim (Bool-cases (fence_holds owner now row && not fails)) [
      | inl g ↦ inl (ground arith, ground arith, ground arith, l)
      | inr g ↦ elim (Bool-cases (has_left owner now_ms row)) [
        | inl k ↦ inr (StoreFault.database, ground arith, ground arith)
        | inr k ↦ inr (StoreFault.lapsed owner, ground arith, ground arith)
      ]
    ]
  ]

  lapse-fenced :
      (owner : Text) (now now_ms : ℕ) (row : LeaseRow) (fails : Bool) (write : T → T) (w : Fenced T)
      → w.lapsed ≡ false
      → fence_holds owner now row ≡ false
      → has_left owner now_ms row ≡ false
      → (fenced owner now now_ms row fails write w).0
        ≡ record w { lapsed = true; last_error = some (StoreFault.lapsed owner) }
  unfolding fenced
  lapse-fenced owner now now_ms row fails write w l f k = ground arith

module _ {T H : Type 0} (headers : T → H) where
  -- A statement that is not one on `headers` leaves that table as it is.
  abbrev pub Spares : Query T → Type 0
  Spares q = writes_headers q.sql ≡ false → (t : T) → headers (q.run t) ≡ headers t

  abbrev pub AllSpare : Call T → Type 0
  AllSpare (executes m q) = Spares q
  AllSpare (batches m qs) = All Spares qs
  AllSpare notes = Unit {0}

  run_all-Spares :
      (qs : List (Query T))
      → any (λ q. writes_headers q.sql) qs ≡ false
      → All Spares qs
      → (t : T) → headers (run_all qs t) ≡ headers t
  run_all-Spares [] e a t = refl
  run_all-Spares (q ∷ qs) e (x, a) t =
      run_all-Spares qs (ground arith) a (q.run t) ∙ x (ground arith) t

  abbrev Stopped : Fenced T → Fenced T → Type 0
  Stopped w w' = (headers w'.table ≡ headers w.table) × (w'.lapsed ≡ true)

  pass-Stopped :
      (fails : Bool) (qs : List (Query T)) (w : Fenced T)
      → any (λ q. writes_headers q.sql) qs ≡ false
      → All Spares qs
      → w.lapsed ≡ true
      → Stopped w (pass fails qs w).0
  unfolding pass
  pass-Stopped true qs w e a l = (refl, l)
  pass-Stopped false qs w e a l = (run_all-Spares qs e a w.table, l)

  fenced-Stopped :
      (owner : Text) (m : Moment) (write : T → T) (w : Fenced T)
      → w.lapsed ≡ true
      → Stopped w (fenced owner m.now m.now_ms m.row m.fails write w).0
  unfolding fenced
  fenced-Stopped owner m write w l =
      let e : (fenced owner m.now m.now_ms m.row m.fails write w).0 ≡ w = ground arith in
      subst (Stopped w) (sym e) (refl, l)

  make-Stopped :
      (owner : Text) (c : Call T) (w : Fenced T)
      → AllSpare c
      → w.lapsed ≡ true
      → Stopped w (make owner c w)
  unfolding make execute batch_changes note_lapse
  make-Stopped owner (executes m q) w a l = elim (Bool-cases (writes_headers q.sql)) [
    | inl e ↦ rw (make, e) (fenced-Stopped owner m q.run w l)
    | inr e ↦ rw (make, e) (pass-Stopped m.fails (q ∷ []) w (rw (e) refl) (a, tt) l)
  ]
  make-Stopped owner (batches m qs) w a l =
      elim (Bool-cases (any (λ (q : Query T). writes_headers q.sql) qs)) [
        | inl e ↦ rw (make, e) (fenced-Stopped owner m (run_all qs) w l)
        | inr e ↦ rw (make, e) (pass-Stopped m.fails qs w e a l)
      ]
  make-Stopped owner notes w a l = (refl, refl)

  calls-Stopped :
      (owner : Text) (later : List (Call T)) (w : Fenced T)
      → All AllSpare later
      → w.lapsed ≡ true
      → Stopped w (calls owner later w)
  unfolding calls
  calls-Stopped owner [] w a l = (refl, l)
  calls-Stopped owner (c ∷ later) w (x, a) l =
      let (t, k) = make-Stopped owner c w x l in
      let (u, j) = calls-Stopped owner later (make owner c w) a k in (u ∙ t, j)

  closed :
      (owner : Text) (w' w : Fenced T)
      → (headers w'.table ≡ headers w.table)
      → w'.lapsed ≡ true
      → let end = close owner (ok completed) w' in
        (headers end.0.table ≡ headers w.table)
        × (end.0.last_error ≡ some (StoreFault.lapsed owner))
        × (end.1 ≡ err (StoreFault.lapsed owner))
        × (end.2 ≡ false)
  unfolding close
  closed owner w' w t j = rw (close, j) (t, refl, refl, refl)

  -- From the `headers` write that the fence refuses for the lease, which records the lapse, a
  -- holder writes nothing more to that table, whatever it still asks of the store, in statements
  -- alone or in batches, of which those that are not on `headers` leave it as it is. At the end of a
  -- pass that ends without a fault of its own, the lapse is the fault recorded and answered, whatever
  -- fault a later statement recorded, and the pass is not stamped as completed.
  pub attempts-lapsed :
      (owner : Text) (m : Moment) (q : Query T) (w : Fenced T) (later : List (Call T))
      → writes_headers q.sql ≡ true
      → w.lapsed ≡ false
      → fence_holds owner m.now m.row ≡ false
      → has_left owner m.now_ms m.row ≡ false
      → All AllSpare later
      → let first = (execute (some owner) m q w).0 in
        let end = close owner (ok completed) (calls owner later first) in
        (first.last_error ≡ some (StoreFault.lapsed owner))
        × (headers end.0.table ≡ headers w.table)
        × (end.0.last_error ≡ some (StoreFault.lapsed owner))
        × (end.1 ≡ err (StoreFault.lapsed owner))
        × (end.2 ≡ false)
  unfolding execute
  attempts-lapsed owner m q w later s l f k a =
      let first = record w { lapsed = true; last_error = some (StoreFault.lapsed owner) } in
      let e : (execute (some owner) m q w).0 ≡ first =
        rw (execute, s) (lapse-fenced owner m.now m.now_ms m.row m.fails q.run w l f k) in
      let (t, j) = calls-Stopped owner later first a refl in
      let (x, y, z, v) = closed owner (calls owner later first) w t j in rw (e) (refl, x, y, z, v)
