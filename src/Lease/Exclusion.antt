-- ===== src/Lease/Exclusion.antt =====
-- While one writer holds the lease inside its term, no other can take it, whatever the interleaving.
use chaintracks_cloudflare.Prelude.{
  ℕ, ◌+◌, ◌≤◌, ◌<◌, ◌≡◌, ◌≢◌, sym, some, Text, text_eq, text_eq_iff, text_eq_refl, true, false,
  arith, Bool-cases, inl, inr,
}
use chaintracks_cloudflare.Lease.{
  LeaseRow, take_sql, release_sql, take_lease, held, busy, fence_holds,
}

pub record Clocked : Type 0 where
  pub row : LeaseRow
  pub now : ℕ

-- What the writers other than `owner` and the clock do.
pub data Step (owner : Text) : Clocked → Clocked → Type 0 where
  take :
      (s : Clocked) (other : Text) (term : ℕ)
      → other ≢ owner
      → Step owner s (record s { row = (take_sql other term s.now s.row).0 })
  release :
      (s : Clocked) (other : Text)
      → other ≢ owner
      → Step owner s (record s { row = release_sql other s.row })
  tick : (s : Clocked) (d : ℕ) → Step owner s (record s { now = s.now + d })

pub data Reach (owner : Text) (s : Clocked) : Clocked → Type 0 where
  here : Reach owner s s
  next : {t u : Clocked} → Reach owner s t → Step owner t u → Reach owner s u

abbrev HeldUntil : Text → ℕ → Clocked → Type 0
HeldUntil owner until s = (s.row.lease_owner ≡ some owner) × (s.row.lease_until ≡ some until)

text_eq-false : (a b : Text) → a ≢ b → text_eq a b ≡ false
text_eq-false a b n = elim (Bool-cases (text_eq a b)) [
  | inl t ↦ absurd (n ((text_eq_iff a b).0 t))
  | inr f ↦ f
]

Step-now : {owner : Text} {s t : Clocked} → Step owner s t → s.now ≤ t.now
Step-now (take s other term n) = omega arith
Step-now (release s other n) = omega arith
Step-now (tick s d) = omega arith

Step-HeldUntil :
    {owner : Text} {until : ℕ} {s t : Clocked}
    → Step owner s t
    → t.now ≤ until
    → HeldUntil owner until s
    → HeldUntil owner until t
unfolding take_sql release_sql
Step-HeldUntil {owner} {until} (take s other term n) h k =
    ground (arith, text_eq-false owner other (λ e. n (sym e)))
Step-HeldUntil {owner} {until} (release s other n) h k =
    ground (arith, text_eq-false owner other (λ e. n (sym e)))
Step-HeldUntil (tick s d) h k = k

Reach-HeldUntil :
    {owner : Text} {until : ℕ} {s t : Clocked}
    → HeldUntil owner until s
    → Reach owner s t
    → t.now ≤ until
    → HeldUntil owner until t
Reach-HeldUntil k here h = k
Reach-HeldUntil k (next r st) h =
    Step-HeldUntil st h (Reach-HeldUntil k r (omega (arith, Step-now st)))

taken-HeldUntil :
    (owner : Text) (term : ℕ) (s : Clocked)
    → (take_lease (some owner) true term s.now s.row).1 ≡ held owner
    → HeldUntil owner
        (s.now + term)
        (record s { row = (take_lease (some owner) true term s.now s.row).0 })
unfolding take_lease take_sql
taken-HeldUntil owner term s h = ground arith

-- Once `owner` has taken the lease, then until its term has passed, whatever the other writers do
-- in whatever order: its fence holds, and every other writer's ask answers `busy` and changes
-- nothing.
pub take_lease-exclusive :
    (owner : Text) (term : ℕ) (s t : Clocked) (other : Text) (term' : ℕ)
    → (take_lease (some owner) true term s.now s.row).1 ≡ held owner
    → Reach owner (record s { row = (take_lease (some owner) true term s.now s.row).0 }) t
    → t.now ≤ s.now + term
    → other ≢ owner
    → (fence_holds owner t.now t.row ≡ true)
      × (take_lease (some other) true term' t.now t.row ≡ (t.row, busy))
unfolding take_lease take_sql fence_holds
take_lease-exclusive owner term s t other term' h r k n =
    let (o, u) = Reach-HeldUntil (taken-HeldUntil owner term s h) r k in
    (
      ground (arith, o, u, text_eq_refl owner),
      ground (arith, o, u, text_eq-false owner other (λ e. n (sym e))),
    )

-- A holder that died frees the lease: once its term has passed, any writer's ask takes it.
take_lease-expired :
    (owner other : Text) (until term now : ℕ) (row : LeaseRow)
    → row.lease_owner ≡ some owner
    → row.lease_until ≡ some until
    → until < now
    → (take_lease (some other) true term now row
        ≡ (record { lease_owner = some other; lease_until = some (now + term) }, held other))
      × (fence_holds owner now row ≡ false)
unfolding take_lease take_sql fence_holds
take_lease-expired owner other until term now row h k l = ground arith
