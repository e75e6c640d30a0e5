-- ===== src/TipStream/Lease.antt =====
-- A push asked again while another writer holds the lease.
use native.Mathlib.Decide.{dec_lt}
use chaintracks_cloudflare.Prelude.{
  ℕ, zero, suc, ◌+◌, ◌≤◌, ◌<◌, ◌≡◌, refl, subst, some, Text, true, false, Result, arith, Bool-cases,
  inl, inr, ◌⊎◌, add_u32, if◌then◌else◌,
}
use chaintracks_cloudflare.Types.{BlockHeader}
use chaintracks_cloudflare.Outcomes.{IngestError, busy, Announced}
use chaintracks_cloudflare.TipStream.{
  StreamState, Door, ask_door, through_the_lease, is_busy, settle, drop_push, count_busy, dropped,
  hint, ingested,
}

-- The asks from number `asked` on end at number `k`.
abbrev Ends : Door → ℕ → ℕ → Result IngestError Announced × ℕ → ℕ → Type 0
Ends door asked last r k =
    (asked ≤ k)
    × (k ≤ last)
    × (r.0 ≡ door k)
    × (r.1 ≡ k + 1)
    × ((j : ℕ) → asked ≤ j → j < k → is_busy (door j) ≡ true)
    × ((is_busy (door k) ≡ false) ⊎ (k ≡ last))

abbrev outcome_of :
    StreamState × Result IngestError Announced × ℕ → Result IngestError Announced × ℕ
outcome_of r = (r.1, r.2)

module _ (door : Door) (clock : ℕ → ℕ) (who : Text) (header : BlockHeader) where
  from_asked :
      (asked k : ℕ)
      → is_busy (door asked) ≡ true
      → ((j : ℕ) → suc asked ≤ j → j < k → is_busy (door j) ≡ true)
      → (j : ℕ) → asked ≤ j
      → j < k
      → is_busy (door j) ≡ true
  from_asked asked k t before j low high = elim (dec_lt asked j) [
    | yes above ↦ before j above high
    | no here ↦
        let same : asked ≡ j = omega arith in subst (λ (i : ℕ). is_busy (door i) ≡ true) same t
  ]

  ask_door-Ends :
      (left asked : ℕ) (st : StreamState)
      → (k : ℕ) × Ends door asked
          (asked + left)
          (outcome_of (ask_door door clock who header left asked st))
          k
  unfolding ask_door
  ask_door-Ends zero asked st = elim (Bool-cases (is_busy (door asked))) [
    | inl t ↦ (
      asked,
      rw (t, ask_door)
          (omega arith, omega arith, refl, refl, λ j h k. absurd (omega arith), inr (omega arith)),
    )
    | inr f ↦ (
      asked,
      rw (f, ask_door)
          (omega arith, omega arith, refl, refl, λ j h k. absurd (omega arith), inl refl),
    )
  ]
  ask_door-Ends (suc left) asked st = elim (Bool-cases (is_busy (door asked))) [
    | inl t ↦
        let (k, ends) = ask_door-Ends left (suc asked) (count_busy st asked (clock 0)) in
        let (low, high, answer, asks, before, end) = ends in
        (
          k,
          rw (t, ask_door)
              (
                omega arith,
                omega arith,
                answer,
                asks,
                from_asked asked k t before,
                elim end [ inl f ↦ inl f | inr e ↦ inr (omega arith) ],
              ),
        )
    | inr f ↦ (
      asked,
      rw (f, ask_door)
          (omega arith, omega arith, refl, refl, λ j h k. absurd (omega arith), inl refl),
    )
  ]

  -- Every state but the first has counted the event.
  busy_pushes-ask_door :
      (left asked : ℕ) (st : StreamState)
      → 0 < asked
      → (ask_door door clock who header left asked st).0.busy_pushes ≡ st.busy_pushes
  unfolding ask_door drop_push settle hint
  busy_pushes-ask_door left zero st h = absurd (omega arith)
  busy_pushes-ask_door zero (suc a) st h = ground arith
  busy_pushes-ask_door (suc left) (suc a) st h =
      ground (arith, busy_pushes-ask_door left (suc (suc a)) st)

  busy_pushes-through :
      (tries : ℕ) (st : StreamState)
      → (through_the_lease door clock who header tries st).0.busy_pushes
        ≡ (if is_busy (door 0) then add_u32 st.busy_pushes 1 else st.busy_pushes)
  unfolding through_the_lease ask_door count_busy ingested drop_push settle hint
  busy_pushes-through zero st = ground arith
  busy_pushes-through (suc left) st =
      ground (arith, busy_pushes-ask_door left 1 (ingested st busy (clock 0)))

  abbrev Dropped : Result IngestError Announced → ℕ → StreamState → Type 0
  Dropped answer asks st =
      is_busy answer ≡ true
      → (st.last_fault ≡ some (dropped who header.hash header.height asks))
        × (st.hint_height ≡ header.height)
        × (st.hint_at ≡ clock 1)

  ask_door-Dropped :
      (left asked : ℕ) (st : StreamState)
      → let r = ask_door door clock who header left asked st in Dropped r.1 r.2 r.0
  unfolding ask_door drop_push settle hint
  ask_door-Dropped zero asked st b = elim (Bool-cases (is_busy (door asked))) [
    | inl t ↦ rw (t, ask_door) (refl, refl, refl)
    | inr f ↦ cc (f, rw (f, ask_door) at b)
  ]
  ask_door-Dropped (suc left) asked st b = elim (Bool-cases (is_busy (door asked))) [
    | inl t ↦
        rw (t, ask_door)
          (ask_door-Dropped left (suc asked) (count_busy st asked (clock 0))
            (rw (t, ask_door) at b))
    | inr f ↦ cc (f, rw (f, ask_door) at b)
  ]

  -- A push is asked at most once more than its tries, and its answer is the door's last one: the
  -- first that was not busy, or that of the last try.
  pub through_the_lease-Ends :
      (tries : ℕ) (st : StreamState)
      → (k : ℕ) × (k ≤ tries)
        × ((through_the_lease door clock who header tries st).1 ≡ door k)
        × ((through_the_lease door clock who header tries st).2 ≡ k + 1)
        × ((j : ℕ) → j < k → is_busy (door j) ≡ true)
        × ((is_busy (door k) ≡ false) ⊎ (k ≡ tries))
  unfolding through_the_lease
  through_the_lease-Ends tries st =
      let (k, ends) = ask_door-Ends tries 0 st in
      let (low, high, answer, asks, before, end) = ends in
      (
        k,
        omega arith,
        answer,
        asks,
        λ j h. before j (omega arith) h,
        elim end [ inl f ↦ inl f | inr e ↦ inr (omega arith) ],
      )

  -- The event counts as busy once, and only if its first ask was turned away; one still turned
  -- away at its last try is named in `last_fault`, with its asks, and leaves its height and the
  -- time as the stream's hint.
  pub through_the_lease-dropped :
      (tries : ℕ) (st : StreamState)
      → let r = through_the_lease door clock who header tries st in
        (r.0.busy_pushes ≡ (if is_busy (door 0) then add_u32 st.busy_pushes 1 else st.busy_pushes))
        × (is_busy r.1 ≡ true
            → (r.0.last_fault ≡ some (dropped who header.hash header.height r.2))
              × (r.0.hint_height ≡ header.height)
              × (r.0.hint_at ≡ clock 1))
  unfolding through_the_lease
  through_the_lease-dropped tries st = (busy_pushes-through tries st, ask_door-Dropped tries 0 st)
