-- ===== src/Consensus/Window/Sums.antt =====
-- The prefix sums of `Window` against the sum of the proofs between two ancestors.
use mathlib.Core.List.{append_assoc, append-nil}
use native.Mathlib.Nat.{zero-add, suc-add}
use chaintracks_cloudflare.Prelude.{
  ℕ, zero, suc, ◌+◌, ◌≤◌, ◌<◌, ◌%◌, ◌^◌, ◌≡◌, refl, ◌∙◌, ap, sym, some, List, [], ◌∷◌, ◌++◌, ok,
  length, get_elem?, last?, drop, arith,
}
use chaintracks_cloudflare.Bsv.{Bsv, HeaderLink, WorkLaws}
use chaintracks_cloudflare.Consensus.Window.{
  Window, empty, push, push_all, new, index, link_at, work_at, work_between,
}

-- The work of the first `n` headers of a run.
pub total : ⦃b : Bsv⦄ → List HeaderLink → ℕ → ℕ
total ls zero = 0
total [] (suc n) = 0
total ⦃b⦄ (l ∷ ls) (suc n) = b.work_from_bits l.bits + total ls n

scan : ⦃b : Bsv⦄ → ℕ → List HeaderLink → List ℕ
scan acc [] = []
scan ⦃b⦄ acc (l ∷ ls) =
    b.wrapping_add acc (b.work_from_bits l.bits)
    ∷ scan (b.wrapping_add acc (b.work_from_bits l.bits)) ls

last?-append : (xs : List ℕ) (y : ℕ) → last? (xs ++ y ∷ []) ≡ some y
last?-append [] y = refl
last?-append (x ∷ []) y = refl
last?-append (x ∷ z ∷ r) y = last?-append (z ∷ r) y

module _ ⦃b : Bsv⦄ where
  work-push :
      (w : Window) (l : HeaderLink) (acc : ℕ)
      → last? w.work ≡ some acc
      → (push w l).work ≡ w.work ++ b.wrapping_add acc (b.work_from_bits l.bits) ∷ []
  unfolding push
  work-push w l acc h = ground arith

  work-push_all :
      (w : Window) (ls : List HeaderLink) (acc : ℕ)
      → last? w.work ≡ some acc
      → (push_all w ls).work ≡ w.work ++ scan acc ls
  unfolding push_all scan
  work-push_all w [] acc h = sym (append-nil w.work)
  work-push_all w (l ∷ ls) acc h =
      let next = b.wrapping_add acc (b.work_from_bits l.bits) in
      let e = work-push w l acc h in
      work-push_all (push w l) ls next (ap last? e ∙ last?-append w.work next)
      ∙ ap (λ (v : List ℕ). v ++ scan next ls) e
      ∙ append_assoc w.work (next ∷ []) (scan next ls)

  links-push_all : (w : Window) (ls : List HeaderLink) → (push_all w ls).links ≡ w.links ++ ls
  unfolding push_all push
  links-push_all w [] = sym (append-nil w.links)
  links-push_all w (l ∷ ls) = links-push_all (push w l) ls ∙ append_assoc w.links (l ∷ []) ls

  length-scan : (acc : ℕ) (ls : List HeaderLink) → length (scan acc ls) ≡ length ls
  unfolding scan
  length-scan acc [] = refl
  length-scan acc (l ∷ ls) = ap suc (length-scan (b.wrapping_add acc (b.work_from_bits l.bits)) ls)

  module _ (laws : WorkLaws) where
    get_elem?-scan :
        (acc : ℕ) (ls : List HeaderLink) (i : ℕ)
        → acc < 2 ^ 256
        → i ≤ length ls
        → get_elem? (acc ∷ scan acc ls) i ≡ some ((acc + total ls i) % 2 ^ 256)
    unfolding scan total
    get_elem?-scan acc ls zero h k = ap some (omega arith)
    get_elem?-scan acc [] (suc i) h k = absurd (omega arith)
    get_elem?-scan acc (l ∷ ls) (suc i) h k =
        let next = b.wrapping_add acc (b.work_from_bits l.bits) in
        let e = laws.add_mod acc (b.work_from_bits l.bits) in
        get_elem?-scan next ls i (omega (arith, e)) (omega arith) ∙ ap some (omega (arith, e))

    total-nil : (n : ℕ) → total [] n ≡ 0
    unfolding total
    total-nil zero = refl
    total-nil (suc n) = refl

    total-drop :
        (ls : List HeaderLink) (i k : ℕ) → total ls (i + k) ≡ total ls i + total (drop i ls) k
    unfolding total
    total-drop ls zero k = rw (zero-add k) (omega arith)
    total-drop [] (suc i) k = rw (total-nil (suc i + k), total-nil k) (omega arith)
    total-drop (l ∷ ls) (suc i) k = rw (suc-add i k) (omega (arith, total-drop ls i k))

    work-new : (l : HeaderLink) (ls : List HeaderLink) → (new (l ∷ ls)).work ≡ 0 ∷ scan 0 ls
    unfolding new push_all push
    work-new l ls = work-push_all (push empty l) ls 0 refl

    links-new : (ls : List HeaderLink) → (new ls).links ≡ ls
    unfolding new
    links-new ls = links-push_all empty ls

    index-new :
        (l : HeaderLink) (ls : List HeaderLink) (i : ℕ)
        → i ≤ length ls
        → index (new (l ∷ ls)) (l.height + i) ≡ some i
    unfolding index
    index-new l ls i h = rw (links-new (l ∷ ls)) (ground arith)

    work_at-new :
        (l : HeaderLink) (ls : List HeaderLink) (i : ℕ)
        → i ≤ length ls
        → work_at (new (l ∷ ls)) (l.height + i) ≡ ok (total ls i % 2 ^ 256)
    unfolding work_at
    work_at-new l ls i h =
        rw (index-new l ls i h, work_at, work-new l ls, get_elem?-scan 0 ls i (omega arith) h)
          (ap ok (omega arith))

    -- The chain work between two ancestors of a run, as the difficulty rule is told it, is the sum
    -- of the proofs of the headers above the first up to the second, modulo 2^256; and the header
    -- at each height is the run's own.
    pub work_between-total :
        (l : HeaderLink) (ls : List HeaderLink) (i k : ℕ)
        → i + k ≤ length ls
        → (work_between (new (l ∷ ls)) (l.height + i) (l.height + (i + k))
            ≡ ok (total (drop i ls) k % 2 ^ 256))
          × (link_at (new (l ∷ ls)) (l.height + i) ≡ get_elem? (l ∷ ls) i)
    unfolding work_between link_at
    work_between-total l ls i k h = (
      rw (work_at-new l ls i (omega arith), work_between, work_at-new l ls (i + k) h)
          (ap ok (
            omega (
              arith,
              total-drop ls i k,
              laws.sub_mod (total ls i % 2 ^ 256) (total ls (i + k) % 2 ^ 256),
            ))),
      rw (index-new l ls i (omega arith), link_at, links-new (l ∷ ls)),
    )
