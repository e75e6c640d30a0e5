-- ===== src/Events/Outbox/Turns.antt =====
-- The turns of a tick under each feed, target by target.
use mathlib.Core.List.{map}
use chaintracks_cloudflare.Prelude.{
  ℕ, Text, text_eq, text_eq-flip, false, ◌||◌, List, [], ◌∷◌, ltb, ◌==◌, ◌≡◌, refl, sym, ap, ◌∙◌,
  subst, ◌⊎◌, inl, inr, Bool-cases, Result-cases, Result, ok, err, All, Has, Has-map, arith,
}
use chaintracks_cloudflare.Webhooks.{WebhookTarget}
use chaintracks_cloudflare.Store.Distinct.{Distinct}
use chaintracks_cloudflare.Events.Decode.{Serde, EventFault}
use chaintracks_cloudflare.Events.Journal.{
  Journal, Page, max_of, journal_event, rows_above, head, page_of, read_page,
}
use chaintracks_cloudflare.Events.Outbox.{
  TipWebhooks, target_key, stored_cursor, or_else, from, post_events, with_deliveries, deliver_v1,
  turn, turns,
}
use chaintracks_cloudflare.Events.Outbox.Accepted.{
  Ascending, Heard, post_events-other, post_events-Heard, stays-Heard, take-rows_above,
}

-- The first key of a list without repeats is no later one's.
All-flip :
    (k : Text) (ks : List Text)
    → All (λ x. text_eq k x ≡ false) ks
    → All (λ x. text_eq x k ≡ false) ks
All-flip k [] a = tt
All-flip k (x ∷ ks) (h, a) = (text_eq-flip k x h, All-flip k ks a)

All-Has : (P : Text → Type 0) (k : Text) (ks : List Text) → All P ks → Has k ks → P k
All-Has P k [] a h = elim h [ ]
All-Has P k (x ∷ ks) (p, a) (inl e) = subst P (sym e) p
All-Has P k (x ∷ ks) (p, a) (inr h) = All-Has P k ks a h

read_page-events :
    ⦃s : Serde⦄ (j : Journal) (since limit : ℕ) (page : Page)
    → read_page j since limit ≡ ok page
    → page.events ≡ map journal_event (rows_above since limit j.rows)
unfolding read_page page_of
read_page-events j since limit page h =
    elim (Bool-cases (ltb 9007199254740991 since || (ltb limit 1 || ltb 100 limit))) [
      | inl e ↦ let k = (rw (e) at h) in cc
      | inr e ↦ elim (Result-cases (head j)) [
        | inr (f, q) ↦ let k = (rw (e, q) at h) in cc
        | inl (top, q) ↦ elim (Bool-cases (ltb top since)) [
          | inl x ↦ let k = (rw (e, q, x) at h) in cc
          | inr x ↦
              let k : page_of since limit j.rows ≡ page = ground (arith, (rw (e, q, x) at h)) in
              sym (ap (λ (p : Page). p.events) k)
              ∙ ap (map journal_event) (take-rows_above limit since j.rows)
        ]
      ]
    ]

module _ ⦃s : Serde⦄ (hooks : TipWebhooks) (limit : ℕ) where
  -- A turn of feed 2 posts the rows above the target's cursor, or nothing.
  abbrev Posted : Journal → WebhookTarget → List (Text × ℕ) → Type 0
  Posted j t ds =
      (turn hooks limit j t ds ≡ ds)
      ⊎ (turn hooks limit j t ds
          ≡ post_events (hooks.accepts t) (target_key t)
              (map journal_event
                (rows_above (from j.floor (target_key t) j.deliveries) limit j.rows))
              ds)

  turn-Posted : (j : Journal) (t : WebhookTarget) (ds : List (Text × ℕ)) → Posted j t ds
  unfolding turn
  turn-Posted j t ds =
      let since = from j.floor (target_key t) j.deliveries in
      elim (Bool-cases (since == max_of j.rows)) [
        | inl e ↦ inl (rw (turn, e) refl)
        | inr e ↦ elim (Bool-cases (ltb (max_of j.rows) since)) [
          | inl f ↦ inl (rw (turn, e, f) refl)
          | inr f ↦ elim (Bool-cases (ltb since j.floor)) [
            | inl g ↦ inl (rw (turn, e, f, g) refl)
            | inr g ↦ inr (rw (turn, e, f, g) refl)
          ]
        ]
      ]

  turn-other :
      (j : Journal) (t : WebhookTarget) (k : Text) (ds : List (Text × ℕ))
      → text_eq (target_key t) k ≡ false
      → stored_cursor k (turn hooks limit j t ds) ≡ stored_cursor k ds
  turn-other j t k ds h = elim (turn-Posted j t ds) [
    | inl e ↦ ap (stored_cursor k) e
    | inr e ↦ ap (stored_cursor k) e ∙ post_events-other (hooks.accepts t) k (target_key t) _ ds h
  ]

  turn-Heard :
      (j : Journal) (t : WebhookTarget) (ds : List (Text × ℕ))
      → Ascending j.rows
      → stored_cursor (target_key t) ds ≡ stored_cursor (target_key t) j.deliveries
      → Heard
          (hooks.accepts t)
          (from j.floor (target_key t) j.deliveries)
          (from j.floor (target_key t) (turn hooks limit j t ds))
          j.rows
  turn-Heard j t ds u q =
      let k = target_key t in
      let acc = hooks.accepts t in
      let start = from j.floor k j.deliveries in
      let same : from j.floor k ds ≡ start = ap (or_else j.floor) q in
      elim (turn-Posted j t ds) [
        | inl e ↦
            subst (λ c. Heard acc start c j.rows) (sym (ap (from j.floor k) e ∙ same))
              (stays-Heard acc start j.rows)
        | inr e ↦
            subst (λ c. Heard acc start c j.rows) (sym (ap (from j.floor k) e))
              (subst
                (λ c.
                  Heard acc c
                    (from j.floor k
                      (post_events acc k (map journal_event (rows_above c limit j.rows)) ds))
                    j.rows)
                same (post_events-Heard acc j.floor k limit j.rows ds u))
      ]

  -- No other target has the key.
  abbrev Apart : Text → List WebhookTarget → Type 0
  Apart k ts = All (λ x. text_eq x k ≡ false) (map target_key ts)

  turns-other :
      (j : Journal) (k : Text) (ts : List WebhookTarget) (ds : List (Text × ℕ))
      → Apart k ts
      → stored_cursor k (turns hooks limit j ts ds) ≡ stored_cursor k ds
  unfolding turns
  turns-other j k [] ds a = refl
  turns-other j k (t ∷ ts) ds (x, a) =
      turns-other j k ts (turn hooks limit j t ds) a ∙ turn-other j t k ds x

  pub turns-Heard :
      (j : Journal) (t : WebhookTarget) (ts : List WebhookTarget) (ds : List (Text × ℕ))
      → Ascending j.rows
      → Distinct (map target_key ts)
      → Has t ts
      → stored_cursor (target_key t) ds ≡ stored_cursor (target_key t) j.deliveries
      → Heard
          (hooks.accepts t)
          (from j.floor (target_key t) j.deliveries)
          (from j.floor (target_key t) (turns hooks limit j ts ds))
          j.rows
  unfolding turns
  turns-Heard j t [] ds u d m q = elim m [ ]
  turns-Heard j t (t' ∷ ts) ds u (x, d) (inl e) q =
      let k = target_key t in
      let apart : Apart k ts =
        subst (λ y. Apart (target_key y) ts) (sym e)
          (All-flip (target_key t') (map target_key ts) x) in
      subst (λ c. Heard (hooks.accepts t) (from j.floor k j.deliveries) (or_else j.floor c) j.rows)
        (sym (
          ap (λ y. stored_cursor k (turns hooks limit j ts (turn hooks limit j y ds))) (sym e)
          ∙ turns-other j k ts (turn hooks limit j t ds) apart))
        (turn-Heard j t ds u q)
  turns-Heard j t (t' ∷ ts) ds u (x, d) (inr m) q =
      let apart : text_eq (target_key t') (target_key t) ≡ false =
        All-Has (λ k. text_eq (target_key t') k ≡ false) (target_key t) (map target_key ts) x
          (Has-map target_key t ts m) in
      turns-Heard j t ts (turn hooks limit j t' ds) u d m
        (turn-other j t' (target_key t) ds apart ∙ q)

  -- Under feed 1 the later targets leave the others' cursors alone, and the rows stay.
  deliver_v1-other :
      (ts : List WebhookTarget) (j : Journal) (k : Text)
      → Apart k ts
      → stored_cursor k (deliver_v1 hooks limit ts j).0.deliveries ≡ stored_cursor k j.deliveries
  unfolding deliver_v1
  deliver_v1-other [] j k a = refl
  deliver_v1-other (t ∷ ts) j k (x, a) =
      elim (Result-cases (read_page j (from 0 (target_key t) j.deliveries) limit)) [
        | inr (f, q) ↦ rw (deliver_v1, q) refl
        | inl (page, q) ↦
            rw (deliver_v1, q)
              (deliver_v1-other ts
                  (with_deliveries
                    (post_events (hooks.accepts t) (target_key t) page.events j.deliveries) j)
                  k a
                ∙ post_events-other (hooks.accepts t) k (target_key t) page.events j.deliveries x)
      ]

  abbrev fed : Journal → WebhookTarget → Page → Journal
  fed j t page =
      with_deliveries (post_events (hooks.accepts t) (target_key t) page.events j.deliveries) j

  deliver_v1-ok :
      (ts : List WebhookTarget) (j : Journal) (t : WebhookTarget) (page : Page)
      → read_page j (from 0 (target_key t) j.deliveries) limit ≡ ok page
      → deliver_v1 hooks limit (t ∷ ts) j ≡ deliver_v1 hooks limit ts (fed j t page)
  unfolding deliver_v1
  deliver_v1-ok ts j t page q = rw (deliver_v1, q) refl

  deliver_v1-err :
      (ts : List WebhookTarget) (j : Journal) (t : WebhookTarget) (f : EventFault)
      → read_page j (from 0 (target_key t) j.deliveries) limit ≡ err f
      → deliver_v1 hooks limit (t ∷ ts) j ≡ (j, err f)
  unfolding deliver_v1
  deliver_v1-err ts j t f q = rw (deliver_v1, q) refl

  fed-Heard :
      (j : Journal) (t : WebhookTarget) (page : Page)
      → Ascending j.rows
      → read_page j (from 0 (target_key t) j.deliveries) limit ≡ ok page
      → Heard
          (hooks.accepts t)
          (from 0 (target_key t) j.deliveries)
          (from 0 (target_key t) (fed j t page).deliveries)
          j.rows
  fed-Heard j t page u q =
      let k = target_key t in
      let acc = hooks.accepts t in
      subst
        (λ es.
          Heard acc (from 0 k j.deliveries) (from 0 k (post_events acc k es j.deliveries)) j.rows)
        (sym (read_page-events j (from 0 k j.deliveries) limit page q))
        (post_events-Heard acc 0 k limit j.rows j.deliveries u)

  pub deliver_v1-Heard :
      (ts : List WebhookTarget) (j : Journal) (t : WebhookTarget)
      → Ascending j.rows
      → Distinct (map target_key ts)
      → Has t ts
      → Heard
          (hooks.accepts t)
          (from 0 (target_key t) j.deliveries)
          (from 0 (target_key t) (deliver_v1 hooks limit ts j).0.deliveries)
          j.rows
  deliver_v1-Heard [] j t u d m = elim m [ ]
  deliver_v1-Heard (t' ∷ ts) j t u (x, d) m =
      let k = target_key t in
      let acc = hooks.accepts t in
      let start = from 0 k j.deliveries in
      let Ended : List (Text × ℕ) → Type 0 = (λ ds. Heard acc start (from 0 k ds) j.rows) in
      elim (Result-cases (read_page j (from 0 (target_key t') j.deliveries) limit)) [
        | inr (f, q) ↦
            subst Ended
              (sym (
                ap (λ (r : Journal × Result EventFault (Unit {0})). r.0.deliveries)
                  (deliver_v1-err ts j t' f q)))
              (stays-Heard acc start j.rows)
        | inl (page, q) ↦
            let went = sym (
              ap (λ (r : Journal × Result EventFault (Unit {0})). r.0.deliveries)
                (deliver_v1-ok ts j t' page q)) in
            elim m [
              | inl e ↦
                  let apart : Apart k ts =
                    subst (λ y. Apart (target_key y) ts) (sym e)
                      (All-flip (target_key t') (map target_key ts) x) in
                  let mine : read_page j start limit ≡ ok page =
                    subst (λ y. read_page j (from 0 (target_key y) j.deliveries) limit ≡ ok page)
                      (sym e) q in
                  subst Ended went (
                    subst (λ c. Heard acc start (or_else 0 c) j.rows)
                      (sym (deliver_v1-other ts (fed j t' page) k apart))
                      (subst (λ y. Ended (fed j y page).deliveries) e (fed-Heard j t page u mine)))
              | inr n ↦
                  let apart : text_eq (target_key t') k ≡ false =
                    All-Has (λ y. text_eq (target_key t') y ≡ false) k (map target_key ts) x
                      (Has-map target_key t ts n) in
                  subst Ended went (
                    subst
                      (λ c.
                        Heard acc (or_else 0 c)
                          (from 0 k (deliver_v1 hooks limit ts (fed j t' page)).0.deliveries)
                          j.rows)
                      (post_events-other (hooks.accepts t') k (target_key t') page.events
                        j.deliveries apart)
                      (deliver_v1-Heard ts (fed j t' page) t u d n))
            ]
      ]
