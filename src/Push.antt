-- ===== src/Push.antt =====
-- src/push.rs: the door for a pushed header, over the store, the writer lease and the announces. The
-- couriers' answers are a parameter, and the runs are those in which the lease's term outlasts the
-- write, so that the fence lets every statement through.
pub mod Walk
pub mod Door
use chaintracks_cloudflare.Prelude.{
  ℕ, zero, suc, Option, none, some, Text, text_eq, zero_hash, Bool, true, false, ◌||◌, List, [],
  ◌∷◌, length, ltb, if◌then◌else◌, Result, ok, err,
}
use chaintracks_cloudflare.Bsv.{Bsv}
use chaintracks_cloudflare.Types.{BlockHeader}
use chaintracks_cloudflare.Consensus.{check_pow}
use chaintracks_cloudflare.Consensus.Params.{ChainParams}
use chaintracks_cloudflare.Couriers.{CourierError}
use chaintracks_cloudflare.Outcomes.{
  StoreFault, walk_too_deep, parent_missing, IngestError, Outcome, known, busy, Announced,
}
use chaintracks_cloudflare.Lease.{LeaseRow, Lease, lease_s, take_lease, release_lease}
use chaintracks_cloudflare.Store.Table.{Db, find_header_for_hash, find_chain_tip}
use chaintracks_cloudflare.Store.Rules.{refused}
use chaintracks_cloudflare.Store.Served.{all_rows, served_ceiling, served_tip}
use chaintracks_cloudflare.Store.Ingest.{IngestOutcome, ingest_pushed}
use chaintracks_cloudflare.Announce.Row.{AnnounceState}
use chaintracks_cloudflare.Announce.Notify.{Hooks, notify_tip}

-- `ChainSource::header_by_hash`.
abbrev pub Source : Type 0
Source = Text → Result CourierError BlockHeader

abbrev pub parent_walk_limit : ℕ
parent_walk_limit = 36

abbrev pub is_stored : Db → Text → Bool
is_stored db hash = elim (find_header_for_hash db hash) [ none ↦ false | some h ↦ true ]

-- The walk from a header to a stored ancestor; `left` of its fetches remain. The run is oldest
-- first.
unfoldable pub walk :
    Source
    → Db
    → ℕ
    → BlockHeader
    → List BlockHeader
    → Result StoreFault (BlockHeader × List BlockHeader)
walk source db zero first rest =
    if text_eq first.previous_hash zero_hash || is_stored db first.previous_hash
    then ok (first, rest)
    else err (walk_too_deep first.previous_hash)
walk source db (suc left) first rest =
    if text_eq first.previous_hash zero_hash || is_stored db first.previous_hash
    then ok (first, rest)
    else (elim (source first.previous_hash) [
      | err e ↦ err (parent_missing first.previous_hash e)
      | ok parent ↦ walk source db left parent (first ∷ rest)
    ])

-- What the door works on: the store, the lease, the announces (whose pending fork is the store's),
-- and the last fault recorded.
pub record Service : Type 0 where
  pub db : Db
  pub lease : LeaseRow
  pub announced : AnnounceState
  pub last_error : Option StoreFault

abbrev pub answer : Outcome → ℕ → Db → Announced
answer outcome walked db = record {
  outcome = outcome;
  walked = walked;
  tip_height = elim (find_chain_tip db) [ none ↦ 0 | some t ↦ t.height ];
  tip_hash = elim (find_chain_tip db) [ none ↦ [] | some t ↦ t.hash ];
}

-- `refuse`: the fault is recorded and answered.
abbrev pub refuse : StoreFault → Service → Service × Result IngestError Announced
refuse f s = (record s { last_error = some f }, err (IngestError.refused f))

unfoldable pub ingest_run :
    ⦃b : Bsv⦄
    → ChainParams
    → BlockHeader
    → List BlockHeader
    → Service
    → Service × Result IngestError Announced
ingest_run params first rest s =
    let out = ingest_pushed params (first ∷ rest) s.db in
    let s' = record s { db = out.0 } in
    elim out.1 [
      | err (IngestError.refused f) ↦ refuse f s'
      | err (IngestError.store f) ↦ (s', err (IngestError.store f))
      | ok o ↦ (s', ok (answer o.outcome (length rest) out.0))
    ]

unfoldable pub ingest_held :
    ⦃b : Bsv⦄
    → ChainParams
    → Source
    → BlockHeader
    → Service
    → Service × Result IngestError Announced
unfolding walk ingest_run
ingest_held params source header s = elim (walk source s.db parent_walk_limit header []) [
  | err f ↦ refuse f s
  | ok run ↦ ingest_run params run.0 run.1 s
]

-- `note_seen`: never lowered.
unfoldable pub note_seen : ℕ → Db → Db
note_seen height db =
    let lower : Bool = (elim db.sync.last_seen_height [ none ↦ true | some s ↦ ltb s height ]) in
    if lower then record db { sync = record db.sync { last_seen_height = some height } } else db

-- `notify_tip` on the service: the tip known, or the store's.
unfoldable pub notify : Hooks → ℕ → Option BlockHeader → Service → Service
notify hooks now tip s =
    let known_tip : Option BlockHeader = (elim tip [
      | none ↦ find_chain_tip s.db
      | some t ↦ some t
    ]) in
    let a =
      notify_tip hooks now known_tip
        (record s.announced { pending_reorg_from = s.db.sync.pending_reorg_from }) in
    record s {
      announced = a;
      db = record s.db { sync = record s.db.sync { pending_reorg_from = a.pending_reorg_from } };
    }

-- `announce_tip`: under a ceiling, the tip that is served.
unfoldable pub announce_tip : Hooks → ℕ → Option BlockHeader → Service → Service
unfolding notify
announce_tip hooks now tip s = elim (served_ceiling s.db) [
  | all_rows ↦ notify hooks now tip s
  | _ ↦ elim (served_tip s.db) [ none ↦ s | some t ↦ notify hooks now (some t) s ]
]

-- What comes after the lease is given back.
unfoldable pub after_write :
    Hooks → ℕ → ℕ → Service × Result IngestError Announced → Service × Result IngestError Announced
unfolding note_seen announce_tip
after_write hooks now height (s, err e) = (s, err e)
after_write hooks now height (s, ok a) =
    (announce_tip hooks now none (record s { db = note_seen height s.db }), ok a)

-- The write under a lease that was had or could not be asked for, and what comes after it.
unfoldable pub write_under :
    ⦃b : Bsv⦄
    → ChainParams
    → Source
    → Hooks
    → ℕ
    → BlockHeader
    → Lease
    → Service
    → Service × Result IngestError Announced
unfolding ingest_held after_write
write_under params source hooks now header lease s =
    let out = ingest_held params source header s in
    after_write hooks now header.height
      (record out.0 { lease = release_lease lease out.0.lease }, out.1)

abbrev pub is_served : Db → Text → Bool
is_served db hash = elim (find_header_for_hash db hash) [ none ↦ false | some h ↦ h.is_active ]

-- The owner's token, when there is one, and whether the lease's statement can run.
unfoldable pub ingest_announced :
    ⦃b : Bsv⦄
    → ChainParams
    → Source
    → Hooks
    → Option Text
    → Bool
    → ℕ
    → BlockHeader
    → Service
    → Service × Result IngestError Announced
unfolding write_under
ingest_announced params source hooks token readable now header s = elim (check_pow header params) [
  | err f ↦ refuse (refused header f) s
  | ok _ ↦
      if is_served s.db header.hash
      then (s, ok (answer known 0 s.db))
      else (let taken = take_lease token readable lease_s now s.lease in
          let s' = record s { lease = taken.0 } in
          elim taken.1 [
            | Lease.busy ↦ (s', ok (answer busy 0 s.db))
            | l ↦ write_under params source hooks now header l s'
          ])
]
