-- ===== src/Service/Restart.antt =====
-- What a start of the program and the next send do about a send that was interrupted
-- (reconcilePolicyOrphans and journalByReservation of internal/service/policy.go; reconcileWallet and
-- reservedOutpoints of internal/service/tx_send.go).
pub mod Orphans
pub mod Reserved
use daxib.Prelude.{
  ℕ, Bool, true, false, ◌&&◌, ◌||◌, not, List, [], ◌∷◌, ◌++◌, map, Option, none, some,
  if◌then◌else◌, Text, codes, is_empty, text_eq,
}
use daxib.Prelude.Int.{pos}
use daxib.Prelude.Decimal.{to_string}
use daxib.Prelude.Outcome.{Outcome}
use daxib.Prelude.Outcome
use daxib.Journal.{
  Record, Status, unnamed, signed, broadcast, confirmed, failed, replaced, JInput, is_terminal,
}
use daxib.Journal.Store.{Store, JournalError, set_state, unresolved, list_records}
use daxib.Journal.Store
use daxib.Policy.Engine.{Engine, Result, ok, err}
use daxib.Policy.Engine
use daxib.Policy.Engine.Orphans.{
  OrphanReservation, SpendDir, orphans, commit_orphan, release_orphan,
}
use daxib.Service.Broadcast.{
  Attempt, BroadcastOutcome, accepted, transport_exhausted, rejected, broadcast_classified,
}
use daxib.Service.World.{World, Service}
use daxib.Service.Send.{to_broadcast, to_failed}

-- The loop of journalByReservation.
unfoldable pub with_reservation : Text → List Record → Option Record
with_reservation id [] = none
with_reservation id (r ∷ rs) =
    let rest = with_reservation id rs in if text_eq r.reservation_id id then some r else rest

-- journalByReservation
unfoldable pub journal_by_reservation :
    Store → Store.Io → Text → Text → Outcome JournalError (Option Record)
journal_by_reservation j io net id = elim (list_records j io net []) [
  | Outcome.err e ↦ Outcome.err e
  | Outcome.ok recs ↦ Outcome.ok (with_reservation id recs)
]

-- The outcomes for one orphan.
pub record OrphanIo : Type 0 where
  pub read : Store.Io
  pub now : ℕ
  pub settle : Engine.Io

abbrev release_it : World → OrphanReservation → OrphanIo → World
release_it w o io = record w {
  engine = (release_orphan w.engine o.network o.id io.now io.settle).0;
}

abbrev commit_it : World → OrphanReservation → OrphanIo → Text → World
commit_it w o io txid = record w {
  engine = (commit_orphan w.engine o.network o.id txid io.now io.settle).0;
}

-- One pass of the loop of reconcilePolicyOrphans.
unfoldable pub reconcile_orphan : World → OrphanReservation → OrphanIo → World
reconcile_orphan w o io = elim (journal_by_reservation w.journal io.read o.network o.id) [
  | Outcome.err e ↦ w
  | Outcome.ok found ↦ elim found [
    | none ↦ release_it w o io
    | some rec ↦ elim rec.status [
      | unnamed ↦ w
      | signed ↦ w
      | broadcast ↦ commit_it w o io rec.txid
      | confirmed ↦ commit_it w o io rec.txid
      | replaced ↦ commit_it w o io rec.txid
      | failed ↦ release_it w o io
    ]
  ]
]

unfoldable pub reconcile_all :
    World → List OrphanReservation → (OrphanReservation → OrphanIo) → World
reconcile_all w [] io = w
reconcile_all w (o ∷ os) io = reconcile_all (reconcile_orphan w o (io o)) os io

-- reconcilePolicyOrphans, behind the opening of the engine.
unfoldable pub reconcile_policy_orphans : World → SpendDir → (OrphanReservation → OrphanIo) → World
reconcile_policy_orphans w dir io = elim (orphans w.engine dir) [
  | err x ↦ w
  | ok os ↦ reconcile_all w os io
]

-- The outpoint "txid:vout" of an input.
abbrev pub outpoint : JInput → Text
outpoint i = i.txid ++ b':' ∷ to_string (pos i.vout)

unfoldable pub in_flight : Text → List Record → List Text
in_flight wallet [] = []
in_flight wallet (r ∷ rs) =
    let rest = in_flight wallet rs in
    if not (text_eq r.wallet wallet) || is_terminal r.status
    then rest
    else map outpoint r.inputs ++ rest

-- reservedOutpoints
unfoldable pub reserved_outpoints : Service → Store → Store.Io → List Text
reserved_outpoints v j io = elim (unresolved j io v.net) [
  | Outcome.err e ↦ []
  | Outcome.ok rs ↦ in_flight v.wallet rs
]

-- The attempts and the write for one record; `none` where its hexadecimal text does not decode.
pub record RebroadcastIo : Type 0 where
  pub raw : Option Text
  pub attempts : List Attempt
  pub write : Store.Io

-- The part of one pass of the loop of reconcileWallet behind its guards.
unfoldable pub rebroadcast : Service → Store → Record → RebroadcastIo → Store
rebroadcast v j rec io =
    let b = broadcast_classified io.attempts in
    elim b.outcome [
      | accepted ↦
          (set_state j io.write v.net rec.id
            (to_broadcast (if is_empty b.txid then rec.txid else b.txid))).0
      | rejected ↦
          (set_state j io.write v.net rec.id
            (to_failed (codes "prior signed tx permanently rejected on reconcile"))).0
      | transport_exhausted ↦ j
    ]

abbrev pub is_signed : Status → Bool
is_signed signed = true
is_signed _ = false

unfoldable pub reconcile_record : Service → Store → Record → RebroadcastIo → Store
reconcile_record v j rec io =
    if not (text_eq rec.wallet v.wallet) || (not (is_signed rec.status) || is_empty rec.raw_tx)
    then j
    else elim io.raw [ none ↦ j | some raw ↦ rebroadcast v j rec io ]

unfoldable pub reconcile_records : Service → Store → List Record → (Record → RebroadcastIo) → Store
reconcile_records v j [] io = j
reconcile_records v j (r ∷ rs) io = reconcile_records v (reconcile_record v j r (io r)) rs io

-- reconcileWallet
unfoldable pub reconcile_wallet : Service → Store → Store.Io → (Record → RebroadcastIo) → Store
reconcile_wallet v j read io = elim (unresolved j read v.net) [
  | Outcome.err e ↦ j
  | Outcome.ok rs ↦ reconcile_records v j rs io
]
