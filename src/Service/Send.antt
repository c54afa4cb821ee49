-- ===== src/Service/Send.antt =====
-- Sending a transaction (SendTx of internal/service/tx_send.go): its critical section, from the
-- reservation to the recorded broadcast. What buildAndSign computes, the attempts of the broadcast and
-- the outcomes of the writes are arguments.
pub mod Settle
use daxib.Prelude.{
  ℕ, Bool, true, false, ◌&&◌, ◌||◌, not, List, [], ◌∷◌, ◌++◌, map, Option, none, some,
  if◌then◌else◌, Text, codes, is_empty, text_eq,
}
use daxib.Prelude.Outcome
use daxib.Journal.{Record, Status, signed, broadcast, failed, unnamed, StateMutation, is_terminal}
use daxib.Journal
use daxib.Journal.Store.{append, set_state, by_id, unresolved, JournalError}
use daxib.Journal.Store
use daxib.Policy.Evaluate.{Check}
use daxib.Policy.Engine.{
  Engine, Clock, Reservation, no_reservation, Error, Result, ok, err, reserve,
}
use daxib.Policy.Engine
use daxib.Policy.Engine.Settlement.{commit, release}
use daxib.Policy.Seal.{Codec}
use daxib.Service.Broadcast.{
  Attempt, BroadcastOutcome, accepted, transport_exhausted, rejected, Broadcasted,
  broadcast_classified, RejectCode,
}
use daxib.Service.World.{World, Service}

-- A mutation of the status, with a txid or an error.
abbrev pub to_broadcast : Text → StateMutation
to_broadcast txid = record {
  status = broadcast;
  txid = some txid;
  confirmations = none;
  block_height = none;
  error = none;
  replaced_by = none;
}

abbrev pub to_failed : Text → StateMutation
to_failed reason = record {
  status = failed;
  txid = none;
  confirmations = none;
  block_height = none;
  error = some reason;
  replaced_by = none;
}

-- What buildAndSign computes: an error before its call of the reserve callback; the artifact for the
-- callback, and then an error, or the record of the signed transaction (journalRecord).
pub data Build : Type 0 where
  unbuilt : Build
  built : Check → Option Record → Build

-- The inputs and outcomes during one send, by the calls that they belong to.
pub record Script : Type 0 where
  pub build : Build
  pub clock : Clock
  pub reservation_id : Text
  pub reserve_io : Engine.Io
  pub append_io : Store.Io
  pub attempts : List Attempt
  pub commit_now : ℕ
  pub commit_io : Engine.Io
  pub state_io : Store.Io
  pub reject_reason : Text
  pub abort_read : Store.Io
  pub abort_io : Store.Io
  pub release_now : ℕ
  pub release_io : Engine.Io

-- What SendTx returns.
pub data Sent : Type 0 where
  build_failed : Sent
  reserve_failed : Error → Sent
  append_failed : JournalError → Sent
  sent : (id txid : Text) → Sent
  sent_unrecorded : (id txid : Text) → Sent
  left_signed : (id : Text) → Sent
  refused : Option RejectCode → Sent
  refused_unrecorded : JournalError → Sent

-- resv.Release, whose error is dropped.
abbrev pub released : Script → Reservation → World → World
released s resv w = record w { engine = (release w.engine resv s.release_now s.release_io).0 }

-- abortSigned
unfoldable pub abort_signed : Service → Script → Text → World → World
abort_signed v s id w = elim (by_id w.journal s.abort_read v.net id) [
  | Outcome.err e ↦ w
  | Outcome.ok rec ↦ elim rec.status [
    | signed ↦ record w {
      journal =
          (set_state w.journal s.abort_io v.net id
            (to_failed (codes "send aborted before broadcast was recorded"))).0;
    }
    | _ ↦ w
  ]
]

-- The deferred function of SendTx.
unfoldable pub deferred : Service → Script → Reservation → Text → Bool → Bool → World → World
deferred v s resv id settled committed w =
    let w1 = if settled then w else abort_signed v s id w in
    if committed then w1 else released s resv w1

abbrev pub recorded : Service → Script → Text → StateMutation → World → World
recorded v s id mut w = record w { journal = (set_state w.journal s.state_io v.net id mut).0 }

-- The three outcomes of the broadcast, for the record that Append wrote.
unfoldable pub settle : Service → Script → Reservation → Record → Broadcasted → World → World × Sent
settle v s resv rec b w = elim b.outcome [
  | accepted ↦
      let t = if is_empty b.txid then rec.txid else b.txid in
      let w1 = record w { engine = (commit w.engine resv t s.commit_now s.commit_io).0 } in
      let w2 = recorded v s rec.id (to_broadcast t) w1 in
      elim (set_state w.journal s.state_io v.net rec.id (to_broadcast t)).1 [
        | Outcome.err e ↦ (deferred v s resv rec.id true true w2, sent_unrecorded rec.id t)
        | Outcome.ok r ↦ (deferred v s resv rec.id true true w2, sent rec.id t)
      ]
  | transport_exhausted ↦ (deferred v s resv rec.id true true w, left_signed rec.id)
  | rejected ↦
      let w1 = recorded v s rec.id (to_failed s.reject_reason) w in
      elim (set_state w.journal s.state_io v.net rec.id (to_failed s.reject_reason)).1 [
        | Outcome.err e ↦ (deferred v s resv rec.id false false w1, refused_unrecorded e)
        | Outcome.ok r ↦ (deferred v s resv rec.id true false w1, refused b.code)
      ]
]

-- From the signature on: Append, then the broadcast.
unfoldable pub journal_and_send : Service → Script → Reservation → Record → World → World × Sent
journal_and_send v s resv rec w =
    let (j, r) = append w.journal s.append_io (record rec { reservation_id = resv.id }) in
    let w1 = record w { journal = j } in
    elim r [
      | Outcome.err e ↦ (released s resv w1, append_failed e)
      | Outcome.ok rec' ↦ settle v s resv rec' (broadcast_classified s.attempts) w1
    ]

-- SendTx from the reservation on.
unfoldable pub send_tx : Codec → Service → Script → World → World × Sent
send_tx k v s w = elim s.build [
  | unbuilt ↦ (released s no_reservation w, build_failed)
  | built req artifact ↦
      let (e, r) = reserve k w.engine req s.clock s.reservation_id s.reserve_io in
      let w1 = record w { engine = e } in
      elim r [
        | err x ↦ (released s no_reservation w1, reserve_failed x)
        | ok resv ↦ elim artifact [
          | none ↦ (released s resv w1, build_failed)
          | some rec ↦ journal_and_send v s resv rec w1
        ]
      ]
]
