-- ===== src/Service/Abandon.antt =====
-- Abandoning a signed transaction (AbandonTx of internal/service/tx_abandon.go), from the send-lock on.
pub mod Safe
use daxib.Prelude.{
  ℕ, Bool, true, false, ◌&&◌, not, [], Option, none, some, if◌then◌else◌, Text, codes, is_empty,
  text_eq,
}
use daxib.Prelude.Outcome
use daxib.Journal.{Record, Status, signed}
use daxib.Journal.Store.{Store, JournalError, set_state, by_txid}
use daxib.Journal.Store
use daxib.Policy.Counter.{EntryState, committed, is_committed}
use daxib.Policy.Engine.{Engine, Error, Result, ok, err}
use daxib.Policy.Engine
use daxib.Policy.Engine.Settlement.{reservation_state}
use daxib.Policy.Engine.Orphans.{release_orphan}
use daxib.Service.World.{World, Service}
use daxib.Service.Send.{to_failed}
use daxib.Service.Restart.{is_signed}

pub data Abandoned : Type 0 where
  journal_failed : JournalError → Abandoned
  wrong_wallet already_broadcast reservation_committed engine_failed : Abandoned
  state_failed : Error → Abandoned
  abandoned : Record → (reservation_released : Bool) → Abandoned

-- The outcomes during one call; `opens` and `opens_again` say whether openPolicyEngine succeeds.
pub record AbandonIo : Type 0 where
  pub read : Store.Io
  pub opens : Bool
  pub state : Engine.Io
  pub write : Store.Io
  pub opens_again : Bool
  pub now : ℕ
  pub release : Engine.Io

abbrev pub reason : Text
reason = codes "operator abandoned a never-broadcast signed tx (tx abandon)"

abbrev succeeds {ℓ} : {A : Type ℓ} → Result A → Bool
succeeds (ok a) = true
succeeds (err x) = false

-- From the writing of the record on.
unfoldable pub terminalize : Service → AbandonIo → Record → World → World × Abandoned
terminalize v io rec w =
    let (j, r) = set_state w.journal io.write v.net rec.id (to_failed reason) in
    let w1 = record w { journal = j } in
    elim r [
      | Outcome.err e ↦ (w1, journal_failed e)
      | Outcome.ok rec' ↦
          if not (is_empty rec.reservation_id) && io.opens_again
          then (let (e, d) = release_orphan w1.engine v.net rec.reservation_id io.now io.release in
              (record w1 { engine = e }, abandoned rec (succeeds d)))
          else (w1, abandoned rec false)
    ]

-- The refusal of a committed reservation, and then the writing.
unfoldable pub check_reservation : Service → AbandonIo → Record → World → World × Abandoned
check_reservation v io rec w =
    if is_empty rec.reservation_id
    then terminalize v io rec w
    else if not io.opens
    then (w, engine_failed)
    else elim (reservation_state w.engine v.net rec.reservation_id io.state).1 [
      | err x ↦ (w, state_failed x)
      | ok none ↦ terminalize v io rec w
      | ok (some st) ↦
          if is_committed st then (w, reservation_committed) else terminalize v io rec w
    ]

-- AbandonTx
unfoldable pub abandon_tx : Service → AbandonIo → Text → World → World × Abandoned
abandon_tx v io txid w = elim (by_txid w.journal io.read v.net txid) [
  | Outcome.err e ↦ (w, journal_failed e)
  | Outcome.ok rec ↦
      if not (text_eq rec.wallet v.wallet)
      then (w, wrong_wallet)
      else if is_signed rec.status
      then check_reservation v io rec w
      else (w, already_broadcast)
]
