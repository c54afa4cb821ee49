-- ===== src/Service/Bump.antt =====
-- The lifecycle of a replacement (replaceTx of internal/service/tx_replace.go): the checks before the
-- send-lock, the same checks again under it, and the journal, the broadcast and the settlement. The
-- answers of the backend, the keystore and the file system are arguments.
pub mod Linked
pub mod Whole
mod Tests
mod Runs
use daxib.Prelude.{
  ℕ, Bool, true, false, ◌||◌, not, List, [], ◌∷◌, Option, none, some, ltb, if◌then◌else◌, Text,
  text_eq, is_empty,
}
use daxib.Prelude.Int.{ℤ, ltb_ℤ}
use daxib.Prelude.Outcome.{Outcome}
use daxib.Prelude.Outcome
use daxib.Journal.{Record, Status, replaced, StateMutation, is_terminal}
use daxib.Journal.Store.{JournalError, append, set_state, by_id, by_txid}
use daxib.Journal.Store
use daxib.Policy.Engine.{
  Engine, Error, Reservation, no_reservation, Result, ok, err, reserve, Clock,
}
use daxib.Policy.Engine.Settlement.{commit}
use daxib.Policy.Seal.{Codec}
use daxib.Service.World.{World, Service}
use daxib.Service.Broadcast.{
  BroadcastOutcome, accepted, transport_exhausted, rejected, Broadcasted, broadcast_classified,
  RejectCode,
}
use daxib.Service.Send.{Script, to_broadcast, to_failed, recorded, released, deferred}
use daxib.Service.Restart.{RebroadcastIo, reconcile_wallet, reserved_outpoints}
use daxib.Service.Artifact.{Artifact, journal_record}
use daxib.Service.Funding.{Btc, Answers}
use daxib.Service.Signing.{Signer, Signed, sign_tx}
use daxib.Service.Replace.{ReplaceMode, ReplaceError, Replacement, build_replacement}
use daxib.Service.FeeRate.{FeeEstimates, FeeRateError, resolve_bump_rate}

-- The mutation that marks the original.
abbrev pub to_replaced : Text → StateMutation
to_replaced id = record {
  status = replaced;
  txid = none;
  confirmations = none;
  block_height = none;
  error = none;
  replaced_by = some id;
}

-- The inputs and outcomes during one replacement, by the calls that they belong to; `send` has those
-- that a send has too. `sequences` are the nSequence fields of the decoded original.
pub record ReplaceScript : Type 0 where
  pub fee_rate : Text
  pub estimates : FeeEstimates
  pub find_io : Store.Io
  pub sequences : Option (List ℕ)
  pub confirmed_before : Bool
  pub unresolved_io : Store.Io
  pub rebroadcast : Record → RebroadcastIo
  pub reserved_io : Store.Io
  pub refetch_io : Store.Io
  pub confirmed_under_lock : Bool
  pub answers : Answers
  pub signer : Signer
  pub source : Text
  pub send : Script
  pub replaced_io : Store.Io

pub data Refusal : Type 0 where
  not_found wrong_wallet resolved no_raw_tx undecodable not_rbf confirmed : Refusal
  bad_fee_rate : FeeRateError → Refusal
  rate_not_higher : (new original : ℤ) → Refusal

-- What replaceTx returns.
pub data Replaced : Type 0 where
  refused : Refusal → Replaced
  unbuilt : ReplaceError → Replaced
  reserve_failed : Error → Replaced
  unsigned : Replaced
  append_failed : JournalError → Replaced
  replacement : (id txid : Text) → Replaced
  unrecorded : (id txid : Text) → Replaced
  left_signed : (id : Text) → Replaced
  rejected_by_network : Option RejectCode → Replaced
  reject_unrecorded : JournalError → Replaced

-- anyInputSignalsRBF
unfoldable pub any_input_signals_rbf : List ℕ → Bool
any_input_signals_rbf [] = false
any_input_signals_rbf (s ∷ ss) = ltb s 4294967294 || any_input_signals_rbf ss

-- Steps 1 to 4: the original and the new rate, or the refusal.
unfoldable pub check_original :
    Service → ReplaceScript → (txid : Text) → World → Outcome Refusal (Record × ℤ)
check_original v s txid w = elim (by_txid w.journal s.find_io v.net txid) [
  | Outcome.err e ↦ Outcome.err not_found
  | Outcome.ok orig ↦
      if not (text_eq orig.wallet v.wallet)
      then Outcome.err wrong_wallet
      else if is_terminal orig.status
      then Outcome.err resolved
      else if is_empty orig.raw_tx
      then Outcome.err no_raw_tx
      else elim s.sequences [
        | none ↦ Outcome.err undecodable
        | some ss ↦
            if not (any_input_signals_rbf ss)
            then Outcome.err not_rbf
            else if s.confirmed_before
            then Outcome.err confirmed
            else elim (resolve_bump_rate s.fee_rate orig.fee_rate s.estimates) [
              | Outcome.err e ↦ Outcome.err (bad_fee_rate e)
              | Outcome.ok rate ↦
                  if not (ltb_ℤ orig.fee_rate rate)
                  then Outcome.err (rate_not_higher rate orig.fee_rate)
                  else Outcome.ok (orig, rate)
            ]
      ]
]

-- The original as it is under the lock, or as it was where it cannot be read again.
unfoldable pub refetched : Service → ReplaceScript → Record → World → Record
refetched v s orig w = elim (by_id w.journal s.refetch_io v.net orig.id) [
  | Outcome.err e ↦ orig
  | Outcome.ok fresh ↦ fresh
]

-- The three outcomes of the broadcast, for the record of the replacement.
unfoldable pub settle_replacement :
    Service
    → ReplaceScript
    → Reservation
    → (orig rec : Record) → Broadcasted
    → World
    → World × Replaced
settle_replacement v s resv orig rec b w = elim b.outcome [
  | accepted ↦
      let t = if is_empty b.txid then rec.txid else b.txid in
      let w1 = record w {
        engine = (commit w.engine resv t s.send.commit_now s.send.commit_io).0;
      } in
      let w2 = recorded v s.send rec.id (to_broadcast t) w1 in
      elim (set_state w.journal s.send.state_io v.net rec.id (to_broadcast t)).1 [
        | Outcome.err e ↦ (deferred v s.send resv rec.id true true w2, unrecorded rec.id t)
        | Outcome.ok r ↦ (
          deferred v s.send resv rec.id true true (record w2 {
            journal = (set_state w2.journal s.replaced_io v.net orig.id (to_replaced rec.id)).0;
          }),
          replacement rec.id t,
        )
      ]
  | transport_exhausted ↦ (deferred v s.send resv rec.id true true w, left_signed rec.id)
  | rejected ↦
      let w1 = recorded v s.send rec.id (to_failed s.send.reject_reason) w in
      elim (set_state w.journal s.send.state_io v.net rec.id (to_failed s.send.reject_reason)).1 [
        | Outcome.err e ↦ (deferred v s.send resv rec.id false false w1, reject_unrecorded e)
        | Outcome.ok r ↦ (deferred v s.send resv rec.id true false w1, rejected_by_network b.code)
      ]
]

abbrev pub replacement_artifact : Replacement → ℤ → Text × Signed → Artifact
replacement_artifact r new_rate (raw, g) = record {
  raw_tx = raw;
  txid = g.txid;
  fee_sat = r.sizes.fee_sat;
  fee_rate = new_rate;
  vsize = r.sizes.vsize;
  inputs = r.inputs;
  in_addr = r.in_addr;
  recipient = r.recipient;
  recip_sat = r.recip_sat;
  change_sat = r.sizes.change_sat;
  change_addr = r.change_addr;
}

-- Step 6: the record of the replacement, linked to the original, and its broadcast.
unfoldable pub journal_and_replace :
    Service → ReplaceScript → Reservation → (orig rec : Record) → World → World × Replaced
journal_and_replace v s resv orig rec w =
    let (j, r) =
      append w.journal s.send.append_io
        (record rec { reservation_id = resv.id; replaces_id = orig.id }) in
    let w1 = record w { journal = j } in
    elim r [
      | Outcome.err e ↦ (released s.send resv w1, append_failed e)
      | Outcome.ok rec' ↦
          settle_replacement v s resv orig rec' (broadcast_classified s.send.attempts) w1
    ]

-- Step 5, from the policy's check on: the reservation and the signature.
unfoldable pub reserve_and_sign :
    Codec
    → Service
    → ReplaceScript
    → Record
    → (new_rate : ℤ) → Replacement
    → World
    → World × Replaced
reserve_and_sign k v s orig new_rate r w =
    let (e, d) = reserve k w.engine r.check s.send.clock s.send.reservation_id s.send.reserve_io in
    let w1 = record w { engine = e } in
    elim d [
      | err x ↦ (released s.send no_reservation w1, reserve_failed x)
      | ok resv ↦ elim (sign_tx s.signer r.tx r.specs r.sizes.vsize) [
        | none ↦ (released s.send resv w1, unsigned)
        | some g ↦
            journal_and_replace v s resv orig
              (journal_record v s.signer.hex s.source (replacement_artifact r new_rate g) new_rate)
              w1
      ]
    ]

-- The critical section.
unfoldable pub replace_under_lock :
    Codec
    → Service
    → Btc
    → ReplaceScript
    → ReplaceMode
    → Record
    → (new_rate : ℤ) → World
    → World × Replaced
replace_under_lock k v b s mode found new_rate w =
    let w1 = record w { journal = reconcile_wallet v w.journal s.unresolved_io s.rebroadcast } in
    let consumed = reserved_outpoints v w1.journal s.reserved_io in
    let orig = refetched v s found w1 in
    if is_terminal orig.status
    then (w1, refused resolved)
    else if s.confirmed_under_lock
    then (w1, refused confirmed)
    else elim (build_replacement v b s.answers orig mode new_rate consumed) [
      | Outcome.err e ↦ (released s.send no_reservation w1, unbuilt e)
      | Outcome.ok r ↦ reserve_and_sign k v s orig new_rate r w1
    ]

-- replaceTx, behind its gates of input and output.
unfoldable pub replace_tx :
    Codec → Service → Btc → ReplaceScript → ReplaceMode → (txid : Text) → World → World × Replaced
replace_tx k v b s mode txid w = elim (check_original v s txid w) [
  | Outcome.err e ↦ (w, refused e)
  | Outcome.ok found ↦ replace_under_lock k v b s mode found.0 found.1 w
]
