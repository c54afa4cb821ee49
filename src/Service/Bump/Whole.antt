-- ===== src/Service/Bump/Whole.antt =====
-- A replacement as a whole (replaceTx of internal/service/tx_replace.go), from the reservation and the
-- signature on.
use daxib.Prelude.{
  ◌+◌, ◌^◌, ◌<◌, ◌≡◌, ◌≢◌, inl, refl, ap, ◌∙◌, some, false, Text, arith, text_eq_refl,
}
use daxib.Prelude.Int.{ℤ}
use daxib.Prelude.Outcome.{Outcome}
use daxib.Journal.{max_seq, Record, is_terminal}
use daxib.Journal.Store.{JournalError, append}
use daxib.Journal.Write.{view, records, append-view}
use daxib.Policy.Engine.{Engine, Result, reserve, Reservation, ok}
use daxib.Policy.Engine.Settlement.{release}
use daxib.Policy.Seal.{Codec}
use daxib.Service.Broadcast.{broadcast_classified}
use daxib.Service.World.{World, Service}
use daxib.Service.Send.{released}
use daxib.Service.Send.Settle.{append-fields}
use daxib.Service.Restart.{reconcile_wallet, reserved_outpoints}
use daxib.Service.Artifact.{journal_record}
use daxib.Service.Funding.{Btc}
use daxib.Service.Signing.{Signed, sign_tx}
use daxib.Service.Replace.{ReplaceMode, Replacement, build_replacement}
use daxib.Service.Bump.{
  ReplaceScript, check_original, refetched, settle_replacement, replacement_artifact,
  journal_and_replace, reserve_and_sign, replace_under_lock, replace_tx, append_failed,
}
use daxib.Service.Bump.Linked.{
  Linked, settle_replacement-Linked, Answered, settle_replacement-Answered,
}

module _ (v : Service) (s : ReplaceScript) (resv : Reservation) (orig rec : Record)
    (w : World) where
  abbrev linked_record : Record
  linked_record = record rec { reservation_id = resv.id; replaces_id = orig.id }

  journal_and_replace-err :
      (x : JournalError)
      → (append w.journal s.send.append_io linked_record).1 ≡ Outcome.err x
      → journal_and_replace v s resv orig rec w ≡ (
        released s.send resv
            (record w { journal = (append w.journal s.send.append_io linked_record).0 }),
        append_failed x,
      )
  unfolding journal_and_replace
  journal_and_replace-err x h = ground (arith, h)

  journal_and_replace-ok :
      (rec' : Record)
      → (append w.journal s.send.append_io linked_record).1 ≡ Outcome.ok rec'
      → journal_and_replace v s resv orig rec w
        ≡ settle_replacement v s resv orig rec'
            (broadcast_classified s.send.attempts)
            (record w { journal = (append w.journal s.send.append_io linked_record).0 })
  unfolding journal_and_replace
  journal_and_replace-ok rec' h = ground (arith, h)

-- The world behind the reconciliation, and the original under the lock.
abbrev pub reconciled : Service → ReplaceScript → World → World
reconciled v s w = record w { journal = reconcile_wallet v w.journal s.unresolved_io s.rebroadcast }

abbrev pub under_lock : Service → ReplaceScript → Record → World → Record
under_lock v s found w = refetched v s found (reconciled v s w)

abbrev pub reservation_of :
    Codec → ReplaceScript → Replacement → World → Engine × Result Reservation
reservation_of k s r w =
    reserve k w.engine r.check s.send.clock s.send.reservation_id s.send.reserve_io

-- The steps of a replacement up to its signature.
pub record Prepared (k : Codec) (v : Service) (b : Btc) (s : ReplaceScript) (mode : ReplaceMode)
    (txid : Text) (w : World) : Type 0 where
  pub found : Record
  pub rate : ℤ
  pub r : Replacement
  pub resv : Reservation
  pub g : Text × Signed
  pub checked : check_original v s txid w ≡ Outcome.ok (found, rate)
  pub live : is_terminal (under_lock v s found w).status ≡ false
  pub unconfirmed : s.confirmed_under_lock ≡ false
  pub built :
      build_replacement v b s.answers
        (under_lock v s found w)
        mode
        rate
        (reserved_outpoints v (reconciled v s w).journal s.reserved_io)
      ≡ Outcome.ok r
  pub reserved : (reservation_of k s r (reconciled v s w)).1 ≡ ok resv
  pub signed_tx : sign_tx s.signer r.tx r.specs r.sizes.vsize ≡ some g

module _ (k : Codec) (v : Service) (b : Btc) (s : ReplaceScript) (mode : ReplaceMode) (txid : Text)
    (w : World) (p : Prepared k v b s mode txid w) where
  abbrev pub original : Record
  original = under_lock v s p.found w

  -- The world with the reservation, and the record of the replacement.
  abbrev pub reserved_world : World
  reserved_world = record (reconciled v s w) {
    engine = (reservation_of k s p.r (reconciled v s w)).0;
  }

  abbrev pub plain_record : Record
  plain_record = journal_record v s.signer.hex s.source (replacement_artifact p.r p.rate p.g) p.rate

  abbrev pub new_record : Record
  new_record = record plain_record { reservation_id = p.resv.id; replaces_id = original.id }

  to_lock : replace_tx k v b s mode txid w ≡ replace_under_lock k v b s mode p.found p.rate w
  unfolding replace_tx
  to_lock = rw (p.checked, replace_tx) refl

  to_signature :
      replace_under_lock k v b s mode p.found p.rate w
      ≡ reserve_and_sign k v s original p.rate p.r (reconciled v s w)
  unfolding replace_under_lock
  to_signature = ground (arith, p.live, p.unconfirmed, p.built)

  to_journal :
      reserve_and_sign k v s original p.rate p.r (reconciled v s w)
      ≡ journal_and_replace v s p.resv original plain_record reserved_world
  unfolding reserve_and_sign
  to_journal = rw (p.reserved, p.signed_tx, reserve_and_sign) refl

  replace_tx-journal_and_replace :
      replace_tx k v b s mode txid w
      ≡ journal_and_replace v s p.resv original plain_record reserved_world
  replace_tx-journal_and_replace = to_lock ∙ to_signature ∙ to_journal

-- A replacement that has its reservation and its signature, with a sequence number left in the
-- journal: where Append fails, the reservation is released and its error is returned; where it succeeds,
-- and the new record has another id than the original, the record carries the ids of the reservation and
-- of the original, and, whatever the later reads, locks and writes come to, the journal and the counters
-- end as the outcome of the broadcast says, the result names that outcome, and the original is marked as
-- replaced only behind the recorded broadcast of the replacement.
pub replace_tx-Linked :
    (k : Codec) (v : Service) (b : Btc) (s : ReplaceScript) (mode : ReplaceMode) (txid : Text)
    (w : World) (p : Prepared k v b s mode txid w)
    → let w1 = reserved_world k v b s mode txid w p in
      let orig = original k v b s mode txid w p in
      max_seq (records w1.journal v.net) + 1 < 2 ^ 64
      → let m = append w1.journal s.send.append_io (new_record k v b s mode txid w p) in
        let (w', replaced) = replace_tx k v b s mode txid w in
        ((x : JournalError)
          → m.1 ≡ Outcome.err x
          → (w' ≡ record {
            journal = m.0;
            engine = (release w1.engine p.resv s.send.release_now s.send.release_io).0;
          })
            × (replaced ≡ append_failed x))
        × ((rec' : Record)
            → m.1 ≡ Outcome.ok rec'
            → orig.id ≢ rec'.id
            → (rec'.reservation_id ≡ p.resv.id)
              × (rec'.replaces_id ≡ orig.id)
              × Linked v s p.resv orig.id rec'.id
                  (broadcast_classified s.send.attempts).outcome
                  (record w1 { journal = m.0 })
                  w'
              × Answered rec'.id
                  (broadcast_classified s.send.attempts).code
                  (broadcast_classified s.send.attempts).outcome
                  replaced)
unfolding journal_record
replace_tx-Linked k v b s mode txid w p bound =
    let w1 = reserved_world k v b s mode txid w p in
    let orig = original k v b s mode txid w p in
    let plain = plain_record k v b s mode txid w p in
    let rec = new_record k v b s mode txid w p in
    let go = replace_tx-journal_and_replace k v b s mode txid w p in
    (
      λ x h.
          let failed = go ∙ journal_and_replace-err v s p.resv orig plain w1 x h in
          (ap (λ m. m.0) failed, ap (λ m. m.1) failed),
      λ rec' h new.
          let (q, i, ri) = append-fields w1.journal s.send.append_io rec rec' h in
          let shown = (append-view w1.journal s.send.append_io rec rec' rec'.id bound h).1 in
          let found : view (append w1.journal s.send.append_io rec).0 v.net rec'.id ≡ some rec' =
            shown ∙ rw (text_eq_refl rec'.id) refl in
          (
            i,
            ri,
            rw (go, journal_and_replace-ok v s p.resv orig plain w1 rec' h)
                (settle_replacement-Linked v s p.resv orig rec'
                  (broadcast_classified s.send.attempts)
                  (record w1 { journal = (append w1.journal s.send.append_io rec).0 }) new
                  (rec', found, inl q) (broadcast_classified s.send.attempts).outcome refl),
            rw (go, journal_and_replace-ok v s p.resv orig plain w1 rec' h)
                (settle_replacement-Answered v s p.resv orig rec'
                  (broadcast_classified s.send.attempts)
                  (record w1 { journal = (append w1.journal s.send.append_io rec).0 }) _ refl),
          ),
    )
