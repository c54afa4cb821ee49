-- ===== src/Service/Abandon/Safe.antt =====
-- What AbandonTx can change (internal/service/tx_abandon.go).
use daxib.Prelude.{
  ◌≡◌, ◌≢◌, ◌⊎◌, inl, inr, sym, ◌∙◌, true, Option, some, Text, arith, is_empty, text_eq,
  Option-cases, Bool-cases,
}
use mathlib.Core.Path.{subst}
use daxib.Prelude.Outcome.{Outcome, Outcome-cases}
use daxib.Journal.{Record, signed}
use daxib.Journal.Store.{set_state, by_txid}
use daxib.Policy.Counter.{EntryState, committed, is_committed}
use daxib.Policy.Engine.Cases.{Result-cases}
use daxib.Service.Restart.{is_signed}
use daxib.Policy.Engine.{ok}
use daxib.Policy.Engine.Settlement.{reservation_state}
use daxib.Policy.Engine.Orphans.{release_orphan}
use daxib.Service.World.{World, Service}
use daxib.Service.Send.{to_failed}
use daxib.Service.Abandon.{AbandonIo, reason, terminalize, check_reservation, abandon_tx}

-- The writes of an abandoned record: it is carried to failed, and only where that is written may its
-- reservation be released.
pub record Terminalized (v : Service) (io : AbandonIo) (rec : Record) (w w' : World) : Type 0 where
  pub journal : w'.journal ≡ (set_state w.journal io.write v.net rec.id (to_failed reason)).0
  pub engine :
      (w'.engine ≡ w.engine)
      ⊎ (((r : Record) × ((set_state w.journal io.write v.net rec.id (to_failed reason)).1
              ≡ Outcome.ok r))
          × (w'.engine ≡ (release_orphan w.engine v.net rec.reservation_id io.now io.release).0))

terminalize-Terminalized :
    (v : Service) (io : AbandonIo) (rec : Record) (w : World)
    → Terminalized v io rec w (terminalize v io rec w).0
unfolding terminalize
terminalize-Terminalized v io rec w =
    elim (Outcome-cases (set_state w.journal io.write v.net rec.id (to_failed reason)).1) [
      | inl (x, e) ↦ record { journal = ground arith; engine = inl (ground arith) }
      | inr (r, e) ↦
          let e' = (terminalize v io rec w).0.engine in
          let d : (e' ≡ w.engine)
              ⊎ (e' ≡ (release_orphan w.engine v.net rec.reservation_id io.now io.release).0) =
            ground arith in
          record {
            journal = ground arith;
            engine = elim d [ inl q ↦ inl q | inr q ↦ inr ((r, e), q) ];
          }
    ]

-- A record that may be abandoned: it is the one of the txid, signed, of the wallet, and either it has no
-- reservation or the state of that was read and is not committed.
pub record MayAbandon (v : Service) (io : AbandonIo) (txid : Text) (w : World) (rec : Record)
    : Type 0 where
  pub found : by_txid w.journal io.read v.net txid ≡ Outcome.ok rec
  pub own : text_eq rec.wallet v.wallet ≡ true
  pub is_signed : rec.status ≡ signed
  pub uncommitted :
      (is_empty rec.reservation_id ≡ true)
      ⊎ ((o : Option EntryState) × ((reservation_state w.engine v.net rec.reservation_id io.state).1
            ≡ ok o)
          × (o ≢ some committed))

check_reservation-cases :
    (v : Service) (io : AbandonIo) (rec : Record) (w : World)
    → let w' = (check_reservation v io rec w).0 in
      (w' ≡ w)
      ⊎ ((w' ≡ (terminalize v io rec w).0)
          × ((is_empty rec.reservation_id ≡ true)
              ⊎ ((o : Option EntryState) × ((reservation_state w.engine v.net rec.reservation_id
                      io.state).1
                    ≡ ok o)
                  × (o ≢ some committed))))
unfolding check_reservation
check_reservation-cases v io rec w = elim (Bool-cases (is_empty rec.reservation_id)) [
  | inl e ↦ inr (ground arith, inl e)
  | inr e ↦ elim (Bool-cases io.opens) [
    | inr n ↦ inl (ground arith)
    | inl y ↦ elim (Result-cases (reservation_state w.engine v.net rec.reservation_id io.state).1) [
      | inr (x, q) ↦ inl (ground arith)
      | inl (o, q) ↦
          let w' = (check_reservation v io rec w).0 in
          let d : (w' ≡ w) ⊎ ((w' ≡ (terminalize v io rec w).0) × (o ≢ some committed)) =
            elim (Option-cases o) [
              | inl n ↦ inr (ground arith, λ c. ground arith)
              | inr (st, n) ↦ elim (Bool-cases (is_committed st)) [
                | inl c ↦ inl (ground arith)
                | inr c ↦ inr (ground arith, λ x. ground arith)
              ]
            ] in
          elim d [ inl x ↦ inl x | inr x ↦ inr (x.0, inr (o, q, x.1)) ]
    ]
  ]
]

-- AbandonTx leaves the journal and the counters alone, or it found the signed record of the txid, of its
-- wallet, whose reservation is not committed, and carried that to failed, and released the reservation
-- only where the new status was written.
pub abandon_tx-MayAbandon :
    (v : Service) (io : AbandonIo) (txid : Text) (w : World)
    → let w' = (abandon_tx v io txid w).0 in
      (w' ≡ w) ⊎ ((rec : Record) × MayAbandon v io txid w rec × Terminalized v io rec w w')
unfolding abandon_tx
abandon_tx-MayAbandon v io txid w = elim (Outcome-cases (by_txid w.journal io.read v.net txid)) [
  | inl (x, e) ↦ inl (ground arith)
  | inr (rec, e) ↦ elim (Bool-cases (text_eq rec.wallet v.wallet)) [
    | inr n ↦ inl (ground arith)
    | inl own ↦ elim (Bool-cases (is_signed rec.status)) [
      | inr n ↦ inl (ground arith)
      | inl st ↦
          let go : (abandon_tx v io txid w).0 ≡ (check_reservation v io rec w).0 = ground arith in
          elim (check_reservation-cases v io rec w) [
            | inl q ↦ inl (go ∙ q)
            | inr (q, u) ↦ inr (
              rec,
              record { found = e; own = own; is_signed = ground arith; uncommitted = u },
              subst (Terminalized v io rec w) (sym (go ∙ q)) (terminalize-Terminalized v io rec w),
            )
          ]
    ]
  ]
]
