-- ===== src/Service/Send/Settle.antt =====
-- What the end of a send leaves in the journal and in the counters, whatever the writes come to
-- (SendTx of internal/service/tx_send.go).
use daxib.Prelude.{
  codes, ◌+◌, ◌^◌, ◌<◌, ◌≡◌, ◌⊎◌, inl, inr, refl, ap, ◌∙◌, List, Option, some, if◌then◌else◌, Text,
  arith, is_empty, text_eq_refl,
}
use mathlib.Core.Path.{subst}
use daxib.Prelude.Outcome.{Outcome, Outcome-cases}
use daxib.Journal.{max_seq, Record, Status, signed, broadcast, failed, StateMutation, apply_to}
use daxib.Journal.Store.{Store, complete, repair, JournalError, append, set_state, by_id}
use daxib.Journal.Store
use daxib.Journal.Write.{view, records, append-view, append-ok, write_record-ok}
use daxib.Journal.Transition.{moved}
use daxib.Journal.Attempt.{set_state-own}
use daxib.Policy.Evaluate.{Check}
use daxib.Policy.Engine.{reserve, Reservation, ok}
use daxib.Policy.Engine.Settlement.{commit, release}
use daxib.Policy.Seal.{Codec}
use daxib.Service.Broadcast.{
  BroadcastOutcome, accepted, transport_exhausted, rejected, Broadcasted, broadcast_classified,
  RejectCode,
}
use daxib.Service.World.{World, Service}
use daxib.Service.Send.{
  built, journal_and_send, send_tx, Script, abort_signed, deferred, settle, to_broadcast, to_failed,
  released, recorded, Sent, sent, sent_unrecorded, left_signed, refused, refused_unrecorded,
  append_failed,
}

-- The latest record of the id has one of two statuses.
abbrev pub Has : Store → Text → Text → Status → Status → Type 0
Has j net id a b = (x : Record) × (view j net id ≡ some x) × ((x.status ≡ a) ⊎ (x.status ≡ b))

moved-status :
    (io : Store.Io) (recs : List Record) (mut : StateMutation) (prior : Record) (st : Status)
    → mut.status ≡ st
    → (st ≡ broadcast) ⊎ (st ≡ failed)
    → (moved io recs mut prior).status ≡ st
unfolding apply_to
moved-status io recs mut prior st e h = ground arith

-- A mutation of the status of a signed record leaves it signed, or carries it to the new status.
pub set_state-Has :
    (j : Store) (io : Store.Io) (net id : Text) (mut : StateMutation) (st : Status)
    → mut.status ≡ st
    → (st ≡ broadcast) ⊎ (st ≡ failed)
    → Has j net id signed st
    → Has (set_state j io net id mut).0 net id signed st
set_state-Has j io net id mut st e h (x, p, q) = elim (set_state-own j io net id mut) [
  | inl v ↦ (x, v ∙ p, q)
  | inr (prior, p', v) ↦ (
    moved io (records j net) mut prior,
    v,
    inr (moved-status io (records j net) mut prior st e h),
  )
]

pub abort_signed-cases :
    (v : Service) (s : Script) (id : Text) (w : World)
    → let w' = abort_signed v s id w in
      (w' ≡ w)
      ⊎ (w' ≡ record w {
        journal =
            (set_state w.journal s.abort_io v.net id
              (to_failed (codes "send aborted before broadcast was recorded"))).0;
      })
unfolding abort_signed
abort_signed-cases v s id w = ground arith

pub abort_signed-Has :
    (v : Service) (s : Script) (id : Text) (w : World)
    → Has w.journal v.net id signed failed
    → Has (abort_signed v s id w).journal v.net id signed failed
      × ((abort_signed v s id w).engine ≡ w.engine)
abort_signed-Has v s id w h = elim (abort_signed-cases v s id w) [
  | inl e ↦ rw e (h, refl)
  | inr e ↦ rw e (set_state-Has w.journal s.abort_io v.net id _ failed refl (inr refl) h, refl)
]

-- The three ends of a send, whose record is in the journal as signed. An accepted transaction stays
-- signed or becomes broadcast, and its reservation is committed; after an exhausted broadcast nothing is
-- touched; a rejected one stays signed or becomes failed, and its reservation is released.
abbrev pub Settled :
    Service → Script → Reservation → Text → BroadcastOutcome → World → World → Type 0
Settled v s resv id accepted w w' =
    Has w'.journal v.net id signed broadcast
    × ((txid : Text) × (w'.engine ≡ (commit w.engine resv txid s.commit_now s.commit_io).0))
Settled v s resv id transport_exhausted w w' = w' ≡ w
Settled v s resv id rejected w w' =
    Has w'.journal v.net id signed failed
    × (w'.engine ≡ (release w.engine resv s.release_now s.release_io).0)

settle-accepted :
    (v : Service) (s : Script) (resv : Reservation) (rec : Record) (b : Broadcasted) (w : World)
    → b.outcome ≡ accepted
    → let t = if is_empty b.txid then rec.txid else b.txid in
      (settle v s resv rec b w).0
      ≡ recorded v s rec.id
          (to_broadcast t)
          (record w { engine = (commit w.engine resv t s.commit_now s.commit_io).0 })
unfolding settle deferred
settle-accepted v s resv rec b w h = ground arith

settle-rejected :
    (v : Service) (s : Script) (resv : Reservation) (rec : Record) (b : Broadcasted) (w : World)
    → b.outcome ≡ rejected
    → let w' = (settle v s resv rec b w).0 in
      let w1 = recorded v s rec.id (to_failed s.reject_reason) w in
      (w' ≡ released s resv w1) ⊎ (w' ≡ released s resv (abort_signed v s rec.id w1))
unfolding settle deferred
settle-rejected v s resv rec b w h = ground arith

settle-exhausted :
    (v : Service) (s : Script) (resv : Reservation) (rec : Record) (b : Broadcasted) (w : World)
    → b.outcome ≡ transport_exhausted
    → (settle v s resv rec b w).0 ≡ w
unfolding settle deferred
settle-exhausted v s resv rec b w h = ground arith

pub settle-Settled :
    (v : Service) (s : Script) (resv : Reservation) (rec : Record) (b : Broadcasted) (w : World)
    → view w.journal v.net rec.id ≡ some rec
    → rec.status ≡ signed
    → Settled v s resv rec.id b.outcome w (settle v s resv rec b w).0
settle-Settled v s resv rec b w p q = at_outcome b.outcome refl
  where
    at_outcome :
        (o : BroadcastOutcome)
        → b.outcome ≡ o
        → Settled v s resv rec.id o w (settle v s resv rec b w).0
    at_outcome accepted e = rw (settle-accepted v s resv rec b w e) (
      set_state-Has w.journal s.state_io v.net rec.id _ broadcast refl (inl refl) (rec, p, inl q),
      (_, refl),
    )
    at_outcome transport_exhausted e = settle-exhausted v s resv rec b w e
    at_outcome rejected e =
        let h1 =
          set_state-Has w.journal s.state_io v.net rec.id (to_failed s.reject_reason) failed refl
            (inr refl) (rec, p, inl q) in
        let (h2, f) =
          abort_signed-Has v s rec.id (recorded v s rec.id (to_failed s.reject_reason) w) h1 in
        elim (settle-rejected v s resv rec b w e) [
          | inl x ↦ rw x (h1, refl)
          | inr x ↦ rw x (h2, ap (λ z. (release z resv s.release_now s.release_io).0) f)
        ]

-- What SendTx returns for each outcome of the broadcast.
abbrev pub Answered : (id : Text) → Option RejectCode → BroadcastOutcome → Sent → Type 0
Answered id code accepted r = (t : Text) × ((r ≡ sent id t) ⊎ (r ≡ sent_unrecorded id t))
Answered id code transport_exhausted r = r ≡ left_signed id
Answered id code rejected r = (r ≡ refused code) ⊎ ((x : JournalError) × (r ≡ refused_unrecorded x))

settle-Answered :
    (v : Service) (s : Script) (resv : Reservation) (rec : Record) (b : Broadcasted) (w : World)
    (o : BroadcastOutcome)
    → b.outcome ≡ o
    → Answered rec.id b.code o (settle v s resv rec b w).1
unfolding settle
settle-Answered v s resv rec b w accepted h =
    let t = if is_empty b.txid then rec.txid else b.txid in
    elim (Outcome-cases (set_state w.journal s.state_io v.net rec.id (to_broadcast t)).1) [
      | inl (x, e) ↦ (t, inr (ground (arith, h, e)))
      | inr (x, e) ↦ (t, inl (ground (arith, h, e)))
    ]
settle-Answered v s resv rec b w transport_exhausted h = rw (h) refl
settle-Answered v s resv rec b w rejected h =
    elim (Outcome-cases
      (set_state w.journal s.state_io v.net rec.id (to_failed s.reject_reason)).1) [
        | inl (x, e) ↦ inr (x, ground (arith, h, e))
        | inr (x, e) ↦ inl (ground (arith, h, e))
      ]

pub append-fields :
    (j : Store) (io : Store.Io) (rec rec' : Record)
    → (append j io rec).1 ≡ Outcome.ok rec'
    → (rec'.status ≡ rec.status)
      × (rec'.reservation_id ≡ rec.reservation_id)
      × (rec'.replaces_id ≡ rec.replaces_id)
unfolding complete
append-fields j io rec rec' h =
    append-ok
      (λ _.
        (rec'.status ≡ rec.status)
        × (rec'.reservation_id ≡ rec.reservation_id)
        × (rec'.replaces_id ≡ rec.replaces_id))
      j io rec rec' h
      (λ recs r er ec ew.
        let q = (write_record-ok (repair j io rec.network).0 io rec.network recs r rec' ew).0 in
        (ground arith, ground arith, ground arith))

journal_and_send-err :
    (v : Service) (s : Script) (resv : Reservation) (rec : Record) (w : World) (x : JournalError)
    → let m = append w.journal s.append_io (record rec { reservation_id = resv.id }) in
      m.1 ≡ Outcome.err x
      → journal_and_send v s resv rec w
        ≡ (released s resv (record w { journal = m.0 }), append_failed x)
unfolding journal_and_send
journal_and_send-err v s resv rec w x h = ground arith

journal_and_send-ok :
    (v : Service) (s : Script) (resv : Reservation) (rec rec' : Record) (w : World)
    → let m = append w.journal s.append_io (record rec { reservation_id = resv.id }) in
      m.1 ≡ Outcome.ok rec'
      → journal_and_send v s resv rec w
        ≡ settle v s resv rec' (broadcast_classified s.attempts) (record w { journal = m.0 })
unfolding journal_and_send
journal_and_send-ok v s resv rec rec' w h = ground arith

send_tx-journal_and_send :
    (k : Codec) (v : Service) (s : Script) (w : World) (req : Check) (rec : Record)
    (resv : Reservation)
    → s.build ≡ built req (some rec)
    → (reserve k w.engine req s.clock s.reservation_id s.reserve_io).1 ≡ ok resv
    → send_tx k v s w
      ≡ journal_and_send v s resv rec
          (record w { engine = (reserve k w.engine req s.clock s.reservation_id s.reserve_io).0 })
unfolding send_tx
send_tx-journal_and_send k v s w req rec resv b r = ground arith

-- A send that has its reservation and its signature, with a sequence number left in the journal: where
-- Append fails, the reservation is released and its error is returned; where it succeeds, the record
-- carries the id of the reservation, the journal and the counters end as the outcome of the broadcast
-- says, whatever the later writes come to, and the result names that outcome.
pub send_tx-Settled :
    (k : Codec) (v : Service) (s : Script) (w : World) (req : Check) (rec : Record)
    (resv : Reservation)
    → s.build ≡ built req (some rec)
    → rec.network ≡ v.net
    → rec.status ≡ signed
    → max_seq (records w.journal v.net) + 1 < 2 ^ 64
    → (reserve k w.engine req s.clock s.reservation_id s.reserve_io).1 ≡ ok resv
    → let e = (reserve k w.engine req s.clock s.reservation_id s.reserve_io).0 in
      let m = append w.journal s.append_io (record rec { reservation_id = resv.id }) in
      let (w', sent') = send_tx k v s w in
      ((x : JournalError)
        → m.1 ≡ Outcome.err x
        → (w' ≡ record { journal = m.0; engine = (release e resv s.release_now s.release_io).0 })
          × (sent' ≡ append_failed x))
      × ((rec' : Record)
          → m.1 ≡ Outcome.ok rec'
          → (rec'.reservation_id ≡ resv.id)
            × Settled v s resv rec'.id
                (broadcast_classified s.attempts).outcome
                (record { journal = m.0; engine = e })
                w'
            × Answered rec'.id
                (broadcast_classified s.attempts).code
                (broadcast_classified s.attempts).outcome
                sent')
send_tx-Settled k v s w req rec resv b n st bound r =
    let e = (reserve k w.engine req s.clock s.reservation_id s.reserve_io).0 in
    let w1 = record w { engine = e } in
    let rec1 = record rec { reservation_id = resv.id } in
    let go = send_tx-journal_and_send k v s w req rec resv b r in
    (
      λ x h.
          let failed = go ∙ journal_and_send-err v s resv rec w1 x h in
          (ap (λ m. m.0) failed, ap (λ m. m.1) failed),
      λ rec' h.
          let (q, i, ri) = append-fields w.journal s.append_io rec1 rec' h in
          let shown = (append-view w.journal s.append_io rec1 rec' rec'.id (rw n bound) h).1 in
          let found : view (append w.journal s.append_io rec1).0 v.net rec'.id ≡ some rec' =
            subst (λ net. view (append w.journal s.append_io rec1).0 net rec'.id ≡ some rec') n
              (shown ∙ rw (text_eq_refl rec'.id) refl) in
          (
            i,
            rw (go, journal_and_send-ok v s resv rec rec' w1 h)
                (settle-Settled v s resv rec' (broadcast_classified s.attempts)
                  (record w1 { journal = (append w.journal s.append_io rec1).0 }) found (q ∙ st)),
            rw (go, journal_and_send-ok v s resv rec rec' w1 h)
                (settle-Answered v s resv rec' (broadcast_classified s.attempts)
                  (record w1 { journal = (append w.journal s.append_io rec1).0 }) _ refl),
          ),
    )
