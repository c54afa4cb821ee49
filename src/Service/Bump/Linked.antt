-- ===== src/Service/Bump/Linked.antt =====
-- What the end of a replacement leaves in the journal and in the counters, whatever the writes come to
-- (replaceTx of internal/service/tx_replace.go).
use daxib.Prelude.{
  ◌≡◌, ◌≢◌, ◌⊎◌, inl, inr, refl, sym, ap, ◌∙◌, List, Option, some, false, if◌then◌else◌, Text,
  arith, is_empty, text_eq, text_eq_iff, Bool-cases,
}
use daxib.Prelude.Outcome.{Outcome, Outcome-cases}
use daxib.Journal.{Record, Status, signed, broadcast, failed, replaced, StateMutation, apply_to}
use daxib.Journal.Store.{Store, JournalError, append, set_state}
use daxib.Journal.Store
use daxib.Journal.Write.{view, records}
use daxib.Journal.Transition.{moved}
use daxib.Journal.Attempt.{set_state-own, set_state-other}
use daxib.Policy.Engine.{Reservation}
use daxib.Policy.Engine.Settlement.{commit, release}
use daxib.Service.Broadcast.{
  BroadcastOutcome, accepted, transport_exhausted, rejected, Broadcasted, RejectCode,
}
use daxib.Service.World.{World, Service}
use daxib.Service.Send.{abort_signed, deferred, to_broadcast, to_failed, released, recorded}
use daxib.Service.Send.Settle.{Has, set_state-Has, abort_signed-cases, abort_signed-Has}
use daxib.Service.Bump.{
  ReplaceScript, to_replaced, settle_replacement, Replaced, replacement, unrecorded, left_signed,
  rejected_by_network, reject_unrecorded,
}

differ : (a b : Text) → a ≢ b → text_eq a b ≡ false
differ a b n = elim (Bool-cases (text_eq a b)) [
  | inl e ↦ absurd (n ((text_eq_iff a b).0 e))
  | inr e ↦ e
]

-- The original stays as it was, or it is marked as replaced by the replacement, whose broadcast was
-- recorded.
abbrev pub Original : Service → ReplaceScript → Text → Text → World → World → Type 0
Original v s orig id w w' =
    (view w'.journal v.net orig ≡ view w.journal v.net orig)
    ⊎ ((x : Record) × (txid : Text) × (r : Record) × (view w'.journal v.net orig ≡ some x)
        × (x.status ≡ replaced)
        × (x.replaced_by_id ≡ id)
        × ((set_state w.journal s.send.state_io v.net id (to_broadcast txid)).1 ≡ Outcome.ok r))

-- The three ends of a replacement, whose record is in the journal as signed. After an accepted broadcast
-- it stays signed or becomes broadcast, and its reservation is committed; after an exhausted one nothing
-- is touched; after a rejection it stays signed or becomes failed, its reservation is released, and the
-- original stays.
abbrev pub Linked :
    Service
    → ReplaceScript
    → Reservation
    → (orig id : Text) → BroadcastOutcome
    → World
    → World
    → Type 0
Linked v s resv orig id accepted w w' =
    Has w'.journal v.net id signed broadcast
    × ((txid : Text) × (w'.engine
          ≡ (commit w.engine resv txid s.send.commit_now s.send.commit_io).0))
    × Original v s orig id w w'
Linked v s resv orig id transport_exhausted w w' = w' ≡ w
Linked v s resv orig id rejected w w' =
    Has w'.journal v.net id signed failed
    × (w'.engine ≡ (release w.engine resv s.send.release_now s.send.release_io).0)
    × (view w'.journal v.net orig ≡ view w.journal v.net orig)

-- A write for another id keeps whether a record has one of two statuses.
Has-other :
    (j : Store) (io : Store.Io) (net id other : Text) (mut : StateMutation) (a b : Status)
    → text_eq id other ≡ false
    → Has j net id a b
    → Has (set_state j io net other mut).0 net id a b
Has-other j io net id other mut a b n (x, p, q) =
    (x, set_state-other j io net other mut id n ∙ p, q)

moved-replaced :
    (io : Store.Io) (recs : List Record) (id : Text) (prior : Record)
    → ((moved io recs (to_replaced id) prior).status ≡ replaced)
      × ((moved io recs (to_replaced id) prior).replaced_by_id ≡ id)
unfolding apply_to
moved-replaced io recs id prior = (refl, refl)

abort_signed-other :
    (v : Service) (s : ReplaceScript) (id other : Text) (w : World)
    → text_eq other id ≡ false
    → view (abort_signed v s.send id w).journal v.net other ≡ view w.journal v.net other
abort_signed-other v s id other w n = elim (abort_signed-cases v s.send id w) [
  | inl e ↦ rw e refl
  | inr e ↦ rw e (set_state-other w.journal s.send.abort_io v.net id _ other n)
]

module _ (v : Service) (s : ReplaceScript) (resv : Reservation) (orig rec : Record)
    (b : Broadcasted) (w : World) where
  abbrev txid_of : Text
  txid_of = if is_empty b.txid then rec.txid else b.txid

  -- The world behind the commit and the record of the broadcast.
  abbrev live : World
  live =
      recorded v s.send rec.id (to_broadcast txid_of)
        (record w { engine = (commit w.engine resv txid_of s.send.commit_now s.send.commit_io).0 })

  settle-unrecorded :
      (e : JournalError)
      → b.outcome ≡ accepted
      → (set_state w.journal s.send.state_io v.net rec.id (to_broadcast txid_of)).1 ≡ Outcome.err e
      → (settle_replacement v s resv orig rec b w).0 ≡ live
  unfolding settle_replacement deferred
  settle-unrecorded e h k = ground (arith, h, k)

  settle-replaced :
      (r : Record)
      → b.outcome ≡ accepted
      → (set_state w.journal s.send.state_io v.net rec.id (to_broadcast txid_of)).1 ≡ Outcome.ok r
      → (settle_replacement v s resv orig rec b w).0 ≡ record live {
        journal = (set_state live.journal s.replaced_io v.net orig.id (to_replaced rec.id)).0;
      }
  unfolding settle_replacement deferred
  settle-replaced r h k = ground (arith, h, k)

  settle-exhausted :
      b.outcome ≡ transport_exhausted → (settle_replacement v s resv orig rec b w).0 ≡ w
  unfolding settle_replacement deferred
  settle-exhausted h = ground (arith, h)

  settle-rejected :
      b.outcome ≡ rejected
      → let w' = (settle_replacement v s resv orig rec b w).0 in
        let w1 = recorded v s.send rec.id (to_failed s.send.reject_reason) w in
        (w' ≡ released s.send resv w1)
        ⊎ (w' ≡ released s.send resv (abort_signed v s.send rec.id w1))
  unfolding settle_replacement deferred
  settle-rejected h = ground (arith, h)

  module _ (new : orig.id ≢ rec.id) (h : Has w.journal v.net rec.id signed signed) where
    shown : (st : Status) → Has w.journal v.net rec.id signed st
    shown st = let (x, p, q) = h in elim q [ inl e ↦ (x, p, inl e) | inr e ↦ (x, p, inl e) ]

    orig-rec : text_eq orig.id rec.id ≡ false
    orig-rec = differ orig.id rec.id new

    rec-orig : text_eq rec.id orig.id ≡ false
    rec-orig = differ rec.id orig.id (λ e. new (sym e))

    live-Has : Has live.journal v.net rec.id signed broadcast
    live-Has =
        set_state-Has w.journal s.send.state_io v.net rec.id (to_broadcast txid_of) broadcast refl
          (inl refl) (shown broadcast)

    live-orig : view live.journal v.net orig.id ≡ view w.journal v.net orig.id
    live-orig =
        set_state-other w.journal s.send.state_io v.net rec.id (to_broadcast txid_of) orig.id
          orig-rec

    replaced-Original :
        (r : Record)
        → (set_state w.journal s.send.state_io v.net rec.id (to_broadcast txid_of)).1 ≡ Outcome.ok r
        → Original v s orig.id rec.id w (record live {
          journal = (set_state live.journal s.replaced_io v.net orig.id (to_replaced rec.id)).0;
        })
    replaced-Original r k =
        elim (set_state-own live.journal s.replaced_io v.net orig.id (to_replaced rec.id)) [
          | inl e ↦ inl (e ∙ live-orig)
          | inr (prior, p, e) ↦
              let (st, by) =
                moved-replaced s.replaced_io (records live.journal v.net) rec.id prior in
              inr (_, txid_of, r, e, st, by, k)
        ]

    at_accepted :
        b.outcome ≡ accepted
        → Linked v s resv orig.id rec.id accepted w (settle_replacement v s resv orig rec b w).0
    at_accepted e =
        elim (Outcome-cases
          (set_state w.journal s.send.state_io v.net rec.id (to_broadcast txid_of)).1) [
            | inl (x, k) ↦ rw (settle-unrecorded x e k) (live-Has, (_, refl), inl live-orig)
            | inr (r, k) ↦ rw (settle-replaced r e k) (
              Has-other live.journal s.replaced_io v.net rec.id orig.id (to_replaced rec.id) signed
                  broadcast rec-orig live-Has,
              (_, refl),
              replaced-Original r k,
            )
          ]

    at_rejected :
        b.outcome ≡ rejected
        → Linked v s resv orig.id rec.id rejected w (settle_replacement v s resv orig rec b w).0
    at_rejected e =
        let mut = to_failed s.send.reject_reason in
        let w1 = recorded v s.send rec.id mut w in
        let h1 =
          set_state-Has w.journal s.send.state_io v.net rec.id mut failed refl (inr refl)
            (shown failed) in
        let o1 = set_state-other w.journal s.send.state_io v.net rec.id mut orig.id orig-rec in
        let (h2, f) = abort_signed-Has v s.send rec.id w1 h1 in
        let o2 = abort_signed-other v s rec.id orig.id w1 orig-rec in
        elim (settle-rejected e) [
          | inl x ↦ rw x (h1, refl, o1)
          | inr x ↦
              rw x
                (h2, ap (λ z. (release z resv s.send.release_now s.send.release_io).0) f, o2 ∙ o1)
        ]

    pub settle_replacement-Linked :
        (o : BroadcastOutcome)
        → b.outcome ≡ o
        → Linked v s resv orig.id rec.id o w (settle_replacement v s resv orig rec b w).0
    settle_replacement-Linked accepted e = at_accepted e
    settle_replacement-Linked transport_exhausted e = settle-exhausted e
    settle_replacement-Linked rejected e = at_rejected e

-- What replaceTx returns for each outcome of the broadcast.
abbrev pub Answered : (id : Text) → Option RejectCode → BroadcastOutcome → Replaced → Type 0
Answered id code accepted r = (t : Text) × ((r ≡ replacement id t) ⊎ (r ≡ unrecorded id t))
Answered id code transport_exhausted r = r ≡ left_signed id
Answered id code rejected r =
    (r ≡ rejected_by_network code) ⊎ ((x : JournalError) × (r ≡ reject_unrecorded x))

pub settle_replacement-Answered :
    (v : Service) (s : ReplaceScript) (resv : Reservation) (orig rec : Record) (b : Broadcasted)
    (w : World) (o : BroadcastOutcome)
    → b.outcome ≡ o
    → Answered rec.id b.code o (settle_replacement v s resv orig rec b w).1
unfolding settle_replacement
settle_replacement-Answered v s resv orig rec b w accepted h =
    let t = if is_empty b.txid then rec.txid else b.txid in
    elim (Outcome-cases (set_state w.journal s.send.state_io v.net rec.id (to_broadcast t)).1) [
      | inl (x, e) ↦ (t, inr (ground (arith, h, e)))
      | inr (x, e) ↦ (t, inl (ground (arith, h, e)))
    ]
settle_replacement-Answered v s resv orig rec b w transport_exhausted h = rw (h) refl
settle_replacement-Answered v s resv orig rec b w rejected h =
    elim (Outcome-cases
      (set_state w.journal s.send.state_io v.net rec.id (to_failed s.send.reject_reason)).1) [
        | inl (x, e) ↦ inr (x, ground (arith, h, e))
        | inr (x, e) ↦ inl (ground (arith, h, e))
      ]
