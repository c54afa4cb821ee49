-- ===== src/Policy/Engine/Reserve.antt =====
-- One reservation (Reserve of internal/policy/engine.go): its failures, what it leaves in the counter,
-- and the dry run (Check).
use daxib.Prelude.{
  ℕ, ◌≡◌, ◌≢◌, refl, true, false, List, [], ◌∷◌, ◌++◌, Option, none, some, Text, arith,
  Option-cases, inl, inr, text_eq_refl,
}
use daxib.Prelude.Outcome
use daxib.Policy.Body.{Policy}
use daxib.Policy.Evaluate.{Check, Decision, window_charge}
use daxib.Policy.Counter.{CounterEntry, CounterFile, prune, prune_entries, keeps}
use daxib.Policy.Engine.{
  Engine, Io, Clock, Error, denied, Result, ok, err, file, Lock, Reservation, no_reservation,
  activate, load_active, load_counter, reserve, reserve_locked, check, with_lock, guarded,
  write_counter, written, new_entry,
}
use daxib.Policy.Seal.{Codec, Loaded}

-- A reservation that fails, for whatever reason, has written nothing.
pub reserve-err :
    (k : Codec) (e : Engine) (req : Check) (t : Clock) (id : Text) (io : Io) (x : Error)
    → (reserve k e req t id io).1 ≡ err x
    → (reserve k e req t id io).0.disk ≡ e.disk
unfolding reserve with_lock guarded reserve_locked write_counter
reserve-err k e req t id io x h = ground arith

-- Where the lock is taken and the write would succeed, Reserve succeeds exactly if the dry run at
-- the same instants allows, and a refusal carries the dry run's decision.
pub reserve-check :
    (k : Codec) (e : Engine) (req : Check) (t : Clock) (id : Text) (io : Io) (d : Decision)
    → io.write_ok ≡ true
    → (check k e req t io).1 ≡ ok d
    → (d.allowed ≡ true → (x : Error) → (reserve k e req t id io).1 ≢ err x)
      × (d.allowed ≡ false → (reserve k e req t id io).1 ≡ err (denied d))
unfolding reserve check with_lock guarded reserve_locked write_counter
reserve-check k e req t id io d wr h = (λ a x y. ground arith, λ a. ground arith)

-- The entry of a reservation is never pruned.
prune_entries-new_entry :
    (now : ℕ) (es : List CounterEntry) (req : Check) (id : Text)
    → prune_entries now (es ++ new_entry req id now ∷ [])
      ≡ prune_entries now es ++ new_entry req id now ∷ []
unfolding prune_entries keeps
prune_entries-new_entry now [] req id = ground arith
prune_entries-new_entry now (e ∷ es) req id = ground (arith, prune_entries-new_entry now es req id)

-- The file of a network holds the spend's entry, last.
pub record Recorded (e : Engine) (req : Check) (id : Text) (now : ℕ) : Type 0 where
  pub cf : CounterFile
  pub others : List CounterEntry
  pub on_disk : e.disk req.network ≡ file cf
  pub entry : cf.entries ≡ others ++ new_entry req id now ∷ []

reserve_locked-Recorded :
    (p : Policy) (req : Check) (t : Clock) (id : Text) (io : Io) (e : Engine) (r : Reservation)
    → (reserve_locked p req t id io e).1 ≡ ok r
    → Recorded (reserve_locked p req t id io e).0 req id t.at_write
      × (r.id ≡ id)
      × (r.network ≡ req.network)
      × (r.sat ≡ window_charge req)
unfolding reserve_locked write_counter prune
reserve_locked-Recorded p req t id io e r h = elim (Option-cases (load_counter e req.network)) [
  | inl n ↦ absurd (ground arith)
  | inr (cf, l) ↦ (
    record {
      cf =
          written e req.network
            (record cf { entries = cf.entries ++ new_entry req id t.at_write ∷ [] }) t.at_write;
      others = prune_entries t.at_write cf.entries;
      on_disk = ground (arith, text_eq_refl req.network);
      entry = prune_entries-new_entry t.at_write cf.entries req id;
    },
    ground arith,
    ground arith,
    ground arith,
  )
]

-- What a call of Reserve can come to.
reserve_cases {ℓ} :
    (Q : Engine × Result Reservation → Type ℓ) (k : Codec) (e : Engine) (req : Check) (t : Clock)
    (id : Text) (io : Io)
    → ((e' : Engine) (x : Error) → Q (e', err x))
    → Q (e, ok no_reservation)
    → ((p : Policy) → Q (reserve_locked p req t id io (activate e p)))
    → Q (reserve k e req t id io)
unfolding reserve
reserve_cases Q k e req t id io failed permissive locked = at_load (load_active k e) refl
  where
    at_lock : (p : Policy) (l : Lock) → Q (guarded l (activate e p) (reserve_locked p req t id io))
    at_lock p Lock.acquired = unfold guarded in locked p
    at_lock p Lock.timed_out = unfold guarded in failed (activate e p) _
    at_lock p Lock.failed = unfold guarded in failed (activate e p) _

    at_load : (m : Loaded (Option Policy)) → load_active k e ≡ m → Q (reserve k e req t id io)
    at_load (Outcome.err x) q = rw (q, reserve) (failed e _)
    at_load (Outcome.ok none) q = rw (q, reserve) permissive
    at_load (Outcome.ok (some p)) q = rw (q, reserve) (unfold with_lock in at_lock p io.lock)

-- Where Reserve succeeds under an active policy, the counter file of the network holds, last, the
-- reserved entry of the returned id with the spend's window charge, before anything is signed.
pub reserve-Recorded :
    (k : Codec) (e : Engine) (req : Check) (t : Clock) (id : Text) (io : Io) (r : Reservation)
    → (reserve k e req t id io).1 ≡ ok r
    → r.noop ≡ false
    → Recorded (reserve k e req t id io).0 req id t.at_write
      × (r.id ≡ id)
      × (r.network ≡ req.network)
      × (r.sat ≡ window_charge req)
reserve-Recorded k e req t id io =
    reserve_cases
      (λ m.
        (r : Reservation)
        → m.1 ≡ ok r
        → r.noop ≡ false
        → Recorded m.0 req id t.at_write
          × (r.id ≡ id)
          × (r.network ≡ req.network)
          × (r.sat ≡ window_charge req))
      k e req t id io (λ e' x r h live. absurd (ground arith)) (λ r h live. absurd (ground arith))
      (λ p r h live. reserve_locked-Recorded p req t id io (activate e p) r h)
