-- ===== src/Policy/Engine/Settle.antt =====
-- Settling a reservation (transition and ReleaseReservation of internal/policy/engine.go).
use daxib.Prelude.{ℕ, ◌≡◌, true, false, [], Option, some, Text, arith, text_eq, text_eq_refl}
use daxib.Prelude.Int.{ℤ, pos, ◌+ℤ◌, int_laws}
use daxib.Prelude.Decimal.{set_string}
use daxib.Policy.Counter.{
  CounterEntry, CounterFile, committed, released, aged, sum_window, find_entry, update_entry,
  add_entry,
}
use daxib.Policy.Counter.Window.{charge, sum_window-total, sum_window-prune}
use daxib.Policy.Counter.Update.{update_entry-total_add}
use daxib.Policy.Engine.{
  Engine, Io, Lock, Error, file, load_counter, with_lock, guarded, write_counter, written,
}
use daxib.Policy.Engine.Settlement.{
  transition, transition_locked, moved, release_reservation, release_locked,
}

-- A committed entry is final: neither a release of it nor the administrator's release changes
-- anything, whatever the lock, the file system and the authentication do.
pub committed_is_final :
    (e : Engine) (network id txid : Text) (cf : CounterFile) (ent : CounterEntry) (now : ℕ)
    (io : Io) (refusal : Option Error)
    → load_counter e network ≡ some cf
    → find_entry cf.entries id ≡ some ent
    → ent.state ≡ committed
    → ((transition e network id released txid now io).0 ≡ e)
      × ((release_reservation e refusal network id now io).0 ≡ e)
unfolding transition transition_locked release_reservation release_locked with_lock guarded
committed_is_final e network id txid cf ent now io refusal l f s = (ground arith, ground arith)

zero_add : (a : ℤ) → pos 0 +ℤ a ≡ a
zero_add a = omega int_laws

revived-charge :
    (now : ℕ) (ent : CounterEntry) (txid : Text) (v : ℤ)
    → text_eq ent.id [] ≡ false
    → ent.state ≡ released
    → aged ent.ts now ≡ false
    → set_string ent.sat ≡ some v
    → charge now [] (moved ent committed txid) ≡ charge now [] ent +ℤ v
unfolding charge add_entry
revived-charge now ent txid v i s a q = ground (arith, zero_add v)

revived_total :
    (e : Engine) (network : Text) (cf : CounterFile) (id : Text) (ent : CounterEntry) (txid : Text)
    (now : ℕ) (v : ℤ)
    → find_entry cf.entries id ≡ some ent
    → charge now [] (moved ent committed txid) ≡ charge now [] ent +ℤ v
    → sum_window
        (written e network
          (record cf { entries = update_entry cf.entries id (moved ent committed txid) })
          now)
        now
        []
      ≡ sum_window cf now [] +ℤ v
revived_total e network cf id ent txid now v f h =
    rw (sum_window-prune _ now now [] (omega arith)) (
      simp sum_window-total
        (update_entry-total_add now [] cf.entries id ent (moved ent committed txid) v f h))

-- A commit of a released entry that is still inside the window counts it again: the window total
-- rises by its amount, with no look at the daily limit.
pub commit_revives :
    (e : Engine) (network id txid : Text) (cf : CounterFile) (ent : CounterEntry) (now : ℕ)
    (io : Io) (v : ℤ)
    → io ≡ record { lock = Lock.acquired; write_ok = true }
    → load_counter e network ≡ some cf
    → find_entry cf.entries id ≡ some ent
    → text_eq ent.id [] ≡ false
    → ent.state ≡ released
    → aged ent.ts now ≡ false
    → set_string ent.sat ≡ some v
    → (cf' : CounterFile) × ((transition e network id committed txid now io).0.disk network
        ≡ file cf')
      × (sum_window cf' now [] ≡ sum_window cf now [] +ℤ v)
unfolding transition transition_locked with_lock guarded write_counter
commit_revives e network id txid cf ent now io v ran l f i s a q =
    let new = moved ent committed txid in
    let cf1 = record cf { entries = update_entry cf.entries id new } in
    (
      written e network cf1 now,
      ground (arith, text_eq_refl network),
      revived_total e network cf id ent txid now v f (revived-charge now ent txid v i s a q),
    )
