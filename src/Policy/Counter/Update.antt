-- ===== src/Policy/Counter/Update.antt =====
-- Rewriting one entry in place: what findEntry's pointer lets a caller change, and the window total.
use daxib.Prelude.{ℕ, ◌≡◌, true, List, [], ◌∷◌, some, arith, Text, text_eq, inl, inr, Bool-cases}
use daxib.Prelude.Int.{ℤ, pos, ◌+ℤ◌, ◌≤ℤ◌, int_laws}
use daxib.Prelude.Decimal.{set_string}
use daxib.Policy.Body.{or_zero}
use daxib.Policy.Counter.{CounterEntry, is_released, find_entry, update_entry, add_entry}
use daxib.Policy.Counter.Window.{total, charge, charge-nonneg, IsNonneg}

-- The new entry differs in its state and hash alone, and does not revive a released entry.
pub record Settles (old new : CounterEntry) : Type 0 where
  pub same_id : new.id ≡ old.id
  pub same_ts : new.ts ≡ old.ts
  pub same_sat : new.sat ≡ old.sat
  pub no_revival : is_released old.state ≡ true → is_released new.state ≡ true

charge-Settles :
    (now : ℕ) (x : Text) (old new : CounterEntry)
    → Settles old new
    → pos 0 ≤ℤ or_zero (set_string old.sat)
    → charge now x new ≤ℤ charge now x old
unfolding charge add_entry
charge-Settles now x old new s h =
    grind (int_laws, s.same_id, s.same_ts, s.same_sat, s.no_revival, charge-nonneg now x old h)

pub update_entry-IsNonneg :
    (es : List CounterEntry) (id : Text) (old new : CounterEntry)
    → find_entry es id ≡ some old
    → Settles old new
    → IsNonneg es
    → IsNonneg (update_entry es id new)
unfolding find_entry update_entry
update_entry-IsNonneg [] id old new f s h = h
update_entry-IsNonneg (e ∷ es) id old new f s h =
    ground (arith, update_entry-IsNonneg es id old new)

head_charge :
    (now : ℕ) (x : Text) (e old new : CounterEntry)
    → some e ≡ some old
    → Settles old new
    → pos 0 ≤ℤ or_zero (set_string e.sat)
    → charge now x new ≤ℤ charge now x e
head_charge now x e old new f s h = ground (arith, charge-Settles now x old new s)

pub update_entry-total :
    (now : ℕ) (x : Text) (es : List CounterEntry) (id : Text) (old new : CounterEntry)
    → find_entry es id ≡ some old
    → Settles old new
    → IsNonneg es
    → total now x (update_entry es id new) ≤ℤ total now x es
unfolding find_entry update_entry total
update_entry-total now x [] id old new f s h = omega arith
update_entry-total now x (e ∷ es) id old new f s h = elim (Bool-cases (text_eq e.id id)) [
  | inl q ↦ rw q (omega (int_laws, head_charge now x e old new (rw q at f) s h.0))
  | inr q ↦ rw q (omega (int_laws, update_entry-total now x es id old new (rw q at f) s h.1))
]

-- An entry rewritten with a charge that is higher by `d` raises the total by `d`.
pub update_entry-total_add :
    (now : ℕ) (x : Text) (es : List CounterEntry) (id : Text) (old new : CounterEntry) (d : ℤ)
    → find_entry es id ≡ some old
    → charge now x new ≡ charge now x old +ℤ d
    → total now x (update_entry es id new) ≡ total now x es +ℤ d
unfolding find_entry update_entry total
update_entry-total_add now x [] id old new d f h = cc
update_entry-total_add now x (e ∷ es) id old new d f h = elim (Bool-cases (text_eq e.id id)) [
  | inl q ↦
      let same = rw q at f in
      let h' : charge now x new ≡ charge now x e +ℤ d = ground arith in rw (q, h') (omega int_laws)
  | inr q ↦ rw (q, update_entry-total_add now x es id old new d (rw q at f) h) (omega int_laws)
]
