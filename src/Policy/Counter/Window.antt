-- ===== src/Policy/Counter/Window.antt =====
-- The window total as a plain sum, under pruning and as time passes.
use daxib.Prelude.{
  ℕ, ◌≤◌, ◌≡◌, refl, true, false, List, [], ◌∷◌, ◌++◌, arith, Bool-cases, inl, inr, Text,
}
use daxib.Prelude.Int.{ℤ, pos, ◌+ℤ◌, ◌≤ℤ◌, int_laws}
use daxib.Prelude.Decimal.{set_string}
use daxib.Policy.Body.{or_zero}
use daxib.Policy.Counter.{
  CounterEntry, CounterFile, Stamp, instant, garbled, aged, add_entry, sum_from, sum_window, keeps,
  prune_entries, prune,
}

-- What one entry adds to the window total.
unfoldable pub charge : ℕ → Text → CounterEntry → ℤ
charge now exclude e = add_entry now exclude (pos 0) e

unfoldable pub total : ℕ → Text → List CounterEntry → ℤ
total now exclude [] = pos 0
total now exclude (e ∷ es) = charge now exclude e +ℤ total now exclude es

add_entry-charge :
    (now : ℕ) (x : Text) (t : ℤ) (e : CounterEntry) → add_entry now x t e ≡ t +ℤ charge now x e
unfolding add_entry charge
add_entry-charge now x t e = grind int_laws

pub sum_from-total :
    (now : ℕ) (x : Text) (t : ℤ) (es : List CounterEntry)
    → sum_from now x t es ≡ t +ℤ total now x es
unfolding sum_from total
sum_from-total now x t [] = omega int_laws
sum_from-total now x t (e ∷ es) =
    rw (sum_from-total now x (add_entry now x t e) es, add_entry-charge now x t e) (omega int_laws)

pub sum_window-total :
    (cf : CounterFile) (now : ℕ) (x : Text) → sum_window cf now x ≡ total now x cf.entries
unfolding sum_window
sum_window-total cf now x = rw sum_from-total (omega int_laws)

pub total-append :
    (now : ℕ) (x : Text) (es fs : List CounterEntry)
    → total now x (es ++ fs) ≡ total now x es +ℤ total now x fs
unfolding total
total-append now x [] fs = omega int_laws
total-append now x (e ∷ es) fs = rw (total-append now x es fs) (omega int_laws)

pub aged_mono : (s : Stamp) (now later : ℕ) → now ≤ later → aged s now ≡ true → aged s later ≡ true
unfolding aged
aged_mono (instant t) now later h a = ground arith
aged_mono (garbled s) now later h a = ground arith

-- What pruning drops counts nothing, then and later.
dropped-charge :
    (now later : ℕ) (x : Text) (e : CounterEntry)
    → now ≤ later
    → keeps now e ≡ false
    → charge later x e ≡ pos 0
unfolding keeps charge add_entry
dropped-charge now later x e h k = ground (arith, aged_mono e.ts now later h)

pub prune_entries-total :
    (now later : ℕ) (x : Text) (es : List CounterEntry)
    → now ≤ later
    → total later x (prune_entries now es) ≡ total later x es
unfolding prune_entries total
prune_entries-total now later x [] h = refl
prune_entries-total now later x (e ∷ es) h = elim (Bool-cases (keeps now e)) [
  | inl k ↦ rw (k, prune_entries-total now later x es h)
  | inr k ↦
      rw (k, prune_entries-total now later x es h, dropped-charge now later x e h k)
        (omega int_laws)
]

-- Pruning changes no window total, at the instant of the pruning or at any later one, whichever
-- entry is left out of the sum.
pub sum_window-prune :
    (cf : CounterFile) (now later : ℕ) (x : Text)
    → now ≤ later
    → sum_window (prune cf now) later x ≡ sum_window cf later x
unfolding prune
sum_window-prune cf now later x h =
    simp sum_window-total (prune_entries-total now later x cf.entries h)

-- No entry has a negative amount.
abbrev pub IsNonneg : List CounterEntry → Type 0
IsNonneg [] = Unit {0}
IsNonneg (e ∷ es) = (pos 0 ≤ℤ or_zero (set_string e.sat)) × IsNonneg es

pub charge-nonneg :
    (now : ℕ) (x : Text) (e : CounterEntry)
    → pos 0 ≤ℤ or_zero (set_string e.sat)
    → pos 0 ≤ℤ charge now x e
unfolding charge add_entry or_zero
charge-nonneg now x e h = grind int_laws

charge-mono :
    (now later : ℕ) (x : Text) (e : CounterEntry)
    → now ≤ later
    → pos 0 ≤ℤ or_zero (set_string e.sat)
    → charge later x e ≤ℤ charge now x e
unfolding charge add_entry or_zero
charge-mono now later x e h k = grind (int_laws, aged_mono e.ts now later h)

pub total-mono :
    (now later : ℕ) (x : Text) (es : List CounterEntry)
    → now ≤ later
    → IsNonneg es
    → total later x es ≤ℤ total now x es
unfolding total
total-mono now later x [] h k = omega arith
total-mono now later x (e ∷ es) h k =
    omega (int_laws, charge-mono now later x e h k.0, total-mono now later x es h k.1)
