-- ===== src/Policy/Engine/Within.antt =====
-- Counter entries within a daily limit, and what a write keeps of it.
use daxib.Prelude.{
  ℕ, ◌≤◌, ◌≡◌, refl, sym, true, false, List, [], ◌∷◌, ◌++◌, some, arith, inl, inr, Bool-cases, Text,
  text_eq, text_eq_iff, if◌then◌else◌, Bool,
}
use daxib.Prelude.Int.{ℤ, pos, ◌+ℤ◌, ◌≤ℤ◌, int_laws}
use daxib.Policy.Body.{Policy, or_zero}
use daxib.Policy.Evaluate.{Check, evaluate, check_tx, check_day, check_fee_rate, window_charge}
use daxib.Policy.Evaluate.Limits.{resolve_limits}
use daxib.Policy.Counter.{CounterEntry, CounterFile, prune_entries, prune}
use daxib.Policy.Counter.Window.{total, IsNonneg, total-mono, prune_entries-total}
use daxib.Policy.Engine.{
  Engine, Stored, missing, corrupt, file, Io, load_counter, write_counter, written,
}

abbrev pub entries_of : Stored → List CounterEntry
entries_of missing = []
entries_of corrupt = []
entries_of (file cf) = cf.entries

-- No amount is negative, and the window total is within the limit.
pub record Within (limit : ℤ) (now : ℕ) (es : List CounterEntry) : Type 0 where
  pub nonneg : IsNonneg es
  pub below : total now [] es ≤ℤ limit

-- An allowed spend fits the daily limit on top of the window total.
pub evaluate-day :
    (p : Policy) (req : Check) (spent limit : ℤ) (now : ℕ)
    → (evaluate p req (some spent) now).allowed ≡ true
    → (resolve_limits p req.network).max_day ≡ some limit
    → spent +ℤ window_charge req ≤ℤ limit
unfolding evaluate check_tx check_day check_fee_rate or_zero
evaluate-day p req spent limit now a e = ground arith

pub window_charge-nonneg : (req : Check) → pos 0 ≤ℤ window_charge req
unfolding window_charge
window_charge-nonneg req = ground arith

pub IsNonneg-append : (es fs : List CounterEntry) → IsNonneg es → IsNonneg fs → IsNonneg (es ++ fs)
IsNonneg-append [] fs h k = k
IsNonneg-append (e ∷ es) fs h k = (h.0, IsNonneg-append es fs h.1 k)

prune_entries-IsNonneg :
    (now : ℕ) (es : List CounterEntry) → IsNonneg es → IsNonneg (prune_entries now es)
unfolding prune_entries
prune_entries-IsNonneg now [] h = h
prune_entries-IsNonneg now (e ∷ es) h = ground (arith, prune_entries-IsNonneg now es h.1)

prune_entries-Within :
    (limit : ℤ) (now : ℕ) (es : List CounterEntry)
    → Within limit now es
    → Within limit now (prune_entries now es)
prune_entries-Within limit now es w = record {
  nonneg = prune_entries-IsNonneg now es w.nonneg;
  below = rw (prune_entries-total now now [] es (omega arith)) w.below;
}

pub Within-mono :
    (limit : ℤ) (now later : ℕ) (es : List CounterEntry)
    → now ≤ later
    → Within limit now es
    → Within limit later es
Within-mono limit now later es h w = record {
  nonneg = w.nonneg;
  below = omega (int_laws, total-mono now later [] es h w.nonneg);
}

pub load_counter-entries :
    (e : Engine) (network : Text) (cf : CounterFile)
    → load_counter e network ≡ some cf
    → cf.entries ≡ entries_of (e.disk network)
unfolding load_counter
load_counter-entries e network cf h = ground arith

if-Within :
    (limit : ℤ) (now : ℕ) (b : Bool) (u v : Stored)
    → (b ≡ true → Within limit now (entries_of u))
    → Within limit now (entries_of v)
    → Within limit now (entries_of (if b then u else v))
if-Within limit now true u v hu hv = hu refl
if-Within limit now false u v hu hv = hv

-- A write puts the pruned entries on its own network's file, and leaves the others.
pub write_counter-Within :
    (e : Engine) (io : Io) (network net : Text) (cf : CounterFile) (now : ℕ) (limit : ℤ)
    → Within limit now (entries_of (e.disk net))
    → (network ≡ net → Within limit now cf.entries)
    → Within limit now (entries_of ((write_counter e io network cf now).0.disk net))
unfolding write_counter prune
write_counter-Within e io network net cf now limit old new = elim (Bool-cases io.write_ok) [
  | inr no_write ↦ rw no_write old
  | inl wrote ↦ rw wrote (
      if-Within limit now (text_eq net network) (file (written e network cf now)) (e.disk net)
        (λ same.
          prune_entries-Within limit now cf.entries (new (sym ((text_eq_iff net network).0 same))))
        old)
]
