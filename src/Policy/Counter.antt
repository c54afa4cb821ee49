-- ===== src/Policy/Counter.antt =====
-- The durable rolling-24h counter of one network (internal/policy/counter.go).
-- A timestamp text is represented by what parseTS reads from it. `ts > now - 24h` is written
-- `now < ts + window`: an instant is a number of nanoseconds, and the subtraction would stop at 0.
pub mod Window
pub mod Update
use daxib.Prelude.{
  ℕ, ◌+◌, ◌*◌, ◌^◌, Bool, true, false, ◌&&◌, ◌||◌, not, List, [], ◌∷◌, Option, none, some, ltb,
  if◌then◌else◌, Text, codes, text_eq,
}
use daxib.Prelude.Int.{ℤ, pos, ◌+ℤ◌}
use daxib.Prelude.Decimal.{set_string}
use daxib.Policy.Evaluate.{window}

pub data Stamp : Type 0 where
  instant : ℕ → Stamp
  garbled : Text → Stamp

-- parseTS
abbrev pub parse_ts : Stamp → Option ℕ
parse_ts (instant t) = some t
parse_ts (garbled s) = none

-- The state text of an entry; a file may hold another text.
pub data EntryState : Type 0 where
  reserved committed released : EntryState
  unknown : Text → EntryState

abbrev pub is_released : EntryState → Bool
is_released released = true
is_released _ = false

abbrev pub is_reserved : EntryState → Bool
is_reserved reserved = true
is_reserved _ = false

abbrev pub is_committed : EntryState → Bool
is_committed committed = true
is_committed _ = false

pub record CounterEntry : Type 0 where
  pub id : Text
  pub ts : Stamp
  pub sat : Text
  pub state : EntryState
  pub hash : Text

pub record CounterFile : Type 0 where
  pub version : ℕ
  pub policy_nonce : ℕ
  pub network : Text
  pub entries : List CounterEntry

-- `ok && !ts.After(cutoff)`: a stamp that reads as an instant of 24 hours ago or earlier.
unfoldable pub aged : Stamp → ℕ → Bool
aged (instant t) now = not (ltb now (t + window))
aged (garbled s) now = false

-- The body of the loop of sumWindow: the new total after one entry.
unfoldable pub add_entry : ℕ → Text → ℤ → CounterEntry → ℤ
unfolding text_eq aged
add_entry now exclude total e =
    if text_eq e.id exclude
    then total
    else if is_released e.state
    then total
    else if aged e.ts now
    then total
    else elim (set_string e.sat) [ none ↦ total | some v ↦ total +ℤ v ]

unfoldable pub sum_from : ℕ → Text → ℤ → List CounterEntry → ℤ
unfolding add_entry
sum_from now exclude total [] = total
sum_from now exclude total (e ∷ es) = sum_from now exclude (add_entry now exclude total e) es

-- sumWindow
unfoldable pub sum_window : CounterFile → ℕ → Text → ℤ
unfolding sum_from
sum_window cf now exclude = sum_from now exclude (pos 0) cf.entries

abbrev pub is_instant : Stamp → Bool
is_instant (instant t) = true
is_instant (garbled s) = false

-- Whether prune keeps an entry.
unfoldable pub keeps : ℕ → CounterEntry → Bool
unfolding aged
keeps now e =
    if is_released e.state && (aged e.ts now || not (is_instant e.ts))
    then false
    else not (aged e.ts now && not (is_reserved e.state))

unfoldable pub prune_entries : ℕ → List CounterEntry → List CounterEntry
unfolding keeps
prune_entries now [] = []
prune_entries now (e ∷ es) = if keeps now e then e ∷ prune_entries now es else prune_entries now es

-- prune
unfoldable pub prune : CounterFile → ℕ → CounterFile
unfolding prune_entries
prune cf now = record cf { entries = prune_entries now cf.entries }

-- findEntry: the first entry of that id.
unfoldable pub find_entry : List CounterEntry → Text → Option CounterEntry
unfolding text_eq
find_entry [] id = none
find_entry (e ∷ es) id = if text_eq e.id id then some e else find_entry es id

-- What a write through the pointer that findEntry returns does to the entries.
unfoldable pub update_entry : List CounterEntry → Text → CounterEntry → List CounterEntry
unfolding text_eq
update_entry [] id v = []
update_entry (e ∷ es) id v = if text_eq e.id id then v ∷ es else e ∷ update_entry es id v
