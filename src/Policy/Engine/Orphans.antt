-- ===== src/Policy/Engine/Orphans.antt =====
-- The reservations that a crash left open (Orphans, CommitOrphan and ReleaseOrphan of
-- internal/policy/engine.go). The listing of the directory of counters is an argument.
use daxib.Prelude.{ℕ, List, [], ◌∷◌, ◌++◌, none, some, Text, if◌then◌else◌}
use daxib.Policy.Counter.{CounterEntry, committed, released, is_reserved}
use daxib.Policy.Engine.{Engine, Io, Result, ok, err, state_error, load_counter, with_lock}
use daxib.Policy.Engine.Settlement.{transition}

pub record OrphanReservation : Type 0 where
  pub id : Text
  pub network : Text
  pub sat : Text

unfoldable pub orphans_of : Text → List CounterEntry → List OrphanReservation
orphans_of network [] = []
orphans_of network (ent ∷ es) =
    let rest = orphans_of network es in
    if is_reserved ent.state
    then record { id = ent.id; network = network; sat = ent.sat } ∷ rest
    else rest

-- The body of Orphans under the lock of one network.
unfoldable pub network_orphans : Engine → Io → Text → Engine × Result (List OrphanReservation)
network_orphans e io network = with_lock io e (λ e'. elim (load_counter e' network) [
  | none ↦ (e', err state_error)
  | some cf ↦ (e', ok (orphans_of network cf.entries))
])

unfoldable pub collect_orphans : Engine → List (Text × Io) → Result (List OrphanReservation)
collect_orphans e [] = ok []
collect_orphans e ((network, io) ∷ ns) =
    let rest = collect_orphans e ns in
    elim (network_orphans e io network).1 [
      | err x ↦ err x
      | ok os ↦ elim rest [ err x ↦ err x | ok more ↦ ok (os ++ more) ]
    ]

-- What reading the directory comes to.
pub data SpendDir : Type 0 where
  absent unreadable : SpendDir
  listed : List (Text × Io) → SpendDir

-- Orphans
unfoldable pub orphans : Engine → SpendDir → Result (List OrphanReservation)
orphans e absent = ok []
orphans e unreadable = err state_error
orphans e (listed ns) = collect_orphans e ns

-- CommitOrphan
unfoldable pub commit_orphan : Engine → Text → Text → Text → ℕ → Io → Engine × Result (Unit {0})
commit_orphan e network id txid now io = transition e network id committed txid now io

-- ReleaseOrphan
unfoldable pub release_orphan : Engine → Text → Text → ℕ → Io → Engine × Result (Unit {0})
release_orphan e network id now io = transition e network id released [] now io
