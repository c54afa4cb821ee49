-- ===== src/Policy/Engine/Settlement.antt =====
-- The later life of a reservation (internal/policy/engine.go): commit, release, adoption by another
-- process, the administrator's release, and the look-up of its state.
use daxib.Prelude.{ℕ, false, ◌&&◌, [], Option, none, some, if◌then◌else◌, Text, is_empty}
use daxib.Prelude.Int.{pos}
use daxib.Policy.Counter.{
  CounterEntry, EntryState, committed, released, is_committed, is_released, find_entry,
  update_entry,
}
use daxib.Policy.Engine.{
  Engine, Io, Reservation, Result, ok, err, Error, state_error, admin_auth, load_counter,
  write_counter, with_lock, no_reservation,
}

-- The state and the hash that a transition writes into an entry.
abbrev pub moved : CounterEntry → EntryState → Text → CounterEntry
moved ent to txid =
    if is_empty txid then record ent { state = to } else record ent { state = to; hash = txid }

unfoldable pub transition_locked :
    Text → Text → EntryState → Text → ℕ → Io → Engine → Engine × Result (Unit {0})
transition_locked network id to txid now io e = elim (load_counter e network) [
  | none ↦ (e, err state_error)
  | some cf ↦ elim (find_entry cf.entries id) [
    | none ↦ (e, ok tt)
    | some ent ↦
        if is_committed ent.state && is_released to
        then (e, ok tt)
        else write_counter e io network
            (record cf { entries = update_entry cf.entries id (moved ent to txid) }) now
  ]
]

-- transition
unfoldable pub transition :
    Engine → Text → Text → EntryState → Text → ℕ → Io → Engine × Result (Unit {0})
transition e network id to txid now io =
    with_lock io e (transition_locked network id to txid now io)

-- Reservation.Commit
unfoldable pub commit : Engine → Reservation → Text → ℕ → Io → Engine × Result (Unit {0})
commit e r txid now io =
    if r.noop then (e, ok tt) else transition e r.network r.id committed txid now io

-- Reservation.Release
unfoldable pub release : Engine → Reservation → ℕ → Io → Engine × Result (Unit {0})
release e r now io = if r.noop then (e, ok tt) else transition e r.network r.id released [] now io

-- AdoptReservation
unfoldable pub adopt_reservation : Text → Text → Reservation
adopt_reservation id network =
    if is_empty id
    then no_reservation
    else record { id = id; network = network; sat = pos 0; noop = false }

unfoldable pub release_locked : Text → Text → ℕ → Io → Engine → Engine × Result (Unit {0})
release_locked network id now io e = elim (load_counter e network) [
  | none ↦ (e, err state_error)
  | some cf ↦ elim (find_entry cf.entries id) [
    | none ↦ (e, err state_error)
    | some ent ↦
        if is_committed ent.state
        then (e, err state_error)
        else if is_released ent.state
        then (e, ok tt)
        else write_counter e io network
            (record cf { entries = update_entry cf.entries id (record ent { state = released }) })
            now
  ]
]

-- ReleaseReservation; `refusal` is the outcome of the admin authentication.
unfoldable pub release_reservation :
    Engine → Option Error → Text → Text → ℕ → Io → Engine × Result (Unit {0})
release_reservation e refusal network id now io =
    if is_empty id
    then (e, err state_error)
    else if e.anchor_found
    then elim refusal [
      | some x ↦ (e, err x)
      | none ↦ with_lock io e (release_locked network id now io)
    ]
    else (e, err admin_auth)

-- ReservationState
unfoldable pub reservation_state : Engine → Text → Text → Io → Engine × Result (Option EntryState)
reservation_state e network id io =
    if is_empty id
    then (e, ok none)
    else with_lock io e (λ e'. elim (load_counter e' network) [
      | none ↦ (e', err state_error)
      | some cf ↦ elim (find_entry cf.entries id) [
        | none ↦ (e', ok none)
        | some ent ↦ (e', ok (some ent.state))
      ]
    ])
