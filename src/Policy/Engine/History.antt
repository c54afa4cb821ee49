-- ===== src/Policy/Engine/History.antt =====
-- Histories of an engine: reservations, settlements and the passing of time, in any order.
use daxib.Prelude.{ℕ, ◌≤◌, ◌≡◌, ◌∙◌, Option, some, [], Text, arith}
use daxib.Prelude.Int.{ℤ, ◌≤ℤ◌}
use daxib.Prelude.Outcome
use daxib.Policy.Body.{Policy}
use daxib.Policy.Evaluate.{Check}
use daxib.Policy.Evaluate.Limits.{resolve_limits}
use daxib.Policy.Counter.{EntryState, CounterFile, sum_window}
use daxib.Policy.Counter.Window.{sum_window-total}
use daxib.Policy.Engine.{
  Engine, Io, Clock, Error, with_lock, activate, load_active, load_counter, reserve, reserve_locked,
}
use daxib.Policy.Engine.Settlement.{
  transition, transition_locked, release_reservation, release_locked,
}
use daxib.Policy.Engine.Cases.{
  reserve_locked_cases, transition_locked_cases, release_locked_cases, release_reservation_cases,
  with_lock-engine, load_active-write_counter,
}
use daxib.Policy.Engine.Within.{Within, entries_of, Within-mono, load_counter-entries}
use daxib.Policy.Engine.Budget.{
  NoRevival, reserve_locked-Within, transition_locked-Within, release_locked-Within,
}
use daxib.Policy.Seal.{Codec}

-- The engines that calls can bring about, each with the instant of its last call. The clock does not
-- run backwards, and no commit is made of a reservation that was released.
pub data Reach (k : Codec) (start : Engine) (begin : ℕ) : Engine → ℕ → Type 0 where
  here : Reach k start begin start begin
  reserves :
      {e : Engine} {now : ℕ} (req : Check) (t : Clock) (id : Text) (io : Io)
      → now ≤ t.at_sum
      → t.at_sum ≤ t.at_write
      → Reach k start begin e now
      → Reach k start begin (reserve k e req t id io).0 t.at_write
  transitions :
      {e : Engine} {now : ℕ} (network id : Text) (to : EntryState) (txid : Text) (later : ℕ)
      (io : Io)
      → now ≤ later
      → NoRevival e network id to
      → Reach k start begin e now
      → Reach k start begin (transition e network id to txid later io).0 later
  frees :
      {e : Engine} {now : ℕ} (refusal : Option Error) (network id : Text) (later : ℕ) (io : Io)
      → now ≤ later
      → Reach k start begin e now
      → Reach k start begin (release_reservation e refusal network id later io).0 later

-- The policy is loaded, and the entries of the network are within the limit.
abbrev pub InBudget : Codec → Policy → Text → ℤ → Engine → ℕ → Type 0
InBudget k p net limit e now =
    (load_active k e ≡ Outcome.ok (some p)) × Within limit now (entries_of (e.disk net))

module _ (k : Codec) (p : Policy) (net : Text) (limit : ℤ) (e : Engine) (now : ℕ) where
  reserve-InBudget :
      (req : Check) (t : Clock) (id : Text) (io : Io)
      → (resolve_limits p net).max_day ≡ some limit
      → now ≤ t.at_sum
      → t.at_sum ≤ t.at_write
      → InBudget k p net limit e now
      → InBudget k p net limit (reserve k e req t id io).0 t.at_write
  unfolding reserve load_active
  reserve-InBudget req t id io day h h' (loaded, w) =
      let w' = Within-mono limit now t.at_write _ (omega arith) w in
      rw (loaded, reserve)
        (with_lock-engine (λ e'. InBudget k p net limit e' t.at_write) io (activate e p)
          (reserve_locked p req t id io) (loaded, w')
          (
            reserve_locked_cases (λ e'. load_active k e' ≡ Outcome.ok (some p)) p req t id io
                (activate e p) loaded
                (λ cf _ _. load_active-write_counter k (activate e p) io _ _ _ ∙ loaded),
            reserve_locked-Within p req t id net io (activate e p) limit now h h' day w,
          ))

  transition-InBudget :
      (network id : Text) (to : EntryState) (txid : Text) (later : ℕ) (io : Io)
      → now ≤ later
      → NoRevival e network id to
      → InBudget k p net limit e now
      → InBudget k p net limit (transition e network id to txid later io).0 later
  unfolding transition
  transition-InBudget network id to txid later io h fresh (loaded, w) =
      with_lock-engine (λ e'. InBudget k p net limit e' later) io e
        (transition_locked network id to txid later io) (loaded, Within-mono limit now later _ h w)
        (
          transition_locked_cases (λ e'. load_active k e' ≡ Outcome.ok (some p)) network id to txid
              later io e loaded (λ cf ent _ _. load_active-write_counter k e io _ _ _ ∙ loaded),
          transition_locked-Within network id net to txid now later io e limit h fresh w,
        )

  release_locked-InBudget :
      (network id : Text) (later : ℕ) (io : Io)
      → now ≤ later
      → InBudget k p net limit e now
      → InBudget k p net limit (with_lock io e (release_locked network id later io)).0 later
  release_locked-InBudget network id later io h (loaded, w) =
      with_lock-engine (λ e'. InBudget k p net limit e' later) io e
        (release_locked network id later io) (loaded, Within-mono limit now later _ h w)
        (
          release_locked_cases (λ e'. load_active k e' ≡ Outcome.ok (some p)) network id later io e
              loaded (λ cf ent _ _. load_active-write_counter k e io _ _ _ ∙ loaded),
          release_locked-Within network id net now later io e limit h w,
        )

  release_reservation-InBudget :
      (refusal : Option Error) (network id : Text) (later : ℕ) (io : Io)
      → now ≤ later
      → InBudget k p net limit e now
      → InBudget k p net limit (release_reservation e refusal network id later io).0 later
  release_reservation-InBudget refusal network id later io h (loaded, w) =
      release_reservation_cases (λ e'. InBudget k p net limit e' later) refusal network id later io
        e (loaded, Within-mono limit now later _ h w)
        (release_locked-InBudget network id later io h (loaded, w))

module _ (k : Codec) (p : Policy) (net : Text) (limit : ℤ) (start : Engine) (begin : ℕ)
    (day : (resolve_limits p net).max_day ≡ some limit) where
  Reach-InBudget :
      {e : Engine} {now : ℕ}
      → Reach k start begin e now
      → InBudget k p net limit start begin
      → InBudget k p net limit e now
  Reach-InBudget here b = b
  Reach-InBudget (reserves {e} {now} req t id io h h' r) b =
      reserve-InBudget k p net limit e now req t id io day h h' (Reach-InBudget r b)
  Reach-InBudget (transitions {e} {now} network id to txid later io h fresh r) b =
      transition-InBudget k p net limit e now network id to txid later io h fresh
        (Reach-InBudget r b)
  Reach-InBudget (frees {e} {now} refusal network id later io h r) b =
      release_reservation-InBudget k p net limit e now refusal network id later io h
        (Reach-InBudget r b)

-- Under a loaded policy whose daily limit on a network is `limit`, and from counter entries within
-- it, no history of reservations, commits and releases, with a clock that does not run backwards and
-- no commit of a released reservation, ever brings the network's window total above the limit, then
-- or at any later instant.
pub Reach-sum_window-le :
    (k : Codec) (p : Policy) (net : Text) (limit : ℤ) (start e : Engine) (begin now later : ℕ)
    (cf : CounterFile)
    → (resolve_limits p net).max_day ≡ some limit
    → load_active k start ≡ Outcome.ok (some p)
    → Within limit begin (entries_of (start.disk net))
    → Reach k start begin e now
    → load_counter e net ≡ some cf
    → now ≤ later
    → sum_window cf later [] ≤ℤ limit
Reach-sum_window-le k p net limit start e begin now later cf day loaded w r c h =
    let w' =
      Within-mono limit now later _ h
        (Reach-InBudget k p net limit start begin day r (loaded, w)).1 in
    rw (sum_window-total, load_counter-entries e net cf c) w'.below
