-- ===== src/Policy/Engine/Cases.antt =====
-- What each call can do to the engine: it leaves it alone, or it writes one counter.
use daxib.Prelude.{
  ℕ, ◌≡◌, ◌⊎◌, refl, true, [], ◌∷◌, ◌++◌, Option, some, inl, inr, Bool-cases, Option-cases, Text,
  is_empty, ◌&&◌,
}
use daxib.Policy.Body.{Policy}
use daxib.Policy.Evaluate.{Check, evaluate}
use daxib.Policy.Counter.{
  CounterEntry, CounterFile, EntryState, released, is_released, is_committed, find_entry,
  update_entry, sum_window,
}
use daxib.Policy.Engine.{
  Engine, Lock, acquired, timed_out, failed, Io, Clock, ok, err, load_active, load_counter,
  write_counter, guarded, with_lock, new_entry, answer, Result, reserve_locked, Error,
}
use daxib.Policy.Engine.Settlement.{moved, transition_locked, release_locked, release_reservation}
use daxib.Policy.Seal.{Codec}

pub Result-cases {ℓ} :
    {A : Type ℓ} (r : Result A) → ((a : A) × (r ≡ ok a)) ⊎ ((x : Error) × (r ≡ err x))
Result-cases (ok a) = inl (a, refl)
Result-cases (err x) = inr (x, refl)

answer-engine {ℓ κ} :
    {A : Type κ} (Q : Engine → Type ℓ) (m : Engine × Result (Unit {0})) (a : A)
    → Q m.0
    → Q (answer m a).0
answer-engine Q (e, ok _) a h = h
answer-engine Q (e, err x) a h = h

pub reserve_locked_cases {ℓ} :
    (Q : Engine → Type ℓ) (p : Policy) (req : Check) (t : Clock) (id : Text) (io : Io) (e : Engine)
    → Q e
    → ((cf : CounterFile)
        → load_counter e req.network ≡ some cf
        → (evaluate p req (some (sum_window cf t.at_sum [])) t.at_evaluate).allowed ≡ true
        → Q
            (write_counter e io req.network
              (record cf { entries = cf.entries ++ new_entry req id t.at_write ∷ [] })
              t.at_write).0)
    → Q (reserve_locked p req t id io e).0
unfolding reserve_locked
reserve_locked_cases Q p req t id io e same wrote =
    elim (Option-cases (load_counter e req.network)) [
      | inl e0 ↦ rw (e0, reserve_locked) same
      | inr (cf, e1) ↦
          let d = evaluate p req (some (sum_window cf t.at_sum [])) t.at_evaluate in
          elim (Bool-cases d.allowed) [
            | inl a ↦ rw (e1, reserve_locked, a) (answer-engine Q _ _ (wrote cf e1 a))
            | inr a ↦ rw (e1, reserve_locked, a) same
          ]
    ]

pub transition_locked_cases {ℓ} :
    (Q : Engine → Type ℓ) (network id : Text) (to : EntryState) (txid : Text) (now : ℕ) (io : Io)
    (e : Engine)
    → Q e
    → ((cf : CounterFile) (ent : CounterEntry)
        → load_counter e network ≡ some cf
        → find_entry cf.entries id ≡ some ent
        → Q
            (write_counter e io network
              (record cf { entries = update_entry cf.entries id (moved ent to txid) })
              now).0)
    → Q (transition_locked network id to txid now io e).0
unfolding transition_locked
transition_locked_cases Q network id to txid now io e same wrote =
    elim (Option-cases (load_counter e network)) [
      | inl e0 ↦ rw (e0, transition_locked) same
      | inr (cf, e1) ↦ elim (Option-cases (find_entry cf.entries id)) [
        | inl f0 ↦ rw (e1, transition_locked, f0) same
        | inr (ent, f1) ↦ elim (Bool-cases (is_committed ent.state && is_released to)) [
          | inl b ↦ rw (e1, transition_locked, f1, b) same
          | inr b ↦ rw (e1, transition_locked, f1, b) (wrote cf ent e1 f1)
        ]
      ]
    ]

pub release_locked_cases {ℓ} :
    (Q : Engine → Type ℓ) (network id : Text) (now : ℕ) (io : Io) (e : Engine)
    → Q e
    → ((cf : CounterFile) (ent : CounterEntry)
        → load_counter e network ≡ some cf
        → find_entry cf.entries id ≡ some ent
        → Q
            (write_counter e io network
              (record cf { entries = update_entry cf.entries id (moved ent released []) })
              now).0)
    → Q (release_locked network id now io e).0
unfolding release_locked
release_locked_cases Q network id now io e same wrote =
    elim (Option-cases (load_counter e network)) [
      | inl e0 ↦ rw (e0, release_locked) same
      | inr (cf, e1) ↦ elim (Option-cases (find_entry cf.entries id)) [
        | inl f0 ↦ rw (e1, release_locked, f0) same
        | inr (ent, f1) ↦ elim (Bool-cases (is_committed ent.state)) [
          | inl b ↦ rw (e1, release_locked, f1, b) same
          | inr b ↦ elim (Bool-cases (is_released ent.state)) [
            | inl r ↦ rw (e1, release_locked, f1, b, r) same
            | inr r ↦ rw (e1, release_locked, f1, b, r) (wrote cf ent e1 f1)
          ]
        ]
      ]
    ]

guarded-engine {ℓ κ} :
    {A : Type κ} (Q : Engine → Type ℓ) (l : Lock) (e : Engine) (fn : Engine → Engine × Result A)
    → Q e
    → Q (fn e).0
    → Q (guarded l e fn).0
unfolding guarded
guarded-engine Q acquired e fn same ran = ran
guarded-engine Q timed_out e fn same ran = same
guarded-engine Q failed e fn same ran = same

pub with_lock-engine {ℓ κ} :
    {A : Type κ} (Q : Engine → Type ℓ) (io : Io) (e : Engine) (fn : Engine → Engine × Result A)
    → Q e
    → Q (fn e).0
    → Q (with_lock io e fn).0
unfolding with_lock
with_lock-engine Q io e fn same ran = guarded-engine Q io.lock e fn same ran

pub release_reservation_cases {ℓ} :
    (Q : Engine → Type ℓ) (refusal : Option Error) (network id : Text) (now : ℕ) (io : Io)
    (e : Engine)
    → Q e
    → Q (with_lock io e (release_locked network id now io)).0
    → Q (release_reservation e refusal network id now io).0
unfolding release_reservation
release_reservation_cases Q refusal network id now io e same ran = elim (Bool-cases (is_empty id)) [
  | inl b ↦ rw b same
  | inr b ↦ elim (Bool-cases e.anchor_found) [
    | inr a ↦ rw b (simp a same)
    | inl a ↦ elim (Option-cases refusal) [
      | inl n ↦ rw (b, n) (simp a ran)
      | inr (x, n) ↦ rw (b, n) (simp a same)
    ]
  ]
]

-- No write touches what the policy is loaded from.
pub load_active-write_counter :
    (k : Codec) (e : Engine) (io : Io) (network : Text) (cf : CounterFile) (now : ℕ)
    → load_active k (write_counter e io network cf now).0 ≡ load_active k e
unfolding load_active write_counter
load_active-write_counter k e io network cf now = elim (Bool-cases io.write_ok) [
  | inl b ↦ rw b
  | inr b ↦ rw b
]
