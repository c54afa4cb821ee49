-- ===== src/Policy/Engine.antt =====
-- The policy engine (internal/policy/engine.go): loading, the dry run, and the life of a spend
-- reservation. A per-network lock makes each call one step on the counter of its network, so calls
-- are functions on the engine's state. What the file system and the clock do is an argument: the
-- outcome of the lock and of the write, and the instants that the clock gives.
pub mod Settlement
pub mod Orphans
pub mod Cases
pub mod Load
pub mod Reserve
pub mod Settle
pub mod Within
pub mod Budget
pub mod History
use daxib.Prelude.{
  ℕ, Bool, true, false, ◌&&◌, not, [], ◌∷◌, ◌++◌, Option, none, some, ltb, if◌then◌else◌, Text,
  text_eq, is_empty,
}
use daxib.Prelude.Int.{ℤ, pos}
use daxib.Prelude.Decimal.{to_string}
use daxib.Policy.Body.{Policy}
use daxib.Policy.Evaluate.{Check, Decision, allow, evaluate, window_charge}
use daxib.Policy.Counter.{
  CounterEntry, CounterFile, EntryState, reserved, committed, released, is_committed, is_released,
  instant, sum_window, prune, find_entry, update_entry,
}
use daxib.Policy.Seal.{
  Codec, Anchor, SealError, seal_violation, rollback, Loaded, verify_under_anchor, decode_envelope,
  decode_body_strict,
}
use daxib.Prelude.Outcome.{◌>>=◌, ◌>>◌, require, or_fail}
use daxib.Prelude.Outcome
use daxib.Policy.Seal

pub data Error : Type 0 where
  seal : SealError → Error
  denied : Decision → Error
  state_error lock_timeout admin_auth : Error

pub data Result {ℓ} (A : Type ℓ) : Type ℓ where
  ok : A → Result A
  err : Error → Result A

-- policy.json on disk.
pub data PolicyFile : Type 0 where
  missing unreadable : PolicyFile
  bytes : Text → PolicyFile

-- A counter file on disk. `corrupt` is any file that cannot be read or decoded.
pub data Stored : Type 0 where
  missing corrupt : Stored
  file : CounterFile → Stored

pub record Engine : Type 0 where
  pub anchor : Anchor
  pub anchor_found : Bool
  pub policy_file : PolicyFile
  pub disk : Text → Stored
  pub active_nonce : ℕ

pub data Lock : Type 0 where
  acquired timed_out failed : Lock

pub record Io : Type 0 where
  pub lock : Lock
  pub write_ok : Bool

pub record Reservation : Type 0 where
  pub id : Text
  pub network : Text
  pub sat : ℤ
  pub noop : Bool

-- The reservation of the permissive case.
abbrev pub no_reservation : Reservation
no_reservation = record { id = []; network = []; sat = pos 0; noop = true }

module _ (k : Codec) where
  -- The part of loadActive behind the three presence tests.
  unfoldable pub load_sealed : Anchor → Text → Loaded Policy
  load_sealed a raw = do
    opened ← decode_envelope k raw
    sig ← or_fail (k.base64 opened.0.sig) (seal_violation Seal.unparseable)
    require (verify_under_anchor k opened.1 sig a) (seal_violation Seal.bad_sig)
    p ← decode_body_strict k opened.1
    require (not (ltb p.nonce a.nonce_watermark)) (rollback p.nonce a.nonce_watermark)
    Outcome.ok p

  -- loadActive: `some p` is an active policy, `none` the permissive case.
  unfoldable pub load_active : Engine → Loaded (Option Policy)
  load_active e = elim e.policy_file [
    | unreadable ↦ Outcome.err (seal_violation Seal.unreadable)
    | missing ↦
        if e.anchor_found then Outcome.err (seal_violation Seal.missing) else Outcome.ok none
    | bytes raw ↦
        if e.anchor_found
        then elim (load_sealed e.anchor raw) [
          | Outcome.ok p ↦ Outcome.ok (some p)
          | Outcome.err x ↦ Outcome.err x
        ]
        else Outcome.err (seal_violation Seal.anchor_missing)
  ]

-- loadCounter
unfoldable pub load_counter : Engine → Text → Option CounterFile
load_counter e network = elim (e.disk network) [
  | missing ↦ some (record { version = 1; policy_nonce = 0; network = network; entries = [] })
  | corrupt ↦ none
  | file cf ↦ some (if is_empty cf.network then record cf { network = network } else cf)
]

abbrev pub set_disk : (Text → Stored) → Text → Stored → Text → Stored
set_disk d network v n = if text_eq n network then v else d n

-- The file that writeCounter writes: stamped, and pruned.
abbrev pub written : Engine → Text → CounterFile → ℕ → CounterFile
written e network cf now =
    prune (record cf { version = 1; network = network; policy_nonce = e.active_nonce }) now

-- writeCounter, with the outcome of the write.
unfoldable pub write_counter : Engine → Io → Text → CounterFile → ℕ → Engine × Result (Unit {0})
write_counter e io network cf now =
    if io.write_ok
    then (record e { disk = set_disk e.disk network (file (written e network cf now)) }, ok tt)
    else (e, err state_error)

-- The body runs only under the lock.
unfoldable pub guarded {ℓ} :
    {A : Type ℓ} → Lock → Engine → (Engine → Engine × Result A) → Engine × Result A
guarded acquired e fn = fn e
guarded timed_out e fn = (e, err lock_timeout)
guarded failed e fn = (e, err state_error)

-- withNetworkLock
unfoldable pub with_lock {ℓ} :
    {A : Type ℓ} → Io → Engine → (Engine → Engine × Result A) → Engine × Result A
with_lock io e fn = guarded io.lock e fn

-- What a successful load leaves in the engine: the nonce that counter writes are stamped with.
abbrev pub activate : Engine → Policy → Engine
activate e p = record e { active_nonce = p.nonce }

-- The instants that Reserve takes from the clock: for the sum, the evaluation and the entry.
pub record Clock : Type 0 where
  pub at_sum : ℕ
  pub at_evaluate : ℕ
  pub at_write : ℕ

-- The entry that Reserve appends.
abbrev pub new_entry : Check → Text → ℕ → CounterEntry
new_entry req id now = record {
  id = id;
  ts = instant now;
  sat = to_string (window_charge req);
  state = reserved;
  hash = [];
}

-- A step that succeeds, with its answer.
abbrev pub answer {ℓ} : {A : Type ℓ} → Engine × Result (Unit {0}) → A → Engine × Result A
answer (e, ok _) a = (e, ok a)
answer (e, err x) a = (e, err x)

-- The locked part of Reserve, under a loaded policy; `id` is the fresh ULID.
unfoldable pub reserve_locked :
    Policy → Check → Clock → Text → Io → Engine → Engine × Result Reservation
reserve_locked p req t id io e = elim (load_counter e req.network) [
  | none ↦ (e, err state_error)
  | some cf ↦
      let d = evaluate p req (some (sum_window cf t.at_sum [])) t.at_evaluate in
      if d.allowed
      then answer
          (write_counter e io req.network
            (record cf { entries = cf.entries ++ new_entry req id t.at_write ∷ [] }) t.at_write)
          (record { id = id; network = req.network; sat = window_charge req; noop = false })
      else (e, err (denied d))
]

-- Reserve
unfoldable pub reserve : Codec → Engine → Check → Clock → Text → Io → Engine × Result Reservation
reserve k e req t id io = elim (load_active k e) [
  | Outcome.err x ↦ (e, err (seal x))
  | Outcome.ok none ↦ (e, ok no_reservation)
  | Outcome.ok (some p) ↦ with_lock io (activate e p) (reserve_locked p req t id io)
]

-- Check, the dry run.
unfoldable pub check : Codec → Engine → Check → Clock → Io → Engine × Result Decision
check k e req t io = elim (load_active k e) [
  | Outcome.err x ↦ (e, err (seal x))
  | Outcome.ok none ↦ (e, ok allow)
  | Outcome.ok (some p) ↦ with_lock io (activate e p) (λ e'. elim (load_counter e' req.network) [
    | none ↦ (e', err state_error)
    | some cf ↦ (e', ok (evaluate p req (some (sum_window cf t.at_sum [])) t.at_evaluate))
  ])
]
