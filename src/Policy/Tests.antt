-- ===== src/Policy/Tests.antt =====
-- Runs of the policy on concrete values, and the theorems at those values.
use daxib.Prelude.{
  ℕ, ◌+◌, ◌*◌, ◌^◌, ◌≡◌, ◌≢◌, ◌↔◌, refl, inr, true, false, [], ◌∷◌, none, some, arith, Text, codes,
  replicate, text_eq, equal_fold, if◌then◌else◌,
}
use daxib.Prelude.Int.{pos, ◌+ℤ◌, ◌≤ℤ◌}
use daxib.Prelude.Decimal.{set_string, to_string}
use daxib.Prelude.Outcome
use daxib.Policy.Body.{
  Policy, Limit, absent, null, text, unset, flag, or_zero, parse_sat, override_sat, bool_or,
  PinEntry,
}
use daxib.Policy.Body
use daxib.Policy.Evaluate.{
  Check, evaluate, check_tx, check_day, check_fee_rate, match_pin_addr, spend_sat, window_charge,
}
use daxib.Policy.Evaluate.Limits.{resolve_limits}
use daxib.Policy.Evaluate.FirstViolation.{FirstViolation, evaluate-FirstViolation}
use daxib.Policy.Evaluate.InForce.{Resolved, rule_of, resolve_limits-Resolved, unparseable-denies}
use daxib.Policy.Counter.{
  CounterEntry, CounterFile, instant, reserved, committed, released, sum_window, prune,
  prune_entries, keeps, aged, find_entry, update_entry,
}
use daxib.Policy.Counter.Window.{total}
use daxib.Policy.Seal.{
  Codec, Anchor, verify_under_anchor, verify, decode_key, verify_key_next_bytes, decode_envelope,
  decode_body_strict,
}
use daxib.Policy.Seal
use daxib.Policy.Engine.{
  Engine, Lock, Io, Clock, Error, denied, Result, ok, err, missing, bytes, Stored, file,
  load_active, load_sealed, load_counter, reserve, reserve_locked, check, with_lock, guarded,
  write_counter, no_reservation,
}
use daxib.Policy.Engine.Settlement.{transition, transition_locked, release_reservation}
use daxib.Policy.Engine
use daxib.Policy.Engine.Load.{Sealed, load_active_fail_closed}
use daxib.Policy.Engine.Reserve.{reserve-check, reserve-Recorded, Recorded}
use daxib.Policy.Engine.Settle.{committed_is_final, commit_revives}
use daxib.Policy.Engine.History.{here, reserves, transitions, Reach-sum_window-le}

abbrev no_limits : Body.Limits
no_limits = record {
  max_tx_sat = absent;
  max_day_sat = absent;
  max_fee_rate = absent;
  allowlist_on = unset;
  include_self = unset;
}

-- At most 100000 sat a transaction, 150000 sat a day and 50 sat/vB; regtest has no daily limit, and
-- testnet's fee-rate cap does not parse.
abbrev policy : Policy
policy = record {
  version = pos 1;
  nonce = 7;
  updated_at = [];
  written_by = [];
  rules = record {
    default = record no_limits {
      max_tx_sat = text (codes "100000");
      max_day_sat = text (codes "150000");
      max_fee_rate = text (codes "50");
    };
    networks =
        record { network = codes "regtest"; limits = record no_limits { max_day_sat = null } }
        ∷ record {
          network = codes "testnet";
          limits = record no_limits { max_fee_rate = text (codes "5x") };
        }
        ∷ [];
  };
  allowlist = [];
  denylist =
      record { source = codes "address"; address = codes "bc1bad"; label = []; added_at = [] } ∷ [];
  self_addresses = [];
}

abbrev spend : Check
spend = record {
  network = codes "mainnet";
  recipient = codes "bc1good";
  amount_sat = pos 80_000;
  fee_sat = pos 1_000;
  fee_rate = pos 5;
  change_addr = [];
  prior_spent_sat = pos 0;
}

-- A seal of one file under one key.
abbrev codec : Codec
codec = record {
  json_envelope = λ raw.
      if text_eq raw (codes "file")
      then some (record { version = pos 1; body_b64 = codes "body"; alg = []; sig = codes "sig" })
      else none;
  base64 = λ s.
      if text_eq s (codes "sig")
      then some (replicate 64 1)
      else if text_eq s (codes "key")
      then some (replicate 32 2)
      else some s;
  json_head = λ body. record { version = pos 1; written_by = [] };
  json_body = λ body. if text_eq body (codes "body") then some policy else none;
  json_probe = λ body. none;
  ed25519 = λ key subject sig. text_eq subject (codes "daxib/policy/v1\nbody");
}

abbrev engine : Engine
engine = record {
  anchor = record {
    verify_key = codes "ed25519:key";
    verify_key_next = [];
    salt = codes "salt";
    scrypt = record { n = pos 131072; r = pos 8; p = pos 1 };
    nonce_watermark = 6;
    staged_salt = [];
  };
  anchor_found = true;
  policy_file = bytes (codes "file");
  disk = λ network. Stored.missing;
  active_nonce = 0;
}

engine-loads : load_active codec engine ≡ Outcome.ok (some policy)
unfolding load_active load_sealed decode_envelope verify_under_anchor decode_body_strict text_eq
engine-loads = refl

rolled_back : Engine
rolled_back = record engine { anchor = record engine.anchor { nonce_watermark = 8 } }

rollback_refused : load_active codec rolled_back ≡ Outcome.err (Seal.rollback 7 8)
unfolding rolled_back load_active load_sealed decode_envelope verify_under_anchor decode_body_strict
    text_eq
rollback_refused = refl

abbrev running : Io
running = record { lock = Lock.acquired; write_ok = true }

abbrev no_write : Io
no_write = record { lock = Lock.acquired; write_ok = false }

abbrev day : ℕ
day = 24 * 3600 * 10 ^ 9

abbrev at : ℕ → Clock
at t = record { at_sum = t; at_evaluate = t; at_write = t }

-- One spend of 81000 sat is reserved; a second one is over the daily limit until a day has passed.
abbrev first : Engine × Result Engine.Reservation
first = reserve codec engine spend (at 1_000) (codes "A") running

second_denied :
    (reserve codec first.0 spend (at 2_000) (codes "B") running).1
    ≡ err (denied (evaluate policy spend (some (pos 81_000)) 2_000))
unfolding reserve load_active load_sealed decode_envelope verify_under_anchor decode_body_strict
    text_eq with_lock guarded reserve_locked load_counter write_counter prune prune_entries keeps
    sum_window evaluate check_tx check_day check_fee_rate match_pin_addr equal_fold resolve_limits
    spend_sat window_charge set_string to_string ◌+ℤ◌ or_zero
second_denied = refl

next_day_allowed :
    (reserve codec first.0 spend (at (1_000 + day)) (codes "B") running).1
    ≡ ok (record { id = codes "B"; network = codes "mainnet"; sat = pos 81_000; noop = false })
unfolding reserve load_active load_sealed decode_envelope verify_under_anchor decode_body_strict
    text_eq with_lock guarded reserve_locked load_counter write_counter prune prune_entries keeps
    sum_window evaluate check_tx check_day check_fee_rate match_pin_addr equal_fold resolve_limits
    spend_sat window_charge set_string to_string ◌+ℤ◌ or_zero
next_day_allowed = refl

evaluate-FirstViolation_example :
    (((evaluate policy spend (some (pos 81_000)) 2_000).allowed ≡ true)
      ↔ ((evaluate policy spend (some (pos 81_000)) 2_000).code ≡ none))
    × FirstViolation policy
        (resolve_limits policy (codes "mainnet"))
        spend
        (some (pos 81_000))
        (evaluate policy spend (some (pos 81_000)) 2_000).code
evaluate-FirstViolation_example = evaluate-FirstViolation policy spend (some (pos 81_000)) 2_000

resolve_limits-Resolved_example :
    Resolved policy.rules.default
      (rule_of (codes "RegTest") policy.rules.networks)
      (resolve_limits policy (codes "RegTest"))
resolve_limits-Resolved_example = resolve_limits-Resolved policy (codes "RegTest")

on_testnet : Check
on_testnet = record spend { network = codes "testnet" }

unparseable-denies_example : (evaluate policy on_testnet (some (pos 0)) 5).allowed ≡ false
unfolding on_testnet set_string equal_fold
unparseable-denies_example =
    unparseable-denies policy on_testnet (pos 0) 5 (codes "5x") refl (inr (inr (refl, omega arith)))

abbrev entry : CounterEntry
entry = record {
  id = codes "A";
  ts = instant 1_000;
  sat = codes "81000";
  state = reserved;
  hash = [];
}

abbrev counter : CounterFile
counter = record {
  version = 1;
  policy_nonce = 7;
  network = codes "mainnet";
  entries = entry ∷ record entry { id = codes "B"; state = released } ∷ [];
}

abbrev settled_entry : CounterEntry
settled_entry = record entry { state = committed; hash = codes "tx" }

-- A reservation and its commit, then a look at the window.
Reach-sum_window-le_example :
    sum_window (record counter { entries = settled_entry ∷ [] }) day [] ≤ℤ pos 150_000
unfolding reserve load_active load_sealed decode_envelope verify_under_anchor decode_body_strict
    text_eq with_lock guarded reserve_locked load_counter write_counter prune prune_entries keeps
    sum_window evaluate check_tx check_day check_fee_rate match_pin_addr equal_fold resolve_limits
    spend_sat window_charge set_string to_string ◌+ℤ◌ or_zero transition transition_locked
    find_entry update_entry total
Reach-sum_window-le_example =
    Reach-sum_window-le codec policy (codes "mainnet") (pos 150_000) engine
      (transition first.0 (codes "mainnet") (codes "A") committed (codes "tx") 2_000 running).0 0
      2_000 day (record counter { entries = settled_entry ∷ [] }) refl engine-loads
      (record { nonneg = tt; below = omega arith })
      (transitions (codes "mainnet") (codes "A") committed (codes "tx") 2_000 running (omega arith)
        (λ ent f r. ground arith)
        (reserves spend (at 1_000) (codes "A") running (omega arith) (omega arith) here))
      refl (omega arith)

reserve-check_example :
    let d = evaluate policy spend (some (pos 81_000)) 2_000 in
    (d.allowed ≡ true
      → (x : Error) → (reserve codec first.0 spend (at 2_000) (codes "B") running).1 ≢ err x)
    × (d.allowed ≡ false
        → (reserve codec first.0 spend (at 2_000) (codes "B") running).1 ≡ err (denied d))
unfolding check reserve load_active load_sealed decode_envelope verify_under_anchor
    decode_body_strict text_eq with_lock guarded reserve_locked load_counter write_counter prune
    prune_entries keeps sum_window evaluate check_tx check_day check_fee_rate match_pin_addr
    equal_fold resolve_limits spend_sat window_charge set_string to_string ◌+ℤ◌ or_zero
reserve-check_example =
    reserve-check codec first.0 spend (at 2_000) (codes "B") running
      (evaluate policy spend (some (pos 81_000)) 2_000) refl refl

abbrev taken : Engine.Reservation
taken = record { id = codes "A"; network = codes "mainnet"; sat = pos 81_000; noop = false }

reserve-Recorded_example :
    Recorded first.0 spend (codes "A") 1_000
    × (taken.id ≡ codes "A")
    × (taken.network ≡ spend.network)
    × (taken.sat ≡ window_charge spend)
unfolding reserve load_active load_sealed decode_envelope verify_under_anchor decode_body_strict
    text_eq with_lock guarded reserve_locked load_counter write_counter prune prune_entries keeps
    sum_window evaluate check_tx check_day check_fee_rate match_pin_addr equal_fold resolve_limits
    spend_sat window_charge set_string to_string ◌+ℤ◌ or_zero
reserve-Recorded_example =
    reserve-Recorded codec engine spend (at 1_000) (codes "A") running taken refl refl

-- An engine whose counter file is given.
abbrev with_counter : CounterFile → Engine
with_counter cf = record engine { disk = λ network. file cf }

committed_is_final_example :
    let e = with_counter (record counter { entries = settled_entry ∷ [] }) in
    ((transition e (codes "mainnet") (codes "A") released [] 9 running).0 ≡ e)
    × ((release_reservation e none (codes "mainnet") (codes "A") 9 running).0 ≡ e)
unfolding load_counter find_entry text_eq
committed_is_final_example =
    committed_is_final (with_counter (record counter { entries = settled_entry ∷ [] }))
      (codes "mainnet") (codes "A") [] (record counter { entries = settled_entry ∷ [] })
      settled_entry 9 running none refl refl refl

-- The released entry B is committed: the window total rises from 81000 to 162000, over the limit.
commit_revives_example :
    let e = with_counter counter in
    (cf' : CounterFile) × ((transition e
          (codes "mainnet")
          (codes "B")
          committed
          (codes "tx")
          9_000
          running).0.disk
        (codes "mainnet")
      ≡ file cf')
    × (sum_window cf' 9_000 [] ≡ sum_window counter 9_000 [] +ℤ pos 81_000)
unfolding load_counter find_entry text_eq aged set_string
commit_revives_example =
    commit_revives (with_counter counter) (codes "mainnet") (codes "B") (codes "tx") counter
      (record entry { id = codes "B"; state = released }) 9_000 running (pos 81_000) refl refl refl
      refl refl refl refl

load_active_fail_closed_example :
    ((load_active codec engine ≡ Outcome.ok none)
      ↔ ((engine.anchor_found ≡ false) × (engine.policy_file ≡ missing)))
    × ((p : Policy)
        → load_active codec engine ≡ Outcome.ok (some p)
        → (engine.anchor_found ≡ true)
          × ((raw : Text) × (engine.policy_file ≡ bytes raw) × Sealed codec engine.anchor raw p))
load_active_fail_closed_example = load_active_fail_closed codec engine
