-- ===== src/Service/Tests.antt =====
-- Runs of the send pipeline, and its theorems at those values.
use mathlib.Core.List.{Mem, Memᴰ}
use daxib.Prelude.{
  if◌then◌else◌, ℕ, ◌+◌, ◌^◌, ◌<◌, ◌≡◌, ◌≢◌, ◌⊎◌, ◌↔◌, inl, inr, refl, true, false, [], ◌∷◌, none,
  some, arith, Text, codes, text_eq, Option, is_empty,
}
use daxib.Prelude.Int.{pos}
use daxib.Prelude.Outcome.{Outcome}
use daxib.Journal.{
  Record, Status, signed, broadcast, failed, JInput, JournalFile, missing, data_of, entry, lookup,
  fold_latest, entries, max_seq, is_terminal,
}
use daxib.Journal.Store.{
  Store, acquired, synced, unsynced, unwritten, append, set_state, by_txid, unresolved,
  JournalError,
}
use daxib.Journal.Store
use daxib.Journal.Write.{records, view}
use daxib.Journal.Attempt.{Attempted, set_state-Attempted}
use daxib.Policy.Evaluate.{Check}
use daxib.Policy.Engine.{Engine, Clock, Reservation, Result, ok, err, reserve}
use daxib.Policy.Engine
use daxib.Policy.Engine.Orphans.{OrphanReservation}
use daxib.Policy.Admin.Toy.{codec, policy, engine}
use daxib.Service.Broadcast.{
  BackendError, Attempt, answers, fails, accepted, rejected, transport_exhausted,
  broadcast_classified, classify_broadcast_err, contains, contains_any, has_prefix,
}
use daxib.Service.Broadcast.Outcomes.{
  Permanent, EndsWith, classify_broadcast_err-Permanent, broadcast_classified-EndsWith,
}
use daxib.Service.World.{World, Service}
use daxib.Service.Send.{Script, built, send_tx, to_broadcast}
use daxib.Service.Send.Settle.{Settled, send_tx-Settled}
use daxib.Service.Restart.{OrphanIo, reconcile_orphan, reserved_outpoints, outpoint}
use daxib.Service.Restart.Orphans.{Belongs, reconcile_orphan-Belongs}
use daxib.Service.Restart.Reserved.{reserved_outpoints-Mem}
use daxib.Service.Abandon.{AbandonIo, abandon_tx}
use daxib.Service.Abandon.Safe.{MayAbandon, Terminalized, abandon_tx-MayAbandon}

abbrev service : Service
service = record { net = codes "signet"; wallet = codes "main" }

abbrev input : JInput
input = record { txid = codes "aa"; vout = 1; value_sat = pos 90; address = codes "tb1s" }

abbrev payment : Text → ℕ → Text → Record
payment id seq reservation = record {
  v = 1;
  id = id;
  seq = seq;
  ts = codes "t0";
  network = codes "signet";
  wallet = codes "main";
  status = signed;
  source = codes "cli";
  txid = codes "ab";
  raw_tx = codes "00";
  fee_rate = pos 2;
  fee_sat = pos 10;
  vsize = pos 141;
  inputs = input ∷ [];
  outputs = [];
  recipient_addr = codes "tb1q";
  recipient_sat = pos 50;
  change_addr = [];
  confirmations = pos 0;
  block_height = pos 0;
  error = none;
  reservation_id = reservation;
  replaces_id = [];
  replaced_by_id = [];
  psbt_base64 = [];
}

-- A journal with one signed transaction, of the reservation "r0".
abbrev store : Store
store = record {
  disk = λ net.
      if text_eq net (codes "signet")
      then data_of
          (record { lines = entry (payment (codes "a") 1 (codes "r0")) ∷ []; torn = false })
      else missing;
}

abbrev world : World
world = record { journal = store; engine = engine }

abbrev io : Store.Io
io = record {
  lock = acquired;
  repairs = true;
  appended = synced;
  fresh_id = some (codes "c");
  now = codes "t1";
  stat_size = none;
  compacts = false;
}

abbrev engine_io : Engine.Io
engine_io = record { lock = Engine.acquired; write_ok = true }

abbrev spend : Check
spend = record {
  network = codes "signet";
  recipient = codes "tb1q";
  amount_sat = pos 50;
  fee_sat = pos 10;
  fee_rate = pos 2;
  change_addr = [];
  prior_spent_sat = pos 0;
}

abbrev spent_error : BackendError
spent_error = record {
  message = codes "RPC error -25: bad-txns-inputs-missingorspent";
  cancelled = false;
  code = none;
}

abbrev timeout_error : BackendError
timeout_error = record { message = codes "i/o timeout: dust"; cancelled = false; code = none }

-- The broadcast times out once, and is then accepted; the journal cannot record that.
abbrev script : Script
script = record {
  build = built spend (some (payment [] 0 []));
  clock = record { at_sum = 0; at_evaluate = 0; at_write = 0 };
  reservation_id = codes "r1";
  reserve_io = engine_io;
  append_io = io;
  attempts = fails timeout_error ∷ answers (codes "ab") ∷ [];
  commit_now = 0;
  commit_io = engine_io;
  state_io = record io { appended = unwritten };
  reject_reason = [];
  abort_read = io;
  abort_io = io;
  release_now = 0;
  release_io = engine_io;
}

abbrev reservation : Reservation
reservation = record { id = codes "r1"; network = codes "signet"; sat = pos 60; noop = false }

reserves :
    (reserve (codec policy) engine spend script.clock script.reservation_id script.reserve_io).1
    ≡ ok reservation
unfolding reserve Engine.load_active Engine.load_sealed daxib.Policy.Seal.decode_envelope text_eq
    daxib.Policy.Seal.verify_under_anchor daxib.Policy.Seal.decode_body_strict Engine.with_lock
    Engine.guarded Engine.reserve_locked Engine.load_counter daxib.Policy.Evaluate.evaluate
    daxib.Policy.Evaluate.match_pin_addr daxib.Prelude.equal_fold
    daxib.Policy.Evaluate.Limits.resolve_limits daxib.Policy.Evaluate.check_tx
    daxib.Policy.Evaluate.spend_sat daxib.Policy.Body.bool_or daxib.Policy.Body.or_zero
    daxib.Policy.Body.override_sat daxib.Policy.Body.parse_sat daxib.Policy.Counter.add_entry
    daxib.Policy.Counter.aged daxib.Policy.Counter.keeps daxib.Policy.Counter.prune
    daxib.Policy.Counter.prune_entries daxib.Policy.Counter.sum_from daxib.Policy.Counter.sum_window
    Engine.write_counter daxib.Policy.Evaluate.Limits.apply_networks
    daxib.Policy.Evaluate.Limits.default_limits daxib.Policy.Evaluate.Limits.override_limits
    daxib.Policy.Evaluate.admitted daxib.Policy.Evaluate.any_fold daxib.Policy.Evaluate.check_day
    daxib.Policy.Evaluate.check_fee_rate daxib.Policy.Evaluate.is_change
    daxib.Policy.Evaluate.is_self daxib.Policy.Evaluate.window_charge
    daxib.Policy.Seal.TriState.apply_to_networks daxib.Policy.Seal.TriState.apply_tri_state
    daxib.Policy.Seal.TriState.reconcile_tri_state daxib.Policy.Seal.TriState.set_null_if_present
    daxib.Policy.Seal.TriState.trim_space daxib.Policy.Seal.decode_key daxib.Policy.Seal.verify
    daxib.Policy.Seal.verify_key_next_bytes daxib.Prelude.Decimal.nat_to_string
    daxib.Prelude.Decimal.set_string daxib.Prelude.Decimal.to_string daxib.Prelude.Int.◌+ℤ◌
    daxib.Prelude.Int.◌-ℤ◌ daxib.Prelude.Int64.add64 daxib.Prelude.Int64.sub64
    daxib.Prelude.to_lower
reserves = refl

appends :
    (append store io (payment [] 0 (codes "r1"))).1
    ≡ Outcome.ok (payment (codes "c") 2 (codes "r1"))
unfolding append Store.repair text_eq Store.complete Store.write_record Store.append_line
    Store.maybe_compact entries fold_latest daxib.Journal.fold_onto daxib.Journal.upsert
    Store.next_seq max_seq
appends = refl

times_out : (broadcast_classified script.attempts).outcome ≡ accepted
unfolding broadcast_classified classify_broadcast_err contains_any contains has_prefix
    daxib.Prelude.to_lower daxib.Service.Broadcast.looks_transient_broadcast
times_out = refl

room : max_seq (records store (codes "signet")) + 1 < 2 ^ 64
unfolding max_seq entries text_eq
room = omega arith

send_tx-Settled_example :
    Settled service script reservation
      (codes "c")
      (broadcast_classified script.attempts).outcome
      (record {
        journal = (append store io (payment [] 0 (codes "r1"))).0;
        engine =
            (reserve
              (codec policy)
              engine
              spend
              script.clock
              script.reservation_id
              script.reserve_io).0;
      })
      (send_tx (codec policy) service script world).0
send_tx-Settled_example =
    ((send_tx-Settled (codec policy) service script world spend (payment [] 0 []) reservation refl
        refl refl room reserves).1
      (payment (codes "c") 2 (codes "r1")) appends).1

classify_broadcast_err-Permanent_example :
    ((classify_broadcast_err timeout_error).outcome ≡ rejected) ↔ Permanent timeout_error
classify_broadcast_err-Permanent_example = (classify_broadcast_err-Permanent timeout_error).0

broadcast_classified-EndsWith_example :
    ((broadcast_classified (fails timeout_error ∷ fails spent_error ∷ [])).outcome ≡ rejected)
    ↔ EndsWith rejected (fails timeout_error ∷ fails spent_error ∷ [])
broadcast_classified-EndsWith_example =
    (broadcast_classified-EndsWith (fails timeout_error ∷ fails spent_error ∷ [])).1

rejects : (broadcast_classified (fails timeout_error ∷ fails spent_error ∷ [])).outcome ≡ rejected
unfolding broadcast_classified classify_broadcast_err contains_any contains has_prefix
    daxib.Prelude.to_lower daxib.Service.Broadcast.looks_transient_broadcast
rejects = refl

set_state-Attempted_example :
    Attempted store
      (record io { appended = unsynced })
      (codes "signet")
      (codes "a")
      (to_broadcast (codes "ab"))
      (codes "a")
      (set_state store
        (record io { appended = unsynced })
        (codes "signet")
        (codes "a")
        (to_broadcast (codes "ab"))).0
set_state-Attempted_example =
    set_state-Attempted store (record io { appended = unsynced }) (codes "signet") (codes "a")
      (to_broadcast (codes "ab")) (codes "a")

abbrev abandon_io : AbandonIo
abandon_io = record {
  read = io;
  opens = true;
  state = engine_io;
  write = io;
  opens_again = true;
  now = 0;
  release = engine_io;
}

abandon_tx-MayAbandon_example :
    ((abandon_tx service abandon_io (codes "ab") world).0 ≡ world)
    ⊎ ((rec : Record) × MayAbandon service abandon_io (codes "ab") world rec
        × Terminalized service abandon_io rec world
            (abandon_tx service abandon_io (codes "ab") world).0)
abandon_tx-MayAbandon_example = abandon_tx-MayAbandon service abandon_io (codes "ab") world

abbrev orphan : OrphanReservation
orphan = record { id = codes "r0"; network = codes "signet"; sat = codes "60" }

abbrev orphan_io : OrphanIo
orphan_io = record { read = io; now = 0; settle = engine_io }

finds_a : view store (codes "signet") (codes "a") ≡ some (payment (codes "a") 1 (codes "r0"))
unfolding lookup fold_latest daxib.Journal.fold_onto entries text_eq daxib.Journal.upsert
finds_a = refl

orphan-Belongs : Belongs world orphan signed
unfolding text_eq fold_latest daxib.Journal.fold_onto entries daxib.Journal.upsert
orphan-Belongs = record {
  id = codes "a";
  rec = payment (codes "a") 1 (codes "r0");
  shown = finds_a;
  linked = refl;
  all = ((λ x. refl), tt);
}

reconcile_orphan-Belongs_example : reconcile_orphan world orphan orphan_io ≡ world
reconcile_orphan-Belongs_example =
    (reconcile_orphan-Belongs world orphan orphan_io signed orphan-Belongs).1 refl

lists : unresolved store io (codes "signet") ≡ Outcome.ok (payment (codes "a") 1 (codes "r0") ∷ [])
unfolding unresolved Store.read Store.read_all text_eq daxib.Journal.sort_by_seq_desc
    daxib.Prelude.Sort.sort Store.select_records fold_latest daxib.Journal.fold_onto entries
    daxib.Journal.upsert is_terminal
lists = refl

reserved_outpoints-Mem_example : Mem (outpoint input) (reserved_outpoints service store io)
unfolding text_eq is_terminal
reserved_outpoints-Mem_example =
    reserved_outpoints-Mem service store io (payment (codes "a") 1 (codes "r0") ∷ []) (codes "a")
      (payment (codes "a") 1 (codes "r0")) input lists finds_a refl refl ∣ Memᴰ.head refl ∣₁
