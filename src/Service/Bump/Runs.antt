-- ===== src/Service/Bump/Runs.antt =====
-- A run of a whole replacement, and its theorem at those values.
use daxib.Prelude.{
  text_eq, true, false, if◌then◌else◌, ℕ, ◌+◌, ◌^◌, ◌<◌, ◌≡◌, ◌≢◌, ap, ◌∙◌, refl, [], ◌∷◌, none,
  some, arith, Text, codes,
}
use daxib.Prelude.Int.{pos}
use daxib.Prelude.Outcome.{Outcome}
use daxib.Journal.{Record, max_seq, is_terminal, broadcast}
use daxib.Journal.Store.{append}
use daxib.Journal.Store
use daxib.Journal.Write.{records}
use daxib.Policy.Engine.{Engine, Reservation, ok, reserve}
use daxib.Policy.Engine
use daxib.Policy.Admin.Toy.{codec, policy, engine}
use daxib.Service.Broadcast.{answers, broadcast_classified, accepted}
use daxib.Service.World.{World}
use daxib.Service.Restart.{reserved_outpoints}
use daxib.Service.Send.{Script, unbuilt}
use daxib.Service.Signing.{Signed, Signer, sign_tx, actual_signed_vsize}
use daxib.Service.Replace.{speedup, build_replacement}
use daxib.Service.Bump.{ReplaceScript, check_original, replace_tx, replacement}
use daxib.Service.Bump.Linked.{Linked}
use daxib.Service.Bump.Whole.{
  reservation_of, under_lock, Prepared, replace_tx-Linked, new_record, reserved_world, reconciled,
}
use daxib.Service.Example.{service, btc, replies, store, io, sequence}
use daxib.Service.Bump.Tests.{replaced}
use daxib.Service.Example

abbrev world : World
world = record { journal = store; engine = engine }

abbrev engine_io : Engine.Io
engine_io = record { lock = Engine.acquired; write_ok = true }

abbrev send : Script
send = record {
  build = unbuilt;
  clock = record { at_sum = 0; at_evaluate = 0; at_write = 0 };
  reservation_id = codes "r1";
  reserve_io = engine_io;
  append_io = io;
  attempts = answers (codes "ad") ∷ [];
  commit_now = 0;
  commit_io = engine_io;
  state_io = io;
  reject_reason = [];
  abort_read = io;
  abort_io = io;
  release_now = 0;
  release_io = engine_io;
}

abbrev signed_bytes : Signed
signed_bytes = record {
  raw = some (codes "ff");
  txid = codes "ad";
  stripped_size = 113;
  size = 222;
}

abbrev signer : Signer
signer = record { passphrase = true; sign_inputs = λ tx specs. some signed_bytes; hex = λ t. t }

-- The original signals that it can be replaced; the estimate for a fast confirmation is the new rate.
abbrev script : ReplaceScript
script = record {
  fee_rate = [];
  estimates = record { slow = pos 1; normal = pos 1; fast = pos 2 };
  find_io = io;
  sequences = some (sequence ∷ []);
  confirmed_before = false;
  unresolved_io = io;
  rebroadcast = λ r. record { raw = none; attempts = []; write = io };
  reserved_io = io;
  refetch_io = io;
  confirmed_under_lock = false;
  answers = replies;
  signer = signer;
  source = codes "cli";
  send = send;
  replaced_io = io;
}

abbrev under : World
under = reconciled service script world

checks : check_original service script (codes "ab") world ≡ Outcome.ok (Example.original, pos 2)
unfolding Store.read Store.read_all Store.select_records daxib.Journal.sort_by_seq_desc
    daxib.Journal.fold_latest daxib.Journal.fold_onto daxib.Journal.entries daxib.Journal.upsert
    daxib.Journal.is_terminal daxib.Journal.lookup text_eq daxib.Prelude.Sort.sort Store.by_id
    daxib.Service.Bump.check_original Store.by_txid Store.newest_of
    daxib.Service.Bump.any_input_signals_rbf daxib.Service.FeeRate.resolve_bump_rate
    daxib.Prelude.Int64.add64
checks = refl

reads_again : under_lock service script Example.original world ≡ Example.original
unfolding Store.read Store.read_all Store.select_records daxib.Journal.sort_by_seq_desc
    daxib.Journal.fold_latest daxib.Journal.fold_onto daxib.Journal.entries daxib.Journal.upsert
    daxib.Journal.is_terminal daxib.Journal.lookup text_eq daxib.Prelude.Sort.sort Store.by_id
    daxib.Service.Restart.reconcile_wallet daxib.Service.Restart.reconcile_records
    daxib.Service.Restart.reconcile_record Store.unresolved daxib.Service.Bump.refetched
reads_again = refl

builds_again :
    build_replacement service btc replies
      (under_lock service script Example.original world)
      speedup
      (pos 2)
      (reserved_outpoints service under.journal io)
    ≡ Outcome.ok replaced
unfolding Store.read Store.read_all Store.select_records daxib.Journal.sort_by_seq_desc
    daxib.Journal.fold_latest daxib.Journal.fold_onto daxib.Journal.entries daxib.Journal.upsert
    daxib.Journal.is_terminal daxib.Journal.lookup text_eq daxib.Prelude.Sort.sort Store.by_id
    daxib.Service.Restart.reconcile_wallet daxib.Service.Restart.reconcile_records
    daxib.Service.Restart.reconcile_record Store.unresolved daxib.Service.Bump.refetched
    daxib.Service.Restart.reserved_outpoints daxib.Service.Restart.in_flight build_replacement
    daxib.Service.Funding.by_addr daxib.Service.Replace.base_inputs
    daxib.Service.Replace.sized_inputs daxib.Service.Replace.sizes
    daxib.Service.Replace.speedup_sizes daxib.Service.Replace.cancel_sizes
    daxib.Service.Replace.replacement_inputs daxib.Service.Replace.replacement_outputs
    daxib.Service.Replace.replacement_check daxib.Service.Replace.address_for_coin
    daxib.Service.Replace.recorded_address daxib.Service.Artifact.value_at
    daxib.Service.Artifact.split_outpoint daxib.Service.Artifact.split_last
    daxib.Service.Artifact.parse_uint32 daxib.Service.Artifact.parse_from
    daxib.Service.Funding.script_for_address daxib.Coinselect.estimate_vsize_out
    daxib.Coinselect.fee_for daxib.Coinselect.output_v_bytes daxib.Coinselect.var_int_size
    daxib.Coinselect.Dust.dust_threshold_for_script daxib.Coinselect.Dust.is_witness_program_bytes
    daxib.Coinselect.Select.sum_from daxib.Coinselect.Select.values daxib.Prelude.Int64.add64
    daxib.Prelude.Int64.sub64 daxib.Prelude.Int64.mul64 daxib.Prelude.Decimal.to_string
    daxib.Prelude.Decimal.nat_to_string
builds_again = refl

abbrev reservation : Reservation
reservation = record { id = codes "r1"; network = codes "mainnet"; sat = pos 141; noop = false }

reserves_again : (reservation_of (codec policy) script replaced under).1 ≡ ok reservation
unfolding reserve Engine.load_active Engine.load_sealed daxib.Policy.Seal.decode_envelope text_eq
    daxib.Policy.Seal.verify_under_anchor daxib.Policy.Seal.decode_body_strict Engine.with_lock
    Engine.guarded Engine.reserve_locked Engine.load_counter daxib.Policy.Evaluate.evaluate
    daxib.Policy.Evaluate.match_pin_addr daxib.Prelude.equal_fold
    daxib.Policy.Evaluate.Limits.resolve_limits daxib.Policy.Evaluate.check_tx
    daxib.Policy.Evaluate.spend_sat daxib.Policy.Body.bool_or daxib.Policy.Body.or_zero
    daxib.Policy.Body.override_sat daxib.Policy.Body.parse_sat daxib.Policy.Counter.add_entry
    daxib.Policy.Counter.aged daxib.Policy.Counter.keeps daxib.Policy.Counter.prune
    daxib.Policy.Counter.prune_entries daxib.Policy.Counter.sum_from daxib.Policy.Counter.sum_window
    Engine.write_counter daxib.Policy.Evaluate.Limits.apply_networks
    daxib.Policy.Evaluate.Limits.default_limits daxib.Policy.Evaluate.Limits.override_limits
    daxib.Policy.Evaluate.admitted daxib.Policy.Evaluate.any_fold daxib.Policy.Evaluate.check_day
    daxib.Policy.Evaluate.check_fee_rate daxib.Policy.Evaluate.is_change
    daxib.Policy.Evaluate.is_self daxib.Policy.Evaluate.window_charge
    daxib.Policy.Seal.TriState.apply_to_networks daxib.Policy.Seal.TriState.apply_tri_state
    daxib.Policy.Seal.TriState.reconcile_tri_state daxib.Policy.Seal.TriState.set_null_if_present
    daxib.Policy.Seal.TriState.trim_space daxib.Policy.Seal.decode_key daxib.Policy.Seal.verify
    daxib.Policy.Seal.verify_key_next_bytes daxib.Prelude.Decimal.nat_to_string
    daxib.Prelude.Decimal.set_string daxib.Prelude.Decimal.to_string daxib.Prelude.Int.◌+ℤ◌
    daxib.Prelude.Int.◌-ℤ◌ daxib.Prelude.Int64.add64 daxib.Prelude.Int64.sub64
    daxib.Prelude.to_lower
reserves_again = refl

abbrev raw_and_signed : Text × Signed
raw_and_signed = (codes "ff", signed_bytes)

signs : sign_tx signer replaced.tx replaced.specs (pos 141) ≡ some raw_and_signed
unfolding sign_tx actual_signed_vsize
signs = refl

live_status : is_terminal broadcast ≡ false
unfolding is_terminal
live_status = refl

abbrev prepared : Prepared (codec policy) service btc script speedup (codes "ab") world
prepared = record {
  found = Example.original;
  rate = pos 2;
  r = replaced;
  resv = reservation;
  g = raw_and_signed;
  checked = checks;
  live = ap (λ o. is_terminal o.status) reads_again ∙ live_status;
  unconfirmed = refl;
  built = builds_again;
  reserved = reserves_again;
  signed_tx = signs;
}

abbrev linked : Record
linked = new_record (codec policy) service btc script speedup (codes "ab") world prepared

abbrev in_journal : Record
in_journal = record linked { v = 1; id = codes "c"; seq = 2; ts = codes "t1" }

abbrev behind_reservation : World
behind_reservation =
    reserved_world (codec policy) service btc script speedup (codes "ab") world prepared

appends : (append behind_reservation.journal io linked).1 ≡ Outcome.ok in_journal
unfolding append Store.repair text_eq Store.complete Store.write_record Store.append_line
    Store.maybe_compact daxib.Journal.entries daxib.Journal.fold_latest daxib.Journal.fold_onto
    daxib.Journal.upsert Store.next_seq max_seq Store.read Store.read_all Store.select_records
    daxib.Journal.sort_by_seq_desc is_terminal daxib.Journal.lookup daxib.Prelude.Sort.sort
    Store.by_id daxib.Service.Restart.reconcile_wallet daxib.Service.Restart.reconcile_records
    daxib.Service.Restart.reconcile_record Store.unresolved daxib.Service.Bump.refetched
    daxib.Service.Artifact.journal_record
appends = refl

accepts : (broadcast_classified script.send.attempts).outcome ≡ accepted
unfolding broadcast_classified
accepts = refl

room : max_seq (records behind_reservation.journal (codes "mainnet")) + 1 < 2 ^ 64
unfolding max_seq daxib.Journal.entries text_eq daxib.Service.Restart.reconcile_wallet
    daxib.Service.Restart.reconcile_records daxib.Service.Restart.reconcile_record Store.unresolved
    Store.read Store.read_all Store.select_records daxib.Journal.sort_by_seq_desc
    daxib.Journal.fold_latest daxib.Journal.fold_onto daxib.Journal.upsert is_terminal
    daxib.Prelude.Sort.sort
room = omega arith

distinct : codes "a" ≢ codes "c"
distinct q = absurd (grind arith)

replace_tx-Linked_example :
    Linked service script reservation
      (codes "a")
      (codes "c")
      accepted
      (record behind_reservation { journal = (append behind_reservation.journal io linked).0 })
      (replace_tx (codec policy) service btc script speedup (codes "ab") world).0
unfolding daxib.Service.Bump.refetched broadcast_classified daxib.Service.Restart.reconcile_wallet
    daxib.Service.Restart.reconcile_records daxib.Service.Restart.reconcile_record Store.unresolved
    Store.read Store.read_all Store.select_records daxib.Journal.sort_by_seq_desc
    daxib.Journal.fold_latest daxib.Journal.fold_onto daxib.Journal.upsert is_terminal
    daxib.Prelude.Sort.sort Store.by_id daxib.Journal.entries text_eq daxib.Journal.lookup
replace_tx-Linked_example =
    ((replace_tx-Linked (codec policy) service btc script speedup (codes "ab") world prepared
        room).1
      in_journal appends distinct).2
