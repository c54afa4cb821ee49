-- ===== src/Service/Funding/Tests.antt =====
-- Runs of checking, building and journaling a transaction, and their theorems at those values.
use mathlib.Core.List.{Memᴰ}
use daxib.Prelude.{
  if◌then◌else◌, ℕ, ◌+◌, ◌^◌, ◌<◌, ◌≤◌, is_empty, ◌≡◌, ◌≢◌, ◌⊎◌, inl, inr, refl, true, false, [],
  ◌∷◌, none, List, map, some, arith, Text, codes, text_eq,
}
use daxib.Prelude.Int.{pos}
use daxib.Prelude.Outcome.{Outcome, ok}
use daxib.Coinselect.Select.Valid.{InRange}
use daxib.Journal.Write.{view}
use daxib.Service.Artifact.{Artifact, journal_record}
use daxib.Service.Artifact.Outpoints.{journal_record-outpoint}
use daxib.Service.Funding.Unreserved.{build_unsigned-unreserved, SpendsSame}
use daxib.Journal.{Record, Status, signed, broadcast, JInput, missing, data_of, entry}
use daxib.Journal.Store.{Store, acquired, synced, unresolved}
use daxib.Journal.Store
use daxib.Coinselect.{Coin}
use daxib.Service.Restart.{outpoint, reserved_outpoints, RebroadcastIo}
use daxib.Service.Funding.{
  Btc, Utxo, ScanAddress, Answers, UnsignedBuild, TxIn, TxOut, Tx, InputSigningSpec, build_unsigned,
  destination, by_addr, candidates, coins_of,
}
use daxib.Service.Funding.Inputs.{Funded, params, build_unsigned-Funded}
use daxib.Service.Signing.{send_artifact}
use daxib.Service.Validate.{validate_send_inputs}
use daxib.Service.Validate.Accepts.{Accepted, validate_send_inputs-Accepted}
use daxib.Service.Example.{
  service, btc, address, scan, utxos, change_address, replies, input, original, store, io, sequence,
}

-- The transaction that is built for 50000 satoshis at 2 satoshis per byte.
abbrev unsigned : UnsignedBuild
unsigned = record {
  tx = record {
    tx_in = record { hash = codes "bb"; vout = 0; sequence = sequence } ∷ [];
    tx_out =
        record { value = pos 50000; script = address }
        ∷ record { value = pos 49718; script = change_address }
        ∷ [];
  };
  specs =
      record {
        index = 0;
        coords = record { branch = 0; index = 1 };
        prev_script = codes "tb1t";
        prev_value = pos 100000;
      }
      ∷ [];
  sel = record {
    inputs = record { outpoint = codes "bb:0"; branch = 0; index = 1; value_sat = pos 100000 } ∷ [];
    change_sat = pos 49718;
    fee_sat = pos 282;
    vsize_vb = pos 141;
    has_change = true;
  };
  in_addr = (codes "bb:0", codes "tb1t") ∷ [];
  recipient = address;
  recip_sat = pos 50000;
  change_addr = change_address;
  change_idx = some 1;
}

abbrev amount : Text
amount = codes "50000sat"

to_address : destination btc amount address ≡ ok (pos 50000, address)
unfolding destination daxib.Amounts.parse_amount_to_sats daxib.Amounts.trim_space
    daxib.Amounts.trim_left daxib.Amounts.starts daxib.Prelude.to_lower daxib.Amounts.has_suffix
    text_eq daxib.Amounts.parse_sat_suffix daxib.Amounts.trim_char daxib.Amounts.add_digits
    daxib.Prelude.Int64.add64 daxib.Prelude.Int64.mul64
to_address = refl

validates : validate_send_inputs btc amount address [] (codes "fast") ≡ ok tt
unfolding validate_send_inputs daxib.Amounts.parse_amount_to_sats daxib.Amounts.trim_space
    daxib.Amounts.trim_left daxib.Amounts.starts daxib.Prelude.to_lower daxib.Amounts.has_suffix
    text_eq daxib.Amounts.parse_sat_suffix daxib.Amounts.trim_char daxib.Amounts.add_digits
    daxib.Prelude.Int64.add64 daxib.Prelude.Int64.mul64 daxib.Service.Validate.validate_speed
    daxib.Service.Validate.recipient_dust_threshold daxib.Coinselect.Dust.dust_threshold_for_script
    daxib.Coinselect.Dust.is_witness_program_bytes daxib.Coinselect.var_int_size
validates = refl

validate_send_inputs-Accepted_example : Accepted btc amount address [] (codes "fast")
validate_send_inputs-Accepted_example =
    validate_send_inputs-Accepted btc amount address [] (codes "fast") (λ addr e. (addr, refl))
      validates

builds :
    build_unsigned btc replies amount address (pos 2) false (reserved_outpoints service store io)
    ≡ ok unsigned
unfolding build_unsigned destination daxib.Amounts.parse_amount_to_sats daxib.Amounts.trim_space
    daxib.Amounts.trim_left daxib.Amounts.starts daxib.Prelude.to_lower daxib.Amounts.has_suffix
    text_eq daxib.Amounts.parse_sat_suffix daxib.Amounts.trim_char daxib.Amounts.add_digits
    daxib.Prelude.Int64.add64 daxib.Prelude.Int64.mul64 daxib.Service.Funding.assemble
    daxib.Coinselect.Select.select daxib.Coinselect.Select.sum_from daxib.Coinselect.Bnb.bnb
    daxib.Coinselect.Bnb.dfs daxib.Coinselect.Bnb.improves daxib.Coinselect.Bnb.record_best
    daxib.Coinselect.Bnb.search daxib.Coinselect.Bnb.suffix_sum daxib.Coinselect.Bnb.visit
    daxib.Coinselect.Select.accumulate daxib.Coinselect.Select.before
    daxib.Coinselect.Select.bnb_target daxib.Coinselect.Select.changeless
    daxib.Coinselect.Select.choose daxib.Coinselect.Select.fee_of
    daxib.Coinselect.Select.fee_rate_of daxib.Coinselect.Select.keep_economic
    daxib.Coinselect.Select.needed daxib.Coinselect.Select.pick daxib.Coinselect.Select.recip_vb_of
    daxib.Coinselect.Select.sort_inputs daxib.Coinselect.Select.upper_bound
    daxib.Coinselect.Select.values daxib.Coinselect.Select.vsize_of
    daxib.Coinselect.Select.with_change daxib.Coinselect.estimate_vsize_out daxib.Coinselect.fee_for
    daxib.Coinselect.output_v_bytes daxib.Coinselect.var_int_size
    daxib.Prelude.Decimal.nat_to_string daxib.Prelude.Decimal.to_string daxib.Prelude.Int64.sub64
    daxib.Prelude.Sort.sort daxib.Prelude.Sort.text_lt daxib.Service.Artifact.value_at by_addr
    candidates daxib.Service.Funding.change_output daxib.Service.Funding.script_for_address
    daxib.Service.Funding.tx_inputs reserved_outpoints unresolved Store.read Store.read_all
    daxib.Journal.sort_by_seq_desc Store.select_records daxib.Journal.fold_latest
    daxib.Journal.fold_onto daxib.Journal.entries daxib.Journal.upsert daxib.Journal.is_terminal
    daxib.Service.Restart.in_flight
builds = refl

abbrev spendable : List Coin
spendable = coins_of (candidates (by_addr scan) (reserved_outpoints service store io) utxos)

in_range : InRange (params (pos 50000) address (pos 2)) spendable
unfolding by_addr candidates reserved_outpoints unresolved Store.read Store.read_all
    daxib.Journal.sort_by_seq_desc Store.select_records daxib.Journal.fold_latest
    daxib.Journal.fold_onto daxib.Journal.entries daxib.Journal.upsert daxib.Journal.is_terminal
    daxib.Service.Restart.in_flight text_eq daxib.Service.Artifact.value_at
    daxib.Prelude.Decimal.to_string daxib.Prelude.Decimal.nat_to_string daxib.Prelude.Sort.sort
    daxib.Coinselect.Select.fee_rate_of daxib.Coinselect.Select.recip_vb_of
    daxib.Coinselect.output_v_bytes daxib.Coinselect.var_int_size daxib.Prelude.Int64.add64
in_range = omega arith

build_unsigned-Funded_example :
    Funded btc replies false
      (by_addr scan)
      (reserved_outpoints service store io)
      utxos
      (params (pos 50000) address (pos 2))
      address
      unsigned
build_unsigned-Funded_example =
    build_unsigned-Funded btc replies amount address (pos 2) false
      (reserved_outpoints service store io) unsigned (pos 50000, address) scan utxos to_address refl
      refl in_range builds

lists : unresolved store io (codes "mainnet") ≡ Outcome.ok (original ∷ [])
unfolding unresolved Store.read Store.read_all text_eq daxib.Journal.sort_by_seq_desc
    daxib.Prelude.Sort.sort Store.select_records daxib.Journal.fold_latest daxib.Journal.fold_onto
    daxib.Journal.entries daxib.Journal.upsert daxib.Journal.is_terminal
lists = refl

finds : view store (codes "mainnet") (codes "a") ≡ some original
unfolding daxib.Journal.lookup daxib.Journal.fold_latest daxib.Journal.fold_onto
    daxib.Journal.entries text_eq daxib.Journal.upsert
finds = refl

abbrev tx_input : TxIn
tx_input = record { hash = codes "bb"; vout = 0; sequence = sequence }

build_unsigned-unreserved_example : ¬ SpendsSame btc tx_input input
unfolding text_eq daxib.Journal.is_terminal
build_unsigned-unreserved_example =
    build_unsigned-unreserved btc replies amount address (pos 2) false unsigned (pos 50000, address)
      scan utxos service store io (original ∷ []) (codes "a") original input tx_input to_address
      refl refl lists finds refl refl ∣ Memᴰ.head refl ∣₁ (λ u m e. cc) in_range builds
      ∣ Memᴰ.head refl ∣₁

abbrev artifact : Artifact
artifact = send_artifact unsigned (pos 2) (
  codes "ff",
  record { raw = some (codes "ff"); txid = codes "ad"; stripped_size = 113; size = 222 },
)

journal_record-outpoint_example :
    map outpoint (journal_record service (λ t. t) (codes "cli") artifact (pos 2)).inputs
    ≡ codes "bb:0" ∷ []
unfolding daxib.Prelude.Decimal.to_string
journal_record-outpoint_example =
    journal_record-outpoint service (λ t. t) (codes "cli") artifact (pos 2)
      ((codes "bb", 0, omega arith, refl), tt)
