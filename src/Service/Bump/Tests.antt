-- ===== src/Service/Bump/Tests.antt =====
-- Runs of building a replacement, and its theorems at those values.
use daxib.Prelude.{
  if◌then◌else◌, ℕ, ◌+◌, ◌^◌, ◌<◌, ◌≤◌, is_empty, ◌≡◌, ◌≢◌, ◌⊎◌, inl, inr, refl, true, false, [],
  ◌∷◌, none, List, map, some, arith, Text, codes, text_eq,
}
use daxib.Prelude.Int.{pos}
use daxib.Prelude.Outcome.{ok, err}
use daxib.Service.Artifact.{Artifact, journal_record}
use daxib.Service.Replace.Bumped.{Bumps, build_replacement-Bumps}
use daxib.Coinselect.{Coin}
use daxib.Service.Funding.{
  Btc, Utxo, ScanAddress, Answers, UnsignedBuild, TxIn, TxOut, Tx, InputSigningSpec, build_unsigned,
  destination, by_addr, candidates, coins_of,
}
use daxib.Service.Replace.{
  fee_not_higher, ReplaceMode, speedup, cancel, Replacement, build_replacement,
}
use daxib.Service.FeeRate.{resolve_bump_rate}
use daxib.Service.FeeRate.Bounds.{rate_cap, resolve_bump_rate-InRange}
use daxib.Service.Example.{
  service, btc, address, change_address, replies, original, consumed, sequence,
}

-- The speedup of the original at 2 satoshis per byte.
abbrev pub replaced : Replacement
replaced = record {
  inputs = record { outpoint = codes "aa:1"; branch = 0; index = 0; value_sat = pos 60000 } ∷ [];
  sizes = record { fee_sat = pos 282; change_sat = pos 59628; vsize = pos 141; emit_change = true };
  tx = record {
    tx_in = record { hash = codes "aa"; vout = 1; sequence = sequence } ∷ [];
    tx_out =
        record { value = pos 90; script = address }
        ∷ record { value = pos 59628; script = change_address }
        ∷ [];
  };
  specs =
      record {
        index = 0;
        coords = record { branch = 0; index = 0 };
        prev_script = codes "tb1s";
        prev_value = pos 60000;
      }
      ∷ [];
  in_addr = (codes "aa:1", codes "tb1s") ∷ [];
  recipient = address;
  recip_sat = pos 90;
  change_addr = change_address;
  check = record {
    network = codes "mainnet";
    recipient = address;
    amount_sat = pos 90;
    fee_sat = pos 282;
    fee_rate = pos 2;
    change_addr = change_address;
    prior_spent_sat = pos 231;
  };
}

speeds_up : build_replacement service btc replies original speedup (pos 2) consumed ≡ ok replaced
unfolding build_replacement by_addr daxib.Service.Replace.base_inputs
    daxib.Service.Replace.sized_inputs daxib.Service.Replace.sizes
    daxib.Service.Replace.speedup_sizes daxib.Service.Replace.cancel_sizes
    daxib.Service.Replace.replacement_inputs daxib.Service.Replace.replacement_outputs
    daxib.Service.Replace.replacement_check daxib.Service.Replace.address_for_coin
    daxib.Service.Replace.recorded_address daxib.Service.Artifact.value_at
    daxib.Service.Artifact.split_outpoint daxib.Service.Artifact.split_last
    daxib.Service.Artifact.parse_uint32 daxib.Service.Artifact.parse_from
    daxib.Service.Funding.script_for_address text_eq daxib.Coinselect.estimate_vsize_out
    daxib.Coinselect.fee_for daxib.Coinselect.output_v_bytes daxib.Coinselect.var_int_size
    daxib.Coinselect.Dust.dust_threshold_for_script daxib.Coinselect.Dust.is_witness_program_bytes
    daxib.Coinselect.Select.sum_from daxib.Coinselect.Select.values daxib.Prelude.Int64.add64
    daxib.Prelude.Int64.sub64 daxib.Prelude.Int64.mul64 daxib.Prelude.Decimal.to_string
    daxib.Prelude.Decimal.nat_to_string
speeds_up = refl

build_replacement-Bumps_example : Bumps btc replies original speedup consumed 2 141 replaced
unfolding daxib.Coinselect.output_v_bytes daxib.Coinselect.var_int_size daxib.Prelude.Int64.add64
    daxib.Prelude.Decimal.to_string
build_replacement-Bumps_example =
    build_replacement-Bumps service btc replies original speedup 2 141 90 consumed replaced
      (omega arith) refl refl speeds_up (refl, tt) ((codes "aa", 1, omega arith, refl), tt)
      (omega arith) (omega arith) (omega arith)

-- A cancel whose fee is not higher than that of the original is refused.
cancel_refused :
    build_replacement service btc replies original cancel (pos 1) consumed
    ≡ err (fee_not_higher (pos 110) (pos 141))
unfolding build_replacement by_addr daxib.Service.Replace.base_inputs
    daxib.Service.Replace.sized_inputs daxib.Service.Replace.sizes
    daxib.Service.Replace.speedup_sizes daxib.Service.Replace.cancel_sizes
    daxib.Service.Replace.replacement_inputs daxib.Service.Replace.replacement_outputs
    daxib.Service.Replace.replacement_check daxib.Service.Replace.address_for_coin
    daxib.Service.Replace.recorded_address daxib.Service.Artifact.value_at
    daxib.Service.Artifact.split_outpoint daxib.Service.Artifact.split_last
    daxib.Service.Artifact.parse_uint32 daxib.Service.Artifact.parse_from
    daxib.Service.Funding.script_for_address text_eq daxib.Coinselect.estimate_vsize_out
    daxib.Coinselect.fee_for daxib.Coinselect.output_v_bytes daxib.Coinselect.var_int_size
    daxib.Coinselect.Dust.dust_threshold_for_script daxib.Coinselect.Dust.is_witness_program_bytes
    daxib.Coinselect.Select.sum_from daxib.Coinselect.Select.values daxib.Prelude.Int64.add64
    daxib.Prelude.Int64.sub64 daxib.Prelude.Int64.mul64 daxib.Prelude.Decimal.to_string
    daxib.Prelude.Decimal.nat_to_string
cancel_refused = refl

-- A cold estimate: the rate of the original, plus one.
bumps :
    resolve_bump_rate [] (pos 5) (record { slow = pos 0; normal = pos 0; fast = pos 0 })
    ≡ ok (pos 6)
unfolding resolve_bump_rate daxib.Prelude.Int64.add64
bumps = refl

resolve_bump_rate-InRange_example :
    (k : ℕ) × (pos 6 ≡ pos k)
    × (1 ≤ k)
    × (k ≤ rate_cap)
    × (is_empty [] ≡ true → (5 < k) ⊎ (k ≡ rate_cap))
resolve_bump_rate-InRange_example =
    resolve_bump_rate-InRange [] 5 (record { slow = pos 0; normal = pos 0; fast = pos 0 }) (pos 6)
      (omega arith) bumps
