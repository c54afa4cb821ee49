-- ===== src/Coinselect.antt =====
-- Coin selection (internal/coinselect): the sizes and fees of a transaction (vsize.go), and the data
-- of a selection (select.go). Amounts are int64 with their wrap-around; `int` is taken as int64.
pub mod Dust
pub mod Bnb
mod Tests
pub mod Fees
pub mod Select
use daxib.Prelude.{ℕ, ◌+◌, ◌*◌, ◌<◌, Bool, List, ◌||◌, ltb, if◌then◌else◌, Text}
use daxib.Prelude.Int.{ℤ, pos, negsuc, ltb_ℤ}
use daxib.Prelude.Int64.{add64, sub64, mul64}

pub record Coin : Type 0 where
  pub outpoint : Text
  pub branch : ℕ
  pub index : ℕ
  pub value_sat : ℤ

pub record Params : Type 0 where
  pub target : ℤ
  pub fee_rate_sat_vb : ℤ
  pub recipient_v_bytes : ℤ

-- Result of select.go.
pub record Selection : Type 0 where
  pub inputs : List Coin
  pub change_sat : ℤ
  pub fee_sat : ℤ
  pub vsize_vb : ℤ
  pub has_change : Bool

-- The errors, with the data that they carry.
pub data SelectError : Type 0 where
  bad_amount dust_output : ℤ → SelectError
  insufficient : (available needed target : ℤ) → SelectError

abbrev pub p2wpkh_input_v_bytes : ℤ
p2wpkh_input_v_bytes = pos 68

abbrev pub p2wpkh_output_v_bytes : ℤ
p2wpkh_output_v_bytes = pos 31

abbrev pub tx_overhead_v_bytes : ℤ
tx_overhead_v_bytes = pos 11

abbrev pub dust_threshold_p2wpkh : ℤ
dust_threshold_p2wpkh = pos 294

abbrev pub at_least_zero : ℤ → ℤ
at_least_zero n = if ltb_ℤ n (pos 0) then pos 0 else n

-- EstimateVSizeOut
unfoldable pub estimate_vsize_out : ℤ → ℤ → ℤ → ℤ
estimate_vsize_out num_inputs recipient_v_bytes extra_p2wpkh_outs =
    let recipient =
      if ltb_ℤ (pos 0) recipient_v_bytes then recipient_v_bytes else p2wpkh_output_v_bytes in
    add64
      (add64 (add64 tx_overhead_v_bytes (mul64 (at_least_zero num_inputs) p2wpkh_input_v_bytes))
        recipient)
      (mul64 (at_least_zero extra_p2wpkh_outs) p2wpkh_output_v_bytes)

-- EstimateVSize
unfoldable pub estimate_vsize : ℤ → ℤ → ℤ
estimate_vsize num_inputs num_outputs =
    estimate_vsize_out num_inputs p2wpkh_output_v_bytes (sub64 (at_least_zero num_outputs) (pos 1))

-- varIntSize
unfoldable pub var_int_size : ℤ → ℤ
var_int_size n =
    if ltb_ℤ n (pos 253)
    then pos 1
    else if ltb_ℤ n (pos 65536)
    then pos 3
    else if ltb_ℤ n (pos 4294967296)
    then pos 5
    else pos 9

-- OutputVBytes
unfoldable pub output_v_bytes : ℤ → ℤ
output_v_bytes script_len =
    let len = at_least_zero script_len in add64 (add64 (pos 8) (var_int_size len)) len

-- FeeFor
unfoldable pub fee_for : ℤ → ℤ → ℤ
fee_for vsize_vb feerate_sat_per_vb =
    if ltb_ℤ vsize_vb (pos 0) || ltb_ℤ feerate_sat_per_vb (pos 0)
    then pos 0
    else mul64 vsize_vb feerate_sat_per_vb
