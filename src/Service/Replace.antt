-- ===== src/Service/Replace.antt =====
-- The replacement of an unconfirmed transaction (buildReplacement of internal/service/tx_replace.go):
-- its inputs, its fee and change, and the check of the policy.
pub mod Balance
pub mod Inputs
pub mod Steps
pub mod Bumped
use daxib.Prelude.{
  ℕ, suc, Bool, true, false, ◌&&◌, ◌||◌, not, List, [], ◌∷◌, ◌++◌, map, Option, none, some, length,
  ◌==◌, if◌then◌else◌, Text, text_eq,
}
use daxib.Prelude.Int.{ℤ, pos, ltb_ℤ}
use daxib.Prelude.Int64.{add64, sub64}
use daxib.Prelude.Outcome.{Outcome, ok, err, ◌>>=◌, ◌>>◌, require, or_fail}
use daxib.Journal.{Record, JInput}
use daxib.Coinselect.{Coin, dust_threshold_p2wpkh, estimate_vsize_out, fee_for, output_v_bytes}
use daxib.Coinselect.Dust.{dust_threshold_for_script}
use daxib.Coinselect.Select.{sum_from, values}
use daxib.Policy.Evaluate.{Check}
use daxib.Service.World.{Service}
use daxib.Service.Restart.{outpoint}
use daxib.Service.Artifact.{Assignments, value_at, split_outpoint}
use daxib.Service.Funding.{
  Utxo, utxo_outpoint, Coords, ScanAddress, Btc, script_for_address, TxOut, Tx, InputSigningSpec,
  Answers, by_addr, mem, TxInputs, add_input, no_inputs,
}

-- replaceMode
pub data ReplaceMode : Type 0 where
  speedup cancel : ReplaceMode

pub data ReplaceError : Type 0 where
  no_addresses no_change_address corrupt_address corrupt_txid no_utxos no_extra_input : ReplaceError
  unmapped_input : JInput → ReplaceError
  insufficient_inputs : ReplaceError
  cannot_cancel : (fee sum_in : ℤ) → ReplaceError
  fee_not_higher : (fee original : ℤ) → ReplaceError

-- The inputs of the original record, with their signing coordinates.
unfoldable pub base_inputs : Assignments Coords → List JInput → Outcome ReplaceError (List Coin)
base_inputs addrs [] = ok []
base_inputs addrs (i ∷ is) = do
  c ← or_fail (value_at addrs i.address) (unmapped_input i)
  rest ← base_inputs addrs is
  ok (
      record { outpoint = outpoint i; branch = c.branch; index = c.index; value_sat = i.value_sat }
      ∷ rest)

-- What build gives for a list of inputs.
pub record Sizes : Type 0 where
  pub fee_sat : ℤ
  pub change_sat : ℤ
  pub vsize : ℤ
  pub emit_change : Bool

-- The closure build, for a speedup.
unfoldable pub speedup_sizes :
    (recip_vb new_rate recip_sat : ℤ) → List Coin → Outcome ReplaceError Sizes
speedup_sizes recip_vb new_rate recip_sat inputs =
    let sum_in = sum_from (pos 0) (values inputs) in
    let vsize_with_change = estimate_vsize_out (pos (length inputs)) recip_vb (pos 1) in
    let fee_with_change = fee_for vsize_with_change new_rate in
    let change = sub64 (sub64 sum_in recip_sat) fee_with_change in
    let vsize_no_change = estimate_vsize_out (pos (length inputs)) recip_vb (pos 0) in
    let fee_floor = fee_for vsize_no_change new_rate in
    let surplus = sub64 sum_in recip_sat in
    if not (ltb_ℤ change dust_threshold_p2wpkh)
    then ok (record {
      fee_sat = fee_with_change;
      change_sat = change;
      vsize = vsize_with_change;
      emit_change = true;
    })
    else if ltb_ℤ surplus fee_floor
    then err insufficient_inputs
    else ok (record {
      fee_sat = surplus;
      change_sat = pos 0;
      vsize = vsize_no_change;
      emit_change = false;
    })

-- The closure build, for a cancel.
unfoldable pub cancel_sizes :
    (recip_vb new_rate : ℤ) → (script : Text) → List Coin → Outcome ReplaceError Sizes
cancel_sizes recip_vb new_rate script inputs =
    let sum_in = sum_from (pos 0) (values inputs) in
    let cancel_vsize = estimate_vsize_out (pos (length inputs)) recip_vb (pos 0) in
    let fee = fee_for cancel_vsize new_rate in
    let self = sub64 sum_in fee in
    if ltb_ℤ self (dust_threshold_for_script script)
    then err (cannot_cancel fee sum_in)
    else ok (record { fee_sat = fee; change_sat = self; vsize = cancel_vsize; emit_change = false })

unfoldable pub sizes :
    ReplaceMode
    → (new_rate recip_sat : ℤ) → (script : Text) → List Coin
    → Outcome ReplaceError Sizes
sizes speedup new_rate recip_sat script inputs =
    speedup_sizes (output_v_bytes (pos (length script))) new_rate recip_sat inputs
sizes cancel new_rate recip_sat script inputs =
    cancel_sizes (output_v_bytes (pos (length script))) new_rate script inputs

-- pickExtraInput, over the reply of the backend.
unfoldable pub pick_extra_input :
    Assignments Coords → (used consumed : List Text) → List Utxo → Outcome ReplaceError Coin
pick_extra_input addrs used consumed [] = err no_extra_input
pick_extra_input addrs used consumed (u ∷ us) =
    let rest = pick_extra_input addrs used consumed us in
    if not (ltb_ℤ (pos 0) u.confirmations)
    then rest
    else if mem used (utxo_outpoint u) || mem consumed (utxo_outpoint u)
    then rest
    else elim (value_at addrs u.address) [
      | none ↦ rest
      | some c ↦ ok (record {
        outpoint = utxo_outpoint u;
        branch = c.branch;
        index = c.index;
        value_sat = u.value_sat;
      })
    ]

abbrev pub is_insufficient : ReplaceError → Bool
is_insufficient insufficient_inputs = true
is_insufficient e = false

-- One more input, and the sizes with it.
unfoldable pub add_extra_input :
    (List Coin → Outcome ReplaceError Sizes)
    → Assignments Coords
    → Answers
    → (consumed : List Text) → List Coin
    → Outcome ReplaceError (List Coin × Sizes)
add_extra_input build addrs a consumed base = do
  us ← or_fail a.utxos no_utxos
  extra ← pick_extra_input addrs (map (λ c. c.outpoint) base) consumed us
  s ← build (base ++ extra ∷ [])
  ok (base ++ extra ∷ [], s)

-- The inputs and their sizes: the original inputs, and one more where they do not cover the fee.
unfoldable pub sized_inputs :
    (List Coin → Outcome ReplaceError Sizes)
    → Assignments Coords
    → Answers
    → (consumed : List Text) → List Coin
    → Outcome ReplaceError (List Coin × Sizes)
sized_inputs build addrs a consumed base = elim (build base) [
  | ok s ↦ ok (base, s)
  | err e ↦ (if is_insufficient e then add_extra_input build addrs a consumed base else err e)
]

-- The address of an input of the original record.
unfoldable pub recorded_address : List JInput → Text → Option Text
recorded_address [] op = none
recorded_address (i ∷ is) op =
    let rest = recorded_address is op in if text_eq (outpoint i) op then some i.address else rest

-- An address of the wallet with the coordinates of the coin.
unfoldable pub derived_address : Assignments Coords → Assignments Coords → Coin → Text
derived_address all [] c = []
derived_address all ((a, d) ∷ m) c =
    let rest = derived_address all m c in
    elim (value_at all a) [
      | none ↦ rest
      | some co ↦ if co.branch == c.branch && co.index == c.index then a else rest
    ]

-- addressForCoin
unfoldable pub address_for_coin : Coin → Record → Assignments Coords → Text
address_for_coin c orig addrs = elim (recorded_address orig.inputs c.outpoint) [
  | some a ↦ a
  | none ↦ derived_address addrs addrs c
]

-- The loop over the inputs of the replacement.
unfoldable pub replacement_inputs :
    Btc → Record → Assignments Coords → ℕ → List Coin → Outcome ReplaceError TxInputs
replacement_inputs b orig addrs i [] = ok no_inputs
replacement_inputs b orig addrs i (c ∷ cs) = do
  let op = split_outpoint c.outpoint
  hash ← or_fail (b.new_hash_from_str op.0) corrupt_txid
  let addr = address_for_coin c orig addrs
  prev_script ← or_fail (script_for_address b addr) corrupt_address
  rest ← replacement_inputs b orig addrs (suc i) cs
  ok (add_input i c hash op.1 addr prev_script rest)

-- The outputs: the recipient and the change of a speedup, the one output to the wallet of a cancel.
unfoldable pub replacement_outputs :
    ReplaceMode → (recip_sat : ℤ) → (recip_script change_script : Text) → Sizes → List TxOut
replacement_outputs cancel recip_sat recip_script change_script s =
    record { value = s.change_sat; script = recip_script } ∷ []
replacement_outputs speedup recip_sat recip_script change_script s =
    record { value = recip_sat; script = recip_script }
    ∷ (if s.emit_change then record { value = s.change_sat; script = change_script } ∷ [] else [])

-- The check of the policy, by the mode.
unfoldable pub replacement_check :
    Service → ReplaceMode → Record → (new_rate : ℤ) → (change_addr : Text) → Sizes → Check
replacement_check v speedup orig new_rate change_addr s = record {
  network = v.net;
  recipient = orig.recipient_addr;
  amount_sat = orig.recipient_sat;
  fee_sat = s.fee_sat;
  fee_rate = new_rate;
  change_addr = if s.emit_change then change_addr else [];
  prior_spent_sat = add64 orig.recipient_sat orig.fee_sat;
}
replacement_check v cancel orig new_rate change_addr s = record {
  network = v.net;
  recipient = change_addr;
  amount_sat = pos 0;
  fee_sat = s.fee_sat;
  fee_rate = new_rate;
  change_addr = change_addr;
  prior_spent_sat = orig.fee_sat;
}

-- The replacement before its signature.
pub record Replacement : Type 0 where
  pub inputs : List Coin
  pub sizes : Sizes
  pub tx : Tx
  pub specs : List InputSigningSpec
  pub in_addr : Assignments Text
  pub recipient : Text
  pub recip_sat : ℤ
  pub change_addr : Text
  pub check : Check

-- Where the replacement pays: the recipient of the original, or the fresh change address.
abbrev pub recipient_of : ReplaceMode → Record → (change_addr : Text) → Text
recipient_of speedup orig change_addr = orig.recipient_addr
recipient_of cancel orig change_addr = change_addr

abbrev pub recip_sat_of : ReplaceMode → Record → ℤ
recip_sat_of speedup orig = orig.recipient_sat
recip_sat_of cancel orig = pos 0

abbrev pub is_speedup : ReplaceMode → Bool
is_speedup speedup = true
is_speedup cancel = false

-- The replacement of the inputs, their sizes and the two scripts.
abbrev pub replacement_of :
    Service
    → ReplaceMode
    → Record
    → (new_rate : ℤ) → (change_addr script change_script : Text) → List Coin × Sizes
    → TxInputs
    → Replacement
replacement_of v mode orig new_rate change_addr script change_script (inputs, s) ins = record {
  inputs = inputs;
  sizes = s;
  tx = record {
    tx_in = ins.tx_in;
    tx_out = replacement_outputs mode orig.recipient_sat script change_script s;
  };
  specs = ins.specs;
  in_addr = ins.in_addr;
  recipient = recipient_of mode orig change_addr;
  recip_sat = if is_speedup mode then orig.recipient_sat else s.change_sat;
  change_addr = if is_speedup mode && s.emit_change then change_addr else [];
  check = replacement_check v mode orig new_rate change_addr s;
}

-- buildReplacement, up to its call of the reserve callback.
unfoldable pub build_replacement :
    Service
    → Btc
    → Answers
    → Record
    → ReplaceMode
    → (new_rate : ℤ) → (consumed : List Text) → Outcome ReplaceError Replacement
build_replacement v b a orig mode new_rate consumed = do
  scan ← or_fail a.scan no_addresses
  let addrs = by_addr scan
  base ← base_inputs addrs orig.inputs
  change_addr ← or_fail a.derive_next no_change_address
  change_script ← or_fail (script_for_address b change_addr) corrupt_address
  script ← or_fail (script_for_address b (recipient_of mode orig change_addr)) corrupt_address
  sized ← sized_inputs (sizes mode new_rate (recip_sat_of mode orig) script) addrs a consumed base
  require (ltb_ℤ orig.fee_sat sized.1.fee_sat) (fee_not_higher sized.1.fee_sat orig.fee_sat)
  ins ← replacement_inputs b orig addrs 0 sized.0
  ok (replacement_of v mode orig new_rate change_addr script change_script sized ins)
