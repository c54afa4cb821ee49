-- ===== src/Service/Funding.antt =====
-- Building a send (buildUnsigned of internal/service/send.go): the confirmed coins that are not
-- reserved, the selection, the change address and the unsigned transaction. What the keystore, the
-- backend and the libraries of btcsuite answer are arguments.
pub mod Candidates
pub mod Inputs
mod Tests
pub mod Unreserved
use daxib.Prelude.{
  ℕ, suc, Bool, true, false, ◌&&◌, ◌||◌, not, List, [], ◌∷◌, ◌++◌, map, Option, none, some, length,
  if◌then◌else◌, Text, text_eq,
}
use daxib.Prelude.Int.{ℤ, pos, ltb_ℤ}
use daxib.Prelude.Int64.{add64}
use daxib.Prelude.Outcome.{Outcome, ok, err, ◌>>=◌, ◌>>◌, require, or_fail}
use daxib.Amounts.{AmountError, parse_amount_to_sats}
use daxib.Coinselect.{Coin, Params, Selection, SelectError, insufficient, output_v_bytes}
use daxib.Coinselect.Select.{select}
use daxib.Service.Artifact.{Assignments, value_at, outpoint_of}

-- domain.UTXO, without its height.
pub record Utxo : Type 0 where
  pub txid : Text
  pub vout : ℕ
  pub address : Text
  pub value_sat : ℤ
  pub confirmations : ℤ

abbrev pub utxo_outpoint : Utxo → Text
utxo_outpoint u = outpoint_of u.txid u.vout

-- The derivation of an address of the wallet.
pub record Coords : Type 0 where
  pub branch : ℕ
  pub index : ℕ

pub record ScanAddress : Type 0 where
  pub address : Text
  pub coords : Coords

-- btcutil.DecodeAddress, Address.IsForNet, txscript.PayToAddrScript and chainhash.NewHashFromStr, at
-- the parameters of the network; a decoded address is kept as a text.
pub record Btc : Type 0 where
  pub decode_address : Text → Option Text
  pub is_for_net : Text → Bool
  pub pay_to_addr_script : Text → Option Text
  pub new_hash_from_str : Text → Option Text

-- scriptForAddress
unfoldable pub script_for_address : Btc → Text → Option Text
script_for_address b addr = elim (b.decode_address addr) [
  | none ↦ none
  | some a ↦ b.pay_to_addr_script a
]

pub record TxIn : Type 0 where
  pub hash : Text
  pub vout : ℕ
  pub sequence : ℕ

pub record TxOut : Type 0 where
  pub value : ℤ
  pub script : Text

-- wire.MsgTx, unsigned and of version 2.
pub record Tx : Type 0 where
  pub tx_in : List TxIn
  pub tx_out : List TxOut

-- keys.InputSigningSpec
pub record InputSigningSpec : Type 0 where
  pub index : ℕ
  pub coords : Coords
  pub prev_script : Text
  pub prev_value : ℤ

pub data BuildError : Type 0 where
  bad_amount : AmountError → BuildError
  amount_not_positive bad_address cannot_pay no_addresses no_utxos no_change_address : BuildError
  corrupt_address corrupt_txid : BuildError
  unfunded : SelectError → BuildError
  insufficient_confirmed : (confirmed unconfirmed target : ℤ) → BuildError

-- What the keystore and the backend answer: ScanAddresses, UTXOs, DeriveNext and PeekNext.
pub record Answers : Type 0 where
  pub scan : Option (List ScanAddress)
  pub utxos : Option (List Utxo)
  pub derive_next : Option Text
  pub peek_next : Option Text

-- rbfSequence
abbrev pub rbf_sequence : ℕ
rbf_sequence = 4294967293

-- byAddr
unfoldable pub by_addr : List ScanAddress → Assignments Coords
by_addr scan = map (λ a. (a.address, a.coords)) scan

abbrev pub mem : List Text → Text → Bool
mem [] key = false
mem (k ∷ ks) key = text_eq k key || mem ks key

-- The loop over the UTXOs, by what it adds up and what it collects: the totals, and the UTXOs that are
-- confirmed, in the gap window and not consumed, each with its coin.
unfoldable pub confirmed_total : ℤ → List Utxo → ℤ
confirmed_total acc [] = acc
confirmed_total acc (u ∷ us) =
    confirmed_total (if not (ltb_ℤ (pos 0) u.confirmations) then acc else add64 acc u.value_sat) us

unfoldable pub unconfirmed_total : ℤ → List Utxo → ℤ
unconfirmed_total acc [] = acc
unconfirmed_total acc (u ∷ us) =
    unconfirmed_total (if not (ltb_ℤ (pos 0) u.confirmations) then add64 acc u.value_sat else acc)
      us

unfoldable pub candidates : Assignments Coords → List Text → List Utxo → List (Coin × Utxo)
candidates addrs consumed [] = []
candidates addrs consumed (u ∷ us) =
    let rest = candidates addrs consumed us in
    if not (ltb_ℤ (pos 0) u.confirmations) then rest else elim (value_at addrs u.address) [
      | none ↦ rest
      | some c ↦
          if mem consumed (utxo_outpoint u)
          then rest
          else (
            record {
              outpoint = utxo_outpoint u;
              branch = c.branch;
              index = c.index;
              value_sat = u.value_sat;
            },
            u,
          )
            ∷ rest
    ]

abbrev pub coins_of : List (Coin × Utxo) → List Coin
coins_of cs = map (λ c. c.0) cs

-- utxoByOutpoint
abbrev pub utxo_by_outpoint : List (Coin × Utxo) → Assignments Utxo
utxo_by_outpoint cs = map (λ c. (utxo_outpoint c.1, c.1)) cs

abbrev no_utxo : Utxo
no_utxo = record { txid = []; vout = 0; address = []; value_sat = pos 0; confirmations = pos 0 }

abbrev or_no_utxo : Option Utxo → Utxo
or_no_utxo none = no_utxo
or_no_utxo (some u) = u

-- The error of the selection, where unconfirmed funds would have covered the amount.
unfoldable pub selection_error : List Utxo → ℤ → SelectError → BuildError
selection_error us amount_sat (insufficient available needed target) =
    let c = confirmed_total (pos 0) us in
    let u = unconfirmed_total (pos 0) us in
    if not (ltb_ℤ (add64 c u) amount_sat) && ltb_ℤ (pos 0) u
    then insufficient_confirmed c u amount_sat
    else unfunded (insufficient available needed target)
selection_error us amount_sat e = unfunded e

abbrev pub selected : List Utxo → ℤ → Outcome SelectError Selection → Outcome BuildError Selection
selected us amount_sat (err e) = err (selection_error us amount_sat e)
selected us amount_sat (ok sel) = ok sel

-- The change address and its script, where there is change.
unfoldable pub change_output :
    Btc → Answers → (dry_run has_change : Bool) → Outcome BuildError (Text × Text)
change_output b a dry_run has_change = if not has_change then ok ([], []) else do
  addr ← or_fail (if dry_run then a.peek_next else a.derive_next) no_change_address
  script ← or_fail (script_for_address b addr) corrupt_address
  ok (addr, script)

-- The inputs of a transaction, with their signing coordinates, and inAddr.
pub record TxInputs : Type 0 where
  pub tx_in : List TxIn
  pub specs : List InputSigningSpec
  pub in_addr : Assignments Text

-- The input number i, and the inputs behind it.
abbrev pub add_input :
    ℕ → Coin → (hash : Text) (vout : ℕ) (addr prev_script : Text) → TxInputs → TxInputs
add_input i c hash vout addr prev_script rest = record {
  tx_in = record { hash = hash; vout = vout; sequence = rbf_sequence } ∷ rest.tx_in;
  specs =
      record {
        index = i;
        coords = record { branch = c.branch; index = c.index };
        prev_script = prev_script;
        prev_value = c.value_sat;
      }
      ∷ rest.specs;
  in_addr = (c.outpoint, addr) ∷ rest.in_addr;
}

abbrev pub no_inputs : TxInputs
no_inputs = record { tx_in = []; specs = []; in_addr = [] }

-- The loop over the selected coins.
unfoldable pub tx_inputs : Btc → Assignments Utxo → ℕ → List Coin → Outcome BuildError TxInputs
tx_inputs b utxos i [] = ok no_inputs
tx_inputs b utxos i (c ∷ cs) = do
  let u = or_no_utxo (value_at utxos c.outpoint)
  hash ← or_fail (b.new_hash_from_str u.txid) corrupt_txid
  prev_script ← or_fail (script_for_address b u.address) corrupt_address
  rest ← tx_inputs b utxos (suc i) cs
  ok (add_input i c hash u.vout u.address prev_script rest)

-- unsignedBuild
pub record UnsignedBuild : Type 0 where
  pub tx : Tx
  pub specs : List InputSigningSpec
  pub sel : Selection
  pub in_addr : Assignments Text
  pub recipient : Text
  pub recip_sat : ℤ
  pub change_addr : Text
  pub change_idx : Option ℕ

-- The recipient's output, then the change.
abbrev pub outputs : ℤ → Text → Selection → Text → List TxOut
outputs amount_sat script sel change_script =
    record { value = amount_sat; script = script }
    ∷ (if sel.has_change
        then record { value = sel.change_sat; script = change_script } ∷ []
        else [])

-- Steps 4 to 6 of buildUnsigned.
unfoldable pub assemble :
    Btc
    → Answers
    → Bool
    → List (Coin × Utxo)
    → List Utxo
    → (to : Text) → ℤ
    → (script : Text) → ℤ
    → Outcome BuildError UnsignedBuild
assemble b a dry_run cands us to amount_sat script fee_rate = do
  sel ← selected us amount_sat (
      select (coins_of cands) (record {
        target = amount_sat;
        fee_rate_sat_vb = fee_rate;
        recipient_v_bytes = output_v_bytes (pos (length script));
      }))
  change ← change_output b a dry_run sel.has_change
  ins ← tx_inputs b (utxo_by_outpoint cands) 0 sel.inputs
  ok (record {
    tx = record { tx_in = ins.tx_in; tx_out = outputs amount_sat script sel change.1 };
    specs = ins.specs;
    sel = sel;
    in_addr = ins.in_addr;
    recipient = to;
    recip_sat = amount_sat;
    change_addr = change.0;
    change_idx = if sel.has_change then some 1 else none;
  })

abbrev pub parsed : Outcome AmountError ℤ → Outcome BuildError ℤ
parsed (err e) = err (bad_amount e)
parsed (ok n) = ok n

-- Step 1: the amount and the script of the destination.
unfoldable pub destination : Btc → (amount to : Text) → Outcome BuildError (ℤ × Text)
destination b amount to = do
  amount_sat ← parsed (parse_amount_to_sats amount)
  require (ltb_ℤ (pos 0) amount_sat) amount_not_positive
  addr ← or_fail (b.decode_address to) bad_address
  require (b.is_for_net addr) bad_address
  script ← or_fail (b.pay_to_addr_script addr) cannot_pay
  ok (amount_sat, script)

-- buildUnsigned
unfoldable pub build_unsigned :
    Btc
    → Answers
    → (amount to : Text) → ℤ
    → (dry_run : Bool) → (consumed : List Text) → Outcome BuildError UnsignedBuild
build_unsigned b a amount to fee_rate dry_run consumed = do
  dest ← destination b amount to
  scan ← or_fail a.scan no_addresses
  us ← or_fail a.utxos no_utxos
  assemble b a dry_run (candidates (by_addr scan) consumed us) us to dest.0 dest.1 fee_rate
