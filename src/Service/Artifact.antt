-- ===== src/Service/Artifact.antt =====
-- A signed transaction on its way into the journal (sendArtifact of internal/service/send.go;
-- journalRecord, splitOutpoint and parseUint32 of internal/service/tx_result.go).
pub mod Outpoints
use daxib.Prelude.{
  ℕ, ◌+◌, ◌-◌, ◌*◌, ◌%◌, ◌^◌, Bool, true, false, List, [], ◌∷◌, ◌++◌, map, Option, none, some, ◌==◌,
  if◌then◌else◌, Text, text_eq, is_empty,
}
use daxib.Prelude.Int.{ℤ, pos}
use daxib.Prelude.Decimal.{is_digit, to_string}
use daxib.Journal.{Record, JInput, JOutput, signed}
use daxib.Coinselect.{Coin}
use daxib.Service.World.{Service}

-- A Go map, as the list of the assignments to its keys: the last one holds.
abbrev pub Assignments : Type 0 → Type 0
Assignments A = List (Text × A)

unfoldable pub value_at : {A : Type 0} → Assignments A → Text → Option A
value_at [] key = none
value_at ((k, a) ∷ m) key = elim (value_at m key) [
  | some b ↦ some b
  | none ↦ if text_eq k key then some a else none
]

-- Txid + ":" + IndexString(Vout)
abbrev pub outpoint_of : Text → ℕ → Text
outpoint_of txid vout = txid ++ b':' ∷ to_string (pos vout)

-- sendArtifact
pub record Artifact : Type 0 where
  pub raw_tx : Text
  pub txid : Text
  pub fee_sat : ℤ
  pub fee_rate : ℤ
  pub vsize : ℤ
  pub inputs : List Coin
  pub in_addr : Assignments Text
  pub recipient : Text
  pub recip_sat : ℤ
  pub change_sat : ℤ
  pub change_addr : Text

-- The loop of splitOutpoint: the texts around the last ':'.
unfoldable pub split_last : Text → Option (Text × Text)
split_last [] = none
split_last (c ∷ op) = elim (split_last op) [
  | some (txid, vout) ↦ some (c ∷ txid, vout)
  | none ↦ if c == b':' then some ([], op) else none
]

-- The loop of parseUint32.
unfoldable pub parse_from : ℕ → Text → ℕ
parse_from n [] = n
parse_from n (c ∷ s) =
    let rest = parse_from ((n * 10 + (c - b'0')) % 2 ^ 32) s in if is_digit c then rest else n

-- parseUint32
unfoldable pub parse_uint32 : Text → ℕ
parse_uint32 s = parse_from 0 s

-- splitOutpoint
unfoldable pub split_outpoint : Text → Text × ℕ
split_outpoint op = elim (split_last op) [
  | some (txid, vout) ↦ (txid, parse_uint32 vout)
  | none ↦ (op, 0)
]

abbrev or_empty : Option Text → Text
or_empty none = []
or_empty (some s) = s

-- The loop of journalRecord over the inputs.
unfoldable pub journal_inputs : Assignments Text → List Coin → List JInput
journal_inputs in_addr [] = []
journal_inputs in_addr (c ∷ cs) =
    let (txid, vout) = split_outpoint c.outpoint in
    record {
      txid = txid;
      vout = vout;
      value_sat = c.value_sat;
      address = or_empty (value_at in_addr c.outpoint);
    }
    ∷ journal_inputs in_addr cs

unfoldable pub journal_outputs : Artifact → List JOutput
journal_outputs art =
    record { address = art.recipient; value_sat = art.recip_sat; change = false }
    ∷ (if is_empty art.change_addr
        then []
        else record { address = art.change_addr; value_sat = art.change_sat; change = true } ∷ [])

-- journalRecord; `hex` is hex.EncodeToString and `source` what sourceOf gives.
unfoldable pub journal_record : Service → (hex : Text → Text) → Text → Artifact → ℤ → Record
journal_record v hex source art fee_rate = record {
  v = 0;
  id = [];
  seq = 0;
  ts = [];
  network = v.net;
  wallet = v.wallet;
  status = signed;
  source = source;
  txid = art.txid;
  raw_tx = hex art.raw_tx;
  fee_rate = fee_rate;
  fee_sat = art.fee_sat;
  vsize = art.vsize;
  inputs = journal_inputs art.in_addr art.inputs;
  outputs = journal_outputs art;
  recipient_addr = art.recipient;
  recipient_sat = art.recip_sat;
  change_addr = art.change_addr;
  confirmations = pos 0;
  block_height = pos 0;
  error = none;
  reservation_id = [];
  replaces_id = [];
  replaced_by_id = [];
  psbt_base64 = [];
}
