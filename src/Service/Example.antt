-- ===== src/Service/Example.antt =====
-- A wallet with three outputs and one transaction in flight, for the runs.
use daxib.Prelude.{if◌then◌else◌, ℕ, true, false, [], ◌∷◌, none, List, some, Text, codes, text_eq}
use daxib.Prelude.Int.{pos}
use daxib.Journal.{Record, broadcast, JInput, missing, data_of, entry}
use daxib.Journal.Store.{Store, acquired, synced, unresolved}
use daxib.Journal.Store
use daxib.Service.World.{Service}
use daxib.Service.Funding.{Btc, Utxo, ScanAddress, Answers}

abbrev pub service : Service
service = record { net = codes "mainnet"; wallet = codes "main" }

abbrev pub btc : Btc
btc = record {
  decode_address = λ a. some a;
  is_for_net = λ a. true;
  pay_to_addr_script = λ a. some a;
  new_hash_from_str = λ t. some t;
}

-- A script of 22 bytes.
abbrev pub address : Text
address = codes "tb1qqqqqqqqqqqqqqqqqqq"

abbrev pub scan : List ScanAddress
scan =
    record { address = codes "tb1s"; coords = record { branch = 0; index = 0 } }
    ∷ record { address = codes "tb1t"; coords = record { branch = 0; index = 1 } }
    ∷ []

-- A confirmed output, one that is not, and one that a transaction in flight spends.
abbrev pub utxos : List Utxo
utxos =
    record {
      txid = codes "bb";
      vout = 0;
      address = codes "tb1t";
      value_sat = pos 100000;
      confirmations = pos 3;
    }
    ∷ record {
      txid = codes "cc";
      vout = 2;
      address = codes "tb1t";
      value_sat = pos 700000;
      confirmations = pos 0;
    }
    ∷ record {
      txid = codes "aa";
      vout = 1;
      address = codes "tb1s";
      value_sat = pos 60000;
      confirmations = pos 9;
    }
    ∷ []

abbrev pub change_address : Text
change_address = codes "tb1ccccccccccccccccccc"

abbrev pub replies : Answers
replies = record {
  scan = some scan;
  utxos = some utxos;
  derive_next = some change_address;
  peek_next = some change_address;
}

abbrev pub input : JInput
input = record { txid = codes "aa"; vout = 1; value_sat = pos 60000; address = codes "tb1s" }

abbrev pub original : Record
original = record {
  v = 1;
  id = codes "a";
  seq = 1;
  ts = codes "t0";
  network = codes "mainnet";
  wallet = codes "main";
  status = broadcast;
  source = codes "cli";
  txid = codes "ab";
  raw_tx = codes "00";
  fee_rate = pos 1;
  fee_sat = pos 141;
  vsize = pos 141;
  inputs = input ∷ [];
  outputs = [];
  recipient_addr = address;
  recipient_sat = pos 90;
  change_addr = [];
  confirmations = pos 0;
  block_height = pos 0;
  error = none;
  reservation_id = codes "r0";
  replaces_id = [];
  replaced_by_id = [];
  psbt_base64 = [];
}

abbrev pub store : Store
store = record {
  disk = λ net.
      if text_eq net (codes "mainnet")
      then data_of (record { lines = entry original ∷ []; torn = false })
      else missing;
}

abbrev pub io : Store.Io
io = record {
  lock = acquired;
  repairs = true;
  appended = synced;
  fresh_id = some (codes "c");
  now = codes "t1";
  stat_size = none;
  compacts = false;
}

abbrev pub consumed : List Text
consumed = codes "aa:1" ∷ []

abbrev pub sequence : ℕ
sequence = 4294967293
