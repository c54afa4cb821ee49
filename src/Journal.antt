-- ===== src/Journal.antt =====
-- The transaction journal (internal/journal): one append-only file of records per network, folded to
-- the latest record per id. The JSON of a line is read as what it decodes to. The clock, the fresh id,
-- the lock and the outcomes of the writes are arguments (the record Io).
pub mod Store
pub mod Fold
pub mod Write
pub mod Transition
pub mod Attempt
pub mod Queries
mod Tests
use daxib.Prelude.{
  ℕ, suc, ◌+◌, ◌%◌, ◌^◌, Bool, true, false, not, List, [], ◌∷◌, ◌++◌, Option, none, some, ltb, leb,
  if◌then◌else◌, Text, text_eq, is_empty,
}
use daxib.Prelude.Int.{ℤ}
use daxib.Prelude.Sort.{sort}

pub data Status : Type 0 where
  unnamed signed broadcast confirmed failed replaced : Status

-- IsTerminal; `unnamed` is the empty status of a mutation that names none.
unfoldable pub is_terminal : Status → Bool
is_terminal unnamed = false
is_terminal signed = false
is_terminal broadcast = false
is_terminal confirmed = true
is_terminal failed = true
is_terminal replaced = true

pub record JInput : Type 0 where
  pub txid : Text
  pub vout : ℕ
  pub value_sat : ℤ
  pub address : Text

pub record JOutput : Type 0 where
  pub address : Text
  pub value_sat : ℤ
  pub change : Bool

pub record Record : Type 0 where
  pub v : ℕ
  pub id : Text
  pub seq : ℕ
  pub ts : Text
  pub network : Text
  pub wallet : Text
  pub status : Status
  pub source : Text
  pub txid : Text
  pub raw_tx : Text
  pub fee_rate : ℤ
  pub fee_sat : ℤ
  pub vsize : ℤ
  pub inputs : List JInput
  pub outputs : List JOutput
  pub recipient_addr : Text
  pub recipient_sat : ℤ
  pub change_addr : Text
  pub confirmations : ℤ
  pub block_height : ℤ
  pub error : Option Text
  pub reservation_id : Text
  pub replaces_id : Text
  pub replaced_by_id : Text
  pub psbt_base64 : Text

pub record StateMutation : Type 0 where
  pub status : Status
  pub txid : Option Text
  pub confirmations : Option ℤ
  pub block_height : Option ℤ
  pub error : Option Text
  pub replaced_by : Option Text

abbrev or_else {ℓ} : {A : Type ℓ} → Option A → A → A
or_else none a = a
or_else (some b) a = b

abbrev named : Status → Status → Status
named unnamed old = old
named s old = s

-- applyTo
unfoldable pub apply_to : StateMutation → Record → Record
apply_to m dst = record dst {
  status = named m.status dst.status;
  txid = or_else m.txid dst.txid;
  confirmations = or_else m.confirmations dst.confirmations;
  block_height = or_else m.block_height dst.block_height;
  error = elim m.error [ none ↦ dst.error | some e ↦ some e ];
  replaced_by_id = or_else m.replaced_by dst.replaced_by_id;
}

-- The map of foldLatest as a list with one record per id.
unfoldable pub lookup : Text → List Record → Option Record
lookup id [] = none
lookup id (r ∷ rs) = let rest = lookup id rs in if text_eq id r.id then some r else rest

-- One pass of the loop of foldLatest.
unfoldable pub upsert : Record → List Record → List Record
upsert r [] = r ∷ []
upsert r (cur ∷ rs) =
    let rest = upsert r rs in
    if text_eq r.id cur.id then (if leb cur.seq r.seq then r else cur) ∷ rs else cur ∷ rest

unfoldable pub fold_onto : List Record → List Record → List Record
fold_onto latest [] = latest
fold_onto latest (r ∷ rs) = fold_onto (upsert r latest) rs

unfoldable pub fold_latest : List Record → List Record
fold_latest recs = fold_onto [] recs

unfoldable pub sort_by_seq_desc : List Record → List Record
sort_by_seq_desc rs = sort (λ a b. ltb b.seq a.seq) rs

-- What a line of the file decodes to.
pub data Line : Type 0 where
  blank corrupt : Line
  entry : Record → Line

-- `torn`: an unterminated last line, which is not blank.
pub record Contents : Type 0 where
  pub lines : List Line
  pub torn : Bool

pub data JournalFile : Type 0 where
  missing unreadable : JournalFile
  data_of : Contents → JournalFile

-- The records that readAll keeps.
unfoldable pub entries : List Line → List Record
entries [] = []
entries (blank ∷ ls) = entries ls
entries (corrupt ∷ ls) = entries ls
entries (entry r ∷ ls) = r ∷ entries ls

-- maxSeq of readAll.
unfoldable pub max_seq : List Record → ℕ
max_seq [] = 0
max_seq (r ∷ rs) = let m = max_seq rs in if ltb m r.seq then r.seq else m
