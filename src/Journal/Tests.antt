-- ===== src/Journal/Tests.antt =====
-- Tests of the journal, and the instances at which its theorems apply.
use mathlib.Core.List.{Mem}
use daxib.Prelude.{
  not, ◌⊎◌, ℕ, ◌+◌, ◌≡◌, refl, arith, true, [], ◌∷◌, none, some, if◌then◌else◌, Text, text_eq,
  codes,
}
use daxib.Prelude.Subsets.{All}
use daxib.Journal.{
  is_terminal, Record, Status, signed, broadcast, StateMutation, JournalFile, missing, data_of,
  entry, corrupt, blank, lookup, fold_latest, entries, max_seq,
}
use daxib.Journal.Queries.{unresolved_complete}
use daxib.Journal.Store.{unresolved, Store, Io, acquired, synced, append, set_state, snapshot}
use daxib.Prelude.Int.{pos}
use daxib.Prelude.Outcome.{ok}
use daxib.Journal.Write.{records, view, append-view}
use daxib.Journal.Transition.{set_state-view, moved}

abbrev payment : Text → ℕ → Record
payment id seq = record {
  v = 1;
  id = id;
  seq = seq;
  ts = codes "t0";
  network = codes "signet";
  wallet = codes "main";
  status = signed;
  source = codes "cli";
  txid = codes "ab";
  raw_tx = codes "00";
  fee_rate = pos 2;
  fee_sat = pos 282;
  vsize = pos 141;
  inputs = [];
  outputs = [];
  recipient_addr = codes "tb1q";
  recipient_sat = pos 1000;
  change_addr = [];
  confirmations = pos 0;
  block_height = pos 0;
  error = none;
  reservation_id = [];
  replaces_id = [];
  replaced_by_id = [];
  psbt_base64 = [];
}

abbrev store : Store
store = record {
  disk = λ net.
      if text_eq net (codes "signet")
      then data_of (record {
        lines = entry (payment (codes "a") 1) ∷ corrupt ∷ entry (payment (codes "b") 2) ∷ [];
        torn = true;
      })
      else missing;
}

abbrev io : Io
io = record {
  lock = acquired;
  repairs = true;
  appended = synced;
  fresh_id = some (codes "c");
  now = codes "t1";
  stat_size = some 9000000;
  compacts = true;
}

abbrev to_broadcast : StateMutation
to_broadcast = record {
  status = broadcast;
  txid = none;
  confirmations = none;
  block_height = none;
  error = none;
  replaced_by = none;
}

appends : (append store io (payment [] 0)).1 ≡ ok (payment (codes "c") 3)
unfolding append daxib.Journal.Store.repair text_eq daxib.Journal.Store.complete
    daxib.Journal.Store.write_record daxib.Journal.Store.append_line
    daxib.Journal.Store.maybe_compact entries fold_latest daxib.Journal.fold_onto
    daxib.Journal.upsert daxib.Journal.Store.compact daxib.Journal.Store.next_seq max_seq
appends = refl

-- The broadcast record, as it is written.
abbrev sent : Record
sent = record (payment (codes "a") 3) { status = broadcast; ts = codes "t1" }

moves : (set_state store io (codes "signet") (codes "a") to_broadcast).1 ≡ ok sent
unfolding set_state daxib.Journal.Store.repair daxib.Journal.Store.write_record
    daxib.Journal.Store.append_line daxib.Journal.Store.maybe_compact daxib.Journal.Store.compact
    daxib.Journal.Store.appended_to daxib.Journal.Store.put daxib.Journal.Store.next_seq text_eq
    lookup fold_latest entries max_seq snapshot daxib.Journal.fold_onto daxib.Journal.upsert
    daxib.Journal.apply_to
moves = refl

append-view_example :
    (3 ≡ max_seq (records store (codes "signet")) + 1)
    × (view (append store io (payment [] 0)).0 (codes "signet") (codes "a") ≡ (
        if text_eq (codes "a") (codes "c")
        then some (payment (codes "c") 3)
        else view store (codes "signet") (codes "a")))
unfolding max_seq entries text_eq
append-view_example =
    append-view store io (payment [] 0) (payment (codes "c") 3) (codes "a") (omega arith) appends

set_state-view_example :
    (prior : Record) × (view store (codes "signet") (codes "a") ≡ some prior)
    × (sent ≡ moved io (records store (codes "signet")) to_broadcast prior)
    × (3 ≡ max_seq (records store (codes "signet")) + 1)
    × (view
          (set_state store io (codes "signet") (codes "a") to_broadcast).0
          (codes "signet")
          (codes "b")
        ≡ (if text_eq (codes "b") (codes "a")
            then some sent
            else view store (codes "signet") (codes "b")))
unfolding max_seq entries text_eq
set_state-view_example =
    set_state-view store io (codes "signet") (codes "a") to_broadcast sent (codes "b") (omega arith)
      moves

lists :
    unresolved store io (codes "signet") ≡ ok (payment (codes "b") 2 ∷ payment (codes "a") 1 ∷ [])
unfolding unresolved daxib.Journal.Store.read daxib.Journal.Store.read_all text_eq
    daxib.Journal.sort_by_seq_desc daxib.Prelude.Sort.sort daxib.Journal.Store.select_records
    fold_latest daxib.Journal.fold_onto entries daxib.Journal.upsert is_terminal
lists = refl

finds_b : view store (codes "signet") (codes "b") ≡ some (payment (codes "b") 2)
unfolding lookup fold_latest daxib.Journal.fold_onto entries text_eq daxib.Journal.upsert
finds_b = refl

unresolved_complete_example :
    All
      (λ x. not (is_terminal x.status) ≡ true)
      (payment (codes "b") 2 ∷ payment (codes "a") 1 ∷ [])
    × ((is_terminal signed ≡ true)
        ⊎ Mem (payment (codes "b") 2) (payment (codes "b") 2 ∷ payment (codes "a") 1 ∷ []))
unresolved_complete_example =
    unresolved_complete store io (codes "signet")
      (payment (codes "b") 2 ∷ payment (codes "a") 1 ∷ []) (codes "b") (payment (codes "b") 2) lists
      finds_b
